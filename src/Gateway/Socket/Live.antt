-- ===== src/Gateway/Socket/Live.antt =====
-- That each frame of a connection is answered, in order: `readLoop`,
-- services/tracking-gateway/internal/transport/http/websocket_handler.go.
use wrany.Prelude.{
  ◌≡◌, refl, ap, ◌∙◌, inl, inr, true, false, Option, none, some, List, [], ◌∷◌, ◌++◌, append_assoc,
  append_nil, Uuid, str_eq, if-elim,
}
use wrany.Float64.{Float64}
use wrany.Events.Validation.{Bytes}
use wrany.Gateway.Event.{TrackerSession}
use wrany.Gateway.Socket.Protocol.{WsMessage, Wire, ping, pong, session_start, location_batch}
use wrany.Gateway.Socket.Connection.{Socket}
use wrany.Gateway.Socket.Handler.{Endpoint, handle_session_start, handle_location_batch}
use wrany.Gateway.Socket.Loop.{
  Next, after_session_start, take_batch, dispatch, take_message, go_on, read_loop,
}
use wrany.Gateway.Socket.Answers.{Encodes, IsReplyTo, Replies, Adds, send_ws_error-Adds}
use wrany.Gateway.Socket.Answered.{
  Goes, start_with-Adds, ingest_payload-Stays, after_session_start-Goes, after_batch-Goes,
  answer_ping-Goes,
}

-- One written text for each frame, with the reply in it.
abbrev pub AnswerEach : {W : Type 0} → Wire W → List Bytes → List Bytes → Type 0
AnswerEach wire [] [] = Unit
AnswerEach wire [] (text ∷ texts) = ⊥
AnswerEach wire (raw ∷ frames) [] = ⊥
AnswerEach wire (raw ∷ frames) (text ∷ texts) =
    ((m : WsMessage) × (wire.write_message m ≡ some text) × Replies (wire.read_message raw) m)
    × AnswerEach wire frames texts

abbrev pub AnsweredFrom : {W S : Type 0} → Wire W → List Bytes → List Bytes → Socket S → Type 0
AnsweredFrom wire before frames s =
    (texts : List Bytes) × (s.written ≡ before ++ texts) × AnswerEach wire frames texts

module _ {W : Type 0} {S : Type 0} ⦃f : Float64 W⦄ (endpoint : Endpoint W S) (user_id : Uuid)
    (encodes : Encodes endpoint.wire) where
  open endpoint use {wire}

  handle_session_start-Goes :
      (msg : WsMessage) (s : Socket S)
      → s.refusals ≡ []
      → str_eq msg.msg_type ping ≡ false
      → str_eq msg.msg_type session_start ≡ true
      → Goes endpoint user_id encodes
          (IsReplyTo msg)
          s.written
          (after_session_start endpoint user_id (handle_session_start endpoint user_id msg s))
  unfolding handle_session_start
  handle_session_start-Goes msg s calm h h' =
      after_session_start-Goes endpoint user_id encodes (IsReplyTo msg) s.written
        (handle_session_start endpoint user_id msg s)
        (start_with-Adds endpoint user_id encodes (IsReplyTo msg) msg.request_id
          (λ raw. (refl, inl refl)) (λ raw. (refl, inr (rw (h, h'))))
          (wire.read_session_start msg.payload) s calm)

  take_batch-Goes :
      (msg : WsMessage) (session : Option TrackerSession) (s : Socket S)
      → s.refusals ≡ []
      → str_eq msg.msg_type ping ≡ false
      → str_eq msg.msg_type session_start ≡ false
      → Goes endpoint user_id encodes
          (IsReplyTo msg)
          s.written
          (take_batch endpoint user_id msg session s)
  unfolding handle_location_batch
  take_batch-Goes msg none s calm h h' =
      send_ws_error-Adds wire (IsReplyTo msg) encodes msg.request_id _ _ s calm
        (λ raw. (refl, inl refl))
  take_batch-Goes msg (some session) s calm h h' =
      after_batch-Goes endpoint user_id encodes (IsReplyTo msg) session s.written msg.request_id
        (λ raw. (refl, inl refl)) (λ raw. (refl, inr (rw (h, h'))))
        (handle_location_batch endpoint user_id msg session s)
        (ingest_payload-Stays endpoint user_id encodes (IsReplyTo msg) msg.request_id
          (λ raw. (refl, inl refl)) (λ raw. (refl, inr (rw (h, h')))) session
          (wire.read_location_batch msg.payload) s calm)

  dispatch-Goes :
      (msg : WsMessage) (session : Option TrackerSession) (s : Socket S)
      → s.refusals ≡ []
      → Goes endpoint user_id encodes
          (IsReplyTo msg)
          s.written
          (dispatch endpoint user_id msg session s)
  unfolding dispatch
  dispatch-Goes msg session s calm =
      let Fine : Next × Socket S → Type 0 =
        Goes endpoint user_id encodes (IsReplyTo msg) s.written in
      if-elim Fine (str_eq msg.msg_type ping) _ _
        (λ h.
          let m : WsMessage = record {
            msg_type = pong;
            request_id = msg.request_id;
            payload = [];
          } in
          answer_ping-Goes endpoint user_id encodes (IsReplyTo msg) session m (wire.write_message m)
            s calm (refl, inr (rw h)) refl (encodes.messages m))
        λ h.
          if-elim Fine (str_eq msg.msg_type session_start) _ _
            (handle_session_start-Goes msg s calm h)
            λ h'.
              if-elim Fine (str_eq msg.msg_type location_batch) _ _
                (λ _. take_batch-Goes msg session s calm h h')
                (λ _.
                  send_ws_error-Adds wire (IsReplyTo msg) encodes msg.request_id _ _ s calm
                    (λ raw. (refl, inl refl)))

  take_message-Goes :
      (msg : Option WsMessage) (session : Option TrackerSession) (s : Socket S)
      → s.refusals ≡ []
      → Goes endpoint user_id encodes
          (Replies msg)
          s.written
          (take_message endpoint user_id msg session s)
  take_message-Goes none session s calm =
      send_ws_error-Adds wire (Replies none) encodes "" _ _ s calm (λ raw. (refl, refl))
  take_message-Goes (some msg) session s calm = dispatch-Goes msg session s calm

  answered_first :
      (before : List Bytes) (raw : Bytes) (frames : List Bytes) (s s' : Socket S)
      → Adds wire (Replies (wire.read_message raw)) before s
      → AnsweredFrom wire s.written frames s'
      → AnsweredFrom wire before (raw ∷ frames) s'
  answered_first before raw frames s s' h (texts, e, each) = (
    h.text ∷ texts,
    e ∙ ap (λ xs. xs ++ texts) h.grown ∙ append_assoc before (h.text ∷ []) texts,
    ((h.reply, h.encoded, h.fits), each),
  )

  go_on-Answered :
      (before : List Bytes) (raw : Bytes) (frames : List Bytes) (r : Next × Socket S)
      → Goes endpoint user_id encodes (Replies (wire.read_message raw)) before r
      → ((session : Option TrackerSession) (s : Socket S)
          → s.refusals ≡ []
          → AnsweredFrom wire s.written frames (read_loop endpoint user_id frames session s))
      → AnsweredFrom wire before
          (raw ∷ frames)
          (go_on endpoint user_id (read_loop endpoint user_id frames) r)
  go_on-Answered before raw frames (Next.reads_on session, s) h rest =
      answered_first before raw frames s (read_loop endpoint user_id frames session s) h
        (rest session s h.calm)
  go_on-Answered before raw frames (Next.closes, s) h rest = absurd h
  go_on-Answered before raw frames (Next.panics, s) h rest = absurd h

  -- If JSON encodes the messages and no write fails, then the loop answers each frame that comes, in
  -- order, with one message, which has the request's id and is the reply of the request's type or an
  -- error; and it writes nothing else and does not end before the frames do.
  pub read_loop_answers_each :
      (frames : List Bytes) (session : Option TrackerSession) (s : Socket S)
      → s.refusals ≡ []
      → AnsweredFrom wire s.written frames (read_loop endpoint user_id frames session s)
  unfolding read_loop
  read_loop_answers_each [] session s calm = ([], rw (append_nil s.written), tt)
  read_loop_answers_each (raw ∷ frames) session s calm =
      go_on-Answered s.written raw frames _
        (take_message-Goes (wire.read_message raw) session s calm) (read_loop_answers_each frames)
