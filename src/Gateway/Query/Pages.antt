-- ===== src/Gateway/Query/Pages.antt =====
-- What a client reads that follows the cursors of `GetPoints`:
-- services/tracking-gateway/internal/usecase/tracking_query.go and
-- services/tracking-gateway/internal/storage/postgres/tracking_query_repo.go.
use mathlib.Core.Path.{subst}
use wrany.Prelude.{
  ℕ, zero, suc, ◌+◌, ◌<◌, ◌-◌, ◌≡◌, refl, sym, ap, ◌∙◌, true, false, ◌&&◌, Option, none, some,
  String, List, [], ◌∷◌, ◌++◌, append_assoc, map, All, Time, Result, ok, err, length, keep, take,
  sort_by, option_map, str_eq, concat, ltb, ◌==◌, if◌then◌else◌, Bool-cases, inl, inr, arith,
}
use wrany.Domain.Point.{RawLocationPoint}
use wrany.Gateway.Query.Points.{
  QueryError, TrackingPoint, GetPointsInput, TrackingPointFilter, CursorCodec, PointDb, Position,
  validate_range, encode_cursor, decode_cursor, matches, tracking_point, is_behind, comes_before,
  select_points, cut_page, get_points_page, limit_of, filter_of, get_points,
}
use wrany.Gateway.Query.Sorted.{
  str_lt-asym, str_lt-cotrans, keep-keep, keep-map, keep-sort_by, AreApart, IsStrict, IsOrder,
  sort_by-All, sort_by-IsStrict, keep-All, map-All, keep_and_true, keep_behind,
}
use wrany.Gateway.Query.Cut.{take_whole, take-take, length-take_more, last?-append, Cut, Cut-at}

-- What base64, the layout of times and the cut at a bar read back: a time is written without a bar.
pub record ReadsBack (codec : CursorCodec) : Type 0 where
  pub base64 : (s : String) → codec.decode_base64 (codec.encode_base64 s) ≡ some s
  pub full :
      (at : Time) (id : String)
      → str_eq (codec.encode_base64 (concat (codec.format_time at) (concat "|" id))) "" ≡ false
  pub cut :
      (at : Time) (id : String)
      → codec.cut_at_bar (concat (codec.format_time at) (concat "|" id))
        ≡ some (codec.format_time at, id)
  pub time : (at : Time) → codec.parse_time (codec.format_time at) ≡ some at

module _ {W : Type 0} where
  comes_before-IsOrder : IsOrder (comes_before {W = W})
  comes_before-IsOrder = record {
    asym = λ p q h. ground (arith, str_lt-asym p.event_id q.event_id);
    cotrans = λ p q r h k. ground (arith, str_lt-cotrans p.event_id q.event_id r.event_id);
  }

  -- What is behind a cursor is the part of all points that is behind it.
  select-behind :
      (f : TrackingPointFilter) (c : Position) (db : PointDb W)
      → select_points f (some c) db ≡ keep (is_behind c) (select_points f none db)
  select-behind f c db =
      let rows = db.raw_location_points in
      let found = keep (λ (p : RawLocationPoint W). matches f p && true) rows in
      ap (λ xs. sort_by comes_before (map tracking_point xs))
        (keep-keep (matches f) (λ (p : RawLocationPoint W). is_behind c (tracking_point p)) rows)
      ∙ ap (sort_by comes_before) (keep-map tracking_point (is_behind c) found)
      ∙ sym (
          keep-sort_by comes_before (is_behind c)
            (λ p q h k. ground (arith, str_lt-cotrans c.1 p.event_id q.event_id))
            (map tracking_point found))

-- A client that asks for the next page, `n` times at most, until there is none.
abbrev pub read_on :
    {W : Type 0}
    → Result QueryError (List (TrackingPoint W) × String)
    → (String → Option (List (TrackingPoint W)))
    → Option (List (TrackingPoint W))
read_on (err e) rest = none
read_on (ok (points, next)) rest =
    let others = rest next in
    if str_eq next "" then some points else option_map (λ qs. points ++ qs) others

unfoldable pub read_pages :
    {W : Type 0} → CursorCodec → ℕ → GetPointsInput → PointDb W → Option (List (TrackingPoint W))
read_pages codec zero input db = none
read_pages codec (suc n) input db =
    read_on (get_points codec input db)
      λ next. read_pages codec n (record input { cursor = next }) db

limit_of-suc : (limit : ℕ) → (k : ℕ) × (limit_of limit ≡ suc k)
limit_of-suc limit = (limit_of limit - 1, ground arith)

module _ {W : Type 0} (codec : CursorCodec) (k : ℕ) (left : List (TrackingPoint W)) where
  cut_page-last :
      ltb (suc k) (length left) ≡ false
      → cut_page codec (suc k) (take (suc (suc k)) left) ≡ (left, "")
  cut_page-last h = rw (take_whole (suc (suc k)) left (ground arith), h)

  cut_page-more :
      (c : Cut k left)
      → ltb (suc k) (length left) ≡ true
      → cut_page codec (suc k) (take (suc (suc k)) left)
        ≡ (c.front ++ c.final ∷ [], encode_cursor codec c.final.recorded_at c.final.event_id)
  cut_page-more c h = rw (
    length-take_more (suc k) left,
    h,
    take-take (suc k) left,
    c.page,
    last?-append c.front c.final,
  )

module _ {W : Type 0} (codec : CursorCodec) (input : GetPointsInput) (db : PointDb W)
    (up : db.up ≡ true) (range : validate_range input.from input.until ≡ none) where
  -- All points that match, in order.
  abbrev pub all_points : List (TrackingPoint W)
  all_points = select_points (filter_of input) none db

  -- What is left to be read at a cursor.
  abbrev left_at : String → List (TrackingPoint W)
  left_at cursor = select_points (filter_of input) (decode_cursor codec cursor) db

  get_points-page :
      (cursor : String)
      → get_points codec (record input { cursor = cursor }) db
        ≡ ok (
            cut_page codec
              (limit_of input.limit)
              (take (limit_of input.limit + 1) (left_at cursor)))
  unfolding get_points get_points_page
  get_points-page cursor = rw (range, up)

  -- The cursor of a point is read back.
  abbrev IsRead : TrackingPoint W → Type 0
  IsRead p =
      (str_eq (encode_cursor codec p.recorded_at p.event_id) "" ≡ false)
      × (decode_cursor codec (encode_cursor codec p.recorded_at p.event_id)
          ≡ some (p.recorded_at, p.event_id))

  at_end :
      (xs : List (TrackingPoint W)) (l : TrackingPoint W) (ys : List (TrackingPoint W))
      → All IsRead (xs ++ l ∷ ys)
      → IsRead l
  at_end [] l ys (h, hs) = h
  at_end (x ∷ xs) l ys (h, hs) = at_end xs l ys hs

  left_behind :
      (xs : List (TrackingPoint W)) (l : TrackingPoint W) (ys : List (TrackingPoint W))
      → all_points ≡ xs ++ l ∷ ys
      → IsStrict comes_before all_points
      → IsRead l
      → left_at (encode_cursor codec l.recorded_at l.event_id) ≡ ys
  left_behind xs l ys e strict (_, read) =
      ap (λ c. select_points (filter_of input) c db) read
      ∙ select-behind (filter_of input) (l.recorded_at, l.event_id) db
      ∙ ap (keep (comes_before l)) e
      ∙ keep_behind comes_before comes_before-IsOrder xs l ys
          (subst (IsStrict comes_before) e strict)

  page_at :
      (k : ℕ) (cursor : String) (left : List (TrackingPoint W))
      → limit_of input.limit ≡ suc k
      → left_at cursor ≡ left
      → get_points codec (record input { cursor = cursor }) db
        ≡ ok (cut_page codec (suc k) (take (suc (suc k)) left))
  page_at k cursor left e e' =
      let more : suc k + 1 ≡ suc (suc k) = omega arith in
      get_points-page cursor
      ∙ ap (λ l. ok (cut_page codec l (take (l + 1) (left_at cursor)))) e
      ∙ ap (λ m. ok (cut_page codec (suc k) (take m (left_at cursor)))) more
      ∙ ap (λ xs. ok (cut_page codec (suc k) (take (suc (suc k)) xs))) e'

  read_last :
      (k n : ℕ) (cursor : String) (left : List (TrackingPoint W))
      → limit_of input.limit ≡ suc k
      → left_at cursor ≡ left
      → ltb (suc k) (length left) ≡ false
      → read_pages codec (suc n) (record input { cursor = cursor }) db ≡ some left
  unfolding read_pages
  read_last k n cursor left e e' h =
      rw (page_at k cursor left e e' ∙ ap ok (cut_page-last codec k left h))

  read_next :
      (k n : ℕ) (cursor : String) (left : List (TrackingPoint W)) (c : Cut k left)
      → limit_of input.limit ≡ suc k
      → left_at cursor ≡ left
      → ltb (suc k) (length left) ≡ true
      → str_eq (encode_cursor codec c.final.recorded_at c.final.event_id) "" ≡ false
      → read_pages codec n
          (record input { cursor = encode_cursor codec c.final.recorded_at c.final.event_id })
          db
        ≡ some c.rest
      → read_pages codec (suc n) (record input { cursor = cursor }) db ≡ some left
  unfolding read_pages
  read_next k n cursor left c e e' h full others =
      rw (page_at k cursor left e e' ∙ ap ok (cut_page-more codec k left c h), full, others)
        (rw c.whole (ap some (append_assoc c.front (c.final ∷ []) c.rest)))

  read_left :
      (k : ℕ)
      → limit_of input.limit ≡ suc k
      → IsStrict comes_before all_points
      → All IsRead all_points
      → (n : ℕ) (cursor : String) (done left : List (TrackingPoint W)) → all_points ≡ done ++ left
      → left_at cursor ≡ left
      → length left < n
      → read_pages codec n (record input { cursor = cursor }) db ≡ some left
  read_left k e strict read zero cursor done left split e' enough = ground arith
  read_left k e strict read (suc n) cursor done left split e' enough =
      elim (Bool-cases (ltb (suc k) (length left))) [
        | inr h ↦ read_last k n cursor left e e' h
        | inl h ↦
            let c = Cut-at k left (ground arith) in
            let whole : all_points ≡ (done ++ c.front) ++ c.final ∷ c.rest =
              split
              ∙ ap (λ xs. done ++ xs) c.whole
              ∙ sym (append_assoc done c.front (c.final ∷ c.rest)) in
            let found = at_end (done ++ c.front) c.final c.rest (subst (All IsRead) whole read) in
            read_next k n cursor left c e e' h found.0 (
              read_left k e strict read n (encode_cursor codec c.final.recorded_at c.final.event_id)
                ((done ++ c.front) ++ c.final ∷ []) c.rest
                (whole ∙ sym (append_assoc (done ++ c.front) (c.final ∷ []) c.rest))
                (left_behind (done ++ c.front) c.final c.rest whole strict found)
                (omega (arith, c.shorter, enough)))
      ]

  module _ (reads : ReadsBack codec) where
    decoded-IsRead : (p : TrackingPoint W) → (p.recorded_at == 0) ≡ false → IsRead p
    unfolding encode_cursor decode_cursor
    decoded-IsRead p h =
        let full = reads.full p.recorded_at p.event_id in
        (
          full,
          rw (
            full,
            reads.base64 _,
            reads.cut p.recorded_at p.event_id,
            reads.time p.recorded_at,
            h,
          ),
        )

    all-IsRead : All IsRead all_points
    unfolding validate_range
    all-IsRead = sort_by-All comes_before IsRead _ (
        map-All tracking_point IsRead _ (
          keep-All (λ (p : RawLocationPoint W). IsRead (tracking_point p)) _ db.raw_location_points
            λ p h. decoded-IsRead (tracking_point p) (ground arith)))

    -- On a database that is up and over a range that is valid, a client that begins without a cursor
    -- and follows the cursors ends, after at most one page for each point and one more, and has read
    -- all points that match, in their order and each once, if no two of them have the same time and
    -- event id, and cursors are read back.
    pub read_pages_reads_all :
        AreApart comes_before
          (map tracking_point (keep (matches (filter_of input)) db.raw_location_points))
        → read_pages codec (suc (length all_points)) (record input { cursor = "" }) db
          ≡ some all_points
    unfolding decode_cursor
    read_pages_reads_all apart =
        let (k, e) = limit_of-suc input.limit in
        let strict : IsStrict comes_before all_points =
          sort_by-IsStrict comes_before comes_before-IsOrder _ (
            subst (λ xs. AreApart comes_before (map tracking_point xs))
              (sym (keep_and_true (matches (filter_of input)) db.raw_location_points)) apart) in
        read_left k e strict all-IsRead (suc (length all_points)) "" [] all_points refl refl
          (omega arith)
