-- ===== src/Account/Rotation.antt =====
-- What becomes of a refresh token: services/tracking-gateway/internal/usecase/auth.go over
-- storage/postgres/token_repo.go.
use wrany.Prelude.{
  ◌≢◌, contradiction, ◌+◌, ◌≡◌, ◌≢◌, true, false, some, Result, ok, err, String, List, [], ◌∷◌,
  is_some, ltb, if-elim,
}
use wrany.Action.{
  reached, weaken-Outcome, Outcome, Ensures, Ensures-bind, Keeps, Keeps-bind, Outcome-either,
}
use wrany.Store.Tables.{find?}
use wrany.Account.Tables.{RefreshToken, AccountError, AccountDb, Call}
use wrany.Account.Tokens
use wrany.Account.Tokens.{has_hash}
use wrany.Account.Auth.{
  AuthSetup, AuthWork, TokenPair, on_store, issue_token_pair, register, login, rotate, refresh,
  check_token, find_token, user_repo, token_repo,
}
use wrany.Account.Statements.{on_store-Ensures, answer_as-Outcome}
use wrany.Account.Kept.{
  on_store-Keeps, issue_token_pair-Keeps, register-Keeps, login-Keeps, rotate-Keeps,
}
use wrany.Account.Spent.{
  IsSpent, Spent, IsSpent-IsKept, find-Ensures, find-IsSpent-Ensures, find_by_token_hash-Keeps,
  revoke_found-Ensures,
}

-- A call of the three that issue tokens.
pub data AuthRequest : Type 0 where
  registers logins : String → String → AuthRequest
  refreshes : String → AuthRequest

module _ (set : AuthSetup) where
  unfoldable pub serve : AuthRequest → AuthWork AccountDb → AuthWork AccountDb
  serve (AuthRequest.registers email password) work =
      (register user_repo token_repo set email password work).1
  serve (AuthRequest.logins email password) work =
      (login user_repo token_repo set email password work).1
  serve (AuthRequest.refreshes raw) work = (refresh user_repo token_repo set raw work).1

  unfoldable pub serve_all : List AuthRequest → AuthWork AccountDb → AuthWork AccountDb
  serve_all [] work = work
  serve_all (r ∷ rs) work = serve_all rs (serve r work)

  -- A test of the checks, which leave the database alone where they refuse.
  check_token-Outcome :
      (E : AuthWork AccountDb → Type 0) (Q : TokenPair → AuthWork AccountDb → Type 0)
      (t : RefreshToken) (work : AuthWork AccountDb)
      → let after : AuthWork AccountDb = record work { readings = work.readings + 1 } in
        E after
        → (is_some t.revoked_at ≡ false → Outcome E Q (rotate user_repo token_repo set t after))
        → Outcome E Q (check_token user_repo token_repo set t work)
  unfolding check_token
  check_token-Outcome E Q t work refused rotated =
      let after : AuthWork AccountDb = record work { readings = work.readings + 1 } in
      if-elim (λ (m : Call (AuthWork AccountDb) TokenPair). Outcome E Q (m after))
        (ltb t.expires_at (set.clock work.readings)) _ _ (λ _. refused)
        λ _.
          if-elim (λ (m : Call (AuthWork AccountDb) TokenPair). Outcome E Q (m after))
            (is_some t.revoked_at) _ _ (λ _. refused) rotated

  module _ (hash : String) where
    find_token-Keeps :
        (other : String) → Keeps (Spent hash) (find_token user_repo token_repo set other)
    find_token-Keeps other w k =
        answer_as-Outcome (Spent hash) (λ _. Spent hash) AccountError.err_invalid_credentials
          (on_store (Tokens.find_by_token_hash other) w)
          (on_store-Keeps (IsSpent hash) (Tokens.find_by_token_hash other)
            (find_by_token_hash-Keeps hash other) w k)

    -- The row that the token leads to.
    abbrev Leads : RefreshToken → AuthWork AccountDb → Type 0
    Leads t work = find? (has_hash hash) work.store.refresh_tokens ≡ some t

    rotate_found :
        (t : RefreshToken)
        → Ensures (Leads t) (λ _. Unit) (λ _. Spent hash) (rotate user_repo token_repo set t)
    unfolding rotate
    rotate_found t work e =
        Ensures-bind (Leads t) (λ _. Unit) (λ _. Spent hash) (λ _. Spent hash)
          (on_store (Tokens.revoke (set.clock work.readings) t.id))
          (λ _. issue_token_pair user_repo token_repo set t.user_id)
          (on_store-Ensures (λ db. find? (has_hash hash) db.refresh_tokens ≡ some t) (λ _. Unit)
            (λ _. IsSpent hash) (Tokens.revoke (set.clock work.readings) t.id)
            (revoke_found-Ensures hash (set.clock work.readings) t))
          (λ _ w k.
            weaken-Outcome (Spent hash) (λ _. Unit) (λ _. Spent hash)
              (issue_token_pair user_repo token_repo set t.user_id w) (λ _ _. tt)
              (issue_token_pair-Keeps (IsSpent hash) set (IsSpent-IsKept hash).saves t.user_id w k))
          (record work { readings = work.readings + 1 }) e

    refresh-Keeps : (raw : String) → Keeps (Spent hash) (refresh user_repo token_repo set raw)
    unfolding refresh
    refresh-Keeps raw =
        Keeps-bind (Spent hash) (find_token user_repo token_repo set (set.sha256_hex raw))
          (check_token user_repo token_repo set) (find_token-Keeps (set.sha256_hex raw))
          λ t work h.
            check_token-Outcome (Spent hash) (λ _. Spent hash) t work h
              λ _.
                rotate-Keeps (IsSpent hash) set (IsSpent-IsKept hash) t
                  (record work { readings = work.readings + 1 }) h

    serve-Spent :
        (r : AuthRequest) (work : AuthWork AccountDb) → Spent hash work → Spent hash (serve r work)
    unfolding serve
    serve-Spent (AuthRequest.registers email password) work h =
        Outcome-either (Spent hash) (register user_repo token_repo set email password work)
          (register-Keeps (IsSpent hash) set (IsSpent-IsKept hash) email password work h)
    serve-Spent (AuthRequest.logins email password) work h =
        Outcome-either (Spent hash) (login user_repo token_repo set email password work)
          (login-Keeps (IsSpent hash) set (IsSpent-IsKept hash) email password work h)
    serve-Spent (AuthRequest.refreshes raw) work h =
        Outcome-either (Spent hash) (refresh user_repo token_repo set raw work)
          (refresh-Keeps raw work h)

    serve_all-Spent :
        (rs : List AuthRequest) (work : AuthWork AccountDb)
        → Spent hash work
        → Spent hash (serve_all rs work)
    unfolding serve_all
    serve_all-Spent [] work h = h
    serve_all-Spent (r ∷ rs) work h = serve_all-Spent rs (serve r work) (serve-Spent r work h)

  -- A spent token is refused.
  refresh-Spent :
      (raw : String)
      → Ensures
          (Spent (set.sha256_hex raw))
          (λ _. Unit)
          (λ _ _. ⊥)
          (refresh user_repo token_repo set raw)
  unfolding refresh
  refresh-Spent raw =
      Ensures-bind (Spent (set.sha256_hex raw)) (λ _. Unit)
        (λ (t : RefreshToken) _. is_some t.revoked_at ≡ true) (λ _ _. ⊥)
        (find_token user_repo token_repo set (set.sha256_hex raw))
        (check_token user_repo token_repo set)
        (λ work h.
          answer_as-Outcome (λ _. Unit) (λ (t : RefreshToken) _. is_some t.revoked_at ≡ true)
            AccountError.err_invalid_credentials
            (on_store (Tokens.find_by_token_hash (set.sha256_hex raw)) work)
            (on_store-Ensures (IsSpent (set.sha256_hex raw)) (λ _. Unit)
              (λ (t : RefreshToken) _. is_some t.revoked_at ≡ true)
              (Tokens.find_by_token_hash (set.sha256_hex raw))
              (find-IsSpent-Ensures (set.sha256_hex raw)) work h))
        λ t work revoked.
          check_token-Outcome (λ _. Unit) (λ _ _. ⊥) t work tt
            λ live. contradiction (is_some t.revoked_at) revoked live

  -- A token that was exchanged is spent.
  refresh_spends :
      (raw : String)
      → Ensures
          (λ _. Unit)
          (λ _. Unit)
          (λ _. Spent (set.sha256_hex raw))
          (refresh user_repo token_repo set raw)
  unfolding refresh
  refresh_spends raw =
      let hash = set.sha256_hex raw in
      Ensures-bind (λ _. Unit) (λ _. Unit) (Leads hash) (λ _. Spent hash)
        (find_token user_repo token_repo set hash) (check_token user_repo token_repo set)
        (λ work h.
          answer_as-Outcome (λ _. Unit) (Leads hash) AccountError.err_invalid_credentials
            (on_store (Tokens.find_by_token_hash hash) work)
            (on_store-Ensures (λ _. Unit) (λ _. Unit)
              (λ (t : RefreshToken) db. find? (has_hash hash) db.refresh_tokens ≡ some t)
              (Tokens.find_by_token_hash hash) (find-Ensures hash) work h))
        λ t work e.
          check_token-Outcome (λ _. Unit) (λ _. Spent hash) t work tt λ _. rotate_found hash t _ e

  not_ok :
      (r : Result AccountError TokenPair × AuthWork AccountDb) (pair : TokenPair)
      → Outcome (λ _. Unit) (λ _ _. ⊥) r
      → r.0 ≢ ok pair
  not_ok (err e, w) pair h = cc
  not_ok (ok a, w) pair h = absurd h

  -- A refresh token that was exchanged for a pair is never accepted again, whatever is registered,
  -- logged in and refreshed in between, and whatever statements fail.
  pub refresh_once :
      (raw : String) (work : AuthWork AccountDb) (pair : TokenPair) (between : List AuthRequest)
      (another : TokenPair)
      → (refresh user_repo token_repo set raw work).0 ≡ ok pair
      → (refresh user_repo token_repo set raw
          (serve_all between (serve (AuthRequest.refreshes raw) work))).0
        ≢ ok another
  unfolding serve
  refresh_once raw work pair between another e =
      let hash = set.sha256_hex raw in
      let after = serve_all between (serve (AuthRequest.refreshes raw) work) in
      not_ok (refresh user_repo token_repo set raw after) another (
        refresh-Spent raw after (
          serve_all-Spent hash between (serve (AuthRequest.refreshes raw) work) (
            reached (λ (_ : TokenPair). Spent hash) (refresh user_repo token_repo set raw work) pair
              (refresh_spends raw work tt) e)))
