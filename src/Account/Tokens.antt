-- ===== src/Account/Tokens.antt =====
-- `TokenRepo`: services/tracking-gateway/internal/storage/postgres/token_repo.go.
use wrany.Prelude.{◌||◌, Bool, none, some, String, [], ◌∷◌, ◌++◌, Time, Uuid, str_eq, ◌==◌}
use wrany.Store.Tables.{any, find?, update_where}
use wrany.Account.Tables.{RefreshToken, AccountError, AccountDb, Call, select, insert, change}

abbrev pub has_hash : String → RefreshToken → Bool
has_hash hash t = str_eq t.token_hash hash

abbrev pub is_taken : RefreshToken → RefreshToken → Bool
is_taken t s = s.id == t.id || has_hash t.token_hash s

-- `revoked_at` is not among the columns.
unfoldable pub save : RefreshToken → Call AccountDb (Unit {0})
save t =
    insert (λ db. any (is_taken t) db.refresh_tokens) AccountError.internal
      λ db. record db { refresh_tokens = db.refresh_tokens ++ record t { revoked_at = none } ∷ [] }

unfoldable pub find_by_token_hash : String → Call AccountDb RefreshToken
find_by_token_hash hash =
    select (λ db. find? (has_hash hash) db.refresh_tokens) AccountError.err_token_not_found

-- `now` is the answer of `time.Now`.
unfoldable pub revoke : Time → Uuid → Call AccountDb (Unit {0})
revoke now id = change λ db. record db {
  refresh_tokens =
      update_where (λ (t : RefreshToken). t.id == id)
        (λ (t : RefreshToken). record t { revoked_at = some now }) db.refresh_tokens;
}
