-- ===== src/Account/Spent.antt =====
-- A refresh token that is spent stays so: services/tracking-gateway/internal/usecase/auth.go over
-- storage/postgres/token_repo.go.
use wrany.Prelude.{Yields-some, ◌≡◌, refl, true, some, String, Time, Uuid, Yields, is_some, arith}
use wrany.Action.{Ensures, Keeps}
use wrany.Store.Tables.{find?}
use wrany.Account.Tables.{User, RefreshToken, AccountError, AccountDb}
use wrany.Account.Users
use wrany.Account.Tokens
use wrany.Account.Tokens.{has_hash}
use wrany.Account.Auth.{AuthWork}
use wrany.Account.Rows.{find?-append, find?-update_where, find?-changed}
use wrany.Account.Statements.{insert-Ensures, select-Ensures, change-Ensures}
use wrany.Account.Kept.{IsKept}

-- The row that the token leads to is revoked.
abbrev pub IsSpent : String → AccountDb → Type 0
IsSpent hash db =
    Yields (λ (t : RefreshToken). is_some t.revoked_at ≡ true)
      (find? (has_hash hash) db.refresh_tokens)

module _ (hash : String) where
  save-Keeps : (t : RefreshToken) → Keeps (IsSpent hash) (Tokens.save t)
  unfolding Tokens.save
  save-Keeps t =
      insert-Ensures (IsSpent hash) (IsSpent hash) _ _ _ (λ _ h. h)
        λ db h _. find?-append _ (has_hash hash) db.refresh_tokens _ h

  create-Keeps : (u : User) → Keeps (IsSpent hash) (Users.create u)
  unfolding Users.create
  create-Keeps u = insert-Ensures (IsSpent hash) (IsSpent hash) _ _ _ (λ _ h. h) (λ _ h _. h)

  revoke-Keeps : (now : Time) (id : Uuid) → Keeps (IsSpent hash) (Tokens.revoke now id)
  unfolding Tokens.revoke
  revoke-Keeps now id =
      change-Ensures (IsSpent hash) (IsSpent hash) (IsSpent hash) _ (λ _ h. h) (λ _ h. h)
        λ db h. find?-update_where _ (has_hash hash) _ _ db.refresh_tokens (λ _. refl) (λ _. refl) h

  pub find-Ensures :
      Ensures
        (λ _. Unit)
        (λ _. Unit)
        (λ (t : RefreshToken) db. find? (has_hash hash) db.refresh_tokens ≡ some t)
        (Tokens.find_by_token_hash hash)
  unfolding Tokens.find_by_token_hash
  find-Ensures =
      select-Ensures (λ _. Unit) (λ _. Unit) _ _ AccountError.err_token_not_found (λ _ h. h)
        (λ _ h. h) (λ db _ t e. e)

  pub find-IsSpent-Ensures :
      Ensures
        (IsSpent hash)
        (λ _. Unit)
        (λ (t : RefreshToken) _. is_some t.revoked_at ≡ true)
        (Tokens.find_by_token_hash hash)
  unfolding Tokens.find_by_token_hash
  find-IsSpent-Ensures =
      select-Ensures (IsSpent hash) (λ _. Unit)
        (λ (t : RefreshToken) _. is_some t.revoked_at ≡ true) _ AccountError.err_token_not_found
        (λ _ h. h) (λ _ _. tt) (λ db h t e. Yields-some _ _ h e)

  find_by_email-Keeps : (email : String) → Keeps (IsSpent hash) (Users.find_by_email email)
  unfolding Users.find_by_email
  find_by_email-Keeps email =
      select-Ensures (IsSpent hash) (IsSpent hash) (λ _. IsSpent hash) _
        AccountError.err_user_not_found (λ _ h. h) (λ _ h. h) (λ db h _ _. h)

  pub find_by_token_hash-Keeps :
      (other : String) → Keeps (IsSpent hash) (Tokens.find_by_token_hash other)
  unfolding Tokens.find_by_token_hash
  find_by_token_hash-Keeps other =
      select-Ensures (IsSpent hash) (IsSpent hash) (λ _. IsSpent hash) _
        AccountError.err_token_not_found (λ _ h. h) (λ _ h. h) (λ db h _ _. h)

  -- Revoking the row that the token leads to.
  pub revoke_found-Ensures :
      (now : Time) (t : RefreshToken)
      → Ensures
          (λ db. find? (has_hash hash) db.refresh_tokens ≡ some t)
          (λ _. Unit)
          (λ _. IsSpent hash)
          (Tokens.revoke now t.id)
  unfolding Tokens.revoke
  revoke_found-Ensures now t =
      change-Ensures (λ db. find? (has_hash hash) db.refresh_tokens ≡ some t) (λ _. Unit)
        (IsSpent hash) _ (λ _ h. h) (λ _ _. tt)
        λ db e.
          find?-changed _ (has_hash hash) _ _ db.refresh_tokens t (λ _. refl) (λ _. refl) e
            (ground arith)

  abbrev pub Spent : AuthWork AccountDb → Type 0
  Spent work = IsSpent hash work.store

  pub IsSpent-IsKept : IsKept (IsSpent hash)
  IsSpent-IsKept = record {
    saves = save-Keeps;
    creates = create-Keeps;
    revokes = revoke-Keeps;
    finds_user = find_by_email-Keeps;
    finds_token = find_by_token_hash-Keeps;
  }
