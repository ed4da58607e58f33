-- ===== src/Account/Kept.antt =====
-- A condition on the tables that every statement keeps is kept by `Register`, `Login` and the
-- rotation: services/tracking-gateway/internal/usecase/auth.go.
use wrany.Prelude.{◌+◌, Option, String, Time, Uuid, if-elim}
use wrany.Action.{pure, Outcome, Keeps, Keeps-bind}
use wrany.Account.Tables.{User, RefreshToken, AccountError, AccountDb, Call, or_error}
use wrany.Account.Users
use wrany.Account.Tokens
use wrany.Account.Tokens.{has_hash}
use wrany.Account.Auth.{
  AuthSetup, AuthWork, TokenPair, on_store, token_of, issue_token_pair, create_user, register,
  login, rotate, check_password, find_user, save_token, draw_token, add_user, user_of,
  sign_access_token, generate_random_token, hash_password, normalize_email, fail, user_repo,
  token_repo,
}
use wrany.Account.Statements.{on_store-Ensures, answer_as-Outcome, or_error-Outcome}

-- The condition after each statement that the three requests make.
pub record IsKept (P : AccountDb → Type 0) : Type 0 where
  pub saves : (t : RefreshToken) → Keeps P (Tokens.save t)
  pub creates : (u : User) → Keeps P (Users.create u)
  pub revokes : (now : Time) (id : Uuid) → Keeps P (Tokens.revoke now id)
  pub finds_user : (email : String) → Keeps P (Users.find_by_email email)
  pub finds_token : (hash : String) → Keeps P (Tokens.find_by_token_hash hash)

module _ (P : AccountDb → Type 0) where
  -- The condition on the work.
  abbrev pub OnWork : AuthWork AccountDb → Type 0
  OnWork work = P work.store

  pub on_store-Keeps : {A : Type 0} (m : Call AccountDb A) → Keeps P m → Keeps OnWork (on_store m)
  on_store-Keeps m h = on_store-Ensures P P (λ _. P) m h

  supply-Keeps :
      {A : Type 0} (o : Option A) (work : AuthWork AccountDb)
      → OnWork work
      → Outcome OnWork (λ (_ : A). OnWork) (or_error o AccountError.internal, work)
  supply-Keeps o work h = or_error-Outcome OnWork (λ _. OnWork) o _ work h (λ _ _. h)

  module _ (set : AuthSetup) (saves : (t : RefreshToken) → Keeps P (Tokens.save t)) where
    save_token-Keeps :
        (user_id : Uuid) (now : Time) (access raw : String)
        → Keeps OnWork (save_token user_repo token_repo set user_id now access raw)
    unfolding save_token
    save_token-Keeps user_id now access raw work h =
        Keeps-bind OnWork
          (on_store (Tokens.save (token_of set (set.fresh work.issued) user_id raw now)))
          (λ _. pure (record { access_token = access; refresh_token = raw }))
          (on_store-Keeps (Tokens.save (token_of set (set.fresh work.issued) user_id raw now))
            (saves _))
          (λ _ _ k. k) (record work { issued = work.issued + 1 }) h

    pub issue_token_pair-Keeps :
        (user_id : Uuid) → Keeps OnWork (issue_token_pair user_repo token_repo set user_id)
    unfolding issue_token_pair draw_token
    issue_token_pair-Keeps user_id work h =
        let now = set.clock work.readings in
        Keeps-bind OnWork (sign_access_token set user_id now)
          (draw_token user_repo token_repo set user_id now) (λ w k. supply-Keeps _ w k)
          (λ access.
            Keeps-bind OnWork (generate_random_token set)
              (save_token user_repo token_repo set user_id now access) (λ w k. supply-Keeps _ _ k)
              (save_token-Keeps user_id now access))
          (record work { readings = work.readings + 1 }) h

  module _ (set : AuthSetup) (kept : IsKept P) where
    pub register-Keeps :
        (email password : String) → Keeps OnWork (register user_repo token_repo set email password)
    unfolding register create_user add_user
    register-Keeps email password work h =
        if-elim (λ (m : Call (AuthWork AccountDb) TokenPair). Outcome OnWork (λ _. OnWork) (m work))
          _ (fail AccountError.err_validation)
          (create_user user_repo token_repo set (normalize_email set email) password) (λ _. h)
          λ _.
            Keeps-bind OnWork (hash_password set password)
              (add_user user_repo token_repo set (normalize_email set email))
              (λ w k. supply-Keeps _ _ k)
              (λ hash w k.
                Keeps-bind OnWork
                  (on_store (
                    Users.create (
                      user_of (set.fresh w.issued) (normalize_email set email) hash
                        (set.clock w.readings))))
                  (λ _. issue_token_pair user_repo token_repo set (set.fresh w.issued))
                  (on_store-Keeps
                    (Users.create (
                      user_of (set.fresh w.issued) (normalize_email set email) hash
                        (set.clock w.readings)))
                    (kept.creates _))
                  (λ _. issue_token_pair-Keeps set kept.saves _)
                  (record w { readings = w.readings + 1; issued = w.issued + 1 }) k)
              work h

    pub login-Keeps :
        (email password : String) → Keeps OnWork (login user_repo token_repo set email password)
    unfolding login check_password
    login-Keeps email password =
        Keeps-bind OnWork (find_user user_repo token_repo set (normalize_email set email))
          (check_password user_repo token_repo set password)
          (λ w k.
            answer_as-Outcome OnWork (λ _. OnWork) AccountError.err_invalid_credentials
              (on_store (Users.find_by_email (normalize_email set email)) w)
              (on_store-Keeps (Users.find_by_email (normalize_email set email)) (kept.finds_user _)
                w k))
          λ user work h.
            if-elim
              (λ (m : Call (AuthWork AccountDb) TokenPair). Outcome OnWork (λ _. OnWork) (m work))
              (set.bcrypt_matches user.password_hash password)
              (issue_token_pair user_repo token_repo set user.id)
              (fail AccountError.err_invalid_credentials)
              (λ _. issue_token_pair-Keeps set kept.saves user.id work h) (λ _. h)

    pub rotate-Keeps : (t : RefreshToken) → Keeps OnWork (rotate user_repo token_repo set t)
    unfolding rotate
    rotate-Keeps t work h =
        Keeps-bind OnWork (on_store (Tokens.revoke (set.clock work.readings) t.id))
          (λ _. issue_token_pair user_repo token_repo set t.user_id)
          (on_store-Keeps (Tokens.revoke (set.clock work.readings) t.id) (kept.revokes _ t.id))
          (λ _. issue_token_pair-Keeps set kept.saves t.user_id)
          (record work { readings = work.readings + 1 }) h
