-- ===== src/Account/Login.antt =====
-- Who has registered can log in: services/tracking-gateway/internal/usecase/auth.go over
-- storage/postgres/user_repo.go.
use wrany.Prelude.{
  ℕ, ◌+◌, ◌≡◌, refl, true, false, some, ok, String, Yields, Yields-exists, eq_iff, if-elim, arith,
}
use wrany.Action.{Outcome, Ensures, Ensures-bind, weaken-Outcome, reached, first_of}
use wrany.Store.Tables.{find?}
use wrany.Account.Tables.{
  User, RefreshToken, AccountError, AccountDb, Call, next_statement, select, statement,
}
use wrany.Account.Users
use wrany.Account.Users.{is_taken, has_email}
use wrany.Account.Tokens
use wrany.Account.Auth.{
  AuthSetup, AuthWork, TokenPair, on_store, issue_token_pair, create_user, register, login,
  check_password, add_user, user_of, hash_password, normalize_email, fail, user_repo, token_repo,
}
use wrany.Account.Rows.{find?-append_new}
use wrany.Account.Statements.{insert-Ensures, on_store-Ensures, or_error-Outcome}
use wrany.Account.Kept.{issue_token_pair-Keeps}
use wrany.Route.Links.Rows.{any-ne}

-- A hash is matched by the password that it was made of.
abbrev pub IsMatched : AuthSetup → Type 0
IsMatched set =
    (n : ℕ) (password hash : String)
    → set.bcrypt_hash n password ≡ some hash
    → set.bcrypt_matches hash password ≡ true

module _ (set : AuthSetup) (email password : String) where
  -- The password is that of the user whom the email leads to.
  abbrev IsAccepted : User → Type 0
  IsAccepted u = set.bcrypt_matches u.password_hash password ≡ true

  abbrev CanLogin : AccountDb → Type 0
  CanLogin db = Yields IsAccepted (find? (has_email email) db.users)

  save-CanLogin : (t : RefreshToken) → Ensures CanLogin CanLogin (λ _. CanLogin) (Tokens.save t)
  unfolding Tokens.save
  save-CanLogin t = insert-Ensures CanLogin CanLogin _ _ _ (λ _ h. h) (λ _ h _. h)

  not_taken : (u v : User) → u.email ≡ email → is_taken u v ≡ false → has_email email v ≡ false
  not_taken u v e h = rw⁻¹ e (ground arith)

  create-CanLogin :
      (u : User)
      → u.email ≡ email
      → IsAccepted u
      → Ensures (λ _. Unit) (λ _. Unit) (λ _. CanLogin) (Users.create u)
  unfolding Users.create
  create-CanLogin u e accepted =
      insert-Ensures (λ _. Unit) CanLogin _ _ _ (λ _ _. tt)
        λ db _ h.
          let found =
            find?-append_new (has_email email) db.users u
              (any-ne (is_taken u) (has_email email) db.users (λ v. not_taken u v e) h)
              ((eq_iff u.email email).1 e) in
          rw found.1 accepted

  module _ (law : IsMatched set) where
    add_user-Ensures :
        (hash : String)
        → set.bcrypt_matches hash password ≡ true
        → Ensures
            (λ (_ : AuthWork AccountDb). Unit)
            (λ _. Unit)
            (λ _ work. CanLogin work.store)
            (add_user user_repo token_repo set email hash)
    unfolding add_user
    add_user-Ensures hash accepted work _ =
        let u : User = user_of (set.fresh work.issued) email hash (set.clock work.readings) in
        Ensures-bind (λ (_ : AuthWork AccountDb). Unit) (λ _. Unit) (λ _ w. CanLogin w.store)
          (λ _ w. CanLogin w.store) (on_store (Users.create u))
          (λ _. issue_token_pair user_repo token_repo set (set.fresh work.issued))
          (on_store-Ensures (λ _. Unit) (λ _. Unit) (λ _. CanLogin) (Users.create u)
            (create-CanLogin u refl accepted))
          (λ _ w k.
            weaken-Outcome (λ (v : AuthWork AccountDb). CanLogin v.store) (λ _. Unit)
              (λ _ v. CanLogin v.store)
              (issue_token_pair user_repo token_repo set (set.fresh work.issued) w) (λ _ _. tt)
              (issue_token_pair-Keeps CanLogin set save-CanLogin (set.fresh work.issued) w k))
          (record work { readings = work.readings + 1; issued = work.issued + 1 }) tt

    create_user-Ensures :
        Ensures
          (λ (_ : AuthWork AccountDb). Unit)
          (λ _. Unit)
          (λ _ work. CanLogin work.store)
          (create_user user_repo token_repo set email password)
    unfolding create_user
    create_user-Ensures =
        Ensures-bind (λ (_ : AuthWork AccountDb). Unit) (λ _. Unit)
          (λ hash _. set.bcrypt_matches hash password ≡ true) (λ _ w. CanLogin w.store)
          (hash_password set password) (add_user user_repo token_repo set email)
          (λ work _.
            or_error-Outcome (λ _. Unit) (λ hash _. set.bcrypt_matches hash password ≡ true)
              (set.bcrypt_hash work.salts password) _ _ tt (law work.salts password))
          (λ hash work accepted. add_user-Ensures hash accepted work tt)

-- Where the next statement does not fail, a login with the password of the user goes on to issue
-- tokens for the user.
login_accepted :
    (set : AuthSetup) (email password : String) (work : AuthWork AccountDb)
    → CanLogin set (normalize_email set email) password work.store
    → first_of work.store.failures ≡ false
    → (user : User) × (find? (has_email (normalize_email set email)) work.store.users ≡ some user)
      × (login user_repo token_repo set email password work
          ≡ issue_token_pair user_repo token_repo set user.id
              (record work { store = next_statement work.store }))
unfolding login check_password Users.find_by_email select statement
login_accepted set email password work can calm =
    let (user, found, accepted) =
      Yields-exists (IsAccepted set (normalize_email set email) password)
        (find? (has_email (normalize_email set email)) work.store.users) can in
    (user, found, rw (calm, found, accepted))

module _ (set : AuthSetup) (law : IsMatched set) where
  register-CanLogin :
      (email password : String)
      → Ensures
          (λ (_ : AuthWork AccountDb). Unit)
          (λ _. Unit)
          (λ _ work. CanLogin set (normalize_email set email) password work.store)
          (register user_repo token_repo set email password)
  unfolding register
  register-CanLogin email password work _ =
      if-elim
        (λ (m : Call (AuthWork AccountDb) TokenPair).
          Outcome (λ _. Unit)
            (λ (_ : TokenPair) (w : AuthWork AccountDb).
              CanLogin set (normalize_email set email) password w.store)
            (m work))
        _ (fail AccountError.err_validation)
        (create_user user_repo token_repo set (normalize_email set email) password) (λ _. tt)
        (λ _. create_user-Ensures set (normalize_email set email) password law work tt)

  -- After a registration, a login with the same password, and with an email that is normalized to the
  -- same text, finds a user and goes on to issue tokens for them, if the lookup does not fail and a
  -- password is matched with its hashes.
  pub register_then_login :
      (email again password : String) (work : AuthWork AccountDb) (pair : TokenPair)
      → (register user_repo token_repo set email password work).0 ≡ ok pair
      → normalize_email set again ≡ normalize_email set email
      → first_of (register user_repo token_repo set email password work).1.store.failures ≡ false
      → let after = (register user_repo token_repo set email password work).1 in
        (user : User) × (find? (has_email (normalize_email set again)) after.store.users
          ≡ some user)
        × (login user_repo token_repo set again password after
            ≡ issue_token_pair user_repo token_repo set user.id
                (record after { store = next_statement after.store }))
  register_then_login email again password work pair e same calm =
      login_accepted set again password (register user_repo token_repo set email password work).1
        (rw same (
          reached
            (λ (_ : TokenPair) (w : AuthWork AccountDb).
              CanLogin set (normalize_email set email) password w.store)
            (register user_repo token_repo set email password work) pair
            (register-CanLogin email password work tt) e))
        calm
