-- ===== src/Account/Auth.antt =====
-- `Register`, `Login` and `Refresh`: services/tracking-gateway/internal/usecase/auth.go, over the
-- interfaces `UserRepository` and `RefreshTokenRepository`.
use Prim.Native.String.{len}
use wrany.Prelude.{
  ℕ, ◌+◌, ◌-◌, ◌/◌, ◌||◌, Bool, Option, none, Result, ok, err, String, Time, Uuid, str_eq, ltb,
  is_some, if◌then◌else◌,
}
use wrany.Action.{pure, ◌>>=◌, ◌>>◌}
use wrany.Account.Tables.{User, RefreshToken, AccountError, AccountDb, Call, or_error}
use wrany.Account.Users
use wrany.Account.Tokens

pub record UserRepository (S : Type 0) : Type 0 where
  pub create : User → Call S (Unit {0})
  pub find_by_email : String → Call S User
  pub find_by_id : Uuid → Call S User

-- `revoke` also takes the time that it reads.
pub record RefreshTokenRepository (S : Type 0) : Type 0 where
  pub save : RefreshToken → Call S (Unit {0})
  pub find_by_token_hash : String → Call S RefreshToken
  pub revoke : Time → Uuid → Call S (Unit {0})

pub record Claims : Type 0 where
  pub sub : String
  pub iat : ℕ
  pub exp : ℕ

pub record TokenPair : Type 0 where
  pub access_token : String
  pub refresh_token : String

-- What the use case calls of packages that are not the repository's: `strings.TrimSpace` and
-- `strings.ToLower`, bcrypt (the n-th hash has a salt of its own), JWT with the secret,
-- `hex.EncodeToString` of SHA-256, 32 random bytes in hexadecimal, uuids and the clock. Durations
-- are in nanoseconds; `none` is an error.
pub record AuthSetup : Type 0 where
  pub trim_space : String → String
  pub to_lower : String → String
  pub bcrypt_hash : ℕ → String → Option String
  pub bcrypt_matches : String → String → Bool
  pub signed : Claims → Option String
  pub sha256_hex : String → String
  pub random_hex : ℕ → Option String
  pub text : Uuid → String
  pub fresh : ℕ → Uuid
  pub clock : ℕ → Time
  pub access_ttl : ℕ
  pub refresh_ttl : ℕ

-- The database, and how often the supplies were asked.
pub record AuthWork (S : Type 0) : Type 0 where
  pub store : S
  pub issued : ℕ
  pub readings : ℕ
  pub draws : ℕ
  pub salts : ℕ

-- `Time.Unix`, from Go's zero time.
abbrev pub unix : Time → ℕ
unix t = t / 1_000_000_000 - 62_135_596_800

module _ {S : Type 0} where
  abbrev pub on_store : {A : Type 0} → Call S A → Call (AuthWork S) A
  on_store m work = let r = m work.store in (r.0, record work { store = r.1 })

  abbrev pub fail : {A : Type 0} → AccountError → Call (AuthWork S) A
  fail e work = (err e, work)

  -- An error of whatever kind is answered by another.
  abbrev pub answer_as :
      {A : Type 0} → AccountError → Result AccountError A × S → Result AccountError A × S
  answer_as e (err other, s) = (err e, s)
  answer_as e (ok a, s) = (ok a, s)

abbrev pub user_of : Uuid → String → String → Time → User
user_of id email hash now = record {
  id = id;
  email = email;
  password_hash = hash;
  created_at = now;
  updated_at = now;
}

module _ (set : AuthSetup) where
  abbrev pub normalize_email : String → String
  normalize_email email = set.to_lower (set.trim_space email)

  abbrev pub claims_of : Uuid → Time → Claims
  claims_of user_id now = record {
    sub = set.text user_id;
    iat = unix now;
    exp = unix (now + set.access_ttl);
  }

  abbrev pub token_of : Uuid → Uuid → String → Time → RefreshToken
  token_of id user_id raw now = record {
    id = id;
    user_id = user_id;
    token_hash = set.sha256_hex raw;
    expires_at = now + set.refresh_ttl;
    revoked_at = none;
    created_at = now;
  }

module _ {S : Type 0} (set : AuthSetup) where
  abbrev pub new_uuid : Call (AuthWork S) Uuid
  new_uuid work = (ok (set.fresh work.issued), record work { issued = work.issued + 1 })

  abbrev pub time_now : Call (AuthWork S) Time
  time_now work = (ok (set.clock work.readings), record work { readings = work.readings + 1 })

  abbrev pub sign_access_token : Uuid → Time → Call (AuthWork S) String
  sign_access_token user_id now work =
      (or_error (set.signed (claims_of set user_id now)) AccountError.internal, work)

  abbrev pub generate_random_token : Call (AuthWork S) String
  generate_random_token work = (
    or_error (set.random_hex work.draws) AccountError.internal,
    record work { draws = work.draws + 1 },
  )

  abbrev pub hash_password : String → Call (AuthWork S) String
  hash_password password work = (
    or_error (set.bcrypt_hash work.salts password) AccountError.internal,
    record work { salts = work.salts + 1 },
  )

module _ {S : Type 0} (users : UserRepository S) (tokens : RefreshTokenRepository S)
    (set : AuthSetup) where
  unfoldable pub save_token : Uuid → Time → String → String → Call (AuthWork S) TokenPair
  save_token user_id now access raw = do
    id ← new_uuid set
    on_store (tokens.save (token_of set id user_id raw now))
    pure (record { access_token = access; refresh_token = raw })

  unfoldable pub draw_token : Uuid → Time → String → Call (AuthWork S) TokenPair
  draw_token user_id now access = do
    raw ← generate_random_token set
    save_token user_id now access raw

  unfoldable pub issue_token_pair : Uuid → Call (AuthWork S) TokenPair
  issue_token_pair user_id = do
    now ← time_now set
    access ← sign_access_token set user_id now
    draw_token user_id now access

  unfoldable pub add_user : String → String → Call (AuthWork S) TokenPair
  add_user email hash = do
    now ← time_now set
    id ← new_uuid set
    on_store (users.create (user_of id email hash now))
    issue_token_pair id

  unfoldable pub create_user : String → String → Call (AuthWork S) TokenPair
  create_user email password = do hash ← hash_password set password; add_user email hash

  -- `len` counts bytes.
  unfoldable pub register : String → String → Call (AuthWork S) TokenPair
  register email password =
      if str_eq (normalize_email set email) "" || ltb (len password) 8
      then fail AccountError.err_validation
      else create_user (normalize_email set email) password

  -- Also a failure of the database is answered by `ErrInvalidCredentials`.
  abbrev pub find_user : String → Call (AuthWork S) User
  find_user email work =
      answer_as AccountError.err_invalid_credentials (on_store (users.find_by_email email) work)

  abbrev pub find_token : String → Call (AuthWork S) RefreshToken
  find_token hash work =
      answer_as AccountError.err_invalid_credentials
        (on_store (tokens.find_by_token_hash hash) work)

  unfoldable pub check_password : String → User → Call (AuthWork S) TokenPair
  check_password password user =
      if set.bcrypt_matches user.password_hash password
      then issue_token_pair user.id
      else fail AccountError.err_invalid_credentials

  unfoldable pub login : String → String → Call (AuthWork S) TokenPair
  login email password = do
    user ← find_user (normalize_email set email)
    check_password password user

  unfoldable pub rotate : RefreshToken → Call (AuthWork S) TokenPair
  rotate rt = do
    at_time ← time_now set
    on_store (tokens.revoke at_time rt.id)
    issue_token_pair rt.user_id

  unfoldable pub check_token : RefreshToken → Call (AuthWork S) TokenPair
  check_token rt = do
    now ← time_now set
    if ltb rt.expires_at now
        then fail AccountError.err_token_expired
        else if is_some rt.revoked_at
        then fail AccountError.err_token_revoked
        else rotate rt

  unfoldable pub refresh : String → Call (AuthWork S) TokenPair
  refresh raw = do rt ← find_token (set.sha256_hex raw); check_token rt

  -- `GetMe`, usecase/me.go
  unfoldable pub get_me : Uuid → Call (AuthWork S) User
  get_me user_id = on_store (users.find_by_id user_id)

abbrev pub user_repo : UserRepository AccountDb
user_repo = record {
  create = Users.create;
  find_by_email = Users.find_by_email;
  find_by_id = Users.find_by_id;
}

abbrev pub token_repo : RefreshTokenRepository AccountDb
token_repo = record {
  save = Tokens.save;
  find_by_token_hash = Tokens.find_by_token_hash;
  revoke = Tokens.revoke;
}
