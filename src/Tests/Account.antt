-- ===== src/Tests/Account.antt =====
-- Runs of the accounts: registration, login, rotation of tokens and devices.
use wrany.Prelude.{
  ℕ, zero, suc, ◌+◌, ◌≡◌, ◌≢◌, refl, false, none, some, ok, err, String, [], ◌∷◌, seconds, str_eq,
  concat, eq_iff, if◌then◌else◌, arith,
}
use wrany.Action.{first_of}
use wrany.Store.Tables.{find?, update_where}
use wrany.Account.Tables.{
  AccountDb, User, AccountError, statement, select, insert, change, next_statement,
}
use wrany.Account.Users
use wrany.Account.Users.{has_email}
use wrany.Account.Tokens
use wrany.Account.Devices
use wrany.Account.Auth.{
  AuthSetup, AuthWork, TokenPair, save_token, draw_token, issue_token_pair, add_user, create_user,
  register, login, rotate, check_token, refresh, user_repo, token_repo, normalize_email,
}
use wrany.Account.Registration.{
  RegisterDeviceInput, register_device, device_repo, device_of, IsRowOf, Registers,
  register_device_stores,
}
use wrany.Account.Rotation.{AuthRequest, serve, serve_all, refresh_once}
use wrany.Account.Login.{IsMatched, register_then_login}
use wrany.Tests.Data.{fresh}

abbrev raw_token : ℕ → String
raw_token zero = "r"
raw_token (suc n) = concat "r" (raw_token n)

abbrev pub setup : AuthSetup
setup = record {
  trim_space = λ s. s;
  to_lower = λ s. if str_eq s "Ann@example.org" then "ann@example.org" else s;
  bcrypt_hash = λ n password. some (concat "hash of " password);
  bcrypt_matches = λ hash password. str_eq hash (concat "hash of " password);
  signed = λ claims. some (concat "token of " claims.sub);
  sha256_hex = λ raw. concat "digest of " raw;
  random_hex = λ n. some (raw_token n);
  text = λ id. "user";
  fresh = fresh;
  clock = λ n. seconds (1_000 + n);
  access_ttl = seconds 900;
  refresh_ttl = seconds 86_400;
}

abbrev empty_db : AccountDb
empty_db = record { users = []; refresh_tokens = []; devices = []; failures = [] }

abbrev pub start : AuthWork AccountDb
start = record { store = empty_db; issued = 0; readings = 0; draws = 0; salts = 0 }

abbrev registered : AuthWork AccountDb
registered = (register user_repo token_repo setup "Ann@example.org" "correct horse" start).1

abbrev pair_of : String → TokenPair
pair_of raw = record { access_token = "token of user"; refresh_token = raw }

registers :
    (register user_repo token_repo setup "Ann@example.org" "correct horse" start).0
    ≡ ok (pair_of "r")
unfolding register create_user add_user issue_token_pair draw_token save_token Users.create
    Tokens.save insert statement
registers = refl

short_password :
    (register user_repo token_repo setup "Ann@example.org" "horse" start).0
    ≡ err AccountError.err_validation
unfolding register
short_password = refl

refreshes_first : (refresh user_repo token_repo setup "r" registered).0 ≡ ok (pair_of "rr")
unfolding refresh check_token rotate register create_user add_user issue_token_pair draw_token
    save_token Users.create Tokens.save Tokens.find_by_token_hash Tokens.revoke update_where insert
    select change statement
refreshes_first = refl

refresh_once_example :
    (refresh user_repo token_repo setup "r" (
      serve_all setup
        (AuthRequest.logins "ann@example.org" "correct horse" ∷ [])
        (serve setup (AuthRequest.refreshes "r") registered))).0
    ≢ ok (pair_of "rrr")
refresh_once_example =
    refresh_once setup "r" registered (pair_of "rr")
      (AuthRequest.logins "ann@example.org" "correct horse" ∷ []) (pair_of "rrr") refreshes_first

setup-IsMatched : IsMatched setup
setup-IsMatched n password hash e = (eq_iff hash (concat "hash of " password)).1 (ground arith)

registered_calm : first_of registered.store.failures ≡ false
unfolding register create_user add_user issue_token_pair draw_token save_token Users.create
    Tokens.save insert statement
registered_calm = refl

register_then_login_example :
    (user : User) × (find?
        (has_email (normalize_email setup "ann@example.org"))
        registered.store.users
      ≡ some user)
    × (login user_repo token_repo setup "ann@example.org" "correct horse" registered
        ≡ issue_token_pair user_repo token_repo setup user.id
            (record registered { store = next_statement registered.store }))
register_then_login_example =
    register_then_login setup setup-IsMatched "Ann@example.org" "ann@example.org" "correct horse"
      start (pair_of "r") registers refl registered_calm

abbrev phone : RegisterDeviceInput
phone = record { user_id = 100; device_id = 7; name = some "phone"; platform = none }

registers_phone :
    (register_device device_repo setup phone start).0 ≡ ok (device_of 100 phone (seconds 1_000))
unfolding register_device Devices.upsert statement
registers_phone = refl

abbrev with_phone : AuthWork AccountDb
with_phone = (register_device device_repo setup phone start).1

-- The row keeps the id 100 and its name; the answer has the id 101 and no name.
registered_again :
    (register_device device_repo setup (record phone { name = none }) with_phone).0
    ≡ ok (device_of 101 (record phone { name = none }) (seconds 1_001))
unfolding register_device Devices.upsert statement update_where
registered_again = refl

stored_again :
    (register_device device_repo setup (record phone { name = none }) with_phone).1.store.devices
    ≡ record (device_of 100 phone (seconds 1_000)) {
      last_seen_at = seconds 1_001;
      updated_at = seconds 1_001;
    }
      ∷ []
unfolding register_device Devices.upsert statement update_where
stored_again = refl

register_device_stores_example :
    IsRowOf
      (record phone { name = none })
      101
      (seconds 1_001)
      none
      (device_of 101 (record phone { name = none }) (seconds 1_001))
    × Registers
        (record phone { name = none })
        101
        (seconds 1_001)
        with_phone.store.devices
        (register_device device_repo setup
          (record phone { name = none })
          with_phone).1.store.devices
unfolding register_device Devices.upsert statement
register_device_stores_example =
    register_device_stores setup (record phone { name = none }) with_phone
      (device_of 101 (record phone { name = none }) (seconds 1_001)) registered_again
