-- ===== src/Account/Tables.antt =====
-- The tables of the migrations 0001 to 0003 (services/tracking-gateway/infra/migrations), with
-- services/tracking-gateway/internal/domain/user.go, token.go and device.go. Each statement may fail
-- by itself.
use wrany.Prelude.{
  Bool, Option, none, some, Result, ok, err, String, List, Time, Uuid, if◌then◌else◌,
}
use wrany.Action.{Action, first_of, behind_first}

pub record User : Type 0 where
  pub id : Uuid
  pub email : String
  pub password_hash : String
  pub created_at : Time
  pub updated_at : Time

pub record RefreshToken : Type 0 where
  pub id : Uuid
  pub user_id : Uuid
  pub token_hash : String
  pub expires_at : Time
  pub revoked_at : Option Time
  pub created_at : Time

pub record Device : Type 0 where
  pub id : Uuid
  pub user_id : Uuid
  pub device_id : Uuid
  pub name : Option String
  pub platform : Option String
  pub last_seen_at : Time
  pub created_at : Time
  pub updated_at : Time

-- The errors that the callers tell apart; `internal` is any other.
pub data AccountError : Type 0 where
  err_validation err_invalid_credentials err_user_not_found err_email_taken : AccountError
  err_token_expired err_token_revoked err_token_not_found err_device_not_found : AccountError
  internal : AccountError

pub record AccountDb : Type 0 where
  pub users : List User
  pub refresh_tokens : List RefreshToken
  pub devices : List Device
  pub failures : List Bool

abbrev pub Call : Type 0 → Type 0 → Type 0
Call S A = Action AccountError S A

abbrev pub next_statement : AccountDb → AccountDb
next_statement db = record db { failures = behind_first db.failures }

unfoldable pub statement :
    {A : Type 0} → (AccountDb → Result AccountError A × AccountDb) → Call AccountDb A
statement run db =
    if first_of db.failures
    then (err AccountError.internal, next_statement db)
    else run (next_statement db)

-- A row, or the error for `pgx.ErrNoRows`.
abbrev pub or_error : {A : Type 0} → Option A → AccountError → Result AccountError A
or_error none e = err e
or_error (some a) e = ok a

-- An insert that a unique constraint refuses leaves the table as it is.
abbrev pub refuse_if :
    Bool → AccountError → AccountDb → AccountDb → Result AccountError (Unit {0}) × AccountDb
refuse_if taken e db after = if taken then (err e, db) else (ok tt, after)

-- A query of one row.
unfoldable pub select : {A : Type 0} → (AccountDb → Option A) → AccountError → Call AccountDb A
unfolding statement
select row missing = statement λ db. (or_error (row db) missing, db)

-- `taken` says whether a unique constraint is violated.
unfoldable pub insert :
    (AccountDb → Bool) → AccountError → (AccountDb → AccountDb) → Call AccountDb (Unit {0})
unfolding statement
insert taken e add = statement λ db. refuse_if (taken db) e db (add db)

unfoldable pub change : (AccountDb → AccountDb) → Call AccountDb (Unit {0})
unfolding statement
change run = statement λ db. (ok tt, run db)
