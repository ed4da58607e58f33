-- ===== src/Account/Devices.antt =====
-- `DeviceRepo`: services/tracking-gateway/internal/storage/postgres/device_repo.go.
use wrany.Prelude.{
  Result, ◌&&◌, Bool, Option, none, some, ok, String, List, [], ◌∷◌, ◌++◌, Uuid, keep, sort_by, ltb,
  ◌==◌, if◌then◌else◌,
}
use wrany.Store.Tables.{any, find?, update_where}
use wrany.Account.Tables.{Device, AccountError, AccountDb, Call, statement, or_error, refuse_if}

-- COALESCE
abbrev pub coalesce : Option String → Option String → Option String
coalesce none b = b
coalesce (some a) b = some a

abbrev pub same_device : Uuid → Uuid → Device → Bool
same_device user_id device_id d = d.user_id == user_id && d.device_id == device_id

-- DO UPDATE SET of a row that is there.
abbrev pub seen_again : Device → Device → Device
seen_again d row = record row {
  last_seen_at = d.last_seen_at;
  updated_at = d.updated_at;
  name = coalesce d.name row.name;
  platform = coalesce d.platform row.platform;
}

abbrev pub try_upsert : Device → AccountDb → Result AccountError (Unit {0}) × AccountDb
try_upsert d db =
    if any (same_device d.user_id d.device_id) db.devices
    then (
      ok tt,
      record db {
        devices = update_where (same_device d.user_id d.device_id) (seen_again d) db.devices;
      },
    )
    else refuse_if (any (λ (e : Device). e.id == d.id) db.devices) AccountError.internal db
        (record db { devices = db.devices ++ d ∷ [] })

unfoldable pub upsert : Device → Call AccountDb (Unit {0})
upsert d = statement (try_upsert d)

unfoldable pub find_by_user_and_device_id : Uuid → Uuid → Call AccountDb Device
unfolding statement
find_by_user_and_device_id user_id device_id = statement λ db. (
  or_error (find? (same_device user_id device_id) db.devices) AccountError.err_device_not_found,
  db,
)

-- `ORDER BY created_at`
unfoldable pub list_by_user_id : Uuid → Call AccountDb (List Device)
unfolding statement
list_by_user_id user_id = statement λ db. (
  ok (
      sort_by (λ (a b : Device). ltb a.created_at b.created_at)
        (keep (λ (d : Device). d.user_id == user_id) db.devices)),
  db,
)
