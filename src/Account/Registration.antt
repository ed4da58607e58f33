-- ===== src/Account/Registration.antt =====
-- `RegisterDevice` and `ListDevices`: services/tracking-gateway/internal/usecase/device.go, and what a
-- registration leaves in the table of devices.
use wrany.Prelude.{
  ◌+◌, ◌≡◌, refl, Bool, true, Option, IfSome, none, some, ok, String, List, [], ◌∷◌, Time, Uuid,
  if-elim, arith,
}
use wrany.Action.{reached, Ensures-bind, pure, ◌>>=◌, ◌>>◌}
use wrany.Store.Tables.{find?}
use wrany.Account.Tables.{Device, AccountDb, Call}
use wrany.Account.Devices
use wrany.Account.Devices.{coalesce, same_device, seen_again}
use wrany.Account.Statements.{on_store-Ensures}
use wrany.Account.Upsert.{merged, LeavesOthers, Stored, upsert-Ensures}
use wrany.Account.Auth.{AuthSetup, AuthWork, on_store, new_uuid, time_now}

pub record DeviceRepository (S : Type 0) : Type 0 where
  pub upsert : Device → Call S (Unit {0})
  pub list_by_user_id : Uuid → Call S (List Device)
  pub find_by_user_and_device_id : Uuid → Uuid → Call S Device

pub record RegisterDeviceInput : Type 0 where
  pub user_id : Uuid
  pub device_id : Uuid
  pub name : Option String
  pub platform : Option String

abbrev pub device_of : Uuid → RegisterDeviceInput → Time → Device
device_of id input now = record {
  id = id;
  user_id = input.user_id;
  device_id = input.device_id;
  name = input.name;
  platform = input.platform;
  last_seen_at = now;
  created_at = now;
  updated_at = now;
}

module _ {S : Type 0} (devices : DeviceRepository S) (set : AuthSetup) where
  unfoldable pub register_device : RegisterDeviceInput → Call (AuthWork S) Device
  register_device input = do
    now ← time_now set
    id ← new_uuid set
    on_store (devices.upsert (device_of id input now))
    pure (device_of id input now)

  -- A nil slice is answered as an empty one, which a list does not tell apart.
  unfoldable pub list_devices : Uuid → Call (AuthWork S) (List Device)
  list_devices user_id = on_store (devices.list_by_user_id user_id)

abbrev pub device_repo : DeviceRepository AccountDb
device_repo = record {
  upsert = Devices.upsert;
  list_by_user_id = Devices.list_by_user_id;
  find_by_user_and_device_id = Devices.find_by_user_and_device_id;
}

find?-IfSome : {A : Type 0} (p : A → Bool) (xs : List A) → IfSome (λ x. p x ≡ true) (find? p xs)
find?-IfSome p [] = tt
find?-IfSome p (x ∷ xs) =
    if-elim (IfSome (λ x. p x ≡ true)) (p x) _ _ (λ h. h) (λ _. find?-IfSome p xs)

-- The text is the one that is given, or else the one that was there.
abbrev pub IsKept : Option String → Option String → Option String → Type 0
IsKept (some given) old text = text ≡ some given
IsKept none old text = text ≡ old

coalesce-IsKept : (given old : Option String) → IsKept given old (coalesce given old)
coalesce-IsKept none old = refl
coalesce-IsKept (some given) old = refl

module _ (input : RegisterDeviceInput) (id : Uuid) (now : Time) where
  -- What a row of the table keeps of the row that was there for the pair, if there was one.
  abbrev pub StemsFrom : Option Device → Device → Type 0
  StemsFrom none row =
      (row.id ≡ id)
      × (row.created_at ≡ now)
      × (row.name ≡ input.name)
      × (row.platform ≡ input.platform)
  StemsFrom (some old) row =
      (row.id ≡ old.id)
      × (row.created_at ≡ old.created_at)
      × IsKept input.name old.name row.name
      × IsKept input.platform old.platform row.platform

  pub record IsRowOf (old : Option Device) (row : Device) : Type 0 where
    pub user : row.user_id ≡ input.user_id
    pub device : row.device_id ≡ input.device_id
    pub seen : row.last_seen_at ≡ now
    pub updated : row.updated_at ≡ now
    pub stems : StemsFrom old row

  merged-IsRowOf :
      (old : Option Device)
      → IfSome (λ row. same_device input.user_id input.device_id row ≡ true) old
      → IsRowOf old (merged old (device_of id input now))
  merged-IsRowOf none h = record {
    user = refl;
    device = refl;
    seen = refl;
    updated = refl;
    stems = (refl, refl, refl, refl);
  }
  merged-IsRowOf (some old) h = record {
    user = ground arith;
    device = ground arith;
    seen = refl;
    updated = refl;
    stems = (
      refl,
      refl,
      coalesce-IsKept input.name old.name,
      coalesce-IsKept input.platform old.platform,
    );
  }

  -- The table answers such a row for the pair of the input, and all other pairs as before.
  abbrev pub Registers : List Device → List Device → Type 0
  Registers before after =
      ((row : Device) × (find? (same_device input.user_id input.device_id) after ≡ some row)
        × IsRowOf (find? (same_device input.user_id input.device_id) before) row)
      × LeavesOthers input.user_id input.device_id before after

  Stored-Registers :
      (before after : List Device)
      → Stored (device_of id input now) before after
      → Registers before after
  Stored-Registers before after (found, others) =
      let old = find? (same_device input.user_id input.device_id) before in
      (
        (merged old (device_of id input now), found, merged-IsRowOf old (find?-IfSome _ before)),
        others,
      )

module _ (set : AuthSetup) where
  -- A registration that succeeds answers a device with the user, the device and the texts of the
  -- input, a fresh id and the time now. Afterwards the table has a row for this pair of the input,
  -- seen and updated now. If there was no row of the pair, it has the fresh id, was created now and
  -- has the texts of the input; if there was one, it keeps the id and the creation of that row, and
  -- its name and its platform are the input's where the input has one, and that row's where it has
  -- none. The rows of other pairs are found as before.
  pub register_device_stores :
      (input : RegisterDeviceInput) (work : AuthWork AccountDb) (answered : Device)
      → (register_device device_repo set input work).0 ≡ ok answered
      → IsRowOf input (set.fresh work.issued) (set.clock work.readings) none answered
        × Registers input
            (set.fresh work.issued)
            (set.clock work.readings)
            work.store.devices
            (register_device device_repo set input work).1.store.devices
  unfolding register_device
  register_device_stores input work answered e =
      let now = set.clock work.readings in
      let id = set.fresh work.issued in
      let before = work.store.devices in
      let d = device_of id input now in
      reached
        (λ (answered : Device) (w : AuthWork AccountDb).
          IsRowOf input id now none answered × Registers input id now before w.store.devices)
        (register_device device_repo set input work) answered
        (Ensures-bind (λ (w : AuthWork AccountDb). w.store.devices ≡ before) (λ _. Unit)
          (λ (_ : Unit {0}) w. Stored d before w.store.devices)
          (λ answered w.
            IsRowOf input id now none answered × Registers input id now before w.store.devices)
          (on_store (Devices.upsert d)) (λ _. pure d)
          (on_store-Ensures (λ db. db.devices ≡ before) (λ _. Unit)
            (λ _ db. Stored d before db.devices) (Devices.upsert d) (upsert-Ensures d before))
          (λ _ w h. (merged-IsRowOf input id now none tt, Stored-Registers input id now before _ h))
          (record work { readings = work.readings + 1; issued = work.issued + 1 }) refl)
        e
