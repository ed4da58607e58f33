-- ===== src/Account/Upsert.antt =====
-- What `Upsert` leaves in the table of devices:
-- services/tracking-gateway/internal/storage/postgres/device_repo.go.
use wrany.Prelude.{
  ◌≡◌, refl, inl, inr, ◌&&◌, Bool, true, false, Option, none, some, List, [], ◌∷◌, ◌++◌, Uuid,
  Bool-cases, ◌==◌, if-elim, arith,
}
use wrany.Action.{Ensures, Outcome}
use wrany.Store.Tables.{any, find?, update_where}
use wrany.Account.Tables.{Device, AccountError}
use wrany.Account.Devices
use wrany.Account.Devices.{coalesce, same_device, seen_again}
use wrany.Account.Rows.{find?-append_new}
use wrany.Account.Statements.{statement-Ensures, refuse_if-Outcome}

-- What a row was and what is registered over it.
abbrev pub merged : Option Device → Device → Device
merged none d = d
merged (some row) d = seen_again d row

module _ {A : Type 0} where
  find?-updated :
      (p : A → Bool) (turn : A → A) (xs : List A)
      → ((x : A) → p (turn x) ≡ p x)
      → any p xs ≡ true
      → (row : A) × (find? p xs ≡ some row) × (find? p (update_where p turn xs) ≡ some (turn row))
  unfolding update_where
  find?-updated p turn [] same h = absurd (ground arith)
  find?-updated p turn (x ∷ xs) same h = elim (Bool-cases (p x)) [
    | inl e ↦ (x, rw e, rw (e, same x, e))
    | inr e ↦
        let rest = find?-updated p turn xs same (rw e at h) in
        (rest.0, rw e rest.1, rw (e, e) rest.2)
  ]

-- What the table answers for the pair of a device that was registered.
abbrev pub Registered : List Device → Device → List Device → Type 0
Registered before d after =
    find? (same_device d.user_id d.device_id) after
    ≡ some (merged (find? (same_device d.user_id d.device_id) before) d)

-- The pairs of other devices are answered as before.
abbrev pub LeavesOthers : Uuid → Uuid → List Device → List Device → Type 0
LeavesOthers user device before after =
    (user_id device_id : Uuid)
    → (user == user_id && device == device_id) ≡ false
    → find? (same_device user_id device_id) after ≡ find? (same_device user_id device_id) before

module _ (d : Device) where
  updated-Registered :
      (ds : List Device)
      → any (same_device d.user_id d.device_id) ds ≡ true
      → Registered ds d (update_where (same_device d.user_id d.device_id) (seen_again d) ds)
  updated-Registered ds h =
      let (row, old, new) =
        find?-updated (same_device d.user_id d.device_id) (seen_again d) ds (λ _. refl) h in
      rw old new

  added-Registered :
      (ds : List Device)
      → any (same_device d.user_id d.device_id) ds ≡ false
      → Registered ds d (ds ++ d ∷ [])
  added-Registered ds h =
      let (old, new) = find?-append_new (same_device d.user_id d.device_id) ds d h (ground arith) in
      rw old new

  updated-LeavesOthers :
      (ds : List Device)
      → LeavesOthers d.user_id d.device_id ds
          (update_where (same_device d.user_id d.device_id) (seen_again d) ds)
  unfolding update_where
  updated-LeavesOthers [] u v h = refl
  updated-LeavesOthers (x ∷ xs) u v h = ground (arith, updated-LeavesOthers xs u v)

  added-LeavesOthers : (ds : List Device) → LeavesOthers d.user_id d.device_id ds (ds ++ d ∷ [])
  added-LeavesOthers [] u v h = ground arith
  added-LeavesOthers (x ∷ xs) u v h = ground (arith, added-LeavesOthers xs u v)

  abbrev pub Stored : List Device → List Device → Type 0
  Stored before after = Registered before d after × LeavesOthers d.user_id d.device_id before after

  pub upsert-Ensures :
      (before : List Device)
      → Ensures
          (λ db. db.devices ≡ before)
          (λ _. Unit)
          (λ _ db. Stored before db.devices)
          (Devices.upsert d)
  unfolding Devices.upsert
  upsert-Ensures before =
      statement-Ensures (λ db. db.devices ≡ before) (λ _. Unit) (λ _ db. Stored before db.devices)
        (Devices.try_upsert d) (λ _ _. tt)
        λ db e.
          if-elim (Outcome (λ _. Unit) (λ (_ : Unit {0}) after. Stored before after.devices))
            (any (same_device d.user_id d.device_id) db.devices) _ _
            (λ h. rw⁻¹ e (updated-Registered db.devices h, updated-LeavesOthers db.devices))
            λ h.
              refuse_if-Outcome (λ _. Unit) (λ after. Stored before after.devices)
                (any (λ (x : Device). x.id == d.id) db.devices) AccountError.internal _ _ tt
                λ _. rw⁻¹ e (added-Registered db.devices h, added-LeavesOthers db.devices)
