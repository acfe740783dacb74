-- ===== src/Storage/Fleet/Devices/Events.antt =====
-- What the inventory makes of the events of the check-in service, one after the other.
use cairn_mdm.Prelude.{
  ℕ, String, true, false, List, [], ◌∷◌, ◌++◌, Option, none, some, ◌≡◌, refl, arith, eq_iff,
  if◌then◌else◌, string_eq, ◌==◌, update, find, any, Bool-cases, inl, inr,
}
use cairn_mdm.Sql.{Sql, Conn, stmt, is_failing}
use cairn_mdm.Storage.Fleet.{Fleet, Device}
use cairn_mdm.Storage.Fleet.Devices.{
  DeviceRecord, DeviceInventory, is_device, first_sight, enrolled_again, upsert_device,
  device_enrolled, token_update, device_token_updated, check_out, device_checked_out,
  device_checked_in, take_inventory, device_inventory,
}

pub data Event : Type 0 where
  enroll : ℕ → DeviceRecord → Event
  update_token inspect_out inspect_in : ℕ → String → Event
  inventory : ℕ → String → DeviceInventory → Event

abbrev pub handle : Event → Sql Fleet (Unit {0})
handle (enroll now r) = device_enrolled now r
handle (update_token now id) = device_token_updated now id
handle (inspect_out now id) = device_checked_out now id
handle (inspect_in now id) = device_checked_in now id
handle (inventory now id i) = device_inventory now id i

abbrev pub replay : List Event → Conn Fleet → Conn Fleet
replay [] c = c
replay (e ∷ es) c = replay es (handle e c).1

-- The statement of an event, as a function on the inventory.
abbrev pub written : Event → List Device → List Device
written (enroll now r) ds = upsert_device now r ds
written (update_token now id) ds = update (is_device id) (token_update now) ds
written (inspect_out now id) ds = update (is_device id) (check_out now) ds
written (inspect_in now id) ds = update (is_device id) (λ d. record d { last_seen = some now }) ds
written (inventory now id i) ds = update (is_device id) (take_inventory now i) ds

handle-written :
    (e : Event) (c : Conn Fleet)
    → (handle e c).1.rows.devices
      ≡ (if is_failing c.faults then c.rows.devices else written e c.rows.devices)
unfolding device_enrolled device_token_updated device_checked_out device_checked_in device_inventory
    stmt
handle-written (enroll now r) c = ground arith
handle-written (update_token now id) c = ground arith
handle-written (inspect_out now id) c = ground arith
handle-written (inspect_in now id) c = ground arith
handle-written (inventory now id i) c = ground arith

-- The device that an event is about, and what it makes of the device's row.
abbrev pub subject : Event → String
subject (enroll now r) = r.id
subject (update_token now id) = id
subject (inspect_out now id) = id
subject (inspect_in now id) = id
subject (inventory now id i) = id

abbrev pub change : Event → Device → Device
change (enroll now r) d = enrolled_again now r d
change (update_token now id) d = token_update now d
change (inspect_out now id) d = check_out now d
change (inspect_in now id) d = record d { last_seen = some now }
change (inventory now id i) d = take_inventory now i d

abbrev pub map_row {ℓ} : {A : Type ℓ} → (Device → A) → Option Device → Option A
map_row g none = none
map_row g (some d) = some (g d)

abbrev pub row_after : Event → Option Device → Option Device
row_after (enroll now r) none = some (first_sight now r)
row_after (enroll now r) (some d) = some (enrolled_again now r d)
row_after (update_token now id) o = map_row (token_update now) o
row_after (inspect_out now id) o = map_row (check_out now) o
row_after (inspect_in now id) o = map_row (λ d. record d { last_seen = some now }) o
row_after (inventory now id i) o = map_row (take_inventory now i) o

find-update_device :
    (g : Device → Device) (id k : String) (ds : List Device)
    → ((d : Device) → (g d).id ≡ d.id)
    → find (is_device k) (update (is_device id) g ds)
      ≡ (if id == k then map_row g (find (is_device k) ds) else find (is_device k) ds)
find-update_device g id k [] same = ground arith
find-update_device g id k (d ∷ ds) same = ground (
  arith,
  find-update_device g id k ds same,
  same d,
  eq_iff d.id id,
  eq_iff d.id k,
  eq_iff id k,
  eq_iff (g d).id k,
)

find-add_device :
    (d : Device) (k : String) (ds : List Device)
    → any (is_device d.id) ds ≡ false
    → find (is_device k) (ds ++ d ∷ []) ≡ (if d.id == k then some d else find (is_device k) ds)
find-add_device d k [] h = refl
find-add_device d k (x ∷ xs) h =
    ground (arith, find-add_device d k xs, eq_iff x.id d.id, eq_iff x.id k, eq_iff d.id k)

again-row_after :
    (now : ℕ) (r : DeviceRecord) (ds : List Device)
    → any (is_device r.id) ds ≡ true
    → map_row (enrolled_again now r) (find (is_device r.id) ds)
      ≡ row_after (enroll now r) (find (is_device r.id) ds)
again-row_after now r [] h = cc
again-row_after now r (d ∷ ds) h = ground (arith, again-row_after now r ds)

fresh-row_after :
    (now : ℕ) (r : DeviceRecord) (ds : List Device)
    → any (is_device r.id) ds ≡ false
    → some (first_sight now r) ≡ row_after (enroll now r) (find (is_device r.id) ds)
fresh-row_after now r [] h = refl
fresh-row_after now r (d ∷ ds) h = ground (arith, fresh-row_after now r ds)

find-upsert :
    (now : ℕ) (r : DeviceRecord) (k : String) (ds : List Device)
    → find (is_device k) (upsert_device now r ds) ≡ (
        if r.id == k
        then row_after (enroll now r) (find (is_device k) ds)
        else find (is_device k) ds)
find-upsert now r k ds = elim (Bool-cases (any (is_device r.id) ds)) [
  | inl e ↦
      rw (e, find-update_device (enrolled_again now r) r.id k ds (λ d. refl))
        (ground (arith, again-row_after now r ds e, eq_iff r.id k))
  | inr e ↦
      rw (e, find-add_device (first_sight now r) k ds e)
        (ground (arith, fresh-row_after now r ds e, eq_iff r.id k))
]

find-written :
    (e : Event) (k : String) (ds : List Device)
    → find (is_device k) (written e ds)
      ≡ (if subject e == k then row_after e (find (is_device k) ds) else find (is_device k) ds)
find-written (enroll now r) k ds = find-upsert now r k ds
find-written (update_token now id) k ds = find-update_device _ id k ds (λ d. refl)
find-written (inspect_out now id) k ds = find-update_device _ id k ds (λ d. refl)
find-written (inspect_in now id) k ds = find-update_device _ id k ds (λ d. refl)
find-written (inventory now id i) k ds = find-update_device _ id k ds (λ d. refl)

pub find-handle :
    (e : Event) (k : String) (c : Conn Fleet)
    → find (is_device k) (handle e c).1.rows.devices ≡ (
        if is_failing c.faults
        then find (is_device k) c.rows.devices
        else if subject e == k
        then row_after e (find (is_device k) c.rows.devices)
        else find (is_device k) c.rows.devices)
find-handle e k c = rw (handle-written e c) (ground (arith, find-written e k c.rows.devices))
