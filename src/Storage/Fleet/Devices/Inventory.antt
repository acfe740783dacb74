-- ===== src/Storage/Fleet/Devices/Inventory.antt =====
-- Two views of the inventory over any run of events: what it has learned of a device, and whether
-- the device is enrolled.
use cairn_mdm.Prelude.{
  String, Bool, true, false, List, [], ◌∷◌, Option, none, some, ◌≡◌, ◌≢◌, refl, ap, ◌∙◌, arith,
  eq_iff, if◌then◌else◌, string_eq, ◌==◌, find, Bool-cases, inl, inr,
}
use cairn_mdm.Sql.{Conn, stmt, is_failing}
use cairn_mdm.Storage.Fleet.{Fleet, Device}
use cairn_mdm.Storage.Fleet.Devices.{
  enrolled, is_device, unless_empty, device_enrolled, device_token_updated, device_checked_out,
  device_checked_in, device_inventory,
}
use cairn_mdm.Storage.Fleet.Devices.Events.{
  Event, enroll, update_token, inspect_out, inspect_in, inventory, handle, replay, subject, change,
  map_row, row_after, find-handle,
}

-- A value that was known is not replaced by an unknown one.
abbrev pub Kept : String → String → Type 0
Kept old new = old ≢ "" → new ≢ ""

abbrev pub Informed : Device → Device → Type 0
Informed d d' =
    Kept d.serial d'.serial
    × Kept d.name d'.name
    × Kept d.model d'.model
    × Kept d.product d'.product
    × Kept d.os_version d'.os_version
    × Kept d.build_version d'.build_version
    × Kept d.available_capacity d'.available_capacity
    × Kept d.battery d'.battery

unless_empty-Kept : (new old : String) → Kept old (unless_empty new old)
unless_empty-Kept new old h = ground (arith, eq_iff new "")

change-Informed : (e : Event) (d : Device) → Informed d (change e d)
change-Informed (enroll now r) d = (
  unless_empty-Kept r.serial d.serial,
  unless_empty-Kept r.name d.name,
  unless_empty-Kept r.model d.model,
  unless_empty-Kept r.product d.product,
  unless_empty-Kept r.os_version d.os_version,
  unless_empty-Kept r.build_version d.build_version,
  λ h. h,
  λ h. h,
)
change-Informed (update_token now id) d =
    (λ h. h, λ h. h, λ h. h, λ h. h, λ h. h, λ h. h, λ h. h, λ h. h)
change-Informed (inspect_out now id) d =
    (λ h. h, λ h. h, λ h. h, λ h. h, λ h. h, λ h. h, λ h. h, λ h. h)
change-Informed (inspect_in now id) d =
    (λ h. h, λ h. h, λ h. h, λ h. h, λ h. h, λ h. h, λ h. h, λ h. h)
change-Informed (inventory now id i) d = (
  unless_empty-Kept i.serial d.serial,
  unless_empty-Kept i.name d.name,
  unless_empty-Kept i.model d.model,
  unless_empty-Kept i.product d.product,
  unless_empty-Kept i.os_version d.os_version,
  unless_empty-Kept i.build_version d.build_version,
  unless_empty-Kept i.available_capacity d.available_capacity,
  unless_empty-Kept i.battery d.battery,
)

row_after-change : (e : Event) (d : Device) → row_after e (some d) ≡ some (change e d)
row_after-change (enroll now r) d = refl
row_after-change (update_token now id) d = refl
row_after-change (inspect_out now id) d = refl
row_after-change (inspect_in now id) d = refl
row_after-change (inventory now id i) d = refl

Informed-trans : (d e f : Device) → Informed d e → Informed e f → Informed d f
Informed-trans d e f (a1, a2, a3, a4, a5, a6, a7, a8) (b1, b2, b3, b4, b5, b6, b7, b8) = (
  λ h. b1 (a1 h),
  λ h. b2 (a2 h),
  λ h. b3 (a3 h),
  λ h. b4 (a4 h),
  λ h. b5 (a5 h),
  λ h. b6 (a6 h),
  λ h. b7 (a7 h),
  λ h. b8 (a8 h),
)

-- The device stands in the inventory, and is informed at least as the row is.
abbrev pub Remembers : String → Device → Option Device → Type 0
Remembers k d o = (d' : Device) × (o ≡ some d') × Informed d d'

handle-Remembers :
    (e : Event) (k : String) (d : Device) (c : Conn Fleet)
    → find (is_device k) c.rows.devices ≡ some d
    → Remembers k d (find (is_device k) (handle e c).1.rows.devices)
handle-Remembers e k d c known = elim (Bool-cases (is_failing c.faults)) [
  | inl f ↦ (
    d,
    rw (find-handle e k c, f) known,
    (λ h. h, λ h. h, λ h. h, λ h. h, λ h. h, λ h. h, λ h. h, λ h. h),
  )
  | inr f ↦ elim (Bool-cases (subject e == k)) [
    | inl s ↦ (
      change e d,
      rw (find-handle e k c, f, s, known) (row_after-change e d),
      change-Informed e d,
    )
    | inr s ↦ (
      d,
      rw (find-handle e k c, f, s) known,
      (λ h. h, λ h. h, λ h. h, λ h. h, λ h. h, λ h. h, λ h. h, λ h. h),
    )
  ]
]

-- Whatever events follow, and whichever of their statements fail: a device that stands in the
-- inventory stays there, and no serial number, name, model, product, OS version, build, capacity
-- or battery level that was known of it becomes unknown.
pub replay-Remembers :
    (es : List Event) (k : String) (d : Device) (c : Conn Fleet)
    → find (is_device k) c.rows.devices ≡ some d
    → Remembers k d (find (is_device k) (replay es c).rows.devices)
replay-Remembers [] k d c known =
    (d, known, (λ h. h, λ h. h, λ h. h, λ h. h, λ h. h, λ h. h, λ h. h, λ h. h))
replay-Remembers (e ∷ es) k d c known =
    let (d1, known1, informed1) = handle-Remembers e k d c known in
    let (d2, known2, informed2) = replay-Remembers es k d1 (handle e c).1 known1 in
    (d2, known2, Informed-trans d d1 d2 informed1 informed2)

-- What the events say of a device, without the inventory: `none` before it has enrolled, and then
-- whether it is enrolled.
abbrev pub step : String → Event → Option Bool → Option Bool
step k (enroll now r) s = if r.id == k then some true else s
step k (update_token now id) none = none
step k (update_token now id) (some b) = if id == k then some true else some b
step k (inspect_out now id) none = none
step k (inspect_out now id) (some b) = if id == k then some false else some b
step k (inspect_in now id) s = s
step k (inventory now id i) s = s

abbrev pub standing : String → List Event → Option Bool → Option Bool
standing k [] s = s
standing k (e ∷ es) s = standing k es (step k e s)

row_after-step :
    (e : Event) (k : String) (o : Option Device)
    → map_row enrolled (if subject e == k then row_after e o else o) ≡ step k e (map_row enrolled o)
unfolding enrolled
row_after-step (enroll now r) k none = ground arith
row_after-step (enroll now r) k (some d) = ground arith
row_after-step (update_token now id) k none = ground arith
row_after-step (update_token now id) k (some d) = ground arith
row_after-step (inspect_out now id) k none = ground arith
row_after-step (inspect_out now id) k (some d) = ground arith
row_after-step (inspect_in now id) k none = ground arith
row_after-step (inspect_in now id) k (some d) = ground arith
row_after-step (inventory now id i) k none = ground arith
row_after-step (inventory now id i) k (some d) = ground arith

handle-working : (e : Event) (c : Conn Fleet) → c.faults ≡ [] → (handle e c).1.faults ≡ []
unfolding device_enrolled device_token_updated device_checked_out device_checked_in device_inventory
    stmt
handle-working (enroll now r) c h = rw h refl
handle-working (update_token now id) c h = rw h refl
handle-working (inspect_out now id) c h = rw h refl
handle-working (inspect_in now id) c h = rw h refl
handle-working (inventory now id i) c h = rw h refl

-- At a database that works, the inventory shows a device as enrolled exactly if its last
-- enrollment, token update or check-out was not a check-out, and shows a device only once it has
-- enrolled: a token update or a check-out of an unknown device adds no row.
pub replay-standing :
    (es : List Event) (k : String) (c : Conn Fleet)
    → c.faults ≡ []
    → map_row enrolled (find (is_device k) (replay es c).rows.devices)
      ≡ standing k es (map_row enrolled (find (is_device k) c.rows.devices))
replay-standing [] k c healthy = refl
replay-standing (e ∷ es) k c healthy =
    replay-standing es k (handle e c).1 (handle-working e c healthy)
    ∙ ap (standing k es)
        (rw (find-handle e k c, healthy) (row_after-step e k (find (is_device k) c.rows.devices)))
