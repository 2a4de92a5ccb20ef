-- ===== src/Devices/Merge.antt =====
-- `_merge_device_state` over a sequence of partial states.
use ha_eisenberg.Common.{
  ◌≡◌, refl, ◌∙◌, ap, [], ◌∷◌, List, Option, none, some, String, Bool, false, str_eq, str_eq_iff,
  if◌then◌else◌, arith, Bool-cases, inl, inr,
}
use ha_eisenberg.Json.{ℤ}
use ha_eisenberg.Dicts.{lookup, lookup-put}
use ha_eisenberg.Devices.{DeviceState, updated, has_updates, merged, merge_device_state}

-- The nine fields of a state, and reading one.
pub data Field : Type 0 where
  motion activity date signal battery charging connection privacy contact : Field

abbrev pub Value : Field → Type 0
Value motion = Bool
Value activity = String
Value date = ℤ
Value signal = ℤ
Value battery = ℤ
Value charging = String
Value connection = String
Value privacy = Bool
Value contact = Bool

abbrev pub read : (f : Field) → DeviceState → Option (Value f)
read motion s = s.motion_detected
read activity s = s.activity_state
read date s = s.date_started
read signal s = s.signal_strength
read battery s = s.battery_level
read charging s = s.charging_state
read connection s = s.connection_state
read privacy s = s.privacy_active
read contact s = s.contact_state

abbrev pub read_in : (f : Field) → Option DeviceState → Option (Value f)
read_in f none = none
read_in f (some s) = read f s

-- The states that arrive, each with the device that it is of.
unfoldable pub merge_all :
    List (String × DeviceState) → List (String × DeviceState) → List (String × DeviceState)
merge_all states [] = states
merge_all states ((d, incoming) ∷ frames) =
    merge_all (merge_device_state states d incoming).1 frames

-- The last value of a field that the frames of a device have, or the one before them.
unfoldable pub newest :
    (f : Field) → String → Option (Value f) → List (String × DeviceState) → Option (Value f)
newest f device_id old [] = old
newest f device_id old ((d, incoming) ∷ frames) =
    newest f device_id (if str_eq d device_id then updated old (read f incoming) else old) frames

updated-none {ℓ} : {A : Type ℓ} (o : Option A) → o ≡ updated none o
updated-none none = refl
updated-none (some a) = refl

read-merged :
    (f : Field) (current : Option DeviceState) (incoming : DeviceState)
    → read_in f (some (merged current incoming)) ≡ updated (read_in f current) (read f incoming)
read-merged f none incoming = updated-none (read f incoming)
read-merged motion (some s) incoming = refl
read-merged activity (some s) incoming = refl
read-merged date (some s) incoming = refl
read-merged signal (some s) incoming = refl
read-merged battery (some s) incoming = refl
read-merged charging (some s) incoming = refl
read-merged connection (some s) incoming = refl
read-merged privacy (some s) incoming = refl
read-merged contact (some s) incoming = refl

read-has_updates :
    (f : Field) (incoming : DeviceState) → has_updates incoming ≡ false → read f incoming ≡ none
unfolding has_updates
read-has_updates motion s h = ground arith
read-has_updates activity s h = ground arith
read-has_updates date s h = ground arith
read-has_updates signal s h = ground arith
read-has_updates battery s h = ground arith
read-has_updates charging s h = ground arith
read-has_updates connection s h = ground arith
read-has_updates privacy s h = ground arith
read-has_updates contact s h = ground arith

-- One frame: the device that it is of gets the values it has, and nothing else changes.
read-merge_device_state :
    (f : Field) (states : List (String × DeviceState)) (d : String) (incoming : DeviceState)
    (j : String)
    → read_in f (lookup (merge_device_state states d incoming).1 j) ≡ (
        if str_eq d j
        then updated (read_in f (lookup states j)) (read f incoming)
        else read_in f (lookup states j))
unfolding merge_device_state
read-merge_device_state f states d incoming j = elim (Bool-cases (has_updates incoming)) [
  | inl some_new ↦ ground (
    arith,
    lookup-put states d (merged (lookup states d) incoming) j,
    read-merged f (lookup states d) incoming,
    str_eq_iff d j,
  )
  | inr nothing_new ↦ ground (arith, read-has_updates f incoming)
]

-- After any sequence of partial states, each field of each device has the last value that a frame of the
-- device gave for it, and where no frame gave one the value from before: a frame wipes nothing.
pub read-merge_all :
    (f : Field) (states frames : List (String × DeviceState)) (j : String)
    → read_in f (lookup (merge_all states frames) j)
      ≡ newest f j (read_in f (lookup states j)) frames
unfolding merge_all newest
read-merge_all f states [] j = refl
read-merge_all f states ((d, incoming) ∷ frames) j =
    read-merge_all f (merge_device_state states d incoming).1 frames j
    ∙ ap (λ old. newest f j old frames) (read-merge_device_state f states d incoming j)
