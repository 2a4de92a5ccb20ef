-- ===== src/Commands/Dedupe.antt =====
-- `_dedupe_devices` of eisenberg/client.py: one record for each id, the real device before its siren twin.
use ha_eisenberg.Common.{
  ◌≡◌, refl, ◌∙◌, sym, ap, [], ◌∷◌, List, Option, none, some, String, false, not, ◌&&◌, arith,
  str_eq, str_eq_iff, if◌then◌else◌, All, Bool-cases, inl, inr,
}
use ha_eisenberg.Dicts.{lookup, put, has_key, lookup-put, has_key-put, All-put}
use ha_eisenberg.Devices.{DeviceInfo}
use ha_eisenberg.Commands.{is_siren, is_kept, keep_devices, values, dedupe_devices}

-- The first record of an id that is no siren twin, and the first record at all.
unfoldable pub first_real : String → List DeviceInfo → Option DeviceInfo
first_real id [] = none
first_real id (d ∷ devices) =
    let later = first_real id devices in
    if str_eq d.device_id id && not (is_siren d) then some d else later

unfoldable pub first_any : String → List DeviceInfo → Option DeviceInfo
first_any id [] = none
first_any id (d ∷ devices) =
    let later = first_any id devices in if str_eq d.device_id id then some d else later

abbrev pub or_option : Option DeviceInfo → Option DeviceInfo → Option DeviceInfo
or_option none other = other
or_option (some d) other = some d

-- The record of an id that is to be kept.
abbrev pub preferred : String → List DeviceInfo → Option DeviceInfo
preferred id devices = or_option (first_real id devices) (first_any id devices)

-- The same after a record that was kept before.
abbrev preferred_after : Option DeviceInfo → String → List DeviceInfo → Option DeviceInfo
preferred_after none id devices = preferred id devices
preferred_after (some old) id devices =
    if is_siren old then or_option (first_real id devices) (some old) else some old

preferred_after-step :
    (old : Option DeviceInfo) (d : DeviceInfo) (id : String) (devices : List DeviceInfo)
    → preferred_after (if is_kept old d && str_eq d.device_id id then some d else old) id devices
      ≡ (if str_eq d.device_id id
          then preferred_after old id (d ∷ devices)
          else preferred_after old id devices)
unfolding first_real first_any
preferred_after-step none d id devices = ground arith
preferred_after-step (some old) d id devices = ground arith

preferred_after-nil : (old : Option DeviceInfo) (id : String) → old ≡ preferred_after old id []
unfolding first_real first_any
preferred_after-nil none id = refl
preferred_after-nil (some old) id = ground arith

preferred_after-other :
    (old : Option DeviceInfo) (d : DeviceInfo) (id : String) (devices : List DeviceInfo)
    → str_eq d.device_id id ≡ false
    → preferred_after old id devices ≡ preferred_after old id (d ∷ devices)
unfolding first_real first_any
preferred_after-other none d id devices h = ground arith
preferred_after-other (some old) d id devices h = ground arith

lookup-kept :
    (kept : List (String × DeviceInfo)) (d : DeviceInfo) (id : String)
    → lookup (if is_kept (lookup kept d.device_id) d then put kept d.device_id d else kept) id
      ≡ (if is_kept (lookup kept id) d && str_eq d.device_id id then some d else lookup kept id)
lookup-kept kept d id = elim (Bool-cases (str_eq d.device_id id)) [
  | inl same ↦ ground (
    arith,
    lookup-put kept d.device_id d id,
    ap (λ (j : String). is_kept (lookup kept j) d) ((str_eq_iff d.device_id id).0 same),
  )
  | inr other ↦ ground (arith, lookup-put kept d.device_id d id)
]

lookup-keep_devices :
    (kept : List (String × DeviceInfo)) (devices : List DeviceInfo) (id : String)
    → lookup (keep_devices kept devices) id ≡ preferred_after (lookup kept id) id devices
unfolding keep_devices
lookup-keep_devices kept [] id = preferred_after-nil (lookup kept id) id
lookup-keep_devices kept (d ∷ devices) id =
    let updated = if is_kept (lookup kept d.device_id) d then put kept d.device_id d else kept in
    lookup-keep_devices updated devices id
    ∙ ap (λ (old : Option DeviceInfo). preferred_after old id devices) (lookup-kept kept d id)
    ∙ preferred_after-step (lookup kept id) d id devices
    ∙ elim (Bool-cases (str_eq d.device_id id)) [
      | inl same ↦ ground arith
      | inr other ↦ ground (arith, preferred_after-other (lookup kept id) d id devices other)
    ]

-- No key stands twice.
abbrev pub IsUnique : {V : Type 0} → List (String × V) → Type 0
IsUnique [] = Unit
IsUnique ((k, v) ∷ d) = (has_key d k ≡ false) × IsUnique d

put-IsUnique :
    {V : Type 0} (d : List (String × V)) (k : String) (v : V) → IsUnique d → IsUnique (put d k v)
unfolding put has_key
put-IsUnique [] k v h = (refl, tt)
put-IsUnique ((key, old) ∷ d) k v h =
    ground (arith, has_key-put d k v key, str_eq_iff key k, str_eq_iff k key, put-IsUnique d k v)

abbrev pub IsOwn : String × DeviceInfo → Type 0
IsOwn (k, d) = k ≡ d.device_id

keep_devices-IsUnique :
    (kept : List (String × DeviceInfo)) (devices : List DeviceInfo)
    → IsUnique kept × All IsOwn kept
    → IsUnique (keep_devices kept devices) × All IsOwn (keep_devices kept devices)
unfolding keep_devices
keep_devices-IsUnique kept [] h = h
keep_devices-IsUnique kept (d ∷ devices) (unique, own) =
    keep_devices-IsUnique
      (if is_kept (lookup kept d.device_id) d then put kept d.device_id d else kept) devices
      (elim (Bool-cases (is_kept (lookup kept d.device_id) d)) [
        | inl e ↦
            rw e (put-IsUnique kept d.device_id d unique, All-put IsOwn kept d.device_id d own refl)
        | inr e ↦ rw e (unique, own)
      ])

pub keep_devices_dict :
    (devices : List DeviceInfo)
    → IsUnique (keep_devices [] devices) × All IsOwn (keep_devices [] devices)
keep_devices_dict devices = keep_devices-IsUnique [] devices (tt, tt)

lookup-nil : (id : String) → lookup {V = DeviceInfo} [] id ≡ none
unfolding lookup
lookup-nil id = refl

pub lookup_kept :
    (devices : List DeviceInfo) (id : String)
    → lookup (keep_devices [] devices) id ≡ preferred id devices
lookup_kept devices id =
    lookup-keep_devices [] devices id
    ∙ ap (λ (old : Option DeviceInfo). preferred_after old id devices) (lookup-nil id)

first_any-values :
    (kept : List (String × DeviceInfo)) (id : String)
    → All IsOwn kept
    → first_any id (values kept) ≡ lookup kept id
unfolding first_any lookup
first_any-values [] id h = refl
first_any-values ((k, d) ∷ kept) id (own, h) =
    ground (arith, first_any-values kept id h, ap (λ (j : String). str_eq j id) own)

abbrev pub ids : List DeviceInfo → List (String × DeviceInfo)
ids [] = []
ids (d ∷ devices) = (d.device_id, d) ∷ ids devices

has_key-ids :
    (kept : List (String × DeviceInfo)) (id : String)
    → All IsOwn kept
    → has_key (ids (values kept)) id ≡ has_key kept id
unfolding has_key
has_key-ids [] id h = refl
has_key-ids ((k, d) ∷ kept) id (own, h) =
    ground (arith, has_key-ids kept id h, ap (λ (j : String). str_eq j id) own)

ids-IsUnique :
    (kept : List (String × DeviceInfo))
    → All IsOwn kept
    → IsUnique kept
    → IsUnique (ids (values kept))
ids-IsUnique [] own h = tt
ids-IsUnique ((k, d) ∷ kept) (o, own) (h, hs) =
    (has_key-ids kept d.device_id own ∙ ap (has_key kept) (sym o) ∙ h, ids-IsUnique kept own hs)

-- The devices that are kept have each id once, and of every id the record that is preferred: the first
-- that is no siren twin, or the first when all of them are; an id that no record has is not there.
pub dedupe_devices_lem :
    (devices : List DeviceInfo)
    → IsUnique (ids (dedupe_devices devices))
      × ((id : String) → first_any id (dedupe_devices devices) ≡ preferred id devices)
unfolding dedupe_devices
dedupe_devices_lem devices =
    let kept = keep_devices [] devices in
    let (unique, own) = keep_devices_dict devices in
    (ids-IsUnique kept own unique, λ id. first_any-values kept id own ∙ lookup_kept devices id)
