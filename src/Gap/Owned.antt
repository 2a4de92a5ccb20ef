-- ===== src/Gap/Owned.antt =====
-- What stands in the gap is a resource of a device of the account.
use ha_eisenberg.Common.{
  ◌≡◌, [], ◌∷◌, List, String, Bool, true, false, not, any, keep_if, refl, ◌&&◌, arith, str_eq,
  if◌then◌else◌, All, Bool-cases, inl, inr, str_eq_refl,
}
use ha_eisenberg.Dicts.{put, All-put}
use ha_eisenberg.Topics.{SubscribeOutcome, contains}
use ha_eisenberg.Topics.Subscribe.{contains-cons}
use ha_eisenberg.Devices.{DeviceInfo}
use ha_eisenberg.Gap.{
  is_sensor, is_base_station, cameras, contact_sensors, granted_topics, resource_topic, is_covered,
  camera_resources, sensor_resources, add_gap, add_gaps, sse_gap_resources,
}

-- Whether a device has the resource, under its cloud id: a sensor its own, a base station none, and any
-- other device those of a camera.
abbrev pub has_resource : DeviceInfo → String × String → Bool
has_resource d (resource, x) =
    str_eq d.x_cloud_id x
    && (if is_sensor d
        then contains (sensor_resources d) resource
        else (not (is_base_station d) && contains (camera_resources d) resource))

-- The resource is one of a device of the account.
abbrev pub IsOwned : List DeviceInfo → String × String → Type 0
IsOwned devices e = any (λ d. has_resource d e) devices ≡ true

-- `Q` holds of every resource of the device.
abbrev IsFine : (String × String → Type 0) → (DeviceInfo → List String) → DeviceInfo → Type 0
IsFine Q resources_of d = All (λ r. Q (r, d.x_cloud_id)) (resources_of d)

module _ (Q : String × String → Type 0) (granted : List String) where
  add_gap-All :
      (x : String) (gap : List (String × String)) (resources : List String)
      → All Q gap
      → All (λ r. Q (r, x)) resources
      → All Q (add_gap granted x gap resources)
  unfolding add_gap
  add_gap-All x gap [] h rs = h
  add_gap-All x gap (r ∷ resources) h (q, rs) =
      elim (Bool-cases (is_covered granted (resource_topic x r "is"))) [
        | inl e ↦ rw e (add_gap-All x gap resources h rs)
        | inr e ↦ rw e (add_gap-All x (put gap r x) resources (All-put Q gap r x h q) rs)
      ]

  add_gaps-All :
      (resources_of : DeviceInfo → List String) (gap : List (String × String))
      (devices : List DeviceInfo)
      → All Q gap
      → All (IsFine Q resources_of) devices
      → All Q (add_gaps resources_of granted gap devices)
  unfolding add_gaps
  add_gaps-All resources_of gap [] h ds = h
  add_gaps-All resources_of gap (d ∷ devices) h (here, ds) =
      add_gaps-All resources_of (add_gap granted d.x_cloud_id gap (resources_of d)) devices
        (add_gap-All d.x_cloud_id gap (resources_of d) h here) ds

contains-All :
    (P : String → Type 0) (l : List String) → ((r : String) → contains l r ≡ true → P r) → All P l
contains-All P [] h = tt
contains-All P (r ∷ l) h = (
  h r (ground (arith, contains-cons r l r, str_eq_refl r)),
  contains-All P l (λ q e. h q (ground (arith, contains-cons r l q))),
)

All-kept :
    (p : DeviceInfo → Bool) (P : DeviceInfo → Type 0) (d : DeviceInfo) (devices : List DeviceInfo)
    → (p d ≡ true → P d)
    → All P (keep_if p devices)
    → All P (keep_if p (d ∷ devices))
All-kept p P d devices h rest =
    (elim (p d)
        as (λ b.
          p d ≡ b → All P (elim b [ true ↦ d ∷ keep_if p devices | false ↦ keep_if p devices ])) [
            | true ↦ λ e. (h e, rest)
            | false ↦ λ e. rest
          ])
      refl

-- What is owned by one of the devices that are still to come is owned by one of all.
abbrev Includes : List DeviceInfo → List DeviceInfo → Type 0
Includes all devices = (e : String × String) → IsOwned devices e → IsOwned all e

camera-has :
    (d : DeviceInfo) (r : String)
    → (not (is_base_station d) && not (is_sensor d)) ≡ true
    → contains (camera_resources d) r ≡ true
    → has_resource d (r, d.x_cloud_id) ≡ true
camera-has d r h e = ground (arith, str_eq_refl d.x_cloud_id)

sensor-has :
    (d : DeviceInfo) (r : String)
    → is_sensor d ≡ true
    → contains (sensor_resources d) r ≡ true
    → has_resource d (r, d.x_cloud_id) ≡ true
sensor-has d r h e = ground (arith, str_eq_refl d.x_cloud_id)

cameras-IsFine :
    (all devices : List DeviceInfo)
    → Includes all devices
    → All (IsFine (IsOwned all) camera_resources) (cameras devices)
unfolding cameras
cameras-IsFine all [] inc = tt
cameras-IsFine all (d ∷ devices) inc =
    All-kept (λ c. not (is_base_station c) && not (is_sensor c))
      (IsFine (IsOwned all) camera_resources) d devices
      (λ kept.
        contains-All (λ r. IsOwned all (r, d.x_cloud_id)) (camera_resources d)
          (λ r h. inc (r, d.x_cloud_id) (ground (arith, camera-has d r kept h))))
      (cameras-IsFine all devices (λ e h. inc e (ground arith)))

sensors-IsFine :
    (all devices : List DeviceInfo)
    → Includes all devices
    → All (IsFine (IsOwned all) sensor_resources) (contact_sensors devices)
unfolding contact_sensors
sensors-IsFine all [] inc = tt
sensors-IsFine all (d ∷ devices) inc =
    All-kept is_sensor (IsFine (IsOwned all) sensor_resources) d devices
      (λ kept.
        contains-All (λ r. IsOwned all (r, d.x_cloud_id)) (sensor_resources d)
          (λ r h. inc (r, d.x_cloud_id) (ground (arith, sensor-has d r kept h))))
      (sensors-IsFine all devices (λ e h. inc e (ground arith)))

pub gap-IsOwned :
    (devices : List DeviceInfo) (outcome : SubscribeOutcome)
    → All (IsOwned devices) (sse_gap_resources devices outcome)
unfolding sse_gap_resources
gap-IsOwned devices outcome =
    let granted = granted_topics outcome.results in
    add_gaps-All (IsOwned devices) granted sensor_resources
      (add_gaps camera_resources granted [] (cameras devices)) (contact_sensors devices)
      (add_gaps-All (IsOwned devices) granted camera_resources [] (cameras devices) tt
        (cameras-IsFine devices devices (λ e h. h)))
      (sensors-IsFine devices devices (λ e h. h))
