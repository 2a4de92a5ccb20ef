-- ===== src/Gap/Uncovered.antt =====
-- The supplement carries what MQTT does not, and nothing else.
use mathlib.Core.Path.{subst}
use ha_eisenberg.Common.{
  ◌≡◌, sym, ap, ◌∙◌, [], ◌∷◌, List, Option, none, some, String, true, false, ◌||◌, arith, str_eq,
  str_eq_iff, if◌then◌else◌, All, Bool-cases, inl, inr, Option-cases, str_eq_refl,
}
use ha_eisenberg.Dicts.{lookup, put, has_key, has_key-put, All-put}
use ha_eisenberg.Json.{Entries, get, as_str}
use ha_eisenberg.Topics.{SubscribeOutcome, TopicRouter}
use ha_eisenberg.Devices.{DeviceInfo}
use ha_eisenberg.Gap.Owned.{IsOwned, gap-IsOwned}
use ha_eisenberg.Gap.{
  cameras, contact_sensors, granted_topics, resource_topic, is_covered, camera_resources,
  sensor_resources, add_gap, add_gaps, sse_gap_resources, route, route_frame, handle_sse_event,
}

-- No granted filter delivers the resource of that cloud id.
abbrev pub IsUncovered : List String → String × String → Type 0
IsUncovered granted (resource, x) = is_covered granted (resource_topic x resource "is") ≡ false

add_gap-IsUncovered :
    (granted : List String) (x : String) (gap : List (String × String)) (resources : List String)
    → All (IsUncovered granted) gap
    → All (IsUncovered granted) (add_gap granted x gap resources)
unfolding add_gap
add_gap-IsUncovered granted x gap [] h = h
add_gap-IsUncovered granted x gap (r ∷ resources) h =
    elim (Bool-cases (is_covered granted (resource_topic x r "is"))) [
      | inl e ↦ rw e (add_gap-IsUncovered granted x gap resources h)
      | inr e ↦ rw e (
          add_gap-IsUncovered granted x (put gap r x) resources
            (All-put (IsUncovered granted) gap r x h e))
    ]

add_gaps-IsUncovered :
    (resources_of : DeviceInfo → List String) (granted : List String) (gap : List (String × String))
    (devices : List DeviceInfo)
    → All (IsUncovered granted) gap
    → All (IsUncovered granted) (add_gaps resources_of granted gap devices)
unfolding add_gaps
add_gaps-IsUncovered resources_of granted gap [] h = h
add_gaps-IsUncovered resources_of granted gap (d ∷ devices) h =
    add_gaps-IsUncovered resources_of granted (add_gap granted d.x_cloud_id gap (resources_of d))
      devices (add_gap-IsUncovered granted d.x_cloud_id gap (resources_of d) h)

gap-IsUncovered :
    (devices : List DeviceInfo) (outcome : SubscribeOutcome)
    → All (IsUncovered (granted_topics outcome.results)) (sse_gap_resources devices outcome)
unfolding sse_gap_resources
gap-IsUncovered devices outcome =
    let granted = granted_topics outcome.results in
    add_gaps-IsUncovered sensor_resources granted
      (add_gaps camera_resources granted [] (cameras devices)) (contact_sensors devices)
      (add_gaps-IsUncovered camera_resources granted [] (cameras devices) tt)

-- Every resource of a device is covered, or in the gap.
abbrev pub IsHeard : List String → List (String × String) → String → String → Type 0
IsHeard granted gap x resource =
    (is_covered granted (resource_topic x resource "is") || has_key gap resource) ≡ true

has_key-add_gap :
    (granted : List String) (x : String) (gap : List (String × String)) (resources : List String)
    (r : String)
    → has_key gap r ≡ true
    → has_key (add_gap granted x gap resources) r ≡ true
unfolding add_gap
has_key-add_gap granted x gap [] r h = h
has_key-add_gap granted x gap (q ∷ resources) r h =
    has_key-add_gap granted x
      (if is_covered granted (resource_topic x q "is") then gap else put gap q x) resources r
      (ground (arith, has_key-put gap q x r))

has_key-add_gaps :
    (resources_of : DeviceInfo → List String) (granted : List String) (gap : List (String × String))
    (devices : List DeviceInfo) (r : String)
    → has_key gap r ≡ true
    → has_key (add_gaps resources_of granted gap devices) r ≡ true
unfolding add_gaps
has_key-add_gaps resources_of granted gap [] r h = h
has_key-add_gaps resources_of granted gap (d ∷ devices) r h =
    has_key-add_gaps resources_of granted (add_gap granted d.x_cloud_id gap (resources_of d))
      devices r (has_key-add_gap granted d.x_cloud_id gap (resources_of d) r h)

lookup-IsUncovered :
    (granted : List String) (gap : List (String × String)) (resource x : String)
    → All (IsUncovered granted) gap
    → lookup gap resource ≡ some x
    → IsUncovered granted (resource, x)
unfolding lookup
lookup-IsUncovered granted [] resource x h e = absurd (ground arith)
lookup-IsUncovered granted ((r, y) ∷ gap) resource x (here, h) e =
    elim (Bool-cases (str_eq r resource)) [
      | inl same ↦
          let ey : y ≡ x = ground arith in
          ap (λ (v : String). is_covered granted (resource_topic v resource "is")) (sym ey)
          ∙ ap (λ (k : String). is_covered granted (resource_topic y k "is"))
              (sym ((str_eq_iff r resource).0 same))
          ∙ here
      | inr other ↦ lookup-IsUncovered granted gap resource x h (ground arith)
    ]

IsHeard-add_gap :
    (granted : List String) (x : String) (gap : List (String × String)) (resources : List String)
    → All (IsHeard granted (add_gap granted x gap resources) x) resources
unfolding add_gap
IsHeard-add_gap granted x gap [] = tt
IsHeard-add_gap granted x gap (r ∷ resources) =
    let after = if is_covered granted (resource_topic x r "is") then gap else put gap r x in
    (
      ground (
        arith,
        has_key-add_gap granted x after resources r,
        has_key-put gap r x r,
        str_eq_refl r,
      ),
      IsHeard-add_gap granted x after resources,
    )

IsHeard-mono :
    (granted : List String) (small large : List (String × String)) (x : String)
    (resources : List String)
    → ((r : String) → has_key small r ≡ true → has_key large r ≡ true)
    → All (IsHeard granted small x) resources
    → All (IsHeard granted large x) resources
IsHeard-mono granted small large x [] more h = tt
IsHeard-mono granted small large x (r ∷ resources) more (here, h) =
    (ground (arith, more r), IsHeard-mono granted small large x resources more h)

-- All the resources of a device are covered, or in the gap.
abbrev pub IsServed :
    (DeviceInfo → List String) → List String → List (String × String) → DeviceInfo → Type 0
IsServed resources_of granted gap d = All (IsHeard granted gap d.x_cloud_id) (resources_of d)

IsServed-add_gaps :
    (resources_of : DeviceInfo → List String) (granted : List String) (gap : List (String × String))
    (devices : List DeviceInfo)
    → All (IsServed resources_of granted (add_gaps resources_of granted gap devices)) devices
unfolding add_gaps
IsServed-add_gaps resources_of granted gap [] = tt
IsServed-add_gaps resources_of granted gap (d ∷ devices) =
    let after = add_gap granted d.x_cloud_id gap (resources_of d) in
    (
      IsHeard-mono granted after (add_gaps resources_of granted after devices) d.x_cloud_id
          (resources_of d) (λ r. has_key-add_gaps resources_of granted after devices r)
          (IsHeard-add_gap granted d.x_cloud_id gap (resources_of d)),
      IsServed-add_gaps resources_of granted after devices,
    )

IsServed-mono :
    (granted : List String) (small large : List (String × String)) (devices : List DeviceInfo)
    → ((r : String) → has_key small r ≡ true → has_key large r ≡ true)
    → All (IsServed camera_resources granted small) devices
    → All (IsServed camera_resources granted large) devices
IsServed-mono granted small large [] more h = tt
IsServed-mono granted small large (d ∷ devices) more (here, h) = (
  IsHeard-mono granted small large d.x_cloud_id (camera_resources d) more here,
  IsServed-mono granted small large devices more h,
)

-- The gap is exact: an entry of it is a resource of a camera, doorbell or sensor of the account (none of a
-- base station) with the cloud id of that device, and no granted filter delivers it; and every resource of
-- a camera, doorbell or sensor of the account is delivered by a granted filter or stands in the gap.
pub sse_gap_resources_lem :
    (devices : List DeviceInfo) (outcome : SubscribeOutcome)
    → let granted = granted_topics outcome.results in
      let gap = sse_gap_resources devices outcome in
      All (IsOwned devices) gap
      × All (IsUncovered granted) gap
      × All (IsServed camera_resources granted gap) (cameras devices)
      × All (IsServed sensor_resources granted gap) (contact_sensors devices)
unfolding sse_gap_resources
sse_gap_resources_lem devices outcome =
    let granted = granted_topics outcome.results in
    let first = add_gaps camera_resources granted [] (cameras devices) in
    let gap = add_gaps sensor_resources granted first (contact_sensors devices) in
    (
      gap-IsOwned devices outcome,
      gap-IsUncovered devices outcome,
      IsServed-mono granted first gap (cameras devices)
          (λ r. has_key-add_gaps sensor_resources granted first (contact_sensors devices) r)
          (IsServed-add_gaps camera_resources granted [] (cameras devices)),
      IsServed-add_gaps sensor_resources granted first (contact_sensors devices),
    )

-- The topic of what is routed; a frame that is dropped has none.
abbrev pub IsRouted {ℓ} : {H : Type ℓ} → List String → Option (String × List H) → Type 0
IsRouted granted none = Unit
IsRouted granted (some (topic, handlers)) = is_covered granted topic ≡ false

module _ {ℓ} {H : Type ℓ} where
  route-IsRouted :
      (granted : List String) (gap : List (String × String)) (router : TopicRouter H)
      (resource : String)
      → All (IsUncovered granted) gap
      → IsRouted granted (route router (lookup gap resource) resource "is")
  route-IsRouted granted gap router resource h = elim (Option-cases (lookup gap resource)) [
    | inl e ↦ rw e tt
    | inr (x, e) ↦ rw e (lookup-IsUncovered granted gap resource x h e)
  ]

  route_frame-IsRouted :
      (granted : List String) (gap : List (String × String)) (router : TopicRouter H)
      (resource : Option String)
      → All (IsUncovered granted) gap
      → IsRouted granted (route_frame gap router resource (some "is"))
  route_frame-IsRouted granted gap router none h = tt
  route_frame-IsRouted granted gap router (some resource) h =
      route-IsRouted granted gap router resource h

  -- A frame of the supplement that reports a state (action "is") reaches a handler only on a topic that no
  -- granted filter delivers, so that no event is handled twice.
  pub handle_sse_event-IsRouted :
      (devices : List DeviceInfo) (outcome : SubscribeOutcome) (router : TopicRouter H)
      (payload : Entries)
      → as_str (get payload "action") ≡ some "is"
      → IsRouted
          (granted_topics outcome.results)
          (handle_sse_event (sse_gap_resources devices outcome) router payload)
  unfolding handle_sse_event
  handle_sse_event-IsRouted devices outcome router payload e =
      let gap = sse_gap_resources devices outcome in
      subst
        (λ (action : Option String).
          IsRouted (granted_topics outcome.results)
            (route_frame gap router (as_str (get payload "resource")) action))
        (sym e)
        (route_frame-IsRouted (granted_topics outcome.results) gap router
          (as_str (get payload "resource")) (gap-IsUncovered devices outcome))
