-- ===== src/Devices/Locations.antt =====
-- The pruning of locations leaves the location of every device as it is.
use text.Mathlib.TextLemmas.{nil-append, cons-append}
use ha_eisenberg.Common.{
  All, ◌+s◌, ◌≡◌, refl, ◌∙◌, [], ◌∷◌, ◌++◌, List, none, some, String, Bool, true, false, ◌||◌,
  str_eq_iff, str_eq_refl, arith, Bool-cases, inl, inr, any, keep_if, map, ◌⊎◌, ap,
}
use ha_eisenberg.Topics.{contains}
use ha_eisenberg.Topics.Subscribe.{contains-cons, contains-nil}
use ha_eisenberg.Modes.{LocationInfo, LocationState, from_info}
use ha_eisenberg.Devices.{
  DeviceInfo, after_underscore, suffix, gateway_of, is_gateway, resolve_location_for_device,
  claims_a_device, or_all, relevant_locations,
}

is_gateway-claims :
    (gateways : List String) (gateway : String) (gids : List String)
    → contains gateways gateway ≡ true
    → is_gateway gateway gids ≡ true
    → any (λ gid. contains gateways gid || contains gateways (suffix gid)) gids ≡ true
unfolding is_gateway
is_gateway-claims gateways gateway [] h g = ground arith
is_gateway-claims gateways gateway (gid ∷ gids) h g = ground (
  arith,
  str_eq_iff gateway gid,
  str_eq_iff gateway (suffix gid),
  is_gateway-claims gateways gateway gids,
)

resolve-keep_if :
    (d : DeviceInfo) (p : LocationInfo → Bool) (infos : List LocationInfo)
    → ((info : LocationInfo) → is_gateway (gateway_of d) info.info_gateways ≡ true → p info ≡ true)
    → resolve_location_for_device d (map from_info (keep_if p infos))
      ≡ resolve_location_for_device d (map from_info infos)
unfolding resolve_location_for_device
resolve-keep_if d p [] h = refl
resolve-keep_if d p (info ∷ infos) h = elim (Bool-cases (p info)) [
  | inl kept ↦ ground (arith, resolve-keep_if d p infos h)
  | inr dropped ↦ ground (arith, h info, resolve-keep_if d p infos h)
]

contains-map :
    (d : DeviceInfo) (devices before : List DeviceInfo)
    → contains (map gateway_of (before ++ (d ∷ devices))) (gateway_of d) ≡ true
contains-map d devices [] = ground (
  arith,
  contains-cons (gateway_of d) (map gateway_of devices) (gateway_of d),
  str_eq_refl (gateway_of d),
)
contains-map d devices (b ∷ before) = ground (
  arith,
  contains-cons (gateway_of b) (map gateway_of (before ++ (d ∷ devices))) (gateway_of d),
  contains-map d devices before,
)

-- When some location is kept the others are gone, else all are kept: the location of no device changes.
or_all-cases {ℓ} :
    {A : Type ℓ} (xs infos : List A) → (or_all xs infos ≡ xs) ⊎ (or_all xs infos ≡ infos)
unfolding or_all
or_all-cases [] infos = inr refl
or_all-cases (x ∷ xs) infos = inl refl

-- Every device is in the same location, or in none, before the locations are pruned and after.
pub resolve-relevant_locations :
    (infos : List LocationInfo) (before : List DeviceInfo) (d : DeviceInfo)
    (after : List DeviceInfo)
    → resolve_location_for_device d
        (map from_info (relevant_locations infos (before ++ (d ∷ after))))
      ≡ resolve_location_for_device d (map from_info infos)
unfolding relevant_locations claims_a_device
resolve-relevant_locations infos before d after =
    let gateways = map gateway_of (before ++ (d ∷ after)) in
    let p = claims_a_device gateways in
    let resolve = λ (l : List LocationInfo). resolve_location_for_device d (map from_info l) in
    elim (or_all-cases (keep_if p infos) infos) [
      | inl kept ↦
          ap resolve kept
          ∙ resolve-keep_if d p infos (λ info g.
            is_gateway-claims gateways (gateway_of d) info.info_gateways
              (contains-map d after before) g)
      | inr all ↦ ap resolve all
    ]

after_underscore-owned :
    (owner gateway : String)
    → after_underscore owner ≡ none
    → after_underscore (owner +s ("_" +s gateway)) ≡ some gateway
unfolding after_underscore
after_underscore-owned String.[] gateway h = ap after_underscore (
    nil-append ("_" +s gateway)
    ∙ cons-append "_" "" gateway
    ∙ ap (String.◌∷◌ "_") (nil-append gateway))
after_underscore-owned (String.◌∷◌ c s) gateway h =
    ap after_underscore (cons-append c s ("_" +s gateway))
    ∙ ground (arith, after_underscore-owned s gateway)

suffix-owned :
    (owner gateway : String)
    → after_underscore owner ≡ none
    → suffix (owner +s ("_" +s gateway)) ≡ gateway
unfolding suffix
suffix-owned owner gateway h = rw (suffix, after_underscore-owned owner gateway h) refl

is_gateway-owned :
    (gids : List String) (owner gateway : String)
    → after_underscore owner ≡ none
    → contains gids (owner +s ("_" +s gateway)) ≡ true
    → is_gateway gateway gids ≡ true
unfolding is_gateway
is_gateway-owned [] owner gateway h found =
    absurd (ground (arith, contains-nil (owner +s ("_" +s gateway))))
is_gateway-owned (gid ∷ gids) owner gateway h found = ground (
  arith,
  contains-cons gid gids (owner +s ("_" +s gateway)),
  str_eq_iff gid (owner +s ("_" +s gateway)),
  suffix-owned owner gateway h,
  str_eq_refl gateway,
  is_gateway-owned gids owner gateway h,
)

-- A device is in the first location that lists its gateway: as "owner_gateway", the owner being without
-- "_", when no location before it lists the gateway in either way.
pub resolve_location_for_device_lem :
    (d : DeviceInfo) (before : List LocationState) (location : LocationState)
    (after : List LocationState) (owner : String)
    → after_underscore owner ≡ none
    → contains location.gateway_device_ids (owner +s ("_" +s gateway_of d)) ≡ true
    → All (λ (l : LocationState). is_gateway (gateway_of d) l.gateway_device_ids ≡ false) before
    → resolve_location_for_device d (before ++ (location ∷ after)) ≡ some location
unfolding resolve_location_for_device
resolve_location_for_device_lem d [] location after owner h found others =
    ground (arith, is_gateway-owned location.gateway_device_ids owner (gateway_of d) h found)
resolve_location_for_device_lem d (b ∷ before) location after owner h found (other, others) =
    ground
      (arith, other, resolve_location_for_device_lem d before location after owner h found others)
