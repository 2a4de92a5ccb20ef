-- ===== src/Discovery/Kept.antt =====
-- custom_components/eisenberg/coordinator.py: what is discovered of the locations, whatever the modes come to.
use ha_eisenberg.Common.{
  ℕ, ◌≡◌, refl, ap, ◌∙◌, [], ◌∷◌, List, Option, none, some, String, str_eq, if◌then◌else◌,
}
use ha_eisenberg.Dicts.{lookup, put, lookup-put}
use ha_eisenberg.Json.{Json}
use ha_eisenberg.Http.{Result, ok, err, World}
use ha_eisenberg.Modes.{Labels, LocationInfo, LocationState, from_info, set_mode, custom_mode}
use ha_eisenberg.Devices.{DeviceInfo, relevant_locations}
use ha_eisenberg.Commands.{get_locations}
use ha_eisenberg.Session.{ActiveModeState, get_active_mode, or_one}
use ha_eisenberg.Discovery.{
  get_custom_modes, with_properties, mode_read, custom_modes_read, discover_one, discover_each,
  discovered, discover_locations,
}

-- What is read for a location: what it says of itself, and what asking for its mode and for its custom
-- modes came to.
pub record Reading : Type 0 where
  pub info : LocationInfo
  pub mode : Result ActiveModeState
  pub custom : Result (List (String × Labels))

abbrev pub properties_of : Result ActiveModeState → Option (String × List (String × String))
properties_of (ok state) = state.properties
properties_of (err e) = none

abbrev pub active_of : Option (String × List (String × String)) → Option String
active_of none = none
active_of (some (mode, custom)) = some mode

abbrev pub custom_of : Option (String × List (String × String)) → List (String × String)
custom_of none = []
custom_of (some (mode, custom)) = if str_eq mode custom_mode then custom else []

abbrev pub revision_of : Result ActiveModeState → ℕ
revision_of (ok state) = or_one state.revision
revision_of (err e) = 1

abbrev pub modes_in : Result (List (String × Labels)) → List (String × Labels)
modes_in (ok modes) = modes
modes_in (err e) = []

-- The location that the readings make, field by field: the active mode and the revision come from the mode
-- alone, the custom modes from the custom modes alone, and either is as for a new location when its
-- reading failed.
abbrev pub expected : Reading → LocationState
expected r = record {
  location_id = r.info.info_id;
  location_name = r.info.info_name;
  gateway_device_ids = r.info.info_gateways;
  active_mode = active_of (properties_of r.mode);
  active_custom = custom_of (properties_of r.mode);
  custom_modes = modes_in r.custom;
  mode_revision = revision_of r.mode;
}

-- Of the readings with an id the last, or what was there.
abbrev pub last_known : List Reading → String → Option LocationState → Option LocationState
last_known [] id old = old
last_known (r ∷ readings) id old =
    last_known readings id (if str_eq r.info.info_id id then some (expected r) else old)

with_properties-expected :
    (info : LocationInfo) (p : Option (String × List (String × String))) (revision : ℕ)
    → with_properties p (record (from_info info) { mode_revision = revision })
      ≡ record (from_info info) {
        mode_revision = revision;
        active_mode = active_of p;
        active_custom = custom_of p;
      }
unfolding set_mode
with_properties-expected info none revision = refl
with_properties-expected info (some (mode, custom)) revision = refl

custom_modes_read-expected :
    (l : LocationState) (custom : Result (List (String × Labels)))
    → l.custom_modes ≡ []
    → custom_modes_read l custom ≡ record l { custom_modes = modes_in custom }
custom_modes_read-expected l (ok modes) e = refl
custom_modes_read-expected l (err _) e =
    ap (λ (modes : List (String × Labels)). record l { custom_modes = modes }) e

mode_read-expected :
    (info : LocationInfo) (mode : Result ActiveModeState)
    → mode_read (from_info info) mode
      ≡ expected (record { info = info; mode = mode; custom = ok [] })
mode_read-expected info (ok state) =
    with_properties-expected info state.properties (or_one state.revision)
mode_read-expected info (err e) = refl

module _ (validate_location : Json → Option LocationInfo)
    (validate_mode : Json → Option ActiveModeState)
    (validate_modes : Json → Option (List (String × Labels))) where
  -- Each location in turn is asked for its mode, and then for its custom modes.
  abbrev pub read_each : List LocationInfo → World → List Reading
  read_each [] w = []
  read_each (info ∷ infos) w =
      let (mode, v) = get_active_mode validate_mode info.info_id w in
      let (custom, u) = get_custom_modes validate_modes info.info_id v in
      record { info = info; mode = mode; custom = custom } ∷ read_each infos u

  discover_one-expected :
      (info : LocationInfo) (w : World)
      → let (mode, v) = get_active_mode validate_mode info.info_id w in
        let (custom, u) = get_custom_modes validate_modes info.info_id v in
        discover_one validate_location validate_mode validate_modes info w
        ≡ (expected (record { info = info; mode = mode; custom = custom }), u)
  unfolding discover_one
  discover_one-expected info w =
      let (mode, v) = get_active_mode validate_mode info.info_id w in
      let (custom, u) = get_custom_modes validate_modes info.info_id v in
      let read = expected (record { info = info; mode = mode; custom = ok [] }) in
      ap (λ (l : LocationState). (l, u))
        (ap (λ (l : LocationState). custom_modes_read l custom) (mode_read-expected info mode)
          ∙ custom_modes_read-expected read custom refl)

  found :
      (locations : List (String × LocationState)) (infos : List LocationInfo) (w : World)
      (id : String)
      → lookup (discover_each validate_location validate_mode validate_modes locations infos w).0 id
        ≡ last_known (read_each infos w) id (lookup locations id)
  unfolding discover_each
  found locations [] w id = refl
  found locations (info ∷ infos) w id =
      let (mode, v) = get_active_mode validate_mode info.info_id w in
      let (custom, u) = get_custom_modes validate_modes info.info_id v in
      let l = expected (record { info = info; mode = mode; custom = custom }) in
      ap
        (λ (p : LocationState × World).
          lookup
            (discover_each validate_location validate_mode validate_modes
              (put locations info.info_id p.0) infos p.1).0
            id)
        (discover_one-expected info w)
      ∙ found (put locations info.info_id l) infos u id
      ∙ ap (last_known (read_each infos u) id) (lookup-put locations info.info_id l id)

  -- Of each location that is kept of the list, the coordinator knows exactly what was read for it: a mode or
  -- custom modes that cannot be read lose no location, stop no later one, and leave every field that the
  -- other reading gives; and it knows no other location.
  pub discover_locations_lem :
      (devices : List DeviceInfo) (infos : List LocationInfo) (w v : World) (id : String)
      → get_locations validate_location w ≡ (ok infos, v)
      → lookup (discover_locations validate_location validate_mode validate_modes devices w).0 id
        ≡ last_known (read_each (relevant_locations infos devices) v) id none
  unfolding discover_locations lookup
  discover_locations_lem devices infos w v id h =
      ap
        (λ (p : Result (List LocationInfo) × World).
          lookup (discovered validate_location validate_mode validate_modes devices p).0 id)
        h
      ∙ found [] (relevant_locations infos devices) v id
