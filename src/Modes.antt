-- ===== src/Modes.antt =====
-- eisenberg/models.py: the security modes of a location, and `_apply_mode` and the lookup of a device's
-- location of custom_components/eisenberg/coordinator.py.
pub mod Options
pub mod Target
pub mod Apply
mod Tests
use ha_eisenberg.Common.{
  ℕ, zero, suc, [], ◌∷◌, ◌++◌, List, Option, none, some, String, Bool, true, false, not, ◌&&◌, ◌||◌,
  str_eq, if◌then◌else◌,
}
use ha_eisenberg.Dicts.{lookup, put}
use ha_eisenberg.Topics.{add_missing, contains}

-- The values of ArloMode, in its order.
abbrev pub arlo_modes : List String
arlo_modes = "armAway" ∷ "armHome" ∷ "standby" ∷ []

abbrev pub custom_mode : String
custom_mode = "custom"

abbrev pub unnamed_custom_mode : String
unnamed_custom_mode = "__DEFAULT_DISARMED__"

-- Custom mode key → name, as `CustomModeEntry` holds it ("" when there is none).
abbrev pub Labels : Type 0
Labels = List (String × String)

unfoldable pub named : Labels → Labels
named [] = []
named ((key, name) ∷ entries) =
    let others = named entries in
    if str_eq name "" || str_eq name unnamed_custom_mode then others else (key, name) ∷ others

-- Over a dictionary that has been validated; the gateways of a dictionary are distinct.
unfoldable pub custom_mode_labels : List (String × Labels) → List (String × Labels)
unfolding named
custom_mode_labels [] = []
custom_mode_labels ((gateway_id, modes) ∷ raw) = (gateway_id, named modes) ∷ custom_mode_labels raw

pub record LocationInfo : Type 0 where
  pub info_id : String
  pub info_name : Option String
  pub info_gateways : List String

pub record LocationState : Type 0 where
  pub location_id : String
  pub location_name : Option String
  pub gateway_device_ids : List String
  pub active_mode : Option String
  pub active_custom : List (String × String)
  pub custom_modes : List (String × Labels)
  pub mode_revision : ℕ

abbrev pub from_info : LocationInfo → LocationState
from_info info = record {
  location_id = info.info_id;
  location_name = info.info_name;
  gateway_device_ids = info.info_gateways;
  active_mode = none;
  active_custom = [];
  custom_modes = [];
  mode_revision = 1;
}

unfoldable pub set_mode : LocationState → String → List (String × String) → LocationState
set_mode s mode custom = record s {
  active_mode = some mode;
  active_custom = if str_eq mode custom_mode then custom else [];
}

-- custom_modes.get(gateway_id, {}).get(key, key)
abbrev pub or_key : String → Option String → String
or_key key none = key
or_key key (some label) = label

abbrev pub label_in : String → Option Labels → String
label_in key none = key
label_in key (some modes) = or_key key (lookup modes key)

unfoldable pub label_of : List (String × Labels) → String → String → String
label_of custom_modes gateway_id key = label_in key (lookup custom_modes gateway_id)

-- The loop returns in its first round.
unfoldable pub first_label : List (String × Labels) → List (String × String) → Option String
unfolding label_of
first_label custom_modes [] = none
first_label custom_modes ((gateway_id, key) ∷ active) = some (label_of custom_modes gateway_id key)

unfoldable pub mode_label : LocationState → Option String
unfolding first_label
mode_label s = elim s.active_mode [
  | none ↦ none
  | some mode ↦
      if str_eq mode custom_mode then first_label s.custom_modes s.active_custom else some mode
]

-- modes.values()
unfoldable pub labels : Labels → List String
labels [] = []
labels ((key, label) ∷ modes) = label ∷ labels modes

-- The two loops over the named custom modes.
unfoldable pub add_custom : List String → List (String × Labels) → List String
unfolding labels add_missing
add_custom options [] = options
add_custom options ((gateway_id, modes) ∷ custom_modes) =
    add_custom (add_missing options (labels modes)) custom_modes

-- The active mode, when it is not offered yet.
unfoldable pub add_active : List String → Option String → List String
unfolding contains
add_active options none = options
add_active options (some active) =
    if contains options active then options else options ++ (active ∷ [])

unfoldable pub mode_options : LocationState → List String
unfolding add_custom mode_label add_active
mode_options s = add_active (add_custom arlo_modes s.custom_modes) (mode_label s)

-- The comprehension of `custom_target`: a later key of a gateway replaces an earlier one.
unfoldable pub target_in :
    String → String → List (String × String) → Labels → List (String × String)
unfolding put
target_in label gateway_id target [] = target
target_in label gateway_id target ((key, mode_label) ∷ modes) =
    target_in label gateway_id
      (if str_eq mode_label label then put target gateway_id key else target) modes

unfoldable pub target_from :
    String → List (String × String) → List (String × Labels) → List (String × String)
unfolding target_in
target_from label target [] = target
target_from label target ((gateway_id, modes) ∷ custom_modes) =
    target_from label (target_in label gateway_id target modes) custom_modes

unfoldable pub custom_target : LocationState → String → List (String × String)
unfolding target_from
custom_target s label = target_from label [] s.custom_modes

-- self.locations.get(id).set_mode(mode, custom) for the location that has the id.
unfoldable pub set_mode_at :
    List (String × LocationState)
    → String
    → String
    → List (String × String)
    → List (String × LocationState)
unfolding set_mode
set_mode_at [] id mode custom = []
set_mode_at ((key, s) ∷ locations) id mode custom =
    let others = set_mode_at locations id mode custom in
    if str_eq key id then (key, set_mode s mode custom) ∷ locations else (key, s) ∷ others

-- `_apply_mode`, on the dictionary `locations`.
unfoldable pub apply_mode :
    List (String × LocationState)
    → Option String
    → String
    → List (String × String)
    → List (String × LocationState)
unfolding set_mode_at
apply_mode locations (some id) mode custom = set_mode_at locations id mode custom
apply_mode [] none mode custom = []
apply_mode ((key, s) ∷ []) none mode custom = (key, set_mode s mode custom) ∷ []
apply_mode (first ∷ second ∷ locations) none mode custom = first ∷ second ∷ locations
