-- ===== src/Modes/Apply.antt =====
-- Which location a mode event reaches: `_apply_mode` of custom_components/eisenberg/coordinator.py.
use ha_eisenberg.Common.{
  ◌≡◌, [], ◌∷◌, List, Option, none, some, String, str_eq, str_eq_iff, if◌then◌else◌, arith,
}
use ha_eisenberg.Dicts.{lookup}
use ha_eisenberg.Modes.{LocationState, set_mode, set_mode_at, apply_mode}

-- The location under `id`, when there is one, with the mode set.
abbrev pub set_mode_in :
    Option LocationState → String → List (String × String) → Option LocationState
set_mode_in none mode custom = none
set_mode_in (some s) mode custom = some (set_mode s mode custom)

-- An event with a location id sets the mode of the location of that id, if there is one, and leaves every
-- other location as it was; an unknown id changes nothing.
pub lookup-apply_mode :
    (locations : List (String × LocationState)) (id mode : String) (custom : List (String × String))
    (j : String)
    → lookup (apply_mode locations (some id) mode custom) j
      ≡ (if str_eq id j then set_mode_in (lookup locations j) mode custom else lookup locations j)
unfolding apply_mode set_mode_at lookup
lookup-apply_mode [] id mode custom j = ground arith
lookup-apply_mode ((key, s) ∷ locations) id mode custom j = ground (
  arith,
  str_eq_iff key id,
  str_eq_iff key j,
  str_eq_iff id j,
  lookup-apply_mode locations id mode custom j,
)
