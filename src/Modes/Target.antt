-- ===== src/Modes/Target.antt =====
-- `custom_target` of eisenberg/models.py, and that what it selects is shown.
use ha_eisenberg.Common.{
  ◌≡◌, refl, ◌∙◌, ap, [], ◌∷◌, List, some, String, Bool, true, false, ◌&&◌, ◌||◌, arith, str_eq,
  str_eq_iff, Bool-cases, inl, inr, All, if◌then◌else◌,
}
use ha_eisenberg.Dicts.{lookup, put, has_key, IsDict, IsEntry, has_key-put, All-put}
use ha_eisenberg.Topics.{contains}
use ha_eisenberg.Topics.Subscribe.{contains-cons, contains-nil}
use ha_eisenberg.Modes.{
  LocationState, Labels, custom_mode, labels, or_key, label_in, label_of, first_label, set_mode,
  mode_label, target_in, target_from, custom_target,
}

-- Whether one of the entries of gateway `g` has the label.
unfoldable pub has_label : List (String × Labels) → String → String → Bool
has_label [] g label = false
has_label ((gateway_id, modes) ∷ custom_modes) g label =
    (str_eq gateway_id g && contains (labels modes) label) || has_label custom_modes g label

has_key-target_in :
    (label gateway_id : String) (target : List (String × String)) (modes : Labels) (g : String)
    → has_key (target_in label gateway_id target modes) g
      ≡ (has_key target g || (str_eq gateway_id g && contains (labels modes) label))
unfolding target_in labels
has_key-target_in label gateway_id target [] g = ground (arith, contains-nil label)
has_key-target_in label gateway_id target ((key, l) ∷ modes) g = ground (
  arith,
  has_key-target_in label gateway_id (if str_eq l label then put target gateway_id key else target)
      modes g,
  has_key-put target gateway_id key g,
  contains-cons l (labels modes) label,
)

has_key-target_from :
    (label : String) (target : List (String × String)) (custom_modes : List (String × Labels))
    (g : String)
    → has_key (target_from label target custom_modes) g
      ≡ (has_key target g || has_label custom_modes g label)
unfolding target_from has_label
has_key-target_from label target [] g = ground arith
has_key-target_from label target ((gateway_id, modes) ∷ custom_modes) g = ground (
  arith,
  has_key-target_from label (target_in label gateway_id target modes) custom_modes g,
  has_key-target_in label gateway_id target modes g,
)

has_key-nil : (g : String) → has_key {V = String} [] g ≡ false
unfolding has_key
has_key-nil g = refl

-- The key finds the label in the modes of its gateway.
abbrev pub Shows : List (String × Labels) → String → String × String → Type 0
Shows custom_modes label (g, key) = label_of custom_modes g key ≡ label

-- A dictionary of dictionaries.
abbrev pub IsModes : List (String × Labels) → String × Labels → Type 0
IsModes all (gateway_id, modes) = (lookup all gateway_id ≡ some modes) × IsDict modes

label_of-entry :
    (all : List (String × Labels)) (g key l : String) (modes : Labels)
    → lookup all g ≡ some modes
    → lookup modes key ≡ some l
    → label_of all g key ≡ l
unfolding label_of
label_of-entry all g key l modes e e2 = ap (label_in key) e ∙ ap (or_key key) e2

target_in-Shows :
    (all : List (String × Labels)) (label g : String) (target : List (String × String))
    (full modes : Labels)
    → lookup all g ≡ some full
    → All (IsEntry full) modes
    → All (Shows all label) target
    → All (Shows all label) (target_in label g target modes)
unfolding target_in
target_in-Shows all label g target full [] e h shows = shows
target_in-Shows all label g target full ((key, l) ∷ modes) e (here, hs) shows =
    elim (Bool-cases (str_eq l label)) [
      | inl same ↦ rw same (
          target_in-Shows all label g (put target g key) full modes e hs (
            All-put (Shows all label) target g key shows
              (label_of-entry all g key l full e here ∙ (str_eq_iff l label).0 same)))
      | inr other ↦ rw other (target_in-Shows all label g target full modes e hs shows)
    ]

target_from-Shows :
    (all : List (String × Labels)) (label : String) (target : List (String × String))
    (custom_modes : List (String × Labels))
    → All (IsModes all) custom_modes
    → All (Shows all label) target
    → All (Shows all label) (target_from label target custom_modes)
unfolding target_from
target_from-Shows all label target [] h shows = shows
target_from-Shows all label target ((g, modes) ∷ custom_modes) ((e, entries), hs) shows =
    target_from-Shows all label (target_in label g target modes) custom_modes hs
      (target_in-Shows all label g target modes modes e entries shows)

-- `custom_target` selects on exactly the gateways that have a mode of that label; and, the modes being
-- dictionaries, what it selects on each of them is a mode of that label.
pub custom_target_lem :
    (s : LocationState) (label : String)
    → All (IsModes s.custom_modes) s.custom_modes
    → ((g : String) → has_key (custom_target s label) g ≡ has_label s.custom_modes g label)
      × All (Shows s.custom_modes label) (custom_target s label)
unfolding custom_target
custom_target_lem s label h = (
  λ g. ground (arith, has_key-target_from label [] s.custom_modes g, has_key-nil g),
  target_from-Shows s.custom_modes label [] s.custom_modes h tt,
)

first_label-Shows :
    (all : List (String × Labels)) (label g : String) (target : List (String × String))
    → has_key target g ≡ true
    → All (Shows all label) target
    → first_label all target ≡ some label
unfolding first_label has_key
first_label-Shows all label g [] h shows = absurd (ground arith)
first_label-Shows all label g ((k, key) ∷ target) h (e, shows) = ap some e

-- A label under which some gateway of the location has a custom mode is shown as the active mode, once
-- `custom` is set with the target of that label, the modes being dictionaries.
pub mode_label-custom_target :
    (s : LocationState) (label g : String)
    → All (IsModes s.custom_modes) s.custom_modes
    → has_label s.custom_modes g label ≡ true
    → mode_label (set_mode s custom_mode (custom_target s label)) ≡ some label
unfolding mode_label set_mode
mode_label-custom_target s label g h offered =
    let (keys, shows) = custom_target_lem s label h in
    first_label-Shows s.custom_modes label g (custom_target s label) (keys g ∙ offered) shows
