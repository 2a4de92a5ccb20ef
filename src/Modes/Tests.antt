-- ===== src/Modes/Tests.antt =====
-- Runs of the modes, and their theorems at a location with two gateways.
use ha_eisenberg.Common.{◌≡◌, refl, String, true, [], ◌∷◌, none, some, All, ◌||◌}
use ha_eisenberg.Dicts.{lookup, put, has_key}
use ha_eisenberg.Topics.{contains, add_missing}
use ha_eisenberg.Topics.Subscribe.{is_distinct}
use ha_eisenberg.Modes.{
  LocationState, from_info, arlo_modes, custom_mode, custom_mode_labels, named, mode_label,
  mode_options, custom_target, set_mode, label_of, first_label, labels, add_custom, add_active,
  target_from, target_in, apply_mode, set_mode_at,
}
use ha_eisenberg.Modes.Options.{is_named, is_text, mode_options_lem}
use ha_eisenberg.Modes.Target.{
  IsModes, Shows, has_label, custom_target_lem, mode_label-custom_target,
}

modes : Unit {0}
unfolding lookup put has_key contains add_missing is_distinct custom_mode_labels named mode_label
    mode_options custom_target set_mode label_of first_label labels add_custom add_active
    target_from target_in is_named has_label apply_mode set_mode_at
modes = tt

abbrev home : LocationState
home = record (from_info (record { info_id = "L"; info_name = none; info_gateways = "U_G" ∷ [] })) {
  active_mode = some "custom";
  active_custom = ("G", "m9") ∷ [];
  custom_modes = ("G", ("m1", "Night") ∷ ("m2", "Holiday") ∷ []) ∷ ("H", ("k", "Night") ∷ []) ∷ [];
}

labels_named :
    custom_mode_labels (("G", ("armed", "") ∷ ("m1", "Night") ∷ []) ∷ [])
    ≡ ("G", ("m1", "Night") ∷ []) ∷ []
unfolding modes
labels_named = refl

home_options :
    mode_options home ≡ "armAway" ∷ "armHome" ∷ "standby" ∷ "Night" ∷ "Holiday" ∷ "m9" ∷ []
unfolding modes
home_options = refl

home_target : custom_target home "Night" ≡ ("G", "m1") ∷ ("H", "k") ∷ []
unfolding modes
home_target = refl

abbrev other_home : LocationState
other_home = record home { location_id = "M" }

one_of_two :
    apply_mode (("L", home) ∷ ("M", other_home) ∷ []) none "standby" []
    ≡ ("L", home) ∷ ("M", other_home) ∷ []
unfolding modes
one_of_two = refl

home-IsModes : All (IsModes home.custom_modes) home.custom_modes
unfolding modes
home-IsModes = ((refl, (refl, (refl, tt))), ((refl, (refl, tt)), tt))

home_has_night : has_label home.custom_modes "H" "Night" ≡ true
unfolding modes
home_has_night = refl

mode_options_example :
    ((t : String)
      → contains (mode_options home) t
        ≡ ((contains arlo_modes t || is_named home.custom_modes t) || is_text (mode_label home) t))
    × (is_distinct (mode_options home) ≡ true)
mode_options_example = mode_options_lem home

custom_target_example :
    ((g : String) → has_key (custom_target home "Night") g ≡ has_label home.custom_modes g "Night")
    × All (Shows home.custom_modes "Night") (custom_target home "Night")
custom_target_example = custom_target_lem home "Night" home-IsModes

mode_label-custom_target_example :
    mode_label (set_mode home custom_mode (custom_target home "Night")) ≡ some "Night"
mode_label-custom_target_example =
    mode_label-custom_target home "Night" "H" home-IsModes home_has_night
