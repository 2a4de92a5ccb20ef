-- ===== src/Modes/Options.antt =====
-- What `mode_options` of eisenberg/models.py offers.
use ha_eisenberg.Common.{
  ◌≡◌, refl, [], ◌∷◌, List, Option, none, some, String, Bool, true, false, ◌||◌, arith, str_eq,
  str_eq_iff,
}
use ha_eisenberg.Topics.{contains, add_missing}
use ha_eisenberg.Topics.Subscribe.{
  is_distinct, is_distinct-concat, contains-append, contains-cons, contains-nil,
  contains-add_missing, is_distinct-add_missing,
}
use ha_eisenberg.Modes.{
  LocationState, Labels, arlo_modes, labels, add_custom, mode_label, add_active, mode_options,
}

-- Whether a gateway names a mode `t`.
unfoldable pub is_named : List (String × Labels) → String → Bool
is_named [] t = false
is_named ((gateway_id, modes) ∷ custom_modes) t =
    contains (labels modes) t || is_named custom_modes t

-- Whether a text that may be missing is `t`.
abbrev pub is_text : Option String → String → Bool
is_text none t = false
is_text (some l) t = str_eq l t

contains-add_custom :
    (options : List String) (custom_modes : List (String × Labels)) (t : String)
    → contains (add_custom options custom_modes) t ≡ (contains options t || is_named custom_modes t)
unfolding add_custom is_named
contains-add_custom options [] t = ground arith
contains-add_custom options ((gateway_id, modes) ∷ custom_modes) t = ground (
  arith,
  contains-add_custom (add_missing options (labels modes)) custom_modes t,
  contains-add_missing options (labels modes) t,
)

is_distinct-add_custom :
    (options : List String) (custom_modes : List (String × Labels))
    → is_distinct options ≡ true
    → is_distinct (add_custom options custom_modes) ≡ true
unfolding add_custom
is_distinct-add_custom options [] h = h
is_distinct-add_custom options ((gateway_id, modes) ∷ custom_modes) h =
    is_distinct-add_custom (add_missing options (labels modes)) custom_modes
      (is_distinct-add_missing options (labels modes) h)

contains-add_active :
    (options : List String) (active : Option String) (t : String)
    → contains (add_active options active) t ≡ (contains options t || is_text active t)
unfolding add_active
contains-add_active options none t = ground arith
contains-add_active options (some l) t = ground (
  arith,
  contains-append options (l ∷ []) t,
  contains-cons l [] t,
  contains-nil t,
  str_eq_iff l t,
)

is_distinct-add_active :
    (options : List String) (active : Option String)
    → is_distinct options ≡ true
    → is_distinct (add_active options active) ≡ true
unfolding add_active
is_distinct-add_active options none h = h
is_distinct-add_active options (some l) h = ground (arith, is_distinct-concat options l)

arlo_modes-distinct : is_distinct arlo_modes ≡ true
unfolding is_distinct contains
arlo_modes-distinct = refl

-- The options of a location are exactly the standard modes, the custom modes that a gateway names, and
-- the mode that is shown as active; and none is offered twice.
pub mode_options_lem :
    (s : LocationState)
    → ((t : String)
        → contains (mode_options s) t
          ≡ ((contains arlo_modes t || is_named s.custom_modes t) || is_text (mode_label s) t))
      × (is_distinct (mode_options s) ≡ true)
unfolding mode_options
mode_options_lem s =
    let options = add_custom arlo_modes s.custom_modes in
    (
      λ t. ground (
        arith,
        contains-add_custom arlo_modes s.custom_modes t,
        contains-add_active options (mode_label s) t,
      ),
      is_distinct-add_active options (mode_label s)
          (is_distinct-add_custom arlo_modes s.custom_modes arlo_modes-distinct),
    )
