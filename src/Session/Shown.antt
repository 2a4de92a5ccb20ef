-- ===== src/Session/Shown.antt =====
-- The mode that a location shows once custom_components/eisenberg/coordinator.py has set it.
use ha_eisenberg.Common.{ℕ, ◌≡◌, List, Option, none, some, String}
use ha_eisenberg.Dicts.{lookup, put}
use ha_eisenberg.Json.{Json}
use ha_eisenberg.Http.{World, Action}
use ha_eisenberg.Modes.{LocationState, set_mode, mode_label}
use ha_eisenberg.Session.{
  Standing, Outcome, returned, auth_failed, raised, ActiveModeState, or_none, first_set,
  after_first,
}

-- The location shows the mode once it is set to what was sent, whatever revision it has then.
abbrev IsShownBy : LocationState → String → String → Option (List (String × String)) → Type 0
IsShownBy location mode m custom =
    (revision : ℕ)
    → mode_label (set_mode (record location { mode_revision = revision }) m (or_none custom))
      ≡ some mode

-- The location is as before but for its revision, when a call was accepted.
abbrev IsRevised :
    LocationState → Outcome ActiveModeState × (LocationState × (Standing × World)) → Type 0
IsRevised location (returned state, (changed, rest)) =
    (revision : ℕ) × (changed ≡ record location { mode_revision = revision })
IsRevised location (auth_failed, rest) = Unit
IsRevised location (raised e, rest) = Unit

-- What the location is to show: the mode that was asked for, unless Arlo's answer states one.
abbrev pub label_stated :
    LocationState → String → Option (String × List (String × String)) → Option String
label_stated location mode none = some mode
label_stated location mode (some (stated, custom)) = mode_label (set_mode location stated custom)

-- When Arlo accepted the call, it returns, and the location of that id is there and shows what the answer
-- states, or else the mode that was asked for.
abbrev pub IsShown :
    String
    → String
    → LocationState
    → Outcome ActiveModeState
    → Outcome (Unit {0}) × (List (String × LocationState) × (Standing × World))
    → Type 0
IsShown id mode location (returned state) (o, (locations, rest)) =
    (o ≡ returned tt)
    × ((changed : LocationState) × (lookup locations id ≡ some changed)
        × (mode_label changed ≡ label_stated location mode state.properties))
IsShown id mode location auth_failed after = Unit
IsShown id mode location (raised e) after = Unit

abbrev put_at :
    List (String × LocationState)
    → String
    → Outcome (Unit {0}) × (LocationState × (Standing × World))
    → Outcome (Unit {0}) × (List (String × LocationState) × (Standing × World))
put_at locations id (o, (changed, rest)) = (o, (put locations id changed, rest))

-- What the calls of Arlo come to: the first one, and where it is refused the retry with a fresh revision.
abbrev pub accepted :
    (Json → Option ActiveModeState)
    → Action (Unit {0})
    → String
    → String × Option (List (String × String))
    → LocationState
    → Standing
    → World
    → Outcome ActiveModeState
accepted validate_mode relogin id (m, custom) location s w =
    (after_first validate_mode relogin id m custom location
      (first_set validate_mode relogin id m custom location s w)).0
