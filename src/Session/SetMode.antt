-- ===== src/Session/SetMode.antt =====
-- Setting the mode of a location in custom_components/eisenberg/coordinator.py.
use ha_eisenberg.Common.{◌≡◌, refl, List, Option, none, some, String}
use ha_eisenberg.Json.{Json}
use ha_eisenberg.Http.{
  authentication, session_expired, rate_limited, transient, api, mfa_required, runtime, malformed,
  unreachable, Result, ok, err, World, Action,
}
use ha_eisenberg.Modes.{LocationState}
use ha_eisenberg.Session.{
  Standing, Outcome, returned, auth_failed, raised, Call, ActiveModeState, with_location, first_set,
  set_again, after_first, finish_set, set_sent, get_active_mode,
}

-- The same modes, active and custom; the revision may be another.
abbrev pub IsSameMode : LocationState → LocationState → Type 0
IsSameMode a b =
    (b.active_mode ≡ a.active_mode)
    × (b.active_custom ≡ a.active_custom)
    × (b.custom_modes ≡ a.custom_modes)

-- After a call that did not return.
abbrev pub KeepsMode :
    {A : Type 0} → LocationState → Outcome A × (LocationState × (Standing × World)) → Type 0
KeepsMode location (returned a, rest) = Unit
KeepsMode location (auth_failed, (changed, rest)) = IsSameMode location changed
KeepsMode location (raised e, (changed, rest)) = IsSameMode location changed

with_location-KeepsMode :
    (location fresh : LocationState) (c : Call ActiveModeState)
    → IsSameMode location fresh
    → KeepsMode location (with_location fresh c)
with_location-KeepsMode location fresh (returned a, rest) h = tt
with_location-KeepsMode location fresh (auth_failed, rest) h = h
with_location-KeepsMode location fresh (raised e, rest) h = h

finish_set-KeepsMode :
    (mode : String) (custom : Option (List (String × String))) (location : LocationState)
    (o : Outcome ActiveModeState) (changed : LocationState) (rest : Standing × World)
    → KeepsMode location (o, (changed, rest))
    → KeepsMode location (finish_set mode custom (o, (changed, rest)))
unfolding finish_set
finish_set-KeepsMode mode custom location (returned state) changed rest h = tt
finish_set-KeepsMode mode custom location auth_failed changed rest h = h
finish_set-KeepsMode mode custom location (raised e) changed rest h = h

module _ (validate_mode : Json → Option ActiveModeState) (relogin : Action (Unit {0})) where
  set_again-KeepsMode :
      (id mode : String) (custom : Option (List (String × String))) (location : LocationState)
      (s : Standing) (r : Result ActiveModeState) (w : World)
      → KeepsMode location (set_again validate_mode relogin id mode custom location s (r, w))
  unfolding set_again
  set_again-KeepsMode id mode custom location s (err e) w = (refl, refl, refl)
  set_again-KeepsMode id mode custom location s (ok state) w =
      with_location-KeepsMode location _ _ (refl, refl, refl)

  after_first-KeepsMode :
      (id mode : String) (custom : Option (List (String × String))) (location : LocationState)
      (o : Outcome ActiveModeState) (s : Standing) (w : World)
      → KeepsMode location (after_first validate_mode relogin id mode custom location (o, (s, w)))
  unfolding after_first
  after_first-KeepsMode id mode custom location (raised api) s w =
      set_again-KeepsMode id mode custom location s (get_active_mode validate_mode id w).0
        (get_active_mode validate_mode id w).1
  after_first-KeepsMode id mode custom location (returned state) s w = tt
  after_first-KeepsMode id mode custom location auth_failed s w = (refl, refl, refl)
  after_first-KeepsMode id mode custom location (raised authentication) s w = (refl, refl, refl)
  after_first-KeepsMode id mode custom location (raised session_expired) s w = (refl, refl, refl)
  after_first-KeepsMode id mode custom location (raised rate_limited) s w = (refl, refl, refl)
  after_first-KeepsMode id mode custom location (raised transient) s w = (refl, refl, refl)
  after_first-KeepsMode id mode custom location (raised (mfa_required factors)) s w =
      (refl, refl, refl)
  after_first-KeepsMode id mode custom location (raised runtime) s w = (refl, refl, refl)
  after_first-KeepsMode id mode custom location (raised malformed) s w = (refl, refl, refl)
  after_first-KeepsMode id mode custom location (raised unreachable) s w = (refl, refl, refl)

  -- Setting a mode either returns, or it raises and the location shows what it showed before: of a failure
  -- nothing but the revision that was read again stays.
  pub set_sent-KeepsMode :
      (id : String) (sent : Option (String × Option (List (String × String))))
      (location : LocationState) (s : Standing) (w : World)
      → KeepsMode location (set_sent validate_mode relogin id sent location s w)
  unfolding set_sent
  set_sent-KeepsMode id none location s w = (refl, refl, refl)
  set_sent-KeepsMode id (some (mode, custom)) location s w =
      let (o, (t, v)) = first_set validate_mode relogin id mode custom location s w in
      let (o', (changed, rest)) =
        after_first validate_mode relogin id mode custom location (o, (t, v)) in
      finish_set-KeepsMode mode custom location o' changed rest
        (after_first-KeepsMode id mode custom location o t v)
