-- ===== src/Session.antt =====
-- custom_components/eisenberg/coordinator.py: calls of the client with one silent login in between, the
-- mode of a device and setting the mode of a location; with the mode requests of eisenberg/client.py.
-- `relogin` is the client's login with the coordinator's account.
pub mod Retry
pub mod SetMode
pub mod Shown
mod Tests
use ha_eisenberg.Common.{
  ℕ, zero, suc, ◌+◌, ◌==◌, [], ◌∷◌, ◌++◌, List, Option, none, some, String, Bool, true, false, not,
  ◌&&◌, ◌||◌, str_eq, ◌+s◌, if◌then◌else◌,
}
use ha_eisenberg.Dicts.{lookup, put}
use ha_eisenberg.Json.{
  Json, null, bool, int, str, object, Entries, no_entries, entry, pos, get, as_object,
}
use ha_eisenberg.Http.{
  Error, authentication, session_expired, rate_limited, transient, api, mfa_required, runtime,
  malformed, unreachable, is_authentication, Result, ok, err, Request, Client, World, Action, pure,
  raise, or_raise, gets, ◌>>=◌, ◌>>◌, raise_if, exchange, get_in, or_empty, raise_for_arlo_error,
}
use ha_eisenberg.Login.{fields, fields_of, is_null}
use ha_eisenberg.Topics.{contains}
use ha_eisenberg.Modes.{LocationState, arlo_modes, custom_mode, custom_target, set_mode}
use ha_eisenberg.Devices.{DeviceInfo, resolve_location_for_device}
use ha_eisenberg.Commands.{authenticated, account_request, values}

-- Whether the session is dead, and how often the user was asked to sign in again.
pub record Standing : Type 0 where
  pub is_dead : Bool
  pub reauths : ℕ

-- How a call ends: it returns, it raises ConfigEntryAuthFailed, or what the client raised.
pub data Outcome (A : Type 0) : Type 0 where
  returned : A → Outcome A
  auth_failed : Outcome A
  raised : Error → Outcome A

-- `_mark_auth_dead`
abbrev pub mark_auth_dead : Standing → Standing
mark_auth_dead s = if s.is_dead then s else record { is_dead = true; reauths = s.reauths + 1 }

-- isinstance(err, (AuthenticationError, RateLimitedError))
abbrev pub is_verdict : Error → Bool
is_verdict rate_limited = true
is_verdict authentication = true
is_verdict session_expired = true
is_verdict (mfa_required factors) = true
is_verdict transient = false
is_verdict api = false
is_verdict runtime = false
is_verdict malformed = false
is_verdict unreachable = false

abbrev pub Call : Type 0 → Type 0
Call A = Outcome A × (Standing × World)

module _ {A : Type 0} where
  -- What the second try comes to is what the call comes to.
  abbrev pub second_try : Standing → Result A × World → Call A
  second_try s (ok a, w) = (returned a, (s, w))
  second_try s (err e, w) = (raised e, (s, w))

  -- After the silent login, which clears `_auth_is_dead` when it succeeds.
  unfoldable pub after_login : Action A → Standing → Result (Unit {0}) × World → Call A
  after_login op s (ok done, w) = second_try (record s { is_dead = false }) (op w)
  after_login op s (err e, w) =
      if is_verdict e then (auth_failed, (mark_auth_dead s, w)) else (raised e, (s, w))

  unfoldable pub after_try : Action (Unit {0}) → Action A → Standing → Result A × World → Call A
  unfolding after_login
  after_try relogin op s (ok a, w) = (returned a, (s, w))
  after_try relogin op s (err session_expired, w) = after_login op s (relogin w)
  after_try relogin op s (err authentication, w) = (raised authentication, (s, w))
  after_try relogin op s (err rate_limited, w) = (raised rate_limited, (s, w))
  after_try relogin op s (err transient, w) = (raised transient, (s, w))
  after_try relogin op s (err api, w) = (raised api, (s, w))
  after_try relogin op s (err (mfa_required factors), w) = (raised (mfa_required factors), (s, w))
  after_try relogin op s (err runtime, w) = (raised runtime, (s, w))
  after_try relogin op s (err malformed, w) = (raised malformed, (s, w))
  after_try relogin op s (err unreachable, w) = (raised unreachable, (s, w))

  unfoldable pub call_with_session_retry : Action (Unit {0}) → Action A → Standing → World → Call A
  unfolding after_try
  call_with_session_retry relogin op s w =
      if s.is_dead then (auth_failed, (s, w)) else after_try relogin op s (op w)

-- `location_for_device`: the first location stands in for one that is not found.
abbrev pub or_first : Option LocationState → List LocationState → Option LocationState
or_first (some location) locations = some location
or_first none [] = none
or_first none (location ∷ locations) = some location

unfoldable pub location_for_device :
    List (String × LocationState) → DeviceInfo → Option LocationState
unfolding resolve_location_for_device
location_for_device locations d =
    or_first (resolve_location_for_device d (values locations)) (values locations)

-- next((d for d in self._devices if d.device_id == device_id), None)
unfoldable pub find_device : List DeviceInfo → String → Option DeviceInfo
find_device [] id = none
find_device (d ∷ devices) id =
    let later = find_device devices id in if str_eq d.device_id id then some d else later

abbrev pub mode_in : Option LocationState → Option String
mode_in none = none
mode_in (some location) = location.active_mode

unfoldable pub mode_for_device :
    List (String × LocationState) → List DeviceInfo → String → Option String
unfolding location_for_device find_device
mode_for_device locations devices id = elim (find_device devices id) [
  | none ↦ none
  | some d ↦ mode_in (location_for_device locations d)
]

-- The coordinator's `request_snapshot`: refused while the camera is disarmed, before anything is sent.
abbrev pub is_mode : Option String → String → Bool
is_mode none mode = false
is_mode (some m) mode = str_eq m mode

-- What the entity sees: nothing, or a HomeAssistantError.
pub data Snapshot : Type 0 where
  requested : Snapshot
  refused : Snapshot

abbrev pub as_home_assistant_error : Outcome (Unit {0}) → Snapshot
as_home_assistant_error (returned done) = requested
as_home_assistant_error auth_failed = refused
as_home_assistant_error (raised e) = refused

abbrev pub snapshot_of : Call (Unit {0}) → Snapshot × (Standing × World)
snapshot_of (o, rest) = (as_home_assistant_error o, rest)

unfoldable pub ask_snapshot :
    List (String × LocationState)
    → List DeviceInfo
    → Action (Unit {0})
    → Action (Unit {0})
    → String
    → Standing
    → World
    → Snapshot × (Standing × World)
unfolding mode_for_device call_with_session_retry
ask_snapshot locations devices relogin request id s w =
    if is_mode (mode_for_device locations devices id) "standby"
    then (refused, (s, w))
    else snapshot_of (call_with_session_retry relogin request s w)

-- What Arlo states of a location's mode.
pub record ActiveModeState : Type 0 where
  pub properties : Option (String × List (String × String))
  pub revision : ℕ

-- A request of the automation API; its query parameters stand before the fields of its body.
unfoldable pub automation : Json → Action Json
unfolding authenticated exchange
automation content = do
  c ← authenticated
  raise_if (is_null c.user_id) runtime
  exchange (account_request c "/hmsweb/automation/v3/activeMode" content)

-- body["data"], or the body when there is none
abbrev pub data_or : Option Json → Json → Json
data_or none body = body
data_or (some content) body = content

abbrev pub is_false : Option Json → Bool
is_false (some (bool b)) = not b
is_false none = false
is_false (some null) = false
is_false (some (int n)) = false
is_false (some (Json.float f)) = false
is_false (some (str s)) = false
is_false (some (Json.array l)) = false
is_false (some (object o)) = false

abbrev pub texts : List (String × String) → Entries
texts [] = no_entries
texts ((k, v) ∷ l) = entry k (str v) (texts l)

abbrev pub custom_fields : Option (List (String × String)) → List (String × Json)
custom_fields none = []
custom_fields (some custom) = ("custom", object (texts custom)) ∷ []

abbrev pub revised : ℕ → LocationState → LocationState
revised revision location =
    if revision == 0 then location else record location { mode_revision = revision }

abbrev pub mode_stated :
    Option (String × List (String × String))
    → String
    → List (String × String)
    → LocationState
    → LocationState
mode_stated none mode custom location = set_mode location mode custom
mode_stated (some (m, c)) mode custom location = set_mode location m c

abbrev pub or_one : ℕ → ℕ
or_one revision = if revision == 0 then 1 else revision

abbrev pub or_none : Option (List (String × String)) → List (String × String)
or_none none = []
or_none (some custom) = custom

abbrev pub custom_sent : List (String × String) → Option (String × Option (List (String × String)))
custom_sent [] = none
custom_sent (first ∷ custom) = some (custom_mode, some (first ∷ custom))

abbrev pub with_location :
    LocationState
    → Call ActiveModeState
    → Outcome ActiveModeState × (LocationState × (Standing × World))
with_location location (outcome, rest) = (outcome, (location, rest))

-- if success is False: _raise_for_arlo_error(body, ...)
abbrev pub refuse_if : Bool → Json → Action (Unit {0})
refuse_if false body = pure tt
refuse_if true body = raise_for_arlo_error (or_empty (as_object (some body)))

-- The result's revision, when it has one, and its mode, or what was asked for.
abbrev pub stated :
    ActiveModeState → String → List (String × String) → LocationState → LocationState
stated state mode custom location =
    mode_stated state.properties mode custom (revised state.revision location)

-- The mode that is sent, and the map of gateways for a custom one; `none` for a mode that the location
-- does not offer.
abbrev pub mode_sent : LocationState → String → Option (String × Option (List (String × String)))
mode_sent location mode =
    if contains arlo_modes mode
    then some (mode, none)
    else custom_sent (custom_target location mode)

unfoldable pub finish_set :
    String
    → Option (List (String × String))
    → Outcome ActiveModeState × (LocationState × (Standing × World))
    → Outcome (Unit {0}) × (LocationState × (Standing × World))
unfolding set_mode
finish_set mode custom (returned state, (location, rest)) =
    (returned tt, (stated state mode (or_none custom) location, rest))
finish_set mode custom (auth_failed, rest) = (auth_failed, rest)
finish_set mode custom (raised e, rest) = (raised e, rest)

module _ (validate_mode : Json → Option ActiveModeState) where
  unfoldable pub get_active_mode : String → Action ActiveModeState
  unfolding automation get
  get_active_mode location_id = do
    body ← automation (fields (("locationId", str location_id) ∷ []))
    or_raise (validate_mode (data_or (get_in (as_object (some body)) "data") body)) malformed

  unfoldable pub set_active_mode :
      String → String → ℕ → Option (List (String × String)) → Action ActiveModeState
  unfolding automation get raise_for_arlo_error
  set_active_mode location_id mode revision custom = do
    body ← automation (
        fields (
          ("locationId", str location_id)
          ∷ ("revision", int (pos revision))
          ∷ ("mode", str mode)
          ∷ custom_fields custom))
    refuse_if (is_false (get_in (as_object (some body)) "success")) body
    or_raise (validate_mode (data_or (get_in (as_object (some body)) "data") body)) malformed

  -- `async_set_active_mode` after the guards, on the location that is to be changed.
  unfoldable pub first_set :
      Action (Unit {0})
      → String
      → String
      → Option (List (String × String))
      → LocationState
      → Standing
      → World
      → Call ActiveModeState
  unfolding call_with_session_retry set_active_mode
  first_set relogin id mode custom location s w =
      call_with_session_retry relogin (set_active_mode id mode location.mode_revision custom) s w

  -- On an APIError the live revision is read, and the call made once more.
  unfoldable pub set_again :
      Action (Unit {0})
      → String
      → String
      → Option (List (String × String))
      → LocationState
      → Standing
      → Result ActiveModeState × World
      → Outcome ActiveModeState × (LocationState × (Standing × World))
  unfolding first_set
  set_again relogin id mode custom location s (err e, w) = (raised e, (location, (s, w)))
  set_again relogin id mode custom location s (ok state, w) =
      let fresh = record location { mode_revision = or_one state.revision } in
      with_location fresh (first_set relogin id mode custom fresh s w)

  unfoldable pub after_first :
      Action (Unit {0})
      → String
      → String
      → Option (List (String × String))
      → LocationState
      → Call ActiveModeState
      → Outcome ActiveModeState × (LocationState × (Standing × World))
  unfolding set_again get_active_mode
  after_first relogin id mode custom location (raised api, (s, w)) =
      set_again relogin id mode custom location s (get_active_mode id w)
  after_first relogin id mode custom location (returned state, (s, w)) =
      (returned state, (location, (s, w)))
  after_first relogin id mode custom location (auth_failed, (s, w)) =
      (auth_failed, (location, (s, w)))
  after_first relogin id mode custom location (raised authentication, (s, w)) =
      (raised authentication, (location, (s, w)))
  after_first relogin id mode custom location (raised session_expired, (s, w)) =
      (raised session_expired, (location, (s, w)))
  after_first relogin id mode custom location (raised rate_limited, (s, w)) =
      (raised rate_limited, (location, (s, w)))
  after_first relogin id mode custom location (raised transient, (s, w)) =
      (raised transient, (location, (s, w)))
  after_first relogin id mode custom location (raised (mfa_required factors), (s, w)) =
      (raised (mfa_required factors), (location, (s, w)))
  after_first relogin id mode custom location (raised runtime, (s, w)) =
      (raised runtime, (location, (s, w)))
  after_first relogin id mode custom location (raised malformed, (s, w)) =
      (raised malformed, (location, (s, w)))
  after_first relogin id mode custom location (raised unreachable, (s, w)) =
      (raised unreachable, (location, (s, w)))

  unfoldable pub set_sent :
      Action (Unit {0})
      → String
      → Option (String × Option (List (String × String)))
      → LocationState
      → Standing
      → World
      → Outcome (Unit {0}) × (LocationState × (Standing × World))
  unfolding finish_set after_first first_set
  set_sent relogin id none location s w = (raised malformed, (location, (s, w)))
  set_sent relogin id (some (mode, custom)) location s w =
      finish_set mode custom (
        after_first relogin id mode custom location (first_set relogin id mode custom location s w))

  unfoldable pub async_set_active_mode :
      Action (Unit {0})
      → List (String × LocationState)
      → String
      → String
      → Standing
      → World
      → Outcome (Unit {0}) × (List (String × LocationState) × (Standing × World))
  unfolding lookup put set_sent contains custom_target
  async_set_active_mode relogin locations id mode s w = elim (lookup locations id) [
    | none ↦ (raised runtime, (locations, (s, w)))
    | some location ↦
        let (outcome, (changed, rest)) =
          set_sent relogin id (mode_sent location mode) location s w in
        (outcome, (put locations id changed, rest))
  ]
