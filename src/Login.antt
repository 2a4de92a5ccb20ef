-- ===== src/Login.antt =====
-- eisenberg/client.py: signing in, the second factor and the session. `validate_auth` and
-- `validate_factor` are pydantic's `model_validate` of AuthData and SecondFactor. A request is named by its
-- path; of a body the parts that tell requests apart are kept.
pub mod Log
pub mod Silent
mod Tests
use ha_eisenberg.Common.{
  ℕ, ◌-◌, ltb, [], ◌∷◌, ◌++◌, List, Option, none, some, String, Bool, true, false, not, ◌&&◌, ◌||◌,
  str_eq, if◌then◌else◌, keep_if, length,
}
use ha_eisenberg.Json.{
  Json, null, bool, str, array, object, Items, no_items, item, Entries, no_entries, entry, get,
  as_str, is_str, as_object,
}
use ha_eisenberg.Http.{
  FactorType, push, email, sms, browser, SecondFactor, Error, authentication, rate_limited,
  malformed, runtime, mfa_required, Result, ok, err, Request, Client, World, Action, pure, raise,
  or_raise, gets, ◌>>=◌, ◌>>◌, raise_if, modify, monotonic, exchange, arlo_meta, is_too_many,
  subscript, is_truthy, code_is_200, entries_of, require_success,
}

pub record AuthData : Type 0 where
  pub auth_token : String
  pub auth_user : String
  pub auth_completed : Bool
  pub mfa_state : Option String

abbrev pub mfa_disabled_by_service : AuthData → Bool
mfa_disabled_by_service auth = is_str auth.mfa_state "DISABLED"

-- A request to ocapi with a token, and to myapi.
abbrev pub ocapi_request : String → Json → Json → Request
ocapi_request path token body = record { path = path; token = token; cloud_id = ""; body = body }

abbrev pub fields_of : List (String × Json) → Entries
fields_of [] = no_entries
fields_of ((k, v) ∷ l) = entry k v (fields_of l)

abbrev pub fields : List (String × Json) → Json
fields l = object (fields_of l)

abbrev pub or_json : Option Json → Json → Json
or_json none j = j
or_json (some i) j = i

-- value is None
abbrev pub is_null : Json → Bool
is_null null = true
is_null (bool b) = false
is_null (Json.int n) = false
is_null (Json.float f) = false
is_null (str s) = false
is_null (array l) = false
is_null (object o) = false

abbrev pub or_text : Option String → String
or_text none = ""
or_text (some s) = s

unfoldable pub establish_session : Action (Unit {0})
unfolding exchange require_success subscript get
establish_session = do
  c ← gets (λ c. c)
  raise_if (is_null c.token) runtime
  body ← exchange (record {
    path = "/hmsweb/users/session/v3";
    token = c.token;
    cloud_id = or_text c.x_cloud_id;
    body = null;
  })
  require_success body
  content ← subscript body "data"
  entries ← entries_of content
  modify (λ c. record c { mqtt_url = or_json (get entries "mqttUrl") (str "") })

-- self.token = token; self._token_issued_at = time.monotonic()
unfoldable pub set_token : Json → Action (Unit {0})
set_token token = do
  now ← monotonic
  modify (λ c. record c { token = token; token_issued_at = now })

unfoldable pub use_token : Json → Action (Unit {0})
unfolding set_token establish_session
use_token token = do set_token token; establish_session

abbrev pub is_challenge : SecondFactor → Bool
is_challenge f = elim f.factor_type [ push ↦ true | email ↦ true | sms ↦ true | browser ↦ false ]

abbrev pub is_empty : List SecondFactor → Bool
is_empty [] = true
is_empty (f ∷ fs) = false

-- for item in ...: what is not a list has no item that validates.
abbrev pub items_of : Option Json → Option Items
items_of none = some no_items
items_of (some (array l)) = some l
items_of (some null) = none
items_of (some (bool b)) = none
items_of (some (Json.int n)) = none
items_of (some (Json.float f)) = none
items_of (some (str s)) = if str_eq s "" then some no_items else none
items_of (some (object no_entries)) = some no_items
items_of (some (object (entry k v o))) = none

-- factor_type == FactorType.PUSH
abbrev pub factor_word : FactorType → String
factor_word push = ""
factor_word email = "BROWSER"
factor_word sms = "BROWSER"
factor_word browser = "BROWSER"

-- `start_mfa`: PUSH wants no factor type.
unfoldable pub start_mfa : SecondFactor → Action Json
unfolding exchange arlo_meta code_is_200 subscript get
start_mfa factor = do
  c ← gets (λ c. c)
  raise_if (is_null c.token || is_null c.user_id) authentication
  body ← exchange (
      ocapi_request "/api/startAuth" c.token (
        fields (
          ("factorId", str factor.factor_id)
          ∷ ("factorType", str (factor_word factor.factor_type))
          ∷ ("userId", c.user_id)
          ∷ [])))
  meta ← arlo_meta body
  raise_if (is_too_many meta) rate_limited
  good ← code_is_200 meta
  raise_if (not good) authentication
  content ← subscript body "data"
  subscript content "factorAuthCode"

-- `_pair_browser`, whose refusal is only logged.
unfoldable pub pair_browser : Json → Action (Unit {0})
unfolding exchange arlo_meta code_is_200
pair_browser code = do
  token ← gets (λ c. c.token)
  body ← exchange (
      ocapi_request "/api/startPairingFactor" token (
        fields
          (("factorType", str "BROWSER") ∷ ("factorData", str "") ∷ ("factorAuthCode", code) ∷ [])))
  meta ← arlo_meta body
  good ← code_is_200 meta
  pure tt

abbrev pub pair_if : Option Json → Action (Unit {0})
pair_if none = pure tt
pair_if (some code) = if is_truthy (some code) then pair_browser code else pure tt

-- The branch of `try_finish_auth` that is approved, on body["data"].
unfoldable pub approve : Json → Action Bool
unfolding subscript get pair_browser set_token establish_session
approve finish_data = do
  token ← subscript finish_data "token"
  set_token token
  entries ← entries_of finish_data
  pair_if (get entries "browserAuthCode")
  establish_session
  pure true

-- The end of `try_finish_auth`: pending, or refused.
abbrev pub not_approved : Entries → Action Bool
not_approved meta =
    if is_str (as_str (get meta "message")) "Authentication is not finished yet"
    then pure false
    else raise authentication

-- A body of code 200.
unfoldable pub finished_by : Entries → Json → Action Bool
unfolding subscript get approve
finished_by meta body = do
  finish_data ← subscript body "data"
  entries ← entries_of finish_data
  if is_truthy (get entries "authCompleted") then approve finish_data else not_approved meta

abbrev pub otp_field : Option String → List (String × Json)
otp_field none = []
otp_field (some otp) = ("otp", str otp) ∷ []

unfoldable pub try_finish_auth : Json → Option String → Action Bool
unfolding exchange arlo_meta code_is_200 finished_by get
try_finish_auth code otp = do
  token ← gets (λ c. c.token)
  body ← exchange (
      ocapi_request "/api/finishAuth" token
        (fields (("factorAuthCode", code) ∷ ("isBrowserTrusted", bool true) ∷ otp_field otp)))
  meta ← arlo_meta body
  good ← code_is_200 meta
  raise_if (is_too_many meta) rate_limited
  if good then finished_by meta body else not_approved meta

-- `token_needs_refresh`, the age in seconds.
unfoldable pub token_needs_refresh : Client → ℕ → Bool
token_needs_refresh c clock = is_null c.token || ltb 3600 (clock - c.token_issued_at)

-- Browser trusted: startAuth with the factor's id.
unfoldable pub trusted_auth : Json → Json → Action (Unit {0})
unfolding exchange arlo_meta code_is_200 subscript get use_token
trusted_auth token body = do
  content ← subscript body "data"
  factor_id ← subscript content "factorId"
  user ← gets (λ c. c.user_id)
  started ← exchange (
      ocapi_request "/api/startAuth" token
        (fields (("factorId", factor_id) ∷ ("factorType", str "BROWSER") ∷ ("userId", user) ∷ [])))
  meta ← arlo_meta started
  good ← code_is_200 meta
  raise_if (not good) authentication
  start_data ← subscript started "data"
  entries ← entries_of start_data
  raise_if (not (is_truthy (get entries "authCompleted"))) authentication
  access ← subscript start_data "accessToken"
  new_token ← subscript access "token"
  use_token new_token

abbrev pub factors_of :
    Option SecondFactor → Option (List SecondFactor) → Option (List SecondFactor)
factors_of none more = none
factors_of (some f) none = none
factors_of (some f) (some fs) = some (f ∷ fs)

module _ (validate_factor : Json → Option SecondFactor) where
  abbrev pub validate_all : Items → Option (List SecondFactor)
  validate_all no_items = some []
  validate_all (item j l) = factors_of (validate_factor j) (validate_all l)

  unfoldable pub get_factors : Json → Action (List SecondFactor)
  unfolding exchange arlo_meta code_is_200 subscript get
  get_factors token = do
    body ← exchange (ocapi_request "/api/getFactors" token null)
    meta ← arlo_meta body
    raise_if (is_too_many meta) rate_limited
    good ← code_is_200 meta
    raise_if (not good) authentication
    content ← subscript body "data"
    entries ← entries_of content
    items ← or_raise (items_of (get entries "items")) malformed
    factors ← or_raise (validate_all items) malformed
    let challengeable = keep_if is_challenge factors
    raise_if (is_empty challengeable) authentication
    pure challengeable

  unfoldable pub discover_factors : Json → Action (Unit {0})
  unfolding get_factors
  discover_factors token = do
    modify (λ c. record c { token = token })
    factors ← get_factors token
    raise (mfa_required factors)

  unfoldable pub check_trust : Json → Action (Unit {0})
  unfolding exchange arlo_meta code_is_200 trusted_auth discover_factors
  check_trust token = do
    user ← gets (λ c. c.user_id)
    body ← exchange (
        ocapi_request "/api/getFactorId" token
          (fields (("factorType", str "BROWSER") ∷ ("factorData", str "") ∷ ("userId", user) ∷ [])))
    meta ← arlo_meta body
    trusted ← code_is_200 meta
    if trusted then trusted_auth token body else discover_factors token

  module _ (validate_auth : Json → Option AuthData) where
    -- `login`, with the account's address and password.
    unfoldable pub login : String → String → Action (Unit {0})
    unfolding exchange arlo_meta code_is_200 subscript get use_token check_trust
    login address password = do
      body ← exchange (
          ocapi_request "/api/auth" null
            (fields (("email", str address) ∷ ("password", str password) ∷ [])))
      meta ← arlo_meta body
      raise_if (is_too_many meta) rate_limited
      good ← code_is_200 meta
      raise_if (not good) authentication
      content ← subscript body "data"
      auth ← or_raise (validate_auth content) malformed
      modify (λ c. record c { user_id = str auth.auth_user })
      if auth.auth_completed || mfa_disabled_by_service auth
          then use_token (str auth.auth_token)
          else check_trust (str auth.auth_token)
