-- ===== src/Login/Tests.antt =====
-- Runs of the login, and its theorem at an account whose second factor is switched off.
use ha_eisenberg.Common.{◌≡◌, refl, [], ◌∷◌, List, Option, none, some, true, false, ◌++◌, length}
use ha_eisenberg.Json.{Json, null, bool, int, str, pos, get}
use ha_eisenberg.Http.{
  SecondFactor, Request, rate_limited, transient, ok, err, Reply, json, not_json, Client, World,
  ◌>>=◌, exchange, arlo_meta, subscript, code_is_200, require_success, raise_for_arlo_error, push,
}
use ha_eisenberg.Http.Rules.{IsRaised}
use ha_eisenberg.Login.{
  AuthData, fields, establish_session, set_token, use_token, get_factors, trusted_auth,
  discover_factors, check_trust, login, start_mfa, pair_browser, approve, finished_by,
  try_finish_auth, token_needs_refresh,
}
use ha_eisenberg.Login.Log.{IsSilentLog, IsOffer}
use ha_eisenberg.Login.Silent.{login_lem}

signing_in : Unit {0}
unfolding get ◌>>=◌ exchange arlo_meta subscript code_is_200 require_success raise_for_arlo_error
    establish_session set_token use_token get_factors trusted_auth discover_factors check_trust
    login start_mfa pair_browser approve finished_by try_finish_auth token_needs_refresh
signing_in = tt

abbrev nobody : Client
nobody = record {
  token = null;
  user_id = null;
  mqtt_url = null;
  x_cloud_id = none;
  device_cloud_ids = [];
  device_parent_ids = [];
  token_issued_at = 0;
}

abbrev answering : List Reply → World
answering replies = record { client = nobody; clock = 50; replies = replies; sent = [] }

-- Validators for the tests: what they read does not depend on the answer.
abbrev a_factor : Json → Option SecondFactor
a_factor j = some (record {
  factor_id = "F";
  factor_type = push;
  display_name = "phone";
  factor_nickname = none;
  factor_role = "PRIMARY";
})

abbrev without_mfa : Json → Option AuthData
without_mfa j = some (record {
  auth_token = "T";
  auth_user = "U";
  auth_completed = false;
  mfa_state = some "DISABLED";
})

abbrev success : Json
success = fields (("meta", fields (("code", int (pos 200)) ∷ [])) ∷ ("data", fields []) ∷ [])

abbrev session : Json
session = fields (("success", bool true) ∷ ("data", fields (("mqttUrl", str "wss") ∷ [])) ∷ [])

abbrev too_many : Json
too_many = fields (("meta", fields (("message", str "Too many requests") ∷ [])) ∷ [])

signed_in :
    (login a_factor without_mfa "a" "p" (answering (json success ∷ json session ∷ []))).0 ≡ ok tt
unfolding signing_in
signed_in = refl

signed_in_url :
    (login a_factor without_mfa "a" "p"
      (answering (json success ∷ json session ∷ []))).1.client.mqtt_url
    ≡ str "wss"
unfolding signing_in
signed_in_url = refl

limited : (login a_factor without_mfa "a" "p" (answering (json too_many ∷ []))).0 ≡ err rate_limited
unfolding signing_in
limited = refl

blocked : (login a_factor without_mfa "a" "p" (answering (not_json ∷ []))).0 ≡ err transient
unfolding signing_in
blocked = refl

-- The browser is trusted: its factor is named, and started.
abbrev without_completion : Json → Option AuthData
without_completion j =
    some (record { auth_token = "T"; auth_user = "U"; auth_completed = false; mfa_state = none })

abbrev named_factor : Json
named_factor = fields (
    ("meta", fields (("code", int (pos 200)) ∷ []))
    ∷ ("data", fields (("factorId", str "B") ∷ []))
    ∷ [])

abbrev trusting : World
trusting = answering (json success ∷ json named_factor ∷ json success ∷ [])

three_requests : length (login a_factor without_completion "a" "p" trusting).1.sent ≡ 3
unfolding signing_in
three_requests = refl

login_example :
    let (r, w') = login a_factor without_completion "a" "p" trusting in
    (new : List Request) × (w'.sent ≡ [] ++ new)
    × IsSilentLog none trusting.replies new
    × IsRaised IsOffer r
login_example = login_lem a_factor without_completion "a" "p" trusting
