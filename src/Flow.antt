-- ===== src/Flow.antt =====
-- custom_components/eisenberg/config_flow.py: signing in, in the setup flow, and in the flow that signs in
-- again (reauth and reconfigure). Home Assistant shows one form at a time and hands its input to the
-- step of that form; input that does not fit the form's schema reaches no step.
pub mod Entry
pub mod Run
pub mod Sound
pub mod Steps
pub mod Accepted
pub mod Data
pub mod Completed
mod Tests
use ha_eisenberg.Common.{
  [], ◌∷◌, List, Option, none, some, String, Bool, true, false, str_eq, if◌then◌else◌, length, ◌==◌,
}
use ha_eisenberg.Json.{Json}
use ha_eisenberg.Http.{
  FactorType, push, email, sms, browser, SecondFactor, Error, authentication, session_expired,
  rate_limited, transient, api, mfa_required, runtime, malformed, unreachable, is_authentication,
  Result, ok, err,
}
use ha_eisenberg.Topics.{contains}
use ha_eisenberg.Flow.Entry.{
  Cookie, Datum, stored_media_dir, entry_data, entry_options, updated_data, strip,
}

-- What a client is built with.
pub record Account : Type 0 where
  pub username : String
  pub password : String
  pub device_id : String

-- EisenbergConfigFlow; the client is the account it was built with, while its session is open.
pub record Flow : Type 0 where
  pub client : Option Account
  pub cookie_jar : Option (List Cookie)
  pub account : Account
  pub factor_auth_code : Json
  pub factors : List SecondFactor
  pub selected_factor : Option SecondFactor

pub data Form : Type 0 where
  user pick_factor push_approval otp_entry media_storage : Form
  reauth_confirm reauth_password reauth_pick_factor reauth_push reauth_otp : Form

-- ConfigFlowResult: a form with errors["base"], or an end; and an exception that leaves the step.
pub data FlowResult : Type 0 where
  show_form : Form → Option String → FlowResult
  abort : String → FlowResult
  create_entry : List (String × Datum) → List (String × Datum) → FlowResult
  update_entry : List (String × Datum) → FlowResult
  crash : FlowResult

-- What the client's calls come to while a step runs, the trust cookies that the jar holds after them,
-- and the id that uuid4 gives.
pub record Calls : Type 0 where
  pub login : Account → Result (Unit {0})
  pub start_mfa : Account → SecondFactor → Result Json
  pub try_finish_auth : Account → Json → Option String → Result Bool
  pub jar : List Cookie
  pub fresh_id : String

-- `_cleanup_client`
abbrev pub cleanup_client : Flow → Flow
cleanup_client f = record f { client = none }

-- `_new_client`
abbrev pub new_client : Flow → Flow
new_client f = record f { client = some f.account; cookie_jar = some [] }

-- A call may leave cookies in the jar.
abbrev pub in_jar : Calls → Option (List Cookie) → Option (List Cookie)
in_jar c none = none
in_jar c (some old) = some c.jar

abbrev pub called : Calls → Flow → Flow
called c f = record f { cookie_jar = in_jar c f.cookie_jar }

abbrev pub is_push : SecondFactor → Bool
is_push f = elim f.factor_type [ push ↦ true | email ↦ false | sms ↦ false | browser ↦ false ]

abbrev pub is_rate_limited : Error → Bool
is_rate_limited rate_limited = true
is_rate_limited authentication = false
is_rate_limited session_expired = false
is_rate_limited transient = false
is_rate_limited api = false
is_rate_limited (mfa_required factors) = false
is_rate_limited runtime = false
is_rate_limited malformed = false
is_rate_limited unreachable = false

-- assert self._selected_factor is not None, before a form for the code is shown
abbrev pub show_otp : Form → Flow → Option String → Option SecondFactor → Flow × FlowResult
show_otp form f base none = (f, crash)
show_otp form f base (some factor) = (f, show_form form base)

-- The end of `_fire_mfa`: the code is kept, and the form follows from the kind of the factor. An error
-- that is none of the two leaves the step.
unfoldable pub fired : Form → Form → Flow → SecondFactor → Result Json → Flow × FlowResult
fired push_form otp_form f factor (ok code) =
    let g = record f { factor_auth_code = code } in
    if is_push factor
    then (g, show_form push_form none)
    else show_otp otp_form g none g.selected_factor
fired push_form otp_form f factor (err e) =
    if is_rate_limited e
    then (cleanup_client f, abort "rate_limited")
    else if is_authentication e
    then (cleanup_client f, abort "push_timeout")
    else (f, crash)

-- `_fire_mfa`, after its assertions on the client and the factor.
abbrev pub fire_with :
    Form → Form → Calls → Flow → Option Account → Option SecondFactor → Flow × FlowResult
fire_with push_form otp_form c f none factor = (f, crash)
fire_with push_form otp_form c f (some a) none = (f, crash)
fire_with push_form otp_form c f (some a) (some factor) =
    fired push_form otp_form (called c f) factor (c.start_mfa a factor)

unfoldable pub fire_mfa : Calls → Flow → Flow × FlowResult
unfolding fired
fire_mfa c f = fire_with push_approval otp_entry c f f.client f.selected_factor

unfoldable pub fire_mfa_reauth : Calls → Flow → Flow × FlowResult
unfolding fired
fire_mfa_reauth c f = fire_with reauth_push reauth_otp c f f.client f.selected_factor

-- except MfaRequired: the picker is skipped when there is one factor.
unfoldable pub on_mfa_required :
    Form → (Flow → Flow × FlowResult) → Flow → List SecondFactor → Flow × FlowResult
on_mfa_required picker fire f [] = (record f { factors = [] }, show_form picker none)
on_mfa_required picker fire f (a ∷ []) =
    fire (record f { factors = a ∷ []; selected_factor = some a })
on_mfa_required picker fire f (a ∷ b ∷ more) =
    (record f { factors = a ∷ b ∷ more }, show_form picker none)

-- The rest of `async_step_user`, on what the login came to.
unfoldable pub user_logged_in : Calls → Flow → Result (Unit {0}) → Flow × FlowResult
unfolding fire_mfa on_mfa_required
user_logged_in c f (ok done) = (cleanup_client f, show_form media_storage none)
user_logged_in c f (err (mfa_required factors)) = on_mfa_required pick_factor (fire_mfa c) f factors
user_logged_in c f (err rate_limited) = (cleanup_client f, show_form user (some "rate_limited"))
user_logged_in c f (err authentication) = (cleanup_client f, show_form user (some "invalid_auth"))
user_logged_in c f (err session_expired) = (cleanup_client f, show_form user (some "invalid_auth"))
user_logged_in c f (err transient) = (cleanup_client f, show_form user (some "cannot_connect"))
user_logged_in c f (err api) = (cleanup_client f, show_form user (some "cannot_connect"))
user_logged_in c f (err runtime) = (cleanup_client f, show_form user (some "cannot_connect"))
user_logged_in c f (err malformed) = (cleanup_client f, show_form user (some "cannot_connect"))
user_logged_in c f (err unreachable) = (cleanup_client f, show_form user (some "cannot_connect"))

unfoldable pub async_step_user : Calls → Flow → String → String → Flow × FlowResult
unfolding user_logged_in
async_step_user c f username password =
    let a : Account = record { username = username; password = password; device_id = c.fresh_id } in
    user_logged_in c (called c (new_client (record f { account = a }))) (c.login a)

-- The factor of an id, the first one.
unfoldable pub factor_with : List SecondFactor → String → Option SecondFactor
factor_with [] id = none
factor_with (f ∷ factors) id =
    let later = factor_with factors id in if str_eq f.factor_id id then some f else later

-- A factor that was selected before stays, where none has the id.
abbrev pub or_selected : Option SecondFactor → Option SecondFactor → Option SecondFactor
or_selected none old = old
or_selected (some f) old = some f

abbrev pub fire_selected :
    Form → (Flow → Flow × FlowResult) → Flow → Option SecondFactor → Flow × FlowResult
fire_selected picker fire f none = (f, show_form picker (some "cannot_connect"))
fire_selected picker fire f (some factor) = fire (record f { selected_factor = some factor })

unfoldable pub async_step_pick_factor : Calls → Flow → String → Flow × FlowResult
unfolding factor_with fire_mfa
async_step_pick_factor c f id =
    fire_selected pick_factor (fire_mfa c) f
      (or_selected (factor_with f.factors id) f.selected_factor)

unfoldable pub async_step_reauth_pick_factor : Calls → Flow → String → Flow × FlowResult
unfolding factor_with fire_mfa_reauth
async_step_reauth_pick_factor c f id =
    fire_selected reauth_pick_factor (fire_mfa_reauth c) f
      (or_selected (factor_with f.factors id) f.selected_factor)

-- What `try_finish_auth` came to, on the form for a push; `done` is what follows an approval.
unfoldable pub push_finished :
    Form → (Flow → Flow × FlowResult) → Flow → Result Bool → Flow × FlowResult
push_finished form done f (ok true) = done (cleanup_client f)
push_finished form done f (ok false) = (f, show_form form (some "push_pending"))
push_finished form done f (err e) =
    if is_rate_limited e
    then (cleanup_client f, abort "rate_limited")
    else if is_authentication e
    then (cleanup_client f, abort "push_timeout")
    else (f, crash)

-- The same, on the form for a code.
unfoldable pub otp_finished :
    Form → (Flow → Flow × FlowResult) → Flow → Result Bool → Flow × FlowResult
otp_finished form done f (ok true) = done (cleanup_client f)
otp_finished form done f (ok false) = show_otp form f (some "invalid_otp") f.selected_factor
otp_finished form done f (err e) =
    if is_rate_limited e
    then (cleanup_client f, abort "rate_limited")
    else if is_authentication e
    then show_otp form f (some "invalid_otp") f.selected_factor
    else (f, crash)

abbrev pub to_media_storage : Flow → Flow × FlowResult
to_media_storage f = (f, show_form media_storage none)

abbrev pub push_with :
    Form → (Flow → Flow × FlowResult) → Calls → Flow → Option Account → Flow × FlowResult
push_with form done c f none = (f, show_form form (some "cannot_connect"))
push_with form done c f (some a) =
    push_finished form done (called c f) (c.try_finish_auth a f.factor_auth_code none)

abbrev pub otp_with :
    Form → (Flow → Flow × FlowResult) → Calls → Flow → String → Option Account → Flow × FlowResult
otp_with form done c f otp none = show_otp form f (some "cannot_connect") f.selected_factor
otp_with form done c f otp (some a) =
    otp_finished form done (called c f) (c.try_finish_auth a f.factor_auth_code (some (strip otp)))

unfoldable pub async_step_push_approval : Calls → Flow → Flow × FlowResult
unfolding push_finished
async_step_push_approval c f = push_with push_approval to_media_storage c f f.client

unfoldable pub async_step_otp_entry : Calls → Flow → String → Flow × FlowResult
unfolding otp_finished strip
async_step_otp_entry c f otp = otp_with otp_entry to_media_storage c f otp f.client

-- `configured` are the accounts that have an entry already.
unfoldable pub async_step_media_storage : List String → Flow → String → Flow × FlowResult
unfolding contains entry_data entry_options
async_step_media_storage configured f selected =
    if contains configured f.account.username then (f, abort "already_configured") else (
      f,
      create_entry
          (entry_data f.account.username f.account.password f.account.device_id f.cookie_jar)
          (entry_options selected),
    )

-- `_finalize_reauth`, on the entry of the flow.
unfoldable pub finalize_reauth : List (String × Datum) → Flow → Flow × FlowResult
unfolding updated_data
finalize_reauth entry f = (
  f,
  update_entry
      (updated_data entry f.account.username f.account.password f.account.device_id f.cookie_jar),
)

module _ (entry : List (String × Datum)) where
  unfoldable pub async_step_reauth_push : Calls → Flow → Flow × FlowResult
  unfolding push_finished finalize_reauth
  async_step_reauth_push c f = push_with reauth_push (finalize_reauth entry) c f f.client

  unfoldable pub async_step_reauth_otp : Calls → Flow → String → Flow × FlowResult
  unfolding otp_finished strip finalize_reauth
  async_step_reauth_otp c f otp = otp_with reauth_otp (finalize_reauth entry) c f otp f.client

  -- The rest of `async_step_reauth_confirm`: a password that is rejected is asked for.
  unfoldable pub confirm_logged_in : Calls → Flow → Result (Unit {0}) → Flow × FlowResult
  unfolding fire_mfa_reauth on_mfa_required finalize_reauth
  confirm_logged_in c f (ok done) = finalize_reauth entry (cleanup_client f)
  confirm_logged_in c f (err (mfa_required factors)) =
      on_mfa_required reauth_pick_factor (fire_mfa_reauth c) f factors
  confirm_logged_in c f (err rate_limited) = (cleanup_client f, abort "rate_limited")
  confirm_logged_in c f (err authentication) = (cleanup_client f, show_form reauth_password none)
  confirm_logged_in c f (err session_expired) = (cleanup_client f, show_form reauth_password none)
  confirm_logged_in c f (err transient) = (f, crash)
  confirm_logged_in c f (err api) = (f, crash)
  confirm_logged_in c f (err runtime) = (f, crash)
  confirm_logged_in c f (err malformed) = (f, crash)
  confirm_logged_in c f (err unreachable) = (f, crash)

  unfoldable pub async_step_reauth_confirm : Calls → Flow → Flow × FlowResult
  unfolding confirm_logged_in
  async_step_reauth_confirm c f = confirm_logged_in c (called c (new_client f)) (c.login f.account)

  -- The rest of `async_step_reauth_password`.
  unfoldable pub password_logged_in : Calls → Flow → Result (Unit {0}) → Flow × FlowResult
  unfolding fire_mfa_reauth on_mfa_required finalize_reauth
  password_logged_in c f (ok done) = finalize_reauth entry (cleanup_client f)
  password_logged_in c f (err (mfa_required factors)) =
      on_mfa_required reauth_pick_factor (fire_mfa_reauth c) f factors
  password_logged_in c f (err rate_limited) = (cleanup_client f, abort "rate_limited")
  password_logged_in c f (err authentication) =
      (cleanup_client f, show_form reauth_password (some "invalid_auth"))
  password_logged_in c f (err session_expired) =
      (cleanup_client f, show_form reauth_password (some "invalid_auth"))
  password_logged_in c f (err transient) = (f, crash)
  password_logged_in c f (err api) = (f, crash)
  password_logged_in c f (err runtime) = (f, crash)
  password_logged_in c f (err malformed) = (f, crash)
  password_logged_in c f (err unreachable) = (f, crash)

  unfoldable pub async_step_reauth_password : Calls → Flow → String → Flow × FlowResult
  unfolding password_logged_in
  async_step_reauth_password c f password =
      let a : Account = record {
        username = f.account.username;
        password = password;
        device_id = f.account.device_id;
      } in
      password_logged_in c (called c (new_client (record f { account = a }))) (c.login a)
