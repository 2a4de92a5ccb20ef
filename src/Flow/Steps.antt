-- ===== src/Flow/Steps.antt =====
-- custom_components/eisenberg/config_flow.py: each step of the flow keeps what holds at its forms and at its end.
use ha_eisenberg.Common.{
  ◌≡◌, refl, sym, ap, List, Option, none, some, String, true, false, Bool-cases, inl, inr,
}
use ha_eisenberg.Json.{Json}
use ha_eisenberg.Http.{
  Error, authentication, session_expired, rate_limited, transient, api, mfa_required, runtime,
  malformed, unreachable, is_authentication, Result, ok, err,
}
use ha_eisenberg.Topics.{contains}
use ha_eisenberg.Flow.Entry.{Datum, strip}
use ha_eisenberg.Flow.{
  Account, Flow, Form, user, pick_factor, push_approval, otp_entry, media_storage, reauth_confirm,
  reauth_password, reauth_pick_factor, reauth_push, reauth_otp, FlowResult, Calls, is_rate_limited,
  called, new_client, fire_mfa, fire_mfa_reauth, user_logged_in, push_with, otp_with,
  to_media_storage, finalize_reauth, async_step_media_storage, confirm_logged_in,
  password_logged_in,
}
use ha_eisenberg.Flow.Run.{Input, submit, or_disabled}
use ha_eisenberg.Flow.Sound.{
  IsOpen, HasFactor, IsGood, FitsStep, Faulty, fire_with-Fits, on_mfa_required-Fits,
  fire_selected-Fits, push_finished-Fits, otp_finished-Fits, unexpected,
}

module _ (P : Account → Type 0) (entry : List (String × Datum)) (c : Calls)
    (login_grants : (a : Account) → c.login a ≡ ok tt → P a)
    (finish_grants : (a : Account) (code : Json) (otp : Option String)
      → c.try_finish_auth a code otp ≡ ok true
      → P a) where
  abbrev pub Kept : Form → Flow × FlowResult → Type 0
  Kept = FitsStep P entry (Faulty P entry c login_grants finish_grants)

  fire_mfa-Kept :
      (old : Form) (f : Flow)
      → IsOpen f
      → HasFactor f
      → IsGood P entry old (called c f)
      → Kept old (fire_mfa c f)
  unfolding fire_mfa
  fire_mfa-Kept old f o h keep =
      fire_with-Fits P entry c login_grants finish_grants old push_approval otp_entry (λ g o. o)
        (λ g o s. (o, s)) f f.client f.selected_factor refl refl o h keep

  fire_mfa_reauth-Kept :
      (old : Form) (f : Flow)
      → IsOpen f
      → HasFactor f
      → IsGood P entry old (called c f)
      → Kept old (fire_mfa_reauth c f)
  unfolding fire_mfa_reauth
  fire_mfa_reauth-Kept old f o h keep =
      fire_with-Fits P entry c login_grants finish_grants old reauth_push reauth_otp (λ g o. o)
        (λ g o s. (o, s)) f f.client f.selected_factor refl refl o h keep

  user_logged_in-Kept :
      (f : Flow) (r : Result (Unit {0}))
      → c.login f.account ≡ r
      → IsOpen f
      → Kept user (user_logged_in c f r)
  unfolding user_logged_in
  user_logged_in-Kept f (ok tt) h o = (refl, login_grants f.account h)
  user_logged_in-Kept f (err (mfa_required factors)) h o =
      on_mfa_required-Fits P entry c login_grants finish_grants user pick_factor (fire_mfa c)
        (λ g o. o) (λ g o s. fire_mfa-Kept user g o s tt) f factors o
  user_logged_in-Kept f (err rate_limited) h o = tt
  user_logged_in-Kept f (err authentication) h o = tt
  user_logged_in-Kept f (err session_expired) h o = tt
  user_logged_in-Kept f (err transient) h o = tt
  user_logged_in-Kept f (err api) h o = tt
  user_logged_in-Kept f (err runtime) h o = tt
  user_logged_in-Kept f (err malformed) h o = tt
  user_logged_in-Kept f (err unreachable) h o = tt

  -- A login that raises what the flow does not name.
  login_unexpected :
      (a : Account) (e : Error)
      → c.login a ≡ err e
      → is_rate_limited e ≡ false
      → is_authentication e ≡ false
      → Faulty P entry c login_grants finish_grants
  login_unexpected a e h l m calm =
      unexpected P entry c login_grants finish_grants (c.login a) e h l m (calm.login_calm a)

  confirm_logged_in-Kept :
      (f : Flow) (r : Result (Unit {0}))
      → c.login f.account ≡ r
      → IsOpen f
      → Kept reauth_confirm (confirm_logged_in entry c f r)
  unfolding confirm_logged_in finalize_reauth
  confirm_logged_in-Kept f (ok tt) h o = (refl, login_grants f.account h, refl)
  confirm_logged_in-Kept f (err (mfa_required factors)) h o =
      on_mfa_required-Fits P entry c login_grants finish_grants reauth_confirm reauth_pick_factor
        (fire_mfa_reauth c) (λ g o. o) (λ g o s. fire_mfa_reauth-Kept reauth_confirm g o s tt) f
        factors o
  confirm_logged_in-Kept f (err rate_limited) h o = refl
  confirm_logged_in-Kept f (err authentication) h o = tt
  confirm_logged_in-Kept f (err session_expired) h o = tt
  confirm_logged_in-Kept f (err transient) h o = (tt, login_unexpected f.account _ h refl refl)
  confirm_logged_in-Kept f (err api) h o = (tt, login_unexpected f.account _ h refl refl)
  confirm_logged_in-Kept f (err runtime) h o = (tt, login_unexpected f.account _ h refl refl)
  confirm_logged_in-Kept f (err malformed) h o = (tt, login_unexpected f.account _ h refl refl)
  confirm_logged_in-Kept f (err unreachable) h o = (tt, login_unexpected f.account _ h refl refl)

  password_logged_in-Kept :
      (f : Flow) (r : Result (Unit {0}))
      → c.login f.account ≡ r
      → IsOpen f
      → Kept reauth_password (password_logged_in entry c f r)
  unfolding password_logged_in finalize_reauth
  password_logged_in-Kept f (ok tt) h o = (refl, login_grants f.account h, refl)
  password_logged_in-Kept f (err (mfa_required factors)) h o =
      on_mfa_required-Fits P entry c login_grants finish_grants reauth_password reauth_pick_factor
        (fire_mfa_reauth c) (λ g o. o) (λ g o s. fire_mfa_reauth-Kept reauth_password g o s tt) f
        factors o
  password_logged_in-Kept f (err rate_limited) h o = refl
  password_logged_in-Kept f (err authentication) h o = tt
  password_logged_in-Kept f (err session_expired) h o = tt
  password_logged_in-Kept f (err transient) h o = (tt, login_unexpected f.account _ h refl refl)
  password_logged_in-Kept f (err api) h o = (tt, login_unexpected f.account _ h refl refl)
  password_logged_in-Kept f (err runtime) h o = (tt, login_unexpected f.account _ h refl refl)
  password_logged_in-Kept f (err malformed) h o = (tt, login_unexpected f.account _ h refl refl)
  password_logged_in-Kept f (err unreachable) h o = (tt, login_unexpected f.account _ h refl refl)

  push_with-Kept :
      (form : Form) (done : Flow → Flow × FlowResult)
      → ((g : Flow) → IsOpen g → IsGood P entry form g)
      → ((g : Flow) → g.client ≡ none → P g.account → Kept form (done g))
      → (f : Flow) (client : Option Account) → f.client ≡ client
      → IsOpen f
      → Kept form (push_with form done c f client)
  push_with-Kept form done gp ends f none e o = absurd (cc)
  push_with-Kept form done gp ends f (some a) e o =
      let same : a ≡ f.account = cc in
      push_finished-Fits P entry c login_grants finish_grants form done gp ends (called c f)
        f.factor_auth_code _
        (ap (λ (b : Account). c.try_finish_auth b f.factor_auth_code none) (sym same)) o

  otp_with-Kept :
      (form : Form) (done : Flow → Flow × FlowResult)
      → ((g : Flow) → IsOpen g → HasFactor g → IsGood P entry form g)
      → ((g : Flow) → g.client ≡ none → P g.account → Kept form (done g))
      → (f : Flow) (otp : String) (client : Option Account) → f.client ≡ client
      → IsOpen f
      → HasFactor f
      → Kept form (otp_with form done c f otp client)
  otp_with-Kept form done go ends f otp none e o s = absurd (cc)
  otp_with-Kept form done go ends f otp (some a) e o s =
      let same : a ≡ f.account = cc in
      otp_finished-Fits P entry c login_grants finish_grants form done go ends (called c f)
        f.factor_auth_code (some (strip otp)) _
        (ap (λ (b : Account). c.try_finish_auth b f.factor_auth_code (some (strip otp))) (sym same))
        o s

  stores-Kept :
      (configured : List String) (f : Flow) (selected : String)
      → f.client ≡ none
      → P f.account
      → Kept media_storage (async_step_media_storage configured f selected)
  unfolding async_step_media_storage
  stores-Kept configured f selected o p =
      elim (Bool-cases (contains configured f.account.username)) [
        | inl e ↦ rw e o
        | inr e ↦ rw e (o, p, refl)
      ]

  finalize-Kept :
      (old : Form) (g : Flow) → g.client ≡ none → P g.account → Kept old (finalize_reauth entry g)
  unfolding finalize_reauth
  finalize-Kept old g o p = (o, p, refl)

  pub submit-Kept :
      (configured : List String) (form : Form) (i : Input) (f : Flow)
      → IsGood P entry form f
      → Kept form (submit configured entry form i c f)
  unfolding submit
  submit-Kept configured user i f h = user_logged_in-Kept _ (c.login _) refl refl
  submit-Kept configured pick_factor i f h =
      fire_selected-Fits P entry c login_grants finish_grants pick_factor pick_factor (fire_mfa c)
        (λ g o. o) (λ g o s. fire_mfa-Kept pick_factor g o s o) f _ h
  submit-Kept configured push_approval i f h =
      push_with-Kept push_approval to_media_storage (λ g o. o) (λ g o p. (o, p)) f f.client refl h
  submit-Kept configured otp_entry i f (o, s) =
      otp_with-Kept otp_entry to_media_storage (λ g o s. (o, s)) (λ g o p. (o, p)) f i.otp f.client
        refl o s
  submit-Kept configured media_storage i f (o, p) =
      stores-Kept configured f (or_disabled i.media_dir) o p
  submit-Kept configured reauth_confirm i f h =
      confirm_logged_in-Kept (called c (new_client f)) (c.login f.account) refl refl
  submit-Kept configured reauth_password i f h = password_logged_in-Kept _ (c.login _) refl refl
  submit-Kept configured reauth_pick_factor i f h =
      fire_selected-Fits P entry c login_grants finish_grants reauth_pick_factor reauth_pick_factor
        (fire_mfa_reauth c) (λ g o. o) (λ g o s. fire_mfa_reauth-Kept reauth_pick_factor g o s o) f
        _ h
  submit-Kept configured reauth_push i f h =
      push_with-Kept reauth_push (finalize_reauth entry) (λ g o. o) (finalize-Kept reauth_push) f
        f.client refl h
  submit-Kept configured reauth_otp i f (o, s) =
      otp_with-Kept reauth_otp (finalize_reauth entry) (λ g o s. (o, s)) (finalize-Kept reauth_otp)
        f i.otp f.client refl o s
