-- ===== src/Flow/Sound.antt =====
-- What holds of a flow at each of its forms and at its end, and that each step keeps it.
use ha_eisenberg.Common.{
  ◌≡◌, refl, sym, ap, [], ◌∷◌, List, Option, none, some, String, Bool, true, false, ◌||◌,
  Bool-cases, inl, inr, arith,
}
use ha_eisenberg.Json.{Json}
use ha_eisenberg.Http.{SecondFactor, Error, is_authentication, Result, ok, err}
use ha_eisenberg.Flow.Entry.{Datum, entry_data, updated_data}
use ha_eisenberg.Flow.{
  Account, Flow, Form, user, pick_factor, push_approval, otp_entry, media_storage, reauth_confirm,
  reauth_password, reauth_pick_factor, reauth_push, reauth_otp, FlowResult, show_form, abort,
  create_entry, update_entry, crash, Calls, is_rate_limited, is_push, called, cleanup_client,
  show_otp, fired, fire_with, on_mfa_required, fire_selected, push_finished, otp_finished,
}

-- The client is open, and signs in to the flow's own account.
abbrev pub IsOpen : Flow → Type 0
IsOpen f = f.client ≡ some f.account

abbrev pub HasFactor : Flow → Type 0
HasFactor f = (factor : SecondFactor) × (f.selected_factor ≡ some factor)

-- A result that is none of the errors that the flow names.
abbrev pub IsExpected : {A : Type 0} → Result A → Type 0
IsExpected (ok a) = Unit
IsExpected (err e) = (is_rate_limited e || is_authentication e) ≡ true

pub record IsCalm (c : Calls) : Type 0 where
  pub login_calm : (a : Account) → IsExpected (c.login a)
  pub start_calm : (a : Account) (factor : SecondFactor) → IsExpected (c.start_mfa a factor)
  pub finish_calm :
      (a : Account) (code : Json) (otp : Option String) → IsExpected (c.try_finish_auth a code otp)

-- `P` is what an account must be for an entry.
module _ (P : Account → Type 0) (entry : List (String × Datum)) where
  abbrev pub IsGood : Form → Flow → Type 0
  IsGood user f = Unit
  IsGood pick_factor f = IsOpen f
  IsGood push_approval f = IsOpen f
  IsGood otp_entry f = IsOpen f × HasFactor f
  IsGood media_storage f = (f.client ≡ none) × P f.account
  IsGood reauth_confirm f = Unit
  IsGood reauth_password f = Unit
  IsGood reauth_pick_factor f = IsOpen f
  IsGood reauth_push f = IsOpen f
  IsGood reauth_otp f = IsOpen f × HasFactor f

  -- An end finds the client closed, and an entry is for an account as wanted.
  abbrev pub Fits : Type 0 → Form → Flow → FlowResult → Type 0
  Fits B old f (show_form form base) = IsGood form f
  Fits B old f (abort reason) = f.client ≡ none
  Fits B old f (create_entry made options) =
      (f.client ≡ none)
      × P f.account
      × (made ≡ entry_data f.account.username f.account.password f.account.device_id f.cookie_jar)
  Fits B old f (update_entry made) =
      (f.client ≡ none)
      × P f.account
      × (made
          ≡ updated_data entry f.account.username f.account.password f.account.device_id
              f.cookie_jar)
  Fits B old f crash = IsGood old f × B

  abbrev pub FitsStep : Type 0 → Form → Flow × FlowResult → Type 0
  FitsStep B old (f, result) = Fits B old f result

  module _ (c : Calls) (login_grants : (a : Account) → c.login a ≡ ok tt → P a)
      (finish_grants : (a : Account) (code : Json) (otp : Option String)
        → c.try_finish_auth a code otp ≡ ok true
        → P a) where
    abbrev pub Faulty : Type 0
    Faulty = IsCalm c → ⊥

    pub unexpected :
        {A : Type 0} (r : Result A) (e : Error)
        → r ≡ err e
        → is_rate_limited e ≡ false
        → is_authentication e ≡ false
        → IsExpected r
        → ⊥
    unexpected (ok a) e h l m x = cc
    unexpected (err d) e h l m x = ground (arith, ap is_rate_limited, ap is_authentication)

    pub show_otp-Fits :
        (old form : Form) (f : Flow) (base : Option String) (o : Option SecondFactor)
        → f.selected_factor ≡ o
        → HasFactor f
        → ((factor : SecondFactor) → f.selected_factor ≡ some factor → IsGood form f)
        → FitsStep Faulty old (show_otp form f base o)
    show_otp-Fits old form f base none e (factor, h) good = absurd (cc)
    show_otp-Fits old form f base (some factor) e h good = good factor e

    -- The forms for a push and for a code that follow the choice of a factor.
    abbrev pub Shows : Form → Type 0
    Shows form = (g : Flow) → IsOpen g → IsGood form g

    abbrev pub ShowsCode : Form → Type 0
    ShowsCode form = (g : Flow) → IsOpen g → HasFactor g → IsGood form g

    fired-Fits :
        (old pf of : Form)
        → Shows pf
        → ShowsCode of
        → (f : Flow) (factor : SecondFactor) (r : Result Json) → c.start_mfa f.account factor ≡ r
        → IsOpen f
        → f.selected_factor ≡ some factor
        → IsGood old f
        → FitsStep Faulty old (fired pf of f factor r)
    unfolding fired
    fired-Fits old pf of gp go f factor (ok code) h o s keep = elim (Bool-cases (is_push factor)) [
      | inl e ↦ rw e (gp (record f { factor_auth_code = code }) o)
      | inr e ↦ rw e (
          show_otp-Fits old of (record f { factor_auth_code = code }) none f.selected_factor refl
            (factor, s) (λ x p. go (record f { factor_auth_code = code }) o (x, p)))
    ]
    fired-Fits old pf of gp go f factor (err e) h o s keep = elim (Bool-cases (is_rate_limited e)) [
      | inl l ↦ rw l refl
      | inr l ↦ rw l (elim (Bool-cases (is_authentication e)) [
        | inl m ↦ rw m refl
        | inr m ↦
            rw m
              (keep, λ (calm : IsCalm c). unexpected _ e h l m (calm.start_calm f.account factor))
      ])
    ]

    pub fire_with-Fits :
        (old pf of : Form)
        → Shows pf
        → ShowsCode of
        → (f : Flow) (client : Option Account) (factor : Option SecondFactor) → f.client ≡ client
        → f.selected_factor ≡ factor
        → IsOpen f
        → HasFactor f
        → IsGood old (called c f)
        → FitsStep Faulty old (fire_with pf of c f client factor)
    fire_with-Fits old pf of gp go f none factor e1 e2 o h keep = absurd (cc)
    fire_with-Fits old pf of gp go f (some a) none e1 e2 o (x, p) keep = absurd (cc)
    fire_with-Fits old pf of gp go f (some a) (some factor) e1 e2 o h keep =
        let same : a ≡ f.account = cc in
        fired-Fits old pf of gp go (called c f) factor (c.start_mfa a factor)
          (ap (λ (b : Account). c.start_mfa b factor) (sym same)) o e2 keep

    pub on_mfa_required-Fits :
        (old picker : Form) (fire : Flow → Flow × FlowResult)
        → Shows picker
        → ((g : Flow) → IsOpen g → HasFactor g → FitsStep Faulty old (fire g))
        → (f : Flow) (factors : List SecondFactor) → IsOpen f
        → FitsStep Faulty old (on_mfa_required picker fire f factors)
    unfolding on_mfa_required
    on_mfa_required-Fits old picker fire gp fires f [] o = gp (record f { factors = [] }) o
    on_mfa_required-Fits old picker fire gp fires f (a ∷ []) o =
        fires (record f { factors = a ∷ []; selected_factor = some a }) o (a, refl)
    on_mfa_required-Fits old picker fire gp fires f (a ∷ b ∷ more) o =
        gp (record f { factors = a ∷ b ∷ more }) o

    pub fire_selected-Fits :
        (old picker : Form) (fire : Flow → Flow × FlowResult)
        → Shows picker
        → ((g : Flow) → IsOpen g → HasFactor g → FitsStep Faulty old (fire g))
        → (f : Flow) (chosen : Option SecondFactor) → IsOpen f
        → FitsStep Faulty old (fire_selected picker fire f chosen)
    fire_selected-Fits old picker fire gp fires f none o = gp f o
    fire_selected-Fits old picker fire gp fires f (some a) o =
        fires (record f { selected_factor = some a }) o (a, refl)

    pub push_finished-Fits :
        (form : Form) (done : Flow → Flow × FlowResult)
        → Shows form
        → ((g : Flow) → g.client ≡ none → P g.account → FitsStep Faulty form (done g))
        → (f : Flow) (code : Json) (r : Result Bool) → c.try_finish_auth f.account code none ≡ r
        → IsOpen f
        → FitsStep Faulty form (push_finished form done f r)
    unfolding push_finished
    push_finished-Fits form done gp ends f code (ok true) h o =
        ends (cleanup_client f) refl (finish_grants f.account code none h)
    push_finished-Fits form done gp ends f code (ok false) h o = gp f o
    push_finished-Fits form done gp ends f code (err e) h o =
        elim (Bool-cases (is_rate_limited e)) [
          | inl l ↦ rw l refl
          | inr l ↦ rw l (elim (Bool-cases (is_authentication e)) [
            | inl m ↦ rw m refl
            | inr m ↦ rw m (
              gp f o,
              λ (calm : IsCalm c). unexpected _ e h l m (calm.finish_calm f.account code none),
            )
          ])
        ]

    pub otp_finished-Fits :
        (form : Form) (done : Flow → Flow × FlowResult)
        → ShowsCode form
        → ((g : Flow) → g.client ≡ none → P g.account → FitsStep Faulty form (done g))
        → (f : Flow) (code : Json) (otp : Option String) (r : Result Bool)
        → c.try_finish_auth f.account code otp ≡ r
        → IsOpen f
        → HasFactor f
        → FitsStep Faulty form (otp_finished form done f r)
    unfolding otp_finished
    otp_finished-Fits form done go ends f code otp (ok true) h o s =
        ends (cleanup_client f) refl (finish_grants f.account code otp h)
    otp_finished-Fits form done go ends f code otp (ok false) h o s =
        show_otp-Fits form form f (some "invalid_otp") f.selected_factor refl s
          (λ x p. go f o (x, p))
    otp_finished-Fits form done go ends f code otp (err e) h o s =
        elim (Bool-cases (is_rate_limited e)) [
          | inl l ↦ rw l refl
          | inr l ↦ rw l (elim (Bool-cases (is_authentication e)) [
            | inl m ↦ rw m (
                show_otp-Fits form form f (some "invalid_otp") f.selected_factor refl s
                  (λ x p. go f o (x, p)))
            | inr m ↦ rw m (
              go f o s,
              λ (calm : IsCalm c). unexpected _ e h l m (calm.finish_calm f.account code otp),
            )
          ])
        ]
