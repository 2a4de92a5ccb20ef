-- ===== src/Flow/Accepted.antt =====
-- custom_components/eisenberg/config_flow.py: whole runs of the flows.
use mathlib.Core.Path.{subst}
use ha_eisenberg.Common.{
  ◌≡◌, refl, sym, ◌⊎◌, inl, inr, [], ◌∷◌, List, Option, none, some, String, true,
}
use ha_eisenberg.Json.{Json}
use ha_eisenberg.Http.{ok}
use ha_eisenberg.Flow.Entry.{Datum, entry_data, updated_data}
use ha_eisenberg.Flow.{
  Account, Flow, Form, user, pick_factor, push_approval, otp_entry, media_storage, reauth_confirm,
  reauth_password, reauth_pick_factor, reauth_push, reauth_otp, FlowResult, show_form, abort,
  create_entry, update_entry, crash, Calls,
}
use ha_eisenberg.Flow.Run.{
  Input, Stage, Start, setup, again, start_of, stage_of, step_at, submit, run,
}
use ha_eisenberg.Flow.Sound.{IsCalm, IsGood, FitsStep}
use ha_eisenberg.Flow.Steps.{submit-Kept}

-- Arlo accepts an account: a login needs no factor, or a second factor is approved.
abbrev pub Accepts : Calls → Account → Type 0
Accepts c a =
    (c.login a ≡ ok tt)
    ⊎ ((code : Json) × (otp : Option String) × (c.try_finish_auth a code otp ≡ ok true))

abbrev pub WasAccepted : List (Input × Calls) → Account → Type 0
WasAccepted [] a = ⊥
WasAccepted ((i, c) ∷ earlier) a = Accepts c a ⊎ WasAccepted earlier a

abbrev pub AreCalm : List (Input × Calls) → Type 0
AreCalm [] = Unit
AreCalm ((i, c) ∷ earlier) = IsCalm c × AreCalm earlier

-- What a result tells of the run that led to it: of a form, an abort, an entry, and an exception.
abbrev pub IsJustified : List (String × Datum) → List (Input × Calls) → Flow → FlowResult → Type 0
IsJustified entry es f (show_form form base) = IsGood (WasAccepted es) entry form f
IsJustified entry es f (abort reason) = f.client ≡ none
IsJustified entry es f (create_entry made options) =
    (f.client ≡ none)
    × WasAccepted es f.account
    × (made ≡ entry_data f.account.username f.account.password f.account.device_id f.cookie_jar)
IsJustified entry es f (update_entry made) =
    (f.client ≡ none)
    × WasAccepted es f.account
    × (made
        ≡ updated_data entry f.account.username f.account.password f.account.device_id f.cookie_jar)
IsJustified entry es f crash = ¬ AreCalm es

module _ (configured : List String) (entry : List (String × Datum)) where
  abbrev IsAt : List (Input × Calls) → Option Form → Flow → Type 0
  IsAt es none f = Unit
  IsAt es (some form) f = IsGood (WasAccepted es) entry form f

  later :
      (e : Input × Calls) (es : List (Input × Calls)) (f : Flow) (result : FlowResult)
      → IsJustified entry es f result
      → IsJustified entry (e ∷ es) f result
  later e es f (show_form user base) h = h
  later e es f (show_form pick_factor base) h = h
  later e es f (show_form push_approval base) h = h
  later e es f (show_form otp_entry base) h = h
  later e es f (show_form media_storage base) (o, p) = (o, inr p)
  later e es f (show_form reauth_confirm base) h = h
  later e es f (show_form reauth_password base) h = h
  later e es f (show_form reauth_pick_factor base) h = h
  later e es f (show_form reauth_push base) h = h
  later e es f (show_form reauth_otp base) h = h
  later e es f (abort reason) h = h
  later e es f (create_entry made options) (o, p, q) = (o, inr p, q)
  later e es f (update_entry made) (o, p, q) = (o, inr p, q)
  later e es f crash h = λ (calm : AreCalm (e ∷ es)). h calm.1

  IsGood-later :
      (e : Input × Calls) (es : List (Input × Calls)) (f : Flow) (form : Form)
      → IsGood (WasAccepted es) entry form f
      → IsGood (WasAccepted (e ∷ es)) entry form f
  IsGood-later e es f form h = later e es f (show_form form none) h

  stage_of-IsJustified :
      (i : Input) (c : Calls) (es : List (Input × Calls)) (old : Form) (p : Flow × FlowResult)
      → FitsStep (WasAccepted ((i, c) ∷ es)) entry (IsCalm c → ⊥) old p
      → let t = stage_of old p in
        IsJustified entry ((i, c) ∷ es) t.flow t.result × IsAt ((i, c) ∷ es) t.form t.flow
  stage_of-IsJustified i c es old (f, show_form form base) h = (h, h)
  stage_of-IsJustified i c es old (f, abort reason) h = (h, tt)
  stage_of-IsJustified i c es old (f, create_entry made options) h = (h, tt)
  stage_of-IsJustified i c es old (f, update_entry made) h = (h, tt)
  stage_of-IsJustified i c es old (f, crash) (g, b) =
      ((λ (calm : AreCalm ((i, c) ∷ es)). b calm.0), g)

  step_at-IsJustified :
      (i : Input) (c : Calls) (es : List (Input × Calls)) (form : Option Form) (s : Stage)
      → s.form ≡ form
      → IsJustified entry es s.flow s.result
      → IsAt es form s.flow
      → let t = step_at configured entry form s (i, c) in
        IsJustified entry ((i, c) ∷ es) t.flow t.result × IsAt ((i, c) ∷ es) t.form t.flow
  step_at-IsJustified i c es none s e h g = (
    later (i, c) es s.flow s.result h,
    subst (λ (o : Option Form). IsAt ((i, c) ∷ es) o s.flow) (sym e) tt,
  )
  step_at-IsJustified i c es (some form) s e h g =
      stage_of-IsJustified i c es form (submit configured entry form i c s.flow) (
        submit-Kept (WasAccepted ((i, c) ∷ es)) entry c (λ a p. inl (inl p))
          (λ a code otp p. inl (inr (code, otp, p))) configured form i s.flow
          (IsGood-later (i, c) es s.flow form g))

  kept :
      (s : Stage) (es : List (Input × Calls))
      → IsJustified entry [] s.flow s.result × IsAt [] s.form s.flow
      → let t = run configured entry s es in
        IsJustified entry es t.flow t.result × IsAt es t.form t.flow
  unfolding run
  kept s [] h = h
  kept s ((i, c) ∷ es) h =
      step_at-IsJustified i c es (run configured entry s es).form (run configured entry s es) refl
        (kept s es h).0 (kept s es h).1

  -- Whatever the user submits, in the setup flow or in the one that signs in again, and whatever Arlo
  -- answers: an entry is made, or changed, only for an account that Arlo has accepted in this flow, with
  -- its name, password, device and cookies; the form for the media comes only after that. When that form
  -- is shown or the flow is over, the client is closed; at the forms for a factor it is open for the
  -- account of the flow. An exception leaves a step only where a call of the client has raised one that
  -- the flow does not name.
  pub run-IsJustified :
      (start : Start) (es : List (Input × Calls))
      → let s = run configured entry (start_of start) es in IsJustified entry es s.flow s.result
  run-IsJustified setup es = (kept (start_of setup) es (tt, tt)).0
  run-IsJustified (again a) es = (kept (start_of (again a)) es (tt, tt)).0
