-- ===== src/Login/Log.antt =====
-- Logs of requests that contact nobody, with a rule for each way to build an action that writes one.
use mathlib.Core.Path.{subst}
use ha_eisenberg.Common.{
  ◌≡◌, refl, sym, ap, ◌∙◌, ◌⊎◌, inl, inr, ◌++◌, append-nil, append_assoc, Bool, ◌&&◌, Option-cases,
  if◌then◌else◌, [], ◌∷◌, List, Option, none, some, String, true, false, ◌||◌, str_eq, All,
}
use ha_eisenberg.Json.{Json, str, Entries, get, as_object, as_str, is_str}
use ha_eisenberg.Http.{
  Result, ok, err, Reply, json, not_json, no_reply, next_reply, later_replies, answer, exchange,
  raise_if, modify, gets, or_raise, go_on, ◌>>=◌, pure, transient, malformed, Client, get_in, Error,
  mfa_required, Request, World, Action, arlo_meta, subscript, code_is_200,
}
use ha_eisenberg.Http.Rules.{Does, Gives, Gives-or_raise, IsGiven, IsRaised}
use ha_eisenberg.Login.{is_challenge, is_empty}

-- A request that neither starts nor ends a challenge, nor pairs a browser.
abbrev pub IsPlain : Request → Type 0
IsPlain r =
    ((str_eq r.path "/api/finishAuth" || str_eq r.path "/api/startPairingFactor")
      || str_eq r.path "/api/startAuth")
    ≡ false

abbrev pub field_in : Request → String → Option Json
field_in r key = get_in (as_object (some r.body)) key

-- Whether Arlo is asked for the factor of this browser itself.
abbrev pub is_browser_question : Request → Bool
is_browser_question r =
    str_eq r.path "/api/getFactorId" && is_str (as_str (field_in r "factorType")) "BROWSER"

-- The factor that an answer names.
abbrev pub factor_named : Json → Option Json
factor_named body = get_in (as_object (get_in (as_object (some body)) "data")) "factorId"

-- The browser's factor that is known from the exchange before.
abbrev pub browser_factor : Request → Option Reply → Option Json
browser_factor r none = none
browser_factor r (some no_reply) = none
browser_factor r (some not_json) = none
browser_factor r (some (json body)) = if is_browser_question r then factor_named body else none

-- A request that contacts nobody: a plain one, or a challenge of the browser's own factor, which the
-- exchange before has named.
abbrev pub IsSilent : Option Json → Request → Type 0
IsSilent browser r =
    IsPlain r
    ⊎ ((factor : Json) × (browser ≡ some factor)
        × (field_in r "factorId" ≡ some factor)
        × (field_in r "factorType" ≡ some (str "BROWSER"))
        × (r.path ≡ "/api/startAuth"))

-- Every request of a log is silent, each beside the answer that it gets.
abbrev pub IsSilentLog : Option Json → List Reply → List Request → Type 0
IsSilentLog browser replies [] = Unit
IsSilentLog browser replies (r ∷ requests) =
    IsSilent browser r
    × IsSilentLog (browser_factor r (next_reply replies)) (later_replies replies) requests

-- Any error; what is offered with MfaRequired can be sent to the user, and there is something.
abbrev pub IsOffer : Error → Type 0
IsOffer (mfa_required factors) =
    (is_empty factors ≡ false) × All (λ f. is_challenge f ≡ true) factors
IsOffer _ = Unit

abbrev pub Quiet : {A : Type 0} → Action A → Type 0
Quiet m = Does IsPlain IsOffer m

-- An action that sends nothing, and what it raises.
pub record Still {A : Type 0} (m : Action A) : Type 0 where
  pub at :
      (w : World)
      → ((m w).1.sent ≡ w.sent) × ((m w).1.replies ≡ w.replies) × IsRaised IsOffer (m w).0

module _ {A : Type 0} where
  pub or_raise-Still : (o : Option A) (e : Error) → IsOffer e → Still (or_raise o e)
  unfolding or_raise
  or_raise-Still none e h = record { at = λ w. (refl, refl, h) }
  or_raise-Still (some a) e h = record { at = λ w. (refl, refl, tt) }

  pub gets-Still : (f : Client → A) → Still (gets f)
  unfolding gets
  gets-Still f = record { at = λ w. (refl, refl, tt) }

pub raise_if-Still : (c : Bool) (e : Error) → IsOffer e → Still (raise_if c e)
unfolding raise_if
raise_if-Still true e h = record { at = λ w. (refl, refl, h) }
raise_if-Still false e h = record { at = λ w. (refl, refl, tt) }

pub modify-Still : (f : Client → Client) → Still (modify f)
unfolding modify
modify-Still f = record { at = λ w. (refl, refl, tt) }

pub arlo_meta-Still : (body : Json) → Still (arlo_meta body)
unfolding arlo_meta
arlo_meta-Still body = or_raise-Still _ transient tt

pub subscript-Still : (body : Json) (key : String) → Still (subscript body key)
unfolding subscript
subscript-Still body key = or_raise-Still _ malformed tt

pub subscript-Gives :
    (body : Json) (key : String)
    → Gives (λ a. get_in (as_object (some body)) key ≡ some a) (subscript body key)
unfolding subscript
subscript-Gives body key = Gives-or_raise _ malformed (λ a e. e)

pub code_is_200-Still : (meta : Entries) → Still (code_is_200 meta)
unfolding code_is_200 ◌>>=◌ or_raise pure
code_is_200-Still meta = elim (Option-cases (get meta "code")) [
  | inl e ↦ record { at = λ w. rw e (refl, refl, tt) }
  | inr (code, e) ↦ record { at = λ w. rw e (refl, refl, tt) }
]

-- A log that is silent after the exchange that named `browser`, and what is raised.
abbrev Logs : {A : Type 0} → Option Json → World → Result A × World → Type 0
Logs browser w (r, v) =
    (new : List Request) × (v.sent ≡ w.sent ++ new)
    × IsSilentLog browser w.replies new
    × IsRaised IsOffer r

pub record Says {A : Type 0} (browser : Option Json) (m : Action A) : Type 0 where
  pub at : (w : World) → Logs browser w (m w)

plain-IsSilentLog :
    (new : List Request) (browser : Option Json) (replies : List Reply)
    → All IsPlain new
    → IsSilentLog browser replies new
plain-IsSilentLog [] browser replies h = tt
plain-IsSilentLog (r ∷ new) browser replies (here, h) = (
  inl here,
  plain-IsSilentLog new (browser_factor r (next_reply replies)) (later_replies replies) h,
)

module _ {A : Type 0} where
  pub plain-Says : (browser : Option Json) (m : Action A) → Quiet m → Says browser m
  plain-Says browser m h = record {
    at = λ w.
        let ((new, e, plain), raised) = h.at w in
        (new, e, plain-IsSilentLog new browser w.replies plain, raised);
  }

  pub Says-if :
      (browser : Option Json) (c : Bool) (m n : Action A)
      → Says browser m
      → Says browser n
      → Says browser (if c then m else n)
  Says-if browser true m n hm hn = hm
  Says-if browser false m n hm hn = hn

module _ {A B : Type 0} (browser : Option Json) (f : A → Action B) where
  still_on :
      (R : A → Type 0) (w : World) (r : Result A) (v : World)
      → (v.sent ≡ w.sent) × (v.replies ≡ w.replies) × IsRaised IsOffer r
      → IsGiven R r
      → ((a : A) → R a → Says browser (f a))
      → Logs browser w (go_on f (r, v))
  still_on R w (ok a) v (es, er, h) given hf =
      let (new, e, log, raised) = (hf a given).at v in
      (
        new,
        e ∙ ap (λ (l : List Request). l ++ new) es,
        subst (λ (l : List Reply). IsSilentLog browser l new) er log,
        raised,
      )
  still_on R w (err e) v (es, er, h) given hf = ([], es ∙ sym (append-nil w.sent), tt, h)

  pub Says-bind-Gives :
      (R : A → Type 0) (m : Action A)
      → Still m
      → Gives R m
      → ((a : A) → R a → Says browser (f a))
      → Says browser (m >>= f)
  unfolding ◌>>=◌
  Says-bind-Gives R m still given hf = record {
    at = λ w. still_on R w (m w).0 (m w).1 (still.at w) (given.at w) hf;
  }

  any_result : (r : Result A) → IsGiven (λ a. Unit {0}) r
  any_result (ok a) = tt
  any_result (err e) = tt

  pub Says-bind : (m : Action A) → Still m → ((a : A) → Says browser (f a)) → Says browser (m >>= f)
  Says-bind m still hf =
      Says-bind-Gives (λ a. Unit) m still (record { at = λ w. any_result (m w).0 }) (λ a _. hf a)

module _ {B : Type 0} (browser : Option Json) (request : Request) (f : Json → Action B)
    (silent : IsSilent browser request)
    (further : (j : Json) → Says (browser_factor request (some (json j))) (f j)) where
  answered_on :
      (w : World) (o : Option Reply)
      → next_reply w.replies ≡ o
      → Logs browser w (
          go_on f (
            answer o,
            record w { replies = later_replies w.replies; sent = w.sent ++ (request ∷ []) },
          ))
  answered_on w none e = (request ∷ [], refl, (silent, tt), tt)
  answered_on w (some no_reply) e = (request ∷ [], refl, (silent, tt), tt)
  answered_on w (some not_json) e = (request ∷ [], refl, (silent, tt), tt)
  answered_on w (some (json j)) e =
      let v = record w { replies = later_replies w.replies; sent = w.sent ++ (request ∷ []) } in
      let (new, grown, log, raised) = (further j).at v in
      (
        request ∷ new,
        grown ∙ append_assoc w.sent (request ∷ []) new,
        (
          silent,
          subst
              (λ (o : Option Reply).
                IsSilentLog (browser_factor request o) (later_replies w.replies) new)
              (sym e) log,
        ),
        raised,
      )

  pub Says-exchange : Says browser (exchange request >>= f)
  unfolding ◌>>=◌ exchange
  Says-exchange = record { at = λ w. answered_on w (next_reply w.replies) refl }
