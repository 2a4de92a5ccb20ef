-- ===== src/Login/Silent.antt =====
-- A silent login fires no challenge, and what it leaves behind.
use ha_eisenberg.Common.{
  ◌≡◌, refl, ap, ◌∙◌, inl, inr, ◌++◌, [], ◌∷◌, List, Option, none, some, String, true, false, All,
  keep_if,
}
use ha_eisenberg.Json.{Json, str, Entries, get, as_object}
use ha_eisenberg.Http.{
  get_in, SecondFactor, Request, World, arlo_meta, subscript, code_is_200, entries_of,
  require_success, raise_for_arlo_error,
}
use ha_eisenberg.Http.Rules.{
  Does, does_rules, Does-bind, Does-modify, Does-raise, Does-bind-Gives, Gives, Gives-bind,
  Gives-raise_if, IsRaised,
}
use ha_eisenberg.Login.Log.{
  IsPlain, IsSilent, IsSilentLog, IsOffer, factor_named, Says, or_raise-Still, gets-Still,
  raise_if-Still, modify-Still, arlo_meta-Still, subscript-Still, subscript-Gives,
  code_is_200-Still, plain-Says, Says-if, Says-bind-Gives, Says-bind, Says-exchange,
}
use ha_eisenberg.Login.{
  AuthData, ocapi_request, fields, establish_session, set_token, use_token, get_factors,
  trusted_auth, discover_factors, check_trust, login, is_challenge, is_empty,
}

arlo_meta-Quiet : (body : Json) → Does IsPlain IsOffer (arlo_meta body)
unfolding arlo_meta
arlo_meta-Quiet body = search (does_rules, tt)

subscript-Quiet : (body : Json) (key : String) → Does IsPlain IsOffer (subscript body key)
unfolding subscript
subscript-Quiet body key = search (does_rules, tt)

code_is_200-Quiet : (meta : Entries) → Does IsPlain IsOffer (code_is_200 meta)
unfolding code_is_200
code_is_200-Quiet meta = search (does_rules, tt)

entries_of-Quiet : (body : Json) → Does IsPlain IsOffer (entries_of body)
entries_of-Quiet body = search (does_rules, tt)

require_success-Quiet : (body : Json) → Does IsPlain IsOffer (require_success body)
unfolding require_success raise_for_arlo_error
require_success-Quiet body = search (does_rules, tt)

ruleset quiet_rules = (
  does_rules, arlo_meta-Quiet, subscript-Quiet, code_is_200-Quiet, require_success-Quiet,
  entries_of-Quiet,
)

establish_session-Quiet : Does IsPlain IsOffer establish_session
unfolding establish_session
establish_session-Quiet = search (quiet_rules, tt) depth 24 fits 4000

ruleset session_rules = (quiet_rules, establish_session-Quiet)

use_token-Quiet : (token : Json) → Does IsPlain IsOffer (use_token token)
unfolding use_token set_token
use_token-Quiet token = search session_rules depth 12

All-keep_if :
    (factors : List SecondFactor) → All (λ f. is_challenge f ≡ true) (keep_if is_challenge factors)
All-keep_if [] = tt
All-keep_if (f ∷ factors) =
    (elim (is_challenge f)
        as (λ b.
          is_challenge f ≡ b
          → All (λ f. is_challenge f ≡ true)
              (elim b [
                | true ↦ f ∷ keep_if is_challenge factors
                | false ↦ keep_if is_challenge factors
              ])) [ true ↦ λ e. (e, All-keep_if factors) | false ↦ λ e. All-keep_if factors ])
      refl

abbrev IsOffered : List SecondFactor → Type 0
IsOffered factors = (is_empty factors ≡ false) × All (λ f. is_challenge f ≡ true) factors

module _ (validate_factor : Json → Option SecondFactor) where
  get_factors-Quiet : (token : Json) → Does IsPlain IsOffer (get_factors validate_factor token)
  unfolding get_factors
  get_factors-Quiet token = search (session_rules, tt) depth 60 fits 8000

  get_factors-Gives : (token : Json) → Gives IsOffered (get_factors validate_factor token)
  unfolding get_factors
  get_factors-Gives token = Gives-bind _ _ (λ body. Gives-bind _ _ (λ meta. Gives-bind _ _ (λ _.
      Gives-bind _ _ (λ good. Gives-bind _ _ (λ _. Gives-bind _ _ (λ content.
        Gives-bind _ _ (λ entries. Gives-bind _ _ (λ items.
          Gives-bind _ _ (λ factors. Gives-raise_if _ _ _ (λ h. (h, All-keep_if factors)))))))))))

  discover_factors-Quiet :
      (token : Json) → Does IsPlain IsOffer (discover_factors validate_factor token)
  unfolding discover_factors
  discover_factors-Quiet token = Does-bind _ _ (Does-modify _) (λ _.
      Does-bind-Gives _ _ (get_factors-Quiet token) (get_factors-Gives token)
        (λ factors offered. Does-raise _ offered))

-- The challenge of the factor that the answer has named.
trusted_request-IsSilent :
    (token body content factor user : Json)
    → get_in (as_object (some body)) "data" ≡ some content
    → get_in (as_object (some content)) "factorId" ≡ some factor
    → IsSilent (factor_named body) (
        ocapi_request "/api/startAuth" token
          (fields (("factorId", factor) ∷ ("factorType", str "BROWSER") ∷ ("userId", user) ∷ [])))
unfolding get
trusted_request-IsSilent token body content factor user e f =
    inr (factor, ap (λ (o : Option Json). get_in (as_object o) "factorId") e ∙ f, refl, refl, refl)

trusted_auth-Says : (token body : Json) → Says (factor_named body) (trusted_auth token body)
unfolding trusted_auth
trusted_auth-Says token body =
    Says-bind-Gives _ _ _ _ (subscript-Still body "data") (subscript-Gives body "data")
      (λ content e.
        Says-bind-Gives _ _ _ _ (subscript-Still content "factorId")
          (subscript-Gives content "factorId")
          (λ factor e'. Says-bind _ _ _ (gets-Still _) (λ user.
            Says-exchange _ _ _ (trusted_request-IsSilent token body content factor user e e')
              (λ started.
                plain-Says _ _ (search (session_rules, tt, use_token-Quiet) depth 60 fits 8000)))))

module _ (validate_factor : Json → Option SecondFactor) where
  check_trust-Says : (token : Json) → Says none (check_trust validate_factor token)
  unfolding check_trust get
  check_trust-Says token = Says-bind _ _ _ (gets-Still _) (λ user.
      Says-exchange _ _ _ (inl refl) (λ body. Says-bind _ _ _ (arlo_meta-Still body) (λ meta.
        Says-bind _ _ _ (code_is_200-Still meta) (λ trusted.
          Says-if _ trusted _ _ (trusted_auth-Says token body)
            (plain-Says _ _ (discover_factors-Quiet validate_factor token))))))

  module _ (validate_auth : Json → Option AuthData) where
    login-Says :
        (address password : String)
        → Says none (login validate_factor validate_auth address password)
    unfolding login
    login-Says address password = Says-exchange _ _ _ (inl refl) (λ body.
        Says-bind _ _ _ (arlo_meta-Still body) (λ meta.
          Says-bind _ _ _ (raise_if-Still _ _ tt) (λ _.
            Says-bind _ _ _ (code_is_200-Still meta) (λ good.
              Says-bind _ _ _ (raise_if-Still _ _ tt) (λ _.
                Says-bind _ _ _ (subscript-Still body "data") (λ content.
                  Says-bind _ _ _ (or_raise-Still _ _ tt) (λ auth.
                    Says-bind _ _ _ (modify-Still _) (λ _.
                      Says-if _ _ _ _ (plain-Says _ _ (use_token-Quiet _))
                        (check_trust-Says _)))))))))

    -- A silent login contacts nobody. It neither ends a challenge nor pairs a browser; it starts no
    -- challenge but one of the factor that Arlo has named, in its answer to the request just before, as
    -- this browser's own, so none of a phone, a mailbox or a number. When it asks for a second factor, it
    -- offers one at least, and only such as a challenge can be sent to.
    pub login_lem :
        (address password : String) (w : World)
        → let (r, w') = login validate_factor validate_auth address password w in
          (new : List Request) × (w'.sent ≡ w.sent ++ new)
          × IsSilentLog none w.replies new
          × IsRaised IsOffer r
    login_lem address password w = (login-Says address password).at w
