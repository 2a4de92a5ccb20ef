-- ===== src/Flow/Completed.antt =====
-- custom_components/eisenberg/config_flow.py: a user who is let in gets an entry.
use ha_eisenberg.Common.{
  ℕ, zero, suc, ◌≡◌, refl, [], ◌∷◌, List, some, String, true, false, Bool-cases, inl, inr,
}
use ha_eisenberg.Json.{Json}
use ha_eisenberg.Http.{SecondFactor, mfa_required, Result, ok, err}
use ha_eisenberg.Topics.{contains}
use ha_eisenberg.Flow.Entry.{Cookie, Datum, entry_data, entry_options}
use ha_eisenberg.Flow.{Calls, create_entry, is_push, factor_with, fired, on_mfa_required}
use ha_eisenberg.Flow.Run.{Input, setup, start_of, or_disabled, submit, run}

-- Arlo lets the user in at once when there is no factor; else it asks for one of the factors, and approves
-- it.
abbrev pub logging_in : List SecondFactor → Result (Unit {0})
logging_in [] = ok tt
logging_in (f ∷ factors) = err (mfa_required (f ∷ factors))

abbrev pub willing : List SecondFactor → Json → List Cookie → String → Calls
willing factors code jar id = record {
  login = λ a. logging_in factors;
  start_mfa = λ a factor. ok code;
  try_finish_auth = λ a code otp. ok true;
  jar = jar;
  fresh_id = id;
}

abbrev pub repeat : ℕ → Input × Calls → List (Input × Calls)
repeat zero e = []
repeat (suc n) e = e ∷ repeat n e

-- The forms to submit: the account, a factor where there is a choice, the approval where there is a factor,
-- the place for media.
abbrev pub forms : List SecondFactor → ℕ
forms [] = 2
forms (f ∷ []) = 3
forms (f ∷ (g ∷ more)) = 4

-- Where there is a choice, the user picks a factor that was offered.
abbrev pub IsPicked : List SecondFactor → String → Type 0
IsPicked [] id = Unit
IsPicked (f ∷ []) id = Unit
IsPicked (f ∷ (g ∷ more)) id = (x : SecondFactor) × (factor_with (f ∷ (g ∷ more)) id ≡ some x)

module _ (configured : List String) (entry : List (String × Datum)) where
  -- For an account without an entry: when Arlo accepts the password at once, or asks for a second factor,
  -- sends the challenge and approves it, the setup flow ends with an entry of what the user typed and the
  -- cookies that were left, after two forms without a second factor, three with one, and four where there
  -- is a choice of the factor and the user picks one that was offered.
  pub run-willing :
      (i : Input) (factors : List SecondFactor) (code : Json) (jar : List Cookie) (id : String)
      → contains configured i.username ≡ false
      → IsPicked factors i.factor_id
      → (run configured entry
          (start_of setup)
          (repeat (forms factors) (i, willing factors code jar id))).result
        ≡ create_entry
            (entry_data i.username i.password id (some jar))
            (entry_options (or_disabled i.media_dir))
  unfolding run submit fired on_mfa_required
  run-willing i [] code jar id h k = rw h refl
  run-willing i (f ∷ []) code jar id h k = elim (Bool-cases (is_push f)) [
    | inl e ↦ rw e (rw h refl)
    | inr e ↦ rw e (rw h refl)
  ]
  run-willing i (f ∷ (g ∷ more)) code jar id h (x, k) =
      rw k (elim (Bool-cases (is_push x)) [ inl e ↦ rw e (rw h refl) | inr e ↦ rw e (rw h refl) ])
