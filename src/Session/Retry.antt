-- ===== src/Session/Retry.antt =====
-- The session of custom_components/eisenberg/coordinator.py over a sequence of calls.
use mathlib.Core.Path.{subst}
use ha_eisenberg.Common.{
  ℕ, ◌+◌, ◌≡◌, refl, sym, ap, ◌∙◌, ◌⊎◌, inl, inr, [], ◌∷◌, List, true, false, arith, Bool-cases,
}
use ha_eisenberg.Http.{
  authentication, session_expired, rate_limited, transient, api, mfa_required, runtime, malformed,
  unreachable, Result, ok, err, World, Action,
}
use ha_eisenberg.Session.{
  Standing, auth_failed, Call, is_verdict, second_try, after_login, after_try,
  call_with_session_retry,
}

-- The session is as it was, or it has died and the user was asked once.
abbrev pub IsOnce : Standing → Standing → Type 0
IsOnce s s' =
    ((s'.is_dead ≡ false) × (s'.reauths ≡ s.reauths))
    ⊎ ((s'.is_dead ≡ true) × (s'.reauths ≡ s.reauths + 1))

module _ {A : Type 0} where
  -- Calls one after the other, whatever comes of each.
  unfoldable pub run_calls :
      Action (Unit {0}) → List (Action A) → Standing → World → Standing × World
  run_calls relogin [] s w = (s, w)
  run_calls relogin (op ∷ ops) s w =
      let (s', w') = (call_with_session_retry relogin op s w).1 in run_calls relogin ops s' w'

  second_try-standing : (s : Standing) (r : Result A) (w : World) → (second_try s (r, w)).1.0 ≡ s
  second_try-standing s (ok a) w = refl
  second_try-standing s (err e) w = refl

  after_login-IsOnce :
      (op : Action A) (s : Standing) (r : Result (Unit {0})) (w : World)
      → s.is_dead ≡ false
      → IsOnce s (after_login op s (r, w)).1.0
  unfolding after_login
  after_login-IsOnce op s (ok done) w h =
      let e = second_try-standing (record s { is_dead = false }) (op w).0 (op w).1 in
      inl (ap (λ (t : Standing). t.is_dead) e, ap (λ (t : Standing). t.reauths) e)
  after_login-IsOnce op s (err e) w h = elim (Bool-cases (is_verdict e)) [
    | inl v ↦ inr (ground arith, ground arith)
    | inr v ↦ inl (ground arith, ground arith)
  ]

  after_try-IsOnce :
      (relogin : Action (Unit {0})) (op : Action A) (s : Standing) (r : Result A) (w : World)
      → s.is_dead ≡ false
      → IsOnce s (after_try relogin op s (r, w)).1.0
  unfolding after_try
  after_try-IsOnce relogin op s (ok a) w h = inl (h, refl)
  after_try-IsOnce relogin op s (err session_expired) w h =
      after_login-IsOnce op s (relogin w).0 (relogin w).1 h
  after_try-IsOnce relogin op s (err authentication) w h = inl (h, refl)
  after_try-IsOnce relogin op s (err rate_limited) w h = inl (h, refl)
  after_try-IsOnce relogin op s (err transient) w h = inl (h, refl)
  after_try-IsOnce relogin op s (err api) w h = inl (h, refl)
  after_try-IsOnce relogin op s (err (mfa_required factors)) w h = inl (h, refl)
  after_try-IsOnce relogin op s (err runtime) w h = inl (h, refl)
  after_try-IsOnce relogin op s (err malformed) w h = inl (h, refl)
  after_try-IsOnce relogin op s (err unreachable) w h = inl (h, refl)

  alive_call :
      (relogin : Action (Unit {0})) (op : Action A) (s : Standing) (w : World)
      → s.is_dead ≡ false
      → call_with_session_retry relogin op s w ≡ after_try relogin op s (op w)
  unfolding call_with_session_retry
  alive_call relogin op s w h = rw h refl

  dead_call :
      (relogin : Action (Unit {0})) (op : Action A) (s : Standing) (w : World)
      → s.is_dead ≡ true
      → call_with_session_retry relogin op s w ≡ (auth_failed, (s, w))
  unfolding call_with_session_retry
  dead_call relogin op s w h = rw h refl

  -- Once the session is dead, any sequence of calls leaves it and the world as they are: nothing is sent,
  -- no login is tried, and the user is not asked again.
  pub run_calls-dead :
      (relogin : Action (Unit {0})) (ops : List (Action A)) (s : Standing) (w : World)
      → s.is_dead ≡ true
      → run_calls relogin ops s w ≡ (s, w)
  unfolding run_calls
  run_calls-dead relogin [] s w h = refl
  run_calls-dead relogin (op ∷ ops) s w h =
      ap (λ (c : Call A). run_calls relogin ops c.1.0 c.1.1) (dead_call relogin op s w h)
      ∙ run_calls-dead relogin ops s w h

  IsOnce-then :
      (relogin : Action (Unit {0})) (ops : List (Action A)) (s t : Standing) (w : World)
      → IsOnce s t
      → (t.is_dead ≡ false → IsOnce t (run_calls relogin ops t w).0)
      → IsOnce s (run_calls relogin ops t w).0
  IsOnce-then relogin ops s t w (inl (alive, same)) later = elim (later alive) [
    | inl (a, e) ↦ inl (a, e ∙ same)
    | inr (d, e) ↦ inr (d, e ∙ ap (λ (n : ℕ). n + 1) same)
  ]
  IsOnce-then relogin ops s t w (inr (dead, more)) later =
      let e = run_calls-dead relogin ops t w dead in
      inr (
        ap (λ (r : Standing × World). r.0.is_dead) e ∙ dead,
        ap (λ (r : Standing × World). r.0.reauths) e ∙ more,
      )

  -- Over any sequence of calls from a live session, whatever they and the logins come to, the user is
  -- asked to sign in again at most once: exactly when the session has died.
  pub run_calls_lem :
      (relogin : Action (Unit {0})) (ops : List (Action A)) (s : Standing) (w : World)
      → s.is_dead ≡ false
      → IsOnce s (run_calls relogin ops s w).0
  unfolding run_calls
  run_calls_lem relogin [] s w h = inl (h, refl)
  run_calls_lem relogin (op ∷ ops) s w h =
      let (t, v) = (call_with_session_retry relogin op s w).1 in
      IsOnce-then relogin ops s t v
        (subst (λ (c : Call A). IsOnce s c.1.0) (sym (alive_call relogin op s w h))
          (after_try-IsOnce relogin op s (op w).0 (op w).1 h))
        (λ alive. run_calls_lem relogin ops t v alive)
