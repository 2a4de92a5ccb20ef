-- ===== src/Sse/Run.antt =====
-- The delays of the reconnect loop of eisenberg/sse.py.
use mathlib.Core.Option
use ha_eisenberg.Common.{
  ℕ, zero, suc, ◌+◌, ◌-◌, ◌<◌, min, ◌≡◌, refl, ap, [], ◌∷◌, ◌++◌, List, Option, none, some, true,
  false, arith, length, get_elem?,
}
use ha_eisenberg.Sse.{Ended, returned, failed, delay_after, run_from}

-- How many sessions have failed, by returning False or raising, since the last that returned True. A
-- session returns True when it delivered an event, went idle, or was logged out.
unfoldable pub failures_after : ℕ → List Ended → ℕ
failures_after n [] = n
failures_after n (returned true ∷ sessions) = failures_after 0 sessions
failures_after n (returned false ∷ sessions) = failures_after (n + 1) sessions
failures_after n (failed ∷ sessions) = failures_after (n + 1) sessions

-- What is slept after a session, by the count of failures before it.
unfoldable pub wait_after : List ℕ → ℕ → Ended → Option (Option ℕ)
wait_after backoff n (returned true) = some none
wait_after backoff n (returned false) = Option.map some (delay_after backoff n)
wait_after backoff n failed = Option.map some (delay_after backoff n)

run_from-split :
    (backoff : List ℕ) (n : ℕ) (before : List Ended) (s : Ended) (after : List Ended)
    → get_elem? (run_from backoff n (before ++ (s ∷ after))) (length before)
      ≡ some (wait_after backoff (failures_after n before) s)
unfolding run_from failures_after wait_after
run_from-split backoff n [] (returned true) after = refl
run_from-split backoff n [] (returned false) after = refl
run_from-split backoff n [] failed after = refl
run_from-split backoff n (returned true ∷ before) s after = run_from-split backoff 0 before s after
run_from-split backoff n (returned false ∷ before) s after =
    run_from-split backoff (n + 1) before s after
run_from-split backoff n (failed ∷ before) s after = run_from-split backoff (n + 1) before s after

get_elem?-some : (l : List ℕ) (i : ℕ) → i < length l → (d : ℕ) × (get_elem? l i ≡ some d)
get_elem?-some [] i h = absurd (omega arith)
get_elem?-some (x ∷ l) zero h = (x, refl)
get_elem?-some (x ∷ l) (suc i) h = get_elem?-some l i (omega arith)

wait_after-some :
    (backoff : List ℕ) (n : ℕ) (s : Ended)
    → 0 < length backoff
    → (slept : Option ℕ) × (wait_after backoff n s ≡ some slept)
unfolding wait_after
wait_after-some backoff n (returned true) h = (none, refl)
wait_after-some backoff n (returned false) h =
    let (d, e) = get_elem?-some backoff (min n (length backoff - 1)) (grind arith) in
    (some d, ap (Option.map some) e)
wait_after-some backoff n failed h =
    let (d, e) = get_elem?-some backoff (min n (length backoff - 1)) (grind arith) in
    (some d, ap (Option.map some) e)

-- With a backoff that is not empty, the loop never indexes it out of range. After a session that returned
-- True (it delivered an event, went idle, or was logged out) it sleeps not at all; after one that returned
-- False or raised, for the delay that stands in the backoff at the count of such sessions since the last
-- that returned True, the last delay repeating.
pub run_from_lem :
    (backoff : List ℕ) (before : List Ended) (s : Ended) (after : List Ended)
    → 0 < length backoff
    → (get_elem? (run_from backoff 0 (before ++ (s ∷ after))) (length before)
        ≡ some (wait_after backoff (failures_after 0 before) s))
      × ((slept : Option ℕ) × (wait_after backoff (failures_after 0 before) s ≡ some slept))
run_from_lem backoff before s after h =
    (run_from-split backoff 0 before s after, wait_after-some backoff (failures_after 0 before) s h)
