-- ===== src/Routes/Apart.antt =====
-- custom_components/eisenberg/coordinator.py: no topic has two handlers.
use ha_eisenberg.Common.{
  ◌≡◌, refl, [], ◌∷◌, List, String, Bool, true, false, not, ◌&&◌, ◌||◌, ◌≤◌, length, str_eq,
  str_eq_iff, if◌then◌else◌, arith, Bool-cases, inl, inr,
}
use ha_eisenberg.Topics.{matches, match_from, match, split_slash}
use ha_eisenberg.Routes.{event_router}

abbrev is_wild : String → Bool
is_wild p = str_eq p "+" || str_eq p "#"

-- Two patterns that no topic matches both: of different lengths, or with two different words at one level.
apart : List String → List String → Bool
apart [] [] = false
apart [] (q ∷ qs) = not (str_eq q "#")
apart (p ∷ ps) [] = not (str_eq p "#")
apart (p ∷ ps) (q ∷ qs) =
    let later = apart ps qs in
    if str_eq p "#" || str_eq q "#"
    then false
    else (not (str_eq p "+") && (not (str_eq q "+") && not (str_eq p q))) || later

apart-matches :
    (ps qs ts : List String) → apart ps qs ≡ true → matches ps ts ≡ true → matches qs ts ≡ true → ⊥
unfolding apart matches
apart-matches [] [] ts h m n = cc
apart-matches [] (q ∷ qs) [] h m n = ground arith
apart-matches [] (q ∷ qs) (t ∷ ts) h m n = cc
apart-matches (p ∷ ps) [] [] h m n = ground arith
apart-matches (p ∷ ps) [] (t ∷ ts) h m n = cc
apart-matches (p ∷ ps) (q ∷ qs) [] h m n = ground arith
apart-matches (p ∷ ps) (q ∷ qs) (t ∷ ts) h m n =
    ground (arith, apart-matches ps qs ts, str_eq_iff p t, str_eq_iff q t, str_eq_iff p q)

module _ {ℓ} {H : Type ℓ} where
  -- Whether a pattern is apart from those of the routes.
  apart_all : List String → List (List String × H) → Bool
  unfolding apart
  apart_all ps [] = true
  apart_all ps ((qs, h) ∷ routes) = apart ps qs && apart_all ps routes

  are_apart : List (List String × H) → Bool
  unfolding apart_all
  are_apart [] = true
  are_apart ((ps, h) ∷ routes) = apart_all ps routes && are_apart routes

  unmatched :
      (matched : List H) (ps : List String) (routes : List (List String × H)) (ts : List String)
      → apart_all ps routes ≡ true
      → matches ps ts ≡ true
      → match_from matched routes ts ≡ matched
  unfolding apart_all match_from
  unmatched matched ps [] ts h m = refl
  unmatched matched ps ((qs, x) ∷ routes) ts h m = elim (Bool-cases (matches qs ts)) [
    | inl n ↦ absurd (apart-matches ps qs ts (ground arith) m n)
    | inr n ↦ rw n (unmatched matched ps routes ts (ground arith) m)
  ]

  at_most_one :
      (routes : List (List String × H)) (ts : List String)
      → are_apart routes ≡ true
      → length (match_from [] routes ts) ≤ 1
  unfolding are_apart match_from
  at_most_one [] ts h = ground arith
  at_most_one ((ps, x) ∷ routes) ts h = elim (Bool-cases (matches ps ts)) [
    | inl m ↦ rw m (rw (unmatched (x ∷ []) ps routes ts (ground arith) m) (ground arith))
    | inr m ↦ rw m (at_most_one routes ts (ground arith))
  ]

routes_apart : are_apart event_router.routes ≡ true
unfolding are_apart event_router
routes_apart = refl

-- Whatever topic an event arrives on, one handler at most takes it: no two patterns of the table share a
-- topic, so no event is handled twice.
pub length-match-event_router : (topic : String) → length (match event_router topic) ≤ 1
unfolding match
length-match-event_router topic = at_most_one event_router.routes (split_slash topic) routes_apart
