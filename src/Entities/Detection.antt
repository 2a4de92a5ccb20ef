-- ===== src/Entities/Detection.antt =====
-- custom_components/eisenberg/binary_sensor.py: a detection sensor over time.
use mathlib.Core.Path.{subst}
use ha_eisenberg.Common.{
  ℕ, ◌+◌, ◌==◌, ltb, leb, ◌≡◌, refl, ap, sym, str_eq_iff, Bool-cases, Option-cases, inl, inr, ◌∙◌,
  [], ◌∷◌, List, Option, none, some, String, Bool, true, false, not, ◌&&◌, ◌||◌, if◌then◌else◌,
  arith,
}
use ha_eisenberg.Json.{ℤ}
use ha_eisenberg.Entities.{
  MotionEvent, DetectionSensor, unlit, is_seen, pass_second, has_category, event_key, handle_event,
}

-- A push of the coordinator, with the device's last motion event and the timeout, or a second that goes by.
pub data Happening : Type 0 where
  push : Option MotionEvent → ℕ → Happening
  second : Happening

module _ (category : String) (str_of : ℤ → String) where
  -- The happenings, the newest first.
  unfoldable pub run : List Happening → DetectionSensor
  unfolding handle_event pass_second
  run [] = unlit
  run (push event timeout ∷ earlier) = handle_event category str_of event timeout (run earlier)
  run (second ∷ earlier) = pass_second (run earlier)

  -- The key of the last event of the category.
  unfoldable pub last_key : List Happening → Option String
  last_key [] = none
  last_key (second ∷ earlier) = last_key earlier
  last_key (push none timeout ∷ earlier) = last_key earlier
  last_key (push (some e) timeout ∷ earlier) =
      let before = last_key earlier in
      if has_category e.obj_categories category then some (event_key category str_of e) else before

  -- Whether, `k` seconds ago, the last new event of the category was younger than its timeout.
  unfoldable pub is_recent : ℕ → List Happening → Bool
  unfolding last_key
  is_recent k [] = false
  is_recent k (second ∷ earlier) = is_recent (k + 1) earlier
  is_recent k (push none timeout ∷ earlier) = is_recent k earlier
  is_recent k (push (some e) timeout ∷ earlier) =
      let before = is_recent k earlier in
      if has_category e.obj_categories category
        && not (is_seen (last_key earlier) (event_key category str_of e))
      then (k == 0) || ltb k timeout
      else before

  abbrev is_left : ℕ → Option ℕ → Bool
  is_left k none = false
  is_left k (some n) = (k == 0) || ltb k n

  abbrev IsTimed : Bool → Option ℕ → Type 0
  IsTimed lit none = lit ≡ false
  IsTimed lit (some n) = lit ≡ true

  is_seen-some : (last : Option String) (key : String) → is_seen last key ≡ true → last ≡ some key
  is_seen-some none key h = cc
  is_seen-some (some last) key h = ap some ((str_eq_iff last key).0 h)

  seen : (hs : List Happening) → (run hs).last_seen_event_key ≡ last_key hs
  unfolding run last_key
  seen [] = refl
  seen (second ∷ hs) = ground (arith, seen hs)
  seen (push none t ∷ hs) = seen hs
  seen (push (some e) t ∷ hs) = elim (Bool-cases (has_category e.obj_categories category)) [
    | inl h ↦
        rw h
          (elim (Bool-cases (is_seen (run hs).last_seen_event_key (event_key category str_of e))) [
            | inl d ↦
                rw d (is_seen-some (run hs).last_seen_event_key (event_key category str_of e) d)
            | inr d ↦ rw d refl
          ])
    | inr h ↦ rw h (seen hs)
  ]

  pass-IsTimed :
      (s : DetectionSensor)
      → IsTimed s.is_lit s.reset_in
      → IsTimed (pass_second s).is_lit (pass_second s).reset_in
  unfolding pass_second
  pass-IsTimed s h = elim (Option-cases s.reset_in) [
    | inl e ↦ rw e (subst (IsTimed s.is_lit) e h)
    | inr (n, e) ↦ rw e (elim (Bool-cases (leb n 1)) [
      | inl d ↦ rw d refl
      | inr d ↦ rw d (subst (IsTimed s.is_lit) e h)
    ])
  ]

  handle-IsTimed :
      (e : MotionEvent) (t : ℕ) (s : DetectionSensor)
      → IsTimed s.is_lit s.reset_in
      → let after = handle_event category str_of (some e) t s in IsTimed after.is_lit after.reset_in
  unfolding handle_event
  handle-IsTimed e t s h =
      elim (Bool-cases (
        not (has_category e.obj_categories category)
        || is_seen s.last_seen_event_key (event_key category str_of e))) [
          | inl d ↦ rw d h
          | inr d ↦ rw d refl
        ]

  timed : (hs : List Happening) → IsTimed (run hs).is_lit (run hs).reset_in
  unfolding run
  timed [] = refl
  timed (second ∷ hs) = pass-IsTimed (run hs) (timed hs)
  timed (push none t ∷ hs) = timed hs
  timed (push (some e) t ∷ hs) = handle-IsTimed e t (run hs) (timed hs)

  pass-is_left :
      (k : ℕ) (s : DetectionSensor)
      → is_left (k + 1) s.reset_in ≡ is_left k (pass_second s).reset_in
  unfolding pass_second
  pass-is_left k s = ground arith

  left : (k : ℕ) (hs : List Happening) → is_recent k hs ≡ is_left k (run hs).reset_in
  unfolding run is_recent
  left k [] = refl
  left k (second ∷ hs) = left (k + 1) hs ∙ pass-is_left k (run hs)
  left k (push none t ∷ hs) = left k hs
  left k (push (some e) t ∷ hs) =
      rw (seen hs) (elim (Bool-cases (has_category e.obj_categories category)) [
        | inl h ↦ rw h (elim (Bool-cases (is_seen (last_key hs) (event_key category str_of e))) [
          | inl d ↦ rw d (left k hs)
          | inr d ↦ rw d refl
        ])
        | inr h ↦ rw h (left k hs)
      ])

  IsTimed-left : (lit : Bool) (o : Option ℕ) → IsTimed lit o → lit ≡ is_left 0 o
  IsTimed-left lit none h = h
  IsTimed-left lit (some n) h = h

  -- A detection sensor is on exactly while the last new event of its category is younger than the timeout
  -- that then held, whatever else is pushed in between: an event that was handled before neither lights
  -- the sensor again nor prolongs it. A timeout of no seconds counts until the next one.
  pub is_lit-run : (happenings : List Happening) → (run happenings).is_lit ≡ is_recent 0 happenings
  is_lit-run hs = IsTimed-left _ _ (timed hs) ∙ sym (left 0 hs)
