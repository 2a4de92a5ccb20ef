-- ===== src/Entities/Tests.antt =====
-- A sensor over time, the views, and the theorems at concrete inputs.
use ha_eisenberg.Common.{
  ◌≤◌, ◌≡◌, refl, [], ◌∷◌, List, Option, none, some, String, true, false, arith,
}
use ha_eisenberg.Json.{ℤ, pos, bool, str, entry, no_entries, get}
use ha_eisenberg.Topics.{contains}
use ha_eisenberg.Entities.{
  MotionEvent, brightness_of, intensity_of, is_open, is_on, has_power_switch,
}
use ha_eisenberg.Entities.Detection.{Happening, push, second, run, is_recent, is_lit-run}
use ha_eisenberg.Entities.Brightness.{intensity_of-brightness_of}

abbrev dated : ℤ → String
dated n = "0"

abbrev seen_person : String → Option MotionEvent
seen_person id = some (record {
  event_device = "C";
  obj_category = none;
  content_url = none;
  thumbnail_url = none;
  obj_categories = some ("Person" ∷ []);
  feed_id = some id;
  utc_created_date = pos 0;
})

-- The first event once more does not light the sensor again.
abbrev stale : List Happening
stale = push (seen_person "a") 2 ∷ second ∷ second ∷ push (seen_person "a") 2 ∷ []

dark : (run "Person" dated stale).is_lit ≡ false
unfolding run contains
dark = refl

-- A new event starts the time again.
prolonged :
    (run "Person" dated
      (second ∷ push (seen_person "b") 2 ∷ second ∷ push (seen_person "a") 2 ∷ [])).is_lit
    ≡ true
unfolding run contains
prolonged = refl

closed_at_first : is_open (some (entry "contactState" (bool false) no_entries)) none ≡ some false
unfolding is_open
closed_at_first = refl

private_at_first : is_on (some (entry "privacyActive" (bool true) no_entries)) none ≡ some false
unfolding is_on
private_at_first = refl

without_switch : has_power_switch (some (entry "a" (str "b") no_entries)) ≡ false
unfolding has_power_switch get
without_switch = refl

half : brightness_of 50 ≡ 128
unfolding brightness_of
half = refl

is_lit-run_example : (run "Person" dated stale).is_lit ≡ is_recent "Person" dated 0 stale
is_lit-run_example = is_lit-run "Person" dated stale

intensity_of-brightness_of_example :
    (intensity_of (brightness_of 50) ≡ 50) × (brightness_of 50 ≤ 255)
intensity_of-brightness_of_example = intensity_of-brightness_of 50 (omega arith)
