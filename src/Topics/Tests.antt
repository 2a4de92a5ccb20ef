-- ===== src/Topics/Tests.antt =====
-- Runs of the topic filters, and their theorems at concrete topics.
use ha_eisenberg.Common.{◌≡◌, ◌↔◌, refl, ◌++◌, true, false, arith, map, [], ◌∷◌, str_eq_iff}
use ha_eisenberg.Topics.{
  split_slash, matches, topic_matches, register, match, match_from, contains, add_missing,
  base_wildcard, user_wildcard, build_subscribe_topics, granted_count,
}
use ha_eisenberg.Topics.Matching.{Fits, matches-plain_iff}
use ha_eisenberg.Topics.Subscribe.{is_distinct}

topics : Unit {0}
unfolding split_slash matches topic_matches register match match_from add_missing
    build_subscribe_topics contains is_distinct base_wildcard user_wildcard granted_count
topics = tt

camera_state : topic_matches "d/+/out/cameras/+/is" "d/X/out/cameras/C1/is" ≡ true
unfolding topics
camera_state = refl

deeper : topic_matches "d/+/out/cameras/+/is" "d/X/out/cameras/C1/privacyZones/is" ≡ false
unfolding topics
deeper = refl

asked :
    build_subscribe_topics ("X" ∷ []) "U" ("d/X/out/#" ∷ "d/X/out/doorbells/D/#" ∷ [])
    ≡ "d/X/out/#" ∷ "u/U/in/#" ∷ "d/X/out/doorbells/D/#" ∷ []
unfolding topics
asked = refl

matches-plain_iff_example :
    (matches ("d" ∷ "+" ∷ []) ("d" ∷ "X" ∷ []) ≡ true) ↔ Fits ("d" ∷ "+" ∷ []) ("d" ∷ "X" ∷ [])
matches-plain_iff_example =
    matches-plain_iff ("d" ∷ "+" ∷ []) ("d" ∷ "X" ∷ [])
      (ground (arith, str_eq_iff "d" "#"), (ground (arith, str_eq_iff "+" "#"), tt))

broad_is_distinct :
    is_distinct (map base_wildcard ("X" ∷ "Y" ∷ []) ++ (user_wildcard "U" ∷ [])) ≡ true
unfolding topics
broad_is_distinct = refl
