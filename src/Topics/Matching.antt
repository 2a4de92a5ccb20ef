-- ===== src/Topics/Matching.antt =====
-- What a topic filter matches.
use text.Mathlib.TextLemmas.{append_assoc as append_assoc_s}
use ha_eisenberg.Common.{
  ◌≡◌, ◌≢◌, ◌↔◌, ◌⊎◌, refl, ap, ◌∙◌, [], ◌∷◌, ◌++◌, List, String, true, ◌+s◌, arith, All,
  if◌then◌else◌, str_eq_iff, str_eq_refl, append-nil,
}
use ha_eisenberg.Topics.{
  matches, topic_matches, TopicRouter, register, match_from, match, split_slash, base_wildcard,
}
use ha_eisenberg.Topics.Split.{IsLevel, split_slash-level}

-- Level by level: `+` stands for any level, and any other pattern for itself.
abbrev pub Fits : List String → List String → Type 0
Fits [] [] = Unit
Fits [] (t ∷ ts) = ⊥
Fits (p ∷ ps) [] = ⊥
Fits (p ∷ ps) (t ∷ ts) = ((p ≡ "+") ⊎ (p ≡ t)) × Fits ps ts

abbrev pub HasNoHash : List String → Type 0
HasNoHash = All (λ p. p ≢ "#")

-- A filter with no `#` matches the topics of as many levels that fit it.
pub matches-plain_iff :
    (pattern topic : List String)
    → HasNoHash pattern
    → (matches pattern topic ≡ true) ↔ Fits pattern topic
unfolding matches
matches-plain_iff [] [] h = (λ _. tt, λ _. refl)
matches-plain_iff [] (t ∷ ts) h = (λ e. cc, λ e. absurd e)
matches-plain_iff (p ∷ ps) [] (n, h) = (λ e. absurd (n ((str_eq_iff p "#").0 e)), λ e. absurd e)
matches-plain_iff (p ∷ ps) (t ∷ ts) (n, h) =
    let ih = matches-plain_iff ps ts h in
    ground (arith, ih, str_eq_iff p "#", str_eq_iff p "+", str_eq_iff p t)

-- The same of the first levels of a topic alone.
abbrev pub FitsFirst : List String → List String → Type 0
FitsFirst [] ts = Unit
FitsFirst (p ∷ ps) [] = ⊥
FitsFirst (p ∷ ps) (t ∷ ts) = ((p ≡ "+") ⊎ (p ≡ t)) × FitsFirst ps ts

-- A filter that ends in `#` matches every topic whose first levels fit the rest of it.
pub matches-hash_iff :
    (pattern topic : List String)
    → HasNoHash pattern
    → (matches (pattern ++ ("#" ∷ [])) topic ≡ true) ↔ FitsFirst pattern topic
unfolding matches
matches-hash_iff [] [] h = (λ _. tt, λ _. refl)
matches-hash_iff [] (t ∷ ts) h = (λ _. tt, λ _. refl)
matches-hash_iff (p ∷ ps) [] (n, h) = (λ e. absurd (n ((str_eq_iff p "#").0 e)), λ e. absurd e)
matches-hash_iff (p ∷ ps) (t ∷ ts) (n, h) =
    let ih = matches-hash_iff ps ts h in
    ground (arith, ih, str_eq_iff p "#", str_eq_iff p "+", str_eq_iff p t)

-- The levels of a device topic.
pub split_slash-device_topic :
    (x_cloud_id rest : String)
    → IsLevel x_cloud_id
    → split_slash ("d/" +s x_cloud_id +s "/out/" +s rest)
      ≡ "d" ∷ x_cloud_id ∷ "out" ∷ split_slash rest
split_slash-device_topic x rest h =
    ap split_slash (append_assoc_s "d" "/" (x +s "/out/" +s rest))
    ∙ split_slash-level "d" (x +s "/out/" +s rest) (refl, tt)
    ∙ ap (λ l. "d" ∷ l)
        (ap split_slash (
            ap (λ t. x +s t)
              (append_assoc_s "/" "out/" rest ∙ ap (λ t. "/" +s t) (append_assoc_s "out" "/" rest)))
          ∙ split_slash-level x ("out" +s ("/" +s rest)) h
          ∙ ap (λ l. x ∷ l) (split_slash-level "out" rest (refl, (refl, (refl, tt)))))

-- The account-wide filter of a cloud id matches whatever is published under it.
pub topic_matches-base_wildcard :
    (x_cloud_id rest : String)
    → IsLevel x_cloud_id
    → topic_matches (base_wildcard x_cloud_id) ("d/" +s x_cloud_id +s "/out/" +s rest) ≡ true
unfolding topic_matches base_wildcard
topic_matches-base_wildcard x rest h =
    rw (split_slash-device_topic x "#" h, split_slash-device_topic x rest h)
      (unfold matches split_slash in ground (arith, str_eq_refl x))

match_from-register :
    {H : Type 0} (routes : List (List String × H)) (matched : List H) (pattern : List String)
    (handler : H) (parts : List String)
    → match_from matched (routes ++ ((pattern, handler) ∷ [])) parts
      ≡ match_from matched routes parts ++ (if matches pattern parts then handler ∷ [] else [])
unfolding match_from
match_from-register [] matched pattern handler parts = ground (arith, append-nil matched)
match_from-register ((p, h) ∷ routes) matched pattern handler parts =
    match_from-register routes (if matches p parts then matched ++ (h ∷ []) else matched) pattern
      handler parts

-- A handler that is registered last is called last, and only for topics that its filter matches; the
-- handlers before it are called as before.
pub match-register :
    {H : Type 0} (r : TopicRouter H) (pattern topic : String) (handler : H)
    → match (register r pattern handler) topic
      ≡ match r topic ++ (if topic_matches pattern topic then handler ∷ [] else [])
unfolding match register topic_matches
match-register r pattern topic handler =
    match_from-register r.routes [] (split_slash pattern) handler (split_slash topic)
