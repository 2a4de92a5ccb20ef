-- ===== src/Topics.antt =====
-- eisenberg/mqtt.py: topic filters, the router and the list of filters to subscribe to; and the loop of
-- `_mqtt_extra_topics` in custom_components/eisenberg/coordinator.py, which is the same.
pub mod Split
pub mod Matching
pub mod Subscribe
pub mod Outcome
mod Tests
use Prim.Native.Char.{Char, code}
use Prim.Native.String
use ha_eisenberg.Common.{
  ℕ, zero, suc, ◌+◌, ◌++◌, [], ◌∷◌, List, Option, none, some, String, Bool, true, false, not, ◌&&◌,
  ◌||◌, ◌==◌, str_eq, ◌+s◌, map, if◌then◌else◌, length, any, keep_if,
}

-- "/"
abbrev pub is_slash : Char → Bool
is_slash c = code c == b'/'

abbrev pub grow_first : Char → List String → List String
grow_first c [] = String.◌∷◌ c String.[] ∷ []
grow_first c (part ∷ parts) = String.◌∷◌ c part ∷ parts

-- s.split("/")
unfoldable pub split_slash : String → List String
split_slash String.[] = "" ∷ []
split_slash (String.◌∷◌ c s) =
    let parts = split_slash s in if is_slash c then "" ∷ parts else grow_first c parts

-- `_matches`. The two lists are walked together, so `i >= len(topic)` is an empty rest, and at the end
-- `len(pattern) == len(topic)` says that nothing of the topic is left.
unfoldable pub matches : List String → List String → Bool
matches [] [] = true
matches [] (t ∷ topic) = false
matches (p ∷ pattern) [] = str_eq p "#"
matches (p ∷ pattern) (t ∷ topic) =
    let rest = matches pattern topic in
    if str_eq p "#" then true else if not (str_eq p "+") && not (str_eq p t) then false else rest

unfoldable pub topic_matches : String → String → Bool
topic_matches topic_filter topic = matches (split_slash topic_filter) (split_slash topic)

-- TopicRouter, over any type of handlers.
pub record TopicRouter {ℓ} (H : Type ℓ) : Type ℓ where
  pub routes : List (List String × H)

module _ {ℓ} {H : Type ℓ} where
  abbrev pub no_routes : TopicRouter H
  no_routes = record { routes = [] }

  unfoldable pub register : TopicRouter H → String → H → TopicRouter H
  register r pattern handler = record { routes = r.routes ++ ((split_slash pattern, handler) ∷ []) }

  -- The loop of `TopicRouter.match`, which appends each handler whose pattern matches.
  unfoldable pub match_from : List H → List (List String × H) → List String → List H
  match_from matched [] parts = matched
  match_from matched ((pattern, handler) ∷ routes) parts =
      match_from (if matches pattern parts then matched ++ (handler ∷ []) else matched) routes parts

  unfoldable pub match : TopicRouter H → String → List H
  match r topic = match_from [] r.routes (split_slash topic)

-- topic in topics
unfoldable pub contains : List String → String → Bool
contains topics topic = any (λ t. str_eq t topic) topics

-- for topic in extra: if topic not in topics: topics.append(topic)
unfoldable pub add_missing : List String → List String → List String
add_missing topics [] = topics
add_missing topics (topic ∷ extra) =
    add_missing (if contains topics topic then topics else topics ++ (topic ∷ [])) extra

unfoldable pub base_wildcard : String → String
base_wildcard x_cloud_id = "d/" +s x_cloud_id +s "/out/#"

unfoldable pub user_wildcard : String → String
user_wildcard user_id = "u/" +s user_id +s "/in/#"

unfoldable pub build_subscribe_topics : List String → String → List String → List String
build_subscribe_topics x_cloud_ids user_id extra_topics =
    add_missing (map base_wildcard x_cloud_ids ++ (user_wildcard user_id ∷ [])) extra_topics

-- models.py: the verdict of the broker on one filter, and on all.
pub record TopicResult : Type 0 where
  pub topic : String
  pub code : ℕ
  pub granted : Bool

pub record SubscribeOutcome : Type 0 where
  pub results : List TopicResult

unfoldable pub granted_count : SubscribeOutcome → ℕ
granted_count o = length (keep_if (λ r. r.granted) o.results)

unfoldable pub refused_count : SubscribeOutcome → ℕ
refused_count o = length (keep_if (λ r. not r.granted) o.results)

unfoldable pub refused_topics : SubscribeOutcome → List String
refused_topics o = map (λ r. r.topic) (keep_if (λ r. not r.granted) o.results)

result_in : List TopicResult → String → Option TopicResult
result_in [] topic = none
result_in (r ∷ rs) topic = if str_eq r.topic topic then some r else result_in rs topic

unfoldable pub result_for : SubscribeOutcome → String → Option TopicResult
unfolding result_in
result_for o topic = result_in o.results topic

abbrev pub suback_failure : ℕ
suback_failure = 0x80

-- zip(topics, codes, strict=False)
unfoldable pub topic_results : List String → List ℕ → List TopicResult
topic_results [] codes = []
topic_results (t ∷ topics) [] = []
topic_results (t ∷ topics) (c ∷ codes) =
    record { topic = t; code = c; granted = not (c == suback_failure) } ∷ topic_results topics codes
