-- ===== src/Gap/Tests.antt =====
-- Runs of the supplement, and its theorems at an account with a Gen2 doorbell whose wildcard is refused.
use ha_eisenberg.Common.{ℕ, ◌≡◌, refl, [], ◌∷◌, none, some, All}
use ha_eisenberg.Dicts.{lookup, put}
use ha_eisenberg.Json.{str, Entries, no_entries, entry, get, as_str}
use ha_eisenberg.Topics.{
  TopicRouter, SubscribeOutcome, topic_matches, split_slash, matches, add_missing, contains,
  register, match, match_from, topic_results,
}
use ha_eisenberg.Devices.{DeviceInfo}
use ha_eisenberg.Gap.{
  is_lowered, camera_resource_filter, cameras, contact_sensors, declared, extra_from,
  mqtt_extra_topics, granted_topics, camera_resources, add_gap, add_gaps, sse_gap_resources,
  sensor_resources, register_all, sse_router, handle_sse_event,
}
use ha_eisenberg.Gap.Owned.{IsOwned}
use ha_eisenberg.Gap.Uncovered.{
  IsUncovered, IsServed, sse_gap_resources_lem, IsRouted, handle_sse_event-IsRouted,
}

supplement : Unit {0}
unfolding lookup put get topic_matches split_slash matches add_missing contains register match
    match_from is_lowered camera_resource_filter cameras contact_sensors declared extra_from
    mqtt_extra_topics granted_topics camera_resources topic_results add_gap add_gaps
    sse_gap_resources register_all handle_sse_event
supplement = tt

abbrev doorbell : DeviceInfo
doorbell = record {
  device_id = "D";
  device_name = "Door";
  model_id = "AVD3001A";
  x_cloud_id = "X";
  user_id = none;
  device_type = some "Doorbell";
  parent_id = none;
  allowed_mqtt_topics = "d/X/out/doorbells/D/#" ∷ [];
}

asked : mqtt_extra_topics (doorbell ∷ []) ≡ "d/X/out/doorbells/D/#" ∷ "d/X/out/cameras/D/#" ∷ []
unfolding supplement
asked = refl

-- The broker refuses the wildcard and the camera's filter.
abbrev outcome : SubscribeOutcome
outcome = record {
  results =
      topic_results ("d/X/out/#" ∷ "d/X/out/doorbells/D/#" ∷ "d/X/out/cameras/D/#" ∷ [])
        (128 ∷ 0 ∷ 128 ∷ []);
}

gap : sse_gap_resources (doorbell ∷ []) outcome ≡ ("cameras/D", "X") ∷ []
unfolding supplement
gap = refl

abbrev motion : Entries
motion = entry "resource" (str "cameras/D") (entry "action" (str "is") no_entries)

abbrev router : TopicRouter ℕ
router = sse_router (("d/+/out/cameras/+/is", 1) ∷ [])

routed :
    handle_sse_event (("cameras/D", "X") ∷ []) router motion ≡ some ("d/X/out/cameras/D/is", 1 ∷ [])
unfolding supplement
routed = refl

sse_gap_resources_example :
    let granted = granted_topics outcome.results in
    let gap = sse_gap_resources (doorbell ∷ []) outcome in
    All (IsOwned (doorbell ∷ [])) gap
    × All (IsUncovered granted) gap
    × All (IsServed camera_resources granted gap) (cameras (doorbell ∷ []))
    × All (IsServed sensor_resources granted gap) (contact_sensors (doorbell ∷ []))
sse_gap_resources_example = sse_gap_resources_lem (doorbell ∷ []) outcome

motion_action : as_str (get motion "action") ≡ some "is"
unfolding get
motion_action = refl

handle_sse_event-IsRouted_example :
    IsRouted
      (granted_topics outcome.results)
      (handle_sse_event (sse_gap_resources (doorbell ∷ []) outcome) router motion)
handle_sse_event-IsRouted_example =
    handle_sse_event-IsRouted (doorbell ∷ []) outcome router motion motion_action
