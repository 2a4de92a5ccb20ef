-- ===== src/Routes/Tests.antt =====
-- The table on concrete topics, and its theorem.
use ha_eisenberg.Common.{◌≤◌, ◌≡◌, refl, [], ◌∷◌, length}
use ha_eisenberg.Topics.{match, match_from, matches, split_slash}
use ha_eisenberg.Routes.{camera_state, devices_response, event_router}
use ha_eisenberg.Routes.Apart.{length-match-event_router}

doorbell : match event_router "d/X/out/doorbells/D/is" ≡ camera_state ∷ []
unfolding match match_from matches split_slash event_router
doorbell = refl

hub_answer : match event_router "d/X/out/devices/is" ≡ devices_response ∷ []
unfolding match match_from matches split_slash event_router
hub_answer = refl

unknown : match event_router "d/X/out/devices" ≡ []
unfolding match match_from matches split_slash event_router
unknown = refl

length-match-event_router_example : length (match event_router "d/X/out/devices/is") ≤ 1
length-match-event_router_example = length-match-event_router "d/X/out/devices/is"
