-- ===== src/Gap.antt =====
-- custom_components/eisenberg/coordinator.py: the device classes of eisenberg/models.py, the topics that the
-- devices ask for, and the supplement by server-sent events: what MQTT leaves uncovered, and the routing of
-- one frame.
pub mod Owned
pub mod Uncovered
mod Tests
use Prim.Native.Char.{Char, code}
use Prim.Native.String
use ha_eisenberg.Common.{
  ℕ, ◌+◌, [], ◌∷◌, ◌++◌, List, Option, none, some, String, Bool, true, false, not, ◌&&◌, ◌||◌, ltb,
  leb, ◌==◌, str_eq, ◌+s◌, if◌then◌else◌, any, keep_if,
}
use ha_eisenberg.Dicts.{lookup, put}
use ha_eisenberg.Json.{Json, Entries, get, as_str}
use ha_eisenberg.Topics.{
  TopicRouter, no_routes, register, match, topic_matches, add_missing, SubscribeOutcome,
  TopicResult,
}
use ha_eisenberg.Devices.{DeviceInfo}

abbrev pub lower_code : ℕ → ℕ
lower_code n = if leb b'A' n && leb n b'Z' then n + 32 else n

-- s.lower() == t, for a text of small Latin letters without k: of the other characters only the Kelvin
-- sign has such a letter alone as its small form.
unfoldable pub is_lowered : String → String → Bool
is_lowered String.[] String.[] = true
is_lowered String.[] (String.◌∷◌ d t) = false
is_lowered (String.◌∷◌ c s) String.[] = false
is_lowered (String.◌∷◌ c s) (String.◌∷◌ d t) = (lower_code (code c) == code d) && is_lowered s t

abbrev pub type_text : Option String → String
type_text none = ""
type_text (some t) = t

-- (self.device_type or "").lower()
abbrev pub is_type : DeviceInfo → String → Bool
is_type d t = is_lowered (type_text d.device_type) t

abbrev pub is_base_station : DeviceInfo → Bool
is_base_station d = is_type d "basestation" || (is_type d "arlobridge" || is_type d "hub")

abbrev pub is_doorbell : DeviceInfo → Bool
is_doorbell d = is_type d "doorbell"

abbrev pub is_sensor : DeviceInfo → Bool
is_sensor d = is_type d "sensors"

unfoldable pub camera_resource_filter : DeviceInfo → String
camera_resource_filter d = "d/" +s (d.x_cloud_id +s ("/out/cameras/" +s (d.device_id +s "/#")))

unfoldable pub cameras : List DeviceInfo → List DeviceInfo
unfolding is_lowered
cameras devices = keep_if (λ d. not (is_base_station d) && not (is_sensor d)) devices

unfoldable pub contact_sensors : List DeviceInfo → List DeviceInfo
unfolding is_lowered
contact_sensors devices = keep_if is_sensor devices

-- What a device declares, and for a doorbell the filter of its camera.
unfoldable pub declared : DeviceInfo → List String
unfolding is_lowered camera_resource_filter
declared d =
    if is_doorbell d
    then d.allowed_mqtt_topics ++ (camera_resource_filter d ∷ [])
    else d.allowed_mqtt_topics

unfoldable pub extra_from : List String → List DeviceInfo → List String
unfolding declared add_missing
extra_from topics [] = topics
extra_from topics (d ∷ devices) = extra_from (add_missing topics (declared d)) devices

unfoldable pub mqtt_extra_topics : List DeviceInfo → List String
unfolding extra_from
mqtt_extra_topics devices = extra_from [] devices

-- [r.topic for r in outcome.results if r.granted]
unfoldable pub granted_topics : List TopicResult → List String
granted_topics [] = []
granted_topics (r ∷ results) =
    let others = granted_topics results in if r.granted then r.topic ∷ others else others

-- f"d/{x}/out/{resource}/{action}"
abbrev pub resource_topic : String → String → String → String
resource_topic x resource action = "d/" +s (x +s ("/out/" +s (resource +s ("/" +s action))))

abbrev pub is_covered : List String → String → Bool
is_covered granted topic = any (λ f. topic_matches f topic) granted

unfoldable pub camera_resources : DeviceInfo → List String
unfolding is_lowered
camera_resources d =
    ("cameras/" +s d.device_id) ∷ (if is_doorbell d then ("doorbells/" +s d.device_id) ∷ [] else [])

-- The loop over the resources of a device.
unfoldable pub add_gap :
    List String → String → List (String × String) → List String → List (String × String)
unfolding topic_matches put
add_gap granted x gap [] = gap
add_gap granted x gap (resource ∷ resources) =
    add_gap granted x
      (if is_covered granted (resource_topic x resource "is") then gap else put gap resource x)
      resources

unfoldable pub add_gaps :
    (DeviceInfo → List String)
    → List String
    → List (String × String)
    → List DeviceInfo
    → List (String × String)
unfolding add_gap
add_gaps resources_of granted gap [] = gap
add_gaps resources_of granted gap (d ∷ devices) =
    add_gaps resources_of granted (add_gap granted d.x_cloud_id gap (resources_of d)) devices

abbrev pub sensor_resources : DeviceInfo → List String
sensor_resources d = ("sensors/" +s d.device_id) ∷ []

unfoldable pub sse_gap_resources : List DeviceInfo → SubscribeOutcome → List (String × String)
unfolding granted_topics add_gaps cameras contact_sensors camera_resources
sse_gap_resources devices outcome =
    let granted = granted_topics outcome.results in
    add_gaps sensor_resources granted (add_gaps camera_resources granted [] (cameras devices))
      (contact_sensors devices)

module _ {ℓ} {H : Type ℓ} where
  -- The router of the supplement: the same routes as MQTT's.
  unfoldable pub register_all : TopicRouter H → List (String × H) → TopicRouter H
  unfolding register
  register_all router [] = router
  register_all router ((pattern, handler) ∷ routes) =
      register_all (register router pattern handler) routes

  abbrev pub sse_router : List (String × H) → TopicRouter H
  sse_router routes = register_all no_routes routes

  abbrev pub route : TopicRouter H → Option String → String → String → Option (String × List H)
  route router none resource action = none
  route router (some x) resource action =
      some (resource_topic x resource action, match router (resource_topic x resource action))

  abbrev pub route_frame :
      List (String × String)
      → TopicRouter H
      → Option String
      → Option String
      → Option (String × List H)
  route_frame resources router none action = none
  route_frame resources router (some resource) none = none
  route_frame resources router (some resource) (some action) =
      route router (lookup resources resource) resource action

  -- `_handle_sse_event`: the topic and the handlers that are called, or `none` for a frame that is dropped.
  unfoldable pub handle_sse_event :
      List (String × String) → TopicRouter H → Entries → Option (String × List H)
  unfolding lookup match get
  handle_sse_event resources router payload =
      route_frame resources router (as_str (get payload "resource")) (as_str (get payload "action"))
