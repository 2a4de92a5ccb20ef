-- ===== src/Commands.antt =====
-- eisenberg/client.py: the device list, the addressing of commands and the commands. `validate_device` and
-- `validate_location` are pydantic's `model_validate`.
pub mod Dedupe
pub mod Routing
pub mod Addressing
mod Tests
use Prim.Native.String
use ha_eisenberg.Common.{
  ℕ, [], ◌∷◌, ◌++◌, List, Option, none, some, String, Bool, true, false, not, ◌&&◌, ◌||◌, str_eq,
  ◌+s◌, if◌then◌else◌,
}
use ha_eisenberg.Dicts.{lookup, put}
use ha_eisenberg.Json.{
  Json, null, bool, int, str, array, object, Items, no_items, item, Entries, no_entries, entry, pos,
  get, as_object,
}
use ha_eisenberg.Http.{
  Error, malformed, runtime, Request, Client, World, Action, pure, raise, or_raise, gets, ◌>>=◌,
  ◌>>◌, raise_if, modify, exchange, subscript, get_in, require_success,
}
use ha_eisenberg.Login.{fields, or_text, is_null, items_of}
use ha_eisenberg.Modes.{LocationInfo}
use ha_eisenberg.Devices.{DeviceInfo, gateway_of}

-- model_id.endswith("-siren")
unfoldable pub is_siren_model : String → Bool
is_siren_model String.[] = false
is_siren_model (String.◌∷◌ c s) = str_eq (String.◌∷◌ c s) "-siren" || is_siren_model s

abbrev pub is_siren : DeviceInfo → Bool
is_siren d = is_siren_model d.model_id

-- existing is None or (existing is a twin and the device is not)
abbrev pub is_kept : Option DeviceInfo → DeviceInfo → Bool
is_kept none d = true
is_kept (some existing) d = is_siren existing && not (is_siren d)

unfoldable pub keep_devices :
    List (String × DeviceInfo) → List DeviceInfo → List (String × DeviceInfo)
unfolding lookup put is_siren_model
keep_devices kept [] = kept
keep_devices kept (d ∷ devices) =
    keep_devices (if is_kept (lookup kept d.device_id) d then put kept d.device_id d else kept)
      devices

-- d.values()
abbrev pub values : {V : Type 0} → List (String × V) → List V
values [] = []
values ((k, v) ∷ d) = v ∷ values d

-- `_dedupe_devices`
unfoldable pub dedupe_devices : List DeviceInfo → List DeviceInfo
unfolding keep_devices
dedupe_devices devices = values (keep_devices [] devices)

-- The loop of `get_devices` over the routing tables.
unfoldable pub track : Client → List DeviceInfo → Client
unfolding put gateway_of
track c [] = c
track c (d ∷ devices) =
    track
      (record c {
        device_cloud_ids = put c.device_cloud_ids d.device_id d.x_cloud_id;
        device_parent_ids = put c.device_parent_ids d.device_id (gateway_of d);
      })
      devices

-- The default xCloudId is set once, to that of the first device.
unfoldable pub set_default : Client → List DeviceInfo → Client
set_default c [] = c
set_default c (d ∷ devices) = elim c.x_cloud_id [
  | none ↦ record c { x_cloud_id = some d.x_cloud_id }
  | some x ↦ c
]

-- if self.token is None: raise RuntimeError("Not authenticated")
unfoldable pub authenticated : Action Client
authenticated = do c ← gets (λ c. c); raise_if (is_null c.token) runtime; pure c

-- A request to myapi with the account's own xCloudId.
abbrev pub account_request : Client → String → Json → Request
account_request c path body = record {
  path = path;
  token = c.token;
  cloud_id = or_text c.x_cloud_id;
  body = body;
}

module _ {A : Type 0} (validate : Json → Option A) where
  abbrev pub cons_valid : Option A → Option (List A) → Option (List A)
  cons_valid none more = none
  cons_valid (some a) none = none
  cons_valid (some a) (some more) = some (a ∷ more)

  abbrev pub validate_each : Items → Option (List A)
  validate_each no_items = some []
  validate_each (item j l) = cons_valid (validate j) (validate_each l)

module _ (validate_device : Json → Option DeviceInfo) where
  unfoldable pub get_devices : Action (List DeviceInfo)
  unfolding authenticated exchange require_success subscript dedupe_devices track set_default
  get_devices = do
    c ← authenticated
    body ← exchange (account_request c "/hmsweb/v2/users/devices" null)
    require_success body
    content ← subscript body "data"
    items ← or_raise (items_of (some content)) malformed
    all ← or_raise (validate_each validate_device items) malformed
    let devices = dedupe_devices all
    modify (λ c. set_default (track c devices) devices)
    pure devices

-- `_device_cloud_id` and `_device_target`
unfoldable pub device_cloud_id : Client → String → Action String
unfolding lookup
device_cloud_id c device_id = or_raise (lookup c.device_cloud_ids device_id) runtime

unfoldable pub device_target : Client → String → Action String
unfolding lookup
device_target c device_id = or_raise (lookup c.device_parent_ids device_id) runtime

-- The user id, a text or None, as it is formatted.
abbrev pub user_text : Json → String
user_text (str user) = user
user_text null = "None"
user_text (bool b) = "None"
user_text (int n) = "None"
user_text (Json.float f) = "None"
user_text (array l) = "None"
user_text (object o) = "None"

-- f"{self.user_id}_web"
abbrev pub web_of : Json → String
web_of user_id = user_text user_id +s "_web"

-- The request of a device command, with the device's own xCloudId.
abbrev pub command_request :
    Client → String → String → String → String → String → Json → Json → Request
command_request c path cloud_id target action resource publish properties = record {
  path = path;
  token = c.token;
  cloud_id = cloud_id;
  body = fields (
      ("from", str (web_of c.user_id))
      ∷ ("to", str target)
      ∷ ("action", str action)
      ∷ ("resource", str resource)
      ∷ ("publishResponse", publish)
      ∷ ("properties", properties)
      ∷ []);
}

unfoldable pub request_snapshot : String → Action (Unit {0})
unfolding authenticated device_target device_cloud_id exchange require_success
request_snapshot device_id = do
  c ← authenticated
  target ← device_target c device_id
  cloud_id ← device_cloud_id c device_id
  body ← exchange (
      command_request c "/hmsweb/users/devices/fullFrameSnapshot" cloud_id target "set"
        ("cameras/" +s device_id) (bool true)
        (fields (("activityState", str "fullFrameSnapshot") ∷ [])))
  require_success body

-- Returns body["data"], which pydantic validates.
unfoldable pub start_stream : String → Action Json
unfolding authenticated device_target device_cloud_id exchange require_success subscript
start_stream device_id = do
  c ← authenticated
  cloud_id ← device_cloud_id c device_id
  target ← device_target c device_id
  body ← exchange (
      command_request c "/hmsweb/users/devices/startStream" cloud_id target "set"
        ("cameras/" +s device_id) (bool true)
        (fields (("activityState", str "startUserStream") ∷ ("cameraId", str device_id) ∷ [])))
  require_success body
  subscript body "data"

abbrev pub intensity_field : Option ℕ → List (String × Json)
intensity_field none = []
intensity_field (some n) = ("intensity", int (pos n)) ∷ []

unfoldable pub set_spotlight : String → Bool → Option ℕ → Action (Unit {0})
unfolding authenticated device_target device_cloud_id exchange require_success
set_spotlight device_id on intensity = do
  c ← authenticated
  target ← device_target c device_id
  cloud_id ← device_cloud_id c device_id
  body ← exchange (
      command_request c ("/hmsweb/users/devices/notify/" +s target) cloud_id target "set"
        ("cameras/" +s device_id) (bool true)
        (fields (("spotlight", fields (("enabled", bool on) ∷ intensity_field intensity)) ∷ [])))
  require_success body

unfoldable pub set_privacy : String → Bool → Action (Unit {0})
unfolding authenticated device_target device_cloud_id exchange require_success
set_privacy device_id active = do
  c ← authenticated
  target ← device_target c device_id
  cloud_id ← device_cloud_id c device_id
  body ← exchange (
      command_request c ("/hmsweb/users/devices/notify/" +s target) cloud_id target "set"
        ("cameras/" +s device_id) (bool true) (fields (("privacyActive", bool active) ∷ [])))
  require_success body

abbrev pub siren_fields : Bool → List (String × Json)
siren_fields true =
    ("sirenState", str "on")
    ∷ ("duration", int (pos 180))
    ∷ ("volume", int (pos 8))
    ∷ ("pattern", str "alarm")
    ∷ []
siren_fields false = ("sirenState", str "off") ∷ []

unfoldable pub set_siren : String → Bool → Action (Unit {0})
unfolding authenticated device_target device_cloud_id exchange require_success
set_siren device_id on = do
  c ← authenticated
  target ← device_target c device_id
  cloud_id ← device_cloud_id c device_id
  body ← exchange (
      command_request c ("/hmsweb/users/devices/notify/" +s target) cloud_id target "set"
        ("siren/" +s device_id) (bool true) (fields (siren_fields on)))
  require_success body

-- The two requests to a base station itself.
unfoldable pub register_event_subscription : String → Action (Unit {0})
unfolding authenticated device_cloud_id exchange require_success
register_event_subscription base_id = do
  c ← authenticated
  cloud_id ← device_cloud_id c base_id
  body ← exchange (
      command_request c ("/hmsweb/users/devices/notify/" +s base_id) cloud_id base_id "set"
        ("subscriptions/" +s web_of c.user_id) (bool false)
        (fields (("devices", array (item (str base_id) no_items)) ∷ [])))
  require_success body

unfoldable pub request_device_states : String → Action (Unit {0})
unfolding authenticated device_cloud_id exchange require_success
request_device_states base_id = do
  c ← authenticated
  cloud_id ← device_cloud_id c base_id
  body ← exchange (record {
    path = "/hmsweb/users/devices/notify/" +s base_id;
    token = c.token;
    cloud_id = cloud_id;
    body = fields (
        ("from", str (web_of c.user_id))
        ∷ ("to", str base_id)
        ∷ ("action", str "get")
        ∷ ("resource", str "devices")
        ∷ ("publishResponse", bool true)
        ∷ []);
  })
  require_success body

-- deduped.setdefault(info.location_id, info)
abbrev pub set_default_in :
    List (String × LocationInfo) → LocationInfo → List (String × LocationInfo)
set_default_in deduped info = elim (lookup deduped info.info_id) [
  | none ↦ put deduped info.info_id info
  | some old ↦ deduped
]

unfoldable pub add_locations :
    List (String × LocationInfo) → List LocationInfo → List (String × LocationInfo)
unfolding lookup put
add_locations deduped [] = deduped
add_locations deduped (info ∷ infos) = add_locations (set_default_in deduped info) infos

-- The list under a key of the answer's data; anything else there is skipped.
abbrev pub list_of : Option Json → Items
list_of (some (array l)) = l
list_of none = no_items
list_of (some null) = no_items
list_of (some (bool b)) = no_items
list_of (some (int n)) = no_items
list_of (some (Json.float f)) = no_items
list_of (some (str s)) = no_items
list_of (some (object o)) = no_items

module _ (validate_location : Json → Option LocationInfo) where
  unfoldable pub add_buckets :
      List String
      → Option Entries
      → List (String × LocationInfo)
      → Action (List (String × LocationInfo))
  unfolding get add_locations
  add_buckets [] content deduped = pure deduped
  add_buckets (key ∷ keys) content deduped = do
    infos ← or_raise (validate_each validate_location (list_of (get_in content key))) malformed
    add_buckets keys content (add_locations deduped infos)

  unfoldable pub get_locations : Action (List LocationInfo)
  unfolding authenticated exchange get add_buckets
  get_locations = do
    c ← authenticated
    raise_if (is_null c.user_id) runtime
    body ← exchange (
        account_request c ("/hmsdevicemanagement/users/" +s user_text c.user_id +s "/locations")
          null)
    deduped ←
        add_buckets ("userLocations" ∷ "ownedLocations" ∷ "sharedLocations" ∷ "locations" ∷ [])
          (as_object (get_in (as_object (some body)) "data")) []
    pure (values deduped)
