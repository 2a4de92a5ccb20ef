-- ===== src/Commands/Addressing.antt =====
-- How the commands of eisenberg/client.py are addressed.
use ha_eisenberg.Common.{
  ℕ, ◌≡◌, refl, ap, ◌∙◌, [], ◌∷◌, ◌++◌, Option, none, some, String, Bool, true, false, arith, ◌+s◌,
}
use ha_eisenberg.Dicts.{lookup}
use ha_eisenberg.Json.{Json, bool, str, Entries, get, as_object}
use ha_eisenberg.Http.{
  runtime, Result, ok, err, Request, Client, World, Action, ◌>>=◌, ◌>>◌, exchange, subscript,
  require_success, raise_for_arlo_error, go_on, or_raise,
}
use ha_eisenberg.Login.{is_null, fields}
use ha_eisenberg.Commands.{
  authenticated, command_request, intensity_field, siren_fields, device_target, device_cloud_id,
  request_snapshot, start_stream, set_spotlight, set_privacy, set_siren,
}

-- The commands for a device.
pub data Command : Type 0 where
  snapshot stream : Command
  spotlight : Bool → Option ℕ → Command
  privacy siren : Bool → Command

-- The world after the command.
unfoldable pub run : Command → String → World → World
unfolding request_snapshot start_stream set_spotlight set_privacy set_siren
run snapshot d w = (request_snapshot d w).1
run stream d w = (start_stream d w).1
run (spotlight on intensity) d w = (set_spotlight d on intensity w).1
run (privacy active) d w = (set_privacy d active w).1
run (siren on) d w = (set_siren d on w).1

abbrev pub field_in : Option Entries → String → Option Json
field_in none key = none
field_in (some o) key = get o key

-- The path of a command: its own for a snapshot and a stream, and for the rest the notifications of the
-- gateway that it is addressed to.
abbrev pub path_to : Command → String → String
path_to snapshot target = "/hmsweb/users/devices/fullFrameSnapshot"
path_to stream target = "/hmsweb/users/devices/startStream"
path_to (spotlight on intensity) target = "/hmsweb/users/devices/notify/" +s target
path_to (privacy active) target = "/hmsweb/users/devices/notify/" +s target
path_to (siren on) target = "/hmsweb/users/devices/notify/" +s target

-- The device's resource: only the siren has one of its own.
abbrev pub resource_of : Command → String → String
resource_of snapshot d = "cameras/" +s d
resource_of stream d = "cameras/" +s d
resource_of (spotlight on intensity) d = "cameras/" +s d
resource_of (privacy active) d = "cameras/" +s d
resource_of (siren on) d = "siren/" +s d

-- Sent to the path of the command for `target`, addressed to `target`, for the resource of the device, with
-- `cloud_id` in the headers and the client's token.
abbrev pub IsAddressed : Command → String → String → String → Json → Request → Type 0
IsAddressed command d target cloud_id token r =
    (r.path ≡ path_to command target)
    × (field_in (as_object (some r.body)) "resource" ≡ some (str (resource_of command d)))
    × (r.cloud_id ≡ cloud_id)
    × (r.token ≡ token)
    × (field_in (as_object (some r.body)) "to" ≡ some (str target))

require_success-sent : (body : Json) (w : World) → (require_success body w).1.sent ≡ w.sent
unfolding require_success ◌>>=◌ raise_for_arlo_error
require_success-sent body w = ground arith

sent_or : (r : Result Json) (w : World) → (go_on require_success (r, w)).1.sent ≡ w.sent
sent_or (ok body) w = require_success-sent body w
sent_or (err e) w = refl

-- What a command is made of: the two routes are looked up, the request is sent, and the rest sends nothing.
module _ (d : String) (w : World) (known : is_null w.client.token ≡ false) where
  authenticated-ok : authenticated w ≡ (ok w.client, w)
  unfolding authenticated ◌>>=◌
  authenticated-ok = rw known refl

  device_target-ok :
      (t : String)
      → lookup w.client.device_parent_ids d ≡ some t
      → device_target w.client d w ≡ (ok t, w)
  unfolding device_target or_raise
  device_target-ok t e = ap (λ (o : Option String). or_raise o runtime w) e

  device_cloud_id-ok :
      (x : String)
      → lookup w.client.device_cloud_ids d ≡ some x
      → device_cloud_id w.client d w ≡ (ok x, w)
  unfolding device_cloud_id or_raise
  device_cloud_id-ok x e = ap (λ (o : Option String). or_raise o runtime w) e

  routed :
      {A : Type 0} (t x : String) (f : Client → String → String → Action A)
      → lookup w.client.device_parent_ids d ≡ some t
      → lookup w.client.device_cloud_ids d ≡ some x
      → (authenticated >>= λ c.
            device_target c d >>= λ target. device_cloud_id c d >>= λ cloud_id. f c target cloud_id)
          w
        ≡ f w.client t x w
  unfolding ◌>>=◌
  routed t x f et ex =
      ap
        (go_on (λ c.
          device_target c d >>= λ target. device_cloud_id c d >>= λ cloud_id. f c target cloud_id))
        authenticated-ok
      ∙ ap (go_on (λ target. device_cloud_id w.client d >>= λ cloud_id. f w.client target cloud_id))
          (device_target-ok t et)
      ∙ ap (go_on (λ cloud_id. f w.client t cloud_id)) (device_cloud_id-ok x ex)

  routed_swapped :
      {A : Type 0} (t x : String) (f : Client → String → String → Action A)
      → lookup w.client.device_parent_ids d ≡ some t
      → lookup w.client.device_cloud_ids d ≡ some x
      → (authenticated >>= λ c.
            device_cloud_id c d >>= λ cloud_id. device_target c d >>= λ target. f c target cloud_id)
          w
        ≡ f w.client t x w
  unfolding ◌>>=◌
  routed_swapped t x f et ex =
      ap
        (go_on (λ c.
          device_cloud_id c d >>= λ cloud_id. device_target c d >>= λ target. f c target cloud_id))
        authenticated-ok
      ∙ ap (go_on (λ cloud_id. device_target w.client d >>= λ target. f w.client target cloud_id))
          (device_cloud_id-ok x ex)
      ∙ ap (go_on (λ target. f w.client target x)) (device_target-ok t et)

-- The end of a command: the request goes out, and nothing after it.
sent_once :
    (r : Request) (w : World) → ((exchange r >>= require_success) w).1.sent ≡ w.sent ++ (r ∷ [])
unfolding ◌>>=◌ exchange
sent_once r w = sent_or _ _

-- The request that a command sends, for the routes of its device.
abbrev request_of : Command → Client → String → String → String → Request
request_of snapshot c d target cloud_id =
    command_request c "/hmsweb/users/devices/fullFrameSnapshot" cloud_id target "set"
      ("cameras/" +s d) (bool true) (fields (("activityState", str "fullFrameSnapshot") ∷ []))
request_of stream c d target cloud_id =
    command_request c "/hmsweb/users/devices/startStream" cloud_id target "set" ("cameras/" +s d)
      (bool true) (fields (("activityState", str "startUserStream") ∷ ("cameraId", str d) ∷ []))
request_of (spotlight on intensity) c d target cloud_id =
    command_request c ("/hmsweb/users/devices/notify/" +s target) cloud_id target "set"
      ("cameras/" +s d) (bool true)
      (fields (("spotlight", fields (("enabled", bool on) ∷ intensity_field intensity)) ∷ []))
request_of (privacy active) c d target cloud_id =
    command_request c ("/hmsweb/users/devices/notify/" +s target) cloud_id target "set"
      ("cameras/" +s d) (bool true) (fields (("privacyActive", bool active) ∷ []))
request_of (siren on) c d target cloud_id =
    command_request c ("/hmsweb/users/devices/notify/" +s target) cloud_id target "set"
      ("siren/" +s d) (bool true) (fields (siren_fields on))

sent_by :
    (request : Client → String → String → Request) (d : String) (w : World)
    → is_null w.client.token ≡ false
    → (t x : String) → lookup w.client.device_parent_ids d ≡ some t
    → lookup w.client.device_cloud_ids d ≡ some x
    → ((authenticated >>= λ c. device_target c d >>= λ target. device_cloud_id c d >>= λ cloud_id.
          exchange (request c target cloud_id) >>= require_success)
        w).1.sent
      ≡ w.sent ++ (request w.client t x ∷ [])
sent_by request d w known t x et ex =
    ap (λ (r : Result (Unit {0}) × World). r.1.sent)
      (routed d w known t x
        (λ c target cloud_id. exchange (request c target cloud_id) >>= require_success) et ex)
    ∙ sent_once (request w.client t x) w

-- `start_stream` looks the routes up in the other order, and returns the answer's data.
subscript-sent : (body : Json) (key : String) (w : World) → (subscript body key w).1 ≡ w
unfolding subscript or_raise
subscript-sent body key w = ground arith

data_sent :
    (body : Json) (w : World) (r : Result (Unit {0})) (v : World)
    → v.sent ≡ w.sent
    → (go_on (λ _. subscript body "data") (r, v)).1.sent ≡ w.sent
data_sent body w (ok a) v e = ap (λ (u : World). u.sent) (subscript-sent body "data" v) ∙ e
data_sent body w (err _) v e = e

answer_sent :
    (w : World) (r : Result Json)
    → (go_on (λ body. require_success body >> subscript body "data") (r, w)).1.sent ≡ w.sent
unfolding ◌>>=◌
answer_sent w (ok body) =
    data_sent body w (require_success body w).0 (require_success body w).1
      (require_success-sent body w)
answer_sent w (err e) = refl

streamed :
    (r : Request) (w : World)
    → ((exchange r >>= λ body. require_success body >> subscript body "data") w).1.sent
      ≡ w.sent ++ (r ∷ [])
unfolding ◌>>=◌ exchange
streamed r w = answer_sent _ _

stream_sent :
    (request : Client → String → String → Request) (d : String) (w : World)
    → is_null w.client.token ≡ false
    → (t x : String) → lookup w.client.device_parent_ids d ≡ some t
    → lookup w.client.device_cloud_ids d ≡ some x
    → ((authenticated >>= λ c. device_cloud_id c d >>= λ cloud_id. device_target c d >>= λ target.
          exchange (request c target cloud_id) >>= λ body.
          require_success body >> subscript body "data")
        w).1.sent
      ≡ w.sent ++ (request w.client t x ∷ [])
stream_sent request d w known t x et ex =
    let rest = λ (c : Client) (target cloud_id : String).
      (exchange (request c target cloud_id) >>= λ body.
      require_success body >> subscript body "data") in
    ap (λ (r : Result Json × World). r.1.sent) (routed_swapped d w known t x rest et ex)
    ∙ streamed (request w.client t x) w

run-sent :
    (command : Command) (d : String) (w : World)
    → is_null w.client.token ≡ false
    → (t x : String) → lookup w.client.device_parent_ids d ≡ some t
    → lookup w.client.device_cloud_ids d ≡ some x
    → (run command d w).sent ≡ w.sent ++ (request_of command w.client d t x ∷ [])
unfolding run
run-sent snapshot d w known t x et ex = sent_by (λ c. request_of snapshot c d) d w known t x et ex
run-sent stream d w known t x et ex = stream_sent (λ c. request_of stream c d) d w known t x et ex
run-sent (spotlight on intensity) d w known t x et ex =
    sent_by (λ c. request_of (spotlight on intensity) c d) d w known t x et ex
run-sent (privacy active) d w known t x et ex =
    sent_by (λ c. request_of (privacy active) c d) d w known t x et ex
run-sent (siren on) d w known t x et ex =
    sent_by (λ c. request_of (siren on) c d) d w known t x et ex

request_of-IsAddressed :
    (command : Command) (c : Client) (d t x : String)
    → IsAddressed command d t x c.token (request_of command c d t x)
unfolding get
request_of-IsAddressed snapshot c d t x = (refl, refl, refl, refl, refl)
request_of-IsAddressed stream c d t x = (refl, refl, refl, refl, refl)
request_of-IsAddressed (spotlight on intensity) c d t x = (refl, refl, refl, refl, refl)
request_of-IsAddressed (privacy active) c d t x = (refl, refl, refl, refl, refl)
request_of-IsAddressed (siren on) c d t x = (refl, refl, refl, refl, refl)

-- A command for a device with a route sends one request and no more, whatever Arlo answers: it goes to the
-- command's own path or to the notifications of the device's gateway, its `to` field names that gateway, it
-- is for the device's resource, and it has the device's xCloudId and the client's token.
pub run_lem :
    (command : Command) (d : String) (w : World)
    → is_null w.client.token ≡ false
    → (target cloud_id : String) → lookup w.client.device_parent_ids d ≡ some target
    → lookup w.client.device_cloud_ids d ≡ some cloud_id
    → (r : Request) × ((run command d w).sent ≡ w.sent ++ (r ∷ []))
      × IsAddressed command d target cloud_id w.client.token r
run_lem command d w known t x et ex = (
  request_of command w.client d t x,
  run-sent command d w known t x et ex,
  request_of-IsAddressed command w.client d t x,
)
