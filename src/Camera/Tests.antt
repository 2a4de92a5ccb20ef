-- ===== src/Camera/Tests.antt =====
-- Live views, and the theorem for a source that was given a moment ago.
use ha_eisenberg.Common.{◌≡◌, refl, [], ◌∷◌, Option, none, some, String, true, false, arith}
use ha_eisenberg.Dicts.{lookup}
use ha_eisenberg.Json.{Json, null, bool, str, get}
use ha_eisenberg.Http.{
  json, Client, World, Action, raise, authentication, ◌>>=◌, exchange, require_success,
  raise_for_arlo_error, subscript,
}
use ha_eisenberg.Login.{fields}
use ha_eisenberg.Commands.{authenticated, device_target, device_cloud_id, start_stream}
use ha_eisenberg.Session.{Standing, call_with_session_retry}
use ha_eisenberg.Camera.{
  Camera, Asker, secured, fetched, stream_url, stream_source, drop_finished,
  cache_last_stream_frame, async_camera_image,
}
use ha_eisenberg.Camera.Source.{stream_source-again}

abbrev signed_in : Client
signed_in = record {
  token = str "T";
  user_id = str "U";
  mqtt_url = null;
  x_cloud_id = none;
  device_cloud_ids = ("C", "X") ∷ [];
  device_parent_ids = ("C", "B") ∷ [];
  token_issued_at = 0;
}

abbrev before : World
before = record {
  client = signed_in;
  clock = 50;
  replies = json (fields (("success", bool true) ∷ ("data", null) ∷ [])) ∷ [];
  sent = [];
}

abbrev refused_login : Action (Unit {0})
refused_login = raise authentication

abbrev alive : Standing
alive = record { is_dead = false; reauths = 0 }

abbrev idle : Camera
idle = record {
  device_id = "C";
  stream = none;
  is_streaming = false;
  motion_detection_enabled = true;
  last_url = none;
}

abbrev viewer : Asker
viewer = record {
  is_probing = false;
  wants_bare_source = false;
  ffmpeg_stream = true;
  has_go2rtc = true;
}

abbrev as_url : Json → Option String
as_url j = some "rtsp://a"

abbrev viewed : Camera
viewed = record idle { last_url = some (50, "rtsps://a") }

rewritten : secured "rtsp://a" ≡ "rtsps://a"
unfolding secured
rewritten = refl

first_view : stream_source as_url idle viewer refused_login alive before ≡ (
  (some "ffmpeg:rtsps://a", viewed),
  (stream_source as_url idle viewer refused_login alive before).1,
)
unfolding stream_source fetched secured stream_url start_stream call_with_session_retry
    authenticated device_target device_cloud_id exchange require_success raise_for_arlo_error
    subscript lookup get ◌>>=◌
first_view = refl

-- The Stream of a finished session is stopped, one of the session that is being opened is not.
stopped : drop_finished (record viewed { stream = some 1 }) 60 ≡ (viewed, some 1)
unfolding drop_finished
stopped = refl

opening :
    drop_finished (record viewed { stream = some 1 }) 59 ≡ (record viewed { stream = some 1 }, none)
unfolding drop_finished
opening = refl

replaced_meanwhile :
    (cache_last_stream_frame 1 (7 ∷ []) (record viewed { stream = some 2 }) []).0
    ≡ record viewed { stream = some 2 }
unfolding cache_last_stream_frame
replaced_meanwhile = refl

-- A Stream that is not running is not asked.
cached_image :
    (async_camera_image
      (record idle { stream = some 1 })
      (7 ∷ [])
      (("C", 8 ∷ []) ∷ [])
      none
      none
      (λ url. none)).0
    ≡ some (8 ∷ [])
unfolding async_camera_image lookup
cached_image = refl

stream_source-again_example :
    stream_source as_url viewed viewer refused_login alive before
    ≡ ((some "ffmpeg:rtsps://a", viewed), (alive, before))
stream_source-again_example =
    stream_source-again as_url idle viewed viewer refused_login alive before "ffmpeg:rtsps://a"
      (stream_source as_url idle viewer refused_login alive before).1 first_view alive before 50
      "rtsps://a" refl (omega arith)
