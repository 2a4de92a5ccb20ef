-- ===== src/Camera.antt =====
-- custom_components/eisenberg/camera.py: the source of the live stream, the Stream that is held, and the image
-- of the tile. A Stream is named by a number; times are seconds of the monotonic clock.
pub mod Source
mod Tests
use Prim.Native.Char.{Char, code}
use Prim.Native.String
use ha_eisenberg.Common.{
  ℕ, ◌-◌, ◌==◌, ltb, [], ◌∷◌, List, Option, none, some, String, Bool, true, false, not, ◌&&◌, ◌||◌,
  str_eq, ◌+s◌, if◌then◌else◌,
}
use ha_eisenberg.Dicts.{lookup, put}
use ha_eisenberg.Json.{Json}
use ha_eisenberg.Http.{Error, malformed, World, Action, or_raise, ◌>>=◌}
use ha_eisenberg.Devices.{DeviceState}
use ha_eisenberg.Commands.{start_stream}
use ha_eisenberg.Session.{
  Standing, Outcome, returned, auth_failed, raised, Call, call_with_session_retry,
}

-- EisenbergCamera
pub record Camera : Type 0 where
  pub device_id : String
  pub stream : Option ℕ
  pub is_streaming : Bool
  pub motion_detection_enabled : Bool
  pub last_url : Option (ℕ × String)

-- Who asks: the two context variables, the option, and whether go2rtc is loaded.
pub record Asker : Type 0 where
  pub is_probing : Bool
  pub wants_bare_source : Bool
  pub ffmpeg_stream : Bool
  pub has_go2rtc : Bool

abbrev pub probe_url : String
probe_url = "rtsps://probe.invalid/"

-- `_with_transport`
abbrev pub with_transport : Asker → String → String
with_transport p url =
    if p.wants_bare_source
    then url
    else if p.ffmpeg_stream && p.has_go2rtc
    then "ffmpeg:" +s url
    else url

-- What follows a prefix.
unfoldable pub after_prefix : String → String → Option String
after_prefix s String.[] = some s
after_prefix String.[] (String.◌∷◌ p prefix) = none
after_prefix (String.◌∷◌ c s) (String.◌∷◌ p prefix) =
    let rest = after_prefix s prefix in if code c == code p then rest else none

abbrev pub replaced : Option String → String → String
replaced none later = later
replaced (some rest) later = "rtsps://" +s rest

-- resp.url.replace("rtsp://", "rtsps://", 1)
unfoldable pub secured : String → String
unfolding after_prefix
secured String.[] = String.[]
secured (String.◌∷◌ c s) =
    let later = String.◌∷◌ c (secured s) in replaced (after_prefix (String.◌∷◌ c s) "rtsp://") later

-- The last URL, while it is younger than STREAM_URL_REUSE_SECONDS.
abbrev pub fresh_url : Option (ℕ × String) → ℕ → Option String
fresh_url none now = none
fresh_url (some (minted, url)) now = if ltb (now - minted) 10 then some url else none

abbrev pub Source : Type 0
Source = (Option String × Camera) × (Standing × World)

-- After the call: a new URL is noted with its time, and any exception gives no source.
unfoldable pub fetched : Camera → Asker → Call String → Source
unfolding secured
fetched c p (returned url, (s, w)) = (
  (some (with_transport p (secured url)), record c { last_url = some (w.clock, secured url) }),
  (s, w),
)
fetched c p (auth_failed, rest) = ((none, c), rest)
fetched c p (raised e, rest) = ((none, c), rest)

module _ (validate_stream : Json → Option String) where
  -- `start_stream` with the validation of its answer.
  unfoldable pub stream_url : String → Action String
  unfolding start_stream
  stream_url id = do content ← start_stream id; or_raise (validate_stream content) malformed

  abbrev pub source_of :
      Camera → Asker → Action (Unit {0}) → Standing → World → Option String → Source
  source_of c p relogin s w (some url) = ((some (with_transport p url), c), (s, w))
  source_of c p relogin s w none =
      fetched c p (call_with_session_retry relogin (stream_url c.device_id) s w)

  unfoldable pub stream_source : Camera → Asker → Action (Unit {0}) → Standing → World → Source
  unfolding fetched stream_url call_with_session_retry
  stream_source c p relogin s w =
      if p.is_probing
      then ((some (with_transport p probe_url), c), (s, w))
      else source_of c p relogin s w (fresh_url c.last_url w.clock)

-- `_stream_session_is_over`
abbrev pub is_old : Option (ℕ × String) → ℕ → Bool
is_old none now = true
is_old (some (minted, url)) now = not (ltb (now - minted) 10)

abbrev pub has_stream : Option ℕ → Bool
has_stream none = false
has_stream (some n) = true

abbrev pub stream_session_is_over : Camera → ℕ → Bool
stream_session_is_over c now =
    if not (has_stream c.stream) || c.is_streaming then false else is_old c.last_url now

-- The first part of `async_create_stream`, and the Stream that it stops.
unfoldable pub drop_finished : Camera → ℕ → Camera × Option ℕ
drop_finished c now =
    if stream_session_is_over c now then (record c { stream = none }, c.stream) else (c, none)

abbrev pub is_active : Option DeviceState → Bool
is_active none = false
is_active (some state) = elim state.activity_state [
  | none ↦ false
  | some a ↦ str_eq a "userStreamActive" || str_eq a "alertStreamActive"
]

abbrev pub is_not_standby : Option String → Bool
is_not_standby none = true
is_not_standby (some mode) = not (str_eq mode "standby")

-- `_handle_coordinator_update`, and the Stream whose last frame is to be kept.
unfoldable pub handle_update : Option DeviceState → Option String → Camera → Camera × Option ℕ
handle_update state mode c = (
  record c { is_streaming = is_active state; motion_detection_enabled = is_not_standby mode },
  if c.is_streaming && not (is_active state) then c.stream else none,
)

abbrev pub is_the_stream : Option ℕ → ℕ → Bool
is_the_stream none n = false
is_the_stream (some m) n = m == n

abbrev pub Images : Type 0
Images = List (String × List ℕ)

abbrev pub keep_frame : Images → String → List ℕ → Images
keep_frame images id [] = images
keep_frame images id (byte ∷ frame) = put images id (byte ∷ frame)

-- The end of `_cache_last_stream_frame` for the Stream that it began with, after its frame has come (none as
-- the empty one): a Stream that has replaced it meanwhile is left.
unfoldable pub cache_last_stream_frame : ℕ → List ℕ → Camera → Images → Camera × Images
unfolding put
cache_last_stream_frame n frame c images = (
  if is_the_stream c.stream n then record c { stream = none; last_url = none } else c,
  keep_frame images c.device_id frame,
)

-- `async_camera_image`: the frame is what the Stream gives when it is asked, the empty one for none; the
-- URLs are those of the thumbnail and of the snapshot, and `fetch` what a download gives.
abbrev pub image_url : Option String → Option String → Option String
image_url none snapshot = snapshot
image_url (some thumbnail) snapshot = if str_eq thumbnail "" then snapshot else some thumbnail

abbrev pub downloaded : (String → Option (List ℕ)) → Option String → Option (List ℕ)
downloaded fetch none = none
downloaded fetch (some url) = if str_eq url "" then none else fetch url

abbrev pub or_downloaded : Option (List ℕ) → Option (List ℕ) → Option (List ℕ)
or_downloaded none other = other
or_downloaded (some image) other = some image

abbrev pub or_cached : Images → String → List ℕ → Option (List ℕ) → Option (List ℕ) × Images
or_cached images id [] other = (or_downloaded (lookup images id) other, images)
or_cached images id (byte ∷ frame) other = (some (byte ∷ frame), put images id (byte ∷ frame))

abbrev pub asked_frame : Camera → List ℕ → List ℕ
asked_frame c frame = if has_stream c.stream && c.is_streaming then frame else []

unfoldable pub async_camera_image :
    Camera
    → List ℕ
    → Images
    → Option String
    → Option String
    → (String → Option (List ℕ))
    → Option (List ℕ) × Images
unfolding lookup put
async_camera_image c frame images thumbnail snapshot fetch =
    or_cached images c.device_id (asked_frame c frame)
      (downloaded fetch (image_url thumbnail snapshot))
