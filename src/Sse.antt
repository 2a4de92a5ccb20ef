-- ===== src/Sse.antt =====
-- eisenberg/sse.py: the parser of the event stream, one session and the reconnect loop.
pub mod Parser
pub mod Run
mod Tests
use Prim.Native.Char.{Char, code}
use Prim.Native.String
use mathlib.Core.Option
use ha_eisenberg.Common.{
  ℕ, zero, suc, ◌+◌, ◌-◌, min, ◌==◌, [], ◌∷◌, ◌++◌, List, Option, none, some, String, Bool, true,
  false, str_eq, ◌+s◌, if◌then◌else◌, length, get_elem?,
}
use ha_eisenberg.Json.{Json, Entries, get, as_str, is_str, as_object}

abbrev pub is_newline : Char → Bool
is_newline c = code c == 10

abbrev pub grow_line : Char → List String × String → List String × String
grow_line c ([], rest) = ([], String.◌∷◌ c rest)
grow_line c (line ∷ lines, rest) = (String.◌∷◌ c line ∷ lines, rest)

-- `partition("\n")` until there is no separator left: the lines, and the buffer that stays.
unfoldable pub split_lines : String → List String × String
split_lines String.[] = ([], "")
split_lines (String.◌∷◌ c s) =
    let (lines, rest) = split_lines s in
    if is_newline c then ("" ∷ lines, rest) else grow_line c (lines, rest)

-- line.removesuffix("\r")
unfoldable pub remove_return : String → String
remove_return String.[] = ""
remove_return (String.◌∷◌ c s) =
    let line = String.◌∷◌ c (remove_return s) in
    if code c == 13 then (if str_eq s "" then "" else line) else line

-- The field and the value of line.partition(":")
unfoldable pub partition_colon : String → String × String
partition_colon String.[] = ("", "")
partition_colon (String.◌∷◌ c s) =
    let (field, value) = partition_colon s in
    if code c == b':' then ("", s) else (String.◌∷◌ c field, value)

-- value.removeprefix(" ")
unfoldable pub remove_space : String → String
remove_space String.[] = ""
remove_space (String.◌∷◌ c s) = if code c == b' ' then s else String.◌∷◌ c s

-- "\n".join(data)
unfoldable pub join_lines : List String → String
join_lines [] = ""
join_lines (line ∷ []) = line
join_lines (line ∷ next ∷ lines) = line +s ("\n" +s join_lines (next ∷ lines))

-- An empty line ends an event, unless it has no data.
abbrev pub end_event : List String → List String × List String
end_event [] = ([], [])
end_event (line ∷ lines) = (join_lines (line ∷ lines) ∷ [], [])

abbrev pub add_field : List String → String × String → List String
add_field lines (field, value) =
    if str_eq field "data" then lines ++ (remove_space value ∷ []) else lines

-- One round of the loop on a line without its newline: the event that it completed, and the data after.
unfoldable pub handle_line : List String → String → List String × List String
unfolding remove_return partition_colon
handle_line lines raw =
    let line = remove_return raw in
    if str_eq line "" then end_event lines else ([], add_field lines (partition_colon line))

unfoldable pub handle_lines : List String → List String → List String × List String
unfolding handle_line
handle_lines lines [] = ([], lines)
handle_lines lines (raw ∷ raws) =
    let (event, after) = handle_line lines raw in
    let (events, final) = handle_lines after raws in (event ++ events, final)

-- SSEParser, over any state of the incremental decoder.
pub record SseParser (D : Type 0) : Type 0 where
  pub decoder : D
  pub buffer : String
  pub lines : List String

-- What a read of the response gives: bytes, nothing for `read_timeout`, or an exception. The end of the
-- list is the end of the response.
pub data Incoming : Type 0 where
  chunk : List ℕ → Incoming
  idle broken : Incoming

-- How a session ended: with what it returned, or by an exception.
pub data Ended : Type 0 where
  returned : Bool → Ended
  failed : Ended

abbrev pub Session : Type 0
Session = List Entries × Ended

abbrev pub handled_first : Entries → Session → Session
handled_first frame (frames, ended) = (frame ∷ frames, ended)

module _ {D : Type 0} (decode : D → List ℕ → String × D) where
  unfoldable pub feed : SseParser D → List ℕ → List String × SseParser D
  unfolding split_lines handle_lines
  feed p bytes =
      let (text, decoder) = decode p.decoder bytes in
      let (raws, rest) = split_lines (p.buffer +s text) in
      let (events, after) = handle_lines p.lines raws in
      (events, record { decoder = decoder; buffer = rest; lines = after })

-- Whether the session has delivered a frame.
abbrev pub has_events : List String → Bool → Bool
has_events [] delivered = delivered
has_events (event ∷ events) delivered = true

module _ (loads : String → Option Json) where
  -- One frame: `later` is the rest of the session. Only an object that is neither the greeting nor the
  -- logout reaches `on_event`, whose exceptions are logged.
  abbrev pub handle_frame : Option Entries → Session → Session
  handle_frame none later = later
  handle_frame (some frame) later =
      if is_str (as_str (get frame "status")) "connected"
      then later
      else if is_str (as_str (get frame "action")) "logout"
      then ([], returned true)
      else handled_first frame later

  -- The loop over the events of a chunk.
  unfoldable pub handle_events : List String → Session → Session
  handle_events [] later = later
  handle_events (event ∷ events) later =
      handle_frame (as_object (loads event)) (handle_events events later)

  module _ {D : Type 0} (decode : D → List ℕ → String × D) where
    unfoldable pub read_chunks : SseParser D → Bool → List Incoming → Session
    unfolding handle_events feed
    read_chunks p delivered [] = ([], returned delivered)
    read_chunks p delivered (idle ∷ rest) = ([], returned true)
    read_chunks p delivered (broken ∷ rest) = ([], failed)
    read_chunks p delivered (chunk bytes ∷ rest) =
        let (events, after) = feed decode p bytes in
        handle_events events (read_chunks after (has_events events delivered) rest)

    -- `_read_session`, from the response on.
    unfoldable pub read_session : D → ℕ → List Incoming → Session
    unfolding read_chunks
    read_session fresh status incoming =
        if status == 200
        then read_chunks (record { decoder = fresh; buffer = ""; lines = [] }) false incoming
        else ([], failed)

-- self._backoff[min(failures, len(self._backoff) - 1)]
abbrev pub delay_after : List ℕ → ℕ → Option ℕ
delay_after backoff failures = get_elem? backoff (min failures (length backoff - 1))

-- `_run`: what is slept after each session, `some none` for none; `none` is the IndexError of an empty
-- backoff, which the constructor refuses.
unfoldable pub run_from : List ℕ → ℕ → List Ended → List (Option (Option ℕ))
run_from backoff failures [] = []
run_from backoff failures (returned true ∷ sessions) = some none ∷ run_from backoff 0 sessions
run_from backoff failures (returned false ∷ sessions) =
    Option.map some (delay_after backoff failures) ∷ run_from backoff (failures + 1) sessions
run_from backoff failures (failed ∷ sessions) =
    Option.map some (delay_after backoff failures) ∷ run_from backoff (failures + 1) sessions
