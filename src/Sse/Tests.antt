-- ===== src/Sse/Tests.antt =====
-- Runs of the event stream's parser, and its theorems with a decoder of ASCII.
use Prim.Native.Char.{Char}
use text.Mathlib.TextLemmas.{nil-append, cons-append}
use ha_eisenberg.Common.{
  ℕ, ◌≡◌, refl, sym, ap, ◌∙◌, [], ◌∷◌, ◌++◌, List, Option, none, some, String, true, false, arith,
  length, get_elem?,
}
use ha_eisenberg.Utf8.{chr, both?, scalar?}
use ha_eisenberg.Json.{Json, object, str, no_entries, entry, get}
use ha_eisenberg.Sse.{
  split_lines, remove_return, partition_colon, remove_space, join_lines, handle_line, handle_lines,
  SseParser, feed, returned, failed, chunk, idle, handle_events, read_chunks, read_session,
  run_from,
}
use ha_eisenberg.Sse.Parser.{IsIncremental, then_feed, feed-append, read_chunks-append}
use ha_eisenberg.Sse.Run.{failures_after, wait_after, run_from_lem}

abbrev char_or : Option Char → Char
char_or none = "?"
char_or (some c) = c

unfoldable ascii : Unit {0} → List ℕ → String × Unit {0}
unfolding chr
ascii d [] = ("", d)
ascii d (b ∷ bytes) = let (text, e) = ascii d bytes in (String.◌∷◌ (char_or (chr b)) text, e)

ascii-IsIncremental : IsIncremental ascii
unfolding ascii
ascii-IsIncremental d [] b =
    ap (λ (t : String). (t, (ascii d b).1)) (sym (nil-append (ascii d b).0))
ascii-IsIncremental d (x ∷ a) b =
    ap (λ (r : String × Unit {0}). (String.◌∷◌ (char_or (chr x)) r.0, r.1))
      (ascii-IsIncremental d a b)
    ∙ ap (λ (t : String). (t, (ascii (ascii d a).1 b).1))
        (sym (cons-append (char_or (chr x)) (ascii d a).0 (ascii (ascii d a).1 b).0))

sse : Unit {0}
unfolding ascii split_lines remove_return partition_colon remove_space join_lines handle_line
    handle_lines feed handle_events read_chunks read_session get run_from failures_after wait_after
    chr both? scalar?
sse = tt

abbrev fresh : SseParser (Unit {0})
fresh = record { decoder = tt; buffer = ""; lines = [] }

split_event : split_lines "data: a\r\n\nx" ≡ ("data: a\r" ∷ "" ∷ [], "x")
unfolding sse
split_event = refl

one_event : handle_lines [] ("data: a\r" ∷ "data:b" ∷ ": note" ∷ "" ∷ "" ∷ []) ≡ ("a\nb" ∷ [], [])
unfolding sse
one_event = refl

-- "data:a\n\n"
abbrev event_bytes : List ℕ
event_bytes = b'd' ∷ b'a' ∷ b't' ∷ b'a' ∷ b':' ∷ b'a' ∷ 10 ∷ 10 ∷ []

fed_event : feed ascii fresh event_bytes ≡ ("a" ∷ [], fresh)
unfolding sse
fed_event = refl

abbrev loads : String → Option Json
loads s = some (object (entry "text" (str s) no_entries))

one_frame :
    read_session loads ascii tt 200 (chunk event_bytes ∷ [])
    ≡ (entry "text" (str "a") no_entries ∷ [], returned true)
unfolding sse
one_frame = refl

feed-append_example :
    feed ascii fresh ((b'd' ∷ []) ++ (b'a' ∷ b't' ∷ []))
    ≡ then_feed ascii (feed ascii fresh (b'd' ∷ [])) (b'a' ∷ b't' ∷ [])
feed-append_example = feed-append ascii fresh (b'd' ∷ []) (b'a' ∷ b't' ∷ []) ascii-IsIncremental

read_chunks-append_example :
    read_chunks loads ascii fresh false (chunk (event_bytes ++ event_bytes) ∷ idle ∷ [])
    ≡ read_chunks loads ascii fresh false (chunk event_bytes ∷ chunk event_bytes ∷ idle ∷ [])
read_chunks-append_example =
    read_chunks-append loads ascii fresh false event_bytes event_bytes (idle ∷ [])
      ascii-IsIncremental

run_from_example :
    (get_elem?
        (run_from (5 ∷ 15 ∷ []) 0 ((failed ∷ failed ∷ []) ++ (failed ∷ [])))
        (length (failed ∷ failed ∷ []))
      ≡ some (wait_after (5 ∷ 15 ∷ []) (failures_after 0 (failed ∷ failed ∷ [])) failed))
    × ((slept : Option ℕ) × (wait_after
            (5 ∷ 15 ∷ [])
            (failures_after 0 (failed ∷ failed ∷ []))
            failed
          ≡ some slept))
run_from_example = run_from_lem (5 ∷ 15 ∷ []) (failed ∷ failed ∷ []) failed [] (omega arith)
