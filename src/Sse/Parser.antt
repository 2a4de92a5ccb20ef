-- ===== src/Sse/Parser.antt =====
-- The parser of eisenberg/sse.py: where the response is cut into chunks does not matter.
use Prim.Native.Char.{Char}
use text.Mathlib.TextLemmas.{cons-append, append_assoc as text_append_assoc}
use ha_eisenberg.Common.{
  ℕ, ◌≡◌, refl, sym, ap, ◌∙◌, [], ◌∷◌, ◌++◌, List, Option, String, Bool, true, false, ◌+s◌,
  append_assoc, Bool-cases, inl, inr,
}
use ha_eisenberg.Json.{Json, as_object}
use ha_eisenberg.Sse.{
  is_newline, grow_line, split_lines, handle_line, handle_lines, SseParser, feed, Session, Incoming,
  chunk, handle_frame, handle_events, has_events, read_chunks,
}

-- What is left of the first text goes in front of the second.
abbrev then_lines : List String × String → String → List String × String
then_lines (lines, rest) text =
    let (more, final) = split_lines (rest +s text) in (lines ++ more, final)

split_lines-nil : (b : String) → split_lines ("" +s b) ≡ then_lines (split_lines "") b
unfolding split_lines
split_lines-nil b = refl

abbrev new_line : List String × String → List String × String
new_line (lines, rest) = ("" ∷ lines, rest)

split_lines-new_line :
    (c : Char) (s : String)
    → is_newline c ≡ true
    → split_lines (String.◌∷◌ c s) ≡ new_line (split_lines s)
unfolding split_lines
split_lines-new_line c s e = rw e refl

split_lines-grow_line :
    (c : Char) (s : String)
    → is_newline c ≡ false
    → split_lines (String.◌∷◌ c s) ≡ grow_line c (split_lines s)
unfolding split_lines
split_lines-grow_line c s e = rw e refl

then_lines-grow_line :
    (c : Char) (before : List String × String) (text : String)
    → is_newline c ≡ false
    → then_lines (grow_line c before) text ≡ grow_line c (then_lines before text)
then_lines-grow_line c ([], rest) text e =
    ap split_lines (cons-append c rest text) ∙ split_lines-grow_line c (rest +s text) e
then_lines-grow_line c (line ∷ lines, rest) text e = refl

split_lines-append : (a b : String) → split_lines (a +s b) ≡ then_lines (split_lines a) b
split_lines-append String.[] b = split_lines-nil b
split_lines-append (String.◌∷◌ c a) b = elim (Bool-cases (is_newline c)) [
  | inl newline ↦
      ap split_lines (cons-append c a b)
      ∙ split_lines-new_line c (a +s b) newline
      ∙ ap new_line (split_lines-append a b)
      ∙ sym (ap (λ before. then_lines before b) (split_lines-new_line c a newline))
  | inr other ↦
      ap split_lines (cons-append c a b)
      ∙ split_lines-grow_line c (a +s b) other
      ∙ ap (grow_line c) (split_lines-append a b)
      ∙ sym (then_lines-grow_line c (split_lines a) b other)
      ∙ sym (ap (λ before. then_lines before b) (split_lines-grow_line c a other))
]

abbrev then_events : List String × List String → List String → List String × List String
then_events (events, lines) raws =
    let (more, final) = handle_lines lines raws in (events ++ more, final)

handle_lines-append :
    (lines raws more : List String)
    → handle_lines lines (raws ++ more) ≡ then_events (handle_lines lines raws) more
unfolding handle_lines
handle_lines-append lines [] more = refl
handle_lines-append lines (raw ∷ raws) more =
    let (event, after) = handle_line lines raw in
    ap (λ (p : List String × List String). (event ++ p.0, p.1))
      (handle_lines-append after raws more)
    ∙ ap (λ (l : List String). (l, (handle_lines (handle_lines after raws).1 more).1))
        (sym (
          append_assoc event (handle_lines after raws).0
            (handle_lines (handle_lines after raws).1 more).0))

abbrev completed : {D : Type 0} → D → String → List String × List String → List String × SseParser D
completed decoder rest (events, lines) =
    (events, record { decoder = decoder; buffer = rest; lines = lines })

abbrev fed : {D : Type 0} → List String → D → List String × String → List String × SseParser D
fed lines decoder (raws, rest) = completed decoder rest (handle_lines lines raws)

module _ {D : Type 0} (decode : D → List ℕ → String × D) where
  -- The decoder keeps the bytes of a character that is cut, as incremental decoders of `codecs` do.
  abbrev pub IsIncremental : Type 0
  IsIncremental =
      (d : D) (a b : List ℕ)
      → decode d (a ++ b)
        ≡ ((decode d a).0 +s (decode (decode d a).1 b).0, (decode (decode d a).1 b).1)

  abbrev pub then_feed : List String × SseParser D → List ℕ → List String × SseParser D
  then_feed (events, p) bytes = let (more, final) = feed decode p bytes in (events ++ more, final)

  -- Feeding bytes at once or in two parts completes the same events and leaves the same parser, when the
  -- decoder is incremental.
  pub feed-append :
      (p : SseParser D) (a b : List ℕ)
      → IsIncremental
      → feed decode p (a ++ b) ≡ then_feed (feed decode p a) b
  unfolding feed
  feed-append p a b h =
      let ta = (decode p.decoder a).0 in
      let (tb, decoder) = decode (decode p.decoder a).1 b in
      let (first, rest) = split_lines (p.buffer +s ta) in
      let (second, final) = split_lines (rest +s tb) in
      ap (λ (r : String × D). fed p.lines r.1 (split_lines (p.buffer +s r.0))) (h p.decoder a b)
      ∙ ap (λ (t : String). fed p.lines decoder (split_lines t))
          (sym (text_append_assoc p.buffer ta tb))
      ∙ ap (fed p.lines decoder) (split_lines-append (p.buffer +s ta) tb)
      ∙ ap (completed decoder final) (handle_lines-append p.lines first second)

handle_events-append :
    (loads : String → Option Json) (events more : List String) (later : Session)
    → handle_events loads (events ++ more) later
      ≡ handle_events loads events (handle_events loads more later)
unfolding handle_events
handle_events-append loads [] more later = refl
handle_events-append loads (event ∷ events) more later =
    ap (handle_frame loads (as_object (loads event))) (handle_events-append loads events more later)

has_events-append :
    (events more : List String) (delivered : Bool)
    → has_events (events ++ more) delivered ≡ has_events more (has_events events delivered)
has_events-append [] more delivered = refl
has_events-append (event ∷ events) [] delivered = refl
has_events-append (event ∷ events) (next ∷ more) delivered = refl

-- A session hands on the same frames and ends in the same way wherever the response is cut into chunks,
-- whatever comes after, when the decoder is incremental.
pub read_chunks-append :
    (loads : String → Option Json) {D : Type 0} (decode : D → List ℕ → String × D) (p : SseParser D)
    (delivered : Bool) (a b : List ℕ) (rest : List Incoming)
    → IsIncremental decode
    → read_chunks loads decode p delivered (chunk (a ++ b) ∷ rest)
      ≡ read_chunks loads decode p delivered (chunk a ∷ chunk b ∷ rest)
unfolding read_chunks
read_chunks-append loads {D} decode p delivered a b rest h =
    let (first, middle) = feed decode p a in
    let (second, final) = feed decode middle b in
    ap
      (λ (r : List String × SseParser D).
        handle_events loads r.0 (read_chunks loads decode r.1 (has_events r.0 delivered) rest))
      (feed-append decode p a b h)
    ∙ handle_events-append loads first second _
    ∙ ap
        (λ (d : Bool).
          handle_events loads first
            (handle_events loads second (read_chunks loads decode final d rest)))
        (has_events-append first second delivered)
