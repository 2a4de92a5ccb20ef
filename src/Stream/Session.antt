-- ===== src/Stream/Session.antt =====
-- A whole session: the handshake and then the listen loop.
use ha_eisenberg.Common.{
  ℕ, zero, suc, ◌≡◌, ◌≢◌, ◌<◌, ◌++◌, [], ◌∷◌, List, Option, String, none, some, Bool, true, false,
  refl, ap, ◌∙◌, inl, inr, Bool-cases, Option-cases, All, arith, ◌==◌, length,
}
use ha_eisenberg.Codec.{split_packets, parse_packet_type, parse_suback, parse_connack}
use ha_eisenberg.Codec.Take.{take_packet-lossless}
use ha_eisenberg.Codec.Split.{split_packets-takes}
use ha_eisenberg.Topics.{SubscribeOutcome, topic_results}
use ha_eisenberg.Stream.{
  WsMessage, Reading, got, lost, waiting, read_packet, is_dispatched, Subscribed, acknowledged,
  failed, pending, race_ahead, is_suback, await_round, await_suback, listen_loop, connected,
  subscribed, after_connack, connect_round, connect,
}
use ha_eisenberg.Stream.Frames.{received, read_packet_lem, until_malformed, dispatched-listen_loop}

race_ahead_inv :
    (packet : List ℕ) (o : Option Subscribed) (ahead : List (List ℕ)) (suback codes left : List ℕ)
    (later : List WsMessage)
    → race_ahead packet o ≡ some (acknowledged ahead suback codes left later)
    → (ahead' : List (List ℕ)) × (ahead ≡ packet ∷ ahead')
      × (o ≡ some (acknowledged ahead' suback codes left later))
race_ahead_inv packet none ahead suback codes left later e = cc
race_ahead_inv packet (some (acknowledged ahead' s c l m)) ahead suback codes left later e =
    (ahead', cc, cc)
race_ahead_inv packet (some (failed a)) ahead suback codes left later e = cc
race_ahead_inv packet (some (pending a l)) ahead suback codes left later e = cc

-- The packets of the bytes that are in the buffer and still to come.
abbrev pub stream_packets : List ℕ → List WsMessage → List (List ℕ)
stream_packets buffer messages = (split_packets (buffer ++ received messages)).0

read_packet_first :
    (buffer : List ℕ) (messages : List WsMessage) (packet left : List ℕ) (later : List WsMessage)
    → read_packet buffer messages ≡ got packet left later
    → stream_packets buffer messages ≡ packet ∷ stream_packets left later
read_packet_first buffer messages packet left later e =
    ap (λ r. r.0)
      (split_packets-takes (buffer ++ received messages) packet (left ++ received later)
        (read_packet_lem buffer messages packet left later e))

-- A SUBACK by the MQTT specification: the type of its first byte is 9.
abbrev pub IsSuback : List ℕ → Type 0
IsSuback packet = parse_packet_type packet ≡ some 9

abbrev pub IsOther : List ℕ → Type 0
IsOther packet = parse_packet_type packet ≢ some 9

is_suback_lem : (packet : List ℕ) → is_suback packet ≡ true → IsSuback packet
is_suback_lem packet e = elim (Option-cases (parse_packet_type packet)) [
  | inl missing ↦ cc (rw (missing, is_suback) at e)
  | inr (kind, found) ↦
      let same : (kind == 9) ≡ true = rw (found, is_suback) at e in
      let nine : kind ≡ 9 = ground arith in found ∙ ap some nine
]

is_other_lem : (packet : List ℕ) → is_suback packet ≡ false → IsOther packet
is_other_lem packet e h = cc (rw (h, is_suback) at e)

module _ (suback codes left : List ℕ) (later : List WsMessage) where
  abbrev Acknowledges : (List ℕ → List WsMessage → Option Subscribed) → Type 0
  Acknowledges further =
      (buffer : List ℕ) (messages : List WsMessage) (ahead : List (List ℕ))
      → further buffer messages ≡ some (acknowledged ahead suback codes left later)
      → (stream_packets buffer messages ≡ ahead ++ (suback ∷ stream_packets left later))
        × (codes ≡ parse_suback suback)
        × IsSuback suback
        × All IsOther ahead

  round-Acknowledges :
      (further : List ℕ → List WsMessage → Option Subscribed)
      → Acknowledges further
      → (buffer : List ℕ) (messages : List WsMessage) (ahead : List (List ℕ)) (r : Reading)
      → read_packet buffer messages ≡ r
      → await_round further r ≡ some (acknowledged ahead suback codes left later)
      → (stream_packets buffer messages ≡ ahead ++ (suback ∷ stream_packets left later))
        × (codes ≡ parse_suback suback)
        × IsSuback suback
        × All IsOther ahead
  round-Acknowledges further ih buffer messages ahead lost e h = cc
  round-Acknowledges further ih buffer messages ahead (waiting l) e h = cc
  round-Acknowledges further ih buffer messages ahead (got packet l m) e h =
      elim (Bool-cases (is_suback packet)) [
        | inl found ↦
            let same : some (acknowledged [] packet (parse_suback packet) l m)
                ≡ some (acknowledged ahead suback codes left later) =
              rw found at h in
            let none_ahead : ahead ≡ [] = cc in
            let is_this : packet ≡ suback = cc in
            let same_left : l ≡ left = cc in
            let same_later : m ≡ later = cc in
            let same_codes : codes ≡ parse_suback packet = cc in
            (
              rw (none_ahead, ← is_this, ← same_left, ← same_later)
                  (read_packet_first buffer messages packet l m e),
              rw (← is_this) same_codes,
              rw (← is_this) (is_suback_lem packet found),
              rw none_ahead tt,
            )
        | inr other ↦ elim (Bool-cases (is_dispatched packet)) [
          | inl fine ↦
              let (ahead', same, further_on) =
                race_ahead_inv packet (further l m) ahead suback codes left later
                  (rw (other, fine) at h) in
              let (rest, coded, kind, others) = ih l m ahead' further_on in
              (
                rw same
                    (read_packet_first buffer messages packet l m e ∙ ap (λ ps. packet ∷ ps) rest),
                coded,
                kind,
                rw same (is_other_lem packet other, others),
              )
          | inr bad ↦ cc (rw (other, bad) at h)
        ]
      ]

  await_suback_lem : (fuel : ℕ) → Acknowledges (await_suback fuel)
  unfolding await_suback
  await_suback_lem zero buffer messages ahead e = cc
  await_suback_lem (suc fuel) buffer messages ahead e =
      round-Acknowledges (await_suback fuel) (await_suback_lem fuel) buffer messages ahead
        (read_packet buffer messages) refl e

race_ahead-ne-none :
    (packet : List ℕ) (o : Option Subscribed) → o ≢ none → race_ahead packet o ≢ none
race_ahead-ne-none packet none h e = h e
race_ahead-ne-none packet (some (acknowledged a s c l m)) h e = cc
race_ahead-ne-none packet (some (failed a)) h e = cc
race_ahead-ne-none packet (some (pending a l)) h e = cc

round-ne-none :
    (fuel : ℕ) (buffer : List ℕ) (messages : List WsMessage) (r : Reading)
    → ((b : List ℕ) (m : List WsMessage)
        → length (b ++ received m) < fuel
        → await_suback fuel b m ≢ none)
    → length (buffer ++ received messages) < suc fuel
    → read_packet buffer messages ≡ r
    → await_round (await_suback fuel) r ≢ none
round-ne-none fuel buffer messages lost ih h e f = cc
round-ne-none fuel buffer messages (waiting l) ih h e f = cc
round-ne-none fuel buffer messages (got packet l m) ih h e f =
    let shorter =
      (take_packet-lossless (buffer ++ received messages) packet (l ++ received m)
        (read_packet_lem buffer messages packet l m e)).1 in
    let rest = race_ahead-ne-none packet (await_suback fuel l m) (ih l m (omega arith)) in
    elim (Bool-cases (is_suback packet)) [
      | inl found ↦ cc (rw found at f)
      | inr other ↦ elim (Bool-cases (is_dispatched packet)) [
        | inl fine ↦ rest (rw (other, fine) at f)
        | inr bad ↦ cc (rw (other, bad) at f)
      ]
    ]

-- With more fuel than bytes the loop for the SUBACK ends.
pub await_suback-ne-none :
    (fuel : ℕ) (buffer : List ℕ) (messages : List WsMessage)
    → length (buffer ++ received messages) < fuel
    → await_suback fuel buffer messages ≢ none
unfolding await_suback
await_suback-ne-none zero buffer messages h = absurd (omega arith)
await_suback-ne-none (suc fuel) buffer messages h =
    round-ne-none fuel buffer messages (read_packet buffer messages) (await_suback-ne-none fuel) h
      refl

subscribed_inv :
    (topics : List String) (o : Option Subscribed) (ahead : List (List ℕ))
    (outcome : SubscribeOutcome) (left : List ℕ) (later : List WsMessage)
    → subscribed topics o ≡ connected ahead outcome left later
    → (suback : List ℕ) × (codes : List ℕ) × (o ≡ some (acknowledged ahead suback codes left later))
      × (outcome ≡ record { results = topic_results topics codes })
unfolding subscribed
subscribed_inv topics none ahead outcome left later e = cc
subscribed_inv topics (some (acknowledged a s c l m)) ahead outcome left later e = (s, c, cc, cc)
subscribed_inv topics (some (failed a)) ahead outcome left later e = cc
subscribed_inv topics (some (pending a l)) ahead outcome left later e = cc

-- A session that was set up: the first packet is the CONNACK with code 0, and the first SUBACK behind it
-- has the codes of the outcome.
pub record IsSession (topics : List String) (messages : List WsMessage) (outcome : SubscribeOutcome)
    (dispatched : List (List ℕ)) : Type 0 where
  pub connack : List ℕ
  pub ahead : List (List ℕ)
  pub suback : List ℕ
  pub after : List (List ℕ)
  pub stream : (split_packets (received messages)).0 ≡ connack ∷ (ahead ++ (suback ∷ after))
  pub is_ack : IsSuback suback
  pub none_before : All IsOther ahead
  pub accepted : parse_connack connack ≡ some 0
  pub verdict : outcome ≡ record { results = topic_results topics (parse_suback suback) }
  pub handled : dispatched ≡ ahead ++ until_malformed after

after_connack_inv :
    (fuel : ℕ) (topics : List String) (code : Option ℕ) (l : List ℕ) (m : List WsMessage)
    (ahead : List (List ℕ)) (outcome : SubscribeOutcome) (left : List ℕ) (later : List WsMessage)
    → after_connack fuel topics code l m ≡ connected ahead outcome left later
    → (code ≡ some 0)
      × (subscribed topics (await_suback fuel l m) ≡ connected ahead outcome left later)
unfolding after_connack
after_connack_inv fuel topics none l m ahead outcome left later e = cc
after_connack_inv fuel topics (some rc) l m ahead outcome left later e =
    elim (Bool-cases (rc == 0)) [
      | inl zero_code ↦ let is_zero : rc ≡ 0 = ground arith in (ap some is_zero, rw zero_code at e)
      | inr other ↦ cc (rw other at e)
    ]

connect_cases :
    (fuel : ℕ) (topics : List String) (messages : List WsMessage) (r : Reading)
    (ahead : List (List ℕ)) (outcome : SubscribeOutcome) (left : List ℕ) (later : List WsMessage)
    (idle : Bool)
    → read_packet [] messages ≡ r
    → connect_round fuel topics r ≡ connected ahead outcome left later
    → IsSession topics messages outcome (ahead ++ (listen_loop idle left later).dispatched)
unfolding connect_round
connect_cases fuel topics messages lost ahead outcome left later idle e h = cc
connect_cases fuel topics messages (waiting l) ahead outcome left later idle e h = cc
connect_cases fuel topics messages (got connack l m) ahead outcome left later idle e h =
    let (accepted, h') =
      after_connack_inv fuel topics (parse_connack connack) l m ahead outcome left later h in
    let (suback, codes, awaited, verdict) =
      subscribed_inv topics (await_suback fuel l m) ahead outcome left later h' in
    let (rest, coded, kind, others) =
      await_suback_lem suback codes left later fuel l m ahead awaited in
    record {
      connack = connack;
      ahead = ahead;
      suback = suback;
      after = stream_packets left later;
      stream = read_packet_first [] messages connack l m e ∙ ap (λ ps. connack ∷ ps) rest;
      is_ack = kind;
      none_before = others;
      accepted = accepted;
      verdict = rw (← coded) verdict;
      handled = ap (λ ps. ahead ++ ps) (dispatched-listen_loop idle left later);
    }

-- A connection that was set up has dispatched, when the listen loop stands still, all the packets that
-- the broker sent but the CONNACK and the first SUBACK (by its packet type): those that raced ahead of the SUBACK, those that
-- came in the same message behind it, and the later ones, up to the first malformed one. The CONNACK
-- had the code 0, and the outcome pairs the filters with the codes of the SUBACK.
pub connect-IsSession :
    (fuel : ℕ) (topics : List String) (messages : List WsMessage) (ahead : List (List ℕ))
    (outcome : SubscribeOutcome) (left : List ℕ) (later : List WsMessage) (idle : Bool)
    → connect fuel topics messages ≡ connected ahead outcome left later
    → IsSession topics messages outcome (ahead ++ (listen_loop idle left later).dispatched)
unfolding connect
connect-IsSession fuel topics messages ahead outcome left later idle h =
    connect_cases fuel topics messages (read_packet [] messages) ahead outcome left later idle refl
      h
