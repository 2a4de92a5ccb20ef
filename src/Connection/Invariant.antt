-- ===== src/Connection/Invariant.antt =====
-- At most one stream listens, and it is the one that is held.
use mathlib.Core.Path.{subst}
use ha_eisenberg.Common.{
  ℕ, zero, suc, ◌≤◌, ◌==◌, ◌≡◌, ◌⊎◌, inl, inr, refl, sym, ap, ◌∙◌, [], ◌∷◌, List, Option, none,
  some, true, false, arith,
}
use ha_eisenberg.Connection.{
  Caller, tick, backoff, Phase, free, connecting, syncing, Conn, spent, end_sync, reconnecting,
  without, drop_stream, is_live, with_held, Step, begins, unready, connects, fails, synced, drops,
  crashes, wakes, gives_up, Reach, here, next,
}

-- The held stream is the one that listens, or its listen loop has crashed and none listens.
abbrev pub IsHeard : ℕ → List ℕ → List ℕ → Type 0
IsHeard n live crashed = (live ≡ n ∷ []) ⊎ ((live ≡ []) × (is_live n crashed ≡ true))

-- What listens is what is held, unless its `connect` has not returned or its listen loop has crashed.
abbrev pub IsSingle : Phase → Option ℕ → List ℕ → List ℕ → Type 0
IsSingle free none live crashed = live ≡ []
IsSingle free (some n) live crashed = IsHeard n live crashed
IsSingle (connecting who) none live crashed = ⊥
IsSingle (connecting who) (some n) live crashed = live ≡ []
IsSingle (syncing who) none live crashed = live ≡ []
IsSingle (syncing who) (some n) live crashed = IsHeard n live crashed

abbrev pub IsBounded : Option ℕ → Type 0
IsBounded none = Unit
IsBounded (some k) = k ≤ 5

abbrev pub IsSound : Conn → Type 0
IsSound c = IsSingle c.phase c.mqtt c.live c.crashed × IsBounded c.pending

spent-IsBounded :
    (who : Caller) (pending : Option ℕ) → IsBounded pending → IsBounded (spent who pending)
spent-IsBounded tick pending h = h
spent-IsBounded backoff none h = tt
spent-IsBounded backoff (some zero) h = h
spent-IsBounded backoff (some (suc k)) h = omega arith

reconnecting-IsBounded : (pending : Option ℕ) → IsBounded pending → IsBounded (reconnecting pending)
reconnecting-IsBounded none h = omega arith
reconnecting-IsBounded (some k) h = h

false-ne-true : false ≡ true → ⊥
false-ne-true e = cc

connected :
    (who : Caller) (m : Option ℕ) (live crashed : List ℕ)
    → IsSingle (connecting who) m live crashed
    → IsSingle (syncing who) m (with_held m live) crashed
connected who none live crashed h = absurd h
connected who (some n) live crashed h = inl (ap (λ (l : List ℕ). n ∷ l) h)

unconnected :
    (who : Caller) (m : Option ℕ) (live crashed : List ℕ)
    → IsSingle (connecting who) m live crashed
    → live ≡ []
unconnected who none live crashed h = absurd h
unconnected who (some n) live crashed h = h

released :
    (who : Caller) (m : Option ℕ) (live crashed : List ℕ)
    → IsSingle (syncing who) m live crashed
    → IsSingle free m live crashed
released who none live crashed h = h
released who (some n) live crashed h = h

synced-IsSound :
    (who : Caller) (c : Conn)
    → IsSingle (syncing who) c.mqtt c.live c.crashed
    → IsBounded c.pending
    → IsSound (end_sync who c)
synced-IsSound tick c h b = (released tick c.mqtt c.live c.crashed h, b)
synced-IsSound backoff c h b = (released backoff c.mqtt c.live c.crashed h, tt)

no_live : (n : ℕ) (live : List ℕ) → live ≡ [] → is_live n live ≡ true → ⊥
no_live n live e h = absurd (false-ne-true (ap (is_live n) (sym e) ∙ h))

-- The stream whose loop ends is the one that is held, and then none listens.
ended :
    (m n : ℕ) (live crashed : List ℕ)
    → is_live n live ≡ true
    → IsHeard m live crashed
    → ((m == n) ≡ true) × (without n live ≡ [])
ended m n live crashed h (inl e) =
    let same : (m == n) ≡ true = ground (arith, ap (is_live n) e) in
    (same, ap (without n) e ∙ rw same refl)
ended m n live crashed h (inr (e, gone)) = absurd (no_live n live e h)

-- What holds of each phase when a stream's loop has ended: nothing is held, or it has crashed.
dropped :
    (p : Phase) (m n k : ℕ) (live crashed : List ℕ) (q : Option ℕ)
    → is_live n live ≡ true
    → IsHeard m live crashed
    → ((live' : List ℕ) → live' ≡ [] → IsSingle p none live' crashed)
    → IsBounded q
    → IsSound (
        drop_stream n (record {
          mqtt = some m;
          phase = p;
          next_stream = k;
          live = live;
          crashed = crashed;
          pending = q;
        }))
dropped p m n k live crashed q h heard empty b =
    let (same, gone) = ended m n live crashed h heard in
    rw same (empty (without n live) gone, reconnecting-IsBounded q b)

drop_stream-IsSound :
    (p : Phase) (m : Option ℕ) (n k : ℕ) (live crashed : List ℕ) (q : Option ℕ)
    → is_live n live ≡ true
    → IsSingle p m live crashed
    → IsBounded q
    → IsSound (
        drop_stream n (record {
          mqtt = m;
          phase = p;
          next_stream = k;
          live = live;
          crashed = crashed;
          pending = q;
        }))
drop_stream-IsSound free none n k live crashed q h e b = absurd (no_live n live e h)
drop_stream-IsSound free (some m) n k live crashed q h e b =
    dropped free m n k live crashed q h e (λ l g. g) b
drop_stream-IsSound (connecting who) none n k live crashed q h e b = absurd e
drop_stream-IsSound (connecting who) (some m) n k live crashed q h e b = absurd (no_live n live e h)
drop_stream-IsSound (syncing who) none n k live crashed q h e b = absurd (no_live n live e h)
drop_stream-IsSound (syncing who) (some m) n k live crashed q h e b =
    dropped (syncing who) m n k live crashed q h e (λ l g. g) b

crashed-IsHeard :
    (m n : ℕ) (live crashed : List ℕ)
    → is_live n live ≡ true
    → IsHeard m live crashed
    → IsHeard m (without n live) (n ∷ crashed)
crashed-IsHeard m n live crashed h heard =
    let (same, gone) = ended m n live crashed h heard in inr (gone, ground arith)

crash-IsSingle :
    (p : Phase) (m : Option ℕ) (n : ℕ) (live crashed : List ℕ)
    → is_live n live ≡ true
    → IsSingle p m live crashed
    → IsSingle p m (without n live) (n ∷ crashed)
crash-IsSingle free none n live crashed h e = absurd (no_live n live e h)
crash-IsSingle free (some m) n live crashed h e = crashed-IsHeard m n live crashed h e
crash-IsSingle (connecting who) none n live crashed h e = absurd e
crash-IsSingle (connecting who) (some m) n live crashed h e = absurd (no_live n live e h)
crash-IsSingle (syncing who) none n live crashed h e = absurd (no_live n live e h)
crash-IsSingle (syncing who) (some m) n live crashed h e = crashed-IsHeard m n live crashed h e

fewer : (k : ℕ) (q : Option ℕ) → q ≡ some (suc k) → IsBounded q → k ≤ 5
fewer k none e b = cc
fewer k (some j) e b = ground arith

pub Step-IsSound : (c d : Conn) → Step c d → IsSound c → IsSound d
Step-IsSound c d (begins who e1 e2 m e) (h, b) =
    let empty =
      subst (λ (m : Option ℕ). IsSingle free m c.live c.crashed) e2
        (subst (λ (p : Phase). IsSingle p c.mqtt c.live c.crashed) e1 h) in
    subst IsSound (sym e) (empty, spent-IsBounded who c.pending b)
Step-IsSound c d (unready k a e1 e) (h, b) = subst IsSound (sym e) (h, fewer k c.pending e1 b)
Step-IsSound c d (connects who e1 e) (h, b) = subst IsSound (sym e) (
  connected who c.mqtt c.live c.crashed
      (subst (λ (p : Phase). IsSingle p c.mqtt c.live c.crashed) e1 h),
  b,
)
Step-IsSound c d (fails who e1 e) (h, b) = subst IsSound (sym e) (
  unconnected who c.mqtt c.live c.crashed
      (subst (λ (p : Phase). IsSingle p c.mqtt c.live c.crashed) e1 h),
  b,
)
Step-IsSound c d (synced who e1 e) (h, b) =
    subst IsSound (sym e)
      (synced-IsSound who c (subst (λ (p : Phase). IsSingle p c.mqtt c.live c.crashed) e1 h) b)
Step-IsSound c d (drops n e1 e) (h, b) =
    subst IsSound (sym e)
      (drop_stream-IsSound c.phase c.mqtt n c.next_stream c.live c.crashed c.pending e1 h b)
Step-IsSound c d (crashes n e1 e) (h, b) =
    subst IsSound (sym e) (crash-IsSingle c.phase c.mqtt n c.live c.crashed e1 h, b)
Step-IsSound c d (wakes k n a e1 e2 e) (h, b) = subst IsSound (sym e) (h, tt)
Step-IsSound c d (gives_up a e1 e) (h, b) = subst IsSound (sym e) (h, tt)

-- In whatever order the health tick, the reconnect task and the sockets take their steps, crashes of a
-- listen loop included: no stream but the one that is held ever listens; the held one listens from the
-- return of its connect on, unless its listen loop has crashed; and the reconnect task never has more than
-- five delays left.
pub Reach-IsSound : (c d : Conn) → Reach c d → IsSound c → IsSound d
Reach-IsSound c d here h = h
Reach-IsSound c d (next r st) h = Step-IsSound _ d st (Reach-IsSound c _ r h)
