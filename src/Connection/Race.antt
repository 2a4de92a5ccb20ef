-- ===== src/Connection/Race.antt =====
-- When a dropped stream is rebuilt, and when it is not.
use ha_eisenberg.Common.{ℕ, suc, ◌==◌, ◌≡◌, refl, [], none, some, true, arith}
use ha_eisenberg.Connection.{
  backoff, free, Conn, begin_connect, end_connect, end_sync, drop_stream, begins, connects, synced,
  drops, Reach, here, next,
}

-- No stream, nobody connects, and no reconnect task runs: only the health tick can bring a stream back.
abbrev pub IsDeaf : Conn → Type 0
IsDeaf c = (c.mqtt ≡ none) × (c.phase ≡ free) × (c.pending ≡ none)

-- Waiting for a delay of the reconnect task, of which `k` are left after it.
abbrev pub waiting : ℕ → ℕ → Conn
waiting n k = record {
  mqtt = none;
  phase = free;
  next_stream = n;
  live = [];
  crashed = [];
  pending = some (suc k);
}

equal : (n : ℕ) → (n == n) ≡ true
equal n = ground arith

-- However many delays are left to the reconnect task, it can end with no stream and nobody to rebuild it:
-- its attempt connects, the new stream drops while the call still waits in `_sync_sse`, the handler
-- leaves the rebuilding to the task that still runs, and the task ends since its call returns True.
pub Reach-IsDeaf : (n k : ℕ) → (d : Conn) × Reach (waiting n k) d × IsDeaf d
Reach-IsDeaf n k =
    let a = begin_connect backoff (waiting n k) in
    let b = end_connect backoff a in
    let c = drop_stream n b in
    let d = end_sync backoff c in
    (
      d,
      next
          (next
            (next (next here (begins backoff refl refl (k, refl) refl))
              (connects backoff refl refl))
            (drops n (rw (equal n) refl) refl))
          (synced backoff (rw (equal n) refl) refl),
      (rw (equal n) refl, refl, refl),
    )

-- A held stream that drops while no reconnect task runs is let go, and starts a task with all five delays.
pub pending-drop_stream :
    (c : Conn) (n : ℕ)
    → c.mqtt ≡ some n
    → c.pending ≡ none
    → ((drop_stream n c).mqtt ≡ none) × ((drop_stream n c).pending ≡ some 5)
pending-drop_stream c n e q = ground (arith, equal n)
