-- ===== src/Connection.antt =====
-- custom_components/eisenberg/coordinator.py: the life of the MQTT stream. `_ensure_mqtt`, the reconnect
-- task and `_handle_mqtt_disconnect` run as one step between two suspensions (`await`); the steps of the
-- health tick, of the reconnect task and of the sockets come in any order.
pub mod Invariant
pub mod Race
mod Tests
use ha_eisenberg.Common.{
  ℕ, zero, suc, ◌+◌, ◌==◌, ◌≡◌, [], ◌∷◌, List, Option, none, some, Bool, true, false, ◌||◌,
  if◌then◌else◌, length,
}

-- Who calls `_ensure_mqtt`: the health tick, or the reconnect task.
pub data Caller : Type 0 where
  tick backoff : Caller

-- The lock: free, or held by a call that waits in `connect`, or in `_sync_sse` after it.
pub data Phase : Type 0 where
  free : Phase
  connecting syncing : Caller → Phase

-- The stream that is held, the lock, the number of the next stream, the streams whose listen loop runs,
-- those whose listen loop ended by an exception, and the delays that a running reconnect task has left.
pub record Conn : Type 0 where
  pub mqtt : Option ℕ
  pub phase : Phase
  pub next_stream : ℕ
  pub live : List ℕ
  pub crashed : List ℕ
  pub pending : Option ℕ

-- len(MQTT_RECONNECT_BACKOFF)
abbrev pub reconnect_backoff : List ℕ
reconnect_backoff = 5 ∷ 15 ∷ 60 ∷ 180 ∷ 300 ∷ []

-- One delay of the reconnect task is spent.
abbrev pub spent : Caller → Option ℕ → Option ℕ
spent tick pending = pending
spent backoff none = none
spent backoff (some zero) = some zero
spent backoff (some (suc k)) = some k

-- A call of `_ensure_mqtt` builds a stream and waits in its `connect`.
abbrev pub begin_connect : Caller → Conn → Conn
begin_connect who c = record c {
  mqtt = some c.next_stream;
  phase = connecting who;
  next_stream = c.next_stream + 1;
  pending = spent who c.pending;
}

abbrev pub with_held : Option ℕ → List ℕ → List ℕ
with_held none live = live
with_held (some n) live = n ∷ live

-- `connect` returns, and has started the listen loop; or it raises, and the handle is cleared.
abbrev pub end_connect : Caller → Conn → Conn
end_connect who c = record c { phase = syncing who; live = with_held c.mqtt c.live }

abbrev pub fail_connect : Conn → Conn
fail_connect c = record c { mqtt = none; phase = free }

-- The call returns True, which ends a reconnect task that made it.
abbrev pub end_sync : Caller → Conn → Conn
end_sync tick c = record c { phase = free }
end_sync backoff c = record c { phase = free; pending = none }

-- A running reconnect task is kept; else one starts.
abbrev pub reconnecting : Option ℕ → Option ℕ
reconnecting none = some (length reconnect_backoff)
reconnecting (some k) = some k

abbrev pub is_held : Option ℕ → ℕ → Bool
is_held none n = false
is_held (some m) n = m == n

-- `_handle_mqtt_disconnect`
abbrev pub handle_disconnect : ℕ → Conn → Conn
handle_disconnect n c =
    if is_held c.mqtt n then record c { mqtt = none; pending = reconnecting c.pending } else c

abbrev pub without : ℕ → List ℕ → List ℕ
without n [] = []
without n (m ∷ live) = if m == n then live else m ∷ without n live

-- The listen loop of a stream ends and calls the handler.
abbrev pub drop_stream : ℕ → Conn → Conn
drop_stream n c = handle_disconnect n (record c { live = without n c.live })

-- The listen loop of a stream raises (a packet that cannot be parsed): its task ends, and no handler is
-- called.
abbrev pub crash_stream : ℕ → Conn → Conn
crash_stream n c = record c { live = without n c.live; crashed = n ∷ c.crashed }

abbrev pub is_live : ℕ → List ℕ → Bool
is_live n [] = false
is_live n (m ∷ live) = (m == n) || is_live n live

-- Whether the reconnect task sleeps: it runs, and does not wait in its own call.
abbrev pub IsAsleep : Conn → Type 0
IsAsleep c = (c.phase ≡ connecting backoff → ⊥) × (c.phase ≡ syncing backoff → ⊥)

abbrev pub MayBegin : Caller → Option ℕ → Type 0
MayBegin tick pending = Unit
MayBegin backoff pending = (k : ℕ) × (pending ≡ some (suc k))

pub data Step (c d : Conn) : Type 0 where
  begins :
      (who : Caller)
      → c.phase ≡ free
      → c.mqtt ≡ none
      → MayBegin who c.pending
      → d ≡ begin_connect who c
      → Step c d
  -- The account is not ready for a stream: the call returns False.
  unready :
      (k : ℕ) → IsAsleep c → c.pending ≡ some (suc k) → d ≡ record c { pending = some k } → Step c d
  connects : (who : Caller) → c.phase ≡ connecting who → d ≡ end_connect who c → Step c d
  fails : (who : Caller) → c.phase ≡ connecting who → d ≡ fail_connect c → Step c d
  synced : (who : Caller) → c.phase ≡ syncing who → d ≡ end_sync who c → Step c d
  drops : (n : ℕ) → is_live n c.live ≡ true → d ≡ drop_stream n c → Step c d
  crashes : (n : ℕ) → is_live n c.live ≡ true → d ≡ crash_stream n c → Step c d
  -- The reconnect task wakes to a stream that is held, or has no delay left.
  wakes :
      (k n : ℕ)
      → IsAsleep c
      → c.pending ≡ some (suc k)
      → c.mqtt ≡ some n
      → d ≡ record c { pending = none }
      → Step c d
  gives_up : IsAsleep c → c.pending ≡ some 0 → d ≡ record c { pending = none } → Step c d

pub data Reach (c : Conn) : Conn → Type 0 where
  here : Reach c c
  next : {d e : Conn} → Reach c d → Step d e → Reach c e
