-- ===== src/Connection/Tests.antt =====
-- Runs of the stream's life, and the theorems at concrete states.
use ha_eisenberg.Common.{◌≡◌, refl, [], ◌∷◌, none, some}
use ha_eisenberg.Connection.{
  tick, free, Conn, Reach, here, next, begins, connects, begin_connect, end_connect, drop_stream,
}
use ha_eisenberg.Connection.Invariant.{IsSound, Reach-IsSound}
use ha_eisenberg.Connection.Race.{IsDeaf, waiting, Reach-IsDeaf}

abbrev started : Conn
started = record {
  mqtt = none;
  phase = free;
  next_stream = 0;
  live = [];
  crashed = [];
  pending = none;
}

abbrev up : Conn
up = record {
  mqtt = some 0;
  phase = free;
  next_stream = 1;
  live = 0 ∷ [];
  crashed = [];
  pending = none;
}

dropped_once : drop_stream 0 up ≡ record {
  mqtt = none;
  phase = free;
  next_stream = 1;
  live = [];
  crashed = [];
  pending = some 5;
}
dropped_once = refl

superseded : drop_stream 7 up ≡ up
superseded = refl

connecting_up : Reach started (end_connect tick (begin_connect tick started))
connecting_up = next (next here (begins tick refl refl tt refl)) (connects tick refl refl)

Reach-IsSound_example : IsSound (end_connect tick (begin_connect tick started))
Reach-IsSound_example = Reach-IsSound started _ connecting_up (refl, tt)

Reach-IsDeaf_example : (d : Conn) × Reach (waiting 1 4) d × IsDeaf d
Reach-IsDeaf_example = Reach-IsDeaf 1 4
