-- ===== src/Bases.antt =====
-- custom_components/eisenberg/coordinator.py: the base stations. The coordinator registers with each and asks
-- it for its state; the outcome of the registration is the base's connectivity.
pub mod Reached
mod Tests
use ha_eisenberg.Common.{
  ℕ, ◌+◌, ◌-◌, ltb, [], ◌∷◌, List, Option, none, some, String, Bool, true, false, not, ◌&&◌, ◌||◌,
  str_eq, if◌then◌else◌,
}
use ha_eisenberg.Dicts.{lookup, put}
use ha_eisenberg.Json.{Entries, get, as_str}
use ha_eisenberg.Http.{Result, ok, err, World, Action}
use ha_eisenberg.Devices.{DeviceInfo}
use ha_eisenberg.Commands.{request_snapshot, register_event_subscription, request_device_states}
use ha_eisenberg.Session.{mode_for_device, is_mode}
use ha_eisenberg.Gap.{is_base_station, cameras}
use ha_eisenberg.Handlers.{Home, push_to_entities}

abbrev pub Connections : Type 0
Connections = List (String × String)

abbrev pub is_state : Option String → String → Bool
is_state none text = false
is_state (some s) text = str_eq s text

-- if self.basestation_connection.get(base_id) != state: ...; and whether that changed it.
unfoldable pub set_connection : Connections → String → String → Connections × Bool
unfolding lookup put
set_connection connections id state =
    if is_state (lookup connections id) state
    then (connections, false)
    else (put connections id state, true)

abbrev pub Told : Type 0
Told = (Connections × Bool) × World

-- The state is asked for after a registration only, and an error then is only logged.
unfoldable pub after_registration : Connections → String → Result (Unit {0}) × World → Told
unfolding set_connection
after_registration connections id (err e, w) = (set_connection connections id "unavailable", w)
after_registration connections id (ok done, w) =
    (set_connection connections id "available", (request_device_states id w).1)

abbrev pub and_changed : Bool → Told → Told
and_changed changed ((connections, this), w) = ((connections, changed || this), w)

-- One round of `_bring_up_base_stations`, with `changed`: what is no base station is passed over.
unfoldable pub bring_up_one : DeviceInfo → Connections → Bool → World → Told
unfolding after_registration
bring_up_one d connections changed w =
    if is_base_station d
    then and_changed changed
        (after_registration connections d.device_id (register_event_subscription d.device_id w))
    else ((connections, changed), w)

unfoldable pub bring_up_each : List DeviceInfo → Connections → Bool → World → Told
unfolding bring_up_one
bring_up_each [] connections changed w = ((connections, changed), w)
bring_up_each (d ∷ devices) connections changed w =
    let ((after, noted), v) = bring_up_one d connections changed w in
    bring_up_each devices after noted v

abbrev pub told : Home → Told → Home × World
told h ((connections, changed), w) =
    let after = record h { basestation_connection = connections } in
    (if changed then push_to_entities after else after, w)

-- `_bring_up_base_stations`, but for the time that it notes.
unfoldable pub bring_up_base_stations : Home → World → Home × World
unfolding bring_up_each
bring_up_base_stations h w = told h (bring_up_each h.devices h.basestation_connection false w)

-- `_maybe_renew_base_stations`: the home, the time of the last bring-up, and the world.
unfoldable pub maybe_renew_base_stations : Home → ℕ → World → (Home × ℕ) × World
unfolding bring_up_base_stations
maybe_renew_base_stations h last w =
    if ltb (w.clock - last) 1500
    then ((h, last), w)
    else (let (after, v) = bring_up_base_stations h w in ((after, w.clock), v))

-- `_handle_subscription_ack`
abbrev pub acked : Home → Option String → Home
acked h none = h
acked h (some id) =
    let (connections, changed) = set_connection h.basestation_connection id "available" in
    let after = record h { basestation_connection = connections } in
    if changed then push_to_entities after else after

unfoldable pub handle_subscription_ack : Home → Entries → Home
unfolding set_connection get
handle_subscription_ack h payload = acked h (as_str (get payload "from"))

-- mode and mode != "standby"
abbrev pub is_armed : Option String → Bool
is_armed none = false
is_armed (some mode) = not (str_eq mode "") && not (str_eq mode "standby")

-- `_request_initial_snapshots`: errors are only logged.
unfoldable pub request_each : Home → List DeviceInfo → World → World
unfolding mode_for_device
request_each h [] w = w
request_each h (d ∷ devices) w = request_each h devices (
    if is_armed (mode_for_device h.locations h.devices d.device_id)
    then (request_snapshot d.device_id w).1
    else w)

unfoldable pub request_initial_snapshots : Home → World → World
unfolding request_each cameras
request_initial_snapshots h w = request_each h (cameras h.devices) w
