-- ===== src/Bases/Reached.antt =====
-- custom_components/eisenberg/coordinator.py: what bringing up the base stations comes to.
use mathlib.Core.Path.{subst}
use ha_eisenberg.Common.{
  ◌+◌, ◌≡◌, refl, sym, ap, ◌∙◌, ◌⊎◌, inl, inr, [], ◌∷◌, List, Option, none, some, String, Bool,
  true, false, ◌||◌, str_eq, str_eq_iff, if◌then◌else◌, arith, Bool-cases,
}
use ha_eisenberg.Dicts.{lookup, lookup-put}
use ha_eisenberg.Http.{Error, Result, ok, err, World}
use ha_eisenberg.Devices.{DeviceInfo}
use ha_eisenberg.Commands.{register_event_subscription, request_device_states}
use ha_eisenberg.Gap.{is_base_station}
use ha_eisenberg.Handlers.{Home}
use ha_eisenberg.Bases.{
  Connections, and_changed, bring_up_one, is_state, set_connection, Told, after_registration,
  bring_up_each, told, bring_up_base_stations,
}

-- What is sent and answered, device by device: a base that refuses is not asked for its state. The base
-- stations are listed with whether they accepted.
pub data Reached : List DeviceInfo → World → List (String × Bool) → World → Type 0 where
  nobody : (w : World) → Reached [] w [] w
  skipped :
      (d : DeviceInfo) {ds : List DeviceInfo} {w v : World} {l : List (String × Bool)}
      → is_base_station d ≡ false
      → Reached ds w l v
      → Reached (d ∷ ds) w l v
  refused :
      (d : DeviceInfo) (e : Error) {ds : List DeviceInfo} {w u v : World} {l : List (String × Bool)}
      → is_base_station d ≡ true
      → register_event_subscription d.device_id w ≡ (err e, u)
      → Reached ds u l v
      → Reached (d ∷ ds) w ((d.device_id, false) ∷ l) v
  accepted :
      (d : DeviceInfo) {ds : List DeviceInfo} {w u v : World} {l : List (String × Bool)}
      → is_base_station d ≡ true
      → register_event_subscription d.device_id w ≡ (ok tt, u)
      → Reached ds (request_device_states d.device_id u).1 l v
      → Reached (d ∷ ds) w ((d.device_id, true) ∷ l) v

abbrev pub state_of : Bool → String
state_of true = "available"
state_of false = "unavailable"

-- The last outcome for an id, or what was there.
abbrev pub outcome : List (String × Bool) → String → Option String → Option String
outcome [] id old = old
outcome ((base, b) ∷ l) id old = outcome l id (if str_eq base id then some (state_of b) else old)

-- The connections after, and that a change of them is noted.
abbrev pub IsOutcome : List (String × Bool) → Connections → Bool → Connections → Bool → Type 0
IsOutcome l before changed after changed' =
    ((id : String) → lookup after id ≡ outcome l id (lookup before id))
    × ((changed' ≡ true)
        ⊎ (((id : String) → lookup after id ≡ lookup before id) × (changed' ≡ changed)))

is_state-some : (o : Option String) (text : String) → is_state o text ≡ true → o ≡ some text
is_state-some none text h = cc
is_state-some (some s) text h = ap some ((str_eq_iff s text).0 h)

lookup-set_connection :
    (c : Connections) (base state id : String)
    → lookup (set_connection c base state).0 id
      ≡ (if str_eq base id then some state else lookup c id)
unfolding set_connection
lookup-set_connection c base state id =
    ground
      (arith, is_state-some (lookup c base) state, str_eq_iff base id, lookup-put c base state id)

unchanged :
    (c : Connections) (base state : String)
    → (set_connection c base state).1 ≡ false
    → (set_connection c base state).0 ≡ c
unfolding set_connection
unchanged c base state h = ground arith

compose :
    (c after : Connections) (id : String) (b changed changed' : Bool) (l : List (String × Bool))
    → IsOutcome l
        (set_connection c id (state_of b)).0
        (changed || (set_connection c id (state_of b)).1)
        after
        changed'
    → IsOutcome ((id, b) ∷ l) c changed after changed'
compose c after id b changed changed' l (found, noted) = (
  (λ (j : String). found j ∙ ap (outcome l j) (lookup-set_connection c id (state_of b) j)),
  elim noted [
    | inl e ↦ inl e
    | inr (same, e) ↦ elim (Bool-cases (set_connection c id (state_of b)).1) [
      | inl t ↦ inl (ground arith)
      | inr f ↦ inr (
        (λ (j : String).
            same j ∙ ap (λ (d : Connections). lookup d j) (unchanged c id (state_of b) f)),
        ground arith,
      )
    ]
  ],
)

-- What a run of the loop comes to.
abbrev pub Comes : List DeviceInfo → Connections → Bool → World → Type 0
Comes devices c changed w =
    (l : List (String × Bool)) × (Reached devices w l (bring_up_each devices c changed w).1
      × IsOutcome l c changed (bring_up_each devices c changed w).0.0
          (bring_up_each devices c changed w).0.1)

-- The same, where the first device has come to `t`.
abbrev After : DeviceInfo → List DeviceInfo → Connections → Bool → World → Told → Type 0
After d devices c changed w t =
    (l : List (String × Bool)) × (Reached (d ∷ devices) w l
        (bring_up_each devices t.0.0 t.0.1 t.1).1
      × IsOutcome l c changed (bring_up_each devices t.0.0 t.0.1 t.1).0.0
          (bring_up_each devices t.0.0 t.0.1 t.1).0.1)

base-Comes :
    (d : DeviceInfo) (devices : List DeviceInfo)
    → ((c : Connections) (changed : Bool) (w : World) → Comes devices c changed w)
    → (c : Connections) (changed : Bool) (w : World) → is_base_station d ≡ true
    → (p : Result (Unit {0}) × World) → register_event_subscription d.device_id w ≡ p
    → After d devices c changed w (and_changed changed (after_registration c d.device_id p))
unfolding after_registration
base-Comes d devices rest c changed w b (err e, u) r =
    let (l, (t, o)) =
      rest (set_connection c d.device_id "unavailable").0
        (changed || (set_connection c d.device_id "unavailable").1) u in
    ((d.device_id, false) ∷ l, (refused d e b r t, compose c _ d.device_id false changed _ l o))
base-Comes d devices rest c changed w b (ok done, u) r =
    let (l, (t, o)) =
      rest (set_connection c d.device_id "available").0
        (changed || (set_connection c d.device_id "available").1)
        (request_device_states d.device_id u).1 in
    ((d.device_id, true) ∷ l, (accepted d b r t, compose c _ d.device_id true changed _ l o))

first-Comes :
    (d : DeviceInfo) (devices : List DeviceInfo)
    → ((c : Connections) (changed : Bool) (w : World) → Comes devices c changed w)
    → (c : Connections) (changed : Bool) (w : World)
    → After d devices c changed w (bring_up_one d c changed w)
unfolding bring_up_one
first-Comes d devices rest c changed w = elim (Bool-cases (is_base_station d)) [
  | inl b ↦
      subst (After d devices c changed w)
        (ap
          (λ (x : Bool).
            if x
            then and_changed changed
                (after_registration c d.device_id (register_event_subscription d.device_id w))
            else ((c, changed), w))
          (sym b))
        (base-Comes d devices rest c changed w b _ refl)
  | inr n ↦
      subst (After d devices c changed w)
        (ap
          (λ (x : Bool).
            if x
            then and_changed changed
                (after_registration c d.device_id (register_event_subscription d.device_id w))
            else ((c, changed), w))
          (sym n))
        (let (l, (t, o)) = rest c changed w in (l, (skipped d n t, o)))
]

loop-Comes :
    (devices : List DeviceInfo) (c : Connections) (changed : Bool) (w : World)
    → Comes devices c changed w
unfolding bring_up_each
loop-Comes [] c changed w = ([], (nobody w, ((λ id. refl), inr ((λ id. refl), refl))))
loop-Comes (d ∷ devices) c changed w = first-Comes d devices (loop-Comes devices) c changed w

push_told : (h : Home) (t : Told) → t.0.1 ≡ true → (told h t).0.pushes ≡ h.pushes + 1
push_told h t e = rw e refl

told-connections : (h : Home) (t : Told) → (told h t).0.basestation_connection ≡ t.0.0
told-connections h t = ground arith

-- Bringing up the base stations registers with each in its turn, and asks for its state exactly those that
-- accepted; afterwards a base that accepted counts as available, one that refused as unavailable, and every
-- other connection is as it was. When a connection has changed, the entities are told, once.
pub bring_up_base_stations_lem :
    (h : Home) (w : World)
    → (l : List (String × Bool)) × (Reached h.devices w l (bring_up_base_stations h w).1
        × (((id : String)
              → lookup (bring_up_base_stations h w).0.basestation_connection id
                ≡ outcome l id (lookup h.basestation_connection id))
            × (((bring_up_base_stations h w).0.pushes ≡ h.pushes + 1)
                ⊎ ((id : String)
                    → lookup (bring_up_base_stations h w).0.basestation_connection id
                      ≡ lookup h.basestation_connection id))))
unfolding bring_up_base_stations
bring_up_base_stations_lem h w =
    let (l, (r, (found, noted))) = loop-Comes h.devices h.basestation_connection false w in
    let t : Told = bring_up_each h.devices h.basestation_connection false w in
    (
      l,
      (
        r,
        (
          (λ (id : String).
              ap (λ (d : Connections). lookup d id) (told-connections h t) ∙ found id),
          elim noted [
            | inl e ↦ inl (push_told h t e)
            | inr (same, e) ↦ inr (λ (id : String).
                ap (λ (d : Connections). lookup d id) (told-connections h t) ∙ same id)
          ],
        ),
      ),
    )
