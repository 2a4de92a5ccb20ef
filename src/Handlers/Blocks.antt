-- ===== src/Handlers/Blocks.antt =====
-- A base station's answer, as a sequence of partial states.
use ha_eisenberg.Common.{◌≡◌, refl, ◌∙◌, ap, [], ◌∷◌, List, Option, none, some, String}
use ha_eisenberg.Json.{Json, Entries, no_entries, entry}
use ha_eisenberg.Devices.{DeviceState}
use ha_eisenberg.Devices.Merge.{Field, read_in, merge_all, newest, read-merge_all}
use ha_eisenberg.Dicts.{lookup}
use ha_eisenberg.Handlers.{Home, apply_block, block_state, apply_blocks, connect_base}

module _ (validate_state : Json → Option DeviceState) where
  abbrev add_frame :
      String → Option DeviceState → List (String × DeviceState) → List (String × DeviceState)
  add_frame id none frames = frames
  add_frame id (some state) frames = (id, state) ∷ frames

  -- The blocks that validate, in their order.
  unfoldable pub valid_blocks : Entries → List (String × DeviceState)
  valid_blocks no_entries = []
  valid_blocks (entry id props blocks) =
      add_frame id (block_state validate_state props) (valid_blocks blocks)

  connect_base-device_states :
      (h : Home) (id : String) (o : Option String)
      → (connect_base h id o).device_states ≡ h.device_states
  connect_base-device_states h id none = refl
  connect_base-device_states h id (some s) = refl

  merge_all-block :
      (h : Home) (id : String) (o : Option DeviceState) (frames : List (String × DeviceState))
      → merge_all (apply_block validate_state h id o).0.device_states frames
        ≡ merge_all h.device_states (add_frame id o frames)
  unfolding merge_all
  merge_all-block h id none frames = refl
  merge_all-block h id (some state) frames =
      ap (λ (s : List (String × DeviceState)). merge_all s frames)
        (connect_base-device_states _ id state.connection_state)

  device_states-apply_blocks :
      (h : Home) (blocks : Entries)
      → (apply_blocks validate_state h blocks).0.device_states
        ≡ merge_all h.device_states (valid_blocks blocks)
  unfolding apply_blocks valid_blocks merge_all
  device_states-apply_blocks h no_entries = refl
  device_states-apply_blocks h (entry id props blocks) =
      device_states-apply_blocks
        (apply_block validate_state h id (block_state validate_state props)).0 blocks
      ∙ merge_all-block h id (block_state validate_state props) (valid_blocks blocks)

  -- After a base station's answer each field of each device has the last value that a block of the device
  -- which validates gives for it, or the value from before: a malformed block costs no other.
  pub read-apply_blocks :
      (f : Field) (h : Home) (blocks : Entries) (j : String)
      → read_in f (lookup (apply_blocks validate_state h blocks).0.device_states j)
        ≡ newest f j (read_in f (lookup h.device_states j)) (valid_blocks blocks)
  read-apply_blocks f h blocks j =
      ap (λ (s : List (String × DeviceState)). read_in f (lookup s j))
        (device_states-apply_blocks h blocks)
      ∙ read-merge_all f h.device_states (valid_blocks blocks) j
