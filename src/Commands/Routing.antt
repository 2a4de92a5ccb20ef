-- ===== src/Commands/Routing.antt =====
-- The routing tables that `get_devices` of eisenberg/client.py fills.
use ha_eisenberg.Common.{
  ◌≡◌, refl, ◌∙◌, ap, [], ◌∷◌, List, some, String, false, arith, str_eq_refl, All,
}
use ha_eisenberg.Dicts.{lookup, put, has_key, lookup-put}
use ha_eisenberg.Http.{Client}
use ha_eisenberg.Devices.{DeviceInfo, gateway_of}
use ha_eisenberg.Commands.{track, dedupe_devices, set_default}
use ha_eisenberg.Commands.Dedupe.{IsUnique, ids, dedupe_devices_lem}

-- The tables send the commands for a device to its gateway, with the device's own xCloudId.
abbrev pub IsRouted : Client → DeviceInfo → Type 0
IsRouted c d =
    (lookup c.device_cloud_ids d.device_id ≡ some d.x_cloud_id)
    × (lookup c.device_parent_ids d.device_id ≡ some (gateway_of d))

-- Devices that are not in the list keep their routes.
track-other :
    (c : Client) (devices : List DeviceInfo) (id : String)
    → has_key (ids devices) id ≡ false
    → (lookup (track c devices).device_cloud_ids id ≡ lookup c.device_cloud_ids id)
      × (lookup (track c devices).device_parent_ids id ≡ lookup c.device_parent_ids id)
unfolding track has_key
track-other c [] id h = (refl, refl)
track-other c (d ∷ devices) id h =
    let after : Client = record c {
      device_cloud_ids = put c.device_cloud_ids d.device_id d.x_cloud_id;
      device_parent_ids = put c.device_parent_ids d.device_id (gateway_of d);
    } in
    let (cloud, parent) = track-other after devices id (ground arith) in
    (
      cloud ∙ ground (arith, lookup-put c.device_cloud_ids d.device_id d.x_cloud_id id),
      parent ∙ ground (arith, lookup-put c.device_parent_ids d.device_id (gateway_of d) id),
    )

track-IsRouted :
    (c : Client) (devices : List DeviceInfo)
    → IsUnique (ids devices)
    → All (IsRouted (track c devices)) devices
unfolding track
track-IsRouted c [] h = tt
track-IsRouted c (d ∷ devices) (h, hs) =
    let after : Client = record c {
      device_cloud_ids = put c.device_cloud_ids d.device_id d.x_cloud_id;
      device_parent_ids = put c.device_parent_ids d.device_id (gateway_of d);
    } in
    let (cloud, parent) = track-other after devices d.device_id h in
    (
      (
        cloud
            ∙ ground (
              arith,
              lookup-put c.device_cloud_ids d.device_id d.x_cloud_id d.device_id,
              str_eq_refl d.device_id,
            ),
        parent
            ∙ ground (
              arith,
              lookup-put c.device_parent_ids d.device_id (gateway_of d) d.device_id,
              str_eq_refl d.device_id,
            ),
      ),
      track-IsRouted after devices hs,
    )

-- The default xCloudId is no part of the routes.
set_default-tables :
    (c : Client) (found : List DeviceInfo)
    → ((set_default c found).device_cloud_ids ≡ c.device_cloud_ids)
      × ((set_default c found).device_parent_ids ≡ c.device_parent_ids)
unfolding set_default
set_default-tables c [] = (refl, refl)
set_default-tables c (d ∷ devices) = (ground arith, ground arith)

set_default-IsRouted :
    (c : Client) (found devices : List DeviceInfo)
    → All (IsRouted c) devices
    → All (IsRouted (set_default c found)) devices
set_default-IsRouted c found [] h = tt
set_default-IsRouted c found (d ∷ devices) ((cloud, parent), hs) =
    let (clouds, parents) = set_default-tables c found in
    let routed : IsRouted (set_default c found) d = (
      ap (λ (t : List (String × String)). lookup t d.device_id) clouds ∙ cloud,
      ap (λ (t : List (String × String)). lookup t d.device_id) parents ∙ parent,
    ) in
    (routed, set_default-IsRouted c found devices hs)

-- After the device list has been read, every device that was kept is routed to its own gateway, with its
-- own xCloudId, whatever the tables held before.
pub dedupe_devices-IsRouted :
    (c : Client) (devices : List DeviceInfo)
    → let found = dedupe_devices devices in All (IsRouted (set_default (track c found) found)) found
dedupe_devices-IsRouted c devices =
    let found = dedupe_devices devices in
    set_default-IsRouted (track c found) found found
      (track-IsRouted c found (dedupe_devices_lem devices).0)
