-- ===== src/Vhost.antt =====
-- VhostController (inc/vhost_controller.h, src/vhost_controller.cpp): the device callbacks.
-- `rte_vhost_get_vring_num` answers with an argument.
pub mod Devices
pub mod Reconnect
pub mod Lifecycle
use vtb.Prelude.{
  ℕ, suc, ◌+◌, ◌/◌, Bool, true, false, not, ◌||◌, List, [], ◌∷◌, ◌++◌, ℤ, pos, negsuc, int_eq,
  bytes_eq, ◌==◌, if◌then◌else◌, leb, Bytes, text, Result, ok, ◌>>=◌,
}
use vtb.Common.Devices.{PortDeviceRingState}
use vtb.PortMap.{PMap, init_vhost_device, set_queue_state, clear_device}

-- The mode, the static counter of ports, the map of ConfigManager, and what was written to the
-- abstract socket, oldest first.
pub record Vhost : Type 0 where
  pub mode : Bytes
  pub port_cntr : ℕ
  pub pmap : PMap
  pub sent : List PortDeviceRingState

abbrev pub has_client : Bytes → Bool
has_client mode = mode == text "Loopback" || mode == text "Back2Back"

-- The answer is false on every path.
unfoldable pub notify_port_controller : ℤ → ℤ → ℕ → ℤ → Vhost → Vhost × Bool
notify_port_controller meta vid queue_id enable v = (
  (if has_client v.mode
      then record v {
        sent =
            v.sent
            ++ (record {
              meta = meta;
              port_id = pos v.port_cntr;
              device_id = vid;
              qid = pos queue_id;
              enable = enable;
            }
                ∷ []);
      }
      else v),
  false,
)

-- An `int` as a `bool`.
abbrev pub as_bool : ℤ → Bool
as_bool enable = not (enable == pos 0)

unfoldable pub on_new_device : ℕ → ℤ → Vhost → Result Vhost
unfolding notify_port_controller
on_new_device vring_count vid v = do
  created ← init_vhost_device (pos v.port_cntr) vid (pos (vring_count / 2)) v.pmap
  first ← set_queue_state vid 0 true created
  second ← set_queue_state vid 1 true first
  let told = (notify_port_controller (pos 0) vid 0 (pos 1) (record v { pmap = second })).0
  let told_twice = (notify_port_controller (pos 0) vid 1 (pos 1) told).0
  ok (record told_twice { port_cntr = suc told_twice.port_cntr })

unfoldable pub on_destroy_device : ℤ → Vhost → Vhost
unfolding notify_port_controller
on_destroy_device vid v =
    let told = (notify_port_controller (pos 1) vid 0 (pos 0) v).0 in
    record told { pmap = clear_device vid told.pmap }

unfoldable pub on_vring_state_changed : ℤ → ℕ → ℤ → Vhost → Result Vhost
unfolding notify_port_controller
on_vring_state_changed vid queue_id enable v = do
  pmap ← set_queue_state vid queue_id (as_bool enable) v.pmap
  let changed = record v { pmap = pmap }
  ok (
      if leb 2 queue_id
      then (notify_port_controller (pos 0) vid queue_id enable changed).0
      else changed)
