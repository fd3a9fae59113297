-- ===== src/PortMap.antt =====
-- The part of ConfigManager (src/config_manager.cpp) that works on `pmap_`, the map from a port
-- number to its devices. Each call holds `pmap_mutex_`, so it is one step on the map.
pub mod Init
mod Fill
pub mod Attach
pub mod Queues
pub mod Ports
pub mod Runs
mod Switches
pub mod Spec
pub mod Represents
mod Changes
pub mod Refinement
pub mod Order
pub mod Rows
pub mod Print
use vtb.Prelude.{
  ℕ, zero, suc, ◌+◌, ◌*◌, ◌%◌, Bool, true, false, ◌&&◌, none, some, List, ℤ, pos, negsuc, pos_part,
  int_eq, int_ltb, Result, ok, ◌>>=◌, get_at, set_at, subscript, ltb, leb, ◌==◌, nat_eq,
  if◌then◌else◌,
}
use vtb.Prelude.Dict
use vtb.Prelude.Dict.{Dict}
use vtb.Common.Devices.{VhostQueuePair, VhostDevice, PortMap, zero_port_map, max_queue_pairs}

abbrev pub PMap : Type 0
PMap = Dict ℤ PortMap

-- `pmap_[port_id]`, which stores a zero struct under a missing key.
abbrev pub port_at : ℤ → PMap → PortMap
port_at port_id pmap = elim (Dict.lookup port_id pmap) [ none ↦ zero_port_map | some pm ↦ pm ]

-- The writes of `pmap_[port_id]` reach the map.
abbrev pub store : ℤ → PortMap → PMap → PMap
store = Dict.insert int_ltb

-- The body of the loop of `init_vhost_device`. The products go to `uint16_t` members.
init_pair : ℤ → ℕ → PortMap → Result PortMap
init_pair nof_pairs i pm = do
  vqp ← set_at pm.vd.qp i (record {
    rxq_id = (i * 2) % 65536;
    txq_id = (i * 2 + 1) % 65536;
    rxq_enabled = false;
    txq_enabled = false;
  })
  qpid ← set_at pm.vd.qpid i (pos i)
  pqp ← set_at pm.pd.qp i (record { rxq_id = negsuc 0; txq_id = negsuc 0 })
  ok (record {
    vd = record (pm.vd) {
      qp = vqp;
      qpid = qpid;
      ready = true;
      ctlq_id = (pos_part nof_pairs * 2) % 65536;
    };
    pd = record (pm.pd) { qp = pqp };
  })

-- The rounds that are left, and `i`.
pub init_pairs : ℤ → ℕ → ℕ → PortMap → Result PortMap
unfolding init_pair
init_pairs nof_pairs zero i pm = ok pm
init_pairs nof_pairs (suc rounds) i pm = do
  pm' ← init_pair nof_pairs i pm
  init_pairs nof_pairs rounds (suc i) pm'

unfoldable pub init_vhost_device : ℤ → ℤ → ℤ → PMap → Result PMap
unfolding init_pairs
init_vhost_device port_id vid nof_pairs pmap = do
  let pm = port_at port_id pmap
  let vd = record (pm.vd) { vid = vid; nof_queue_pairs = nof_pairs; ready = true }
  pm' ← init_pairs nof_pairs (pos_part nof_pairs) 0 (record pm { vd = vd })
  ok (store port_id pm' pmap)

-- The search of `set_queue_state`, and its write.
pub set_queue : ℕ → ℕ → ℕ → Bool → List VhostQueuePair → Result (List VhostQueuePair)
set_queue zero i vring_id enable qp = ok qp
set_queue (suc rounds) i vring_id enable qp = do
  q ← get_at qp i
  let rest = set_queue rounds (suc i) vring_id enable qp
  (if q.rxq_id == vring_id
      then set_at qp i (record q { rxq_enabled = enable })
      else if q.txq_id == vring_id
      then set_at qp i (record q { txq_enabled = enable })
      else rest)

unfoldable pub set_queue_state : ℤ → ℕ → Bool → PMap → Result PMap
unfolding set_queue
set_queue_state port_id vring_id enable pmap = elim (Dict.lookup port_id pmap) [
  | none ↦ ok pmap
  | some pm ↦ do
    qp ← set_queue (pos_part pm.vd.nof_queue_pairs) 0 vring_id enable pm.vd.qp
    ok (store port_id (record pm { vd = record (pm.vd) { qp = qp } }) pmap)
]

-- `qp_idx < MAX_QUEUE_PAIRS`, of an `int`.
abbrev below_max : ℤ → Bool
below_max (pos n) = ltb n max_queue_pairs
below_max (negsuc n) = true

assign_pair : ℤ → ℤ → PortMap → Result PortMap
assign_pair qp_idx socket_fd pm = do
  i ← subscript qp_idx
  qp ← set_at pm.pd.qp i (record { rxq_id = socket_fd; txq_id = socket_fd })
  ok (record pm { pd = record (pm.pd) { qp = qp } })

unfoldable pub assign_port_data_socket : ℤ → ℤ → ℤ → PMap → Result PMap
unfolding assign_pair
assign_port_data_socket port_id qp_idx socket_fd pmap = elim (Dict.lookup port_id pmap) [
  | none ↦ ok pmap
  | some pm ↦
      if below_max qp_idx
      then (assign_pair qp_idx socket_fd pm >>= λ pm'. ok (store port_id pm' pmap))
      else ok pmap
]

unfoldable pub assign_port_control_socket : ℤ → ℤ → PMap → PMap
assign_port_control_socket port_id ctl_fd pmap = elim (Dict.lookup port_id pmap) [
  | none ↦ pmap
  | some pm ↦ store port_id (record pm { pd = record (pm.pd) { ctlq_id = ctl_fd } }) pmap
]

-- The answer for a port or a queue pair that is not there.
abbrev pub not_found : ℤ × ℕ × ℕ
not_found = (negsuc 0, 0, 0)

queue_ids : VhostDevice → ℤ → Result (ℤ × ℕ × ℕ)
queue_ids vd (negsuc n) = ok not_found
queue_ids vd (pos q) =
    if leb (pos_part vd.nof_queue_pairs) q
    then ok not_found
    else (get_at vd.qp q >>= λ p. ok (vd.vid, p.rxq_id, p.txq_id))

unfoldable pub get_vhost_qids : ℤ → ℤ → PMap → Result (ℤ × ℕ × ℕ)
unfolding queue_ids
get_vhost_qids port_id q_num pmap = elim (Dict.lookup port_id pmap) [
  | none ↦ ok not_found
  | some pm ↦ queue_ids pm.vd q_num
]

unfoldable pub is_queue_ready : ℤ → ℤ → PMap → Result Bool
is_queue_ready vid qpid pmap = elim (Dict.lookup vid pmap) [
  | none ↦ ok false
  | some pm ↦ do i ← subscript qpid; q ← get_at pm.vd.qp i; ok (q.rxq_enabled && q.txq_enabled)
]

unfoldable pub clear_device : ℤ → PMap → PMap
clear_device vid pmap = Dict.erase vid pmap
