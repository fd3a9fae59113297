-- ===== src/Common/Devices.antt =====
-- The structs of inc/common.h. An `int` is an integer, a `uint16_t` a number below 65536, and an
-- array a list of `max_queue_pairs` elements.
use vtb.Prelude.{ℕ, Bool, false, List, ℤ, pos, replicate}

abbrev pub max_queue_pairs : ℕ
max_queue_pairs = 8

pub record VhostQueuePair : Type 0 where
  pub rxq_id : ℕ
  pub txq_id : ℕ
  pub rxq_enabled : Bool
  pub txq_enabled : Bool

pub record VhostDevice : Type 0 where
  pub vid : ℤ
  pub nof_queue_pairs : ℤ
  pub qpid : List ℤ
  pub qp : List VhostQueuePair
  pub ready : Bool
  pub ctlq_id : ℕ

pub record PortQueuePair : Type 0 where
  pub rxq_id : ℤ
  pub txq_id : ℤ

pub record PortDevice : Type 0 where
  pub qp : List PortQueuePair
  pub ctlq_id : ℤ

pub record PortMap : Type 0 where
  pub vd : VhostDevice
  pub pd : PortDevice

-- The message from the vhost controller to a port controller.
pub record PortDeviceRingState : Type 0 where
  pub meta : ℤ
  pub port_id : ℤ
  pub device_id : ℤ
  pub qid : ℤ
  pub enable : ℤ

-- What `operator[]` of the map stores under a new key: the struct with every member zero.
abbrev zero_pair : VhostQueuePair
zero_pair = record { rxq_id = 0; txq_id = 0; rxq_enabled = false; txq_enabled = false }

abbrev pub zero_port_map : PortMap
zero_port_map = record {
  vd = record {
    vid = pos 0;
    nof_queue_pairs = pos 0;
    qpid = replicate max_queue_pairs (pos 0);
    qp = replicate max_queue_pairs zero_pair;
    ready = false;
    ctlq_id = 0;
  };
  pd = record {
    qp = replicate max_queue_pairs (record { rxq_id = pos 0; txq_id = pos 0 });
    ctlq_id = pos 0;
  };
}
