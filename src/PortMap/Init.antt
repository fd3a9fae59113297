-- ===== src/PortMap/Init.antt =====
-- What `init_vhost_device` writes.
use native.Mathlib.Decide.{dec_lt}
use vtb.Prelude.{
  ℕ, zero, suc, ◌+◌, ◌*◌, ◌%◌, ◌≤◌, ◌<◌, ◌≡◌, refl, ◌∙◌, true, false, some, int_eq, ℤ, pos, negsuc,
  pos_part, ok, undefined, length, get_elem?, arith, ap, inr, set_at-ok, set_at-undefined,
}
use vtb.Common.Devices.{VhostQueuePair, PortQueuePair, PortMap, max_queue_pairs}
use vtb.PortMap.{init_pair, init_pairs}
use vtb.PortMap.Fill.{fill, length-fill, get_elem?-fill_inside, get_elem?-fill_outside}

-- The arrays have room for every queue pair.
pub record HasRoom (pm : PortMap) : Type 0 where
  pub vhost_room : length pm.vd.qp ≡ max_queue_pairs
  pub id_room : length pm.vd.qpid ≡ max_queue_pairs
  pub port_room : length pm.pd.qp ≡ max_queue_pairs

-- A queue pair before the guest has enabled it.
abbrev pub idle_pair : ℕ → VhostQueuePair
idle_pair i = record {
  rxq_id = (i * 2) % 65536;
  txq_id = (i * 2 + 1) % 65536;
  rxq_enabled = false;
  txq_enabled = false;
}

-- A port queue pair with no socket.
abbrev pub unconnected : PortQueuePair
unconnected = record { rxq_id = negsuc 0; txq_id = negsuc 0 }

pub filled : ℤ → ℕ → ℕ → PortMap → PortMap
filled nof_pairs zero i pm = pm
filled nof_pairs (suc r) i pm = record {
  vd = record (pm.vd) {
    qp = fill idle_pair (suc r) i pm.vd.qp;
    qpid = fill pos (suc r) i pm.vd.qpid;
    ready = true;
    ctlq_id = (pos_part nof_pairs * 2) % 65536;
  };
  pd = record (pm.pd) { qp = fill (λ _. unconnected) (suc r) i pm.pd.qp };
}

init_pair-filled :
    (nof_pairs : ℤ) (i : ℕ) (pm : PortMap)
    → HasRoom pm
    → i < max_queue_pairs
    → init_pair nof_pairs i pm ≡ ok (filled nof_pairs 1 i pm)
unfolding init_pair filled fill
init_pair-filled nof_pairs i pm room h = ground (
  arith,
  set_at-ok pm.vd.qp i (idle_pair i),
  set_at-ok pm.vd.qpid i (pos i),
  set_at-ok pm.pd.qp i unconnected,
)

filled-HasRoom :
    (nof_pairs : ℤ) (r i : ℕ) (pm : PortMap) → HasRoom pm → HasRoom (filled nof_pairs r i pm)
unfolding filled
filled-HasRoom nof_pairs zero i pm room = room
filled-HasRoom nof_pairs (suc r) i pm room = record {
  vhost_room = length-fill idle_pair (suc r) i pm.vd.qp ∙ room.vhost_room;
  id_room = length-fill pos (suc r) i pm.vd.qpid ∙ room.id_room;
  port_room = length-fill (λ _. unconnected) (suc r) i pm.pd.qp ∙ room.port_room;
}

filled-step :
    (nof_pairs : ℤ) (r i : ℕ) (pm : PortMap)
    → filled nof_pairs r (suc i) (filled nof_pairs 1 i pm) ≡ filled nof_pairs (suc r) i pm
unfolding filled fill
filled-step nof_pairs zero i pm = refl
filled-step nof_pairs (suc r) i pm = refl

-- Within the arrays the loop ends, and has written each index once.
pub init_pairs-filled :
    (nof_pairs : ℤ) (r i : ℕ) (pm : PortMap)
    → HasRoom pm
    → i + r ≤ max_queue_pairs
    → init_pairs nof_pairs r i pm ≡ ok (filled nof_pairs r i pm)
unfolding init_pairs
init_pairs-filled nof_pairs zero i pm room h = unfold filled in refl
init_pairs-filled nof_pairs (suc r) i pm room h =
    rw (init_pair-filled nof_pairs i pm room (omega arith)) (
      init_pairs-filled nof_pairs r (suc i) (filled nof_pairs 1 i pm)
        (filled-HasRoom nof_pairs 1 i pm room) (omega arith)
      ∙ ap ok (filled-step nof_pairs r i pm))

init_pair-undefined :
    (nof_pairs : ℤ) (i : ℕ) (pm : PortMap)
    → HasRoom pm
    → max_queue_pairs ≤ i
    → init_pair nof_pairs i pm ≡ undefined
unfolding init_pair
init_pair-undefined nof_pairs i pm room h =
    ground (arith, set_at-undefined pm.vd.qp i (idle_pair i))

-- Past the arrays it does not.
pub init_pairs-undefined :
    (nof_pairs : ℤ) (r i : ℕ) (pm : PortMap)
    → HasRoom pm
    → i ≤ max_queue_pairs
    → max_queue_pairs < i + r
    → init_pairs nof_pairs r i pm ≡ undefined
unfolding init_pairs
init_pairs-undefined nof_pairs zero i pm room h k = absurd (omega arith)
init_pairs-undefined nof_pairs (suc r) i pm room h k = elim (dec_lt i max_queue_pairs) [
  | yes p ↦ rw (init_pair-filled nof_pairs i pm room p) (
      init_pairs-undefined nof_pairs r (suc i) (filled nof_pairs 1 i pm)
        (filled-HasRoom nof_pairs 1 i pm room) (omega arith) (omega arith))
  | no n ↦ rw (init_pair-undefined nof_pairs i pm room (omega arith))
]

-- A device as `init_vhost_device` leaves it: `n` idle queue pairs, numbered in order, none of them
-- connected, and the rest of the arrays as they were.
pub record IsFresh (vid : ℤ) (n : ℕ) (old new : PortMap) : Type 0 where
  pub room : HasRoom new
  pub header : (new.vd.vid ≡ vid) × (new.vd.nof_queue_pairs ≡ pos n) × (new.vd.ready ≡ true)
  pub pairs :
      (i : ℕ)
      → i < n
      → (get_elem? new.vd.qp i
          ≡ some (record {
            rxq_id = i * 2;
            txq_id = i * 2 + 1;
            rxq_enabled = false;
            txq_enabled = false;
          }))
        × (get_elem? new.vd.qpid i ≡ some (pos i))
        × (get_elem? new.pd.qp i ≡ some unconnected)
  pub rest :
      (i : ℕ)
      → n ≤ i
      → (get_elem? new.vd.qp i ≡ get_elem? old.vd.qp i)
        × (get_elem? new.vd.qpid i ≡ get_elem? old.vd.qpid i)
        × (get_elem? new.pd.qp i ≡ get_elem? old.pd.qp i)
  pub vhost_control : 0 < n → new.vd.ctlq_id ≡ n * 2
  pub port_control : new.pd.ctlq_id ≡ old.pd.ctlq_id

idle_pair-ids :
    (i : ℕ)
    → i < max_queue_pairs
    → idle_pair i
      ≡ record { rxq_id = i * 2; txq_id = i * 2 + 1; rxq_enabled = false; txq_enabled = false }
idle_pair-ids i h = ground arith

abbrev pub started : ℤ → ℕ → PortMap → PortMap
started vid n pm = record pm {
  vd = record (pm.vd) { vid = vid; nof_queue_pairs = pos n; ready = true };
}

pub filled-IsFresh :
    (vid : ℤ) (n : ℕ) (pm : PortMap)
    → HasRoom pm
    → n ≤ max_queue_pairs
    → IsFresh vid n pm (filled (pos n) n 0 (started vid n pm))
filled-IsFresh vid zero pm room h =
    unfold filled in
    record {
      room = record {
        vhost_room = room.vhost_room;
        id_room = room.id_room;
        port_room = room.port_room;
      };
      header = (refl, refl, refl);
      pairs = λ i k. absurd (omega arith);
      rest = λ i k. (refl, refl, refl);
      vhost_control = λ k. absurd (omega arith);
      port_control = refl;
    }
filled-IsFresh vid (suc n) pm room h =
    unfold filled in
    record {
      room = filled-HasRoom (pos (suc n)) (suc n) 0 (started vid (suc n) pm) (record {
        vhost_room = room.vhost_room;
        id_room = room.id_room;
        port_room = room.port_room;
      });
      header = (refl, refl, refl);
      pairs = λ i k. (
        get_elem?-fill_inside idle_pair (suc n) 0 i pm.vd.qp (omega arith) (omega arith)
              (omega (arith, room.vhost_room))
            ∙ ap some (idle_pair-ids i (omega arith)),
        get_elem?-fill_inside pos (suc n) 0 i pm.vd.qpid (omega arith) (omega arith)
            (omega (arith, room.id_room)),
        get_elem?-fill_inside (λ _. unconnected) (suc n) 0 i pm.pd.qp (omega arith) (omega arith)
            (omega (arith, room.port_room)),
      );
      rest = λ i k. (
        get_elem?-fill_outside idle_pair (suc n) 0 i pm.vd.qp (inr (omega arith)),
        get_elem?-fill_outside pos (suc n) 0 i pm.vd.qpid (inr (omega arith)),
        get_elem?-fill_outside (λ _. unconnected) (suc n) 0 i pm.pd.qp (inr (omega arith)),
      );
      vhost_control = λ k. omega arith;
      port_control = refl;
    }
