-- ===== src/PortMap/Ports.antt =====
-- The invariant of a port's devices, and `set_queue_state` on a port that satisfies it.
use native.Mathlib.Decide.{ℕ_discrete, dec_lt}
use vtb.Prelude.{
  ℕ, ◌+◌, ◌*◌, ◌/◌, ◌≤◌, ◌<◌, ◌≡◌, refl, ◌∙◌, subst, Bool, ◌&&◌, none, some, ℤ, pos, negsuc,
  pos_part, ok, List, ◌==◌, nat_eq, nat_beq_iff, int_eq, int_ltb, if◌then◌else◌, arith, Bool-cases,
  get_elem?, set, length, get_elem?-set_self, get_elem?-set_ne, length-set, inl, inr, ltb, Option,
  lt→ltb, le→ltb, Option-cases,
}
use vtb.Prelude.Dict
use vtb.Common.Devices.{PortMap, VhostQueuePair, max_queue_pairs}
use vtb.PortMap.{
  PMap, store, set_queue, set_queue_state, is_queue_ready, get_vhost_qids, not_found, queue_ids,
}
use vtb.PortMap.Init.{HasRoom}
use vtb.PortMap.Queues.{
  HasIds, switch, enabled, set_queue-found, set_queue-absent, enabled-switch_at,
}

-- The number of queue pairs of a port.
abbrev pub pairs : PortMap → ℕ
pairs pm = pos_part pm.vd.nof_queue_pairs

pub record IsPort (pm : PortMap) : Type 0 where
  pub room : HasRoom pm
  pub count : pairs pm ≤ max_queue_pairs
  pub ids : HasIds (pairs pm) pm.vd.qp

abbrev pub IsValid : PMap → Type 0
IsValid pmap = (p : ℤ) (pm : PortMap) → Dict.lookup p pmap ≡ some pm → IsPort pm

pub store-IsValid :
    (p : ℤ) (pm : PortMap) (pmap : PMap) → IsPort pm → IsValid pmap → IsValid (store p pm pmap)
store-IsValid p pm pmap port valid q qm e = elim (Bool-cases (p == q)) [
  | inl same ↦ subst IsPort (ground (arith, Dict.lookup-insert int_ltb p q pm pmap)) port
  | inr other ↦ valid q qm (ground (arith, Dict.lookup-insert int_ltb p q pm pmap))
]

switch-HasIds :
    (n k v : ℕ) (enable : Bool) (qp : List VhostQueuePair) (q : VhostQueuePair)
    → HasIds n qp
    → k < length qp
    → q.rxq_id ≡ k * 2
    → q.txq_id ≡ k * 2 + 1
    → HasIds n (set qp k (switch v enable q))
switch-HasIds n k v enable qp q ids room rx tx i h = elim (ℕ_discrete k i) [
  | yes e ↦ (
    switch v enable q,
    subst (λ j. get_elem? (set qp k (switch v enable q)) j ≡ some (switch v enable q)) e
        (get_elem?-set_self qp k (switch v enable q) room),
    ground arith,
    ground arith,
  )
  | no d ↦
      let (q', e', rx', tx') = ids i h in
      (q', get_elem?-set_ne qp k i (switch v enable q) d ∙ e', rx', tx')
]

abbrev pub with_pairs : PortMap → List VhostQueuePair → PortMap
with_pairs pm qp = record pm { vd = record (pm.vd) { qp = qp } }

-- The device before and after a queue is switched.
pub record Switched (v : ℕ) (enable : Bool) (old new : PortMap) : Type 0 where
  pub port : IsPort new
  pub same : new ≡ with_pairs old new.vd.qp
  pub queues :
      (w : ℕ)
      → w / 2 < pairs old
      → enabled new.vd.qp w ≡ (if v == w then enable else enabled old.vd.qp w)

Switched-pairs :
    (v : ℕ) (enable : Bool) (pm : PortMap)
    → IsPort pm
    → (qp : List VhostQueuePair) × (set_queue (pairs pm) 0 v enable pm.vd.qp ≡ ok qp)
      × Switched v enable pm (with_pairs pm qp)
Switched-pairs v enable pm port = elim (dec_lt (v / 2) (pairs pm)) [
  | yes h ↦
      let (q, e, rx, tx) = port.ids (v / 2) h in
      let wide : pairs pm ≤ length pm.vd.qp = omega (arith, port.count, port.room.vhost_room) in
      let qp = set pm.vd.qp (v / 2) (switch v enable q) in
      (
        qp,
        set_queue-found (pairs pm) (pairs pm) 0 v enable pm.vd.qp q port.ids wide (omega arith)
            (omega arith) h e rx tx,
        record {
          port = record {
            room = record {
              vhost_room = length-set pm.vd.qp (v / 2) (switch v enable q) ∙ port.room.vhost_room;
              id_room = port.room.id_room;
              port_room = port.room.port_room;
            };
            count = port.count;
            ids = switch-HasIds (pairs pm) (v / 2) v enable pm.vd.qp q port.ids (omega arith) rx tx;
          };
          same = refl;
          queues = λ w _. enabled-switch_at v w enable pm.vd.qp q (omega arith) e;
        },
      )
  | no h ↦ (
    pm.vd.qp,
    set_queue-absent (pairs pm) (pairs pm) 0 v enable pm.vd.qp port.ids (omega arith) (omega arith),
    record { port = port; same = refl; queues = λ w k. ground (arith, nat_beq_iff v w) },
  )
]

-- On a valid port, `set_queue_state` returns. It sets the one queue that is named, if the device
-- has it, and changes no other queue, no other member and no other port.
pub set_queue_state-Switched :
    (port_id : ℤ) (v : ℕ) (enable : Bool) (pmap : PMap) (pm : PortMap)
    → Dict.lookup port_id pmap ≡ some pm
    → IsPort pm
    → (new : PortMap) × (set_queue_state port_id v enable pmap ≡ ok (store port_id new pmap))
      × Switched v enable pm new
unfolding set_queue_state
set_queue_state-Switched port_id v enable pmap pm found port =
    let (qp, e, switched) = Switched-pairs v enable pm port in
    (with_pairs pm qp, rw (found, set_queue_state) (rw e refl), switched)

-- On a valid port, a queue pair of the device is ready exactly when both its queues are enabled.
pub is_queue_ready-enabled :
    (port_id : ℤ) (i : ℕ) (pmap : PMap) (pm : PortMap)
    → Dict.lookup port_id pmap ≡ some pm
    → IsPort pm
    → i < pairs pm
    → is_queue_ready port_id (pos i) pmap
      ≡ ok (enabled pm.vd.qp (i * 2) && enabled pm.vd.qp (i * 2 + 1))
unfolding is_queue_ready
is_queue_ready-enabled port_id i pmap pm found port h =
    let (q, e, rx, tx) = port.ids i h in
    let even : i * 2 / 2 ≡ i = omega arith in
    let odd : (i * 2 + 1) / 2 ≡ i = omega arith in
    rw (found, is_queue_ready) (rw (even, odd, e) (ground arith))

queue_ids-in :
    (i : ℕ) (pm : PortMap)
    → IsPort pm
    → i < pairs pm
    → queue_ids pm.vd (pos i) ≡ ok (pm.vd.vid, i * 2, i * 2 + 1)
unfolding queue_ids
queue_ids-in i pm port h = let (q, e, rx, tx) = port.ids i h in ground arith

queue_ids-out : (i : ℕ) (pm : PortMap) → pairs pm ≤ i → queue_ids pm.vd (pos i) ≡ ok not_found
unfolding queue_ids
queue_ids-out i pm h = ground arith

abbrev pub ids_of : Option PortMap → ℤ → ℤ × ℕ × ℕ
ids_of none q = not_found
ids_of (some pm) (negsuc n) = not_found
ids_of (some pm) (pos i) = if ltb i (pairs pm) then (pm.vd.vid, i * 2, i * 2 + 1) else not_found

queue_ids-ids_of : (q : ℤ) (pm : PortMap) → IsPort pm → queue_ids pm.vd q ≡ ok (ids_of (some pm) q)
queue_ids-ids_of (negsuc n) pm port = unfold queue_ids in refl
queue_ids-ids_of (pos i) pm port = elim (dec_lt i (pairs pm)) [
  | yes h ↦ queue_ids-in i pm port h ∙ rw (lt→ltb i (pairs pm) h)
  | no h ↦ queue_ids-out i pm (omega arith) ∙ rw (le→ltb i (pairs pm) (omega arith))
]

-- On a valid map `get_vhost_qids` returns: (-1, 0, 0) for a missing port and for a number outside
-- the device's pairs, and otherwise the device's id and the two queues of the pair.
pub get_vhost_qids-ids_of :
    (port_id q_num : ℤ) (pmap : PMap)
    → IsValid pmap
    → get_vhost_qids port_id q_num pmap ≡ ok (ids_of (Dict.lookup port_id pmap) q_num)
unfolding get_vhost_qids
get_vhost_qids-ids_of port_id q_num pmap valid = elim (Option-cases (Dict.lookup port_id pmap)) [
  | inl e ↦ rw (e, get_vhost_qids)
  | inr (pm, e) ↦ rw (e, get_vhost_qids) (queue_ids-ids_of q_num pm (valid port_id pm e))
]
