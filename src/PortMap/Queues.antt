-- ===== src/PortMap/Queues.antt =====
-- `set_queue_state`, `is_queue_ready` and `get_vhost_qids` on a device whose queue pairs are
-- numbered in order.
use native.Mathlib.Decide.{ℕ_discrete}
use vtb.Prelude.{
  ℕ, zero, suc, ◌+◌, ◌*◌, ◌/◌, ◌%◌, ◌≤◌, ◌<◌, ◌≡◌, ◌≢◌, refl, ◌∙◌, Bool, false, none, some, ok,
  List, ◌==◌, nat_eq, int_eq, if◌then◌else◌, arith, get_elem?, set, length, set_at-ok,
  get_elem?-set_self, get_elem?-set_ne, Option,
}
use vtb.Common.Devices.{VhostQueuePair}
use vtb.PortMap.{set_queue}

-- The first `n` pairs have the ids that `init_vhost_device` gave them.
abbrev pub HasIds : ℕ → List VhostQueuePair → Type 0
HasIds n qp =
    (i : ℕ)
    → i < n
    → (q : VhostQueuePair) × (get_elem? qp i ≡ some q) × (q.rxq_id ≡ i * 2) × (q.txq_id ≡ i * 2 + 1)

-- The switch of queue `v` in its pair.
abbrev pub switch : ℕ → Bool → VhostQueuePair → VhostQueuePair
switch v enable q =
    if v % 2 == 0 then record q { rxq_enabled = enable } else record q { txq_enabled = enable }

set_queue-hit :
    (r i v : ℕ) (enable : Bool) (qp : List VhostQueuePair) (q : VhostQueuePair)
    → i ≡ v / 2
    → v / 2 < length qp
    → get_elem? qp (v / 2) ≡ some q
    → q.rxq_id ≡ v / 2 * 2
    → q.txq_id ≡ v / 2 * 2 + 1
    → set_queue (suc r) i v enable qp ≡ ok (set qp (v / 2) (switch v enable q))
unfolding set_queue
set_queue-hit r i v enable qp q at room e rx tx = rw at (
    ground (
      arith,
      set_at-ok qp (v / 2) (record q { rxq_enabled = enable }),
      set_at-ok qp (v / 2) (record q { txq_enabled = enable }),
    ))

set_queue-miss :
    (r i v : ℕ) (enable : Bool) (qp : List VhostQueuePair) (q : VhostQueuePair)
    → i ≢ v / 2
    → get_elem? qp i ≡ some q
    → q.rxq_id ≡ i * 2
    → q.txq_id ≡ i * 2 + 1
    → set_queue (suc r) i v enable qp ≡ set_queue r (suc i) v enable qp
unfolding set_queue
set_queue-miss r i v enable qp q at e rx tx = ground arith

-- The search stops at the pair of queue `v`, where it writes the one switch.
pub set_queue-found :
    (n r i v : ℕ) (enable : Bool) (qp : List VhostQueuePair) (q : VhostQueuePair)
    → HasIds n qp
    → n ≤ length qp
    → i + r ≡ n
    → i ≤ v / 2
    → v / 2 < n
    → get_elem? qp (v / 2) ≡ some q
    → q.rxq_id ≡ v / 2 * 2
    → q.txq_id ≡ v / 2 * 2 + 1
    → set_queue r i v enable qp ≡ ok (set qp (v / 2) (switch v enable q))
set_queue-found n zero i v enable qp q ids room s lo hi e rx tx = absurd (omega arith)
set_queue-found n (suc r) i v enable qp q ids room s lo hi e rx tx = elim (ℕ_discrete i (v / 2)) [
  | yes at ↦ set_queue-hit r i v enable qp q at (omega arith) e rx tx
  | no past ↦
      let (q', e', rx', tx') = ids i (omega arith) in
      set_queue-miss r i v enable qp q' past e' rx' tx'
      ∙ set_queue-found n r (suc i) v enable qp q ids room (omega arith) (omega arith) hi e rx tx
]

-- A queue that the device does not have changes nothing.
pub set_queue-absent :
    (n r i v : ℕ) (enable : Bool) (qp : List VhostQueuePair)
    → HasIds n qp
    → i + r ≡ n
    → n ≤ v / 2
    → set_queue r i v enable qp ≡ ok qp
set_queue-absent n zero i v enable qp ids s h = unfold set_queue in refl
set_queue-absent n (suc r) i v enable qp ids s h =
    let (q, e, rx, tx) = ids i (omega arith) in
    set_queue-miss r i v enable qp q (omega arith) e rx tx
    ∙ set_queue-absent n r (suc i) v enable qp ids (omega arith) h

abbrev pub side : ℕ → VhostQueuePair → Bool
side v q = if v % 2 == 0 then q.rxq_enabled else q.txq_enabled

-- Whether queue `v` is enabled: the abstract state of a device.
abbrev pub enabled_in : ℕ → Option VhostQueuePair → Bool
enabled_in v none = false
enabled_in v (some q) = side v q

abbrev pub enabled : List VhostQueuePair → ℕ → Bool
enabled qp v = enabled_in v (get_elem? qp (v / 2))

pub enabled-switch_at :
    (v w : ℕ) (enable : Bool) (qp : List VhostQueuePair) (q : VhostQueuePair)
    → v / 2 < length qp
    → get_elem? qp (v / 2) ≡ some q
    → enabled (set qp (v / 2) (switch v enable q)) w ≡ (if v == w then enable else enabled qp w)
enabled-switch_at v w enable qp q room e = elim (ℕ_discrete (v / 2) (w / 2)) [
  | yes same ↦
      rw (← same) (rw (get_elem?-set_self qp (v / 2) (switch v enable q) room) (ground arith))
  | no other ↦ rw (get_elem?-set_ne qp (v / 2) (w / 2) (switch v enable q) other) (ground arith)
]
