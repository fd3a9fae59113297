-- ===== src/PortMap/Represents.antt =====
-- The relation between the structs of `pmap_` and the ports of the specification, and what the
-- writes of the member functions do to it.
use native.Mathlib.Decide.{dec_lt, ℕ_discrete}
use vtb.Prelude.{
  ℕ, zero, suc, ◌/◌, ◌≤◌, ◌<◌, ◌≡◌, ◌≢◌, ◌⊎◌, refl, ◌∙◌, ap, subst, Bool, none, some, Option, ℤ,
  pos, pos_part, int_eq, int_beq_iff, nat_eq, nat_beq_iff, ◌==◌, ==_refl, if◌then◌else◌, lt→ltb,
  le→ltb, arith, Bool-cases, inl, inr, get_elem?, replicate, get_elem?-set_self, get_elem?-set_ne,
}
use vtb.Prelude.Dict
use vtb.Common.Devices.{PortMap, PortQueuePair, max_queue_pairs, zero_port_map}
use vtb.PortMap.{PMap, port_at}
use vtb.PortMap.Init.{IsFresh}
use vtb.PortMap.Queues.{enabled}
use vtb.PortMap.Ports.{IsPort, Switched, pairs}
use vtb.PortMap.Runs.{connected, connected-IsPort, IsFresh-IsPort}
use vtb.PortMap.Spec.{Port, Ports, blank, or_blank, attached, switched, wired, at_port}

abbrev pub pair_with : ℤ → PortQueuePair
pair_with fd = record { rxq_id = fd; txq_id = fd }

-- The struct stands for the port: the switches of its own pairs, and the sockets of the whole
-- array.
pub record Represents (pm : PortMap) (v : Port) : Type 0 where
  pub port : IsPort pm
  pub device : pm.vd.vid ≡ v.device
  pub count : pairs pm ≡ v.count
  pub queues : (w : ℕ) → w / 2 < v.count → enabled pm.vd.qp w ≡ v.on w
  pub sockets : (i : ℕ) → i < max_queue_pairs → get_elem? pm.pd.qp i ≡ some (pair_with (v.socket i))
  pub control : pm.pd.ctlq_id ≡ v.control

abbrev pub Matches : Option PortMap → Option Port → Type 0
Matches none none = Unit {0}
Matches none (some v) = ⊥
Matches (some pm) none = ⊥
Matches (some pm) (some v) = Represents pm v

abbrev pub Implements : PMap → Ports → Type 0
Implements pmap s = (p : ℤ) → Matches (Dict.lookup p pmap) (s p)

-- One port is changed, and the others are as before.
pub changed :
    (p : ℤ) (v : Option Port) (pmap after : PMap) (s : Ports)
    → Implements pmap s
    → Matches (Dict.lookup p after) v
    → ((q : ℤ) → q ≢ p → Dict.lookup q after ≡ Dict.lookup q pmap)
    → Implements after (at_port p v s)
changed p v pmap after s h here others q = elim (Bool-cases (p == q)) [
  | inl same ↦
      rw same (subst (λ k. Matches (Dict.lookup k after) v) ((int_beq_iff p q).0 same) here)
  | inr other ↦ rw other (rw (others q (λ e. ground (arith, int_beq_iff p q))) (h q))
]

zero-IsPort : IsPort zero_port_map
zero-IsPort = record {
  room = record { vhost_room = refl; id_room = refl; port_room = refl };
  count = omega arith;
  ids = λ i h. absurd (omega arith);
}

get_elem?-replicate : {A : Type 0} (n i : ℕ) (a : A) → i < n → get_elem? (replicate n a) i ≡ some a
get_elem?-replicate zero i a h = absurd (omega arith)
get_elem?-replicate (suc n) zero a h = refl
get_elem?-replicate (suc n) (suc i) a h = get_elem?-replicate n i a (omega arith)

zero-Represents : Represents zero_port_map blank
zero-Represents = record {
  port = zero-IsPort;
  device = refl;
  count = refl;
  queues = λ w h. absurd (omega arith);
  sockets = λ i h. get_elem?-replicate 8 i (pair_with (pos 0)) h;
  control = refl;
}

pub port_at-Represents :
    (p : ℤ) (pmap : PMap) (v : Option Port)
    → Matches (Dict.lookup p pmap) v
    → Represents (port_at p pmap) (or_blank v)
port_at-Represents p pmap v h = go (Dict.lookup p pmap) v h
  where
    go :
        (found : Option PortMap) (v : Option Port)
        → Matches found v
        → Represents (elim found [ none ↦ zero_port_map | some pm ↦ pm ]) (or_blank v)
    go none none h = zero-Represents
    go none (some v) h = absurd h
    go (some pm) none h = absurd h
    go (some pm) (some v) h = h

pub IsFresh-Represents :
    (vid : ℤ) (n : ℕ) (old new : PortMap) (v : Port)
    → n ≤ max_queue_pairs
    → Represents old v
    → IsFresh vid n old new
    → Represents new (attached vid n v)
IsFresh-Represents vid n old new v h r f = record {
  port = IsFresh-IsPort vid n old new h f;
  device = f.header.0;
  count = ap pos_part f.header.1;
  queues = λ w k. rw ((f.pairs (w / 2) k).0) (ground arith);
  sockets = λ i k. elim (dec_lt i n) [
    | yes l ↦ rw (lt→ltb i n l) ((f.pairs i l).2)
    | no l ↦ rw (le→ltb i n (omega arith)) ((f.rest i (omega arith)).2 ∙ r.sockets i k)
  ];
  control = f.port_control ∙ r.control;
}

-- A call on a port that is there or not.
pub Matches-cases :
    (found : Option PortMap) (v : Option Port)
    → Matches found v
    → ((found ≡ none) × (v ≡ none))
      ⊎ ((pm : PortMap) × (w : Port) × (found ≡ some pm) × (v ≡ some w) × Represents pm w)
Matches-cases none none h = inl (refl, refl)
Matches-cases none (some v) h = absurd h
Matches-cases (some pm) none h = absurd h
Matches-cases (some pm) (some v) h = inr (pm, v, refl, refl, h)

pub Switched-Represents :
    (v : ℕ) (enable : Bool) (old new : PortMap) (w : Port)
    → Represents old w
    → Switched v enable old new
    → Represents new (switched v enable w)
Switched-Represents v enable old new w r s = record {
  port = s.port;
  device = ap (λ m. m.vd.vid) s.same ∙ r.device;
  count = ap pairs s.same ∙ r.count;
  queues = λ x h.
      s.queues x (omega (arith, r.count)) ∙ ap (λ b. if v == x then enable else b) (r.queues x h);
  sockets = λ i h. ap (λ m. get_elem? m.pd.qp i) s.same ∙ r.sockets i h;
  control = ap (λ m. m.pd.ctlq_id) s.same ∙ r.control;
}

pub connected-Represents :
    (i : ℕ) (fd : ℤ) (pm : PortMap) (w : Port)
    → Represents pm w
    → i < max_queue_pairs
    → Represents (connected i fd pm) (wired i fd w)
connected-Represents i fd pm w r h = record {
  port = connected-IsPort i fd pm r.port;
  device = r.device;
  count = r.count;
  queues = r.queues;
  sockets = λ j k. elim (ℕ_discrete i j) [
    | yes e ↦ rw (← e) (
        get_elem?-set_self pm.pd.qp i (pair_with fd) (omega (arith, r.port.room.port_room))
        ∙ rw (==_refl i))
    | no d ↦
        get_elem?-set_ne pm.pd.qp i j (pair_with fd) d
        ∙ r.sockets j k
        ∙ ground (arith, nat_beq_iff i j)
  ];
  control = r.control;
}

-- A socket for a pair that no port can have is not in the array.
pub ignored-Represents :
    (i : ℕ) (fd : ℤ) (pm : PortMap) (w : Port)
    → Represents pm w
    → max_queue_pairs ≤ i
    → Represents pm (wired i fd w)
ignored-Represents i fd pm w r h = record {
  port = r.port;
  device = r.device;
  count = r.count;
  queues = r.queues;
  sockets = λ j k. r.sockets j k ∙ ground (arith, nat_beq_iff i j);
  control = r.control;
}

pub controlled-Represents :
    (fd : ℤ) (pm : PortMap) (w : Port)
    → Represents pm w
    → Represents (record pm { pd = record (pm.pd) { ctlq_id = fd } }) (record w { control = fd })
controlled-Represents fd pm w r = record {
  port = record {
    room = record {
      vhost_room = r.port.room.vhost_room;
      id_room = r.port.room.id_room;
      port_room = r.port.room.port_room;
    };
    count = r.port.count;
    ids = r.port.ids;
  };
  device = r.device;
  count = r.count;
  queues = r.queues;
  sockets = r.sockets;
  control = refl;
}
