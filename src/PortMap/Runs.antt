-- ===== src/PortMap/Runs.antt =====
-- Runs of the calls that change the map: they stay within the arrays, and keep it valid.
use mathlib.Core.Option.{some-injective}
use native.Mathlib.Decide.{dec_lt}
use vtb.Prelude.{
  ℕ, ◌≤◌, ◌<◌, ◌≡◌, ◌≢◌, ◌⊎◌, refl, sym, ◌∙◌, ap, subst, Bool, none, some, ℤ, pos, negsuc, pos_part,
  Result, ok, List, ◌==◌, nat_eq, int_eq, int_beq_iff, arith, Bool-cases, set, length-set, ◌>>=◌,
  inl, inr, set_at-ok, lt→ltb, le→ltb, Option-cases, All, [], ◌∷◌,
}
use vtb.Prelude.Dict
use vtb.Common.Devices.{PortMap, max_queue_pairs}
use vtb.PortMap.{
  PMap, store, port_at, init_vhost_device, set_queue_state, assign_pair, assign_port_data_socket,
  assign_port_control_socket, clear_device,
}
use vtb.PortMap.Init.{HasRoom, IsFresh}
use vtb.PortMap.Attach.{init_vhost_device-IsFresh, zero_port_map-HasRoom}
use vtb.PortMap.Ports.{pairs, IsPort, IsValid, store-IsValid, set_queue_state-Switched}

pub data Call : Type 0 where
  init : ℤ → ℤ → ℕ → Call
  queue : ℤ → ℕ → Bool → Call
  data_socket : ℤ → ℤ → ℤ → Call
  control_socket : ℤ → ℤ → Call
  clear : ℤ → Call

unfoldable pub perform : Call → PMap → Result PMap
perform (init port_id vid n) pmap = init_vhost_device port_id vid (pos n) pmap
perform (queue port_id v enable) pmap = set_queue_state port_id v enable pmap
perform (data_socket port_id qp_idx fd) pmap = assign_port_data_socket port_id qp_idx fd pmap
perform (control_socket port_id fd) pmap = ok (assign_port_control_socket port_id fd pmap)
perform (clear vid) pmap = ok (clear_device vid pmap)

unfoldable pub run : List Call → PMap → Result PMap
run [] pmap = ok pmap
run (c ∷ cs) pmap = perform c pmap >>= λ after. run cs after

-- What the callers have to see to: no more pairs than the arrays hold, and no negative index.
abbrev pub InLimits : Call → Type 0
InLimits (init port_id vid n) = n ≤ max_queue_pairs
InLimits (queue port_id v enable) = Unit {0}
InLimits (data_socket port_id (pos i) fd) = Unit {0}
InLimits (data_socket port_id (negsuc i) fd) = ⊥
InLimits (control_socket port_id fd) = Unit {0}
InLimits (clear vid) = Unit {0}

abbrev Returns : Result PMap → Type 0
Returns r = (after : PMap) × (r ≡ ok after) × IsValid after

pub IsFresh-IsPort :
    (vid : ℤ) (n : ℕ) (old new : PortMap) → n ≤ max_queue_pairs → IsFresh vid n old new → IsPort new
IsFresh-IsPort vid n old new h f =
    let e : pairs new ≡ n = ap pos_part f.header.1 in
    record {
      room = f.room;
      count = omega (arith, e);
      ids = λ i k. (_, (f.pairs i (omega (arith, e))).0, refl, refl);
    }

pub port_at-HasRoom : (p : ℤ) (pmap : PMap) → IsValid pmap → HasRoom (port_at p pmap)
port_at-HasRoom p pmap valid = elim (Option-cases (Dict.lookup p pmap)) [
  | inl e ↦ rw (e, port_at) zero_port_map-HasRoom
  | inr (pm, e) ↦ rw (e, port_at) (valid p pm e).room
]

-- On a valid map whose ports stay as they are but for one, which satisfies the invariant.
pub changed-IsValid :
    (p : ℤ) (new : PortMap) (pmap after : PMap)
    → IsValid pmap
    → Dict.lookup p after ≡ some new
    → IsPort new
    → ((q : ℤ) → q ≢ p → Dict.lookup q after ≡ Dict.lookup q pmap)
    → IsValid after
changed-IsValid p new pmap after valid found port others q qm e = elim (Bool-cases (q == p)) [
  | inl same ↦
      subst IsPort
        (some-injective _ _
          (sym found ∙ ap (λ k. Dict.lookup k after) (sym ((int_beq_iff q p).0 same)) ∙ e))
        port
  | inr other ↦ valid q qm (sym (others q (λ k. ground (arith, int_beq_iff q p))) ∙ e)
]

pub init-Returns :
    (port_id vid : ℤ) (n : ℕ) (pmap : PMap)
    → IsValid pmap
    → n ≤ max_queue_pairs
    → Returns (init_vhost_device port_id vid (pos n) pmap)
init-Returns port_id vid n pmap valid h =
    let (after, new, e, found, fresh, others) =
      init_vhost_device-IsFresh port_id vid n pmap (port_at-HasRoom port_id pmap valid) h in
    (
      after,
      e,
      changed-IsValid port_id new pmap after valid found (IsFresh-IsPort vid n _ new h fresh)
          others,
    )

pub queue-Returns :
    (port_id : ℤ) (v : ℕ) (enable : Bool) (pmap : PMap)
    → IsValid pmap
    → Returns (set_queue_state port_id v enable pmap)
queue-Returns port_id v enable pmap valid = elim (Option-cases (Dict.lookup port_id pmap)) [
  | inl e ↦ (pmap, unfold set_queue_state in rw (e, set_queue_state), valid)
  | inr (pm, e) ↦
      let (new, r, switched) =
        set_queue_state-Switched port_id v enable pmap pm e (valid port_id pm e) in
      (store port_id new pmap, r, store-IsValid port_id new pmap switched.port valid)
]

abbrev pub connected : ℕ → ℤ → PortMap → PortMap
connected i fd pm = record pm {
  pd = record (pm.pd) { qp = set pm.pd.qp i (record { rxq_id = fd; txq_id = fd }) };
}

assign_pair-connected :
    (i : ℕ) (fd : ℤ) (pm : PortMap)
    → IsPort pm
    → i < max_queue_pairs
    → assign_pair (pos i) fd pm ≡ ok (connected i fd pm)
unfolding assign_pair
assign_pair-connected i fd pm port h = rw (
    set_at-ok pm.pd.qp i (record { rxq_id = fd; txq_id = fd }) (omega (arith, port.room.port_room)))

pub connected-IsPort : (i : ℕ) (fd : ℤ) (pm : PortMap) → IsPort pm → IsPort (connected i fd pm)
connected-IsPort i fd pm port = record {
  room = record {
    vhost_room = port.room.vhost_room;
    id_room = port.room.id_room;
    port_room = length-set pm.pd.qp i (record { rxq_id = fd; txq_id = fd }) ∙ port.room.port_room;
  };
  count = port.count;
  ids = port.ids;
}

pub data_socket-connected :
    (port_id : ℤ) (i : ℕ) (fd : ℤ) (pmap : PMap) (pm : PortMap)
    → Dict.lookup port_id pmap ≡ some pm
    → IsPort pm
    → i < max_queue_pairs
    → assign_port_data_socket port_id (pos i) fd pmap ≡ ok (store port_id (connected i fd pm) pmap)
unfolding assign_port_data_socket
data_socket-connected port_id i fd pmap pm e port h =
    rw (e, assign_port_data_socket)
      (rw (lt→ltb i max_queue_pairs h, assign_pair-connected i fd pm port h))

-- Neither for a missing port nor for a pair that no port can have is there anything to do.
pub data_socket-ignored :
    (port_id : ℤ) (i : ℕ) (fd : ℤ) (pmap : PMap)
    → (Dict.lookup port_id pmap ≡ none) ⊎ (max_queue_pairs ≤ i)
    → assign_port_data_socket port_id (pos i) fd pmap ≡ ok pmap
unfolding assign_port_data_socket
data_socket-ignored port_id i fd pmap (inl e) = rw (e, assign_port_data_socket)
data_socket-ignored port_id i fd pmap (inr h) = elim (Option-cases (Dict.lookup port_id pmap)) [
  | inl e ↦ rw (e, assign_port_data_socket)
  | inr (pm, e) ↦ rw (e, assign_port_data_socket) (rw (le→ltb i max_queue_pairs h))
]

data_socket-Returns :
    (port_id : ℤ) (i : ℕ) (fd : ℤ) (pmap : PMap)
    → IsValid pmap
    → Returns (assign_port_data_socket port_id (pos i) fd pmap)
data_socket-Returns port_id i fd pmap valid = elim (Option-cases (Dict.lookup port_id pmap)) [
  | inl e ↦ (pmap, data_socket-ignored port_id i fd pmap (inl e), valid)
  | inr (pm, e) ↦ elim (dec_lt i max_queue_pairs) [
    | yes h ↦ (
      store port_id (connected i fd pm) pmap,
      data_socket-connected port_id i fd pmap pm e (valid port_id pm e) h,
      store-IsValid port_id (connected i fd pm) pmap (connected-IsPort i fd pm (valid port_id pm e))
          valid,
    )
    | no h ↦ (pmap, data_socket-ignored port_id i fd pmap (inr (omega arith)), valid)
  ]
]

control_socket-IsValid :
    (port_id fd : ℤ) (pmap : PMap)
    → IsValid pmap
    → IsValid (assign_port_control_socket port_id fd pmap)
unfolding assign_port_control_socket
control_socket-IsValid port_id fd pmap valid = elim (Option-cases (Dict.lookup port_id pmap)) [
  | inl e ↦ rw (e, assign_port_control_socket) valid
  | inr (pm, e) ↦
      let port = valid port_id pm e in
      rw (e, assign_port_control_socket)
        (store-IsValid port_id (record pm { pd = record (pm.pd) { ctlq_id = fd } }) pmap
          (record {
            room = record {
              vhost_room = port.room.vhost_room;
              id_room = port.room.id_room;
              port_room = port.room.port_room;
            };
            count = port.count;
            ids = port.ids;
          })
          valid)
]

pub clear-IsValid : (vid : ℤ) (pmap : PMap) → IsValid pmap → IsValid (clear_device vid pmap)
unfolding clear_device
clear-IsValid vid pmap valid p pm e = valid p pm (ground (arith, Dict.lookup-erase vid p pmap))

pub nil-IsValid : IsValid []
unfolding Dict.lookup
nil-IsValid p pm e = cc

perform-Returns : (c : Call) (pmap : PMap) → IsValid pmap → InLimits c → Returns (perform c pmap)
unfolding perform
perform-Returns (init port_id vid n) pmap valid h = init-Returns port_id vid n pmap valid h
perform-Returns (queue port_id v enable) pmap valid h = queue-Returns port_id v enable pmap valid
perform-Returns (data_socket port_id (pos i) fd) pmap valid h =
    data_socket-Returns port_id i fd pmap valid
perform-Returns (data_socket port_id (negsuc i) fd) pmap valid h = absurd h
perform-Returns (control_socket port_id fd) pmap valid h =
    (_, refl, control_socket-IsValid port_id fd pmap valid)
perform-Returns (clear vid) pmap valid h = (_, refl, clear-IsValid vid pmap valid)

-- From a valid map, every sequence of calls within the limits returns, and leaves a valid map.
pub run-IsValid :
    (cs : List Call) (pmap : PMap)
    → IsValid pmap
    → All InLimits cs
    → (after : PMap) × (run cs pmap ≡ ok after) × IsValid after
unfolding run
run-IsValid [] pmap valid h = (pmap, refl, valid)
run-IsValid (c ∷ cs) pmap valid h =
    let (mid, e, v) = perform-Returns c pmap valid h.0 in
    let (after, r, w) = run-IsValid cs mid v h.1 in (after, rw e r, w)
