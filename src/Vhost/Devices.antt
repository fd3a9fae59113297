-- ===== src/Vhost/Devices.antt =====
-- What the callbacks do to the map of the ports.
use mathlib.Core.Path.{ap₂}
use vtb.Prelude.{
  ℕ, suc, ◌/◌, ◌<◌, ◌≤◌, ◌≡◌, ◌≢◌, sym, ◌∙◌, ap, Bool, true, false, ◌&&◌, ℤ, pos, int_eq, bytes_eq,
  some, none, Result, ok, throws, undefined, ◌>>=◌, arith, Bool-cases, pos_part, inl, inr,
}
use vtb.Prelude.Dict
use vtb.Common.Devices.{PortMap, max_queue_pairs}
use vtb.PortMap.{PMap, store, init_vhost_device, set_queue_state, clear_device, is_queue_ready}
use vtb.PortMap.Init.{IsFresh}
use vtb.PortMap.Attach.{init_vhost_device-IsFresh, lookup-store_self, lookup-store_ne}
use vtb.PortMap.Queues.{enabled}
use vtb.PortMap.Ports.{IsPort, IsValid, pairs, is_queue_ready-enabled, set_queue_state-Switched}
use vtb.PortMap.Runs.{port_at-HasRoom, IsFresh-IsPort, changed-IsValid}
use vtb.Vhost.{Vhost, on_new_device, on_destroy_device, notify_port_controller, has_client}

-- A queue of a missing device is never ready.
pub is_queue_ready-missing :
    (vid q : ℤ) (pmap : PMap) → Dict.lookup vid pmap ≡ none → is_queue_ready vid q pmap ≡ ok false
unfolding is_queue_ready
is_queue_ready-missing vid q pmap e = rw (e, is_queue_ready)

pub set_queue_state-missing :
    (vid : ℤ) (v : ℕ) (enable : Bool) (pmap : PMap)
    → Dict.lookup vid pmap ≡ none
    → set_queue_state vid v enable pmap ≡ ok pmap
unfolding set_queue_state
set_queue_state-missing vid v enable pmap e = rw (e, set_queue_state)

-- The state of the controller after the two notifications of a new device.
abbrev pub announced : ℤ → PMap → Vhost → Vhost
announced vid pmap v =
    let told = (notify_port_controller (pos 0) vid 0 (pos 1) (record v { pmap = pmap })).0 in
    let told_twice = (notify_port_controller (pos 0) vid 1 (pos 1) told).0 in
    record told_twice { port_cntr = suc told_twice.port_cntr }

pub announced-pmap : (vid : ℤ) (pmap : PMap) (v : Vhost) → (announced vid pmap v).pmap ≡ pmap
unfolding notify_port_controller
announced-pmap vid pmap v = elim (Bool-cases (has_client v.mode)) [
  | inl on ↦ simp on
  | inr off ↦ simp off
]

pub announced-port_cntr :
    (vid : ℤ) (pmap : PMap) (v : Vhost) → (announced vid pmap v).port_cntr ≡ suc v.port_cntr
unfolding notify_port_controller
announced-port_cntr vid pmap v = elim (Bool-cases (has_client v.mode)) [
  | inl on ↦ simp on
  | inr off ↦ simp off
]

fresh-disabled :
    (vid : ℤ) (n : ℕ) (old new : PortMap)
    → IsFresh vid n old new
    → (q : ℕ) → q / 2 < n
    → enabled new.vd.qp q ≡ false
fresh-disabled vid n old new fresh q h = rw (fresh.pairs (q / 2) h).0 (ground arith)

pub destroyed-pmap :
    (vid : ℤ) (v : Vhost) → (on_destroy_device vid v).pmap ≡ clear_device vid v.pmap
unfolding on_destroy_device
destroyed-pmap vid v = elim (Bool-cases (has_client v.mode)) [
  | inl on ↦ simp on
  | inr off ↦ simp off
]

destroyed-lookup_ne :
    (vid p : ℤ) (v : Vhost)
    → p ≢ vid
    → Dict.lookup p (on_destroy_device vid v).pmap ≡ Dict.lookup p v.pmap
unfolding clear_device
destroyed-lookup_ne vid p v h =
    ap (Dict.lookup p) (destroyed-pmap vid v) ∙ Dict.lookup-erase_ne vid p v.pmap h

-- Both queues of the first pair are switched on in a fresh device.
enabled_pair :
    (vid : ℤ) (pmap : PMap) (new : PortMap)
    → Dict.lookup vid pmap ≡ some new
    → IsPort new
    → 0 < pairs new
    → (first second : PMap) × (set_queue_state vid 0 true pmap ≡ ok first)
      × (set_queue_state vid 1 true first ≡ ok second)
      × (is_queue_ready vid (pos 0) second ≡ ok true)
      × ((pm : PortMap) × (Dict.lookup vid second ≡ some pm) × IsPort pm)
      × ((q : ℤ) → q ≢ vid → Dict.lookup q second ≡ Dict.lookup q pmap)
enabled_pair vid pmap new found port some_pair =
    let (new1, r1, sw1) = set_queue_state-Switched vid 0 true pmap new found port in
    let pmap1 = store vid new1 pmap in
    let found1 = lookup-store_self vid new1 pmap in
    let (new2, r2, sw2) = set_queue_state-Switched vid 1 true pmap1 new1 found1 sw1.port in
    let pmap2 = store vid new2 pmap1 in
    let found2 = lookup-store_self vid new2 pmap1 in
    let same1 : pairs new1 ≡ pairs new = ap pairs sw1.same in
    let same2 : pairs new2 ≡ pairs new1 = ap pairs sw2.same in
    let on0 : enabled new2.vd.qp 0 ≡ true =
      sw2.queues 0 (omega arith) ∙ sw1.queues 0 (omega arith) in
    let on1 : enabled new2.vd.qp 1 ≡ true = sw2.queues 1 (omega arith) in
    (
      pmap1,
      pmap2,
      r1,
      r2,
      is_queue_ready-enabled vid 0 pmap2 new2 found2 sw2.port (omega arith)
          ∙ ap₂ (λ a b. ok (a && b)) on0 on1,
      (new2, found2, sw2.port),
      λ q d. lookup-store_ne vid q new2 pmap1 d ∙ lookup-store_ne vid q new1 pmap d,
    )

-- A new device whose id is the number of its port, with one to eight queue pairs: the callback
-- returns, the device's first pair is ready, and every other port is as before.
pub on_new_device_ready :
    (vring_count : ℕ) (v : Vhost)
    → IsValid v.pmap
    → 2 ≤ vring_count
    → vring_count / 2 ≤ max_queue_pairs
    → let vid = pos v.port_cntr in
      (after : Vhost) × (on_new_device vring_count vid v ≡ ok after)
      × (is_queue_ready vid (pos 0) after.pmap ≡ ok true)
      × (after.port_cntr ≡ suc v.port_cntr)
      × IsValid after.pmap
      × ((q : ℤ) → q ≢ vid → Dict.lookup q after.pmap ≡ Dict.lookup q v.pmap)
unfolding on_new_device
on_new_device_ready vring_count v valid lo hi =
    let vid = pos v.port_cntr in
    let (created, new, e, found, fresh, others) =
      init_vhost_device-IsFresh vid vid (vring_count / 2) v.pmap (port_at-HasRoom vid v.pmap valid)
        hi in
    let count : pairs new ≡ vring_count / 2 = ap pos_part fresh.header.1 in
    let port = IsFresh-IsPort vid (vring_count / 2) _ new hi fresh in
    let (first, second, r1, r2, ready, (last, found', port'), others') =
      enabled_pair vid created new found port (omega arith) in
    let rest : (q : ℤ) → q ≢ vid → Dict.lookup q second ≡ Dict.lookup q v.pmap =
      λ q d. others' q d ∙ others q d in
    (
      announced vid second v,
      rw e (rw r1 (rw r2)),
      rw (announced-pmap vid second v) ready,
      announced-port_cntr vid second v,
      rw (announced-pmap vid second v)
          (changed-IsValid vid last v.pmap second valid found' port' rest),
      λ q d. rw (announced-pmap vid second v) (rest q d),
    )

-- A new device whose id is neither the number of its port nor in the map. The callback returns,
-- but stores the device under the number of its port, where its queues stay disabled: under its
-- own id no queue is ready, and the callback for its removal leaves the entry in the map.
pub on_new_device_mismatch :
    (vring_count : ℕ) (vid : ℤ) (v : Vhost)
    → IsValid v.pmap
    → vring_count / 2 ≤ max_queue_pairs
    → vid ≢ pos v.port_cntr
    → Dict.lookup vid v.pmap ≡ none
    → (after : Vhost) × (stored : PortMap) × (on_new_device vring_count vid v ≡ ok after)
      × ((q : ℤ) → is_queue_ready vid q after.pmap ≡ ok false)
      × (Dict.lookup (pos v.port_cntr) after.pmap ≡ some stored)
      × (stored.vd.vid ≡ vid)
      × ((q : ℕ) → q / 2 < vring_count / 2 → enabled stored.vd.qp q ≡ false)
      × (Dict.lookup (pos v.port_cntr) (on_destroy_device vid after).pmap ≡ some stored)
unfolding on_new_device
on_new_device_mismatch vring_count vid v valid hi ne missing =
    let p = pos v.port_cntr in
    let (created, new, e, found, fresh, others) =
      init_vhost_device-IsFresh p vid (vring_count / 2) v.pmap (port_at-HasRoom p v.pmap valid)
        hi in
    let gone : Dict.lookup vid created ≡ none = others vid ne ∙ missing in
    let after = announced vid created v in
    (
      after,
      new,
      rw e (
          rw (set_queue_state-missing vid 0 true created gone)
            (rw (set_queue_state-missing vid 1 true created gone))),
      λ q. rw (announced-pmap vid created v) (is_queue_ready-missing vid q created gone),
      rw (announced-pmap vid created v) found,
      fresh.header.0,
      λ q h. fresh-disabled vid (vring_count / 2) _ new fresh q h,
      destroyed-lookup_ne vid p after (λ k. ne (sym k)) ∙ rw (announced-pmap vid created v) found,
    )

ok-injective : {v w : Vhost} → ok v ≡ ok w → v ≡ w
ok-injective h = cc

-- A new device that was accepted has been announced.
pub on_new_device-announced :
    (vrings : ℕ) (vid : ℤ) (v after : Vhost)
    → on_new_device vrings vid v ≡ ok after
    → (pmap : PMap) × (announced vid pmap v ≡ after)
unfolding on_new_device
on_new_device-announced vrings vid v after e =
    go3 (init_vhost_device (pos v.port_cntr) vid (pos (vrings / 2)) v.pmap) e
  where
    go1 :
        (r : Result PMap)
        → (r >>= λ second. ok (announced vid second v)) ≡ ok after
        → (pmap : PMap) × (announced vid pmap v ≡ after)
    go1 (ok pmap) h = (pmap, ok-injective h)
    go1 (throws w) h = cc
    go1 undefined h = cc

    go2 :
        (r : Result PMap)
        → (r >>= λ first.
            set_queue_state vid 1 true first >>= λ second. ok (announced vid second v))
          ≡ ok after
        → (pmap : PMap) × (announced vid pmap v ≡ after)
    go2 (ok first) h = go1 (set_queue_state vid 1 true first) h
    go2 (throws w) h = cc
    go2 undefined h = cc

    go3 :
        (r : Result PMap)
        → (r >>= λ created. set_queue_state vid 0 true created >>= λ first.
            set_queue_state vid 1 true first >>= λ second. ok (announced vid second v))
          ≡ ok after
        → (pmap : PMap) × (announced vid pmap v ≡ after)
    go3 (ok created) h = go2 (set_queue_state vid 0 true created) h
    go3 (throws w) h = cc
    go3 undefined h = cc
