-- ===== src/Vhost/Reconnect.antt =====
-- A guest that goes away and comes again under the same id.
use vtb.Prelude.{
  ℕ, suc, ◌/◌, ◌≤◌, ◌≡◌, ◌≢◌, sym, ◌∙◌, ap, subst, true, false, List, [], ◌∷◌, ℤ, pos, int_eq,
  bytes_eq, none, Result, ok, ◌>>=◌, leb, if◌then◌else◌, arith, Bool-cases, inl, inr, refl,
}
use vtb.Prelude.Dict
use vtb.Common.Devices.{max_queue_pairs}
use vtb.PortMap.{clear_device, is_queue_ready}
use vtb.PortMap.Attach.{init_vhost_device-IsFresh}
use vtb.PortMap.Ports.{IsValid}
use vtb.PortMap.Runs.{port_at-HasRoom, clear-IsValid}
use vtb.Vhost.{
  Vhost, on_new_device, on_destroy_device, on_vring_state_changed, notify_port_controller,
  has_client, as_bool,
}
use vtb.Vhost.Devices.{
  announced, announced-pmap, destroyed-pmap, is_queue_ready-missing, set_queue_state-missing,
  on_new_device_ready,
}

destroyed-port_cntr : (vid : ℤ) (v : Vhost) → (on_destroy_device vid v).port_cntr ≡ v.port_cntr
unfolding on_destroy_device
destroyed-port_cntr vid v = elim (Bool-cases (has_client v.mode)) [
  | inl on ↦ simp on
  | inr off ↦ simp off
]

destroyed-lookup : (vid : ℤ) (v : Vhost) → Dict.lookup vid (on_destroy_device vid v).pmap ≡ none
unfolding clear_device
destroyed-lookup vid v =
    ap (Dict.lookup vid) (destroyed-pmap vid v) ∙ Dict.lookup-erase_self vid v.pmap

-- A new device whose id is neither the number of its port nor in the map is still not in the map.
on_new_device-missing :
    (vrings : ℕ) (vid : ℤ) (v : Vhost)
    → IsValid v.pmap
    → vrings / 2 ≤ max_queue_pairs
    → vid ≢ pos v.port_cntr
    → Dict.lookup vid v.pmap ≡ none
    → (after : Vhost) × (on_new_device vrings vid v ≡ ok after)
      × (Dict.lookup vid after.pmap ≡ none)
unfolding on_new_device
on_new_device-missing vrings vid v valid hi ne missing =
    let p = pos v.port_cntr in
    let (created, _, e, _, _, others) =
      init_vhost_device-IsFresh p vid (vrings / 2) v.pmap (port_at-HasRoom p v.pmap valid) hi in
    let gone : Dict.lookup vid created ≡ none = others vid ne ∙ missing in
    (
      announced vid created v,
      rw e (
          rw (set_queue_state-missing vid 0 true created gone)
            (rw (set_queue_state-missing vid 1 true created gone))),
      rw (announced-pmap vid created v) gone,
    )

-- The callbacks for these changes of the rings of a device.
abbrev pub rings : ℤ → List (ℕ × ℤ) → Vhost → Result Vhost
rings vid [] v = ok v
rings vid ((queue_id, enable) ∷ changes) v =
    on_vring_state_changed vid queue_id enable v >>= rings vid changes

on_vring_state_changed-missing :
    (vid : ℤ) (queue_id : ℕ) (enable : ℤ) (v : Vhost)
    → Dict.lookup vid v.pmap ≡ none
    → (after : Vhost) × (on_vring_state_changed vid queue_id enable v ≡ ok after)
      × (after.pmap ≡ v.pmap)
unfolding on_vring_state_changed notify_port_controller
on_vring_state_changed-missing vid queue_id enable v missing =
    let told = (notify_port_controller (pos 0) vid queue_id enable v).0 in
    let same : told.pmap ≡ v.pmap = elim (Bool-cases (has_client v.mode)) [
      | inl on ↦ simp on
      | inr off ↦ simp off
    ] in
    (
      if leb 2 queue_id then told else v,
      rw (set_queue_state-missing vid queue_id (as_bool enable) v.pmap missing),
      elim (Bool-cases (leb 2 queue_id)) [
        | inl reported ↦ simp reported same
        | inr silent ↦ simp silent
      ],
    )

rings-missing :
    (vid : ℤ) (changes : List (ℕ × ℤ)) (v : Vhost)
    → Dict.lookup vid v.pmap ≡ none
    → (after : Vhost) × (rings vid changes v ≡ ok after) × (Dict.lookup vid after.pmap ≡ none)
rings-missing vid [] v missing = (v, refl, missing)
rings-missing vid ((queue_id, enable) ∷ changes) v missing =
    let (w, e, same) = on_vring_state_changed-missing vid queue_id enable v missing in
    let (after, e', gone) = rings-missing vid changes w (ap (Dict.lookup vid) same ∙ missing) in
    (after, rw e e', gone)

-- A guest connects under the id that is the number of its port, and its first pair is ready; it
-- goes away, and connects again under the same id, with at most eight pairs each time. The
-- callbacks return. Whatever changes of the rings of that id are called back afterwards, these
-- return too, and no queue of that id is ready.
pub on_new_device_reconnect :
    (vrings vrings' : ℕ) (v : Vhost) (changes : List (ℕ × ℤ))
    → IsValid v.pmap
    → 2 ≤ vrings
    → vrings / 2 ≤ max_queue_pairs
    → vrings' / 2 ≤ max_queue_pairs
    → let vid = pos v.port_cntr in
      (first second third : Vhost) × (on_new_device vrings vid v ≡ ok first)
      × (is_queue_ready vid (pos 0) first.pmap ≡ ok true)
      × (on_new_device vrings' vid (on_destroy_device vid first) ≡ ok second)
      × (rings vid changes second ≡ ok third)
      × ((q : ℤ) → is_queue_ready vid q third.pmap ≡ ok false)
on_new_device_reconnect vrings vrings' v changes valid lo hi hi' =
    let vid = pos v.port_cntr in
    let (first, e, ready, cntr, valid1, _) = on_new_device_ready vrings v valid lo hi in
    let left = on_destroy_device vid first in
    let moved : left.port_cntr ≡ suc v.port_cntr = destroyed-port_cntr vid first ∙ cntr in
    let valid2 : IsValid left.pmap =
      subst IsValid (sym (destroyed-pmap vid first)) (clear-IsValid vid first.pmap valid1) in
    let (second, e', gone) =
      on_new_device-missing vrings' vid left valid2 hi' (λ k. ground arith)
        (destroyed-lookup vid first) in
    let (third, e'', gone') = rings-missing vid changes second gone in
    (first, second, third, e, ready, e', e'', λ q. is_queue_ready-missing vid q third.pmap gone')
