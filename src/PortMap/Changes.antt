-- ===== src/PortMap/Changes.antt =====
-- Each call of ConfigManager that changes `pmap_` makes the change of the specification.
use native.Mathlib.Decide.{dec_lt}
use vtb.Prelude.{
  ℕ, ◌≤◌, ◌≡◌, refl, Bool, none, some, ℤ, pos, negsuc, int_eq, nat_eq, ok, arith, inl, inr,
}
use vtb.Prelude.Dict
use vtb.Common.Devices.{PortMap, max_queue_pairs}
use vtb.PortMap.{PMap, store, port_at, set_queue_state, assign_port_control_socket, clear_device}
use vtb.PortMap.Attach.{init_vhost_device-IsFresh, lookup-store_self, lookup-store_ne}
use vtb.PortMap.Ports.{set_queue_state-Switched}
use vtb.PortMap.Runs.{
  Call, init, queue, data_socket, control_socket, clear, perform, InLimits, connected,
  data_socket-connected, data_socket-ignored,
}
use vtb.PortMap.Spec.{Port, Ports, or_blank, attached, switched, wired, on_port, at_port, change}
use vtb.PortMap.Represents.{
  Represents, Implements, changed, Matches-cases, IsFresh-Represents, Switched-Represents,
  connected-Represents, ignored-Represents, controlled-Represents, port_at-Represents,
}

-- Each call returns, with the map that the specification says.
abbrev pub Changes : Call → PMap → Ports → Type 0
Changes c pmap s = (after : PMap) × (perform c pmap ≡ ok after) × Implements after (change c s)

missing-Changes :
    (p : ℤ) (f : Port → Port) (pmap : PMap) (s : Ports)
    → Implements pmap s
    → Dict.lookup p pmap ≡ none
    → s p ≡ none
    → Implements pmap (at_port p (on_port f (s p)) s)
missing-Changes p f pmap s h e e' =
    changed p (on_port f (s p)) pmap pmap s h (rw (e, e') tt) (λ q d. refl)

stored-Changes :
    (p : ℤ) (f : Port → Port) (new : PortMap) (w : Port) (pmap : PMap) (s : Ports)
    → Implements pmap s
    → s p ≡ some w
    → Represents new (f w)
    → Implements (store p new pmap) (at_port p (on_port f (s p)) s)
stored-Changes p f new w pmap s h e r =
    changed p (on_port f (s p)) pmap (store p new pmap) s h (rw (e, lookup-store_self p new pmap) r)
      (λ q d. lookup-store_ne p q new pmap d)

init-Changes :
    (p vid : ℤ) (n : ℕ) (pmap : PMap) (s : Ports)
    → Implements pmap s
    → n ≤ max_queue_pairs
    → Changes (init p vid n) pmap s
unfolding perform
init-Changes p vid n pmap s h k =
    let old = port_at-Represents p pmap (s p) (h p) in
    let (after, new, e, found, fresh, others) =
      init_vhost_device-IsFresh p vid n pmap old.port.room k in
    (
      after,
      e,
      changed p (some (attached vid n (or_blank (s p)))) pmap after s h
          (rw found (IsFresh-Represents vid n (port_at p pmap) new (or_blank (s p)) k old fresh))
          others,
    )

queue-Changes :
    (p : ℤ) (v : ℕ) (enable : Bool) (pmap : PMap) (s : Ports)
    → Implements pmap s
    → Changes (queue p v enable) pmap s
unfolding perform
queue-Changes p v enable pmap s h = elim (Matches-cases (Dict.lookup p pmap) (s p) (h p)) [
  | inl (e, e') ↦ (
    pmap,
    unfold set_queue_state in rw (e, set_queue_state),
    missing-Changes p (switched v enable) pmap s h e e',
  )
  | inr (pm, w, e, e', r) ↦
      let (new, returns, s') = set_queue_state-Switched p v enable pmap pm e r.port in
      (
        store p new pmap,
        returns,
        stored-Changes p (switched v enable) new w pmap s h e'
            (Switched-Represents v enable pm new w r s'),
      )
]

data_socket-Changes :
    (p : ℤ) (i : ℕ) (fd : ℤ) (pmap : PMap) (s : Ports)
    → Implements pmap s
    → Changes (data_socket p (pos i) fd) pmap s
unfolding perform
data_socket-Changes p i fd pmap s h = elim (Matches-cases (Dict.lookup p pmap) (s p) (h p)) [
  | inl (e, e') ↦
      (pmap, data_socket-ignored p i fd pmap (inl e), missing-Changes p (wired i fd) pmap s h e e')
  | inr (pm, w, e, e', r) ↦ elim (dec_lt i max_queue_pairs) [
    | yes k ↦ (
      store p (connected i fd pm) pmap,
      data_socket-connected p i fd pmap pm e r.port k,
      stored-Changes p (wired i fd) (connected i fd pm) w pmap s h e'
          (connected-Represents i fd pm w r k),
    )
    | no k ↦ (
      pmap,
      data_socket-ignored p i fd pmap (inr (omega arith)),
      changed p (on_port (wired i fd) (s p)) pmap pmap s h
          (rw (e, e') (ignored-Represents i fd pm w r (omega arith))) (λ q d. refl),
    )
  ]
]

control_socket-Changes :
    (p fd : ℤ) (pmap : PMap) (s : Ports) → Implements pmap s → Changes (control_socket p fd) pmap s
unfolding perform assign_port_control_socket
control_socket-Changes p fd pmap s h = elim (Matches-cases (Dict.lookup p pmap) (s p) (h p)) [
  | inl (e, e') ↦ (
    pmap,
    rw (e, assign_port_control_socket),
    missing-Changes p (λ v. record v { control = fd }) pmap s h e e',
  )
  | inr (pm, w, e, e', r) ↦
      let new = record pm { pd = record (pm.pd) { ctlq_id = fd } } in
      (
        store p new pmap,
        rw (e, assign_port_control_socket),
        stored-Changes p (λ v. record v { control = fd }) new w pmap s h e'
            (controlled-Represents fd pm w r),
      )
]

clear-Changes : (p : ℤ) (pmap : PMap) (s : Ports) → Implements pmap s → Changes (clear p) pmap s
unfolding perform clear_device
clear-Changes p pmap s h = (
  _,
  refl,
  changed p none pmap (Dict.erase p pmap) s h (rw (Dict.lookup-erase_self p pmap) tt)
      (λ q d. Dict.lookup-erase_ne p q pmap d),
)

pub perform-Changes :
    (c : Call) (pmap : PMap) (s : Ports) → Implements pmap s → InLimits c → Changes c pmap s
perform-Changes (init p vid n) pmap s h k = init-Changes p vid n pmap s h k
perform-Changes (queue p v enable) pmap s h k = queue-Changes p v enable pmap s h
perform-Changes (data_socket p (pos i) fd) pmap s h k = data_socket-Changes p i fd pmap s h
perform-Changes (data_socket p (negsuc i) fd) pmap s h k = absurd k
perform-Changes (control_socket p fd) pmap s h k = control_socket-Changes p fd pmap s h
perform-Changes (clear p) pmap s h k = clear-Changes p pmap s h
