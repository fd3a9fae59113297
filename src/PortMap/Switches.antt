-- ===== src/PortMap/Switches.antt =====
-- Sequences of `set_queue_state` on one port.
use vtb.Prelude.{
  ℕ, ◌/◌, ◌<◌, ◌≡◌, ◌≢◌, refl, ◌∙◌, ap, Bool, some, ℤ, Result, ok, List, ◌==◌, nat_eq, int_eq,
  if◌then◌else◌, arith, ◌>>=◌, [], ◌∷◌,
}
use vtb.Prelude.Dict
use vtb.Common.Devices.{PortMap}
use vtb.PortMap.{PMap, store, set_queue_state}
use vtb.PortMap.Attach.{lookup-store_self, lookup-store_ne}
use vtb.PortMap.Queues.{enabled}
use vtb.PortMap.Ports.{pairs, IsPort, set_queue_state-Switched}

-- The last state that a list of switches gives to queue `v`.
abbrev pub latest : List (ℕ × Bool) → ℕ → Bool → Bool
latest [] v state = state
latest ((w, enable) ∷ es) v state = latest es v (if w == v then enable else state)

pub switch_all : ℤ → List (ℕ × Bool) → PMap → Result PMap
switch_all port_id [] pmap = ok pmap
switch_all port_id ((v, enable) ∷ es) pmap =
    set_queue_state port_id v enable pmap >>= λ after. switch_all port_id es after

-- After any sequence of `set_queue_state` calls on a port, which all return, each queue of the
-- device is in the state that the last call for it gave, or else as before; the number of pairs
-- and every other port are as before.
pub switch_all-latest :
    (port_id : ℤ) (es : List (ℕ × Bool)) (pmap : PMap) (pm : PortMap)
    → Dict.lookup port_id pmap ≡ some pm
    → IsPort pm
    → (after : PMap) × (new : PortMap) × (switch_all port_id es pmap ≡ ok after)
      × (Dict.lookup port_id after ≡ some new)
      × IsPort new
      × (pairs new ≡ pairs pm)
      × ((v : ℕ) → v / 2 < pairs pm → enabled new.vd.qp v ≡ latest es v (enabled pm.vd.qp v))
      × ((q : ℤ) → q ≢ port_id → Dict.lookup q after ≡ Dict.lookup q pmap)
unfolding switch_all
switch_all-latest port_id [] pmap pm found port =
    (pmap, pm, refl, found, port, refl, λ v h. refl, λ q d. refl)
switch_all-latest port_id ((w, enable) ∷ es) pmap pm found port =
    let (mid, r, switched) = set_queue_state-Switched port_id w enable pmap pm found port in
    let pmap' = store port_id mid pmap in
    let (after, new, r', found', port', count, queues, others) =
      switch_all-latest port_id es pmap' mid (lookup-store_self port_id mid pmap) switched.port in
    let same : pairs mid ≡ pairs pm = ap pairs switched.same in
    (
      after,
      new,
      rw r r',
      found',
      port',
      count ∙ same,
      λ v h. queues v (omega (arith, same)) ∙ ap (latest es v) (switched.queues v h),
      λ q d. others q d ∙ lookup-store_ne port_id q mid pmap d,
    )
