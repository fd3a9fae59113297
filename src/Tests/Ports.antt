-- ===== src/Tests/Ports.antt =====
-- Runs and instances for PortMap.antt.
use mathlib.Core.Option.{some-injective, none-ne-some}
use vtb.Prelude.{
  length, ◌+◌, ℕ, zero, suc, ◌+◌, ◌*◌, ◌<◌, ◌≡◌, refl, sym, ◌∙◌, subst, true, false, some, List, [],
  ◌∷◌, ℤ, pos, ok, undefined, int_eq, ◌==◌, arith, get_elem?, Bool-cases, inl, inr, none,
}
use vtb.Prelude.Dict
use vtb.Common.Devices.{PortMap, VhostQueuePair, zero_port_map}
use vtb.PortMap.{PMap, init_vhost_device}
use vtb.PortMap.Attach.{init_vhost_device-undefined, zero_port_map-HasRoom}
use vtb.PortMap.Ports.{IsPort, IsValid}
use vtb.PortMap.Order.{IsSorted}
use vtb.PortMap.Print.Table.{titles, dashes}
use vtb.PortMap.Rows.{port_parts, rows_of, print_portmap-run}
use vtb.PortMap.Print.{print_portmap}
use vtb.PortMap.Runs.{
  Call, init, queue, data_socket, control_socket, clear, run, run-IsValid, nil-IsValid,
}

abbrev empty_pair : VhostQueuePair
empty_pair = record { rxq_id = 0; txq_id = 0; rxq_enabled = false; txq_enabled = false }

-- A map with one device of two pairs at port 0, under the id 10.
abbrev port : PortMap
port = record {
  vd = record {
    vid = pos 10;
    nof_queue_pairs = pos 2;
    ready = true;
    ctlq_id = 4;
    qpid = pos 0 ∷ pos 1 ∷ pos 0 ∷ pos 0 ∷ pos 0 ∷ pos 0 ∷ pos 0 ∷ pos 0 ∷ [];
    qp =
        record { rxq_id = 0; txq_id = 1; rxq_enabled = true; txq_enabled = false }
        ∷ record { rxq_id = 2; txq_id = 3; rxq_enabled = false; txq_enabled = false }
        ∷ empty_pair
        ∷ empty_pair
        ∷ empty_pair
        ∷ empty_pair
        ∷ empty_pair
        ∷ empty_pair
        ∷ [];
  };
  pd = zero_port_map.pd;
}

abbrev one_port : PMap
one_port = (pos 0, port) ∷ []

found : Dict.lookup (pos 0) one_port ≡ some port
unfolding Dict.lookup
found = refl

port-IsPort : IsPort port
port-IsPort = record {
  room = record { vhost_room = refl; id_room = refl; port_room = refl };
  count = omega arith;
  ids = ids;
}
  where
    ids :
        (i : ℕ)
        → i < 2
        → (q : VhostQueuePair) × (get_elem? port.vd.qp i ≡ some q)
          × (q.rxq_id ≡ i * 2)
          × (q.txq_id ≡ i * 2 + 1)
    ids zero h = (_, refl, refl, refl)
    ids (suc zero) h = (_, refl, refl, refl)
    ids (suc (suc i)) h = absurd (omega arith)

elsewhere : (p : ℤ) → (pos 0 == p) ≡ false → Dict.lookup p one_port ≡ none
unfolding Dict.lookup
elsewhere p gone = rw gone refl

one_port-IsValid : IsValid one_port
unfolding Dict.lookup
one_port-IsValid p pm e = elim (Bool-cases (pos 0 == p)) [
  | inl here ↦ subst IsPort (some-injective _ _ (sym (rw here refl) ∙ e)) port-IsPort
  | inr gone ↦ absurd (none-ne-some _ (sym (elsewhere p gone) ∙ e))
]

init_vhost_device-undefined_example : init_vhost_device (pos 3) (pos 7) (pos 9) [] ≡ undefined
unfolding Dict.lookup
init_vhost_device-undefined_example =
    init_vhost_device-undefined (pos 3) (pos 7) 9 [] zero_port_map-HasRoom (omega arith)

abbrev calls : List Call
calls =
    init (pos 0) (pos 10) 2
    ∷ queue (pos 0) 0 true
    ∷ data_socket (pos 0) (pos 1) (pos 5)
    ∷ control_socket (pos 0) (pos 6)
    ∷ clear (pos 0)
    ∷ []

run-IsValid_example : (after : PMap) × (run calls [] ≡ ok after) × IsValid after
run-IsValid_example = run-IsValid calls [] nil-IsValid (omega arith, (tt, (tt, (tt, (tt, tt)))))

print_portmap-run_example :
    (pmap : PMap) × (run calls [] ≡ ok pmap)
    × IsSorted pmap
    × (print_portmap pmap ≡ ok (titles ∷ dashes ∷ port_parts pmap))
    × (length (port_parts pmap) ≡ rows_of pmap)
print_portmap-run_example = print_portmap-run calls (omega arith, (tt, (tt, (tt, (tt, tt)))))
