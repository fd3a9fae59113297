-- ===== src/PortMap/Rows.antt =====
-- What `print_portmap` prints of the map that a run of calls has made.
use mathlib.Core.Option.{none-ne-some}
use vtb.Prelude.{
  ℕ, zero, suc, ◌+◌, ◌≤◌, ◌≡◌, refl, sym, ◌∙◌, ap, subst, true, none, List, [], ◌∷◌, ◌++◌, ℤ,
  int_eq, int_ltb, int_beq_iff, Bool, false, ◌==◌, ==_refl, Bytes, ok, get_elem?-of_lt, length,
  length-append, All, arith, Bool-cases, inl, inr,
}
use vtb.Prelude.Dict
use vtb.Common.Devices.{VhostQueuePair, PortQueuePair, PortMap, max_queue_pairs}
use vtb.Common.Wire.{drop, drop-get_elem?}
use vtb.PortMap.{PMap}
use vtb.PortMap.Init.{HasRoom}
use vtb.PortMap.Ports.{IsPort, IsValid, pairs}
use vtb.PortMap.Runs.{Call, run, InLimits, run-IsValid, nil-IsValid}
use vtb.PortMap.Order.{Above, IsSorted, run-IsSorted, nil-IsSorted, int_ltb_irrefl}
use vtb.PortMap.Print.{port_rows, all_rows, print_portmap}
use vtb.PortMap.Print.Table.{titles, dashes, port_lines, is_first, header-titles, pair_row-line}

-- A key that every other comes behind is not among them.
Above-missing : (k : ℤ) (pmap : PMap) → Above k pmap → Dict.lookup k pmap ≡ none
unfolding Dict.lookup
Above-missing k [] a = refl
Above-missing k ((i, w) ∷ pmap) a = elim (Bool-cases (i == k)) [
  | inl same ↦
      absurd (int_ltb_irrefl k (subst (λ z. int_ltb k z ≡ true) ((int_beq_iff i k).0 same) a.0))
  | inr other ↦ simp other (Above-missing k pmap a.1)
]

entries-IsPort : (pmap : PMap) → IsSorted pmap → IsValid pmap → All (λ e. IsPort (e.1)) pmap
unfolding IsSorted Dict.lookup
entries-IsPort [] s valid = tt
entries-IsPort ((k, pm) ∷ pmap) s valid = (
  valid k pm (simp (==_refl k)),
  entries-IsPort pmap s.1 (λ p qm e. valid p qm (elim (Bool-cases (k == p)) [
    | inl same ↦ absurd (
        none-ne-some qm (
          sym (Above-missing k pmap s.0)
          ∙ ap (λ z. Dict.lookup z pmap) ((int_beq_iff k p).0 same)
          ∙ e))
    | inr other ↦ simp other e
  ])),
)

port_rows-port_lines :
    (port_id : ℤ) (pm : PortMap) (rounds i : ℕ)
    → HasRoom pm
    → i + rounds ≤ max_queue_pairs
    → port_rows port_id pm rounds i
      ≡ ok (
          port_lines port_id pm
            (is_first i)
            rounds
            (drop i pm.vd.qp)
            (drop i pm.pd.qp)
            (drop i pm.vd.qpid)
          ++ dashes ∷ [])
unfolding port_rows
port_rows-port_lines port_id pm zero i room h = refl
port_rows-port_lines port_id pm (suc rounds) i room h =
    let (vqp, e) = get_elem?-of_lt pm.vd.qp i (omega (arith, room.vhost_room)) in
    let (pqp, e') = get_elem?-of_lt pm.pd.qp i (omega (arith, room.port_room)) in
    let (qpid, e'') = get_elem?-of_lt pm.vd.qpid i (omega (arith, room.id_room)) in
    rw (e, e', e'', port_rows-port_lines port_id pm rounds (suc i) room (omega arith))
      (rw (
        drop-get_elem? i pm.vd.qp vqp e,
        drop-get_elem? i pm.pd.qp pqp e',
        drop-get_elem? i pm.vd.qpid qpid e'',
        pair_row-line port_id pm i qpid vqp pqp,
      ))

-- The part of the table for each port: a line for each of its queue pairs, and a rule.
abbrev pub port_parts : PMap → List Bytes
port_parts [] = []
port_parts ((port_id, pm) ∷ pmap) =
    (port_lines port_id pm true (pairs pm) pm.vd.qp pm.pd.qp pm.vd.qpid ++ dashes ∷ [])
    ++ port_parts pmap

-- The lines of a port, and the rule, are one more than its queue pairs.
abbrev pub rows_of : PMap → ℕ
rows_of [] = 0
rows_of ((port_id, pm) ∷ pmap) = suc (pairs pm) + rows_of pmap

all_rows-port_parts :
    (pmap : PMap) → All (λ e. IsPort (e.1)) pmap → all_rows pmap ≡ ok (port_parts pmap)
unfolding all_rows
all_rows-port_parts [] h = refl
all_rows-port_parts ((port_id, pm) ∷ pmap) h =
    rw (port_rows-port_lines port_id pm (pairs pm) 0 h.0.room (omega (arith, h.0.count)))
      (rw (all_rows-port_parts pmap h.1))

length-port_lines :
    (port_id : ℤ) (pm : PortMap) (first : Bool) (n : ℕ) (qs : List VhostQueuePair)
    (ps : List PortQueuePair) (ids : List ℤ)
    → n ≤ length qs
    → n ≤ length ps
    → n ≤ length ids
    → length (port_lines port_id pm first n qs ps ids) ≡ n
length-port_lines port_id pm first zero qs ps ids h k l = refl
length-port_lines port_id pm first (suc n) [] ps ids h k l = absurd (omega arith)
length-port_lines port_id pm first (suc n) (q ∷ qs) [] ids h k l = absurd (omega arith)
length-port_lines port_id pm first (suc n) (q ∷ qs) (p ∷ ps) [] h k l = absurd (omega arith)
length-port_lines port_id pm first (suc n) (q ∷ qs) (p ∷ ps) (i ∷ ids) h k l =
    ap suc
      (length-port_lines port_id pm false n qs ps ids (omega arith) (omega arith) (omega arith))

length-port_parts :
    (pmap : PMap) → All (λ e. IsPort (e.1)) pmap → length (port_parts pmap) ≡ rows_of pmap
length-port_parts [] h = refl
length-port_parts ((port_id, pm) ∷ pmap) h =
    let lines = port_lines port_id pm true (pairs pm) pm.vd.qp pm.pd.qp pm.vd.qpid in
    let room = h.0.room in
    let n : length lines ≡ pairs pm =
      length-port_lines port_id pm true (pairs pm) pm.vd.qp pm.pd.qp pm.vd.qpid
        (omega (arith, h.0.count, room.vhost_room)) (omega (arith, h.0.count, room.port_room))
        (omega (arith, h.0.count, room.id_room)) in
    omega (
      arith,
      n,
      length-append lines (dashes ∷ []),
      length-append (lines ++ dashes ∷ []) (port_parts pmap),
      length-port_parts pmap h.1,
    )

-- After any run of calls within the limits on the empty map, the entries of the map are in the
-- order of the port numbers, and `print_portmap` stays within the arrays: it returns the titles of
-- the columns, a rule, and for each port a line for each of its queue pairs and a rule. Each line
-- shows, below the title of its column and filled up to its width, what the column is about: the
-- pair's number, its queues and whether they are enabled, and its sockets, with a dash for one that
-- is not assigned; and, in the first line of a port only, what the pairs of the port share.
pub print_portmap-run :
    (cs : List Call)
    → All InLimits cs
    → (pmap : PMap) × (run cs [] ≡ ok pmap)
      × IsSorted pmap
      × (print_portmap pmap ≡ ok (titles ∷ dashes ∷ port_parts pmap))
      × (length (port_parts pmap) ≡ rows_of pmap)
unfolding print_portmap
print_portmap-run cs h =
    let (pmap, e, valid) = run-IsValid cs [] nil-IsValid h in
    let sorted = run-IsSorted cs [] pmap nil-IsSorted e in
    let ports = entries-IsPort pmap sorted valid in
    (
      pmap,
      e,
      sorted,
      rw (all_rows-port_parts pmap ports)
          (ap (λ t. ok (t ∷ dashes ∷ port_parts pmap)) header-titles),
      length-port_parts pmap ports,
    )
