-- ===== src/PortMap/Order.antt =====
-- The entries of the map stay in the order of the port numbers, as in a std::map.
use vtb.Prelude.{
  ◌≡◌, refl, subst, Bool, true, false, List, [], ◌∷◌, ℤ, pos, negsuc, int_eq, int_ltb, int_beq_iff,
  ◌==◌, if◌then◌else◌, Result, ok, throws, undefined, All, arith, Bool-cases, Option-cases, inl,
  inr, ◌>>=◌,
}
use vtb.Prelude.Dict
use vtb.Common.Devices.{PortMap}
use vtb.PortMap.{
  PMap, below_max, store, init_vhost_device, set_queue_state, assign_pair, assign_port_data_socket,
  assign_port_control_socket, clear_device,
}
use vtb.PortMap.Runs.{Call, init, queue, data_socket, control_socket, clear, perform, run}

-- Every key comes behind this one.
abbrev pub Above : ℤ → PMap → Type 0
Above k pmap = All (λ e. int_ltb k (e.0) ≡ true) pmap

unfoldable pub IsSorted : PMap → Type 0
IsSorted [] = Unit {0}
IsSorted ((k, pm) ∷ pmap) = Above k pmap × IsSorted pmap

pub nil-IsSorted : IsSorted []
unfolding IsSorted
nil-IsSorted = tt

pub int_ltb_irrefl : (k : ℤ) → int_ltb k k ≡ true → ⊥
int_ltb_irrefl (pos n) h = ground arith
int_ltb_irrefl (negsuc n) h = ground arith

int_ltb_trans : (a b c : ℤ) → int_ltb a b ≡ true → int_ltb b c ≡ true → int_ltb a c ≡ true
int_ltb_trans (pos a) (pos b) (pos c) h k = ground arith
int_ltb_trans (pos a) (pos b) (negsuc c) h k = ground arith
int_ltb_trans (pos a) (negsuc b) c h k = ground arith
int_ltb_trans (negsuc a) (pos b) (pos c) h k = ground arith
int_ltb_trans (negsuc a) (pos b) (negsuc c) h k = ground arith
int_ltb_trans (negsuc a) (negsuc b) (pos c) h k = ground arith
int_ltb_trans (negsuc a) (negsuc b) (negsuc c) h k = ground arith

int_ltb_total : (a b : ℤ) → (a == b) ≡ false → int_ltb b a ≡ false → int_ltb a b ≡ true
int_ltb_total (pos a) (pos b) d h = ground arith
int_ltb_total (pos a) (negsuc b) d h = ground arith
int_ltb_total (negsuc a) (pos b) d h = ground arith
int_ltb_total (negsuc a) (negsuc b) d h = ground arith

Above-weaken : (k j : ℤ) (pmap : PMap) → int_ltb k j ≡ true → Above j pmap → Above k pmap
Above-weaken k j [] h a = tt
Above-weaken k j (e ∷ pmap) h a = (int_ltb_trans k j (e.0) h a.0, Above-weaken k j pmap h a.1)

Above-store :
    (j k : ℤ) (pm : PortMap) (pmap : PMap)
    → int_ltb j k ≡ true
    → Above j pmap
    → Above j (store k pm pmap)
unfolding Dict.insert
Above-store j k pm [] h a = (h, tt)
Above-store j k pm ((i, w) ∷ pmap) h a = elim (Bool-cases (i == k)) [
  | inl same ↦ simp same (h, a.1)
  | inr other ↦ (elim (Bool-cases (int_ltb k i)) [
    | inl before ↦ simp (other, before) (h, a)
    | inr behind ↦ simp (other, behind) (a.0, Above-store j k pm pmap h a.1)
  ])
]

store-IsSorted : (k : ℤ) (pm : PortMap) (pmap : PMap) → IsSorted pmap → IsSorted (store k pm pmap)
unfolding Dict.insert IsSorted
store-IsSorted k pm [] s = (tt, tt)
store-IsSorted k pm ((i, w) ∷ pmap) s = elim (Bool-cases (i == k)) [
  | inl same ↦ simp same (subst (λ x. Above x pmap) ((int_beq_iff i k).0 same) s.0, s.1)
  | inr other ↦ (elim (Bool-cases (int_ltb k i)) [
    | inl before ↦ simp (other, before) ((refl, Above-weaken k i pmap before s.0), s)
    | inr behind ↦
        simp (other, behind)
          (
            Above-store i k pm pmap (int_ltb_total i k other behind) s.0,
            store-IsSorted k pm pmap s.1,
          )
  ])
]

Above-erase : (j k : ℤ) (pmap : PMap) → Above j pmap → Above j (Dict.erase k pmap)
unfolding Dict.erase
Above-erase j k [] a = tt
Above-erase j k ((i, w) ∷ pmap) a = elim (Bool-cases (i == k)) [
  | inl same ↦ simp same (Above-erase j k pmap a.1)
  | inr other ↦ simp other (a.0, Above-erase j k pmap a.1)
]

erase-IsSorted : (k : ℤ) (pmap : PMap) → IsSorted pmap → IsSorted (Dict.erase k pmap)
unfolding Dict.erase IsSorted
erase-IsSorted k [] s = tt
erase-IsSorted k ((i, w) ∷ pmap) s = elim (Bool-cases (i == k)) [
  | inl same ↦ simp same (erase-IsSorted k pmap s.1)
  | inr other ↦ simp other (Above-erase i k pmap s.0, erase-IsSorted k pmap s.1)
]

-- The map that a call leaves is in order, if it returns.
abbrev Leaves : Result PMap → Type 0
Leaves (ok pmap) = IsSorted pmap
Leaves (throws w) = Unit {0}
Leaves undefined = Unit {0}

stored-Leaves :
    {A : Type 0} (r : Result A) (f : A → PortMap) (k : ℤ) (pmap : PMap)
    → IsSorted pmap
    → Leaves (r >>= λ a. ok (store k (f a) pmap))
stored-Leaves (ok a) f k pmap s = store-IsSorted k (f a) pmap s
stored-Leaves (throws w) f k pmap s = tt
stored-Leaves undefined f k pmap s = tt

if-Leaves : (b : Bool) (r q : Result PMap) → Leaves r → Leaves q → Leaves (if b then r else q)
if-Leaves true r q h k = h
if-Leaves false r q h k = k

perform-Leaves : (c : Call) (pmap : PMap) → IsSorted pmap → Leaves (perform c pmap)
unfolding perform init_vhost_device set_queue_state assign_port_data_socket
    assign_port_control_socket clear_device
perform-Leaves (init port_id vid n) pmap s = stored-Leaves _ (λ pm. pm) port_id pmap s
perform-Leaves (queue port_id v enable) pmap s = elim (Option-cases (Dict.lookup port_id pmap)) [
  | inl missing ↦ rw (missing, set_queue_state) s
  | inr (pm, found) ↦
      rw (found, set_queue_state)
        (stored-Leaves _ (λ qp. record pm { vd = record (pm.vd) { qp = qp } }) port_id pmap s)
]
perform-Leaves (data_socket port_id i fd) pmap s = elim (Option-cases (Dict.lookup port_id pmap)) [
  | inl missing ↦ rw (missing, assign_port_data_socket) s
  | inr (pm, found) ↦
      rw (found, assign_port_data_socket)
        (if-Leaves (below_max i) _ _
          (stored-Leaves (assign_pair i fd pm) (λ pm'. pm') port_id pmap s) s)
]
perform-Leaves (control_socket port_id fd) pmap s = elim (Option-cases (Dict.lookup port_id pmap)) [
  | inl missing ↦ rw (missing, assign_port_control_socket) s
  | inr (pm, found) ↦
      rw (found, assign_port_control_socket)
        (store-IsSorted port_id (record pm { pd = record (pm.pd) { ctlq_id = fd } }) pmap s)
]
perform-Leaves (clear vid) pmap s = erase-IsSorted vid pmap s

then-Leaves :
    (r : Result PMap) (f : PMap → Result PMap)
    → Leaves r
    → ((m : PMap) → IsSorted m → Leaves (f m))
    → Leaves (r >>= f)
then-Leaves (ok m) f h k = k m h
then-Leaves (throws w) f h k = tt
then-Leaves undefined f h k = tt

run-Leaves : (cs : List Call) (pmap : PMap) → IsSorted pmap → Leaves (run cs pmap)
unfolding run
run-Leaves [] pmap s = s
run-Leaves (c ∷ cs) pmap s =
    then-Leaves (perform c pmap) (run cs) (perform-Leaves c pmap s) (run-Leaves cs)

-- Whatever the calls are, a run that returns leaves the entries in the order of the port numbers.
pub run-IsSorted :
    (cs : List Call) (pmap after : PMap) → IsSorted pmap → run cs pmap ≡ ok after → IsSorted after
run-IsSorted cs pmap after s e = subst Leaves e (run-Leaves cs pmap s)
