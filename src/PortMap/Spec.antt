-- ===== src/PortMap/Spec.antt =====
-- What a caller of the map is promised: a specification of the calls of ConfigManager on `pmap_`
-- without arrays, ids of queues or loops. A port is its device's id, its number of queue pairs,
-- the set of its enabled queues, and the sockets that it has been given.
use vtb.Prelude.{
  ℕ, ◌*◌, ◌+◌, ◌<◌, Bool, false, ◌&&◌, none, some, Option, List, [], ◌∷◌, ℤ, pos, negsuc, int_eq,
  nat_eq, ◌==◌, if◌then◌else◌, ltb, Result, ok, ◌>>=◌,
}
use vtb.PortMap.{PMap, not_found, is_queue_ready, get_vhost_qids}
use vtb.PortMap.Runs.{Call, init, queue, data_socket, control_socket, clear, perform, InLimits}

pub record Port : Type 0 where
  pub device : ℤ
  pub count : ℕ
  pub on : ℕ → Bool
  pub socket : ℕ → ℤ
  pub control : ℤ

abbrev pub Ports : Type 0
Ports = ℤ → Option Port

-- A port before its first device.
abbrev pub blank : Port
blank = record { device = pos 0; count = 0; on = λ _. false; socket = λ _. pos 0; control = pos 0 }

abbrev pub or_blank : Option Port → Port
or_blank none = blank
or_blank (some v) = v

-- A new device has all its queues off and none of its pairs connected.
abbrev pub attached : ℤ → ℕ → Port → Port
attached vid n old = record {
  device = vid;
  count = n;
  on = λ _. false;
  socket = λ i. if ltb i n then negsuc 0 else old.socket i;
  control = old.control;
}

abbrev pub switched : ℕ → Bool → Port → Port
switched v enable old = record old { on = λ w. if v == w then enable else old.on w }

abbrev pub wired : ℕ → ℤ → Port → Port
wired i fd old = record old { socket = λ j. if i == j then fd else old.socket j }

-- A change to a port that is there.
abbrev pub on_port : (Port → Port) → Option Port → Option Port
on_port f none = none
on_port f (some v) = some (f v)

abbrev pub at_port : ℤ → Option Port → Ports → Ports
at_port p v s q = if p == q then v else s q

abbrev pub change : Call → Ports → Ports
change (init p vid n) s = at_port p (some (attached vid n (or_blank (s p)))) s
change (queue p v enable) s = at_port p (on_port (switched v enable) (s p)) s
change (data_socket p (pos i) fd) s = at_port p (on_port (wired i fd) (s p)) s
change (data_socket p (negsuc i) fd) s = s
change (control_socket p fd) s = at_port p (on_port (λ v. record v { control = fd }) (s p)) s
change (clear p) s = at_port p none s

-- A pair is ready when both its queues are on.
abbrev pub pair_ready : ℕ → Option Port → Bool
pair_ready i none = false
pair_ready i (some v) = v.on (i * 2) && v.on (i * 2 + 1)

abbrev pub pair_ids : ℤ → Option Port → ℤ × ℕ × ℕ
pair_ids q none = not_found
pair_ids (negsuc i) (some v) = not_found
pair_ids (pos i) (some v) = if ltb i v.count then (v.device, i * 2, i * 2 + 1) else not_found

pub data Request : Type 0 where
  call : Call → Request
  ready : ℤ → ℤ → Request
  ids : ℤ → ℤ → Request

pub data Answer : Type 0 where
  done : Answer
  is_ready : Bool → Answer
  qids : ℤ × ℕ × ℕ → Answer

-- The member functions.
unfoldable pub answer : Request → PMap → Result (Answer × PMap)
answer (call c) pmap = perform c pmap >>= λ after. ok (done, after)
answer (ready p q) pmap = is_queue_ready p q pmap >>= λ b. ok (is_ready b, pmap)
answer (ids p q) pmap = get_vhost_qids p q pmap >>= λ t. ok (qids t, pmap)

unfoldable pub serve : List Request → PMap → Result (List Answer × PMap)
serve [] pmap = ok ([], pmap)
serve (r ∷ rs) pmap = do
  (a, after) ← answer r pmap
  (more, end) ← serve rs after
  ok (a ∷ more, end)

-- Their specification.
abbrev pub reply : Request → Ports → Answer
reply (call c) s = done
reply (ready p (pos q)) s = is_ready (pair_ready q (s p))
reply (ready p (negsuc q)) s = is_ready false
reply (ids p q) s = qids (pair_ids q (s p))

abbrev pub next : Request → Ports → Ports
next (call c) s = change c s
next (ready p q) s = s
next (ids p q) s = s

abbrev pub replies : List Request → Ports → List Answer
replies [] s = []
replies (r ∷ rs) s = reply r s ∷ replies rs (next r s)

abbrev pub state_after : List Request → Ports → Ports
state_after [] s = s
state_after (r ∷ rs) s = state_after rs (next r s)

-- The port has the pair, if it is there.
abbrev pub HasPair : ℤ → Option Port → Type 0
HasPair q none = Unit {0}
HasPair (pos i) (some v) = i < v.count
HasPair (negsuc i) (some v) = ⊥

-- What a caller has to see to: at most eight pairs, no negative index, and no question about the
-- state of a pair that the port does not have.
abbrev pub IsAllowed : Request → Ports → Type 0
IsAllowed (call c) s = InLimits c
IsAllowed (ready p q) s = HasPair q (s p)
IsAllowed (ids p q) s = Unit {0}

abbrev pub AllAllowed : List Request → Ports → Type 0
AllAllowed [] s = Unit {0}
AllAllowed (r ∷ rs) s = IsAllowed r s × AllAllowed rs (next r s)
