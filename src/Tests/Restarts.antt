-- ===== src/Tests/Restarts.antt =====
-- A DPDK that keeps the names of its pools, and a handler that is started twice on it.
use mathlib.Core.Option.{none-ne-some}
use vtb.Prelude.{
  ℕ, ◌<◌, ◌≡◌, ◌≢◌, refl, sym, ◌∙◌, ap, Bool, true, false, ◌&&◌, Option, none, some, List, [], ◌∷◌,
  pos, negsuc, ok, Bytes, text, show_int, length, if◌then◌else◌, ◌==◌, ==_refl, nat_eq, bytes_eq,
  arith, Bool-cases, inl, inr, nat_beq_iff,
}
use vtb.Prelude.Effects.{done, raised}
use vtb.Handler.{
  Dpdk, Handler, fresh, start, stop, destroy, tx_pool_name, tx_worker, rx_worker, created,
  resource_name,
}
use vtb.Handler.Restart.{PoolNames, complaint, after_refusal, start-stop-start}

-- The names of the pools, the newest first, and whether each is still there. A pool's number is
-- how many were made before it.
abbrev Names : Type 0
Names = List (Bytes × Bool)

named : Bytes → Names → Option ℕ
named name [] = none
named name ((n, alive) ∷ rest) = if alive && n == name then some (length rest) else named name rest

make : Option ℕ → Bytes → Names → Option ℕ × Names
make none name env = (some (length env), (name, true) ∷ env)
make (some p) name env = (none, env)

kill : ℕ → Names → Names
kill q [] = []
kill q ((n, alive) ∷ rest) =
    if length rest == q then (n, false) ∷ rest else (n, alive) ∷ kill q rest

abbrev registry : Dpdk
registry = record {
  Env = Names;
  pktmbuf_pool_create = λ name size cache env. make (named name env) name env;
  ring_create = λ name size env. (some 0, env);
  mempool_free = kill;
  ring_free = λ r env. env;
  rte_errno = λ env. pos 17;
}

named-refused :
    (name : Bytes) (p : ℕ) (env : Names)
    → named name env ≡ some p
    → (make (named name env) name env).0 ≡ none
unfolding make
named-refused name p env e = rw e refl

named-taken :
    (name : Bytes) (found : Option ℕ) (env : Names)
    → named name env ≡ found
    → (p : ℕ) → (make found name env).0 ≡ some p
    → named name (make found name env).1 ≡ some p
unfolding make named
named-taken name none env e p h = rw (==_refl name) h
named-taken name (some q) env e p h = cc

named-lt : (name : Bytes) (p : ℕ) (env : Names) → named name env ≡ some p → p < length env
unfolding named
named-lt name p [] e = cc
named-lt name p ((n, alive) ∷ rest) e = ground (arith, named-lt name p rest)

make-apart :
    (name other : Bytes) (found : Option ℕ) (p q : ℕ) (env : Names)
    → named other env ≡ some p
    → (make found name env).0 ≡ some q
    → q ≢ p
unfolding make
make-apart name other none p q env e h same = ground (arith, named-lt other p env)
make-apart name other (some r) p q env e h same = cc

make-kept :
    (name other : Bytes) (found : Option ℕ) (p : ℕ) (env : Names)
    → named name env ≡ found
    → named other env ≡ some p
    → named other (make found name env).1 ≡ some p
unfolding make named
make-kept name other (some r) p env f e = e
make-kept name other none p env f e = elim (Bool-cases (name == other)) [
  | inr differ ↦ rw differ e
  | inl same ↦
      absurd
        (none-ne-some p (sym f ∙ ap (λ n. named n env) ((bytes_eq.beq_iff name other).0 same) ∙ e))
]

length-kill : (q : ℕ) (env : Names) → length (kill q env) ≡ length env
unfolding kill
length-kill q [] = refl
length-kill q ((n, alive) ∷ rest) = ground (arith, length-kill q rest)

named-kill :
    (other : Bytes) (p q : ℕ) (env : Names)
    → named other env ≡ some p
    → q ≢ p
    → named other (kill q env) ≡ some p
unfolding named kill
named-kill other p q [] e d = e
named-kill other p q ((n, alive) ∷ rest) e d =
    ground (arith, length-kill q rest, named-kill other p q rest, nat_beq_iff (length rest) q)

registry-PoolNames : PoolNames registry
registry-PoolNames = record {
  pool_named = named;
  refused = λ name p size cache env e. named-refused name p env e;
  made = λ name p size cache env h. named-taken name (named name env) env refl p h;
  apart = λ name other p q size cache env e h. make-apart name other (named name env) p q env e h;
  kept = λ name other p size cache env e. make-kept name other (named name env) p env refl e;
  kept_ring = λ name other p size env e. e;
  kept_free = λ other p q env e d. named-kill other p q env e d;
  kept_ring_free = λ other p r env e. e;
}

-- The handler and the names after the first start.
abbrev started : Handler
started = record {
  is_running = false;
  vid = negsuc 0;
  rxqid = negsuc 0;
  txqid = negsuc 0;
  tx_mbuf_pool = some 0;
  rx_mbuf_pool = some 1;
  tx_ring = some 0;
  rx_ring = some 0;
  workers =
      record { role = tx_worker; phase = created }
      ∷ record { role = rx_worker; phase = created }
      ∷ [];
}

abbrev taken : Names
taken = (text "RX_MBUF_POOL_-1_-1", true) ∷ (text "TX_MBUF_POOL_-1_-1", true) ∷ []

first_start : start registry (text "Loopback") (ok (pos 2)) (fresh, []) ≡ done tt (started, taken)
unfolding start fresh named make resource_name show_int
first_start = refl

start-stop-start_example :
    let env2 = after_refusal registry registry-PoolNames started taken in
    let after = record (stop started) { tx_mbuf_pool = none } in
    (p : ℕ) × (some 0 ≡ some p)
    × (start registry (text "Loopback") (ok (pos 2)) (stop started, taken)
        ≡ raised (complaint registry registry-PoolNames started env2) (after, env2))
    × (named (tx_pool_name started) (destroy registry after env2).1 ≡ some p)
unfolding named registry-PoolNames
start-stop-start_example =
    start-stop-start registry registry-PoolNames (text "Loopback") (pos 2) fresh started [] taken
      first_start
