-- ===== src/Handler/Restart.antt =====
-- A second `start` of a handler with the ids of the first.
use vtb.Prelude.{
  ℕ, ℤ, pos, int_eq, bytes_eq, ◌==◌, Bytes, text, Option, none, some, ok, List, ◌++◌, show_int, ◌≡◌,
  ◌≢◌, refl, subst, Bool-cases, Option-cases, inl, inr,
}
use vtb.Prelude.Effects.{Exec, done, raised, lost, bind}
use vtb.Handler.{
  Dpdk, Handler, Worker, World, start, stop, destroy, create_tx_pool, create_rx_pool,
  create_tx_ring, launch, tx_pool_name, rx_pool_name, tx_ring_name, mbuf_pool_size, mbuf_cache_size,
  ring_size, free_if,
}

-- What DPDK documents of the names of its pools; `pool_named` is rte_mempool_lookup.
pub record PoolNames (D : Dpdk) : Type 0 where
  pub pool_named : Bytes → D.Env → Option ℕ
  -- A name that is taken is refused.
  pub refused :
      (name : Bytes) (p size cache : ℕ) (env : D.Env)
      → pool_named name env ≡ some p
      → (D.pktmbuf_pool_create name size cache env).0 ≡ none
  -- A pool that is made has its name, and is none of those that had one.
  pub made :
      (name : Bytes) (p size cache : ℕ) (env : D.Env)
      → (D.pktmbuf_pool_create name size cache env).0 ≡ some p
      → pool_named name (D.pktmbuf_pool_create name size cache env).1 ≡ some p
  pub apart :
      (name other : Bytes) (p q size cache : ℕ) (env : D.Env)
      → pool_named other env ≡ some p
      → (D.pktmbuf_pool_create name size cache env).0 ≡ some q
      → q ≢ p
  -- Nothing but the free of a pool takes its name away.
  pub kept :
      (name other : Bytes) (p size cache : ℕ) (env : D.Env)
      → pool_named other env ≡ some p
      → pool_named other (D.pktmbuf_pool_create name size cache env).1 ≡ some p
  pub kept_ring :
      (name other : Bytes) (p size : ℕ) (env : D.Env)
      → pool_named other env ≡ some p
      → pool_named other (D.ring_create name size env).1 ≡ some p
  pub kept_free :
      (other : Bytes) (p q : ℕ) (env : D.Env)
      → pool_named other env ≡ some p
      → q ≢ p
      → pool_named other (D.mempool_free q env) ≡ some p
  pub kept_ring_free :
      (other : Bytes) (p r : ℕ) (env : D.Env)
      → pool_named other env ≡ some p
      → pool_named other (D.ring_free r env) ≡ some p

module _ (D : Dpdk) (names : PoolNames D) where
  open names use {pool_named}

  -- A handler holds two different pools, and the first has its name.
  record Holds (h : Handler) (env : D.Env) : Type 0 where
    pub tx : ℕ
    pub rx : ℕ
    pub tx_held : h.tx_mbuf_pool ≡ some tx
    pub rx_held : h.rx_mbuf_pool ≡ some rx
    pub differ : rx ≢ tx
    pub named : pool_named (tx_pool_name h) env ≡ some tx

  record HoldsTx (h : Handler) (env : D.Env) : Type 0 where
    pub tx : ℕ
    pub tx_held : h.tx_mbuf_pool ≡ some tx
    pub named : pool_named (tx_pool_name h) env ≡ some tx

  -- A property of the handler and DPDK when the call returns.
  abbrev Gives : (Handler → D.Env → Type 0) → Exec (World D) (Unit {0}) → Type 0
  Gives P (done x (h, env)) = P h env
  Gives P (raised e s) = Unit {0}
  Gives P lost = Unit {0}

  Gives-bind :
      (P Q : Handler → D.Env → Type 0) (r : Exec (World D) (Unit {0}))
      (k : Handler × D.Env → Exec (World D) (Unit {0}))
      → Gives P r
      → ((h : Handler) (env : D.Env) → P h env → Gives Q (k (h, env)))
      → Gives Q (bind r (λ _. k))
  Gives-bind P Q (done x (h, env)) k p f = f h env p
  Gives-bind P Q (raised e s) k p f = tt
  Gives-bind P Q lost k p f = tt

  create_tx_pool-Gives : (h : Handler) (env : D.Env) → Gives HoldsTx (create_tx_pool D (h, env))
  unfolding create_tx_pool
  create_tx_pool-Gives h env =
      elim (Option-cases
        (D.pktmbuf_pool_create (tx_pool_name h) mbuf_pool_size mbuf_cache_size env).0) [
          | inl e ↦ rw e tt
          | inr (p, e) ↦ rw e (record {
            tx = p;
            tx_held = refl;
            named = names.made (tx_pool_name h) p mbuf_pool_size mbuf_cache_size env e;
          })
        ]

  create_rx_pool-Gives :
      (h : Handler) (env : D.Env) → HoldsTx h env → Gives Holds (create_rx_pool D (h, env))
  unfolding create_rx_pool
  create_rx_pool-Gives h env t =
      elim (Option-cases
        (D.pktmbuf_pool_create (rx_pool_name h) mbuf_pool_size mbuf_cache_size env).0) [
          | inl e ↦ rw e tt
          | inr (q, e) ↦ rw e (record {
            tx = t.tx;
            rx = q;
            tx_held = t.tx_held;
            rx_held = refl;
            differ =
                names.apart (rx_pool_name h) (tx_pool_name h) t.tx q mbuf_pool_size mbuf_cache_size
                  env t.named e;
            named =
                names.kept (rx_pool_name h) (tx_pool_name h) t.tx mbuf_pool_size mbuf_cache_size env
                  t.named;
          })
        ]

  create_tx_ring-Gives :
      (h : Handler) (env : D.Env) → Holds h env → Gives Holds (create_tx_ring D (h, env))
  unfolding create_tx_ring
  create_tx_ring-Gives h env t =
      elim (Option-cases (D.ring_create (tx_ring_name h) ring_size env).0) [
        | inl e ↦ rw e tt
        | inr (r, e) ↦ rw e (record {
          tx = t.tx;
          rx = t.rx;
          tx_held = t.tx_held;
          rx_held = t.rx_held;
          differ = t.differ;
          named = names.kept_ring (tx_ring_name h) (tx_pool_name h) t.tx ring_size env t.named;
        })
      ]

  launch-Holds :
      (mode : Bytes) (n : ℤ) (h : Handler) (env : D.Env) → Holds h env → Holds (launch mode n h) env
  unfolding launch
  launch-Holds mode n h env t = elim (Bool-cases (mode == text "Loopback")) [
    | inr other ↦ rw other t
    | inl local ↦ rw local (elim (Bool-cases (n == pos 1)) [
      | inl one ↦ rw one (same _ _ t)
      | inr more ↦ rw more (elim (Bool-cases (n == pos 2)) [
        | inl two ↦ rw two (same _ _ t)
        | inr none_of_them ↦ rw none_of_them t
      ])
    ])
  ]
    where
      same :
          (r : Option ℕ) (ws : List Worker)
          → Holds h env
          → Holds (record h { rx_ring = r; workers = ws }) env
      same r ws t = record {
        tx = t.tx;
        rx = t.rx;
        tx_held = t.tx_held;
        rx_held = t.rx_held;
        differ = t.differ;
        named = t.named;
      }

  start-Gives :
      (mode : Bytes) (n : ℤ) (h : Handler) (env : D.Env)
      → Gives Holds (start D mode (ok n) (h, env))
  unfolding start
  start-Gives mode n h env =
      Gives-bind HoldsTx Holds (create_tx_pool D (h, env)) _ (create_tx_pool-Gives h env)
        λ h1 env1 t1.
          Gives-bind Holds Holds (create_rx_pool D (h1, env1)) _ (create_rx_pool-Gives h1 env1 t1)
            λ h2 env2 t2.
              Gives-bind Holds Holds (create_tx_ring D (h2, env2)) _
                (create_tx_ring-Gives h2 env2 t2) λ h3 env3 t3. launch-Holds mode n h3 env3 t3

  -- What is thrown when the first pool is refused.
  abbrev pub complaint : Handler → D.Env → Bytes
  complaint h env =
      text "Cannot create TX MBUF Pool: "
      ++ (tx_pool_name h ++ (text " rte_errno:" ++ show_int (D.rte_errno env)))

  -- And what is left of DPDK.
  abbrev pub after_refusal : Handler → D.Env → D.Env
  after_refusal h env =
      (D.pktmbuf_pool_create (tx_pool_name h) mbuf_pool_size mbuf_cache_size env).1

  start-refused :
      (mode : Bytes) (n : ℤ) (h : Handler) (env : D.Env) (p : ℕ)
      → pool_named (tx_pool_name h) env ≡ some p
      → start D mode (ok n) (h, env)
        ≡ raised
            (complaint h (after_refusal h env))
            (record h { tx_mbuf_pool = none }, after_refusal h env)
  unfolding start create_tx_pool
  start-refused mode n h env p e =
      rw (names.refused (tx_pool_name h) p mbuf_pool_size mbuf_cache_size env e) refl

  free_if-named :
      (name : Bytes) (p : ℕ) (r : Option ℕ) (env : D.Env)
      → pool_named name env ≡ some p
      → pool_named name (free_if D D.ring_free r env) ≡ some p
  free_if-named name p none env e = e
  free_if-named name p (some r) env e = names.kept_ring_free name p r env e

  -- The destructor frees the second pool and the ring.
  destroy-named :
      (h : Handler) (env : D.Env) (name : Bytes) (p q : ℕ)
      → h.tx_mbuf_pool ≡ none
      → h.rx_mbuf_pool ≡ some q
      → q ≢ p
      → pool_named name env ≡ some p
      → pool_named name (destroy D h env).1 ≡ some p
  unfolding destroy
  destroy-named h env name p q tx rx d e =
      rw (tx, rx)
        (free_if-named name p h.tx_ring (D.mempool_free q env) (names.kept_free name p q env e d))

  -- With a DPDK whose pools have names as documented: when `start` has returned, a second `start` of
  -- the handler after `stop`, with the same mode and number of threads, throws, because the name of
  -- its first pool is taken. It starts no thread and leaves the null pointer in the place of the
  -- pool; after the destructor the pool is still there under its name.
  pub start-stop-start :
      (mode : Bytes) (n : ℤ) (h h1 : Handler) (env env1 : D.Env)
      → start D mode (ok n) (h, env) ≡ done tt (h1, env1)
      → let env2 = after_refusal h1 env1 in
        let after = record (stop h1) { tx_mbuf_pool = none } in
        (p : ℕ) × (h1.tx_mbuf_pool ≡ some p)
        × (start D mode (ok n) (stop h1, env1) ≡ raised (complaint h1 env2) (after, env2))
        × (pool_named (tx_pool_name h1) (destroy D after env2).1 ≡ some p)
  unfolding stop
  start-stop-start mode n h h1 env env1 e =
      let held : Holds h1 env1 = subst (Gives Holds) e (start-Gives mode n h env) in
      (
        held.tx,
        held.tx_held,
        start-refused mode n (stop h1) env1 held.tx held.named,
        destroy-named (record (stop h1) { tx_mbuf_pool = none }) (after_refusal h1 env1)
            (tx_pool_name h1) held.tx held.rx refl held.rx_held held.differ
            (names.kept (tx_pool_name h1) (tx_pool_name h1) held.tx mbuf_pool_size mbuf_cache_size
              env1 held.named),
      )
