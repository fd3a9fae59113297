-- ===== src/Handler/Start.antt =====
-- What `start` leaves, on each of its ways out.
use vtb.Prelude.{
  ℤ, pos, int_eq, bytes_eq, ◌==◌, Bytes, text, Result, ok, throws, undefined, ◌≡◌, ◌≢◌, refl,
  Bool-cases, inl, inr, arith,
}
use vtb.Prelude.Effects.{Exec, done, raised, lost, bind}
use vtb.Handler.{
  Dpdk, Handler, World, start, create_tx_pool, create_rx_pool, create_tx_ring, launch, is_null,
  tx_pool_name, rx_pool_name, tx_ring_name, mbuf_pool_size, mbuf_cache_size, ring_size,
}

-- The members that `start` does not write.
pub record SameIds (h after : Handler) : Type 0 where
  pub vid : after.vid ≡ h.vid
  pub rxqid : after.rxqid ≡ h.rxqid
  pub txqid : after.txqid ≡ h.txqid
  pub is_running : after.is_running ≡ h.is_running

-- Nothing was started, and the rings are not shared yet.
pub record SameThreads (h after : Handler) : Type 0 where
  pub ids : SameIds h after
  pub workers : after.workers ≡ h.workers
  pub rx_ring : after.rx_ring ≡ h.rx_ring

launch-SameIds : (mode : Bytes) (n : ℤ) (h : Handler) → SameIds h (launch mode n h)
unfolding launch
launch-SameIds mode n h = elim (Bool-cases (mode == text "Loopback")) [
  | inr other ↦ rw other (ground arith)
  | inl yes_loopback ↦ rw yes_loopback (elim (Bool-cases (n == pos 1)) [
    | inl one ↦ rw one (ground arith)
    | inr more ↦ rw more (elim (Bool-cases (n == pos 2)) [
      | inl two ↦ rw two (ground arith)
      | inr none_of_them ↦ rw none_of_them (ground arith)
    ])
  ])
]

module _ (D : Dpdk) where
  -- A property of the handler, however the call ended. The call is never undefined.
  abbrev pub Ends : (Handler → Type 0) → (Handler → Type 0) → Exec (World D) (Unit {0}) → Type 0
  Ends P Q (done x (h, env)) = P h
  Ends P Q (raised e (h, env)) = Q h
  Ends P Q lost = ⊥

  Ends-bind :
      (P Q R : Handler → Type 0) (r : Exec (World D) (Unit {0}))
      (k : Handler × D.Env → Exec (World D) (Unit {0}))
      → Ends P R r
      → ((h : Handler) (env : D.Env) → P h → Ends Q R (k (h, env)))
      → Ends Q R (bind r (λ _. k))
  Ends-bind P Q R (done x (h, env)) k p f = f h env p
  Ends-bind P Q R (raised e (h, env)) k p f = p
  Ends-bind P Q R lost k p f = p

  module _ (h : Handler) where
    tx_pool-Ends :
        (g : Handler) (env : D.Env)
        → SameThreads h g
        → Ends (SameThreads h) (SameThreads h) (create_tx_pool D (g, env))
    unfolding create_tx_pool
    tx_pool-Ends g env same =
        elim (Bool-cases
          (is_null (D.pktmbuf_pool_create (tx_pool_name g) mbuf_pool_size mbuf_cache_size env).0)) [
            | inl null ↦ rw null (ground arith)
            | inr made ↦ rw made (ground arith)
          ]

    rx_pool-Ends :
        (g : Handler) (env : D.Env)
        → SameThreads h g
        → Ends (SameThreads h) (SameThreads h) (create_rx_pool D (g, env))
    unfolding create_rx_pool
    rx_pool-Ends g env same =
        elim (Bool-cases
          (is_null (D.pktmbuf_pool_create (rx_pool_name g) mbuf_pool_size mbuf_cache_size env).0)) [
            | inl null ↦ rw null (ground arith)
            | inr made ↦ rw made (ground arith)
          ]

    tx_ring-Ends :
        (g : Handler) (env : D.Env)
        → SameThreads h g
        → Ends (SameThreads h) (SameThreads h) (create_tx_ring D (g, env))
    unfolding create_tx_ring
    tx_ring-Ends g env same =
        elim (Bool-cases (is_null (D.ring_create (tx_ring_name g) ring_size env).0)) [
          | inl null ↦ rw null (ground arith)
          | inr made ↦ rw made (ground arith)
        ]

    SameIds-launch :
        (mode : Bytes) (n : ℤ) (g : Handler) → SameThreads h g → SameIds h (launch mode n g)
    SameIds-launch mode n g same = let l = launch-SameIds mode n g in ground (arith, same.ids)

    -- `start` is never undefined and keeps the ids of the handler and its running flag; where it
    -- throws, it has started no thread.
    pub start-Ends :
        (mode : Bytes) (mode_threads : Result ℤ) (env : D.Env)
        → mode_threads ≢ undefined
        → Ends (SameIds h) (SameThreads h) (start D mode mode_threads (h, env))
    unfolding start
    start-Ends mode undefined env d = absurd (d refl)
    start-Ends mode (throws e) env d = ground arith
    start-Ends mode (ok n) env d =
        Ends-bind (SameThreads h) (SameIds h) (SameThreads h) (create_tx_pool D (h, env)) _
          (tx_pool-Ends h env (ground arith))
          λ g1 env1 s1.
            Ends-bind (SameThreads h) (SameIds h) (SameThreads h) (create_rx_pool D (g1, env1)) _
              (rx_pool-Ends g1 env1 s1)
              λ g2 env2 s2.
                Ends-bind (SameThreads h) (SameIds h) (SameThreads h) (create_tx_ring D (g2, env2))
                  _ (tx_ring-Ends g2 env2 s2) λ g3 env3 s3. SameIds-launch mode n g3 s3
