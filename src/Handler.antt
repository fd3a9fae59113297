-- ===== src/Handler.antt =====
-- PortHandler and PortHandlerLoopback (inc/port_handler.h, inc/port_handler_loopback.h,
-- src/port_handler.cpp, src/port_handler_loopback.cpp). DPDK's pools and rings are a parameter.
pub mod Start
pub mod Names
pub mod Workers
pub mod Restart
use vtb.Prelude.{
  ℕ, Bool, true, false, Option, none, some, List, [], ◌∷◌, ◌++◌, ℤ, pos, negsuc, int_eq, bytes_eq,
  ◌==◌, if◌then◌else◌, Bytes, text, Result, show_int, ◌≡◌, ◌≢◌,
}
use vtb.Prelude.Effects.{M, ◌>>=◌, ◌>>◌, return, raise, lift, get, modify, done}

abbrev pub mbuf_pool_size : ℕ
mbuf_pool_size = 8191

abbrev pub mbuf_cache_size : ℕ
mbuf_cache_size = 256

-- `RING_SIZE`
abbrev pub ring_size : ℕ
ring_size = 4096

-- A pool or a ring is a number, and a null pointer is `none`. The arguments of a creation are the
-- name, the size and, for a pool, the size of its caches.
pub record Dpdk : Type 1 where
  pub Env : Type 0
  pub pktmbuf_pool_create : Bytes → ℕ → ℕ → Env → Option ℕ × Env
  pub ring_create : Bytes → ℕ → Env → Option ℕ × Env
  pub mempool_free : ℕ → Env → Env
  pub ring_free : ℕ → Env → Env
  pub rte_errno : Env → ℤ

-- A detached thread that runs one of the worker functions, and where it stands in it.
pub data Role : Type 0 where
  tx_worker : Role
  rx_worker : Role
  tx_rx_worker : Role

pub data Phase : Type 0 where
  created : Phase
  looping : Phase
  terminated : Phase

pub record Worker : Type 0 where
  pub role : Role
  pub phase : Phase

pub record Handler : Type 0 where
  pub is_running : Bool
  pub vid : ℤ
  pub rxqid : ℤ
  pub txqid : ℤ
  pub tx_mbuf_pool : Option ℕ
  pub rx_mbuf_pool : Option ℕ
  pub tx_ring : Option ℕ
  pub rx_ring : Option ℕ
  pub workers : List Worker

unfoldable pub fresh : Handler
fresh = record {
  is_running = false;
  vid = negsuc 0;
  rxqid = negsuc 0;
  txqid = negsuc 0;
  tx_mbuf_pool = none;
  rx_mbuf_pool = none;
  tx_ring = none;
  rx_ring = none;
  workers = [];
}

unfoldable pub stop : Handler → Handler
stop h = record h { is_running = false }

-- The destructor of PortHandler: it joins no thread, because all were detached.
unfoldable pub base_destroy : Handler → Handler
unfolding stop
base_destroy h = stop h

abbrev pub set_vid : ℤ → Handler → Handler
set_vid v h = record h { vid = v }

abbrev pub set_rxqid : ℤ → Handler → Handler
set_rxqid id h = record h { rxqid = id }

abbrev pub set_txqid : ℤ → Handler → Handler
set_txqid id h = record h { txqid = id }

-- The names of the pools and of the ring.
unfoldable pub resource_name : Bytes → ℤ → ℤ → Bytes
resource_name prefix vid qid = prefix ++ (show_int vid ++ (text "_" ++ show_int qid))

abbrev pub tx_pool_name : Handler → Bytes
tx_pool_name h = resource_name (text "TX_MBUF_POOL_") h.vid h.txqid

abbrev pub rx_pool_name : Handler → Bytes
rx_pool_name h = resource_name (text "RX_MBUF_POOL_") h.vid h.rxqid

abbrev pub tx_ring_name : Handler → Bytes
tx_ring_name h = resource_name (text "TX_RING_") h.vid h.txqid

abbrev pub spawn : Role → Handler → Handler
spawn r h = record h { workers = h.workers ++ (record { role = r; phase = created } ∷ []) }

abbrev pub share_ring : Handler → Handler
share_ring h = record h { rx_ring = h.tx_ring }

-- The threads that the mode and the number of threads ask for.
unfoldable pub launch : Bytes → ℤ → Handler → Handler
launch mode nof_threads h =
    if mode == text "Loopback"
    then (if nof_threads == pos 1
        then spawn tx_rx_worker (share_ring h)
        else if nof_threads == pos 2
        then spawn rx_worker (spawn tx_worker (share_ring h))
        else h)
    else h

abbrev pub is_null : Option ℕ → Bool
is_null none = true
is_null (some p) = false

module _ (D : Dpdk) where
  open D use {Env, pktmbuf_pool_create, ring_create, mempool_free, ring_free, rte_errno}

  -- A handler, and DPDK.
  abbrev pub World : Type 0
  World = Handler × Env

  abbrev failure : Bytes → Bytes → Env → Bytes
  failure message name env = message ++ (name ++ (text " rte_errno:" ++ show_int (rte_errno env)))

  create_tx_pool : M World (Unit {0})
  create_tx_pool (h, env) =
      let (pool, env') = pktmbuf_pool_create (tx_pool_name h) mbuf_pool_size mbuf_cache_size env in
      let h' = record h { tx_mbuf_pool = pool } in
      if is_null pool
      then raise (failure (text "Cannot create TX MBUF Pool: ") (tx_pool_name h) env') (h', env')
      else done tt (h', env')

  create_rx_pool : M World (Unit {0})
  create_rx_pool (h, env) =
      let (pool, env') = pktmbuf_pool_create (rx_pool_name h) mbuf_pool_size mbuf_cache_size env in
      let h' = record h { rx_mbuf_pool = pool } in
      if is_null pool
      then raise (failure (text "Cannot create RX MBUF Pool: ") (rx_pool_name h) env') (h', env')
      else done tt (h', env')

  create_tx_ring : M World (Unit {0})
  create_tx_ring (h, env) =
      let (ring, env') = ring_create (tx_ring_name h) ring_size env in
      let h' = record h { tx_ring = ring } in
      if is_null ring
      then raise (failure (text "Cannot create inter-thread ring: ") (tx_ring_name h) env')
          (h', env')
      else done tt (h', env')

  -- `start`. The mode and the number of threads come from the command line; reading the number
  -- can throw.
  unfoldable pub start : Bytes → Result ℤ → M World (Unit {0})
  unfolding create_tx_pool create_rx_pool create_tx_ring launch
  start mode mode_threads = do
    nof_threads ← lift mode_threads
    create_tx_pool
    create_rx_pool
    create_tx_ring
    modify (λ (h, env). (launch mode nof_threads h, env))

  abbrev free_if : (ℕ → Env → Env) → Option ℕ → Env → Env
  free_if free none env = env
  free_if free (some p) env = free p env

  -- The destructor of PortHandlerLoopback, and behind it that of PortHandler.
  unfoldable pub destroy : Handler → Env → World
  unfolding base_destroy
  destroy h env = (
    base_destroy
        (record h { tx_mbuf_pool = none; rx_mbuf_pool = none; tx_ring = none; rx_ring = none }),
    free_if ring_free h.tx_ring
        (free_if mempool_free h.rx_mbuf_pool (free_if mempool_free h.tx_mbuf_pool env)),
  )
