-- ===== src/Frontend.antt =====
-- The frontend for trials (frontend/frontend.cpp). What DPDK answers is an argument; the calls are
-- recorded in order. The banners on the standard output are left out.
pub mod Frames
pub mod Ports
pub mod Bursts
pub mod Program
use vtb.Prelude.{
  ℕ, zero, suc, ◌+◌, ◌-◌, ◌≡◌, Bool, true, false, List, [], ◌∷◌, ◌++◌, ℤ, pos, negsuc,
  if◌then◌else◌, Bytes, text, Result, ok, get_at, ◌>>=◌, Option, none, some, ltb,
}
use vtb.Frontend.Frames.{EtherHeader, Mbuf, alloc_burst}
use vtb.Prelude.Effects.{M, Exec, done, raised, lost, ◌>>◌, return, raise}
use vtb.Common.Sockets.{negative}

abbrev pub burst_size : ℕ
burst_size = 32

abbrev pub num_ports : ℕ
num_ports = 2

pub data Call : Type 0 where
  eal_init : Call
  pool_create : Call
  dev_configure : ℕ → ℕ → ℕ → Call
  rx_queue_setup : ℕ → ℕ → Call
  tx_queue_setup : ℕ → ℕ → Call
  dev_start : ℕ → Call

-- What DPDK answers for one port: the number of receive queues, if the info is there, and the
-- results of the calls.
pub record PortAnswers : Type 0 where
  pub max_rx_queues : Option ℕ
  pub configured : ℤ
  pub rx_set_up : ℕ → ℤ
  pub tx_set_up : ℕ → ℤ
  pub started : ℤ

-- The calls so far.
abbrev pub Calls : Type 0
Calls = List Call

abbrev call : Call → M Calls (Unit {0})
call c cs = done tt (cs ++ (c ∷ []))

-- A call that throws if its result is negative.
abbrev pub checked : ℤ → Bytes → Call → M Calls (Unit {0})
checked result what c = do call c; if negative result then raise what else return tt

-- `nb_rx`, which is 0 if there is no info.
abbrev pub number_of_queues : PortAnswers → ℕ
number_of_queues a = elim a.max_rx_queues [ none ↦ 0 | some n ↦ n ]

-- The rounds that are left, and `i`.
pub setup_queues : PortAnswers → ℕ → ℕ → ℕ → M Calls (Unit {0})
setup_queues a port_id zero i = return tt
setup_queues a port_id (suc rounds) i = do
  checked (a.rx_set_up i) (text "Failed to setup RX queue") (rx_queue_setup port_id i)
  checked (a.tx_set_up i) (text "Failed to setup TX queue") (tx_queue_setup port_id i)
  setup_queues a port_id rounds (suc i)

-- The device is configured with as many transmit queues as it has receive queues.
pub setup_port : PortAnswers → ℕ → M Calls (Unit {0})
unfolding setup_queues
setup_port a port_id = do
  checked a.configured (text "Failed to configure port")
      (dev_configure port_id (number_of_queues a) (number_of_queues a))
  setup_queues a port_id (number_of_queues a) 0
  checked a.started (text "Failed to start port") (dev_start port_id)

pub setup_ports : (ℕ → PortAnswers) → ℕ → ℕ → M Calls (Unit {0})
unfolding setup_port
setup_ports answers zero i = return tt
setup_ports answers (suc rounds) i = do setup_port (answers i) i; setup_ports answers rounds (suc i)

-- The constructor.
unfoldable pub construct : ℤ → Bool → (ℕ → PortAnswers) → M Calls (Unit {0})
unfolding setup_ports
construct ret pool answers = do
  checked ret (text "EAL Init Failed") eal_init
  call pool_create
  if pool then setup_ports answers num_ports 0 else raise (text "Mbuf Pool Allocation Failed")

-- `rte_pktmbuf_free` of the null pointer does nothing.
abbrev pub freed_by : List (Option Mbuf) → List ℕ
freed_by [] = []
freed_by (none ∷ ps) = freed_by ps
freed_by (some m ∷ ps) = m.id ∷ freed_by ps

-- The loops that free: the rounds that are left, and `i`.
pub free_all : ℕ → ℕ → List (Option Mbuf) → Result (List ℕ)
free_all zero i pkts = ok []
free_all (suc rounds) i pkts = do
  p ← get_at pkts i
  rest ← free_all rounds (suc i) pkts
  ok (freed_by (p ∷ []) ++ rest)

-- The arguments of a call of `rte_eth_tx_burst`.
pub record TxBurst : Type 0 where
  pub port_id : ℕ
  pub queue_id : ℕ
  pub pkts : List (Option Mbuf)
  pub nb_pkts : ℕ

-- The call that hands the burst to the device, and what was freed. `tx_burst` says how many packets
-- the device has taken.
unfoldable pub send_burst :
    EtherHeader
    → (ℕ → Bytes × Bytes)
    → (ℕ → Option Mbuf)
    → (TxBurst → Result ℕ)
    → ℕ
    → Result (TxBurst × List ℕ)
unfolding alloc_burst free_all
send_burst h macs alloc tx_burst port_id = do
  pkts ← alloc_burst h macs alloc burst_size 0
  let burst : TxBurst = record {
    port_id = port_id;
    queue_id = 0;
    pkts = pkts;
    nb_pkts = burst_size;
  }
  sent ← tx_burst burst
  freed ← (if ltb sent burst_size then free_all (burst_size - sent) sent pkts else ok [])
  ok (burst, freed)

-- `pkts` as the device has left it, of which it has written the first `rcved` slots. The result is
-- what was freed.
unfoldable pub receive_burst : List (Option Mbuf) → ℕ → Result (List ℕ)
unfolding free_all
receive_burst pkts rcved = if ltb 0 rcved then free_all rcved 0 pkts else ok []
