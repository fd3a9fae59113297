-- ===== src/Tests/Trials.antt =====
-- Instances for Frontend.antt.
use vtb.Prelude.{
  ℕ, zero, suc, ◌+◌, ◌/◌, ◌%◌, ◌<◌, ◌≡◌, refl, Bool, true, false, Option, none, some, List, [], ◌∷◌,
  ◌++◌, pos, negsuc, if◌then◌else◌, nat_eq, ◌==◌, get_elem?, Bytes, replicate, Bool-cases, inl, inr,
  ok, length, undefined, Result, ◌>>=◌, arith,
}
use vtb.Frontend.{PortAnswers, TxBurst, send_burst, freed_by}
use vtb.Common.Wire.{take, drop}
use vtb.Frontend.Frames.{EtherHeader, Mbuf}
use vtb.Frontend.Frames.Layout.{IsEthernet}
use vtb.Frontend.Ports.{steps}
use vtb.Frontend.Bursts.{
  HasSpace, IsUsable, slot, allocated, burst_of, rest_freed, has_null, runs_dry, send_burst-slots,
}
use vtb.Frontend.Program.{Ends, main, signalled, main-Ends}

-- The second port has two queues, and its second transmit queue cannot be set up.
abbrev devices : ℕ → PortAnswers
devices i = record {
  max_rx_queues = some 2;
  configured = pos 0;
  rx_set_up = λ q. pos 0;
  tx_set_up = λ q. if i + q == 2 then negsuc 21 else pos 0;
  started = pos 0;
}

-- The header of DPDK.
abbrev ethernet : EtherHeader
ethernet = record {
  dst_at = 0;
  src_at = 6;
  type_at = 12;
  size = 14;
  ipv4 = 0x0800;
  be16 = λ n. n / 256 ∷ n % 256 ∷ [];
}

ethernet-IsEthernet : IsEthernet ethernet
ethernet-IsEthernet = record {
  dst = refl;
  src = refl;
  type = refl;
  whole = refl;
  kind = refl;
  order = λ n. refl;
}

abbrev addresses : ℕ → Bytes × Bytes
addresses i = (replicate 6 i, replicate 6 (i + 1))

-- The pool runs dry at the third mbuf.
abbrev mbufs : ℕ → Option Mbuf
mbufs i =
    if i == 2
    then none
    else some (record { id = 100 + i; room = replicate 128 0; data_len = 0; pkt_len = 0 })

mbufs-HasSpace : (i : ℕ) → HasSpace (mbufs i)
mbufs-HasSpace i = elim (Bool-cases (i == 2)) [ inl e ↦ rw e tt | inr e ↦ rw e (omega arith) ]

trial-IsUsable : IsUsable addresses mbufs
trial-IsUsable = record { addresses = λ i. (refl, refl); space = mbufs-HasSpace }

-- The device takes seven packets.
abbrev takes_seven : TxBurst → Result ℕ
takes_seven b = if has_null b.pkts then undefined else ok 7

send_burst-slots_example :
    (pkts : List (Option Mbuf)) × (send_burst ethernet addresses mbufs takes_seven 1
      ≡ (takes_seven (burst_of 1 pkts) >>= rest_freed (burst_of 1 pkts)))
    × (length pkts ≡ 32)
    × ((i : ℕ) → i < 32 → get_elem? pkts i ≡ some (slot (addresses i) (mbufs i)))
    × (has_null pkts ≡ runs_dry mbufs 32 0)
    × ((sent : ℕ) → freed_by (take sent pkts) ++ freed_by (drop sent pkts) ≡ allocated mbufs 32 0)
send_burst-slots_example =
    send_burst-slots ethernet addresses mbufs takes_seven 1 ethernet-IsEthernet trial-IsUsable

-- A signal comes in the third wait.
abbrev signals : ℕ → Bool
signals i = i == 2

main-Ends_example : Ends (steps (pos 3) true devices) 3 (main 5 (pos 3) true devices false signals)
main-Ends_example = main-Ends 5 3 (pos 3) true devices false signals (refl, before) (omega arith)
  where
    before : (i : ℕ) → i < 3 → signalled false signals i ≡ false
    before zero h = refl
    before (suc zero) h = refl
    before (suc (suc zero)) h = refl
    before (suc (suc (suc i))) h = absurd (omega arith)
