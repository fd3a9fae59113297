-- ===== src/Tests/Handlers.antt =====
-- A DPDK whose calls succeed as long as it has memory, and instances for Handler.antt.
use vtb.Prelude.{
  ℕ, zero, suc, ◌≡◌, refl, sym, ap, Bool, true, false, Option, none, some, [], ◌∷◌, pos, Bytes,
  get_elem?, All,
}
use vtb.Handler.{Dpdk, tx_worker, rx_worker, Phase, created, looping, Worker, Handler, stop}
use vtb.Handler.Workers.{
  worker_step, run_workers, stop_lost, stop_ends, AllBegun, IsOver, has_begun,
}

-- The environment is what is left: each creation takes one, and its number names the result.
abbrev create : Bytes → ℕ → Option ℕ × ℕ
create name zero = (none, zero)
create name (suc n) = (some n, n)

abbrev pub counting : Dpdk
counting = record {
  Env = ℕ;
  pktmbuf_pool_create = λ name size cache. create name;
  ring_create = λ name size. create name;
  mempool_free = λ p n. suc n;
  ring_free = λ p n. suc n;
  rte_errno = λ n. pos 12;
}

abbrev at : Phase → Handler
at p = record {
  is_running = true;
  vid = pos 3;
  rxqid = pos 0;
  txqid = pos 1;
  tx_mbuf_pool = some 5;
  rx_mbuf_pool = some 6;
  tx_ring = some 7;
  rx_ring = some 7;
  workers =
      record { role = tx_worker; phase = looping } ∷ record { role = rx_worker; phase = p } ∷ [];
}

stop_lost_example :
    (run_workers (0 ∷ 1 ∷ 0 ∷ []) (worker_step 1 (stop (at created)))).is_running ≡ true
stop_lost_example =
    stop_lost 1 (record { role = rx_worker; phase = created }) (at created) (0 ∷ 1 ∷ 0 ∷ []) refl
      refl

begun_in : Option Worker → Bool
begun_in none = false
begun_in (some w) = has_begun w.phase

begun : AllBegun (at looping)
unfolding begun_in
begun zero w e = sym (ap begun_in e)
begun (suc zero) w e = sym (ap begun_in e)
begun (suc (suc i)) w e = cc

stop_ends_example :
    ((run_workers (0 ∷ 1 ∷ []) (stop (at looping))).is_running ≡ false)
    × All
        (λ i. IsOver (get_elem? (run_workers (0 ∷ 1 ∷ []) (stop (at looping))).workers i))
        (0 ∷ 1 ∷ [])
stop_ends_example = stop_ends (0 ∷ 1 ∷ []) (at looping) begun
