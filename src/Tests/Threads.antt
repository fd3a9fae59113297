-- ===== src/Tests/Threads.antt =====
-- Instances for the turns of threads.
use vtb.Prelude.{◌≡◌, ◌≢◌, ℤ, refl, true, false, List, [], ◌∷◌, arith, pos, some, text}
use vtb.Controller.Teardown.{Turn, main, worker, run, step, gone, blocked, faulted}
use vtb.Vhost.{Vhost}
use vtb.Session.{new_device, destroy_device}
use vtb.Session.Instance as Instance
use vtb.Session.Instance.{
  leaving, init, driver_register, callback_register, driver_start, unregister, construct, move,
  at_first, Served, Reach-Served,
}
use vtb.Main.Waiting.{
  Wait, Reach, here, next, launched, turn, locks, signal, at_launch, waiting, passed, spinning,
  held, stuck, keep_alive, enter_handler,
}
use vtb.Main.Waiting.Signals.{CanPass, main_wait, signal_at_holder-blocked}
use vtb.Controller.Teardown.Races.{serving, run-Faults}

abbrev teardown : List Turn
teardown = main ∷ worker false ∷ main ∷ main ∷ worker false ∷ []

run-Faults_example :
    ((run teardown serving).place ≡ gone)
    × ((run teardown serving).worker ≡ blocked)
    × ((step (worker true) (run teardown serving)).worker ≡ faulted)
run-Faults_example = run-Faults teardown (tt, (tt, (tt, (tt, (tt, tt))))) (omega arith)

-- The worker was launched and has made a turn, and a thread begins to log.
abbrev spun : Wait
spun = record at_launch { thread = waiting; worker = spinning }

abbrev turned : Wait
turned = record spun { worker = keep_alive false spinning }

abbrev logging : Wait
logging = record turned { mutex = held }

logging-Reach : Reach (pos 0) at_launch logging
logging-Reach =
    next (next (next here (launched at_launch refl refl)) (turn spun)) (locks turned refl)

main_wait_example :
    (◌≡◌ {A = ℤ} (pos 0) (pos 0) → logging.thread ≡ passed → logging.stop_blocking ≡ true)
    × (logging.mutex ≢ stuck → CanPass (pos 0) (enter_handler logging))
main_wait_example = main_wait (pos 0) logging logging-Reach

-- A signal interrupts that thread, and then a second one comes.
abbrev interrupted : Wait
interrupted = record (enter_handler logging) { mutex = stuck }

abbrev twice : Wait
twice = enter_handler interrupted

signal_at_holder-blocked_example : (twice.stop_blocking ≡ false) × (twice.thread ≢ passed)
signal_at_holder-blocked_example =
    signal_at_holder-blocked logging twice logging-Reach refl refl refl
      (next here (signal interrupted))

-- A backend that listens, and then one that is being taken down.
abbrev backend : Vhost
backend = record { mode = text "Loopback"; port_cntr = 0; pmap = []; sent = [] }

abbrev listening : Instance.Reach at_first (Instance.at Instance.serving (some backend))
listening =
    Instance.next
      (Instance.next
        (Instance.next
          (Instance.next (Instance.next Instance.here (construct backend))
            (move (some backend) init))
          (move (some backend) driver_register))
        (move (some backend) callback_register))
      (move (some backend) driver_start)

Reach-Served_example :
    Served (new_device 2 (pos 0) ∷ destroy_device (pos 0) ∷ []) leaving (some backend)
Reach-Served_example =
    Reach-Served (Instance.at leaving (some backend))
      (new_device 2 (pos 0) ∷ destroy_device (pos 0) ∷ [])
      (Instance.next listening (move (some backend) unregister))
