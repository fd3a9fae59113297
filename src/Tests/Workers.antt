-- ===== src/Tests/Workers.antt =====
-- Instances for Common/Wire.antt and Controller/Poll.antt.
use mathlib.Core.List.{flatten}
use vtb.Prelude.{
  Bytes, ℕ, int_eq, nat_eq, ◌≡◌, refl, true, none, some, List, [], ◌∷◌, ◌++◌, pos, negsuc,
  replicate, All, arith,
}
use vtb.Prelude.Dict
use vtb.Prelude.Effects.{Exec, done, raised, lost}
use vtb.Config as Config
use vtb.Common.Devices.{PortDeviceRingState}
use vtb.Common.Wire.{encode, encode_int}
use vtb.Common.Wire.Packets.{Fits}
use vtb.Controller.{Controller, constructed, process_notification}
use vtb.Controller.Poll.{Event, EpollCall, add, del, close, Poll, epoll_worker}
use vtb.Controller.Poll.Pieces.{piecewise, epoll_worker-split_message}
use vtb.Controller.Poll.Messages.{process_all, wakeups, Handled, epoll_worker-process_all}
use vtb.Controller.Poll.Calls.{Keeps, epoll_worker-Keeps}
use vtb.Tests.Handlers.{counting}

-- Queue 2 of device 7 is enabled, and device 9 goes away.
abbrev first : PortDeviceRingState
first = record { meta = pos 0; port_id = pos 3; device_id = pos 7; qid = pos 2; enable = pos 1 }

abbrev second : PortDeviceRingState
second = record { meta = pos 1; port_id = pos 4; device_id = pos 9; qid = pos 0; enable = negsuc 0 }

fits : All Fits (first ∷ second ∷ [])
fits = omega arith

abbrev worker : Poll
worker = record { is_running = true; abstract_fd = pos 4; pdrs = replicate 20 0; calls = [] }

abbrev system : Controller × ℕ
system = (constructed, 9)

abbrev reached : Exec (Controller × ℕ) (Unit {0}) → Controller × ℕ
reached (done x s) = s
reached (raised e s) = s
reached lost = system

abbrev final : Controller × ℕ
final = reached (process_all counting Config.constructed (first ∷ second ∷ []) system)

handled : process_all counting Config.constructed (first ∷ second ∷ []) system ≡ done tt final
unfolding process_all process_notification constructed Dict.lookup Dict.insert
handled = refl

epoll_worker-process_all_example : Handled counting Config.constructed worker final (
    epoll_worker counting Config.constructed
      (wakeups counting Config.constructed (pos 5) ((first ∷ []) ∷ (second ∷ []) ∷ []))
      (worker, system))
unfolding flatten
epoll_worker-process_all_example =
    epoll_worker-process_all counting Config.constructed (pos 5) ((first ∷ []) ∷ (second ∷ []) ∷ [])
      worker system final (λ e. ground arith) refl ((fits.0, tt), ((fits.1.0, tt), tt)) handled

-- The first message, cut behind its first and its third integer.
abbrev cut : List Bytes
cut =
    encode_int (pos 0)
    ∷ (encode_int (pos 3) ++ encode_int (pos 7))
    ∷ (encode_int (pos 2) ++ encode_int (pos 1))
    ∷ []

epoll_worker-split_message_example : Handled counting Config.constructed worker system (
    epoll_worker counting Config.constructed
      (piecewise counting Config.constructed (pos 5) cut)
      (worker, system))
unfolding encode encode_int flatten
epoll_worker-split_message_example =
    epoll_worker-split_message counting Config.constructed (pos 5) first cut worker system
      (λ e. ground arith) refl refl (λ e. cc, (λ e. cc, (λ e. cc, tt))) (omega arith)

-- A connection is made, and is closed by the other side.
abbrev connection : List (List Event)
connection =
    (record { fd = pos 4; epollin = true; accepted = pos 5; received = none } ∷ [])
    ∷ (record { fd = pos 5; epollin = true; accepted = pos 0; received = some [] } ∷ [])
    ∷ []

epoll_worker-Keeps_example :
    Keeps counting Config.constructed worker
      (epoll_worker counting Config.constructed connection (worker, system))
epoll_worker-Keeps_example = epoll_worker-Keeps counting Config.constructed connection worker system

-- What the worker called for it.
abbrev calls_of : Exec (Poll × (Controller × ℕ)) (Unit {0}) → List EpollCall
calls_of (done x (p, s)) = p.calls
calls_of (raised e (p, s)) = p.calls
calls_of lost = []

connection_calls :
    calls_of (epoll_worker counting Config.constructed connection (worker, system))
    ≡ add (pos 5) ∷ del (pos 5) ∷ close (pos 5) ∷ []
unfolding epoll_worker
connection_calls = refl
