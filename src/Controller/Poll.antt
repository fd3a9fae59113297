-- ===== src/Controller/Poll.antt =====
-- `epoll_worker` of PortControllerLoopback (src/port_controller_loopback.cpp). What `epoll_wait`,
-- `accept` and `read` answer is part of the events; the other calls are recorded in order.
pub mod Messages
pub mod Pieces
pub mod Calls
use vtb.Prelude.{
  ℕ, Bool, true, false, Option, none, some, List, [], ◌∷◌, ◌++◌, ℤ, int_eq, nat_eq, ◌==◌,
  if◌then◌else◌, length, Bytes,
}
use vtb.Prelude.Effects.{M, Exec, done, raised, lost, ◌>>◌, return}
use vtb.Cmdline.{Arguments}
use vtb.Common.Wire.{message_size, decode, drop}
use vtb.Handler.{Dpdk}
use vtb.Controller.{System, process_notification}

-- One element of `events`. `accepted` is what `accept` returns if it is called; `received` are the
-- bytes that `read` stores if it is called, or `none` if it fails.
pub record Event : Type 0 where
  pub fd : ℤ
  pub epollin : Bool
  pub accepted : ℤ
  pub received : Option Bytes

-- `epoll_ctl` with `EPOLL_CTL_ADD` or `EPOLL_CTL_DEL`, and `close`.
pub data EpollCall : Type 0 where
  add : ℤ → EpollCall
  del : ℤ → EpollCall
  close : ℤ → EpollCall

-- The members that the worker uses besides the map and the handlers; `pdrs` holds the bytes of
-- `pdrs_`.
pub record Poll : Type 0 where
  pub is_running : Bool
  pub abstract_fd : ℤ
  pub pdrs : Bytes
  pub calls : List EpollCall

abbrev pub record_calls : List EpollCall → Poll → Poll
record_calls cs p = record p { calls = p.calls ++ cs }

-- `read` writes the bytes that it got over the first bytes of `pdrs_`.
abbrev pub overwrite : Bytes → Bytes → Bytes
overwrite bytes pdrs = bytes ++ drop (length bytes) pdrs

module _ (D : Dpdk) (arguments : Arguments) where
  abbrev pub Worker : Type 0
  Worker = Poll × System D arguments

  abbrev deliver : Poll → Exec (System D arguments) (Unit {0}) → Exec Worker (Unit {0})
  deliver p (done x s) = done x (p, s)
  deliver p (raised e s) = raised e (p, s)
  deliver p lost = lost

  hang_up : ℤ → M Worker (Unit {0})
  hang_up fd (p, s) = done tt (record_calls (del fd ∷ close fd ∷ []) p, s)

  -- `bytes <= 0`, `bytes == sizeof(PortDeviceRingState)`, or neither.
  pub receive : ℤ → Option Bytes → M Worker (Unit {0})
  unfolding hang_up
  receive fd none w = hang_up fd w
  receive fd (some []) w = hang_up fd w
  receive fd (some (c ∷ bytes)) (p, s) =
      let p' = record p { pdrs = overwrite (c ∷ bytes) p.pdrs } in
      if length (c ∷ bytes) == message_size
      then deliver p' (process_notification D arguments (decode p'.pdrs) s)
      else done tt (p', s)

  pub handle_event : Event → M Worker (Unit {0})
  unfolding receive
  handle_event e (p, s) =
      if e.fd == p.abstract_fd
      then done tt (record_calls (add e.accepted ∷ []) p, s)
      else if e.epollin
      then receive e.fd e.received (p, s)
      else done tt (p, s)

  -- The events of one `epoll_wait`.
  unfoldable pub round : List Event → M Worker (Unit {0})
  unfolding handle_event
  round [] = return tt
  round (e ∷ es) = handle_event e >> round es

  -- The rounds that were made so far, as long as `is_running_` is set.
  unfoldable pub epoll_worker : List (List Event) → M Worker (Unit {0})
  unfolding round
  epoll_worker [] w = return tt w
  epoll_worker (es ∷ rounds) (p, s) =
      let more = (round es >> epoll_worker rounds) (p, s) in
      if p.is_running then more else done tt (p, s)
