-- ===== src/Controller/Teardown.antt =====
-- The worker thread against the destructor of a loopback controller (src/port_controller.cpp,
-- src/port_controller_loopback.cpp), as turns of the two threads in any order. A worker that uses
-- a member when the object is gone has faulted.
pub mod Races
use vtb.Prelude.{
  ℕ, zero, suc, ◌+◌, ◌≤◌, ◌≡◌, ◌≢◌, refl, subst, sym, ◌∙◌, ap, Bool, Bool-cases, inl, inr, true,
  false, not, List, [], ◌∷◌, if◌then◌else◌, All, arith,
}

-- How far the main thread is: the object is in use, the socket is closed, `is_running_` is reset,
-- or the object is gone.
pub data Place : Type 0 where
  using : Place
  closed : Place
  stopped : Place
  gone : Place

-- The worker is about to test `is_running_`, waits in `epoll_wait`, or looks at the events.
pub data Worker : Type 0 where
  absent : Worker
  testing : Worker
  blocked : Worker
  handling : Worker
  ended : Worker
  faulted : Worker

pub record Life : Type 0 where
  pub place : Place
  pub is_running : Bool
  pub joinable : Bool
  pub worker : Worker

abbrev pub constructed : Life
constructed = record { place = using; is_running = false; joinable = false; worker = absent }

-- The thread is made and detached.
unfoldable pub launch_worker : Life → Life
launch_worker s =
    if not s.is_running
    then record s { is_running = true; joinable = false; worker = testing }
    else s

-- `worker_.join()` returns when the thread has ended.
pub join : Worker → Life → Life
join ended s = record s { place = gone }
join _ s = s

-- The destructor of PortControllerLoopback, the one of PortController up to its test, and the rest.
pub destroy : Place → Life → Life
unfolding join
destroy using s = record s { place = closed }
destroy closed s = record s { place = stopped; is_running = false }
destroy stopped s = if s.joinable then join s.worker s else record s { place = gone }
destroy gone s = s

-- A use of a member.
pub access : Place → Worker → Worker
access gone w = faulted
access using w = w
access closed w = w
access stopped w = w

-- A turn of the worker; `event` says whether `epoll_wait` has something to return with, which it
-- stores in the member `events`. There is no time-out.
pub work : Worker → Bool → Life → Worker
unfolding access
work absent event s = absent
work testing event s = access s.place (if s.is_running then blocked else ended)
work blocked event s = if event then access s.place handling else blocked
work handling event s = access s.place testing
work ended event s = ended
work faulted event s = faulted

pub data Turn : Type 0 where
  main : Turn
  worker : Bool → Turn

unfoldable pub step : Turn → Life → Life
unfolding destroy work
step main s = destroy s.place s
step (worker event) s = record s { worker = work s.worker event s }

unfoldable pub run : List Turn → Life → Life
unfolding step
run [] s = s
run (t ∷ ts) s = run ts (step t s)
