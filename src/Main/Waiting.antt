-- ===== src/Main/Waiting.antt =====
-- How `main` (vtb.cpp) waits for the signal: the call of rte_eal_remote_launch, whose answer is an
-- argument, the worker with `keep_alive`, and the handler of SIGINT and SIGTERM, as steps in any
-- order. rte_eal_mp_wait_lcore returns when the worker is idle. The handler calls info(), which locks
-- the mutex of the Logger (src/logger.cpp), before it writes `stop_blocking_`. That is a plain bool:
-- the worker sees a write at some later step, or never.
pub mod Signals
use vtb.Prelude.{
  ℕ, zero, suc, ◌≡◌, ◌≢◌, refl, sym, ◌∙◌, Bool, true, false, ℤ, pos, if◌then◌else◌, ◌⊎◌, inl, inr,
  Bool-cases, ◌==◌, int_eq, int_beq_iff, arith,
}

pub data MainThread : Type 0 where
  launching : MainThread
  waiting : MainThread
  passed : MainThread

pub data Worker : Type 0 where
  idle : Worker
  spinning : Worker

-- The mutex of the Logger. It is stuck when a signal handler has interrupted the thread that holds
-- it: the handler's lock does not return, and so the holder does not go on.
pub data Mutex : Type 0 where
  free : Mutex
  held : Mutex
  stuck : Mutex

-- `seen` is what the worker reads. The signal handlers that run are in their call of info(), or
-- behind it.
pub record Wait : Type 0 where
  pub thread : MainThread
  pub worker : Worker
  pub stop_blocking : Bool
  pub seen : Bool
  pub mutex : Mutex
  pub in_info : ℕ
  pub behind_info : ℕ

abbrev pub at_launch : Wait
at_launch = record {
  thread = launching;
  worker = idle;
  stop_blocking = false;
  seen = false;
  mutex = free;
  in_info = 0;
  behind_info = 0;
}

-- One round of the loop of `keep_alive`, which ends in `return 0`.
unfoldable pub keep_alive : Bool → Worker → Worker
keep_alive stop_blocking idle = idle
keep_alive stop_blocking spinning = if stop_blocking then idle else spinning

-- The handler is entered; its line is logged; it writes the flag and returns.
abbrev pub enter_handler : Wait → Wait
enter_handler w = record w { in_info = suc w.in_info }

abbrev pub log_signal : ℕ → Wait → Wait
log_signal others w = record w { in_info = others; behind_info = suc w.behind_info }

unfoldable pub set_flag : ℕ → Wait → Wait
set_flag others w = record w { behind_info = others; stop_blocking = true }

-- One step of a thread. `locks` and `unlocks` are those of any thread that logs.
pub data Step (answer : ℤ) : Wait → Wait → Type 0 where
  launched :
      (w : Wait)
      → w.thread ≡ launching
      → answer ≡ pos 0
      → Step answer w (record w { thread = waiting; worker = spinning })
  refused :
      (w : Wait)
      → w.thread ≡ launching
      → answer ≢ pos 0
      → Step answer w (record w { thread = waiting })
  turn : (w : Wait) → Step answer w (record w { worker = keep_alive w.seen w.worker })
  published : (w : Wait) → Step answer w (record w { seen = w.stop_blocking })
  returned :
      (w : Wait)
      → w.thread ≡ waiting
      → w.worker ≡ idle
      → Step answer w (record w { thread = passed })
  locks : (w : Wait) → w.mutex ≡ free → Step answer w (record w { mutex = held })
  unlocks : (w : Wait) → w.mutex ≡ held → Step answer w (record w { mutex = free })
  signal : (w : Wait) → Step answer w (enter_handler w)
  signal_at_holder :
      (w : Wait) → w.mutex ≡ held → Step answer w (record (enter_handler w) { mutex = stuck })
  logged :
      (w : Wait) (others : ℕ)
      → w.mutex ≡ free
      → w.in_info ≡ suc others
      → Step answer w (log_signal others w)
  written : (w : Wait) (others : ℕ) → w.behind_info ≡ suc others → Step answer w (set_flag others w)

pub data Reach (answer : ℤ) (start : Wait) : Wait → Type 0 where
  here : Reach answer start start
  next : {t u : Wait} → Reach answer start t → Step answer t u → Reach answer start u

-- When the worker was launched, it leaves its loop only after the flag was written.
abbrev pub Held : MainThread → Worker → Bool → Type 0
Held launching w s = Unit {0}
Held waiting w s = (w ≡ spinning) ⊎ (s ≡ true)
Held passed w s = s ≡ true

pub record Inv (w : Wait) : Type 0 where
  pub seen : w.seen ≡ true → w.stop_blocking ≡ true
  pub held : Held w.thread w.worker w.stop_blocking

Held-keep_alive :
    (m : MainThread) (w : Worker) (s seen : Bool)
    → (seen ≡ true → s ≡ true)
    → Held m w s
    → Held m (keep_alive seen w) s
unfolding keep_alive
Held-keep_alive launching w s seen f h = tt
Held-keep_alive waiting idle s seen f h = h
Held-keep_alive waiting spinning s true f h = inr (f refl)
Held-keep_alive waiting spinning s false f h = inl refl
Held-keep_alive passed w s seen f h = h

Held-true : (m : MainThread) (w : Worker) → Held m w true
Held-true launching w = tt
Held-true waiting w = inr refl
Held-true passed w = refl

Held-idle :
    (m : MainThread) (w : Worker) (s : Bool) → m ≡ waiting → w ≡ idle → Held m w s → s ≡ true
Held-idle launching w s e i h = cc
Held-idle waiting w s e i (inl h) = cc
Held-idle waiting w s e i (inr h) = h
Held-idle passed w s e i h = h

pub Step-Inv : {answer : ℤ} {t u : Wait} → answer ≡ pos 0 → Step answer t u → Inv t → Inv u
unfolding set_flag
Step-Inv e (launched w _ _) i = record { seen = i.seen; held = inl refl }
Step-Inv e (refused w _ no') i = absurd (no' e)
Step-Inv e (turn w) i = record {
  seen = i.seen;
  held = Held-keep_alive w.thread w.worker w.stop_blocking w.seen i.seen i.held;
}
Step-Inv e (published w) i = record { seen = λ h. h; held = i.held }
Step-Inv e (returned w m k) i = record {
  seen = i.seen;
  held = Held-idle w.thread w.worker w.stop_blocking m k i.held;
}
Step-Inv e (locks w _) i = record { seen = i.seen; held = i.held }
Step-Inv e (unlocks w _) i = record { seen = i.seen; held = i.held }
Step-Inv e (signal w) i = record { seen = i.seen; held = i.held }
Step-Inv e (signal_at_holder w _) i = record { seen = i.seen; held = i.held }
Step-Inv e (logged w n _ _) i = record { seen = i.seen; held = i.held }
Step-Inv e (written w n _) i = record { seen = λ _. refl; held = Held-true w.thread w.worker }

pub Reach-Inv : {answer : ℤ} {w : Wait} → answer ≡ pos 0 → Reach answer at_launch w → Inv w
Reach-Inv e here = record { seen = λ h. cc; held = tt }
Reach-Inv e (next r st) = Step-Inv e st (Reach-Inv e r)

pub Held-passed : (m : MainThread) (w : Worker) (s : Bool) → m ≡ passed → Held m w s → s ≡ true
Held-passed launching w s e h = cc
Held-passed waiting w s e h = cc
Held-passed passed w s e h = h

pub keep_alive-true : (w : Worker) → keep_alive true w ≡ idle
unfolding keep_alive
keep_alive-true idle = refl
keep_alive-true spinning = refl
