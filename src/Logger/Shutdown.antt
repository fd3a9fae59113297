-- ===== src/Logger/Shutdown.antt =====
-- What the destructor waits for.
use mathlib.Core.Path.{ap₂}
use mathlib.Core.List.{append-nil, append_assoc}
use vtb.Prelude.{ℕ, zero, suc, false, List, [], ◌++◌, Bytes, ◌≡◌, refl, sym, subst, ◌∙◌, ap}
use vtb.Logger.{
  Logger, Flusher, absent, testing, waiting, holding, draining, drained, finished, fresh, move,
  flush,
}
use vtb.Logger.Delivery.{
  Event, run, accepted, Holds, run-fresh-Inv, console-write, buffer-write, running-write,
}

unfoldable pub flush_times : ℕ → Logger → Logger
flush_times zero s = s
flush_times (suc n) s = flush_times n (flush s)

-- The flush thread is in its loop, or at the final drain but before it has copied the buffer.
abbrev pub BeforeDrain : Flusher → Type 0
BeforeDrain testing = Unit {0}
BeforeDrain waiting = Unit {0}
BeforeDrain (holding w) = Unit {0}
BeforeDrain draining = Unit {0}
BeforeDrain _ = ⊥

flush-finished : (s : Logger) → s.flusher ≡ finished → flush s ≡ s
unfolding flush move
flush-finished s e = simp e

-- `n` further steps leave a finished logger as it is.
flush_times-finished : (n : ℕ) (s : Logger) → s.flusher ≡ finished → flush_times n s ≡ s
unfolding flush_times
flush_times-finished zero s e = refl
flush_times-finished (suc n) s e = rw (flush-finished s e) (flush_times-finished n s e)

abbrev Ends : Bytes → Logger → Type 0
Ends total s = (s.flusher ≡ finished) × (s.console ≡ total)

move_drained : (w : Bytes) (s : Logger) → Ends (s.console ++ w) (move (drained w) s)
unfolding move
move_drained w s = (refl, console-write w s)

flush-move : (f : Flusher) (s : Logger) → s.flusher ≡ f → flush s ≡ move f s
unfolding flush
flush-move f s e = ap (λ g. move g s) e

after_move :
    (n : ℕ) (f : Flusher) (s : Logger) (total : Bytes)
    → s.flusher ≡ f
    → Ends total (flush_times n (move f s))
    → Ends total (flush_times (suc n) s)
unfolding flush_times
after_move n f s total e h = subst (λ t. Ends total (flush_times n t)) (sym (flush-move f s e)) h

drained-Ends :
    (n : ℕ) (w : Bytes) (s : Logger)
    → s.flusher ≡ drained w
    → Ends (s.console ++ w) (flush_times (suc n) s)
unfolding flush_times move
drained-Ends n w s e = after_move n (drained w) s (s.console ++ w) e (
    subst (Ends (s.console ++ w)) (sym (flush_times-finished n (move (drained w) s) refl))
      (move_drained w s))

draining-Ends :
    (n : ℕ) (s : Logger)
    → s.flusher ≡ draining
    → Ends (s.console ++ s.buffer) (flush_times (suc (suc n)) s)
unfolding flush_times move
draining-Ends n s e =
    after_move (suc n) draining s (s.console ++ s.buffer) e
      (drained-Ends n s.buffer (move draining s) refl)

testing-Ends :
    (n : ℕ) (s : Logger)
    → s.running ≡ false
    → s.flusher ≡ testing
    → Ends (s.console ++ s.buffer) (flush_times (suc (suc (suc n))) s)
unfolding flush_times move
testing-Ends n s off e =
    after_move (suc (suc n)) testing s (s.console ++ s.buffer) e
      (draining-Ends n (move testing s) (rw off))

holding-Ends :
    (n : ℕ) (w : Bytes) (s : Logger)
    → s.running ≡ false
    → s.flusher ≡ holding w
    → Ends ((s.console ++ w) ++ s.buffer) (flush_times (suc (suc (suc (suc n)))) s)
unfolding flush_times move
holding-Ends n w s off e =
    let t = move (holding w) s in
    after_move (suc (suc (suc n))) (holding w) s ((s.console ++ w) ++ s.buffer) e (
      subst (λ x. Ends x (flush_times (suc (suc (suc n))) t))
        (ap₂ ◌++◌ (console-write w s) (buffer-write w s))
        (testing-Ends n t (running-write w s ∙ off) refl))

waiting-Ends :
    (n : ℕ) (s : Logger)
    → s.running ≡ false
    → s.flusher ≡ waiting
    → Ends ((s.console ++ s.buffer) ++ []) (flush_times (suc (suc (suc (suc (suc n))))) s)
unfolding flush_times move
waiting-Ends n s off e =
    after_move (suc (suc (suc (suc n)))) waiting s ((s.console ++ s.buffer) ++ []) e
      (holding-Ends n s.buffer (move waiting s) off refl)

five_flushes :
    (f : Flusher) (total : Bytes) (s : Logger)
    → s.flusher ≡ f
    → BeforeDrain f
    → s.running ≡ false
    → Holds f total s
    → Ends total (flush_times 5 s)
five_flushes absent total s e b off h = absurd b
five_flushes testing total s e b off h = rw (← h) (testing-Ends 2 s off e)
five_flushes waiting total s e b off h = rw (← h) (
    subst (λ x. Ends x (flush_times 5 s)) (append-nil (s.console ++ s.buffer))
      (waiting-Ends 0 s off e))
five_flushes (holding w) total s e b off h =
    subst (λ x. Ends x (flush_times 5 s)) (append_assoc s.console w s.buffer ∙ h)
      (holding-Ends 1 w s off e)
five_flushes draining total s e b off h = rw (← h) (draining-Ends 3 s e)
five_flushes (drained w) total s e b off h = absurd b
five_flushes finished total s e b off h = absurd b

-- After any run that ends with the logger stopped and the flush thread not yet past the copy of
-- its final drain, five more steps of the flush thread end it, and the standard output then has
-- every line that the logger accepted, in order. So the join of the destructor returns.
pub flush_times-accepted :
    (es : List Event)
    → BeforeDrain (run es fresh).flusher
    → (run es fresh).running ≡ false
    → ((flush_times 5 (run es fresh)).flusher ≡ finished)
      × ((flush_times 5 (run es fresh)).console ≡ accepted es fresh)
flush_times-accepted es b off =
    let s = run es fresh in
    five_flushes s.flusher (accepted es fresh) s refl b off (run-fresh-Inv es).place
