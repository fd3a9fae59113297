-- ===== src/Handler/Workers.antt =====
-- The worker threads of a handler against `stop`: the steps of the threads in any order.
use native.Mathlib.Decide.{dec_lt, ℕ_discrete}
use mathlib.Core.Bool.{false≢true}
use mathlib.Core.Option.{some-injective}
use vtb.Prelude.{
  ℕ, ◌<◌, ◌≡◌, refl, sym, ◌∙◌, ap, Bool, true, false, Option, none, some, List, [], ◌∷◌,
  if◌then◌else◌, length, get_elem?, set, get_elem?-set_self, get_elem?-set_ne, get_elem?-of_lt,
  get_elem?-of_le, subst, All, arith, inl, inr, ◌⊎◌,
}
use vtb.Handler.{Handler, Worker, Phase, created, looping, terminated, stop}

-- One step of a worker function: it raises the flag that runs its loop, it makes a round of the
-- loop, or it leaves the loop. The three functions differ in their messages alone.
step_at : ℕ → Option Worker → Handler → Handler
step_at i none h = h
step_at i (some w) h = elim (w.phase) [
  | created ↦ record h {
    is_running = true;
    workers = set h.workers i (record w { phase = looping });
  }
  | looping ↦
      if h.is_running
      then h
      else record h { workers = set h.workers i (record w { phase = terminated }) }
  | terminated ↦ h
]

-- The thread with the given number takes a step.
unfoldable pub worker_step : ℕ → Handler → Handler
unfolding step_at
worker_step i h = step_at i (get_elem? h.workers i) h

unfoldable pub run_workers : List ℕ → Handler → Handler
run_workers [] h = h
run_workers (i ∷ is) h = run_workers is (worker_step i h)

step_at-running :
    (i : ℕ) (o : Option Worker) (h : Handler)
    → h.is_running ≡ true
    → (step_at i o h).is_running ≡ true
unfolding step_at
step_at-running i none h on = on
step_at-running i (some w) h on = ground arith

run_workers-running :
    (is : List ℕ) (h : Handler) → h.is_running ≡ true → (run_workers is h).is_running ≡ true
unfolding run_workers worker_step
run_workers-running [] h on = on
run_workers-running (i ∷ is) h on =
    run_workers-running is (worker_step i h) (step_at-running i (get_elem? h.workers i) h on)

-- A stop is lost on a thread that was started but has not run yet: the thread raises the flag
-- again, and however the threads go on, the handler runs until it is stopped once more.
pub stop_lost :
    (i : ℕ) (w : Worker) (h : Handler) (is : List ℕ)
    → get_elem? h.workers i ≡ some w
    → w.phase ≡ created
    → (run_workers is (worker_step i (stop h))).is_running ≡ true
unfolding worker_step stop
stop_lost i w h is at new =
    run_workers-running is (worker_step i (stop h)) (rw (at, step_at) (rw new))

abbrev pub has_begun : Phase → Bool
has_begun created = false
has_begun looping = true
has_begun terminated = true

-- Every thread has raised its flag.
abbrev pub AllBegun : Handler → Type 0
AllBegun h = (i : ℕ) (w : Worker) → get_elem? h.workers i ≡ some w → has_begun w.phase ≡ true

-- The thread has left its loop.
abbrev pub IsOver : Option Worker → Type 0
IsOver none = Unit {0}
IsOver (some w) = w.phase ≡ terminated

abbrev Stopped : Handler → Type 0
Stopped h = (h.is_running ≡ false) × AllBegun h

abbrev finished : Worker → Worker
finished w = record w { phase = terminated }

abbrev with_workers : List Worker → Handler → Handler
with_workers ws h = record h { workers = ws }

-- With the flag down, a thread that has begun leaves its loop, or has left it.
abbrev Finishes : ℕ → Handler → Handler → Type 0
Finishes i h after =
    ((after ≡ h) × IsOver (get_elem? h.workers i))
    ⊎ ((w : Worker) × (i < length h.workers)
        × (after ≡ with_workers (set h.workers i (finished w)) h))

step-Finishes-phase :
    (i : ℕ) (w : Worker) (p : Phase) (h : Handler)
    → w.phase ≡ p
    → get_elem? h.workers i ≡ some w
    → i < length h.workers
    → Stopped h
    → Finishes i h (step_at i (some w) h)
unfolding step_at
step-Finishes-phase i w created h e at k (off, begun) =
    absurd (false≢true (sym (ap has_begun e) ∙ begun i w at))
step-Finishes-phase i w looping h e at k (off, begun) = inr (w, k, rw e (rw off))
step-Finishes-phase i w terminated h e at k (off, begun) = inl (rw e, rw at e)

worker_step-Finishes : (i : ℕ) (h : Handler) → Stopped h → Finishes i h (worker_step i h)
unfolding worker_step
worker_step-Finishes i h s = elim (dec_lt i (length h.workers)) [
  | yes k ↦
      let (w, at) = get_elem?-of_lt h.workers i k in
      subst (λ o. Finishes i h (step_at i o h)) (sym at)
        (step-Finishes-phase i w w.phase h refl at k s)
  | no out ↦
      let nothing = get_elem?-of_le h.workers i (omega arith) in
      subst (λ o. Finishes i h (step_at i o h)) (sym nothing)
        (inl (unfold step_at in refl, rw nothing tt))
]

finished-AllBegun :
    (i : ℕ) (w : Worker) (h : Handler)
    → i < length h.workers
    → AllBegun h
    → AllBegun (with_workers (set h.workers i (finished w)) h)
finished-AllBegun i w h k begun j v at = elim (ℕ_discrete i j) [
  | yes same ↦
      let e = get_elem?-set_self h.workers i (finished w) k in
      let at' = subst (λ n. get_elem? (set h.workers i (finished w)) n ≡ some v) (sym same) at in
      ap has_begun (ap (λ (x : Worker). x.phase) (some-injective _ _ (sym at' ∙ e)))
  | no other ↦ begun j v (sym (get_elem?-set_ne h.workers i j (finished w) other) ∙ at)
]

Finishes-Stopped : (i : ℕ) (h after : Handler) → Stopped h → Finishes i h after → Stopped after
Finishes-Stopped i h after s (inl (e, over)) = subst Stopped (sym e) s
Finishes-Stopped i h after (off, begun) (inr (w, k, e)) =
    subst Stopped (sym e) (off, finished-AllBegun i w h k begun)

Finishes-IsOver :
    (i : ℕ) (h after : Handler) → Finishes i h after → IsOver (get_elem? after.workers i)
Finishes-IsOver i h after (inl (e, over)) =
    subst (λ (x : Handler). IsOver (get_elem? x.workers i)) (sym e) over
Finishes-IsOver i h after (inr (w, k, e)) =
    subst (λ (x : Handler). IsOver (get_elem? x.workers i)) (sym e)
      (subst IsOver (sym (get_elem?-set_self h.workers i (finished w) k)) refl)

-- A thread that is over stays over.
Finishes-keeps :
    (i j : ℕ) (h after : Handler)
    → Finishes i h after
    → IsOver (get_elem? h.workers j)
    → IsOver (get_elem? after.workers j)
Finishes-keeps i j h after (inl (e, _)) over =
    subst (λ (x : Handler). IsOver (get_elem? x.workers j)) (sym e) over
Finishes-keeps i j h after (inr (w, k, e)) over =
    subst (λ (x : Handler). IsOver (get_elem? x.workers j)) (sym e)
      (elim (ℕ_discrete i j) [
        | yes same ↦
            subst (λ n. IsOver (get_elem? (set h.workers i (finished w)) n)) same
              (subst IsOver (sym (get_elem?-set_self h.workers i (finished w) k)) refl)
        | no other ↦ subst IsOver (sym (get_elem?-set_ne h.workers i j (finished w) other)) over
      ])

run_workers-keeps :
    (is : List ℕ) (j : ℕ) (h : Handler)
    → Stopped h
    → IsOver (get_elem? h.workers j)
    → IsOver (get_elem? (run_workers is h).workers j)
unfolding run_workers
run_workers-keeps [] j h s over = over
run_workers-keeps (i ∷ is) j h s over =
    let f = worker_step-Finishes i h s in
    run_workers-keeps is j (worker_step i h) (Finishes-Stopped i h (worker_step i h) s f)
      (Finishes-keeps i j h (worker_step i h) f over)

run_workers-Stopped :
    (is : List ℕ) (h : Handler)
    → Stopped h
    → ((run_workers is h).is_running ≡ false)
      × All (λ i. IsOver (get_elem? (run_workers is h).workers i)) is
unfolding run_workers
run_workers-Stopped [] h s = (s.0, tt)
run_workers-Stopped (i ∷ is) h s =
    let f = worker_step-Finishes i h s in
    let t = Finishes-Stopped i h (worker_step i h) s f in
    let (off, over) = run_workers-Stopped is (worker_step i h) t in
    (
      off,
      (run_workers-keeps is i (worker_step i h) t (Finishes-IsOver i h (worker_step i h) f), over),
    )

-- If every thread has begun its loop, a stop takes effect: however the threads go on, the flag
-- stays down, and each thread that takes a step has left its loop.
pub stop_ends :
    (is : List ℕ) (h : Handler)
    → AllBegun h
    → ((run_workers is (stop h)).is_running ≡ false)
      × All (λ i. IsOver (get_elem? (run_workers is (stop h)).workers i)) is
unfolding stop
stop_ends is h begun = run_workers-Stopped is (stop h) (refl, begun)
