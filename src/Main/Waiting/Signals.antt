-- ===== src/Main/Waiting/Signals.antt =====
-- What a signal does to the wait of `main`.
use vtb.Prelude.{
  ℕ, suc, ◌≡◌, ◌≢◌, refl, ◌∙◌, ap, true, false, ℤ, pos, inl, inr, Bool-cases, ◌==◌, int_eq,
  int_beq_iff, arith,
}
use vtb.Main.Waiting.{
  MainThread, launching, waiting, passed, idle, spinning, Mutex, free, held, stuck, Wait, at_launch,
  keep_alive, enter_handler, log_signal, set_flag, Step, launched, refused, turn, published,
  returned, locks, unlocks, signal, signal_at_holder, logged, written, Reach, here, next, Reach-Inv,
  Held-passed, keep_alive-true,
}

-- From here `main` can get past its wait.
abbrev pub CanPass : ℤ → Wait → Type 0
CanPass answer w = (v : Wait) × Reach answer w v × (v.thread ≡ passed)

first_step : {answer : ℤ} {t u v : Wait} → Step answer t u → Reach answer u v → Reach answer t v
first_step st here = next here st
first_step st (next r st') = next (first_step st r) st'

and_pass : (answer : ℤ) (t u : Wait) → Step answer t u → CanPass answer u → CanPass answer t
and_pass answer t u st (v, r, e) = (v, first_step st r, e)

waiting_passes : (answer : ℤ) (w : Wait) → w.thread ≡ waiting → w.seen ≡ true → CanPass answer w
waiting_passes answer w e seen =
    let turned = record w { worker = keep_alive w.seen w.worker } in
    let ended : keep_alive w.seen w.worker ≡ idle =
      ap (λ s. keep_alive s w.worker) seen ∙ keep_alive-true w.worker in
    (record turned { thread = passed }, next (next here (turn w)) (returned turned e ended), refl)

-- The worker sees the flag.
seen_passes :
    (answer : ℤ) (m : MainThread) (w : Wait) → w.thread ≡ m → w.seen ≡ true → CanPass answer w
seen_passes answer passed w e seen = (w, here, e)
seen_passes answer waiting w e seen = waiting_passes answer w e seen
seen_passes answer launching w e seen = elim (Bool-cases (answer == pos 0)) [
  | inl zero_answer ↦
      let after = record w { thread = waiting; worker = spinning } in
      and_pass answer w after (launched w e ((int_beq_iff answer (pos 0)).0 zero_answer))
        (waiting_passes answer after refl seen)
  | inr other ↦
      let after = record w { thread = waiting } in
      and_pass answer w after (refused w e (λ z. ground (arith, int_beq_iff answer (pos 0))))
        (waiting_passes answer after refl seen)
]

-- A handler is in info(), and the mutex is free.
handler_passes :
    (answer : ℤ) (w : Wait) (others : ℕ)
    → w.mutex ≡ free
    → w.in_info ≡ suc others
    → CanPass answer w
unfolding set_flag
handler_passes answer w others e entered =
    let past = log_signal others w in
    let wrote = set_flag w.behind_info past in
    let shown = record wrote { seen = wrote.stop_blocking } in
    and_pass answer w past (logged w others e entered) (
      and_pass answer past wrote (written past w.behind_info refl) (
        and_pass answer wrote shown (published wrote)
          (seen_passes answer shown.thread shown refl refl)))

unstuck_passes :
    (answer : ℤ) (m : Mutex) (w : Wait) → w.mutex ≡ m → m ≢ stuck → CanPass answer (enter_handler w)
unstuck_passes answer free w e d = handler_passes answer (enter_handler w) w.in_info e refl
unstuck_passes answer held w e d =
    let entered = enter_handler w in
    let after = record entered { mutex = free } in
    and_pass answer entered after (unlocks entered e)
      (handler_passes answer after w.in_info refl refl)
unstuck_passes answer stuck w e d = absurd (d refl)

-- In every order of the steps of the main thread, the worker, the signal handlers and the threads
-- that log. Where the worker was launched, `main` gets past its wait only after a handler has
-- written the flag. From every state that is reached and in which the mutex of the Logger is not
-- stuck, when a signal comes to a thread that does not hold the mutex, there are steps by which
-- `main` gets past its wait.
pub main_wait :
    (answer : ℤ) (w : Wait)
    → Reach answer at_launch w
    → (answer ≡ pos 0 → w.thread ≡ passed → w.stop_blocking ≡ true)
      × (w.mutex ≢ stuck → CanPass answer (enter_handler w))
main_wait answer w r = (
  λ e past. Held-passed w.thread w.worker w.stop_blocking past ((Reach-Inv e r).held),
  unstuck_passes answer w.mutex w refl,
)

-- The mutex is stuck before any handler has got past info().
record Blocked (w : Wait) : Type 0 where
  mutex : w.mutex ≡ stuck
  flag : w.stop_blocking ≡ false
  behind : w.behind_info ≡ 0

Step-Blocked : {answer : ℤ} {t u : Wait} → Step answer t u → Blocked t → Blocked u
unfolding set_flag
Step-Blocked (launched w _ _) b = record { mutex = b.mutex; flag = b.flag; behind = b.behind }
Step-Blocked (refused w _ _) b = record { mutex = b.mutex; flag = b.flag; behind = b.behind }
Step-Blocked (turn w) b = record { mutex = b.mutex; flag = b.flag; behind = b.behind }
Step-Blocked (published w) b = record { mutex = b.mutex; flag = b.flag; behind = b.behind }
Step-Blocked (returned w _ _) b = record { mutex = b.mutex; flag = b.flag; behind = b.behind }
Step-Blocked (locks w e) b = cc (b.mutex)
Step-Blocked (unlocks w e) b = cc (b.mutex)
Step-Blocked (signal w) b = record { mutex = b.mutex; flag = b.flag; behind = b.behind }
Step-Blocked (signal_at_holder w e) b = cc (b.mutex)
Step-Blocked (logged w n e _) b = cc (b.mutex)
Step-Blocked (written w n e) b = absurd (omega (arith, b.behind))

Reach-Blocked : {answer : ℤ} {t u : Wait} → Reach answer t u → Blocked t → Blocked u
Reach-Blocked here b = b
Reach-Blocked (next r st) b = Step-Blocked st (Reach-Blocked r b)

Reach-trans : {answer : ℤ} {t u v : Wait} → Reach answer t u → Reach answer u v → Reach answer t v
Reach-trans r here = r
Reach-trans r (next s st) = next (Reach-trans r s) st

-- Where the worker was launched, and a first signal comes to a thread that holds the mutex of the
-- Logger, because it is logging: whatever steps follow, other signals included, the flag is never
-- written, and `main` never gets past its wait.
pub signal_at_holder-blocked :
    (w v : Wait)
    → Reach (pos 0) at_launch w
    → w.mutex ≡ held
    → w.stop_blocking ≡ false
    → w.behind_info ≡ 0
    → Reach (pos 0) (record (enter_handler w) { mutex = stuck }) v
    → (v.stop_blocking ≡ false) × (v.thread ≢ passed)
signal_at_holder-blocked w v r e flag behind s =
    let b = Reach-Blocked s (record { mutex = refl; flag = flag; behind = behind }) in
    let reached = Reach-trans (next r (signal_at_holder w e)) s in
    (
      b.flag,
      λ past.
          let wrote =
            Held-passed v.thread v.worker v.stop_blocking past ((Reach-Inv refl reached).held) in
          cc (b.flag),
    )
