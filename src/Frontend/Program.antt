-- ===== src/Frontend/Program.antt =====
-- The loop of CustomFrontend::run and `main` (frontend/frontend.cpp), with the signals of the
-- session as arguments.
use mathlib.Core.Bool.{true≢false}
use native.Mathlib.Decide.{dec_lt}
use vtb.Prelude.{
  ℕ, zero, suc, ◌+◌, ◌<◌, ◌≤◌, ◌≡◌, ◌⊎◌, inl, inr, refl, sym, ◌∙◌, ap, Bool, true, false, ◌||◌,
  List, [], ◌∷◌, ◌++◌, map, ℤ, if◌then◌else◌, Bytes, text, Option, none, some, Result, ok,
  undefined, All, arith, Bool-cases,
}
use vtb.Prelude.Effects.{Exec, done, raised, lost}
use vtb.Common.Sockets.{negative}
use vtb.Frontend.{PortAnswers, Calls, construct}
use vtb.Frontend.Ports.{Step, steps, FirstFailure, Stopped, construct-Stopped}

-- The new value of `force_quit`.
abbrev pub signal_handler : Bool → Bool
signal_handler force_quit = true

-- The flag after a time in which a signal comes or does not.
abbrev flag_after : Bool → Bool → Bool
flag_after arrives force_quit = if arrives then signal_handler force_quit else force_quit

-- The loop: the number of its waits. `arrives i` says whether a signal comes in wait `i`. Where the
-- fuel is used up the loop still runs.
pub run : ℕ → (ℕ → Bool) → Bool → ℕ → Option ℕ
run zero arrives force_quit i = none
run (suc fuel) arrives force_quit i =
    let rest = run fuel arrives (flag_after (arrives i) force_quit) (suc i) in
    if force_quit then some i else rest

-- The exit code, the standard error, the calls of DPDK and the waits.
pub record Outcome : Type 0 where
  pub code : ℕ
  pub errors : Bytes
  pub calls : Calls
  pub waits : ℕ

abbrev finished : Calls → Option ℕ → Option (Result Outcome)
finished cs none = none
finished cs (some n) = some (ok (record { code = 0; errors = []; calls = cs; waits = n }))

abbrev pub complaint : Bytes → Bytes
complaint what = text "CRITICAL: " ++ (what ++ text "\n")

-- What comes behind the constructor: the loop, or the handler of exceptions.
abbrev after_construct : ℕ → Bool → (ℕ → Bool) → Exec Calls (Unit {0}) → Option (Result Outcome)
after_construct fuel early arrives (done x cs) =
    finished cs (run fuel arrives (flag_after early false) 0)
after_construct fuel early arrives (raised what cs) =
    some (ok (record { code = 1; errors = complaint what; calls = cs; waits = 0 }))
after_construct fuel early arrives lost = some undefined

-- `early` says whether a signal comes before the loop.
unfoldable pub main : ℕ → ℤ → Bool → (ℕ → PortAnswers) → Bool → (ℕ → Bool) → Option (Result Outcome)
unfolding run
main fuel ret pool answers early arrives =
    after_construct fuel early arrives (construct ret pool answers [])

-- Whether a signal has come before the test of the loop that follows `i` waits.
abbrev pub signalled : Bool → (ℕ → Bool) → ℕ → Bool
signalled early arrives zero = early
signalled early arrives (suc i) = signalled early arrives i || arrives i

-- The test of the loop that follows `n` waits is the first with a signal before it.
abbrev pub FirstSignal : Bool → (ℕ → Bool) → ℕ → Type 0
FirstSignal early arrives n =
    (signalled early arrives n ≡ true) × ((i : ℕ) → i < n → signalled early arrives i ≡ false)

-- The exit code 0 after all the steps and the waits; or 1 with the text of the first step that
-- failed, which was the last.
abbrev pub Ends : List Step → ℕ → Option (Result Outcome) → Type 0
Ends ss n r =
    (All (λ s. negative s.result ≡ false) ss
      × (r ≡ some (ok (record { code = 0; errors = []; calls = map (λ s. s.call) ss; waits = n }))))
    ⊎ ((front : List Step) × (bad : Step) × (back : List Step) × FirstFailure ss front bad back
        × (r
            ≡ some (
                ok (record {
                  code = 1;
                  errors = complaint bad.what;
                  calls = map (λ s. s.call) (front ++ (bad ∷ []));
                  waits = 0;
                }))))

lt_or_eq : (i n : ℕ) → i ≤ n → (i < n) ⊎ (i ≡ n)
lt_or_eq i n h = elim (dec_lt i n) [ yes l ↦ inl l | no l ↦ inr (omega arith) ]

flag_after-false : (b : Bool) → flag_after b false ≡ b
flag_after-false true = refl
flag_after-false false = refl

run-first :
    (fuel n i : ℕ) (early : Bool) (arrives : ℕ → Bool)
    → FirstSignal early arrives n
    → i ≤ n
    → n < i + fuel
    → run fuel arrives (signalled early arrives i) i ≡ some n
unfolding run
run-first zero n i early arrives first h k = absurd (omega arith)
run-first (suc fuel) n i early arrives first h k = elim (Bool-cases (signalled early arrives i)) [
  | inl yes' ↦ (elim (lt_or_eq i n h) [
    | inl lt ↦ absurd (true≢false (sym yes' ∙ first.1 i lt))
    | inr e ↦ rw yes' (ap some e)
  ])
  | inr no' ↦ (elim (lt_or_eq i n h) [
    | inl lt ↦ rw no' (
        ap (λ q. run fuel arrives q (suc i))
          (flag_after-false (arrives i) ∙ sym (ap (λ s. s || arrives i) no'))
        ∙ run-first fuel n (suc i) early arrives first (omega arith) (omega arith))
    | inr e ↦ absurd (true≢false (sym first.0 ∙ ap (signalled early arrives) (sym e) ∙ no'))
  ])
]

after_construct-Ends :
    (fuel n : ℕ) (ss : List Step) (early : Bool) (arrives : ℕ → Bool) (r : Exec Calls (Unit {0}))
    → FirstSignal early arrives n
    → n < fuel
    → Stopped ss [] r
    → Ends ss n (after_construct fuel early arrives r)
after_construct-Ends fuel n ss early arrives r first h (inl (well, e)) = inl (
  well,
  rw e (
      rw (
        flag_after-false early,
        run-first fuel n 0 early arrives first (omega arith) (omega arith),
      )),
)
after_construct-Ends fuel n ss early arrives r first h (inr (front, bad, back, fails, e)) =
    inr (front, bad, back, fails, rw e)

-- When a signal comes in the end, `n` is the number of waits before the loop sees it, and the fuel
-- is more than that, the program ends: with the exit code 0 after all the steps of its set-up and
-- `n` waits, if none of the steps fails; and otherwise with the exit code 1, the text of the first
-- that fails on the standard error, and without a step behind it.
pub main-Ends :
    (fuel n : ℕ) (ret : ℤ) (pool : Bool) (answers : ℕ → PortAnswers) (early : Bool)
    (arrives : ℕ → Bool)
    → FirstSignal early arrives n
    → n < fuel
    → Ends (steps ret pool answers) n (main fuel ret pool answers early arrives)
unfolding main
main-Ends fuel n ret pool answers early arrives first h =
    after_construct-Ends fuel n (steps ret pool answers) early arrives
      (construct ret pool answers []) first h (construct-Stopped ret pool answers)

run-none :
    (fuel i : ℕ) (arrives : ℕ → Bool)
    → ((j : ℕ) → arrives j ≡ false)
    → run fuel arrives false i ≡ none
unfolding run
run-none zero i arrives quiet = refl
run-none (suc fuel) i arrives quiet = rw (quiet i) (run-none fuel (suc i) arrives quiet)

-- Where no signal comes and the set-up succeeds, the loop goes on for ever: no fuel is enough.
pub main-none :
    (fuel : ℕ) (ret : ℤ) (pool : Bool) (answers : ℕ → PortAnswers) (arrives : ℕ → Bool) (cs : Calls)
    → ((j : ℕ) → arrives j ≡ false)
    → construct ret pool answers [] ≡ done tt cs
    → main fuel ret pool answers false arrives ≡ none
unfolding main
main-none fuel ret pool answers arrives cs quiet e = rw e (rw (run-none fuel 0 arrives quiet))
