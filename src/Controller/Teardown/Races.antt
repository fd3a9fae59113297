-- ===== src/Controller/Teardown/Races.antt =====
-- What the turns of the two threads can lead to.
use vtb.Prelude.{
  ℕ, zero, suc, ◌+◌, ◌≤◌, ◌≡◌, ◌≢◌, refl, subst, sym, ◌∙◌, Bool, true, false, List, [], ◌∷◌,
  if◌then◌else◌, All, arith,
}
use vtb.Controller.Teardown.{
  Place, using, closed, stopped, gone, Worker, absent, testing, blocked, handling, ended, faulted,
  Life, constructed, launch_worker, join, destroy, access, work, Turn, main, worker, step, run,
}

-- No event comes.
abbrev pub IsQuiet : Turn → Type 0
IsQuiet main = Unit {0}
IsQuiet (worker true) = ⊥
IsQuiet (worker false) = Unit {0}

abbrev pub main_turns : List Turn → ℕ
main_turns [] = 0
main_turns (main ∷ ts) = suc (main_turns ts)
main_turns (worker event ∷ ts) = main_turns ts

-- A fault is one of an object that is gone.
Sound : Worker → Place → Type 0
Sound faulted p = p ≡ gone
Sound _ p = Unit {0}

abbrev SoundAt : Life → Type 0
SoundAt s = Sound s.worker s.place

Sound-access : (p : Place) (w : Worker) → Sound w p → Sound (access p w) p
unfolding Sound access
Sound-access gone w h = refl
Sound-access using w h = h
Sound-access closed w h = h
Sound-access stopped w h = h

Sound-if : (b : Bool) (p : Place) → Sound (if b then blocked else ended) p
unfolding Sound
Sound-if true p = tt
Sound-if false p = tt

Sound-if_event : (b : Bool) (p : Place) → Sound (if b then access p handling else blocked) p
unfolding Sound
Sound-if_event true p = Sound-access p handling tt
Sound-if_event false p = tt

Sound-work :
    (w : Worker) (event : Bool) (s : Life) → Sound w s.place → Sound (work w event s) s.place
unfolding work Sound
Sound-work absent event s h = tt
Sound-work testing event s h =
    Sound-access s.place (if s.is_running then blocked else ended) (Sound-if s.is_running s.place)
Sound-work blocked event s h = Sound-if_event event s.place
Sound-work handling event s h = Sound-access s.place testing tt
Sound-work ended event s h = tt
Sound-work faulted event s h = h

Sound-gone : (w : Worker) → Sound w gone
unfolding Sound
Sound-gone absent = tt
Sound-gone testing = tt
Sound-gone blocked = tt
Sound-gone handling = tt
Sound-gone ended = tt
Sound-gone faulted = refl

-- Before the object is gone there is no fault to keep.
Sound-moves : (w : Worker) (p q : Place) → p ≢ gone → Sound w p → Sound w q
unfolding Sound
Sound-moves absent p q n h = tt
Sound-moves testing p q n h = tt
Sound-moves blocked p q n h = tt
Sound-moves handling p q n h = tt
Sound-moves ended p q n h = tt
Sound-moves faulted p q n h = absurd (n h)

Sound-join : (w : Worker) (s : Life) → SoundAt s → SoundAt (join w s)
unfolding join Sound
Sound-join ended s k = Sound-gone s.worker
Sound-join absent s k = k
Sound-join testing s k = k
Sound-join blocked s k = k
Sound-join handling s k = k
Sound-join faulted s k = k

Sound-either :
    (b : Bool) (s : Life)
    → SoundAt s
    → SoundAt (if b then join s.worker s else record s { place = gone })
Sound-either true s h = Sound-join s.worker s h
Sound-either false s h = Sound-gone s.worker

Sound-destroy : (p : Place) (s : Life) → s.place ≡ p → SoundAt s → SoundAt (destroy p s)
unfolding destroy
Sound-destroy using s e h = Sound-moves s.worker s.place closed (λ g. cc) h
Sound-destroy closed s e h = Sound-moves s.worker s.place stopped (λ g. cc) h
Sound-destroy stopped s e h = Sound-either s.joinable s h
Sound-destroy gone s e h = h

Sound-run : (ts : List Turn) (s : Life) → SoundAt s → SoundAt (run ts s)
unfolding run
Sound-run [] s h = h
Sound-run (main ∷ ts) s h = Sound-run ts (destroy s.place s) (Sound-destroy s.place s refl h)
Sound-run (worker event ∷ ts) s h =
    Sound-run ts (record s { worker = work s.worker event s }) (Sound-work s.worker event s h)

-- The main thread after some turns, when nobody is waited for.
abbrev place_after : ℕ → Place
place_after zero = using
place_after (suc zero) = closed
place_after (suc (suc zero)) = stopped
place_after (suc (suc (suc k))) = gone

record Waits (k : ℕ) (s : Life) : Type 0 where
  pub at : s.place ≡ place_after k
  pub detached : s.joinable ≡ false
  pub waiting : s.worker ≡ blocked

Waits-main : (k : ℕ) (s : Life) → Waits k s → Waits (suc k) (destroy (place_after k) s)
unfolding destroy
Waits-main zero s w = record { at = refl; detached = w.detached; waiting = w.waiting }
Waits-main (suc zero) s w = record { at = refl; detached = w.detached; waiting = w.waiting }
Waits-main (suc (suc zero)) s w =
    subst (λ b. Waits 3 (if b then join s.worker s else record s { place = gone })) (sym w.detached)
      (record { at = refl; detached = w.detached; waiting = w.waiting })
Waits-main (suc (suc (suc k))) s w = record {
  at = w.at;
  detached = w.detached;
  waiting = w.waiting;
}

Waits-quiet : (k : ℕ) (s : Life) → Waits k s → Waits k (record s { worker = work s.worker false s })
unfolding work
Waits-quiet k s w = record { at = w.at; detached = w.detached; waiting = rw w.waiting }

Waits-run :
    (ts : List Turn) (k : ℕ) (s : Life)
    → All IsQuiet ts
    → Waits k s
    → Waits (k + main_turns ts) (run ts s)
unfolding run
Waits-run [] k s q w = subst (λ n. Waits n s) (omega arith) w
Waits-run (main ∷ ts) k s q w =
    subst (λ n. Waits n (run ts (step main s))) (omega arith)
      (Waits-run ts (suc k) (step main s) q.1
        (subst (λ p. Waits (suc k) (destroy p s)) (sym w.at) (Waits-main k s w)))
Waits-run (worker true ∷ ts) k s q w = absurd q.0
Waits-run (worker false ∷ ts) k s q w =
    Waits-run ts k (step (worker false) s) q.1 (Waits-quiet k s w)

place_after-gone : (k : ℕ) → 3 ≤ k → place_after k ≡ gone
place_after-gone zero h = absurd (omega arith)
place_after-gone (suc zero) h = absurd (omega arith)
place_after-gone (suc (suc zero)) h = absurd (omega arith)
place_after-gone (suc (suc (suc k))) h = refl

-- A controller is made, and its worker is launched and comes to wait in `epoll_wait`.
abbrev pub serving : Life
serving = step (worker false) (launch_worker constructed)

Sound-serving : SoundAt serving
unfolding Sound step launch_worker work access
Sound-serving = tt

Sound-faulted : (s : Life) → s.worker ≡ faulted → SoundAt s → s.place ≡ gone
unfolding Sound
Sound-faulted s e h = subst (λ w. Sound w s.place) e h

faults : (s : Life) → s.place ≡ gone → s.worker ≡ blocked → (step (worker true) s).worker ≡ faulted
unfolding step work access
faults s e e' =
    subst (λ w. work w true s ≡ faulted) (sym e')
      (subst (λ p. access p handling ≡ faulted) (sym e) refl)

-- A worker that is launched faults only when the object is gone.
pub run-Sound : (ts : List Turn) → (run ts serving).worker ≡ faulted → (run ts serving).place ≡ gone
run-Sound ts f = Sound-faulted (run ts serving) f (Sound-run ts serving Sound-serving)

-- From a controller in use whose worker waits in `epoll_wait`, however the turns of the two threads
-- are ordered: as long as no event comes, three turns of the main thread take it through the whole
-- destructor, with the worker still in `epoll_wait`; and the next event then makes the worker use
-- an object that is gone.
pub run-Faults :
    (ts : List Turn)
    → All IsQuiet ts
    → 3 ≤ main_turns ts
    → ((run ts serving).place ≡ gone)
      × ((run ts serving).worker ≡ blocked)
      × ((step (worker true) (run ts serving)).worker ≡ faulted)
unfolding step launch_worker work
run-Faults ts q k =
    let w = Waits-run ts 0 serving q (record { at = refl; detached = refl; waiting = refl }) in
    let at' : (run ts serving).place ≡ gone =
      w.at ∙ place_after-gone (0 + main_turns ts) (omega arith) in
    (at', w.waiting, faults (run ts serving) at' w.waiting)
