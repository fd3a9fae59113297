-- ===== src/Logger/Delivery.antt =====
-- The lines that the logger accepted, in order: each is written, carried by the flush thread, or in
-- the buffer.
use mathlib.Core.List.{append-nil, append_assoc}
use vtb.Prelude.{
  Bool, false, List, [], ◌∷◌, ◌++◌, if◌then◌else◌, Bytes, ◌≡◌, refl, sym, ◌∙◌, ap, arith, inl, inr,
  Bool-cases,
}
use vtb.Logger.{
  Logger, LogLevel, Flusher, absent, testing, waiting, holding, draining, drained, finished, fresh,
  init, passes, line, log, write, move, flush, stop,
}

pub data Event : Type 0 where
  inits : Bytes → Bool → LogLevel → Event
  logs : LogLevel → Bytes → Event
  flushes : Event
  stops : Event

unfoldable pub step : Event → Logger → Logger
step (inits filename opens level) logger = init filename opens level logger
step (logs level message) logger = log level message logger
step flushes logger = flush logger
step stops logger = stop logger

unfoldable pub run : List Event → Logger → Logger
run [] logger = logger
run (e ∷ es) logger = run es (step e logger)

-- What the event adds to the lines that the logger has accepted.
pub added : Event → Logger → Bytes
added (logs level message) logger = if passes level logger.level then line message else []
added (inits filename opens level) logger = []
added flushes logger = []
added stops logger = []

pub accepted : List Event → Logger → Bytes
accepted [] logger = []
accepted (e ∷ es) logger = added e logger ++ accepted es (step e logger)

-- Where the accepted lines are, in order: written, with the flush thread, in the buffer. What is
-- logged after the final drain stays in the buffer.
abbrev pub Holds : Flusher → Bytes → Logger → Type 0
Holds absent total s = (s.console ≡ []) × (s.console ++ s.buffer ≡ total)
Holds testing total s = s.console ++ s.buffer ≡ total
Holds waiting total s = s.console ++ s.buffer ≡ total
Holds (holding w) total s = s.console ++ (w ++ s.buffer) ≡ total
Holds draining total s = s.console ++ s.buffer ≡ total
Holds (drained w) total s =
    (rest : Bytes) × (s.buffer ≡ w ++ rest) × (s.console ++ s.buffer ≡ total)
Holds finished total s = (w rest : Bytes) × (s.buffer ≡ w ++ rest) × (s.console ++ rest ≡ total)

pub record Inv (total : Bytes) (s : Logger) : Type 0 where
  pub place : Holds s.flusher total s
  pub thread : s.initialized ≡ false → s.flusher ≡ absent
  pub copied : s.file ≡ (if s.file_open then s.console else [])

Holds-buffer :
    (f : Flusher) (total t : Bytes) (s : Logger)
    → Holds f total s
    → Holds f (total ++ t) (record s { buffer = s.buffer ++ t })
Holds-buffer absent total t s (c, h) = (c, rw (← append_assoc) (ap (λ x. x ++ t) h))
Holds-buffer testing total t s h = rw (← append_assoc) (ap (λ x. x ++ t) h)
Holds-buffer waiting total t s h = rw (← append_assoc) (ap (λ x. x ++ t) h)
Holds-buffer (holding w) total t s h =
    rw (← append_assoc w s.buffer t) (rw (← append_assoc) (ap (λ x. x ++ t) h))
Holds-buffer draining total t s h = rw (← append_assoc) (ap (λ x. x ++ t) h)
Holds-buffer (drained w) total t s (rest, b, h) =
    (rest ++ t, rw (b, append_assoc), rw (← append_assoc) (ap (λ x. x ++ t) h))
Holds-buffer finished total t s (w, rest, b, h) =
    (w, rest ++ t, rw (b, append_assoc), rw (← append_assoc) (ap (λ x. x ++ t) h))

pub console-write : (w : Bytes) (s : Logger) → (write w s).console ≡ s.console ++ w
unfolding write
console-write [] s = sym (append-nil s.console)
console-write (c ∷ w) s = refl

pub buffer-write : (w : Bytes) (s : Logger) → (write w s).buffer ≡ s.buffer
unfolding write
buffer-write [] s = refl
buffer-write (c ∷ w) s = refl

write-copied :
    (w : Bytes) (s : Logger)
    → s.file ≡ (if s.file_open then s.console else [])
    → (write w s).file ≡ (if (write w s).file_open then (write w s).console else [])
unfolding write
write-copied [] s h = h
write-copied (c ∷ w) s h = ground arith

initialized-write : (w : Bytes) (s : Logger) → (write w s).initialized ≡ s.initialized
unfolding write
initialized-write [] s = refl
initialized-write (c ∷ w) s = refl

Holds-move :
    (f : Flusher) (total : Bytes) (s : Logger)
    → s.flusher ≡ f
    → Holds f total s
    → Holds (move f s).flusher total (move f s)
unfolding move
Holds-move absent total s e h = rw e h
Holds-move testing total s e h = elim (Bool-cases s.running) [
  | inl on ↦ rw on h
  | inr off ↦ rw off h
]
Holds-move waiting total s e h = rw append-nil h
Holds-move (holding w) total s e h = rw (console-write w s, buffer-write w s, append_assoc) h
Holds-move draining total s e h = ([], sym (append-nil s.buffer), h)
Holds-move (drained w) total s e (rest, b, h) =
    (w, rest, buffer-write w s ∙ b, rw (console-write w s, append_assoc) (rw b at h))
Holds-move finished total s e h = rw e h

pub running-write : (w : Bytes) (s : Logger) → (write w s).running ≡ s.running
unfolding write
running-write [] s = refl
running-write (c ∷ w) s = refl

move-absent : (f : Flusher) (s : Logger) → s.flusher ≡ f → f ≡ absent → (move f s).flusher ≡ absent
unfolding move
move-absent absent s e h = e
move-absent testing s e h = cc
move-absent waiting s e h = cc
move-absent (holding w) s e h = cc
move-absent draining s e h = cc
move-absent (drained w) s e h = cc
move-absent finished s e h = cc

initialized-move : (f : Flusher) (s : Logger) → (move f s).initialized ≡ s.initialized
unfolding move
initialized-move (holding w) s = initialized-write w s
initialized-move (drained w) s = initialized-write w s
initialized-move absent s = refl
initialized-move testing s = refl
initialized-move waiting s = refl
initialized-move draining s = refl
initialized-move finished s = refl

move-copied :
    (f : Flusher) (s : Logger)
    → s.file ≡ (if s.file_open then s.console else [])
    → (move f s).file ≡ (if (move f s).file_open then (move f s).console else [])
unfolding move
move-copied (holding w) s h = write-copied w s h
move-copied (drained w) s h = write-copied w s h
move-copied absent s h = h
move-copied testing s h = h
move-copied waiting s h = h
move-copied draining s h = h
move-copied finished s h = h

flush-Inv : (total : Bytes) (s : Logger) → Inv total s → Inv total (flush s)
unfolding flush
flush-Inv total s v = record {
  place = Holds-move s.flusher total s refl v.place;
  thread = λ h. move-absent s.flusher s refl (v.thread (sym (initialized-move s.flusher s) ∙ h));
  copied = move-copied s.flusher s v.copied;
}

-- A logger that no thread flushes yet has written nothing.
Holds-absent :
    (f : Flusher) (total : Bytes) (s : Logger)
    → f ≡ absent
    → Holds f total s
    → (s.console ≡ []) × (s.console ++ s.buffer ≡ total)
Holds-absent absent total s e h = h
Holds-absent testing total s e h = cc
Holds-absent waiting total s e h = cc
Holds-absent (holding w) total s e h = cc
Holds-absent draining total s e h = cc
Holds-absent (drained w) total s e h = cc
Holds-absent finished total s e h = cc

init-Inv :
    (filename : Bytes) (opens : Bool) (level : LogLevel) (total : Bytes) (s : Logger)
    → Inv total s
    → Inv total (init filename opens level s)
unfolding init
init-Inv filename opens level total s v = elim (Bool-cases s.initialized) [
  | inl again ↦ simp again v
  | inr new ↦
      let (nothing, h) = Holds-absent s.flusher total s (v.thread new) v.place in
      rw new (record { place = h; thread = λ e. cc; copied = ground arith })
]

log-Inv :
    (level : LogLevel) (message total : Bytes) (s : Logger)
    → Inv total s
    → Inv (total ++ added (logs level message) s) (log level message s)
unfolding log added
log-Inv level message total s v = elim (Bool-cases (passes level s.level)) [
  | inl on ↦ rw on (record {
    place = Holds-buffer s.flusher total (line message) s v.place;
    thread = v.thread;
    copied = v.copied;
  })
  | inr off ↦ rw (off, append-nil total) v
]

stop-Holds :
    (f : Flusher) (total : Bytes) (s : Logger)
    → Holds f total s
    → Holds f total (record s { running = false })
stop-Holds absent total s h = h
stop-Holds testing total s h = h
stop-Holds waiting total s h = h
stop-Holds (holding w) total s h = h
stop-Holds draining total s h = h
stop-Holds (drained w) total s h = h
stop-Holds finished total s h = h

fresh-Inv : Inv [] fresh
unfolding fresh
fresh-Inv = record { place = (refl, refl); thread = λ h. refl; copied = refl }

step-Inv :
    (e : Event) (total : Bytes) (s : Logger) → Inv total s → Inv (total ++ added e s) (step e s)
unfolding step added
step-Inv (inits filename opens level) total s v =
    rw (append-nil total) (init-Inv filename opens level total s v)
step-Inv (logs level message) total s v = log-Inv level message total s v
step-Inv flushes total s v = rw (append-nil total) (flush-Inv total s v)
step-Inv stops total s v = rw (append-nil total) (
    unfold stop in
    record { place = stop-Holds s.flusher total s v.place; thread = v.thread; copied = v.copied })

run-Inv :
    (es : List Event) (total : Bytes) (s : Logger)
    → Inv total s
    → Inv (total ++ accepted es s) (run es s)
unfolding run accepted
run-Inv [] total s v = rw (append-nil total) v
run-Inv (e ∷ es) total s v =
    rw (← append_assoc total (added e s) (accepted es (step e s)))
      (run-Inv es (total ++ added e s) (step e s) (step-Inv e total s v))

-- However the threads interleave, the lines that the logger accepted, in order, are those it
-- wrote, those that the flush thread carries and those in the buffer; what is logged after the
-- final drain stays in the buffer. The file, if open, has what the standard output has.
pub run-fresh-Inv : (es : List Event) → Inv (accepted es fresh) (run es fresh)
run-fresh-Inv es = run-Inv es [] fresh fresh-Inv
