-- ===== src/Controller/Poll/Calls.antt =====
-- The calls on descriptors that the worker makes.
use mathlib.Core.List.{append-nil, append_assoc}
use vtb.Prelude.{
  ◌≡◌, ◌≢◌, refl, sym, ◌∙◌, ap, subst, Bool, true, false, Option, none, some, List, [], ◌∷◌, ◌++◌,
  ℤ, int_eq, int_beq_iff, nat_eq, ◌==◌, if◌then◌else◌, length, Bytes, arith, Bool-cases, inl, inr,
}
use vtb.Prelude.Effects.{Exec, done, raised, lost, bind, M}
use vtb.Cmdline.{Arguments}
use vtb.Common.Wire.{message_size, decode}
use vtb.Handler.{Dpdk}
use vtb.Controller.{System, process_notification}
use vtb.Controller.Poll.{
  Event, EpollCall, add, del, close, Poll, Worker, overwrite, deliver, hang_up, receive,
  handle_event, round, epoll_worker,
}

-- Every descriptor is closed right after it was removed from the interest list, none is removed
-- and left open, and none of them is the given one.
abbrev pub Tidy : ℤ → List EpollCall → Type 0
Tidy fd [] = Unit {0}
Tidy fd (add g ∷ cs) = Tidy fd cs
Tidy fd (del g ∷ close h ∷ cs) = (g ≡ h) × (h ≢ fd) × Tidy fd cs
Tidy fd (del g ∷ _) = ⊥
Tidy fd (close g ∷ cs) = ⊥

Tidy-append : (fd : ℤ) (cs ds : List EpollCall) → Tidy fd cs → Tidy fd ds → Tidy fd (cs ++ ds)
Tidy-append fd [] ds h k = k
Tidy-append fd (add g ∷ cs) ds h k = Tidy-append fd cs ds h k
Tidy-append fd (del g ∷ close c ∷ cs) ds h k = (h.0, h.1, Tidy-append fd cs ds h.2 k)
Tidy-append fd (del g ∷ []) ds h k = absurd h
Tidy-append fd (del g ∷ add c ∷ cs) ds h k = absurd h
Tidy-append fd (del g ∷ del c ∷ cs) ds h k = absurd h
Tidy-append fd (close g ∷ cs) ds h k = absurd h

-- The calls that were made since `p`.
abbrev pub Grown : Poll → Poll → Type 0
Grown p p' =
    (cs : List EpollCall) × (p'.calls ≡ p.calls ++ cs)
    × Tidy p.abstract_fd cs
    × (p'.abstract_fd ≡ p.abstract_fd)

Grown-refl : (p p' : Poll) → p'.calls ≡ p.calls → p'.abstract_fd ≡ p.abstract_fd → Grown p p'
Grown-refl p p' c a = ([], c ∙ sym (append-nil p.calls), tt, a)

Grown-trans : (p q r : Poll) → Grown p q → Grown q r → Grown p r
Grown-trans p q r (cs, c, t, a) (ds, d, u, b) = (
  cs ++ ds,
  d ∙ ap (λ xs. xs ++ ds) c ∙ append_assoc p.calls cs ds,
  Tidy-append p.abstract_fd cs ds t (subst (λ fd. Tidy fd ds) a u),
  b ∙ a,
)

module _ (D : Dpdk) (arguments : Arguments) where
  -- Whether the worker returned or an exception left it.
  abbrev pub Keeps : Poll → Exec (Worker D arguments) (Unit {0}) → Type 0
  Keeps p (done x (q, s)) = Grown p q
  Keeps p (raised e (q, s)) = Grown p q
  Keeps p lost = Unit {0}

  Keeps-bind :
      (p : Poll) (r : Exec (Worker D arguments) (Unit {0})) (k : M (Worker D arguments) (Unit {0}))
      → Keeps p r
      → ((q : Poll) (s : System D arguments) → Keeps q (k (q, s)))
      → Keeps p (bind r (λ _. k))
  Keeps-bind p (done x (q, s)) k h f = go (k (q, s)) (f q s)
    where
      go : (r : Exec (Worker D arguments) (Unit {0})) → Keeps q r → Keeps p r
      go (done y (t, u)) g = Grown-trans p q t h g
      go (raised e (t, u)) g = Grown-trans p q t h g
      go lost g = tt
  Keeps-bind p (raised e (q, s)) k h f = h
  Keeps-bind p lost k h f = tt

  Keeps-if :
      (p : Poll) (b : Bool) (r r' : Exec (Worker D arguments) (Unit {0}))
      → Keeps p r
      → Keeps p r'
      → Keeps p (if b then r else r')
  Keeps-if p true r r' h h' = h
  Keeps-if p false r r' h h' = h'

  deliver-Keeps :
      (p q : Poll) (r : Exec (System D arguments) (Unit {0}))
      → Grown p q
      → Keeps p (deliver D arguments q r)
  deliver-Keeps p q (done x s) g = g
  deliver-Keeps p q (raised e s) g = g
  deliver-Keeps p q lost g = tt

  hang_up-Keeps :
      (fd : ℤ) (p : Poll) (s : System D arguments)
      → fd ≢ p.abstract_fd
      → Keeps p (hang_up D arguments fd (p, s))
  unfolding hang_up
  hang_up-Keeps fd p s d = (del fd ∷ close fd ∷ [], refl, (refl, d, tt), refl)

  receive-Keeps :
      (fd : ℤ) (received : Option Bytes) (p : Poll) (s : System D arguments)
      → fd ≢ p.abstract_fd
      → Keeps p (receive D arguments fd received (p, s))
  unfolding receive
  receive-Keeps fd none p s d = hang_up-Keeps fd p s d
  receive-Keeps fd (some []) p s d = hang_up-Keeps fd p s d
  receive-Keeps fd (some (c ∷ bytes)) p s d =
      let q = record p { pdrs = overwrite (c ∷ bytes) p.pdrs } in
      elim (Bool-cases (length (c ∷ bytes) == message_size)) [
        | inl whole ↦ rw whole (
            deliver-Keeps p q (process_notification D arguments (decode q.pdrs) s)
              (Grown-refl p q refl refl))
        | inr other ↦ rw other (Grown-refl p q refl refl)
      ]

  handle_event-Keeps :
      (e : Event) (p : Poll) (s : System D arguments) → Keeps p (handle_event D arguments e (p, s))
  unfolding handle_event
  handle_event-Keeps e p s = elim (Bool-cases (e.fd == p.abstract_fd)) [
    | inl here ↦ rw here (add e.accepted ∷ [], refl, tt, refl)
    | inr client ↦ rw client (elim (Bool-cases e.epollin) [
      | inl readable ↦
          rw readable (
            receive-Keeps e.fd e.received p s (λ h. ground (arith, int_beq_iff e.fd p.abstract_fd)))
      | inr quiet ↦ rw quiet (Grown-refl p p refl refl)
    ])
  ]

  round-Keeps :
      (es : List Event) (p : Poll) (s : System D arguments) → Keeps p (round D arguments es (p, s))
  unfolding round
  round-Keeps [] p s = Grown-refl p p refl refl
  round-Keeps (e ∷ es) p s =
      Keeps-bind p (handle_event D arguments e (p, s)) (round D arguments es)
        (handle_event-Keeps e p s) (λ q t. round-Keeps es q t)

  -- Whatever events the worker meets, and whether it returns or throws: its calls so far are
  -- followed by calls that close a descriptor exactly right after its removal from the interest
  -- list, and never remove or close the listening socket, which stays the same.
  pub epoll_worker-Keeps :
      (rounds : List (List Event)) (p : Poll) (s : System D arguments)
      → Keeps p (epoll_worker D arguments rounds (p, s))
  unfolding epoll_worker
  epoll_worker-Keeps [] p s = Grown-refl p p refl refl
  epoll_worker-Keeps (es ∷ rounds) p s =
      Keeps-if p p.is_running _ _
        (Keeps-bind p (round D arguments es (p, s)) (epoll_worker D arguments rounds)
          (round-Keeps es p s) (λ q t. epoll_worker-Keeps rounds q t))
        (Grown-refl p p refl refl)
