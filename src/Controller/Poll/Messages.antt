-- ===== src/Controller/Poll/Messages.antt =====
-- What the worker makes of the messages of one connection.
use mathlib.Core.List.{flatten}
use vtb.Prelude.{
  ◌≡◌, ◌≢◌, refl, sym, ◌∙◌, ap, true, false, some, List, [], ◌∷◌, ◌++◌, ℤ, int_eq, nat_eq, ◌==◌,
  length, Bytes, map, All, arith, int_beq_iff,
}
use vtb.Prelude.Effects.{M, Exec, done, raised, lost, ◌>>◌, return, bind}
use vtb.Cmdline.{Arguments}
use vtb.Common.Devices.{PortDeviceRingState}
use vtb.Common.Wire.{encode, encode_int, decode, drop}
use vtb.Common.Wire.Packets.{Fits, decode-encode}
use vtb.Handler.{Dpdk}
use vtb.Controller.{System, process_notification}
use vtb.Controller.Poll.{
  Event, Poll, Worker, overwrite, receive, deliver, handle_event, round, epoll_worker,
}

-- A connection is readable, and `read` returns these bytes.
abbrev pub arrives : ℤ → Bytes → Event
arrives fd bytes = record { fd = fd; epollin = true; accepted = fd; received = some bytes }

-- A Boolean test that fails.
ne→beq : (a b : ℤ) → a ≢ b → (a == b) ≡ false
ne→beq a b d = ground (arith, int_beq_iff a b)

module _ (D : Dpdk) (arguments : Arguments) where
  -- The port controller handles one message after the other.
  unfoldable pub process_all : List PortDeviceRingState → M (System D arguments) (Unit {0})
  process_all [] = return tt
  process_all (m ∷ ms) = process_notification D arguments m >> process_all ms

  pub arrived :
      (fd : ℤ) (bytes : Bytes) (p : Poll) (s : System D arguments)
      → fd ≢ p.abstract_fd
      → handle_event D arguments (arrives fd bytes) (p, s)
        ≡ receive D arguments fd (some bytes) (p, s)
  unfolding handle_event
  arrived fd bytes p s d = rw (ne→beq fd p.abstract_fd d)

  -- A whole message is written over `pdrs_` and handled.
  receive-encode :
      (fd : ℤ) (m : PortDeviceRingState) (p : Poll) (s : System D arguments)
      → receive D arguments fd (some (encode m)) (p, s)
        ≡ deliver D arguments
            (record p { pdrs = overwrite (encode m) p.pdrs })
            (process_notification D arguments (decode (overwrite (encode m) p.pdrs)) s)
  unfolding receive encode encode_int
  receive-encode fd m p s = refl

  message_arrives :
      (fd : ℤ) (m : PortDeviceRingState) (p : Poll) (s : System D arguments)
      → fd ≢ p.abstract_fd
      → Fits m
      → handle_event D arguments (arrives fd (encode m)) (p, s)
        ≡ deliver D arguments
            (record p { pdrs = overwrite (encode m) p.pdrs })
            (process_notification D arguments m s)
  message_arrives fd m p s d f =
      arrived fd (encode m) p s d
      ∙ receive-encode fd m p s
      ∙ ap
          (λ n.
            deliver D arguments (record p { pdrs = overwrite (encode m) p.pdrs })
              (process_notification D arguments n s))
          (decode-encode m (drop (length (encode m)) p.pdrs) f)

  -- The worker has handled what it read, and has made no call for it.
  abbrev pub Handled : Poll → System D arguments → Exec (Worker D arguments) (Unit {0}) → Type 0
  Handled p s' r =
      (p' : Poll) × (r ≡ done tt (p', s'))
      × (p'.calls ≡ p.calls)
      × (p'.abstract_fd ≡ p.abstract_fd)
      × (p'.is_running ≡ p.is_running)

  round-Handled :
      (fd : ℤ) (ms : List PortDeviceRingState) (p : Poll) (s s' : System D arguments)
      → fd ≢ p.abstract_fd
      → All Fits ms
      → process_all ms s ≡ done tt s'
      → Handled p s' (round D arguments (map (λ m. arrives fd (encode m)) ms) (p, s))
  unfolding round process_all
  round-Handled fd [] p s s' d f e = (p, ap (deliver D arguments p) e, refl, refl, refl)
  round-Handled fd (m ∷ ms) p s s' d f e =
      let q = record p { pdrs = overwrite (encode m) p.pdrs } in
      let (s1, first, rest) = split (process_notification D arguments m s) e in
      let (p', r, c, a, k) = round-Handled fd ms q s1 s' d f.1 rest in
      (
        p',
        ap (λ x. bind x (λ _. round D arguments (map (λ n. arrives fd (encode n)) ms)))
              (message_arrives fd m p s d f.0 ∙ ap (deliver D arguments q) first)
            ∙ r,
        c,
        a,
        k,
      )
    where
      split :
          (r : Exec (System D arguments) (Unit {0}))
          → bind r (λ _. process_all ms) ≡ done tt s'
          → (s1 : System D arguments) × (r ≡ done tt s1) × (process_all ms s1 ≡ done tt s')
      split (done x s1) h = (s1, refl, h)
      split (raised x s1) h = cc
      split lost h = cc

  pub process_all-append :
      (ms ns : List PortDeviceRingState) (s : System D arguments)
      → process_all (ms ++ ns) s ≡ bind (process_all ms s) (λ _. process_all ns)
  unfolding process_all
  process_all-append [] ns s = refl
  process_all-append (m ∷ ms) ns s =
      go (process_notification D arguments m s) (process_all-append ms ns)
    where
      go :
          (r : Exec (System D arguments) (Unit {0}))
          → ((s1 : System D arguments)
              → process_all (ms ++ ns) s1 ≡ bind (process_all ms s1) (λ _. process_all ns))
          → bind r (λ _. process_all (ms ++ ns))
            ≡ bind (bind r (λ _. process_all ms)) (λ _. process_all ns)
      go (done x s1) ih = ih s1
      go (raised x s1) ih = refl
      go lost ih = refl

  -- The rounds in which these messages arrive on one connection.
  abbrev pub wakeups : ℤ → List (List PortDeviceRingState) → List (List Event)
  wakeups fd mss = map (map (λ m. arrives fd (encode m))) mss

  pub epoll_worker-running :
      (es : List Event) (rounds : List (List Event)) (p : Poll) (s : System D arguments)
      → p.is_running ≡ true
      → epoll_worker D arguments (es ∷ rounds) (p, s)
        ≡ bind (round D arguments es (p, s)) (λ _. epoll_worker D arguments rounds)
  unfolding epoll_worker
  epoll_worker-running es rounds p s on = rw on

  -- However the messages of a connection are spread over the rounds of a running worker, if each
  -- is read whole, then the worker handles them all in the order of the stream, and makes no call
  -- on the connection.
  pub epoll_worker-process_all :
      (fd : ℤ) (mss : List (List PortDeviceRingState)) (p : Poll) (s s' : System D arguments)
      → fd ≢ p.abstract_fd
      → p.is_running ≡ true
      → All (All Fits) mss
      → process_all (flatten mss) s ≡ done tt s'
      → Handled p s' (epoll_worker D arguments (wakeups fd mss) (p, s))
  unfolding epoll_worker process_all flatten
  epoll_worker-process_all fd [] p s s' d on f e =
      (p, ap (deliver D arguments p) e, refl, refl, refl)
  epoll_worker-process_all fd (ms ∷ mss) p s s' d on f e =
      let (s1, first, rest) =
        split (process_all ms s) (sym (process_all-append ms (flatten mss) s) ∙ e) in
      let (q, r, c, a, k) = round-Handled fd ms p s s1 d f.0 first in
      let (p', r', c', a', k') =
        epoll_worker-process_all fd mss q s1 s' (λ h. d (h ∙ a)) (k ∙ on) f.1 rest in
      (
        p',
        epoll_worker-running (map (λ m. arrives fd (encode m)) ms) (wakeups fd mss) p s on
            ∙ ap (λ x. bind x (λ _. epoll_worker D arguments (wakeups fd mss))) r
            ∙ r',
        c' ∙ c,
        a' ∙ a,
        k' ∙ k,
      )
    where
      split :
          (r : Exec (System D arguments) (Unit {0}))
          → bind r (λ _. process_all (flatten mss)) ≡ done tt s'
          → (s1 : System D arguments) × (r ≡ done tt s1)
            × (process_all (flatten mss) s1 ≡ done tt s')
      split (done x s1) h = (s1, refl, h)
      split (raised x s1) h = cc
      split lost h = cc
