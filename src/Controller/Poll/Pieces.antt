-- ===== src/Controller/Poll/Pieces.antt =====
-- A message that the worker does not read whole.
use mathlib.Core.List.{flatten}
use vtb.Prelude.{
  ℕ, ◌+◌, ◌<◌, ◌≤◌, ◌≡◌, ◌≢◌, refl, sym, ◌∙◌, ap, true, false, some, List, [], ◌∷◌, ℤ, int_eq,
  nat_eq, ◌==◌, length, Bytes, map, All, arith, length-append,
}
use vtb.Prelude.Effects.{done, bind}
use vtb.Cmdline.{Arguments}
use vtb.Common.Devices.{PortDeviceRingState}
use vtb.Common.Wire.{message_size, encode}
use vtb.Common.Wire.Packets.{length-encode}
use vtb.Handler.{Dpdk}
use vtb.Controller.{System}
use vtb.Controller.Poll.{Event, Poll, overwrite, receive, handle_event, round, epoll_worker}
use vtb.Controller.Poll.Messages.{arrives, Handled, arrived, epoll_worker-running}

nonempty-length : (xs : Bytes) → xs ≢ [] → 0 < length xs
nonempty-length [] n = absurd (n refl)
nonempty-length (x ∷ xs) n = omega arith

-- Pieces of less than a message.
short_pieces :
    (k : ℕ) (pieces : List Bytes)
    → 0 < k
    → k + length (flatten pieces) ≡ message_size
    → All (λ bytes. bytes ≢ []) pieces
    → All (λ bytes. (bytes ≢ []) × ((length bytes == message_size) ≡ false)) pieces
unfolding flatten
short_pieces k [] h e full = tt
short_pieces k (xs ∷ pieces) h e full =
    let sum = length-append xs (flatten pieces) in
    (
      (full.0, ground arith),
      short_pieces (k + length xs) pieces (omega arith) (omega (arith, sum)) full.1,
    )

cut_pieces :
    (pieces : List Bytes)
    → length (flatten pieces) ≡ message_size
    → All (λ bytes. bytes ≢ []) pieces
    → 2 ≤ length pieces
    → All (λ bytes. (bytes ≢ []) × ((length bytes == message_size) ≡ false)) pieces
unfolding flatten
cut_pieces [] e full two = tt
cut_pieces (xs ∷ []) e full two = absurd (omega arith)
cut_pieces (xs ∷ ys ∷ pieces) e full two =
    let sum = length-append xs (flatten (ys ∷ pieces)) in
    let sum' = length-append ys (flatten pieces) in
    let some_y = nonempty-length ys full.1.0 in
    (
      (full.0, ground arith),
      short_pieces (length xs) (ys ∷ pieces) (nonempty-length xs full.0) (omega (arith, sum))
          full.1,
    )

module _ (D : Dpdk) (arguments : Arguments) where
  short_read :
      (fd : ℤ) (bytes : Bytes) (p : Poll) (s : System D arguments)
      → fd ≢ p.abstract_fd
      → bytes ≢ []
      → (length bytes == message_size) ≡ false
      → handle_event D arguments (arrives fd bytes) (p, s)
        ≡ done tt (record p { pdrs = overwrite bytes p.pdrs }, s)
  unfolding receive
  short_read fd [] p s d n e = absurd (n refl)
  short_read fd (c ∷ bytes) p s d n e = arrived D arguments fd (c ∷ bytes) p s d ∙ short_receive
    where
      short_receive :
          receive D arguments fd (some (c ∷ bytes)) (p, s)
          ≡ done tt (record p { pdrs = overwrite (c ∷ bytes) p.pdrs }, s)
      short_receive = rw e

  -- No piece is empty, and none has the size of a message.
  abbrev IsPiece : Bytes → Type 0
  IsPiece bytes = (bytes ≢ []) × ((length bytes == message_size) ≡ false)

  -- The rounds in which these pieces arrive on one connection, one in each.
  abbrev pub piecewise : ℤ → List Bytes → List (List Event)
  piecewise fd = map (λ bytes. arrives fd bytes ∷ [])

  pieces-Handled :
      (fd : ℤ) (pieces : List Bytes) (p : Poll) (s : System D arguments)
      → fd ≢ p.abstract_fd
      → p.is_running ≡ true
      → All IsPiece pieces
      → Handled D arguments p s (epoll_worker D arguments (piecewise fd pieces) (p, s))
  unfolding epoll_worker
  pieces-Handled fd [] p s d on h = (p, refl, refl, refl, refl)
  pieces-Handled fd (bytes ∷ pieces) p s d on h =
      let q = record p { pdrs = overwrite bytes p.pdrs } in
      let (p', r, c, a, k) = pieces-Handled fd pieces q s d on h.1 in
      (
        p',
        epoll_worker-running D arguments (arrives fd bytes ∷ []) (piecewise fd pieces) p s on
            ∙ ap (λ x. bind x (λ _. epoll_worker D arguments (piecewise fd pieces)))
                (one_read bytes h.0)
            ∙ r,
        c,
        a,
        k,
      )
    where
      one_read :
          (xs : Bytes)
          → IsPiece xs
          → round D arguments (arrives fd xs ∷ []) (p, s)
            ≡ done tt (record p { pdrs = overwrite xs p.pdrs }, s)
      one_read xs piece = unfold round in rw (short_read fd xs p s d piece.0 piece.1)

  -- A stream that is the bytes of one message, cut in two or more pieces of which none is empty and
  -- of which each comes in a round of its own: the running worker handles nothing, neither the map
  -- nor a handler changes, and it makes no call. The message is lost.
  pub epoll_worker-split_message :
      (fd : ℤ) (m : PortDeviceRingState) (pieces : List Bytes) (p : Poll) (s : System D arguments)
      → fd ≢ p.abstract_fd
      → p.is_running ≡ true
      → encode m ≡ flatten pieces
      → All (λ bytes. bytes ≢ []) pieces
      → 2 ≤ length pieces
      → Handled D arguments p s (epoll_worker D arguments (piecewise fd pieces) (p, s))
  epoll_worker-split_message fd m pieces p s d on e full two =
      pieces-Handled fd pieces p s d on
        (cut_pieces pieces (sym (ap length e) ∙ length-encode m) full two)
