-- ===== src/Session/Sending.antt =====
-- The messages of a session arrive as they were sent, and can be handled.
use mathlib.Core.List.{flatten}
use vtb.Prelude.{
  ℕ, suc, ◌+◌, ◌<◌, ◌≤◌, ◌^◌, refl, List, [], ◌∷◌, ◌++◌, ℤ, pos, int_eq, nat_eq, leb, length, All,
  FitsInt, arith, Bool-cases, inl, inr,
}
use vtb.Common.Devices.{PortDeviceRingState}
use vtb.Common.Wire.Packets.{Fits}
use vtb.Controller.{nof_queues}
use vtb.Delivery.{notice}
use vtb.Session.{
  Callback, new_device, destroy_device, vring_state_changed, InLimits, messages, all_messages,
  next_port,
}
use vtb.Session.Queues.{IsDeliverable}

-- A message that arrives as it was sent, and that the port controller can handle.
abbrev pub IsSendable : PortDeviceRingState → Type 0
IsSendable m = Fits m × IsDeliverable m

IsSendable-++ :
    (ms ns : List PortDeviceRingState)
    → All IsSendable ms
    → All IsSendable ns
    → All IsSendable (ms ++ ns)
IsSendable-++ [] ns h k = k
IsSendable-++ (m ∷ ms) ns h k = (h.0, IsSendable-++ ms ns h.1 k)

pub IsSendable-All :
    (ms : List PortDeviceRingState) → All IsSendable ms → All Fits ms × All IsDeliverable ms
IsSendable-All [] h = (tt, tt)
IsSendable-All (m ∷ ms) h =
    let (fit, deliverable) = IsSendable-All ms h.1 in ((h.0.0, fit), (h.0.1, deliverable))

-- The numbers that a callback is called with have 32 bits.
abbrev pub InRange : Callback → Type 0
InRange (new_device vrings vid) = FitsInt vid
InRange (destroy_device vid) = FitsInt vid
InRange (vring_state_changed vid q enable) = FitsInt vid × FitsInt enable

notice-IsSendable :
    (port_cntr : ℕ) (vid : ℤ) (q : ℕ) (enable : ℤ)
    → port_cntr < 2 ^ 31
    → FitsInt vid
    → FitsInt enable
    → q < nof_queues
    → IsSendable (notice port_cntr vid q enable)
notice-IsSendable port_cntr vid q enable k h e l = (
  record { meta = omega arith; port_id = k; device_id = h; qid = omega arith; enable = e },
  record { queue = λ _. (q, refl, l) },
)

messages-IsSendable :
    (port_cntr : ℕ) (c : Callback)
    → InLimits c
    → InRange c
    → port_cntr < 2 ^ 31
    → All IsSendable (messages port_cntr c)
messages-IsSendable port_cntr (new_device vrings vid) l h k = (
  notice-IsSendable port_cntr vid 0 (pos 1) k h (omega arith) (omega arith),
  (notice-IsSendable port_cntr vid 1 (pos 1) k h (omega arith) (omega arith), tt),
)
messages-IsSendable port_cntr (destroy_device vid) l h k = (
  (
    record {
      meta = omega arith;
      port_id = k;
      device_id = h;
      qid = omega arith;
      enable = omega arith;
    },
    record { queue = λ no. ground arith },
  ),
  tt,
)
messages-IsSendable port_cntr (vring_state_changed vid q enable) l h k =
    elim (Bool-cases (leb 2 q)) [
      | inl later ↦ simp later (notice-IsSendable port_cntr vid q enable k h.0 h.1 l, tt)
      | inr first ↦ simp first tt
    ]

next_port-bound : (port_cntr : ℕ) (c : Callback) → next_port port_cntr c ≤ suc port_cntr
next_port-bound port_cntr (new_device vrings vid) = omega arith
next_port-bound port_cntr (destroy_device vid) = omega arith
next_port-bound port_cntr (vring_state_changed vid q enable) = omega arith

pub all_messages-IsSendable :
    (port_cntr : ℕ) (cs : List Callback)
    → All InLimits cs
    → All InRange cs
    → port_cntr + length cs < 2 ^ 31
    → All IsSendable (all_messages port_cntr cs)
unfolding all_messages
all_messages-IsSendable port_cntr [] l h k = tt
all_messages-IsSendable port_cntr (c ∷ cs) l h k =
    IsSendable-++ (messages port_cntr c) (all_messages (next_port port_cntr c) cs)
      (messages-IsSendable port_cntr c l.0 h.0 (omega arith))
      (all_messages-IsSendable (next_port port_cntr c) cs l.1 h.1
        (omega (arith, next_port-bound port_cntr c)))

Fits-split : (ms ns : List PortDeviceRingState) → All Fits (ms ++ ns) → All Fits ms × All Fits ns
Fits-split [] ns h = (tt, h)
Fits-split (m ∷ ms) ns h = let (front, back) = Fits-split ms ns h.1 in ((h.0, front), back)

-- Messages that are spread over rounds.
pub spread-Fits :
    (mss : List (List PortDeviceRingState)) → All Fits (flatten mss) → All (All Fits) mss
unfolding flatten
spread-Fits [] h = tt
spread-Fits (ms ∷ mss) h =
    let (front, back) = Fits-split ms (flatten mss) h in (front, spread-Fits mss back)
