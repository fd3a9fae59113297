-- ===== src/Session/Queues.antt =====
-- What the port controller knows of the queues after a session.
use vtb.Prelude.{
  length-map, zero, suc, replicate, ℕ, ◌<◌, ◌≡◌, refl, ◌∙◌, ap, subst, Bool, false, not, ◌&&◌,
  Option, none, some, List, [], ◌∷◌, ℤ, pos, negsuc, int_eq, nat_eq, ◌==◌, if◌then◌else◌, get_elem?,
  set, get_elem?-set_self, get_elem?-set_ne, length, map, All, arith, Bool-cases, Option-cases, inl,
  inr, int_beq_iff,
}
use vtb.Prelude.Dict
use vtb.Prelude.Effects.{done}
use vtb.Cmdline.{Arguments}
use vtb.Common.Devices.{PortDeviceRingState}
use vtb.Handler.{Dpdk, stop}
use vtb.Controller.{Controller, process_notification, nof_queues}
use vtb.Controller.Poll.Messages.{process_all}
use vtb.Controller.Processing.{
  IsSound, process_notification-Processed, process_notification-stop, Processed, queues_in,
  queues_of,
}

abbrev pub value_in : Option ℤ → ℤ
value_in none = negsuc 0
value_in (some v) = v

-- The state of queue `q` of the device, -1 as long as nothing is known.
abbrev pub state_of : ℤ → ℕ → Controller → ℤ
state_of d q c = value_in (get_elem? (queues_of d c) q)

-- Of a new device nothing is known.
pub unknown-state : (n q : ℕ) → value_in (get_elem? (replicate n (negsuc 0)) q) ≡ negsuc 0
unknown-state zero q = refl
unknown-state (suc n) zero = refl
unknown-state (suc n) (suc q) = unknown-state n q

-- Whether a message is about this queue.
abbrev pub is_about : ℤ → ℕ → PortDeviceRingState → Bool
is_about d q m = not (m.meta == pos 1) && (m.device_id == d && m.qid == pos q)

-- The last state that the messages give to queue `q` of the device.
unfoldable pub latest_message : ℤ → ℕ → List PortDeviceRingState → ℤ → ℤ
latest_message d q [] state = state
latest_message d q (m ∷ ms) state =
    latest_message d q ms (if is_about d q m then m.enable else state)

-- A farewell, or a message about one of sixteen queues.
pub record IsDeliverable (m : PortDeviceRingState) : Type 0 where
  pub queue : (m.meta == pos 1) ≡ false → (q : ℕ) × (m.qid ≡ pos q) × (q < nof_queues)

pub queues_of-length : (d : ℤ) (c : Controller) → IsSound c → length (queues_of d c) ≡ nof_queues
queues_of-length d c s = elim (Option-cases (Dict.lookup d c.pmap)) [
  | inl e ↦ rw (e, queues_of) refl
  | inr (qs, e) ↦ rw (e, queues_of) (s.queues d qs e)
]

-- A queue's state is stored, and no other's.
pub Processed-state_of :
    (d : ℤ) (q : ℕ) (enable : ℤ) (c after : Controller)
    → IsSound c
    → q < nof_queues
    → Processed d q enable c after
    → (d' : ℤ) (q' : ℕ)
    → state_of d' q' after ≡ (if d == d' && q == q' then enable else state_of d' q' c)
Processed-state_of d q enable c after s h p d' q' =
    let stored = λ (r : ℕ). ap (λ o. value_in (get_elem? (queues_in o) r)) p.stored in
    elim (Bool-cases (d == d')) [
      | inr other ↦ simp other (
          ap (λ o. value_in (get_elem? (queues_in o) q'))
            (p.others d' (λ e. ground (arith, int_beq_iff d d', e))))
      | inl same ↦
          let ed = (int_beq_iff d d').0 same in
          (elim (Bool-cases (q == q')) [
            | inl here ↦
                simp (same, here)
                  (subst (λ x. state_of x q' after ≡ enable) ed
                    (stored q'
                      ∙ ap (λ r. value_in (get_elem? (set (queues_of d c) q enable) r))
                          (ground arith)
                      ∙ ap value_in (
                          get_elem?-set_self (queues_of d c) q enable
                            (omega (arith, queues_of-length d c s)))))
            | inr there ↦
                simp (same, there)
                  (subst (λ x. state_of x q' after ≡ state_of x q' c) ed
                    (stored q'
                      ∙ ap value_in (get_elem?-set_ne (queues_of d c) q q' enable (ground arith))))
          ])
    ]

module _ (D : Dpdk) (arguments : Arguments) where
  -- A message that is deliverable: it is handled, and the state of every queue is as it says.
  process_notification-latest :
      (m : PortDeviceRingState) (c : Controller) (env : D.Env)
      → IsSound c
      → IsDeliverable m
      → (after : Controller) × (env' : D.Env) × (process_notification D arguments m (c, env)
          ≡ done tt (after, env'))
        × IsSound after
        × ((d : ℤ) (q : ℕ)
            → state_of d q after ≡ (if is_about d q m then m.enable else state_of d q c))
  process_notification-latest m c env s k = elim (Bool-cases (m.meta == pos 1)) [
    | inl farewell ↦ (
      record c { handlers = map stop c.handlers },
      env,
      process_notification-stop D arguments m c env farewell,
      record { handlers = length-map stop c.handlers ∙ s.handlers; queues = s.queues },
      λ d q. simp farewell,
    )
    | inr notice ↦
        let (r, e, h) = k.queue notice in
        let (after, env', run, p, _) =
          process_notification-Processed D arguments m r c env notice e h s in
        (
          after,
          env',
          run,
          p.sound,
          λ d q. simp (notice, e) (Processed-state_of m.device_id r m.enable c after s h p d q),
        )
  ]

  -- A port controller handles every list of deliverable messages without an exception and within
  -- its arrays, and then knows of each queue what the last message about it said.
  pub process_all-latest_message :
      (ms : List PortDeviceRingState) (c : Controller) (env : D.Env)
      → IsSound c
      → All IsDeliverable ms
      → (after : Controller) × (env' : D.Env) × (process_all D arguments ms (c, env)
          ≡ done tt (after, env'))
        × IsSound after
        × ((d : ℤ) (q : ℕ) → state_of d q after ≡ latest_message d q ms (state_of d q c))
  unfolding process_all latest_message
  process_all-latest_message [] c env s k = (c, env, refl, s, λ d q. refl)
  process_all-latest_message (m ∷ ms) c env s k =
      let (mid, env', run, s', view) = process_notification-latest m c env s k.0 in
      let (after, env'', run', s'', view') = process_all-latest_message ms mid env' s' k.1 in
      (after, env'', rw run run', s'', λ d q. view' d q ∙ ap (latest_message d q ms) (view d q))
