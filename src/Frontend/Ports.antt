-- ===== src/Frontend/Ports.antt =====
-- The set-up of the ports against the list of its steps.
use mathlib.Core.List.{append_assoc, append-nil}
use vtb.Prelude.{
  ℕ, zero, suc, ◌≡◌, refl, sym, subst, ◌∙◌, ap, Bool, true, false, List, [], ◌∷◌, ◌++◌, ℤ, pos,
  negsuc, if◌then◌else◌, Bytes, text, map, All, Bool-cases, inl, inr, ◌⊎◌,
}
use vtb.Prelude.Effects.{M, Exec, done, raised, lost, ◌>>◌, return, bind}
use vtb.Common.Sockets.{negative}
use vtb.Frontend.{
  Call, eal_init, pool_create, dev_configure, rx_queue_setup, tx_queue_setup, dev_start,
  PortAnswers, Calls, checked, number_of_queues, setup_queues, setup_port, setup_ports, construct,
}

-- A call, what it answers, and what is thrown if that is negative.
pub record Step : Type 0 where
  pub call : Call
  pub result : ℤ
  pub what : Bytes

abbrev step : Call → ℤ → Bytes → Step
step c r w = record { call = c; result = r; what = w }

abbrev queue_steps : PortAnswers → ℕ → ℕ → ℕ → List Step
queue_steps a port_id zero i = []
queue_steps a port_id (suc rounds) i =
    step (rx_queue_setup port_id i) (a.rx_set_up i) (text "Failed to setup RX queue")
    ∷ step (tx_queue_setup port_id i) (a.tx_set_up i) (text "Failed to setup TX queue")
    ∷ queue_steps a port_id rounds (suc i)

abbrev port_steps : PortAnswers → ℕ → List Step
port_steps a port_id =
    let n = number_of_queues a in
    (step (dev_configure port_id n n) a.configured (text "Failed to configure port") ∷ [])
    ++ (queue_steps a port_id n 0
        ++ (step (dev_start port_id) a.started (text "Failed to start port") ∷ []))

abbrev as_result : Bool → ℤ
as_result pool = if pool then pos 0 else negsuc 0

-- The environment, the pool, and port by port the device, its queues in pairs, and its start.
abbrev pub steps : ℤ → Bool → (ℕ → PortAnswers) → List Step
steps ret pool answers =
    step eal_init ret (text "EAL Init Failed")
    ∷ step pool_create (as_result pool) (text "Mbuf Pool Allocation Failed")
    ∷ (port_steps (answers 0) 0 ++ port_steps (answers 1) 1)

run_steps : List Step → M Calls (Unit {0})
run_steps [] = return tt
run_steps (s ∷ ss) = checked s.result s.what s.call >> run_steps ss

run_steps-++ :
    (ss ts : List Step) (cs : Calls) → run_steps (ss ++ ts) cs ≡ (run_steps ss >> run_steps ts) cs
unfolding run_steps
run_steps-++ [] ts cs = refl
run_steps-++ (s ∷ ss) ts cs = elim (Bool-cases (negative s.result)) [
  | inl bad ↦ simp bad
  | inr good ↦ simp good (run_steps-++ ss ts (cs ++ (s.call ∷ [])))
]

setup_queues-run_steps :
    (a : PortAnswers) (port_id rounds i : ℕ) (cs : Calls)
    → setup_queues a port_id rounds i cs ≡ run_steps (queue_steps a port_id rounds i) cs
unfolding setup_queues run_steps
setup_queues-run_steps a port_id zero i cs = refl
setup_queues-run_steps a port_id (suc rounds) i cs = elim (Bool-cases (negative (a.rx_set_up i))) [
  | inl bad ↦ simp bad
  | inr good ↦ (elim (Bool-cases (negative (a.tx_set_up i))) [
    | inl bad ↦ simp (good, bad)
    | inr good' ↦ simp (good, good') (setup_queues-run_steps a port_id rounds (suc i) _)
  ])
]

bind-ext :
    (r : Exec Calls (Unit {0})) (f g : M Calls (Unit {0}))
    → ((cs : Calls) → f cs ≡ g cs)
    → bind r (λ _. f) ≡ bind r (λ _. g)
bind-ext (done x cs) f g h = h cs
bind-ext (raised w cs) f g h = refl
bind-ext lost f g h = refl

bind-return : (r : Exec Calls (Unit {0})) → bind r (λ _. return tt) ≡ r
bind-return (done tt cs) = refl
bind-return (raised w cs) = refl
bind-return lost = refl

run_steps-single :
    (s : Step) (cs : Calls) → checked s.result s.what s.call cs ≡ run_steps (s ∷ []) cs
unfolding run_steps
run_steps-single s cs = elim (Bool-cases (negative s.result)) [
  | inl bad ↦ simp bad
  | inr good ↦ simp good
]

setup_port-run_steps :
    (a : PortAnswers) (port_id : ℕ) (cs : Calls)
    → setup_port a port_id cs ≡ run_steps (port_steps a port_id) cs
unfolding setup_port run_steps
setup_port-run_steps a port_id cs = elim (Bool-cases (negative a.configured)) [
  | inl bad ↦ simp bad
  | inr good ↦
      simp (good, run_steps-++)
        (ap (λ r. bind r (λ _. checked a.started (text "Failed to start port") (dev_start port_id)))
            (setup_queues-run_steps a port_id (number_of_queues a) 0 _)
          ∙ bind-ext (run_steps (queue_steps a port_id (number_of_queues a) 0) _) _ _
              (run_steps-single (step (dev_start port_id) a.started (text "Failed to start port"))))
]

-- The first step that fails, and the steps before it, which do not.
abbrev pub FirstFailure : List Step → List Step → Step → List Step → Type 0
FirstFailure ss front bad back =
    (ss ≡ front ++ (bad ∷ back))
    × All (λ s. negative s.result ≡ false) front
    × (negative bad.result ≡ true)

-- Every step was made; or the one that failed was the last.
abbrev pub Stopped : List Step → Calls → Exec Calls (Unit {0}) → Type 0
Stopped ss cs r =
    (All (λ s. negative s.result ≡ false) ss × (r ≡ done tt (cs ++ map (λ s. s.call) ss)))
    ⊎ ((front : List Step) × (bad : Step) × (back : List Step) × FirstFailure ss front bad back
        × (r ≡ raised bad.what (cs ++ map (λ s. s.call) (front ++ (bad ∷ [])))))

run_steps-Stopped : (ss : List Step) (cs : Calls) → Stopped ss cs (run_steps ss cs)
unfolding run_steps
run_steps-Stopped [] cs = inl (tt, ap (done tt) (sym (append-nil cs)))
run_steps-Stopped (s ∷ ss) cs = elim (Bool-cases (negative s.result)) [
  | inl bad ↦ inr ([], s, ss, (refl, tt, bad), simp bad)
  | inr good ↦ (elim (run_steps-Stopped ss (cs ++ (s.call ∷ []))) [
    | inl (well, e) ↦ inl ((good, well), simp good (e ∙ ap (done tt) (append_assoc cs _ _)))
    | inr (front, bad, back, (e, well, fails), r) ↦ inr (
      s ∷ front,
      bad,
      back,
      (ap (λ ts. s ∷ ts) e, (good, well), fails),
      simp good (r ∙ ap (raised bad.what) (append_assoc cs _ _)),
    )
  ])
]

construct-run_steps :
    (ret : ℤ) (pool : Bool) (answers : ℕ → PortAnswers) (cs : Calls)
    → construct ret pool answers cs ≡ run_steps (steps ret pool answers) cs
unfolding construct setup_ports run_steps
construct-run_steps ret pool answers cs = elim (Bool-cases (negative ret)) [
  | inl bad ↦ simp bad
  | inr good ↦ (elim (Bool-cases pool) [
    | inr no_pool ↦ simp (good, no_pool)
    | inl has_pool ↦
        simp (good, has_pool, run_steps-++, setup_port-run_steps)
          (bind-ext _ _ _ (λ ds.
            bind-return (setup_port (answers 1) 1 ds) ∙ setup_port-run_steps (answers 1) 1 ds))
  ])
]

-- The constructor of the frontend makes its steps in order: the environment, the pool, and for each
-- of the two ports the configuration, a receive and a transmit queue for each receive queue that
-- the device has, and the start. If none of them fails it returns, and has made all the calls; else
-- it throws the text of the first that fails, and this was the last call.
pub construct-Stopped :
    (ret : ℤ) (pool : Bool) (answers : ℕ → PortAnswers)
    → Stopped (steps ret pool answers) [] (construct ret pool answers [])
construct-Stopped ret pool answers =
    subst (Stopped (steps ret pool answers) []) (sym (construct-run_steps ret pool answers []))
      (run_steps-Stopped (steps ret pool answers) [])
