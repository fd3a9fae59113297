-- ===== src/Controller/Processing.antt =====
-- `process_notification` against what the controller promises.
use vtb.Prelude.{
  ℕ, ◌-◌, ◌/◌, ◌%◌, ◌<◌, ◌≡◌, ◌≢◌, refl, sym, ◌∙◌, ap, subst, Bool, true, false, not, ◌&&◌, Option,
  none, some, List, ℤ, pos, negsuc, int_eq, bytes_eq, ◌==◌, nat_eq, if◌then◌else◌, set_at-ok,
  replicate, map, length, get_elem?, get_elem?-set_self, get_elem?-set_ne, length-set, set, arith,
  Bool-cases, Option-cases, inl, inr,
}
use vtb.Prelude.Dict
use vtb.Prelude.Effects.{Exec, done}
use vtb.Cmdline.{Arguments}
use vtb.Common.Devices.{PortDeviceRingState}
use vtb.Handler.{Dpdk, Handler, stop}
use vtb.Controller.{
  Controller, System, process_notification, update_queue, first_queue, remember, nof_queues,
  nof_handlers,
}
use vtb.Controller.Notifications.{
  is_enabled, partner, updated, update-even, update-odd, dispatch-Dispatched, started_as,
}

-- Eight handlers, and sixteen queues for each device.
pub record IsSound (c : Controller) : Type 0 where
  pub handlers : length c.handlers ≡ nof_handlers
  pub queues : (d : ℤ) (qs : List ℤ) → Dict.lookup d c.pmap ≡ some qs → length qs ≡ nof_queues

abbrev pub queues_in : Option (List ℤ) → List ℤ
queues_in none = replicate nof_queues (negsuc 0)
queues_in (some qs) = qs

-- The queues of a device, all unknown before its first notification.
abbrev pub queues_of : ℤ → Controller → List ℤ
queues_of d c = queues_in (Dict.lookup d c.pmap)

abbrev pub is_known : Option (List ℤ) → Bool
is_known none = false
is_known (some qs) = true

-- Whether a notification starts a handler: the device was heard of before, the queue is odd, and
-- with it both queues of the pair are enabled.
abbrev pub starts : ℤ → ℕ → ℤ → Controller → Bool
starts d qid enable c =
    is_known (Dict.lookup d c.pmap)
    && (not (qid % 2 == 0)
        && (is_enabled (set (queues_of d c) qid enable) qid
            && is_enabled (set (queues_of d c) qid enable) (partner qid)))

pub record Processed (d : ℤ) (qid : ℕ) (enable : ℤ) (c after : Controller) : Type 0 where
  pub sound : IsSound after
  pub stored : Dict.lookup d after.pmap ≡ some (set (queues_of d c) qid enable)
  pub others : (e : ℤ) → e ≢ d → Dict.lookup e after.pmap ≡ Dict.lookup e c.pmap
  pub idle : starts d qid enable c ≡ false → after.handlers ≡ c.handlers
  pub started :
      starts d qid enable c ≡ true
      → (h : Handler) × (get_elem? after.handlers (qid / 2) ≡ some h)
        × (h.vid ≡ d)
        × (h.rxqid ≡ pos (qid - 1))
        × (h.txqid ≡ pos qid)
  pub rest : (j : ℕ) → j ≢ qid / 2 → get_elem? after.handlers j ≡ get_elem? c.handlers j

remember-IsSound :
    (d : ℤ) (qs : List ℤ) (c : Controller)
    → length qs ≡ nof_queues
    → IsSound c
    → IsSound (remember d qs c)
remember-IsSound d qs c l s = record {
  handlers = s.handlers;
  queues = λ e rs h. elim (Bool-cases (d == e)) [
    | inl same ↦
        subst (λ (x : List ℤ). length x ≡ nof_queues)
          (ground (arith, Dict.lookup-insert (λ a b. false) d e qs c.pmap)) l
    | inr other ↦ s.queues e rs (ground (arith, Dict.lookup-insert (λ a b. false) d e qs c.pmap))
  ];
}

if_true {ℓ} : {A : Type ℓ} (b : Bool) (x y : A) → b ≡ true → (if b then x else y) ≡ x
if_true b x y h = simp h

if_false {ℓ} : {A : Type ℓ} (b : Bool) (x y : A) → b ≡ false → (if b then x else y) ≡ y
if_false b x y h = simp h

and_odd : (a b c : Bool) {v : Bool} → a ≡ true → b ≡ false → c ≡ v → (a && (not b && c)) ≡ v
and_odd a b c h k e = ground arith

queues_of-length : (d : ℤ) (c : Controller) → IsSound c → length (queues_of d c) ≡ nof_queues
queues_of-length d c s = elim (Option-cases (Dict.lookup d c.pmap)) [
  | inl e ↦ rw (e, queues_of) refl
  | inr (qs, e) ↦ rw (e, queues_of) (s.queues d qs e)
]

module _ (d enable : ℤ) (qid : ℕ) (c : Controller) where
  -- The sound state with the queue stored, whatever `ready_` is.
  stored_state : Bool → Controller
  stored_state b = record c {
    pmap = Dict.insert (λ a b. false) d (set (queues_of d c) qid enable) c.pmap;
    ready = b;
  }

  stored_state-IsSound : (b : Bool) → IsSound c → IsSound (stored_state b)
  unfolding stored_state
  stored_state-IsSound b s =
      let t =
        remember-IsSound d (set (queues_of d c) qid enable) c
          (length-set (queues_of d c) qid enable ∙ queues_of-length d c s) s in
      record { handlers = s.handlers; queues = t.queues }

  -- A queue was stored, and no handler was touched.
  stored_state-Processed :
      (b : Bool)
      → IsSound c
      → starts d qid enable c ≡ false
      → Processed d qid enable c (stored_state b)
  unfolding stored_state
  stored_state-Processed b s no_start = record {
    sound = stored_state-IsSound b s;
    stored = Dict.lookup-insert_self (λ a b. false) d (set (queues_of d c) qid enable) c.pmap;
    others =
        λ e h. Dict.lookup-insert_ne (λ a b. false) d e (set (queues_of d c) qid enable) c.pmap h;
    idle = λ h. refl;
    started = λ h. cc;
    rest = λ j h. refl;
  }

  -- The handler of the pair was started as well.
  started-Processed :
      (b : Bool) (h : Handler)
      → IsSound c
      → qid < nof_queues
      → starts d qid enable c ≡ true
      → (h.vid ≡ d) × (h.rxqid ≡ pos (qid - 1)) × (h.txqid ≡ pos qid)
      → Processed d qid enable c (record (stored_state b) { handlers = set c.handlers (qid / 2) h })
  unfolding stored_state
  started-Processed b h s k start ids =
      let t = stored_state-IsSound b s in
      record {
        sound = record {
          handlers = length-set c.handlers (qid / 2) h ∙ s.handlers;
          queues = t.queues;
        };
        stored = Dict.lookup-insert_self (λ a b. false) d (set (queues_of d c) qid enable) c.pmap;
        others = λ e n.
            Dict.lookup-insert_ne (λ a b. false) d e (set (queues_of d c) qid enable) c.pmap n;
        idle = λ n. cc;
        started = λ _. (
          h,
          get_elem?-set_self c.handlers (qid / 2) h (omega (arith, s.handlers)),
          ids.0,
          ids.1,
          ids.2,
        );
        rest = λ j n. get_elem?-set_ne c.handlers (qid / 2) j h (λ e. n (sym e));
      }

-- What the call did with the handler of the pair: its `start` ran once, from the ids of the pair, and
-- what it left is what is there now; or no call of DPDK was made.
pub record Started (D : Dpdk) (arguments : Arguments) (d : ℤ) (qid : ℕ) (enable : ℤ)
    (c : Controller) (env : D.Env) (after : Controller) (env' : D.Env) : Type 0 where
  pub silent : starts d qid enable c ≡ false → env' ≡ env
  pub ran :
      starts d qid enable c ≡ true
      → (old h : Handler) × (get_elem? c.handlers (qid / 2) ≡ some old)
        × (get_elem? after.handlers (qid / 2) ≡ some h)
        × (started_as D arguments d qid old env ≡ some (h, env'))

module _ (D : Dpdk) (arguments : Arguments) (d enable : ℤ) (qid : ℕ) (c : Controller) where
  -- The call returned, and left this state.
  abbrev Returned : D.Env → Exec (System D arguments) (Unit {0}) → Type 0
  Returned env r =
      (after : Controller) × (env' : D.Env) × (r ≡ done tt (after, env'))
      × Processed d qid enable c after
      × Started D arguments d qid enable c env after env'

  no_start :
      (env : D.Env) (after : Controller)
      → starts d qid enable c ≡ false
      → Started D arguments d qid enable c env after env
  no_start env after idle = record { silent = λ _. refl; ran = λ start. cc }

  known-Returned :
      (env : D.Env)
      → IsSound c
      → qid < nof_queues
      → is_known (Dict.lookup d c.pmap) ≡ true
      → Returned env (update_queue D arguments d qid enable (queues_of d c) (c, env))
  unfolding stored_state
  known-Returned env s k known =
      let queues = queues_of d c in
      let l = queues_of-length d c s in
      let c' = updated d qid enable queues c in
      elim (Bool-cases (qid % 2 == 0)) [
        | inl even ↦ (
          c',
          env,
          update-even D arguments d enable qid queues c env l k even,
          stored_state-Processed d enable qid c c'.ready s (simp (known, even)),
          no_start env c' (simp (known, even)),
        )
        | inr odd ↦ elim (Bool-cases c'.ready) [
          | inl both ↦
              let (old, found, (h, env', e, ids, left)) =
                dispatch-Dispatched D arguments d qid c' env s.handlers k in
              (
                record c' { handlers = set c.handlers (qid / 2) h },
                env',
                update-odd D arguments d enable qid queues c env l k odd ∙ if_true _ _ _ both ∙ e,
                started-Processed d enable qid c c'.ready h s k (and_odd _ _ _ known odd both) ids,
                record {
                  silent = λ idle. cc (and_odd _ _ _ known odd both);
                  ran = λ _. (
                    old,
                    h,
                    found,
                    get_elem?-set_self c.handlers (qid / 2) h (omega (arith, s.handlers)),
                    left,
                  );
                },
              )
          | inr one ↦ (
            c',
            env,
            update-odd D arguments d enable qid queues c env l k odd ∙ if_false _ _ _ one,
            stored_state-Processed d enable qid c c'.ready s (and_odd _ _ _ known odd one),
            no_start env c' (and_odd _ _ _ known odd one),
          )
        ]
      ]

  first-Returned :
      (env : D.Env)
      → IsSound c
      → qid < nof_queues
      → Dict.lookup d c.pmap ≡ none
      → Returned env (first_queue D arguments d qid enable (c, env))
  unfolding first_queue stored_state
  first-Returned env s k new =
      let e : replicate nof_queues (negsuc 0) ≡ queues_of d c = sym (ap queues_in new) in
      (
        stored_state d enable qid c c.ready,
        env,
        rw (set_at-ok (replicate nof_queues (negsuc 0)) qid enable (omega arith))
            (ap (λ qs. done tt (remember d (set qs qid enable) c, env)) e),
        stored_state-Processed d enable qid c c.ready s (simp new),
        no_start env (stored_state d enable qid c c.ready) (simp new),
      )

-- A notification that is no stop, for a queue below sixteen, always returns: no exception leaves
-- it and it stays within the arrays. The state stays sound; the queue's state is stored, and no
-- other device's. If the device was known, the queue is odd and with it both queues of its pair are
-- enabled, then the handler of the pair was given the ids of the pair and its `start` was run: the
-- handler and DPDK are as that run has left them, also where it threw. Else no handler changes and
-- DPDK is not called. No other handler changes in either case.
pub process_notification-Processed :
    (D : Dpdk) (arguments : Arguments) (pdrs : PortDeviceRingState) (qid : ℕ) (c : Controller)
    (env : D.Env)
    → (pdrs.meta == pos 1) ≡ false
    → pdrs.qid ≡ pos qid
    → qid < nof_queues
    → IsSound c
    → (after : Controller) × (env' : D.Env) × (process_notification D arguments pdrs (c, env)
        ≡ done tt (after, env'))
      × Processed pdrs.device_id qid pdrs.enable c after
      × Started D arguments pdrs.device_id qid pdrs.enable c env after env'
unfolding process_notification
process_notification-Processed D arguments pdrs qid c env go_on e k s =
    elim (Option-cases (Dict.lookup pdrs.device_id c.pmap)) [
      | inl new ↦
          rw (go_on, e)
            (rw (new, process_notification)
              (first-Returned D arguments pdrs.device_id pdrs.enable qid c env s k new))
      | inr (queues, found) ↦
          rw (go_on, e)
            (rw (found, process_notification)
              (subst
                (λ qs.
                  Returned D arguments pdrs.device_id pdrs.enable qid c env
                    (update_queue D arguments pdrs.device_id qid pdrs.enable qs (c, env)))
                (ap queues_in found)
                (known-Returned D arguments pdrs.device_id pdrs.enable qid c env s k (rw found))))
    ]

-- The stop notification ends no thread by itself: it clears the running flag of all handlers, of
-- whatever device, and keeps what is known of the queues.
pub process_notification-stop :
    (D : Dpdk) (arguments : Arguments) (pdrs : PortDeviceRingState) (c : Controller) (env : D.Env)
    → (pdrs.meta == pos 1) ≡ true
    → process_notification D arguments pdrs (c, env)
      ≡ done tt (record c { handlers = map stop c.handlers }, env)
unfolding process_notification
process_notification-stop D arguments pdrs c env e = rw e
