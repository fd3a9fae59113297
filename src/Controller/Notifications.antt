-- ===== src/Controller/Notifications.antt =====
-- What one notification does.
use vtb.Prelude.{
  ℕ, ◌+◌, ◌-◌, ◌/◌, ◌%◌, ◌<◌, ◌≡◌, refl, Bool, true, false, ◌&&◌, Option, none, some, List, ℤ, pos,
  int_eq, bytes_eq, ◌==◌, nat_eq, if◌then◌else◌, if_apply, ok, set_at-ok, length, get_elem?,
  get_elem?-of_lt, length-set, set, arith, Bool-cases, inl, inr,
}
use vtb.Prelude.Effects.{Exec, done, raised, lost, return}
use vtb.Cmdline.{Arguments}
use vtb.Cmdline.Values.Defined.{get_int-defined}
use vtb.Common.{is_even}
use vtb.Handler.{Dpdk, Handler, set_vid, set_rxqid, set_txqid, World}
use vtb.Handler.Start.{SameIds, SameThreads, Ends, start-Ends}
use vtb.Controller.{
  Controller, System, update_queue, dispatch, both_enabled, is_one, remember, with_ready,
  nof_queues, nof_handlers, put_handler, start_handler,
}

-- Whether queue `i` is enabled in the controller's list.
abbrev pub one_in : Option ℤ → Bool
one_in none = false
one_in (some v) = is_one v

abbrev pub is_enabled : List ℤ → ℕ → Bool
is_enabled queues i = one_in (get_elem? queues i)

pub both_enabled-ok :
    (queues : List ℤ) (i j : ℕ)
    → i < length queues
    → j < length queues
    → both_enabled queues i j ≡ ok (is_enabled queues i && is_enabled queues j)
unfolding both_enabled
both_enabled-ok queues i j h k =
    let (v, e) = get_elem?-of_lt queues i h in
    let (w, f) = get_elem?-of_lt queues j k in
    elim (Bool-cases (is_one v)) [
      | inl yes_one ↦ rw (e, both_enabled) (rw (yes_one, f))
      | inr other ↦ rw (e, both_enabled) (rw other)
    ]

-- The other queue of the pair.
abbrev pub partner : ℕ → ℕ
partner qid = if qid % 2 == 0 then qid + 1 else qid - 1

-- The map and `ready_` after queue `qid` of a known device is set.
abbrev pub updated : ℤ → ℕ → ℤ → List ℤ → Controller → Controller
updated device_id qid enable queues c =
    let queues' = set queues qid enable in
    with_ready (is_enabled queues' qid && is_enabled queues' (partner qid))
      (remember device_id queues' c)

module _ (D : Dpdk) (arguments : Arguments) where
  pub update-even :
      (device_id enable : ℤ) (qid : ℕ) (queues : List ℤ) (c : Controller) (env : D.Env)
      → length queues ≡ nof_queues
      → qid < nof_queues
      → (qid % 2 == 0) ≡ true
      → update_queue D arguments device_id qid enable queues (c, env)
        ≡ done tt (updated device_id qid enable queues c, env)
  unfolding update_queue is_even
  update-even device_id enable qid queues c env l h e =
      rw (set_at-ok queues qid enable (omega arith)) (
        rw e (
          rw (
            both_enabled-ok (set queues qid enable) qid (qid + 1)
              (omega (arith, length-set queues qid enable))
              (ground (arith, length-set queues qid enable)))))

  pub update-odd :
      (device_id enable : ℤ) (qid : ℕ) (queues : List ℤ) (c : Controller) (env : D.Env)
      → length queues ≡ nof_queues
      → qid < nof_queues
      → (qid % 2 == 0) ≡ false
      → update_queue D arguments device_id qid enable queues (c, env) ≡ (
          let c' = updated device_id qid enable queues c in
          if c'.ready then dispatch D arguments device_id qid (c', env) else done tt (c', env))
  unfolding update_queue is_even
  update-odd device_id enable qid queues c env l h e =
      rw (set_at-ok queues qid enable (omega arith)) (
        rw e (
          rw
            (both_enabled-ok (set queues qid enable) qid (qid - 1)
              (omega (arith, length-set queues qid enable))
              (omega (arith, length-set queues qid enable)))
            (if_apply
              (is_enabled (set queues qid enable) qid
                && is_enabled (set queues qid enable) (qid - 1))
              (dispatch D arguments device_id qid) (return tt) _)))

  abbrev pub given_ids : ℤ → ℕ → Handler → Handler
  given_ids device_id qid h = set_txqid (pos qid) (set_rxqid (pos (qid - 1)) (set_vid device_id h))

  -- The handler and DPDK as a call has left them, whether it returned or threw.
  abbrev pub left_by : Exec (World D) (Unit {0}) → Option (World D)
  left_by (done x w) = some w
  left_by (raised e w) = some w
  left_by lost = none

  -- What `start` does to a handler that was given its ids.
  abbrev pub started_as : ℤ → ℕ → Handler → D.Env → Option (World D)
  started_as device_id qid h env =
      left_by (start_handler D arguments (given_ids device_id qid h, env))

  -- The handler that `dispatch` has started, or has tried to start.
  abbrev pub HasIds : ℤ → ℕ → Handler → Type 0
  HasIds device_id qid h = (h.vid ≡ device_id) × (h.rxqid ≡ pos (qid - 1)) × (h.txqid ≡ pos qid)

  -- What `dispatch` changes is the handler at `qid / 2`.
  abbrev pub Dispatched :
      ℤ → ℕ → Controller → Option (World D) → Exec (System D arguments) (Unit {0}) → Type 0
  Dispatched device_id qid c left r =
      (h : Handler) × (env : D.Env) × (r
        ≡ done tt (record c { handlers = set c.handlers (qid / 2) h }, env))
      × HasIds device_id qid h
      × (left ≡ some (h, env))

  put_handler-Dispatched :
      (device_id : ℤ) (qid : ℕ) (c : Controller) (h : Handler) (r : Exec (World D) (Unit {0}))
      → Ends D (SameIds (given_ids device_id qid h)) (SameThreads (given_ids device_id qid h)) r
      → Dispatched device_id qid c (left_by r) (put_handler D arguments (qid / 2) c.handlers c r)
  put_handler-Dispatched device_id qid c h (done x (h', env)) s =
      (h', env, refl, (s.vid, s.rxqid, s.txqid), refl)
  put_handler-Dispatched device_id qid c h (raised e (h', env)) s =
      (h', env, refl, (s.ids.vid, s.ids.rxqid, s.ids.txqid), refl)
  put_handler-Dispatched device_id qid c h lost s = absurd s

  pub dispatch-Dispatched :
      (device_id : ℤ) (qid : ℕ) (c : Controller) (env : D.Env)
      → length c.handlers ≡ nof_handlers
      → qid < nof_queues
      → (old : Handler) × (get_elem? c.handlers (qid / 2) ≡ some old)
        × Dispatched device_id qid c
            (started_as device_id qid old env)
            (dispatch D arguments device_id qid (c, env))
  unfolding dispatch
  dispatch-Dispatched device_id qid c env l k =
      let (h, e) = get_elem?-of_lt c.handlers (qid / 2) (omega arith) in
      (
        h,
        e,
        rw (e, dispatch)
            (put_handler-Dispatched device_id qid c h _
              (start-Ends D (given_ids device_id qid h) _ _ env (get_int-defined _ arguments))),
      )
