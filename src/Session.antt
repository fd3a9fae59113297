-- ===== src/Session.antt =====
-- A session of guests: the callbacks of the VhostController one after the other, and the messages
-- that they send to the port controller.
pub mod Queues
pub mod Sending
pub mod Knowledge
pub mod Pairs
pub mod Owners
pub mod Sharing
pub mod Farewells
pub mod Instance
use mathlib.Core.List.{append_assoc, append-nil}
use vtb.Prelude.{
  ℕ, suc, ◌/◌, ◌<◌, ◌≤◌, ◌≡◌, refl, sym, ◌∙◌, ap, Bool, true, false, List, [], ◌∷◌, ◌++◌, ℤ, pos,
  int_eq, bytes_eq, if◌then◌else◌, leb, Result, ok, ◌>>=◌, All, arith, Bool-cases, inl, inr,
}
use vtb.Common.Devices.{PortDeviceRingState, max_queue_pairs}
use vtb.PortMap.Ports.{IsValid}
use vtb.PortMap.Runs.{init-Returns, queue-Returns, clear-IsValid}
use vtb.Controller.{nof_queues}
use vtb.Vhost.{
  Vhost, on_new_device, on_destroy_device, on_vring_state_changed, notify_port_controller,
  has_client, as_bool,
}
use vtb.Vhost.Devices.{announced, announced-pmap, announced-port_cntr, destroyed-pmap}
use vtb.Delivery.{notice, notices, announced-sent}

-- A guest comes, with the number of its rings; it goes; it changes a ring.
pub data Callback : Type 0 where
  new_device : ℕ → ℤ → Callback
  destroy_device : ℤ → Callback
  vring_state_changed : ℤ → ℕ → ℤ → Callback

pub perform : Callback → Vhost → Result Vhost
perform (new_device vrings vid) v = on_new_device vrings vid v
perform (destroy_device vid) v = ok (on_destroy_device vid v)
perform (vring_state_changed vid q enable) v = on_vring_state_changed vid q enable v

unfoldable pub perform_all : List Callback → Vhost → Result Vhost
perform_all [] v = ok v
perform_all (c ∷ cs) v = perform c v >>= perform_all cs

-- At most eight pairs of rings.
abbrev pub InLimits : Callback → Type 0
InLimits (new_device vrings vid) = vrings / 2 ≤ max_queue_pairs
InLimits (destroy_device vid) = Unit {0}
InLimits (vring_state_changed vid q enable) = q < nof_queues

-- The message that a device is gone.
abbrev pub farewell : ℕ → ℤ → PortDeviceRingState
farewell port_cntr vid = record {
  meta = pos 1;
  port_id = pos port_cntr;
  device_id = vid;
  qid = pos 0;
  enable = pos 0;
}

abbrev pub messages : ℕ → Callback → List PortDeviceRingState
messages port_cntr (new_device vrings vid) = notices port_cntr vid
messages port_cntr (destroy_device vid) = farewell port_cntr vid ∷ []
messages port_cntr (vring_state_changed vid q enable) =
    if leb 2 q then notice port_cntr vid q enable ∷ [] else []

abbrev pub next_port : ℕ → Callback → ℕ
next_port port_cntr (new_device vrings vid) = suc port_cntr
next_port port_cntr (destroy_device vid) = port_cntr
next_port port_cntr (vring_state_changed vid q enable) = port_cntr

unfoldable pub all_messages : ℕ → List Callback → List PortDeviceRingState
all_messages port_cntr [] = []
all_messages port_cntr (c ∷ cs) = messages port_cntr c ++ all_messages (next_port port_cntr c) cs

-- A VhostController with a valid map and a client.
pub record IsConnected (v : Vhost) : Type 0 where
  pub valid : IsValid v.pmap
  pub client : has_client v.mode ≡ true

-- A callback has returned and has sent these messages.
abbrev pub Performed : Vhost → List PortDeviceRingState → ℕ → Result Vhost → Type 0
Performed v ms port_cntr r =
    (after : Vhost) × (r ≡ ok after)
    × IsConnected after
    × (after.sent ≡ v.sent ++ ms)
    × (after.port_cntr ≡ port_cntr)

new_device-Performed :
    (vrings : ℕ) (vid : ℤ) (v : Vhost)
    → IsConnected v
    → vrings / 2 ≤ max_queue_pairs
    → Performed v (notices v.port_cntr vid) (suc v.port_cntr) (on_new_device vrings vid v)
unfolding on_new_device
new_device-Performed vrings vid v c h =
    let (p1, e1, v1) = init-Returns (pos v.port_cntr) vid (vrings / 2) v.pmap c.valid h in
    let (p2, e2, v2) = queue-Returns vid 0 true p1 v1 in
    let (p3, e3, v3) = queue-Returns vid 1 true p2 v2 in
    (
      announced vid p3 v,
      rw e1 (rw e2 (rw e3)),
      record { valid = rw (announced-pmap vid p3 v) v3; client = simp c.client },
      announced-sent vid p3 v c.client,
      announced-port_cntr vid p3 v,
    )

destroy_device-Performed :
    (vid : ℤ) (v : Vhost)
    → IsConnected v
    → Performed v (farewell v.port_cntr vid ∷ []) v.port_cntr (ok (on_destroy_device vid v))
unfolding on_destroy_device notify_port_controller
destroy_device-Performed vid v c = (
  on_destroy_device vid v,
  refl,
  record {
    valid = rw (destroyed-pmap vid v) (clear-IsValid vid v.pmap c.valid);
    client = simp c.client;
  },
  simp c.client,
  simp c.client,
)

vring-Performed :
    (vid : ℤ) (q : ℕ) (enable : ℤ) (v : Vhost)
    → IsConnected v
    → Performed v
        (messages v.port_cntr (vring_state_changed vid q enable))
        v.port_cntr
        (on_vring_state_changed vid q enable v)
unfolding on_vring_state_changed notify_port_controller
vring-Performed vid q enable v c =
    let (p, e, valid) = queue-Returns vid q (as_bool enable) v.pmap c.valid in
    elim (Bool-cases (leb 2 q)) [
      | inl later ↦ (
        record v { pmap = p; sent = v.sent ++ (notice v.port_cntr vid q enable ∷ []) },
        rw e (simp (later, c.client)),
        record { valid = valid; client = c.client },
        rw later,
        refl,
      )
      | inr first ↦ (
        record v { pmap = p },
        rw e (simp first),
        record { valid = valid; client = c.client },
        simp (first, append-nil),
        refl,
      )
    ]

perform-Performed :
    (c : Callback) (v : Vhost)
    → IsConnected v
    → InLimits c
    → Performed v (messages v.port_cntr c) (next_port v.port_cntr c) (perform c v)
unfolding perform
perform-Performed (new_device vrings vid) v k h = new_device-Performed vrings vid v k h
perform-Performed (destroy_device vid) v k h = destroy_device-Performed vid v k
perform-Performed (vring_state_changed vid q enable) v k h = vring-Performed vid q enable v k

-- A session within the limits returns, keeps the map valid, and sends its messages in order.
pub perform_all-Performed :
    (cs : List Callback) (v : Vhost)
    → IsConnected v
    → All InLimits cs
    → (after : Vhost) × (perform_all cs v ≡ ok after)
      × IsConnected after
      × (after.sent ≡ v.sent ++ all_messages v.port_cntr cs)
unfolding perform_all all_messages
perform_all-Performed [] v k h = (v, refl, k, simp append-nil)
perform_all-Performed (c ∷ cs) v k h =
    let (mid, e, k', sent, port) = perform-Performed c v k h.0 in
    let (after, r, k'', sent') = perform_all-Performed cs mid k' h.1 in
    (after, rw e r, k'', sent' ∙ simp (sent, port, append_assoc))
