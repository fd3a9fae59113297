-- ===== src/Session/Pairs.antt =====
-- Which device a handler of the port controller is given by one message.
use native.Mathlib.Decide.{ℕ_discrete}
use vtb.Prelude.{
  ℕ, zero, suc, ◌+◌, ◌*◌, ◌/◌, ◌%◌, ◌<◌, ◌≡◌, ◌≢◌, ◌⊎◌, refl, sym, ◌∙◌, ap, subst, Bool, true,
  false, not, ◌&&◌, Option, none, some, List, [], ◌∷◌, ℤ, pos, negsuc, int_eq, nat_eq, ◌==◌,
  if◌then◌else◌, get_elem?, get_elem?-set_self, get_elem?-set_ne, set, length, map, arith,
  Bool-cases, Option-cases, inl, inr, nat_beq_iff,
}
use vtb.Prelude.Dict
use vtb.Common.Devices.{PortDeviceRingState}
use vtb.Handler.{Handler, stop}
use vtb.Controller.{Controller, nof_queues}
use vtb.Controller.Notifications.{one_in, is_enabled, partner}
use vtb.Controller.Processing.{IsSound, Processed, queues_in, queues_of, starts, is_known}
use vtb.Session.Queues.{state_of, value_in, is_about, queues_of-length, unknown-state}

-- The states of all queues, after a message.
abbrev pub States : Type 0
States = ℤ → ℕ → ℤ

abbrev pub noted : PortDeviceRingState → States → States
noted m states d q = if is_about d q m then m.enable else states d q

-- The message completes pair `i` of its device: it enables the second queue of the pair, and the
-- first one is enabled.
abbrev pub completes : ℕ → PortDeviceRingState → States → Bool
completes i m states =
    not (m.meta == pos 1)
    && (m.qid == pos (i * 2 + 1) && (m.enable == pos 1 && states m.device_id (i * 2) == pos 1))

-- The device that completed pair `i` last.
unfoldable pub owner_after : ℕ → List PortDeviceRingState → States → ℤ → ℤ
owner_after i [] states owner = owner
owner_after i (m ∷ ms) states owner =
    owner_after i ms (noted m states) (if completes i m states then m.device_id else owner)

abbrev pub vid_in : Option Handler → ℤ
vid_in none = negsuc 0
vid_in (some h) = h.vid

-- The device of handler `i`.
abbrev pub owner : ℕ → Controller → ℤ
owner i c = vid_in (get_elem? c.handlers i)

one_in-value_in : (o : Option ℤ) → one_in o ≡ (value_in o == pos 1)
one_in-value_in none = refl
one_in-value_in (some v) = refl

odd-half : (r : ℕ) → (r % 2 == 0) ≡ false → r / 2 * 2 + 1 ≡ r
odd-half r h = ground arith

all_of :
    (k o a b a' b' : Bool)
    → o ≡ false
    → a ≡ a'
    → b ≡ b'
    → (k ≡ true) ⊎ (b' ≡ false)
    → (k && (not o && (a && b))) ≡ (a' && b')
all_of k o a b a' b' eo ea eb (inl ek) = rw (eo, ek, ea, eb)
all_of k o a b true b' eo ea eb (inr e) = ground arith
all_of k o a b false b' eo ea eb (inr e) = ground arith

-- A handler is started on an odd queue exactly if the message completes the pair.
starts-odd :
    (d enable : ℤ) (r : ℕ) (c : Controller)
    → IsSound c
    → r < nof_queues
    → (r % 2 == 0) ≡ false
    → starts d r enable c ≡ (enable == pos 1 && state_of d (r / 2 * 2) c == pos 1)
starts-odd d enable r c s h odd =
    let qs = queues_of d c in
    let wide : length qs ≡ nof_queues = queues_of-length d c s in
    let first : is_enabled (set qs r enable) r ≡ (enable == pos 1) =
      ap one_in (get_elem?-set_self qs r enable (omega (arith, wide))) in
    let at : partner r ≡ r / 2 * 2 = ground arith in
    let second : is_enabled (set qs r enable) (partner r) ≡ (state_of d (r / 2 * 2) c == pos 1) =
      ap one_in (get_elem?-set_ne qs r (partner r) enable (λ e. ground arith))
      ∙ one_in-value_in (get_elem? qs (partner r))
      ∙ ap (λ k. state_of d k c == pos 1) at in
    all_of (is_known (Dict.lookup d c.pmap)) (r % 2 == 0) _ _ _ _ odd first second
      (elim (Option-cases (Dict.lookup d c.pmap)) [
        | inr (known, e) ↦ inl (ap is_known e)
        | inl e ↦ inr (
            ap (λ o. value_in (get_elem? (queues_in o) (r / 2 * 2)) == pos 1) e
            ∙ ap (λ v. v == pos 1) (unknown-state nof_queues (r / 2 * 2)))
      ])

pub vid_in-stop :
    (i : ℕ) (hs : List Handler) → vid_in (get_elem? (map stop hs) i) ≡ vid_in (get_elem? hs i)
unfolding stop
vid_in-stop i [] = refl
vid_in-stop zero (h ∷ hs) = refl
vid_in-stop (suc i) (h ∷ hs) = vid_in-stop i hs

and_false : (a b c : Bool) → b ≡ false → (a && (b && c)) ≡ false
and_false true b c e = rw e
and_false false b c e = refl

other_pair :
    (m : PortDeviceRingState) (r i : ℕ) (states : States)
    → m.qid ≡ pos r
    → r ≢ i * 2 + 1
    → completes i m states ≡ false
other_pair m r i states e d =
    and_false (not (m.meta == pos 1)) (m.qid == pos (i * 2 + 1)) _
      (ap (λ q. q == pos (i * 2 + 1)) e ∙ ground (arith, nat_beq_iff r (i * 2 + 1)))

this_pair :
    (m : PortDeviceRingState) (i : ℕ) (states : States)
    → m.qid ≡ pos (i * 2 + 1)
    → (m.meta == pos 1) ≡ false
    → completes i m states ≡ (m.enable == pos 1 && states m.device_id (i * 2) == pos 1)
this_pair m i states e notice =
    let here : (m.qid == pos (i * 2 + 1)) ≡ true =
      ap (λ q. q == pos (i * 2 + 1)) e ∙ ground (arith, nat_beq_iff (i * 2 + 1) (i * 2 + 1)) in
    rw (notice, here)

-- A notice gives the handler of a pair to its device exactly if it completes the pair.
abbrev pub Gives : PortDeviceRingState → ℕ → Controller → Controller → Type 0
Gives m i c after =
    owner i after ≡ (if completes i m (λ d q. state_of d q c) then m.device_id else owner i c)

keeps :
    (m : PortDeviceRingState) (i : ℕ) (c after : Controller)
    → completes i m (λ d q. state_of d q c) ≡ false
    → get_elem? after.handlers i ≡ get_elem? c.handlers i
    → Gives m i c after
keeps m i c after no' e = ap vid_in e ∙ ap (λ b. if b then m.device_id else owner i c) (sym no')

takes :
    (m : PortDeviceRingState) (i r : ℕ) (c after : Controller)
    → IsSound c
    → i * 2 + 1 < nof_queues
    → m.qid ≡ pos (i * 2 + 1)
    → (m.meta == pos 1) ≡ false
    → Processed m.device_id (i * 2 + 1) m.enable c after
    → Gives m i c after
takes m i r c after s h e notice p =
    let half : (i * 2 + 1) / 2 ≡ i = omega arith in
    let states = λ (d : ℤ) (q : ℕ). state_of d q c in
    let same : completes i m states ≡ starts m.device_id (i * 2 + 1) m.enable c =
      this_pair m i states e notice
      ∙ ap (λ k. m.enable == pos 1 && state_of m.device_id (k * 2) c == pos 1) (sym half)
      ∙ sym (starts-odd m.device_id m.enable (i * 2 + 1) c s h (ground arith)) in
    elim (Bool-cases (starts m.device_id (i * 2 + 1) m.enable c)) [
      | inr idle ↦ keeps m i c after (same ∙ idle) (ap (λ hs. get_elem? hs i) (p.idle idle))
      | inl started ↦
          let (g, at, vid, _, _) = p.started started in
          ap (λ k. vid_in (get_elem? after.handlers k)) (sym half)
          ∙ ap vid_in at
          ∙ vid
          ∙ ap (λ b. if b then m.device_id else owner i c) (sym (same ∙ started))
    ]

pub Processed-owner :
    (m : PortDeviceRingState) (r i : ℕ) (c after : Controller)
    → IsSound c
    → r < nof_queues
    → m.qid ≡ pos r
    → (m.meta == pos 1) ≡ false
    → Processed m.device_id r m.enable c after
    → Gives m i c after
Processed-owner m r i c after s h e notice p = elim (ℕ_discrete (i * 2 + 1) r) [
  | yes here ↦
      takes m i r c after s (omega arith) (e ∙ ap pos (sym here)) notice
        (subst (λ k. Processed m.device_id k m.enable c after) (sym here) p)
  | no elsewhere ↦
      keeps m i c after (other_pair m r i (λ d q. state_of d q c) e (λ k. elsewhere (sym k)))
        (elim (ℕ_discrete i (r / 2)) [
          | no d ↦ p.rest i d
          | yes half ↦
              ap (λ hs. get_elem? hs i)
                (p.idle (
                  and_false (is_known (Dict.lookup m.device_id c.pmap)) (not (r % 2 == 0)) _
                    (ground arith)))
        ])
]
