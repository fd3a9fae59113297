-- ===== src/PortMap/Refinement.antt =====
-- The member functions of ConfigManager that work on `pmap_` implement the specification.
use mathlib.Core.Option.{some-injective}
use vtb.Prelude.{
  ◌*◌, ◌+◌, ◌≡◌, refl, sym, ◌∙◌, subst, none, some, List, [], ◌∷◌, ℤ, pos, negsuc, int_eq, nat_eq,
  ok, arith, inl, inr,
}
use vtb.Prelude.Dict
use vtb.Common.Devices.{PortMap}
use vtb.PortMap.{PMap, is_queue_ready}
use vtb.PortMap.Ports.{IsPort, IsValid, is_queue_ready-enabled, get_vhost_qids-ids_of, ids_of}
use vtb.PortMap.Spec.{
  Port, Ports, pair_ids, Request, call, ready, ids, answer, serve, reply, next, replies,
  state_after, HasPair, IsAllowed, AllAllowed,
}
use vtb.PortMap.Represents.{Represents, Implements, Matches-cases}
use vtb.PortMap.Changes.{perform-Changes}

Implements-IsValid : (pmap : PMap) (s : Ports) → Implements pmap s → IsValid pmap
Implements-IsValid pmap s h p pm e = elim (Matches-cases (Dict.lookup p pmap) (s p) (h p)) [
  | inl (missing, _) ↦ cc
  | inr (pm', w, found, _, r) ↦ subst IsPort (some-injective _ _ (sym found ∙ e)) r.port
]

ready-missing :
    (p q : ℤ) (pmap : PMap) (s : Ports)
    → Dict.lookup p pmap ≡ none
    → s p ≡ none
    → answer (ready p q) pmap ≡ ok (reply (ready p q) s, pmap)
unfolding answer is_queue_ready
ready-missing p (pos i) pmap s e e' = rw (e', e, is_queue_ready)
ready-missing p (negsuc i) pmap s e e' = rw (e, is_queue_ready)

ready-found :
    (p q : ℤ) (pmap : PMap) (s : Ports) (pm : PortMap) (w : Port)
    → Dict.lookup p pmap ≡ some pm
    → s p ≡ some w
    → Represents pm w
    → HasPair q (some w)
    → answer (ready p q) pmap ≡ ok (reply (ready p q) s, pmap)
unfolding answer
ready-found p (negsuc i) pmap s pm w e e' r k = absurd k
ready-found p (pos i) pmap s pm w e e' r k = rw (
  e',
  is_queue_ready-enabled p i pmap pm e r.port (omega (arith, r.count)),
  r.queues (i * 2) (omega arith),
  r.queues (i * 2 + 1) (omega arith),
)

ready-reply :
    (p q : ℤ) (pmap : PMap) (s : Ports)
    → Implements pmap s
    → HasPair q (s p)
    → answer (ready p q) pmap ≡ ok (reply (ready p q) s, pmap)
ready-reply p q pmap s h k = elim (Matches-cases (Dict.lookup p pmap) (s p) (h p)) [
  | inl (e, e') ↦ ready-missing p q pmap s e e'
  | inr (pm, w, e, e', r) ↦ ready-found p q pmap s pm w e e' r (subst (HasPair q) e' k)
]

ids_of-pair_ids :
    (q : ℤ) (pm : PortMap) (w : Port) → Represents pm w → ids_of (some pm) q ≡ pair_ids q (some w)
ids_of-pair_ids (negsuc i) pm w r = refl
ids_of-pair_ids (pos i) pm w r = rw (r.count, r.device)

ids-reply :
    (p q : ℤ) (pmap : PMap) (s : Ports)
    → Implements pmap s
    → answer (ids p q) pmap ≡ ok (reply (ids p q) s, pmap)
unfolding answer
ids-reply p q pmap s h =
    rw (get_vhost_qids-ids_of p q pmap (Implements-IsValid pmap s h))
      (elim (Matches-cases (Dict.lookup p pmap) (s p) (h p)) [
        | inl (e, e') ↦ rw (e, e')
        | inr (pm, w, e, e', r) ↦ rw (e, e', ids_of-pair_ids q pm w r)
      ])

answer-reply :
    (r : Request) (pmap : PMap) (s : Ports)
    → Implements pmap s
    → IsAllowed r s
    → (after : PMap) × (answer r pmap ≡ ok (reply r s, after)) × Implements after (next r s)
unfolding answer
answer-reply (call c) pmap s h k =
    let (after, e, i) = perform-Changes c pmap s h k in (after, rw e, i)
answer-reply (ready p q) pmap s h k = (pmap, ready-reply p q pmap s h k, h)
answer-reply (ids p q) pmap s h k = (pmap, ids-reply p q pmap s h, h)

-- On a map that implements the specification's state, every sequence of allowed calls and questions
-- returns, gives the answers of the specification, and leaves a map that implements its state.
pub serve-replies :
    (rs : List Request) (pmap : PMap) (s : Ports)
    → Implements pmap s
    → AllAllowed rs s
    → (after : PMap) × (serve rs pmap ≡ ok (replies rs s, after))
      × Implements after (state_after rs s)
unfolding serve
serve-replies [] pmap s h k = (pmap, refl, h)
serve-replies (r ∷ rs) pmap s h k =
    let (mid, e, i) = answer-reply r pmap s h k.0 in
    let (after, e', i') = serve-replies rs mid (next r s) i k.1 in (after, rw e (rw e'), i')

-- The empty map.
pub nil-Implements : Implements [] (λ p. none)
unfolding Dict.lookup
nil-Implements p = tt
