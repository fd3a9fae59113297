-- ===== src/Prelude/Dict.antt =====
-- `std::map` and `std::unordered_map` as association lists. A new key goes before the first key
-- that follows it in the map's order; an unordered map takes the order that is always false.

use mathlib.Core.Path.{◌≡◌, refl}
use mathlib.Core.Logic.{◌≢◌}
use mathlib.Core.Bool.{Bool}
use mathlib.Core.Option.{Option, none, some}
use mathlib.Core.List.{List, [], ◌∷◌}
use native.Mathlib.Omega.{arith}
use vtb.Prelude.Tests.{Eq, ◌==◌, ==_refl, if◌then◌else◌}

abbrev pub Dict {ℓ κ} : Type ℓ → Type κ → Type (ℓ ⊔ κ)
Dict K V = List (K × V)

module _ {ℓ κ} {K : Type ℓ} {V : Type κ} ⦃e : Eq K⦄ where
  -- `find`, with `none` for `end()`.
  unfoldable pub lookup : K → Dict K V → Option V
  lookup k [] = none
  lookup k ((j, v) ∷ m) = if j == k then some v else lookup k m

  -- `m[k] = v`
  unfoldable pub insert : (K → K → Bool) → K → V → Dict K V → Dict K V
  insert before k v [] = (k, v) ∷ []
  insert before k v ((j, w) ∷ m) =
      if j == k
      then (k, v) ∷ m
      else if before k j
      then (k, v) ∷ (j, w) ∷ m
      else (j, w) ∷ insert before k v m

  unfoldable pub erase : K → Dict K V → Dict K V
  erase k [] = []
  erase k ((j, w) ∷ m) = let rest = erase k m in if j == k then rest else (j, w) ∷ rest

  pub lookup-insert :
      (before : K → K → Bool) (k i : K) (v : V) (m : Dict K V)
      → lookup i (insert before k v m) ≡ (if k == i then some v else lookup i m)
  unfolding lookup insert
  lookup-insert before k i v [] = refl
  lookup-insert before k i v ((j, w) ∷ m) =
      ground (arith, e.beq_iff k i, e.beq_iff j k, e.beq_iff j i, lookup-insert before k i v m)

  pub lookup-insert_self :
      (before : K → K → Bool) (k : K) (v : V) (m : Dict K V)
      → lookup k (insert before k v m) ≡ some v
  lookup-insert_self before k v m = rw (lookup-insert before k k v m, ==_refl k)

  pub lookup-insert_ne :
      (before : K → K → Bool) (k i : K) (v : V) (m : Dict K V)
      → i ≢ k
      → lookup i (insert before k v m) ≡ lookup i m
  lookup-insert_ne before k i v m h =
      rw (lookup-insert before k i v m) (ground (arith, e.beq_iff k i))

  pub lookup-erase :
      (k i : K) (m : Dict K V) → lookup i (erase k m) ≡ (if k == i then none else lookup i m)
  unfolding lookup erase
  lookup-erase k i [] = ground arith
  lookup-erase k i ((j, w) ∷ m) =
      ground (arith, e.beq_iff k i, e.beq_iff j k, e.beq_iff j i, lookup-erase k i m)

  pub lookup-erase_self : (k : K) (m : Dict K V) → lookup k (erase k m) ≡ none
  lookup-erase_self k m = rw (lookup-erase k k m, ==_refl k)

  pub lookup-erase_ne : (k i : K) (m : Dict K V) → i ≢ k → lookup i (erase k m) ≡ lookup i m
  lookup-erase_ne k i m h = rw (lookup-erase k i m) (ground (arith, e.beq_iff k i))
