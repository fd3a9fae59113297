-- ===== src/PortMap/Fill.antt =====
-- A loop that writes `f i` at the successive indices of an array.
use native.Mathlib.Decide.{ℕ_discrete}
use vtb.Prelude.{
  ℕ, zero, suc, ◌+◌, ◌≤◌, ◌<◌, ◌≡◌, refl, subst, ◌∙◌, ◌⊎◌, inl, List, some, arith, length,
  get_elem?, set, length-set, get_elem?-set_self, get_elem?-set_ne,
}

module _ {ℓ} {A : Type ℓ} (f : ℕ → A) where
  -- The rounds that are left, and the index.
  unfoldable pub fill : ℕ → ℕ → List A → List A
  fill zero i xs = xs
  fill (suc rounds) i xs = fill rounds (suc i) (set xs i (f i))

  pub length-fill : (rounds i : ℕ) (xs : List A) → length (fill rounds i xs) ≡ length xs
  unfolding fill
  length-fill zero i xs = refl
  length-fill (suc rounds) i xs =
      length-fill rounds (suc i) (set xs i (f i)) ∙ length-set xs i (f i)

  pub get_elem?-fill_outside :
      (rounds i j : ℕ) (xs : List A)
      → (j < i) ⊎ (i + rounds ≤ j)
      → get_elem? (fill rounds i xs) j ≡ get_elem? xs j
  unfolding fill
  get_elem?-fill_outside zero i j xs h = refl
  get_elem?-fill_outside (suc rounds) i j xs h =
      get_elem?-fill_outside rounds (suc i) j (set xs i (f i)) (omega arith)
      ∙ get_elem?-set_ne xs i j (f i) (omega arith)

  pub get_elem?-fill_inside :
      (rounds i j : ℕ) (xs : List A)
      → i ≤ j
      → j < i + rounds
      → j < length xs
      → get_elem? (fill rounds i xs) j ≡ some (f j)
  unfolding fill
  get_elem?-fill_inside zero i j xs h k l = absurd (omega arith)
  get_elem?-fill_inside (suc rounds) i j xs h k l = elim (ℕ_discrete i j) [
    | yes e ↦
        get_elem?-fill_outside rounds (suc i) j (set xs i (f i)) (inl (omega arith))
        ∙ subst (λ k. get_elem? (set xs i (f i)) k ≡ some (f k)) e
            (get_elem?-set_self xs i (f i) (omega arith))
    | no n ↦
        get_elem?-fill_inside rounds (suc i) j (set xs i (f i)) (omega arith) (omega arith)
          (omega (arith, length-set xs i (f i)))
  ]
