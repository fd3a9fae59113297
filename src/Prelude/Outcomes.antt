-- ===== src/Prelude/Outcomes.antt =====
-- What a call does besides returning a value: it throws, or the language leaves it undefined.
use Prim.Native.Nat.{ℕ, ◌≤◌, ◌<◌}
use mathlib.Core.Path.{◌≡◌}
use mathlib.Core.List.{List}
use mathlib.Core.Option.{Option, none, some}
use native.Mathlib.Omega.{arith}
use vtb.Prelude.Tests.{ltb, if◌then◌else◌, lt→ltb, le→ltb}
use vtb.Prelude.Lists.{length, get_elem?, set, get_elem?-of_le}
use vtb.Prelude.Int.{ℤ, pos, negsuc}
use vtb.Prelude.Text.{Bytes}

-- `throws e` carries the text of `what()`.
pub data Result {ℓ} (A : Type ℓ) : Type ℓ where
  ok : A → Result A
  throws : Bytes → Result A
  undefined : Result A

infixl 5 ◌>>=◌
abbrev pub ◌>>=◌ {ℓ κ} : {A : Type ℓ} {B : Type κ} → Result A → (A → Result B) → Result B
ok a >>= f = f a
throws e >>= f = throws e
undefined >>= f = undefined

module _ {ℓ} {A : Type ℓ} where
  abbrev pub or_undefined : Option A → Result A
  or_undefined none = undefined
  or_undefined (some a) = ok a

  -- `xs[i]`: out of range the behaviour is undefined.
  abbrev pub get_at : List A → ℕ → Result A
  get_at xs i = or_undefined (get_elem? xs i)

  -- `xs[i] = v`
  abbrev pub set_at : List A → ℕ → A → Result (List A)
  set_at xs i v = if ltb i (length xs) then ok (set xs i v) else undefined

  pub set_at-ok : (xs : List A) (i : ℕ) (v : A) → i < length xs → set_at xs i v ≡ ok (set xs i v)
  set_at-ok xs i v h = ground (arith, lt→ltb i (length xs) h)

  pub set_at-undefined : (xs : List A) (i : ℕ) (v : A) → length xs ≤ i → set_at xs i v ≡ undefined
  set_at-undefined xs i v h = ground (arith, le→ltb i (length xs) h)

  pub get_at-undefined : (xs : List A) (i : ℕ) → length xs ≤ i → get_at xs i ≡ undefined
  get_at-undefined xs i h = ground (arith, get_elem?-of_le xs i h)

-- A subscript that is an `int`.
abbrev pub subscript : ℤ → Result ℕ
subscript (pos n) = ok n
subscript (negsuc n) = undefined
