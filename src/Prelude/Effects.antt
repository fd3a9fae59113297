-- ===== src/Prelude/Effects.antt =====
-- Calls that work on a state: the state is there when a call returns and when it throws.
use vtb.Prelude.Text.{Bytes}
use vtb.Prelude.Outcomes.{Result, ok, throws, undefined}

-- `lost` is undefined behaviour.
pub data Exec (S A : Type 0) : Type 0 where
  done : A → S → Exec S A
  raised : Bytes → S → Exec S A
  lost : Exec S A

abbrev pub M : Type 0 → Type 0 → Type 0
M S A = S → Exec S A

module _ {S A B : Type 0} where
  abbrev pub bind : Exec S A → (A → M S B) → Exec S B
  bind (done a s) f = f a s
  bind (raised e s) f = raised e s
  bind lost f = lost

  infixl 5 ◌>>=◌ ◌>>◌
  abbrev pub ◌>>=◌ : M S A → (A → M S B) → M S B
  ◌>>=◌ m f s = bind (m s) f

  abbrev pub ◌>>◌ : M S A → M S B → M S B
  ◌>>◌ m k s = bind (m s) (λ _. k)

module _ {S A : Type 0} where
  abbrev pub return : A → M S A
  return a s = done a s

  abbrev pub raise : Bytes → M S A
  raise e s = raised e s

  abbrev pub lift : Result A → M S A
  lift (ok a) s = done a s
  lift (throws e) s = raised e s
  lift undefined s = lost

  abbrev handle : Exec S A → (Bytes → M S A) → Exec S A
  handle (done a s) h = done a s
  handle (raised e s) h = h e s
  handle lost h = lost

  -- `try { m } catch (const std::exception& e) { h }`
  abbrev pub try : M S A → (Bytes → M S A) → M S A
  try m h s = handle (m s) h

module _ {S : Type 0} where
  abbrev pub get : M S S
  get s = done s s

  abbrev pub put : S → M S (Unit {0})
  put t s = done tt t

  abbrev pub modify : (S → S) → M S (Unit {0})
  modify f s = done tt (f s)
