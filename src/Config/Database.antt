-- ===== src/Config/Database.antt =====
-- The database of ConfigManager: `set_value`, `get_value` and `dump_config`. A `std::any` holds a
-- value of one of the types that `dump_config` knows, or an object of some other type, which is
-- its type's number and its bytes.
use vtb.Prelude.{
  ℕ, ◌≡◌, ◌≢◌, refl, Bool, true, false, Option, none, some, List, [], ◌∷◌, ◌++◌, ◌==◌, nat_eq,
  bytes_eq, nat_beq_iff, ==_refl, if◌then◌else◌, Bytes, text, ℤ, show_int, show_hex, Bool-cases,
  inl, inr, ap,
}
use vtb.Prelude.Dict
use vtb.Prelude.Dict.{Dict}
use vtb.Cmdline.Usage.{pad}

-- The type that a caller asks for.
pub data Kind : Type 0 where
  int : Kind
  boolean : Kind
  string : Kind
  uint64 : Kind
  object : ℕ → Kind

abbrev pub Value : Kind → Type 0
Value int = ℤ
Value boolean = Bool
Value string = Bytes
Value uint64 = ℕ
Value (object n) = Bytes

pub data Any : Type 0 where
  make_any : (k : Kind) → Value k → Any

abbrev pub Database : Type 0
Database = Dict Bytes Any

-- The order of an unordered map is not specified; here a new key comes last.
unfoldable pub set_value : (k : Kind) → Bytes → Value k → Database → Database
set_value k key value database = Dict.insert (λ a b. false) key (make_any k value) database

-- `std::any_cast<T>`, with `none` for the exception, which `get_value` catches.
abbrev pub any_cast : (k : Kind) → Any → Option (Value k)
any_cast int (make_any int v) = some v
any_cast boolean (make_any boolean v) = some v
any_cast string (make_any string v) = some v
any_cast uint64 (make_any uint64 v) = some v
any_cast (object n) (make_any (object m) v) = if n == m then some v else none
any_cast _ _ = none

unfoldable pub get_value : (k : Kind) → Bytes → Database → Option (Value k)
get_value k key database = elim (Dict.lookup key database) [ none ↦ none | some a ↦ any_cast k a ]

show_any : Any → Bytes
show_any (make_any int v) = show_int v
show_any (make_any boolean true) = text "true"
show_any (make_any boolean false) = text "false"
show_any (make_any string v) = v
show_any (make_any uint64 v) = text "0x" ++ show_hex v
show_any (make_any (object n) v) = text "[Object]"

-- The line for one key, as it goes to `info()`.
dump_line : Bytes → Any → Bytes
unfolding show_any
dump_line key a = text "Key: " ++ (pad 20 key ++ (text " | Value: " ++ show_any a))

dump_lines : Database → List Bytes
unfolding dump_line
dump_lines [] = []
dump_lines ((key, a) ∷ database) = dump_line key a ∷ dump_lines database

unfoldable pub dump_config : Database → List Bytes
unfolding dump_lines
dump_config database = text "--- [Config DB Dump] ---" ∷ dump_lines database

any_cast-make_any : (k : Kind) (v : Value k) → any_cast k (make_any k v) ≡ some v
any_cast-make_any int v = refl
any_cast-make_any boolean v = refl
any_cast-make_any string v = refl
any_cast-make_any uint64 v = refl
any_cast-make_any (object n) v = rw (==_refl n)

any_cast-ne : (j k : Kind) (v : Value k) → j ≢ k → any_cast j (make_any k v) ≡ none
any_cast-ne int int v h = absurd (h refl)
any_cast-ne boolean boolean v h = absurd (h refl)
any_cast-ne string string v h = absurd (h refl)
any_cast-ne uint64 uint64 v h = absurd (h refl)
any_cast-ne (object n) (object m) v h = elim (Bool-cases (n == m)) [
  | inl same ↦ absurd (h (ap object ((nat_beq_iff n m).0 same)))
  | inr other ↦ rw other
]
any_cast-ne _ _ v h = refl

-- `get_value` gives back what `set_value` stored under the key at the same type, nothing at every
-- other type, and under every other key what was there before.
pub get_value-set_value :
    (j k : Kind) (key other : Bytes) (v : Value k) (database : Database)
    → (get_value k key (set_value k key v database) ≡ some v)
      × (j ≢ k → get_value j key (set_value k key v database) ≡ none)
      × (other ≢ key → get_value j other (set_value k key v database) ≡ get_value j other database)
unfolding get_value set_value
get_value-set_value j k key other v database =
    let stored = Dict.lookup-insert_self (λ a b. false) key (make_any k v) database in
    (
      rw (stored, get_value) (any_cast-make_any k v),
      λ h. rw (stored, get_value) (any_cast-ne j k v h),
      λ h. rw (Dict.lookup-insert_ne (λ a b. false) key other (make_any k v) database h, get_value),
    )
