-- ===== src/Cmdline/Values/Defined.antt =====
-- The ways out of `get<int>`.
use vtb.Prelude.{
  ℕ, Bool, true, false, ◌≢◌, none, some, Option, text, pos, Bytes, ok, throws, undefined,
  if◌then◌else◌, arith,
}
use vtb.Cmdline.{Arguments, empty}
use vtb.Cmdline.Values.{get_string, get_int, stoi, in_int, read, sign, skip_spaces}

in_int-defined : (minus : Bool) (n : ℕ) → in_int minus n ≢ undefined
unfolding in_int
in_int-defined true n h = ground arith
in_int-defined false n h = ground arith

read-defined :
    (minus : Bool) (o : Option ℕ)
    → (elim o [ none ↦ throws (text "stoi") | some n ↦ in_int minus n ]) ≢ undefined
read-defined minus none h = cc
read-defined minus (some n) h = in_int-defined minus n h

stoi-defined : (s : Bytes) → stoi s ≢ undefined
unfolding stoi
stoi-defined s h = read-defined (sign (skip_spaces s)).0 (read 10 (sign (skip_spaces s)).1) h

text-defined : (b : Bool) (s : Bytes) → (if b then ok (pos 0) else stoi s) ≢ undefined
text-defined true s h = cc
text-defined false s h = stoi-defined s h

-- `get<int>` returns or throws.
pub get_int-defined : (name : Bytes) (arguments : Arguments) → get_int name arguments ≢ undefined
unfolding get_int
get_int-defined name arguments h =
    text-defined (empty (get_string name arguments)) (get_string name arguments) h
