-- ===== src/Cmdline/Values/Numbers.antt =====
-- `get<int>` and `get<uint64_t>` of texts that the program's own printing writes.
use native.Mathlib.Decide.{dec_lt}
use vtb.Prelude.{
  fits_int, ℕ, zero, suc, ◌/◌, ◌^◌, ◌≡◌, ◌≢◌, refl, ◌∙◌, ap, Bool, true, false, ◌⊎◌, [], ◌∷◌, ◌++◌,
  some, lt→ltb, le→ltb, arith, All, Bytes, text, digits, show_nat, show_int, show_hex, ℤ, pos,
  negsuc, ltb, if◌then◌else◌, ok, throws, nat_eq, inl, inr,
}
use vtb.Cmdline.{Arguments, empty}
use vtb.Cmdline.Values.{
  digit, read, sign, skip_spaces, is_space, stoi, stoull, in_int, negate, in_uint64, read_prefixed,
  get_string, get_int, get_uint64,
}
use vtb.Cmdline.Values.Digits.{
  IsDigit, read-number, digits-IsDigit, number-digits, Leads, digits-Leads,
}

append-ne-nil : (s : Bytes) (c : ℕ) → s ++ (c ∷ []) ≢ []
append-ne-nil [] c h = cc
append-ne-nil (d ∷ s) c h = cc

digits-ne-nil : (fuel base n : ℕ) → digits (suc fuel) base n ≢ []
unfolding digits
digits-ne-nil fuel base n = elim (dec_lt n base) [
  | yes k ↦ rw (lt→ltb n base k) (λ e. cc)
  | no k ↦ rw (le→ltb n base (omega arith)) (append-ne-nil (digits fuel base (n / base)) _)
]

read-show_nat : (n : ℕ) → read 10 (show_nat n) ≡ some n
unfolding show_nat
read-show_nat n =
    read-number 10 (digits (suc n) 10 n) (digits-ne-nil n 10 n)
      (digits-IsDigit 10 (omega arith) (omega arith) (suc n) n)
    ∙ ap some (number-digits 10 (omega arith) (omega arith) (suc n) n (omega arith))

read-show_hex : (n : ℕ) → read 16 (show_hex n) ≡ some n
unfolding show_hex
read-show_hex n =
    read-number 16 (digits (suc n) 16 n) (digits-ne-nil n 16 n)
      (digits-IsDigit 16 (omega arith) (omega arith) (suc n) n)
    ∙ ap some (number-digits 16 (omega arith) (omega arith) (suc n) n (omega arith))

-- Digits are neither spaces nor signs.
abbrev Unsigned : Bytes → Type 0
Unsigned s = (skip_spaces s ≡ s) × (sign s ≡ (false, s)) × (empty s ≡ false)

digits-Unsigned : (s : Bytes) → s ≢ [] → All (IsDigit 10) s → Unsigned s
unfolding skip_spaces is_space sign digit
digits-Unsigned [] d h = absurd (d refl)
digits-Unsigned (c ∷ s) d h = let k = h.0 in (ground arith, ground arith, refl)

show_nat-Unsigned : (n : ℕ) → Unsigned (show_nat n)
unfolding show_nat
show_nat-Unsigned n =
    digits-Unsigned (digits (suc n) 10 n) (digits-ne-nil n 10 n)
      (digits-IsDigit 10 (omega arith) (omega arith) (suc n) n)

stoi-read :
    (s t : Bytes) (minus : Bool) (n : ℕ)
    → sign (skip_spaces s) ≡ (minus, t)
    → read 10 t ≡ some n
    → stoi s ≡ in_int minus n
unfolding stoi
stoi-read s t minus n e r = rw (e, stoi) (rw r (rw e))

show_int-pos : (n : ℕ) → show_int (pos n) ≡ show_nat n
unfolding show_int
show_int-pos n = refl

show_int-negsuc : (n : ℕ) → show_int (negsuc n) ≡ b'-' ∷ show_nat (suc n)
unfolding show_int
show_int-negsuc n = refl

sign-minus : (s : Bytes) → sign (skip_spaces (b'-' ∷ s)) ≡ (true, s)
unfolding sign skip_spaces is_space
sign-minus s = refl

stoi-show_int : (a : ℤ) → stoi (show_int a) ≡ (if fits_int a then ok a else throws (text "stoi"))
stoi-show_int (pos n) =
    let (spaces, unsigned, _) = show_nat-Unsigned n in
    ap stoi (show_int-pos n)
    ∙ stoi-read (show_nat n) (show_nat n) false n (ap sign spaces ∙ unsigned) (read-show_nat n)
    ∙ (unfold in_int in refl)
stoi-show_int (negsuc n) =
    ap stoi (show_int-negsuc n)
    ∙ stoi-read (b'-' ∷ show_nat (suc n)) (show_nat (suc n)) true (suc n)
        (sign-minus (show_nat (suc n))) (read-show_nat (suc n))
    ∙ (unfold in_int negate in ground arith)

empty-show_int : (a : ℤ) → empty (show_int a) ≡ false
empty-show_int (pos n) = ap empty (show_int-pos n) ∙ (show_nat-Unsigned n).2
empty-show_int (negsuc n) = ap empty (show_int-negsuc n)

-- `get<int>` of a stored integer, written in decimal, gives that integer if it fits in 32 bits,
-- and otherwise throws.
pub get_int-show_int :
    (name : Bytes) (arguments : Arguments) (a : ℤ)
    → get_string name arguments ≡ show_int a
    → get_int name arguments ≡ (if fits_int a then ok a else throws (text "stoi"))
unfolding get_int
get_int-show_int name arguments a e = rw e (rw (empty-show_int a) (stoi-show_int a))

read_prefixed-Leads : (s : Bytes) → Leads s → read_prefixed s ≡ read 10 s
unfolding read_prefixed
read_prefixed-Leads [] h = absurd h
read_prefixed-Leads (c ∷ []) h = refl
read_prefixed-Leads (c ∷ x ∷ s) h = ground arith

read_prefixed-show_nat : (n : ℕ) → read_prefixed (show_nat n) ≡ some n
read_prefixed-show_nat zero = unfold read_prefixed show_nat digits read digit in refl
read_prefixed-show_nat (suc n) =
    read_prefixed-Leads (show_nat (suc n))
      (unfold show_nat in digits-Leads (suc (suc n)) (suc n) (omega arith) (omega arith))
    ∙ read-show_nat (suc n)

stoull-read :
    (s t : Bytes) (minus : Bool) (n : ℕ)
    → sign (skip_spaces s) ≡ (minus, t)
    → read_prefixed t ≡ some n
    → stoull s ≡ in_uint64 minus n
unfolding stoull
stoull-read s t minus n e r = rw (e, stoull) (rw r (rw e))

-- `get<uint64_t>` of a stored number, written in decimal or behind "0x" in hexadecimal, gives that
-- number if it fits in 64 bits, and otherwise throws.
pub get_uint64-show_nat :
    (name : Bytes) (arguments : Arguments) (n : ℕ)
    → (get_string name arguments ≡ show_nat n)
      ⊎ (get_string name arguments ≡ text "0x" ++ show_hex n)
    → get_uint64 name arguments ≡ (if ltb n (2 ^ 64) then ok n else throws (text "stoull"))
unfolding get_uint64
get_uint64-show_nat name arguments n (inl e) =
    let (spaces, unsigned, full) = show_nat-Unsigned n in
    rw e (
      rw full (
        stoull-read (show_nat n) (show_nat n) false n (ap sign spaces ∙ unsigned)
          (read_prefixed-show_nat n)
        ∙ (unfold in_uint64 in refl)))
get_uint64-show_nat name arguments n (inr e) = rw e (
    stoull-read (text "0x" ++ show_hex n) (text "0x" ++ show_hex n) false n
      (unfold sign skip_spaces is_space in refl)
      (unfold read_prefixed in rw (read-show_hex n, read_prefixed))
    ∙ (unfold in_uint64 in refl))
