-- ===== src/Cmdline/Values/Digits.antt =====
-- The digits that `<<` and `std::to_string` write, as the readers of src/cmdline_parser.cpp see
-- them.
use native.Mathlib.Decide.{dec_lt}
use native.Mathlib.Nat.{div-add-mod', div-lt_self, mod-lt}
use vtb.Prelude.{
  ℕ, zero, suc, ◌+◌, ◌*◌, ◌/◌, ◌%◌, ◌<◌, ◌≤◌, ◌≡◌, ◌≢◌, refl, ◌∙◌, ap, [], ◌∷◌, ◌++◌, some, lt→ltb,
  le→ltb, arith, All, Bytes, digits, digit_char,
}
use vtb.Cmdline.Values.{digit, read_more, read}

abbrev pub IsDigit : ℕ → ℕ → Type 0
IsDigit base c = digit c < base

-- The number that digits stand for, behind those that were read before.
pub number : ℕ → ℕ → Bytes → ℕ
number base acc [] = acc
number base acc (c ∷ s) = number base (acc * base + digit c) s

pub read_more-number :
    (base acc : ℕ) (s : Bytes) → All (IsDigit base) s → read_more base acc s ≡ number base acc s
unfolding read_more number
read_more-number base acc [] h = refl
read_more-number base acc (c ∷ s) h =
    rw (lt→ltb (digit c) base h.0) (read_more-number base (acc * base + digit c) s h.1)

-- A number is read as far as its digits go.
pub read-number :
    (base : ℕ) (s : Bytes) → s ≢ [] → All (IsDigit base) s → read base s ≡ some (number base 0 s)
unfolding read number
read-number base [] d h = absurd (d refl)
read-number base (c ∷ s) d h =
    rw (lt→ltb (digit c) base h.0)
      (ap some (read_more-number base (digit c) s h.1 ∙ ap (λ a. number base a s) (omega arith)))

number-append :
    (base acc : ℕ) (s t : Bytes) → number base acc (s ++ t) ≡ number base (number base acc s) t
unfolding number
number-append base acc [] t = refl
number-append base acc (c ∷ s) t = number-append base (acc * base + digit c) s t

All-append :
    (base : ℕ) (s t : Bytes)
    → All (IsDigit base) s
    → All (IsDigit base) t
    → All (IsDigit base) (s ++ t)
All-append base [] t h k = k
All-append base (c ∷ s) t h k = (h.0, All-append base s t h.1 k)

digit-digit_char : (d : ℕ) → d < 36 → digit (digit_char d) ≡ d
unfolding digit
digit-digit_char d h = ground arith

pub decimal_bounds : (c : ℕ) → IsDigit 10 c → (b'0' ≤ c) × (c ≤ b'9')
unfolding digit
decimal_bounds c h = ground arith

module _ (base : ℕ) (two : 2 ≤ base) (few : base ≤ 36) where
  last_digit : (n : ℕ) → digit (digit_char (n % base)) ≡ n % base
  last_digit n = digit-digit_char (n % base) (omega (arith, mod-lt n {m = base} (omega arith)))

  pub digits-IsDigit : (fuel n : ℕ) → All (IsDigit base) (digits fuel base n)
  unfolding digits
  digits-IsDigit zero n = tt
  digits-IsDigit (suc fuel) n = elim (dec_lt n base) [
    | yes h ↦ rw (lt→ltb n base h) (omega (arith, digit-digit_char n (omega arith)), tt)
    | no h ↦ rw (le→ltb n base (omega arith)) (
        All-append base (digits fuel base (n / base)) (digit_char (n % base) ∷ [])
          (digits-IsDigit fuel (n / base))
          (omega (arith, last_digit n, mod-lt n {m = base} (omega arith)), tt))
  ]

  pub number-digits : (fuel n : ℕ) → n < fuel → number base 0 (digits fuel base n) ≡ n
  unfolding digits number
  number-digits zero n h = absurd (omega arith)
  number-digits (suc fuel) n h = elim (dec_lt n base) [
    | yes k ↦ rw (lt→ltb n base k) (omega (arith, digit-digit_char n (omega arith)))
    | no k ↦ rw (le→ltb n base (omega arith)) (
        number-append base 0 (digits fuel base (n / base)) (digit_char (n % base) ∷ [])
        ∙ omega (
          arith,
          ap (λ (v : ℕ). v * base)
              (number-digits fuel (n / base)
                (omega (arith, div-lt_self {n = n} {k = base} (omega arith) (omega arith)))),
          last_digit n,
          div-add-mod' n base,
        ))
  ]

-- The first digit of a number that is not 0 is not 0.
abbrev pub Leads : Bytes → Type 0
Leads [] = ⊥
Leads (c ∷ s) = c ≢ b'0'

Leads-append : (s t : Bytes) → Leads s → Leads (s ++ t)
Leads-append [] t h = absurd h
Leads-append (c ∷ s) t h = h

pub digits-Leads : (fuel n : ℕ) → 0 < n → n < fuel → Leads (digits fuel 10 n)
unfolding digits
digits-Leads zero n p h = absurd (omega arith)
digits-Leads (suc fuel) n p h = elim (dec_lt n 10) [
  | yes k ↦ rw (lt→ltb n 10 k) (λ e. ground arith)
  | no k ↦ rw (le→ltb n 10 (omega arith)) (
      Leads-append (digits fuel 10 (n / 10)) _
        (digits-Leads fuel (n / 10) (omega arith) (omega arith)))
]
