-- ===== src/Prelude/Decimal.antt =====
-- Numbers as text: `std::to_string` and `<<`.
use Prim.Native.Nat.{ℕ, zero, suc, ◌+◌, ◌-◌, ◌/◌, ◌%◌}
use mathlib.Core.List.{[], ◌∷◌, ◌++◌}
use vtb.Prelude.Tests.{ltb, if◌then◌else◌}
use vtb.Prelude.Int.{ℤ, pos, negsuc}
use vtb.Prelude.Text.{Bytes}

abbrev pub digit_char : ℕ → ℕ
digit_char d = if ltb d 10 then b'0' + d else b'a' + (d - 10)

-- The first argument bounds the number of digits.
unfoldable pub digits : ℕ → ℕ → ℕ → Bytes
digits zero base n = []
digits (suc fuel) base n =
    let rest = digits fuel base (n / base) in
    if ltb n base then digit_char n ∷ [] else rest ++ (digit_char (n % base) ∷ [])

unfoldable pub show_nat : ℕ → Bytes
unfolding digits
show_nat n = digits (suc n) 10 n

unfoldable pub show_hex : ℕ → Bytes
unfolding digits
show_hex n = digits (suc n) 16 n

unfoldable pub show_int : ℤ → Bytes
unfolding show_nat
show_int (pos n) = show_nat n
show_int (negsuc n) = b'-' ∷ show_nat (suc n)
