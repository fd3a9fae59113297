-- ===== src/Cmdline/Values.antt =====
-- The `get<T>` of CmdlineParser, with `std::stoi` and `std::stoull` as the standard defines them.
pub mod Defined
pub mod Digits
pub mod Numbers
use vtb.Prelude.{
  ℕ, suc, ◌+◌, ◌-◌, ◌*◌, ◌^◌, ◌≡◌, Bool, true, false, not, ◌&&◌, ◌||◌, Option, none, some, List, [],
  ◌∷◌, ◌==◌, nat_eq, bytes_eq, if◌then◌else◌, leb, ltb, Bytes, text, ℤ, pos, negsuc, Result, ok,
  throws, ◌>>=◌,
}
use vtb.Cmdline.{CmdlineArgumentFormat, Arguments, names, empty}

-- `get<std::string>`
unfoldable pub get_string : Bytes → Arguments → Bytes
get_string name [] = []
get_string name (arg ∷ arguments) = if names arg name then arg.value else get_string name arguments

is_space : ℕ → Bool
is_space c = c == 32 || (leb 9 c && leb c 13)

skip_spaces : Bytes → Bytes
skip_spaces [] = []
skip_spaces (c ∷ s) = if is_space c then skip_spaces s else c ∷ s

-- The value of a digit in a base up to 36; anything else is out of every base.
pub digit : ℕ → ℕ
digit c =
    if leb b'0' c && leb c b'9'
    then c - b'0'
    else if leb b'a' c && leb c b'z'
    then c - b'a' + 10
    else if leb b'A' c && leb c b'Z'
    then c - b'A' + 10
    else 36

pub read_more : ℕ → ℕ → Bytes → ℕ
unfolding digit
read_more base acc [] = acc
read_more base acc (c ∷ s) =
    if ltb (digit c) base then read_more base (acc * base + digit c) s else acc

-- The number that the text begins with, if it begins with a digit.
pub read : ℕ → Bytes → Option ℕ
unfolding read_more
read base [] = none
read base (c ∷ s) = if ltb (digit c) base then some (read_more base (digit c) s) else none

-- Whether there is a minus sign, and what follows the sign.
sign : Bytes → Bool × Bytes
sign [] = (false, [])
sign (c ∷ s) = if c == b'-' then (true, s) else if c == b'+' then (false, s) else (false, c ∷ s)

negate : ℕ → ℤ
negate n = if n == 0 then pos 0 else negsuc (n - 1)

in_int : Bool → ℕ → Result ℤ
unfolding negate
in_int true n = if leb n (2 ^ 31) then ok (negate n) else throws (text "stoi")
in_int false n = if ltb n (2 ^ 31) then ok (pos n) else throws (text "stoi")

unfoldable pub stoi : Bytes → Result ℤ
unfolding in_int sign read skip_spaces is_space
stoi s =
    let (minus, digits) = sign (skip_spaces s) in
    elim (read 10 digits) [ none ↦ throws (text "stoi") | some n ↦ in_int minus n ]

-- Base 0: the text's prefix tells the base. "0x" with no digit behind it reads as 0.
read_prefixed : Bytes → Option ℕ
unfolding read
read_prefixed [] = none
read_prefixed (c ∷ []) = read 10 (c ∷ [])
read_prefixed (c ∷ x ∷ s) =
    if c == b'0'
    then (if x == b'x' || x == b'X'
        then elim (read 16 s) [ none ↦ some 0 | some n ↦ some n ]
        else read 8 (c ∷ x ∷ s))
    else read 10 (c ∷ x ∷ s)

-- A minus sign negates in `unsigned long long`.
in_uint64 : Bool → ℕ → Result ℕ
in_uint64 minus n =
    if ltb n (2 ^ 64)
    then ok (if minus && not (n == 0) then 2 ^ 64 - n else n)
    else throws (text "stoull")

unfoldable pub stoull : Bytes → Result ℕ
unfolding in_uint64 sign read_prefixed skip_spaces is_space
stoull s =
    let (minus, digits) = sign (skip_spaces s) in
    elim (read_prefixed digits) [ none ↦ throws (text "stoull") | some n ↦ in_uint64 minus n ]

-- `get<int>`
unfoldable pub get_int : Bytes → Arguments → Result ℤ
unfolding get_string stoi
get_int name arguments = let s = get_string name arguments in if empty s then ok (pos 0) else stoi s

-- `get<uint64_t>`
unfoldable pub get_uint64 : Bytes → Arguments → Result ℕ
unfolding get_string stoull
get_uint64 name arguments = let s = get_string name arguments in if empty s then ok 0 else stoull s

abbrev pub is_true : Bytes → Bool
is_true s =
    s == text "true"
    || (s == text "1" || (s == text "yes" || (s == text "-h" || s == text "--help")))

-- `get<bool>`
unfoldable pub get_bool : Bytes → Arguments → Bool
unfolding get_string
get_bool name arguments = is_true (get_string name arguments)
