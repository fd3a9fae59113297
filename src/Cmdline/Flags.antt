-- ===== src/Cmdline/Flags.antt =====
-- Options with no value behind them, and the values that `parse` can store at all.
use vtb.Prelude.{
  ◌≡◌, refl, true, ◌&&◌, none, some, List, [], ◌∷◌, nat_eq, bytes_eq, Bytes, arith, All, inl, inr,
  Bool-cases, Option-cases,
}
use vtb.Prelude.Effects.{Exec, done, raised, lost, M, bind}
use vtb.Cmdline.{
  CmdlineArgumentFormat, Arguments, names, dashed, empty, app_options, tail, take_value,
  match_token, process, validate, parse, first, later, check_required,
}
use vtb.Cmdline.Values.{get_string}

-- The table, whether the call returned or threw, has this property; the call is never undefined.
abbrev pub Leaves : (Arguments → Type 0) → Exec Arguments (Unit {0}) → Type 0
Leaves P (done x arguments) = P arguments
Leaves P (raised e arguments) = P arguments
Leaves P lost = ⊥

-- Only `found` may differ.
abbrev pub SameButFound : Arguments → Arguments → Type 0
SameButFound [] [] = Unit {0}
SameButFound [] (b ∷ ys) = ⊥
SameButFound (a ∷ xs) [] = ⊥
SameButFound (a ∷ xs) (b ∷ ys) = (b ≡ record a { found = b.found }) × SameButFound xs ys

SameButFound-refl : (xs : Arguments) → SameButFound xs xs
SameButFound-refl [] = tt
SameButFound-refl (a ∷ xs) = (refl, SameButFound-refl xs)

SameButFound-trans :
    (xs ys zs : Arguments) → SameButFound xs ys → SameButFound ys zs → SameButFound xs zs
SameButFound-trans [] [] [] h k = tt
SameButFound-trans [] [] (c ∷ zs) h k = k
SameButFound-trans [] (b ∷ ys) zs h k = absurd h
SameButFound-trans (a ∷ xs) [] zs h k = absurd h
SameButFound-trans (a ∷ xs) (b ∷ ys) [] h k = k
SameButFound-trans (a ∷ xs) (b ∷ ys) (c ∷ zs) h k =
    (ground arith, SameButFound-trans xs ys zs h.1 k.1)

get_string-SameButFound :
    (name : Bytes) (xs ys : Arguments)
    → SameButFound xs ys
    → get_string name ys ≡ get_string name xs
unfolding get_string
get_string-SameButFound name [] [] h = refl
get_string-SameButFound name [] (b ∷ ys) h = absurd h
get_string-SameButFound name (a ∷ xs) [] h = absurd h
get_string-SameButFound name (a ∷ xs) (b ∷ ys) h =
    rw h.0 (rw (get_string-SameButFound name xs ys h.1))

-- An argument that was looked at with no value behind it keeps all but `found`.
take_value-none :
    (token : Bytes) (arg : CmdlineArgumentFormat) (arguments : Arguments)
    → Leaves (SameButFound (arg ∷ arguments)) (first (take_value token none arg) arguments)
unfolding take_value
take_value-none token arg arguments = elim (Bool-cases (arg.required && empty arg.value)) [
  | inl refused ↦ rw refused (refl, SameButFound-refl arguments)
  | inr taken ↦ rw taken (refl, SameButFound-refl arguments)
]

Leaves-later :
    (arg : CmdlineArgumentFormat) (arguments : Arguments) (r : Exec Arguments (Unit {0}))
    → Leaves (SameButFound arguments) r
    → Leaves (SameButFound (arg ∷ arguments)) (later arg r)
Leaves-later arg arguments (done x after) h = (refl, h)
Leaves-later arg arguments (raised e after) h = (refl, h)
Leaves-later arg arguments lost h = h

match_token-SameButFound :
    (token : Bytes) (arguments : Arguments)
    → Leaves (SameButFound arguments) (match_token token none arguments)
unfolding match_token
match_token-SameButFound token [] = tt
match_token-SameButFound token (arg ∷ arguments) = elim (Bool-cases (names arg token)) [
  | inl here ↦ rw here (take_value-none token arg arguments)
  | inr past ↦ rw past (
      Leaves-later arg arguments (match_token token none arguments)
        (match_token-SameButFound token arguments))
]

Leaves-bind :
    (arguments : Arguments) (r : Exec Arguments (Unit {0})) (k : M Arguments (Unit {0}))
    → Leaves (SameButFound arguments) r
    → ((mid : Arguments) → Leaves (SameButFound mid) (k mid))
    → Leaves (SameButFound arguments) (bind r (λ _. k))
Leaves-bind arguments (done x mid) k h g = go (k mid) (g mid)
  where
    go :
        (r : Exec Arguments (Unit {0}))
        → Leaves (SameButFound mid) r
        → Leaves (SameButFound arguments) r
    go (done y after) l = SameButFound-trans arguments mid after h l
    go (raised e after) l = SameButFound-trans arguments mid after h l
    go lost l = l
Leaves-bind arguments (raised e mid) k h g = h
Leaves-bind arguments lost k h g = h

process-SameButFound :
    (argv : List Bytes) (arguments : Arguments)
    → All (λ token. dashed token ≡ true) argv
    → Leaves (SameButFound arguments) (process argv arguments)
unfolding process
process-SameButFound [] arguments h = SameButFound-refl arguments
process-SameButFound (token ∷ []) arguments h = match_token-SameButFound token arguments
process-SameButFound (token ∷ next ∷ argv) arguments h = rw h.1.0 (
    Leaves-bind arguments (match_token token none arguments) (process (next ∷ argv))
      (match_token-SameButFound token arguments)
      (λ mid. process-SameButFound (next ∷ argv) mid h.1))

validate-SameButFound :
    (arguments : Arguments) → Leaves (SameButFound arguments) (validate arguments)
unfolding validate
validate-SameButFound arguments = elim (Option-cases (check_required arguments)) [
  | inl e ↦ rw (e, validate) (SameButFound-refl arguments)
  | inr (m, e) ↦ rw (e, validate) (SameButFound-refl arguments)
]

-- If everything behind the separator looks like an option, then `parse` ends, with or without an
-- error, and has changed no member of an argument but `found`.
pub parse-SameButFound :
    (argv options : List Bytes) (arguments : Arguments)
    → app_options (tail argv) ≡ some options
    → All (λ token. dashed token ≡ true) options
    → Leaves (SameButFound arguments) (parse argv arguments)
unfolding parse
parse-SameButFound argv options arguments e h =
    rw (e, parse)
      (Leaves-bind arguments (process options arguments) validate
        (process-SameButFound options arguments h) validate-SameButFound)

-- So no name reads another value than before.
pub get_string-parse_flags :
    (argv options : List Bytes) (arguments : Arguments) (name : Bytes)
    → app_options (tail argv) ≡ some options
    → All (λ token. dashed token ≡ true) options
    → Leaves (λ after. get_string name after ≡ get_string name arguments) (parse argv arguments)
get_string-parse_flags argv options arguments name e h =
    go (parse argv arguments) (parse-SameButFound argv options arguments e h)
  where
    go :
        (r : Exec Arguments (Unit {0}))
        → Leaves (SameButFound arguments) r
        → Leaves (λ after. get_string name after ≡ get_string name arguments) r
    go (done x after) l = get_string-SameButFound name arguments after l
    go (raised m after) l = get_string-SameButFound name arguments after l
    go lost l = l
