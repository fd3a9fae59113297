-- ===== src/Handler/Names.antt =====
-- The names of the pools and rings of different queues are different.
use vtb.Prelude.{
  ℕ, suc, ◌≡◌, ◌≢◌, refl, sym, ◌∙◌, ap, [], ◌∷◌, ◌++◌, arith, All, ℤ, pos, negsuc, Bytes, show_nat,
  show_int,
}
use vtb.Cmdline.Values.Digits.{IsDigit, number, digits-IsDigit, number-digits, decimal_bounds}
use vtb.Handler.{resource_name}

show_nat-injective : (m n : ℕ) → show_nat m ≡ show_nat n → m ≡ n
unfolding show_nat
show_nat-injective m n h =
    sym (number-digits 10 (omega arith) (omega arith) (suc m) m (omega arith))
    ∙ ap (number 10 0) h
    ∙ number-digits 10 (omega arith) (omega arith) (suc n) n (omega arith)

show_nat-IsDigit : (n : ℕ) → All (IsDigit 10) (show_nat n)
unfolding show_nat
show_nat-IsDigit n = digits-IsDigit 10 (omega arith) (omega arith) (suc n) n

not_sign : (s t : Bytes) → All (IsDigit 10) s → s ≢ b'-' ∷ t
not_sign [] t h e = cc
not_sign (c ∷ s) t h e = let k = decimal_bounds c h.0 in ground arith

uncons : (a : ℕ) (s t : Bytes) → a ∷ s ≡ a ∷ t → s ≡ t
uncons a s t h = cc

show_int-injective : (a b : ℤ) → show_int a ≡ show_int b → a ≡ b
unfolding show_int
show_int-injective (pos m) (pos n) h = ap pos (show_nat-injective m n h)
show_int-injective (pos m) (negsuc n) h =
    absurd (not_sign (show_nat m) (show_nat (suc n)) (show_nat-IsDigit m) h)
show_int-injective (negsuc m) (pos n) h =
    absurd (not_sign (show_nat n) (show_nat (suc m)) (show_nat-IsDigit n) (sym h))
show_int-injective (negsuc m) (negsuc n) h =
    let e = show_nat-injective (suc m) (suc n) (uncons b'-' _ _ h) in ground arith

-- No underscore.
abbrev IsPlain : ℕ → Type 0
IsPlain c = c ≢ b'_'

digits-IsPlain : (s : Bytes) → All (IsDigit 10) s → All IsPlain s
digits-IsPlain [] h = tt
digits-IsPlain (c ∷ s) h = (omega (arith, decimal_bounds c h.0), digits-IsPlain s h.1)

show_int-IsPlain : (a : ℤ) → All IsPlain (show_int a)
unfolding show_int
show_int-IsPlain (pos n) = digits-IsPlain (show_nat n) (show_nat-IsDigit n)
show_int-IsPlain (negsuc n) =
    (omega arith, digits-IsPlain (show_nat (suc n)) (show_nat-IsDigit (suc n)))

-- Texts with no underscore are told apart at the first one.
split_underscore :
    (s s' t t' : Bytes)
    → All IsPlain s
    → All IsPlain s'
    → s ++ (b'_' ∷ t) ≡ s' ++ (b'_' ∷ t')
    → (s ≡ s') × (t ≡ t')
split_underscore [] [] t t' h h' e = (refl, uncons b'_' t t' e)
split_underscore [] (c ∷ s') t t' h h' e = absurd (h'.0 (ground arith))
split_underscore (c ∷ s) [] t t' h h' e = absurd (h.0 (ground arith))
split_underscore (c ∷ s) (d ∷ s') t t' h h' e = ground (arith, split_underscore s s' t t' h.1 h'.1)

append_cancel : (p s t : Bytes) → p ++ s ≡ p ++ t → s ≡ t
append_cancel [] s t h = h
append_cancel (c ∷ p) s t h = append_cancel p s t (uncons c (p ++ s) (p ++ t) h)

-- Names with the same prefix are the same only for the same device and the same queue.
pub resource_name-injective :
    (prefix : Bytes) (vid vid' qid qid' : ℤ)
    → resource_name prefix vid qid ≡ resource_name prefix vid' qid'
    → (vid ≡ vid') × (qid ≡ qid')
unfolding resource_name
resource_name-injective prefix vid vid' qid qid' h =
    let (v, q) =
      split_underscore (show_int vid) (show_int vid') (show_int qid) (show_int qid')
        (show_int-IsPlain vid) (show_int-IsPlain vid') (append_cancel prefix _ _ h) in
    (show_int-injective vid vid' v, show_int-injective qid qid' q)
