-- ===== src/Plugin/Digits.antt =====
-- The decimal number that `atoi` reads for the port of an MRL (input_p2p.c).
use p2pxineplugin.Base.{
  ℕ, ◌+◌, ◌-◌, ◌*◌, ◌<◌, ◌≡◌, ◌∙◌, refl, ap, true, List, [], ◌∷◌, ◌++◌, All, lt→ltb, arith, pos, ok,
}
use p2pxineplugin.Plugin.Mrl.{is_digit, scan_digits, in_int, signed, skip_space, atoi}

-- A number by its decimal digits, the last one first, and its text.
abbrev pub value_of : List ℕ → ℕ
value_of [] = 0
value_of (d ∷ ds) = d + 10 * value_of ds

abbrev pub text_of : List ℕ → List ℕ
text_of [] = []
text_of (d ∷ ds) = text_of ds ++ (48 + d) ∷ []

abbrev pub AllDigits : List ℕ → Type 0
AllDigits cs = All (λ c. is_digit c ≡ true) cs

scan_digits-append :
    (v : ℕ) (cs : List ℕ) (c : ℕ)
    → AllDigits cs
    → is_digit c ≡ true
    → scan_digits v (cs ++ c ∷ []) ≡ scan_digits v cs * 10 + (c - 48)
unfolding scan_digits
scan_digits-append v [] c h hc = ground arith
scan_digits-append v (x ∷ cs) c (hx, h) hc =
    ground (arith, scan_digits-append (v * 10 + (x - 48)) cs c h hc)

All-append : (cs : List ℕ) (c : ℕ) → AllDigits cs → is_digit c ≡ true → AllDigits (cs ++ c ∷ [])
All-append [] c h hc = (hc, tt)
All-append (x ∷ cs) c (hx, h) hc = (hx, All-append cs c h hc)

digit_char : (d : ℕ) → d < 10 → is_digit (48 + d) ≡ true
digit_char d h = ground arith

pub text_of-AllDigits : (ds : List ℕ) → All (λ d. d < 10) ds → AllDigits (text_of ds)
text_of-AllDigits [] h = tt
text_of-AllDigits (d ∷ ds) (hd, h) =
    All-append (text_of ds) (48 + d) (text_of-AllDigits ds h) (digit_char d hd)

pub scan_digits-text_of :
    (ds : List ℕ) → All (λ d. d < 10) ds → scan_digits 0 (text_of ds) ≡ value_of ds
unfolding scan_digits
scan_digits-text_of [] h = refl
scan_digits-text_of (d ∷ ds) (hd, h) =
    let e = scan_digits-append 0 (text_of ds) (48 + d) (text_of-AllDigits ds h) (digit_char d hd) in
    let rest = scan_digits-text_of ds h in omega (arith, e, rest)

-- A string of digits has no white space and no sign.
signed_digits : (cs : List ℕ) → AllDigits cs → signed (skip_space cs) ≡ pos (scan_digits 0 cs)
unfolding signed skip_space scan_digits
signed_digits [] h = refl
signed_digits (c ∷ cs) (hc, h) = ground (arith, hc)

pub atoi-text_of :
    (ds : List ℕ)
    → All (λ d. d < 10) ds
    → value_of ds < 2147483648
    → atoi (text_of ds) ≡ ok (pos (value_of ds))
unfolding atoi in_int
atoi-text_of ds h small =
    ap in_int
      (signed_digits (text_of ds) (text_of-AllDigits ds h) ∙ ap pos (scan_digits-text_of ds h))
    ∙ ground (arith, lt→ltb (value_of ds) 2147483648 small)
