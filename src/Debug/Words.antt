-- ===== src/Debug/Words.antt =====
-- A reader of printed tables: the words of a text, and the number that a word stands for.
use p2pxineplugin.Base.{
  ℕ, zero, suc, ◌/◌, ◌<◌, ◌≡◌, ◌∙◌, refl, sym, ap, Bool, true, false, ◌&&◌, ◌||◌, Bool-cases, inl,
  inr, List, [], ◌∷◌, ◌++◌, append-nil, append_assoc, All, arith, ◌==◌, leb, if◌then◌else◌, ℤ, pos,
  negsuc, ◌-ℤ◌,
}
use p2pxineplugin.Plugin.Mrl.{is_digit, scan_digits}
use p2pxineplugin.Plugin.Digits.{
  value_of, text_of, AllDigits, text_of-AllDigits, scan_digits-text_of,
}
use p2pxineplugin.Debug.{digits_from, digits, decimal}

abbrev pub is_space : ℕ → Bool
is_space c = (c == 32) || (leb 9 c && leb c 13)

-- A word that is complete.
abbrev done : List ℕ → List (List ℕ)
done [] = []
done (c ∷ w) = (c ∷ w) ∷ []

-- The words of a text behind the letters `w` of a word.
abbrev pub words_from : List ℕ → List ℕ → List (List ℕ)
words_from w [] = done w
words_from w (c ∷ cs) =
    (if is_space c then done w else []) ++ words_from (if is_space c then [] else w ++ c ∷ []) cs

abbrev pub words : List ℕ → List (List ℕ)
words cs = words_from [] cs

abbrev pub Letters : List ℕ → Type 0
Letters cs = All (λ c. is_space c ≡ false) cs

pub words_from-Letters :
    (w cs rest : List ℕ) → Letters cs → words_from w (cs ++ rest) ≡ words_from (w ++ cs) rest
words_from-Letters w [] rest h = ap (λ v. words_from v rest) (sym (append-nil w))
words_from-Letters w (c ∷ cs) rest (hc, h) = rw hc (
    words_from-Letters (w ++ c ∷ []) cs rest h
    ∙ ap (λ v. words_from v rest) (append_assoc w (c ∷ []) cs))

-- A number as a word stands for it.
abbrev pub number_of : List ℕ → ℤ
number_of [] = pos 0
number_of (c ∷ cs) =
    if c == b'-' then pos 0 -ℤ pos (scan_digits 0 cs) else pos (scan_digits 0 (c ∷ cs))

digits_from-small : (fuel n : ℕ) → All (λ d. d < 10) (digits_from fuel n)
digits_from-small zero n = tt
digits_from-small (suc fuel) n = elim (Bool-cases (n / 10 == 0)) [
  | inl last ↦ rw last (omega arith, tt)
  | inr more ↦ rw more (omega arith, digits_from-small fuel (n / 10))
]

value_of-digits_from : (fuel n : ℕ) → n < fuel → value_of (digits_from fuel n) ≡ n
value_of-digits_from zero n h = elim h [ ]
value_of-digits_from (suc fuel) n h = elim (Bool-cases (n / 10 == 0)) [
  | inl last ↦ rw last (ground (arith, last))
  | inr more ↦
      let ih = value_of-digits_from fuel (n / 10) (ground (arith, h, more)) in
      rw more (omega (arith, ih))
]

pub text-AllDigits : (n : ℕ) → AllDigits (text_of (digits n))
text-AllDigits n = text_of-AllDigits (digits n) (digits_from-small (suc n) n)

pub scan_digits-text : (n : ℕ) → scan_digits 0 (text_of (digits n)) ≡ n
scan_digits-text n =
    scan_digits-text_of (digits n) (digits_from-small (suc n) n)
    ∙ value_of-digits_from (suc n) n (omega arith)

number_of-digits : (cs : List ℕ) → AllDigits cs → number_of cs ≡ pos (scan_digits 0 cs)
unfolding scan_digits
number_of-digits [] h = refl
number_of-digits (c ∷ cs) (hc, h) = ground (arith, hc)

-- What `%d` prints is read back.
pub number_of-decimal : (z : ℤ) → number_of (decimal z) ≡ z
unfolding decimal
number_of-decimal (pos n) =
    number_of-digits (text_of (digits n)) (text-AllDigits n) ∙ ap pos (scan_digits-text n)
number_of-decimal (negsuc n) = rw (scan_digits-text (suc n)) (ground arith)

letter_of_digit : (c : ℕ) → is_digit c ≡ true → is_space c ≡ false
letter_of_digit c h = ground arith

Letters-of_digits : (cs : List ℕ) → AllDigits cs → Letters cs
Letters-of_digits [] h = tt
Letters-of_digits (c ∷ cs) (hc, h) = (letter_of_digit c hc, Letters-of_digits cs h)

pub decimal-Letters : (z : ℤ) → Letters (decimal z)
unfolding decimal
decimal-Letters (pos n) = Letters-of_digits (text_of (digits n)) (text-AllDigits n)
decimal-Letters (negsuc n) =
    (refl, Letters-of_digits (text_of (digits (suc n))) (text-AllDigits (suc n)))
