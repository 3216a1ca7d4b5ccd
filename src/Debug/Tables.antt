-- ===== src/Debug/Tables.antt =====
-- The printed tables, and their words.
use p2pxineplugin.Base.{
  ℕ, zero, suc, ◌+◌, ◌-◌, ◌%◌, ◌<◌, ◌≡◌, ◌∙◌, refl, ap, subst, Bool-cases, inl, inr, List, [], ◌∷◌,
  ◌++◌, append-nil, append_assoc, Option, none, some, map, arith, length, length-append, replicate,
  drop, drop_tail, get_elem?, ◌==◌, ℤ, pos, negsuc, ok, ◌>>=◌,
}
use p2pxineplugin.Chunk.{Chunk}
use p2pxineplugin.Output.{Session, slot_at}
use p2pxineplugin.Plugin.Digits.{text_of}
use p2pxineplugin.Debug.{digits, decimal, cell, row_break, print_chunks, slot_cell, print_slots}
use p2pxineplugin.Debug.Words.{words_from, words, Letters, words_from-Letters, decimal-Letters}

-- The rows of a table of slots, from the number `i` on.
abbrev pub table : ℕ → List (Option Chunk) → List ℕ
table i [] = []
table i (slot ∷ slots) = row_break i ++ (slot_cell slot ++ table (i + 1) slots)

pub print_chunks-table : (i : ℕ) (cs : List Chunk) → print_chunks i cs ≡ table i (map some cs)
unfolding print_chunks
print_chunks-table i [] = refl
print_chunks-table i (c ∷ cs) =
    ap (λ t. row_break i ++ (cell c.id ++ t)) (print_chunks-table (i + 1) cs)

slot_at_lem :
    (s : Session) (i : ℕ) {slots : List (Option Chunk)} {slot : Option Chunk}
    → s.output_buffer ≡ some slots
    → get_elem? slots i ≡ some slot
    → slot_at s i ≡ ok slot
unfolding slot_at
slot_at_lem s i e at = rw (e, at) refl

pub print_slots-table :
    (rounds i : ℕ) (s : Session) (slots rest : List (Option Chunk))
    → s.output_buffer ≡ some slots
    → drop i slots ≡ rest
    → length rest ≡ rounds
    → print_slots rounds i s ≡ ok (table i rest)
unfolding print_slots
print_slots-table zero i s slots [] e d l = refl
print_slots-table zero i s slots (x ∷ rest) e d l = absurd (omega (arith, l))
print_slots-table (suc rounds) i s slots [] e d l = absurd (omega (arith, l))
print_slots-table (suc rounds) i s slots (slot ∷ rest) e d l =
    let (at, tail) = drop_tail i slots d in
    let count : suc i ≡ i + 1 = omega arith in
    let next : drop (i + 1) slots ≡ rest = subst (λ n. drop n slots ≡ rest) count tail in
    let ih = print_slots-table rounds (i + 1) s slots rest e next (omega (arith, l)) in
    ap
      (λ o. o >>= λ x. print_slots rounds (i + 1) s >>= λ t. ok (row_break i ++ (slot_cell x ++ t)))
      (slot_at_lem s i e at)
    ∙ ap (λ o. o >>= λ t. ok (row_break i ++ (slot_cell slot ++ t))) ih

-- The words of a table.
abbrev pub slot_word : Option Chunk → List ℕ
slot_word none = b'-' ∷ b'-' ∷ b'-' ∷ b'-' ∷ b'-' ∷ []
slot_word (some c) = decimal c.id

words-word :
    (w rest : List ℕ) → Letters w → 0 < length w → words (w ++ b' ' ∷ rest) ≡ w ∷ words rest
words-word [] rest h full = elim full [ ]
words-word (c ∷ w) rest h full = words_from-Letters [] (c ∷ w) (b' ' ∷ rest) h

words-blanks : (k : ℕ) (rest : List ℕ) → words (replicate k b' ' ++ rest) ≡ words rest
words-blanks zero rest = refl
words-blanks (suc k) rest = words-blanks k rest

words-row_break : (i : ℕ) (rest : List ℕ) → words (row_break i ++ rest) ≡ words rest
words-row_break i rest = elim (Bool-cases (i % 10 == 0)) [
  | inl row ↦ rw row refl
  | inr same ↦ rw same refl
]

text-full : (n : ℕ) → 0 < length (text_of (digits n))
text-full n = omega (arith, length-append {0} {A = ℕ})

pub decimal-full : (z : ℤ) → 0 < length (decimal z)
unfolding decimal
decimal-full (pos n) = text-full n
decimal-full (negsuc n) = omega arith

words-cell : (z : ℤ) (rest : List ℕ) → words (cell z ++ rest) ≡ decimal z ∷ words rest
words-cell z rest =
    ap words (append_assoc (replicate (5 - length (decimal z)) b' ') (decimal z ++ b' ' ∷ []) rest)
    ∙ words-blanks (5 - length (decimal z)) ((decimal z ++ b' ' ∷ []) ++ rest)
    ∙ ap words (append_assoc (decimal z) (b' ' ∷ []) rest)
    ∙ words-word (decimal z) rest (decimal-Letters z) (decimal-full z)

words-slot_cell :
    (slot : Option Chunk) (rest : List ℕ)
    → words (slot_cell slot ++ rest) ≡ slot_word slot ∷ words rest
words-slot_cell none rest = refl
words-slot_cell (some c) rest = words-cell c.id rest

words-table :
    (i : ℕ) (slots : List (Option Chunk)) (rest : List ℕ)
    → words (table i slots ++ rest) ≡ map slot_word slots ++ words rest
words-table i [] rest = refl
words-table i (slot ∷ slots) rest =
    ap words (append_assoc (row_break i) (slot_cell slot ++ table (i + 1) slots) rest)
    ∙ words-row_break i ((slot_cell slot ++ table (i + 1) slots) ++ rest)
    ∙ ap words (append_assoc (slot_cell slot) (table (i + 1) slots) rest)
    ∙ words-slot_cell slot (table (i + 1) slots ++ rest)
    ∙ ap (◌∷◌ (slot_word slot)) (words-table (i + 1) slots rest)

-- A table behind a word, up to the end of the line.
pub words_from-table :
    (c : ℕ) (w : List ℕ) (slots : List (Option Chunk))
    → words_from (c ∷ w) (table 0 slots ++ 10 ∷ []) ≡ (c ∷ w) ∷ map slot_word slots
words_from-table c w [] = refl
words_from-table c w (slot ∷ slots) =
    ap (◌∷◌ (c ∷ w))
      (words-table 0 (slot ∷ slots) (10 ∷ []) ∙ append-nil (map slot_word (slot ∷ slots)))
