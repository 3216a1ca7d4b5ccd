-- ===== src/Debug/ReadBack.antt =====
-- The numbers of the printed tables are read back.
use mathlib.Core.Option
use p2pxineplugin.Base.{
  ℕ, suc, ◌<◌, ◌≡◌, ◌∙◌, refl, ap, ap₂, false, List, [], ◌∷◌, ◌++◌, Option, none, some, map, arith,
  length, take, drop, ◌==◌, if◌then◌else◌, ℤ, pos, negsuc, ltb_ℤ, ok, ◌>>=◌,
}
use p2pxineplugin.Chunk.{Chunk}
use p2pxineplugin.Grapes.{Grapes}
use p2pxineplugin.Output.{Session}
use p2pxineplugin.Plugin.Digits.{text_of, AllDigits}
use p2pxineplugin.Debug.{
  digits, decimal, chunks_title, print_chunk_buffer, slots_title, buffer_print,
}
use p2pxineplugin.Debug.Words.{
  words, Letters, words_from-Letters, number_of, number_of-decimal, decimal-Letters, text-AllDigits,
}
use p2pxineplugin.Debug.Tables.{
  table, print_chunks-table, print_slots-table, slot_word, decimal-full, words_from-table,
}

-- The numbers of a table of chunks.
map_number-decimal :
    (cs : List Chunk) → map number_of (map slot_word (map some cs)) ≡ map (λ c. c.id) cs
map_number-decimal [] = refl
map_number-decimal (c ∷ cs) = ap₂ ◌∷◌ (number_of-decimal c.id) (map_number-decimal cs)

-- The words behind the title that `network_print_chunkBuffer` prints are, read as decimal
-- numbers, those of the chunks in the chunk buffer, in its order.
pub print_chunk_buffer_read :
    (G : Grapes) (b : G.Buffer)
    → map number_of (drop 4 (words (print_chunk_buffer G b))) ≡ map (λ c. c.id) (G.cb_get_chunks b)
unfolding print_chunk_buffer
print_chunk_buffer_read G b =
    ap (λ t. map number_of (drop 4 (words (chunks_title ++ (t ++ 10 ∷ [])))))
      (print_chunks-table 0 (G.cb_get_chunks b))
    ∙ ap (λ ws. map number_of (drop 1 ws))
        (words_from-table b'b' (b'u' ∷ b'f' ∷ b'f' ∷ b'e' ∷ b'r' ∷ b':' ∷ [])
          (map some (G.cb_get_chunks b)))
    ∙ map_number-decimal (G.cb_get_chunks b)

-- What a word of the other table stands for.
abbrev pub slot_of : List ℕ → Option ℤ
slot_of (a ∷ b ∷ w) = if b == b'-' then none else some (number_of (a ∷ b ∷ w))
slot_of w = some (number_of w)

slot_of-digits : (cs : List ℕ) → AllDigits cs → slot_of cs ≡ some (number_of cs)
slot_of-digits [] h = refl
slot_of-digits (a ∷ []) h = refl
slot_of-digits (a ∷ b ∷ cs) (ha, (hb, h)) = ground (arith, hb)

slot_of-minus : (cs : List ℕ) → AllDigits cs → slot_of (b'-' ∷ cs) ≡ some (number_of (b'-' ∷ cs))
slot_of-minus [] h = refl
slot_of-minus (b ∷ cs) (hb, h) = ground (arith, hb)

slot_of-decimal : (z : ℤ) → slot_of (decimal z) ≡ some z
unfolding decimal
slot_of-decimal z = signed_slot z ∙ ap some (number_of-decimal z)
  where
    signed_slot : (z : ℤ) → slot_of (decimal z) ≡ some (number_of (decimal z))
    signed_slot (pos n) = slot_of-digits (text_of (digits n)) (text-AllDigits n)
    signed_slot (negsuc n) = slot_of-minus (text_of (digits (suc n))) (text-AllDigits (suc n))

map_slot-word :
    (slots : List (Option Chunk))
    → map slot_of (map slot_word slots) ≡ map (Option.map (λ c. c.id)) slots
map_slot-word [] = refl
map_slot-word (none ∷ slots) = ap (◌∷◌ none) (map_slot-word slots)
map_slot-word (some c ∷ slots) = ap₂ ◌∷◌ (slot_of-decimal c.id) (map_slot-word slots)

-- The words of a printed buffer behind its title.
words_from-line :
    (w : List ℕ) (slots : List (Option Chunk))
    → 0 < length w
    → Letters w
    → words (w ++ (table 0 slots ++ 10 ∷ [])) ≡ w ∷ map slot_word slots
words_from-line [] slots full h = elim full [ ]
words_from-line (c ∷ w) slots full h =
    words_from-Letters [] (c ∷ w) (table 0 slots ++ 10 ∷ []) h ∙ words_from-table c w slots

-- What is read from a printed buffer: the current number, and the number in each slot.
pub record ReadBack (current : ℤ) (slots : List (Option Chunk)) (text : List ℕ) : Type 0 where
  pub number : map number_of (take 1 (drop 3 (words text))) ≡ current ∷ []
  pub slot_numbers : map slot_of (drop 4 (words text)) ≡ map (Option.map (λ c. c.id)) slots

-- Where `firstChunk` is not negative and there is a buffer of the size that the context says,
-- `output_ffmpeg_buffer_print` reads within the buffer and prints a text from which the
-- current number, and for each slot the number of its chunk or that it is empty, are read back
-- in order.
pub buffer_print_read :
    (current : ℤ) (s : Session) (slots : List (Option Chunk))
    → ltb_ℤ s.first_chunk (pos 0) ≡ false
    → s.output_buffer ≡ some slots
    → length slots ≡ s.output_buffer_size
    → (text : List ℕ) × (buffer_print current s ≡ ok text) × ReadBack current slots text
unfolding buffer_print
buffer_print_read current s slots seen e len = (
  slots_title ++ (decimal current ++ (table 0 slots ++ 10 ∷ [])),
  rw seen (
      ap (λ o. o >>= λ t. ok (slots_title ++ (decimal current ++ (t ++ 10 ∷ []))))
        (print_slots-table s.output_buffer_size 0 s slots slots e refl len)),
  record {
    number =
        ap (λ ws. map number_of (take 1 ws)) line ∙ ap (λ z. z ∷ []) (number_of-decimal current);
    slot_numbers = ap (λ ws. map slot_of (drop 1 ws)) line ∙ map_slot-word slots;
  },
)
  where
    line :
        words (decimal current ++ (table 0 slots ++ 10 ∷ []))
        ≡ decimal current ∷ map slot_word slots
    line = words_from-line (decimal current) slots (decimal-full current) (decimal-Letters current)
