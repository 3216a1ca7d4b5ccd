-- ===== src/Debug.antt =====
-- The tables that are printed for debugging: `network_print_chunkBuffer` (network.c) and
-- `output_ffmpeg_buffer_print` (output_ffmpeg.c), as the text that goes to the standard error.
pub mod Words
pub mod Tables
pub mod ReadBack
use p2pxineplugin.Base.{
  ℕ, zero, suc, ◌+◌, ◌-◌, ◌*◌, ◌/◌, ◌%◌, Bool, List, [], ◌∷◌, ◌++◌, Option, none, some, map, length,
  replicate, ◌==◌, if◌then◌else◌, ℤ, pos, negsuc, ltb_ℤ, Outcome, ok, ◌>>=◌,
}
use p2pxineplugin.Chunk.{Chunk}
use p2pxineplugin.Grapes.{Grapes}
use p2pxineplugin.Plugin.Digits.{text_of}
use p2pxineplugin.Output.{Session, slot_at}

-- The decimal digits of a number, the last one first. The number is enough fuel.
abbrev pub digits_from : ℕ → ℕ → List ℕ
digits_from zero n = []
digits_from (suc fuel) n =
    let rest = digits_from fuel (n / 10) in (n % 10) ∷ (if n / 10 == 0 then [] else rest)

abbrev pub digits : ℕ → List ℕ
digits n = digits_from (suc n) n

-- `%d`
unfoldable pub decimal : ℤ → List ℕ
decimal (pos n) = text_of (digits n)
decimal (negsuc n) = b'-' ∷ text_of (digits (suc n))

-- `%5d` and a space.
abbrev pub cell : ℤ → List ℕ
cell z = replicate (5 - length (decimal z)) b' ' ++ (decimal z ++ b' ' ∷ [])

-- A new row in front of every tenth cell.
abbrev pub row_break : ℕ → List ℕ
row_break i = if i % 10 == 0 then 10 ∷ 9 ∷ [] else []

-- The loop of `network_print_chunkBuffer`, from `i`.
unfoldable pub print_chunks : ℕ → List Chunk → List ℕ
print_chunks i [] = []
print_chunks i (c ∷ cs) = row_break i ++ (cell c.id ++ print_chunks (i + 1) cs)

-- `DEBUG: Chunks in buffer:`
abbrev pub chunks_title : List ℕ
chunks_title =
    b'D' ∷ b'E' ∷ b'B' ∷ b'U' ∷ b'G' ∷ b':' ∷ b' ' ∷ b'C' ∷ b'h' ∷ b'u' ∷ b'n' ∷ b'k' ∷ b's' ∷ b' '
    ∷ b'i' ∷ b'n' ∷ b' ' ∷ b'b' ∷ b'u' ∷ b'f' ∷ b'f' ∷ b'e' ∷ b'r' ∷ b':' ∷ []

-- `network_print_chunkBuffer`
unfoldable pub print_chunk_buffer : (G : Grapes) → G.Buffer → List ℕ
print_chunk_buffer G b = chunks_title ++ (print_chunks 0 (G.cb_get_chunks b) ++ 10 ∷ [])

-- `----- `
abbrev pub empty_cell : List ℕ
empty_cell = b'-' ∷ b'-' ∷ b'-' ∷ b'-' ∷ b'-' ∷ b' ' ∷ []

abbrev pub slot_cell : Option Chunk → List ℕ
slot_cell none = empty_cell
slot_cell (some c) = cell c.id

-- The loop of `output_ffmpeg_buffer_print`, from `i`.
unfoldable pub print_slots : ℕ → ℕ → Session → Outcome (List ℕ)
print_slots zero i s = ok []
print_slots (suc rounds) i s = slot_at s i >>= λ slot.
    print_slots rounds (i + 1) s >>= λ rest. ok (row_break i ++ (slot_cell slot ++ rest))

-- `DEBUG: outputBuffer: currentChunkId `
abbrev pub slots_title : List ℕ
slots_title =
    b'D' ∷ b'E' ∷ b'B' ∷ b'U' ∷ b'G' ∷ b':' ∷ b' ' ∷ b'o' ∷ b'u' ∷ b't' ∷ b'p' ∷ b'u' ∷ b't' ∷ b'B'
    ∷ b'u' ∷ b'f' ∷ b'f' ∷ b'e' ∷ b'r' ∷ b':' ∷ b' ' ∷ b'c' ∷ b'u' ∷ b'r' ∷ b'r' ∷ b'e' ∷ b'n'
    ∷ b't' ∷ b'C' ∷ b'h' ∷ b'u' ∷ b'n' ∷ b'k' ∷ b'I' ∷ b'd' ∷ b' ' ∷ []

-- `output_ffmpeg_buffer_print`, where debugging is on.
unfoldable pub buffer_print : ℤ → Session → Outcome (List ℕ)
buffer_print current s =
    if ltb_ℤ s.first_chunk (pos 0)
    then ok []
    else print_slots s.output_buffer_size 0 s >>= λ table.
        ok (slots_title ++ (decimal current ++ (table ++ 10 ∷ [])))
