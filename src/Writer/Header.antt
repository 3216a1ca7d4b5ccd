-- ===== src/Writer/Header.antt =====
-- Where the payload of a chunk starts, on every kind of chunk.
use p2pxineplugin.Base.{
  ℕ, zero, suc, ◌+◌, ◌*◌, ◌≤◌, ◌<◌, ◌≡◌, refl, List, [], ◌∷◌, none, some, arith, length, get_or, ok,
  fault, uninitialised, Returns, Returns-value,
}
use p2pxineplugin.Writer.{
  Endian, byte_at, int_rcpy, int16_rcpy, parse_frame, parse_frames, parse_video_header,
  payload_offset, header_size,
}

byte_at_lem : (bytes : List ℕ) (i : ℕ) → i < length bytes → byte_at bytes i ≡ ok (get_or bytes i 0)
byte_at_lem [] i h = elim h [ ]
byte_at_lem (x ∷ xs) zero h = refl
byte_at_lem (x ∷ xs) (suc i) h = byte_at_lem xs i (omega arith)

-- A video chunk: its header is there, and its first byte is the code of a codec.
pub record IsVideo (bytes : List ℕ) : Type 0 where
  pub header : header_size ≤ length bytes
  pub codec_pos : 0 < get_or bytes 0 0
  pub codec_small : get_or bytes 0 0 < 127

-- The header of a chunk, with the table of its frames.
abbrev pub offset_of : List ℕ → ℕ
offset_of bytes = header_size + 8 * get_or bytes 9 0

module _ (host : Endian) (bytes : List ℕ) (long : header_size ≤ length bytes) where
  -- A read of a word inside the header ends.
  int_rcpy-ends : Returns (λ _. Unit) (int_rcpy host bytes 3)
  unfolding int_rcpy
  int_rcpy-ends =
      simp
        (
          byte_at_lem bytes 3 (omega arith),
          byte_at_lem bytes 4 (omega arith),
          byte_at_lem bytes 5 (omega arith),
          byte_at_lem bytes 6 (omega arith),
        )
        tt

  int16_rcpy-ends : (i : ℕ) → i + 1 < 10 → Returns (λ _. Unit) (int16_rcpy host bytes i)
  unfolding int16_rcpy
  int16_rcpy-ends i h =
      simp (byte_at_lem bytes i (omega arith), byte_at_lem bytes (i + 1) (omega arith)) tt

  parse_frame-ends : Returns (λ _. Unit) (parse_frame host bytes)
  unfolding parse_frame
  parse_frame-ends =
      let (dts, e, _) = Returns-value (λ _. Unit) (int_rcpy host bytes 3) int_rcpy-ends in
      simp
        (
          byte_at_lem bytes 0 (omega arith),
          byte_at_lem bytes 1 (omega arith),
          byte_at_lem bytes 2 (omega arith),
          e,
          byte_at_lem bytes 7 (omega arith),
        )
        tt

  parse_frames_lem : (n : ℕ) → parse_frames n host bytes ≡ ok tt
  unfolding parse_frames
  parse_frames_lem zero = refl
  parse_frames_lem (suc n) =
      let (f, e, _) = Returns-value (λ _. Unit) (parse_frame host bytes) parse_frame-ends in
      rw e (parse_frames_lem n)

  parse_video_header_lem : parse_video_header host bytes ≡ ok tt
  unfolding parse_video_header
  parse_video_header_lem =
      let (a, ea, _) = word 1 (omega arith) in
      let (b, eb, _) = word 3 (omega arith) in
      let (c, ec, _) = word 5 (omega arith) in
      let (d, ed, _) = word 7 (omega arith) in rw (ea, eb, ec, ed)
    where
      word : (i : ℕ) → i + 1 < 10 → (w : ℕ) × (int16_rcpy host bytes i ≡ ok w) × Unit {0}
      word i h = Returns-value (λ _. Unit) (int16_rcpy host bytes i) (int16_rcpy-ends i h)

-- On data that holds a whole video header with a codec byte from 1 to 126, finding the payload
-- reads nothing outside the data, on a machine of either byte order, and gives the length of
-- the header and eight bytes for each frame that byte 9 announces.
pub payload_offset_video :
    (host : Endian) {bytes : List ℕ}
    → IsVideo bytes
    → payload_offset host bytes ≡ ok (some (offset_of bytes))
unfolding payload_offset
payload_offset_video host {bytes} v = ground (
  arith,
  byte_at_lem bytes 0 (omega arith),
  byte_at_lem bytes 9 (omega arith),
  parse_video_header_lem host bytes v.header,
  parse_frames_lem host bytes v.header (get_or bytes 9 0),
)

-- A chunk that starts with 0 is dropped.
pub payload_offset_strange :
    (host : Endian) (rest : List ℕ) → payload_offset host (0 ∷ rest) ≡ ok none
unfolding payload_offset
payload_offset_strange host rest = refl

-- Any other chunk that is no video, and one whose header is cut short, is undefined behaviour.
pub payload_offset_audio :
    (host : Endian) (codec : ℕ) (rest : List ℕ)
    → 127 ≤ codec
    → payload_offset host (codec ∷ rest) ≡ fault uninitialised
unfolding payload_offset
payload_offset_audio host codec rest h = ground arith
