-- ===== src/Writer.antt =====
-- output_ffmpeg.c: `output_ffmpeg_write_chunk` and its two helpers for words in network order.
pub mod Words
pub mod Header
pub mod Append
pub mod Misplaced
pub mod Shifted
use Prim.Native.Nat.{bit_or}
use p2pxineplugin.Base.{
  ℕ, zero, suc, ◌+◌, ◌-◌, ◌*◌, ◌/◌, ◌%◌, ◌^◌, List, [], ◌∷◌, Option, none, some, get_elem?, ltb,
  ◌==◌, if◌then◌else◌, ℤ, pos, minus_one, Outcome, ok, fault, out_of_bounds, uninitialised,
  or_fault, ◌>>=◌, ◌>>◌,
}
use p2pxineplugin.Chunk.{Chunk}
use p2pxineplugin.Ring.{Ring, wait_for_space, store_payload}

-- The byte order of the machine.
pub data Endian : Type 0 where
  little big : Endian

-- What `memcpy` into a `uint32_t` or a `uint16_t` makes of bytes in memory order.
unfoldable pub load32 : Endian → ℕ → ℕ → ℕ → ℕ → ℕ
load32 little a b c d = a + b * 2 ^ 8 + c * 2 ^ 16 + d * 2 ^ 24
load32 big a b c d = d + c * 2 ^ 8 + b * 2 ^ 16 + a * 2 ^ 24

unfoldable pub load16 : Endian → ℕ → ℕ → ℕ
load16 little a b = a + b * 2 ^ 8
load16 big a b = b + a * 2 ^ 8

-- `ntohl` and `ntohs`
unfoldable pub ntohl : Endian → ℕ → ℕ
ntohl big w = w
ntohl little w =
    w / 2 ^ 24 % 2 ^ 8
    + w / 2 ^ 16 % 2 ^ 8 * 2 ^ 8
    + w / 2 ^ 8 % 2 ^ 8 * 2 ^ 16
    + w % 2 ^ 8 * 2 ^ 24

unfoldable pub ntohs : Endian → ℕ → ℕ
ntohs big w = w
ntohs little w = w / 2 ^ 8 % 2 ^ 8 + w % 2 ^ 8 * 2 ^ 8

-- `data[i]`; a read behind the allocation is a fault.
abbrev pub byte_at : List ℕ → ℕ → Outcome ℕ
byte_at bytes i = or_fault (get_elem? bytes i) out_of_bounds

-- `int_rcpy(data + i)` and `int16_rcpy(data + i)`
unfoldable pub int_rcpy : Endian → List ℕ → ℕ → Outcome ℕ
int_rcpy host bytes i = do
  a ← byte_at bytes i
  b ← byte_at bytes (i + 1)
  c ← byte_at bytes (i + 2)
  d ← byte_at bytes (i + 3)
  ok (ntohl host (load32 host a b c d))

unfoldable pub int16_rcpy : Endian → List ℕ → ℕ → Outcome ℕ
int16_rcpy host bytes i = do
  a ← byte_at bytes i
  b ← byte_at bytes (i + 1)
  ok (ntohs host (load16 host a b))

-- The locals of one round of the loop over the frames. The code reads the same bytes in each round
-- and does not use what it finds.
pub record Frame : Type 0 where
  pub frame_size : ℕ
  pub dts : ℕ
  pub pts : ℤ

unfoldable pub parse_frame : Endian → List ℕ → Outcome Frame
parse_frame host bytes = do
  a ← byte_at bytes 0
  b ← byte_at bytes 1
  c ← byte_at bytes 2
  dts ← int_rcpy host bytes 3
  delta ← byte_at bytes 7
  ok (record {
    frame_size = bit_or (bit_or (bit_or 0 a * 2 ^ 8) b * 2 ^ 8) c;
    dts = dts;
    pts = if delta == 255 then minus_one else pos (dts + delta);
  })

unfoldable pub parse_frames : ℕ → Endian → List ℕ → Outcome (Unit {0})
parse_frames zero host bytes = ok tt
parse_frames (suc n) host bytes = parse_frame host bytes >>= λ _. parse_frames n host bytes

abbrev pub header_size : ℕ
header_size = 1 + 2 + 2 + 2 + 2 + 1

-- The fields of the video header behind the codec byte; they are read for a debugging line only.
unfoldable pub parse_video_header : Endian → List ℕ → Outcome (Unit {0})
parse_video_header host bytes = do
  width ← int16_rcpy host bytes 1
  height ← int16_rcpy host bytes 3
  frame_rate_n ← int16_rcpy host bytes 5
  frame_rate_d ← int16_rcpy host bytes 7
  ok tt

-- Where the payload starts, or `none` for a strange chunk, which is dropped. A first byte from 127
-- on is no video: then `header_size` is used with no value.
unfoldable pub payload_offset : Endian → List ℕ → Outcome (Option ℕ)
payload_offset host bytes = byte_at bytes 0 >>= λ codec.
    if codec == 0
    then ok none
    else if ltb codec 127
    then (do
      parse_video_header host bytes
      frames ← byte_at bytes (header_size - 1)
      parse_frames frames host bytes
      ok (some (header_size + frames * (3 + 4 + 1))))
    else fault uninitialised

-- `output_ffmpeg_write_chunk`: the ring after it, and the turns of the reader that are left.
unfoldable pub write_chunk :
    Endian → Chunk → Ring → List (Ring → Ring) → Outcome (Ring × List (Ring → Ring))
write_chunk host c r turns = payload_offset host c.bytes >>= λ start. elim start [
  | none ↦ ok (r, turns)
  | some offset ↦ wait_for_space c.size r turns >>= λ waited.
      store_payload waited.0 c.bytes c.size offset >>= λ s. ok (s, waited.1)
]
