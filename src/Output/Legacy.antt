-- ===== src/Output/Legacy.antt =====
-- output_ffmpeg.c: what is kept of the buffer functions of PeerStreamer, and the end of the module.
-- Nothing calls the two functions ending in `_original`.
pub mod Rounds
pub mod Free
use p2pxineplugin.Base.{
  ℕ, zero, suc, ◌+◌, ◌%◌, Bool, true, false, not, ◌&&◌, ◌||◌, List, Option, none, some, ◌==◌,
  if◌then◌else◌, ℤ, pos, minus_one, ◌+ℤ◌, ◌==ℤ◌, leb_ℤ, rem, negsuc, Outcome, ok, fault, null_deref,
  out_of_bounds, division_by_zero, ◌>>=◌,
}
use p2pxineplugin.Chunk.{Chunk}
use p2pxineplugin.Output.{Session, Machine, with_context, emit, slot_at, set_slot, buffer_free}

-- The last fields of `struct output_context`.
pub record Legacy : Type 0 where
  pub last_chunk : ℤ
  pub sflag : Bool
  pub eflag : Bool
  pub start_id : ℤ
  pub end_id : ℤ

pub record LegacySession : Type 0 where
  pub session : Session
  pub legacy : Legacy

-- A write of a slot. An empty slot has no data to read.
unfoldable pub emit_slot : Machine → Option Chunk → Session → Outcome Session
emit_slot m none s = fault null_deref
emit_slot m (some c) s = emit m c s

abbrev pub id_of : Option Chunk → ℤ → ℤ
id_of none stale = stale
id_of (some c) stale = c.id

-- The tests of the first and the last chunk to be played.
unfoldable pub play_original : Machine → Option Chunk → ℤ → LegacySession → Outcome LegacySession
play_original m slot id l =
    if (l.legacy.start_id ==ℤ minus_one) || leb_ℤ l.legacy.start_id id
    then (if (l.legacy.end_id ==ℤ minus_one) || leb_ℤ id l.legacy.end_id
        then (emit_slot m slot l.session >>= λ s.
            ok (record { session = s; legacy = record l.legacy { sflag = true; last_chunk = id } }))
        else ok (
            if not l.legacy.eflag && not (l.legacy.last_chunk ==ℤ minus_one)
            then record l { legacy = record l.legacy { eflag = true } }
            else l))
    else ok l

-- `output_ffmpeg_buffer_free_original`. `stale` is the number that an empty slot still has.
unfoldable pub buffer_free_original : Machine → (ℕ → ℤ) → ℕ → LegacySession → Outcome LegacySession
buffer_free_original m stale i l = slot_at l.session i >>= λ slot.
    play_original m slot (id_of slot (stale i)) l >>= λ l'. set_slot l'.session i none >>= λ s.
    ok (record l' { session = record s { first_chunk = id_of slot (stale i) +ℤ pos 1 } })

-- The loop of `output_ffmpeg_buffer_flush_original` at slot `i`, with so many rounds at most.
unfoldable pub flush_round_original : Machine → ℕ → ℕ → ℕ → Session → Outcome Session
flush_round_original m zero start i s = ok s
flush_round_original m (suc rounds) start i s = slot_at s i >>= λ slot. elim slot [
  | none ↦ ok s
  | some _ ↦ buffer_free m i s >>= λ freed.
      if suc i % freed.1.output_buffer_size == start
      then ok freed.1
      else flush_round_original m rounds start (suc i % freed.1.output_buffer_size) freed.1
]

unfoldable pub flush_original_at : Machine → ℤ → Session → Outcome Session
flush_original_at m (negsuc _) s = fault out_of_bounds
flush_original_at m (pos start) s = flush_round_original m s.output_buffer_size start start s

-- `output_ffmpeg_buffer_flush_original`
unfoldable pub buffer_flush_original : Machine → ℤ → Session → Outcome Session
buffer_flush_original m id s =
    if s.output_buffer_size == 0
    then fault division_by_zero
    else flush_original_at m (rem id s.output_buffer_size) s
