-- ===== src/Output/Legacy/Free.antt =====
-- `output_ffmpeg_buffer_free_original` with the fields as `output_ffmpeg_init` sets them.
use p2pxineplugin.Base.{ℕ, ◌≡◌, true, none, some, ℤ, pos, minus_one, ◌+ℤ◌, ok, ◌>>=◌, bind_assoc}
use p2pxineplugin.Chunk.{Chunk}
use p2pxineplugin.Output.{Machine, emit, slot_at, set_slot}
use p2pxineplugin.Output.Legacy.{LegacySession, emit_slot, play_original, buffer_free_original}

-- A stored chunk is written whatever its number is, its slot is emptied, and the chunk after it is
-- the first one.
buffer_free_original_lem :
    (m : Machine) (stale : ℕ → ℤ) (i : ℕ) (c : Chunk) (l : LegacySession)
    → l.legacy.start_id ≡ minus_one
    → l.legacy.end_id ≡ minus_one
    → slot_at l.session i ≡ ok (some c)
    → buffer_free_original m stale i l ≡ (
        emit m c l.session >>= λ s. set_slot s i none >>= λ t. ok (record {
          session = record t { first_chunk = c.id +ℤ pos 1 };
          legacy = record l.legacy { sflag = true; last_chunk = c.id };
        }))
unfolding buffer_free_original play_original emit_slot
buffer_free_original_lem m stale i c l from to stored =
    rw (stored, from, to) (bind_assoc (emit m c l.session) _ _)
