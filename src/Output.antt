-- ===== src/Output.antt =====
-- output_ffmpeg.c: the output context and the functions that put chunks in order.
-- A call sees the ring of the plugin and the writer's schedule (Writer); `Session` joins them with
-- the context and with the global `firstChunk`.
pub mod Slots
pub mod Deliver
pub mod Order
pub mod Cleanup
pub mod Flush
pub mod Module
pub mod Begin
pub mod Placed
pub mod Store
pub mod Later
pub mod Early
pub mod Ahead
pub mod Played
pub mod Gap
pub mod Sequence
pub mod Swapped
pub mod Legacy
use p2pxineplugin.Base.{
  ℕ, zero, suc, ◌+◌, ◌-◌, ◌%◌, ◌<◌, min, Bool, true, false, List, [], ◌∷◌, Option, none, some, ltb,
  ◌==◌, if◌then◌else◌, get_elem?, set, take, length, ℤ, pos, negsuc, minus_one, ◌+ℤ◌, ltb_ℤ, leb_ℤ,
  ◌==ℤ◌, rem, Outcome, ok, fault, null_deref, out_of_bounds, division_by_zero, bad_argument,
  or_fault, ◌>>=◌, ◌>>◌,
}
use p2pxineplugin.Chunk.{Chunk}
use p2pxineplugin.Ring.{Ring}
use p2pxineplugin.Writer.{Endian, write_chunk}
use p2pxineplugin.Request.{ask_for_chunk}

-- `struct output_context`. A slot of the buffer is `none` when its `data` is NULL: the other fields
-- of such a slot are read for debugging lines only. The buffer itself may be NULL.
pub record Context : Type 0 where
  pub output_buffer_size : ℕ
  pub output_buffer : Option (List (Option Chunk))
  pub played_chunk : ℤ
  pub maximum_chunk : ℤ
  pub last_request_sent : Option ℕ
  pub secured_data_login : ℕ

pub record Session : Type 0 where
  pub context : Context
  pub open context use *
  pub ring : Ring
  pub turns : List (Ring → Ring)
  pub first_chunk : ℤ

-- What a call finds around it: the byte order, the clock in seconds, and what its caller finds as
-- the result of a function that ends without a `return`, here for each slot.
pub record Machine : Type 0 where
  pub host : Endian
  pub now : ℕ
  pub leftover : ℕ → ℤ

-- `TIMEOUT`
abbrev pub timeout : ℕ
timeout = 2

abbrev pub with_context : Session → Context → Session
with_context s c = record s { context = c }

-- A call of `output_ffmpeg_write_chunk`.
unfoldable pub emit : Machine → Chunk → Session → Outcome Session
emit m c s =
    write_chunk m.host c s.ring s.turns >>= λ out. ok (record s { ring = out.0; turns = out.1 })

-- `context->outputBuffer[i]`
unfoldable pub slot_at : Session → ℕ → Outcome (Option Chunk)
slot_at s i =
    or_fault s.output_buffer null_deref >>= λ slots. or_fault (get_elem? slots i) out_of_bounds

unfoldable pub set_slot : Session → ℕ → Option Chunk → Outcome Session
set_slot s i v = or_fault s.output_buffer null_deref >>= λ slots.
    ok (with_context s (record s.context { output_buffer = some (set slots i v) }))

-- `output_ffmpeg_buffer_free` on an empty slot.
unfoldable pub free_missing : Machine → ℕ → Session → Outcome (ℤ × Session)
free_missing m i s = elim s.last_request_sent [
  | none ↦ ask_for_chunk (s.played_chunk +ℤ pos i) >> ok (m.leftover i, s)
  | some sent ↦
      if ltb (sent + timeout) m.now
      then ok (
        minus_one,
        with_context s (record s.context { played_chunk = pos i; last_request_sent = none }),
      )
      else (ask_for_chunk (s.played_chunk +ℤ pos i) >> ok (pos 1, s))
]

-- `output_ffmpeg_buffer_free`: the branch on a stored chunk ends without a `return`.
unfoldable pub buffer_free : Machine → ℕ → Session → Outcome (ℤ × Session)
buffer_free m i s = slot_at s i >>= λ slot. elim slot [
  | none ↦ free_missing m i s
  | some c ↦ do s' ← emit m c s; s'' ← set_slot s' i none; ok (m.leftover i, s'')
]

-- `for (; i < i + rounds && outputBuffer[i].c.data != NULL; ++i)` with the body of either loop of
-- the flush. The Boolean says that the loop ended without a `return`.
unfoldable pub flush_from : Machine → ℕ → ℕ → Session → Outcome (Bool × Session)
flush_from m zero i s = ok (true, s)
flush_from m (suc rounds) i s = slot_at s i >>= λ slot. elim slot [
  | none ↦ ok (true, s)
  | some _ ↦ buffer_free m i s >>= λ freed.
      if freed.0 ==ℤ minus_one then ok (false, freed.1) else flush_from m rounds (i + 1) freed.1
]

-- The second loop of the flush, up to `last`, the slot of the last played chunk; a negative `last`
-- ends it at once.
unfoldable pub flush_until : Machine → ℤ → Session → Outcome Session
flush_until m (negsuc _) s = ok s
flush_until m (pos last) s = flush_from m last 0 s >>= λ out. ok out.1

-- The first loop, from `start` to the end of the buffer, and after it the second one.
unfoldable pub flush_at : Machine → ℤ → Session → Outcome Session
flush_at m (negsuc _) s = fault out_of_bounds
flush_at m (pos start) s = flush_from m (s.output_buffer_size - start) start s >>= λ out.
    if out.0
    then flush_until m (rem out.1.played_chunk out.1.output_buffer_size) out.1
    else ok out.1

-- `output_ffmpeg_buffer_flush`
unfoldable pub buffer_flush : Machine → Session → Outcome Session
buffer_flush m s =
    if s.output_buffer_size == 0
    then fault division_by_zero
    else flush_at m (rem s.played_chunk s.output_buffer_size +ℤ pos 1) s

-- Either loop of the cleanup. The code hands `output_ffmpeg_write_chunk` a stored chunk by value,
-- where the function, which has no declaration above, takes a pointer.
unfoldable pub cleanup_from : ℕ → ℕ → Session → Outcome (Unit {0})
cleanup_from zero i s = ok tt
cleanup_from (suc rounds) i s = slot_at s i >>= λ slot. elim slot [
  | none ↦ cleanup_from rounds (i + 1) s
  | some _ ↦ fault bad_argument
]

-- The two loops, from the slot of the last played chunk, and from the start if `position` lies in
-- front of that. A negative start, as before the first chunk, is an index in front of the array.
unfoldable pub cleanup_at : ℕ → ℤ → Session → Outcome (Unit {0})
cleanup_at position (negsuc _) s = fault out_of_bounds
cleanup_at position (pos last) s =
    cleanup_from (min position s.output_buffer_size - last) last s
    >> (if ltb position last then cleanup_from position 0 s else ok tt)

-- `output_ffmpeg_buffer_cleanup`. Where it returns it has found no stored chunk and changed nothing.
unfoldable pub buffer_cleanup : ℕ → Session → Outcome Session
buffer_cleanup position s =
    if s.output_buffer_size == 0
    then fault division_by_zero
    else (cleanup_at position (rem s.played_chunk s.output_buffer_size) s >> ok s)

-- The copy of a chunk in a slot: `malloc(c->size)` and `memcpy`.
unfoldable pub copy_chunk : Chunk → Outcome Chunk
copy_chunk c =
    if ltb (length c.bytes) c.size
    then fault out_of_bounds
    else ok (record c { bytes = take c.size c.bytes })

-- The rest of the delivery of a chunk that is not due, by its slot: it is stored if the slot is
-- free, and then the buffer is flushed; otherwise the buffer is cleaned.
unfoldable pub deliver_at : Machine → Chunk → ℤ → Session → Outcome Session
deliver_at m c (negsuc _) s = fault out_of_bounds
deliver_at m c (pos i) s = slot_at s i >>= λ slot. elim slot [
  | none ↦ do copied ← copy_chunk c; s' ← set_slot s i (some copied); buffer_flush m s'
  | some _ ↦ buffer_cleanup i s
]

unfoldable pub deliver_later : Machine → Chunk → Session → Outcome Session
deliver_later m c s =
    if s.output_buffer_size == 0
    then fault division_by_zero
    else deliver_at m c (rem c.id s.output_buffer_size) s

-- The chunk goes straight to the ring.
unfoldable pub deliver_now : Machine → Chunk → Session → Outcome Session
deliver_now m c s =
    emit m c s >>= λ s'. ok (with_context s' (record s'.context { played_chunk = c.id }))

-- `output_ffmpeg_deliver`
unfoldable pub deliver : Machine → Chunk → Session → Outcome (ℤ × Session)
deliver m c s = elim s.output_buffer [
  | none ↦ ok (minus_one, s)
  | some _ ↦
      if leb_ℤ c.id s.played_chunk
      then ok (pos 0, s)
      else (let s' =
            if ltb_ℤ s.maximum_chunk c.id
            then with_context s (record s.context { maximum_chunk = c.id })
            else s in
          (if c.id ==ℤ s.first_chunk
            then deliver_now m c s'
            else if c.id ==ℤ (s.played_chunk +ℤ pos 1)
            then deliver_now m c s'
            else deliver_later m c s')
          >>= λ s''. ok (pos 0, s''))
]
