-- ===== src/Ring.antt =====
-- The circular buffer between the p2p writer and the xine reader: the `buffer*` fields of
-- `p2p_input_plugin_t` (input_p2p.h), one round of the read loop of `p2p_plugin_read`
-- (input_p2p.c), and the wait and the copy at the end of `output_ffmpeg_write_chunk`
-- (output_ffmpeg.c). Each is a stretch of code that runs under `buffer_ring_mutex`.
pub mod Contents
pub mod View
pub mod Reading
pub mod Writing
pub mod Shifted
pub mod Waiting
use p2pxineplugin.Base.{
  ℕ, ◌+◌, ◌-◌, ◌*◌, ◌&&◌, List, [], ◌∷◌, ltb, leb, if◌then◌else◌, length, get_or, Outcome, ok,
  fault, blocked, negative_length, out_of_bounds,
}

-- `BUFFER_SIZE`
abbrev pub buffer_size : ℕ
buffer_size = 1024 * 1024

-- Bytes by address. A block of memory has no bounds of its own: the code below checks each copy.
abbrev pub Memory : Type 0
Memory = ℕ → ℕ

-- The pointers `buffer_get_ptr` and `buffer_put_ptr` are offsets from `buffer`.
pub record Ring : Type 0 where
  pub buffer : Memory
  pub get : ℕ
  pub put : ℕ
  pub count : ℕ
  pub max_size : ℕ

-- `memcpy(to + at, from + start, n)`
abbrev pub copy : Memory → ℕ → Memory → ℕ → ℕ → Memory
copy to at from start n i = if leb at i && ltb i (at + n) then from (start + (i - at)) else to i

-- The bytes of a block that a chunk's `data` points to.
abbrev pub bytes_of : List ℕ → Memory
bytes_of bytes k = get_or bytes k 0

-- How many bytes one round copies: at most `nlen`, at most what is there, and at most up to the
-- end of the buffer. A `get` pointer behind the end would give `memcpy` a negative length.
unfoldable pub round_length : Ring → ℕ → Outcome ℕ
round_length r nlen =
    let n = if ltb r.count nlen then r.count else nlen in
    if ltb buffer_size (r.get + n)
    then (if ltb buffer_size r.get then fault negative_length else ok (buffer_size - r.get))
    else ok n

-- `buffer_get_ptr += n`, back to the start at the end of the buffer; `buffer_count -= n`.
unfoldable pub consume : Ring → ℕ → Ring
consume r n = record r {
  get = if leb buffer_size (r.get + n) then 0 else r.get + n;
  count = r.count - n;
}

-- `while ((buffer_max_size - buffer_count) < size) pthread_cond_timedwait(…)`. Each entry of the
-- schedule is what the other thread does to the ring during one wait; that a wait ends by a signal
-- or after two seconds makes no difference to the loop.
unfoldable pub wait_for_space : ℕ → Ring → List (Ring → Ring) → Outcome (Ring × List (Ring → Ring))
wait_for_space size r [] = if ltb r.max_size (r.count + size) then blocked else ok (r, [])
wait_for_space size r (turn ∷ turns) =
    let waited = wait_for_space size (turn r) turns in
    if ltb r.max_size (r.count + size) then waited else ok (r, turn ∷ turns)

-- The payload fits before the end of the buffer: one copy. The code advances the put pointer by
-- `size`, the payload and its header.
unfoldable pub put_straight : Ring → List ℕ → ℕ → ℕ → Ring
put_straight r bytes size offset = record r {
  buffer = copy r.buffer r.put (bytes_of bytes) offset (size - offset);
  put = r.put + size;
  count = r.count + (size - offset);
}

-- The payload goes round the end of the buffer: two copies.
unfoldable pub put_wrapped : Ring → List ℕ → ℕ → ℕ → Ring
put_wrapped r bytes size offset =
    let remaining : ℕ = buffer_size - r.put in
    record r {
      buffer =
          copy (copy r.buffer r.put (bytes_of bytes) offset remaining) 0 (bytes_of bytes)
            (offset + remaining) (size - offset - remaining);
      put = size - offset - remaining;
      count = r.count + (size - offset);
    }

-- The copy of the payload, `data[offset .. size)`. If `size < offset` either branch hands `memcpy`
-- a negative length, and so does the second one if the put pointer lies behind the end.
unfoldable pub store_payload : Ring → List ℕ → ℕ → ℕ → Outcome Ring
store_payload r bytes size offset =
    if ltb size offset
    then fault negative_length
    else if ltb (length bytes) size
    then fault out_of_bounds
    else if leb (r.put + (size - offset)) buffer_size
    then ok (put_straight r bytes size offset)
    else if ltb buffer_size r.put
    then fault negative_length
    else if ltb buffer_size (size - offset - (buffer_size - r.put))
    then fault out_of_bounds
    else ok (put_wrapped r bytes size offset)
