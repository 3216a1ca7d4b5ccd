-- ===== src/Writer/Append.antt =====
-- `output_ffmpeg_write_chunk` as a whole, while the reader drains the ring.
use p2pxineplugin.Base.{ℕ, ◌≤◌, ◌<◌, ◌≡◌, List, ◌++◌, arith, All, length, ok, blocked, ◌>>=◌}
use p2pxineplugin.Chunk.{Chunk}
use p2pxineplugin.Ring.{buffer_size, Ring, wait_for_space, store_payload}
use p2pxineplugin.Ring.Contents.{contents, IsReadable, IsAligned}
use p2pxineplugin.Ring.Writing.{payload, store_payload-appends}
use p2pxineplugin.Ring.Waiting.{
  Drains, IsReaderTurn, IsEager, WaitEnd, starves, has_room, wait_for_space_lem,
  wait_for_space_fair, wait_for_space_oversize,
}
use p2pxineplugin.Writer.{Endian, write_chunk}
use p2pxineplugin.Writer.Header.{IsVideo, offset_of, payload_offset_video}

-- A chunk of video as the sender makes it: its size covers the header and the table of frames.
pub record IsVideoChunk (c : Chunk) : Type 0 where
  pub video : IsVideo c.bytes
  pub offset_in : offset_of c.bytes ≤ c.size
  pub size_in : c.size ≤ length c.bytes

abbrev pub payload_of : Chunk → List ℕ
payload_of c = payload c.bytes c.size (offset_of c.bytes)

-- The header and the payload are found, so the call is the wait and the copy.
pub write_chunk-video :
    (host : Endian) (c : Chunk) (r : Ring) (ts : List (Ring → Ring))
    → IsVideo c.bytes
    → write_chunk host c r ts ≡ (
        wait_for_space c.size r ts >>= λ waited.
        store_payload waited.0 c.bytes c.size (offset_of c.bytes) >>= λ s. ok (s, waited.1))
unfolding write_chunk
write_chunk-video host c r ts v = rw (payload_offset_video host v)

pub data WriteEnd (host : Endian) (c : Chunk) (r : Ring) (ts : List (Ring → Ring)) : Type 0 where
  write_waits : write_chunk host c r ts ≡ blocked → WriteEnd host c r ts
  written :
      (drained s : Ring) (rest : List (Ring → Ring))
      → write_chunk host c r ts ≡ ok (s, rest)
      → Drains r drained
      → contents s ≡ contents drained ++ payload_of c
      → IsReadable s
      → WriteEnd host c r ts

module _ (host : Endian) (c : Chunk) (r : Ring) (ts : List (Ring → Ring)) (v : IsVideoChunk c)
    (a : IsAligned r) (m : r.max_size ≤ buffer_size) where
  -- Writing a video chunk, whose size covers its header and table of frames and is within its
  -- data, to an aligned ring of at most the buffer's size while the reader only takes bytes
  -- off the front never faults: it waits past the end of the schedule, or it returns a
  -- readable ring that holds what the reader has left and then exactly the payload of the
  -- chunk.
  pub write_chunk_lem : All IsReaderTurn ts → WriteEnd host c r ts
  write_chunk_lem w = finish (wait_for_space_lem c.size r ts a w)
    where
      finish : WaitEnd c.size r ts → WriteEnd host c r ts
      finish (starves e) = write_waits (rw (write_chunk-video host c r ts v.video, e))
      finish (has_room u rest e d room) =
          let (s, q, appended, _, _, readable) =
            store_payload-appends {r = u} c.bytes c.size (offset_of c.bytes) d.aligned v.offset_in
              (omega (arith, d.same_max)) v.size_in in
          written u s rest (rw (write_chunk-video host c r ts v.video, e, q)) d appended readable

  -- Under the same conditions, if the chunk is no larger than the ring and the reader takes
  -- something during each wait while there is something, the write returns when the schedule
  -- has as many waits as the ring holds bytes.
  pub write_chunk_fair :
      c.size ≤ r.max_size
      → r.count ≤ length ts
      → All IsReaderTurn ts
      → All IsEager ts
      → (s : Ring) × (rest : List (Ring → Ring)) × (write_chunk host c r ts ≡ ok (s, rest))
  write_chunk_fair small enough w eager = finish (wait_for_space_lem c.size r ts a w)
    where
      finish :
          WaitEnd c.size r ts
          → (s : Ring) × (rest : List (Ring → Ring)) × (write_chunk host c r ts ≡ ok (s, rest))
      finish (starves e) =
          let (s, rest, q) = wait_for_space_fair c.size r ts small enough a w eager in cc
      finish (has_room u rest e d room) =
          let (s, q, _, _, _, _) =
            store_payload-appends {r = u} c.bytes c.size (offset_of c.bytes) d.aligned v.offset_in
              (omega (arith, d.same_max)) v.size_in in
          (s, rest, rw (write_chunk-video host c r ts v.video, e, q))

  -- A video chunk that is larger than an aligned ring blocks its writer however long the
  -- schedule is, if the reader only takes bytes off the front.
  pub write_chunk_oversize :
      r.max_size < c.size → All IsReaderTurn ts → write_chunk host c r ts ≡ blocked
  write_chunk_oversize big w =
      rw (write_chunk-video host c r ts v.video, wait_for_space_oversize c.size r ts big a w)
