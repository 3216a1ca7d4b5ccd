-- ===== src/Writer/Misplaced.antt =====
-- The put pointer after a write that does not go round the end of the buffer.
use p2pxineplugin.Base.{
  ℕ, ◌+◌, ◌-◌, ◌≤◌, ◌<◌, ◌≡◌, ◌≢◌, refl, ◌∙◌, List, [], ◌∷◌, ◌++◌, arith, All, Bool-cases, inl, inr,
  ltb, get_or, ok, >>=-eq-ok,
}
use p2pxineplugin.Chunk.{Chunk}
use p2pxineplugin.Ring.{buffer_size, Ring, consume, wait_for_space, store_payload}
use p2pxineplugin.Ring.Contents.{contents, IsReadable, IsAligned}
use p2pxineplugin.Ring.Writing.{
  store_payload-appends, store_payload_straight-put, store_payload_straight-not-IsAligned,
  store_payload_overrun,
}
use p2pxineplugin.Writer.{Endian, write_chunk}
use p2pxineplugin.Writer.Header.{IsVideo, offset_of}
use p2pxineplugin.Writer.Append.{IsVideoChunk, payload_of, write_chunk-video}

-- With room for the whole chunk there is no wait.
pub no_wait :
    (size : ℕ) (r : Ring) (ts : List (Ring → Ring))
    → r.count + size ≤ r.max_size
    → wait_for_space size r ts ≡ ok (r, ts)
unfolding wait_for_space
no_wait size r [] room = ground arith
no_wait size r (t ∷ ts) room = ground arith

-- What the other thread does leaves the put pointer alone, as a read does.
abbrev pub KeepsPut : (Ring → Ring) → Type 0
KeepsPut f = (r : Ring) → (f r).put ≡ r.put

pub consume-KeepsPut : (n : ℕ) → KeepsPut (λ r. consume r n)
unfolding consume
consume-KeepsPut n r = refl

wait-put :
    (size : ℕ) (r : Ring) (ts : List (Ring → Ring)) {out : Ring × List (Ring → Ring)}
    → All KeepsPut ts
    → wait_for_space size r ts ≡ ok out
    → out.0.put ≡ r.put
unfolding wait_for_space
wait-put size r [] w e = ground arith
wait-put size r (t ∷ ts) w e = elim (Bool-cases (ltb r.max_size (r.count + size))) [
  | inl full ↦ wait-put size (t r) ts w.1 (rw full at e) ∙ w.0 r
  | inr room ↦ ground arith
]

-- A write for which there is room appends the payload, with no wait.
pub write_chunk_room :
    (host : Endian) (c : Chunk) (r : Ring) (ts : List (Ring → Ring))
    → IsVideoChunk c
    → IsAligned r
    → r.max_size ≤ buffer_size
    → r.count + c.size ≤ r.max_size
    → (s : Ring) × (write_chunk host c r ts ≡ ok (s, ts))
      × (contents s ≡ contents r ++ payload_of c)
      × IsReadable s
write_chunk_room host c r ts v a m room =
    let (s, q, appended, _, _, readable) =
      store_payload-appends {r = r} c.bytes c.size (offset_of c.bytes) a v.offset_in (omega arith)
        v.size_in in
    (s, rw (write_chunk-video host c r ts v.video, no_wait c.size r ts room, q), appended, readable)

module _ (host : Endian) (c : Chunk) (r : Ring) (ts : List (Ring → Ring)) (v : IsVideoChunk c)
    (a : IsAligned r) (m : r.max_size ≤ buffer_size) (room : r.count + c.size ≤ r.max_size)
    (straight : r.put + (c.size - offset_of c.bytes) ≤ buffer_size) where
  stored_straight :
      (s : Ring) × (store_payload r c.bytes c.size (offset_of c.bytes) ≡ ok s)
      × (write_chunk host c r ts ≡ ok (s, ts))
  stored_straight =
      let (s, q, _, _, _, _) =
        store_payload-appends {r = r} c.bytes c.size (offset_of c.bytes) a v.offset_in (omega arith)
          v.size_in in
      (s, q, rw (write_chunk-video host c r ts v.video, no_wait c.size r ts room, q))

  -- A write of a video chunk with fewer than 256 frames to an aligned ring with room for the
  -- whole chunk, whose payload fits before the end of the buffer, returns with the put pointer
  -- advanced by the whole size instead of the payload, so the ring is no longer aligned.
  pub write_chunk_misplaces :
      get_or c.bytes 9 0 < 256
      → (s : Ring) × (write_chunk host c r ts ≡ ok (s, ts))
        × (s.put ≡ r.put + c.size)
        × ¬ IsAligned s
  write_chunk_misplaces few =
      let (s, q, w) = stored_straight in
      (
        s,
        w,
        omega (
          arith,
          store_payload_straight-put {r = r} c.bytes c.size (offset_of c.bytes) a v.offset_in
              (omega arith) straight q,
          v.offset_in,
        ),
        store_payload_straight-not-IsAligned {r = r} c.bytes c.size (offset_of c.bytes) a
            v.offset_in (omega arith) straight (omega arith) (omega arith) q,
      )

  -- If a video chunk is written with room to an aligned ring so that its payload fits before
  -- the end of the buffer but its whole size does not, then no later write of a video chunk
  -- returns, whatever has been read in between and while other threads leave the put pointer
  -- alone.
  pub write_chunk_overruns :
      (s : Ring) (next : Chunk) (n : ℕ) (later : List (Ring → Ring))
      (out : Ring × List (Ring → Ring))
      → buffer_size < r.put + c.size
      → write_chunk host c r ts ≡ ok (s, ts)
      → IsVideo next.bytes
      → All KeepsPut later
      → write_chunk host next (consume s n) later ≢ ok out
  write_chunk_overruns s next n later out over first video keeps e =
      let (s', q, w) = stored_straight in
      let (waited, ew, e') =
        >>=-eq-ok (wait_for_space next.size (consume s n) later) _
          (rw (write_chunk-video host next (consume s n) later video) at e) in
      let (t, et, _) =
        >>=-eq-ok (store_payload waited.0 next.bytes next.size (offset_of next.bytes)) _ e' in
      store_payload_overrun waited.0 next.bytes next.size (offset_of next.bytes)
        (omega (
          arith,
          wait-put next.size (consume s n) later keeps ew,
          consume-KeepsPut n s,
          store_payload_straight-put {r = r} c.bytes c.size (offset_of c.bytes) a v.offset_in
              (omega arith) straight q,
          v.offset_in,
          same s' w,
        ))
        et
    where
      same : (s' : Ring) → write_chunk host c r ts ≡ ok (s', ts) → s.put ≡ s'.put
      same s' w = ground arith
