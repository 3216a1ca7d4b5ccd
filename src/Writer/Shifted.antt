-- ===== src/Writer/Shifted.antt =====
-- Two chunks, one after the other, that fit before the end of the buffer.
use p2pxineplugin.Base.{
  ℕ, ◌+◌, ◌-◌, ◌≤◌, ◌≡◌, ◌∙◌, refl, sym, ap, ap₂, List, ◌++◌, arith, length, length-tabulate, take,
  ok, ◌>>=◌,
}
use p2pxineplugin.Chunk.{Chunk}
use p2pxineplugin.Ring.{buffer_size, Ring, put_straight, store_payload}
use p2pxineplugin.Ring.Contents.{block, contents, IsAligned}
use p2pxineplugin.Ring.Writing.{payload-tabulate, store_payload-appends}
use p2pxineplugin.Ring.Shifted.{contents-after_second}
use p2pxineplugin.Writer.{Endian, write_chunk}
use p2pxineplugin.Writer.Header.{offset_of}
use p2pxineplugin.Writer.Append.{IsVideoChunk, payload_of, write_chunk-video}
use p2pxineplugin.Writer.Misplaced.{no_wait}

abbrev pub written : Chunk → Ring → Ring
written c r = put_straight r c.bytes c.size (offset_of c.bytes)

store_payload_straight :
    (c : Chunk) (r : Ring)
    → IsVideoChunk c
    → r.put + c.size ≤ buffer_size
    → store_payload r c.bytes c.size (offset_of c.bytes) ≡ ok (written c r)
unfolding store_payload
store_payload_straight c r v straight =
    let below = v.offset_in in let held = v.size_in in ground (arith, below, held)

-- A write with room in front of the end, wherever the put pointer stands.
write_chunk_straight :
    (host : Endian) (c : Chunk) (r : Ring) (ts : List (Ring → Ring))
    → IsVideoChunk c
    → r.count + c.size ≤ r.max_size
    → r.put + c.size ≤ buffer_size
    → write_chunk host c r ts ≡ ok (written c r, ts)
write_chunk_straight host c r ts v room straight =
    rw
      (
        write_chunk-video host c r ts v.video,
        no_wait c.size r ts room,
        store_payload_straight c r v straight,
      )
      refl

length-payload_of :
    (c : Chunk) → IsVideoChunk c → length (payload_of c) ≡ c.size - offset_of c.bytes
length-payload_of c v =
    ap length (payload-tabulate c.bytes c.size (offset_of c.bytes) v.size_in)
    ∙ length-tabulate (c.size - offset_of c.bytes) _

-- Two video chunks written one after the other to an aligned ring with room for both, which
-- both fit before the end of the buffer, while nothing is read: both writes return with no
-- wait, and the ring holds what it held, the payload of the first, and then, as many bytes as
-- the second has payload, what stood in the buffer behind the first payload, as long as the
-- first chunk's header, followed by the payload of the second.
pub second_chunk_shifted :
    (host : Endian) (first second : Chunk) (r : Ring) (ts : List (Ring → Ring))
    → IsVideoChunk first
    → IsVideoChunk second
    → IsAligned r
    → r.max_size ≤ buffer_size
    → r.count + first.size + second.size ≤ r.max_size
    → r.put + first.size + second.size ≤ buffer_size
    → let n = length (payload_of first) in
      let gap = block r.buffer (r.put + n) (offset_of first.bytes) in
      (t : Ring) × ((write_chunk host first r ts >>= λ out. write_chunk host second out.0 out.1)
        ≡ ok (t, ts))
      × (contents t
          ≡ (contents r ++ payload_of first)
            ++ take (length (payload_of second)) (gap ++ payload_of second))
second_chunk_shifted host first second r ts v w a small room straight =
    let below = v.offset_in in
    (
      written second (written first r),
      ap (λ o. o >>= λ out. write_chunk host second out.0 out.1)
            (write_chunk_straight host first r ts v (omega arith) (omega arith))
          ∙ write_chunk_straight host second (written first r) ts w
              (unfold put_straight in omega (arith, below)) (unfold put_straight in omega arith),
      contents-after_second r first.bytes second.bytes first.size (offset_of first.bytes)
            second.size (offset_of second.bytes) a v.offset_in w.offset_in (omega arith)
            (omega arith) w.size_in
          ∙ ap₂ (λ l n. l ++ take n (gap (first.size - offset_of first.bytes) ++ payload_of second))
              first_contents (sym (length-payload_of second w))
          ∙ ap
              (λ n.
                (contents r ++ payload_of first)
                ++ take (length (payload_of second)) (gap n ++ payload_of second))
              (sym (length-payload_of first v)),
    )
  where
    gap : ℕ → List ℕ
    gap n = block r.buffer (r.put + n) (offset_of first.bytes)

    first_contents : contents (written first r) ≡ contents r ++ payload_of first
    first_contents =
        let (s, q, appended, _, _, _) =
          store_payload-appends {r = r} first.bytes first.size (offset_of first.bytes) a v.offset_in
            (omega arith) v.size_in in
        let stored = store_payload_straight first r v (omega arith) in
        let same : written first r ≡ s = cc (stored, q) in ap contents same ∙ appended
