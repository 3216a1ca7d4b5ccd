-- ===== src/Checks/Writing.antt =====
-- Writes of chunks at concrete inputs.
use p2pxineplugin.Base.{
  take, ◌>>=◌, ◌≡◌, ◌≢◌, refl, arith, List, [], ◌∷◌, ◌++◌, ok, blocked, Returns, Bool-cases, inl,
  inr, ◌==◌,
}
use p2pxineplugin.Ring.{Ring, consume, wait_for_space, store_payload, put_straight}
use p2pxineplugin.Ring.Contents.{block, contents, IsAligned}
use p2pxineplugin.Ring.Waiting.{IsReaderTurn, IsEager, Drains-refl, consume-Drains}
use p2pxineplugin.Writer.{
  little, int_rcpy, payload_offset, parse_video_header, parse_frames, int16_rcpy, ntohs, load16,
  write_chunk,
}
use p2pxineplugin.Writer.Words.{network_bytes, int_rcpy-network_bytes}
use p2pxineplugin.Writer.Append.{
  payload_of, IsVideoChunk, WriteEnd, write_chunk_lem, write_chunk_fair, write_chunk_oversize,
}
use p2pxineplugin.Writer.Shifted.{second_chunk_shifted}
use p2pxineplugin.Writer.Misplaced.{write_chunk_misplaces, write_chunk_overruns}
use p2pxineplugin.Checks.Data.{fresh, near_end, wrapped, crowded, video, one_byte}

pub video-IsVideoChunk : IsVideoChunk (video 5)
video-IsVideoChunk = omega arith

video_6-IsVideoChunk : IsVideoChunk (video 6)
video_6-IsVideoChunk = omega arith

pub fresh-IsAligned : IsAligned fresh
fresh-IsAligned = omega arith

near_end-IsAligned : IsAligned near_end
near_end-IsAligned = omega arith

crowded-IsAligned : IsAligned crowded
crowded-IsAligned = omega arith

wrapped-IsAligned : IsAligned wrapped
wrapped-IsAligned = omega arith

-- The payload of a chunk that fits before the end, and the put pointer behind it.
write_video :
    Returns
      (λ out. (contents out.0 ≡ 7 ∷ 8 ∷ 9 ∷ []) × (out.0.put ≡ 13))
      (write_chunk little (video 5) fresh [])
unfolding write_chunk payload_offset parse_video_header parse_frames int16_rcpy ntohs load16
    wait_for_space store_payload put_straight
write_video = (refl, refl)

one_byte-IsReaderTurn : IsReaderTurn one_byte
one_byte-IsReaderTurn r v = elim (Bool-cases (r.count == 0)) [
  | inl empty ↦ rw empty (Drains-refl v)
  | inr more ↦ rw more (consume-Drains 1 (ground arith) (omega (arith, v.readable.get_in)) v)
]

one_byte-IsEager : IsEager one_byte
unfolding consume
one_byte-IsEager r v some_bytes = ground arith

write_chunk_lem_example : WriteEnd little (video 5) crowded (one_byte ∷ [])
write_chunk_lem_example =
    write_chunk_lem little (video 5) crowded (one_byte ∷ []) video-IsVideoChunk crowded-IsAligned
      (omega arith) (one_byte-IsReaderTurn, tt)

write_chunk_fair_example :
    (s : Ring) × (rest : List (Ring → Ring)) × (write_chunk little
        (video 5)
        crowded
        (one_byte ∷ one_byte ∷ one_byte ∷ one_byte ∷ [])
      ≡ ok (s, rest))
write_chunk_fair_example =
    write_chunk_fair little (video 5) crowded (one_byte ∷ one_byte ∷ one_byte ∷ one_byte ∷ [])
      video-IsVideoChunk crowded-IsAligned (omega arith) (omega arith) (omega arith)
      (
        one_byte-IsReaderTurn,
        (one_byte-IsReaderTurn, (one_byte-IsReaderTurn, (one_byte-IsReaderTurn, tt))),
      )
      (one_byte-IsEager, (one_byte-IsEager, (one_byte-IsEager, (one_byte-IsEager, tt))))

write_chunk_oversize_example :
    write_chunk little (video 5) (record fresh { max_size = 8 }) (one_byte ∷ []) ≡ blocked
write_chunk_oversize_example =
    write_chunk_oversize little (video 5) (record fresh { max_size = 8 }) (one_byte ∷ [])
      video-IsVideoChunk (omega arith) (omega arith) (omega arith) (one_byte-IsReaderTurn, tt)

-- Of the second chunk the reader gets none: in front of it stand ten other bytes.
second_chunk_shifted_example :
    (t : Ring) × ((write_chunk little (video 5) fresh [] >>= λ out.
    write_chunk little (video 6) out.0 out.1)
      ≡ ok (t, []))
    × (contents t
        ≡ (contents fresh ++ payload_of (video 5))
          ++ take 3 (block fresh.buffer 3 10 ++ payload_of (video 6)))
second_chunk_shifted_example =
    second_chunk_shifted little (video 5) (video 6) fresh [] video-IsVideoChunk video_6-IsVideoChunk
      fresh-IsAligned (omega arith) (omega arith) (omega arith)

overrun : Ring
overrun =
    (write_chunk_misplaces little (video 5) near_end [] video-IsVideoChunk near_end-IsAligned
      (omega arith) (omega arith) (omega arith) (omega arith)).0

overrun_lem : write_chunk little (video 5) near_end [] ≡ ok (overrun, [])
unfolding overrun
overrun_lem =
    (write_chunk_misplaces little (video 5) near_end [] video-IsVideoChunk near_end-IsAligned
      (omega arith) (omega arith) (omega arith) (omega arith)).1

write_chunk_overruns_example : write_chunk little (video 6) (consume overrun 3) [] ≢ ok (fresh, [])
write_chunk_overruns_example =
    write_chunk_overruns little (video 5) near_end [] video-IsVideoChunk near_end-IsAligned
      (omega arith) (omega arith) (omega arith) overrun (video 6) 3 [] (fresh, []) (omega arith)
      overrun_lem video-IsVideoChunk.video tt

int_rcpy-network_bytes_example :
    int_rcpy little (network_bytes 0x01020304 ++ 5 ∷ []) 0 ≡ ok 0x01020304
int_rcpy-network_bytes_example = int_rcpy-network_bytes little 0x01020304 (5 ∷ []) (omega arith)
