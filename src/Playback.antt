-- ===== src/Playback.antt =====
-- A chunk on its way from a message of a peer (network.c, output_ffmpeg.c) to a read of xine
-- (input_p2p.c).
use p2pxineplugin.Base.{
  ℕ, ◌+◌, ◌≤◌, ◌≡◌, ◌∙◌, sym, ap, List, [], ◌++◌, append-nil, nil_of_length, Option, some, arith,
  length, length-append, length-tabulate, pos, ◌≤ℤ◌, ◌<ℤ◌, ok, Returns, Returns-mono,
}
use p2pxineplugin.Chunk.{Chunk}
use p2pxineplugin.Ring.{buffer_size, Memory}
use p2pxineplugin.Ring.Contents.{block, contents, IsReadable, IsAligned, length-contents}
use p2pxineplugin.Writer.Append.{IsVideoChunk, payload_of}
use p2pxineplugin.Output.{Machine}
use p2pxineplugin.Output.Module.{output_ffmpeg}
use p2pxineplugin.Output.Deliver.{IsDue}
use p2pxineplugin.Grapes.{Grapes, IsLawful}
use p2pxineplugin.Network.{Node, handle_chunk_message}
use p2pxineplugin.Network.Arrival.{handle_chunk_message-Arrived}
use p2pxineplugin.Plugin.{Plugin, Reply, preview_length, read}
use p2pxineplugin.Plugin.Read.{HasPreview}
use p2pxineplugin.Plugin.QuietRead.{QuietRead, quiet_turns, from_ring, read_quiet}

-- A read that gets these bytes and leaves none.
abbrev pub Gets : List ℕ → Reply → Type 0
Gets bytes out =
    (out.result ≡ pos (length bytes))
    × (block out.buf 0 (length bytes) ≡ bytes)
    × (contents out.plugin.ring ≡ [])

past-preview_length :
    (p : Plugin) (nlen : ℕ) → p.preview_size ≤ℤ pos p.curpos → preview_length p nlen ≡ 0
unfolding preview_length
past-preview_length p nlen h = ground arith

-- A read of as many bytes as the ring holds, behind the preview.
read_all :
    (max_preview_size : ℕ) (p : Plugin) (buf : Memory) (bytes : List ℕ)
    → HasPreview max_preview_size p
    → p.preview_size ≤ℤ pos p.curpos
    → IsReadable p.ring
    → contents p.ring ≡ bytes
    → Returns (Gets bytes) (read max_preview_size p buf (pos (length bytes)) quiet_turns)
read_all max_preview_size p buf bytes h past v e =
    Returns-mono (QuietRead p buf (length bytes)) (Gets bytes)
      (read max_preview_size p buf (pos (length bytes)) quiet_turns)
      (read_quiet max_preview_size p buf (length bytes) h v) gets
  where
    whole : from_ring p (length bytes) ≡ length bytes
    whole =
        omega
          (arith, past-preview_length p (length bytes) past, ap length e, length-contents p.ring)

    gets : (out : Reply) → QuietRead p buf (length bytes) out → Gets bytes out
    gets out r =
        let all : block out.buf 0 (length bytes) ++ contents out.plugin.ring ≡ bytes =
          ap (λ n. block out.buf 0 n ++ contents out.plugin.ring) (sym whole) ∙ r.taken ∙ e in
        let total = ap length all in
        let empty : contents out.plugin.ring ≡ [] = nil_of_length (contents out.plugin.ring) (
          omega (
            arith,
            total,
            length-append (block out.buf 0 (length bytes)) (contents out.plugin.ring),
            length-tabulate (length bytes) (λ k. out.buf (0 + k)),
          )) in
        (
          r.result ∙ ap pos (omega (arith, whole, past-preview_length p (length bytes) past)),
          sym (append-nil (block out.buf 0 (length bytes)))
              ∙ ap (λ l. block out.buf 0 (length bytes) ++ l) (sym empty)
              ∙ all,
          empty,
        )

-- A chunk message with a video chunk that is newer than the last one played and due, handled
-- with the module `output_ffmpeg` where there is a buffer and an aligned ring has room for the
-- chunk, and then a read by xine on that ring, behind the preview and while the writer is
-- silent, of as many bytes as the ring held and the payload has: both return, the read gets
-- exactly these bytes at the start of the caller's memory, and the ring is empty.
pub played_back :
    (G : Grapes) (L : IsLawful G) (m : Machine) (c : Chunk) (trans_id : ℕ)
    (slots : List (Option Chunk)) (n : Node G (output_ffmpeg m)) (max_preview_size : ℕ) (p : Plugin)
    (buf : Memory)
    → n.output.output_buffer ≡ some slots
    → n.output.played_chunk <ℤ c.id
    → IsDue c n.output
    → IsVideoChunk c
    → IsAligned n.output.ring
    → n.output.ring.max_size ≤ buffer_size
    → n.output.ring.count + c.size ≤ n.output.ring.max_size
    → HasPreview max_preview_size p
    → p.preview_size ≤ℤ pos p.curpos
    → let bytes = contents n.output.ring ++ payload_of c in
      (n' : Node G (output_ffmpeg m)) × (handle_chunk_message G
          (output_ffmpeg m)
          (some (c, trans_id))
          n
        ≡ ok n')
      × Returns (Gets bytes) (
          read max_preview_size
            (record p { ring = n'.output.ring })
            buf
            (pos (length bytes))
            quiet_turns)
played_back G L m c trans_id slots n max_preview_size p buf e new due v a small room h past =
    let (n', handled, k) =
      handle_chunk_message-Arrived G L m c trans_id slots n e new due v a small room in
    (
      n',
      handled,
      read_all max_preview_size (record p { ring = n'.output.ring }) buf
          (contents n.output.ring ++ payload_of c) h past k.played.readable k.played.appended,
    )
