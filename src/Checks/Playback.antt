-- ===== src/Checks/Playback.antt =====
-- A chunk from a message to a read.
use p2pxineplugin.Base.{◌≡◌, refl, inl, arith, ◌++◌, some, pos, ok, Returns, length}
use p2pxineplugin.Ring.Contents.{contents}
use p2pxineplugin.Writer.Append.{payload_of}
use p2pxineplugin.Output.Module.{output_ffmpeg}
use p2pxineplugin.Grapes.Listed.{listed-IsLawful}
use p2pxineplugin.Network.{Node, handle_chunk_message}
use p2pxineplugin.Plugin.{read}
use p2pxineplugin.Plugin.QuietRead.{quiet_turns}
use p2pxineplugin.Playback.{Gets, played_back}
use p2pxineplugin.Checks.Data.{machine, plugin, empty_slots, video, fresh}
use p2pxineplugin.Checks.Network.{grapes, state}
use p2pxineplugin.Checks.Writing.{video-IsVideoChunk, fresh-IsAligned}

played_back_example :
    let bytes = contents fresh ++ payload_of (video 5) in
    (n' : Node grapes (output_ffmpeg machine)) × (handle_chunk_message grapes
        (output_ffmpeg machine)
        (some (video 5, 7))
        state.node
      ≡ ok n')
    × Returns (Gets bytes) (
        read 4096
          (record plugin { ring = n'.output.ring })
          (λ i. 0)
          (pos (length bytes))
          quiet_turns)
played_back_example =
    played_back grapes (listed-IsLawful 8) machine (video 5) 7 empty_slots state.node 4096 plugin
      (λ i. 0) refl (omega arith) (inl refl) video-IsVideoChunk fresh-IsAligned (omega arith)
      (omega arith) (omega arith) (omega arith)
