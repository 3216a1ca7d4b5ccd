-- ===== src/Checks/Reading.antt =====
-- Reads of the plugin at concrete inputs.
use p2pxineplugin.Base.{
  ◌==◌, if◌then◌else◌, false, All, List, Safely, ◌≡◌, refl, arith, [], ◌∷◌, pos, minus_one, ok,
  Returns,
}
use p2pxineplugin.Ring.{Ring, round_length, consume}
use p2pxineplugin.Ring.Contents.{block, contents, IsReadable, IsAligned}
use p2pxineplugin.Plugin.{
  Turn, Reply, read, read_into, read_loop, read_round, deliver_round, finish_read, preview_length,
}
use p2pxineplugin.Plugin.Read.{arrivals}
use p2pxineplugin.Plugin.QuietRead.{QuietRead, quiet_turns, quiet-IsWriterTurn}
use p2pxineplugin.Plugin.Quiet.{quiet}
use p2pxineplugin.Plugin.Stream.{IsWriterTurn}
use p2pxineplugin.Plugin.Calls.{Block, read_block, get_optional_data}
use p2pxineplugin.Plugin.BlockRead.{BlockEnd, read_block_lem}
use p2pxineplugin.Plugin.Session.{
  Call, read_call, read_block_call, optional_data_call, constant_call, turns_of, calls,
}
use p2pxineplugin.Plugin.Session.Kept.{IsServing, Served}
use p2pxineplugin.Plugin.Session.Serving.{calls-Served}
use p2pxineplugin.Plugin.Alike.{with_ring, Alike, read-Alike}
use p2pxineplugin.Ring.View.{view, view_of_contents, laid_out}
use p2pxineplugin.Plugin.Preview.{FirstPreview, first_preview}
use p2pxineplugin.Checks.Data.{wrapped, plugin, with_preview}

pub wrapped-IsAligned : IsAligned wrapped
wrapped-IsAligned = omega arith

-- Three of the four bytes are read across the end.
read_three :
    Returns
      (λ out.
        (out.result ≡ pos 3) × (block out.buf 0 3 ≡ 147 ∷ 148 ∷ 0 ∷ []) × (out.plugin.curpos ≡ 3))
      (read 4096 plugin (λ i. 0) (pos 3) quiet_turns)
unfolding read_into read_loop read_round deliver_round round_length consume finish_read
    preview_length
read_three = (refl, refl, refl)

-- A writer that stores one byte while the reader waits.
abbrev refill : Ring → Ring
refill r = if r.count == 0 then laid_out (9 ∷ []) else r

abbrev refilled : Turn
refilled = record { before = λ r. r; waiting = refill; timed_out = false }

-- Two rounds for the bytes of the ring, and one that waits for the writer.
abbrev three_rounds : List Turn
three_rounds = quiet ∷ quiet ∷ refilled ∷ []

one_arrives : arrivals 8 with_preview (λ i. 0) 7 three_rounds ≡ 9 ∷ []
unfolding read_loop read_round deliver_round round_length consume preview_length
one_arrives = refl

first_preview_example :
    Returns
      (FirstPreview 4096 plugin)
      (get_optional_data 4096 7 minus_one plugin (λ i. 0) 7 quiet_turns)
first_preview_example =
    first_preview 4096 7 minus_one plugin (λ i. 0) refl refl refl wrapped-IsAligned.readable

-- The bytes of `wrapped` from the start of the buffer on.
abbrev straight : Ring
straight = laid_out (contents wrapped)

straight-IsReadable : IsReadable straight
straight-IsReadable = record { get_in = omega arith; count_in = omega arith }

same_view : view wrapped wrapped-IsAligned.readable ≡ view straight straight-IsReadable
same_view = view_of_contents wrapped straight wrapped-IsAligned.readable straight-IsReadable refl

read-Alike_example :
    (out : Reply) × (out' : Reply) × (read 4096 plugin (λ i. 0) (pos 3) quiet_turns ≡ ok out)
    × (read 4096 (with_ring plugin straight) (λ i. 0) (pos 3) quiet_turns ≡ ok out')
    × Alike plugin 3 out out'
read-Alike_example =
    read-Alike 4096 plugin straight (λ i. 0) 3 wrapped-IsAligned.readable straight-IsReadable
      (omega arith) same_view

abbrev element : Block
element = record { mem = λ i. 0; max_size = pos 5; size = pos 0 }

-- Six bytes are asked for, five have room, and four are there.
read_block_lem_example :
    Returns (BlockEnd plugin 5) (read_block 4096 plugin element (pos 6) quiet_turns)
read_block_lem_example =
    read_block_lem 4096 plugin element 6 5 (pos 6) refl refl (omega arith)
      wrapped-IsAligned.readable

abbrev requests : List Call
requests =
    optional_data_call (λ i. 0) 7 quiet_turns
    ∷ read_call (λ i. 0) (pos 3) (quiet ∷ [])
    ∷ constant_call
    ∷ read_block_call element (pos 2) []
    ∷ []

plugin-IsServing : IsServing 4096 plugin
plugin-IsServing = record {
  readable = wrapped-IsAligned.readable;
  in_array = omega arith;
  not_negative = omega arith;
}

quiet_requests : All (λ c. All IsWriterTurn (turns_of c)) requests
quiet_requests = (
  (quiet-IsWriterTurn, (quiet-IsWriterTurn, (quiet-IsWriterTurn, tt))),
  ((quiet-IsWriterTurn, tt), (tt, (tt, tt))),
)

calls-Served_example : Safely (Served 4096 plugin) (calls 4096 7 minus_one requests plugin)
calls-Served_example = calls-Served 4096 7 minus_one requests plugin plugin-IsServing quiet_requests
