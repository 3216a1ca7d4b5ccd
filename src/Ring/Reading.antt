-- ===== src/Ring/Reading.antt =====
-- One round of the read loop takes bytes off the front of the queue.
use p2pxineplugin.Base.{ℕ, ◌-◌, ◌≡◌, arith, min, ok}
use p2pxineplugin.Ring.{buffer_size, Ring, round_length}
use p2pxineplugin.Ring.Contents.{IsReadable}

-- A round never faults on a readable ring: it copies as many bytes as are wanted and wait, as far
-- as they lie before the end of the buffer.
pub round_length_lem :
    {r : Ring} (nlen : ℕ)
    → IsReadable r
    → round_length r nlen ≡ ok (min (min nlen r.count) (buffer_size - r.get))
unfolding round_length
round_length_lem nlen v = ground arith
