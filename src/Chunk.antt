-- ===== src/Chunk.antt =====
-- A chunk of the stream: the fields of GRAPES' `struct chunk` that this code uses.
use p2pxineplugin.Base.{ℕ, List, ℤ}

-- `bytes` is the block that `data` points to; its length is the size of the allocation. `size` is a
-- C `int` that is never negative in a chunk that `parseChunkMsg` has decoded.
pub record Chunk : Type 0 where
  pub id : ℤ
  pub size : ℕ
  pub bytes : List ℕ
