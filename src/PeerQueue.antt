-- ===== src/PeerQueue.antt =====
-- network.c: `peerChunks`, the queue of chunks that peers wait for, with `network_add_to_peerChunk`
-- and `network_send_chunks_to_peers`. `lookup` is `cb_get_chunk` on the chunk buffer, which no other
-- thread changes during a call, and the argument `peer` is what `peerset_get_peer` returns.
pub mod Misuse
pub mod Entry
pub mod Send
use p2pxineplugin.Base.{
  ℕ, zero, suc, ◌+◌, Option, none, some, List, [], ◌∷◌, ◌++◌, ltb, ◌==◌, if◌then◌else◌, length,
  take, set, get_elem?, replicate, ℤ, pos, minus_one, Outcome, ok, fault, null_deref, out_of_bounds,
  uninitialised, dangling, double_free, or_fault, ◌>>=◌,
}
use p2pxineplugin.Chunk.{Chunk}

-- `struct PeerChunk`: the address of a `struct peer`, `none` for NULL, and a chunk number.
pub record PeerChunk : Type 0 where
  pub peer : Option ℕ
  pub chunk : ℤ

-- The globals `peerChunks` and `peerChunksSize`; a cell that was never written is `none`. The peers
-- are those of `peerSet`, which owns them: an address that is not allocated is `none`, and a peer is
-- its `id`, `none` for NULL. `sent` lists the calls of `sendChunk`.
pub record Queue : Type 0 where
  pub peer_chunks : Option (List (Option PeerChunk))
  pub peer_chunks_size : ℕ
  pub peers : ℕ → Option (Option ℕ)
  pub sent : List (ℕ × Chunk)

-- `realloc` to `n` cells.
unfoldable pub resize {ℓ} : {A : Type ℓ} → ℕ → Option (List (Option A)) → List (Option A)
resize n none = replicate n none
resize n (some cells) = take n (cells ++ replicate n none)

-- `network_add_to_peerChunk`. The two counters of an entry are both increments of the size.
unfoldable pub add_to_peer_chunk : (ℤ → Option Chunk) → Option ℕ → ℤ → Queue → Outcome (ℤ × Queue)
add_to_peer_chunk lookup peer id q = elim (lookup id) [
  | none ↦ ok (minus_one, q)
  | some _ ↦
      let cells = resize 1 q.peer_chunks in
      if ltb q.peer_chunks_size (length cells)
      then ok (
        pos 0,
        record q {
          peer_chunks =
              some (set cells q.peer_chunks_size (some (record { peer = peer; chunk = id })));
          peer_chunks_size = q.peer_chunks_size + 2;
        },
      )
      else fault out_of_bounds
]

-- The heap after `free(peer)`.
abbrev pub without : ℕ → (ℕ → Option (Option ℕ)) → ℕ → Option (Option ℕ)
without a peers b = if b == a then none else peers b

-- `free(peerChunks[i].peer)`
unfoldable pub free_peer : Option ℕ → Queue → Outcome Queue
free_peer none q = ok q
free_peer (some a) q = elim (q.peers a) [
  | none ↦ fault double_free
  | some _ ↦ ok (record q { peers = without a q.peers })
]

-- `sendChunk` to a peer of the queue, whose `id` is freed and made NULL. GRAPES reads the node that
-- it is given.
unfoldable pub send_to : ℕ → Chunk → Queue → Outcome Queue
send_to a c q = or_fault (q.peers a) dangling >>= λ id. or_fault id null_deref >>= λ node.
    ok (record q {
      peers = λ b. if b == a then some none else q.peers b;
      sent = q.sent ++ (node, c) ∷ [];
    })

-- One round of the loop, on its entry.
unfoldable pub send_entry : (ℤ → Option Chunk) → PeerChunk → Queue → Outcome Queue
send_entry lookup e q = elim (lookup e.chunk) [
  | none ↦ free_peer e.peer q
  | some c ↦ elim e.peer [ none ↦ free_peer none q | some a ↦ send_to a c q >>= free_peer (some a) ]
]

-- `peerChunks[i]`
unfoldable pub entry_at : ℕ → Queue → Outcome PeerChunk
entry_at i q = or_fault q.peer_chunks null_deref >>= λ cells.
    or_fault (get_elem? cells i) out_of_bounds >>= λ cell. or_fault cell uninitialised

-- `peerChunks[i].peer = NULL`
unfoldable pub forget_peer : ℕ → PeerChunk → Queue → Outcome Queue
forget_peer i e q = or_fault q.peer_chunks null_deref >>= λ cells.
    ok (record q { peer_chunks = some (set cells i (some (record e { peer = none }))) })

-- The loop from `i`, with the rounds that are left.
unfoldable pub send_from : (ℤ → Option Chunk) → ℕ → ℕ → Queue → Outcome Queue
send_from lookup zero i q = ok q
send_from lookup (suc rounds) i q = do
  e ← entry_at i q
  q' ← send_entry lookup e q
  q'' ← forget_peer i e q'
  send_from lookup rounds (i + 1) q''

-- `network_send_chunks_to_peers`
unfoldable pub send_chunks_to_peers : (ℤ → Option Chunk) → Queue → Outcome Queue
send_chunks_to_peers lookup q = send_from lookup q.peer_chunks_size 0 q >>= λ q'.
    ok (record q' { peer_chunks = none; peer_chunks_size = 0 })
