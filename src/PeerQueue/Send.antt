-- ===== src/PeerQueue/Send.antt =====
-- `network_send_chunks_to_peers` on a queue whose entries fill its block: the reference that the loop
-- meets.
use p2pxineplugin.Base.{
  drop-set, drop_tail, ℕ, suc, ◌+◌, ◌≡◌, ◌∙◌, refl, sym, ap, ap₂, List, [], ◌∷◌, ◌++◌, Option, none,
  some, get_elem?, set, drop, map, length, append-nil, append_assoc, Outcome, ok, ◌>>=◌, arith, ℤ,
}
use p2pxineplugin.Chunk.{Chunk}
use p2pxineplugin.PeerQueue.{
  PeerChunk, Queue, entry_at, forget_peer, send_from, send_chunks_to_peers,
}
use p2pxineplugin.PeerQueue.Entry.{
  IsLive, IsReady, sent_for, all_sent, held, without_held, released, send_entry_lem,
  without_held-released, all_sent-released, IsReady-released,
}

entry_at_lem :
    (i : ℕ) (q : Queue) (cells : List (Option PeerChunk)) (e : PeerChunk)
    → q.peer_chunks ≡ some cells
    → get_elem? cells i ≡ some (some e)
    → entry_at i q ≡ ok e
unfolding entry_at
entry_at_lem i q cells e block cell = ground arith

-- The queue after the entries `es` are dealt with, with some block.
abbrev after : (ℤ → Option Chunk) → List PeerChunk → Queue → List (Option PeerChunk) → Queue
after lookup es q cells = record q {
  peer_chunks = some cells;
  peers = without_held es q.peers;
  sent = q.sent ++ all_sent lookup q.peers es;
}

-- One round on a live entry.
one_round :
    (lookup : ℤ → Option Chunk) (rounds i : ℕ) (q : Queue) (cells : List (Option PeerChunk))
    (e : PeerChunk)
    → q.peer_chunks ≡ some cells
    → get_elem? cells i ≡ some (some e)
    → IsLive q.peers e.peer
    → send_from lookup (suc rounds) i q
      ≡ send_from lookup rounds (i + 1) (record q {
        peer_chunks = some (set cells i (some (record e { peer = none })));
        peers = released e.peer q.peers;
        sent = q.sent ++ sent_for lookup q.peers e;
      })
unfolding send_from forget_peer
one_round lookup rounds i q cells e block cell live =
    ground (arith, entry_at_lem i q cells e block cell, send_entry_lem lookup e.peer e.chunk q live)

send_from_lem :
    (lookup : ℤ → Option Chunk) (es : List PeerChunk) (i : ℕ) (q : Queue)
    (cells : List (Option PeerChunk))
    → q.peer_chunks ≡ some cells
    → drop i cells ≡ map some es
    → IsReady q.peers es
    → (cells' : List (Option PeerChunk)) × (send_from lookup (length es) i q
        ≡ ok (after lookup es q cells'))
unfolding all_sent send_from held
send_from_lem lookup [] i q cells block rest k = (
  cells,
  ap ok (ap₂ (λ b xs. record q { peer_chunks = b; sent = xs }) block (sym (append-nil q.sent))),
)
send_from_lem lookup (e ∷ es) i q cells block rest (live, apart, k) =
    let (here, later) = drop_tail i cells rest in
    let cells' = set cells i (some (record e { peer = none })) in
    let q' = record q {
      peer_chunks = some cells';
      peers = released e.peer q.peers;
      sent = q.sent ++ sent_for lookup q.peers e;
    } in
    let (left, h) =
      send_from_lem lookup es (i + 1) q' cells' refl (next cells i e ∙ later)
        (IsReady-released e.peer q.peers es apart k) in
    (
      left,
      one_round lookup (length es) i q cells e block here live
          ∙ h
          ∙ ap ok (
              ap₂ (λ h xs. record q { peer_chunks = some left; peers = h; sent = xs })
                (without_held-released e es q.peers)
                (append_assoc q.sent (sent_for lookup q.peers e)
                    (all_sent lookup (released e.peer q.peers) es)
                  ∙ ap (λ xs. q.sent ++ (sent_for lookup q.peers e ++ xs))
                      (all_sent-released lookup e.peer q.peers es apart))),
    )
  where
    next :
        (cells : List (Option PeerChunk)) (i : ℕ) (e : PeerChunk)
        → drop (i + 1) (set cells i (some (record e { peer = none }))) ≡ drop (suc i) cells
    next cells i e =
        let n : i + 1 ≡ suc i = omega arith in
        ap (λ n'. drop n' (set cells i (some (record e { peer = none })))) n
        ∙ drop-set i cells (some (record e { peer = none }))

-- Sending a queue whose entries fill its block and are as many as its size, with peers that
-- are allocated, have a node and differ, sends in order the chunks that are still in the chunk
-- buffer to their peers' nodes, frees the peers of all entries in `peerSet` and no other, and
-- leaves an empty queue.
pub send_chunks_to_peers_lem :
    (lookup : ℤ → Option Chunk) (es : List PeerChunk) (q : Queue)
    → q.peer_chunks ≡ some (map some es)
    → q.peer_chunks_size ≡ length es
    → IsReady q.peers es
    → send_chunks_to_peers lookup q
      ≡ ok (record {
        peer_chunks = none;
        peer_chunks_size = 0;
        peers = without_held es q.peers;
        sent = q.sent ++ all_sent lookup q.peers es;
      })
unfolding send_chunks_to_peers
send_chunks_to_peers_lem lookup es q block count k =
    ap (λ n. send_from lookup n 0 q >>= reset) count
    ∙ ap (λ m. m >>= reset) (send_from_lem lookup es 0 q (map some es) block refl k).1
  where
    reset : Queue → Outcome Queue
    reset q' = ok (record q' { peer_chunks = none; peer_chunks_size = 0 })
