-- ===== src/PeerQueue/Misuse.antt =====
-- The queue of network.c in the way the threads use it: what a sequence of calls can reach.
use p2pxineplugin.Base.{
  pos, minus_one, Ensures-mono, sym, subst, ◌⊎◌, inl, inr, ◌∙◌, ℕ, ◌≡◌, refl, List, [], ◌∷◌, Option,
  none, some, ℤ, Outcome, ok, fault, out_of_bounds, ◌>>=◌, Ensures, Ensures-bind, Ensures-value,
  arith, Option-cases,
}
use p2pxineplugin.Chunk.{Chunk}
use p2pxineplugin.PeerQueue.{
  PeerChunk, Queue, add_to_peer_chunk, resize, send_from, send_chunks_to_peers, entry_at,
  send_entry, forget_peer, free_peer, send_to,
}

-- A call of another thread or of the receiver, with the chunk buffer that it sees.
pub data Call : Type 0 where
  add : (ℤ → Option Chunk) → Option ℕ → ℤ → Call
  send : (ℤ → Option Chunk) → Call

unfoldable pub call : Call → Queue → Outcome Queue
call (add lookup peer id) q = add_to_peer_chunk lookup peer id q >>= λ out. ok out.1
call (send lookup) q = send_chunks_to_peers lookup q

-- The calls in the order in which they take `peerChunkMutex`.
unfoldable pub calls : List Call → Queue → Outcome Queue
calls [] q = ok q
calls (c ∷ cs) q = call c q >>= calls cs

-- The queue is empty, or it counts two entries in a block of one cell.
pub record Empty (q : Queue) : Type 0 where
  pub no_block : q.peer_chunks ≡ none
  pub no_size : q.peer_chunks_size ≡ 0

pub record Stuck (q : Queue) : Type 0 where
  pub cell : PeerChunk
  pub one_cell : q.peer_chunks ≡ some (some cell ∷ [])
  pub two_entries : q.peer_chunks_size ≡ 2

abbrev pub IsSettled : Queue → Type 0
IsSettled q = Empty q ⊎ Stuck q

-- A round on the second entry of such a queue leaves the block.
second_entry :
    (lookup : ℤ → Option Chunk) (q : Queue) (x : Option PeerChunk)
    → q.peer_chunks ≡ some (x ∷ [])
    → send_from lookup 1 1 q ≡ fault out_of_bounds
unfolding send_from entry_at
second_entry lookup q x e = simp e

-- A round leaves the block as it is, up to the peer that it forgets.
send_entry-block :
    (lookup : ℤ → Option Chunk) (e : PeerChunk) (q : Queue)
    → Ensures (λ q'. q'.peer_chunks ≡ q.peer_chunks) (send_entry lookup e q)
unfolding send_entry send_to free_peer
send_entry-block lookup e q = ground arith

forget_first :
    (e : PeerChunk) (q : Queue) (x : Option PeerChunk)
    → q.peer_chunks ≡ some (x ∷ [])
    → forget_peer 0 e q
      ≡ ok (record q { peer_chunks = some (some (record e { peer = none }) ∷ []) })
unfolding forget_peer
forget_first e q x h = simp h

-- No send returns from a stuck queue.
Stuck-rounds :
    (lookup : ℤ → Option Chunk) (q : Queue) → Stuck q → Ensures (λ _. ⊥) (send_from lookup 2 0 q)
unfolding send_from
Stuck-rounds lookup q k =
    Ensures-bind (λ _. ⊥) (entry_at 0 q) _
      (λ e _.
        Ensures-bind (λ _. ⊥) (send_entry lookup e q) _
          (λ q' es. rest e q' (
            Ensures-value (λ q''. q''.peer_chunks ≡ q.peer_chunks) (send_entry lookup e q)
              (send_entry-block lookup e q) es)))
  where
    rest :
        (e : PeerChunk) (q' : Queue)
        → q'.peer_chunks ≡ q.peer_chunks
        → Ensures (λ _. ⊥) (forget_peer 0 e q' >>= send_from lookup 1 1)
    rest e q' same =
        let forgotten = record e { peer = none } in
        let left = record q' { peer_chunks = some (some forgotten ∷ []) } in
        rw (forget_first e q' (some k.cell) (same ∙ k.one_cell))
          (subst (Ensures (λ _. ⊥)) (sym (second_entry lookup left (some forgotten) refl)) tt)

Stuck-send :
    (lookup : ℤ → Option Chunk) (q : Queue)
    → Stuck q
    → Ensures (λ _. ⊥) (send_chunks_to_peers lookup q)
unfolding send_chunks_to_peers
Stuck-send lookup q k =
    Ensures-bind (λ _. ⊥) (send_from lookup q.peer_chunks_size 0 q) _
      (λ q' e.
        elim (Ensures-value (λ _. ⊥) (send_from lookup 2 0 q) (Stuck-rounds lookup q k)
          (subst (λ n. send_from lookup n 0 q ≡ ok q') k.two_entries e)) [ ])

-- What a call leaves: an empty queue or a stuck one, and the same list of sent chunks.
pub record Unsent (before : List (ℕ × Chunk)) (q : Queue) : Type 0 where
  pub state : IsSettled q
  pub sent : q.sent ≡ before

-- The first entry, in an empty queue, gets a block of one cell and counts twice.
pub add_first :
    (lookup : ℤ → Option Chunk) (peer : Option ℕ) (id : ℤ) (q : Queue) {c : Chunk}
    → lookup id ≡ some c
    → Empty q
    → add_to_peer_chunk lookup peer id q
      ≡ ok (
        pos 0,
        record q {
          peer_chunks = some (some (record { peer = peer; chunk = id }) ∷ []);
          peer_chunks_size = 2;
        },
      )
unfolding add_to_peer_chunk resize
add_first lookup peer id q e k = ground arith

add_missing :
    (lookup : ℤ → Option Chunk) (peer : Option ℕ) (id : ℤ) (q : Queue)
    → lookup id ≡ none
    → add_to_peer_chunk lookup peer id q ≡ ok (minus_one, q)
unfolding add_to_peer_chunk
add_missing lookup peer id q e = ground arith

-- The next one is written behind it.
pub add_second :
    (lookup : ℤ → Option Chunk) (peer : Option ℕ) (id : ℤ) (q : Queue) {c : Chunk}
    → lookup id ≡ some c
    → Stuck q
    → add_to_peer_chunk lookup peer id q ≡ fault out_of_bounds
unfolding add_to_peer_chunk resize
add_second lookup peer id q e k = ground arith

send_nothing :
    (lookup : ℤ → Option Chunk) (q : Queue)
    → Empty q
    → send_chunks_to_peers lookup q ≡ ok (record q { peer_chunks = none; peer_chunks_size = 0 })
unfolding send_chunks_to_peers send_from
send_nothing lookup q k = simp k.no_size

pub Ensures-eq :
    {A : Type 0} (P : A → Type 0) (m m' : Outcome A) → m ≡ m' → Ensures P m' → Ensures P m
Ensures-eq P m m' e h = subst (Ensures P) (sym e) h

-- What a call leaves of an empty or a stuck queue.
pub add-Unsent :
    (lookup : ℤ → Option Chunk) (peer : Option ℕ) (id : ℤ) (q : Queue)
    → IsSettled q
    → Ensures (λ out. Unsent q.sent out.1) (add_to_peer_chunk lookup peer id q)
add-Unsent lookup peer id q state = added (Option-cases (lookup id)) state
  where
    added :
        (lookup id ≡ none) ⊎ ((c : Chunk) × (lookup id ≡ some c))
        → IsSettled q
        → Ensures (λ out. Unsent q.sent out.1) (add_to_peer_chunk lookup peer id q)
    added (inl e) st =
        Ensures-eq (λ out. Unsent q.sent out.1) _ _ (add_missing lookup peer id q e)
          (record { state = st; sent = refl })
    added (inr (c, e)) (inl k) =
        Ensures-eq (λ out. Unsent q.sent out.1) _ _ (add_first lookup peer id q e k)
          (record {
            state = inr (record {
              cell = record { peer = peer; chunk = id };
              one_cell = refl;
              two_entries = refl;
            });
            sent = refl;
          })
    added (inr (c, e)) (inr k) =
        Ensures-eq (λ out. Unsent q.sent out.1) _ _ (add_second lookup peer id q e k) tt

pub send-Unsent :
    (lookup : ℤ → Option Chunk) (q : Queue)
    → IsSettled q
    → Ensures (Unsent q.sent) (send_chunks_to_peers lookup q)
send-Unsent lookup q (inl k) =
    Ensures-eq (Unsent q.sent) _ _ (send_nothing lookup q k)
      (record { state = inl (record { no_block = refl; no_size = refl }); sent = refl })
send-Unsent lookup q (inr k) =
    Ensures-mono (λ _. ⊥) (Unsent q.sent) (send_chunks_to_peers lookup q) (Stuck-send lookup q k)
      (λ q' b. elim b [ ])

call-Unsent : (c : Call) (q : Queue) → IsSettled q → Ensures (Unsent q.sent) (call c q)
unfolding call
call-Unsent (add lookup peer id) q state =
    Ensures-bind (Unsent q.sent) (add_to_peer_chunk lookup peer id q) _ (λ out e.
      Ensures-value (λ out'. Unsent q.sent out'.1) (add_to_peer_chunk lookup peer id q)
        (add-Unsent lookup peer id q state) e)
call-Unsent (send lookup) q state = send-Unsent lookup q state

calls-Unsent : (cs : List Call) (q : Queue) → IsSettled q → Ensures (Unsent q.sent) (calls cs q)
unfolding calls
calls-Unsent [] q state = record { state = state; sent = refl }
calls-Unsent (c ∷ cs) q state = Ensures-bind (Unsent q.sent) (call c q) (calls cs) (λ q' e.
    let u = Ensures-value (Unsent q.sent) (call c q) (call-Unsent c q state) e in
    Ensures-mono (Unsent q'.sent) (Unsent q.sent) (calls cs q') (calls-Unsent cs q' u.state)
      (λ q'' u'. record { state = u'.state; sent = u'.sent ∙ u.sent }))

-- Every sequence of additions to an empty queue and sends that returns, whatever the chunk
-- buffer holds at each call, has sent no chunk.
pub no_chunk_sent :
    (cs : List Call) (q : Queue) → Empty q → Ensures (λ q'. q'.sent ≡ q.sent) (calls cs q)
no_chunk_sent cs q k =
    Ensures-mono (Unsent q.sent) (λ q'. q'.sent ≡ q.sent) (calls cs q) (calls-Unsent cs q (inl k))
      (λ q' u. u.sent)
