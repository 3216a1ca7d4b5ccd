-- ===== src/PeerQueue/Entry.antt =====
-- One entry of the queue of network.c: what its round of the loop sends and frees, and what it leaves
-- for the entries behind it.
use p2pxineplugin.Base.{
  ◌⊎◌, inl, inr, fun_ext, ℕ, ◌≡◌, ◌≢◌, ◌∙◌, refl, sym, ap, ap₂, Bool, false, ◌||◌, List, [], ◌∷◌,
  ◌++◌, Option, none, some, ◌==◌, if◌then◌else◌, All, append-nil, Option-cases, ok, ◌>>=◌, arith, ℤ,
}
use p2pxineplugin.Chunk.{Chunk}
use p2pxineplugin.PeerQueue.{PeerChunk, Queue, without, send_entry, send_to, free_peer}

-- The peer of an entry, if it has one, is allocated and has a node.
abbrev pub IsLive : (ℕ → Option (Option ℕ)) → Option ℕ → Type 0
IsLive peers none = Unit
IsLive peers (some a) = (node : ℕ) × (peers a ≡ some (some node))

-- No later entry has the same peer.
abbrev pub Apart : Option ℕ → Option ℕ → Type 0
Apart none q = Unit
Apart (some a) q = q ≢ some a

-- Every entry's peer is live, and no two entries share one.
abbrev pub IsReady : (ℕ → Option (Option ℕ)) → List PeerChunk → Type 0
IsReady peers [] = Unit
IsReady peers (e ∷ es) =
    IsLive peers e.peer × All (λ e'. Apart e.peer e'.peer) es × IsReady peers es

-- What one entry sends, and what all of them send, read off the heap before the call.
unfoldable pub sent_for :
    (ℤ → Option Chunk) → (ℕ → Option (Option ℕ)) → PeerChunk → List (ℕ × Chunk)
sent_for lookup peers e = elim (lookup e.chunk) [
  | none ↦ []
  | some c ↦ elim e.peer [
    | none ↦ []
    | some a ↦ elim (peers a) [ some (some node) ↦ (node, c) ∷ [] | _ ↦ [] ]
  ]
]

unfoldable pub all_sent :
    (ℤ → Option Chunk) → (ℕ → Option (Option ℕ)) → List PeerChunk → List (ℕ × Chunk)
all_sent lookup peers [] = []
all_sent lookup peers (e ∷ es) = sent_for lookup peers e ++ all_sent lookup peers es

-- An entry of the queue has this peer.
abbrev pub held_by : Option ℕ → ℕ → Bool
held_by none a = false
held_by (some p) a = a == p

unfoldable pub held : List PeerChunk → ℕ → Bool
held [] a = false
held (e ∷ es) a = held_by e.peer a || held es a

-- The heap without the peers of the entries.
abbrev pub without_held : List PeerChunk → (ℕ → Option (Option ℕ)) → ℕ → Option (Option ℕ)
without_held es peers a = if held es a then none else peers a

-- The heap after one entry.
abbrev pub released : Option ℕ → (ℕ → Option (Option ℕ)) → ℕ → Option (Option ℕ)
released none peers = peers
released (some a) peers = without a peers

-- The heap after a peer was sent to and freed.
without_twice :
    (a : ℕ) (peers : ℕ → Option (Option ℕ))
    → without a (λ b. if b == a then some none else peers b) ≡ without a peers
without_twice a peers = fun_ext (λ b. ground arith)

send_to_live :
    (a node : ℕ) (c : Chunk) (q : Queue)
    → q.peers a ≡ some (some node)
    → (send_to a c q >>= free_peer (some a))
      ≡ ok (record q {
        peers = without a (λ b. if b == a then some none else q.peers b);
        sent = q.sent ++ (node, c) ∷ [];
      })
unfolding send_to free_peer
send_to_live a node c q e = ground arith

pub send_entry_lem :
    (lookup : ℤ → Option Chunk) (p : Option ℕ) (id : ℤ) (q : Queue)
    → IsLive q.peers p
    → send_entry lookup (record { peer = p; chunk = id }) q
      ≡ ok (record q {
        peers = released p q.peers;
        sent = q.sent ++ sent_for lookup q.peers (record { peer = p; chunk = id });
      })
unfolding send_entry sent_for free_peer
send_entry_lem lookup p id q live = on_lookup (Option-cases (lookup id)) p live
  where
    on_lookup :
        (lookup id ≡ none) ⊎ ((c : Chunk) × (lookup id ≡ some c))
        → (p : Option ℕ) → IsLive q.peers p
        → send_entry lookup (record { peer = p; chunk = id }) q
          ≡ ok (record q {
            peers = released p q.peers;
            sent = q.sent ++ sent_for lookup q.peers (record { peer = p; chunk = id });
          })
    on_lookup (inl e) none l = ground (arith, append-nil q.sent)
    on_lookup (inl e) (some a) (node, l) = ground (arith, append-nil q.sent)
    on_lookup (inr (c, e)) none l = ground (arith, append-nil q.sent)
    on_lookup (inr (c, e)) (some a) (node, l) =
        sends
        ∙ ap ok (
            ap₂ (λ h xs. record q { peers = h; sent = q.sent ++ xs }) (without_twice a q.peers)
              (sym listed))
      where
        sends :
            send_entry lookup (record { peer = some a; chunk = id }) q
            ≡ ok (record q {
              peers = without a (λ b. if b == a then some none else q.peers b);
              sent = q.sent ++ (node, c) ∷ [];
            })
        sends = ground (arith, send_to_live a node c q l)

        listed : sent_for lookup q.peers (record { peer = some a; chunk = id }) ≡ (node, c) ∷ []
        listed = ground arith

pub without_held-released :
    (e : PeerChunk) (es : List PeerChunk) (peers : ℕ → Option (Option ℕ))
    → without_held es (released e.peer peers) ≡ without_held (e ∷ es) peers
unfolding held
without_held-released e es peers = fun_ext (λ a. at e.peer a)
  where
    at :
        (p : Option ℕ) (a : ℕ)
        → (if held es a then none else released p peers a)
          ≡ (if held_by p a || held es a then none else peers a)
    at none a = refl
    at (some b) a = ground arith

without_ne :
    (a b : ℕ) (peers : ℕ → Option (Option ℕ)) → some b ≢ some a → without a peers b ≡ peers b
without_ne a b peers d = ground (arith, λ (e : b ≡ a). d (ap some e))

-- A peer that differs from the freed one is still live, and is sent the same.
pub IsLive-released :
    (p p' : Option ℕ) (peers : ℕ → Option (Option ℕ))
    → Apart p p'
    → IsLive peers p'
    → IsLive (released p peers) p'
IsLive-released none p' peers d l = l
IsLive-released (some a) none peers d l = tt
IsLive-released (some a) (some b) peers d (node, l) = (node, without_ne a b peers d ∙ l)

pub sent_for-released :
    (lookup : ℤ → Option Chunk) (p p' : Option ℕ) (id : ℤ) (peers : ℕ → Option (Option ℕ))
    → Apart p p'
    → sent_for lookup (released p peers) (record { peer = p'; chunk = id })
      ≡ sent_for lookup peers (record { peer = p'; chunk = id })
unfolding sent_for
sent_for-released lookup none p' id peers d = refl
sent_for-released lookup (some a) none id peers d = ground arith
sent_for-released lookup (some a) (some b) id peers d = ground (arith, without_ne a b peers d)

pub all_sent-released :
    (lookup : ℤ → Option Chunk) (p : Option ℕ) (peers : ℕ → Option (Option ℕ)) (es : List PeerChunk)
    → All (λ e'. Apart p e'.peer) es
    → all_sent lookup (released p peers) es ≡ all_sent lookup peers es
unfolding all_sent
all_sent-released lookup p peers [] d = refl
all_sent-released lookup p peers (e ∷ es) (d, ds) =
    ap₂ ◌++◌ (sent_for-released lookup p e.peer e.chunk peers d)
      (all_sent-released lookup p peers es ds)

pub IsReady-released :
    (p : Option ℕ) (peers : ℕ → Option (Option ℕ)) (es : List PeerChunk)
    → All (λ e'. Apart p e'.peer) es
    → IsReady peers es
    → IsReady (released p peers) es
IsReady-released p peers [] d k = tt
IsReady-released p peers (e ∷ es) (d, ds) (live, apart, k) =
    (IsLive-released p e.peer peers d live, apart, IsReady-released p peers es ds k)
