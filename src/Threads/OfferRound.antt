-- ===== src/Threads/OfferRound.antt =====
-- What a round of `threads_offer_chunk` sends.
use p2pxineplugin.Base.{
  ℕ, ◌+◌, ◌≤◌, ◌≡◌, ◌≢◌, ◌∙◌, sym, ap₂, Bool-cases, inl, inr, List, [], ◌∷◌, ◌++◌, append-nil,
  append_assoc, arith, take, length, length-take, All, ◌==◌, if◌then◌else◌,
}
use p2pxineplugin.Grapes.{Grapes}
use p2pxineplugin.Output.{Machine}
use p2pxineplugin.Network.{Message, offer_chunks, chunk_buffer_to_buffermap}
use p2pxineplugin.Threads.{State, offer_one, offer_to, offer_chunk}

-- The neighbours that get an offer.
abbrev pub but_server : ℕ → List ℕ → List ℕ
but_server server [] = []
but_server server (nb ∷ nbs) =
    if server == nb then but_server server nbs else nb ∷ but_server server nbs

-- An offer of a set to each of them, numbered from `first` on.
abbrev pub offers : {S : Type 0} → S → List ℕ → ℕ → List (Message S)
offers set [] first = []
offers set (nb ∷ nbs) first = offer_chunks nb set 50 first ∷ offers set nbs (first + 1)

length-but_server : (server : ℕ) (nbs : List ℕ) → length (but_server server nbs) ≤ length nbs
length-but_server server [] = omega arith
length-but_server server (nb ∷ nbs) = ground (arith, length-but_server server nbs)

All-but_server : (server : ℕ) (nbs : List ℕ) → All (λ nb. server ≢ nb) (but_server server nbs)
All-but_server server [] = tt
All-but_server server (nb ∷ nbs) = elim (Bool-cases (server == nb)) [
  | inl same ↦ rw same (All-but_server server nbs)
  | inr other ↦ rw other ((λ e. ground (arith, e, other)), All-but_server server nbs)
]

module _ (G : Grapes) (m : Machine) where
  -- The state with these messages sent and this next number.
  abbrev with_sent : List (Message G.IdSet) → ℕ → State G m → State G m
  with_sent msgs n s = record s { node = record s.node { sent = msgs }; trans_id = n }

  -- The state after offers of the chunk buffer to the nodes `to`.
  abbrev pub offered : List ℕ → State G m → State G m
  offered to s = record s {
    node = record s.node {
      sent = s.node.sent ++ offers (chunk_buffer_to_buffermap G s.node.chunk_buffer) to s.trans_id;
    };
    trans_id = s.trans_id + length to;
  }

  offered-nil : (s : State G m) → offered [] s ≡ s
  offered-nil s = ap₂ (λ l n. with_sent l n s) (append-nil s.node.sent) (omega arith)

  offered-cons :
      (nb : ℕ) (to : List ℕ) (s : State G m)
      → offered to (offered (nb ∷ []) s) ≡ offered (nb ∷ to) s
  offered-cons nb to s = ap₂ (λ l n. with_sent l n s) (append_assoc s.node.sent _ _) (omega arith)

  offer_to_lem :
      (nbs : List ℕ) (s : State G m) → offer_to G m nbs s ≡ offered (but_server s.node.server nbs) s
  unfolding offer_to offer_one
  offer_to_lem [] s = sym (offered-nil s)
  offer_to_lem (nb ∷ nbs) s = elim (Bool-cases (s.node.server == nb)) [
    | inl same ↦ rw same (offer_to_lem nbs s)
    | inr other ↦ rw other (offer_to_lem nbs (offered (nb ∷ []) s) ∙ offered-cons nb _ s)
  ]

-- A round of offers sends at most ten, one to each of the first ten neighbours that is not the
-- server, each with the chunk buffer's set, the limit 50 and the next number, and changes
-- nothing else.
pub offer_chunk_lem :
    (G : Grapes) (m : Machine) (nbs : List ℕ) (s : State G m)
    → let to = but_server s.node.server (take 10 nbs) in
      (offer_chunk G m nbs s ≡ offered G m to s)
      × (length to ≤ 10)
      × All (λ nb. s.node.server ≢ nb) to
unfolding offer_chunk
offer_chunk_lem G m nbs s = (
  offer_to_lem G m (take 10 nbs) s,
  omega (arith, length-but_server s.node.server (take 10 nbs), length-take 10 nbs),
  All-but_server s.node.server (take 10 nbs),
)
