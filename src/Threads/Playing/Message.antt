-- ===== src/Threads/Playing/Message.antt =====
-- `playedChunk` over a message that brings a chunk or an offer.
use p2pxineplugin.Base.{
  ℕ, zero, suc, ◌+◌, ◌≡◌, ◌≢◌, ◌∙◌, refl, sym, ap, true, Option, none, some, arith, ℤ, minus_one,
  Outcome, ok, fault, blocked, exited, Ensures, Ensures-bind, Ensures-value,
}
use p2pxineplugin.Chunk.{Chunk}
use p2pxineplugin.Grapes.{Grapes}
use p2pxineplugin.Output.{Context, Machine, deliver}
use p2pxineplugin.Output.Module.{output_ffmpeg}
use p2pxineplugin.Output.Slots.{has_buffer, given}
use p2pxineplugin.Output.Played.{next_played, ByRule, RuleAfter, deliver-ByRule}
use p2pxineplugin.Network.{Node, hand_over, store_chunk, handle_chunk_message}
use p2pxineplugin.Threads.{
  Signal, State, Accepting, accept_missing, accept_one, accept_from, accept_offered, lookup,
  handle_offer,
}
use p2pxineplugin.Threads.Locks.{first_chunk, output_context}
use p2pxineplugin.Threads.Locks.Frame.{Same}

module _ (G : Grapes) where
  -- An offer leaves `firstChunk` once it is set.
  accept_one-first :
      (find : ℤ → Option Chunk) (id : ℤ) (a : Accepting G)
      → a.first_chunk ≢ minus_one
      → (accept_one G find id a).first_chunk ≡ a.first_chunk
  unfolding accept_one accept_missing
  accept_one-first find id a set = ground arith

  accept_from-first :
      (find : ℤ → Option Chunk) (limit : ℤ) (received : G.IdSet) (rounds i : ℕ) (a : Accepting G)
      → a.first_chunk ≢ minus_one
      → (accept_from G find limit received rounds i a).first_chunk ≡ a.first_chunk
  unfolding accept_from
  accept_from-first find limit received zero i a set = refl
  accept_from-first find limit received (suc rounds) i a set =
      let one = accept_one-first find (G.get_chunk received i) a set in
      let rest =
        accept_from-first find limit received rounds (i + 1)
          (accept_one G find (G.get_chunk received i) a) (λ e. set (sym one ∙ e)) in
      ground (arith, one, rest)

module _ (G : Grapes) (m : Machine) (first : ℤ) where
  -- There is a buffer, and the first chunk and the last one played are these.
  abbrev pub Playing : ℤ → State G m → Type 0
  Playing played s =
      (has_buffer s.node.output ≡ true)
      × (s.node.output.first_chunk ≡ first)
      × (s.node.output.played_chunk ≡ played)

  abbrev pub NodePlaying : ℤ → Node G (output_ffmpeg m) → Type 0
  NodePlaying played n =
      (has_buffer n.output ≡ true)
      × (n.output.first_chunk ≡ first)
      × (n.output.played_chunk ≡ played)

  -- What leaves the context and `firstChunk` leaves that.
  pub Same-Playing :
      (played : ℤ) (s : State G m) (o : Outcome (State G m))
      → Ensures (Same G m first_chunk s) o
      → Ensures (Same G m output_context s) o
      → Playing played s
      → Ensures (Playing played) o
  Same-Playing played s (ok t) f c (has, is_first, is_played) = (
    ap (λ (x : Context). given x.output_buffer) c ∙ has,
    f ∙ is_first,
    ap (λ (x : Context). x.played_chunk) c ∙ is_played,
  )
  Same-Playing played s (fault e) f c k = tt
  Same-Playing played s blocked f c k = tt
  Same-Playing played s exited f c k = tt

  store_chunk-Playing :
      (c : Chunk) (played : ℤ) (n : Node G (output_ffmpeg m))
      → NodePlaying played n
      → NodePlaying played (store_chunk G (output_ffmpeg m) c n)
  unfolding store_chunk
  store_chunk-Playing c played n k =
      elim (G.cb_add_chunk n.chunk_buffer c)
        as (λ b.
          NodePlaying played (elim b [ none ↦ n | some b ↦ record n { chunk_buffer = b } ])) [
            | none ↦ k
            | some b ↦ k
          ]

  rule-Playing :
      (c : Chunk) (played : ℤ) (n n' : Node G (output_ffmpeg m))
      → ByRule c n.output n'.output
      → NodePlaying played n
      → NodePlaying (next_played first played c.id) n'
  rule-Playing c played n n' k (has, is_first, is_played) = (
    k.buffered ∙ has,
    k.first ∙ is_first,
    k.played
        ∙ ap (λ f. next_played f n.output.played_chunk c.id) is_first
        ∙ ap (λ p. next_played first p c.id) is_played,
  )

  pub handle_chunk_message-Playing :
      (c : Chunk) (trans_id : ℕ) (played : ℤ) (n : Node G (output_ffmpeg m))
      → NodePlaying played n
      → Ensures
          (NodePlaying (next_played first played c.id))
          (handle_chunk_message G (output_ffmpeg m) (some (c, trans_id)) n)
  unfolding handle_chunk_message hand_over
  handle_chunk_message-Playing c trans_id played n k =
      let after = next_played first played c.id in
      Ensures-bind (NodePlaying after) (hand_over G (output_ffmpeg m) c trans_id n) _ (λ n' e.
        store_chunk-Playing c after n' (
          Ensures-value (NodePlaying after) (hand_over G (output_ffmpeg m) c trans_id n)
            (Ensures-bind (NodePlaying after) (deliver m c n.output) _ (λ out d.
              rule-Playing c played n (record n { output = out.1 })
                (Ensures-value (RuleAfter c n.output) (deliver m c n.output)
                  (deliver-ByRule m c n.output k.0) d)
                k))
            e))

  pub offer-Playing :
      first ≢ minus_one
      → (played : ℤ) (remote : ℕ) (sig : Signal G) (s : State G m) → Playing played s
      → Playing played (handle_offer G m remote sig s)
  unfolding handle_offer accept_offered
  offer-Playing set played remote sig s (has, is_first, is_played) = (
    has,
    accept_from-first G (lookup G m s) sig.max_deliver sig.received (G.size sig.received) 0 _
          (λ e. set (sym is_first ∙ e))
        ∙ is_first,
    is_played,
  )
