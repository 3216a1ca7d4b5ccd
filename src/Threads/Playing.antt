-- ===== src/Threads/Playing.antt =====
-- `playedChunk` along every sequence of rounds of the threads.
mod Message
use p2pxineplugin.Base.{
  ℕ, zero, suc, ◌+◌, ◌≡◌, ◌≢◌, ◌∙◌, refl, sym, ap, subst, true, List, [], ◌∷◌, ◌++◌, Option, none,
  some, arith, ℤ, minus_one, Outcome, ok, fault, blocked, exited, Ensures, Ensures-bind,
  Ensures-mono, Ensures-value,
}
use p2pxineplugin.Chunk.{Chunk}
use p2pxineplugin.Grapes.{Grapes}
use p2pxineplugin.Output.{Context, Machine, deliver}
use p2pxineplugin.Output.Module.{output_ffmpeg}
use p2pxineplugin.Output.Slots.{has_buffer, given}
use p2pxineplugin.Output.Played.{next_played, last_played, ByRule, RuleAfter, deliver-ByRule}
use p2pxineplugin.Network.{Node, hand_over, store_chunk, handle_chunk_message}
use p2pxineplugin.Threads.{
  SignalType, Signal, sig_accept, sig_deliver, sig_ack, sig_offer, sig_request, sig_send_buffermap,
  sig_request_buffermap, Packet, topology, chunk, secured_data_chunk, secured_data_login,
  signalling, unknown, State, Accepting, accept_missing, accept_one, accept_from, accept_offered,
  lookup, handle_offer, handle_as, receive,
}
use p2pxineplugin.Threads.Run.{
  Round, receive_round, topology_round, offer_round, send_round, login_round, round, run,
}
use p2pxineplugin.Threads.Locks.{section, first_chunk, output_context}
use p2pxineplugin.Threads.Locks.Rounds.{signal_section, round_section}
use p2pxineplugin.Threads.Locks.Frame.{Same, SectionSpares, handle_as-Same, round-Same}
use p2pxineplugin.Threads.Playing.Message.{
  Playing, NodePlaying, Same-Playing, handle_chunk_message-Playing, offer-Playing,
}

module _ (G : Grapes) where
  -- The chunks that arrive in these rounds.
  abbrev pub round_chunks : Round G → List Chunk
  round_chunks (receive_round remote (chunk (some (c, _)))) = c ∷ []
  round_chunks _ = []

  abbrev pub chunks_of : List (Round G) → List Chunk
  chunks_of [] = []
  chunks_of (r ∷ rs) = round_chunks r ++ chunks_of rs

module _ (G : Grapes) (m : Machine) (first : ℤ) (set : first ≢ minus_one) where
  -- A signal whose section writes neither.
  spared_signal :
      (k : SignalType) (remote : ℕ) (sig : Signal G) (played : ℤ) (s : State G m)
      → SectionSpares first_chunk (signal_section k)
      → SectionSpares output_context (signal_section k)
      → Playing G m first played s
      → Ensures (Playing G m first played) (handle_as G m k remote sig s)
  spared_signal k remote sig played s f c =
      Same-Playing G m first played s (handle_as G m k remote sig s)
        (handle_as-Same G m first_chunk k remote sig s f)
        (handle_as-Same G m output_context k remote sig s c)

  handle_as-Playing :
      (k : SignalType) (remote : ℕ) (sig : Signal G) (played : ℤ) (s : State G m)
      → Playing G m first played s
      → Ensures (Playing G m first played) (handle_as G m k remote sig s)
  unfolding section handle_as
  handle_as-Playing sig_offer remote sig played s k =
      offer-Playing G m first set played remote sig s k
  handle_as-Playing sig_ack remote sig played s k = k
  handle_as-Playing sig_accept remote sig played s k =
      spared_signal sig_accept remote sig played s ((λ e. cc), tt) ((λ e. cc), tt) k
  handle_as-Playing sig_deliver remote sig played s k =
      spared_signal sig_deliver remote sig played s ((λ e. cc), tt) ((λ e. cc), tt) k
  handle_as-Playing sig_request remote sig played s k =
      spared_signal sig_request remote sig played s ((λ e. cc), tt) ((λ e. cc), tt) k
  handle_as-Playing sig_send_buffermap remote sig played s k =
      spared_signal sig_send_buffermap remote sig played s tt tt k
  handle_as-Playing sig_request_buffermap remote sig played s k =
      spared_signal sig_request_buffermap remote sig played s tt tt k

  receive-Playing :
      (remote : ℕ) (p : Packet G) (played : ℤ) (s : State G m)
      → Playing G m first played s
      → Ensures
          (Playing G m first (last_played first played (round_chunks G (receive_round remote p))))
          (receive G m remote p s)
  unfolding receive
  receive-Playing remote topology played s k = k
  receive-Playing remote (chunk none) played s k = unfold handle_chunk_message in k
  receive-Playing remote (chunk (some (c, trans_id))) played s k =
      Ensures-bind (Playing G m first (next_played first played c.id))
        (handle_chunk_message G (output_ffmpeg m) (some (c, trans_id)) s.node) _
        (λ n e.
          Ensures-value (NodePlaying G m first (next_played first played c.id))
            (handle_chunk_message G (output_ffmpeg m) (some (c, trans_id)) s.node)
            (handle_chunk_message-Playing G m first c trans_id played s.node k) e)
  receive-Playing remote (secured_data_chunk parsed) played s k = k
  receive-Playing remote (secured_data_login parsed) played s k = k
  receive-Playing remote (signalling none) played s k = tt
  receive-Playing remote (signalling (some sig)) played s k =
      handle_as-Playing sig.signal_type remote sig played s k
  receive-Playing remote (unknown _) played s k = k

  -- A round whose section writes neither.
  spared_round :
      (r : Round G) (played : ℤ) (s : State G m)
      → SectionSpares first_chunk (round_section G r)
      → SectionSpares output_context (round_section G r)
      → Playing G m first played s
      → Ensures (Playing G m first played) (round G m r s)
  spared_round r played s f c =
      Same-Playing G m first played s (round G m r s) (round-Same G m first_chunk r s f)
        (round-Same G m output_context r s c)

  round-Playing :
      (r : Round G) (played : ℤ) (s : State G m)
      → Playing G m first played s
      → Ensures (Playing G m first (last_played first played (round_chunks G r))) (round G m r s)
  unfolding section round
  round-Playing (receive_round remote p) played s k = receive-Playing remote p played s k
  round-Playing (topology_round nbs) played s k =
      spared_round (topology_round nbs) played s ((λ e. cc), tt) ((λ e. cc), tt) k
  round-Playing (offer_round nbs) played s k = spared_round (offer_round nbs) played s tt tt k
  round-Playing send_round played s k =
      spared_round send_round played s ((λ e. cc), tt) ((λ e. cc), tt) k
  round-Playing login_round played s k = spared_round login_round played s tt tt k

  last_played-append :
      (played : ℤ) (cs ds : List Chunk)
      → last_played first played (cs ++ ds) ≡ last_played first (last_played first played cs) ds
  last_played-append played [] ds = refl
  last_played-append played (c ∷ cs) ds = last_played-append (next_played first played c.id) cs ds

  run-Playing :
      (rs : List (Round G)) (played : ℤ) (s : State G m)
      → Playing G m first played s
      → Ensures (Playing G m first (last_played first played (chunks_of G rs))) (run G m rs s)
  unfolding run
  run-Playing [] played s k = k
  run-Playing (r ∷ rs) played s k =
      let after = last_played first played (round_chunks G r) in
      Ensures-bind _ (round G m r s) (run G m rs) (λ t e.
        subst (λ p. Ensures (Playing G m first p) (run G m rs t))
          (sym (last_played-append played (round_chunks G r) (chunks_of G rs)))
          (run-Playing rs after t (
            Ensures-value (Playing G m first after) (round G m r s) (round-Playing r played s k)
              e)))

-- Along every sequence of rounds of the threads, in any order, from a state with an output
-- buffer and a `firstChunk` that is set, if it returns, `firstChunk` is as before and the last
-- chunk played is the one that a rule gives from the numbers of the chunks that arrive alone:
-- of the chunks that are newer than the last one played, the first chunk and the next one are
-- played, and no other.
pub run_plays :
    (G : Grapes) (m : Machine) (rs : List (Round G)) (s : State G m)
    → has_buffer s.node.output ≡ true
    → s.node.output.first_chunk ≢ minus_one
    → Ensures
        (λ t.
          (t.node.output.first_chunk ≡ s.node.output.first_chunk)
          × (t.node.output.played_chunk
              ≡ last_played s.node.output.first_chunk s.node.output.played_chunk (chunks_of G rs)))
        (run G m rs s)
run_plays G m rs s has set =
    Ensures-mono _ _ (run G m rs s)
      (run-Playing G m s.node.output.first_chunk set rs s.node.output.played_chunk s
        (has, refl, refl))
      (λ t k. (k.1, k.2))
