-- ===== src/Threads/Locks/Frame.antt =====
-- The rounds write no more than their sections.
use p2pxineplugin.Base.{
  ℕ, arith, ◌≡◌, ◌≢◌, refl, Bool, true, false, List, [], ◌∷◌, Option, none, some, ℤ, pos, ◌==ℤ◌,
  if◌then◌else◌, Ensures, Ensures-bind, Ensures-value, or_fault, null_deref,
}
use p2pxineplugin.Chunk.{Chunk}
use p2pxineplugin.Grapes.{Grapes}
use p2pxineplugin.Output.{Machine, deliver}
use p2pxineplugin.Output.Module.{output_ffmpeg}
use p2pxineplugin.Output.Order.{AdvanceAfter, deliver_advances}
use p2pxineplugin.PeerQueue.{Queue, add_to_peer_chunk, send_chunks_to_peers}
use p2pxineplugin.Network.{
  Node, Message, get_needed_chunks, hand_over, store_chunk, handle_chunk_message,
}
use p2pxineplugin.Threads.{
  SignalType, Signal, sig_accept, sig_deliver, sig_ack, sig_offer, sig_request, sig_send_buffermap,
  sig_request_buffermap, State, lookup, queue_from, with_node, Packet, topology, chunk,
  secured_data_chunk, secured_data_login, signalling, unknown, handle_accept, handle_offer,
  handle_request, handle_send_buffermap, handle_request_buffermap, handle_as, receive,
  send_topology, send_chunk, request_secured_login,
}
use p2pxineplugin.Threads.OfferRound.{offer_chunk_lem}
use p2pxineplugin.Threads.Run.{Round, receive_round, send_round, login_round, round}
use p2pxineplugin.Threads.Locks.{
  Shared, peer_sampler, chunk_buffer, chunk_id_set, first_chunk, output_context, peer_chunks, ring,
  read, write, Action, lock, unlock, access, Section, on_chunk, section,
}
use p2pxineplugin.Threads.Locks.Rounds.{signal_section, packet_section, round_section}

-- No write of the data is among these actions.
abbrev pub Spares : Shared → List Action → Type 0
Spares v [] = Unit
Spares v (access (write w) ∷ todo) = (v ≢ w) × Spares v todo
Spares v (access (read w) ∷ todo) = Spares v todo
Spares v (lock m ∷ todo) = Spares v todo
Spares v (unlock m ∷ todo) = Spares v todo

abbrev pub SectionSpares : Shared → Option Section → Type 0
SectionSpares v none = Unit
SectionSpares v (some s) = Spares v (section s)

module _ (G : Grapes) (m : Machine) where
  -- The data are the same in two states. The peer sampler is no part of a state: what it answers is
  -- an argument of the rounds.
  abbrev pub Same : Shared → State G m → State G m → Type 0
  Same peer_sampler s t = Unit
  Same chunk_buffer s t = t.node.chunk_buffer ≡ s.node.chunk_buffer
  Same chunk_id_set s t = t.chunk_id_set ≡ s.chunk_id_set
  Same first_chunk s t = t.node.output.first_chunk ≡ s.node.output.first_chunk
  Same output_context s t = t.node.output.context ≡ s.node.output.context
  Same peer_chunks s t = t.queue ≡ s.queue
  Same ring s t = t.node.output.ring ≡ s.node.output.ring

  Same-refl : (v : Shared) (s : State G m) → Same v s s
  Same-refl peer_sampler s = tt
  Same-refl chunk_buffer s = refl
  Same-refl chunk_id_set s = refl
  Same-refl first_chunk s = refl
  Same-refl output_context s = refl
  Same-refl peer_chunks s = refl
  Same-refl ring s = refl

  -- A message is sent, a number taken or the flag set.
  Same-aside :
      (v : Shared) (s : State G m) (msgs : List (Message G.IdSet)) (n : ℕ) (b : Bool)
      → Same v s (record s { node = record s.node { sent = msgs }; trans_id = n; stop_threads = b })
  Same-aside peer_sampler s msgs n b = tt
  Same-aside chunk_buffer s msgs n b = refl
  Same-aside chunk_id_set s msgs n b = refl
  Same-aside first_chunk s msgs n b = refl
  Same-aside output_context s msgs n b = refl
  Same-aside peer_chunks s msgs n b = refl
  Same-aside ring s msgs n b = refl

  -- The same, where the queue, or `firstChunk`, is changed as well.
  queue-Same :
      (v : Shared) (s : State G m) (q : Queue) (msgs : List (Message G.IdSet))
      → v ≢ peer_chunks
      → Same v s (record s { node = record s.node { sent = msgs }; queue = q })
  queue-Same peer_sampler s q msgs h = tt
  queue-Same chunk_buffer s q msgs h = refl
  queue-Same chunk_id_set s q msgs h = refl
  queue-Same first_chunk s q msgs h = refl
  queue-Same output_context s q msgs h = refl
  queue-Same peer_chunks s q msgs h = absurd (h refl)
  queue-Same ring s q msgs h = refl

  first-Same :
      (v : Shared) (s : State G m) (first : ℤ) (msgs : List (Message G.IdSet))
      → v ≢ first_chunk
      → Same v s (record s {
        node = record s.node { sent = msgs; output = record s.node.output { first_chunk = first } };
      })
  first-Same peer_sampler s first msgs h = tt
  first-Same chunk_buffer s first msgs h = refl
  first-Same chunk_id_set s first msgs h = refl
  first-Same first_chunk s first msgs h = absurd (h refl)
  first-Same output_context s first msgs h = refl
  first-Same peer_chunks s first msgs h = refl
  first-Same ring s first msgs h = refl

  -- A chunk that arrives leaves `firstChunk`.
  SameFirst : Node G (output_ffmpeg m) → Node G (output_ffmpeg m) → Type 0
  SameFirst n n' = n'.output.first_chunk ≡ n.output.first_chunk

  store_chunk-SameFirst :
      (c : Chunk) (n n' : Node G (output_ffmpeg m))
      → SameFirst n n'
      → SameFirst n (store_chunk G (output_ffmpeg m) c n')
  unfolding SameFirst store_chunk
  store_chunk-SameFirst c n n' e = ground arith

  handle_chunk_message-SameFirst :
      (parsed : Option (Chunk × ℕ)) (n : Node G (output_ffmpeg m))
      → Ensures (SameFirst n) (handle_chunk_message G (output_ffmpeg m) parsed n)
  unfolding SameFirst handle_chunk_message hand_over
  handle_chunk_message-SameFirst none n = refl
  handle_chunk_message-SameFirst (some (c, trans_id)) n =
      Ensures-bind (SameFirst n) (hand_over G (output_ffmpeg m) c trans_id n) _ (λ n' e.
        store_chunk-SameFirst c n n' (
          Ensures-value (SameFirst n) (hand_over G (output_ffmpeg m) c trans_id n)
            (Ensures-bind (SameFirst n) (deliver m c n.output) _ (λ out d.
              (Ensures-value (AdvanceAfter c n.output) (deliver m c n.output)
                (deliver_advances m c n.output) d).2))
            e))

  node-Same :
      (v : Shared) (s : State G m) (n : Node G (output_ffmpeg m))
      → SameFirst s.node n
      → Spares v (section (on_chunk (0 ∷ [])))
      → Same v s (with_node G m s n)
  unfolding section SameFirst
  node-Same peer_sampler s n e h = tt
  node-Same chunk_buffer s n e h = absurd (h.1.1.1.0 refl)
  node-Same chunk_id_set s n e h = refl
  node-Same first_chunk s n e h = e
  node-Same output_context s n e h = absurd (h.0 refl)
  node-Same peer_chunks s n e h = refl
  node-Same ring s n e h = absurd (h.1.0 refl)

  if_Same :
      (v : Shared) (s t u : State G m) (b : Bool)
      → Same v s t
      → Same v s u
      → Same v s (if b then t else u)
  if_Same v s t u true f g = f
  if_Same v s t u false f g = g

  pub handle_as-Same :
      (v : Shared) (k : SignalType) (remote : ℕ) (sig : Signal G) (s : State G m)
      → SectionSpares v (signal_section k)
      → Ensures (Same v s) (handle_as G m k remote sig s)
  unfolding section handle_as handle_accept handle_offer handle_request handle_send_buffermap
      handle_request_buffermap
  handle_as-Same v sig_accept remote sig s h =
      Ensures-bind (Same v s)
        (queue_from G (lookup G m s) (s.peer_of remote) sig.received (G.size sig.received) 0
          s.queue)
        _ (λ q e. queue-Same v s q s.node.sent h.0)
  handle_as-Same v sig_deliver remote sig s h =
      Ensures-bind (Same v s)
        (queue_from G (lookup G m s) (s.peer_of remote) sig.received (G.size sig.received) 0
          s.queue)
        _ (λ q e. queue-Same v s q s.node.sent h.0)
  handle_as-Same v sig_ack remote sig s h = Same-refl v s
  handle_as-Same v sig_offer remote sig s h = first-Same v s _ _ h.0
  handle_as-Same v sig_request remote sig s h =
      Ensures-bind (Same v s)
        (add_to_peer_chunk (lookup G m s) (s.peer_of remote) (G.get_earliest s.chunk_id_set)
          s.queue)
        _
        (λ out e.
          if_Same v s _ _ (out.0 ==ℤ pos 0) (queue-Same v s _ _ h.0) (queue-Same v s _ _ h.0))
  handle_as-Same v sig_send_buffermap remote sig s h =
      Ensures-bind (Same v s)
        (or_fault (get_needed_chunks G (some G.init) s.node.output.first_chunk sig.received)
          null_deref)
        _ (λ needed e. Same-aside v s _ s.trans_id s.stop_threads)
  handle_as-Same v sig_request_buffermap remote sig s h = Same-aside v s _ s.trans_id s.stop_threads

  receive-Same :
      (v : Shared) (remote : ℕ) (p : Packet G) (s : State G m)
      → SectionSpares v (packet_section G p)
      → Ensures (Same v s) (receive G m remote p s)
  unfolding receive
  receive-Same v remote topology s h = Same-refl v s
  receive-Same v remote (chunk parsed) s h =
      Ensures-bind (Same v s) (handle_chunk_message G (output_ffmpeg m) parsed s.node) _ (λ n e.
        node-Same v s n
          (Ensures-value (SameFirst s.node) (handle_chunk_message G (output_ffmpeg m) parsed s.node)
            (handle_chunk_message-SameFirst parsed s.node) e)
          h)
  receive-Same v remote (secured_data_chunk parsed) s h = Same-refl v s
  receive-Same v remote (secured_data_login parsed) s h = Same-refl v s
  receive-Same v remote (signalling none) s h = tt
  receive-Same v remote (signalling (some sig)) s h =
      handle_as-Same v sig.signal_type remote sig s h
  receive-Same v remote (unknown _) s h = Same-refl v s

  send_topology-Same :
      (v : Shared) (nbs : List ℕ) (s : State G m) → Same v s (send_topology G m nbs s)
  unfolding send_topology
  send_topology-Same v [] s = Same-aside v s s.node.sent s.trans_id true
  send_topology-Same v (_ ∷ _) s = Same-refl v s

  -- If the section of a round has no write of some data, a round that returns leaves these
  -- data as they were: for a message, a round of offers or of sends, or a round of the
  -- topology, and for the chunk buffer, the chunk id set, `firstChunk`, the output's context,
  -- the waiting peers and the ring; the peer sampler is no part of the state. An
  -- acknowledgement, an unknown message and the login thread have no section and leave all of
  -- them.
  pub round-Same :
      (v : Shared) (r : Round G) (s : State G m)
      → SectionSpares v (round_section G r)
      → Ensures (Same v s) (round G m r s)
  unfolding section round send_chunk request_secured_login
  round-Same v (receive_round remote p) s h = receive-Same v remote p s h
  round-Same v (Round.topology_round nbs) s h = send_topology-Same v nbs s
  round-Same v (Round.offer_round nbs) s h =
      rw (offer_chunk_lem G m nbs s).0 (Same-aside v s _ _ s.stop_threads)
  round-Same v send_round s h =
      Ensures-bind (Same v s) (send_chunks_to_peers (lookup G m s) s.queue) _
        (λ q e. queue-Same v s q s.node.sent h.0)
  round-Same v login_round s h = Same-refl v s
