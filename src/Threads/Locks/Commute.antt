-- ===== src/Threads/Locks/Commute.antt =====
-- The rounds use no more than their sections: other data can be changed before or after a round.
use p2pxineplugin.Base.{
  ℕ, ◌≡◌, ◌≢◌, ◌∙◌, refl, sym, ap, true, List, [], ◌∷◌, none, some, ok, ◌>>=◌, take,
}
use p2pxineplugin.Grapes.{Grapes}
use p2pxineplugin.Output.{Machine}
use p2pxineplugin.Output.Module.{output_ffmpeg}
use p2pxineplugin.Network.{handle_chunk_message}
use p2pxineplugin.Threads.{
  SignalType, Signal, sig_accept, sig_deliver, sig_ack, sig_offer, sig_request, sig_send_buffermap,
  sig_request_buffermap, State, Packet, topology, chunk, secured_data_chunk, secured_data_login,
  signalling, unknown, handle_as, receive, send_topology, offer_chunk, send_chunk,
  request_secured_login,
}
use p2pxineplugin.Threads.OfferRound.{but_server, offered, offer_chunk_lem}
use p2pxineplugin.Threads.Run.{Round, receive_round, send_round, login_round, round}
use p2pxineplugin.Threads.Locks.{
  Shared, peer_sampler, chunk_buffer, chunk_id_set, first_chunk, output_context, peer_chunks, ring,
  Section, section,
}
use p2pxineplugin.Threads.Locks.Rounds.{signal_section, packet_section, round_section}
use p2pxineplugin.Threads.Locks.Put.{
  Avoids, SectionAvoids, Value, put, then_put, accept-put, offer-put, request-put,
  send_buffermap-put, request_buffermap-put, in_node, in_node-put,
}

module _ (G : Grapes) (m : Machine) where
  handle_as-put :
      (v : Shared) (k : SignalType) (remote : ℕ) (sig : Signal G) (x : Value G m v) (s : State G m)
      → SectionAvoids v (signal_section k)
      → handle_as G m k remote sig (put G m v x s)
        ≡ (handle_as G m k remote sig s >>= λ t. ok (put G m v x t))
  unfolding handle_as
  handle_as-put v sig_accept remote sig x s h = accept-put G m v remote sig x s h
  handle_as-put v sig_deliver remote sig x s h = accept-put G m v remote sig x s h
  handle_as-put v sig_ack remote sig x s h = refl
  handle_as-put v sig_offer remote sig x s h = ap ok (offer-put G m v remote sig x s h)
  handle_as-put v sig_request remote sig x s h = request-put G m v remote sig x s h
  handle_as-put v sig_send_buffermap remote sig x s h = send_buffermap-put G m v remote sig x s h
  handle_as-put v sig_request_buffermap remote sig x s h =
      ap ok (request_buffermap-put G m v remote sig x s h)

  receive-put :
      (v : Shared) (remote : ℕ) (p : Packet G) (x : Value G m v) (s : State G m)
      → SectionAvoids v (packet_section G p)
      → receive G m remote p (put G m v x s) ≡ (receive G m remote p s >>= λ t. ok (put G m v x t))
  unfolding receive in_node
  receive-put v remote topology x s h = refl
  receive-put v remote (chunk parsed) x s h =
      in_node-put G m v (handle_chunk_message G (output_ffmpeg m) parsed) x s h
  receive-put v remote (secured_data_chunk parsed) x s h = refl
  receive-put v remote (secured_data_login parsed) x s h = refl
  receive-put v remote (signalling none) x s h = refl
  receive-put v remote (signalling (some sig)) x s h =
      handle_as-put v sig.signal_type remote sig x s h
  receive-put v remote (unknown _) x s h = refl

  stop-put :
      (v : Shared) (x : Value G m v) (s : State G m)
      → record (put G m v x s) { stop_threads = true }
        ≡ put G m v x (record s { stop_threads = true })
  stop-put peer_sampler x s = refl
  stop-put chunk_buffer x s = refl
  stop-put chunk_id_set x s = refl
  stop-put first_chunk x s = refl
  stop-put output_context x s = refl
  stop-put peer_chunks x s = refl
  stop-put ring x s = refl

  topology-put :
      (v : Shared) (nbs : List ℕ) (x : Value G m v) (s : State G m)
      → send_topology G m nbs (put G m v x s) ≡ put G m v x (send_topology G m nbs s)
  unfolding send_topology
  topology-put v [] x s = stop-put v x s
  topology-put v (_ ∷ _) x s = refl

  offered-put :
      (v : Shared) (to : List ℕ) (x : Value G m v) (s : State G m)
      → v ≢ chunk_buffer
      → offered G m to (put G m v x s) ≡ put G m v x (offered G m to s)
  offered-put peer_sampler to x s h = refl
  offered-put chunk_buffer to x s h = absurd (h refl)
  offered-put chunk_id_set to x s h = refl
  offered-put first_chunk to x s h = refl
  offered-put output_context to x s h = refl
  offered-put peer_chunks to x s h = refl
  offered-put ring to x s h = refl

  server-put :
      (v : Shared) (x : Value G m v) (s : State G m) → (put G m v x s).node.server ≡ s.node.server
  server-put peer_sampler x s = refl
  server-put chunk_buffer x s = refl
  server-put chunk_id_set x s = refl
  server-put first_chunk x s = refl
  server-put output_context x s = refl
  server-put peer_chunks x s = refl
  server-put ring x s = refl

  offers-put :
      (v : Shared) (nbs : List ℕ) (x : Value G m v) (s : State G m)
      → v ≢ chunk_buffer
      → offer_chunk G m nbs (put G m v x s) ≡ put G m v x (offer_chunk G m nbs s)
  offers-put v nbs x s h =
      (offer_chunk_lem G m nbs (put G m v x s)).0
      ∙ ap (λ server. offered G m (but_server server (take 10 nbs)) (put G m v x s))
          (server-put v x s)
      ∙ offered-put v (but_server s.node.server (take 10 nbs)) x s h
      ∙ ap (put G m v x) (sym (offer_chunk_lem G m nbs s).0)

  send-put :
      (v : Shared) (x : Value G m v) (s : State G m)
      → Avoids v (section Section.send_round)
      → send_chunk G m (put G m v x s) ≡ (send_chunk G m s >>= λ t. ok (put G m v x t))
  unfolding section send_chunk
  send-put peer_sampler x s h = then_put G m peer_sampler x _ _
  send-put chunk_buffer x s h = absurd (h.0 refl)
  send-put chunk_id_set x s h = then_put G m chunk_id_set x _ _
  send-put first_chunk x s h = then_put G m first_chunk x _ _
  send-put output_context x s h = then_put G m output_context x _ _
  send-put peer_chunks x s h = absurd (h.1.0 refl)
  send-put ring x s h = then_put G m ring x _ _

  -- If the section of a round has neither a read nor a write of some data, the round after any
  -- change of these data is the change after the round, faults included: for a message, a
  -- round of offers or of sends, or a round of the topology, and for the chunk buffer, the
  -- chunk id set, `firstChunk`, the output's context, the waiting peers and the ring; the peer
  -- sampler is no part of the state. An acknowledgement, an unknown message and the login
  -- thread have no section and commute with every such change.
  pub round-put :
      (v : Shared) (r : Round G) (x : Value G m v) (s : State G m)
      → SectionAvoids v (round_section G r)
      → round G m r (put G m v x s) ≡ (round G m r s >>= λ t. ok (put G m v x t))
  unfolding section round request_secured_login
  round-put v (receive_round remote p) x s h = receive-put v remote p x s h
  round-put v (Round.topology_round nbs) x s h = ap ok (topology-put v nbs x s)
  round-put v (Round.offer_round nbs) x s h = ap ok (offers-put v nbs x s h.1.0)
  round-put v send_round x s h = send-put v x s h
  round-put v login_round x s h = refl
