-- ===== src/Threads/Progress.antt =====
-- What holds along every sequence of rounds of the threads.
use p2pxineplugin.Base.{
  ℕ, refl, inl, inr, List, [], ◌∷◌, Option, none, some, take, arith, ℤ, ◌≤ℤ◌, Ensures, Ensures-bind,
  Ensures-mono, Ensures-value, ◌==◌,
}
use p2pxineplugin.Chunk.{Chunk}
use p2pxineplugin.Grapes.{Grapes}
use p2pxineplugin.Output.{Session, Machine, deliver}
use p2pxineplugin.Output.Order.{AdvanceAfter, deliver_advances}
use p2pxineplugin.Output.Module.{output_ffmpeg}
use p2pxineplugin.PeerQueue.{send_chunks_to_peers}
use p2pxineplugin.PeerQueue.Misuse.{IsSettled, Unsent, send-Unsent}
use p2pxineplugin.Network.{Node, hand_over, store_chunk, handle_chunk_message}
use p2pxineplugin.Threads.{
  Packet, topology, chunk, secured_data_chunk, secured_data_login, signalling, unknown, State,
  lookup, receive, send_topology, offer_one, offer_to, offer_chunk, send_chunk,
  request_secured_login,
}
use p2pxineplugin.Threads.Run.{
  Round, receive_round, topology_round, offer_round, send_round, login_round, round, run, Forward,
  if_Forward, same_Forward, Forward-trans, handle_as-Forward, played_same,
}

module _ (G : Grapes) (m : Machine) where
  abbrev Later : Node G (output_ffmpeg m) → Node G (output_ffmpeg m) → Type 0
  Later n n' = n.output.played_chunk ≤ℤ n'.output.played_chunk

  store_chunk-Later :
      (c : Chunk) (n n' : Node G (output_ffmpeg m))
      → Later n n'
      → Later n (store_chunk G (output_ffmpeg m) c n')
  unfolding store_chunk
  store_chunk-Later c n n' l = ground arith

  advance_later :
      (c : Chunk) (s : Session) (out : ℤ × Session)
      → AdvanceAfter c s out
      → s.played_chunk ≤ℤ out.1.played_chunk
  advance_later c s out (inl same, _, _, _) = played_same G m s.played_chunk out.1.played_chunk same
  advance_later c s out (inr (is_c, less, _), _, _, _) = ground arith

  handle_chunk_message-Later :
      (parsed : Option (Chunk × ℕ)) (n : Node G (output_ffmpeg m))
      → Ensures (Later n) (handle_chunk_message G (output_ffmpeg m) parsed n)
  unfolding handle_chunk_message hand_over
  handle_chunk_message-Later none n = omega arith
  handle_chunk_message-Later (some (c, trans_id)) n =
      Ensures-bind (Later n) (hand_over G (output_ffmpeg m) c trans_id n) _ (λ n' e.
        store_chunk-Later c n n' (
          Ensures-value (Later n) (hand_over G (output_ffmpeg m) c trans_id n)
            (Ensures-bind (Later n) (deliver m c n.output) _ (λ out d.
              advance_later c n.output out (
                Ensures-value (AdvanceAfter c n.output) (deliver m c n.output)
                  (deliver_advances m c n.output) d)))
            e))

  receive-Forward :
      (remote : ℕ) (p : Packet G) (s : State G m)
      → IsSettled s.queue
      → Ensures (Forward G m s) (receive G m remote p s)
  unfolding receive
  receive-Forward remote topology s k = same_Forward G m s s k refl refl
  receive-Forward remote (chunk parsed) s k =
      Ensures-bind (Forward G m s) (handle_chunk_message G (output_ffmpeg m) parsed s.node) _
        (λ n e. record {
          settled = k;
          unsent = refl;
          played =
              Ensures-value (Later s.node) (handle_chunk_message G (output_ffmpeg m) parsed s.node)
                (handle_chunk_message-Later parsed s.node) e;
        })
  receive-Forward remote (secured_data_chunk parsed) s k = same_Forward G m s s k refl refl
  receive-Forward remote (secured_data_login parsed) s k = same_Forward G m s s k refl refl
  receive-Forward remote (signalling none) s k = tt
  receive-Forward remote (signalling (some sig)) s k =
      handle_as-Forward G m sig.signal_type remote sig s k
  receive-Forward remote (unknown _) s k = same_Forward G m s s k refl refl

  offer_one-Forward :
      (nb : ℕ) (s : State G m) → IsSettled s.queue → Forward G m s (offer_one G m nb s)
  unfolding offer_one
  offer_one-Forward nb s k =
      if_Forward G m s s _ (s.node.server == nb) (same_Forward G m s s k refl refl)
        (same_Forward G m s _ k refl refl)

  offer_to-Forward :
      (nbs : List ℕ) (s : State G m) → IsSettled s.queue → Forward G m s (offer_to G m nbs s)
  unfolding offer_to
  offer_to-Forward [] s k = same_Forward G m s s k refl refl
  offer_to-Forward (nb ∷ nbs) s k =
      let f = offer_one-Forward nb s k in
      Forward-trans G m f (offer_to-Forward nbs (offer_one G m nb s) f.settled)

  send_chunk-Forward :
      (s : State G m) → IsSettled s.queue → Ensures (Forward G m s) (send_chunk G m s)
  unfolding send_chunk
  send_chunk-Forward s k =
      Ensures-bind (Forward G m s) (send_chunks_to_peers (lookup G m s) s.queue) _ (λ q e.
        let u =
          Ensures-value (Unsent s.queue.sent) (send_chunks_to_peers (lookup G m s) s.queue)
            (send-Unsent (lookup G m s) s.queue k) e in
        record { settled = u.state; unsent = u.sent; played = omega arith })

  send_topology-Forward :
      (nbs : List ℕ) (s : State G m) → IsSettled s.queue → Forward G m s (send_topology G m nbs s)
  unfolding send_topology
  send_topology-Forward [] s k = same_Forward G m s _ k refl refl
  send_topology-Forward (_ ∷ _) s k = same_Forward G m s s k refl refl

  round-Forward :
      (r : Round G) (s : State G m) → IsSettled s.queue → Ensures (Forward G m s) (round G m r s)
  unfolding round offer_chunk request_secured_login
  round-Forward (receive_round remote p) s k = receive-Forward remote p s k
  round-Forward (topology_round nbs) s k = send_topology-Forward nbs s k
  round-Forward (offer_round nbs) s k = offer_to-Forward (take 10 nbs) s k
  round-Forward send_round s k = send_chunk-Forward s k
  round-Forward login_round s k = same_Forward G m s s k refl refl

  -- Along every sequence of rounds of the threads that returns, from a queue of waiting peers
  -- that is empty or counts two entries in a block of one cell, the queue stays so, no chunk
  -- is sent to a peer, and `playedChunk` does not fall.
  pub run-Forward :
      (rs : List (Round G)) (s : State G m)
      → IsSettled s.queue
      → Ensures (Forward G m s) (run G m rs s)
  unfolding run
  run-Forward [] s k = same_Forward G m s s k refl refl
  run-Forward (r ∷ rs) s k = Ensures-bind (Forward G m s) (round G m r s) (run G m rs) (λ t e.
      let f = Ensures-value (Forward G m s) (round G m r s) (round-Forward r s k) e in
      Ensures-mono (Forward G m t) (Forward G m s) (run G m rs t) (run-Forward rs t f.settled)
        (λ u g. Forward-trans G m f g))
