-- ===== src/Threads/Run.antt =====
-- The threads together: their rounds in any order. A round that has begun when `stopThreads` is set
-- runs to its end, so a sequence of rounds does not read the flag.
use p2pxineplugin.Base.{
  ℕ, zero, suc, ◌+◌, ◌≡◌, ◌∙◌, refl, sym, ap, subst, Bool, true, false, List, [], ◌∷◌, Option, some,
  arith, ℤ, pos, ◌≤ℤ◌, ◌==ℤ◌, Outcome, ok, ◌>>=◌, Ensures, Ensures-bind, Ensures-mono,
  Ensures-value, if◌then◌else◌, or_fault, null_deref,
}
use p2pxineplugin.Chunk.{Chunk}
use p2pxineplugin.Grapes.{Grapes}
use p2pxineplugin.Output.{Machine}
use p2pxineplugin.PeerQueue.{Queue, add_to_peer_chunk}
use p2pxineplugin.PeerQueue.Misuse.{IsSettled, Unsent, add-Unsent}
use p2pxineplugin.Network.{get_needed_chunks}
use p2pxineplugin.Threads.{
  SignalType, Signal, sig_accept, sig_deliver, sig_ack, sig_offer, sig_request, sig_send_buffermap,
  sig_request_buffermap, Packet, State, lookup, queue_from, handle_accept, handle_offer,
  handle_request, handle_send_buffermap, handle_request_buffermap, handle_as, receive,
  send_topology, offer_chunk, send_chunk, request_secured_login,
}

module _ (G : Grapes) where
  -- A round of one of the threads.
  pub data Round : Type 0 where
    receive_round : ℕ → Packet G → Round
    topology_round : List ℕ → Round
    offer_round : List ℕ → Round
    send_round : Round
    login_round : Round

module _ (G : Grapes) (m : Machine) where
  unfoldable pub round : Round G → State G m → Outcome (State G m)
  round (receive_round remote p) s = receive G m remote p s
  round (topology_round nbs) s = ok (send_topology G m nbs s)
  round (offer_round nbs) s = ok (offer_chunk G m nbs s)
  round send_round s = send_chunk G m s
  round login_round s = ok (request_secured_login G m s)

  unfoldable pub run : List (Round G) → State G m → Outcome (State G m)
  run [] s = ok s
  run (r ∷ rs) s = round r s >>= run rs

  -- What no round undoes.
  pub record Forward (s s' : State G m) : Type 0 where
    pub settled : IsSettled s'.queue
    pub unsent : s'.queue.sent ≡ s.queue.sent
    pub played : s.node.output.played_chunk ≤ℤ s'.node.output.played_chunk

  pub played_same : (x y : ℤ) → y ≡ x → x ≤ℤ y
  played_same x y e = ground arith

  pub same_Forward :
      (s s' : State G m)
      → IsSettled s.queue
      → s'.queue ≡ s.queue
      → s'.node.output.played_chunk ≡ s.node.output.played_chunk
      → Forward s s'
  same_Forward s s' k q p = record {
    settled = subst IsSettled (sym q) k;
    unsent = ap (λ (x : Queue). x.sent) q;
    played = played_same s.node.output.played_chunk s'.node.output.played_chunk p;
  }

  pub Forward-trans : {s t u : State G m} → Forward s t → Forward t u → Forward s u
  Forward-trans f g = record {
    settled = g.settled;
    unsent = g.unsent ∙ f.unsent;
    played = omega arith;
  }

  queue_from-Unsent :
      (find : ℤ → Option Chunk) (peer : Option ℕ) (received : G.IdSet) (rounds i : ℕ) (q : Queue)
      → IsSettled q
      → Ensures (Unsent q.sent) (queue_from G find peer received rounds i q)
  unfolding queue_from
  queue_from-Unsent find peer received zero i q k = record { state = k; sent = refl }
  queue_from-Unsent find peer received (suc rounds) i q k =
      Ensures-bind (Unsent q.sent) (add_to_peer_chunk find peer (G.get_chunk received i) q) _
        (λ out e.
          let u =
            Ensures-value (λ out'. Unsent q.sent out'.1)
              (add_to_peer_chunk find peer (G.get_chunk received i) q)
              (add-Unsent find peer (G.get_chunk received i) q k) e in
          Ensures-mono (Unsent out.1.sent) (Unsent q.sent)
            (queue_from G find peer received rounds (i + 1) out.1)
            (queue_from-Unsent find peer received rounds (i + 1) out.1 u.state)
            (λ q' u'. record { state = u'.state; sent = u'.sent ∙ u.sent }))

  queued_Forward :
      (s : State G m) (q : Queue) → Unsent s.queue.sent q → Forward s (record s { queue = q })
  queued_Forward s q u = record { settled = u.state; unsent = u.sent; played = omega arith }

  handle_accept-Forward :
      (remote : ℕ) (sig : Signal G) (s : State G m)
      → IsSettled s.queue
      → Ensures (Forward s) (handle_accept G m remote sig s)
  unfolding handle_accept
  handle_accept-Forward remote sig s k =
      let loop =
        queue_from G (lookup G m s) (s.peer_of remote) sig.received (G.size sig.received) 0
          s.queue in
      Ensures-bind (Forward s) loop _ (λ q e. queued_Forward s q (
        Ensures-value (Unsent s.queue.sent) loop
          (queue_from-Unsent (lookup G m s) (s.peer_of remote) sig.received (G.size sig.received) 0
            s.queue k)
          e))

  -- A message that is sent changes neither the queue nor the output.
  pub if_Forward :
      (s t u : State G m) (b : Bool) → Forward s t → Forward s u → Forward s (if b then t else u)
  if_Forward s t u true f g = f
  if_Forward s t u false f g = g

  handle_request-Forward :
      (remote : ℕ) (sig : Signal G) (s : State G m)
      → IsSettled s.queue
      → Ensures (Forward s) (handle_request G m remote sig s)
  unfolding handle_request
  handle_request-Forward remote sig s k =
      let add =
        add_to_peer_chunk (lookup G m s) (s.peer_of remote) (G.get_earliest s.chunk_id_set)
          s.queue in
      Ensures-bind (Forward s) add _ (λ out e.
        let u =
          Ensures-value (λ out'. Unsent s.queue.sent out'.1) add
            (add-Unsent (lookup G m s) (s.peer_of remote) (G.get_earliest s.chunk_id_set) s.queue k)
            e in
        if_Forward s _ _ (out.0 ==ℤ pos 0)
          (record { settled = u.state; unsent = u.sent; played = omega arith })
          (record { settled = u.state; unsent = u.sent; played = omega arith }))

  pub handle_as-Forward :
      (t : SignalType) (remote : ℕ) (sig : Signal G) (s : State G m)
      → IsSettled s.queue
      → Ensures (Forward s) (handle_as G m t remote sig s)
  unfolding handle_as handle_offer handle_send_buffermap handle_request_buffermap
  handle_as-Forward sig_accept remote sig s k = handle_accept-Forward remote sig s k
  handle_as-Forward sig_deliver remote sig s k = handle_accept-Forward remote sig s k
  handle_as-Forward sig_ack remote sig s k = same_Forward s s k refl refl
  handle_as-Forward sig_offer remote sig s k = same_Forward s _ k refl refl
  handle_as-Forward sig_request remote sig s k = handle_request-Forward remote sig s k
  handle_as-Forward sig_send_buffermap remote sig s k =
      Ensures-bind (Forward s)
        (or_fault (get_needed_chunks G (some G.init) s.node.output.first_chunk sig.received)
          null_deref)
        _ (λ needed e. same_Forward s _ k refl refl)
  handle_as-Forward sig_request_buffermap remote sig s k = same_Forward s _ k refl refl
