-- ===== src/Threads/Loops/Stopping.antt =====
-- The threads after `stopThreads` is set.
use p2pxineplugin.Base.{
  none, ℕ, suc, ◌+◌, ◌≤◌, ◌≡◌, ◌∙◌, refl, sym, ap, subst, Bool, true, false, List, [], ◌∷◌, some,
  sum_of, sum_of-set, arith, if◌then◌else◌, ◌==ℤ◌, pos, Ensures, Ensures-bind, Ensures-mono,
  Ensures-value, or_fault, null_deref,
}
use p2pxineplugin.Grapes.{Grapes}
use p2pxineplugin.Output.{Machine}
use p2pxineplugin.Threads.{
  SignalType, Signal, sig_accept, sig_deliver, sig_ack, sig_offer, sig_request, sig_send_buffermap,
  sig_request_buffermap, State, lookup, queue_from, Packet, topology, chunk, secured_data_chunk,
  secured_data_login, signalling, unknown, handle_accept, handle_offer, handle_request,
  handle_send_buffermap, handle_request_buffermap, handle_as, receive, send_topology, send_chunk,
  request_secured_login,
}
use p2pxineplugin.Output.Module.{output_ffmpeg}
use p2pxineplugin.PeerQueue.{add_to_peer_chunk, send_chunks_to_peers}
use p2pxineplugin.Network.{get_needed_chunks, handle_chunk_message}
use p2pxineplugin.Threads.OfferRound.{offer_chunk_lem}
use p2pxineplugin.Threads.Run.{
  Round, receive_round, topology_round, offer_round, send_round, login_round, round,
}
use p2pxineplugin.Threads.Loops.{
  Worker, receive_data_thread, send_topology_thread, offer_chunk_thread, send_chunk_thread,
  request_login_thread, testing, running, ended, Loop, after_round, at_phase, Program, Step, enter,
  leave, finish, Steps, stay, more,
}

-- How many steps a thread has left once the flag is set.
abbrev pub left : Loop → ℕ
left t = elim t.phase [ testing ↦ 1 | running ↦ 2 | ended ↦ 0 ]

abbrev pub left_of : List Loop → ℕ
left_of ts = sum_of left ts

left-after_round : (w : Worker) → left (at_phase w (after_round w)) ≤ 1
unfolding after_round
left-after_round receive_data_thread = omega arith
left-after_round send_topology_thread = omega arith
left-after_round offer_chunk_thread = omega arith
left-after_round send_chunk_thread = omega arith
left-after_round request_login_thread = omega arith

module _ (G : Grapes) (m : Machine) where
  abbrev Stopped : State G m → Type 0
  Stopped s = s.stop_threads ≡ true

  abbrev SameFlag : State G m → State G m → Type 0
  SameFlag s t = t.stop_threads ≡ s.stop_threads

  if_SameFlag :
      (s t u : State G m) (b : Bool) → SameFlag s t → SameFlag s u → SameFlag s (if b then t else u)
  if_SameFlag s t u true f g = f
  if_SameFlag s t u false f g = g

  handle_as-SameFlag :
      (k : SignalType) (remote : ℕ) (sig : Signal G) (s : State G m)
      → Ensures (SameFlag s) (handle_as G m k remote sig s)
  unfolding handle_as handle_accept handle_offer handle_request handle_send_buffermap
      handle_request_buffermap
  handle_as-SameFlag sig_accept remote sig s =
      Ensures-bind (SameFlag s)
        (queue_from G (lookup G m s) (s.peer_of remote) sig.received (G.size sig.received) 0
          s.queue)
        _ (λ q e. refl)
  handle_as-SameFlag sig_deliver remote sig s =
      Ensures-bind (SameFlag s)
        (queue_from G (lookup G m s) (s.peer_of remote) sig.received (G.size sig.received) 0
          s.queue)
        _ (λ q e. refl)
  handle_as-SameFlag sig_ack remote sig s = refl
  handle_as-SameFlag sig_offer remote sig s = refl
  handle_as-SameFlag sig_request remote sig s =
      Ensures-bind (SameFlag s)
        (add_to_peer_chunk (lookup G m s) (s.peer_of remote) (G.get_earliest s.chunk_id_set)
          s.queue)
        _ (λ out e. if_SameFlag s _ _ (out.0 ==ℤ pos 0) refl refl)
  handle_as-SameFlag sig_send_buffermap remote sig s =
      Ensures-bind (SameFlag s)
        (or_fault (get_needed_chunks G (some G.init) s.node.output.first_chunk sig.received)
          null_deref)
        _ (λ needed e. refl)
  handle_as-SameFlag sig_request_buffermap remote sig s = refl

  receive-SameFlag :
      (remote : ℕ) (p : Packet G) (s : State G m) → Ensures (SameFlag s) (receive G m remote p s)
  unfolding receive
  receive-SameFlag remote topology s = refl
  receive-SameFlag remote (chunk parsed) s =
      Ensures-bind (SameFlag s) (handle_chunk_message G (output_ffmpeg m) parsed s.node) _
        (λ n e. refl)
  receive-SameFlag remote (secured_data_chunk parsed) s = refl
  receive-SameFlag remote (secured_data_login parsed) s = refl
  receive-SameFlag remote (signalling none) s = tt
  receive-SameFlag remote (signalling (some sig)) s =
      handle_as-SameFlag sig.signal_type remote sig s
  receive-SameFlag remote (unknown _) s = refl

  -- No round clears the flag.
  round-Stopped : (r : Round G) (s : State G m) → Stopped s → Ensures Stopped (round G m r s)
  unfolding round send_topology send_chunk request_secured_login
  round-Stopped (receive_round remote p) s h =
      Ensures-mono (SameFlag s) Stopped (receive G m remote p s) (receive-SameFlag remote p s)
        (λ t same. same ∙ h)
  round-Stopped (topology_round []) s h = refl
  round-Stopped (topology_round (_ ∷ _)) s h = h
  round-Stopped (offer_round nbs) s h =
      ap (λ (x : State G m). x.stop_threads) (offer_chunk_lem G m nbs s).0 ∙ h
  round-Stopped send_round s h =
      Ensures-bind Stopped (send_chunks_to_peers (lookup G m s) s.queue) _ (λ q e. h)
  round-Stopped login_round s h = h

  record Nearer (p q : Program G m) : Type 0 where
    pub stopped : Stopped q.state
    pub fewer : suc (left_of q.threads) ≤ left_of p.threads

  Step-Nearer : {p q : Program G m} → Step G m p q → Stopped p.state → Nearer p q
  Step-Nearer (enter i w at going is) h = cc
  Step-Nearer {p} (leave i w at h' is) h = subst (Nearer p) (sym is) (record {
    stopped = h;
    fewer =
        let total = sum_of-set left p.threads i (at_phase w testing) (at_phase w ended) at in
        omega (arith, total);
  })
  Step-Nearer {p} (finish i w r s at does ran is) h = subst (Nearer p) (sym is) (record {
    stopped = Ensures-value Stopped (round G m r p.state) (round-Stopped r p.state h) ran;
    fewer =
        let total =
          sum_of-set left p.threads i (at_phase w running) (at_phase w (after_round w)) at in
        let once = left-after_round w in omega (arith, total, once);
  })

-- Once `stopThreads` is set it stays set, and the threads together take at most one more step
-- for each that stands at its test and two for each in a round, so no thread begins another
-- round.
pub stopped_ends :
    (G : Grapes) (m : Machine) {n : ℕ} {p q : Program G m}
    → p.state.stop_threads ≡ true
    → Steps G m n p q
    → (n + left_of q.threads ≤ left_of p.threads) × (q.state.stop_threads ≡ true)
stopped_ends G m h stay = (omega arith, h)
stopped_ends G m h (more st rest) =
    let near = Step-Nearer G m st h in
    let (fewer, stopped) = stopped_ends G m near.stopped rest in
    (omega (arith, near.fewer, fewer), stopped)
