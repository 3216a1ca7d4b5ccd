-- ===== src/Threads/Locks/Put.antt =====
-- A change of data that a message does not use: before its handling, or after it.
use p2pxineplugin.Base.{
  ℕ, ◌≡◌, ◌≢◌, ◌∙◌, refl, sym, ap, Bool, true, false, List, [], ◌∷◌, Option, none, some, ℤ, pos,
  ◌==ℤ◌, if◌then◌else◌, Outcome, ok, ◌>>=◌, bind_assoc, bind_ext,
}
use p2pxineplugin.Ring.{Ring}
use p2pxineplugin.Grapes.{Grapes}
use p2pxineplugin.Output.{Context, Machine}
use p2pxineplugin.Output.Module.{output_ffmpeg}
use p2pxineplugin.PeerQueue.{Queue}
use p2pxineplugin.Network.{Node, deliver_chunks, send_buffer_map, chunk_buffer_to_buffermap}
use p2pxineplugin.Threads.{
  Signal, State, send, with_node, handle_accept, handle_offer, handle_request,
  handle_send_buffermap, handle_request_buffermap,
}
use p2pxineplugin.Threads.Locks.{
  Shared, peer_sampler, chunk_buffer, chunk_id_set, first_chunk, output_context, peer_chunks, ring,
  read, write, Action, lock, unlock, access, Section, on_accept, on_offer, on_request,
  on_send_buffermap, on_request_buffermap, on_chunk, section,
}

-- Neither a read nor a write of the data is among these actions.
abbrev pub Avoids : Shared → List Action → Type 0
Avoids v [] = Unit
Avoids v (access (write w) ∷ todo) = (v ≢ w) × Avoids v todo
Avoids v (access (read w) ∷ todo) = (v ≢ w) × Avoids v todo
Avoids v (lock m ∷ todo) = Avoids v todo
Avoids v (unlock m ∷ todo) = Avoids v todo

abbrev pub SectionAvoids : Shared → Option Section → Type 0
SectionAvoids v none = Unit
SectionAvoids v (some s) = Avoids v (section s)

module _ (G : Grapes) (m : Machine) where
  -- What another thread can put in the place of the data.
  abbrev pub Value : Shared → Type 0
  Value peer_sampler = Unit
  Value chunk_buffer = G.Buffer
  Value chunk_id_set = G.IdSet
  Value first_chunk = ℤ
  Value output_context = Context
  Value peer_chunks = Queue
  Value ring = Ring

  abbrev pub put : (v : Shared) → Value v → State G m → State G m
  put peer_sampler x s = s
  put chunk_buffer x s = record s { node = record s.node { chunk_buffer = x } }
  put chunk_id_set x s = record s { chunk_id_set = x }
  put first_chunk x s = record s {
    node = record s.node { output = record s.node.output { first_chunk = x } };
  }
  put output_context x s = record s {
    node = record s.node { output = record s.node.output { context = x } };
  }
  put peer_chunks x s = record s { queue = x }
  put ring x s = record s { node = record s.node { output = record s.node.output { ring = x } } }

  -- A change after a computation, and after the step that ends it.
  pub then_put :
      {A : Type 0} (v : Shared) (x : Value v) (run : Outcome A) (f : A → State G m)
      → (run >>= λ a. ok (put v x (f a))) ≡ (run >>= (λ a. ok (f a)) >>= λ t. ok (put v x t))
  then_put v x run f = sym (bind_assoc run (λ a. ok (f a)) (λ t. ok (put v x t)))

  pub accept-put :
      (v : Shared) (remote : ℕ) (sig : Signal G) (x : Value v) (s : State G m)
      → Avoids v (section on_accept)
      → handle_accept G m remote sig (put v x s)
        ≡ (handle_accept G m remote sig s >>= λ t. ok (put v x t))
  unfolding section handle_accept
  accept-put peer_sampler remote sig x s h = then_put peer_sampler x _ _
  accept-put chunk_buffer remote sig x s h = absurd (h.0 refl)
  accept-put chunk_id_set remote sig x s h = then_put chunk_id_set x _ _
  accept-put first_chunk remote sig x s h = then_put first_chunk x _ _
  accept-put output_context remote sig x s h = then_put output_context x _ _
  accept-put peer_chunks remote sig x s h = absurd (h.1.0 refl)
  accept-put ring remote sig x s h = then_put ring x _ _

  pub offer-put :
      (v : Shared) (remote : ℕ) (sig : Signal G) (x : Value v) (s : State G m)
      → Avoids v (section on_offer)
      → handle_offer G m remote sig (put v x s) ≡ put v x (handle_offer G m remote sig s)
  unfolding section handle_offer
  offer-put peer_sampler remote sig x s h = refl
  offer-put chunk_buffer remote sig x s h = absurd (h.0 refl)
  offer-put chunk_id_set remote sig x s h = refl
  offer-put first_chunk remote sig x s h = absurd (h.1.0 refl)
  offer-put output_context remote sig x s h = refl
  offer-put peer_chunks remote sig x s h = refl
  offer-put ring remote sig x s h = refl

  put-if :
      (v : Shared) (x : Value v) (b : Bool) (t u : State G m)
      → (if b then put v x t else put v x u) ≡ put v x (if b then t else u)
  put-if v x true t u = refl
  put-if v x false t u = refl

  -- The answer to a request, by whether the chunk was queued.
  answer : ℕ → Signal G → State G m → ℤ × Queue → State G m
  answer remote sig s out =
      if out.0 ==ℤ pos 0
      then send G m
          (deliver_chunks remote (G.add_chunk G.init (G.get_earliest s.chunk_id_set)) sig.trans_id)
          (record s { queue = out.1 })
      else send G m
          (send_buffer_map remote (chunk_buffer_to_buffermap G s.node.chunk_buffer)
            s.chunk_buffer_size sig.trans_id)
          (record s { queue = out.1 })

  pub request-put :
      (v : Shared) (remote : ℕ) (sig : Signal G) (x : Value v) (s : State G m)
      → Avoids v (section on_request)
      → handle_request G m remote sig (put v x s)
        ≡ (handle_request G m remote sig s >>= λ t. ok (put v x t))
  unfolding section handle_request answer
  request-put peer_sampler remote sig x s h =
      bind_ext _ _ (λ out. ok (put peer_sampler x (answer remote sig s out)))
        (λ out. ap ok (put-if peer_sampler x (out.0 ==ℤ pos 0) _ _))
      ∙ then_put peer_sampler x _ (answer remote sig s)
  request-put chunk_buffer remote sig x s h = absurd (h.1.0 refl)
  request-put chunk_id_set remote sig x s h = absurd (h.0 refl)
  request-put first_chunk remote sig x s h =
      bind_ext _ _ (λ out. ok (put first_chunk x (answer remote sig s out)))
        (λ out. ap ok (put-if first_chunk x (out.0 ==ℤ pos 0) _ _))
      ∙ then_put first_chunk x _ (answer remote sig s)
  request-put output_context remote sig x s h =
      bind_ext _ _ (λ out. ok (put output_context x (answer remote sig s out)))
        (λ out. ap ok (put-if output_context x (out.0 ==ℤ pos 0) _ _))
      ∙ then_put output_context x _ (answer remote sig s)
  request-put peer_chunks remote sig x s h = absurd (h.1.1.0 refl)
  request-put ring remote sig x s h =
      bind_ext _ _ (λ out. ok (put ring x (answer remote sig s out)))
        (λ out. ap ok (put-if ring x (out.0 ==ℤ pos 0) _ _))
      ∙ then_put ring x _ (answer remote sig s)

  pub send_buffermap-put :
      (v : Shared) (remote : ℕ) (sig : Signal G) (x : Value v) (s : State G m)
      → Avoids v (section on_send_buffermap)
      → handle_send_buffermap G m remote sig (put v x s)
        ≡ (handle_send_buffermap G m remote sig s >>= λ t. ok (put v x t))
  unfolding section handle_send_buffermap
  send_buffermap-put peer_sampler remote sig x s h = then_put peer_sampler x _ _
  send_buffermap-put chunk_buffer remote sig x s h = then_put chunk_buffer x _ _
  send_buffermap-put chunk_id_set remote sig x s h = then_put chunk_id_set x _ _
  send_buffermap-put first_chunk remote sig x s h = absurd (h.0 refl)
  send_buffermap-put output_context remote sig x s h = then_put output_context x _ _
  send_buffermap-put peer_chunks remote sig x s h = then_put peer_chunks x _ _
  send_buffermap-put ring remote sig x s h = then_put ring x _ _

  pub request_buffermap-put :
      (v : Shared) (remote : ℕ) (sig : Signal G) (x : Value v) (s : State G m)
      → Avoids v (section on_request_buffermap)
      → handle_request_buffermap G m remote sig (put v x s)
        ≡ put v x (handle_request_buffermap G m remote sig s)
  unfolding section handle_request_buffermap
  request_buffermap-put peer_sampler remote sig x s h = refl
  request_buffermap-put chunk_buffer remote sig x s h = refl
  request_buffermap-put chunk_id_set remote sig x s h = absurd (h.0 refl)
  request_buffermap-put first_chunk remote sig x s h = refl
  request_buffermap-put output_context remote sig x s h = refl
  request_buffermap-put peer_chunks remote sig x s h = refl
  request_buffermap-put ring remote sig x s h = refl

  -- A chunk that arrives is handled in the node.
  unfoldable pub in_node :
      (Node G (output_ffmpeg m) → Outcome (Node G (output_ffmpeg m)))
      → State G m
      → Outcome (State G m)
  in_node f s = f s.node >>= λ n. ok (with_node G m s n)

  pub in_node-put :
      (v : Shared) (f : Node G (output_ffmpeg m) → Outcome (Node G (output_ffmpeg m))) (x : Value v)
      (s : State G m)
      → Avoids v (section (on_chunk (0 ∷ [])))
      → in_node f (put v x s) ≡ (in_node f s >>= λ t. ok (put v x t))
  unfolding section in_node
  in_node-put peer_sampler f x s h = then_put peer_sampler x (f s.node) (with_node G m s)
  in_node-put chunk_buffer f x s h = absurd (h.1.1.1.1.1.0 refl)
  in_node-put chunk_id_set f x s h = then_put chunk_id_set x (f s.node) (with_node G m s)
  in_node-put first_chunk f x s h = absurd (h.0 refl)
  in_node-put output_context f x s h = absurd (h.1.0 refl)
  in_node-put peer_chunks f x s h = then_put peer_chunks x (f s.node) (with_node G m s)
  in_node-put ring f x s h = absurd (h.1.1.0 refl)
