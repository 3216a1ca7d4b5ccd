-- ===== src/Network/Arrival.antt =====
-- `network_handle_chunk_message` with the module `output_ffmpeg`: what an arriving chunk does to the
-- stream and to the set that is offered to the peers.
use p2pxineplugin.Base.{
  ℕ, ◌+◌, ◌≤◌, ◌≡◌, ◌∙◌, refl, sym, ap, subst, Bool, ◌||◌, List, Option, none, some, Option-cases,
  ◌⊎◌, inl, inr, arith, ℤ, pos, ◌<ℤ◌, ◌≤ℤ◌, Outcome, ok, ◌>>=◌,
}
use p2pxineplugin.Chunk.{Chunk}
use p2pxineplugin.Grapes.{Grapes, IsLawful, member, is_some}
use p2pxineplugin.Ring.{buffer_size}
use p2pxineplugin.Ring.Contents.{contents, IsReadable, IsAligned}
use p2pxineplugin.Writer.Append.{IsVideoChunk}
use p2pxineplugin.Output.{Session, Machine}
use p2pxineplugin.Output.Deliver.{IsDue}
use p2pxineplugin.Output.Order.{InOrder, deliver-InOrder}
use p2pxineplugin.Output.Module.{output_ffmpeg}
use p2pxineplugin.OutputInterface.{OutputInterface}
use p2pxineplugin.Network.{
  Node, hand_over, store_chunk, handle_chunk_message, chunk_buffer_to_buffermap,
}
use p2pxineplugin.Network.Sets.{member-chunk_buffer_to_buffermap}

module _ (G : Grapes) (L : IsLawful G) where
  -- A chunk number is offered if its chunk is in the buffer.
  abbrev pub is_offered : G.Buffer → ℤ → Bool
  is_offered b x = member x (G.ids (chunk_buffer_to_buffermap G b))

  is_offered_lem : (b : G.Buffer) (x : ℤ) → is_offered b x ≡ is_some (G.cb_get_chunk b x)
  is_offered_lem b x = member-chunk_buffer_to_buffermap G L b x ∙ sym (L.is_some-cb_get_chunk b x)

  store_chunk-refused :
      (O : OutputInterface) (c : Chunk) (n : Node G O)
      → G.cb_add_chunk n.chunk_buffer c ≡ none
      → store_chunk G O c n ≡ n
  unfolding store_chunk
  store_chunk-refused O c n e = ground arith

  store_chunk-taken :
      (O : OutputInterface) (c : Chunk) (n : Node G O) {b : G.Buffer}
      → G.cb_add_chunk n.chunk_buffer c ≡ some b
      → store_chunk G O c n ≡ record n { chunk_buffer = b }
  unfolding store_chunk
  store_chunk-taken O c n e = ground arith

  -- A chunk that the buffer takes is offered from then on; one that it refuses as before.
  store_chunk-offered :
      (O : OutputInterface) (c : Chunk) (n : Node G O)
      → is_offered (store_chunk G O c n).chunk_buffer c.id
        ≡ is_some (G.cb_add_chunk n.chunk_buffer c) || is_offered n.chunk_buffer c.id
  store_chunk-offered O c n = on_result (Option-cases (G.cb_add_chunk n.chunk_buffer c))
    where
      on_result :
          (G.cb_add_chunk n.chunk_buffer c ≡ none)
            ⊎ ((b : G.Buffer) × (G.cb_add_chunk n.chunk_buffer c ≡ some b))
          → is_offered (store_chunk G O c n).chunk_buffer c.id
            ≡ is_some (G.cb_add_chunk n.chunk_buffer c) || is_offered n.chunk_buffer c.id
      on_result (inl e) =
          ap (λ (t : Node G O). is_offered t.chunk_buffer c.id) (store_chunk-refused O c n e)
          ∙ sym (ap (λ o. is_some o || is_offered n.chunk_buffer c.id) e)
      on_result (inr (b, e)) =
          ap (λ (t : Node G O). is_offered t.chunk_buffer c.id) (store_chunk-taken O c n e)
          ∙ is_offered_lem b c.id
          ∙ L.cb_add_chunk-found n.chunk_buffer b c e
          ∙ sym (ap (λ o. is_some o || is_offered n.chunk_buffer c.id) e)

  store_chunk-kept :
      (O : OutputInterface) (c : Chunk) (n : Node G O)
      → ((store_chunk G O c n).output ≡ n.output) × ((store_chunk G O c n).sent ≡ n.sent)
  unfolding store_chunk
  store_chunk-kept O c n = ground arith

  -- What a chunk that arrives in time leaves.
  pub record Arrived (m : Machine) (c : Chunk) (slots : List (Option Chunk))
      (n n' : Node G (output_ffmpeg m)) : Type 0 where
    pub played : InOrder c n.output slots (pos 0, n'.output)
    pub silent : n'.sent ≡ n.sent
    pub offered :
        is_offered n'.chunk_buffer c.id
        ≡ is_some (G.cb_add_chunk n.chunk_buffer c) || is_offered n.chunk_buffer c.id

  -- A chunk message with a video chunk that is newer than the last one played and due, handled
  -- with the module `output_ffmpeg` where there is room for it, plays the chunk as a delivery
  -- does and sends nothing; the buffer map then has the chunk exactly if the chunk buffer took
  -- it or had it before.
  pub handle_chunk_message-Arrived :
      (m : Machine) (c : Chunk) (trans_id : ℕ) (slots : List (Option Chunk))
      (n : Node G (output_ffmpeg m))
      → n.output.output_buffer ≡ some slots
      → n.output.played_chunk <ℤ c.id
      → IsDue c n.output
      → IsVideoChunk c
      → IsAligned n.output.ring
      → n.output.ring.max_size ≤ buffer_size
      → n.output.ring.count + c.size ≤ n.output.ring.max_size
      → (n' : Node G (output_ffmpeg m)) × (handle_chunk_message G
            (output_ffmpeg m)
            (some (c, trans_id))
            n
          ≡ ok n')
        × Arrived m c slots n n'
  unfolding handle_chunk_message hand_over
  handle_chunk_message-Arrived m c trans_id slots n e new due v a small room =
      let (out, d, k) = deliver-InOrder m c n.output slots e new due v a small room in
      let t = record n { output = out.1 } in
      let (same_output, same_sent) = store_chunk-kept (output_ffmpeg m) c t in
      (
        store_chunk G (output_ffmpeg m) c t,
        ap (λ o. delivered o >>= λ n'. ok (store_chunk G (output_ffmpeg m) c n')) d,
        record {
          played = record {
            result = refl;
            readable = subst (λ (s : Session). IsReadable s.ring) (sym same_output) k.readable;
            appended = ap (λ (s : Session). contents s.ring) same_output ∙ k.appended;
            played = ap (λ (s : Session). s.played_chunk) same_output ∙ k.played;
            maximum = subst (λ (s : Session). c.id ≤ℤ s.maximum_chunk) (sym same_output) k.maximum;
            slots_kept = ap (λ (s : Session). s.output_buffer) same_output ∙ k.slots_kept;
            turns_kept = ap (λ (s : Session). s.turns) same_output ∙ k.turns_kept;
          };
          silent = same_sent;
          offered = store_chunk-offered (output_ffmpeg m) c t;
        },
      )
    where
      delivered : Outcome (ℤ × Session) → Outcome (Node G (output_ffmpeg m))
      delivered o = o >>= λ out. ok (record n { output = out.1 })
