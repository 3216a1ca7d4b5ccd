-- ===== src/Threads/Arrivals.antt =====
-- Chunk messages that arrive in order, from the receiver to the ring.
use p2pxineplugin.Base.{
  ℕ, ◌≡◌, ◌∙◌, refl, sym, ap, List, [], ◌∷◌, Option, none, some, ◌<ℤ◌, ok, ◌>>=◌, bind_assoc,
  bind_ext,
}
use p2pxineplugin.Chunk.{Chunk}
use p2pxineplugin.Grapes.{Grapes}
use p2pxineplugin.Output.{Session, Machine, with_context, deliver}
use p2pxineplugin.Output.Module.{output_ffmpeg}
use p2pxineplugin.Output.Deliver.{IsDue}
use p2pxineplugin.Output.Flush.{emit_all}
use p2pxineplugin.Output.Sequence.{deliver_all, Following, all_played, deliver_all_lem}
use p2pxineplugin.Network.{Node, hand_over, store_chunk, handle_chunk_message}
use p2pxineplugin.Threads.{chunk, State, with_node, receive}
use p2pxineplugin.Threads.Run.{Round, receive_round, round, run}

abbrev pub chunks_of : List (Chunk × ℕ) → List Chunk
chunks_of [] = []
chunks_of ((c, _) ∷ ps) = c ∷ chunks_of ps

module _ (G : Grapes) where
  -- The rounds in which a peer's messages with these chunks arrive.
  abbrev pub arrivals : ℕ → List (Chunk × ℕ) → List (Round G)
  arrivals remote [] = []
  arrivals remote (p ∷ ps) = receive_round remote (chunk (some p)) ∷ arrivals remote ps

  -- The chunk buffer with a chunk, and with several, where it takes them.
  abbrev pub stored : Chunk → G.Buffer → G.Buffer
  stored c b = elim (G.cb_add_chunk b c) [ none ↦ b | some b' ↦ b' ]

  abbrev pub all_stored : List Chunk → G.Buffer → G.Buffer
  all_stored [] b = b
  all_stored (c ∷ cs) b = all_stored cs (stored c b)

module _ (G : Grapes) (m : Machine) where
  -- The state with these chunks stored and this output.
  abbrev pub arrived : List Chunk → Session → State G m → State G m
  arrived cs o s =
      with_node G m s
        (record s.node { chunk_buffer = all_stored G cs s.node.chunk_buffer; output = o })

  store_chunk_lem :
      (c : Chunk) (n : Node G (output_ffmpeg m))
      → store_chunk G (output_ffmpeg m) c n ≡ record n { chunk_buffer = stored G c n.chunk_buffer }
  unfolding store_chunk
  store_chunk_lem c n = go (G.cb_add_chunk n.chunk_buffer c)
    where
      go :
          (o : Option G.Buffer)
          → (elim o [ none ↦ n | some b ↦ record n { chunk_buffer = b } ])
            ≡ record n { chunk_buffer = elim o [ none ↦ n.chunk_buffer | some b' ↦ b' ] }
      go none = refl
      go (some b) = refl

  -- One message.
  receive-chunk :
      (remote trans_id : ℕ) (c : Chunk) (s : State G m)
      → receive G m remote (chunk (some (c, trans_id))) s
        ≡ (deliver m c s.node.output >>= λ out. ok (arrived (c ∷ []) out.1 s))
  unfolding receive handle_chunk_message hand_over
  receive-chunk remote trans_id c s =
      bind_assoc (deliver m c s.node.output >>= λ out. ok (record s.node { output = out.1 }))
        (λ n'. ok (store_chunk G (output_ffmpeg m) c n')) (λ n. ok (with_node G m s n))
      ∙ bind_assoc (deliver m c s.node.output) (λ out. ok (record s.node { output = out.1 })) _
      ∙ bind_ext (deliver m c s.node.output) _ (λ out. ok (arrived (c ∷ []) out.1 s))
          (λ out.
            ap (λ n. ok (with_node G m s n)) (store_chunk_lem c (record s.node { output = out.1 })))

  run-arrivals :
      (remote : ℕ) (ps : List (Chunk × ℕ)) (s : State G m)
      → run G m (arrivals G remote ps) s
        ≡ (deliver_all m (chunks_of ps) s.node.output >>= λ o. ok (arrived (chunks_of ps) o s))
  unfolding run round
  run-arrivals remote [] s = refl
  run-arrivals remote ((c, trans_id) ∷ ps) s =
      ap (λ o. o >>= run G m (arrivals G remote ps)) (receive-chunk remote trans_id c s)
      ∙ bind_assoc (deliver m c s.node.output) (λ out. ok (arrived (c ∷ []) out.1 s)) _
      ∙ bind_ext (deliver m c s.node.output) _
          (λ out. deliver_all m (chunks_of ps) out.1 >>= λ o. ok (arrived (c ∷ chunks_of ps) o s))
          (λ out. run-arrivals remote ps (arrived (c ∷ []) out.1 s))
      ∙ sym (
          bind_assoc (deliver m c s.node.output) (λ out. deliver_all m (chunks_of ps) out.1)
            (λ o. ok (arrived (c ∷ chunks_of ps) o s)))

-- Chunk messages from a peer whose chunks are numbered without a gap from a chunk on that is
-- newer than the last one played and due, where there is a buffer: receiving them all ends as
-- writing their chunks to the ring one after the other does, faults and waits included, with
-- each chunk in the chunk buffer where that takes it, the last of them played, the maximum
-- raised, and nothing else changed.
pub run_in_order :
    (G : Grapes) (m : Machine) (remote trans_id : ℕ) (c : Chunk) (ps : List (Chunk × ℕ))
    (s : State G m) (slots : List (Option Chunk))
    → s.node.output.output_buffer ≡ some slots
    → s.node.output.played_chunk <ℤ c.id
    → IsDue c s.node.output
    → Following c.id (chunks_of ps)
    → let cs = c ∷ chunks_of ps in
      run G m (arrivals G remote ((c, trans_id) ∷ ps)) s ≡ (
        emit_all m cs s.node.output >>= λ t.
        ok (arrived G m cs (with_context t (all_played cs s.node.output.context)) s))
run_in_order G m remote trans_id c ps s slots e new due f =
    let cs = c ∷ chunks_of ps in
    run-arrivals G m remote ((c, trans_id) ∷ ps) s
    ∙ ap (λ r. r >>= λ o. ok (arrived G m cs o s))
        (deliver_all_lem m c (chunks_of ps) s.node.output slots e new due f)
    ∙ bind_assoc (emit_all m cs s.node.output)
        (λ t. ok (with_context t (all_played cs s.node.output.context)))
        (λ o. ok (arrived G m cs o s))
