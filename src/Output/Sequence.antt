-- ===== src/Output/Sequence.antt =====
-- A run of deliveries in which every chunk is due.
use p2pxineplugin.Base.{
  ◌≡◌, ◌∙◌, refl, sym, ap, inl, inr, Bool-cases, List, [], ◌∷◌, Option, some, arith, if◌then◌else◌,
  ℤ, pos, ◌+ℤ◌, ◌<ℤ◌, ltb_ℤ, Outcome, ok, ◌>>=◌, bind_assoc, bind_ext,
}
use p2pxineplugin.Chunk.{Chunk}
use p2pxineplugin.Writer.{write_chunk}
use p2pxineplugin.Output.{Context, Session, Machine, with_context, emit, deliver_now, deliver}
use p2pxineplugin.Output.Deliver.{seen, IsDue, deliver_due}
use p2pxineplugin.Output.Flush.{emit_all}

abbrev pub deliver_all : Machine → List Chunk → Session → Outcome Session
deliver_all m [] s = ok s
deliver_all m (c ∷ cs) s = deliver m c s >>= λ out. deliver_all m cs out.1

-- Numbers that follow `last` without a gap.
abbrev pub Following : ℤ → List Chunk → Type 0
Following last [] = Unit
Following last (c ∷ cs) = (c.id ≡ last +ℤ pos 1) × Following c.id cs

-- The context after a chunk has been played, and after several.
abbrev pub played : Chunk → Context → Context
played c ctx = record ctx {
  maximum_chunk = if ltb_ℤ ctx.maximum_chunk c.id then c.id else ctx.maximum_chunk;
  played_chunk = c.id;
}

abbrev pub all_played : List Chunk → Context → Context
all_played [] ctx = ctx
all_played (c ∷ cs) ctx = all_played cs (played c ctx)

-- A write does not look at the context.
pub emit-with_context :
    (m : Machine) (c : Chunk) (s : Session) (ctx : Context)
    → emit m c (with_context s ctx) ≡ (emit m c s >>= λ t. ok (with_context t ctx))
unfolding emit
emit-with_context m c s ctx = sym (
    bind_assoc (write_chunk m.host c s.ring s.turns)
      (λ out. ok (record s { ring = out.0; turns = out.1 })) (λ t. ok (with_context t ctx)))

emit_all-with_context :
    (m : Machine) (cs : List Chunk) (s : Session) (ctx : Context)
    → emit_all m cs (with_context s ctx) ≡ (emit_all m cs s >>= λ t. ok (with_context t ctx))
unfolding emit_all
emit_all-with_context m [] s ctx = refl
emit_all-with_context m (c ∷ cs) s ctx =
    ap (λ o. o >>= emit_all m cs) (emit-with_context m c s ctx)
    ∙ bind_assoc (emit m c s) (λ t. ok (with_context t ctx)) (emit_all m cs)
    ∙ bind_ext (emit m c s) (λ t. emit_all m cs (with_context t ctx)) _
        (λ t. emit_all-with_context m cs t ctx)
    ∙ sym (bind_assoc (emit m c s) (emit_all m cs) (λ t. ok (with_context t ctx)))

abbrev pub marked : Chunk → Context → Context
marked c ctx = record ctx {
  maximum_chunk = if ltb_ℤ ctx.maximum_chunk c.id then c.id else ctx.maximum_chunk;
}

pub seen_lem : (c : Chunk) (s : Session) → seen c s ≡ with_context s (marked c s.context)
seen_lem c s = elim (Bool-cases (ltb_ℤ s.maximum_chunk c.id)) [
  | inl more ↦ rw more refl
  | inr same ↦ rw same refl
]

-- A delivery of a chunk that is due is a write and a change of the context.
pub deliver_due_lem :
    (m : Machine) (c : Chunk) (s : Session) (slots : List (Option Chunk))
    → s.output_buffer ≡ some slots
    → s.played_chunk <ℤ c.id
    → IsDue c s
    → deliver m c s ≡ (emit m c s >>= λ t. ok (pos 0, with_context t (played c s.context)))
unfolding deliver_now
deliver_due_lem m c s slots e new due =
    deliver_due m c s slots e new due
    ∙ ap (λ o. deliver_now m c o >>= λ t. ok (pos 0, t)) (seen_lem c s)
    ∙ ap (λ o. o >>= play >>= λ t. ok (pos 0, t)) (emit-with_context m c s (marked c s.context))
    ∙ ap (λ o. o >>= λ t. ok (pos 0, t))
        (bind_assoc (emit m c s) (λ t. ok (with_context t (marked c s.context))) play)
    ∙ bind_assoc (emit m c s) (λ t. play (with_context t (marked c s.context))) (λ t. ok (pos 0, t))
  where
    play : Session → Outcome Session
    play t = ok (with_context t (record t.context { played_chunk = c.id }))

-- A chunk that is due, and a run after it.
after_due :
    (m : Machine) (c : Chunk) (cs : List Chunk) (s : Session) (slots : List (Option Chunk))
    → s.output_buffer ≡ some slots
    → s.played_chunk <ℤ c.id
    → IsDue c s
    → ((t : Session)
        → deliver_all m cs (with_context t (played c s.context)) ≡ (
            emit_all m cs (with_context t (played c s.context)) >>= λ u.
            ok (with_context u (all_played (c ∷ cs) s.context))))
    → deliver_all m (c ∷ cs) s
      ≡ (emit_all m (c ∷ cs) s >>= λ t. ok (with_context t (all_played (c ∷ cs) s.context)))
unfolding emit_all
after_due m c cs s slots e new due rest =
    let ctx = played c s.context in
    let all = all_played (c ∷ cs) s.context in
    ap (λ o. o >>= λ out. deliver_all m cs out.1) (deliver_due_lem m c s slots e new due)
    ∙ bind_assoc (emit m c s) (λ t. ok (pos 0, with_context t ctx)) (λ out. deliver_all m cs out.1)
    ∙ bind_ext (emit m c s) (λ t. deliver_all m cs (with_context t ctx))
        (λ t. emit_all m cs t >>= λ u. ok (with_context u all))
        (λ t.
          rest t
          ∙ ap (λ o. o >>= λ u. ok (with_context u all)) (emit_all-with_context m cs t ctx)
          ∙ bind_assoc (emit_all m cs t) (λ u. ok (with_context u ctx))
              (λ u. ok (with_context u all)))
    ∙ sym (bind_assoc (emit m c s) (emit_all m cs) (λ u. ok (with_context u all)))

-- The run, from a session whose next chunk is the first of it.
following_lem :
    (m : Machine) (cs : List Chunk) (s : Session) (slots : List (Option Chunk))
    → s.output_buffer ≡ some slots
    → Following s.played_chunk cs
    → deliver_all m cs s ≡ (emit_all m cs s >>= λ t. ok (with_context t (all_played cs s.context)))
unfolding emit_all
following_lem m [] s slots e f = refl
following_lem m (c ∷ cs) s slots e (next, f) =
    after_due m c cs s slots e (ground (arith, next)) (inr next)
      (λ t. following_lem m cs (with_context t (played c s.context)) slots e f)

-- A run of chunks without a gap, the first of them due: its delivery is the writing of the chunks, and
-- the context says that they are played.
pub deliver_all_lem :
    (m : Machine) (c : Chunk) (cs : List Chunk) (s : Session) (slots : List (Option Chunk))
    → s.output_buffer ≡ some slots
    → s.played_chunk <ℤ c.id
    → IsDue c s
    → Following c.id cs
    → deliver_all m (c ∷ cs) s
      ≡ (emit_all m (c ∷ cs) s >>= λ t. ok (with_context t (all_played (c ∷ cs) s.context)))
deliver_all_lem m c cs s slots e new due f =
    after_due m c cs s slots e new due
      (λ t. following_lem m cs (with_context t (played c s.context)) slots e f)
