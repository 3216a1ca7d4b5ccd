-- ===== src/Output/Order.antt =====
-- In which order chunks reach the ring, and when `playedChunk` moves.
use p2pxineplugin.Base.{
  ◌+◌, ◌≤◌, ◌≡◌, ◌≢◌, ◌⊎◌, refl, ap, subst, sym, ◌∙◌, Bool-cases, Option-cases, inl, inr, List,
  ◌++◌, Option, some, arith, ℤ, pos, ◌+ℤ◌, ◌≤ℤ◌, ◌<ℤ◌, ltb_ℤ, ltb_ℤ_total, ℤ-discrete, Outcome, ok,
  ◌>>=◌, Ensures, Ensures-bind, Ensures-mono, Ensures-value,
}
use p2pxineplugin.Chunk.{Chunk}
use p2pxineplugin.Ring.{buffer_size, Ring}
use p2pxineplugin.Ring.Contents.{contents, IsReadable, IsAligned}
use p2pxineplugin.Writer.Append.{IsVideoChunk, payload_of}
use p2pxineplugin.Writer.Misplaced.{write_chunk_room}
use p2pxineplugin.Output.{Context, Session, Machine, emit, deliver_later, deliver_now, deliver}
use p2pxineplugin.Output.Slots.{Kept, emit-context}
use p2pxineplugin.Output.Deliver.{
  seen, IsDue, deliver_old, deliver_unready, deliver_due, deliver_not_due, deliver_later-Kept,
}

-- The ring has taken the payload of a chunk.
pub record InOrder (c : Chunk) (s : Session) (slots : List (Option Chunk)) (out : ℤ × Session)
    : Type 0 where
  pub result : out.0 ≡ pos 0
  pub readable : IsReadable out.1.ring
  pub appended : contents out.1.ring ≡ contents s.ring ++ payload_of c
  pub played : out.1.played_chunk ≡ c.id
  pub maximum : c.id ≤ℤ out.1.maximum_chunk
  pub slots_kept : out.1.output_buffer ≡ some slots
  pub turns_kept : out.1.turns ≡ s.turns

-- Marking a chunk as seen touches `maximumChunk` only.
pub record Seen (c : Chunk) (s t : Session) : Type 0 where
  pub ring : t.ring ≡ s.ring
  pub turns : t.turns ≡ s.turns
  pub slots : t.output_buffer ≡ s.output_buffer
  pub size : t.output_buffer_size ≡ s.output_buffer_size
  pub played : t.played_chunk ≡ s.played_chunk
  pub first : t.first_chunk ≡ s.first_chunk
  pub above : c.id ≤ℤ t.maximum_chunk
  pub grown : s.maximum_chunk ≤ℤ t.maximum_chunk

pub seen-Seen : (c : Chunk) (s : Session) → Seen c s (seen c s)
seen-Seen c s = elim (Bool-cases (ltb_ℤ s.maximum_chunk c.id)) [
  | inl more ↦ rw more (record {
    ring = refl;
    turns = refl;
    slots = refl;
    size = refl;
    played = refl;
    first = refl;
    above = omega arith;
    grown = ground arith;
  })
  | inr same ↦ rw same (record {
    ring = refl;
    turns = refl;
    slots = refl;
    size = refl;
    played = refl;
    first = refl;
    above = ground arith;
    grown = omega arith;
  })
]

-- A chunk written from a session with room.
emit_room :
    (m : Machine) (c : Chunk) (t : Session)
    → IsVideoChunk c
    → IsAligned t.ring
    → t.ring.max_size ≤ buffer_size
    → t.ring.count + c.size ≤ t.ring.max_size
    → (r : Ring) × (contents r ≡ contents t.ring ++ payload_of c)
      × IsReadable r
      × (emit m c t ≡ ok (record t { ring = r }))
unfolding emit
emit_room m c t v a small room =
    let (r, w, appended, readable) = write_chunk_room m.host c t.ring t.turns v a small room in
    (r, appended, readable, rw w refl)

deliver_now_room :
    (m : Machine) (c : Chunk) (t : Session)
    → IsVideoChunk c
    → IsAligned t.ring
    → t.ring.max_size ≤ buffer_size
    → t.ring.count + c.size ≤ t.ring.max_size
    → (r : Ring) × (contents r ≡ contents t.ring ++ payload_of c)
      × IsReadable r
      × (deliver_now m c t
          ≡ ok (record t { context = record t.context { played_chunk = c.id }; ring = r }))
unfolding deliver_now
deliver_now_room m c t v a small room =
    let (r, appended, readable, w) = emit_room m c t v a small room in
    (r, appended, readable, rw w refl)

-- Delivering a video chunk that is newer than the last one played and due (the first chunk, or
-- the one after the last played), with a buffer, an aligned ring and room for the whole chunk,
-- returns 0: the payload is appended to the ring, the chunk becomes the last one played, the
-- maximum is at least its number, and the stored chunks and the schedule are unchanged.
pub deliver-InOrder :
    (m : Machine) (c : Chunk) (s : Session) (slots : List (Option Chunk))
    → s.output_buffer ≡ some slots
    → s.played_chunk <ℤ c.id
    → IsDue c s
    → IsVideoChunk c
    → IsAligned s.ring
    → s.ring.max_size ≤ buffer_size
    → s.ring.count + c.size ≤ s.ring.max_size
    → (out : ℤ × Session) × (deliver m c s ≡ ok out) × InOrder c s slots out
deliver-InOrder m c s slots e new due v a small room =
    from (seen c s) (seen-Seen c s) (deliver_due m c s slots e new due)
  where
    from :
        (t : Session)
        → Seen c s t
        → deliver m c s ≡ (deliver_now m c t >>= λ s'. ok (pos 0, s'))
        → (out : ℤ × Session) × (deliver m c s ≡ ok out) × InOrder c s slots out
    from t d q =
        let (r, appended, readable, w) =
          deliver_now_room m c t v (subst IsAligned (sym d.ring) a) (rw d.ring small)
            (rw d.ring room) in
        (
          (pos 0, record t { context = record t.context { played_chunk = c.id }; ring = r }),
          q ∙ ap (λ o. o >>= λ s'. ok (pos 0, s')) w,
          record {
            result = refl;
            readable = readable;
            appended = appended ∙ ap (λ (x : Ring). contents x ++ payload_of c) d.ring;
            played = refl;
            maximum = d.above;
            slots_kept = d.slots ∙ e;
            turns_kept = d.turns;
          },
        )

abbrev pub Advance : Chunk → Session → Session → Type 0
Advance c s s' =
    ((s'.played_chunk ≡ s.played_chunk)
      ⊎ ((s'.played_chunk ≡ c.id) × (s.played_chunk <ℤ c.id) × IsDue c s))
    × (s.maximum_chunk ≤ℤ s'.maximum_chunk)
    × (s'.first_chunk ≡ s.first_chunk)
    × (s'.output_buffer_size ≡ s.output_buffer_size)

abbrev pub AdvanceAfter : Chunk → Session → ℤ × Session → Type 0
AdvanceAfter c s out = Advance c s out.1

same_Advance : (c : Chunk) (s : Session) → Advance c s s
same_Advance c s = (inl refl, omega arith, refl, refl)

due_Advance :
    (m : Machine) (c : Chunk) (s t : Session)
    → Seen c s t
    → s.played_chunk <ℤ c.id
    → IsDue c s
    → Ensures (Advance c s) (deliver_now m c t)
unfolding deliver_now
due_Advance m c s t d new due = Ensures-bind (Advance c s) (emit m c t) _ λ u eu.
    let (ctx, first) = emit-context m c t eu in
    (
      inr (refl, new, due),
      ground (arith, d.grown, ctx),
      first ∙ d.first,
      ap (λ (x : Context). x.output_buffer_size) ctx ∙ d.size,
    )

later_Advance :
    (m : Machine) (c : Chunk) (s t : Session)
    → Seen c s t
    → Ensures (Advance c s) (deliver_later m c t)
later_Advance m c s t d =
    Ensures-mono (Kept t) (Advance c s) (deliver_later m c t) (deliver_later-Kept m c t) λ u k. (
      inl (k.played ∙ d.played),
      ground (arith, d.grown, k.maximum),
      k.first ∙ d.first,
      k.size ∙ d.size,
    )

pub IsDue-cases : (c : Chunk) (s : Session) → IsDue c s ⊎ (¬ IsDue c s)
IsDue-cases c s = elim (ℤ-discrete c.id s.first_chunk) [
  | yes p ↦ inl (inl p)
  | no p ↦ elim (ℤ-discrete c.id (s.played_chunk +ℤ pos 1)) [
    | yes q ↦ inl (inr q)
    | no q ↦ inr (neither p q)
  ]
]
  where
    neither : c.id ≢ s.first_chunk → c.id ≢ s.played_chunk +ℤ pos 1 → ¬ IsDue c s
    neither p q (inl h) = p h
    neither p q (inr h) = q h

-- For every chunk and session, if a delivery returns then `playedChunk` is as before, or it is
-- the chunk's number, which was larger and due; `maximumChunk` has not fallen, and
-- `firstChunk` and the size of the buffer are as before.
pub deliver_advances :
    (m : Machine) (c : Chunk) (s : Session) → Ensures (AdvanceAfter c s) (deliver m c s)
deliver_advances m c s = elim (Option-cases s.output_buffer) [
  | inl empty ↦ rw (deliver_unready m c s empty) (same_Advance c s)
  | inr (slots, e) ↦ elim (ltb_ℤ_total s.played_chunk c.id) [
    | inr old ↦ rw (deliver_old m c s slots e (ground arith)) (same_Advance c s)
    | inl new ↦ elim (IsDue-cases c s) [
      | inl due ↦ rw (deliver_due m c s slots e (ground arith) due) (
          after (deliver_now m c (seen c s))
            (due_Advance m c s (seen c s) (seen-Seen c s) (ground arith) due))
      | inr later ↦
          rw (deliver_not_due m c s slots e (ground arith) later)
            (after (deliver_later m c (seen c s)) (later_Advance m c s (seen c s) (seen-Seen c s)))
    ]
  ]
]
  where
    after :
        (o : Outcome Session)
        → Ensures (Advance c s) o
        → Ensures (AdvanceAfter c s) (o >>= λ s'. ok (pos 0, s'))
    after o h = Ensures-bind (AdvanceAfter c s) o _ (λ u e. Ensures-value (Advance c s) o h e)
