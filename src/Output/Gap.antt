-- ===== src/Output/Gap.antt =====
-- Deliveries of any chunks but the one that is missing.
use p2pxineplugin.Base.{
  ◌≡◌, ◌∙◌, refl, Bool-cases, Option-cases, inl, inr, List, [], ◌∷◌, All, arith, ℤ, ltb_ℤ,
  ltb_ℤ_total, Ensures, Ensures-bind, Ensures-value,
}
use p2pxineplugin.Chunk.{Chunk}
use p2pxineplugin.Output.{Session, Machine, deliver_later, deliver}
use p2pxineplugin.Output.Slots.{Kept}
use p2pxineplugin.Output.Deliver.{
  seen, IsDue, deliver_old, deliver_unready, deliver_not_due, deliver_later-Kept,
}
use p2pxineplugin.Output.Sequence.{deliver_all}

-- What waits for the missing chunk.
pub record IsStalled (s t : Session) : Type 0 where
  pub played : t.played_chunk ≡ s.played_chunk
  pub first : t.first_chunk ≡ s.first_chunk
  pub requested : t.last_request_sent ≡ s.last_request_sent

IsStalled-refl : (s : Session) → IsStalled s s
IsStalled-refl s = record { played = refl; first = refl; requested = refl }

IsStalled-trans : {s t u : Session} → IsStalled s t → IsStalled t u → IsStalled s u
IsStalled-trans f g = record {
  played = g.played ∙ f.played;
  first = g.first ∙ f.first;
  requested = g.requested ∙ f.requested;
}

seen-IsStalled : (c : Chunk) (s : Session) → IsStalled s (seen c s)
seen-IsStalled c s = elim (Bool-cases (ltb_ℤ s.maximum_chunk c.id)) [
  | inl more ↦ rw more (record { played = refl; first = refl; requested = refl })
  | inr same ↦ rw same (IsStalled-refl s)
]

Kept-IsStalled : {s t : Session} → Kept s t → IsStalled s t
Kept-IsStalled k = record { played = k.played; first = k.first; requested = k.requested }

abbrev StalledAfter : Session → ℤ × Session → Type 0
StalledAfter s out = IsStalled s out.1

deliver-IsStalled :
    (m : Machine) (c : Chunk) (s : Session) → ¬ IsDue c s → Ensures (StalledAfter s) (deliver m c s)
deliver-IsStalled m c s other = elim (Option-cases s.output_buffer) [
  | inl empty ↦ rw (deliver_unready m c s empty) (IsStalled-refl s)
  | inr (slots, e) ↦ elim (ltb_ℤ_total s.played_chunk c.id) [
    | inr old ↦ rw (deliver_old m c s slots e (ground arith)) (IsStalled-refl s)
    | inl new ↦ rw (deliver_not_due m c s slots e (ground arith) other) (
        Ensures-bind (StalledAfter s) (deliver_later m c (seen c s)) _ (λ t e'.
          IsStalled-trans (seen-IsStalled c s) (
            Kept-IsStalled (
              Ensures-value (Kept (seen c s)) (deliver_later m c (seen c s))
                (deliver_later-Kept m c (seen c s)) e'))))
  ]
]

-- A chunk is due, or not, for a session that waits for the same one.
IsDue-still : (c : Chunk) {s t : Session} → IsStalled s t → IsDue c t → IsDue c s
IsDue-still c k (inl first) = inl (first ∙ k.first)
IsDue-still c k (inr next) = inr (ground (arith, next, k.played))

IsStalled-from :
    (m : Machine) (cs : List Chunk) (s t : Session)
    → IsStalled s t
    → All (λ c. ¬ IsDue c s) cs
    → Ensures (IsStalled s) (deliver_all m cs t)
IsStalled-from m [] s t k h = k
IsStalled-from m (c ∷ cs) s t k (other, h) = Ensures-bind (IsStalled s) (deliver m c t) _ (λ out e.
    IsStalled-from m cs s out.1
      (IsStalled-trans k (
        Ensures-value (StalledAfter t) (deliver m c t)
          (deliver-IsStalled m c t (λ due. other (IsDue-still c k due))) e))
      h)

-- Deliveries of any chunks in any order, none of which is the first chunk or the one after the
-- last played, if they return, leave the last chunk played, `firstChunk` and the time of the
-- last request as they were: no chunk behind the missing one becomes the last one played, and
-- the missing one is not skipped.
pub gap_stalls :
    (m : Machine) (cs : List Chunk) (s : Session)
    → All (λ c. ¬ IsDue c s) cs
    → Ensures (IsStalled s) (deliver_all m cs s)
gap_stalls m cs s h = IsStalled-from m cs s s (IsStalled-refl s) h
