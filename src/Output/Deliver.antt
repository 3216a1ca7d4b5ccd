-- ===== src/Output/Deliver.antt =====
-- `output_ffmpeg_deliver` on each of its branches.
use p2pxineplugin.Base.{
  ℕ, ◌-◌, ◌≡◌, ◌⊎◌, refl, Bool, true, false, inl, inr, List, Option, none, some, arith, ◌==◌, ℤ,
  pos, negsuc, minus_one, ◌+ℤ◌, ◌≤ℤ◌, ◌<ℤ◌, ltb_ℤ, rem, Outcome, ok, fault, division_by_zero, ◌>>=◌,
  ◌>>◌, Ensures, Ensures-bind, Ensures-mono, Ensures-value, if◌then◌else◌,
}
use p2pxineplugin.Chunk.{Chunk}
use p2pxineplugin.Output.{
  Session, Machine, with_context, slot_at, set_slot, flush_from, flush_until, flush_at,
  buffer_flush, cleanup_at, buffer_cleanup, copy_chunk, deliver_at, deliver_later, deliver_now,
  deliver,
}
use p2pxineplugin.Output.Slots.{
  Kept, KeptAfter, Kept-refl, Kept-trans, set_slot-Kept, flush_from-Kept,
}

-- The session with the maximum brought up to the chunk.
abbrev pub seen : Chunk → Session → Session
seen c s =
    if ltb_ℤ s.maximum_chunk c.id
    then with_context s (record s.context { maximum_chunk = c.id })
    else s

abbrev pub IsDue : Chunk → Session → Type 0
IsDue c s = (c.id ≡ s.first_chunk) ⊎ (c.id ≡ s.played_chunk +ℤ pos 1)

-- A chunk that is not newer than the last one played changes nothing.
pub deliver_old :
    (m : Machine) (c : Chunk) (s : Session) (slots : List (Option Chunk))
    → s.output_buffer ≡ some slots
    → c.id ≤ℤ s.played_chunk
    → deliver m c s ≡ ok (pos 0, s)
unfolding deliver
deliver_old m c s slots e old = ground arith

-- Nor does any chunk while there is no buffer, and the result says so.
pub deliver_unready :
    (m : Machine) (c : Chunk) (s : Session)
    → s.output_buffer ≡ none
    → deliver m c s ≡ ok (minus_one, s)
unfolding deliver
deliver_unready m c s e = ground arith

-- A chunk that is due is written and becomes the last one played.
pub deliver_due :
    (m : Machine) (c : Chunk) (s : Session) (slots : List (Option Chunk))
    → s.output_buffer ≡ some slots
    → s.played_chunk <ℤ c.id
    → IsDue c s
    → deliver m c s ≡ (deliver_now m c (seen c s) >>= λ s'. ok (pos 0, s'))
unfolding deliver
deliver_due m c s slots e new (inl first) = ground arith
deliver_due m c s slots e new (inr next) = ground arith

-- Any other chunk is stored, or makes the buffer be cleaned.
pub deliver_not_due :
    (m : Machine) (c : Chunk) (s : Session) (slots : List (Option Chunk))
    → s.output_buffer ≡ some slots
    → s.played_chunk <ℤ c.id
    → ¬ IsDue c s
    → deliver m c s ≡ (deliver_later m c (seen c s) >>= λ s'. ok (pos 0, s'))
unfolding deliver
deliver_not_due m c s slots e new h = ground (
  arith,
  λ (p : c.id ≡ s.first_chunk). h (inl p),
  λ (p : c.id ≡ s.played_chunk +ℤ pos 1). h (inr p),
)

flush_until-Kept : (m : Machine) (last : ℤ) (s : Session) → Ensures (Kept s) (flush_until m last s)
unfolding flush_until
flush_until-Kept m (negsuc _) s = Kept-refl s
flush_until-Kept m (pos last) s =
    Ensures-bind (Kept s) (flush_from m last 0 s) _
      (λ out e. Ensures-value (KeptAfter s) (flush_from m last 0 s) (flush_from-Kept m last 0 s) e)

flush_at-Kept : (m : Machine) (start : ℤ) (s : Session) → Ensures (Kept s) (flush_at m start s)
unfolding flush_at
flush_at-Kept m (negsuc _) s = tt
flush_at-Kept m (pos start) s =
    Ensures-bind (Kept s) (flush_from m (s.output_buffer_size - start) start s) _ (λ out e.
      second out (
        Ensures-value (KeptAfter s) (flush_from m (s.output_buffer_size - start) start s)
          (flush_from-Kept m (s.output_buffer_size - start) start s) e))
  where
    second :
        (out : Bool × Session)
        → Kept s out.1
        → Ensures (Kept s) (
            if out.0
            then flush_until m (rem out.1.played_chunk out.1.output_buffer_size) out.1
            else ok out.1)
    second (true, t) k =
        Ensures-mono (Kept t) (Kept s) (flush_until m (rem t.played_chunk t.output_buffer_size) t)
          (flush_until-Kept m (rem t.played_chunk t.output_buffer_size) t) (λ u k'. Kept-trans k k')
    second (false, t) k = k

pub if-Ensures :
    {A : Type 0} (P : A → Type 0) (b : Bool) (x y : Outcome A)
    → Ensures P x
    → Ensures P y
    → Ensures P (if b then x else y)
if-Ensures P true x y hx hy = hx
if-Ensures P false x y hx hy = hy

-- If a flush of the output buffer returns, `playedChunk`, `maximumChunk`, the time of the last
-- request, the login data, `firstChunk` and the size of the buffer are as before, whatever it
-- has written.
pub buffer_flush-Kept : (m : Machine) (s : Session) → Ensures (Kept s) (buffer_flush m s)
unfolding buffer_flush
buffer_flush-Kept m s =
    if-Ensures (Kept s) (s.output_buffer_size == 0) (fault division_by_zero)
      (flush_at m (rem s.played_chunk s.output_buffer_size +ℤ pos 1) s) tt
      (flush_at-Kept m (rem s.played_chunk s.output_buffer_size +ℤ pos 1) s)

pub buffer_cleanup-same :
    (position : ℕ) (s : Session) → Ensures (λ s'. s' ≡ s) (buffer_cleanup position s)
unfolding buffer_cleanup
buffer_cleanup-same position s =
    if-Ensures (λ s'. s' ≡ s) (s.output_buffer_size == 0) (fault division_by_zero)
      (cleanup_at position (rem s.played_chunk s.output_buffer_size) s >> ok s) tt
      (Ensures-bind (λ s'. s' ≡ s) (cleanup_at position (rem s.played_chunk s.output_buffer_size) s)
        (λ _. ok s) (λ _ _. refl))

deliver_at-Kept :
    (m : Machine) (c : Chunk) (i : ℤ) (s : Session) → Ensures (Kept s) (deliver_at m c i s)
unfolding deliver_at
deliver_at-Kept m c (negsuc _) s = tt
deliver_at-Kept m c (pos i) s = Ensures-bind (Kept s) (slot_at s i) _ on_slot
  where
    on_slot :
        (slot : Option Chunk)
        → slot_at s i ≡ ok slot
        → Ensures (Kept s) (elim slot [
          | none ↦ do copied ← copy_chunk c; s' ← set_slot s i (some copied); buffer_flush m s'
          | some _ ↦ buffer_cleanup i s
        ])
    on_slot none e = Ensures-bind (Kept s) (copy_chunk c) _ (λ copied ec.
        Ensures-bind (Kept s) (set_slot s i (some copied)) _ (λ t et.
          Ensures-mono (Kept t) (Kept s) (buffer_flush m t) (buffer_flush-Kept m t)
            (λ u k. Kept-trans (set_slot-Kept s i (some copied) et) k)))
    on_slot (some _) e =
        Ensures-mono (λ s'. s' ≡ s) (Kept s) (buffer_cleanup i s) (buffer_cleanup-same i s)
          (λ t p. rw p (Kept-refl s))

pub deliver_later-Kept :
    (m : Machine) (c : Chunk) (s : Session) → Ensures (Kept s) (deliver_later m c s)
unfolding deliver_later
deliver_later-Kept m c s =
    if-Ensures (Kept s) (s.output_buffer_size == 0) (fault division_by_zero)
      (deliver_at m c (rem c.id s.output_buffer_size) s) tt
      (deliver_at-Kept m c (rem c.id s.output_buffer_size) s)
