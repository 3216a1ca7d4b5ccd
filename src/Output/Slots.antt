-- ===== src/Output/Slots.antt =====
-- What the parts of a delivery leave alone.
use p2pxineplugin.Base.{
  ℕ, zero, suc, ◌+◌, ◌≡◌, refl, ◌∙◌, Bool, true, false, Bool-cases, inl, inr, Option, none, some,
  arith, ℤ, minus_one, ◌==ℤ◌, ok, ◌>>=◌, Ensures, Ensures-bind, Ensures-value, Ensures-mono,
  if◌then◌else◌,
}
use p2pxineplugin.Chunk.{Chunk}
use p2pxineplugin.Output.{Session, Machine, emit, slot_at, set_slot, buffer_free, flush_from}

abbrev pub given : {A : Type 0} → Option A → Bool
given none = false
given (some _) = true

-- Whether there is a buffer.
abbrev pub has_buffer : Session → Bool
has_buffer s = given s.output_buffer

-- Only the ring, the schedule and the slots have changed.
pub record Kept (s s' : Session) : Type 0 where
  pub size : s'.output_buffer_size ≡ s.output_buffer_size
  pub played : s'.played_chunk ≡ s.played_chunk
  pub maximum : s'.maximum_chunk ≡ s.maximum_chunk
  pub requested : s'.last_request_sent ≡ s.last_request_sent
  pub secured : s'.secured_data_login ≡ s.secured_data_login
  pub first : s'.first_chunk ≡ s.first_chunk
  pub buffered : has_buffer s' ≡ has_buffer s

abbrev pub KeptAfter : {A : Type 0} → Session → A × Session → Type 0
KeptAfter s out = Kept s out.1

pub Kept-refl : (s : Session) → Kept s s
Kept-refl s = record {
  size = refl;
  played = refl;
  maximum = refl;
  requested = refl;
  secured = refl;
  first = refl;
  buffered = refl;
}

pub Kept-trans : {s t u : Session} → Kept s t → Kept t u → Kept s u
Kept-trans a b = record {
  size = b.size ∙ a.size;
  played = b.played ∙ a.played;
  maximum = b.maximum ∙ a.maximum;
  requested = b.requested ∙ a.requested;
  secured = b.secured ∙ a.secured;
  first = b.first ∙ a.first;
  buffered = b.buffered ∙ a.buffered;
}

-- A write changes the ring and the schedule.
pub emit-context :
    (m : Machine) (c : Chunk) (s : Session) {s' : Session}
    → emit m c s ≡ ok s'
    → (s'.context ≡ s.context) × (s'.first_chunk ≡ s.first_chunk)
unfolding emit
emit-context m c s e = ground arith

pub set_slot-Kept :
    (s : Session) (i : ℕ) (v : Option Chunk) {s' : Session} → set_slot s i v ≡ ok s' → Kept s s'
unfolding set_slot
set_slot-Kept s i v e = ground arith

emit-Kept : (m : Machine) (c : Chunk) (s : Session) {s' : Session} → emit m c s ≡ ok s' → Kept s s'
emit-Kept m c s e = ground (arith, emit-context m c s e)

-- `output_ffmpeg_buffer_free` on a stored chunk: the chunk is written and its slot emptied.
pub buffer_free_stored :
    (m : Machine) (i : ℕ) (s : Session) {c : Chunk}
    → slot_at s i ≡ ok (some c)
    → buffer_free m i s
      ≡ (emit m c s >>= λ s'. set_slot s' i none >>= λ s''. ok (m.leftover i, s''))
unfolding buffer_free
buffer_free_stored m i s e = rw e

pub buffer_free-Kept :
    (m : Machine) (i : ℕ) (s : Session) {c : Chunk}
    → slot_at s i ≡ ok (some c)
    → Ensures (KeptAfter s) (buffer_free m i s)
buffer_free-Kept m i s {c} stored = rw (buffer_free_stored m i s stored) (
    Ensures-bind _ (emit m c s) _ (λ t et.
      Ensures-bind _ (set_slot t i none) _
        (λ u eu. Kept-trans (emit-Kept m c s et) (set_slot-Kept t i none eu))))

pub flush_from-Kept :
    (m : Machine) (rounds i : ℕ) (s : Session) → Ensures (KeptAfter s) (flush_from m rounds i s)
unfolding flush_from
flush_from-Kept m zero i s = Kept-refl s
flush_from-Kept m (suc rounds) i s = Ensures-bind (KeptAfter s) (slot_at s i) _ (
    on_slot (λ t k.
      Ensures-mono (KeptAfter t) (KeptAfter s) _ (flush_from-Kept m rounds (i + 1) t)
        (λ out k'. Kept-trans k k')))
  where
    on_freed :
        ((t : Session) → Kept s t → Ensures (KeptAfter s) (flush_from m rounds (i + 1) t))
        → (freed : ℤ × Session) → Kept s freed.1
        → Ensures (KeptAfter s) (
            if freed.0 ==ℤ minus_one
            then ok (false, freed.1)
            else flush_from m rounds (i + 1) freed.1)
    on_freed ih freed k = elim (Bool-cases (freed.0 ==ℤ minus_one)) [
      | inl stop ↦ rw stop k
      | inr more ↦ rw more (ih freed.1 k)
    ]

    on_slot :
        ((t : Session) → Kept s t → Ensures (KeptAfter s) (flush_from m rounds (i + 1) t))
        → (slot : Option Chunk) → slot_at s i ≡ ok slot
        → Ensures (KeptAfter s) (elim slot [
          | none ↦ ok (true, s)
          | some _ ↦ buffer_free m i s >>= λ freed.
              if freed.0 ==ℤ minus_one
              then ok (false, freed.1)
              else flush_from m rounds (i + 1) freed.1
        ])
    on_slot ih none es = Kept-refl s
    on_slot ih (some c) es = Ensures-bind (KeptAfter s) (buffer_free m i s) _ (λ freed e.
        on_freed ih freed
          (Ensures-value (KeptAfter s) (buffer_free m i s) (buffer_free-Kept m i s es) e))
