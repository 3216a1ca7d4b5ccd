-- ===== src/Output/Cleanup.antt =====
-- A chunk whose slot is taken: it is dropped, or the cleanup ends in undefined behaviour.
use p2pxineplugin.Base.{
  ℕ, zero, suc, ◌+◌, ◌-◌, ◌≤◌, ◌<◌, ◌≡◌, ◌≢◌, ◌⊎◌, refl, ap, ap₂, sym, ◌∙◌, division_by_zero,
  lt-length_of_some, inl, inr, List, Option, none, some, arith, ◌==◌, get_elem?, get_elem?-some,
  length, ℤ, pos, negsuc, ◌<ℤ◌, min, rem, Outcome, Fault, ok, fault, bad_argument, ◌>>=◌, ◌>>◌,
  if◌then◌else◌, out_of_bounds,
}
use p2pxineplugin.Chunk.{Chunk}
use p2pxineplugin.Output.{
  Session, Machine, slot_at, cleanup_from, cleanup_at, buffer_cleanup, deliver_at, deliver_later,
  deliver,
}
use p2pxineplugin.Output.Deliver.{seen, IsDue, deliver_not_due}
use p2pxineplugin.Output.Order.{Seen, seen-Seen}

pub slot_at_lem :
    (s : Session) (slots : List (Option Chunk)) (i : ℕ) {v : Option Chunk}
    → s.output_buffer ≡ some slots
    → get_elem? slots i ≡ some v
    → slot_at s i ≡ ok v
unfolding slot_at
slot_at_lem s slots i e g = ground arith

-- The outcome of a cleanup: it changes nothing or faults.
abbrev pub NothingOrFault : {A : Type 0} → A → Outcome A → Type 0
NothingOrFault a o = (o ≡ ok a) ⊎ ((f : Fault) × (o ≡ fault f))

cleanup_from_ends : (rounds i : ℕ) (s : Session) → NothingOrFault tt (cleanup_from rounds i s)
unfolding cleanup_from slot_at
cleanup_from_ends zero i s = inl refl
cleanup_from_ends (suc rounds) i s = ground (arith, cleanup_from_ends rounds (i + 1) s)

cleanup_at_ends :
    (position : ℕ) (last : ℤ) (s : Session) → NothingOrFault tt (cleanup_at position last s)
unfolding cleanup_at
cleanup_at_ends position (negsuc _) s = inr (out_of_bounds, refl)
cleanup_at_ends position (pos last) s = ground (
  arith,
  cleanup_from_ends (min position s.output_buffer_size - last) last s,
  cleanup_from_ends position 0 s,
)

buffer_cleanup_ends : (position : ℕ) (s : Session) → NothingOrFault s (buffer_cleanup position s)
unfolding buffer_cleanup
buffer_cleanup_ends position s =
    ground (arith, cleanup_at_ends position (rem s.played_chunk s.output_buffer_size) s)

-- A stored chunk in the range of a loop is handed over by value.
cleanup_from_stored :
    (rounds i k : ℕ) (s : Session) (slots : List (Option Chunk)) {c : Chunk}
    → s.output_buffer ≡ some slots
    → i + rounds ≤ length slots
    → i ≤ k
    → k < i + rounds
    → get_elem? slots k ≡ some (some c)
    → cleanup_from rounds i s ≡ fault bad_argument
unfolding cleanup_from
cleanup_from_stored zero i k s slots e len lo hi g = absurd (omega arith)
cleanup_from_stored (suc rounds) i k s slots {c} e len lo hi g =
    first
      (λ ne.
        cleanup_from_stored rounds (i + 1) k s slots e (omega arith) (omega arith) (omega arith) g)
      (get_elem?-some slots i (omega arith))
  where
    first :
        (i ≢ k → cleanup_from rounds (i + 1) s ≡ fault bad_argument)
        → (v : Option Chunk) × (get_elem? slots i ≡ some v)
        → cleanup_from (suc rounds) i s ≡ fault bad_argument
    first later (none, q) = rw (slot_at_lem s slots i e q) (later (λ p. cc))
    first later (some d, q) = rw (slot_at_lem s slots i e q)

-- A test for zero that fails.
skip_zero : {A : Type 0} (n : ℕ) (x y : A) → 0 < n → (if n == 0 then x else y) ≡ y
skip_zero n x y h = ground arith

-- The way from a delivery to the cleanup.
later_cleanup :
    (m : Machine) (c : Chunk) (t : Session) (slots : List (Option Chunk)) (i : ℕ) {held : Chunk}
    → t.output_buffer ≡ some slots
    → 0 < t.output_buffer_size
    → rem c.id t.output_buffer_size ≡ pos i
    → get_elem? slots i ≡ some (some held)
    → deliver_later m c t ≡ buffer_cleanup i t
unfolding deliver_later
later_cleanup m c t slots i e some_slots index taken =
    skip_zero t.output_buffer_size (fault division_by_zero)
      (deliver_at m c (rem c.id t.output_buffer_size) t) some_slots
    ∙ ap (λ z. deliver_at m c z t) index
    ∙ unfold deliver_at in rw (slot_at_lem t slots i e taken)

cleanup_between :
    (t : Session) (slots : List (Option Chunk)) (i last k : ℕ) {held between : Chunk}
    → t.output_buffer ≡ some slots
    → length slots ≡ t.output_buffer_size
    → rem t.played_chunk t.output_buffer_size ≡ pos last
    → get_elem? slots i ≡ some (some held)
    → last ≤ k
    → k < i
    → get_elem? slots k ≡ some (some between)
    → buffer_cleanup i t ≡ fault bad_argument
unfolding buffer_cleanup
cleanup_between t slots i last k e full at_last taken lo hi g =
    skip_zero t.output_buffer_size (fault division_by_zero)
      (cleanup_at i (rem t.played_chunk t.output_buffer_size) t >> ok t) (omega (arith, inside))
    ∙ ap (λ z. cleanup_at i z t >> ok t) at_last
    ∙ unfold cleanup_at in rw found
  where
    inside : i < length slots
    inside = lt-length_of_some slots i taken

    found : cleanup_from (min i t.output_buffer_size - last) last t ≡ fault bad_argument
    found =
        cleanup_from_stored (min i t.output_buffer_size - last) last k t slots e
          (omega (arith, inside)) lo (omega (arith, inside)) g

module _ (m : Machine) (c : Chunk) (s : Session) (slots : List (Option Chunk)) (i : ℕ)
    {held : Chunk} (e : s.output_buffer ≡ some slots) (full : length slots ≡ s.output_buffer_size)
    (new : s.played_chunk <ℤ c.id) (later : ¬ IsDue c s)
    (index : rem c.id s.output_buffer_size ≡ pos i)
    (taken : get_elem? slots i ≡ some (some held)) where
  to_cleanup :
      (t : Session)
      → Seen c s t
      → deliver m c s ≡ (deliver_later m c t >>= λ s'. ok (pos 0, s'))
      → deliver m c s ≡ (buffer_cleanup i t >>= λ s'. ok (pos 0, s'))
  to_cleanup t d q =
      q
      ∙ ap (λ o. o >>= λ s'. ok (pos 0, s'))
          (later_cleanup m c t slots i (d.slots ∙ e)
            (omega (arith, d.size, lt-length_of_some slots i taken)) (ap (rem c.id) d.size ∙ index)
            taken)

  -- Delivering a chunk that is newer than the last one played and not due, to a full-size
  -- buffer in which its slot is taken, never stores it: the call returns 0 with only the
  -- maximum brought up to date, or it faults.
  pub deliver_occupied : NothingOrFault {A = ℤ × Session} (pos 0, seen c s) (deliver m c s)
  deliver_occupied =
      finish (deliver m c s)
        (to_cleanup (seen c s) (seen-Seen c s) (deliver_not_due m c s slots e new later))
        (buffer_cleanup_ends i (seen c s))
    where
      finish :
          (o : Outcome (ℤ × Session))
          → o ≡ (buffer_cleanup i (seen c s) >>= λ s'. ok (pos 0, s'))
          → NothingOrFault (seen c s) (buffer_cleanup i (seen c s))
          → NothingOrFault {A = ℤ × Session} (pos 0, seen c s) o
      finish o q (inl p) = inl (q ∙ ap (λ r. r >>= λ s'. ok (pos 0, s')) p)
      finish o q (inr (f, p)) = inr (f, q ∙ ap (λ r. r >>= λ s'. ok (pos 0, s')) p)

  -- Delivering a chunk that is newer than the last one played and not due, to a full-size
  -- buffer in which its slot is taken, faults by a bad argument if a chunk is stored in a slot
  -- from that of the last played chunk up to, and without, its own, where the last played
  -- chunk has a non-negative number.
  pub deliver_occupied_faults :
      (last k : ℕ) {between : Chunk}
      → rem s.played_chunk s.output_buffer_size ≡ pos last
      → last ≤ k
      → k < i
      → get_elem? slots k ≡ some (some between)
      → deliver m c s ≡ fault bad_argument
  deliver_occupied_faults last k at_last lo hi g =
      go (seen c s) (seen-Seen c s) (deliver_not_due m c s slots e new later)
    where
      go :
          (t : Session)
          → Seen c s t
          → deliver m c s ≡ (deliver_later m c t >>= λ s'. ok (pos 0, s'))
          → deliver m c s ≡ fault bad_argument
      go t d q =
          to_cleanup t d q
          ∙ ap (λ r. r >>= λ s'. ok (pos 0, s'))
              (cleanup_between t slots i last k (d.slots ∙ e) (full ∙ sym d.size)
                (ap₂ rem d.played d.size ∙ at_last) taken lo hi g)
