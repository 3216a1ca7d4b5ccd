-- ===== src/Output/Swapped.antt =====
-- Two chunks that arrive in each other's place.
use p2pxineplugin.Base.{
  ℕ, suc, ◌-◌, ◌%◌, ◌≤◌, ◌<◌, ◌≡◌, ◌≢◌, ◌∙◌, refl, sym, ap, subst, inl, inr, List, [], ◌∷◌, length,
  Option, none, some, arith, get_elem?, get_elem?-set_ne, set, ℤ, pos, ◌+ℤ◌, ◌<ℤ◌, minus_one, ok,
  ◌>>=◌, bind_assoc,
}
use p2pxineplugin.Chunk.{Chunk}
use p2pxineplugin.Output.{Context, Session, Machine, with_context, emit, deliver}
use p2pxineplugin.Output.Deliver.{seen, IsDue}
use p2pxineplugin.Output.Flush.{with_slots, found, clear, emit_all}
use p2pxineplugin.Output.Store.{copied, start_of, first_run, second_run, flushed}
use p2pxineplugin.Output.Later.{deliver_stores}
use p2pxineplugin.Output.Early.{found-none}
use p2pxineplugin.Output.Sequence.{
  deliver_all, played, marked, seen_lem, emit-with_context, deliver_due_lem,
}

-- `late` is the next chunk and `soon` the one behind it, which is not the first; both their slots lie
-- behind that of the last chunk played, and they and the first slot are empty.
pub record IsSwapped (soon late : Chunk) (slots : List (Option Chunk)) (last : ℕ) (s : Session)
    : Type 0 where
  pub buffer : s.output_buffer ≡ some slots
  pub size : length slots ≡ s.output_buffer_size
  pub last_one : s.played_chunk ≡ pos last
  pub soon_number : soon.id ≡ pos (suc (suc last))
  pub late_number : late.id ≡ pos (suc last)
  pub not_first : soon.id ≢ s.first_chunk
  pub inside : suc (start_of last s.output_buffer_size) < s.output_buffer_size
  pub late_free : get_elem? slots (start_of last s.output_buffer_size) ≡ some none
  pub soon_free : get_elem? slots (suc (start_of last s.output_buffer_size)) ≡ some none
  pub first_free : get_elem? slots 0 ≡ some none
  pub fits : soon.size ≤ length soon.bytes

-- A flush with an empty slot behind the last one played, and an empty first slot, writes nothing.
flushed_nothing :
    (m : Machine) (last size : ℕ) (slots : List (Option Chunk)) (t : Session)
    → get_elem? slots (start_of last size) ≡ some none
    → get_elem? slots 0 ≡ some none
    → flushed m last size slots (with_slots slots t) ≡ ok (with_slots slots t)
unfolding emit_all clear
flushed_nothing m last size slots t free first_free =
    let first : first_run last size slots ≡ [] =
      found-none (size - start_of last size) (start_of last size) slots free in
    let second : second_run last size slots ≡ [] =
      ap (λ l. found (last % size) 0 (clear (length l) (start_of last size) slots)) first
      ∙ found-none (last % size) 0 slots first_free in
    rw (second, first) refl

-- The slot of the chunk behind the next one.
slot_behind :
    (last size : ℕ)
    → suc (start_of last size) < size
    → suc (suc last) % size ≡ suc (start_of last size)
slot_behind last size h = grind arith

-- The buffer with the chunk stored, and the context then.
abbrev pub holding : Chunk → List (Option Chunk) → ℕ → ℕ → List (Option Chunk)
holding soon slots last size = set slots (suc (start_of last size)) (some (copied soon))

abbrev pub held_back : Chunk → List (Option Chunk) → ℕ → Session → Context
held_back soon slots last s = record (marked soon s.context) {
  output_buffer = some (holding soon slots last s.output_buffer_size);
}

module _ (m : Machine) (soon late : Chunk) (slots : List (Option Chunk)) (last : ℕ) (s : Session)
    (a : IsSwapped soon late slots last s) where
  soon_not-IsDue : ¬ IsDue soon s
  soon_not-IsDue (inl e) = a.not_first e
  soon_not-IsDue (inr e) =
      let numbers : pos (suc (suc last)) ≡ pos last +ℤ pos 1 =
        sym a.soon_number ∙ e ∙ ap (λ k. k +ℤ pos 1) a.last_one in
      ground (arith, numbers)

  deliver_soon :
      ((k : ℕ) → m.leftover k ≢ minus_one)
      → deliver m soon s ≡ ok (pos 0, with_context s (held_back soon slots last s))
  deliver_soon ne =
      let size = s.output_buffer_size in
      let slot = slot_behind last size a.inside in
      deliver_stores m soon s slots (suc (suc last)) last a.buffer a.size (omega (arith, a.inside))
        a.soon_number a.last_one (omega arith) soon_not-IsDue
        (subst (λ i. get_elem? slots i ≡ some none) (sym slot) a.soon_free) a.fits ne
      ∙ ap
          (λ i.
            flushed m last size (set slots i (some (copied soon)))
              (with_slots (set slots i (some (copied soon))) (seen soon s))
            >>= λ t. ok (pos 0, t))
          slot
      ∙ ap (λ o. o >>= λ t. ok (pos 0, t))
          (flushed_nothing m last size (holding soon slots last s.output_buffer_size) (seen soon s)
            (get_elem?-set_ne slots (some (copied soon)) (λ p. omega (arith, p)) ∙ a.late_free)
            (get_elem?-set_ne slots (some (copied soon)) (λ p. omega (arith, p)) ∙ a.first_free))
      ∙ ap (λ t. ok (pos 0, with_slots (holding soon slots last s.output_buffer_size) t))
          (seen_lem soon s)

  deliver_late : deliver m late (with_context s (held_back soon slots last s)) ≡ (
      emit m late s >>= λ t. ok (pos 0, with_context t (played late (held_back soon slots last s))))
  deliver_late =
      let numbers : late.id ≡ s.played_chunk +ℤ pos 1 =
        a.late_number ∙ next last ∙ ap (λ k. k +ℤ pos 1) (sym a.last_one) in
      deliver_due_lem m late (with_context s (held_back soon slots last s))
        (holding soon slots last s.output_buffer_size) refl
        (newer s.played_chunk late.id a.last_one a.late_number) (inr numbers)
      ∙ ap (λ o. o >>= λ t. ok (pos 0, with_context t (played late (held_back soon slots last s))))
          (emit-with_context m late s (held_back soon slots last s))
      ∙ bind_assoc (emit m late s) (λ t. ok (with_context t (held_back soon slots last s))) _
    where
      next : (n : ℕ) → pos (suc n) ≡ pos n +ℤ pos 1
      next n = ground arith

      newer : (x y : ℤ) → x ≡ pos last → y ≡ pos (suc last) → x <ℤ y
      newer x y e f = ground (arith, e, f)

  -- Where the next chunk and the one behind it, which is not the first, arrive in each other's
  -- place, their slots lie behind that of the last chunk played, these and the first slot are
  -- empty, the data of the chunk behind is as long as its size says, and no leftover result
  -- reads as -1: the two deliveries write the next chunk only, which becomes the last one
  -- played, and the chunk behind it stays in its slot.
  pub swapped_pair :
      ((k : ℕ) → m.leftover k ≢ minus_one)
      → deliver_all m (soon ∷ late ∷ []) s
        ≡ (emit m late s >>= λ t. ok (with_context t (played late (held_back soon slots last s))))
  swapped_pair ne =
      ap (λ o. o >>= λ out. deliver_all m (late ∷ []) out.1) (deliver_soon ne)
      ∙ ap (λ o. o >>= λ out. ok out.1) deliver_late
      ∙ bind_assoc (emit m late s)
          (λ t. ok (pos 0, with_context t (played late (held_back soon slots last s)))) _
