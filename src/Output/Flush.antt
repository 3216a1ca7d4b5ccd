-- ===== src/Output/Flush.antt =====
-- The loops of the flush against a reference: the chunks of the longest run of stored slots are
-- written in order, and their slots emptied.
use p2pxineplugin.Base.{
  ℕ, zero, suc, ◌+◌, ◌≤◌, ◌≡◌, ◌≢◌, refl, ap, sym, ◌∙◌, Bool, true, false, Bool-cases, inl, inr,
  List, [], ◌∷◌, Option, none, some, arith, get_elem?, get_elem?-some, set, take, drop, drop-set,
  length, length-set, ℤ, minus_one, ◌==ℤ◌, ==ℤ_iff, Outcome, ok, fault, blocked, exited, ◌>>=◌,
  bind_assoc, bind_ext, if◌then◌else◌,
}
use p2pxineplugin.Chunk.{Chunk}
use p2pxineplugin.Ring.{Ring}
use p2pxineplugin.Writer.{write_chunk}
use p2pxineplugin.Output.{
  Session, Machine, with_context, emit, slot_at, set_slot, buffer_free, flush_from,
}
use p2pxineplugin.Output.Slots.{buffer_free_stored}

-- The stored chunks up to the first empty slot.
unfoldable pub stored_run : List (Option Chunk) → List Chunk
stored_run [] = []
stored_run (none ∷ slots) = []
stored_run (some c ∷ slots) = c ∷ stored_run slots

unfoldable pub emit_all : Machine → List Chunk → Session → Outcome Session
emit_all m [] s = ok s
emit_all m (c ∷ cs) s = emit m c s >>= λ s'. emit_all m cs s'

-- `n` slots emptied from `i` on.
unfoldable pub clear : ℕ → ℕ → List (Option Chunk) → List (Option Chunk)
clear zero i slots = slots
clear (suc n) i slots = clear n (i + 1) (set slots i none)

abbrev pub with_slots : List (Option Chunk) → Session → Session
with_slots slots s = with_context s (record s.context { output_buffer = some slots })

-- A write does not look at the slots.
pub emit-with_slots :
    (m : Machine) (c : Chunk) (slots : List (Option Chunk)) (s : Session)
    → emit m c (with_slots slots s) ≡ (emit m c s >>= λ s'. ok (with_slots slots s'))
unfolding emit
emit-with_slots m c slots s = go (write_chunk m.host c s.ring s.turns)
  where
    go :
        (o : Outcome (Ring × List (Ring → Ring)))
        → (o >>= λ out. ok (record (with_slots slots s) { ring = out.0; turns = out.1 })) ≡ (
            o >>= (λ out. ok (record s { ring = out.0; turns = out.1 })) >>= λ s'.
            ok (with_slots slots s'))
    go (ok out) = refl
    go (fault f) = refl
    go blocked = refl
    go exited = refl

pub with_slots_lem :
    (s : Session) (slots : List (Option Chunk))
    → s.output_buffer ≡ some slots
    → s ≡ with_slots slots s
with_slots_lem s slots e = ap (λ b. with_context s (record s.context { output_buffer = b })) e

slot_at-with_slots :
    (slots : List (Option Chunk)) (i : ℕ) (s : Session) {v : Option Chunk}
    → get_elem? slots i ≡ some v
    → slot_at (with_slots slots s) i ≡ ok v
unfolding slot_at
slot_at-with_slots slots i s g = rw g

buffer_free-with_slots :
    (m : Machine) (slots : List (Option Chunk)) (i : ℕ) (s : Session) {c : Chunk}
    → get_elem? slots i ≡ some (some c)
    → buffer_free m i (with_slots slots s)
      ≡ (emit m c s >>= λ s'. ok (m.leftover i, with_slots (set slots i none) s'))
unfolding set_slot
buffer_free-with_slots m slots i s {c} g =
    buffer_free_stored m i (with_slots slots s) (slot_at-with_slots slots i s g)
    ∙ ap (λ o. o >>= λ s'. set_slot s' i none >>= λ s''. ok (m.leftover i, s''))
        (emit-with_slots m c slots s)
    ∙ bind_assoc (emit m c s) (λ s'. ok (with_slots slots s')) _

pub drop-get_elem? :
    {A : Type 0} (xs : List A) (i : ℕ) {x : A}
    → get_elem? xs i ≡ some x
    → drop i xs ≡ x ∷ drop (suc i) xs
drop-get_elem? [] i g = cc
drop-get_elem? (y ∷ xs) zero g = cc
drop-get_elem? (y ∷ xs) (suc i) g = drop-get_elem? xs i g

-- The chunks that a loop of `rounds` rounds finds from slot `i` on.
abbrev pub found : ℕ → ℕ → List (Option Chunk) → List Chunk
found rounds i slots = stored_run (take rounds (drop i slots))

abbrev cleared : ℕ → ℕ → List (Option Chunk) → Session → Outcome (Bool × Session)
cleared n i slots s = ok (true, with_slots (clear n i slots) s)

flush_loop :
    (m : Machine) (rounds i : ℕ) (slots : List (Option Chunk)) (s : Session)
    → i + rounds ≤ length slots
    → ((k : ℕ) → m.leftover k ≢ minus_one)
    → flush_from m rounds i (with_slots slots s)
      ≡ (emit_all m (found rounds i slots) s >>= cleared (length (found rounds i slots)) i slots)
unfolding flush_from emit_all stored_run clear
flush_loop m zero i slots s len ne = refl
flush_loop m (suc rounds) i slots s len ne = on_slot (get_elem?-some slots i (omega arith)) (λ t.
    flush_loop m rounds (i + 1) (set slots i none) t (omega (arith, length-set slots i none)) ne)
  where
    next : i + 1 ≡ suc i
    next = omega arith

    same_rest : found rounds (i + 1) (set slots i none) ≡ found rounds (suc i) slots
    same_rest =
        ap (λ l. stored_run (take rounds l))
          (ap (λ j. drop j (set slots i none)) next ∙ drop-set i slots none)

    -- The rest of a round, once the chunk is written.
    after : ℤ × Session → Outcome (Bool × Session)
    after freed =
        if freed.0 ==ℤ minus_one then ok (false, freed.1) else flush_from m rounds (i + 1) freed.1

    goes_on : (t : Session) → after (m.leftover i, t) ≡ flush_from m rounds (i + 1) t
    goes_on t = elim (Bool-cases (m.leftover i ==ℤ minus_one)) [
      | inl stop ↦ absurd (ne i ((==ℤ_iff (m.leftover i) minus_one).0 stop))
      | inr more ↦ rw more
    ]

    round :
        (v : Chunk)
        → get_elem? slots i ≡ some (some v)
        → flush_from m (suc rounds) i (with_slots slots s)
          ≡ (buffer_free m i (with_slots slots s) >>= after)
    round v g = rw (slot_at-with_slots slots i s g)

    run :
        (v : Chunk)
        → get_elem? slots i ≡ some (some v)
        → found (suc rounds) i slots ≡ v ∷ found rounds (i + 1) (set slots i none)
    run v g =
        ap (λ l. stored_run (take (suc rounds) l)) (drop-get_elem? slots i g)
        ∙ ap (◌∷◌ v) (sym same_rest)

    on_slot :
        (v : Option Chunk) × (get_elem? slots i ≡ some v)
        → ((t : Session)
            → flush_from m rounds (i + 1) (with_slots (set slots i none) t) ≡ (
                emit_all m (found rounds (i + 1) (set slots i none)) t
                >>= cleared
                    (length (found rounds (i + 1) (set slots i none)))
                    (i + 1)
                    (set slots i none)))
        → flush_from m (suc rounds) i (with_slots slots s) ≡ (
            emit_all m (found (suc rounds) i slots) s
            >>= cleared (length (found (suc rounds) i slots)) i slots)
    on_slot (none, g) ih = rw (slot_at-with_slots slots i s g, drop-get_elem? slots i g)
    on_slot (some c, g) ih =
        round c g
        ∙ ap (λ o. o >>= after) (buffer_free-with_slots m slots i s g)
        ∙ bind_assoc (emit m c s) (λ t. ok (m.leftover i, with_slots (set slots i none) t)) after
        ∙ bind_ext (emit m c s) (λ t. after (m.leftover i, with_slots (set slots i none) t))
            (λ t.
              emit_all m (found rounds (i + 1) (set slots i none)) t
              >>= cleared (suc (length (found rounds (i + 1) (set slots i none)))) i slots)
            (λ t. goes_on (with_slots (set slots i none) t) ∙ ih t)
        ∙ sym (
            bind_assoc (emit m c s) (emit_all m (found rounds (i + 1) (set slots i none)))
              (cleared (suc (length (found rounds (i + 1) (set slots i none)))) i slots))
        ∙ ap (λ l. emit_all m l s >>= cleared (length l) i slots) (sym (run c g))

-- A loop of the flush over slots that lie in the buffer, where no leftover result reads as -1,
-- equals the reference: the chunks of the longest run of stored slots from its start are
-- written in order, then exactly their slots are empty, and the loop ends without a `return`.
pub flush_from_lem :
    (m : Machine) (rounds i : ℕ) (s : Session) (slots : List (Option Chunk))
    → s.output_buffer ≡ some slots
    → i + rounds ≤ length slots
    → ((k : ℕ) → m.leftover k ≢ minus_one)
    → flush_from m rounds i s ≡ (
        emit_all m (found rounds i slots) s >>= λ s'.
        ok (true, with_slots (clear (length (found rounds i slots)) i slots) s'))
flush_from_lem m rounds i s slots e len ne =
    ap (flush_from m rounds i) (with_slots_lem s slots e) ∙ flush_loop m rounds i slots s len ne
