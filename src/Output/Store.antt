-- ===== src/Output/Store.antt =====
-- A chunk that is not due and whose slot is free: it is stored, and then the buffer is flushed.
use p2pxineplugin.Base.{
  ℕ, zero, suc, ◌+◌, ◌-◌, ◌%◌, ◌≤◌, ◌<◌, ◌≡◌, ◌≢◌, ◌∙◌, refl, ap, subst, List, [], ◌∷◌, Option,
  none, some, arith, if◌then◌else◌, set, take, length, length-set, pos, minus_one, ◌+ℤ◌, rem, Bool,
  Outcome, ok, fault, blocked, exited, ◌>>=◌, bind_assoc, Ensures, Ensures-bind, Ensures-value,
}
use p2pxineplugin.Chunk.{Chunk}
use p2pxineplugin.Output.{Context, Session, Machine, emit, flush_until, flush_at, buffer_flush}
use p2pxineplugin.Output.Slots.{emit-context}
use p2pxineplugin.Output.Flush.{emit_all, clear, with_slots, found, flush_from_lem}

-- The chunk as it is stored.
abbrev pub copied : Chunk → Chunk
copied c = record c { bytes = take c.size c.bytes }

-- The slot after that of the last chunk played, and the slots that the first loop of a flush leaves.
abbrev pub start_of : ℕ → ℕ → ℕ
start_of played size = suc (played % size)

abbrev pub first_run : ℕ → ℕ → List (Option Chunk) → List Chunk
first_run played size slots = found (size - start_of played size) (start_of played size) slots

abbrev pub after_first : ℕ → ℕ → List (Option Chunk) → List (Option Chunk)
after_first played size slots =
    clear (length (first_run played size slots)) (start_of played size) slots

abbrev pub second_run : ℕ → ℕ → List (Option Chunk) → List Chunk
second_run played size slots = found (played % size) 0 (after_first played size slots)

abbrev pub after_second : ℕ → ℕ → List (Option Chunk) → List (Option Chunk)
after_second played size slots =
    clear (length (second_run played size slots)) 0 (after_first played size slots)

-- A flush by the reference: both runs are written, and their slots are empty.
abbrev pub flushed : Machine → ℕ → ℕ → List (Option Chunk) → Session → Outcome Session
flushed m played size slots s = emit_all m (first_run played size slots) s >>= λ t.
    emit_all m (second_run played size slots) (with_slots (after_first played size slots) t)
    >>= λ u. ok (with_slots (after_second played size slots) u)

-- Writing chunks leaves the context alone.
emit_all-context :
    (m : Machine) (cs : List Chunk) (s : Session)
    → Ensures (λ t. t.context ≡ s.context) (emit_all m cs s)
unfolding emit_all
emit_all-context m [] s = refl
emit_all-context m (c ∷ cs) s =
    Ensures-bind (λ t. t.context ≡ s.context) (emit m c s) _
      (λ t e.
        subst (λ x. Ensures (λ u. u.context ≡ x) (emit_all m cs t)) (emit-context m c s e).0
          (emit_all-context m cs t))

length-clear : (n i : ℕ) (slots : List (Option Chunk)) → length (clear n i slots) ≡ length slots
unfolding clear
length-clear zero i slots = refl
length-clear (suc n) i slots = length-clear n (i + 1) (set slots i none) ∙ length-set slots i none

-- Two continuations that agree on the value that there is.
pub bind_ext_ok :
    {A B : Type 0} (run : Outcome A) (f g : A → Outcome B)
    → ((a : A) → run ≡ ok a → f a ≡ g a)
    → (run >>= f) ≡ (run >>= g)
bind_ext_ok (ok a) f g h = h a refl
bind_ext_ok (fault e) f g h = refl
bind_ext_ok blocked f g h = refl
bind_ext_ok exited f g h = refl

mod-le : (a n : ℕ) → 0 < n → a % n < n
mod-le a n h = grind arith

flush_until_lem :
    (m : Machine) (last : ℕ) (s : Session) (slots : List (Option Chunk))
    → s.output_buffer ≡ some slots
    → last ≤ length slots
    → ((k : ℕ) → m.leftover k ≢ minus_one)
    → flush_until m (pos last) s ≡ (
        emit_all m (found last 0 slots) s >>= λ u.
        ok (with_slots (clear (length (found last 0 slots)) 0 slots) u))
unfolding flush_until
flush_until_lem m last s slots e len ne =
    ap (λ o. o >>= λ out. ok out.1) (flush_from_lem m last 0 s slots e (omega arith) ne)
    ∙ bind_assoc (emit_all m (found last 0 slots) s) _ (λ out. ok out.1)

-- The flush from the slot after that of the last chunk played.
flush_starts :
    (m : Machine) (s : Session) (played : ℕ)
    → 0 < s.output_buffer_size
    → s.played_chunk ≡ pos played
    → buffer_flush m s ≡ flush_at m (pos (start_of played s.output_buffer_size)) s
unfolding buffer_flush
flush_starts m s played some_size p =
    ground (arith, ap (λ k. rem k s.output_buffer_size +ℤ pos 1) p)

pub buffer_flush_lem :
    (m : Machine) (s : Session) (played : ℕ) (slots : List (Option Chunk))
    → s.output_buffer ≡ some slots
    → length slots ≡ s.output_buffer_size
    → 0 < s.output_buffer_size
    → s.played_chunk ≡ pos played
    → ((k : ℕ) → m.leftover k ≢ minus_one)
    → buffer_flush m s ≡ flushed m played s.output_buffer_size slots s
unfolding flush_at
buffer_flush_lem m s played slots e len some_size p ne =
    let size = s.output_buffer_size in
    let start = start_of played size in
    let below = mod-le played size some_size in
    flush_starts m s played some_size p
    ∙ ap (λ o. o >>= second)
        (flush_from_lem m (size - start) start s slots e (omega (arith, below)) ne)
    ∙ bind_assoc (emit_all m (first_run played size slots) s) _ second
    ∙ bind_ext_ok (emit_all m (first_run played size slots) s) _ _ (λ t et.
      let same =
        Ensures-value (λ t'. t'.context ≡ s.context) _
          (emit_all-context m (first_run played size slots) s) et in
      ap (λ k. flush_until m k (with_slots (after_first played size slots) t))
        (ap (λ (x : Context). rem x.played_chunk x.output_buffer_size) same
          ∙ ap (λ k. rem k size) p)
      ∙ flush_until_lem m (played % size) (with_slots (after_first played size slots) t)
          (after_first played size slots) refl
          (omega (arith, below, length-clear (length (first_run played size slots)) start slots))
          ne)
  where
    second : Bool × Session → Outcome Session
    second out =
        if out.0
        then flush_until m (rem out.1.played_chunk out.1.output_buffer_size) out.1
        else ok out.1
