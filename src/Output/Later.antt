-- ===== src/Output/Later.antt =====
-- A delivery of a chunk that is not due, with a free slot for it.
use p2pxineplugin.Base.{
  ℕ, ◌%◌, ◌≤◌, ◌<◌, ◌≡◌, ◌≢◌, ◌∙◌, refl, sym, ap, subst, List, Option, none, some, arith, get_elem?,
  set, length, length-set, ℤ, pos, minus_one, ◌<ℤ◌, rem, ok, ◌>>=◌,
}
use p2pxineplugin.Chunk.{Chunk}
use p2pxineplugin.Output.{
  Session, Machine, set_slot, buffer_flush, copy_chunk, deliver_at, deliver_later, deliver,
}
use p2pxineplugin.Output.Deliver.{seen, IsDue, deliver_not_due}
use p2pxineplugin.Output.Order.{Seen, seen-Seen}
use p2pxineplugin.Output.Flush.{with_slots}
use p2pxineplugin.Output.Cleanup.{slot_at_lem}
use p2pxineplugin.Output.Store.{copied, flushed, buffer_flush_lem}

copy_chunk_lem : (c : Chunk) → c.size ≤ length c.bytes → copy_chunk c ≡ ok (copied c)
unfolding copy_chunk
copy_chunk_lem c h = ground arith

set_slot_lem :
    (s : Session) (i : ℕ) (v : Option Chunk) (slots : List (Option Chunk))
    → s.output_buffer ≡ some slots
    → set_slot s i v ≡ ok (with_slots (set slots i v) s)
unfolding set_slot
set_slot_lem s i v slots e = ground arith

deliver_later_lem :
    (m : Machine) (c : Chunk) (t : Session) (slots : List (Option Chunk)) (id : ℕ)
    → t.output_buffer ≡ some slots
    → 0 < t.output_buffer_size
    → c.id ≡ pos id
    → get_elem? slots (id % t.output_buffer_size) ≡ some none
    → c.size ≤ length c.bytes
    → deliver_later m c t
      ≡ buffer_flush m (with_slots (set slots (id % t.output_buffer_size) (some (copied c))) t)
unfolding deliver_later deliver_at
deliver_later_lem m c t slots id e some_size is free fits =
    let i = id % t.output_buffer_size in
    ground (
      arith,
      ap (λ k. rem k t.output_buffer_size) is,
      slot_at_lem t slots i e free,
      copy_chunk_lem c fits,
      set_slot_lem t i (some (copied c)) slots e,
    )

abbrev pub stored : Chunk → ℕ → ℕ → List (Option Chunk) → List (Option Chunk)
stored c id size slots = set slots (id % size) (some (copied c))

later_flushed :
    (m : Machine) (c : Chunk) (t : Session) (slots : List (Option Chunk)) (id played : ℕ)
    → t.output_buffer ≡ some slots
    → length slots ≡ t.output_buffer_size
    → 0 < t.output_buffer_size
    → c.id ≡ pos id
    → t.played_chunk ≡ pos played
    → get_elem? slots (id % t.output_buffer_size) ≡ some none
    → c.size ≤ length c.bytes
    → ((k : ℕ) → m.leftover k ≢ minus_one)
    → deliver_later m c t
      ≡ flushed m played t.output_buffer_size
          (stored c id t.output_buffer_size slots)
          (with_slots (stored c id t.output_buffer_size slots) t)
later_flushed m c t slots id played e len some_size is p free fits ne =
    let i = id % t.output_buffer_size in
    deliver_later_lem m c t slots id e some_size is free fits
    ∙ buffer_flush_lem m (with_slots (set slots i (some (copied c))) t) played
        (set slots i (some (copied c))) refl (length-set slots i (some (copied c)) ∙ len) some_size
        p ne

-- Delivering a chunk with a non-negative number above a non-negative last one played, that is
-- not due, whose slot is free and whose data is as long as its size says, where no leftover
-- result reads as -1, stores a copy in its slot and then flushes: the longest run of stored
-- chunks behind the slot of the last one played is written in order and emptied, then the run
-- from the first slot up to that slot, and the call returns 0.
pub deliver_stores :
    (m : Machine) (c : Chunk) (s : Session) (slots : List (Option Chunk)) (id played : ℕ)
    → s.output_buffer ≡ some slots
    → length slots ≡ s.output_buffer_size
    → 0 < s.output_buffer_size
    → c.id ≡ pos id
    → s.played_chunk ≡ pos played
    → played < id
    → ¬ IsDue c s
    → get_elem? slots (id % s.output_buffer_size) ≡ some none
    → c.size ≤ length c.bytes
    → ((k : ℕ) → m.leftover k ≢ minus_one)
    → let slots' = stored c id s.output_buffer_size slots in
      deliver m c s ≡ (
        flushed m played s.output_buffer_size slots' (with_slots slots' (seen c s)) >>= λ t.
        ok (pos 0, t))
deliver_stores m c s slots id played e len some_size is p new due free fits ne =
    deliver_not_due m c s slots e (newer c.id s.played_chunk is p) due
    ∙ ap (λ o. o >>= λ t. ok (pos 0, t)) (from (seen c s) (seen-Seen c s))
  where
    newer : (a b : ℤ) → a ≡ pos id → b ≡ pos played → b <ℤ a
    newer a b ea eb = ground (arith, new)

    from :
        (t : Session)
        → Seen c s t
        → deliver_later m c t
          ≡ flushed m played s.output_buffer_size
              (stored c id s.output_buffer_size slots)
              (with_slots (stored c id s.output_buffer_size slots) t)
    from t d =
        subst
          (λ n.
            deliver_later m c t
            ≡ flushed m played n (stored c id n slots) (with_slots (stored c id n slots) t))
          d.size
          (later_flushed m c t slots id played (d.slots ∙ e) (len ∙ sym d.size)
            (omega (arith, d.size)) is (d.played ∙ p)
            (subst (λ n. get_elem? slots (id % n) ≡ some none) (sym d.size) free) fits ne)
