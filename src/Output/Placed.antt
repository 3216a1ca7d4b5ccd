-- ===== src/Output/Placed.antt =====
-- The stored chunks stand in the slots of their numbers.
use p2pxineplugin.Base.{
  ℕ, zero, suc, ◌+◌, ◌-◌, ◌≡◌, refl, sym, subst, Bool, true, false, List, [], ◌∷◌, Option, none,
  some, arith, set, ℤ, pos, negsuc, minus_one, ◌+ℤ◌, ◌==ℤ◌, ltb_ℤ, leb_ℤ, rem, ◌==◌, ok, fault,
  null_deref, division_by_zero, or_fault, ◌>>=◌, Ensures, Ensures-bind, Ensures-mono, Ensures-value,
  if◌then◌else◌,
}
use p2pxineplugin.Chunk.{Chunk}
use p2pxineplugin.Writer.{write_chunk}
use p2pxineplugin.Output.{
  Session, Machine, with_context, emit, slot_at, set_slot, buffer_free, flush_from, flush_until,
  flush_at, buffer_flush, buffer_cleanup, copy_chunk, deliver_at, deliver_later, deliver_now,
  deliver,
}
use p2pxineplugin.Output.Slots.{buffer_free_stored}
use p2pxineplugin.Output.Deliver.{if-Ensures, buffer_cleanup-same, seen}

-- A slot is empty, or the remainder of its chunk's number by the size is its index.
abbrev pub SlotFits : ℕ → ℕ → Option Chunk → Type 0
SlotFits size k none = Unit
SlotFits size k (some c) = rem c.id size ≡ pos k

abbrev pub PlacedFrom : ℕ → ℕ → List (Option Chunk) → Type 0
PlacedFrom size k [] = Unit
PlacedFrom size k (slot ∷ slots) = SlotFits size k slot × PlacedFrom size (suc k) slots

abbrev pub BufferPlaced : ℕ → Option (List (Option Chunk)) → Type 0
BufferPlaced size none = Unit
BufferPlaced size (some slots) = PlacedFrom size 0 slots

abbrev pub IsPlaced : Session → Type 0
IsPlaced s = BufferPlaced s.output_buffer_size s.output_buffer

PlacedFrom-set :
    (size k i : ℕ) (slots : List (Option Chunk)) (v : Option Chunk)
    → PlacedFrom size k slots
    → SlotFits size (k + i) v
    → PlacedFrom size k (set slots i v)
PlacedFrom-set size k i [] v p f = tt
PlacedFrom-set size k zero (x ∷ slots) v (_, p) f =
    let e : k + 0 ≡ k = omega arith in (subst (λ j. SlotFits size j v) e f, p)
PlacedFrom-set size k (suc i) (x ∷ slots) v (h, p) f =
    let e : k + suc i ≡ suc k + i = omega arith in
    (h, PlacedFrom-set size (suc k) i slots v p (subst (λ j. SlotFits size j v) e f))

set_slot-IsPlaced :
    (s : Session) (i : ℕ) (v : Option Chunk)
    → IsPlaced s
    → SlotFits s.output_buffer_size i v
    → Ensures IsPlaced (set_slot s i v)
unfolding set_slot
set_slot-IsPlaced s i v p f =
    Ensures-bind IsPlaced (or_fault s.output_buffer null_deref) _ (λ slots e.
      PlacedFrom-set s.output_buffer_size 0 i slots v
        (subst (BufferPlaced s.output_buffer_size) (found s.output_buffer e) p)
        (subst (λ j. SlotFits s.output_buffer_size j v) (from_zero i) f))
  where
    found :
        (b : Option (List (Option Chunk))) {slots : List (Option Chunk)}
        → or_fault b null_deref ≡ ok slots
        → b ≡ some slots
    found none e = cc
    found (some x) e = cc

    from_zero : (i : ℕ) → i ≡ 0 + i
    from_zero i = omega arith

emit-IsPlaced : (m : Machine) (c : Chunk) (s : Session) → IsPlaced s → Ensures IsPlaced (emit m c s)
unfolding emit
emit-IsPlaced m c s p = Ensures-bind IsPlaced (write_chunk m.host c s.ring s.turns) _ (λ out _. p)

abbrev pub PlacedAfter : {A : Type 0} → A × Session → Type 0
PlacedAfter out = IsPlaced out.1

buffer_free-IsPlaced :
    (m : Machine) (i : ℕ) (s : Session) {c : Chunk}
    → slot_at s i ≡ ok (some c)
    → IsPlaced s
    → Ensures PlacedAfter (buffer_free m i s)
buffer_free-IsPlaced m i s {c} stored p = rw (buffer_free_stored m i s stored) (
    Ensures-bind PlacedAfter (emit m c s) _ (λ t et.
      Ensures-bind PlacedAfter (set_slot t i none) _ (λ u eu.
        Ensures-value IsPlaced (set_slot t i none)
          (set_slot-IsPlaced t i none
            (Ensures-value IsPlaced (emit m c s) (emit-IsPlaced m c s p) et) tt)
          eu)))

flush_from-IsPlaced :
    (m : Machine) (rounds i : ℕ) (s : Session)
    → IsPlaced s
    → Ensures PlacedAfter (flush_from m rounds i s)
unfolding flush_from
flush_from-IsPlaced m zero i s p = p
flush_from-IsPlaced m (suc rounds) i s p =
    Ensures-bind PlacedAfter (slot_at s i) _
      (on_slot (λ t q. flush_from-IsPlaced m rounds (i + 1) t q))
  where
    on_slot :
        ((t : Session) → IsPlaced t → Ensures PlacedAfter (flush_from m rounds (i + 1) t))
        → (slot : Option Chunk) → slot_at s i ≡ ok slot
        → Ensures {A = Bool × Session} PlacedAfter (elim slot [
          | none ↦ ok (true, s)
          | some _ ↦ buffer_free m i s >>= λ freed.
              if freed.0 ==ℤ minus_one
              then ok (false, freed.1)
              else flush_from m rounds (i + 1) freed.1
        ])
    on_slot ih none es = p
    on_slot ih (some c) es = Ensures-bind PlacedAfter (buffer_free m i s) _ (λ freed e.
        let q = Ensures-value PlacedAfter (buffer_free m i s) (buffer_free-IsPlaced m i s es p) e in
        if-Ensures PlacedAfter (freed.0 ==ℤ minus_one) (ok (false, freed.1))
          (flush_from m rounds (i + 1) freed.1) q (ih freed.1 q))

flush_until-IsPlaced :
    (m : Machine) (last : ℤ) (s : Session) → IsPlaced s → Ensures IsPlaced (flush_until m last s)
unfolding flush_until
flush_until-IsPlaced m (negsuc _) s p = p
flush_until-IsPlaced m (pos last) s p = Ensures-bind IsPlaced (flush_from m last 0 s) _ (λ out e.
    Ensures-value PlacedAfter (flush_from m last 0 s) (flush_from-IsPlaced m last 0 s p) e)

flush_at-IsPlaced :
    (m : Machine) (start : ℤ) (s : Session) → IsPlaced s → Ensures IsPlaced (flush_at m start s)
unfolding flush_at
flush_at-IsPlaced m (negsuc _) s p = tt
flush_at-IsPlaced m (pos start) s p =
    let first = flush_from m (s.output_buffer_size - start) start s in
    Ensures-bind IsPlaced first _ (λ out e.
      let q =
        Ensures-value PlacedAfter first
          (flush_from-IsPlaced m (s.output_buffer_size - start) start s p) e in
      if-Ensures IsPlaced out.0
        (flush_until m (rem out.1.played_chunk out.1.output_buffer_size) out.1) (ok out.1)
        (flush_until-IsPlaced m (rem out.1.played_chunk out.1.output_buffer_size) out.1 q) q)

buffer_flush-IsPlaced :
    (m : Machine) (s : Session) → IsPlaced s → Ensures IsPlaced (buffer_flush m s)
unfolding buffer_flush
buffer_flush-IsPlaced m s p =
    if-Ensures IsPlaced (s.output_buffer_size == 0) (fault division_by_zero)
      (flush_at m (rem s.played_chunk s.output_buffer_size +ℤ pos 1) s) tt
      (flush_at-IsPlaced m (rem s.played_chunk s.output_buffer_size +ℤ pos 1) s p)

copy_chunk-id : (c : Chunk) → Ensures (λ c'. c'.id ≡ c.id) (copy_chunk c)
unfolding copy_chunk
copy_chunk-id c = ground arith

deliver_at-IsPlaced :
    (m : Machine) (c : Chunk) (i : ℕ) (s : Session)
    → rem c.id s.output_buffer_size ≡ pos i
    → IsPlaced s
    → Ensures IsPlaced (deliver_at m c (pos i) s)
unfolding deliver_at
deliver_at-IsPlaced m c i s here p = Ensures-bind IsPlaced (slot_at s i) _ on_slot
  where
    on_slot :
        (slot : Option Chunk)
        → slot_at s i ≡ ok slot
        → Ensures {A = Session} IsPlaced (elim slot [
          | none ↦ do copied ← copy_chunk c; s' ← set_slot s i (some copied); buffer_flush m s'
          | some _ ↦ buffer_cleanup i s
        ])
    on_slot none e = Ensures-bind IsPlaced (copy_chunk c) _ (λ copied ec.
        let same = Ensures-value (λ c'. c'.id ≡ c.id) (copy_chunk c) (copy_chunk-id c) ec in
        Ensures-bind IsPlaced (set_slot s i (some copied)) _ (λ t et. buffer_flush-IsPlaced m t (
          Ensures-value IsPlaced (set_slot s i (some copied))
            (set_slot-IsPlaced s i (some copied) p
              (subst (λ n. rem n s.output_buffer_size ≡ pos i) (sym same) here))
            et)))
    on_slot (some _) e =
        Ensures-mono (λ s'. s' ≡ s) IsPlaced (buffer_cleanup i s) (buffer_cleanup-same i s)
          (λ t q. subst IsPlaced (sym q) p)

deliver_later-IsPlaced :
    (m : Machine) (c : Chunk) (s : Session) → IsPlaced s → Ensures IsPlaced (deliver_later m c s)
unfolding deliver_later deliver_at
deliver_later-IsPlaced m c s p =
    if-Ensures IsPlaced (s.output_buffer_size == 0) (fault division_by_zero)
      (deliver_at m c (rem c.id s.output_buffer_size) s) tt
      (at_index (rem c.id s.output_buffer_size) refl)
  where
    at_index : (k : ℤ) → rem c.id s.output_buffer_size ≡ k → Ensures IsPlaced (deliver_at m c k s)
    at_index (pos i) e = deliver_at-IsPlaced m c i s e p
    at_index (negsuc _) e = tt

deliver_now-IsPlaced :
    (m : Machine) (c : Chunk) (s : Session) → IsPlaced s → Ensures IsPlaced (deliver_now m c s)
unfolding deliver_now
deliver_now-IsPlaced m c s p =
    Ensures-bind IsPlaced (emit m c s) _
      (λ t e. Ensures-value IsPlaced (emit m c s) (emit-IsPlaced m c s p) e)

seen-IsPlaced : (c : Chunk) (s : Session) → IsPlaced s → IsPlaced (seen c s)
seen-IsPlaced c s p = on_more (ltb_ℤ s.maximum_chunk c.id)
  where
    on_more :
        (b : Bool)
        → IsPlaced (if b then with_context s (record s.context { maximum_chunk = c.id }) else s)
    on_more true = p
    on_more false = p

-- If every stored chunk stands in the slot that the remainder of its number by the buffer's
-- size names, a delivery that returns leaves that so.
pub deliver-IsPlaced :
    (m : Machine) (c : Chunk) (s : Session) → IsPlaced s → Ensures PlacedAfter (deliver m c s)
unfolding deliver
deliver-IsPlaced m c s p = on_buffer s.output_buffer
  where
    placed : Ensures IsPlaced (
        if c.id ==ℤ s.first_chunk
        then deliver_now m c (seen c s)
        else if c.id ==ℤ (s.played_chunk +ℤ pos 1)
        then deliver_now m c (seen c s)
        else deliver_later m c (seen c s))
    placed =
        let q = seen-IsPlaced c s p in
        if-Ensures IsPlaced (c.id ==ℤ s.first_chunk) _ _ (deliver_now-IsPlaced m c (seen c s) q) (
          if-Ensures IsPlaced (c.id ==ℤ (s.played_chunk +ℤ pos 1)) _ _
            (deliver_now-IsPlaced m c (seen c s) q) (deliver_later-IsPlaced m c (seen c s) q))

    on_buffer :
        (b : Option (List (Option Chunk)))
        → Ensures {A = ℤ × Session} PlacedAfter (elim b [
          | none ↦ ok (minus_one, s)
          | some _ ↦
              if leb_ℤ c.id s.played_chunk
              then ok (pos 0, s)
              else ((if c.id ==ℤ s.first_chunk
                    then deliver_now m c (seen c s)
                    else if c.id ==ℤ (s.played_chunk +ℤ pos 1)
                    then deliver_now m c (seen c s)
                    else deliver_later m c (seen c s))
                  >>= λ s''. ok (pos 0, s''))
        ])
    on_buffer none = p
    on_buffer (some _) =
        if-Ensures PlacedAfter (leb_ℤ c.id s.played_chunk) (ok (pos 0, s)) _ p
          (Ensures-bind PlacedAfter _ _ (λ u e. Ensures-value IsPlaced _ placed e))
