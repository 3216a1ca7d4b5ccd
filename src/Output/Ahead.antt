-- ===== src/Output/Ahead.antt =====
-- A delivery of a chunk that is a whole number of buffers ahead of the next one.
use p2pxineplugin.Base.{
  ℕ, suc, ◌%◌, ◌<◌, ◌≡◌, ◌≢◌, ◌∙◌, refl, sym, ap, subst, ◌⊎◌, inl, inr, List, Option, some, none,
  arith, get_elem?, set, length, pos, ◌+ℤ◌, ◌≤ℤ◌, minus_one, ok, ◌>>=◌, bind_assoc, bind_ok, ltb_ℤ,
  false,
}
use p2pxineplugin.Chunk.{Chunk}
use p2pxineplugin.Output.{Context, Session, Machine, emit, deliver}
use p2pxineplugin.Output.Slots.{emit-context}
use p2pxineplugin.Output.Deliver.{seen, IsDue}
use p2pxineplugin.Output.Order.{Seen, seen-Seen}
use p2pxineplugin.Output.Flush.{with_slots, emit-with_slots, with_slots_lem}
use p2pxineplugin.Output.Store.{copied, start_of, flushed, bind_ext_ok}
use p2pxineplugin.Output.Later.{stored, deliver_stores}
use p2pxineplugin.Output.Early.{copied_whole, flush_early}

-- Chunk `id` is beyond the next one, its slot is the one behind that of the last chunk played, and
-- no chunk is stored there, behind it or in the first slot.
pub record IsAhead (c : Chunk) (slots : List (Option Chunk)) (id played : ℕ) (s : Session)
    : Type 0 where
  pub buffer : s.output_buffer ≡ some slots
  pub size : length slots ≡ s.output_buffer_size
  pub numbered : c.id ≡ pos id
  pub last : s.played_chunk ≡ pos played
  pub beyond : suc played < id
  pub slot : id % s.output_buffer_size ≡ start_of played s.output_buffer_size
  pub inside : start_of played s.output_buffer_size < s.output_buffer_size
  pub not_first : c.id ≢ s.first_chunk
  pub free : get_elem? slots (start_of played s.output_buffer_size) ≡ some none
  pub first_free : get_elem? slots 0 ≡ some none
  pub behind :
      (suc (start_of played s.output_buffer_size) ≡ s.output_buffer_size)
      ⊎ (get_elem? slots (suc (start_of played s.output_buffer_size)) ≡ some none)
  pub whole : c.size ≡ length c.bytes

not-IsDue :
    (c : Chunk) (slots : List (Option Chunk)) (id played : ℕ) (s : Session)
    → IsAhead c slots id played s
    → ¬ IsDue c s
not-IsDue c slots id played s a (inl e) = a.not_first e
not-IsDue c slots id played s a (inr e) =
    let numbers : pos id ≡ pos played +ℤ pos 1 = sym a.numbered ∙ e ∙ ap (λ k. k +ℤ pos 1) a.last in
    let new = a.beyond in ground (arith, new, numbers)

-- What a delivery looks at of a session.
record SameView (s t : Session) : Type 0 where
  pub buffer : t.output_buffer ≡ s.output_buffer
  pub size : t.output_buffer_size ≡ s.output_buffer_size
  pub played : t.played_chunk ≡ s.played_chunk
  pub first : t.first_chunk ≡ s.first_chunk

IsAhead-SameView :
    (c : Chunk) (slots : List (Option Chunk)) (id played : ℕ) (s t : Session)
    → SameView s t
    → IsAhead c slots id played s
    → IsAhead c slots id played t
IsAhead-SameView c slots id played s t v a = record {
  buffer = v.buffer ∙ a.buffer;
  size = a.size ∙ sym v.size;
  numbered = a.numbered;
  last = v.played ∙ a.last;
  beyond = a.beyond;
  slot = subst (λ n. id % n ≡ start_of played n) (sym v.size) a.slot;
  inside = subst (λ n. start_of played n < n) (sym v.size) a.inside;
  not_first = λ e. a.not_first (e ∙ v.first);
  free = subst (λ n. get_elem? slots (start_of played n) ≡ some none) (sym v.size) a.free;
  first_free = a.first_free;
  behind =
      subst
        (λ n.
          (suc (start_of played n) ≡ n) ⊎ (get_elem? slots (suc (start_of played n)) ≡ some none))
        (sym v.size) a.behind;
  whole = a.whole;
}

-- A write between two chunks.
after-SameView :
    (m : Machine) (c : Chunk) (s t u : Session) → Seen c s t → emit m c t ≡ ok u → SameView s u
after-SameView m c s t u d e =
    let (ctx, first) = emit-context m c t e in
    record {
      buffer = ap (λ (x : Context). x.output_buffer) ctx ∙ d.slots;
      size = ap (λ (x : Context). x.output_buffer_size) ctx ∙ d.size;
      played = ap (λ (x : Context). x.played_chunk) ctx ∙ d.played;
      first = first ∙ d.first;
    }

-- The chunk is seen already.
seen_again : (c : Chunk) (u : Session) → c.id ≤ℤ u.maximum_chunk → seen c u ≡ u
seen_again c u le = let no : ltb_ℤ u.maximum_chunk c.id ≡ false = ground (arith, le) in rw no refl

module _ (m : Machine) (c : Chunk) (slots : List (Option Chunk)) (id played : ℕ)
    (ne : (k : ℕ) → m.leftover k ≢ minus_one) where
  -- The flush writes the chunk, and the slots are as before.
  flush_ahead :
      (s t : Session)
      → Seen c s t
      → IsAhead c slots id played s
      → flushed m played s.output_buffer_size
          (stored c id s.output_buffer_size slots)
          (with_slots (stored c id s.output_buffer_size slots) t)
        ≡ emit m c t
  flush_ahead s t d a =
      let size = s.output_buffer_size in
      let start = start_of played size in
      let slots' = set slots start (some c) in
      let is_stored : stored c id size slots ≡ slots' =
        ap (λ i. set slots i (some (copied c))) a.slot
        ∙ ap (λ x. set slots start (some x)) (copied_whole c a.whole) in
      ap (λ l. flushed m played size l (with_slots l t)) is_stored
      ∙ flush_early m c t played size slots a.size a.inside a.free a.first_free a.behind
      ∙ ap (λ o. o >>= λ u. ok (with_slots slots u)) (emit-with_slots m c slots' t)
      ∙ bind_assoc (emit m c t) (λ u. ok (with_slots slots' u)) _
      ∙ bind_ext_ok (emit m c t) (λ u. ok (with_slots slots u)) ok
          (λ u e.
            ap ok (sym (with_slots_lem u slots ((after-SameView m c s t u d e).buffer ∙ a.buffer))))
      ∙ bind_ok (emit m c t)

  deliver_once :
      (s : Session)
      → IsAhead c slots id played s
      → deliver m c s ≡ (emit m c (seen c s) >>= λ t. ok (pos 0, t))
  deliver_once s a =
      deliver_stores m c s slots id played a.buffer a.size (omega (arith, a.inside)) a.numbered
        a.last (omega (arith, a.beyond)) (not-IsDue c slots id played s a)
        (subst (λ i. get_elem? slots i ≡ some none) (sym a.slot) a.free) (omega (arith, a.whole)) ne
      ∙ ap (λ o. o >>= λ t. ok (pos 0, t)) (flush_ahead s (seen c s) (seen-Seen c s) a)

-- A chunk beyond the next one whose slot is the one behind that of the last chunk played,
-- hence a whole number of buffers ahead, and which is not the first, where that slot, the one
-- behind it and the first slot are empty and no leftover result reads as -1: a delivery is a
-- write of the chunk at once, after which the last chunk played is as before, and a second
-- delivery of the chunk writes it again.
pub deliver_ahead :
    (m : Machine) (c : Chunk) (slots : List (Option Chunk)) (id played : ℕ) (s : Session)
    → IsAhead c slots id played s
    → ((k : ℕ) → m.leftover k ≢ minus_one)
    → (deliver m c s ≡ (emit m c (seen c s) >>= λ t. ok (pos 0, t)))
      × ((deliver m c s >>= λ out. deliver m c out.1)
          ≡ (emit m c (seen c s) >>= λ t. emit m c t >>= λ u. ok (pos 0, u)))
deliver_ahead m c slots id played s a ne = (
  once s a,
  ap (λ o. o >>= λ out. deliver m c out.1) (once s a)
      ∙ bind_assoc (emit m c (seen c s)) (λ t. ok (pos 0, t)) _
      ∙ bind_ext_ok (emit m c (seen c s)) (λ t. deliver m c t) _ (again (seen c s) (seen-Seen c s)),
)
  where
    once :
        (t : Session)
        → IsAhead c slots id played t
        → deliver m c t ≡ (emit m c (seen c t) >>= λ u. ok (pos 0, u))
    once = deliver_once m c slots id played ne

    again :
        (t : Session)
        → Seen c s t
        → (u : Session) → emit m c t ≡ ok u
        → deliver m c u ≡ (emit m c u >>= λ v. ok (pos 0, v))
    again t d u e =
        let above : c.id ≤ℤ u.maximum_chunk =
          subst (λ k. c.id ≤ℤ k)
            (sym (ap (λ (x : Context). x.maximum_chunk) (emit-context m c t e).0)) d.above in
        once u (IsAhead-SameView c slots id played s u (after-SameView m c s t u d e) a)
        ∙ ap (λ v. emit m c v >>= λ w. ok (pos 0, w)) (seen_again c u above)
