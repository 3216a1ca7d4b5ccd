-- ===== src/Ring/Waiting.antt =====
-- The wait for space, with a reader that drains the ring during each wait.
use p2pxineplugin.Base.{
  ℕ, ◌+◌, ◌≤◌, ◌<◌, ◌≡◌, refl, sym, ap, ◌∙◌, List, [], ◌∷◌, ◌++◌, append_assoc, arith, All, true,
  Bool-cases, inl, inr, ltb, length, ok, blocked,
}
use p2pxineplugin.Ring.{buffer_size, Ring, consume, wait_for_space}
use p2pxineplugin.Ring.Contents.{block, contents, IsAligned, contents-consume}

-- What the reader does to a ring: it takes bytes off the front.
pub record Drains (r s : Ring) : Type 0 where
  pub aligned : IsAligned s
  pub same_max : s.max_size ≡ r.max_size
  pub taken : List ℕ
  pub left : contents r ≡ taken ++ contents s

abbrev pub IsReaderTurn : (Ring → Ring) → Type 0
IsReaderTurn f = (r : Ring) → IsAligned r → Drains r (f r)

-- A reader that takes something whenever there is something.
abbrev pub IsEager : (Ring → Ring) → Type 0
IsEager f = (r : Ring) → IsAligned r → 0 < r.count → (f r).count < r.count

pub Drains-refl : {r : Ring} → IsAligned r → Drains r r
Drains-refl v = record { aligned = v; same_max = refl; taken = []; left = refl }

pub Drains-trans : {r s t : Ring} → Drains r s → Drains s t → Drains r t
Drains-trans {t} a b = record {
  aligned = b.aligned;
  same_max = b.same_max ∙ a.same_max;
  taken = a.taken ++ b.taken;
  left = a.left ∙ ap (◌++◌ a.taken) b.left ∙ sym (append_assoc a.taken b.taken (contents t));
}

pub consume-IsAligned :
    {r : Ring} (n : ℕ)
    → n ≤ r.count
    → r.get + n ≤ buffer_size
    → IsAligned r
    → IsAligned (consume r n)
unfolding consume
consume-IsAligned n le fits v = ground arith

-- A round of the read loop is such a turn.
pub consume-Drains :
    {r : Ring} (n : ℕ)
    → n ≤ r.count
    → r.get + n ≤ buffer_size
    → IsAligned r
    → Drains r (consume r n)
unfolding consume
consume-Drains {r} n le fits v = record {
  aligned = consume-IsAligned n le fits v;
  same_max = refl;
  taken = block r.buffer r.get n;
  left = contents-consume n v.readable le fits;
}

-- The wait ends with room for `size` bytes on a ring from which bytes were only taken, or it goes
-- on at the end of the schedule.
pub data WaitEnd (size : ℕ) (r : Ring) (ts : List (Ring → Ring)) : Type 0 where
  starves : wait_for_space size r ts ≡ blocked → WaitEnd size r ts
  has_room :
      (s : Ring) (rest : List (Ring → Ring))
      → wait_for_space size r ts ≡ ok (s, rest)
      → Drains r s
      → s.count + size ≤ s.max_size
      → WaitEnd size r ts

pub wait_for_space_lem :
    (size : ℕ) (r : Ring) (ts : List (Ring → Ring))
    → IsAligned r
    → All IsReaderTurn ts
    → WaitEnd size r ts
unfolding wait_for_space
wait_for_space_lem size r [] v w = elim (Bool-cases (ltb r.max_size (r.count + size))) [
  | inl full ↦ starves (rw full)
  | inr room ↦ has_room r [] (rw room) (Drains-refl v) (ground arith)
]
wait_for_space_lem size r (t ∷ ts) v w = elim (Bool-cases (ltb r.max_size (r.count + size))) [
  | inl full ↦ next full (wait_for_space_lem size (t r) ts (w.0 r v).aligned w.1)
  | inr room ↦ has_room r (t ∷ ts) (rw room) (Drains-refl v) (ground arith)
]
  where
    next : ltb r.max_size (r.count + size) ≡ true → WaitEnd size (t r) ts → WaitEnd size r (t ∷ ts)
    next full (starves e) = starves (rw full e)
    next full (has_room s rest e d room) =
        has_room s rest (rw full e) (Drains-trans (w.0 r v) d) room

-- If the reader takes something during each wait, the writer gets its turn within as many waits as
-- there are bytes in the ring.
pub wait_for_space_fair :
    (size : ℕ) (r : Ring) (ts : List (Ring → Ring))
    → size ≤ r.max_size
    → r.count ≤ length ts
    → IsAligned r
    → All IsReaderTurn ts
    → All IsEager ts
    → (s : Ring) × (rest : List (Ring → Ring)) × (wait_for_space size r ts ≡ ok (s, rest))
unfolding wait_for_space
wait_for_space_fair size r [] small enough v w e = (r, [], ground arith)
wait_for_space_fair size r (t ∷ ts) small enough v w e =
    elim (Bool-cases (ltb r.max_size (r.count + size))) [
      | inl full ↦
          let (s, rest, q) =
            wait_for_space_fair size (t r) ts (omega (arith, (w.0 r v).same_max))
              (ground (arith, e.0 r v)) (w.0 r v).aligned w.1 e.1 in
          (s, rest, rw full q)
      | inr room ↦ (r, t ∷ ts, rw room)
    ]

-- A chunk larger than the whole buffer is waited for without end.
pub wait_for_space_oversize :
    (size : ℕ) (r : Ring) (ts : List (Ring → Ring))
    → r.max_size < size
    → IsAligned r
    → All IsReaderTurn ts
    → wait_for_space size r ts ≡ blocked
unfolding wait_for_space
wait_for_space_oversize size r [] big v w = ground arith
wait_for_space_oversize size r (t ∷ ts) big v w = ground (
  arith,
  wait_for_space_oversize size (t r) ts (omega (arith, (w.0 r v).same_max)) (w.0 r v).aligned w.1,
)
