-- ===== src/Output/Early.antt =====
-- A flush where the one chunk in its way stands right behind the last one played.
use p2pxineplugin.Base.{
  ℕ, zero, suc, ◌-◌, ◌%◌, ◌<◌, ◌≡◌, ◌∙◌, refl, ap, ◌⊎◌, inl, inr, List, [], ◌∷◌, Option, none, some,
  arith, get_elem?, get_elem?-set_self, get_elem?-set_ne, set, take, take-length, set_back, length,
  ok, ◌>>=◌, bind_assoc,
}
use p2pxineplugin.Chunk.{Chunk}
use p2pxineplugin.Output.Flush.{stored_run, emit_all, with_slots, clear, found, drop-get_elem?}
use p2pxineplugin.Output.{Session, Machine, emit}
use p2pxineplugin.Output.Store.{copied, start_of, first_run, second_run, flushed}

-- A run from an empty slot, and from the end.
pub found-none :
    (rounds i : ℕ) (slots : List (Option Chunk))
    → get_elem? slots i ≡ some none
    → found rounds i slots ≡ []
unfolding stored_run
found-none zero i slots e = refl
found-none (suc rounds) i slots e =
    ap (λ l. stored_run (take (suc rounds) l)) (drop-get_elem? slots i e)

-- A run from a stored chunk with an empty slot, or the end, behind it.
found_one :
    (rounds i : ℕ) (slots : List (Option Chunk)) (c : Chunk)
    → get_elem? slots i ≡ some (some c)
    → (rounds ≡ 0) ⊎ (get_elem? slots (suc i) ≡ some none)
    → found (suc rounds) i slots ≡ c ∷ []
unfolding stored_run
found_one rounds i slots c e behind =
    ap (λ l. stored_run (take (suc rounds) l)) (drop-get_elem? slots i e) ∙ ap (◌∷◌ c) (rest behind)
  where
    rest : (rounds ≡ 0) ⊎ (get_elem? slots (suc i) ≡ some none) → found rounds (suc i) slots ≡ []
    rest (inl z) = rw z refl
    rest (inr n) = found-none rounds (suc i) slots n

-- The two runs of a flush over a buffer in which a chunk stands right after the last one played.
runs :
    (played size : ℕ) (slots : List (Option Chunk)) (c : Chunk)
    → length slots ≡ size
    → start_of played size < size
    → get_elem? slots 0 ≡ some none
    → (suc (start_of played size) ≡ size)
      ⊎ (get_elem? slots (suc (start_of played size)) ≡ some none)
    → let slots' = set slots (start_of played size) (some c) in
      (first_run played size slots' ≡ c ∷ []) × (second_run played size slots' ≡ [])
unfolding clear
runs played size slots c len inside zero_free behind = (first, second)
  where
    start : ℕ
    start = start_of played size

    slots' : List (Option Chunk)
    slots' = set slots start (some c)

    next :
        (suc start ≡ size) ⊎ (get_elem? slots (suc start) ≡ some none)
        → (size - suc start ≡ 0) ⊎ (get_elem? slots' (suc start) ≡ some none)
    next (inl e) = inl (omega (arith, e))
    next (inr e) = inr (get_elem?-set_ne slots (some c) (λ p. omega (arith, p)) ∙ e)

    first : first_run played size slots' ≡ c ∷ []
    first =
        let count : size - start ≡ suc (size - suc start) = omega arith in
        ap (λ n. found n start slots') count
        ∙ found_one (size - suc start) start slots' c
            (get_elem?-set_self slots start (some c) (omega arith)) (next behind)

    second : second_run played size slots' ≡ []
    second =
        ap (λ l. found (played % size) 0 (clear (length l) start slots')) first
        ∙ found-none (played % size) 0 (set slots' start none) (
            get_elem?-set_ne slots' none (λ p. omega (arith, p))
            ∙ get_elem?-set_ne slots (some c) (λ p. omega (arith, p))
            ∙ zero_free)

-- The stored chunk is the chunk itself when its size is that of its bytes.
pub copied_whole : (c : Chunk) → c.size ≡ length c.bytes → copied c ≡ c
copied_whole c e =
    ap (λ b. record c { bytes = b }) (ap (λ n. take n c.bytes) e ∙ take-length c.bytes)

-- A flush of such a buffer writes the one chunk, and leaves the buffer as it was before.
pub flush_early :
    (m : Machine) (c : Chunk) (t : Session) (played size : ℕ) (slots : List (Option Chunk))
    → length slots ≡ size
    → start_of played size < size
    → get_elem? slots (start_of played size) ≡ some none
    → get_elem? slots 0 ≡ some none
    → (suc (start_of played size) ≡ size)
      ⊎ (get_elem? slots (suc (start_of played size)) ≡ some none)
    → let slots' = set slots (start_of played size) (some c) in
      flushed m played size slots' (with_slots slots' t)
      ≡ (emit m c (with_slots slots' t) >>= λ u. ok (with_slots slots u))
unfolding emit_all clear
flush_early m c t played size slots len inside free zero_free behind =
    let start = start_of played size in
    let slots' = set slots start (some c) in
    let (first, second) = runs played size slots c len inside zero_free behind in
    let emptied : clear 1 start slots' ≡ slots = set_back slots start (some c) free in
    rw (second, first, emptied) (bind_assoc (emit m c (with_slots slots' t)) ok _)
