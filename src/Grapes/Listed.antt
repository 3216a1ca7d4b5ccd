-- ===== src/Grapes/Listed.antt =====
-- The sets and the buffer as lists: an instance of the interface, in which tests run.
use p2pxineplugin.Base.{
  ◌≤◌, sym, subst, ap, ◌∙◌, ◌⊎◌, inl, inr, Bool-cases, ℕ, zero, suc, ◌<◌, ◌≡◌, refl, true, false,
  ◌||◌, List, [], ◌∷◌, map, Option, none, some, length, get_elem?, get_or, ℤ, minus_one, ◌==ℤ◌,
  ==ℤ_iff, if◌then◌else◌, arith, ltb, leb_ℤ,
}
use p2pxineplugin.Chunk.{Chunk}
use p2pxineplugin.Grapes.{Grapes, IsLawful, member, is_some}

abbrev pub find : List Chunk → ℤ → Option Chunk
find [] x = none
find (c ∷ cs) x = if x ==ℤ c.id then some c else find cs x

-- -1 is the earliest chunk of an empty set.
abbrev pub earliest : List ℤ → ℤ
earliest [] = minus_one
earliest (x ∷ []) = x
earliest (x ∷ y ∷ xs) = let e = earliest (y ∷ xs) in if leb_ℤ x e then x else e

-- A buffer of at most `capacity` chunks, which refuses further ones.
abbrev pub listed : ℕ → Grapes
listed capacity = record {
  IdSet = List ℤ;
  ids = λ s. s;
  init = [];
  add_chunk = λ s x. if member x s then s else x ∷ s;
  size = length;
  get_chunk = λ s i. get_or s i minus_one;
  get_earliest = earliest;
  Buffer = List Chunk;
  cb_get_chunks = λ b. b;
  cb_get_chunk = find;
  cb_add_chunk = λ b c. if ltb (length b) capacity then some (c ∷ b) else none;
}

is_some-find : (b : List Chunk) (x : ℤ) → is_some (find b x) ≡ member x (map (λ c. c.id) b)
is_some-find [] x = refl
is_some-find (c ∷ b) x = ground (arith, is_some-find b x)

member-eq : (s : List ℤ) (x y : ℤ) → (x ==ℤ y) ≡ true → member y s ≡ true → member x s ≡ true
member-eq s x y e m = subst (λ z. member z s ≡ true) (sym ((==ℤ_iff x y).0 e)) m

member-add_chunk :
    (s : List ℤ) (x y : ℤ) → member x (if member y s then s else y ∷ s) ≡ (x ==ℤ y) || member x s
member-add_chunk s x y = ground (arith, member-eq s x y)

get_or_lem : (s : List ℤ) (i : ℕ) → i < length s → get_elem? s i ≡ some (get_or s i minus_one)
get_or_lem [] i h = elim h [ ]
get_or_lem (x ∷ s) zero h = refl
get_or_lem (x ∷ s) (suc i) h = get_or_lem s i (omega arith)

added_found :
    (capacity : ℕ) (b b' : List Chunk) (c : Chunk)
    → (if ltb (length b) capacity then some (c ∷ b) else none) ≡ some b'
    → is_some (find b' c.id) ≡ true
added_found capacity b b' c e = on_room (Bool-cases (ltb (length b) capacity))
  where
    found : is_some (find (c ∷ b) c.id) ≡ true
    found = ground arith

    on_room :
        (ltb (length b) capacity ≡ true) ⊎ (ltb (length b) capacity ≡ false)
        → is_some (find b' c.id) ≡ true
    on_room (inl room) =
        let same : some (c ∷ b) ≡ some b' =
          sym (ap (λ t. if t then some (c ∷ b) else none) room) ∙ e in
        subst (λ l. is_some (find l c.id) ≡ true) (let p : c ∷ b ≡ b' = cc in p) found
    on_room (inr full) =
        let none_some : none ≡ some b' =
          sym (ap (λ t. if t then some (c ∷ b) else none) full) ∙ e in
        cc

length-add_chunk : (s : List ℤ) (x : ℤ) → length (if member x s then s else x ∷ s) ≤ suc (length s)
length-add_chunk s x = ground arith

pub listed-IsLawful : (capacity : ℕ) → IsLawful (listed capacity)
listed-IsLawful capacity = record {
  ids-init = refl;
  member-add_chunk = member-add_chunk;
  length-add_chunk = length-add_chunk;
  size_lem = λ s. refl;
  get_chunk_lem = get_or_lem;
  is_some-cb_get_chunk = is_some-find;
  cb_add_chunk-found = added_found capacity;
}
