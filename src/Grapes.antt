-- ===== src/Grapes.antt =====
-- What the code uses of GRAPES' chunk id sets (chunkidset.h) and chunk buffer (chunkbuffer.h). The
-- library is not part of the repository: it is a record of operations, and `IsLawful` is what its
-- documentation promises of them.
pub mod Listed
use mathlib.Core.Option.{some_inj}
use p2pxineplugin.Base.{
  suc, ◌≤◌, sym, ◌∙◌, lt-length_of_some, ℕ, ◌<◌, ◌≡◌, ◌≢◌, Bool, true, false, ◌||◌, List, [], ◌∷◌,
  map, Option, none, some, length, get_elem?, ℤ, ◌==ℤ◌,
}
use p2pxineplugin.Chunk.{Chunk}

abbrev pub member : ℤ → List ℤ → Bool
member x [] = false
member x (y ∷ ys) = (x ==ℤ y) || member x ys

abbrev pub is_some {ℓ} : {A : Type ℓ} → Option A → Bool
is_some none = false
is_some (some _) = true

-- `ids` lists a set for the statements about it. A failed insertion in the chunk buffer, with a
-- negative result, is `none`.
pub record Grapes : Type 1 where
  pub IdSet : Type 0
  pub ids : IdSet → List ℤ
  pub init : IdSet
  pub add_chunk : IdSet → ℤ → IdSet
  pub size : IdSet → ℕ
  pub get_chunk : IdSet → ℕ → ℤ
  pub get_earliest : IdSet → ℤ
  pub Buffer : Type 0
  pub cb_get_chunks : Buffer → List Chunk
  pub cb_get_chunk : Buffer → ℤ → Option Chunk
  pub cb_add_chunk : Buffer → Chunk → Option Buffer

pub record IsLawful (G : Grapes) : Type 0 where
  pub ids-init : G.ids G.init ≡ []
  pub member-add_chunk :
      (s : G.IdSet) (x y : ℤ) → member x (G.ids (G.add_chunk s y)) ≡ (x ==ℤ y) || member x (G.ids s)
  pub length-add_chunk :
      (s : G.IdSet) (x : ℤ) → length (G.ids (G.add_chunk s x)) ≤ suc (length (G.ids s))
  pub size_lem : (s : G.IdSet) → G.size s ≡ length (G.ids s)
  pub get_chunk_lem :
      (s : G.IdSet) (i : ℕ) → i < length (G.ids s) → get_elem? (G.ids s) i ≡ some (G.get_chunk s i)
  pub is_some-cb_get_chunk :
      (b : G.Buffer) (x : ℤ)
      → is_some (G.cb_get_chunk b x) ≡ member x (map (λ c. c.id) (G.cb_get_chunks b))
  pub cb_add_chunk-found :
      (b b' : G.Buffer) (c : Chunk)
      → G.cb_add_chunk b c ≡ some b'
      → is_some (G.cb_get_chunk b' c.id) ≡ true

-- The id that a set holds at an index.
pub get_chunk-eq :
    (G : Grapes) (L : IsLawful G) (s : G.IdSet) (i : ℕ) {y : ℤ}
    → get_elem? (G.ids s) i ≡ some y
    → G.get_chunk s i ≡ y
get_chunk-eq G L s i here =
    some_inj.0 (sym (L.get_chunk_lem s i (lt-length_of_some (G.ids s) i here)) ∙ here)
