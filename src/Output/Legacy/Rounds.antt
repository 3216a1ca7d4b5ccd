-- ===== src/Output/Legacy/Rounds.antt =====
-- The loop of `output_ffmpeg_buffer_flush_original` goes round the buffer at most once.
use native.Mathlib.Nat.{mod_self}
use p2pxineplugin.Base.{
  dec_lt, ℕ, zero, suc, ◌+◌, ◌%◌, ◌≤◌, ◌<◌, ◌≡◌, ◌≢◌, ◌∙◌, refl, sym, ap, subst, ◌⊎◌, inl, inr,
  Bool-cases, Option, none, some, arith, ◌==◌, if◌then◌else◌, ℤ, Outcome, ok, ◌>>=◌, Ensures-value,
}
use p2pxineplugin.Chunk.{Chunk}
use p2pxineplugin.Output.{Session, Machine, slot_at, buffer_free}
use p2pxineplugin.Output.Slots.{Kept, buffer_free-Kept}
use p2pxineplugin.Output.Store.{bind_ext_ok}
use p2pxineplugin.Output.Legacy.{flush_round_original}

-- The distance from slot `i` forward to `start`, round the end of the buffer or not.
abbrev Distance : ℕ → ℕ → ℕ → ℕ → Type 0
Distance size start i r = (i + r ≡ start + size) ⊎ (i + r ≡ start)

next_slot :
    (size i : ℕ)
    → i < size
    → ((suc i < size) × (suc i % size ≡ suc i)) ⊎ ((suc i ≡ size) × (suc i % size ≡ 0))
next_slot size i h = elim (dec_lt (suc i) size) [
  | yes less ↦ inl (less, grind arith)
  | no more ↦
      let e : suc i ≡ size = omega (arith, more) in inr (e, ap (λ n. n % size) e ∙ mod_self size)
]

positive : (n : ℕ) → n ≢ 0 → 1 ≤ n
positive n h = omega (arith, h)

-- One round closer, unless that round was the last one.
closer :
    (size start i r : ℕ)
    → start < size
    → i < size
    → Distance size start i (suc r)
    → suc i % size ≢ start
    → (suc i % size < size) × Distance size start (suc i % size) r × (1 ≤ r)
closer size start i r ls li d other = go (next_slot size i li) d
  where
    go :
        ((suc i < size) × (suc i % size ≡ suc i)) ⊎ ((suc i ≡ size) × (suc i % size ≡ 0))
        → Distance size start i (suc r)
        → (suc i % size < size) × Distance size start (suc i % size) r × (1 ≤ r)
    go (inl (less, e)) (inl far) = (omega (arith, e), inl (omega (arith, e)), omega arith)
    go (inl (less, e)) (inr near) =
        (omega (arith, e), inr (omega (arith, e)), positive r (λ z. other (omega (arith, e, z))))
    go (inr (full, e)) (inl far) =
        (omega (arith, e), inr (omega (arith, e)), positive r (λ z. other (omega (arith, e, z))))
    go (inr (full, e)) (inr near) =
        let false_sum : suc i + r ≡ start = omega (arith, near) in
        absurd (omega (arith, false_sum, full))

-- A round before rounds that agree.
one_round :
    (m : Machine) (n n' start i : ℕ) (s : Session)
    → ((t : Session)
        → Kept s t
        → suc i % t.output_buffer_size ≢ start
        → flush_round_original m n start (suc i % t.output_buffer_size) t
          ≡ flush_round_original m n' start (suc i % t.output_buffer_size) t)
    → flush_round_original m (suc n) start i s ≡ flush_round_original m (suc n') start i s
unfolding flush_round_original
one_round m n n' start i s rest = bind_ext_ok (slot_at s i) _ _ (λ slot e. on_slot slot e)
  where
    goes : ℕ → Session → Outcome Session
    goes k t =
        if suc i % t.output_buffer_size == start
        then ok t
        else flush_round_original m k start (suc i % t.output_buffer_size) t

    after : (t : Session) → Kept s t → goes n t ≡ goes n' t
    after t kept = elim (Bool-cases (suc i % t.output_buffer_size == start)) [
      | inl back ↦ rw back refl
      | inr other ↦ rw other (rest t kept (λ e. ground (arith, e, other)))
    ]

    on_slot :
        (slot : Option Chunk)
        → slot_at s i ≡ ok slot
        → (elim slot [ none ↦ ok s | some _ ↦ buffer_free m i s >>= λ freed. goes n freed.1 ])
          ≡ (elim slot [ none ↦ ok s | some _ ↦ buffer_free m i s >>= λ freed. goes n' freed.1 ])
    on_slot none e = refl
    on_slot (some c) e = bind_ext_ok (buffer_free m i s) _ _ (λ freed f. after freed.1 (
        Ensures-value (λ (out : ℤ × Session). Kept s out.1) (buffer_free m i s)
          (buffer_free-Kept m i s e) f))

-- With a round for each slot up to `start`, more rounds make no difference.
flush_round_enough :
    (m : Machine) (k r start i : ℕ) (s : Session)
    → start < s.output_buffer_size
    → i < s.output_buffer_size
    → Distance s.output_buffer_size start i (suc r)
    → flush_round_original m (suc (r + k)) start i s ≡ flush_round_original m (suc r) start i s
flush_round_enough m k zero start i s ls li d = one_round m (0 + k) 0 start i s (λ t kept other.
    absurd (
      omega (
        arith,
        (closer t.output_buffer_size start i 0 (omega (arith, kept.size, ls))
            (omega (arith, kept.size, li)) (subst (λ n. Distance n start i 1) (sym kept.size) d)
            other).2,
      )))
flush_round_enough m k (suc r) start i s ls li d =
    one_round m (suc r + k) (suc r) start i s (λ t kept other.
      let (below, distance, _) =
        closer t.output_buffer_size start i (suc r) (omega (arith, kept.size, ls))
          (omega (arith, kept.size, li))
          (subst (λ n. Distance n start i (suc (suc r))) (sym kept.size) d) other in
      let more : suc r + k ≡ suc (r + k) = omega arith in
      ap (λ n. flush_round_original m n start (suc i % t.output_buffer_size) t) more
      ∙ flush_round_enough m k r start (suc i % t.output_buffer_size) t
          (omega (arith, kept.size, ls)) below distance)

-- The rounds that `output_ffmpeg_buffer_flush_original` is given are enough: with more of them it
-- ends with the same result.
flush_original-enough :
    (m : Machine) (k start : ℕ) (s : Session)
    → start < s.output_buffer_size
    → flush_round_original m (s.output_buffer_size + k) start start s
      ≡ flush_round_original m s.output_buffer_size start start s
flush_original-enough m k start s ls = from s.output_buffer_size refl
  where
    from :
        (n : ℕ)
        → n ≡ s.output_buffer_size
        → flush_round_original m (n + k) start start s ≡ flush_round_original m n start start s
    from zero e = absurd (omega (arith, ls, e))
    from (suc r) e =
        let sum : suc r + k ≡ suc (r + k) = omega arith in
        ap (λ n. flush_round_original m n start start s) sum
        ∙ flush_round_enough m k r start start s ls ls (inl (omega (arith, e)))
