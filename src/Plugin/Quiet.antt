-- ===== src/Plugin/Quiet.antt =====
-- A read while the writer is silent: three rounds are enough, and the bytes that wait are handed out.
use p2pxineplugin.Base.{
  refl, ◌≢◌, ◌==◌, List, Bool-cases, inl, inr, leb, ℕ, ◌+◌, ◌-◌, ◌≡◌, ◌≤◌, true, false, [], ◌∷◌,
  arith, min, ltb, Returns,
}
use p2pxineplugin.Ring.{buffer_size, consume}
use p2pxineplugin.Ring.Reading.{round_length_lem}
use p2pxineplugin.Ring.Contents.{IsReadable, consume-IsReadable}
use p2pxineplugin.Plugin.{Progress, Turn, deliver_round, read_round, read_loop}

-- Nobody else moves, and a wait ends by its time limit.
abbrev pub quiet : Turn
quiet = record { before = λ r. r; waiting = λ r. r; timed_out = true }

abbrev pub AllRead : ℕ → Progress → Progress → Type 0
AllRead nlen q q' =
    (q'.at ≡ q.at + min nlen q.ring.count)
    × (q'.ring.count ≡ q.ring.count - min nlen q.ring.count)
    × (q'.timed_out ≡ ltb q.ring.count nlen)

-- The bytes of a round, and the locals after it.
abbrev in_a_row : ℕ → Progress → ℕ
in_a_row nlen q = min (min nlen q.ring.count) (buffer_size - q.ring.get)

abbrev moved_on : ℕ → Progress → Progress
moved_on nlen q = record (deliver_round q.ring (in_a_row nlen q) q) { timed_out = false }

-- The loop, from a round on.
round_then :
    (P : Progress → Type 0) (ts : List Turn) (nlen : ℕ) (q : Progress)
    → q.at + nlen ≤ q.room
    → IsReadable q.ring
    → q.timed_out ≡ false
    → (nlen ≡ 0 → P q)
    → (nlen ≢ 0 → q.ring.count ≡ 0 → P (record q { timed_out = true }))
    → (nlen ≢ 0
        → q.ring.count ≢ 0
        → Returns P (read_loop ts (nlen - in_a_row nlen q) (moved_on nlen q)))
    → Returns P (read_loop (quiet ∷ ts) nlen q)
unfolding read_loop read_round deliver_round
round_then P ts nlen q fits v f done late more = elim (Bool-cases (nlen == 0)) [
  | inl z ↦ rw z (done (ground arith))
  | inr wanted ↦ elim (Bool-cases (q.ring.count == 0)) [
    | inl empty ↦ rw (wanted, empty) (late (ground arith) (ground arith))
    | inr there ↦
        rw (wanted, there, round_length_lem nlen v, inside, f) (more (ground arith) (ground arith))
  ]
]
  where
    inside : leb (q.at + in_a_row nlen q) q.room ≡ true
    inside = ground (arith, fits)

moved_on-IsReadable :
    (nlen : ℕ) (q : Progress) → IsReadable q.ring → IsReadable (moved_on nlen q).ring
unfolding deliver_round
moved_on-IsReadable nlen q v = consume-IsReadable (in_a_row nlen q) v

pub read_loop-quiet :
    (nlen : ℕ) (q : Progress)
    → q.at + nlen ≤ q.room
    → IsReadable q.ring
    → q.timed_out ≡ false
    → Returns (AllRead nlen q) (read_loop (quiet ∷ quiet ∷ quiet ∷ []) nlen q)
unfolding deliver_round consume
read_loop-quiet nlen q fits v f =
    let q₁ = moved_on nlen q in
    let left₁ = nlen - in_a_row nlen q in
    let q₂ = moved_on left₁ q₁ in
    let left₂ = left₁ - in_a_row left₁ q₁ in
    let v₁ = moved_on-IsReadable nlen q v in
    let v₂ = moved_on-IsReadable left₁ q₁ v₁ in
    round_then (AllRead nlen q) (quiet ∷ quiet ∷ []) nlen q fits v f (λ z. ground arith)
      (λ n z. ground arith)
      (λ n c.
        round_then (AllRead nlen q) (quiet ∷ []) left₁ q₁ (ground arith) v₁ refl (λ z. ground arith)
          (λ n₁ z. ground arith)
          (λ n₁ c₁.
            round_then (AllRead nlen q) [] left₂ q₂ (ground arith) v₂ refl (λ z. ground arith)
              (λ n₂ z. ground arith) (λ n₂ c₂. absurd (ground arith))))
