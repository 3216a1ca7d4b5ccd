-- ===== src/Plugin/Rounds.antt =====
-- Each round of the read loop, and the loop, read a stream. They never fault, and the loop ends
-- within three rounds if nobody else moves.
use p2pxineplugin.Base.{
  subst, ◌<◌, ◌++◌, append-nil, leb, check, out_of_bounds, ◌>>◌, if◌then◌else◌, fault, exited, ◌∙◌,
  ℕ, ◌+◌, ◌-◌, ◌≤◌, ◌≡◌, refl, sym, true, false, Bool-cases, inl, inr, List, [], ◌∷◌, arith, min,
  All, ◌==◌, ok, ◌>>=◌, blocked,
}
use p2pxineplugin.Ring.{buffer_size, Ring, round_length}
use p2pxineplugin.Ring.Contents.{IsReadable}
use p2pxineplugin.Ring.Reading.{round_length_lem}
use p2pxineplugin.Plugin.{Turn, Progress, deliver_round, read_round, read_loop}
use p2pxineplugin.Plugin.Stream.{
  Extends, Extends-trans, behind, added-behind, behind_trans, behind_refl, IsWriterTurn, Streamed,
  Streamed-none, Streamed-trans, Extends-refl, deliver_round-Streamed,
}

-- What a turn appends to a ring, as its round runs: before the round, and while it waits if it does.
abbrev pub turn_bytes : Turn → Ring → List ℕ
turn_bytes t s =
    let r = t.before s in behind s r ++ (if r.count == 0 then behind r (t.waiting r) else [])

-- What the turns append, one after the other, as the loop runs.
abbrev pub written : List Turn → ℕ → Progress → List ℕ
written [] nlen q = []
written (t ∷ ts) nlen q =
    if nlen == 0
    then []
    else (turn_bytes t q.ring ++ elim (read_round t nlen q) [
      | ok step ↦ if step.1.timed_out then [] else written ts step.0 step.1
      | fault e ↦ []
      | blocked ↦ []
      | exited ↦ []
    ])

-- How a round ends: with `nlen - moved` bytes left to read.
pub record RoundEnd (t : Turn) (nlen : ℕ) (q : Progress) : Type 0 where
  pub moved : ℕ
  pub after : Progress
  pub ends : read_round t nlen q ≡ ok (nlen - moved, after)
  pub within : moved ≤ nlen
  pub streamed : Streamed moved (turn_bytes t q.ring) q after
  pub stopped : after.timed_out ≡ true → q.timed_out ≡ false → moved ≡ 0

-- A round that copies, on a ring reached by appending only.
copy_RoundEnd :
    (t : Turn) (nlen : ℕ) (q : Progress) (r : Ring)
    → q.at + nlen ≤ q.room
    → (x : Extends q.ring r) → behind q.ring r ≡ turn_bytes t q.ring
    → read_round t nlen q ≡ (
        round_length r nlen >>= λ n.
        check (leb (q.at + n) q.room) out_of_bounds >> ok (nlen - n, deliver_round r n q))
    → RoundEnd t nlen q
unfolding deliver_round
copy_RoundEnd t nlen q r fits x a e = record {
  moved = n;
  after = deliver_round r n q;
  ends = rw (e, round_length_lem nlen x.readable, inside) refl;
  within = omega arith;
  streamed =
      subst (λ l. Streamed n l q (deliver_round r n q)) (added-behind x ∙ a)
        (deliver_round-Streamed n q x (omega arith) (omega (arith, x.readable)));
  stopped = λ late fresh. cc;
}
  where
    n : ℕ
    n = min (min nlen r.count) (buffer_size - r.get)

    inside : leb (q.at + n) q.room ≡ true
    inside = ground (arith, fits)

pub read_round_lem :
    (t : Turn) (nlen : ℕ) (q : Progress)
    → q.at + nlen ≤ q.room
    → IsReadable q.ring
    → IsWriterTurn t
    → RoundEnd t nlen q
unfolding read_round
read_round_lem t nlen q fits v w = elim (Bool-cases ((t.before q.ring).count == 0)) [
  | inl empty ↦ elim (Bool-cases t.timed_out) [
    | inl late ↦ record {
      moved = 0;
      after = record q { ring = t.waiting (t.before q.ring); timed_out = true };
      ends = rw (empty, late) (ground arith);
      within = omega arith;
      streamed =
          subst
            (λ l.
              Streamed 0 l q (record q { ring = t.waiting (t.before q.ring); timed_out = true }))
            (added-behind waited ∙ both empty) (Streamed-none waited refl refl refl refl);
      stopped = λ late fresh. refl;
    }
    | inr woken ↦
        copy_RoundEnd t nlen q (t.waiting (t.before q.ring)) fits waited (both empty)
          (rw (empty, woken) refl)
  ]
  | inr some_bytes ↦
      copy_RoundEnd t nlen q (t.before q.ring) fits first (alone some_bytes) (rw some_bytes refl)
]
  where
    first : Extends q.ring (t.before q.ring)
    first = w.first q.ring v

    waited : Extends q.ring (t.waiting (t.before q.ring))
    waited = Extends-trans first (w.second (t.before q.ring) first.readable)

    both :
        ((t.before q.ring).count == 0) ≡ true
        → behind q.ring (t.waiting (t.before q.ring)) ≡ turn_bytes t q.ring
    both empty = rw empty (behind_trans first (w.second (t.before q.ring) first.readable))

    alone :
        ((t.before q.ring).count == 0) ≡ false
        → behind q.ring (t.before q.ring) ≡ turn_bytes t q.ring
    alone some_bytes = rw some_bytes (sym (append-nil (behind q.ring (t.before q.ring))))

-- The loop ends having read a stream, all of `nlen` unless a wait timed out, or the schedule ends
-- first.
pub data LoopEnd (ts : List Turn) (nlen : ℕ) (q : Progress) : Type 0 where
  waits : read_loop ts nlen q ≡ blocked → LoopEnd ts nlen q
  ends :
      (moved : ℕ) (q' : Progress)
      → moved ≤ nlen
      → Streamed moved (written ts nlen q) q q'
      → read_loop ts nlen q ≡ ok q'
      → (q'.timed_out ≡ false → moved ≡ nlen)
      → (q'.timed_out ≡ true → moved < nlen)
      → LoopEnd ts nlen q

done_LoopEnd :
    (ts : List Turn) (nlen : ℕ) (q : Progress)
    → q.timed_out ≡ false
    → IsReadable q.ring
    → nlen ≡ 0
    → behind q.ring q.ring ≡ written ts nlen q
    → read_loop ts nlen q ≡ ok q
    → LoopEnd ts nlen q
done_LoopEnd ts nlen q f v z a e =
    ends 0 q (omega arith)
      (subst (λ l. Streamed 0 l q q) (added-behind (Extends-refl v) ∙ a)
        (Streamed-none (Extends-refl v) refl refl refl refl))
      e (λ _. sym z) (λ late. cc)

pub read_loop_lem :
    (ts : List Turn) (nlen : ℕ) (q : Progress)
    → q.at + nlen ≤ q.room
    → q.timed_out ≡ false
    → IsReadable q.ring
    → All IsWriterTurn ts
    → LoopEnd ts nlen q
unfolding read_loop
read_loop_lem [] nlen q fits f v w = elim (Bool-cases (nlen == 0)) [
  | inl z ↦ done_LoopEnd [] nlen q f v (ground arith) (behind_refl q.ring) (rw z)
  | inr more ↦ waits (rw more)
]
read_loop_lem (t ∷ ts) nlen q fits f v w = elim (Bool-cases (nlen == 0)) [
  | inl z ↦ done_LoopEnd (t ∷ ts) nlen q f v (ground arith) (rw z (behind_refl q.ring)) (rw z)
  | inr more ↦ elim (Bool-cases round.after.timed_out) [
    | inl late ↦
        ends round.moved round.after round.within
          (subst (λ l. Streamed round.moved l q round.after) (written_late more late)
            round.streamed)
          (rw (more, round.ends, late)) (λ e. cc) (λ e. ground (arith, round.stopped late f, more))
    | inr woken ↦ next woken more (
        read_loop_lem ts (nlen - round.moved) round.after still_fits woken round.streamed.readable
          w.1)
  ]
]
  where
    round : RoundEnd t nlen q
    round = read_round_lem t nlen q fits v w.0

    still_fits : round.after.at + (nlen - round.moved) ≤ round.after.room
    still_fits =
        omega (arith, fits, round.within, round.streamed.at_moved, round.streamed.same_room)

    written_late :
        (nlen == 0) ≡ false
        → round.after.timed_out ≡ true
        → turn_bytes t q.ring ≡ written (t ∷ ts) nlen q
    written_late more late = rw (more, round.ends, late) (sym (append-nil (turn_bytes t q.ring)))

    written_more :
        (nlen == 0) ≡ false
        → round.after.timed_out ≡ false
        → turn_bytes t q.ring ++ written ts (nlen - round.moved) round.after
          ≡ written (t ∷ ts) nlen q
    written_more more woken = rw (more, round.ends, woken) refl

    next :
        round.after.timed_out ≡ false
        → (nlen == 0) ≡ false
        → LoopEnd ts (nlen - round.moved) round.after
        → LoopEnd (t ∷ ts) nlen q
    next woken more (waits e) = waits (rw (more, round.ends, woken) e)
    next woken more (ends m q' le s e full short) =
        ends (round.moved + m) q' (omega (arith, round.within))
          (subst (λ l. Streamed (round.moved + m) l q q') (written_more more woken)
            (Streamed-trans round.moved m round.streamed s))
          (rw (more, round.ends, woken) e) (λ h. omega (arith, full h, round.within))
          (λ h. omega (arith, short h, round.within))
