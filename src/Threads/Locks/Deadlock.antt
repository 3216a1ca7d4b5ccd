-- ===== src/Threads/Locks/Deadlock.antt =====
-- While a thread is in a round, some thread can go on.
use native.Mathlib.Decide.{ℕ_discrete}
use p2pxineplugin.Base.{
  ℕ, zero, suc, ◌+◌, ◌≤◌, ◌<◌, ◌≡◌, ◌≢◌, refl, List, [], ◌∷◌, some, get_elem?, All-get_elem?, arith,
}
use p2pxineplugin.Threads.Locks.{Mutex, rank, Action, lock, unlock, access, Owner}
use p2pxineplugin.Threads.Locks.System.{
  Thread, thread, holds, holders, Move, acquire, release, touch, Reach,
}
use p2pxineplugin.Threads.Locks.Ordering.{top, IsOrdered, IsDescending, ThreadOrdered}
use p2pxineplugin.Threads.Locks.Exclusion.{IsSound, Reach-IsSound}

abbrev pub CanMove : List Thread → Type 0
CanMove ts = (j : ℕ) × (us : List Thread) × Move ts j us

-- A mutex that is not free is held by one of the threads.
find_holder :
    (m : Mutex) (ts : List Thread)
    → holders m ts ≢ 0
    → (j : ℕ) × (t : Thread) × (get_elem? ts j ≡ some t) × (holds m t.held ≢ 0)
find_holder m [] h = absurd (h refl)
find_holder m (t ∷ ts) h = elim (ℕ_discrete (holds m t.held) 0) [
  | yes none_held ↦
      let (j, u, e, k) = find_holder m ts (λ z. h (omega (arith, z, none_held))) in (suc j, u, e, k)
  | no k ↦ (0, t, refl, k)
]

-- What a thread holds is below the last mutex that it took.
held-le-top :
    (m : Mutex) (held : List Mutex) → IsDescending held → holds m held ≢ 0 → rank m < top held
held-le-top m [] d h = absurd (h refl)
held-le-top m (x ∷ held) (le, d) h = elim (ℕ_discrete (rank x) (rank m)) [
  | yes e ↦ omega (arith, e)
  | no ne ↦
      let below = held-le-top m held d (λ z. h (ground (arith, z, ne))) in omega (arith, below)
]

-- A thread in a round that waits, if it does, for a mutex of a rank from `4 - fuel` on.
abbrev Waits : ℕ → List Action → Type 0
Waits fuel [] = ⊥
Waits fuel (unlock m ∷ todo) = Unit
Waits fuel (access a ∷ todo) = Unit
Waits fuel (lock m ∷ todo) = 4 ≤ fuel + rank m

-- So does a thread that holds a mutex of the rank before that.
holder-Waits :
    (fuel : ℕ) (m : Mutex) (held : List Mutex) (todo : List Action)
    → IsDescending held
    → IsOrdered held todo
    → holds m held ≢ 0
    → 4 ≤ suc fuel + rank m
    → Waits fuel todo
holder-Waits fuel m [] todo d o h le = absurd (h refl)
holder-Waits fuel m (x ∷ held) [] d o h le = o
holder-Waits fuel m (x ∷ held) (unlock n ∷ todo) d o h le = tt
holder-Waits fuel m (x ∷ held) (access a ∷ todo) d o h le = tt
holder-Waits fuel m (x ∷ held) (lock n ∷ todo) d (above, _) h le =
    let below = held-le-top m (x ∷ held) d h in omega (arith, below)

rank_small : (m : Mutex) → rank m < 4
rank_small m = ground arith

can_move :
    (fuel i : ℕ) (ts : List Thread) (o : Owner) (held : List Mutex) (todo : List Action)
    → IsSound ts
    → get_elem? ts i ≡ some (thread o held todo)
    → Waits fuel todo
    → CanMove ts
can_move fuel i ts o held [] k e w = absurd w
can_move fuel i ts o held (unlock m ∷ todo) k e w = (i, _, release o m held todo e refl)
can_move fuel i ts o held (access a ∷ todo) k e w = (i, _, touch o a held todo e refl)
can_move zero i ts o held (lock m ∷ todo) k e w =
    let small = rank_small m in elim (le_absurd (rank m) w small) [ ]
  where
    le_absurd : (r : ℕ) → 4 ≤ 0 + r → r < 4 → ⊥
    le_absurd r a b = omega arith
can_move (suc fuel) i ts o held (lock m ∷ todo) k e w = elim (ℕ_discrete (holders m ts) 0) [
  | yes free ↦ (i, _, acquire o m held todo e free refl)
  | no taken ↦
      let (j, t, at, holding) = find_holder m ts taken in
      let (d, ord) = All-get_elem? ThreadOrdered ts j k.ordered at in
      can_move fuel j ts t.owner t.held t.todo k at
        (holder-Waits fuel m t.held t.todo d ord holding w)
]

-- Whatever rounds the threads begin and in whatever order they take and give back the mutexes,
-- if some thread is within a round then some thread can make its next step; a wait on a
-- condition of the ring ends after finitely many times.
pub no_deadlock :
    {ts : List Thread} (i : ℕ) (o : Owner) (held : List Mutex) (a : Action) (todo : List Action)
    → Reach ts
    → get_elem? ts i ≡ some (thread o held (a ∷ todo))
    → CanMove ts
no_deadlock {ts} i o held a todo r e =
    can_move 4 i ts o held (a ∷ todo) (Reach-IsSound r) e (in_round a)
  where
    in_round : (a : Action) → Waits 4 (a ∷ todo)
    in_round (unlock m) = tt
    in_round (access a) = tt
    in_round (lock m) = omega arith
