-- ===== src/Threads/Locks/Finish.antt =====
-- The rounds that have begun come to their end.
use p2pxineplugin.Base.{
  ℕ, zero, suc, ◌+◌, ◌≡◌, ◌⊎◌, inl, inr, refl, sym, ap, subst, List, [], ◌∷◌, some, get_elem?,
  length, sum_of, sum_of-set, All, arith,
}
use p2pxineplugin.Threads.Locks.{Mutex, Action, lock, unlock, access, Owner}
use p2pxineplugin.Threads.Locks.System.{
  Thread, thread, remove, Move, acquire, release, touch, move, Reach, later,
}
use p2pxineplugin.Threads.Locks.Ordering.{IsOrdered, ThreadOrdered}
use p2pxineplugin.Threads.Locks.Exclusion.{Reach-IsSound}
use p2pxineplugin.Threads.Locks.Deadlock.{no_deadlock}

-- `n` moves, of any threads.
pub data Moves : ℕ → List Thread → List Thread → Type 0 where
  still : {ts : List Thread} → Moves 0 ts ts
  next :
      {n : ℕ} {ts us vs : List Thread} (i : ℕ) → Move ts i us → Moves n us vs → Moves (suc n) ts vs

-- What is left of the rounds.
abbrev pub actions_of : Thread → ℕ
actions_of t = length t.todo

abbrev pub actions : List Thread → ℕ
actions ts = sum_of actions_of ts

-- No thread is in a round, and no mutex is held.
abbrev pub AllIdle : List Thread → Type 0
AllIdle ts = All (λ t. (t.held ≡ []) × (t.todo ≡ [])) ts

Move-actions : {ts us : List Thread} (i : ℕ) → Move ts i us → suc (actions us) ≡ actions ts
Move-actions {ts} i (acquire o m held todo e free is) =
    let total =
      sum_of-set actions_of ts i (thread o held (lock m ∷ todo)) (thread o (m ∷ held) todo) e in
    subst (λ us. suc (actions us) ≡ actions ts) (sym is) (omega (arith, total))
Move-actions {ts} i (release o m held todo e is) =
    let total =
      sum_of-set actions_of ts i (thread o held (unlock m ∷ todo)) (thread o (remove m held) todo)
        e in
    subst (λ us. suc (actions us) ≡ actions ts) (sym is) (omega (arith, total))
Move-actions {ts} i (touch o a held todo e is) =
    let total =
      sum_of-set actions_of ts i (thread o held (access a ∷ todo)) (thread o held todo) e in
    subst (λ us. suc (actions us) ≡ actions ts) (sym is) (omega (arith, total))

Moves-actions : {n : ℕ} {ts us : List Thread} → Moves n ts us → n + actions us ≡ actions ts
Moves-actions still = omega arith
Moves-actions (next i mv rest) =
    let one = Move-actions i mv in let others = Moves-actions rest in omega (arith, one, others)

Moves-Reach : {n : ℕ} {ts us : List Thread} → Reach ts → Moves n ts us → Reach us
Moves-Reach r still = r
Moves-Reach r (next i mv rest) = Moves-Reach (later r (move i mv)) rest

-- A thread in a round, or none.
find_busy :
    (ts : List Thread)
    → All (λ t. t.todo ≡ []) ts
      ⊎ ((i : ℕ) × (t : Thread) × (a : Action) × (todo : List Action) × (get_elem? ts i
            ≡ some (thread t.owner t.held (a ∷ todo))))
find_busy [] = inl tt
find_busy (t ∷ ts) = elim (head_busy t.owner t.held t.todo) [
  | inr (a, todo, e) ↦ inr (0, t, a, todo, ap some e)
  | inl nothing ↦ elim (find_busy ts) [
    | inl rest ↦ inl (nothing, rest)
    | inr (i, u, a, todo, e) ↦ inr (suc i, u, a, todo, e)
  ]
]
  where
    head_busy :
        (o : Owner) (held : List Mutex) (todo : List Action)
        → (todo ≡ [])
          ⊎ ((a : Action) × (rest : List Action) × (thread o held todo ≡ thread o held (a ∷ rest)))
    head_busy o held [] = inl refl
    head_busy o held (a ∷ rest) = inr (a, rest, refl)

-- At the end of its round a thread holds nothing.
at_end : (t : Thread) → ThreadOrdered t → t.todo ≡ [] → t.held ≡ []
at_end t k nothing = ends t.held (subst (IsOrdered t.held) nothing k.1)
  where
    ends : (held : List Mutex) → IsOrdered held [] → held ≡ []
    ends [] k = refl
    ends (h ∷ held) k = absurd k

all_at_end : (ts : List Thread) → All ThreadOrdered ts → All (λ t. t.todo ≡ []) ts → AllIdle ts
all_at_end [] k h = tt
all_at_end (t ∷ ts) (k, ks) (nothing, h) = ((at_end t k nothing, nothing), all_at_end ts ks h)

none_left : (ts : List Thread) → All (λ t. t.todo ≡ []) ts → actions ts ≡ 0
none_left [] h = refl
none_left (t ∷ ts) (nothing, h) =
    let here = ap length nothing in let rest = none_left ts h in omega (arith, here, rest)

-- The moves that are left can be made.
finish :
    (k : ℕ) (ts : List Thread)
    → Reach ts
    → actions ts ≡ k
    → (us : List Thread) × Moves k ts us × AllIdle us
finish zero ts r count = elim (find_busy ts) [
  | inl nothing ↦ (ts, still, all_at_end ts (Reach-IsSound r).ordered nothing)
  | inr (i, t, a, todo, e) ↦
      let (j, us, mv) = no_deadlock i t.owner t.held a todo r e in
      absurd (omega (arith, Move-actions j mv, count))
]
finish (suc k) ts r count = elim (find_busy ts) [
  | inl nothing ↦ absurd (omega (arith, none_left ts nothing, count))
  | inr (i, t, a, todo, e) ↦
      let (j, us, mv) = no_deadlock i t.owner t.held a todo r e in
      let (vs, moves, idle) =
        finish k us (later r (move j mv)) (omega (arith, Move-actions j mv, count)) in
      (vs, next j mv moves, idle)
]

-- Whatever rounds the threads have begun and in whatever order they have taken and given back
-- the mutexes, one receiver at most among them: moves within these rounds, in whatever order,
-- take one action each off those that are left, and after them exactly as many further moves
-- as are left lead to a state in which every round has ended and no mutex is held. So no order
-- of moves can end in a deadlock; a wait on a condition of the ring ends after finitely many
-- times.
pub rounds_end :
    {n : ℕ} {ts us : List Thread}
    → Reach ts
    → Moves n ts us
    → (n + actions us ≡ actions ts) × ((vs : List Thread) × Moves (actions us) us vs × AllIdle vs)
rounds_end {us = us} r moves =
    (Moves-actions moves, finish (actions us) us (Moves-Reach r moves) refl)
