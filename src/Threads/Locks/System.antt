-- ===== src/Threads/Locks/System.antt =====
-- The threads that run the sections: their steps, and what they can reach.
use p2pxineplugin.Base.{
  ℕ, ◌+◌, ◌≤◌, ◌≡◌, List, [], ◌∷◌, some, ◌==◌, if◌then◌else◌, get_elem?, set, sum_of, All,
}
use p2pxineplugin.Threads.Locks.{
  Mutex, rank, Access, Action, lock, unlock, access, Section, section, Owner, receive_data, runner,
}

-- What a thread holds, the last mutex taken first, and what is left of its round.
pub record Thread : Type 0 where
  pub owner : Owner
  pub held : List Mutex
  pub todo : List Action

abbrev pub thread : Owner → List Mutex → List Action → Thread
thread owner held todo = record { owner = owner; held = held; todo = todo }

abbrev pub remove : Mutex → List Mutex → List Mutex
remove m [] = []
remove m (h ∷ hs) = if rank h == rank m then hs else h ∷ remove m hs

-- How often a thread, and how often all the threads, hold a mutex.
abbrev pub holds : Mutex → List Mutex → ℕ
holds m [] = 0
holds m (h ∷ hs) = (if rank h == rank m then 1 else 0) + holds m hs

abbrev pub holds_of : Mutex → Thread → ℕ
holds_of m t = holds m t.held

abbrev pub holders : Mutex → List Thread → ℕ
holders m ts = sum_of (holds_of m) ts

-- How many receivers there are.
abbrev pub receiver : Owner → ℕ
receiver receive_data = 1
receiver _ = 0

abbrev pub receiver_of : Thread → ℕ
receiver_of t = receiver t.owner

-- A step of the thread `i` within its round. A mutex is taken only if no thread holds it.
pub data Move (ts : List Thread) (i : ℕ) (us : List Thread) : Type 0 where
  acquire :
      (o : Owner) (m : Mutex) (held : List Mutex) (todo : List Action)
      → get_elem? ts i ≡ some (thread o held (lock m ∷ todo))
      → holders m ts ≡ 0
      → us ≡ set ts i (thread o (m ∷ held) todo)
      → Move ts i us
  release :
      (o : Owner) (m : Mutex) (held : List Mutex) (todo : List Action)
      → get_elem? ts i ≡ some (thread o held (unlock m ∷ todo))
      → us ≡ set ts i (thread o (remove m held) todo)
      → Move ts i us
  touch :
      (o : Owner) (a : Access) (held : List Mutex) (todo : List Action)
      → get_elem? ts i ≡ some (thread o held (access a ∷ todo))
      → us ≡ set ts i (thread o held todo)
      → Move ts i us

-- A step of the program: a move, or the beginning of a round.
pub data Step (ts : List Thread) (us : List Thread) : Type 0 where
  move : (i : ℕ) → Move ts i us → Step ts us
  begin :
      (i : ℕ) (s : Section)
      → get_elem? ts i ≡ some (thread (runner s) [] [])
      → us ≡ set ts i (thread (runner s) [] (section s))
      → Step ts us

-- Threads before their first round, one receiver at most.
pub record IsStart (ts : List Thread) : Type 0 where
  pub idle : All (λ t. (t.held ≡ []) × (t.todo ≡ [])) ts
  pub one_receiver : sum_of receiver_of ts ≤ 1

-- What they can reach.
pub data Reach : List Thread → Type 0 where
  start : (ts : List Thread) → IsStart ts → Reach ts
  later : {ts us : List Thread} → Reach ts → Step ts us → Reach us
