-- ===== src/Threads/Locks/Races.antt =====
-- The data that the threads share: who may use it, and holding what.

use p2pxineplugin.Base.{
  ℕ, zero, suc, ◌≤◌, ◌≡◌, ◌≢◌, sym, subst, ◌⊎◌, inl, inr, List, [], ◌∷◌, some, get_elem?, All,
  All-get_elem?, All-set, sum_of-two, arith,
}
use p2pxineplugin.Threads.Locks.{
  Mutex, topology_mutex, chunk_buffer_mutex, peer_chunk_mutex, buffer_ring_mutex, Shared,
  peer_sampler, chunk_buffer, chunk_id_set, first_chunk, output_context, peer_chunks, ring, Access,
  read, write, Action, lock, unlock, access, waiting, ring_use, writes, Section, on_topology,
  on_login, on_accept, on_offer, on_request, on_send_buffermap, on_request_buffermap, on_chunk,
  topology_round, offer_round, send_round, read_round, section, Owner, receive_data, plugin_read,
  runner,
}
use p2pxineplugin.Threads.Locks.System.{
  Thread, thread, remove, holds, holds_of, receiver, receiver_of, acquire, release, touch, Step,
  move, begin, Reach, start, later,
}
use p2pxineplugin.Threads.Locks.Exclusion.{IsSound, Reach-IsSound}

abbrev pub Holds : Mutex → List Mutex → Type 0
Holds m held = 1 ≤ holds m held

abbrev pub Receives : Owner → Type 0
Receives o = 1 ≤ receiver o

-- When a thread may write, and when it may read.
abbrev MayWrite : Owner → List Mutex → Shared → Type 0
MayWrite o held peer_sampler = Holds topology_mutex held
MayWrite o held chunk_buffer = Receives o × Holds chunk_buffer_mutex held
MayWrite o held chunk_id_set = ⊥
MayWrite o held first_chunk = Receives o
MayWrite o held output_context = Receives o
MayWrite o held peer_chunks = Holds peer_chunk_mutex held
MayWrite o held ring = Holds buffer_ring_mutex held

abbrev pub MayRead : Owner → List Mutex → Shared → Type 0
MayRead o held peer_sampler = Holds topology_mutex held
MayRead o held chunk_buffer = Receives o ⊎ Holds chunk_buffer_mutex held
MayRead o held chunk_id_set = Unit
MayRead o held first_chunk = Receives o
MayRead o held output_context = Receives o
MayRead o held peer_chunks = Holds peer_chunk_mutex held
MayRead o held ring = Holds buffer_ring_mutex held

-- What is left of a round uses the data only so.
abbrev IsGuarded : Owner → List Mutex → List Action → Type 0
IsGuarded o held [] = Unit
IsGuarded o held (lock m ∷ todo) = IsGuarded o (m ∷ held) todo
IsGuarded o held (unlock m ∷ todo) = IsGuarded o (remove m held) todo
IsGuarded o held (access (read v) ∷ todo) = MayRead o held v × IsGuarded o held todo
IsGuarded o held (access (write v) ∷ todo) = MayWrite o held v × IsGuarded o held todo

abbrev ThreadGuarded : Thread → Type 0
ThreadGuarded t = IsGuarded t.owner t.held t.todo

module _ (o : Owner) (held : List Mutex) where
  waiting-IsGuarded :
      (waits : ℕ) (rest : List Action)
      → IsGuarded o (buffer_ring_mutex ∷ held) rest
      → IsGuarded o (buffer_ring_mutex ∷ held) (waiting waits rest)
  waiting-IsGuarded zero rest k = k
  waiting-IsGuarded (suc waits) rest k = (omega arith, waiting-IsGuarded waits rest k)

  ring_use-IsGuarded :
      (waits : ℕ) (rest : List Action)
      → IsGuarded o held rest
      → IsGuarded o held (ring_use waits rest)
  ring_use-IsGuarded waits rest k = (
    omega arith,
    waiting-IsGuarded waits (access (write ring) ∷ unlock buffer_ring_mutex ∷ rest)
        (omega arith, k),
  )

  writes-IsGuarded :
      (ws : List ℕ) (rest : List Action) → IsGuarded o held rest → IsGuarded o held (writes ws rest)
  writes-IsGuarded [] rest k = k
  writes-IsGuarded (w ∷ ws) rest k =
      ring_use-IsGuarded w (writes ws rest) (writes-IsGuarded ws rest k)

section-IsGuarded : (s : Section) → IsGuarded (runner s) [] (section s)
unfolding section
section-IsGuarded on_topology = (omega arith, tt)
section-IsGuarded (on_chunk ws) = (
  omega arith,
  (
    omega arith,
    writes-IsGuarded receive_data (chunk_buffer_mutex ∷ []) ws _
        (omega arith, ((omega arith, omega arith), tt)),
  ),
)
section-IsGuarded on_login = (omega arith, tt)
section-IsGuarded on_accept = (inl (omega arith), (omega arith, tt))
section-IsGuarded on_offer = (inl (omega arith), (omega arith, tt))
section-IsGuarded on_request = (tt, (inl (omega arith), (omega arith, tt)))
section-IsGuarded on_send_buffermap = (omega arith, tt)
section-IsGuarded on_request_buffermap = (tt, tt)
section-IsGuarded topology_round = (omega arith, tt)
section-IsGuarded offer_round = (omega arith, (inr (omega arith), tt))
section-IsGuarded send_round = (inr (omega arith), (omega arith, tt))
section-IsGuarded (read_round waits) = ring_use-IsGuarded plugin_read [] waits [] tt

-- The threads of a reachable state keep to it: so a step does.
Step-IsGuarded : {ts us : List Thread} → Step ts us → All ThreadGuarded ts → All ThreadGuarded us
Step-IsGuarded {ts} (move i (acquire o m held todo e free is)) k =
    subst (All ThreadGuarded) (sym is)
      (All-set ThreadGuarded ts i _ k (All-get_elem? ThreadGuarded ts i k e))
Step-IsGuarded {ts} (move i (release o m held todo e is)) k =
    subst (All ThreadGuarded) (sym is)
      (All-set ThreadGuarded ts i _ k (All-get_elem? ThreadGuarded ts i k e))
Step-IsGuarded {ts} (move i (touch o a held todo e is)) k =
    subst (All ThreadGuarded) (sym is) (
      All-set ThreadGuarded ts i _ k (used_up o held a todo (All-get_elem? ThreadGuarded ts i k e)))
  where
    used_up :
        (o : Owner) (held : List Mutex) (a : Access) (todo : List Action)
        → IsGuarded o held (access a ∷ todo)
        → IsGuarded o held todo
    used_up o held (read v) todo h = h.1
    used_up o held (write v) todo h = h.1
Step-IsGuarded {ts} (begin i s e is) k =
    subst (All ThreadGuarded) (sym is) (All-set ThreadGuarded ts i _ k (section-IsGuarded s))

Reach-IsGuarded : {ts : List Thread} → Reach ts → All ThreadGuarded ts
Reach-IsGuarded (start ts h) = idle_guarded ts h.idle
  where
    idle_guarded :
        (ts : List Thread)
        → All (λ (t : Thread). (t.held ≡ []) × (t.todo ≡ [])) ts
        → All ThreadGuarded ts
    idle_guarded [] h = tt
    idle_guarded (t ∷ ts) ((_, none_left), h) =
        (subst (IsGuarded t.owner t.held) (sym none_left) tt, idle_guarded ts h)
Reach-IsGuarded (later r st) = Step-IsGuarded st (Reach-IsGuarded r)

-- What keeps two threads apart: a mutex that both hold, or that both are the receiver.
Apart : Owner → List Mutex → Owner → List Mutex → Type 0
Apart o held p kept = ((m : Mutex) × Holds m held × Holds m kept) ⊎ (Receives o × Receives p)

module _ (o p : Owner) (held kept : List Mutex) where
  writes-Apart : (v : Shared) → MayWrite o held v → MayWrite p kept v → Apart o held p kept
  unfolding Apart
  writes-Apart peer_sampler h k = inl (topology_mutex, h, k)
  writes-Apart chunk_buffer h k = inr (h.0, k.0)
  writes-Apart chunk_id_set h k = absurd h
  writes-Apart first_chunk h k = inr (h, k)
  writes-Apart output_context h k = inr (h, k)
  writes-Apart peer_chunks h k = inl (peer_chunk_mutex, h, k)
  writes-Apart ring h k = inl (buffer_ring_mutex, h, k)

  write_read-Apart : (v : Shared) → MayWrite o held v → MayRead p kept v → Apart o held p kept
  unfolding Apart
  write_read-Apart peer_sampler h k = inl (topology_mutex, h, k)
  write_read-Apart chunk_buffer h (inl k) = inr (h.0, k)
  write_read-Apart chunk_buffer h (inr k) = inl (chunk_buffer_mutex, h.1, k)
  write_read-Apart chunk_id_set h k = absurd h
  write_read-Apart first_chunk h k = inr (h, k)
  write_read-Apart output_context h k = inr (h, k)
  write_read-Apart peer_chunks h k = inl (peer_chunk_mutex, h, k)
  write_read-Apart ring h k = inl (buffer_ring_mutex, h, k)

-- Two threads are never both.
not-Apart :
    {ts : List Thread} (i j : ℕ) {t u : Thread}
    → IsSound ts
    → i ≢ j
    → get_elem? ts i ≡ some t
    → get_elem? ts j ≡ some u
    → Apart t.owner t.held u.owner u.held
    → ⊥
unfolding Apart
not-Apart {ts} i j k ne e f (inl (m, h, l)) =
    let two = sum_of-two (holds_of m) ts i j ne e f in
    let one = k.exclusive m in omega (arith, two, one, h, l)
not-Apart {ts} i j k ne e f (inr (h, l)) =
    let two = sum_of-two receiver_of ts i j ne e f in
    let one = k.one_receiver in omega (arith, two, one, h, l)

-- A thread whose next step is an access may make it.
may_access :
    {ts : List Thread} (i : ℕ) (o : Owner) (held : List Mutex) (a : Action) (todo : List Action)
    → Reach ts
    → get_elem? ts i ≡ some (thread o held (a ∷ todo))
    → IsGuarded o held (a ∷ todo)
may_access {ts} i o held a todo r e = All-get_elem? ThreadGuarded ts i (Reach-IsGuarded r) e

-- Where threads that start idle, one receiver at most among them, run the rounds of their
-- functions in any interleaving: while one thread's next step is to write the peer sampler's
-- context, the chunk buffer, the chunk id set, `firstChunk`, the output's context, the waiting
-- peers or the ring, the next step of another thread is neither to read nor to write the same,
-- and the other is not a thread that may read it: one that holds the mutex of these data or,
-- for the chunk buffer, `firstChunk` and the output's context, is the receiver.
pub no_race :
    {ts : List Thread} (i j : ℕ) (o p : Owner) (held kept : List Mutex) (v : Shared) (a : Action)
    (todo rest : List Action)
    → Reach ts
    → i ≢ j
    → get_elem? ts i ≡ some (thread o held (access (write v) ∷ todo))
    → get_elem? ts j ≡ some (thread p kept (a ∷ rest))
    → (a ≢ access (read v)) × (a ≢ access (write v)) × (¬ MayRead p kept v)
no_race i j o p held kept v a todo rest r ne e f =
    let sound = Reach-IsSound r in
    let writer = (may_access i o held (access (write v)) todo r e).0 in
    let other = may_access j p kept a rest r f in
    let undisturbed : ¬ MayRead p kept v =
      λ reads. not-Apart i j sound ne e f (write_read-Apart o p held kept v writer reads) in
    (
      λ is. undisturbed (subst (λ x. IsGuarded p kept (x ∷ rest)) is other).0,
      λ is. not-Apart i j sound ne e f (
          writes-Apart o p held kept v writer
            (subst (λ x. IsGuarded p kept (x ∷ rest)) is other).0),
      undisturbed,
    )
