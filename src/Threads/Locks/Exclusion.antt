-- ===== src/Threads/Locks/Exclusion.antt =====
-- No mutex is held twice.
use p2pxineplugin.Base.{
  ℕ, zero, suc, ◌+◌, ◌≤◌, ◌≡◌, ◌∙◌, refl, sym, ap, subst, List, [], ◌∷◌, some, ◌==◌, if◌then◌else◌,
  get_elem?, set, All, All-get_elem?, All-set, sum_of, sum_of-set, arith,
}
use p2pxineplugin.Threads.Locks.{
  Mutex, topology_mutex, chunk_buffer_mutex, peer_chunk_mutex, buffer_ring_mutex, rank, Action,
  lock, unlock, access, section, Owner, runner,
}
use p2pxineplugin.Threads.Locks.System.{
  Thread, thread, remove, holds, holds_of, holders, receiver_of, acquire, release, touch, Step,
  move, begin, Reach, start, later, IsStart,
}
use p2pxineplugin.Threads.Locks.Ordering.{IsOrdered, IsDescending, ThreadOrdered, section-IsOrdered}

-- What giving back the last mutex leaves.
remove_last :
    (m : Mutex) (held : List Mutex) (todo : List Action)
    → IsDescending held
    → IsOrdered held (unlock m ∷ todo)
    → (rest : List Mutex) × (held ≡ m ∷ rest)
      × (remove m held ≡ rest)
      × (IsDescending rest × IsOrdered rest todo)
remove_last m [] todo d k = absurd k
remove_last m (h ∷ held) todo (_, d) (e, k) = (
  held,
  ap (λ x. x ∷ held) e,
  subst (λ x. remove x (h ∷ held) ≡ held) e (remove_head h held),
  (d, k),
)
  where
    remove_head : (h : Mutex) (hs : List Mutex) → remove h (h ∷ hs) ≡ hs
    remove_head h hs = ground arith

pub record IsSound (ts : List Thread) : Type 0 where
  pub ordered : All ThreadOrdered ts
  pub exclusive : (m : Mutex) → holders m ts ≤ 1
  pub one_receiver : sum_of receiver_of ts ≤ 1

mutex_of : ℕ → Mutex
mutex_of zero = topology_mutex
mutex_of (suc zero) = chunk_buffer_mutex
mutex_of (suc (suc zero)) = peer_chunk_mutex
mutex_of (suc (suc (suc _))) = buffer_ring_mutex

mutex_of-rank : (m : Mutex) → mutex_of (rank m) ≡ m
unfolding mutex_of
mutex_of-rank topology_mutex = refl
mutex_of-rank chunk_buffer_mutex = refl
mutex_of-rank peer_chunk_mutex = refl
mutex_of-rank buffer_ring_mutex = refl

pub rank_inj : (m n : Mutex) → rank m ≡ rank n → m ≡ n
rank_inj m n e = sym (mutex_of-rank m) ∙ ap mutex_of e ∙ mutex_of-rank n

-- A free mutex can be taken without another being held twice.
one_more :
    (ts : List Thread) (m n : Mutex)
    → holders m ts ≡ 0
    → holders n ts ≤ 1
    → (if rank m == rank n then 1 else 0) + holders n ts ≤ 1
one_more ts m n free one =
    ground (arith, λ (e : rank m ≡ rank n). subst (λ x. holders x ts ≡ 0) (rank_inj m n e) free)

module _ (ts : List Thread) (i : ℕ) (o : Owner) where
  acquire-IsSound :
      (m : Mutex) (held : List Mutex) (todo : List Action)
      → get_elem? ts i ≡ some (thread o held (lock m ∷ todo))
      → holders m ts ≡ 0
      → IsSound ts
      → IsSound (set ts i (thread o (m ∷ held) todo))
  acquire-IsSound m held todo e free k =
      let before : Thread = thread o held (lock m ∷ todo) in
      let after : Thread = thread o (m ∷ held) todo in
      let (d, ord) = All-get_elem? ThreadOrdered ts i k.ordered e in
      record {
        ordered = All-set ThreadOrdered ts i after k.ordered ((ord.0, d), ord.1);
        exclusive = λ n.
            let total = sum_of-set (holds_of n) ts i before after e in
            let room = one_more ts m n free (k.exclusive n) in omega (arith, total, room);
        one_receiver =
            let same = sum_of-set receiver_of ts i before after e in
            let one = k.one_receiver in omega (arith, same, one);
      }

  release-IsSound :
      (m : Mutex) (held : List Mutex) (todo : List Action)
      → get_elem? ts i ≡ some (thread o held (unlock m ∷ todo))
      → IsSound ts
      → IsSound (set ts i (thread o (remove m held) todo))
  release-IsSound m held todo e k =
      let before : Thread = thread o held (unlock m ∷ todo) in
      let after : Thread = thread o (remove m held) todo in
      let (d, before_o) = All-get_elem? ThreadOrdered ts i k.ordered e in
      let (rest, is_cons, is_rest, ord) = remove_last m held todo d before_o in
      record {
        ordered =
            All-set ThreadOrdered ts i after k.ordered
              (subst (λ hs. IsDescending hs × IsOrdered hs todo) (sym is_rest) ord);
        exclusive = λ n.
            let total = sum_of-set (holds_of n) ts i before after e in
            let less = ap (holds n) is_cons in
            let left = ap (holds n) is_rest in
            let one = k.exclusive n in omega (arith, total, less, left, one);
        one_receiver =
            let same = sum_of-set receiver_of ts i before after e in
            let one = k.one_receiver in omega (arith, same, one);
      }

  -- An access, or the beginning of a round, leaves what the thread holds.
  change-IsSound :
      (held : List Mutex) (todo rest : List Action)
      → get_elem? ts i ≡ some (thread o held todo)
      → (IsOrdered held todo → IsOrdered held rest)
      → IsSound ts
      → IsSound (set ts i (thread o held rest))
  change-IsSound held todo rest e ord k =
      let before : Thread = thread o held todo in
      let after : Thread = thread o held rest in
      let (d, before_o) = All-get_elem? ThreadOrdered ts i k.ordered e in
      record {
        ordered = All-set ThreadOrdered ts i after k.ordered (d, ord before_o);
        exclusive = λ n.
            let total = sum_of-set (holds_of n) ts i before after e in
            let one = k.exclusive n in omega (arith, total, one);
        one_receiver =
            let same = sum_of-set receiver_of ts i before after e in
            let one = k.one_receiver in omega (arith, same, one);
      }

Step-IsSound : {ts us : List Thread} → Step ts us → IsSound ts → IsSound us
Step-IsSound {ts} (move i (acquire o m held todo e free is)) k =
    subst IsSound (sym is) (acquire-IsSound ts i o m held todo e free k)
Step-IsSound {ts} (move i (release o m held todo e is)) k =
    subst IsSound (sym is) (release-IsSound ts i o m held todo e k)
Step-IsSound {ts} (move i (touch o a held todo e is)) k =
    subst IsSound (sym is) (change-IsSound ts i o held (access a ∷ todo) todo e (λ x. x) k)
Step-IsSound {ts} (begin i s e is) k =
    subst IsSound (sym is)
      (change-IsSound ts i (runner s) [] [] (section s) e (λ _. section-IsOrdered s) k)

IsStart-IsSound : (ts : List Thread) → IsStart ts → IsSound ts
IsStart-IsSound ts h = record {
  ordered = idle_ordered ts h.idle;
  exclusive = λ n. idle_exclusive ts n h.idle;
  one_receiver = h.one_receiver;
}
  where
    idle_ordered :
        (ts : List Thread) → All (λ t. (t.held ≡ []) × (t.todo ≡ [])) ts → All ThreadOrdered ts
    idle_ordered [] h = tt
    idle_ordered (t ∷ ts) ((none_held, none_left), h) = (
      subst (λ hs. IsDescending hs × IsOrdered hs t.todo) (sym none_held)
          (tt, subst (IsOrdered []) (sym none_left) tt),
      idle_ordered ts h,
    )

    idle_exclusive :
        (ts : List Thread) (n : Mutex)
        → All (λ t. (t.held ≡ []) × (t.todo ≡ [])) ts
        → holders n ts ≤ 1
    idle_exclusive [] n h = omega arith
    idle_exclusive (t ∷ ts) n ((none_held, _), h) =
        let none = ap (holds n) none_held in
        let rest = idle_exclusive ts n h in omega (arith, none, rest)

-- In every state that threads which start idle can reach, no mutex is held twice, and each
-- thread has taken the mutexes that it holds in the order topology, chunk buffer, waiting
-- peers, ring; what is left of its round keeps to that order, gives back the last mutex taken,
-- and ends with none.
pub Reach-IsSound : {ts : List Thread} → Reach ts → IsSound ts
Reach-IsSound (start ts h) = IsStart-IsSound ts h
Reach-IsSound (later r st) = Step-IsSound st (Reach-IsSound r)
