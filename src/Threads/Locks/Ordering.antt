-- ===== src/Threads/Locks/Ordering.antt =====
-- Each thread takes its mutexes in one order.
use p2pxineplugin.Base.{ℕ, zero, suc, ◌≤◌, ◌≡◌, refl, List, [], ◌∷◌, arith}
use p2pxineplugin.Threads.Locks.{
  Mutex, chunk_buffer_mutex, buffer_ring_mutex, rank, write, ring, Action, lock, unlock, access,
  waiting, ring_use, writes, Section, on_topology, on_login, on_accept, on_offer, on_request,
  on_send_buffermap, on_request_buffermap, on_chunk, topology_round, offer_round, send_round,
  read_round, section,
}
use p2pxineplugin.Threads.Locks.System.{Thread}

-- The rank of the last mutex taken, plus one.
abbrev pub top : List Mutex → ℕ
top [] = 0
top (h ∷ hs) = suc (rank h)

-- What is left of a round takes mutexes in ascending order, gives back the last one taken, and ends
-- with none.
abbrev pub IsOrdered : List Mutex → List Action → Type 0
IsOrdered held (lock m ∷ todo) = (top held ≤ rank m) × IsOrdered (m ∷ held) todo
IsOrdered [] (unlock m ∷ todo) = ⊥
IsOrdered (h ∷ held) (unlock m ∷ todo) = (h ≡ m) × IsOrdered held todo
IsOrdered held (access a ∷ todo) = IsOrdered held todo
IsOrdered [] [] = Unit
IsOrdered (h ∷ held) [] = ⊥

abbrev pub IsDescending : List Mutex → Type 0
IsDescending [] = Unit
IsDescending (h ∷ hs) = (top hs ≤ rank h) × IsDescending hs

abbrev pub ThreadOrdered : Thread → Type 0
ThreadOrdered t = IsDescending t.held × IsOrdered t.held t.todo

waiting-IsOrdered :
    (waits : ℕ) (held : List Mutex) (rest : List Action)
    → top held ≤ 3
    → IsOrdered (buffer_ring_mutex ∷ held) rest
    → IsOrdered (buffer_ring_mutex ∷ held) (waiting waits rest)
waiting-IsOrdered zero held rest h k = k
waiting-IsOrdered (suc waits) held rest h k = (refl, (h, waiting-IsOrdered waits held rest h k))

ring_use-IsOrdered :
    (waits : ℕ) (held : List Mutex) (rest : List Action)
    → top held ≤ 3
    → IsOrdered held rest
    → IsOrdered held (ring_use waits rest)
ring_use-IsOrdered waits held rest h k = (
  h,
  waiting-IsOrdered waits held (access (write ring) ∷ unlock buffer_ring_mutex ∷ rest) h (refl, k),
)

writes-IsOrdered :
    (ws : List ℕ) (held : List Mutex) (rest : List Action)
    → top held ≤ 3
    → IsOrdered held rest
    → IsOrdered held (writes ws rest)
writes-IsOrdered [] held rest h k = k
writes-IsOrdered (w ∷ ws) held rest h k =
    ring_use-IsOrdered w held (writes ws rest) h (writes-IsOrdered ws held rest h k)

pub section-IsOrdered : (s : Section) → IsOrdered [] (section s)
unfolding section
section-IsOrdered on_topology = (omega arith, (refl, tt))
section-IsOrdered (on_chunk ws) =
    (omega arith, writes-IsOrdered ws (chunk_buffer_mutex ∷ []) _ (omega arith) (refl, tt))
section-IsOrdered on_login = tt
section-IsOrdered on_accept = (omega arith, (refl, tt))
section-IsOrdered on_offer = (omega arith, (refl, tt))
section-IsOrdered on_request = (omega arith, (omega arith, (refl, (refl, tt))))
section-IsOrdered on_send_buffermap = (omega arith, (refl, tt))
section-IsOrdered on_request_buffermap = (omega arith, (refl, tt))
section-IsOrdered topology_round = (omega arith, (refl, tt))
section-IsOrdered offer_round = (omega arith, (omega arith, (refl, (refl, tt))))
section-IsOrdered send_round =
    (omega arith, (omega arith, (omega arith, (refl, (refl, (refl, tt))))))
section-IsOrdered (read_round waits) = ring_use-IsOrdered waits [] [] (omega arith) tt
