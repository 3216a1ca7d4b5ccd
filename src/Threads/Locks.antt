-- ===== src/Threads/Locks.antt =====
-- The mutexes of threads.c and of the ring (output_ffmpeg.c, input_p2p.c), and the data that the threads
-- share: in which order a round takes the mutexes, and where it reads and writes the data. A section
-- is a round seen this way, whatever else the round does.
pub mod System
pub mod Ordering
pub mod Exclusion
pub mod Deadlock
pub mod Finish
pub mod Races
pub mod Rounds
pub mod Frame
pub mod Put
pub mod Commute
use p2pxineplugin.Base.{ℕ, zero, suc, List, [], ◌∷◌}

-- `topologyMutex`, `chunkBufferMutex`, `peerChunkMutex` and `buffer_ring_mutex`.
pub data Mutex : Type 0 where
  topology_mutex chunk_buffer_mutex peer_chunk_mutex buffer_ring_mutex : Mutex

abbrev pub rank : Mutex → ℕ
rank topology_mutex = 0
rank chunk_buffer_mutex = 1
rank peer_chunk_mutex = 2
rank buffer_ring_mutex = 3

-- The peer sampler's context, `chunkBuffer`, `chunkIDSet`, `firstChunk`, the output's context,
-- `peerChunks` with the peers of its entries, and the ring of the instance.
pub data Shared : Type 0 where
  peer_sampler chunk_buffer chunk_id_set first_chunk output_context peer_chunks ring : Shared

pub data Access : Type 0 where
  read write : Shared → Access

pub data Action : Type 0 where
  lock : Mutex → Action
  unlock : Mutex → Action
  access : Access → Action

-- `pthread_cond_timedwait` gives the ring back and takes it again, here `waits` times, and then the
-- count is read again.
abbrev pub waiting : ℕ → List Action → List Action
waiting zero rest = rest
waiting (suc waits) rest =
    unlock buffer_ring_mutex ∷ lock buffer_ring_mutex ∷ access (read ring) ∷ waiting waits rest

-- The part of a write, or of a round of a read, that uses the ring.
abbrev pub ring_use : ℕ → List Action → List Action
ring_use waits rest =
    lock buffer_ring_mutex
    ∷ access (read ring)
    ∷ waiting waits (access (write ring) ∷ unlock buffer_ring_mutex ∷ rest)

-- The writes of a delivery, by the waits of each.
abbrev pub writes : List ℕ → List Action → List Action
writes [] rest = rest
writes (waits ∷ ws) rest = ring_use waits (writes ws rest)

-- The rounds: the messages that the receiver handles, the other threads, and a round of a read that
-- xine asks for. `on_accept` is also a request to deliver, and `on_chunk` also a chunk of secured data;
-- an acknowledgement and a request for the login data take no mutex and touch no shared data.
pub data Section : Type 0 where
  on_topology on_login on_accept on_offer on_request on_send_buffermap : Section
  on_request_buffermap : Section
  on_chunk : List ℕ → Section
  topology_round offer_round send_round : Section
  read_round : ℕ → Section

-- The branch of each round that touches most.
unfoldable pub section : Section → List Action
section on_topology = lock topology_mutex ∷ access (write peer_sampler) ∷ unlock topology_mutex ∷ []
section (on_chunk ws) =
    lock chunk_buffer_mutex
    ∷ access (read first_chunk)
    ∷ access (write output_context)
    ∷ writes ws (
        access (write output_context)
        ∷ access (write chunk_buffer)
        ∷ unlock chunk_buffer_mutex
        ∷ [])
section on_login = access (write output_context) ∷ []
section on_accept =
    lock peer_chunk_mutex
    ∷ access (read chunk_buffer)
    ∷ access (write peer_chunks)
    ∷ unlock peer_chunk_mutex
    ∷ []
section on_offer =
    lock chunk_buffer_mutex
    ∷ access (read chunk_buffer)
    ∷ access (write first_chunk)
    ∷ unlock chunk_buffer_mutex
    ∷ []
section on_request =
    access (read chunk_id_set)
    ∷ lock chunk_buffer_mutex
    ∷ lock peer_chunk_mutex
    ∷ access (read chunk_buffer)
    ∷ access (write peer_chunks)
    ∷ unlock peer_chunk_mutex
    ∷ unlock chunk_buffer_mutex
    ∷ []
section on_send_buffermap =
    lock chunk_buffer_mutex ∷ access (read first_chunk) ∷ unlock chunk_buffer_mutex ∷ []
section on_request_buffermap =
    lock chunk_buffer_mutex ∷ access (read chunk_id_set) ∷ unlock chunk_buffer_mutex ∷ []
section topology_round =
    lock topology_mutex ∷ access (write peer_sampler) ∷ unlock topology_mutex ∷ []
section offer_round =
    lock topology_mutex
    ∷ lock chunk_buffer_mutex
    ∷ access (read peer_sampler)
    ∷ access (read chunk_buffer)
    ∷ unlock chunk_buffer_mutex
    ∷ unlock topology_mutex
    ∷ []
section send_round =
    lock topology_mutex
    ∷ lock chunk_buffer_mutex
    ∷ lock peer_chunk_mutex
    ∷ access (read chunk_buffer)
    ∷ access (write peer_chunks)
    ∷ unlock peer_chunk_mutex
    ∷ unlock chunk_buffer_mutex
    ∷ unlock topology_mutex
    ∷ []
section (read_round waits) = ring_use waits []

-- The threads of `threads_start` that have a loop, and a thread in which xine calls the instance.
pub data Owner : Type 0 where
  receive_data send_topology offer_chunk send_chunk plugin_read : Owner

-- Whose round it is.
abbrev pub runner : Section → Owner
runner topology_round = send_topology
runner offer_round = offer_chunk
runner send_round = send_chunk
runner (read_round _) = plugin_read
runner _ = receive_data
