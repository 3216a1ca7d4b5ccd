-- ===== src/Checks/Locks.antt =====
-- A run of two threads that take the mutexes, and of one that reads while the receiver writes.
use p2pxineplugin.Base.{◌+◌, ◌≡◌, pos, ok, ◌>>=◌, Ensures, some, arith, refl, ◌≢◌, List, [], ◌∷◌}
use p2pxineplugin.Threads.Locks.{
  topology_mutex, chunk_buffer_mutex, peer_chunk_mutex, buffer_ring_mutex, ring, output_context,
  first_chunk, peer_sampler, chunk_buffer, peer_chunks, read, write, Action, lock, unlock, access,
  send_round, offer_round, read_round, on_chunk, section, receive_data, offer_chunk, send_chunk,
  plugin_read,
}
use p2pxineplugin.Threads.Locks.System.{
  Thread, thread, acquire, touch, move, begin, Reach, start, later,
}
use p2pxineplugin.Threads.Locks.Finish.{Moves, still, next, actions, AllIdle, rounds_end}
use p2pxineplugin.Threads.Locks.Races.{MayRead, no_race}
use p2pxineplugin.Threads.Locks.Frame.{SectionSpares, Same, round-Same}
use p2pxineplugin.Threads.Locks.Put.{SectionAvoids, put}
use p2pxineplugin.Threads.Locks.Commute.{round-put}
use p2pxineplugin.Threads.{chunk}
use p2pxineplugin.Threads.Run.{Round, receive_round, round}
use p2pxineplugin.Checks.Data.{machine, video}
use p2pxineplugin.Checks.Network.{grapes, state}

-- A chunk that arrives leaves the waiting peers.
chunk_spares : SectionSpares peer_chunks (some (on_chunk (0 ∷ [])))
unfolding section
chunk_spares = ((λ e. cc), ((λ e. cc), ((λ e. cc), ((λ e. cc), tt))))

round-Same_example :
    Ensures
      (Same grapes machine peer_chunks state)
      (round grapes machine (receive_round 101 (chunk (some (video 5, 7)))) state)
round-Same_example =
    round-Same grapes machine peer_chunks (receive_round 101 (chunk (some (video 5, 7)))) state
      chunk_spares

-- A round of sends does not use `firstChunk`.
send_avoids : SectionAvoids first_chunk (some send_round)
unfolding section
send_avoids = ((λ e. cc), ((λ e. cc), tt))

round-put_example :
    round grapes machine Round.send_round (put grapes machine first_chunk (pos 8) state) ≡ (
      round grapes machine Round.send_round state >>= λ t.
      ok (put grapes machine first_chunk (pos 8) t))
round-put_example = round-put grapes machine first_chunk Round.send_round (pos 8) state send_avoids

abbrev sending : List Action
sending =
    lock chunk_buffer_mutex
    ∷ lock peer_chunk_mutex
    ∷ access (read chunk_buffer)
    ∷ access (write peer_chunks)
    ∷ unlock peer_chunk_mutex
    ∷ unlock chunk_buffer_mutex
    ∷ unlock topology_mutex
    ∷ []

abbrev offering : List Action
offering =
    lock chunk_buffer_mutex
    ∷ access (read peer_sampler)
    ∷ access (read chunk_buffer)
    ∷ unlock chunk_buffer_mutex
    ∷ unlock topology_mutex
    ∷ []

-- The first thread holds the topology, for which the second one waits.
abbrev contended : List Thread
contended =
    thread send_chunk (topology_mutex ∷ []) sending
    ∷ thread offer_chunk [] (lock topology_mutex ∷ offering)
    ∷ []

contended-Reach : Reach contended
unfolding section
contended-Reach =
    later
      (later
        (later
          (start (thread send_chunk [] [] ∷ thread offer_chunk [] [] ∷ [])
            (record { idle = ((refl, refl), ((refl, refl), tt)); one_receiver = omega arith }))
          (begin 0 send_round refl refl))
        (move 0 (acquire send_chunk topology_mutex [] sending refl refl refl)))
      (begin 1 offer_round refl refl)

-- The first thread goes on.
abbrev both_held : List Thread
both_held =
    thread send_chunk (chunk_buffer_mutex ∷ topology_mutex ∷ []) (
      lock peer_chunk_mutex
      ∷ access (read chunk_buffer)
      ∷ access (write peer_chunks)
      ∷ unlock peer_chunk_mutex
      ∷ unlock chunk_buffer_mutex
      ∷ unlock topology_mutex
      ∷ [])
    ∷ thread offer_chunk [] (lock topology_mutex ∷ offering)
    ∷ []

rounds_end_example :
    (1 + actions both_held ≡ actions contended)
    × ((vs : List Thread) × Moves (actions both_held) both_held vs × AllIdle vs)
rounds_end_example =
    rounds_end contended-Reach
      (next 0 (acquire send_chunk chunk_buffer_mutex (topology_mutex ∷ []) _ refl refl refl) still)

-- The receiver delivers a chunk and is about to write into the ring.
abbrev after_write : List Action
after_write =
    unlock buffer_ring_mutex
    ∷ access (write output_context)
    ∷ access (write chunk_buffer)
    ∷ unlock chunk_buffer_mutex
    ∷ []

abbrev reading : List Action
reading = access (read ring) ∷ access (write ring) ∷ unlock buffer_ring_mutex ∷ []

abbrev writing : List Thread
writing =
    thread receive_data (buffer_ring_mutex ∷ chunk_buffer_mutex ∷ [])
      (access (write ring) ∷ after_write)
    ∷ thread plugin_read [] (lock buffer_ring_mutex ∷ reading)
    ∷ []

writing-Reach : Reach writing
unfolding section
writing-Reach =
    later
      (later
        (later
          (later
            (later
              (later
                (later
                  (start (thread receive_data [] [] ∷ thread plugin_read [] [] ∷ []) (record {
                    idle = ((refl, refl), ((refl, refl), tt));
                    one_receiver = omega arith;
                  }))
                  (begin 0 (on_chunk (0 ∷ [])) refl refl))
                (begin 1 (read_round 0) refl refl))
              (move 0 (acquire receive_data chunk_buffer_mutex [] _ refl refl refl)))
            (move 0 (touch receive_data (read first_chunk) _ _ refl refl)))
          (move 0 (touch receive_data (write output_context) _ _ refl refl)))
        (move 0 (acquire receive_data buffer_ring_mutex _ _ refl refl refl)))
      (move 0 (touch receive_data (read ring) _ _ refl refl))

no_race_example :
    (lock buffer_ring_mutex ≢ access (read ring))
    × (lock buffer_ring_mutex ≢ access (write ring))
    × (¬ MayRead plugin_read [] ring)
no_race_example =
    no_race 0 1 receive_data plugin_read (buffer_ring_mutex ∷ chunk_buffer_mutex ∷ []) [] ring
      (lock buffer_ring_mutex) after_write reading writing-Reach (λ e. omega (arith, e)) refl refl
