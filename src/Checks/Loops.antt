-- ===== src/Checks/Loops.antt =====
-- The threads from their start to the test after a round that found no neighbour.
use p2pxineplugin.Base.{
  some, Ensures, arith, inl, pos, ok, ◌>>=◌, ℕ, ◌+◌, ◌≡◌, ◌≢◌, ◌≤◌, refl, true, List, [], ◌∷◌, All,
  length, take,
}
use p2pxineplugin.Threads.{send_topology, offer_chunk, chunk}
use p2pxineplugin.Threads.OfferRound.{but_server, offered, offer_chunk_lem}
use p2pxineplugin.Chunk.{Chunk}
use p2pxineplugin.Output.{with_context}
use p2pxineplugin.Output.Flush.{emit_all}
use p2pxineplugin.Output.Sequence.{all_played}
use p2pxineplugin.Threads.Arrivals.{arrivals, arrived, run_in_order}
use p2pxineplugin.Threads.Run.{Round, receive_round, topology_round, send_round, round, run}
use p2pxineplugin.Threads.Playing.{chunks_of, run_plays}
use p2pxineplugin.Output.Played.{last_played}
use p2pxineplugin.Threads.Loops.{
  receive_data_thread, send_topology_thread, offer_chunk_thread, send_chunk_thread,
  request_login_thread, testing, running, ended, after_round, at_phase, Loop, Program,
  threads_start, enter, leave, finish, Steps, stay, more,
}
use p2pxineplugin.Threads.Loops.Stopping.{left_of, stopped_ends}
use p2pxineplugin.Checks.Data.{machine, session, empty_slots, video}
use p2pxineplugin.Checks.Network.{grapes, state}

-- The second of them is the server.
abbrev neighbours : List ℕ
neighbours = 101 ∷ 9 ∷ 102 ∷ []

offer_chunk_lem_example :
    let to = but_server 9 (take 10 neighbours) in
    (offer_chunk grapes machine neighbours state ≡ offered grapes machine to state)
    × (length to ≤ 10)
    × All (λ nb. 9 ≢ nb) to
offer_chunk_lem_example = offer_chunk_lem grapes machine neighbours state

abbrev with_topology : Loop → Loop → List Loop
with_topology receiver topology =
    receiver
    ∷ topology
    ∷ at_phase offer_chunk_thread testing
    ∷ at_phase send_chunk_thread testing
    ∷ at_phase request_login_thread running
    ∷ []

abbrev stopped : Program grapes machine
stopped = record {
  state = record state { stop_threads = true };
  threads =
      with_topology (at_phase receive_data_thread testing) (at_phase send_topology_thread testing);
}

abbrev one_left : Program grapes machine
one_left = record stopped {
  threads =
      with_topology (at_phase receive_data_thread ended) (at_phase send_topology_thread testing);
}

-- The start, and the round that finds no neighbour.
stops : Steps grapes machine 2 (threads_start grapes machine state) stopped
unfolding threads_start round send_topology after_round
stops = more (enter 1 send_topology_thread refl refl refl) (
    more
      (finish 1 send_topology_thread (topology_round []) (record state { stop_threads = true }) refl
        tt refl refl)
      stay)

leaves : Steps grapes machine 1 stopped one_left
leaves = more (leave 0 receive_data_thread refl refl refl) stay

stopped_ends_example :
    (1 + left_of one_left.threads ≤ left_of stopped.threads) × (one_left.state.stop_threads ≡ true)
stopped_ends_example = stopped_ends grapes machine refl leaves

abbrev next_chunks : List (Chunk × ℕ)
next_chunks = (video 6, 8) ∷ (video 7, 9) ∷ []

run_in_order_example :
    let cs = video 5 ∷ video 6 ∷ video 7 ∷ [] in
    let output = session empty_slots (pos 4) in
    run grapes machine (arrivals grapes 101 ((video 5, 7) ∷ next_chunks)) state ≡ (
      emit_all machine cs output >>= λ t.
      ok (arrived grapes machine cs (with_context t (all_played cs output.context)) state))
run_in_order_example =
    run_in_order grapes machine 101 7 (video 5) next_chunks state empty_slots refl (omega arith)
      (inl refl) (refl, (refl, tt))

abbrev two_arrive : List (Round grapes)
two_arrive =
    receive_round 101 (chunk (some (video 5, 7)))
    ∷ send_round
    ∷ receive_round 101 (chunk (some (video 6, 8)))
    ∷ []

run_plays_example :
    Ensures
      (λ t.
        (t.node.output.first_chunk ≡ pos 5)
        × (t.node.output.played_chunk ≡ last_played (pos 5) (pos 4) (chunks_of grapes two_arrive)))
      (run grapes machine two_arrive state)
run_plays_example = run_plays grapes machine two_arrive state refl (λ e. cc)

two_arrive_play : last_played (pos 5) (pos 4) (chunks_of grapes two_arrive) ≡ pos 6
two_arrive_play = refl
