-- ===== src/Checks/Network.antt =====
-- The exchange with the peers at concrete inputs: the sets of GRAPES are lists, and its buffer holds
-- at most eight chunks.
use p2pxineplugin.Base.{
  ℕ, ◌≡◌, refl, inl, false, ◌&&◌, List, [], ◌∷◌, ◌++◌, map, Option, none, some, ◌==◌, if◌then◌else◌,
  ℤ, pos, ltb_ℤ, ok, Ensures,
}
use p2pxineplugin.Chunk.{Chunk}
use p2pxineplugin.Grapes.{Grapes, member}
use p2pxineplugin.Grapes.Listed.{listed, listed-IsLawful, find}
use p2pxineplugin.PeerQueue.{PeerChunk, Queue, send_chunks_to_peers}
use p2pxineplugin.PeerQueue.Entry.{Apart, IsReady, without_held, all_sent}
use p2pxineplugin.PeerQueue.Send.{send_chunks_to_peers_lem}
use p2pxineplugin.Network.{accept_chunks, get_needed_chunks}
use p2pxineplugin.Network.Sets.{member-get_needed_chunks}
use p2pxineplugin.Threads.{
  Signal, sig_offer, sig_accept, chunk, signalling, State, lookup, with_node, handle_offer,
  accept_from, accept_one, accept_missing, accept_offered,
}
use p2pxineplugin.Threads.Offers.{Accepted, handle_offer-Accepted}
use p2pxineplugin.Threads.Run.{Round, receive_round, offer_round, send_round, Forward, run}
use p2pxineplugin.Threads.Progress.{run-Forward}
use p2pxineplugin.Checks.Data.{machine, session, empty_slots, video}

abbrev pub grapes : Grapes
grapes = listed 8

-- The peers 1 and 2, at the nodes 101 and 102.
abbrev two_peers : ℕ → Option (Option ℕ)
two_peers a = if a == 1 then some (some 101) else if a == 2 then some (some 102) else none

abbrev entry : ℕ → ℕ → PeerChunk
entry peer id = record { peer = some peer; chunk = pos id }

abbrev entries : List PeerChunk
entries = entry 1 3 ∷ entry 2 4 ∷ []

abbrev idle : Queue
idle = record { peer_chunks = none; peer_chunks_size = 0; peers = two_peers; sent = [] }

abbrev filled : Queue
filled = record idle { peer_chunks = some (map some entries); peer_chunks_size = 2 }

abbrev stored : List Chunk
stored = video 3 ∷ video 2 ∷ []

abbrev pub state : State grapes machine
state = record {
  node = record {
    chunk_buffer = stored;
    output = session empty_slots (pos 4);
    sent = [];
    server = 9;
  };
  queue = idle;
  chunk_id_set = [];
  chunk_buffer_size = 0;
  peer_of = λ node. if node == 101 then some 1 else none;
  trans_id = 1;
  stop_threads = false;
}

abbrev offer : Signal grapes
offer = record {
  signal_type = sig_offer;
  received = pos 3 ∷ pos 4 ∷ pos 6 ∷ pos 7 ∷ pos 8 ∷ [];
  max_deliver = pos 2;
  trans_id = 40;
}

abbrev accept : Signal grapes
accept = record offer { signal_type = sig_accept; received = pos 3 ∷ [] }

-- Chunk 3 is here and chunk 4 is before the first one.
accepts_two :
    (handle_offer grapes machine 101 offer state).node.sent
    ≡ accept_chunks 101 (pos 7 ∷ pos 6 ∷ []) 40 ∷ []
unfolding handle_offer accept_offered accept_from accept_one accept_missing
accepts_two = refl

other_peer : Apart (some 1) (some 2)
other_peer e = cc

two-IsReady : IsReady two_peers entries
two-IsReady = ((101, refl), (other_peer, tt), ((102, refl), tt, tt))

send_chunks_to_peers_lem_example :
    send_chunks_to_peers (find stored) filled
    ≡ ok (record {
      peer_chunks = none;
      peer_chunks_size = 0;
      peers = without_held entries two_peers;
      sent = [] ++ all_sent (find stored) two_peers entries;
    })
send_chunks_to_peers_lem_example =
    send_chunks_to_peers_lem (find stored) entries filled refl refl two-IsReady

member-get_needed_chunks_example :
    (needed : List ℤ) × (get_needed_chunks grapes (some []) (pos 6) offer.received ≡ some needed)
    × ((x : ℤ) → member x needed ≡ member x offer.received && ltb_ℤ (pos 6) x)
member-get_needed_chunks_example =
    member-get_needed_chunks grapes (listed-IsLawful 8) [] offer.received (pos 6) refl

handle_offer-Accepted_example :
    let a = accept_offered grapes (lookup grapes machine state) offer (pos 5) in
    Accepted grapes
      (listed-IsLawful 8)
      (lookup grapes machine state)
      (pos 2)
      (pos 5)
      offer.received
      a
    × (handle_offer grapes machine 101 offer state
        ≡ with_node grapes machine state (record state.node {
          output = record state.node.output { first_chunk = a.first_chunk };
          sent = [] ++ accept_chunks 101 a.for_me 40 ∷ [];
        }))
handle_offer-Accepted_example =
    handle_offer-Accepted grapes (listed-IsLawful 8) machine 101 offer state refl

abbrev rounds : List (Round grapes)
rounds =
    receive_round 101 (signalling (some offer))
    ∷ receive_round 101 (chunk (some (video 5, 7)))
    ∷ offer_round (101 ∷ 9 ∷ [])
    ∷ send_round
    ∷ receive_round 101 (signalling (some accept))
    ∷ []

run-Forward_example : Ensures (Forward grapes machine state) (run grapes machine rounds state)
run-Forward_example =
    run-Forward grapes machine rounds state (inl (record { no_block = refl; no_size = refl }))
