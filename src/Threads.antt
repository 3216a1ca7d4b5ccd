-- ===== src/Threads.antt =====
-- threads.c: what the receiver does with each message, and one round of the other threads. Each
-- function is what a thread does from one wait to the next; `Threads.Run` joins them in any order.
pub mod Offers
pub mod Run
pub mod Progress
pub mod OfferRound
pub mod Arrivals
pub mod Playing
pub mod Loops
pub mod Locks
use p2pxineplugin.Base.{
  ℕ, zero, suc, ◌+◌, Bool, true, false, List, [], ◌∷◌, ◌++◌, Option, none, some, take, ◌==◌,
  if◌then◌else◌, ℤ, pos, minus_one, ◌==ℤ◌, ltb_ℤ, leb_ℤ, Outcome, ok, fault, null_deref,
  uninitialised, or_fault, ◌>>=◌,
}
use p2pxineplugin.Chunk.{Chunk}
use p2pxineplugin.Grapes.{Grapes}
use p2pxineplugin.Output.{Machine, Session}
use p2pxineplugin.Output.Module.{output_ffmpeg}
use p2pxineplugin.PeerQueue.{Queue, add_to_peer_chunk, send_chunks_to_peers}
use p2pxineplugin.Network.{
  Message, Node, request_secured_data_login, request_chunks, accept_chunks, deliver_chunks,
  offer_chunks, send_buffer_map, chunk_buffer_to_buffermap, get_needed_chunks, handle_chunk_message,
  handle_secured_chunk_message, handle_secured_login_message,
}

-- `enum signaling_type`
pub data SignalType : Type 0 where
  sig_accept sig_deliver sig_ack sig_offer sig_request : SignalType
  sig_send_buffermap sig_request_buffermap : SignalType

module _ (G : Grapes) where
  -- What `parseSignaling` stores.
  pub record Signal : Type 0 where
    pub signal_type : SignalType
    pub received : G.IdSet
    pub max_deliver : ℤ
    pub trans_id : ℕ

  -- A message by its type, as far as GRAPES can decode it: `none` where it cannot.
  pub data Packet : Type 0 where
    topology : Packet
    chunk : Option (Chunk × ℕ) → Packet
    secured_data_chunk : Option (Chunk × ℕ) → Packet
    secured_data_login : Option (Chunk × ℕ) → Packet
    signalling : Option Signal → Packet
    unknown : ℕ → Packet

  -- The locals of the loop over an offer, and `firstChunk`.
  pub record Accepting : Type 0 where
    pub count : ℕ
    pub first_chunk : ℤ
    pub for_me : G.IdSet

  -- One round of that loop, on an id that is not in the chunk buffer.
  unfoldable pub accept_missing : ℤ → Accepting → Accepting
  accept_missing id a =
      let first = if a.first_chunk ==ℤ minus_one then id else a.first_chunk in
      if leb_ℤ first id
      then record { count = a.count + 1; first_chunk = first; for_me = G.add_chunk a.for_me id }
      else record a { first_chunk = first }

  unfoldable pub accept_one : (ℤ → Option Chunk) → ℤ → Accepting → Accepting
  accept_one lookup id a = elim (lookup id) [ none ↦ accept_missing id a | some _ ↦ a ]

  -- The loop, from `i`.
  unfoldable pub accept_from : (ℤ → Option Chunk) → ℤ → G.IdSet → ℕ → ℕ → Accepting → Accepting
  accept_from lookup max_deliver received zero i a = a
  accept_from lookup max_deliver received (suc rounds) i a =
      if ltb_ℤ (pos a.count) max_deliver
      then accept_from lookup max_deliver received rounds (i + 1)
          (accept_one lookup (G.get_chunk received i) a)
      else a

  -- The whole loop, which ends with the set that is accepted, and `firstChunk`.
  unfoldable pub accept_offered : (ℤ → Option Chunk) → Signal → ℤ → Accepting
  accept_offered lookup sig first_chunk =
      accept_from lookup sig.max_deliver sig.received (G.size sig.received) 0
        (record { count = 0; first_chunk = first_chunk; for_me = G.init })

  -- The loop over an accept or a request to deliver; the result of each call is dropped.
  unfoldable pub queue_from :
      (ℤ → Option Chunk) → Option ℕ → G.IdSet → ℕ → ℕ → Queue → Outcome Queue
  queue_from lookup peer received zero i q = ok q
  queue_from lookup peer received (suc rounds) i q =
      add_to_peer_chunk lookup peer (G.get_chunk received i) q >>= λ out.
      queue_from lookup peer received rounds (i + 1) out.1

module _ (G : Grapes) (m : Machine) where
  -- The globals of the program. `peer_of` is `peerset_get_peer` on `peerSet`. `firstChunk` stands
  -- with the output module, which reads it too.
  pub record State : Type 0 where
    pub node : Node G (output_ffmpeg m)
    pub queue : Queue
    pub chunk_id_set : G.IdSet
    pub chunk_buffer_size : ℕ
    pub peer_of : ℕ → Option ℕ
    pub trans_id : ℕ
    pub stop_threads : Bool

  abbrev pub lookup : State → ℤ → Option Chunk
  lookup s = G.cb_get_chunk s.node.chunk_buffer

  abbrev pub send : Message G.IdSet → State → State
  send msg s = record s { node = record s.node { sent = s.node.sent ++ msg ∷ [] } }

  -- `sig_accept` and `sig_deliver`, which are handled alike.
  unfoldable pub handle_accept : ℕ → Signal G → State → Outcome State
  handle_accept remote sig s =
      queue_from G (lookup s) (s.peer_of remote) sig.received (G.size sig.received) 0 s.queue
      >>= λ q. ok (record s { queue = q })

  -- `sig_offer`. The number in the answer is the one of the message: a local hides the global.
  unfoldable pub handle_offer : ℕ → Signal G → State → State
  handle_offer remote sig s =
      let a = accept_offered G (lookup s) sig s.node.output.first_chunk in
      send (accept_chunks remote a.for_me sig.trans_id) (record s {
        node = record s.node { output = record s.node.output { first_chunk = a.first_chunk } };
      })

  -- `sig_request`: the requested set is not read.
  unfoldable pub handle_request : ℕ → Signal G → State → Outcome State
  handle_request remote sig s =
      let earliest = G.get_earliest s.chunk_id_set in
      add_to_peer_chunk (lookup s) (s.peer_of remote) earliest s.queue >>= λ out. ok (
        if out.0 ==ℤ pos 0
        then send (deliver_chunks remote (G.add_chunk G.init earliest) sig.trans_id)
            (record s { queue = out.1 })
        else send
            (send_buffer_map remote (chunk_buffer_to_buffermap G s.node.chunk_buffer)
              s.chunk_buffer_size sig.trans_id)
            (record s { queue = out.1 }))

  -- `sig_send_buffermap`
  unfoldable pub handle_send_buffermap : ℕ → Signal G → State → Outcome State
  handle_send_buffermap remote sig s =
      or_fault (get_needed_chunks G (some G.init) s.node.output.first_chunk sig.received) null_deref
      >>= λ needed. ok (send (request_chunks remote needed (G.size needed) sig.trans_id) s)

  -- `sig_request_buffermap`
  unfoldable pub handle_request_buffermap : ℕ → Signal G → State → State
  handle_request_buffermap remote sig s =
      send (send_buffer_map remote s.chunk_id_set (G.size s.chunk_id_set) sig.trans_id) s

  -- The inner `switch`.
  unfoldable pub handle_as : SignalType → ℕ → Signal G → State → Outcome State
  handle_as sig_accept remote sig s = handle_accept remote sig s
  handle_as sig_deliver remote sig s = handle_accept remote sig s
  handle_as sig_ack remote sig s = ok s
  handle_as sig_offer remote sig s = ok (handle_offer remote sig s)
  handle_as sig_request remote sig s = handle_request remote sig s
  handle_as sig_send_buffermap remote sig s = handle_send_buffermap remote sig s
  handle_as sig_request_buffermap remote sig s = ok (handle_request_buffermap remote sig s)

  abbrev pub with_node : State → Node G (output_ffmpeg m) → State
  with_node s n = record s { node = n }

  -- One round of `threads_receive_data`. The result of `parseSignaling` is not tested: where it
  -- fails, what it should have stored has no value.
  unfoldable pub receive : ℕ → Packet G → State → Outcome State
  receive remote topology s = ok s
  receive remote (chunk parsed) s =
      handle_chunk_message G (output_ffmpeg m) parsed s.node >>= λ n. ok (with_node s n)
  receive remote (secured_data_chunk parsed) s =
      if (output_ffmpeg m).secured_data_enabled_chunk s.node.output ==ℤ pos 1
      then (handle_secured_chunk_message G (output_ffmpeg m) parsed s.node >>= λ n.
          ok (with_node s n))
      else ok s
  receive remote (secured_data_login parsed) s =
      if (output_ffmpeg m).secured_data_enabled_login s.node.output ==ℤ pos 1
      then (handle_secured_login_message G (output_ffmpeg m) parsed s.node >>= λ n.
          ok (with_node s n))
      else ok s
  receive remote (signalling none) s = fault uninitialised
  receive remote (signalling (some sig)) s = handle_as sig.signal_type remote sig s
  receive remote (unknown _) s = ok s

  -- One round of `threads_send_topology`, on the neighbours that the peer sampler has then.
  unfoldable pub send_topology : List ℕ → State → State
  send_topology [] s = record s { stop_threads = true }
  send_topology (_ ∷ _) s = s

  -- The offer to one neighbour, unless it is the server.
  unfoldable pub offer_one : ℕ → State → State
  offer_one nb s =
      if s.node.server == nb
      then s
      else record (send
          (offer_chunks nb (chunk_buffer_to_buffermap G s.node.chunk_buffer) 50 s.trans_id) s) {
            trans_id = s.trans_id + 1;
          }

  -- The loop of `threads_offer_chunk`.
  unfoldable pub offer_to : List ℕ → State → State
  offer_to [] s = s
  offer_to (nb ∷ nbs) s = offer_to nbs (offer_one nb s)

  -- One round of `threads_offer_chunk`.
  unfoldable pub offer_chunk : List ℕ → State → State
  offer_chunk neighbours s = offer_to (take 10 neighbours) s

  -- One round of `threads_send_chunk`.
  unfoldable pub send_chunk : State → Outcome State
  send_chunk s = send_chunks_to_peers (lookup s) s.queue >>= λ q. ok (record s { queue = q })

  -- `threads_request_secured_data_login`
  unfoldable pub request_secured_login : State → State
  request_secured_login s =
      if (output_ffmpeg m).secured_data_enabled_login s.node.output ==ℤ pos 1
      then record (send (request_secured_data_login s.node.server s.trans_id) s) {
        trans_id = s.trans_id + 1;
      }
      else s
