-- ===== src/Network.antt =====
-- network.c: the sets of chunk numbers that peers exchange, and what is done with a chunk that
-- arrives. The output module is known by its interface only.
pub mod Sets
pub mod Arrival
use p2pxineplugin.Base.{
  ℕ, zero, suc, ◌+◌, Bool, List, [], ◌∷◌, ◌++◌, Option, none, some, map, if◌then◌else◌, ℤ, pos,
  ◌==ℤ◌, ltb_ℤ, Outcome, ok, ◌>>=◌,
}
use p2pxineplugin.Chunk.{Chunk}
use p2pxineplugin.Grapes.{Grapes}
use p2pxineplugin.OutputInterface.{OutputInterface}

-- The messages that are sent, by the function of GRAPES that sends them. A receiver is the number of
-- its node.
pub data Message (IdSet : Type 0) : Type 0 where
  request_secured_data_chunk : ℕ → IdSet → ℕ → Message IdSet
  request_secured_data_login : ℕ → ℕ → Message IdSet
  request_chunks : ℕ → IdSet → ℕ → ℕ → Message IdSet
  accept_chunks : ℕ → IdSet → ℕ → Message IdSet
  deliver_chunks : ℕ → IdSet → ℕ → Message IdSet
  offer_chunks : ℕ → IdSet → ℕ → ℕ → Message IdSet
  send_buffer_map : ℕ → IdSet → ℕ → ℕ → Message IdSet

module _ (G : Grapes) where
  -- The loop of `network_chunkBuffer_to_buffermap`.
  unfoldable pub add_all : List Chunk → G.IdSet → G.IdSet
  add_all [] s = s
  add_all (c ∷ cs) s = add_all cs (G.add_chunk s c.id)

  -- `network_chunkBuffer_to_buffermap`
  unfoldable pub chunk_buffer_to_buffermap : G.Buffer → G.IdSet
  chunk_buffer_to_buffermap b = add_all (G.cb_get_chunks b) G.init

  -- The loop of `network_get_needed_chunks` from `i`.
  unfoldable pub needed_from : ℤ → G.IdSet → ℕ → ℕ → G.IdSet → G.IdSet
  needed_from first_chunk received zero i s = s
  needed_from first_chunk received (suc rounds) i s =
      needed_from first_chunk received rounds (i + 1) (
        if ltb_ℤ first_chunk (G.get_chunk received i)
        then G.add_chunk s (G.get_chunk received i)
        else s)

  -- `network_get_needed_chunks`; `made` is the result of `chunkID_set_init`, `none` for NULL.
  unfoldable pub get_needed_chunks : Option G.IdSet → ℤ → G.IdSet → Option G.IdSet
  get_needed_chunks none first_chunk received = none
  get_needed_chunks (some s) first_chunk received =
      some (needed_from first_chunk received (G.size received) 0 s)

module _ (G : Grapes) (O : OutputInterface) where
  -- The globals that an arriving chunk touches: `chunkBuffer`, `output->context`, and the messages
  -- sent so far.
  pub record Node : Type 0 where
    pub chunk_buffer : G.Buffer
    pub output : O.Context
    pub sent : List (Message G.IdSet)
    pub server : ℕ

  -- What is done with a decoded chunk before it is stored.
  unfoldable pub hand_over : Chunk → ℕ → Node → Outcome Node
  hand_over c trans_id n =
      if O.secured_data_enabled_chunk n.output ==ℤ pos 1
      then ok (record n {
        sent =
            n.sent ++ request_secured_data_chunk n.server (G.add_chunk G.init c.id) trans_id ∷ [];
      })
      else (O.deliver c n.output >>= λ out. ok (record n { output = out.1 }))

  -- `cb_add_chunk`, which keeps the buffer if it refuses the chunk.
  unfoldable pub store_chunk : Chunk → Node → Node
  store_chunk c n = elim (G.cb_add_chunk n.chunk_buffer c) [
    | none ↦ n
    | some b ↦ record n { chunk_buffer = b }
  ]

  -- `network_handle_chunk_message` on what `parseChunkMsg` has decoded, `none` if it could not.
  unfoldable pub handle_chunk_message : Option (Chunk × ℕ) → Node → Outcome Node
  handle_chunk_message none n = ok n
  handle_chunk_message (some (c, trans_id)) n =
      hand_over c trans_id n >>= λ n'. ok (store_chunk c n')

  -- `network_handle_secured_chunk_message`
  unfoldable pub handle_secured_chunk_message : Option (Chunk × ℕ) → Node → Outcome Node
  handle_secured_chunk_message none n = ok n
  handle_secured_chunk_message (some (c, _)) n =
      O.deliver_secured_data_chunk c n.output >>= λ out. ok (record n { output = out.1 })

  -- `network_handle_secured_login_message`
  unfoldable pub handle_secured_login_message : Option (Chunk × ℕ) → Node → Outcome Node
  handle_secured_login_message none n = ok n
  handle_secured_login_message (some (c, _)) n =
      O.deliver_secured_data_login c n.output >>= λ out. ok (record n { output = out.1 })
