-- ===== src/Lib.antt =====
-- The p2p input plugin for xine: peers exchange the chunks of a video stream, the output module
-- puts them in order and writes their payload to a ring, and xine reads the ring as a plain stream.
--
-- Parts, and the files that model them (paths from the repository's root):
--
-- * Ring, Ring/*: the circular buffer of `p2p_input_plugin_t` (input_p2p.h), one round of the read
--   loop (input_p2p.c) and the wait and the copy of the writer (output_ffmpeg.c). `Ring.Contents`
--   sees it as a queue of bytes, and `Ring.View` is the quotient of rings by that.
-- * Plugin, Plugin/*: `p2p_plugin_read`, the block reads, the preview and the other calls of xine
--   (input_p2p.c). `Plugin.Session` is the table of calls that an instance hands to xine, and
--   `Plugin.Class` the class that makes instances.
-- * Plugin.Mrl, Plugin.Digits, Plugin.Address: `p2p_class_get_instance` and what it reads from an
--   MRL (input_p2p.c). The `slack` of the allocator is what a block is longer than was asked for.
-- * Chunk, Writer, Writer/*: `output_ffmpeg_write_chunk` and its helpers (output_ffmpeg.c).
--   `Writer.Misplaced` and `Writer.Shifted` are about the put pointer after a write.
-- * Request, Output, Output/*: the output context, delivery, flush and cleanup (output_ffmpeg.c)
--   and the request for a missing chunk (network.c). `Output.Store` is a reference for the flush as
--   a whole; `Output.Later`, `Output.Early` and `Output.Ahead` are about chunks that are not due,
--   `Output.Sequence` is about chunks in order, `Output.Swapped` about two in each other's place,
--   and `Output.Played` and `Output.Gap` are about any chunks in any order. `Output.Legacy` has the
--   two functions ending in `_original`, which nothing calls. `Output.Module` has the start of the
--   module, its secured-data calls and its table of functions, and `output_init`
--   (output_factory.c).
-- * OutputInterface, `struct output_interface`: that table as the network knows it.
-- * Grapes, Grapes/*: what is used of GRAPES' chunk id sets and chunk buffer, and lists that serve
--   as both in tests.
-- * PeerQueue, PeerQueue/*: the queue of chunks that peers wait for (network.c).
-- * Network, Network/*: buffer maps, needed chunks and arriving chunks (network.c).
-- * Threads, Threads/*: the receiver's message loop and the rounds of the other threads
--   (threads.c). `Threads.Locks` has the order in which the threads take the mutexes and what they
--   use of the data that they share (`Threads.Locks.Frame` and `Threads.Locks.Commute` join this
--   with the rounds of `Threads`), and `Threads.Loops` their start and the tests of `stopThreads`,
--   both as step relations. `Threads.Playing` follows `playedChunk` through any rounds, and
--   `Threads.Arrivals` follows chunk messages through the network and the output module to the
--   ring.
-- * Playback, the way of a chunk from a message to a read (network.c, output_ffmpeg.c,
--   input_p2p.c).
-- * Streamer, Streamer/*: `init`, `main` and the command line (streamer.c), with
--   `network_create_interface` (network.c) and `p2p_plugin_open` (input_p2p.c). What the libraries
--   and the system answer is a record.
-- * Debug, Debug/*: the tables printed for debugging (network.c, output_ffmpeg.c), and a reader of
--   them.
-- * Base, Base/*: numbers, lists, integers, and the ways in which a piece of C ends.
-- * Checks, Checks/*: tests by evaluation and the theorems at concrete inputs.
--
-- Conventions. An `Outcome` is a value, a `Fault` (undefined behaviour, named), `blocked` (a wait
-- that the schedule never ends) or `exited`. Pointers into the ring are offsets, memory is a
-- function from addresses to bytes, and each copy is checked against the blocks that it touches;
-- xine hands over a block of as many bytes as it asks for, and of MAX_PREVIEW_SIZE for the preview.
-- Lengths and sizes that the code keeps from 0 on are numbers, and each subtraction is guarded as
-- in the source; values that may be negative are integers (`ℤ`). Integers are not bounded: chunk
-- numbers, positions and counts stay far below the range of their C types, and `playedChunk + 1` is
-- computed only where a larger chunk number exists.
--
-- Threads. Each stretch of code that runs under `buffer_ring_mutex` is one function of the ring.
-- What the other thread does between two stretches, or during a wait, is an argument: a `Turn` for
-- each round of the reader's loop, a function of the ring for each wait of the writer. Those lists
-- are the fuel of the two loops, and a loop that outlives its list is `blocked`; three rounds are
-- enough for a read while the writer is silent, and as many waits as the ring holds bytes for a
-- write while the reader takes some during each wait.
--
-- A round of a thread of threads.c is a function of the program's state, and a run is a list of
-- rounds in any order; a round that waits for a mutex comes later in the list. Sections that read
-- the chunk buffer see one state of it, since `chunkBufferMutex` or the receiver, its only writer,
-- keeps it. The mutexes themselves are in `Threads.Locks`: each thread begins rounds of its
-- function in any order, there is one receiver at most, a mutex is taken only when it is free, and
-- a wait on a condition of the ring ends after a number of times that is part of the round. A round
-- is there the mutexes that it takes and gives back, with the reads and writes of the shared data
-- between them; `stopThreads` and `transId` are not among these data, since no mutex guards them.
--
-- GRAPES and `malloc` are parameters: `Grapes` with the laws of `IsLawful`, the peers of `peerSet`,
-- the neighbours of the peer sampler, and the result of decoding a message. Nodes are numbers.
-- Small allocations succeed, except where the code tests them.
--
-- Not modelled: `output_ffmpeg_close` (output_ffmpeg.c), which is one call of GRAPES, the libraries
-- (GRAPES, xine, pthreads) beyond the calls above, and single lines of debugging output between
-- other statements.
pub mod Base
pub mod Ring
pub mod Plugin
pub mod Playback
pub mod Debug
pub mod Chunk
pub mod Writer
pub mod Request
pub mod Output
pub mod Checks
pub mod PeerQueue
pub mod Grapes
pub mod OutputInterface
pub mod Network
pub mod Threads
pub mod Streamer
