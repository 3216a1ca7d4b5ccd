-- ===== src/Checks/Data.antt =====
-- The rings, chunks and sessions that the tests run on.
use p2pxineplugin.Base.{
  ℕ, ◌+◌, ◌-◌, ◌%◌, List, [], ◌∷◌, Option, none, some, true, false, ℤ, pos, ◌==◌, if◌then◌else◌,
}
use p2pxineplugin.Ring.{Ring, buffer_size, consume}
use p2pxineplugin.Plugin.{Plugin}
use p2pxineplugin.Chunk.{Chunk}
use p2pxineplugin.Writer.{little}
use p2pxineplugin.Output.{Context, Session, Machine}

-- Four bytes round the end of the buffer.
abbrev pub wrapped : Ring
wrapped = record {
  buffer = λ i. i % 251;
  get = buffer_size - 2;
  put = 2;
  count = 4;
  max_size = buffer_size;
}

abbrev pub fresh : Ring
fresh = record { buffer = λ i. 0; get = 0; put = 0; count = 0; max_size = buffer_size }

-- Twenty bytes in front of the end, read up to there.
abbrev pub near_end : Ring
near_end = record {
  buffer = λ i. 0;
  get = buffer_size - 12;
  put = buffer_size - 12;
  count = 0;
  max_size = buffer_size;
}

abbrev pub plugin : Plugin
plugin = record {
  interface = [];
  own_port = pos 44444;
  host = [];
  host_port = pos 55555;
  fh = pos 0;
  mrl = [];
  curpos = 0;
  preview = λ i. 100 + i;
  preview_size = pos 0;
  preview_read_done = false;
  ring = wrapped;
  output = none;
}

-- The same with a preview of three bytes, one of them handed out.
abbrev pub with_preview : Plugin
with_preview = record plugin { preview_size = pos 3; preview_read_done = true; curpos = 1 }

-- A video chunk with no frames in its table, and three bytes of payload.
abbrev pub video_bytes : List ℕ
video_bytes = 1 ∷ 2 ∷ 0 ∷ 1 ∷ 0 ∷ 0 ∷ 25 ∷ 0 ∷ 1 ∷ 0 ∷ 7 ∷ 8 ∷ 9 ∷ []

abbrev pub video : ℕ → Chunk
video id = record { id = pos id; size = 13; bytes = video_bytes }

abbrev pub machine : Machine
machine = record { host = little; now = 10; leftover = λ i. pos 0 }

abbrev pub context : List (Option Chunk) → ℤ → Context
context slots played = record {
  output_buffer_size = 4;
  output_buffer = some slots;
  played_chunk = played;
  maximum_chunk = played;
  last_request_sent = none;
  secured_data_login = 0;
}

abbrev pub session : List (Option Chunk) → ℤ → Session
session slots played = record {
  context = context slots played;
  ring = fresh;
  turns = [];
  first_chunk = pos 5;
}

abbrev pub empty_slots : List (Option Chunk)
empty_slots = none ∷ none ∷ none ∷ none ∷ []

-- Chunks 9 and 10 are stored.
abbrev pub two_stored : List (Option Chunk)
two_stored = none ∷ some (video 9) ∷ some (video 10) ∷ none ∷ []

-- A reader that takes one byte during a wait, if there is one.
abbrev pub one_byte : Ring → Ring
one_byte r = if r.count == 0 then r else consume r 1

-- A full ring of four bytes capacity, for a chunk to wait.
abbrev pub crowded : Ring
crowded = record wrapped { max_size = 16 }
