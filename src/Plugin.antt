-- ===== src/Plugin.antt =====
-- input_p2p.c: the plugin's state and what xine calls on it, except the construction (Plugin/Mrl,
-- Plugin/Instance). The writer thread shares the ring: what it does between and during the rounds
-- of a read is an argument, one `Turn` for each round.
pub mod Stream
pub mod Rounds
pub mod Read
pub mod Quiet
pub mod QuietRead
pub mod Alike
pub mod Calls
pub mod Preview
pub mod BlockRead
pub mod Session
pub mod Class
pub mod Mrl
pub mod Digits
pub mod Address
use p2pxineplugin.Base.{
  ℕ, ◌+◌, ◌-◌, Bool, true, false, ◌&&◌, ◌||◌, List, [], ◌∷◌, Option, ltb, leb, ◌==◌, if◌then◌else◌,
  ℤ, pos, negsuc, minus_one, pos_part, ltb_ℤ, Outcome, ok, blocked, out_of_bounds, check, ◌>>=◌,
  ◌>>◌,
}
use p2pxineplugin.Ring.{Memory, Ring, round_length, consume, copy}

-- `p2p_input_plugin_t`. A `char *` is the list of its bytes; the ring has its own record.
-- `output` is the address of the output module, `none` for NULL.
pub record Plugin : Type 0 where
  pub interface : List ℕ
  pub own_port : ℤ
  pub host : List ℕ
  pub host_port : ℤ
  pub fh : ℤ
  pub mrl : List ℕ
  pub curpos : ℕ
  pub preview : Memory
  pub preview_size : ℤ
  pub preview_read_done : Bool
  pub ring : Ring
  pub output : Option ℕ

-- What the writer thread does before a round takes the mutex, what it does while the round waits
-- for data, and whether that wait times out.
pub record Turn : Type 0 where
  pub before : Ring → Ring
  pub waiting : Ring → Ring
  pub timed_out : Bool

-- The locals of the read loop: `buf` points `at` bytes into the caller's memory, a block of `room`
-- bytes.
pub record Progress : Type 0 where
  pub ring : Ring
  pub buf : Memory
  pub room : ℕ
  pub at : ℕ
  pub copied : ℕ
  pub timed_out : Bool

-- The copy of a round of `n` bytes, and the pointers after it.
unfoldable pub deliver_round : Ring → ℕ → Progress → Progress
deliver_round r n q = record q {
  ring = consume r n;
  buf = copy q.buf q.at r.buffer r.get n;
  at = q.at + n;
  copied = q.copied + n;
}

-- One round of the loop. It returns the `nlen` that is left.
unfoldable pub read_round : Turn → ℕ → Progress → Outcome (ℕ × Progress)
read_round t nlen q =
    let r = t.before q.ring in
    if r.count == 0 && t.timed_out
    then ok (nlen, record q { ring = t.waiting r; timed_out = true })
    else (let r' = if r.count == 0 then t.waiting r else r in
        round_length r' nlen >>= λ n.
        check (leb (q.at + n) q.room) out_of_bounds >> ok (nlen - n, deliver_round r' n q))

-- The loop ends when nothing is left to read or a wait times out. It is `blocked` when the schedule
-- ends first.
unfoldable pub read_loop : List Turn → ℕ → Progress → Outcome Progress
read_loop [] nlen q = if nlen == 0 then ok q else blocked
read_loop (t ∷ ts) nlen q =
    if nlen == 0
    then ok q
    else (read_round t nlen q >>= λ step.
        if step.1.timed_out then ok step.1 else read_loop ts step.0 step.1)

-- What a call returns: its result, the plugin after it, and the caller's memory.
pub record Reply : Type 0 where
  pub result : ℤ
  pub plugin : Plugin
  pub buf : Memory

-- How many bytes of the preview are still to be handed out, at most `nlen`.
unfoldable pub preview_length : Plugin → ℕ → ℕ
preview_length p nlen =
    if ltb_ℤ (pos p.curpos) p.preview_size
    then (let n = pos_part p.preview_size - p.curpos in if ltb nlen n then nlen else n)
    else 0

-- The end of `p2p_plugin_read`: `curpos` is brought forward unless a wait timed out.
unfoldable pub finish_read : Plugin → Progress → Reply
finish_read p q = record {
  result = pos q.copied;
  plugin = record p {
    ring = q.ring;
    curpos = if q.timed_out then p.curpos else p.curpos + q.copied;
  };
  buf = q.buf;
}

module _ (max_preview_size : ℕ) where
  -- `p2p_plugin_read` on a block of `room` bytes. The bytes of the ring go to the start of `buf`,
  -- also after preview bytes.
  unfoldable pub read_into : (room : ℕ) → Plugin → Memory → ℤ → List Turn → Outcome Reply
  read_into room p buf (negsuc _) turns = ok (record { result = minus_one; plugin = p; buf = buf })
  read_into room p buf (pos nlen) turns =
      let n = preview_length p nlen in
      check (n == 0 || (leb (p.curpos + n) max_preview_size && leb n room)) out_of_bounds
      >> (read_loop turns (nlen - n) (record {
        ring = p.ring;
        buf = copy buf 0 p.preview p.curpos n;
        room = room;
        at = 0;
        copied = n;
        timed_out = false;
      })
          >>= λ q. ok (finish_read (record p { curpos = p.curpos + n }) q))

  -- The same on a block of as many bytes as are asked for, which is what xine hands over.
  abbrev pub read : Plugin → Memory → ℤ → List Turn → Outcome Reply
  read p buf nlen turns = read_into (pos_part nlen) p buf nlen turns
