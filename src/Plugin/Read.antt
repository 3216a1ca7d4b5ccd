-- ===== src/Plugin/Read.antt =====
-- `p2p_plugin_read` as a whole: its result, what it leaves in the caller's memory, in the ring and
-- in `curpos`, with and without a preview that is still to be handed out.
use p2pxineplugin.Base.{
  refl, ◌&&◌, if◌then◌else◌, ℕ, ◌+◌, ◌-◌, ◌≤◌, ◌≡◌, ◌⊎◌, true, false, List, ◌++◌, arith, All, ◌==◌,
  leb, ◌||◌, pos, ◌≤ℤ◌, ok, blocked, ◌>>=◌,
}
use p2pxineplugin.Ring.{Memory, copy}
use p2pxineplugin.Ring.Contents.{block, contents, IsReadable}
use p2pxineplugin.Plugin.{
  Plugin, Progress, Turn, Reply, preview_length, finish_read, read_into, read_loop,
}
use p2pxineplugin.Plugin.Stream.{IsWriterTurn}
use p2pxineplugin.Plugin.Rounds.{LoopEnd, read_loop_lem, written}

-- The preview that a plugin holds lies in its array.
abbrev pub HasPreview : ℕ → Plugin → Type 0
HasPreview max_preview_size p = p.preview_size ≤ℤ pos max_preview_size

pub preview_length_bounds :
    (max_preview_size : ℕ) (p : Plugin) (nlen : ℕ)
    → HasPreview max_preview_size p
    → (preview_length p nlen ≤ nlen)
      × ((preview_length p nlen ≡ 0) ⊎ (p.curpos + preview_length p nlen ≤ max_preview_size))
unfolding preview_length
preview_length_bounds max_preview_size p nlen h = ground arith

-- The locals with which the loop starts.
abbrev pub start : ℕ → Plugin → Memory → ℕ → Progress
start room p buf nlen = record {
  ring = p.ring;
  buf = copy buf 0 p.preview p.curpos (preview_length p nlen);
  room = room;
  at = 0;
  copied = preview_length p nlen;
  timed_out = false;
}

-- What the writer appends while the loop of a read runs.
abbrev pub arrivals : ℕ → Plugin → Memory → ℕ → List Turn → List ℕ
arrivals room p buf nlen ts = written ts (nlen - preview_length p nlen) (start room p buf nlen)

-- `p2p_plugin_read` has returned: `moved` bytes came from the ring and lie at the start of the
-- caller's memory, in front of what they left of the preview bytes. `added` is what the writer
-- appended meanwhile.
pub record ReadDone (p : Plugin) (buf : Memory) (nlen : ℕ) (added : List ℕ) (out : Reply)
    : Type 0 where
  pub moved : ℕ
  pub result : out.result ≡ pos (preview_length p nlen + moved)
  pub within : preview_length p nlen + moved ≤ nlen
  pub readable : IsReadable out.plugin.ring
  pub stream : block out.buf 0 moved ++ contents out.plugin.ring ≡ contents p.ring ++ added
  pub preview_rest :
      block out.buf moved (preview_length p nlen - moved)
      ≡ block p.preview (p.curpos + moved) (preview_length p nlen - moved)
  pub untouched : (i : ℕ) → out.buf (nlen + i) ≡ buf (nlen + i)
  pub position : out.plugin.curpos ≡ (
      if preview_length p nlen + moved == nlen
      then p.curpos + preview_length p nlen + nlen
      else p.curpos + preview_length p nlen)

pub data ReadEnd (max_preview_size room : ℕ) (p : Plugin) (buf : Memory) (nlen : ℕ) (ts : List Turn)
    : Type 0 where
  read_waits :
      read_into max_preview_size room p buf (pos nlen) ts ≡ blocked
      → ReadEnd max_preview_size room p buf nlen ts
  read_ends :
      (out : Reply)
      → read_into max_preview_size room p buf (pos nlen) ts ≡ ok out
      → ReadDone p buf nlen (arrivals room p buf nlen ts) out
      → ReadEnd max_preview_size room p buf nlen ts

abbrev pub past_preview : Plugin → ℕ → Plugin
past_preview p nlen = record p { curpos = p.curpos + preview_length p nlen }

pub read_lem :
    (max_preview_size room : ℕ) (p : Plugin) (buf : Memory) (nlen : ℕ) (ts : List Turn)
    → HasPreview max_preview_size p
    → nlen ≤ room
    → read_into max_preview_size room p buf (pos nlen) ts ≡ (
        read_loop ts (nlen - preview_length p nlen) (start room p buf nlen) >>= λ q.
        ok (finish_read (past_preview p nlen) q))
unfolding read_into
read_lem max_preview_size room p buf nlen ts h fits = rw checked
  where
    checked :
        (preview_length p nlen == 0
          || (leb (p.curpos + preview_length p nlen) max_preview_size
              && leb (preview_length p nlen) room))
        ≡ true
    checked = ground (arith, preview_length_bounds max_preview_size p nlen h, fits)

-- The loop, which ends within the block.
pub loop_lem :
    (max_preview_size room : ℕ) (p : Plugin) (buf : Memory) (nlen : ℕ) (ts : List Turn)
    → HasPreview max_preview_size p
    → nlen ≤ room
    → IsReadable p.ring
    → All IsWriterTurn ts
    → LoopEnd ts (nlen - preview_length p nlen) (start room p buf nlen)
loop_lem max_preview_size room p buf nlen ts h fits v w =
    read_loop_lem ts (nlen - preview_length p nlen) (start room p buf nlen) (omega (arith, fits))
      refl v w
