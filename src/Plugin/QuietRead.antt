-- ===== src/Plugin/QuietRead.antt =====
-- `p2p_plugin_read` while the writer is silent: total, with its exact result.
use p2pxineplugin.Base.{
  ℕ, ◌+◌, ◌-◌, ◌≤◌, ◌≡◌, refl, sym, ap, ◌∙◌, subst, List, [], ◌∷◌, ◌++◌, append-nil, arith, min,
  ltb, pos, if◌then◌else◌, Returns, tabulate_ext, length, length-append, length-tabulate,
}
use p2pxineplugin.Ring.{Memory}
use p2pxineplugin.Ring.Contents.{block, contents, IsReadable, length-contents}
use p2pxineplugin.Plugin.{
  Plugin, Progress, Turn, Reply, preview_length, finish_read, read, read_into, read_loop,
}
use p2pxineplugin.Plugin.Stream.{IsWriterTurn, Streamed, Extends-refl}
use p2pxineplugin.Plugin.Rounds.{LoopEnd, waits, ends}
use p2pxineplugin.Plugin.Read.{
  HasPreview, preview_length_bounds, start, arrivals, past_preview, read_lem, loop_lem,
}
use p2pxineplugin.Plugin.Quiet.{quiet, AllRead, read_loop-quiet}

abbrev pub quiet_turns : List Turn
quiet_turns = quiet ∷ quiet ∷ quiet ∷ []

pub quiet-IsWriterTurn : IsWriterTurn quiet
quiet-IsWriterTurn = record { first = λ r v. Extends-refl v; second = λ r v. Extends-refl v }

-- How many bytes of the ring a read of `nlen` bytes gets.
abbrev pub from_ring : Plugin → ℕ → ℕ
from_ring p nlen = min (nlen - preview_length p nlen) p.ring.count

pub record QuietRead (p : Plugin) (buf : Memory) (nlen : ℕ) (out : Reply) : Type 0 where
  pub result : out.result ≡ pos (preview_length p nlen + from_ring p nlen)
  pub readable : IsReadable out.plugin.ring
  pub taken : block out.buf 0 (from_ring p nlen) ++ contents out.plugin.ring ≡ contents p.ring
  pub preview_rest :
      block out.buf (from_ring p nlen) (preview_length p nlen - from_ring p nlen)
      ≡ block p.preview (p.curpos + from_ring p nlen) (preview_length p nlen - from_ring p nlen)
  pub untouched : (i : ℕ) → out.buf (nlen + i) ≡ buf (nlen + i)
  pub position : out.plugin.curpos ≡ (
      if ltb p.ring.count (nlen - preview_length p nlen)
      then p.curpos + preview_length p nlen
      else p.curpos + preview_length p nlen + nlen)

-- A list to which nothing can have been appended.
same_length : (xs ys added : List ℕ) → xs ≡ ys ++ added → length xs ≡ length ys → xs ≡ ys
same_length xs ys [] e l = e ∙ append-nil ys
same_length xs ys (a ∷ added) e l =
    absurd (omega (arith, ap length e, length-append ys (a ∷ added)))

module _ (p : Plugin) (buf : Memory) (nlen : ℕ) (le : preview_length p nlen ≤ nlen) where
  loop_QuietRead :
      (room moved : ℕ) (added : List ℕ) (q : Progress)
      → Streamed moved added (start room p buf nlen) q
      → AllRead (nlen - preview_length p nlen) (start room p buf nlen) q
      → QuietRead p buf nlen (finish_read (past_preview p nlen) q)
  unfolding finish_read
  loop_QuietRead room moved added q s a = record {
    result = ground (arith, s.copied_moved, all_moved, a);
    readable = s.readable;
    taken =
        ap (λ n. block q.buf 0 n ++ contents q.ring) (sym all_moved)
        ∙ same_length (block q.buf 0 moved ++ contents q.ring) (contents p.ring) added s.stream
            lengths;
    preview_rest =
        tabulate_ext (preview_length p nlen - from_ring p nlen) (λ k. q.buf (from_ring p nlen + k))
          (λ k. p.preview (p.curpos + from_ring p nlen + k))
          (λ k lt. ground (arith, s.beyond (from_ring p nlen + k), all_moved));
    untouched = λ i. ground (arith, s.beyond (nlen + i), all_moved);
    position = ground (arith, s.copied_moved, all_moved, a);
  }
    where
      all_moved : moved ≡ from_ring p nlen
      all_moved = omega (arith, s.at_moved, a.0)

      lengths : length (block q.buf 0 moved ++ contents q.ring) ≡ length (contents p.ring)
      lengths = omega (
        arith,
        length-append (block q.buf 0 moved) (contents q.ring),
        length-tabulate moved (λ k. q.buf (0 + k)),
        length-contents q.ring,
        length-contents p.ring,
        all_moved,
        a.1,
      )

-- A read while the writer is silent, into a block with room for it.
pub read_into_quiet :
    (max_preview_size room : ℕ) (p : Plugin) (buf : Memory) (nlen : ℕ)
    → HasPreview max_preview_size p
    → nlen ≤ room
    → IsReadable p.ring
    → Returns (QuietRead p buf nlen) (read_into max_preview_size room p buf (pos nlen) quiet_turns)
read_into_quiet max_preview_size room p buf nlen h fits v = finish (
    loop_lem max_preview_size room p buf nlen quiet_turns h fits v
      (quiet-IsWriterTurn, (quiet-IsWriterTurn, (quiet-IsWriterTurn, tt))))
  where
    le : preview_length p nlen ≤ nlen
    le = (preview_length_bounds max_preview_size p nlen h).0

    all_read :
        Returns
          (AllRead (nlen - preview_length p nlen) (start room p buf nlen))
          (read_loop quiet_turns (nlen - preview_length p nlen) (start room p buf nlen))
    all_read =
        read_loop-quiet (nlen - preview_length p nlen) (start room p buf nlen) (omega (arith, fits))
          v refl

    finish :
        LoopEnd quiet_turns (nlen - preview_length p nlen) (start room p buf nlen)
        → Returns
            (QuietRead p buf nlen)
            (read_into max_preview_size room p buf (pos nlen) quiet_turns)
    finish (waits e) = absurd (
        subst (Returns (AllRead (nlen - preview_length p nlen) (start room p buf nlen))) e all_read)
    finish (ends moved q m s e full short) =
        rw (read_lem max_preview_size room p buf nlen quiet_turns h fits, e)
          (loop_QuietRead p buf nlen le room moved (arrivals room p buf nlen quiet_turns) q s (
            subst (Returns (AllRead (nlen - preview_length p nlen) (start room p buf nlen))) e
              all_read))

pub read_quiet :
    (max_preview_size : ℕ) (p : Plugin) (buf : Memory) (nlen : ℕ)
    → HasPreview max_preview_size p
    → IsReadable p.ring
    → Returns (QuietRead p buf nlen) (read max_preview_size p buf (pos nlen) quiet_turns)
read_quiet max_preview_size p buf nlen h =
    read_into_quiet max_preview_size nlen p buf nlen h (omega arith)
