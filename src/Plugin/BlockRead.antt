-- ===== src/Plugin/BlockRead.antt =====
-- `p2p_plugin_read_block` while the writer is silent: an element with all that was asked for, or none.
use p2pxineplugin.Base.{
  pos_part, nil_of_length, ℕ, ◌+◌, ◌≤◌, ◌<◌, ◌≡◌, refl, ap, false, Bool-cases, inl, inr, [], ◌++◌,
  none, some, arith, min, ltb_ℤ, ◌==ℤ◌, ==ℤ_iff, ℤ, pos, if◌then◌else◌, Returns, Returns-bind, ok,
  length, length-append, length-tabulate,
}
use p2pxineplugin.Ring.{Memory}
use p2pxineplugin.Ring.Contents.{block, contents, IsReadable, length-contents}
use p2pxineplugin.Plugin.{Plugin, Reply, preview_length, read_into}
use p2pxineplugin.Plugin.Read.{HasPreview, preview_length_bounds}
use p2pxineplugin.Plugin.QuietRead.{QuietRead, quiet_turns, from_ring, read_into_quiet}
use p2pxineplugin.Plugin.Calls.{Block, BlockReply, read_block}

-- How many bytes there are for a read: of the preview and of the ring.
abbrev pub available : Plugin → ℕ → ℕ
available p n = preview_length p n + p.ring.count

-- The end of a block read of `n` bytes.
pub data BlockEnd (p : Plugin) (n : ℕ) (out : BlockReply) : Type 0 where
  whole :
      (e : Block)
      → out.element ≡ some e
      → n ≤ available p n
      → e.size ≡ pos n
      → block e.mem 0 (from_ring p n) ++ contents out.plugin.ring ≡ contents p.ring
      → BlockEnd p n out
  dropped :
      out.element ≡ none → available p n < n → contents out.plugin.ring ≡ [] → BlockEnd p n out

-- A read that gets less than it asked for leaves nothing in the ring.
short-empty :
    (p : Plugin) (buf : Memory) (n : ℕ) (out : Reply)
    → QuietRead p buf n out
    → available p n < n
    → contents out.plugin.ring ≡ []
short-empty p buf n out r short =
    let total = ap length r.taken in
    nil_of_length (contents out.plugin.ring) (
      omega (
        arith,
        total,
        length-append (block out.buf 0 (from_ring p n)) (contents out.plugin.ring),
        length-tabulate (from_ring p n) (λ k. out.buf (0 + k)),
        length-contents p.ring,
      ))

-- What is made of the read.
read_end :
    (p : Plugin) (element : Block) (n : ℕ) (out : Reply)
    → preview_length p n ≤ n
    → QuietRead p element.mem n out
    → Returns (BlockEnd p n) (
        if out.result ==ℤ pos n
        then ok (record {
          element = some (record element { mem = out.buf; size = out.result });
          plugin = out.plugin;
        })
        else ok (record { element = none; plugin = out.plugin }))
read_end p element n out le r = elim (Bool-cases (out.result ==ℤ pos n)) [
  | inl all ↦ rw all (
      whole (record element { mem = out.buf; size = out.result }) refl
        (ground (arith, r.result, all, le)) ((==ℤ_iff out.result (pos n)).0 all) r.taken)
  | inr less ↦
      let short : available p n < n = ground (arith, r.result, less, le) in
      rw less (dropped refl short (short-empty p element.mem n out r short))
]

module _ (max_preview_size : ℕ) (p : Plugin) (element : Block) (l k : ℕ) where
  -- A block read of a non-negative length while the writer is silent, from an instance with a
  -- readable ring and a preview within its array: with `n` the smaller of that length and the
  -- element's size, it returns the element with `n` bytes in use and the bytes that left the
  -- ring at its start if there are `n` bytes, and otherwise NULL with the ring empty.
  pub read_block_lem :
      (len : ℤ)
      → len ≡ pos l
      → element.max_size ≡ pos k
      → HasPreview max_preview_size p
      → IsReadable p.ring
      → Returns (BlockEnd p (min l k)) (read_block max_preview_size p element len quiet_turns)
  unfolding read_block
  read_block_lem len is_l is_k h v =
      rw (wanted, room, not_negative)
        (Returns-bind (QuietRead p element.mem n) (BlockEnd p n)
          (read_into max_preview_size k p element.mem (pos n) quiet_turns) _
          (read_into_quiet max_preview_size k p element.mem n h (omega arith) v)
          (λ out. read_end p element n out (preview_length_bounds max_preview_size p n h).0))
    where
      n : ℕ
      n = min l k

      wanted : (if ltb_ℤ element.max_size len then element.max_size else len) ≡ pos n
      wanted = ground (arith, is_l, is_k)

      room : pos_part element.max_size ≡ k
      room = ap pos_part is_k

      not_negative : ltb_ℤ (pos n) (pos 0) ≡ false
      not_negative = ground arith
