-- ===== src/Plugin/Preview.antt =====
-- The preview and the block reads while the writer is silent.
use p2pxineplugin.Base.{
  ℕ, ◌+◌, ◌≤◌, ◌≡◌, refl, ap, ap₂, sym, ◌∙◌, subst, tabulate_ext, ==_iff, ltb_ℤ, true, false, List,
  ◌++◌, arith, min, ltb, ℤ, pos, Returns-bind, Returns-mono, if◌then◌else◌, Returns,
}
use p2pxineplugin.Ring.{Memory, copy}
use p2pxineplugin.Ring.Contents.{block, contents, IsReadable}
use p2pxineplugin.Plugin.{Plugin, Turn, Reply, preview_length, read}
use p2pxineplugin.Plugin.QuietRead.{QuietRead, quiet_turns, read_quiet, from_ring}
use p2pxineplugin.Plugin.Calls.{OptionalReply, load_preview, hand_out, get_optional_data}

-- What the first request for the preview leaves in a plugin that has read nothing yet.
pub record Loaded (max_preview_size : ℕ) (p p' : Plugin) : Type 0 where
  pub readable : IsReadable p'.ring
  pub size : p'.preview_size ≡ pos (min max_preview_size p.ring.count)
  pub taken :
      block p'.preview 0 (min max_preview_size p.ring.count) ++ contents p'.ring ≡ contents p.ring
  pub done : p'.preview_read_done ≡ true
  pub position : p'.curpos ≡ (if ltb p.ring.count max_preview_size then 0 else max_preview_size)

no_preview : (p : Plugin) (nlen : ℕ) → p.preview_size ≡ pos 0 → preview_length p nlen ≡ 0
unfolding preview_length
no_preview p nlen empty = ground arith

load_preview-Loaded :
    (max_preview_size : ℕ) (p : Plugin)
    → p.preview_read_done ≡ false
    → p.preview_size ≡ pos 0
    → p.curpos ≡ 0
    → IsReadable p.ring
    → Returns (Loaded max_preview_size p) (load_preview max_preview_size p quiet_turns)
unfolding load_preview
load_preview-Loaded max_preview_size p fresh empty at_start v = simp fresh (
    Returns-bind (QuietRead p p.preview max_preview_size) (Loaded max_preview_size p)
      (read max_preview_size p p.preview (pos max_preview_size) quiet_turns) _
      (read_quiet max_preview_size p p.preview max_preview_size (ground arith) v) loaded)
  where
    whole : from_ring p max_preview_size ≡ min max_preview_size p.ring.count
    whole = omega (arith, no_preview p max_preview_size empty)

    loaded :
        (out : Reply)
        → QuietRead p p.preview max_preview_size out
        → Loaded max_preview_size p (record out.plugin {
          preview = out.buf;
          preview_size = if ltb_ℤ out.result (pos 0) then pos 0 else out.result;
          preview_read_done = true;
        })
    loaded out r = record {
      readable = r.readable;
      size = ground (arith, r.result, whole, no_preview p max_preview_size empty);
      taken = rw whole at r.taken;
      done = refl;
      position = ground (arith, r.position, no_preview p max_preview_size empty);
    }

-- The preview of `n` bytes that a plugin holds goes to the caller.
abbrev pub HandedOut : Plugin → ℕ → OptionalReply → Type 0
HandedOut p n out =
    (out.plugin ≡ p) × (out.result ≡ pos n) × (block out.memory 0 n ≡ block p.preview 0 n)

hand_out_lem :
    (max_preview_size : ℕ) (p : Plugin) (memory : Memory) (n : ℕ)
    → p.preview_size ≡ pos n
    → n ≤ max_preview_size
    → Returns (HandedOut p n) (hand_out max_preview_size p memory)
unfolding hand_out
hand_out_lem max_preview_size p memory n size fits = rw (size, neg, small) (refl, refl, same)
  where
    neg : ltb_ℤ (pos n) (pos 0) ≡ false
    neg = ground arith

    small : ltb_ℤ (pos max_preview_size) (pos n) ≡ false
    small = ground arith

    same : block (copy memory 0 p.preview 0 n) 0 n ≡ block p.preview 0 n
    same =
        tabulate_ext n (λ k. copy memory 0 p.preview 0 n (0 + k)) (λ k. p.preview (0 + k))
          (λ k lt. ground arith)

pub record FirstPreview (max_preview_size : ℕ) (p : Plugin) (out : OptionalReply) : Type 0 where
  pub loaded : Loaded max_preview_size p out.plugin
  pub result : out.result ≡ pos (min max_preview_size p.ring.count)
  pub taken :
      block out.memory 0 (min max_preview_size p.ring.count) ++ contents out.plugin.ring
      ≡ contents p.ring

module _ (max_preview_size data_preview : ℕ) (unsupported : ℤ) (p : Plugin) (memory : Memory) where
  -- The first request for the preview of a plugin that has read nothing, with a readable ring
  -- and a silent writer, returns the bytes at the front of the ring, at most MAX_PREVIEW_SIZE,
  -- to the caller; they are taken off the ring and kept as the preview with their number, the
  -- attempt is marked as done, and `curpos` is MAX_PREVIEW_SIZE if there were that many and 0
  -- otherwise.
  pub first_preview :
      p.preview_read_done ≡ false
      → p.preview_size ≡ pos 0
      → p.curpos ≡ 0
      → IsReadable p.ring
      → Returns (FirstPreview max_preview_size p) (
          get_optional_data max_preview_size data_preview unsupported p memory data_preview
            quiet_turns)
  unfolding get_optional_data
  first_preview fresh empty start v = rw ((==_iff data_preview data_preview).1 refl) (
      Returns-bind (Loaded max_preview_size p) (FirstPreview max_preview_size p)
        (load_preview max_preview_size p quiet_turns) _
        (load_preview-Loaded max_preview_size p fresh empty start v) then_out)
    where
      then_out :
          (p' : Plugin)
          → Loaded max_preview_size p p'
          → Returns (FirstPreview max_preview_size p) (hand_out max_preview_size p' memory)
      then_out p' l =
          Returns-mono (HandedOut p' (min max_preview_size p.ring.count))
            (FirstPreview max_preview_size p) (hand_out max_preview_size p' memory)
            (hand_out_lem max_preview_size p' memory (min max_preview_size p.ring.count) l.size
              (omega arith))
            λ out h. record {
              loaded = subst (Loaded max_preview_size p) (sym h.0) l;
              result = h.1;
              taken = ap₂ ◌++◌ h.2 (ap (λ (x : Plugin). contents x.ring) h.0) ∙ l.taken;
            }

  -- A request for the preview of a plugin that holds one of `n` bytes, at most
  -- MAX_PREVIEW_SIZE, returns these bytes and their number and changes nothing, whatever the
  -- writer does.
  pub second_preview :
      (n : ℕ) (ts : List Turn)
      → p.preview_read_done ≡ true
      → p.preview_size ≡ pos n
      → n ≤ max_preview_size
      → Returns
          (HandedOut p n)
          (get_optional_data max_preview_size data_preview unsupported p memory data_preview ts)
  unfolding get_optional_data load_preview
  second_preview n ts done size fits =
      simp ((==_iff data_preview data_preview).1 refl, done)
        (hand_out_lem max_preview_size p memory n size fits)
