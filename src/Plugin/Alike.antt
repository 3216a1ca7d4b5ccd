-- ===== src/Plugin/Alike.antt =====
-- A read while the writer is silent depends on the ring through its view only.
use p2pxineplugin.Base.{
  ℕ, ◌+◌, ◌-◌, ◌≡◌, refl, sym, ap, ◌∙◌, subst, List, [], ◌∷◌, ◌++◌, arith, ltb, if◌then◌else◌, pos,
  ok, Returns-value, length, length-tabulate,
}
use p2pxineplugin.Ring.{Memory, Ring}
use p2pxineplugin.Ring.Contents.{block, contents, IsReadable, length-contents}
use p2pxineplugin.Ring.View.{view, view-contents, view_of_contents}
use p2pxineplugin.Plugin.{Plugin, Reply, preview_length, read}
use p2pxineplugin.Plugin.Read.{HasPreview}
use p2pxineplugin.Plugin.QuietRead.{quiet_turns, from_ring, QuietRead, read_quiet}

-- The two parts of lists that are split at the same place.
append_inj :
    (xs ys us vs : List ℕ) → xs ++ us ≡ ys ++ vs → length xs ≡ length ys → (xs ≡ ys) × (us ≡ vs)
append_inj [] [] us vs e l = (refl, e)
append_inj [] (y ∷ ys) us vs e l = absurd (omega (arith, l))
append_inj (x ∷ xs) [] us vs e l = absurd (omega (arith, l))
append_inj (x ∷ xs) (y ∷ ys) us vs e l =
    let rest : xs ++ us ≡ ys ++ vs = cc in
    let head : x ≡ y = cc in
    let (front, back) = append_inj xs ys us vs rest (omega (arith, l)) in (cc, back)

-- The plugin with another ring.
abbrev pub with_ring : Plugin → Ring → Plugin
with_ring p r = record p { ring = r }

-- What a caller and later reads see of two replies.
pub record Alike (p : Plugin) (nlen : ℕ) (out out' : Reply) : Type 0 where
  pub result : out.result ≡ out'.result
  pub bytes : block out.buf 0 (from_ring p nlen) ≡ block out'.buf 0 (from_ring p nlen)
  pub preview_rest :
      block out.buf (from_ring p nlen) (preview_length p nlen - from_ring p nlen)
      ≡ block out'.buf (from_ring p nlen) (preview_length p nlen - from_ring p nlen)
  pub untouched : (i : ℕ) → out.buf (nlen + i) ≡ out'.buf (nlen + i)
  pub position : out.plugin.curpos ≡ out'.plugin.curpos
  pub readable : IsReadable out.plugin.ring
  pub readable' : IsReadable out'.plugin.ring
  pub ring : view out.plugin.ring readable ≡ view out'.plugin.ring readable'

module _ (p : Plugin) (r : Ring) (buf : Memory) (nlen : ℕ)
    (same : contents p.ring ≡ contents r) where
  same_count : p.ring.count ≡ r.count
  same_count = sym (length-contents p.ring) ∙ ap length same ∙ length-contents r

  same_from_ring : from_ring (with_ring p r) nlen ≡ from_ring p nlen
  unfolding preview_length
  same_from_ring = omega (arith, same_count)

  QuietRead-Alike :
      (out out' : Reply)
      → QuietRead p buf nlen out
      → QuietRead (with_ring p r) buf nlen out'
      → Alike p nlen out out'
  unfolding preview_length
  QuietRead-Alike out out' a b =
      let taken =
        subst (λ n. block out'.buf 0 n ++ contents out'.plugin.ring ≡ contents r) same_from_ring
          b.taken in
      let (bytes, rest) =
        append_inj (block out.buf 0 (from_ring p nlen)) (block out'.buf 0 (from_ring p nlen))
          (contents out.plugin.ring) (contents out'.plugin.ring) (a.taken ∙ same ∙ sym taken)
          (length-tabulate (from_ring p nlen) _ ∙ sym (length-tabulate (from_ring p nlen) _)) in
      record {
        result =
            a.result
            ∙ ap (λ n. pos (preview_length p nlen + n)) (sym same_from_ring)
            ∙ sym b.result;
        bytes = bytes;
        preview_rest =
            a.preview_rest
            ∙ sym (
                subst
                  (λ n.
                    block out'.buf n (preview_length p nlen - n)
                    ≡ block p.preview (p.curpos + n) (preview_length p nlen - n))
                  same_from_ring b.preview_rest);
        untouched = λ i. a.untouched i ∙ sym (b.untouched i);
        position =
            a.position
            ∙ ap
                (λ n.
                  if ltb n (nlen - preview_length p nlen)
                  then p.curpos + preview_length p nlen
                  else p.curpos + preview_length p nlen + nlen)
                same_count
            ∙ sym b.position;
        readable = a.readable;
        readable' = b.readable;
        ring = view_of_contents out.plugin.ring out'.plugin.ring a.readable b.readable rest;
      }

-- While the writer is silent, a read by a plugin whose preview lies in its array, and the same
-- read with another ring that the reader sees as the same, both return: with the same result,
-- the same bytes of the ring and of the preview in the caller's memory, the same memory from
-- `nlen` on, the same `curpos`, and rings that the reader sees as the same again.
pub read-Alike :
    (max_preview_size : ℕ) (p : Plugin) (r : Ring) (buf : Memory) (nlen : ℕ) (v : IsReadable p.ring)
    (w : IsReadable r)
    → HasPreview max_preview_size p
    → view p.ring v ≡ view r w
    → (out : Reply) × (out' : Reply) × (read max_preview_size p buf (pos nlen) quiet_turns ≡ ok out)
      × (read max_preview_size (with_ring p r) buf (pos nlen) quiet_turns ≡ ok out')
      × Alike p nlen out out'
read-Alike max_preview_size p r buf nlen v w h same =
    let (out, e, a) =
      Returns-value (QuietRead p buf nlen) _ (read_quiet max_preview_size p buf nlen h v) in
    let (out', e', b) =
      Returns-value (QuietRead (with_ring p r) buf nlen) _
        (read_quiet max_preview_size (with_ring p r) buf nlen h w) in
    (out, out', e, e', QuietRead-Alike p r buf nlen (view-contents p.ring r v w same) out out' a b)
