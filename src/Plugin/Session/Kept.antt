-- ===== src/Plugin/Session/Kept.antt =====
-- What a read of any length and a block read keep.
use p2pxineplugin.Base.{
  pos_part, ℕ, ◌+◌, ◌-◌, ◌≤◌, ◌≡◌, ◌∙◌, refl, sym, subst, true, List, arith, All, if◌then◌else◌,
  ltb_ℤ, ◌==ℤ◌, ℤ, pos, negsuc, ◌≤ℤ◌, ok, ◌>>=◌, Safely, Safely-bind, Safely-mono, Safely-if,
}
use p2pxineplugin.Ring.{Memory}
use p2pxineplugin.Ring.Contents.{IsReadable}
use p2pxineplugin.Plugin.{Plugin, Turn, Reply, preview_length, read_into, read_loop, finish_read}
use p2pxineplugin.Plugin.Stream.{IsWriterTurn}
use p2pxineplugin.Plugin.Rounds.{LoopEnd, waits, ends}
use p2pxineplugin.Plugin.Read.{
  HasPreview, preview_length_bounds, start, past_preview, read_lem, loop_lem,
}
use p2pxineplugin.Plugin.Calls.{Block, read_block}

-- The ring is readable, and the preview's size is a length within its array.
pub record IsServing (max_preview_size : ℕ) (p : Plugin) : Type 0 where
  pub readable : IsReadable p.ring
  pub in_array : HasPreview max_preview_size p
  pub not_negative : pos 0 ≤ℤ p.preview_size

-- What no call undoes: the instance serves, the position does not fall, and a preview that is read
-- stays as it is.
pub record Served (max_preview_size : ℕ) (p p' : Plugin) : Type 0 where
  pub serving : IsServing max_preview_size p'
  pub forward : p.curpos ≤ p'.curpos
  pub done : p.preview_read_done ≡ true → p'.preview_read_done ≡ true
  pub preview : p.preview_read_done ≡ true → p'.preview ≡ p.preview
  pub preview_size : p.preview_read_done ≡ true → p'.preview_size ≡ p.preview_size
  pub mrl : p'.mrl ≡ p.mrl

pub same_Served : (max : ℕ) (p : Plugin) → IsServing max p → Served max p p
same_Served max p s = record {
  serving = s;
  forward = omega arith;
  done = λ e. e;
  preview = λ e. refl;
  preview_size = λ e. refl;
  mrl = refl;
}

pub Served-trans : {max : ℕ} {p q r : Plugin} → Served max p q → Served max q r → Served max p r
Served-trans f g = record {
  serving = g.serving;
  forward = omega (arith, f.forward, g.forward);
  done = λ e. g.done (f.done e);
  preview = λ e. g.preview (f.done e) ∙ f.preview e;
  preview_size = λ e. g.preview_size (f.done e) ∙ f.preview_size e;
  mrl = g.mrl ∙ f.mrl;
}

-- A read leaves everything but the ring and the position alone.
pub record ReadKept (p : Plugin) (nlen : ℕ) (out : Reply) : Type 0 where
  pub readable : IsReadable out.plugin.ring
  pub moved : ℕ
  pub result : out.result ≡ pos moved
  pub within : moved ≤ nlen
  pub forward : p.curpos ≤ out.plugin.curpos
  pub kept : out.plugin ≡ record p { ring = out.plugin.ring; curpos = out.plugin.curpos }

module _ (max_preview_size : ℕ) where
  pub read-ReadKept :
      (room : ℕ) (p : Plugin) (buf : Memory) (nlen : ℕ) (ts : List Turn)
      → IsServing max_preview_size p
      → nlen ≤ room
      → All IsWriterTurn ts
      → Safely (ReadKept p nlen) (read_into max_preview_size room p buf (pos nlen) ts)
  unfolding finish_read
  read-ReadKept room p buf nlen ts s fits w =
      subst (Safely (ReadKept p nlen))
        (sym (read_lem max_preview_size room p buf nlen ts s.in_array fits))
        (on_loop (loop_lem max_preview_size room p buf nlen ts s.in_array fits s.readable w))
    where
      le : preview_length p nlen ≤ nlen
      le = (preview_length_bounds max_preview_size p nlen s.in_array).0

      on_loop :
          LoopEnd ts (nlen - preview_length p nlen) (start room p buf nlen)
          → Safely (ReadKept p nlen) (
              read_loop ts (nlen - preview_length p nlen) (start room p buf nlen) >>= λ q.
              ok (finish_read (past_preview p nlen) q))
      on_loop (waits e) = rw e tt
      on_loop (ends moved q within m e full short) = rw e (record {
        readable = m.readable;
        moved = preview_length p nlen + moved;
        result = ground (arith, m.copied_moved);
        within = omega (arith, le, within);
        forward = ground arith;
        kept = refl;
      })

  -- The instance with another ring and position.
  moved_on :
      (p : Plugin) (nlen : ℕ) (out : Reply)
      → IsServing max_preview_size p
      → ReadKept p nlen out
      → Served max_preview_size p out.plugin
  moved_on p nlen out s k = subst (Served max_preview_size p) (sym k.kept) (record {
    serving = record {
      readable = k.readable;
      in_array = s.in_array;
      not_negative = s.not_negative;
    };
    forward = k.forward;
    done = λ e. e;
    preview = λ e. refl;
    preview_size = λ e. refl;
    mrl = refl;
  })

  pub read-Served :
      (room : ℕ) (p : Plugin) (buf : Memory) (nlen : ℤ) (ts : List Turn)
      → IsServing max_preview_size p
      → nlen ≤ℤ pos room
      → All IsWriterTurn ts
      → Safely
          (λ out. Served max_preview_size p out.plugin)
          (read_into max_preview_size room p buf nlen ts)
  unfolding read_into
  read-Served room p buf (negsuc _) ts s fits w = same_Served max_preview_size p s
  read-Served room p buf (pos nlen) ts s fits w =
      Safely-mono (ReadKept p nlen) (λ out. Served max_preview_size p out.plugin)
        (read_into max_preview_size room p buf (pos nlen) ts)
        (read-ReadKept room p buf nlen ts s (ground arith) w) (λ out k. moved_on p nlen out s k)

  -- The shortened length is at most the element's size.
  shortened :
      (max_size len : ℤ) → (if ltb_ℤ max_size len then max_size else len) ≤ℤ pos (pos_part max_size)
  shortened max_size len = ground arith

  pub read_block-Served :
      (p : Plugin) (element : Block) (len : ℤ) (ts : List Turn)
      → IsServing max_preview_size p
      → All IsWriterTurn ts
      → Safely
          (λ out. Served max_preview_size p out.plugin)
          (read_block max_preview_size p element len ts)
  unfolding read_block
  read_block-Served p element len ts s w =
      let wanted = if ltb_ℤ element.max_size len then element.max_size else len in
      let room = pos_part element.max_size in
      Safely-if (λ out. Served max_preview_size p out.plugin) (ltb_ℤ wanted (pos 0)) _ _
        (λ negative. same_Served max_preview_size p s)
        (λ asked.
          Safely-bind (λ out. Served max_preview_size p out.plugin)
            (λ out. Served max_preview_size p out.plugin)
            (read_into max_preview_size room p element.mem wanted ts) _
            (read-Served room p element.mem wanted ts s (shortened element.max_size len) w)
            (λ out f.
              Safely-if (λ reply. Served max_preview_size p reply.plugin) (out.result ==ℤ wanted) _
                _ (λ all. f) (λ less. f)))
