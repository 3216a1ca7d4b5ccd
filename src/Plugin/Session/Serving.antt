-- ===== src/Plugin/Session/Serving.antt =====
-- What holds of an instance whatever xine calls.
use p2pxineplugin.Base.{
  pos_part, ◌≤ℤ◌, ℕ, ◌≡◌, refl, ap, false, List, [], ◌∷◌, arith, All, ◌==◌, ltb_ℤ, ℤ, pos, Safely,
  Safely-bind, Safely-mono, Safely-if,
}
use p2pxineplugin.Ring.{Memory}
use p2pxineplugin.Plugin.{Plugin, Turn, read, read_into}
use p2pxineplugin.Plugin.Stream.{IsWriterTurn}
use p2pxineplugin.Plugin.Calls.{read_block, load_preview, hand_out, get_optional_data}
use p2pxineplugin.Plugin.Session.{
  Call, read_call, read_block_call, optional_data_call, constant_call, turns_of, call, calls,
}
use p2pxineplugin.Plugin.Session.Kept.{
  IsServing, Served, same_Served, Served-trans, ReadKept, read-ReadKept, read-Served,
  read_block-Served,
}

as_asked : (nlen : ℤ) → nlen ≤ℤ pos (pos_part nlen)
as_asked nlen = ground arith

module _ (max_preview_size : ℕ) where
  load_preview-Served :
      (p : Plugin) (ts : List Turn)
      → IsServing max_preview_size p
      → All IsWriterTurn ts
      → Safely (Served max_preview_size p) (load_preview max_preview_size p ts)
  unfolding load_preview
  load_preview-Served p ts s w =
      Safely-if (Served max_preview_size p) p.preview_read_done _ _
        (λ done. same_Served max_preview_size p s)
        (λ fresh.
          Safely-bind (ReadKept p max_preview_size) (Served max_preview_size p)
            (read_into max_preview_size max_preview_size p p.preview (pos max_preview_size) ts) _
            (read-ReadKept max_preview_size max_preview_size p p.preview max_preview_size ts s
              (omega arith) w)
            (λ out k. record {
              serving = record {
                readable = k.readable;
                in_array = ground (arith, k.result, k.within);
                not_negative = ground (arith, k.result);
              };
              forward = k.forward;
              done = λ e. refl;
              preview = λ e. cc;
              preview_size = λ e. cc;
              mrl = ap (λ (x : Plugin). x.mrl) k.kept;
            }))

  hand_out-Served :
      (p : Plugin) (memory : Memory)
      → IsServing max_preview_size p
      → Safely (λ out. Served max_preview_size p out.plugin) (hand_out max_preview_size p memory)
  unfolding hand_out
  hand_out-Served p memory s =
      let negative : ltb_ℤ p.preview_size (pos 0) ≡ false = ground (arith, s.not_negative) in
      let above : ltb_ℤ (pos max_preview_size) p.preview_size ≡ false =
        ground (arith, s.in_array) in
      rw (negative, above) (same_Served max_preview_size p s)

  module _ (data_preview : ℕ) (unsupported : ℤ) where
    get_optional_data-Served :
        (p : Plugin) (memory : Memory) (data_type : ℕ) (ts : List Turn)
        → IsServing max_preview_size p
        → All IsWriterTurn ts
        → Safely
            (λ out. Served max_preview_size p out.plugin)
            (get_optional_data max_preview_size data_preview unsupported p memory data_type ts)
    unfolding get_optional_data
    get_optional_data-Served p memory data_type ts s w =
        Safely-if (λ out. Served max_preview_size p out.plugin) (data_type == data_preview) _ _
          (λ yes.
            Safely-bind (Served max_preview_size p) (λ out. Served max_preview_size p out.plugin)
              (load_preview max_preview_size p ts) _ (load_preview-Served p ts s w)
              (λ q f.
                Safely-mono (λ out. Served max_preview_size q out.plugin)
                  (λ out. Served max_preview_size p out.plugin) (hand_out max_preview_size q memory)
                  (hand_out-Served q memory f.serving) (λ out g. Served-trans f g)))
          (λ no. same_Served max_preview_size p s)

    call-Served :
        (c : Call) (p : Plugin)
        → IsServing max_preview_size p
        → All IsWriterTurn (turns_of c)
        → Safely (Served max_preview_size p) (call max_preview_size data_preview unsupported c p)
    unfolding call
    call-Served (read_call buf nlen ts) p s w =
        Safely-bind (λ out. Served max_preview_size p out.plugin) (Served max_preview_size p)
          (read max_preview_size p buf nlen ts) _
          (read-Served max_preview_size (pos_part nlen) p buf nlen ts s (as_asked nlen) w)
          (λ out f. f)
    call-Served (read_block_call element len ts) p s w =
        Safely-bind (λ out. Served max_preview_size p out.plugin) (Served max_preview_size p)
          (read_block max_preview_size p element len ts) _
          (read_block-Served max_preview_size p element len ts s w) (λ out f. f)
    call-Served (optional_data_call memory data_type ts) p s w =
        Safely-bind (λ out. Served max_preview_size p out.plugin) (Served max_preview_size p)
          (get_optional_data max_preview_size data_preview unsupported p memory data_type ts) _
          (get_optional_data-Served p memory data_type ts s w) (λ out f. f)
    call-Served constant_call p s w = same_Served max_preview_size p s

    -- Whatever calls xine makes on an instance and in whatever order, while the writer appends
    -- anything to the ring, if the ring is readable and the preview's size is a length within
    -- its array then the calls never fault, so that no copy leaves the caller's block of the
    -- length asked for, the element of a block read, or the array of the preview: they wait
    -- past the end of a schedule, or at their end this holds again, `curpos` has not fallen, a
    -- preview that had been read is as it was, and so is the MRL.
    pub calls-Served :
        (cs : List Call) (p : Plugin)
        → IsServing max_preview_size p
        → All (λ c. All IsWriterTurn (turns_of c)) cs
        → Safely (Served max_preview_size p) (calls max_preview_size data_preview unsupported cs p)
    unfolding calls
    calls-Served [] p s w = same_Served max_preview_size p s
    calls-Served (c ∷ cs) p s w =
        Safely-bind (Served max_preview_size p) (Served max_preview_size p)
          (call max_preview_size data_preview unsupported c p) _ (call-Served c p s w.0)
          (λ q f.
            Safely-mono (Served max_preview_size q) (Served max_preview_size p)
              (calls max_preview_size data_preview unsupported cs q)
              (calls-Served cs q f.serving w.1) (λ r g. Served-trans f g))
