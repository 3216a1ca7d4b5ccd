-- ===== src/Ring/Shifted.antt =====
-- Two payloads, one after the other, that fit before the end of the buffer: the second one stands
-- behind the place where the reader looks for it.
use p2pxineplugin.Base.{
  ℕ, ◌+◌, ◌-◌, ◌%◌, ◌≤◌, ◌<◌, ◌≡◌, ◌∙◌, sym, ap, ap₂, List, ◌++◌, arith, length, get_or, take,
  tabulate, tabulate_ext, tabulate-add, take-tabulate, ltb, if◌then◌else◌,
}
use p2pxineplugin.Ring.{buffer_size, Ring, put_straight}
use p2pxineplugin.Ring.Contents.{block, contents, IsAligned}
use p2pxineplugin.Ring.Writing.{payload, payload-tabulate}

module _ (r : Ring) (first second : List ℕ) (size1 offset1 size2 offset2 : ℕ) (v : IsAligned r)
    (le1 : offset1 ≤ size1) (le2 : offset2 ≤ size2) (room : r.count + size1 + size2 ≤ buffer_size)
    (straight : r.put + size1 + size2 ≤ buffer_size) where
  abbrev pub after_first : Ring
  after_first = put_straight r first size1 offset1

  abbrev pub after_second : Ring
  after_second = put_straight after_first second size2 offset2

  -- The bytes in front of the second payload are as they were.
  kept-byte :
      (k : ℕ)
      → k < r.count + (size1 - offset1)
      → after_second.buffer ((r.get + k) % buffer_size)
        ≡ after_first.buffer ((r.get + k) % buffer_size)
  unfolding put_straight
  kept-byte k lt = ground arith

  -- What the reader finds in the place of the second payload.
  found_byte : ℕ → ℕ
  found_byte j =
      if ltb j offset1
      then r.buffer (r.put + (size1 - offset1) + j)
      else get_or second (offset2 + (j - offset1)) 0

  shifted-byte :
      (j : ℕ)
      → j < size2 - offset2
      → after_second.buffer ((r.get + (r.count + (size1 - offset1) + j)) % buffer_size)
        ≡ found_byte j
  unfolding put_straight found_byte
  shifted-byte j lt = ground arith

  gap : List ℕ
  gap = block r.buffer (r.put + (size1 - offset1)) offset1

  gap_then_payload :
      size2 ≤ length second
      → gap ++ payload second size2 offset2 ≡ tabulate (offset1 + (size2 - offset2)) found_byte
  unfolding gap found_byte
  gap_then_payload fits =
      ap (λ l. gap ++ l) (payload-tabulate second size2 offset2 fits)
      ∙ ap₂ ◌++◌
          (tabulate_ext offset1 (λ j. r.buffer (r.put + (size1 - offset1) + j)) found_byte
            (λ j lt. ground arith))
          (tabulate_ext (size2 - offset2) (λ j. get_or second (offset2 + j) 0)
            (λ j. found_byte (offset1 + j)) (λ j lt. ground arith))
      ∙ sym (tabulate-add offset1 (size2 - offset2) found_byte)

  -- So the reader gets what stood behind the first payload, and then the front of the second one.
  pub contents-after_second :
      size2 ≤ length second
      → contents after_second
        ≡ contents after_first
          ++ take
              (size2 - offset2)
              (block r.buffer (r.put + (size1 - offset1)) offset1 ++ payload second size2 offset2)
  unfolding gap put_straight
  contents-after_second fits =
      tabulate-add (r.count + (size1 - offset1)) (size2 - offset2)
        (λ k. after_second.buffer ((r.get + k) % buffer_size))
      ∙ ap₂ ◌++◌ (tabulate_ext (r.count + (size1 - offset1)) _ _ (λ k lt. kept-byte k lt)) (
          tabulate_ext (size2 - offset2) _ found_byte (λ j lt. shifted-byte j lt)
          ∙ sym (take-tabulate (size2 - offset2) offset1 found_byte)
          ∙ ap (λ n. take (size2 - offset2) (tabulate n found_byte)) swap
          ∙ ap (take (size2 - offset2)) (sym (gap_then_payload fits)))
    where
      swap : size2 - offset2 + offset1 ≡ offset1 + (size2 - offset2)
      swap = omega arith
