-- ===== src/Ring/View.antt =====
-- The ring as its reader sees it: two readable rings with the same contents are one view, wherever
-- the bytes stand in the buffer.

use mathlib.Core.List
use mathlib.Core.Quot.{Setoid, Quotient}
use mathlib.Core.Quot.Quotient
use native.Mathlib.Nat.{ℕ_set}
use p2pxineplugin.Base.{
  ℕ, ◌+◌, ◌%◌, ◌≤◌, ◌≡◌, ◌∙◌, refl, sym, ap, List, arith, length, get_or, tabulate_ext,
  tabulate-get_or,
}
use p2pxineplugin.Ring.{buffer_size, Ring, bytes_of}
use p2pxineplugin.Ring.Contents.{contents, IsReadable}

abbrev pub Readable : Type 0
Readable = (r : Ring) × IsReadable r

abbrev pub same_contents : Setoid {0, 0} Readable
same_contents = record {
  r = λ x y. contents x.0 ≡ contents y.0;
  iseqv = record { refl = λ x. refl; symm = λ x y. sym; trans = λ x y z p q. p ∙ q };
}

abbrev pub View : Type 0
View = Quotient same_contents

abbrev pub view : (r : Ring) → IsReadable r → View
view r v = Quotient.mk same_contents (r, v)

pub view-contents :
    (r s : Ring) (v : IsReadable r) (w : IsReadable s)
    → view r v ≡ view s w
    → contents r ≡ contents s
view-contents r s v w = Quotient.exact same_contents (λ a b. List.is_set ℕ_set _ _)

pub view_of_contents :
    (r s : Ring) (v : IsReadable r) (w : IsReadable s)
    → contents r ≡ contents s
    → view r v ≡ view s w
view_of_contents r s v w e = Quotient.sound same_contents {a = (r, v)} {b = (s, w)} e

-- The ring that holds a queue from the start of its buffer on.
abbrev pub laid_out : List ℕ → Ring
laid_out xs = record {
  buffer = bytes_of xs;
  get = 0;
  put = length xs;
  count = length xs;
  max_size = buffer_size;
}

pub laid_out-IsReadable : (xs : List ℕ) → length xs ≤ buffer_size → IsReadable (laid_out xs)
laid_out-IsReadable xs le = record { get_in = omega arith; count_in = le }

pub contents-laid_out : (xs : List ℕ) → length xs ≤ buffer_size → contents (laid_out xs) ≡ xs
contents-laid_out xs le =
    tabulate_ext (length xs) (λ k. get_or xs ((0 + k) % buffer_size) 0) (λ k. get_or xs k 0)
      (λ k lt. ap (λ j. get_or xs j 0) (omega (arith, lt, le)))
    ∙ tabulate-get_or xs 0
