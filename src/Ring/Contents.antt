-- ===== src/Ring/Contents.antt =====
-- The ring seen as a queue: the bytes that the reader is still to get, oldest first.
use p2pxineplugin.Base.{
  ℕ, ◌+◌, ◌-◌, ◌%◌, ◌≤◌, ◌<◌, ◌≡◌, ◌∙◌, ap, ap₂, List, ◌++◌, arith, length, tabulate, tabulate_ext,
  tabulate-add, length-tabulate,
}
use p2pxineplugin.Ring.{buffer_size, Memory, Ring, consume}

-- `n` bytes of a block in a row.
abbrev pub block : Memory → ℕ → ℕ → List ℕ
block m start n = tabulate n (λ k. m (start + k))

abbrev pub contents : Ring → List ℕ
contents r = tabulate r.count (λ k. r.buffer ((r.get + k) % buffer_size))

-- What the reader relies on.
pub record IsReadable (r : Ring) : Type 0 where
  pub get_in : r.get < buffer_size
  pub count_in : r.count ≤ buffer_size

-- The put pointer is where the reader will look for the next byte.
pub record IsAligned (r : Ring) : Type 0 where
  pub readable : IsReadable r
  pub put_in : r.put ≤ buffer_size
  pub aligned : r.put % buffer_size ≡ (r.get + r.count) % buffer_size

pub length-contents : (r : Ring) → length (contents r) ≡ r.count
length-contents r = length-tabulate r.count _

pub consume-IsReadable : {r : Ring} (n : ℕ) → IsReadable r → IsReadable (consume r n)
unfolding consume
consume-IsReadable n v = ground arith

pub count-consume : (r : Ring) (n : ℕ) → (consume r n).count ≡ r.count - n
unfolding consume
count-consume r n = omega arith

-- Taking `n` bytes that lie in a row takes them off the front of the queue.
pub contents-consume :
    {r : Ring} (n : ℕ)
    → IsReadable r
    → n ≤ r.count
    → r.get + n ≤ buffer_size
    → contents r ≡ block r.buffer r.get n ++ contents (consume r n)
unfolding consume
contents-consume {r} n v le fits =
    ap (λ c. tabulate c at) split ∙ tabulate-add n (r.count - n) at ∙ ap₂ ◌++◌ front rest
  where
    at : ℕ → ℕ
    at k = r.buffer ((r.get + k) % buffer_size)

    split : r.count ≡ n + (r.count - n)
    split = omega arith

    front : tabulate n at ≡ block r.buffer r.get n
    front = tabulate_ext n at (λ k. r.buffer (r.get + k)) (λ k lt. ap r.buffer (omega arith))

    rest : tabulate (r.count - n) (λ k. at (n + k)) ≡ contents (consume r n)
    rest =
        tabulate_ext (r.count - n) (λ k. at (n + k))
          (λ k. r.buffer (((consume r n).get + k) % buffer_size))
          (λ k lt. ap r.buffer (ground arith))
