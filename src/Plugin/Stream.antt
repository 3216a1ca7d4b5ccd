-- ===== src/Plugin/Stream.antt =====
-- The read loop as a reader of a stream, with a writer that appends between and during the rounds.
use p2pxineplugin.Base.{
  ℕ, ◌+◌, ◌≤◌, ◌<◌, ◌≡◌, refl, sym, ap, ap₂, ◌∙◌, List, [], ◌++◌, append_assoc, append-nil, drop,
  drop-append, arith, tabulate_ext, tabulate-add,
}
use p2pxineplugin.Ring.{buffer_size, Ring, consume, copy}
use p2pxineplugin.Ring.Contents.{
  block, contents, IsReadable, consume-IsReadable, contents-consume, length-contents,
}
use p2pxineplugin.Plugin.{Turn, Progress, deliver_round}

-- What another thread does to a ring that the reader can read: it appends bytes.
pub record Extends (r s : Ring) : Type 0 where
  pub readable : IsReadable s
  pub added : List ℕ
  pub appended : contents s ≡ contents r ++ added

-- The bytes that `s` holds behind as many as `r` holds.
abbrev pub behind : Ring → Ring → List ℕ
behind r s = drop r.count (contents s)

behind_of : (r s : Ring) (l : List ℕ) → contents s ≡ contents r ++ l → l ≡ behind r s
behind_of r s l e = sym (ap₂ drop (sym (length-contents r)) e ∙ drop-append (contents r) l)

pub behind_refl : (r : Ring) → behind r r ≡ []
behind_refl r = sym (behind_of r r [] (sym (append-nil (contents r))))

-- After appending they are what was appended.
pub added-behind : {r s : Ring} (x : Extends r s) → x.added ≡ behind r s
added-behind {r} {s} x = behind_of r s x.added x.appended

pub behind_trans :
    {r s t : Ring} → Extends r s → Extends s t → behind r t ≡ behind r s ++ behind s t
behind_trans {r} {s} {t} a b =
    sym (
      behind_of r t (a.added ++ b.added) (
        b.appended ∙ ap (λ l. l ++ b.added) a.appended ∙ append_assoc (contents r) a.added b.added))
    ∙ ap₂ ◌++◌ (added-behind a) (added-behind b)

abbrev pub IsWriter : (Ring → Ring) → Type 0
IsWriter f = (r : Ring) → IsReadable r → Extends r (f r)

pub record IsWriterTurn (t : Turn) : Type 0 where
  pub first : IsWriter t.before
  pub second : IsWriter t.waiting

pub Extends-refl : {r : Ring} → IsReadable r → Extends r r
Extends-refl {r} v = record { readable = v; added = []; appended = sym (append-nil (contents r)) }

pub Extends-trans : {r s t : Ring} → Extends r s → Extends s t → Extends r t
Extends-trans {r} a b = record {
  readable = b.readable;
  added = a.added ++ b.added;
  appended =
      b.appended ∙ ap (λ l. l ++ b.added) a.appended ∙ append_assoc (contents r) a.added b.added;
}

-- What has happened from `q` to `q'`: `moved` bytes have gone behind `at` in the caller's memory,
-- and with what the ring still holds they are what it held and `added`.
pub record Streamed (moved : ℕ) (added : List ℕ) (q q' : Progress) : Type 0 where
  pub readable : IsReadable q'.ring
  pub at_moved : q'.at ≡ q.at + moved
  pub copied_moved : q'.copied ≡ q.copied + moved
  pub same_room : q'.room ≡ q.room
  pub kept : (i : ℕ) → i < q.at → q'.buf i ≡ q.buf i
  pub beyond : (i : ℕ) → q.at + moved ≤ i → q'.buf i ≡ q.buf i
  pub stream : block q'.buf q.at moved ++ contents q'.ring ≡ contents q.ring ++ added

pub Streamed-none :
    {q q' : Progress} (x : Extends q.ring q'.ring)
    → q'.at ≡ q.at
    → q'.copied ≡ q.copied
    → q'.buf ≡ q.buf
    → q'.room ≡ q.room
    → Streamed 0 x.added q q'
Streamed-none x ea ec eb er = record {
  readable = x.readable;
  at_moved = omega arith;
  copied_moved = omega arith;
  same_room = er;
  kept = λ i lt. ap (λ m. m i) eb;
  beyond = λ i le. ap (λ m. m i) eb;
  stream = x.appended;
}

-- A round that copies `n` bytes which lie in a row.
pub deliver_round-Streamed :
    (n : ℕ) (q : Progress) {r : Ring}
    → (x : Extends q.ring r) → n ≤ r.count
    → r.get + n ≤ buffer_size
    → Streamed n x.added q (deliver_round r n q)
unfolding deliver_round
deliver_round-Streamed n q {r} x avail fits = record {
  readable = consume-IsReadable n x.readable;
  at_moved = refl;
  copied_moved = refl;
  same_room = refl;
  kept = λ i lt. ground arith;
  beyond = λ i le. ground arith;
  stream =
      ap (λ l. l ++ contents (consume r n)) fresh
      ∙ sym (contents-consume n x.readable avail fits)
      ∙ x.appended;
}
  where
    fresh : block (copy q.buf q.at r.buffer r.get n) q.at n ≡ block r.buffer r.get n
    fresh =
        tabulate_ext n (λ k. copy q.buf q.at r.buffer r.get n (q.at + k))
          (λ k. r.buffer (r.get + k)) (λ k lt. ground arith)

pub Streamed-trans :
    (m n : ℕ) {first second : List ℕ} {q q' q'' : Progress}
    → Streamed m first q q'
    → Streamed n second q' q''
    → Streamed (m + n) (first ++ second) q q''
Streamed-trans m n {first} {second} {q} {q'} {q''} a b = record {
  readable = b.readable;
  at_moved = omega (arith, a.at_moved, b.at_moved);
  copied_moved = omega (arith, a.copied_moved, b.copied_moved);
  same_room = b.same_room ∙ a.same_room;
  kept = λ i lt. b.kept i (omega (arith, a.at_moved)) ∙ a.kept i lt;
  beyond = λ i le. b.beyond i (omega (arith, a.at_moved)) ∙ a.beyond i (omega arith);
  stream =
      ap (λ l. l ++ contents q''.ring) split
      ∙ append_assoc (block q'.buf q.at m) (block q''.buf q'.at n) (contents q''.ring)
      ∙ ap (◌++◌ (block q'.buf q.at m)) b.stream
      ∙ sym (append_assoc (block q'.buf q.at m) (contents q'.ring) second)
      ∙ ap (λ l. l ++ second) a.stream
      ∙ append_assoc (contents q.ring) first second;
}
  where
    split : block q''.buf q.at (m + n) ≡ block q'.buf q.at m ++ block q''.buf q'.at n
    split =
        tabulate-add m n (λ k. q''.buf (q.at + k))
        ∙ ap₂ ◌++◌
            (tabulate_ext m (λ k. q''.buf (q.at + k)) (λ k. q'.buf (q.at + k))
              (λ k lt. b.kept (q.at + k) (omega (arith, a.at_moved))))
            (tabulate_ext n (λ k. q''.buf (q.at + (m + k))) (λ k. q''.buf (q'.at + k))
              (λ k lt. ap q''.buf (omega (arith, a.at_moved))))
