-- ===== src/Ring/Writing.antt =====
-- What the copy of a payload does to the queue, to the put pointer, and where it faults.
use p2pxineplugin.Base.{
  ℕ, refl, ◌+◌, ◌-◌, ◌%◌, ◌≤◌, ◌<◌, ◌≡◌, ◌≢◌, ◌∙◌, sym, ap, ap₂, List, ◌++◌, arith, length, get_or,
  take, drop, tabulate, tabulate_ext, tabulate-add, tabulate-get_or, length-take, length-drop,
  get_or-drop, get_or-take, dec_le, ltb, if◌then◌else◌, Outcome, ok,
}
use p2pxineplugin.Ring.{buffer_size, Ring, put_straight, put_wrapped, store_payload}
use p2pxineplugin.Ring.Contents.{contents, IsReadable, IsAligned}

-- The bytes of `data[offset .. size)`.
abbrev pub payload : List ℕ → ℕ → ℕ → List ℕ
payload bytes size offset = drop offset (take size bytes)

pub payload-tabulate :
    (bytes : List ℕ) (size offset : ℕ)
    → size ≤ length bytes
    → payload bytes size offset ≡ tabulate (size - offset) (λ k. get_or bytes (offset + k) 0)
payload-tabulate bytes size offset le =
    sym (tabulate-get_or (payload bytes size offset) 0)
    ∙ ap (λ n. tabulate n (λ k. get_or (payload bytes size offset) k 0)) count
    ∙ tabulate_ext (size - offset) (λ k. get_or (payload bytes size offset) k 0)
        (λ k. get_or bytes (offset + k) 0)
        (λ k lt.
          get_or-drop offset (take size bytes) k 0
          ∙ get_or-take size bytes (offset + k) 0 (omega arith))
  where
    count : length (payload bytes size offset) ≡ size - offset
    count = omega (arith, length-drop offset (take size bytes), length-take size bytes)

module _ {r : Ring} (bytes : List ℕ) (size offset : ℕ) (v : IsAligned r) (le : offset ≤ size)
    (room : r.count + (size - offset) ≤ buffer_size) where
  -- The byte at the `k`-th place of the queue after a copy.
  abbrev expected : ℕ → ℕ
  expected k =
      if ltb k r.count
      then r.buffer ((r.get + k) % buffer_size)
      else get_or bytes (offset + (k - r.count)) 0

  straight-byte :
      r.put + (size - offset) ≤ buffer_size
      → (k : ℕ) → k < r.count + (size - offset)
      → (put_straight r bytes size offset).buffer ((r.get + k) % buffer_size) ≡ expected k
  unfolding put_straight
  straight-byte fits k lt = ground arith

  wrapped-byte :
      buffer_size < r.put + (size - offset)
      → (k : ℕ) → k < r.count + (size - offset)
      → (put_wrapped r bytes size offset).buffer ((r.get + k) % buffer_size) ≡ expected k
  unfolding put_wrapped
  wrapped-byte over k lt = ground arith

  -- A ring that holds the old bytes and then the payload.
  contents_of_bytes :
      (s : Ring)
      → size ≤ length bytes
      → s.get ≡ r.get
      → s.count ≡ r.count + (size - offset)
      → ((k : ℕ)
          → k < r.count + (size - offset)
          → s.buffer ((r.get + k) % buffer_size) ≡ expected k)
      → contents s ≡ contents r ++ payload bytes size offset
  contents_of_bytes s fits eg ec h =
      ap (λ n. tabulate n at) ec
      ∙ tabulate-add r.count (size - offset) at
      ∙ ap₂ ◌++◌ old (new ∙ sym (payload-tabulate bytes size offset fits))
    where
      at : ℕ → ℕ
      at k = s.buffer ((s.get + k) % buffer_size)

      at-eq : (k : ℕ) → k < r.count + (size - offset) → at k ≡ expected k
      at-eq k lt = ap (λ g. s.buffer ((g + k) % buffer_size)) eg ∙ h k lt

      old : tabulate r.count at ≡ contents r
      old =
          tabulate_ext r.count at (λ k. r.buffer ((r.get + k) % buffer_size))
            (λ k lt. ground (arith, at-eq k (omega arith)))

      new :
          tabulate (size - offset) (λ k. at (r.count + k))
          ≡ tabulate (size - offset) (λ k. get_or bytes (offset + k) 0)
      new =
          tabulate_ext (size - offset) (λ k. at (r.count + k)) (λ k. get_or bytes (offset + k) 0)
            (λ k lt. ground (arith, at-eq (r.count + k) (omega arith)))

  abbrev pub Stored : Outcome Ring → Type 0
  Stored o =
      (s : Ring) × (o ≡ ok s)
      × (contents s ≡ contents r ++ payload bytes size offset)
      × (s.count ≡ r.count + (size - offset))
      × (s.get ≡ r.get)
      × IsReadable s

  -- Storing `data[offset .. size)`, with `offset` at most `size` and `size` within the data,
  -- in an aligned ring in which the payload fits returns on both branches a readable ring
  -- whose contents are the old ones and then the payload, with the count increased by its
  -- length and the get pointer unchanged.
  pub store_payload-appends : size ≤ length bytes → Stored (store_payload r bytes size offset)
  unfolding store_payload
  store_payload-appends fits = elim (dec_le (r.put + (size - offset)) buffer_size) [
    | yes straight ↦ (
      put_straight r bytes size offset,
      ground arith,
      unfold put_straight in
          contents_of_bytes (put_straight r bytes size offset) fits refl refl
            (straight-byte straight),
      unfold put_straight in refl,
      unfold put_straight in refl,
      unfold put_straight in omega arith,
    )
    | no over ↦ (
      put_wrapped r bytes size offset,
      ground arith,
      unfold put_wrapped in
          contents_of_bytes (put_wrapped r bytes size offset) fits refl refl
            (wrapped-byte (omega arith)),
      unfold put_wrapped in refl,
      unfold put_wrapped in refl,
      unfold put_wrapped in omega arith,
    )
  ]

  -- A payload that goes round the end leaves the put pointer aligned.
  pub store_payload_wrapped-IsAligned :
      {s : Ring}
      → size ≤ length bytes
      → buffer_size < r.put + (size - offset)
      → store_payload r bytes size offset ≡ ok s
      → IsAligned s
  unfolding store_payload put_wrapped
  store_payload_wrapped-IsAligned fits over e = ground arith

  -- A payload that fits before the end leaves it `offset` bytes too far.
  pub store_payload_straight-put :
      {s : Ring}
      → r.put + (size - offset) ≤ buffer_size
      → store_payload r bytes size offset ≡ ok s
      → s.put ≡ r.put + (size - offset) + offset
  unfolding store_payload put_straight
  store_payload_straight-put straight e = ground arith

  -- So the ring is then aligned for a payload with no header only.
  pub store_payload_straight-not-IsAligned :
      {s : Ring}
      → r.put + (size - offset) ≤ buffer_size
      → 0 < offset
      → offset < buffer_size
      → store_payload r bytes size offset ≡ ok s
      → ¬ IsAligned s
  unfolding store_payload put_straight
  store_payload_straight-not-IsAligned straight some_header small e a = ground arith

-- With the put pointer behind the end every payload faults, whatever has been read since.
pub store_payload_overrun :
    (r : Ring) (bytes : List ℕ) (size offset : ℕ) {s : Ring}
    → buffer_size < r.put
    → store_payload r bytes size offset ≢ ok s
unfolding store_payload
store_payload_overrun r bytes size offset h e = ground arith
