-- ===== src/Threads/Offers.antt =====
-- `sig_offer`: which of the offered chunks are accepted.
use p2pxineplugin.Base.{
  ◌≤◌, or_false, or_true, and_false, or_swap, ℕ, suc, ◌+◌, ◌≡◌, ◌∙◌, refl, sym, ap, subst, Bool,
  true, false, not, ◌||◌, ◌&&◌, List, [], ◌∷◌, ◌++◌, drop, drop_tail, length, Option, none, some,
  Option-cases, ◌⊎◌, inl, inr, if◌then◌else◌, arith, ◌==◌, ℤ, pos, minus_one, ◌==ℤ◌, ==ℤ_iff, ltb_ℤ,
  leb_ℤ,
}
use p2pxineplugin.Chunk.{Chunk}
use p2pxineplugin.Grapes.{Grapes, IsLawful, member, is_some, get_chunk-eq}
use p2pxineplugin.Output.{Machine}
use p2pxineplugin.Network.{accept_chunks}
use p2pxineplugin.Threads.{
  Signal, State, lookup, with_node, handle_offer, Accepting, accept_missing, accept_one,
  accept_from, accept_offered,
}

module _ (G : Grapes) (L : IsLawful G) (lookup : ℤ → Option Chunk)
    (max_deliver first_chunk : ℤ) where
  abbrev pub missing : ℤ → Bool
  missing x = not (is_some (lookup x))

  -- What may be accepted of `ids`: it is not in the chunk buffer, and not before `firstChunk`.
  abbrev pub acceptable : List ℤ → ℤ → ℤ → Bool
  acceptable ids first x = (member x ids && missing x) && leb_ℤ first x

  -- The loop after the ids `done`, none left out.
  record Processed (done : List ℤ) (a : Accepting G) : Type 0 where
    pub taken : (x : ℤ) → member x (G.ids a.for_me) ≡ acceptable done a.first_chunk x
    pub unset : (x : ℤ) → (a.first_chunk ==ℤ minus_one) && (member x done && missing x) ≡ false
    pub kept : (first_chunk ==ℤ minus_one) || (a.first_chunk ==ℤ first_chunk) ≡ true
    pub bounded : leb_ℤ (pos a.count) max_deliver || (a.count == 0) ≡ true
    pub counted : length (G.ids a.for_me) ≤ a.count

  missing_eq : (x y : ℤ) → (x ==ℤ y) ≡ true → missing x ≡ missing y
  missing_eq x y e = ap missing ((==ℤ_iff x y).0 e)

  accept_one-present :
      (y : ℤ) (a : Accepting G) {c : Chunk} → lookup y ≡ some c → accept_one G lookup y a ≡ a
  unfolding accept_one
  accept_one-present y a e = ground arith

  accept_one-missing :
      (y : ℤ) (a : Accepting G) → lookup y ≡ none → accept_one G lookup y a ≡ accept_missing G y a
  unfolding accept_one
  accept_one-missing y a e = ground arith

  present-Processed :
      (y : ℤ) (done : List ℤ) (a : Accepting G)
      → missing y ≡ false
      → Processed done a
      → Processed (y ∷ done) a
  present-Processed y done a e p = record {
    taken = λ x. ground (arith, p.taken x, missing_eq x y);
    unset = λ x. ground (arith, p.unset x, missing_eq x y);
    kept = p.kept;
    bounded = p.bounded;
    counted = p.counted;
  }

  missing-Processed :
      (y : ℤ) (done : List ℤ) (a : Accepting G)
      → missing y ≡ true
      → (y ==ℤ minus_one) ≡ false
      → ltb_ℤ (pos a.count) max_deliver ≡ true
      → Processed done a
      → Processed (y ∷ done) (accept_missing G y a)
  unfolding accept_missing
  missing-Processed y done a e valid room p = record {
    taken =
        λ x. ground (arith, p.taken x, p.unset x, missing_eq x y, L.member-add_chunk a.for_me x y);
    unset = λ x. ground (arith, p.unset x, missing_eq x y);
    kept = ground (arith, p.kept);
    bounded = ground arith;
    counted = ground (arith, p.counted, L.length-add_chunk a.for_me y);
  }

  one-Processed :
      (y : ℤ) (done : List ℤ) (a : Accepting G)
      → (y ==ℤ minus_one) ≡ false
      → ltb_ℤ (pos a.count) max_deliver ≡ true
      → Processed done a
      → Processed (y ∷ done) (accept_one G lookup y a)
  one-Processed y done a valid room p = on_lookup (Option-cases (lookup y))
    where
      on_lookup :
          (lookup y ≡ none) ⊎ ((c : Chunk) × (lookup y ≡ some c))
          → Processed (y ∷ done) (accept_one G lookup y a)
      on_lookup (inl e) =
          subst (Processed (y ∷ done)) (sym (accept_one-missing y a e))
            (missing-Processed y done a (ap (λ o. not (is_some o)) e) valid room p)
      on_lookup (inr (c, e)) =
          subst (Processed (y ∷ done)) (sym (accept_one-present y a e))
            (present-Processed y done a (ap (λ o. not (is_some o)) e) p)

  -- The answer to an offer: only what is acceptable, all of it unless the limit is reached, and no
  -- more rounds that accept than the limit allows.
  pub record Accepted (ids : List ℤ) (a : Accepting G) : Type 0 where
    pub only : (x : ℤ) → member x (G.ids a.for_me) && not (acceptable ids a.first_chunk x) ≡ false
    pub all :
        (x : ℤ)
        → (ltb_ℤ (pos a.count) max_deliver && acceptable ids a.first_chunk x)
            && not (member x (G.ids a.for_me))
          ≡ false
    pub kept : (first_chunk ==ℤ minus_one) || (a.first_chunk ==ℤ first_chunk) ≡ true
    pub bounded : leb_ℤ (pos a.count) max_deliver || (a.count == 0) ≡ true
    pub counted : length (G.ids a.for_me) ≤ a.count

  finished :
      (done ids : List ℤ) (a : Accepting G)
      → ((x : ℤ) → member x ids ≡ member x done)
      → Processed done a
      → Accepted ids a
  finished done ids a same p = record {
    only = λ x. ground (arith, p.taken x, same x);
    all = λ x. ground (arith, p.taken x, same x);
    kept = p.kept;
    bounded = p.bounded;
    counted = p.counted;
  }

  stopped :
      (done ids rest : List ℤ) (a : Accepting G)
      → ((x : ℤ) → member x ids ≡ member x done || member x rest)
      → ltb_ℤ (pos a.count) max_deliver ≡ false
      → Processed done a
      → Accepted ids a
  stopped done ids rest a same full p = record {
    only = λ x. ground (arith, p.taken x, same x);
    all = λ x. ground (arith, full);
    kept = p.kept;
    bounded = p.bounded;
    counted = p.counted;
  }

  if_Accepted :
      (ids : List ℤ) (b : Bool) (t u : Accepting G)
      → (b ≡ true → Accepted ids t)
      → (b ≡ false → Accepted ids u)
      → Accepted ids (if b then t else u)
  if_Accepted ids true t u f g = f refl
  if_Accepted ids false t u f g = g refl

  head_valid : (y : ℤ) (xs : List ℤ) → member minus_one (y ∷ xs) ≡ false → (y ==ℤ minus_one) ≡ false
  head_valid y xs v = ground arith

  rest_valid :
      (y : ℤ) (xs : List ℤ) → member minus_one (y ∷ xs) ≡ false → member minus_one xs ≡ false
  rest_valid y xs v = ground arith

  accept_from_lem :
      (received : G.IdSet) (xs done : List ℤ) (i : ℕ) (a : Accepting G)
      → drop i (G.ids received) ≡ xs
      → ((x : ℤ) → member x (G.ids received) ≡ member x done || member x xs)
      → member minus_one xs ≡ false
      → Processed done a
      → Accepted (G.ids received) (accept_from G lookup max_deliver received (length xs) i a)
  unfolding accept_from
  accept_from_lem received [] done i a e same valid p =
      finished done (G.ids received) a (λ x. same x ∙ or_false (member x done)) p
  accept_from_lem received (y ∷ xs) done i a e same valid p =
      let (here, rest) = drop_tail i (G.ids received) e in
      let next : i + 1 ≡ suc i = omega arith in
      let got : G.get_chunk received i ≡ y = get_chunk-eq G L received i here in
      let a' = accept_one G lookup (G.get_chunk received i) a in
      if_Accepted (G.ids received) (ltb_ℤ (pos a.count) max_deliver) _ a
        (λ room.
          accept_from_lem received xs (y ∷ done) (i + 1) a'
            (ap (λ n. drop n (G.ids received)) next ∙ rest)
            (λ x. same x ∙ or_swap (x ==ℤ y) (member x done) (member x xs)) (rest_valid y xs valid)
            (subst (λ z. Processed (y ∷ done) (accept_one G lookup z a)) (sym got)
              (one-Processed y done a (head_valid y xs valid) room p)))
        (λ full. stopped done (G.ids received) (y ∷ xs) a same full p)

  pub accept_from-Accepted :
      (received : G.IdSet)
      → member minus_one (G.ids received) ≡ false
      → Accepted (G.ids received) (
          accept_from G lookup max_deliver received
            (G.size received)
            0
            (record { count = 0; first_chunk = first_chunk; for_me = G.init }))
  accept_from-Accepted received valid =
      let start : Accepting G = record { count = 0; first_chunk = first_chunk; for_me = G.init } in
      subst (λ n. Accepted (G.ids received) (accept_from G lookup max_deliver received n 0 start))
        (sym (L.size_lem received))
        (accept_from_lem received (G.ids received) [] 0 start refl (λ x. refl) valid
          (record {
            taken = λ x. ap (member x) L.ids-init;
            unset = λ x. and_false (first_chunk ==ℤ minus_one);
            kept = ground arith;
            bounded = or_true (leb_ℤ (pos 0) max_deliver);
            counted = rw L.ids-init (omega arith);
          }))

-- Handling an offer without the invalid number -1 sends one accept with the number of the
-- message and changes `firstChunk` only. Of the offered chunks it accepts none that is in the
-- chunk buffer or before the new `firstChunk`, and all others unless the limit of the offer is
-- reached; the accepted set holds no more chunks than the limit, and `firstChunk` keeps its
-- value unless that was -1.
pub handle_offer-Accepted :
    (G : Grapes) (L : IsLawful G) (m : Machine) (remote : ℕ) (sig : Signal G) (s : State G m)
    → member minus_one (G.ids sig.received) ≡ false
    → let a = accept_offered G (lookup G m s) sig s.node.output.first_chunk in
      Accepted G L (lookup G m s) sig.max_deliver s.node.output.first_chunk (G.ids sig.received) a
      × (handle_offer G m remote sig s
          ≡ with_node G m s (record s.node {
            output = record s.node.output { first_chunk = a.first_chunk };
            sent = s.node.sent ++ accept_chunks remote a.for_me sig.trans_id ∷ [];
          }))
unfolding handle_offer accept_offered
handle_offer-Accepted G L m remote sig s valid = (
  accept_from-Accepted G L (lookup G m s) sig.max_deliver s.node.output.first_chunk sig.received
      valid,
  refl,
)
