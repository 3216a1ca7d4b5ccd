-- ===== src/Network/Sets.antt =====
-- The sets that network.c builds, by their members.
use p2pxineplugin.Base.{
  or_false, or_swap, drop_tail, ℕ, suc, ◌+◌, ◌≡◌, ◌∙◌, refl, ap, Bool, ◌||◌, ◌&&◌, List, [], ◌∷◌,
  map, drop, length, some, if◌then◌else◌, ℤ, ◌==ℤ◌, ltb_ℤ, arith,
}
use p2pxineplugin.Chunk.{Chunk}
use p2pxineplugin.Grapes.{Grapes, IsLawful, member, get_chunk-eq}
use p2pxineplugin.Network.{add_all, chunk_buffer_to_buffermap, needed_from, get_needed_chunks}

module _ (G : Grapes) (L : IsLawful G) where
  member-add_all :
      (cs : List Chunk) (s : G.IdSet) (x : ℤ)
      → member x (G.ids (add_all G cs s)) ≡ member x (map (λ c. c.id) cs) || member x (G.ids s)
  unfolding add_all
  member-add_all [] s x = refl
  member-add_all (c ∷ cs) s x =
      member-add_all cs (G.add_chunk s c.id) x
      ∙ ap (◌||◌ (member x (map (λ c'. c'.id) cs))) (L.member-add_chunk s x c.id)
      ∙ or_swap (x ==ℤ c.id) (member x (map (λ c'. c'.id) cs)) (member x (G.ids s))

  -- A number is in the buffer map exactly if it is that of a chunk in the chunk buffer.
  pub member-chunk_buffer_to_buffermap :
      (b : G.Buffer) (x : ℤ)
      → member x (G.ids (chunk_buffer_to_buffermap G b))
        ≡ member x (map (λ c. c.id) (G.cb_get_chunks b))
  unfolding chunk_buffer_to_buffermap
  member-chunk_buffer_to_buffermap b x =
      member-add_all (G.cb_get_chunks b) G.init x
      ∙ ap (λ l. member x (map (λ c. c.id) (G.cb_get_chunks b)) || member x l) L.ids-init
      ∙ or_false (member x (map (λ c. c.id) (G.cb_get_chunks b)))

  -- One id of the received set, and those behind it.
  needed_from_lem :
      (f : ℤ) (r : G.IdSet) (xs : List ℤ) (i : ℕ) (s : G.IdSet) (x : ℤ)
      → drop i (G.ids r) ≡ xs
      → member x (G.ids (needed_from G f r (length xs) i s))
        ≡ (member x xs && ltb_ℤ f x) || member x (G.ids s)
  unfolding needed_from
  needed_from_lem f r [] i s x e = refl
  needed_from_lem f r (y ∷ xs) i s x e =
      let (here, rest) = drop_tail i (G.ids r) e in
      let got : G.get_chunk r i ≡ y = get_chunk-eq G L r i here in
      let next : i + 1 ≡ suc i = omega arith in
      needed_from_lem f r xs (i + 1) _ x (ap (λ n. drop n (G.ids r)) next ∙ rest)
      ∙ ap
          (λ z.
            (member x xs && ltb_ℤ f x)
            || member x (G.ids (if ltb_ℤ f z then G.add_chunk s z else s)))
          got
      ∙ one_more f y (member x xs) s x
    where
      one_more :
          (f y : ℤ) (m : Bool) (s : G.IdSet) (x : ℤ)
          → (m && ltb_ℤ f x) || member x (G.ids (if ltb_ℤ f y then G.add_chunk s y else s))
            ≡ (((x ==ℤ y) || m) && ltb_ℤ f x) || member x (G.ids s)
      one_more f y m s x = ground (arith, L.member-add_chunk s x y)

  -- With an empty set to fill, the needed chunks exist and are the received ones that are
  -- greater than `firstChunk`.
  pub member-get_needed_chunks :
      (s received : G.IdSet) (first_chunk : ℤ)
      → G.ids s ≡ []
      → (needed : G.IdSet) × (get_needed_chunks G (some s) first_chunk received ≡ some needed)
        × ((x : ℤ) → member x (G.ids needed) ≡ member x (G.ids received) && ltb_ℤ first_chunk x)
  unfolding get_needed_chunks
  member-get_needed_chunks s received first_chunk empty = (
    needed_from G first_chunk received (G.size received) 0 s,
    refl,
    λ x.
        ap (λ n. member x (G.ids (needed_from G first_chunk received n 0 s))) (L.size_lem received)
        ∙ needed_from_lem first_chunk received (G.ids received) 0 s x refl
        ∙ ap (λ l. (member x (G.ids received) && ltb_ℤ first_chunk x) || member x l) empty
        ∙ or_false (member x (G.ids received) && ltb_ℤ first_chunk x),
  )
