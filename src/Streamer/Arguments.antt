-- ===== src/Streamer/Arguments.antt =====
-- `parseCommandLineArguments` (streamer.c).
use p2pxineplugin.Base.{
  ℕ, ◌≡◌, ◌∙◌, ◌<◌, ◌⊎◌, inl, inr, ◌||◌, All, lt→ltb, Returns, refl, sym, ap, subst, Bool, true,
  false, List, [], ◌∷◌, Option, some, ltb, if◌then◌else◌, length, arith, ℤ, Outcome, ok,
  out_of_bounds, check, ◌>>=◌, ◌>>◌, Ensures, Ensures-bind, Ensures-value,
}
use p2pxineplugin.Plugin.Mrl.{atoi}
use p2pxineplugin.Streamer.{Config, str_eq, option, port_of, set_option, parse_arguments}

-- The arguments of a list of options with their values.
abbrev pub flat : List (List ℕ × List ℕ) → List (List ℕ)
flat [] = []
flat ((o, v) ∷ ps) = o ∷ v ∷ flat ps

-- The value of the last of the options that has this name, or else `d`.
abbrev pub last_of : List ℕ → List (List ℕ × List ℕ) → Option (List ℕ) → Option (List ℕ)
last_of name [] d = d
last_of name ((o, v) ∷ ps) d = last_of name ps (if str_eq o name then some v else d)

-- The two strings of the configuration.
pub record Strings (server own : Option (List ℕ)) (c : Config) : Type 0 where
  pub server_address : c.server_address ≡ server
  pub interface : c.interface ≡ own

str_eq-eq : (o p : List ℕ) → str_eq o p ≡ true → o ≡ p
unfolding str_eq
str_eq-eq [] [] e = refl
str_eq-eq [] (y ∷ p) e = cc
str_eq-eq (x ∷ o) [] e = cc
str_eq-eq (x ∷ o) (y ∷ p) e = ground (arith, str_eq-eq o p)

-- An option is not "-I" if it is another one.
not_interface :
    (o name : List ℕ)
    → str_eq name (option 73) ≡ false
    → str_eq o name ≡ true
    → str_eq o (option 73) ≡ false
not_interface o name other e =
    subst (λ x. str_eq x (option 73) ≡ false) (sym (str_eq-eq o name e)) other

set_option-Strings :
    (o v : List ℕ) (c : Config)
    → Ensures
        (Strings
          (if str_eq o (option 105) then some v else c.server_address)
          (if str_eq o (option 73) then some v else c.interface))
        (set_option o (some v) c)
unfolding set_option str_eq
set_option-Strings o v c = Ensures-bind _ (check (ltb (length o) 512) out_of_bounds) _ (λ _ _.
    on_option (str_eq o (option 105)) (str_eq o (option 112)) (str_eq o (option 73))
      (str_eq o (option 80)) (not_interface o (option 105) refl)
      (not_interface o (option 112) refl))
  where
    on_option :
        (bi bp bI bP : Bool)
        → (bi ≡ true → bI ≡ false)
        → (bp ≡ true → bI ≡ false)
        → Ensures
            (Strings (if bi then some v else c.server_address) (if bI then some v else c.interface))
            (if bi
              then ok (record c { server_address = some v })
              else if bp
              then (port_of (some v) >>= λ n. ok (record c { server_port = n }))
              else if bI
              then ok (record c { interface = some v })
              else if bP
              then (port_of (some v) >>= λ n. ok (record c { port = n }))
              else ok c)
    on_option true bp true bP h k = absurd (ff (h refl))
      where
        ff : true ≡ false → ⊥
        ff e = cc
    on_option true bp false bP h k = record { server_address = refl; interface = refl }
    on_option false true true bP h k = absurd (ff (k refl))
      where
        ff : true ≡ false → ⊥
        ff e = cc
    on_option false true false bP h k =
        Ensures-bind _ (port_of (some v)) _
          (λ n _. record { server_address = refl; interface = refl })
    on_option false false true bP h k = record { server_address = refl; interface = refl }
    on_option false false false true h k =
        Ensures-bind _ (port_of (some v)) _
          (λ n _. record { server_address = refl; interface = refl })
    on_option false false false false h k = record { server_address = refl; interface = refl }

parsed-Strings :
    (ps : List (List ℕ × List ℕ)) (c : Config)
    → Ensures
        (Strings (last_of (option 105) ps c.server_address) (last_of (option 73) ps c.interface))
        (parse_arguments (flat ps) c)
unfolding parse_arguments
parsed-Strings [] c = record { server_address = refl; interface = refl }
parsed-Strings ((o, v) ∷ ps) c = Ensures-bind _ (set_option o (some v) c) _ (λ c' e.
    let k = Ensures-value _ (set_option o (some v) c) (set_option-Strings o v c) e in
    subst
      (λ x.
        Ensures (Strings x (last_of (option 73) ((o, v) ∷ ps) c.interface))
          (parse_arguments (flat ps) c'))
      (ap (last_of (option 105) ps) k.server_address)
      (subst
        (λ x.
          Ensures (Strings (last_of (option 105) ps c'.server_address) x)
            (parse_arguments (flat ps) c'))
        (ap (last_of (option 73) ps) k.interface) (parsed-Strings ps c')))

-- An option that fits the copy, and a value that `atoi` reads if it is a port's.
abbrev pub Fits : List ℕ × List ℕ → Type 0
Fits (o, v) =
    (length o < 512)
    × (((str_eq o (option 112) || str_eq o (option 80)) ≡ false) ⊎ ((n : ℤ) × (atoi v ≡ ok n)))

set_option_returns :
    (o v : List ℕ) (c : Config) → Fits (o, v) → (c' : Config) × (set_option o (some v) c ≡ ok c')
unfolding set_option
set_option_returns o v c (short, value) =
    let (c', e) =
      on_option (str_eq o (option 105)) (str_eq o (option 112)) (str_eq o (option 73))
        (str_eq o (option 80)) value in
    (
      c',
      ap
            (λ b.
              check b out_of_bounds
              >> chosen (str_eq o (option 105)) (str_eq o (option 112)) (str_eq o (option 73))
                  (str_eq o (option 80)))
            (lt→ltb (length o) 512 short)
          ∙ e,
    )
  where
    chosen : Bool → Bool → Bool → Bool → Outcome Config
    chosen bi bp bI bP =
        if bi
        then ok (record c { server_address = some v })
        else if bp
        then (port_of (some v) >>= λ n. ok (record c { server_port = n }))
        else if bI
        then ok (record c { interface = some v })
        else if bP
        then (port_of (some v) >>= λ n. ok (record c { port = n }))
        else ok c

    on_option :
        (bi bp bI bP : Bool)
        → ((bp || bP) ≡ false) ⊎ ((n : ℤ) × (atoi v ≡ ok n))
        → (c' : Config) × (chosen bi bp bI bP ≡ ok c')
    on_option true bp bI bP w = (record c { server_address = some v }, refl)
    on_option false false true bP w = (record c { interface = some v }, refl)
    on_option false false false false w = (c, refl)
    on_option false true bI bP (inr (n, e)) =
        (record c { server_port = n }, ap (λ o'. o' >>= λ k. ok (record c { server_port = k })) e)
    on_option false false false true (inr (n, e)) =
        (record c { port = n }, ap (λ o'. o' >>= λ k. ok (record c { port = k })) e)
    on_option false true bI bP (inl e) = absurd (ff e)
      where
        ff : true ≡ false → ⊥
        ff e = cc
    on_option false false false true (inl e) = absurd (ff e)
      where
        ff : true ≡ false → ⊥
        ff e = cc

parse_returns :
    (ps : List (List ℕ × List ℕ)) (c : Config)
    → All Fits ps
    → (c' : Config) × (parse_arguments (flat ps) c ≡ ok c')
unfolding parse_arguments
parse_returns [] c h = (c, refl)
parse_returns ((o, v) ∷ ps) c (h, hs) =
    let (c', e) = set_option_returns o v c h in
    let (c'', e') = parse_returns ps c' hs in
    (c'', ap (λ r. r >>= parse_arguments (flat ps)) e ∙ e')

-- Parsing a list of options with values, where the options are shorter than 512 characters and
-- `atoi` reads the values of ports, returns the server address of the last `-i` and the
-- interface of the last `-I`, or what was configured before.
pub parse_arguments-Strings :
    (ps : List (List ℕ × List ℕ)) (c : Config)
    → All Fits ps
    → Returns
        (Strings (last_of (option 105) ps c.server_address) (last_of (option 73) ps c.interface))
        (parse_arguments (flat ps) c)
parse_arguments-Strings ps c h =
    let (c', e) = parse_returns ps c h in
    subst (Returns _) (sym e)
      (Ensures-value _ (parse_arguments (flat ps) c) (parsed-Strings ps c) e)
