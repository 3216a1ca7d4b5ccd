-- ===== src/Plugin/Address.antt =====
-- What the parser reads from an MRL, and what `p2p_class_get_instance` then does with it.
use p2pxineplugin.Base.{
  ℕ, suc, ◌+◌, ◌-◌, ◌<◌, ◌≡◌, ◌≢◌, ◌∙◌, refl, ap, ◌⊎◌, inl, inr, Bool, true, false, List, [], ◌∷◌,
  ◌++◌, Option, none, some, All, ltb, lt→ltb, ◌==◌, if◌then◌else◌, take, drop, length, arith, ℤ,
  pos, negsuc, Outcome, ok, fault, Fault, out_of_bounds, null_deref, blocked, exited, check, ◌>>=◌,
  ◌>>◌,
}
use p2pxineplugin.Plugin.{Plugin}
use p2pxineplugin.Plugin.Mrl.{
  colon, protocol, default_host_port, has_protocol, index_of, in_int, atoi, parse_port, parse_at,
  free_url, Unset, get_instance, instance_of,
}
use p2pxineplugin.Plugin.Digits.{value_of, text_of, atoi-text_of}

index_of-append :
    (host rest : List ℕ)
    → All (λ c. c ≢ colon) host
    → index_of colon (host ++ colon ∷ rest) ≡ some (length host)
unfolding index_of
index_of-append [] rest h = refl
index_of-append (c ∷ host) rest (hc, h) = ground (arith, hc, index_of-append host rest h)

take-length-append : (xs ys : List ℕ) → take (length xs) (xs ++ ys) ≡ xs
take-length-append [] ys = refl
take-length-append (x ∷ xs) ys = ap (◌∷◌ x) (take-length-append xs ys)

drop-length-append : (xs ys : List ℕ) (y : ℕ) → drop (length xs + 1) (xs ++ y ∷ ys) ≡ ys
drop-length-append [] ys y = refl
drop-length-append (x ∷ xs) ys y =
    let n : suc (length xs) + 1 ≡ suc (length xs + 1) = omega arith in
    ap (λ k. drop k (x ∷ xs ++ y ∷ ys)) n ∙ drop-length-append xs ys y

nonempty_length : (xs : List ℕ) → xs ≢ [] → (length xs == 0) ≡ false
nonempty_length [] h = absurd (h refl)
nonempty_length (x ∷ xs) h = ground arith

parse_port_lem :
    (slack : ℕ) (host ds : List ℕ)
    → 0 < slack
    → All (λ d. d < 10) ds
    → value_of ds < 2147483648
    → parse_port slack (host ++ colon ∷ text_of ds) (length host) ≡ ok (pos (value_of ds))
unfolding parse_port
parse_port_lem slack host ds room digits small =
    let n = length (host ++ colon ∷ text_of ds) - length host in
    let fits : ltb n (n + slack) ≡ true = lt→ltb n (n + slack) (omega arith) in
    ap (λ b. check b out_of_bounds >> atoi (drop (length host + 1) (host ++ colon ∷ text_of ds)))
      fits
    ∙ ap atoi (drop-length-append host (text_of ds) colon)
    ∙ atoi-text_of ds digits small

-- In the address of a non-empty host without a colon, a colon, and the decimal digits of a
-- number below 2^31, the parser finds the colon behind the host and reads back the host and
-- the number, if the allocator gives a byte more than it is asked for.
pub parse_address :
    (slack : ℕ) (host ds : List ℕ)
    → 0 < slack
    → host ≢ []
    → All (λ c. c ≢ colon) host
    → All (λ d. d < 10) ds
    → value_of ds < 2147483648
    → (index_of colon (host ++ colon ∷ text_of ds) ≡ some (length host))
      × (parse_at slack (host ++ colon ∷ text_of ds) (length host) ≡ ok (host, pos (value_of ds)))
unfolding parse_at
parse_address slack host ds room some_host no_colon digits small = (
  index_of-append host (text_of ds) no_colon,
  ap
        (λ b.
          if b
          then ok (take (length host) url, pos default_host_port)
          else (parse_port slack url (length host) >>= λ port. ok (take (length host) url, port)))
        (nonempty_length host some_host)
      ∙ ap (λ o. o >>= λ port. ok (take (length host) url, port))
          (parse_port_lem slack host ds room digits small)
      ∙ ap (λ h. ok (h, pos (value_of ds))) (take-length-append host (colon ∷ text_of ds)),
)
  where
    url : List ℕ
    url = host ++ colon ∷ text_of ds

-- It ends in undefined behaviour; or in that or a value.
abbrev pub IsFault : {A : Type 0} → Outcome A → Type 0
IsFault (fault e) = Unit
IsFault (ok _) = ⊥
IsFault blocked = ⊥
IsFault exited = ⊥

abbrev IsDefinite : {A : Type 0} → Outcome A → Type 0
IsDefinite (fault e) = Unit
IsDefinite (ok _) = Unit
IsDefinite blocked = ⊥
IsDefinite exited = ⊥

bind-IsFault :
    {A B : Type 0} (run : Outcome A) (next : A → Outcome B)
    → IsDefinite run
    → ((a : A) → IsFault (next a))
    → IsFault (run >>= next)
bind-IsFault (ok a) next d h = h a
bind-IsFault (fault e) next d h = tt
bind-IsFault blocked next d h = d
bind-IsFault exited next d h = d

bind-IsDefinite :
    {A B : Type 0} (run : Outcome A) (next : A → Outcome B)
    → IsDefinite run
    → ((a : A) → IsDefinite (next a))
    → IsDefinite (run >>= next)
bind-IsDefinite (ok a) next d h = h a
bind-IsDefinite (fault e) next d h = tt
bind-IsDefinite blocked next d h = d
bind-IsDefinite exited next d h = d

in_int-IsDefinite : (v : ℤ) → IsDefinite (in_int v)
unfolding in_int
in_int-IsDefinite (pos n) = ground arith
in_int-IsDefinite (negsuc n) = ground arith

check-IsDefinite : (b : Bool) (e : Fault) → IsDefinite (check b e)
check-IsDefinite true e = tt
check-IsDefinite false e = tt

parse_at-IsDefinite : (slack : ℕ) (url : List ℕ) (p : ℕ) → IsDefinite (parse_at slack url p)
unfolding parse_at parse_port atoi
parse_at-IsDefinite slack url p = on_zero (p == 0)
  where
    on_zero :
        (b : Bool)
        → IsDefinite {A = List ℕ × ℤ} (
            if b
            then ok (take p url, pos default_host_port)
            else (parse_port slack url p >>= λ port. ok (take p url, port)))
    on_zero true = tt
    on_zero false =
        bind-IsDefinite (parse_port slack url p) _
          (bind-IsDefinite (check (ltb (length url - p) (length url - p + slack)) out_of_bounds) _
            (check-IsDefinite _ out_of_bounds) (λ _. in_int-IsDefinite _))
          (λ _. tt)

free_url-IsFault : {A : Type 0} (p : ℕ) (next : Outcome A) → IsFault (free_url p >> next)
unfolding free_url
free_url-IsFault p next = ground arith

-- Whatever the allocator gives and the MRL is, no instance is made: an MRL of another protocol
-- is refused with NULL, and one of this protocol ends in undefined behaviour.
pub get_instance_never :
    (slack : ℕ) (u : Unset) (mrl : List ℕ)
    → ((has_protocol mrl protocol ≡ false) × (get_instance slack u mrl ≡ ok none))
      ⊎ ((has_protocol mrl protocol ≡ true) × IsFault (get_instance slack u mrl))
unfolding get_instance
get_instance_never slack u mrl = on_protocol (has_protocol mrl protocol)
  where
    parsed : Option ℕ → Outcome (Option Plugin)
    parsed none = fault null_deref
    parsed (some p) = do
      address ← parse_at slack (drop 6 mrl) p
      free_url p
      ok (some (instance_of u mrl address))

    parsed-IsFault : (o : Option ℕ) → IsFault (parsed o)
    parsed-IsFault none = tt
    parsed-IsFault (some p) =
        bind-IsFault (parse_at slack (drop 6 mrl) p) _ (parse_at-IsDefinite slack (drop 6 mrl) p)
          (λ address. free_url-IsFault p (ok (some (instance_of u mrl address))))

    on_protocol :
        (b : Bool)
        → ((b ≡ false) × ((if b then parsed (index_of colon (drop 6 mrl)) else ok none) ≡ ok none))
          ⊎ ((b ≡ true) × IsFault (if b then parsed (index_of colon (drop 6 mrl)) else ok none))
    on_protocol true = inr (refl, parsed-IsFault (index_of colon (drop 6 mrl)))
    on_protocol false = inl (refl, refl)
