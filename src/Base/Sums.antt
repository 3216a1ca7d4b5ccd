-- ===== src/Base/Sums.antt =====
-- A measure summed over the items of a list.
use Prim.Native.Nat.{ℕ, zero, suc, ◌+◌, ◌≤◌}
use mathlib.Core.Path.{◌≡◌, refl, ap}
use mathlib.Core.Logic.{◌≢◌}
use mathlib.Core.List.{List, [], ◌∷◌}
use mathlib.Core.Option.{some, some_inj}
use native.Mathlib.Omega.{arith}
use p2pxineplugin.Base.Lists.{get_elem?, set}

module _ {ℓ} {A : Type ℓ} where
  abbrev pub sum_of : (A → ℕ) → List A → ℕ
  sum_of f [] = 0
  sum_of f (x ∷ xs) = f x + sum_of f xs

module _ {ℓ} {A : Type ℓ} where
  -- Replacing one item changes the sum by that item's measure.
  pub sum_of-set :
      (f : A → ℕ) (xs : List A) (i : ℕ) (a b : A)
      → get_elem? xs i ≡ some a
      → sum_of f (set xs i b) + f a ≡ sum_of f xs + f b
  sum_of-set f [] i a b e = cc
  sum_of-set f (x ∷ xs) zero a b e =
      let same : f x ≡ f a = ap f (some_inj.0 e) in omega (arith, same)
  sum_of-set f (x ∷ xs) (suc i) a b e = let ih = sum_of-set f xs i a b e in omega (arith, ih)

  -- The items at different places count at least what they measure.
  pub le-sum_of :
      (f : A → ℕ) (xs : List A) (i : ℕ) {a : A} → get_elem? xs i ≡ some a → f a ≤ sum_of f xs
  le-sum_of f [] i e = cc
  le-sum_of f (x ∷ xs) zero e = let same = ap f (some_inj.0 e) in omega (arith, same)
  le-sum_of f (x ∷ xs) (suc i) e = let ih = le-sum_of f xs i e in omega (arith, ih)

  pub sum_of-two :
      (f : A → ℕ) (xs : List A) (i j : ℕ) {a b : A}
      → i ≢ j
      → get_elem? xs i ≡ some a
      → get_elem? xs j ≡ some b
      → f a + f b ≤ sum_of f xs
  sum_of-two f [] i j ne e k = cc
  sum_of-two f (x ∷ xs) zero zero ne e k = absurd (ne refl)
  sum_of-two f (x ∷ xs) zero (suc j) ne e k =
      let same = ap f (some_inj.0 e) in let rest = le-sum_of f xs j k in omega (arith, same, rest)
  sum_of-two f (x ∷ xs) (suc i) zero ne e k =
      let same = ap f (some_inj.0 k) in let rest = le-sum_of f xs i e in omega (arith, same, rest)
  sum_of-two f (x ∷ xs) (suc i) (suc j) ne e k =
      let ih = sum_of-two f xs i j (λ h. ne (ap suc h)) e k in omega (arith, ih)
