-- ===== src/Base/Sort.antt =====
-- `[...list].sort(before)` as an insertion sort, which is stable as the source's is.
use kray_node.Base.Tests.{if◌then◌else◌}
use kray_node.Base.Lists.{All, sum_by, length}
use Prim.Native.Nat.{ℕ, ◌+◌}
use mathlib.Core.Path.{◌≡◌, refl}
use mathlib.Core.Bool.{Bool, true, false}
use mathlib.Core.List.{List, [], ◌∷◌}
use native.Mathlib.Omega.{arith}

module _ {A : Type 0} (before : A → A → Bool) where
  -- `x` goes in front of the first entry that is not before it.
  unfoldable pub insert : A → List A → List A
  insert x [] = x ∷ []
  insert x (y ∷ ys) = let rest = insert x ys in if before y x then y ∷ rest else x ∷ y ∷ ys

  unfoldable pub sort : List A → List A
  sort [] = []
  sort (x ∷ xs) = insert x (sort xs)

  sum_by-insert : (f : A → ℕ) (x : A) (xs : List A) → sum_by f (insert x xs) ≡ f x + sum_by f xs
  unfolding insert
  sum_by-insert f x [] = refl
  sum_by-insert f x (y ∷ ys) = ground (arith, sum_by-insert f x ys)

  pub sum_by-sort : (f : A → ℕ) (xs : List A) → sum_by f (sort xs) ≡ sum_by f xs
  unfolding sort
  sum_by-sort f [] = refl
  sum_by-sort f (x ∷ xs) = ground (arith, sum_by-insert f x (sort xs), sum_by-sort f xs)

  length-insert : (x : A) (xs : List A) → length (insert x xs) ≡ length xs + 1
  unfolding insert
  length-insert x [] = refl
  length-insert x (y ∷ ys) = ground (arith, length-insert x ys)

  pub length-sort : (xs : List A) → length (sort xs) ≡ length xs
  unfolding sort
  length-sort [] = refl
  length-sort (x ∷ xs) = ground (arith, length-insert x (sort xs), length-sort xs)

  module _ (P : A → Type 0) where
    kept-All :
        (b : Bool) (x y : A) (xs ys : List A)
        → P x
        → P y
        → All P xs
        → All P ys
        → All P (if b then y ∷ xs else x ∷ y ∷ ys)
    kept-All true x y xs ys p q ps qs = (q, ps)
    kept-All false x y xs ys p q ps qs = (p, (q, qs))

    insert-All : (x : A) (xs : List A) → P x → All P xs → All P (insert x xs)
    unfolding insert
    insert-All x [] p ps = (p, tt)
    insert-All x (y ∷ ys) p (q, qs) =
        kept-All (before y x) x y (insert x ys) ys p q (insert-All x ys p qs) qs

    pub sort-All : (xs : List A) → All P xs → All P (sort xs)
    unfolding sort
    sort-All [] ps = tt
    sort-All (x ∷ xs) (p, ps) = insert-All x (sort xs) p (sort-All xs ps)
