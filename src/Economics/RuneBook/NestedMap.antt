-- ===== src/Economics/RuneBook/NestedMap.antt =====
-- The maps of maps that `bal`, `lock` and `pers` open: rune → address → value, where reaching for a
-- rune that is not there creates its empty map.
use kray_node.Base.{
  ℕ, ◌+◌, ◌≡◌, Bool, true, false, ◌&&◌, Option, none, some, [], arith, if◌then◌else◌, sym,
}
use kray_node.Base.Text.{Text, text_eq, text_eq_iff, text_eq_refl}
use kray_node.Base.Map.{
  text_key, Map, get, set, delete, get_or, get-set, get-delete_ne, sum_values, sum_values-set,
  sum_values-delete, weight-le, Distinct, set-Distinct, delete-Distinct, get-delete_self,
}
use Prim.Native.Nat.{◌≤◌}
use mathlib.Core.Path.{subst}
use mathlib.Core.Bool.{Bool, true, false}

abbrev pub Nested : Type 0 → Type 0
Nested V = Map Text (Map Text V)

module _ {V : Type 0} where
  abbrev pub entry : Text → Nested V → Map Text V
  entry k mm = get_or [] k mm

  -- `this.bal(k)`: the map under `k`, created if it was not there.
  unfoldable pub touch : Text → Nested V → Nested V
  touch k mm = set k (entry k mm) mm

  -- `m.get(a)` and `m.has(a)` on the map under `k`.
  unfoldable pub at : Text → Text → Nested V → Option V
  at k a mm = get a (entry k mm)

  -- `m.set(a, v)`
  unfoldable pub put : Text → Text → V → Nested V → Nested V
  put k a v mm = set k (set a v (entry k mm)) mm

  -- `m.delete(a)`
  unfoldable pub drop : Text → Text → Nested V → Nested V
  drop k a mm = set k (delete a (entry k mm)) mm

  entry-set :
      (j k : Text) (m : Map Text V) (mm : Nested V)
      → entry j (set k m mm) ≡ (if text_eq k j then m else entry j mm)
  entry-set j k m mm = ground (arith, get-set j k m mm)

  pub at-touch : (j k b : Text) (mm : Nested V) → at j b (touch k mm) ≡ at j b mm
  unfolding at touch
  at-touch j k b mm = ground (arith, text_eq_iff k j, get-set j k (entry k mm) mm)

  pub at-put :
      (j k a b : Text) (v : V) (mm : Nested V)
      → at j b (put k a v mm) ≡ (if text_eq k j && text_eq a b then some v else at j b mm)
  unfolding at put
  at-put j k a b v mm =
      ground
        (arith, text_eq_iff k j, get-set j k (set a v (entry k mm)) mm, get-set b a v (entry k mm))

  pub at-drop_ne :
      (j k a b : Text) (mm : Nested V)
      → (text_eq k j && text_eq a b) ≡ false
      → at j b (drop k a mm) ≡ at j b mm
  unfolding at drop
  at-drop_ne j k a b mm h = ground (
    arith,
    text_eq_iff k j,
    get-set j k (delete a (entry k mm)) mm,
    get-delete_ne b a (entry k mm),
  )

  either-Distinct :
      (c : Bool) (m n : Map Text V) → Distinct m → Distinct n → Distinct (if c then m else n)
  either-Distinct true m n h k = h
  either-Distinct false m n h k = k

  entry-Distinct :
      (j k : Text) (m : Map Text V) (mm : Nested V)
      → Distinct m
      → Distinct (entry j mm)
      → Distinct (entry j (set k m mm))
  entry-Distinct j k m mm h h' =
      subst Distinct (sym (entry-set j k m mm)) (either-Distinct (text_eq k j) m (entry j mm) h h')

  -- No address has two entries under one rune.
  unfoldable pub IsTidyMap : Nested V → Type 0
  IsTidyMap mm = (k : Text) → Distinct (entry k mm)

  pub touch-IsTidyMap : (k : Text) (mm : Nested V) → IsTidyMap mm → IsTidyMap (touch k mm)
  unfolding IsTidyMap touch
  touch-IsTidyMap k mm h j = entry-Distinct j k (entry k mm) mm (h k) (h j)

  pub put-IsTidyMap : (k a : Text) (v : V) (mm : Nested V) → IsTidyMap mm → IsTidyMap (put k a v mm)
  unfolding IsTidyMap put
  put-IsTidyMap k a v mm h j =
      entry-Distinct j k (set a v (entry k mm)) mm (set-Distinct a v (entry k mm) (h k)) (h j)

  pub drop-IsTidyMap : (k a : Text) (mm : Nested V) → IsTidyMap mm → IsTidyMap (drop k a mm)
  unfolding IsTidyMap drop
  drop-IsTidyMap k a mm h j =
      entry-Distinct j k (delete a (entry k mm)) mm (delete-Distinct a (entry k mm) (h k)) (h j)

  pub at-drop_self : (k a : Text) (mm : Nested V) → IsTidyMap mm → at k a (drop k a mm) ≡ none
  unfolding IsTidyMap at drop
  at-drop_self k a mm h = ground (
    arith,
    get-set k k (delete a (entry k mm)) mm,
    text_eq_refl k,
    get-delete_self a (entry k mm) (h k),
  )

  pub at-drop :
      (j k a b : Text) (mm : Nested V)
      → IsTidyMap mm
      → at j b (drop k a mm) ≡ (if text_eq k j && text_eq a b then none else at j b mm)
  at-drop j k a b mm h =
      ground (arith, text_eq_iff k j, text_eq_iff a b, at-drop_self k a mm h, at-drop_ne j k a b mm)

module _ {V : Type 0} (f : V → ℕ) where
  -- The sum of `f` over the map under `k`.
  unfoldable pub total : Text → Nested V → ℕ
  total k mm = sum_values f (entry k mm)

  abbrev pub amount_at : Option V → ℕ
  amount_at none = 0
  amount_at (some v) = f v

  pub total-touch : (j k : Text) (mm : Nested V) → total j (touch k mm) ≡ total j mm
  unfolding total touch
  total-touch j k mm = ground (arith, text_eq_iff k j, get-set j k (entry k mm) mm)

  -- What a write adds to the sum at `k`, and that no other sum moves.
  pub total-put :
      (j k a : Text) (v : V) (mm : Nested V)
      → total j (put k a v mm) + (if text_eq k j then amount_at (at k a mm) else 0)
        ≡ total j mm + (if text_eq k j then f v else 0)
  unfolding total put at
  total-put j k a v mm = ground (
    arith,
    text_eq_iff k j,
    get-set j k (set a v (entry k mm)) mm,
    sum_values-set f a v (entry k mm),
  )

  pub total-drop :
      (j k a : Text) (mm : Nested V)
      → total j (drop k a mm) + (if text_eq k j then amount_at (at k a mm) else 0) ≡ total j mm
  unfolding total drop at
  total-drop j k a mm = ground (
    arith,
    text_eq_iff k j,
    get-set j k (delete a (entry k mm)) mm,
    sum_values-delete f a (entry k mm),
  )

  pub amount_at-le-total : (k a : Text) (mm : Nested V) → amount_at (at k a mm) ≤ total k mm
  unfolding total at
  amount_at-le-total k a mm = omega (arith, weight-le f a (entry k mm))
