-- ===== src/Base/Map.antt =====
-- A JavaScript `Map`, as its entries in insertion order: setting a known key keeps its place, a new
-- key goes to the end. A `Set` is the list of its members.
use Prim.Native.Nat.{ℕ, ◌+◌, ◌≤◌}
use mathlib.Core.Path.{◌≡◌, refl}
use mathlib.Core.Logic.{◌↔◌}
use mathlib.Core.Bool.{Bool, true, false, ◌||◌}
use mathlib.Core.Option.{Option, none, some}
use mathlib.Core.List.{List, [], ◌∷◌, ◌++◌}
use native.Mathlib.Omega.{arith}
use kray_node.Base.Tests.{◌==◌, ==_iff, if◌then◌else◌}
use kray_node.Base.Lists.{length, All}
use kray_node.Base.Text.{Text, text_eq, text_eq_iff}

-- `===` on the type of the keys.
pub record Eq {ℓ} (A : Type ℓ) : Type ℓ where
  pub beq : A → A → Bool
  pub beq_iff : (a b : A) → (beq a b ≡ true) ↔ (a ≡ b)

instance abbrev pub text_key : Eq Text
text_key = record { beq = text_eq; beq_iff = text_eq_iff }

instance abbrev pub nat_key : Eq ℕ
nat_key = record { beq = ◌==◌; beq_iff = ==_iff }

abbrev pub Map {ℓ κ} : Type ℓ → Type κ → Type (ℓ ⊔ κ)
Map K V = List (K × V)

module _ {ℓ κ} {K : Type ℓ} {V : Type κ} ⦃e : Eq K⦄ where
  -- `m.get(k)`
  unfoldable pub get : K → Map K V → Option V
  get k [] = none
  get k ((j, v) ∷ m) = if e.beq j k then some v else get k m

  -- `m.has(k)`
  abbrev pub has : K → Map K V → Bool
  has k m = elim (get k m) [ none ↦ false | some _ ↦ true ]

  -- `m.set(k, v)`
  unfoldable pub set : K → V → Map K V → Map K V
  set k v [] = (k, v) ∷ []
  set k v ((j, w) ∷ m) = if e.beq j k then (j, v) ∷ m else (j, w) ∷ set k v m

  -- `m.delete(k)`
  unfoldable pub delete : K → Map K V → Map K V
  delete k [] = []
  delete k ((j, w) ∷ m) = if e.beq j k then m else (j, w) ∷ delete k m

  -- `m.get(k) ?? d`
  abbrev pub get_or : V → K → Map K V → V
  get_or d k m = elim (get k m) [ none ↦ d | some v ↦ v ]

  pub get-set :
      (j k : K) (v : V) (m : Map K V) → get j (set k v m) ≡ (if e.beq k j then some v else get j m)
  unfolding get set
  get-set j k v [] = refl
  get-set j k v ((i, w) ∷ m) =
      ground (arith, e.beq_iff i k, e.beq_iff i j, e.beq_iff k j, get-set j k v m)

  pub get-delete_ne : (j k : K) (m : Map K V) → e.beq k j ≡ false → get j (delete k m) ≡ get j m
  unfolding get delete
  get-delete_ne j k [] h = refl
  get-delete_ne j k ((i, w) ∷ m) h =
      ground (arith, e.beq_iff i k, e.beq_iff i j, e.beq_iff k j, get-delete_ne j k m h)

-- No key has two entries, as in every `Map`.
module _ {ℓ κ} {K : Type ℓ} {V : Type κ} ⦃e : Eq K⦄ where
  abbrev pub Distinct : Map K V → Type κ
  Distinct [] = Unit
  Distinct ((k, v) ∷ m) = (get k m ≡ none) × Distinct m

  pub set-Distinct : (k : K) (v : V) (m : Map K V) → Distinct m → Distinct (set k v m)
  unfolding get set
  set-Distinct k v [] h = (refl, tt)
  set-Distinct k v ((i, w) ∷ m) h =
      ground (arith, e.beq_iff i k, e.beq_iff k i, get-set i k v m, set-Distinct k v m h.1)

  get-delete-none : (j k : K) (m : Map K V) → get j m ≡ none → get j (delete k m) ≡ none
  unfolding get delete
  get-delete-none j k [] h = refl
  get-delete-none j k ((i, w) ∷ m) h = ground (arith, get-delete-none j k m)

  pub delete-Distinct : (k : K) (m : Map K V) → Distinct m → Distinct (delete k m)
  unfolding get delete
  delete-Distinct k [] h = tt
  delete-Distinct k ((i, w) ∷ m) h = ground (arith, get-delete-none i k m, delete-Distinct k m h.1)

  pub get-delete_self : (k : K) (m : Map K V) → Distinct m → get k (delete k m) ≡ none
  unfolding get delete
  get-delete_self k [] h = refl
  get-delete_self k ((i, w) ∷ m) h = ground (arith, e.beq_iff i k, get-delete_self k m h.1)

-- The sum of `f` over the values, as the loops over `m.values()` take it.
module _ {ℓ κ} {K : Type ℓ} {V : Type κ} where
  unfoldable pub sum_values : (V → ℕ) → Map K V → ℕ
  sum_values f [] = 0
  sum_values f ((k, v) ∷ m) = f v + sum_values f m

module _ {ℓ κ} {K : Type ℓ} {V : Type κ} ⦃e : Eq K⦄ (f : V → ℕ) where
  -- What the map holds under a key, 0 where it holds nothing.
  abbrev pub weight : K → Map K V → ℕ
  weight k m = elim (get k m) [ none ↦ 0 | some v ↦ f v ]

  pub sum_values-set :
      (k : K) (v : V) (m : Map K V) → sum_values f (set k v m) + weight k m ≡ sum_values f m + f v
  unfolding get set sum_values
  sum_values-set k v [] = omega arith
  sum_values-set k v ((i, w) ∷ m) = ground (arith, sum_values-set k v m)

  pub sum_values-delete :
      (k : K) (m : Map K V) → sum_values f (delete k m) + weight k m ≡ sum_values f m
  unfolding get delete sum_values
  sum_values-delete k [] = omega arith
  sum_values-delete k ((i, w) ∷ m) = ground (arith, sum_values-delete k m)

  pub weight-le : (k : K) (m : Map K V) → weight k m ≤ sum_values f m
  unfolding get sum_values
  weight-le k [] = omega arith
  weight-le k ((i, w) ∷ m) = ground (arith, weight-le k m)

module _ {ℓ} {K : Type ℓ} ⦃e : Eq K⦄ where
  -- `s.has(k)`
  unfoldable pub member : K → List K → Bool
  member k [] = false
  member k (j ∷ s) = e.beq j k || member k s

  -- `s.add(k)`
  unfoldable pub add : K → List K → List K
  add k s = if member k s then s else s ++ (k ∷ [])

  member-concat : (j k : K) (s : List K) → member j (s ++ (k ∷ [])) ≡ (member j s || e.beq k j)
  unfolding member
  member-concat j k [] = ground arith
  member-concat j k (i ∷ s) = ground (arith, member-concat j k s)

  pub member-add : (j k : K) (s : List K) → member j (add k s) ≡ (member j s || e.beq k j)
  unfolding add
  member-add j k s = ground (arith, e.beq_iff k j, member-concat j k s)

module _ {ℓ κ} {K : Type ℓ} {V : Type κ} ⦃e : Eq K⦄ where
  -- A test of every entry needs no more than what `get` finds, where no key has two entries.
  pub get-All :
      {P : K → V → Type 0} (m : Map K V)
      → Distinct m
      → ((k : K) (v : V) → get k m ≡ some v → P k v)
      → All (λ (x : K × V). P x.0 x.1) m
  unfolding get
  get-All [] d h = tt
  get-All {P = P} ((k, v) ∷ m) (fresh, d) h = (
    h k v (ground (arith, e.beq_iff k k)),
    get-All {P = P} m d (λ j w f. h j w (ground (arith, fresh, f, e.beq_iff k j))),
  )

  pub length-set :
      (k : K) (v : V) (m : Map K V) → length (set k v m) ≡ length m + (if has k m then 0 else 1)
  unfolding get set
  length-set k v [] = refl
  length-set k v ((i, w) ∷ m) = ground (arith, length-set k v m)
