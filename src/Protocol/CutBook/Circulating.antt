-- ===== src/Protocol/CutBook/Circulating.antt =====
-- What a reader of a star's Luz sees in circulation (protocol/cut-book.ts).
use kray_node.Base.{
  ℕ, ◌+◌, ◌≡◌, refl, Option, none, some, [], ◌∷◌, ltb, length, All, arith, Option-cases, Bool-cases,
  inl, inr,
}
use kray_node.Base.Text.{Text, text_eq_iff}
use kray_node.Base.Map.{
  text_key, nat_key, Map, get, get_or, set, sum_values, weight, Distinct, get-set, sum_values-set,
}
use kray_node.Protocol.CutBook.{CutBook}
use kray_node.Protocol.CutBook.Rows.{IsEdition, IsSpent, Holds, weight-amount}
use kray_node.Protocol.CutBook.Valid.{IsValid}
use kray_node.Protocol.CutBook.Views.{
  amount_of, count_owners, positive_rows, holders_map, CutView, view_of, view,
}

count_owners_sum :
    (units : Map ℕ Text) (m : Map Text ℕ)
    → sum_values amount_of (count_owners units m) ≡ sum_values amount_of m + length units
unfolding count_owners
count_owners_sum [] m = omega arith
count_owners_sum ((u, owner) ∷ units) m =
    let n = get_or 0 owner m + 1 in
    omega (
      arith,
      weight-amount owner m,
      sum_values-set amount_of owner n m,
      count_owners_sum units (set owner n m),
    )

abbrev IsNew : Map Text ℕ → Text × ℕ → Type 0
IsNew m (a, n) = get a m ≡ none

set-IsNew :
    (a : Text) (n : ℕ) (row m : Map Text ℕ)
    → get a row ≡ none
    → All (IsNew m) row
    → All (IsNew (set a n m)) row
unfolding get
set-IsNew a n [] m fresh h = tt
set-IsNew a n ((c, k) ∷ row) m fresh (new, h) = (
  ground (arith, fresh, new, text_eq_iff c a, text_eq_iff a c, get-set c a n m),
  set-IsNew a n row m (ground (arith, fresh)) h,
)

positive_rows_sum :
    (row m : Map Text ℕ)
    → Distinct row
    → All (IsNew m) row
    → sum_values amount_of (positive_rows row m) ≡ sum_values amount_of m + sum_values amount_of row
unfolding positive_rows sum_values
positive_rows_sum [] m d h = omega arith
positive_rows_sum ((a, n) ∷ row) m (fresh, d) (new, h) = elim (Bool-cases (ltb 0 n)) [
  | inl e ↦ rw e (
      omega (
        arith,
        e,
        new_weight,
        sum_values-set amount_of a n m,
        positive_rows_sum row (set a n m) d (set-IsNew a n row m fresh h),
      ))
  | inr e ↦
      rw e (let z : n ≡ 0 = ground (arith, e) in omega (arith, z, positive_rows_sum row m d h))
]
  where
    new_weight : weight amount_of a m ≡ 0
    new_weight = ground (arith, new)

all-IsNew : (row : Map Text ℕ) → All (IsNew []) row
unfolding get
all-IsNew [] = tt
all-IsNew (x ∷ row) = (refl, all-IsNew row)

circulating-Holds :
    (cap : ℕ) (units : Option (Map ℕ Text)) (row : Map Text ℕ)
    → Holds cap units row
    → sum_values amount_of (holders_map units row) ≡ cap
unfolding IsSpent sum_values
circulating-Holds cap none row h = omega (arith, h.0, positive_rows_sum row [] h.1 (all-IsNew row))
circulating-Holds cap (some units) row h = omega (arith, length_is h, count_owners_sum units [])
  where
    length_is : IsEdition cap units → length units ≡ cap
    length_is h = unfold IsEdition in h.0

-- In a valid book the view of a star shows the whole of its supply in circulation.
pub view_circulating :
    (k : Text) (b : CutBook) (v : CutView)
    → IsValid b
    → view k b ≡ some v
    → v.circulating ≡ v.supply
unfolding view view_of
view_circulating k b v h seen = elim (Option-cases (get k b.supply)) [
  | inl e ↦ ground (arith, e, seen)
  | inr (cap, e) ↦
      let whole =
        circulating-Holds cap (get k b.serial_owners) (get_or [] k b.bal) (h.holds k cap e) in
      ground (arith, e, seen, whole)
]
