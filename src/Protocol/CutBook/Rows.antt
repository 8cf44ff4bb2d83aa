-- ===== src/Protocol/CutBook/Rows.antt =====
-- The row of a fungible book and the owners of a serial one (protocol/cut-book.ts).
use kray_node.Base.{
  ℕ, zero, suc, ◌+◌, ◌-◌, ◌≤◌, ◌<◌, ◌≡◌, refl, false, Option, none, some, List, [], ◌∷◌, ◌==◌,
  if◌then◌else◌, length, arith, Option-cases, inl, inr,
}
use kray_node.Base.Text.{Text, is_blank}
use kray_node.Base.Map.{
  text_key, nat_key, Map, get, get_or, set, delete, sum_values, weight, Distinct, get-set,
  set-Distinct, delete-Distinct, sum_values-set, sum_values-delete, length-set,
}
use kray_node.Base.Result.{ok}
use kray_node.Protocol.CutBook.{Credit, gather, number_units, assign, pay_row}
use mathlib.Core.Path.{subst, subst₂}
use kray_node.Protocol.CutBook.Views.{amount_of}

abbrev pub Owned : Option Text → Type 0
Owned none = ⊥
Owned (some owner) = is_blank owner ≡ false

-- Every unit from 1 to `cap` has an owner, and there are no others.
unfoldable pub IsEdition : ℕ → Map ℕ Text → Type 0
IsEdition cap units =
    (length units ≡ cap)
    × ((u : ℕ) → 0 < u → u ≤ cap → Owned (get u units))
    × ((u : ℕ) → cap < u → get u units ≡ none)

-- The row spends the supply, and names nobody twice.
unfoldable pub IsSpent : ℕ → Map Text ℕ → Type 0
IsSpent cap row = (sum_values amount_of row ≡ cap) × Distinct row

abbrev pub Holds : ℕ → Option (Map ℕ Text) → Map Text ℕ → Type 0
Holds cap none row = IsSpent cap row
Holds cap (some units) row = IsEdition cap units

pub weight-amount : (a : Text) (row : Map Text ℕ) → get_or 0 a row ≡ weight amount_of a row
weight-amount a row = elim (Option-cases (get a row)) [
  | inl e ↦ ground (arith, e)
  | inr (n, e) ↦ ground (arith, e)
]

pub gather-IsSpent :
    (cs : List Credit) (row : Map Text ℕ) (sum : ℕ) (spent : Map Text ℕ × ℕ)
    → gather cs row sum ≡ ok spent
    → IsSpent sum row
    → IsSpent spent.1 spent.0
unfolding gather
gather-IsSpent [] row sum spent e h = ground (arith, e, h)
gather-IsSpent (c ∷ cs) row sum spent e h =
    let n = get_or 0 c.to row + c.amount in
    let row' = set c.to n row in
    let grown : IsSpent (sum + c.amount) row' = grow n refl in
    ground (arith, e, gather-IsSpent cs row' (sum + c.amount) spent)
  where
    grow : (n : ℕ) → n ≡ get_or 0 c.to row + c.amount → IsSpent (sum + c.amount) (set c.to n row)
    grow n m =
        unfold IsSpent in
        (
          omega (arith, h.0, m, weight-amount c.to row, sum_values-set amount_of c.to n row),
          set-Distinct c.to n row h.1,
        )

number_units-IsEdition :
    (n cap : ℕ) (to : Text) (units : Map ℕ Text)
    → is_blank to ≡ false
    → IsEdition cap units
    → IsEdition (cap + n) (number_units n (cap + 1) to units)
unfolding number_units
number_units-IsEdition zero cap to units named h = subst (λ c. IsEdition c units) (omega arith) h
number_units-IsEdition (suc n) cap to units named h =
    let grown = number_units-IsEdition n (cap + 1) to (set (cap + 1) to units) named (one_more h) in
    subst (λ c. IsEdition c (number_units n (cap + 1 + 1) to (set (cap + 1) to units)))
      (omega arith) grown
  where
    one_more : IsEdition cap units → IsEdition (cap + 1) (set (cap + 1) to units)
    one_more h =
        unfold IsEdition in
        (
          ground (arith, h.0, length-set (cap + 1) to units, h.2 (cap + 1) (omega arith)),
          λ u pos le. ground (arith, named, get-set u (cap + 1) to units, h.1 u pos),
          λ u gt. ground (arith, get-set u (cap + 1) to units, h.2 u (omega arith)),
        )

pub assign-IsEdition :
    (cs : List Credit) (last : ℕ) (units : Map ℕ Text) (spent : Map ℕ Text × ℕ)
    → assign cs last units ≡ ok spent
    → IsEdition last units
    → IsEdition spent.1 spent.0
unfolding assign
assign-IsEdition [] last units spent e h =
    let a : units ≡ spent.0 = ground (arith, e) in
    let b : last ≡ spent.1 = ground (arith, e) in subst₂ IsEdition b a h
assign-IsEdition (c ∷ cs) last units spent e h =
    let units' = number_units c.amount (last + 1) c.to units in
    ground (
      arith,
      e,
      assign-IsEdition cs (last + c.amount) units' spent,
      number_units-IsEdition c.amount last c.to units,
    )

pub empty-IsEdition : IsEdition 0 []
unfolding IsEdition get
empty-IsEdition = (refl, λ u pos le. absurd (omega arith), λ u gt. refl)

pub empty-IsSpent : IsSpent 0 []
unfolding IsSpent sum_values
empty-IsSpent = (refl, tt)

-- The sender's side of a send on the row.
abbrev pub drawn : Text → ℕ → Map Text ℕ → Map Text ℕ
drawn from left row = if left == 0 then delete from row else set from left row

pub drawn_spent :
    (from : Text) (n : ℕ) (row : Map Text ℕ)
    → n ≤ get_or 0 from row
    → Distinct row
    → (sum_values amount_of (drawn from (get_or 0 from row - n) row) + n ≡ sum_values amount_of row)
      × Distinct (drawn from (get_or 0 from row - n) row)
drawn_spent from n row le d =
    let left = get_or 0 from row - n in
    ground (
      arith,
      le,
      weight-amount from row,
      sum_values-set amount_of from left row,
      sum_values-delete amount_of from row,
      set-Distinct from left row d,
      delete-Distinct from row d,
    )

pub pay_row-IsSpent :
    (from to : Text) (n cap : ℕ) (row : Map Text ℕ)
    → n ≤ get_or 0 from row
    → IsSpent cap row
    → IsSpent cap (pay_row from to n row)
unfolding pay_row IsSpent
pay_row-IsSpent from to n cap row le h =
    let row' = drawn from (get_or 0 from row - n) row in
    let (sum, d) = drawn_spent from n row le h.1 in
    (
      omega (
        arith,
        sum,
        h.0,
        weight-amount to row',
        sum_values-set amount_of to (get_or 0 to row' + n) row',
      ),
      set-Distinct to (get_or 0 to row' + n) row' d,
    )

pub set-IsEdition :
    (u cap : ℕ) (from to : Text) (units : Map ℕ Text)
    → get u units ≡ some from
    → is_blank to ≡ false
    → IsEdition cap units
    → IsEdition cap (set u to units)
unfolding IsEdition
set-IsEdition u cap from to units owned named h = (
  ground (arith, h.0, owned, length-set u to units),
  λ v pos le. ground (arith, named, get-set v u to units, h.1 v pos),
  λ v gt. ground (arith, owned, get-set v u to units, h.2 v gt),
)
