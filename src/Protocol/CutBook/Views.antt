-- ===== src/Protocol/CutBook/Views.antt =====
-- The read-only side of the book of Luz (protocol/cut-book.ts): `conserves`, `view` and the small reads.
-- Amounts are numbers here, where the source prints them in decimal for its readers.
use kray_node.Base.{
  ℕ, zero, suc, ◌+◌, Bool, true, false, not, ◌&&◌, Option, none, some, List, [], ◌∷◌, ltb, ◌==◌,
  if◌then◌else◌, length, filter,
}
use kray_node.Base.Text.{Text, text_lt, is_blank}
use kray_node.Base.Map.{text_key, nat_key, Map, get, has, get_or, set, sum_values}
use kray_node.Base.Sort.{sort}
use kray_node.Protocol.CutBook.{CutBook}

unfoldable pub supply_of : Text → CutBook → ℕ
supply_of k b = get_or 0 k b.supply

unfoldable pub is_serial_star : Text → CutBook → Bool
is_serial_star k b = has k b.serial_owners

unfoldable pub owner_of_unit : Text → ℕ → CutBook → Option Text
owner_of_unit k unit b = elim (get k b.serial_owners) [ none ↦ none | some units ↦ get unit units ]

abbrev pub is_owned : Option Text → Bool
is_owned none = false
is_owned (some owner) = not (is_blank owner)

-- `for (let i = 1n; i <= cap; i++)`, from the last unit down: each of 1 to `cap` has an owner.
unfoldable pub all_owned : ℕ → Map ℕ Text → Bool
all_owned zero units = true
all_owned (suc n) units = is_owned (get (suc n) units) && all_owned n units

abbrev pub amount_of : ℕ → ℕ
amount_of n = n

abbrev pub conserves_star : ℕ → Option (Map ℕ Text) → Map Text ℕ → Bool
conserves_star cap none row = sum_values amount_of row == cap
conserves_star cap (some units) row = length units == cap && all_owned cap units

unfoldable pub conserves_from : Map Text ℕ → CutBook → Bool
conserves_from [] b = true
conserves_from ((star, cap) ∷ m) b =
    conserves_star cap (get star b.serial_owners) (get_or [] star b.bal) && conserves_from m b

unfoldable pub conserves : CutBook → Bool
conserves b = conserves_from b.supply b

-- `holdersMap.set(owner, (holdersMap.get(owner) ?? 0n) + 1n)` over the units.
unfoldable pub count_owners : Map ℕ Text → Map Text ℕ → Map Text ℕ
count_owners [] m = m
count_owners ((unit, owner) ∷ units) m = count_owners units (set owner (get_or 0 owner m + 1) m)

-- `if (amount > 0n) holdersMap.set(address, amount)` over the row.
unfoldable pub positive_rows : Map Text ℕ → Map Text ℕ → Map Text ℕ
positive_rows [] m = m
positive_rows ((address, n) ∷ row) m = positive_rows row (if ltb 0 n then set address n m else m)

abbrev pub holders_map : Option (Map ℕ Text) → Map Text ℕ → Map Text ℕ
holders_map none row = positive_rows row []
holders_map (some units) row = count_owners units []

pub record CutView : Type 0 where
  pub star : Text
  pub supply : ℕ
  pub circulating : ℕ
  pub holders : List (Text × ℕ)
  pub units : Option (List (ℕ × Text))

-- The greater holding first, then the lesser address.
abbrev pub holder_before : Text × ℕ → Text × ℕ → Bool
holder_before x y = if x.1 == y.1 then text_lt x.0 y.0 else ltb y.1 x.1

abbrev pub listed_units : Option (Map ℕ Text) → Option (List (ℕ × Text))
listed_units none = none
listed_units (some units) = some (sort (λ (x y : ℕ × Text). ltb x.0 y.0) units)

unfoldable pub view_of : Text → ℕ → Option (Map ℕ Text) → Map Text ℕ → CutView
view_of k supply units row =
    let m = holders_map units row in
    record {
      star = k;
      supply = supply;
      circulating = sum_values amount_of m;
      holders = sort holder_before (filter (λ (h : Text × ℕ). ltb 0 h.1) m);
      units = listed_units units;
    }

unfoldable pub view : Text → CutBook → Option CutView
view k b = elim (get k b.supply) [
  | none ↦ none
  | some supply ↦ some (view_of k supply (get k b.serial_owners) (get_or [] k b.bal))
]
