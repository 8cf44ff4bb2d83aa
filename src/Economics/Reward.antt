-- ===== src/Economics/Reward.antt =====
-- The split of a fee pool by work, `largestRemainderSplit` (economics/reward.ts): Hamilton's method. The
-- pool is a natural number here, 0 standing for every total that pays nothing.
use kray_node.Base.{
  ℕ, zero, suc, ◌+◌, ◌-◌, ◌*◌, ◌/◌, ◌%◌, Bool, true, false, Option, none, some, List, [], ◌∷◌, ltb,
  ◌==◌, if◌then◌else◌, filter, map, sum_by, length,
}
use kray_node.Base.Int.{ℤ, clamp}
use kray_node.Base.Text.{Text, text_eq, text_lt}
use kray_node.Base.Map.{text_key, Map, get_or, set, sum_values}
use kray_node.Base.Sort.{sort}
pub mod Conservation
mod Tests

pub record Validator : Type 0 where
  pub id : Text
  pub weight : ℤ

pub record Reward : Type 0 where
  pub id : Text
  pub amount : ℕ

-- Weights summed by id, in the order of first appearance, without those that are not positive.
unfoldable pub merge : List Validator → Map Text ℕ → Map Text ℕ
merge [] m = m
merge (v ∷ vs) m =
    let w = clamp v.weight in
    if ltb 0 w then merge vs (set v.id (get_or 0 v.id m + w) m) else merge vs m

pub record Part : Type 0 where
  pub id : Text
  pub w : ℕ
  pub amount : ℕ
  pub rem : ℕ

abbrev pub same_weight : ℕ → ℕ
same_weight w = w

abbrev pub total_weight : Map Text ℕ → ℕ
total_weight m = sum_values same_weight m

unfoldable pub parts_of : ℕ → ℕ → Map Text ℕ → List Part
parts_of total total_w [] = []
parts_of total total_w ((id, w) ∷ m) =
    record { id = id; w = w; amount = (total * w) / total_w; rem = (total * w) % total_w }
    ∷ parts_of total total_w m

-- The comparator's negative answers: the greater remainder first, then the greater weight, then the id.
abbrev pub before : Part → Part → Bool
before a b =
    if a.rem == b.rem
    then if a.w == b.w then text_lt a.id b.id else ltb b.w a.w
    else ltb b.rem a.rem

-- `order[i].amount += 1n`, where the order shares its rows with the parts: the row of that id.
unfoldable pub bump : Text → List Part → List Part
bump id [] = []
bump id (q ∷ ps) =
    let rest = bump id ps in
    if text_eq q.id id then record q { amount = q.amount + 1 } ∷ ps else q ∷ rest

-- `for (let i = 0; dust > 0n; i++, dust--)`; the dust never outruns the order (dust_lt).
unfoldable pub hand_out : ℕ → List Part → List Part → List Part
hand_out zero order ps = ps
hand_out (suc dust) [] ps = ps
hand_out (suc dust) (q ∷ order) ps = hand_out dust order (bump q.id ps)

abbrev pub part_amount : Part → ℕ
part_amount q = q.amount

abbrev pub reward_of : Part → Reward
reward_of q = record { id = q.id; amount = q.amount }

abbrev pub with_dust : ℕ → List Part → List Part
with_dust total ps = hand_out (total - sum_by part_amount ps) (sort before ps) ps

abbrev pub split_merged : ℕ → Map Text ℕ → List Reward
split_merged total [] = []
split_merged total (e ∷ m) = map reward_of (
    filter (λ (q : Part). ltb 0 q.amount)
      (with_dust total (parts_of total (total_weight (e ∷ m)) (e ∷ m))))

unfoldable pub largest_remainder_split : ℕ → List Validator → List Reward
largest_remainder_split total validators =
    if total == 0 then [] else split_merged total (merge validators [])

unfoldable pub total_rewarded : List Reward → ℕ
total_rewarded rewards = sum_by (λ (r : Reward). r.amount) rewards
