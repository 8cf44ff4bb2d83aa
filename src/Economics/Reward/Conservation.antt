-- ===== src/Economics/Reward/Conservation.antt =====
-- The split pays out the whole pool, to the unit (economics/reward.ts).
use kray_node.Base.{
  ℕ, zero, suc, ◌+◌, ◌-◌, ◌*◌, ◌≤◌, ◌<◌, ◌≡◌, refl, ◌∙◌, Bool, true, false, ◌||◌, List, [], ◌∷◌,
  ltb, ◌==◌, if◌then◌else◌, filter, map, sum_by, length, All, arith, Bool-cases, Option-cases, inl,
  inr, ap,
}
use kray_node.Base.Int.{clamp}
use kray_node.Base.Text.{Text, text_eq, text_eq_refl}
use kray_node.Base.Map.{text_key, Map, get, get_or, set, sum_values, sum_values-set, weight}
use kray_node.Base.Sort.{sort, sort-All, length-sort}
use kray_node.Economics.Reward.{
  Validator, merge, Part, same_weight, total_weight, parts_of, before, bump, hand_out, part_amount,
  reward_of, with_dust, split_merged, largest_remainder_split, total_rewarded,
}
use native.Mathlib.Nat.{div-add-mod, mod-lt, le_of_mul-le-mul_right}

abbrev part_rem : Part → ℕ
part_rem q = q.rem

paid : List Part → ℕ
paid ps = sum_by part_amount ps

parts_of_sum :
    (total w : ℕ) (m : Map Text ℕ)
    → sum_by part_amount (parts_of total w m) * w + sum_by part_rem (parts_of total w m)
      ≡ total * total_weight m
unfolding parts_of sum_values
parts_of_sum total w [] = omega arith
parts_of_sum total w ((id, v) ∷ m) =
    omega (arith, parts_of_sum total w m, div-add-mod (total * v) w)

parts_of_rest :
    (total w : ℕ) (m : Map Text ℕ)
    → 0 < w
    → sum_by part_rem (parts_of total w m) + length (parts_of total w m)
      ≤ length (parts_of total w m) * w
unfolding parts_of
parts_of_rest total w [] pw = omega arith
parts_of_rest total w ((id, v) ∷ m) pw =
    omega (arith, parts_of_rest total w m pw, mod-lt (total * v) pw)

-- Fewer units are left over than there are parts.
dust_le :
    (total : ℕ) (m : Map Text ℕ)
    → 0 < total_weight m
    → let ps = parts_of total (total_weight m) m in
      (sum_by part_amount ps ≤ total) × (total - sum_by part_amount ps ≤ length ps)
dust_le total m pw =
    let w = total_weight m in
    let ps = parts_of total w m in
    let s = sum_by part_amount ps in
    let e = parts_of_sum total w m in
    let le : s ≤ total = le_of_mul-le-mul_right {k = w} (omega (arith, e)) pw in
    let back : s + (total - s) ≡ total = omega (arith, le) in
    let few : (total - s) * w ≤ length ps * w =
      omega (arith, e, parts_of_rest total w m pw, ap (λ t. t * w) back) in
    (le, le_of_mul-le-mul_right {k = w} few pw)

unfoldable has_part : Text → List Part → Bool
has_part id [] = false
has_part id (q ∷ ps) = text_eq q.id id || has_part id ps

bump_sum :
    (id : Text) (ps : List Part)
    → has_part id ps ≡ true
    → sum_by part_amount (bump id ps) ≡ sum_by part_amount ps + 1
unfolding has_part bump
bump_sum id [] h = cc
bump_sum id (q ∷ ps) h = ground (arith, h, bump_sum id ps)

has_part-bump : (id j : Text) (ps : List Part) → has_part j (bump id ps) ≡ has_part j ps
unfolding has_part bump
has_part-bump id j [] = refl
has_part-bump id j (q ∷ ps) = ground (arith, has_part-bump id j ps)

abbrev IsPartOf : List Part → Part → Type 0
IsPartOf ps q = has_part q.id ps ≡ true

bump-IsPartOf :
    (id : Text) (ps order : List Part) → All (IsPartOf ps) order → All (IsPartOf (bump id ps)) order
bump-IsPartOf id ps [] h = tt
bump-IsPartOf id ps (q ∷ order) (here, h) =
    (has_part-bump id q.id ps ∙ here, bump-IsPartOf id ps order h)

hand_out_sum :
    (dust : ℕ) (order ps : List Part)
    → dust ≤ length order
    → All (IsPartOf ps) order
    → sum_by part_amount (hand_out dust order ps) ≡ sum_by part_amount ps + dust
unfolding hand_out
hand_out_sum zero order ps le h = omega arith
hand_out_sum (suc dust) [] ps le h = absurd (omega (arith, le))
hand_out_sum (suc dust) (q ∷ order) ps le (here, h) = omega (
  arith,
  hand_out_sum dust order (bump q.id ps) (omega arith) (bump-IsPartOf q.id ps order h),
  bump_sum q.id ps here,
)

more-IsPartOf :
    (q : Part) (ps order : List Part) → All (IsPartOf ps) order → All (IsPartOf (q ∷ ps)) order
unfolding has_part
more-IsPartOf q ps [] h = tt
more-IsPartOf q ps (r ∷ order) (here, h) = (ground (arith, here), more-IsPartOf q ps order h)

self-IsPartOf : (ps : List Part) → All (IsPartOf ps) ps
self-IsPartOf [] = tt
self-IsPartOf (q ∷ ps) = (first, more-IsPartOf q ps ps (self-IsPartOf ps))
  where
    first : has_part q.id (q ∷ ps) ≡ true
    first = unfold has_part in ground (arith, text_eq_refl q.id)

-- Parts of nothing are not listed, and weigh nothing.
rewards_sum :
    (ps : List Part)
    → total_rewarded (map reward_of (filter (λ (q : Part). ltb 0 q.amount) ps))
      ≡ sum_by part_amount ps
unfolding total_rewarded
rewards_sum [] = refl
rewards_sum (q ∷ ps) = ground (arith, rewards_sum ps)

split_merged_sum :
    (total : ℕ) (m : Map Text ℕ)
    → 0 < total_weight m
    → total_rewarded (split_merged total m) ≡ total
unfolding sum_values
split_merged_sum total [] pw = absurd (omega (arith, pw))
split_merged_sum total (e ∷ m) pw =
    let ps = parts_of total (total_weight (e ∷ m)) (e ∷ m) in
    let (le, few) = dust_le total (e ∷ m) pw in
    let dust = total - sum_by part_amount ps in
    let fits : dust ≤ length (sort before ps) = omega (arith, length-sort before ps, few) in
    let present = sort-All before (IsPartOf ps) ps (self-IsPartOf ps) in
    omega (
      arith,
      rewards_sum (with_dust total ps),
      hand_out_sum dust (sort before ps) ps fits present,
      le,
    )

-- The weights of a list of validators, negative ones taken for nothing.
unfoldable pub work : List Validator → ℕ
work vs = sum_by (λ (v : Validator). clamp v.weight) vs

weight-get_or : (id : Text) (m : Map Text ℕ) → get_or 0 id m ≡ weight same_weight id m
weight-get_or id m = elim (Option-cases (get id m)) [
  | inl e ↦ ground (arith, e)
  | inr (w, e) ↦ ground (arith, e)
]

total_weight-merge :
    (vs : List Validator) (m : Map Text ℕ) → total_weight (merge vs m) ≡ total_weight m + work vs
unfolding merge work
total_weight-merge [] m = omega arith
total_weight-merge (v ∷ vs) m =
    let w = clamp v.weight in
    let m' = set v.id (get_or 0 v.id m + w) m in
    let written = sum_values-set same_weight v.id (get_or 0 v.id m + w) m in
    elim (Bool-cases (ltb 0 w)) [
      | inl e ↦ rw e (omega (arith, weight-get_or v.id m, written, total_weight-merge vs m'))
      | inr e ↦
          rw e (let z : w ≡ 0 = ground (arith, e) in omega (arith, z, total_weight-merge vs m))
    ]

no_weight : (vs : List Validator) → work vs ≡ 0 → merge vs [] ≡ []
unfolding work merge
no_weight [] h = refl
no_weight (v ∷ vs) h = ground (arith, h, no_weight vs)

-- Whatever the pool and the validators, repeated ids and negative weights included, the rewards add up
-- to the pool exactly, or to nothing where there is no positive weight.
pub largest_remainder_split_exact :
    (total : ℕ) (vs : List Validator)
    → total_rewarded (largest_remainder_split total vs) ≡ (if work vs == 0 then 0 else total)
unfolding largest_remainder_split
largest_remainder_split_exact total vs = elim (Bool-cases (work vs == 0)) [
  | inl e ↦ ground (arith, e, ap (split_merged total) (no_weight vs (ground (arith, e))), nothing)
  | inr e ↦
      let e' = total_weight-merge vs [] in
      let pw : 0 < total_weight (merge vs []) = ground (arith, e, e') in
      ground (arith, e, nothing, split_merged_sum total (merge vs []) pw)
]
  where
    nothing : total_rewarded [] ≡ 0
    nothing = unfold total_rewarded in refl
