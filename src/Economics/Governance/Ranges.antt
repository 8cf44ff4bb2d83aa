-- ===== src/Economics/Governance/Ranges.antt =====
-- Sets of numbered stars as spans (economics/governance.ts). A span is its start and its length.
use kray_node.Base.{
  ℕ, ◌+◌, ◌-◌, Bool, true, false, ◌&&◌, ◌||◌, List, [], ◌∷◌, ◌++◌, filter, sum_by, ltb, leb,
  if◌then◌else◌,
}
use kray_node.Base.Sort.{sort}
pub mod Laws
pub mod Clean

pub record StarRange : Type 0 where
  pub start : ℕ
  pub len : ℕ

abbrev pub end_of : StarRange → ℕ
end_of r = r.start + r.len

unfoldable pub sum_len : List StarRange → ℕ
sum_len rs = sum_by (λ r. r.len) rs

abbrev pub starts_before : StarRange → StarRange → Bool
starts_before a b = ltb a.start b.start

abbrev pub span : ℕ → ℕ → List StarRange
span a b = if ltb a b then record { start = a; len = b - a } ∷ [] else []

-- One held span from `cursor` to `stop`, less the used ones, which are in order.
unfoldable pub carve : ℕ → ℕ → List StarRange → List StarRange
carve cursor stop [] = span cursor stop
carve cursor stop (r ∷ used) =
    let skipped = carve cursor stop used in
    let later = carve (end_of r) stop used in
    if leb (end_of r) cursor
    then skipped
    else (if leb stop r.start
        then span cursor stop
        else (if leb stop (end_of r) then span cursor r.start else span cursor r.start ++ later))

unfoldable pub carve_all : List StarRange → List StarRange → List StarRange
carve_all [] used = []
carve_all (h ∷ held) used = carve h.start (end_of h) used ++ carve_all held used

unfoldable pub subtract_ranges : List StarRange → List StarRange → List StarRange
subtract_ranges held used = carve_all held (sort starts_before used)

abbrev pub has_len : StarRange → Bool
has_len r = ltb 0 r.len

-- The spans in order onto the last one merged.
unfoldable pub merge_onto : StarRange → List StarRange → List StarRange
merge_onto last [] = last ∷ []
merge_onto last (r ∷ rs) =
    let longer = merge_onto (record last { len = end_of r - last.start }) rs in
    let same = merge_onto last rs in
    let apart = last ∷ merge_onto r rs in
    if leb r.start (end_of last)
    then (if ltb (end_of last) (end_of r) then longer else same)
    else apart

unfoldable pub merge : List StarRange → List StarRange
merge [] = []
merge (r ∷ rs) = merge_onto r rs

unfoldable pub add_ranges : List StarRange → List StarRange → List StarRange
add_ranges used more = merge (sort starts_before (filter has_len (used ++ more)))

unfoldable pub meets : StarRange → StarRange → Bool
meets x y = ltb x.start (end_of y) && ltb y.start (end_of x)

unfoldable pub meets_any : StarRange → List StarRange → Bool
meets_any x [] = false
meets_any x (y ∷ b) = meets x y || meets_any x b

unfoldable pub overlaps : List StarRange → List StarRange → Bool
overlaps [] b = false
overlaps (x ∷ a) b = meets_any x b || overlaps a b
