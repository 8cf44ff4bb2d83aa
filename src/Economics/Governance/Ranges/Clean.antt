-- ===== src/Economics/Governance/Ranges/Clean.antt =====
-- Spans that overlap share a star (economics/governance.ts).
use kray_node.Base.{
  ℕ, ◌-◌, ◌≡◌, refl, max, true, false, List, [], ◌∷◌, ◌++◌, filter, ltb, leb, All, arith,
  Bool-cases, inl, inr,
}
use kray_node.Base.Sort.{sort, sort-All}
use kray_node.Economics.Governance.Ranges.{
  StarRange, end_of, starts_before, span, carve, carve_all, subtract_ranges, has_len, merge_onto,
  merge, add_ranges, meets, meets_any, overlaps,
}
use kray_node.Economics.Governance.Ranges.Laws.{in_range, in_ranges, in_ranges-subtract_ranges}

-- No span is empty.
unfoldable pub AllLong : List StarRange → Type 0
AllLong rs = All (λ r. has_len r ≡ true) rs

meets_any-apart :
    (s : ℕ) (x : StarRange) (b : List StarRange)
    → meets_any x b ≡ false
    → in_range s x ≡ true
    → in_ranges s b ≡ false
unfolding meets_any meets in_ranges
meets_any-apart s x [] h i = refl
meets_any-apart s x (y ∷ b) h i = ground (arith, h, i, meets_any-apart s x b)

-- Sets that do not overlap have no star in common.
pub overlaps-apart :
    (s : ℕ) (a b : List StarRange)
    → overlaps a b ≡ false
    → in_ranges s a ≡ true
    → in_ranges s b ≡ false
unfolding overlaps in_ranges
overlaps-apart s [] b h i = ground (arith, i)
overlaps-apart s (x ∷ a) b h i = ground (arith, h, i, meets_any-apart s x b, overlaps-apart s a b)

abbrev Shared : List StarRange → List StarRange → Type 0
Shared a b = (s : ℕ) × (in_ranges s a ≡ true) × (in_ranges s b ≡ true)

meets_any-shared :
    (x : StarRange) (b : List StarRange)
    → has_len x ≡ true
    → AllLong b
    → meets_any x b ≡ true
    → (s : ℕ) × (in_range s x ≡ true) × (in_ranges s b ≡ true)
unfolding meets_any meets in_ranges AllLong
meets_any-shared x [] hx hb m = ground (arith, m)
meets_any-shared x (y ∷ b) hx (hy, hb) m = elim (Bool-cases (meets x y)) [
  | inl e ↦ (max x.start y.start, ground (arith, e, hx, hy), ground (arith, e, hx, hy))
  | inr e ↦
      let (s, ix, ib) = meets_any-shared x b hx hb (ground (arith, e, m)) in
      (s, ix, ground (arith, ib))
]

overlaps-Shared : (a b : List StarRange) → AllLong a → AllLong b → overlaps a b ≡ true → Shared a b
unfolding overlaps in_ranges AllLong
overlaps-Shared [] b ha hb m = ground (arith, m)
overlaps-Shared (x ∷ a) b (hx, ha) hb m = elim (Bool-cases (meets_any x b)) [
  | inl e ↦ let (s, ix, ib) = meets_any-shared x b hx hb e in (s, ground (arith, ix), ib)
  | inr e ↦
      let (s, ia, ib) = overlaps-Shared a b ha hb (ground (arith, e, m)) in
      (s, ground (arith, ia), ib)
]

span-AllLong : (a b : ℕ) → AllLong (span a b)
unfolding AllLong
span-AllLong a b = elim (Bool-cases (ltb a b)) [
  | inl e ↦ rw e (ground (arith, e), tt)
  | inr e ↦ rw e tt
]

append-AllLong : (a b : List StarRange) → AllLong a → AllLong b → AllLong (a ++ b)
unfolding AllLong
append-AllLong [] b ha hb = hb
append-AllLong (x ∷ a) b (hx, ha) hb = (hx, append-AllLong a b ha hb)

carve-AllLong : (cursor stop : ℕ) (used : List StarRange) → AllLong (carve cursor stop used)
unfolding carve
carve-AllLong cursor stop [] = span-AllLong cursor stop
carve-AllLong cursor stop (r ∷ used) =
    let skipped = carve-AllLong cursor stop used in
    let later = carve-AllLong (end_of r) stop used in
    let gap = span-AllLong cursor r.start in
    ground (
      arith,
      skipped,
      gap,
      span-AllLong cursor stop,
      append-AllLong (span cursor r.start) (carve (end_of r) stop used) gap later,
    )

carve_all-AllLong : (held used : List StarRange) → AllLong (carve_all held used)
unfolding carve_all AllLong
carve_all-AllLong [] used = tt
carve_all-AllLong (h ∷ held) used =
    append-AllLong _ _ (carve-AllLong h.start (end_of h) used) (carve_all-AllLong held used)

pub subtract_ranges-AllLong : (held used : List StarRange) → AllLong (subtract_ranges held used)
unfolding subtract_ranges
subtract_ranges-AllLong held used = carve_all-AllLong held (sort starts_before used)

merge_onto-AllLong :
    (last : StarRange) (rs : List StarRange)
    → has_len last ≡ true
    → AllLong rs
    → AllLong (merge_onto last rs)
unfolding merge_onto AllLong
merge_onto-AllLong last [] h hs = (h, tt)
merge_onto-AllLong last (r ∷ rs) h (hr, hs) = elim (Bool-cases (leb r.start (end_of last))) [
  | inl e ↦ elim (Bool-cases (ltb (end_of last) (end_of r))) [
    | inl l ↦
        rw (e, l)
          (merge_onto-AllLong (record last { len = end_of r - last.start }) rs
            (ground (arith, l, h)) hs)
    | inr l ↦ rw (e, l) (merge_onto-AllLong last rs h hs)
  ]
  | inr e ↦ rw e (h, merge_onto-AllLong r rs hr hs)
]

filter-AllLong : (rs : List StarRange) → AllLong (filter has_len rs)
unfolding AllLong
filter-AllLong [] = tt
filter-AllLong (r ∷ rs) = elim (Bool-cases (has_len r)) [
  | inl e ↦ rw e (e, filter-AllLong rs)
  | inr e ↦ rw e (filter-AllLong rs)
]

merge-AllLong : (rs : List StarRange) → AllLong rs → AllLong (merge rs)
unfolding merge AllLong
merge-AllLong [] h = tt
merge-AllLong (r ∷ rs) (hr, h) = merge_onto-AllLong r rs hr h

pub add_ranges-AllLong : (used more : List StarRange) → AllLong (add_ranges used more)
unfolding add_ranges AllLong
add_ranges-AllLong used more = merge-AllLong _ (
    sort-All starts_before (λ r. has_len r ≡ true) (filter has_len (used ++ more))
      (filter-AllLong (used ++ more)))

-- What is left of the held spans never overlaps the used ones.
pub overlaps-subtract_ranges :
    (held used : List StarRange) → AllLong used → overlaps (subtract_ranges held used) used ≡ false
overlaps-subtract_ranges held used h =
    elim (Bool-cases (overlaps (subtract_ranges held used) used)) [
      | inl e ↦
          let (s, ia, ib) =
            overlaps-Shared (subtract_ranges held used) used (subtract_ranges-AllLong held used) h
              e in
          ground (arith, ia, ib, in_ranges-subtract_ranges s held used)
      | inr e ↦ e
    ]
