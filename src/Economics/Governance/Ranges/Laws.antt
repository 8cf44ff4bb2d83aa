-- ===== src/Economics/Governance/Ranges/Laws.antt =====
-- Which stars the set operations keep (economics/governance.ts).
use kray_node.Base.{
  ℕ, ◌-◌, ◌≤◌, ◌<◌, ◌≡◌, refl, Bool, false, not, ◌&&◌, ◌||◌, List, [], ◌∷◌, ◌++◌, filter, ltb, leb,
  All, arith, Bool-cases, inl, inr,
}
use kray_node.Base.Sort.{insert, sort}
use kray_node.Economics.Governance.Ranges.{
  StarRange, end_of, starts_before, span, carve, carve_all, subtract_ranges, has_len, merge_onto,
  merge, add_ranges,
}

abbrev pub in_range : ℕ → StarRange → Bool
in_range s r = leb r.start s && ltb s (end_of r)

unfoldable pub in_ranges : ℕ → List StarRange → Bool
in_ranges s [] = false
in_ranges s (r ∷ rs) = in_range s r || in_ranges s rs

-- In order of their starts.
abbrev pub IsOrdered : List StarRange → Type 0
IsOrdered [] = Unit
IsOrdered (r ∷ rs) = All (λ (x : StarRange). r.start ≤ x.start) rs × IsOrdered rs

pub in_ranges-append :
    (s : ℕ) (a b : List StarRange) → in_ranges s (a ++ b) ≡ (in_ranges s a || in_ranges s b)
unfolding in_ranges
in_ranges-append s [] b = refl
in_ranges-append s (r ∷ a) b = ground (arith, in_ranges-append s a b)

in_ranges-insert :
    (s : ℕ) (x : StarRange) (rs : List StarRange)
    → in_ranges s (insert starts_before x rs) ≡ (in_range s x || in_ranges s rs)
unfolding in_ranges insert
in_ranges-insert s x [] = refl
in_ranges-insert s x (r ∷ rs) = ground (arith, in_ranges-insert s x rs)

in_ranges-sort :
    (s : ℕ) (rs : List StarRange) → in_ranges s (sort starts_before rs) ≡ in_ranges s rs
unfolding in_ranges sort
in_ranges-sort s [] = refl
in_ranges-sort s (r ∷ rs) =
    ground (arith, in_ranges-insert s r (sort starts_before rs), in_ranges-sort s rs)

All-le :
    (a b : ℕ) (rs : List StarRange)
    → a ≤ b
    → All (λ (x : StarRange). b ≤ x.start) rs
    → All (λ (x : StarRange). a ≤ x.start) rs
All-le a b [] h all = tt
All-le a b (r ∷ rs) h (p, all) = (omega (arith, h, p), All-le a b rs h all)

All-insert :
    (a : ℕ) (x : StarRange) (rs : List StarRange)
    → a ≤ x.start
    → All (λ (y : StarRange). a ≤ y.start) rs
    → All (λ (y : StarRange). a ≤ y.start) (insert starts_before x rs)
unfolding insert
All-insert a x [] h all = (h, tt)
All-insert a x (r ∷ rs) h (p, all) = elim (Bool-cases (starts_before r x)) [
  | inl e ↦ rw e (p, All-insert a x rs h all)
  | inr e ↦ rw e (h, (p, all))
]

insert-IsOrdered :
    (x : StarRange) (rs : List StarRange) → IsOrdered rs → IsOrdered (insert starts_before x rs)
unfolding insert
insert-IsOrdered x [] h = (tt, tt)
insert-IsOrdered x (r ∷ rs) (all, h) = elim (Bool-cases (starts_before r x)) [
  | inl e ↦ rw e (All-insert r.start x rs (ground (arith, e)) all, insert-IsOrdered x rs h)
  | inr e ↦ rw e ((ground (arith, e), All-le x.start r.start rs (ground (arith, e)) all), (all, h))
]

pub sort-IsOrdered : (rs : List StarRange) → IsOrdered (sort starts_before rs)
unfolding sort
sort-IsOrdered [] = tt
sort-IsOrdered (r ∷ rs) = insert-IsOrdered r (sort starts_before rs) (sort-IsOrdered rs)

-- Behind a place where spans begin there is no star before it.
in_ranges-before :
    (s a : ℕ) (rs : List StarRange)
    → s < a
    → All (λ (x : StarRange). a ≤ x.start) rs
    → in_ranges s rs ≡ false
unfolding in_ranges
in_ranges-before s a [] h all = refl
in_ranges-before s a (r ∷ rs) h (p, all) = ground (arith, h, p, in_ranges-before s a rs h all)

in_ranges-span : (s a b : ℕ) → in_ranges s (span a b) ≡ (leb a s && ltb s b)
unfolding in_ranges
in_ranges-span s a b = ground arith

in_ranges-carve :
    (s cursor stop : ℕ) (used : List StarRange)
    → IsOrdered used
    → in_ranges s (carve cursor stop used)
      ≡ ((leb cursor s && ltb s stop) && not (in_ranges s used))
unfolding in_ranges carve
in_ranges-carve s cursor stop [] o = ground (arith, in_ranges-span s cursor stop)
in_ranges-carve s cursor stop (r ∷ used) (all, o) =
    let skipped = in_ranges-carve s cursor stop used o in
    let later = in_ranges-carve s (end_of r) stop used o in
    let before_start : s < r.start → in_ranges s used ≡ false =
      λ h. in_ranges-before s r.start used h all in
    elim (Bool-cases (leb (end_of r) cursor)) [
      | inl before ↦ rw (before, skipped) (ground (arith, before))
      | inr e1 ↦ elim (Bool-cases (leb stop r.start)) [
        | inl behind ↦
            rw (e1, behind, in_ranges-span s cursor stop) (ground (arith, behind, before_start))
        | inr e2 ↦ elim (Bool-cases (leb stop (end_of r))) [
          | inl last ↦
              rw (e1, e2, last, in_ranges-span s cursor r.start)
                (ground (arith, e1, e2, last, before_start))
          | inr e3 ↦
              rw
                (
                  e1,
                  e2,
                  e3,
                  in_ranges-append s (span cursor r.start) (carve (end_of r) stop used),
                  in_ranges-span s cursor r.start,
                  later,
                )
                (ground (arith, e1, e2, e3, before_start))
        ]
      ]
    ]

in_ranges-carve_all :
    (s : ℕ) (held used : List StarRange)
    → IsOrdered used
    → in_ranges s (carve_all held used) ≡ (in_ranges s held && not (in_ranges s used))
unfolding in_ranges carve_all
in_ranges-carve_all s [] used o = refl
in_ranges-carve_all s (h ∷ held) used o = ground (
  arith,
  in_ranges-append s (carve h.start (end_of h) used) (carve_all held used),
  in_ranges-carve s h.start (end_of h) used o,
  in_ranges-carve_all s held used o,
)

-- A star is in what is left of the held spans exactly if it is held and not used.
pub in_ranges-subtract_ranges :
    (s : ℕ) (held used : List StarRange)
    → in_ranges s (subtract_ranges held used) ≡ (in_ranges s held && not (in_ranges s used))
unfolding subtract_ranges
in_ranges-subtract_ranges s held used = ground (
  arith,
  in_ranges-carve_all s held (sort starts_before used) (sort-IsOrdered used),
  in_ranges-sort s used,
)

in_ranges-merge_onto :
    (s : ℕ) (last : StarRange) (rs : List StarRange)
    → All (λ (x : StarRange). last.start ≤ x.start) rs
    → IsOrdered rs
    → in_ranges s (merge_onto last rs) ≡ (in_range s last || in_ranges s rs)
unfolding in_ranges merge_onto
in_ranges-merge_onto s last [] all o = refl
in_ranges-merge_onto s last (r ∷ rs) (p, all) (ro, o) = ground (
  arith,
  p,
  in_ranges-merge_onto s (record last { len = end_of r - last.start }) rs all o,
  in_ranges-merge_onto s last rs all o,
  in_ranges-merge_onto s r rs ro o,
)

in_ranges-merge :
    (s : ℕ) (rs : List StarRange) → IsOrdered rs → in_ranges s (merge rs) ≡ in_ranges s rs
unfolding in_ranges merge
in_ranges-merge s [] o = refl
in_ranges-merge s (r ∷ rs) (all, o) = in_ranges-merge_onto s r rs all o

in_ranges-filter : (s : ℕ) (rs : List StarRange) → in_ranges s (filter has_len rs) ≡ in_ranges s rs
unfolding in_ranges
in_ranges-filter s [] = refl
in_ranges-filter s (r ∷ rs) = ground (arith, in_ranges-filter s rs)

-- The merged spans hold the stars of both.
pub in_ranges-add_ranges :
    (s : ℕ) (used more : List StarRange)
    → in_ranges s (add_ranges used more) ≡ (in_ranges s used || in_ranges s more)
unfolding add_ranges
in_ranges-add_ranges s used more = ground (
  arith,
  in_ranges-merge s (sort starts_before (filter has_len (used ++ more)))
      (sort-IsOrdered (filter has_len (used ++ more))),
  in_ranges-sort s (filter has_len (used ++ more)),
  in_ranges-filter s (used ++ more),
  in_ranges-append s used more,
)
