-- ===== src/Economics/Raffle/Fair.antt =====
-- The chances of the raffle (economics/raffle.ts).
use kray_node.Base.{
  ℕ, zero, suc, ◌+◌, ◌≤◌, ◌<◌, ◌≡◌, refl, Bool, true, false, List, [], ◌∷◌, filter, sum_by, ltb,
  if◌then◌else◌, arith,
}
use kray_node.Base.Text.{Text, text_eq}
use kray_node.Base.Sort.{sort, sum_by-sort}
use kray_node.Economics.Raffle.{
  RaffleEntry, by_address, has_work, total_work, winner_from, winner_at,
}

-- How many of `n` draws from `d` on pass a test.
unfoldable pub count_from : ℕ → ℕ → (ℕ → Bool) → ℕ
count_from d zero test = 0
count_from d (suc n) test = (if test d then 1 else 0) + count_from (suc d) n test

count_from_split :
    (d l k m n : ℕ) (test : ℕ → Bool)
    → l ≡ m + n
    → k ≡ d + m
    → count_from d l test ≡ count_from d m test + count_from k n test
unfolding count_from
count_from_split d l k zero n test el ek =
    let e1 : l ≡ n = omega (arith, el) in
    let e2 : k ≡ d = omega (arith, ek) in rw (e1, e2) (omega arith)
count_from_split d zero k (suc m) n test el ek = absurd (omega (arith, el))
count_from_split d (suc l) k (suc m) n test el ek =
    omega (arith, count_from_split (suc d) l k m n test (omega (arith, el)) (omega (arith, ek)))

-- All draws, or none, pass where the test has one answer.
count_from_same :
    (d n : ℕ) (v : Bool) (test : ℕ → Bool)
    → ((i : ℕ) → d ≤ i → i < d + n → test i ≡ v)
    → count_from d n test ≡ (if v then n else 0)
unfolding count_from
count_from_same d zero v test h = ground arith
count_from_same d (suc n) v test h = ground (
  arith,
  h d,
  count_from_same (suc d) n v test (λ i lo hi. h i (omega (arith, lo)) (omega (arith, hi))),
)

count_from-cong :
    (d n : ℕ) (f g : ℕ → Bool) → ((i : ℕ) → d ≤ i → f i ≡ g i) → count_from d n f ≡ count_from d n g
unfolding count_from
count_from-cong d zero f g h = refl
count_from-cong d (suc n) f g h =
    ground (arith, h d, count_from-cong (suc d) n f g (λ i lo. h i (omega (arith, lo))))

count_from-zero : (d : ℕ) (test : ℕ → Bool) → count_from d 0 test ≡ 0
unfolding count_from
count_from-zero d test = refl

abbrev pub work_of : Text → RaffleEntry → ℕ
work_of a e = if text_eq e.address a then e.work else 0

count_winner_from :
    (acc : ℕ) (last a : Text) (entries : List RaffleEntry)
    → count_from acc
        (sum_by (λ (e : RaffleEntry). e.work) entries)
        (λ (d : ℕ). text_eq (winner_from acc d last entries) a)
      ≡ sum_by (work_of a) entries
unfolding winner_from
count_winner_from acc last a [] = count_from-zero acc _
count_winner_from acc last a (e ∷ entries) =
    let rest_work = sum_by (λ (x : RaffleEntry). x.work) entries in
    let here = λ (d : ℕ). text_eq (winner_from acc d last (e ∷ entries)) a in
    let later = λ (d : ℕ). text_eq (winner_from (acc + e.work) d e.address entries) a in
    let mine : count_from acc e.work here ≡ (if text_eq e.address a then e.work else 0) =
      count_from_same acc e.work (text_eq e.address a) here
        (λ i lo hi. let b : ltb i (acc + e.work) ≡ true = ground (arith, hi) in rw b) in
    let others : count_from (acc + e.work) rest_work here
        ≡ count_from (acc + e.work) rest_work later =
      count_from-cong (acc + e.work) rest_work here later
        (λ i lo. let b : ltb i (acc + e.work) ≡ false = ground (arith, lo) in rw b) in
    omega (
      arith,
      count_from_split acc (e.work + rest_work) (acc + e.work) e.work rest_work here refl refl,
      mine,
      others,
      count_winner_from (acc + e.work) e.address a entries,
    )

sum_by-filter :
    (a : Text) (entries : List RaffleEntry)
    → sum_by (work_of a) (filter has_work entries) ≡ sum_by (work_of a) entries
sum_by-filter a [] = refl
sum_by-filter a (e ∷ entries) = ground (arith, sum_by-filter a entries)

-- Of the draws below the whole work, an address wins exactly as many as it has work in all its entries:
-- splitting work over entries or addresses wins nothing.
pub count_winner_at :
    (a : Text) (entries : List RaffleEntry)
    → count_from 0 (total_work entries) (λ (d : ℕ). text_eq (winner_at d entries) a)
      ≡ sum_by (work_of a) entries
unfolding winner_at total_work
count_winner_at a entries =
    let live = filter has_work entries in
    let sorted = sort by_address live in
    let total : sum_by (λ (x : RaffleEntry). x.work) live
        ≡ sum_by (λ (x : RaffleEntry). x.work) sorted =
      omega (arith, sum_by-sort by_address (λ (x : RaffleEntry). x.work) live) in
    rw total (
      omega (
        arith,
        count_winner_from 0 [] a sorted,
        sum_by-sort by_address (work_of a) live,
        sum_by-filter a entries,
      ))
