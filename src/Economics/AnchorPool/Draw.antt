-- ===== src/Economics/AnchorPool/Draw.antt =====
-- Who is drawn to pay (economics/anchor-pool.ts).
use kray_node.Base.{
  ℕ, zero, suc, ◌≤◌, ◌<◌, ◌≡◌, ◌≢◌, refl, sym, ◌∙◌, true, false, none, some, List, [], ◌∷◌, ◌++◌,
  map, filter, length, get_elem?, All, arith, Bool-cases, Option-cases, inl, inr,
}
use kray_node.Base.Text.{Text, text_eq_iff, text_lt}
use kray_node.Base.Map.{text_key, Map, get, member, Distinct, get-All}
use kray_node.Base.Sort.{sort-All, length-sort}
use native.Mathlib.Nat.{mod-lt}
use kray_node.Economics.Raffle.{lower, is_beacon}
use kray_node.Economics.AnchorPool.{
  Offer, AnchorJob, AnchorPool, offer, failed_of, is_ready, address_of, candidates, advance_to,
  advance, pick, draw, with_failed, mark_failed, Act, offer_act, advance_act, fail_act,
  satisfied_act, settle_act, apply, replay,
}

-- The offer stands, is enough, and has not failed the target.
abbrev pub IsReady : ℕ → List Text → Map Text Offer → Text → Type 0
IsReady min_fee failed offers a =
    (member a failed ≡ false) × ((o : Offer) × (get a offers ≡ some o) × (min_fee ≤ o.sats))

IsReady-All :
    (min_fee : ℕ) (failed : List Text) (offers m : Map Text Offer)
    → All (λ (x : Text × Offer). get x.0 offers ≡ some x.1) m
    → All (IsReady min_fee failed offers) (map address_of (filter (is_ready min_fee failed) m))
IsReady-All min_fee failed offers [] h = tt
IsReady-All min_fee failed offers ((a, o) ∷ m) (e, h) =
    elim (Bool-cases (is_ready min_fee failed (a, o))) [
      | inl r ↦
          rw r
            ((ground (arith, r), (o, e, ground (arith, r))), IsReady-All min_fee failed offers m h)
      | inr r ↦ rw r (IsReady-All min_fee failed offers m h)
    ]

get_elem?-All :
    (P : Text → Type 0) (xs : List Text) (i : ℕ) (a : Text)
    → All P xs
    → get_elem? xs i ≡ some a
    → P a
get_elem?-All P [] i a h e = cc
get_elem?-All P (x ∷ xs) zero a (p, h) e = let ex : x ≡ a = cc in rw (← ex) p
get_elem?-All P (x ∷ xs) (suc i) a (p, h) e = get_elem?-All P xs i a h e

candidates-All :
    (min_fee : ℕ) (b : AnchorPool)
    → Distinct b.offers
    → All (IsReady min_fee (failed_of b.job) b.offers) (candidates min_fee b)
unfolding candidates
candidates-All min_fee b d = sort-All text_lt (IsReady min_fee (failed_of b.job) b.offers) _ (
    IsReady-All min_fee (failed_of b.job) b.offers b.offers
      (get-All {P = λ k v. get k b.offers ≡ some v} b.offers d (λ k v e. e)))

filter-some :
    (min_fee : ℕ) (failed : List Text) (a : Text) (o : Offer) (m : Map Text Offer)
    → get a m ≡ some o
    → is_ready min_fee failed (a, o) ≡ true
    → 0 < length (map address_of (filter (is_ready min_fee failed) m))
unfolding get
filter-some min_fee failed a o [] e r = cc
filter-some min_fee failed a o ((k, v) ∷ m) e r =
    ground (arith, e, r, text_eq_iff k a, filter-some min_fee failed a o m)

get_elem?-some : (xs : List Text) (i : ℕ) → i < length xs → (a : Text) × (get_elem? xs i ≡ some a)
get_elem?-some [] i h = absurd (omega arith)
get_elem?-some (x ∷ xs) zero h = (x, refl)
get_elem?-some (x ∷ xs) (suc i) h = get_elem?-some xs i (omega (arith, h))

module _ (hash_of : Text → Text) where
  pick-elem :
      (P : Text → Type 0) (beacon : Text) (job_id : ℕ) (root : Text) (cands : List Text) (a : Text)
      → All P cands
      → pick hash_of beacon job_id root cands ≡ some a
      → P a
  unfolding pick
  pick-elem P beacon job_id root [] a h e = cc
  pick-elem P beacon job_id root (c ∷ cands) a h e = get_elem?-All P (c ∷ cands) _ a h e

  pick-some :
      (beacon : Text) (job_id : ℕ) (root : Text) (cands : List Text)
      → 0 < length cands
      → (a : Text) × (pick hash_of beacon job_id root cands ≡ some a)
  unfolding pick
  pick-some beacon job_id root [] h = absurd (omega arith)
  pick-some beacon job_id root (c ∷ cands) h = get_elem?-some (c ∷ cands) _ (mod-lt _ h)

  draw-none :
      (beacon : Text) (min_fee : ℕ) (b : AnchorPool)
      → b.job ≡ none
      → draw hash_of beacon min_fee b ≡ none
  unfolding draw
  draw-none beacon min_fee b n = rw n

  draw-job :
      (beacon : Text) (min_fee : ℕ) (b : AnchorPool) (j : AnchorJob)
      → b.job ≡ some j
      → draw hash_of beacon min_fee b ≡ pick hash_of beacon j.job_id j.root (candidates min_fee b)
  unfolding draw
  draw-job beacon min_fee b j n = rw n

  -- The offers have one entry for each address. Whoever is drawn has an offer that stands and is at
  -- least the fee, and has not failed the target.
  pub draw-IsReady :
      (beacon : Text) (min_fee : ℕ) (b : AnchorPool) (a : Text)
      → Distinct b.offers
      → draw hash_of beacon min_fee b ≡ some a
      → IsReady min_fee (failed_of b.job) b.offers a
  draw-IsReady beacon min_fee b a d e = elim (Option-cases b.job) [
    | inl n ↦ let no : none ≡ some a = sym (draw-none beacon min_fee b n) ∙ e in cc
    | inr (j, n) ↦
        pick-elem (IsReady min_fee (failed_of b.job) b.offers) beacon j.job_id j.root
          (candidates min_fee b) a (candidates-All min_fee b d)
          (sym (draw-job beacon min_fee b j n) ∙ e)
  ]

  -- A target is pending, and an address has an offer of at least the fee and has not failed. Then
  -- somebody is drawn.
  pub draw-some :
      (beacon : Text) (min_fee : ℕ) (b : AnchorPool) (j : AnchorJob) (a : Text) (o : Offer)
      → b.job ≡ some j
      → get a b.offers ≡ some o
      → min_fee ≤ o.sats
      → member a j.failed ≡ false
      → (payer : Text) × (draw hash_of beacon min_fee b ≡ some payer)
  unfolding candidates
  draw-some beacon min_fee b j a o n e m f =
      let ready : is_ready min_fee (failed_of b.job) (a, o) ≡ true = rw n (ground (arith, m, f)) in
      let waiting = filter-some min_fee (failed_of b.job) a o b.offers e ready in
      let all = map address_of (filter (is_ready min_fee (failed_of b.job)) b.offers) in
      let (payer, p) =
        pick-some beacon j.job_id j.root (candidates min_fee b)
          (omega (arith, waiting, length-sort text_lt all)) in
      (payer, draw-job beacon min_fee b j n ∙ p)

-- The target is pending and the address has failed it.
unfoldable HasFailed : Text → AnchorPool → Type 0
HasFailed a b = (j : AnchorJob) × (b.job ≡ some j) × (member a j.failed ≡ true)

-- The calls that leave a target pending.
abbrev pub KeepsJob : Act → Type 0
KeepsJob (offer_act address sats) = Unit
KeepsJob (advance_act root height) = Unit
KeepsJob (fail_act payer) = Unit
KeepsJob (satisfied_act root) = ⊥
KeepsJob (settle_act payer txid sats root policy) = ⊥

member-append : (a : Text) (s t : List Text) → member a s ≡ true → member a (s ++ t) ≡ true
unfolding member
member-append a [] t h = ground (arith, h)
member-append a (x ∷ s) t h = ground (arith, h, member-append a s t)

member-last : (a : Text) (s : List Text) → member a (s ++ (a ∷ [])) ≡ true
unfolding member
member-last a [] = ground (arith, text_eq_iff a a)
member-last a (x ∷ s) = ground (arith, member-last a s)

with_failed-member :
    (a payer : Text) (j : AnchorJob)
    → member a j.failed ≡ true
    → member a (with_failed payer j).failed ≡ true
with_failed-member a payer j h = elim (Bool-cases (member payer j.failed)) [
  | inl e ↦ rw e h
  | inr e ↦ rw e (member-append a j.failed (payer ∷ []) h)
]

offer-HasFailed :
    (a who : Text) (sats : ℕ) (b : AnchorPool) → HasFailed a b → HasFailed a (offer who sats b)
unfolding HasFailed offer
offer-HasFailed a who sats b (j, n, m) = (j, ground (arith, n), m)

advance-HasFailed :
    (a root : Text) (height : ℕ) (b : AnchorPool)
    → HasFailed a b
    → HasFailed a (advance root height b).1
unfolding HasFailed advance advance_to
advance-HasFailed a root height b (j, n, m) = elim (Bool-cases (is_beacon root)) [
  | inl e ↦ (record j { root = map lower root; height = height }, rw (e, n), m)
  | inr e ↦ (j, rw e n, m)
]

apply-HasFailed :
    (a : Text) (act : Act) (b : AnchorPool)
    → KeepsJob act
    → HasFailed a b
    → HasFailed a (apply act b)
unfolding HasFailed apply mark_failed
apply-HasFailed a (offer_act who sats) b k h = offer-HasFailed a who sats b h
apply-HasFailed a (advance_act root height) b k h = advance-HasFailed a root height b h
apply-HasFailed a (fail_act payer) b k (j, n, m) =
    (with_failed payer j, rw n, with_failed-member a payer j m)
apply-HasFailed a (satisfied_act root) b k h = absurd k
apply-HasFailed a (settle_act payer txid sats root policy) b k h = absurd k

replay-HasFailed :
    (a : Text) (acts : List Act) (b : AnchorPool)
    → All KeepsJob acts
    → HasFailed a b
    → HasFailed a (replay acts b)
unfolding replay
replay-HasFailed a [] b k h = h
replay-HasFailed a (act ∷ acts) b (k, ks) h =
    replay-HasFailed a acts _ ks (apply-HasFailed a act b k h)

mark_failed-HasFailed :
    (a : Text) (b : AnchorPool) (j : AnchorJob) → b.job ≡ some j → HasFailed a (mark_failed a b)
unfolding HasFailed mark_failed
mark_failed-HasFailed a b j n = (
  with_failed a j,
  rw n,
  elim (Bool-cases (member a j.failed)) [ inl e ↦ rw e e | inr e ↦ rw e (member-last a j.failed) ],
)

-- A target is pending and the drawn payer is marked as failed; offers, new roots and failures follow,
-- no seal of the target. Then that payer is not drawn again for it, whatever the beacon and the fee.
pub draw-mark_failed :
    (hash_of : Text → Text) (beacon : Text) (min_fee : ℕ) (b : AnchorPool) (j : AnchorJob)
    (a : Text) (acts : List Act)
    → b.job ≡ some j
    → All KeepsJob acts
    → Distinct (replay acts (mark_failed a b)).offers
    → draw hash_of beacon min_fee (replay acts (mark_failed a b)) ≢ some a
unfolding HasFailed
draw-mark_failed hash_of beacon min_fee b j a acts n k d e =
    let (j', n', m) = replay-HasFailed a acts (mark_failed a b) k (mark_failed-HasFailed a b j n) in
    let (f, r) = draw-IsReady hash_of beacon min_fee (replay acts (mark_failed a b)) a d e in
    ground (arith, f, m, n')
