-- ===== src/Economics/AnchorPool/Ledger.antt =====
-- What the settlements of the pool add up to (economics/anchor-pool.ts).
use kray_node.Base.{
  ℕ, ◌+◌, ◌≤◌, ◌<◌, Option, none, some, List, [], ◌∷◌, ◌++◌, map, ◌==◌, arith, Bool-cases,
  Option-cases, inl, inr,
}
use kray_node.Base.Text.{Text, text_eq}
use kray_node.Base.Map.{text_key, member}
use mathlib.Core.Path.{subst}
use kray_node.Economics.Raffle.{lower, is_beacon}
use kray_node.Economics.AnchorPool.{
  AnchorJob, Settlement, AnchorPool, RewardPolicy, offer, advance_to, advance, mark_failed,
  is_root_of, satisfied, settlement, settle, Act, offer_act, advance_act, fail_act, satisfied_act,
  settle_act, apply, replay, empty_pool,
}

-- Job numbers rise along the settlements and stay below a bound.
abbrev Rising : ℕ → List Settlement → ℕ → Type 0
Rising least [] most = least ≤ most
Rising least (s ∷ settled) most = (least ≤ s.job_id) × Rising (s.job_id + 1) settled most

Rising-append :
    (least : ℕ) (settled : List Settlement) (s : Settlement) (most : ℕ)
    → Rising least settled s.job_id
    → s.job_id < most
    → Rising least (settled ++ (s ∷ [])) most
Rising-append least [] s most h l = (h, omega (arith, l))
Rising-append least (t ∷ settled) s most (p, h) l =
    (p, Rising-append (t.job_id + 1) settled s most h l)

Rising-up :
    (least : ℕ) (settled : List Settlement) (m n : ℕ)
    → m ≤ n
    → Rising least settled m
    → Rising least settled n
Rising-up least [] m n l h = omega (arith, l, h)
Rising-up least (t ∷ settled) m n l (p, h) = (p, Rising-up (t.job_id + 1) settled m n l h)

-- The number of the pending job, or else the next number.
abbrev job_or : Option AnchorJob → ℕ → ℕ
job_or none n = n
job_or (some j) n = j.job_id

abbrev JobBelow : Option AnchorJob → ℕ → Type 0
JobBelow none n = Unit
JobBelow (some j) n = j.job_id < n

-- Every settled number is below the pending one, which is below the next; no number has two settlements.
abbrev Numbered : List Settlement → ℕ → Option AnchorJob → Type 0
Numbered settled next job = Rising 0 settled (job_or job next) × JobBelow job next

unfoldable pub IsNumbered : AnchorPool → Type 0
IsNumbered b = Numbered b.settled b.next_job_id b.job

pub empty_pool-IsNumbered : IsNumbered empty_pool
unfolding IsNumbered
empty_pool-IsNumbered = (omega arith, tt)

job_or-le : (o : Option AnchorJob) (n : ℕ) → JobBelow o n → job_or o n ≤ n
job_or-le none n h = omega arith
job_or-le (some j) n h = omega (arith, h)

no_job-IsNumbered : (b : AnchorPool) → IsNumbered b → IsNumbered (record b { job = none })
unfolding IsNumbered
no_job-IsNumbered b (r, l) =
    (Rising-up 0 b.settled _ b.next_job_id (job_or-le b.job b.next_job_id l) r, tt)

offer-IsNumbered :
    (who : Text) (sats : ℕ) (b : AnchorPool) → IsNumbered b → IsNumbered (offer who sats b)
unfolding IsNumbered offer
offer-IsNumbered who sats b h = elim (Bool-cases (sats == 0)) [ inl e ↦ rw e h | inr e ↦ rw e h ]

advance_to-IsNumbered :
    (root : Text) (height : ℕ) (b : AnchorPool)
    → IsNumbered b
    → IsNumbered (advance_to root height b)
unfolding IsNumbered advance_to
advance_to-IsNumbered root height b h = elim (Option-cases b.job) [
  | inl n ↦ let (r, l) = subst (Numbered b.settled b.next_job_id) n h in rw n (r, omega arith)
  | inr (j, n) ↦ let (r, l) = subst (Numbered b.settled b.next_job_id) n h in rw n (r, l)
]

advance-IsNumbered :
    (root : Text) (height : ℕ) (b : AnchorPool)
    → IsNumbered b
    → IsNumbered (advance root height b).1
unfolding advance
advance-IsNumbered root height b h = elim (Bool-cases (is_beacon root)) [
  | inl e ↦ rw e (advance_to-IsNumbered root height b h)
  | inr e ↦ rw e h
]

mark_failed-IsNumbered :
    (payer : Text) (b : AnchorPool) → IsNumbered b → IsNumbered (mark_failed payer b)
unfolding IsNumbered mark_failed
mark_failed-IsNumbered payer b h = elim (Option-cases b.job) [
  | inl n ↦ rw n (subst (Numbered b.settled b.next_job_id) n h)
  | inr (j, n) ↦
      let (r, l) = subst (Numbered b.settled b.next_job_id) n h in
      elim (Bool-cases (member payer j.failed)) [
        | inl e ↦ rw (n, e) (r, l)
        | inr e ↦ rw (n, e) (r, l)
      ]
]

satisfied-IsNumbered : (root : Text) (b : AnchorPool) → IsNumbered b → IsNumbered (satisfied root b)
unfolding satisfied
satisfied-IsNumbered root b h = elim (Bool-cases (is_root_of root b.job)) [
  | inl e ↦ rw e (no_job-IsNumbered b h)
  | inr e ↦ rw e h
]

settle-IsNumbered :
    (payer txid : Text) (sats : ℕ) (root : Text) (policy : RewardPolicy) (b : AnchorPool)
    → IsNumbered b
    → IsNumbered (settle payer txid sats root policy b).1
unfolding IsNumbered settle settlement
settle-IsNumbered payer txid sats root policy b h = elim (Option-cases b.job) [
  | inl n ↦ rw n (subst (Numbered b.settled b.next_job_id) n h)
  | inr (j, n) ↦
      let (r, l) = subst (Numbered b.settled b.next_job_id) n h in
      elim (Bool-cases (text_eq (map lower root) j.root)) [
        | inr e ↦ rw (n, e) (r, l)
        | inl e ↦ elim (Bool-cases (sats == 0)) [
          | inl z ↦ rw (n, e, z) (r, l)
          | inr z ↦ elim (Bool-cases (is_beacon txid)) [
            | inr t ↦ rw (n, e, z, t) (r, l)
            | inl t ↦
                rw (n, e, z, t)
                  (
                    Rising-append 0 b.settled (settlement j payer txid sats policy) b.next_job_id r
                        l,
                    tt,
                  )
          ]
        ]
      ]
]

apply-IsNumbered : (act : Act) (b : AnchorPool) → IsNumbered b → IsNumbered (apply act b)
unfolding apply
apply-IsNumbered (offer_act who sats) b h = offer-IsNumbered who sats b h
apply-IsNumbered (advance_act root height) b h = advance-IsNumbered root height b h
apply-IsNumbered (fail_act payer) b h = mark_failed-IsNumbered payer b h
apply-IsNumbered (satisfied_act root) b h = satisfied-IsNumbered root b h
apply-IsNumbered (settle_act payer txid sats root policy) b h =
    settle-IsNumbered payer txid sats root policy b h

-- Over any calls from a pool whose targets are numbered so: the settlements have rising target numbers,
-- hence no target is settled twice, all below the number of the pending target and of the next one.
pub replay-IsNumbered :
    (acts : List Act) (b : AnchorPool) → IsNumbered b → IsNumbered (replay acts b)
unfolding replay
replay-IsNumbered [] b h = h
replay-IsNumbered (act ∷ acts) b h = replay-IsNumbered acts (apply act b) (apply-IsNumbered act b h)
