-- ===== src/Protocol/PoolBook/Conservation.antt =====
-- What the pools hold is what was poured in and not taken out (protocol/pool-book.ts).
use kray_node.Base.{ℕ, ◌+◌, ◌-◌, ◌≤◌, ◌≡◌, refl, some, List, [], ◌∷◌, arith, Option-cases, inl, inr}
use kray_node.Base.Text.{Text, text_eq_refl}
use kray_node.Base.Map.{text_key, get, set, sum_values, sum_values-set, sum_values-delete, get-set}
use kray_node.Base.Result.{Result, ok, err}
use kray_node.Protocol.PoolBook.{
  Refusal, Pool, Pools, pool_key, funded, fund, commit, put_back, paid_out, uncommit, drain, Act,
  fund_act, commit_act, pay_act, uncommit_act, drain_act, apply, replay,
}

abbrev held_of : Pool → ℕ
held_of p = p.held

unfoldable pub all_held : Pools → ℕ
all_held b = sum_values held_of b

abbrev pub when_ok : Result Refusal (Unit {0}) → ℕ → ℕ
when_ok (ok _) n = n
when_ok (err _) n = 0

-- What a call brings into the pot, and what it takes out.
unfoldable pub poured : Act → ℕ
poured (fund_act lane asset owner n x) = n
poured (commit_act lane asset owner n) = 0
poured (pay_act lane asset owner n) = 0
poured (uncommit_act lane asset owner n) = 0
poured (drain_act lane asset owner n) = 0

unfoldable pub taken : Act → Pools → ℕ
taken (fund_act lane asset owner n x) b = 0
taken (commit_act lane asset owner n) b = 0
taken (pay_act lane asset owner n) b = when_ok (paid_out lane asset owner n b).0 n
taken (uncommit_act lane asset owner n) b = 0
taken (drain_act lane asset owner n) b = when_ok (drain lane asset owner n b).0 n

unfoldable pub all_poured : List Act → ℕ
all_poured [] = 0
all_poured (act ∷ acts) = poured act + all_poured acts

unfoldable pub all_taken : List Act → Pools → ℕ
all_taken [] b = 0
all_taken (act ∷ acts) b = taken act b + all_taken acts (apply act b).1

put_back_held :
    (k : Text) (p next : Pool) (b : Pools)
    → get k b ≡ some p
    → all_held (put_back k next b) + p.held ≡ all_held b + next.held
unfolding all_held put_back
put_back_held k p next b e =
    ground (arith, e, sum_values-set held_of k next b, sum_values-delete held_of k b)

set_held :
    (k : Text) (p next : Pool) (b : Pools)
    → get k b ≡ some p
    → all_held (set k next b) + p.held ≡ all_held b + next.held
unfolding all_held
set_held k p next b e = ground (arith, e, sum_values-set held_of k next b)

fund_held :
    (lane asset owner : Text) (n x : ℕ) (b : Pools)
    → all_held (fund lane asset owner n x b).1 ≡ all_held b + n
unfolding fund all_held
fund_held lane asset owner n x b =
    let k = pool_key lane asset owner in
    elim (Option-cases (get k b)) [
      | inl e ↦
          ground (arith, e, sum_values-set held_of k (funded lane asset owner n x (get k b)) b)
      | inr (p, e) ↦
          ground (arith, e, sum_values-set held_of k (funded lane asset owner n x (get k b)) b)
    ]

apply_held :
    (act : Act) (b : Pools) → all_held (apply act b).1 + taken act b ≡ all_held b + poured act
unfolding apply commit paid_out uncommit drain taken poured
apply_held (fund_act lane asset owner n x) b = omega (arith, fund_held lane asset owner n x b)
apply_held (commit_act lane asset owner n) b =
    let k = pool_key lane asset owner in
    elim (Option-cases (get k b)) [
      | inl e ↦ ground (arith, e)
      | inr (p, e) ↦ ground (arith, e, set_held k p (record p { committed = p.committed + n }) b e)
    ]
apply_held (pay_act lane asset owner n) b =
    let k = pool_key lane asset owner in
    elim (Option-cases (get k b)) [
      | inl e ↦ ground (arith, e)
      | inr (p, e) ↦
          let next = record p { held = p.held - n; committed = p.committed - n } in
          ground (arith, e, put_back_held k p next b e)
    ]
apply_held (uncommit_act lane asset owner n) b =
    let k = pool_key lane asset owner in
    elim (Option-cases (get k b)) [
      | inl e ↦ ground (arith, e)
      | inr (p, e) ↦ ground (arith, e, set_held k p (record p { committed = p.committed - n }) b e)
    ]
apply_held (drain_act lane asset owner n) b =
    let k = pool_key lane asset owner in
    elim (Option-cases (get k b)) [
      | inl e ↦ ground (arith, e)
      | inr (p, e) ↦ ground (arith, e, put_back_held k p (record p { held = p.held - n }) b e)
    ]

-- Over any run of calls, accepted or refused: what the pools hold at the end and what payments and
-- drains took out is what they held at the start and what was poured in.
pub replay_held :
    (acts : List Act) (b : Pools)
    → all_held (replay acts b) + all_taken acts b ≡ all_held b + all_poured acts
unfolding replay all_taken all_poured
replay_held [] b = refl
replay_held (act ∷ acts) b = omega (arith, apply_held act b, replay_held acts (apply act b).1)

same_pool : (p : Pool) (n : ℕ) → record p { committed = p.committed + n - n } ≡ p
same_pool p n = ground arith

-- A season that is drawn and then released as a whole leaves its pool as it was, and the release
-- succeeds.
pub uncommit-commit :
    (lane asset owner : Text) (n : ℕ) (p : Pool) (b : Pools)
    → get (pool_key lane asset owner) b ≡ some p
    → p.committed + n ≤ p.held
    → let (r, b') = uncommit lane asset owner n (commit lane asset owner n b).1 in
      (r ≡ ok tt) × (get (pool_key lane asset owner) b' ≡ some p)
unfolding uncommit commit
uncommit-commit lane asset owner n p b e fits =
    let k = pool_key lane asset owner in
    let drawn = record p { committed = p.committed + n } in
    let b1 = set k drawn b in
    ground (
      arith,
      e,
      fits,
      text_eq_refl k,
      same_pool p n,
      get-set k k drawn b,
      get-set k k (record p { committed = p.committed + n - n }) b1,
    )
