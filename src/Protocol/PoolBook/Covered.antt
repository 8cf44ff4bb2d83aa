-- ===== src/Protocol/PoolBook/Covered.antt =====
-- No pool ever owes its seasons more than it holds (protocol/pool-book.ts).
use kray_node.Base.{◌+◌, ◌-◌, ◌≤◌, ◌≡◌, some, List, [], ◌∷◌, All, arith, Option-cases, inl, inr}
use kray_node.Base.Text.{Text}
use kray_node.Base.Map.{text_key, get, set, delete}
use kray_node.Protocol.PoolBook.{
  Pool, Pools, pool_key, funded, fund, commit, put_back, paid_out, uncommit, drain, Act, fund_act,
  commit_act, pay_act, uncommit_act, drain_act, apply, replay,
}

abbrev pub IsCoveredPool : Text × Pool → Type 0
IsCoveredPool (k, p) = p.committed ≤ p.held

unfoldable pub IsCovered : Pools → Type 0
IsCovered b = All IsCoveredPool b

set-IsCovered :
    (k : Text) (p : Pool) (b : Pools) → p.committed ≤ p.held → IsCovered b → IsCovered (set k p b)
unfolding IsCovered set
set-IsCovered k p [] le h = ground (arith, le)
set-IsCovered k p ((i, q) ∷ b) le h = ground (arith, le, h, set-IsCovered k p b le)

delete-IsCovered : (k : Text) (b : Pools) → IsCovered b → IsCovered (delete k b)
unfolding IsCovered delete
delete-IsCovered k [] h = tt
delete-IsCovered k ((i, q) ∷ b) h = ground (arith, h, delete-IsCovered k b)

get-IsCovered :
    (k : Text) (p : Pool) (b : Pools) → get k b ≡ some p → IsCovered b → p.committed ≤ p.held
unfolding IsCovered get
get-IsCovered k p [] e h = cc
get-IsCovered k p ((i, q) ∷ b) e h = ground (arith, e, h, get-IsCovered k p b)

put_back-IsCovered :
    (k : Text) (p : Pool) (b : Pools)
    → p.committed ≤ p.held
    → IsCovered b
    → IsCovered (put_back k p b)
unfolding put_back
put_back-IsCovered k p b le h =
    ground (arith, le, h, set-IsCovered k p b le h, delete-IsCovered k b h)

-- Whatever is called, accepted or refused, every pool that owes no more than it holds stays so.
apply-IsCovered : (act : Act) (b : Pools) → IsCovered b → IsCovered (apply act b).1
unfolding apply fund commit paid_out uncommit drain
apply-IsCovered (fund_act lane asset owner n x) b h =
    let k = pool_key lane asset owner in
    elim (Option-cases (get k b)) [
      | inl e ↦ set-IsCovered k (funded lane asset owner n x (get k b)) b (ground (arith, e)) h
      | inr (p, e) ↦
          set-IsCovered k (funded lane asset owner n x (get k b)) b
            (ground (arith, e, get-IsCovered k p b e h)) h
    ]
apply-IsCovered (commit_act lane asset owner n) b h =
    let k = pool_key lane asset owner in
    elim (Option-cases (get k b)) [
      | inl e ↦ ground (arith, e, h)
      | inr (p, e) ↦
          ground (arith, e, h, set-IsCovered k (record p { committed = p.committed + n }) b)
    ]
apply-IsCovered (pay_act lane asset owner n) b h =
    let k = pool_key lane asset owner in
    elim (Option-cases (get k b)) [
      | inl e ↦ ground (arith, e, h)
      | inr (p, e) ↦ ground (
        arith,
        e,
        h,
        get-IsCovered k p b e h,
        put_back-IsCovered k (record p { held = p.held - n; committed = p.committed - n }) b,
      )
    ]
apply-IsCovered (uncommit_act lane asset owner n) b h =
    let k = pool_key lane asset owner in
    elim (Option-cases (get k b)) [
      | inl e ↦ ground (arith, e, h)
      | inr (p, e) ↦ ground (
        arith,
        e,
        h,
        get-IsCovered k p b e h,
        set-IsCovered k (record p { committed = p.committed - n }) b,
      )
    ]
apply-IsCovered (drain_act lane asset owner n) b h =
    let k = pool_key lane asset owner in
    elim (Option-cases (get k b)) [
      | inl e ↦ ground (arith, e, h)
      | inr (p, e) ↦ ground (
        arith,
        e,
        h,
        get-IsCovered k p b e h,
        put_back-IsCovered k (record p { held = p.held - n }) b,
      )
    ]

-- After any run of calls, accepted or refused, from a book in which no pool owes its seasons more than
-- it holds, none does.
pub replay-IsCovered : (acts : List Act) (b : Pools) → IsCovered b → IsCovered (replay acts b)
unfolding replay
replay-IsCovered [] b h = h
replay-IsCovered (act ∷ acts) b h = replay-IsCovered acts (apply act b).1 (apply-IsCovered act b h)
