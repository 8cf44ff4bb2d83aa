-- ===== src/Protocol/PoolBook.antt =====
-- The standing pools, `class PoolBook` (protocol/pool-book.ts). A lane is its text. Amounts are natural
-- numbers: the reducer passes positive ones. The remembered commitment text is not modelled.
use kray_node.Base.{
  ℕ, ◌+◌, ◌-◌, ◌≡◌, Bool, true, false, ◌&&◌, ◌||◌, Option, none, some, List, [], ◌∷◌, ◌++◌, ltb,
  ◌==◌, if◌then◌else◌, max,
}
use kray_node.Base.Text.{Text, text_eq}
use kray_node.Base.Map.{text_key, Map, get, set, delete, sum_values}
use kray_node.Base.Result.{Result, ok, err, Action, ◌>>=◌, ◌>>◌, raise_if, gets, modify, or_raise}
pub mod Covered
pub mod Conservation
mod Tests

pub data Refusal : Type 0 where
  no_pool over_commit over_pay over_release over_drain : Refusal

pub record Pool : Type 0 where
  pub owner : Text
  pub lane : Text
  pub asset : Text
  pub held : ℕ
  pub committed : ℕ
  pub expires : ℕ

abbrev pub Pools : Type 0
Pools = Map Text Pool

abbrev pub Method : Type 0
Method = Action Pools Refusal (Unit {0})

abbrev pub bar : ℕ
bar = 0x7c

-- `${lane}|${asset}|${owner}`
unfoldable pub pool_key : Text → Text → Text → Text
pool_key lane asset owner = lane ++ (bar ∷ (asset ++ (bar ∷ owner)))

abbrev pub free_part : Option Pool → ℕ
free_part none = 0
free_part (some p) = p.held - p.committed

unfoldable pub free : Text → Text → Text → Pools → ℕ
free lane asset owner b = free_part (get (pool_key lane asset owner) b)

abbrev pub held_if : Text → Text → Pool → ℕ
held_if lane asset p = if text_eq p.lane lane && text_eq p.asset asset then p.held else 0

unfoldable pub held_in : Text → Text → Pools → ℕ
held_in lane asset b = sum_values (held_if lane asset) b

abbrev pub funded : Text → Text → Text → ℕ → ℕ → Option Pool → Pool
funded lane asset owner amount expires none = record {
  owner = owner;
  lane = lane;
  asset = asset;
  held = amount;
  committed = 0;
  expires = expires;
}
funded lane asset owner amount expires (some p) = record p {
  held = p.held + amount;
  expires = max p.expires expires;
}

unfoldable pub fund : Text → Text → Text → ℕ → ℕ → Method
fund lane asset owner amount expires =
    let key = pool_key lane asset owner in
    modify (λ b. set key (funded lane asset owner amount expires (get key b)) b)

unfoldable pub commit : Text → Text → Text → ℕ → Method
commit lane asset owner amount = do
  let key = pool_key lane asset owner
  p ← or_raise (← gets (get key)) no_pool
  raise_if (ltb p.held (p.committed + amount)) over_commit
  modify (set key (record p { committed = p.committed + amount }))

-- An empty pool is forgotten.
unfoldable pub put_back : Text → Pool → Pools → Pools
put_back key next b = if next.held == 0 && next.committed == 0 then delete key b else set key next b

unfoldable pub paid_out : Text → Text → Text → ℕ → Method
paid_out lane asset owner amount = do
  let key = pool_key lane asset owner
  p ← or_raise (← gets (get key)) no_pool
  raise_if (ltb p.committed amount || ltb p.held amount) over_pay
  modify (put_back key (record p { held = p.held - amount; committed = p.committed - amount }))

unfoldable pub uncommit : Text → Text → Text → ℕ → Method
uncommit lane asset owner amount = do
  let key = pool_key lane asset owner
  p ← or_raise (← gets (get key)) no_pool
  raise_if (ltb p.committed amount) over_release
  modify (set key (record p { committed = p.committed - amount }))

-- `amount > p.held - p.committed`, on integers.
unfoldable pub drain : Text → Text → Text → ℕ → Method
drain lane asset owner amount = do
  let key = pool_key lane asset owner
  p ← or_raise (← gets (get key)) no_pool
  raise_if (ltb p.held (p.committed + amount)) over_drain
  modify (put_back key (record p { held = p.held - amount }))

-- A call that writes; the source has no others.
pub data Act : Type 0 where
  fund_act : Text → Text → Text → ℕ → ℕ → Act
  commit_act : Text → Text → Text → ℕ → Act
  pay_act : Text → Text → Text → ℕ → Act
  uncommit_act : Text → Text → Text → ℕ → Act
  drain_act : Text → Text → Text → ℕ → Act

unfoldable pub apply : Act → Method
apply (fund_act lane asset owner n expires) = fund lane asset owner n expires
apply (commit_act lane asset owner n) = commit lane asset owner n
apply (pay_act lane asset owner n) = paid_out lane asset owner n
apply (uncommit_act lane asset owner n) = uncommit lane asset owner n
apply (drain_act lane asset owner n) = drain lane asset owner n

unfoldable pub replay : List Act → Pools → Pools
replay [] b = b
replay (act ∷ acts) b = replay acts (apply act b).1
