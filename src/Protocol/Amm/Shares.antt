-- ===== src/Protocol/Amm/Shares.antt =====
-- What the book of shares keeps: the supply of every pair is its holders' shares and the dead ones
-- (amm.ts).
use kray_node.Base.{ℕ, ◌+◌, ◌-◌, ◌≤◌, ◌≡◌, ◌⊎◌, arith}
use kray_node.Base.Int.{pos}
use kray_node.Base.Text.{Text, text_eq_iff}
use kray_node.Base.Map.{text_key, get-set}
use kray_node.Economics.RuneBook.NestedMap.{
  total, total-touch, total-put, total-drop, amount_at-le-total,
}
use kray_node.Protocol.Amm.Quote.{minimum_liquidity}
use kray_node.Protocol.Amm.Book.{AmmBook, supply_at, lp_at, bag_at, issue, mint_at, redeem, burn_at}

abbrev pub shares_of : ℕ → ℕ
shares_of n = n

-- The shares of a pair that holders have.
abbrev pub held : Text → AmmBook → ℕ
held k b = total shares_of k b.shares

-- A pair that was never minted, or was burned to nothing, or the shares and the dead ones.
unfoldable pub Balanced : ℕ → ℕ → Type 0
Balanced supply shares = ((supply ≡ 0) × (shares ≡ 0)) ⊎ (supply ≡ shares + minimum_liquidity)

unfoldable pub IsBalanced : AmmBook → Type 0
IsBalanced b = (k : Text) → Balanced (supply_at k b) (held k b)

pub bag_at-IsBalanced : (k : Text) (b : AmmBook) → IsBalanced b → IsBalanced (bag_at k b)
unfolding IsBalanced bag_at
bag_at-IsBalanced k b h j = ground (arith, h j, total-touch shares_of j k b.shares)

pub mint_at-IsBalanced :
    (k to : Text) (n after : ℕ) (b : AmmBook) → IsBalanced b → IsBalanced (mint_at k to n after b).1
unfolding IsBalanced Balanced mint_at issue
mint_at-IsBalanced k to n after b h j = ground (
  arith,
  h j,
  text_eq_iff k j,
  total-put shares_of j k to (lp_at k to b + n) b.shares,
  get-set j k after b.supply,
)

redeem-IsBalanced :
    (k from : Text) (lp : ℕ) (b : AmmBook)
    → lp ≤ lp_at k from b
    → IsBalanced b
    → IsBalanced (redeem k from (pos lp) b)
unfolding IsBalanced Balanced redeem
redeem-IsBalanced k from lp b le h j = ground (
  arith,
  le,
  h j,
  text_eq_iff k j,
  amount_at-le-total shares_of k from b.shares,
  total-put shares_of j k from (lp_at k from b - lp) b.shares,
  total-drop shares_of j k from b.shares,
  get-set j k (supply_at k b - lp) b.supply,
)

pub burn_at-IsBalanced :
    (k from : Text) (lp : ℕ) (b : AmmBook) → IsBalanced b → IsBalanced (burn_at k from (pos lp) b).1
unfolding burn_at
burn_at-IsBalanced k from lp b h =
    let b1 = bag_at k b in ground (arith, bag_at-IsBalanced k b h, redeem-IsBalanced k from lp b1)
