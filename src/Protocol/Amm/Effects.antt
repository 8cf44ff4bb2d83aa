-- ===== src/Protocol/Amm/Effects.antt =====
-- What a mint and a burn do to the supplies and the holdings (amm.ts).
use kray_node.Base.{ℕ, ◌+◌, ◌-◌, ◌≤◌, ◌≡◌, ◌&&◌, ◌==◌, arith, if◌then◌else◌, refl, ◌<◌}
use kray_node.Base.Int.{pos}
use kray_node.Base.Text.{Text, text_eq, text_eq_iff}
use kray_node.Base.Map.{text_key, get-set}
use kray_node.Base.Result.{ok}
use kray_node.Economics.RuneBook.NestedMap.{
  amount_at-le-total, at-touch, at-put, at-drop, IsTidyMap, touch-IsTidyMap,
}
use kray_node.Protocol.Amm.Quote.{minimum_liquidity}
use kray_node.Protocol.Amm.Book.{AmmBook, supply_at, lp_at, bag_at, issue, mint_at, redeem, burn_at}
use kray_node.Protocol.Amm.Shares.{shares_of, Balanced, IsBalanced, bag_at-IsBalanced}

redeem_lem :
    (k from : Text) (lp : ℕ) (b : AmmBook) (j a : Text)
    → IsTidyMap b.shares
    → lp ≤ lp_at k from b
    → lp_at k from b ≤ supply_at k b
    → let b' = redeem k from (pos lp) b in
      (supply_at j b' + (if text_eq k j then lp else 0) ≡ supply_at j b)
      × (lp_at j a b' + (if text_eq k j && text_eq from a then lp else 0) ≡ lp_at j a b)
unfolding redeem
redeem_lem k from lp b j a tidy le covered = ground (
  arith,
  le,
  covered,
  text_eq_iff k j,
  text_eq_iff from a,
  get-set j k (supply_at k b - lp) b.supply,
  at-put j k from a (lp_at k from b - lp) b.shares,
  at-drop j k from a b.shares tidy,
)

holding_covered : (k a : Text) (b : AmmBook) → IsBalanced b → lp_at k a b ≤ supply_at k b
unfolding IsBalanced Balanced
holding_covered k a b h = ground (arith, h k, amount_at-le-total shares_of k a b.shares)

-- A burn that succeeds in a balanced and tidy book takes the shares from the holder and from the supply, which
-- had them, and leaves every other holding and every other supply alone.
pub burn_at_lem :
    (k from : Text) (lp : ℕ) (b : AmmBook) (j a : Text)
    → IsBalanced b
    → IsTidyMap b.shares
    → (burn_at k from (pos lp) b).0 ≡ ok tt
    → let b' = (burn_at k from (pos lp) b).1 in
      (supply_at j b' + (if text_eq k j then lp else 0) ≡ supply_at j b)
      × (lp_at j a b' + (if text_eq k j && text_eq from a then lp else 0) ≡ lp_at j a b)
unfolding burn_at bag_at
burn_at_lem k from lp b j a h tidy done =
    let b1 = bag_at k b in
    ground (
      arith,
      done,
      at-touch j k a b.shares,
      at-touch k k from b.shares,
      holding_covered k from b h,
      redeem_lem k from lp b1 j a (touch-IsTidyMap k b.shares tidy),
    )

-- A mint that succeeds gives the shares to the holder and raises the supply by them, and by the dead
-- shares where the pair had no supply; it leaves every other holding and every other supply alone.
pub mint_at_lem :
    (k to : Text) (n after : ℕ) (b : AmmBook) (j a : Text)
    → (mint_at k to n after b).0 ≡ ok tt
    → let b' = (mint_at k to n after b).1 in
      (supply_at j b'
        ≡ supply_at j b
          + (if text_eq k j then n + (if supply_at k b == 0 then minimum_liquidity else 0) else 0))
      × (lp_at j a b' ≡ lp_at j a b + (if text_eq k j && text_eq to a then n else 0))
unfolding mint_at issue
mint_at_lem k to n after b j a done = ground (
  arith,
  done,
  text_eq_iff k j,
  text_eq_iff to a,
  get-set j k after b.supply,
  at-put j k to a (lp_at k to b + n) b.shares,
)

redeem_keeps_pool :
    (k from : Text) (lp : ℕ) (b : AmmBook) (j : Text)
    → IsBalanced b
    → lp ≤ lp_at k from b
    → 0 < supply_at j b
    → 0 < supply_at j (redeem k from (pos lp) b)
unfolding redeem IsBalanced Balanced
redeem_keeps_pool k from lp b j h le live = ground (
  arith,
  h k,
  text_eq_iff k j,
  amount_at-le-total shares_of k from b.shares,
  get-set j k (supply_at k b - lp) b.supply,
)

pub mint_at_keeps_pool :
    (k to : Text) (n after : ℕ) (b : AmmBook) (j : Text)
    → 0 < supply_at j b
    → 0 < supply_at j (mint_at k to n after b).1
unfolding mint_at issue
mint_at_keeps_pool k to n after b j live =
    ground (arith, text_eq_iff k j, get-set j k after b.supply)

pub burn_at_keeps_pool :
    (k from : Text) (lp : ℕ) (b : AmmBook) (j : Text)
    → IsBalanced b
    → 0 < supply_at j b
    → 0 < supply_at j (burn_at k from (pos lp) b).1
unfolding burn_at
burn_at_keeps_pool k from lp b j h live =
    let b1 = bag_at k b in
    let kept : supply_at j b1 ≡ supply_at j b = unfold bag_at in refl in
    ground (arith, kept, redeem_keeps_pool k from lp b1 j (bag_at-IsBalanced k b h))
