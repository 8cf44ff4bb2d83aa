-- ===== src/Protocol/Amm/Negative.antt =====
-- Runs of the book of shares with burns of any sign (amm.ts): what holders have never exceeds the
-- supply.
use kray_node.Base.{ℕ, ◌+◌, ◌-◌, ◌≤◌, ◌≡◌, false, List, [], ◌∷◌, arith, inl, inr, Option-cases}
use kray_node.Base.Int.{ℤ, pos, negsuc, ltb_int}
use kray_node.Base.Text.{Text, text_eq_iff}
use kray_node.Base.Map.{text_key, get, get-set, sum_values}
use kray_node.Economics.RuneKey.{canonical_rune_key}
use kray_node.Economics.RuneBook.NestedMap.{
  total, total-touch, total-put, total-drop, amount_at-le-total,
}
use kray_node.Protocol.Amm.Book.{
  AmmBook, empty_amm, supply_at, lp_at, bag_at, issue, mint_at, redeem, burn_at, mint, mint_rr,
  burn, burn_rr, rr_pair_key,
}
use kray_node.Protocol.Amm.Shares.{shares_of, held}
use kray_node.Protocol.Amm.Journal.{
  Act, mint_act, mint_rr_act, burn_act, burn_rr_act, apply, replay,
}

unfoldable pub IsCovered : AmmBook → Type 0
IsCovered b = (k : Text) → held k b ≤ supply_at k b

bag_at-IsCovered : (k : Text) (b : AmmBook) → IsCovered b → IsCovered (bag_at k b)
unfolding IsCovered bag_at
bag_at-IsCovered k b h j = ground (arith, h j, total-touch shares_of j k b.shares)

mint_at-IsCovered :
    (k to : Text) (n after : ℕ) (b : AmmBook) → IsCovered b → IsCovered (mint_at k to n after b).1
unfolding IsCovered mint_at issue
mint_at-IsCovered k to n after b h j = ground (
  arith,
  h j,
  text_eq_iff k j,
  total-put shares_of j k to (lp_at k to b + n) b.shares,
  get-set j k after b.supply,
)

redeem-IsCovered :
    (k from : Text) (lp : ℤ) (b : AmmBook)
    → ltb_int (lp_at k from b) lp ≡ false
    → IsCovered b
    → IsCovered (redeem k from lp b)
unfolding IsCovered redeem
redeem-IsCovered k from (pos n) b le h j = ground (
  arith,
  le,
  h j,
  text_eq_iff k j,
  amount_at-le-total shares_of k from b.shares,
  total-put shares_of j k from (lp_at k from b - n) b.shares,
  total-drop shares_of j k from b.shares,
  get-set j k (supply_at k b - n) b.supply,
)
redeem-IsCovered k from (negsuc n) b le h j = ground (
  arith,
  h j,
  text_eq_iff k j,
  total-put shares_of j k from (lp_at k from b + (n + 1)) b.shares,
  get-set j k (supply_at k b + (n + 1)) b.supply,
)

burn_at-IsCovered :
    (k from : Text) (lp : ℤ) (b : AmmBook) → IsCovered b → IsCovered (burn_at k from lp b).1
unfolding burn_at
burn_at-IsCovered k from lp b h =
    let b1 = bag_at k b in ground (arith, bag_at-IsCovered k b h, redeem-IsCovered k from lp b1)

apply-IsCovered : (act : Act) (b : AmmBook) → IsCovered b → IsCovered (apply act b).1
unfolding apply mint mint_rr burn burn_rr
apply-IsCovered (mint_act id to n after) b h = elim (Option-cases (canonical_rune_key id)) [
  | inl e ↦ ground (arith, e, h)
  | inr (k, e) ↦ ground (arith, e, mint_at-IsCovered k to n after b h)
]
apply-IsCovered (mint_rr_act x y to n after) b h = elim (Option-cases (rr_pair_key x y)) [
  | inl e ↦ ground (arith, e, h)
  | inr (p, e) ↦ ground (arith, e, mint_at-IsCovered p.key to n after b h)
]
apply-IsCovered (burn_act id from lp) b h = elim (Option-cases (canonical_rune_key id)) [
  | inl e ↦ ground (arith, e, h)
  | inr (k, e) ↦ ground (arith, e, burn_at-IsCovered k from lp b h)
]
apply-IsCovered (burn_rr_act x y from lp) b h = elim (Option-cases (rr_pair_key x y)) [
  | inl e ↦ ground (arith, e, h)
  | inr (p, e) ↦ ground (arith, e, burn_at-IsCovered p.key from lp b h)
]

-- Whatever is minted and burned, negative burns included: the supply of a pair keeps all its shares.
pub replay-IsCovered : (acts : List Act) (b : AmmBook) → IsCovered b → IsCovered (replay acts b)
unfolding replay
replay-IsCovered [] b h = h
replay-IsCovered (act ∷ acts) b h = replay-IsCovered acts (apply act b).1 (apply-IsCovered act b h)

pub empty-IsCovered : IsCovered empty_amm
unfolding IsCovered total sum_values get
empty-IsCovered k = omega arith
