-- ===== src/Protocol/Amm/Journal.antt =====
-- Runs of the book of shares: every pair stays covered, and none that has a supply ever loses it
-- (amm.ts).
use kray_node.Base.{
  ℕ, ◌≡◌, inl, inr, true, false, List, [], ◌∷◌, arith, filter, ltb, sum_by, refl, ◌<◌, ◌∙◌,
  Option-cases, All,
}
use kray_node.Base.Int.{ℤ, pos, negsuc, is_negative}
use kray_node.Base.Text.{Text, text_lt}
use kray_node.Base.Map.{text_key, Map, sum_values, get}
use kray_node.Base.Sort.{sum_by-sort}
use kray_node.Base.Result.{Result}
use kray_node.Economics.RuneKey.{canonical_rune_key}
use kray_node.Economics.RuneBook.NestedMap.{total, entry}
use kray_node.Protocol.Amm.Quote.{Refusal}
use kray_node.Protocol.Amm.Book.{
  AmmBook, empty_amm, supply_at, mint, mint_rr, burn, burn_rr, holders_at, solvent_pair, all_pairs,
  solvent, rr_pair_key,
}
use kray_node.Protocol.Amm.Shares.{
  shares_of, held, Balanced, IsBalanced, mint_at-IsBalanced, burn_at-IsBalanced,
}
use kray_node.Protocol.Amm.Effects.{mint_at_keeps_pool, burn_at_keeps_pool}

-- A public call on the book. The source has no others that write.
pub data Act : Type 0 where
  mint_act : Text → Text → ℕ → ℕ → Act
  mint_rr_act : Text → Text → Text → ℕ → ℕ → Act
  burn_act : Text → Text → ℤ → Act
  burn_rr_act : Text → Text → Text → ℤ → Act

unfoldable pub apply : Act → AmmBook → Result Refusal (Unit {0}) × AmmBook
apply (mint_act id to n after) = mint id to n after
apply (mint_rr_act x y to n after) = mint_rr x y to n after
apply (burn_act id from lp) = burn id from lp
apply (burn_rr_act x y from lp) = burn_rr x y from lp

unfoldable pub replay : List Act → AmmBook → AmmBook
replay [] b = b
replay (act ∷ acts) b = replay acts (apply act b).1

-- No burn of a negative amount. The reducer refuses one before it calls (`amm-remove` and
-- `amm-rr-remove` of protocol/ledger.ts); the book takes it.
abbrev pub IsCharge : Act → Type 0
IsCharge (burn_act id from lp) = is_negative lp ≡ false
IsCharge (burn_rr_act x y from lp) = is_negative lp ≡ false
IsCharge _ = Unit

apply-IsBalanced :
    (act : Act) (b : AmmBook) → IsCharge act → IsBalanced b → IsBalanced (apply act b).1
unfolding apply mint mint_rr burn burn_rr
apply-IsBalanced (mint_act id to n after) b c h = elim (Option-cases (canonical_rune_key id)) [
  | inl e ↦ ground (arith, e, h)
  | inr (k, e) ↦ ground (arith, e, mint_at-IsBalanced k to n after b h)
]
apply-IsBalanced (mint_rr_act x y to n after) b c h = elim (Option-cases (rr_pair_key x y)) [
  | inl e ↦ ground (arith, e, h)
  | inr (p, e) ↦ ground (arith, e, mint_at-IsBalanced p.key to n after b h)
]
apply-IsBalanced (burn_act id from (negsuc lp)) b c h = ground (arith, c)
apply-IsBalanced (burn_act id from (pos lp)) b c h = elim (Option-cases (canonical_rune_key id)) [
  | inl e ↦ ground (arith, e, h)
  | inr (k, e) ↦ ground (arith, e, burn_at-IsBalanced k from lp b h)
]
apply-IsBalanced (burn_rr_act x y from (negsuc lp)) b c h = ground (arith, c)
apply-IsBalanced (burn_rr_act x y from (pos lp)) b c h = elim (Option-cases (rr_pair_key x y)) [
  | inl e ↦ ground (arith, e, h)
  | inr (p, e) ↦ ground (arith, e, burn_at-IsBalanced p.key from lp b h)
]

pub replay-IsBalanced :
    (acts : List Act) (b : AmmBook) → All IsCharge acts → IsBalanced b → IsBalanced (replay acts b)
unfolding replay
replay-IsBalanced [] b c h = h
replay-IsBalanced (act ∷ acts) b (c, cs) h =
    replay-IsBalanced acts (apply act b).1 cs (apply-IsBalanced act b c h)

pub empty-IsBalanced : IsBalanced empty_amm
unfolding IsBalanced Balanced total sum_values get
empty-IsBalanced k = inl (refl, refl)

-- The filter drops entries that weigh nothing, and the sort none.
positive_sum :
    (m : Map Text ℕ)
    → sum_by (λ (h : Text × ℕ). h.1) (filter (λ (h : Text × ℕ). ltb 0 h.1) m)
      ≡ sum_values shares_of m
unfolding sum_values
positive_sum [] = refl
positive_sum ((a, n) ∷ m) = ground (arith, positive_sum m)

holders_at_sum :
    (k : Text) (b : AmmBook) → sum_by (λ (h : Text × ℕ). h.1) (holders_at k b) ≡ held k b
unfolding holders_at total
holders_at_sum k b =
    sum_by-sort (λ (x y : Text × ℕ). text_lt x.0 y.0) (λ (h : Text × ℕ). h.1)
      (filter (λ (h : Text × ℕ). ltb 0 h.1) (entry k b.shares))
    ∙ positive_sum (entry k b.shares)

pair_balanced : (k : Text) (b : AmmBook) → IsBalanced b → solvent_pair k b ≡ true
unfolding IsBalanced Balanced solvent_pair
pair_balanced k b h = ground (arith, h k, holders_at_sum k b)

all_balanced : (ks : List Text) (b : AmmBook) → IsBalanced b → all_pairs ks b ≡ true
unfolding all_pairs
all_balanced [] b h = refl
all_balanced (k ∷ ks) b h = ground (arith, pair_balanced k b h, all_balanced ks b h)

-- After any run of mints and burns from the empty book, accepted or refused, in which no burn is of a
-- negative amount, `solvent` answers that the supply of every pair is its holders' shares and the dead
-- ones.
pub replay_pairs_solvent :
    (acts : List Act) → All IsCharge acts → solvent (replay acts empty_amm) ≡ true
unfolding solvent
replay_pairs_solvent acts c =
    all_balanced _ (replay acts empty_amm) (replay-IsBalanced acts empty_amm c empty-IsBalanced)

apply_keeps_pool :
    (act : Act) (b : AmmBook) (j : Text)
    → IsCharge act
    → IsBalanced b
    → 0 < supply_at j b
    → 0 < supply_at j (apply act b).1
unfolding apply mint mint_rr burn burn_rr
apply_keeps_pool (mint_act id to n after) b j c h live =
    elim (Option-cases (canonical_rune_key id)) [
      | inl e ↦ ground (arith, e, live)
      | inr (k, e) ↦ ground (arith, e, mint_at_keeps_pool k to n after b j live)
    ]
apply_keeps_pool (mint_rr_act x y to n after) b j c h live = elim (Option-cases (rr_pair_key x y)) [
  | inl e ↦ ground (arith, e, live)
  | inr (p, e) ↦ ground (arith, e, mint_at_keeps_pool p.key to n after b j live)
]
apply_keeps_pool (burn_act id from (negsuc lp)) b j c h live = ground (arith, c)
apply_keeps_pool (burn_act id from (pos lp)) b j c h live =
    elim (Option-cases (canonical_rune_key id)) [
      | inl e ↦ ground (arith, e, live)
      | inr (k, e) ↦ ground (arith, e, burn_at_keeps_pool k from lp b j h live)
    ]
apply_keeps_pool (burn_rr_act x y from (negsuc lp)) b j c h live = ground (arith, c)
apply_keeps_pool (burn_rr_act x y from (pos lp)) b j c h live =
    elim (Option-cases (rr_pair_key x y)) [
      | inl e ↦ ground (arith, e, live)
      | inr (p, e) ↦ ground (arith, e, burn_at_keeps_pool p.key from lp b j h live)
    ]

-- In a balanced book a pair that has a supply keeps one, whatever is minted and burned, as long as no
-- burn is of a negative amount: the dead shares never leave.
pub replay_keeps_pool :
    (acts : List Act) (b : AmmBook) (k : Text)
    → All IsCharge acts
    → IsBalanced b
    → 0 < supply_at k b
    → 0 < supply_at k (replay acts b)
unfolding replay
replay_keeps_pool [] b k c h live = live
replay_keeps_pool (act ∷ acts) b k (c, cs) h live =
    replay_keeps_pool acts (apply act b).1 k cs (apply-IsBalanced act b c h)
      (apply_keeps_pool act b k c h live)
