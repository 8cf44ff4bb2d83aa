-- ===== src/Protocol/Amm/Quote.antt =====
-- The quotes of the constant-product pools (amm.ts): `quoteOut`, `quoteFirstMint`, `quoteAdd` and
-- `quoteRemove`. Amounts are BigInts that are tested for being positive; here they are natural
-- numbers, and 0 is what is refused.
use kray_node.Base.{ℕ, ◌+◌, ◌-◌, ◌*◌, ◌/◌, ◌||◌, ltb, leb, ◌==◌, if◌then◌else◌}
use kray_node.Base.Result.{Result, ok, err}
use kray_node.Economics.Isqrt.{isqrt}

-- One constructor for each message that amm.ts throws.
pub data Refusal : Type 0 where
  amount_not_positive empty_pool output_rounds_to_zero output_drains k_broken : Refusal
  first_mint_not_positive liquidity_too_small : Refusal
  add_not_positive no_live_pool add_too_small : Refusal
  burn_not_positive burn_above_supply burn_too_small burn_drains : Refusal
  bad_rune_id same_rune : Refusal
  mint_not_positive wrong_supply insufficient_lp : Refusal

abbrev pub fee_num : ℕ
fee_num = 997

abbrev pub fee_den : ℕ
fee_den = 1000

abbrev pub minimum_liquidity : ℕ
minimum_liquidity = 100

-- `(inWithFee * reserveOut) / (reserveIn * AMM_FEE_DEN + inWithFee)`
unfoldable pub out_for : ℕ → ℕ → ℕ → ℕ
out_for reserve_in reserve_out amount_in =
    let in_with_fee = amount_in * fee_num in
    (in_with_fee * reserve_out) / (reserve_in * fee_den + in_with_fee)

unfoldable pub quote_out : ℕ → ℕ → ℕ → Result Refusal ℕ
quote_out reserve_in reserve_out amount_in =
    let out = out_for reserve_in reserve_out amount_in in
    if amount_in == 0
    then err amount_not_positive
    else if reserve_in == 0 || reserve_out == 0
    then err empty_pool
    else if out == 0
    then err output_rounds_to_zero
    else if leb reserve_out out
    then err output_drains
    else if ltb ((reserve_in + amount_in) * (reserve_out - out)) (reserve_in * reserve_out)
    then err k_broken
    else ok out

pub record FirstMint : Type 0 where
  pub supply : ℕ
  pub minted : ℕ

unfoldable pub quote_first_mint : ℕ → ℕ → Result Refusal FirstMint
quote_first_mint a_in b_in =
    let raw = isqrt (a_in * b_in) in
    if a_in == 0 || b_in == 0
    then err first_mint_not_positive
    else if leb raw minimum_liquidity
    then err liquidity_too_small
    else ok (record { supply = raw; minted = raw - minimum_liquidity })

-- `fromA < fromB ? fromA : fromB`
abbrev pub lesser : ℕ → ℕ → ℕ
lesser a b = if ltb a b then a else b

unfoldable pub quote_add : ℕ → ℕ → ℕ → ℕ → ℕ → Result Refusal ℕ
quote_add a_reserve b_reserve supply a_in b_in =
    let minted = lesser ((a_in * supply) / a_reserve) ((b_in * supply) / b_reserve) in
    if a_in == 0 || b_in == 0
    then err add_not_positive
    else if supply == 0 || (a_reserve == 0 || b_reserve == 0)
    then err no_live_pool
    else if minted == 0
    then err add_too_small
    else ok minted

pub record Removed : Type 0 where
  pub kray_out : ℕ
  pub rune_out : ℕ

unfoldable pub quote_remove : ℕ → ℕ → ℕ → ℕ → Result Refusal Removed
quote_remove kray_reserve rune_reserve supply lp =
    let kray_out = (lp * kray_reserve) / supply in
    let rune_out = (lp * rune_reserve) / supply in
    if lp == 0
    then err burn_not_positive
    else if supply == 0 || ltb supply lp
    then err burn_above_supply
    else if kray_out == 0 || rune_out == 0
    then err burn_too_small
    else if leb kray_reserve kray_out || leb rune_reserve rune_out
    then err burn_drains
    else ok (record { kray_out = kray_out; rune_out = rune_out })
