-- ===== src/Protocol/Amm/Tests.antt =====
-- The theorems on pools at concrete pools.
use kray_node.Base.{
  ℕ, ◌==◌, false, arith, if◌then◌else◌, ◌+◌, ◌-◌, ◌*◌, ◌≤◌, ◌<◌, ◌≡◌, ◌⊎◌, refl, true, some, [],
  ◌∷◌,
}
use kray_node.Base.Int.{pos, negsuc}
use kray_node.Base.Text.{Text, js, text_eq, text_lt}
use kray_node.Base.Decimal.{decimal, decimal_value}
use kray_node.Economics.RuneKey.{canonical_rune_key, rune_key}
use kray_node.Base.Sort.{sort, insert}
use kray_node.Base.Map.{add, member, get, set, delete}
use kray_node.Base.Result.{ok, err}
use kray_node.Economics.Isqrt.{isqrt, newton}
use kray_node.Economics.RuneBook.NestedMap.{touch, at, put, drop, IsTidyMap, put-IsTidyMap}
use kray_node.Protocol.Amm.Quote.{
  output_rounds_to_zero, out_for, quote_out, quote_first_mint, quote_add, quote_remove,
}
use kray_node.Protocol.Amm.Invariant.{IsBestOut, quote_out_best, quote_add_fair}
use kray_node.Protocol.Amm.Book.{
  AmmBook, empty_amm, bag_at, issue, mint_at, redeem, burn_at, solvent, rr_pair_key, all_pairs,
  solvent_pair, holders_at,
}
use kray_node.Protocol.Amm.Address.{
  amm_rr_pool_address, parse_amm_pot_address, rr_pot, parse_amm_pot_address-amm_rr_pool_address,
}
use kray_node.Protocol.Amm.Shares.{IsBalanced, mint_at-IsBalanced}
use kray_node.Protocol.Amm.Journal.{
  mint_act, burn_act, replay, replay_pairs_solvent, empty-IsBalanced,
}

swapped : quote_out 1000 2000 50 ≡ ok 94
unfolding quote_out out_for
swapped = refl

quote_out_best_example :
    (o : ℕ) × IsBestOut 1000 2000 50 o
    × (quote_out 1000 2000 50 ≡ (if o == 0 then err output_rounds_to_zero else ok o))
quote_out_best_example = quote_out_best 1000 2000 50 (omega arith) (omega arith) (omega arith)

swapped_back : quote_out (2000 - 94) (1000 + 50) 94 ≡ ok 49
unfolding quote_out out_for
swapped_back = refl

first : quote_first_mint 400 900 ≡ ok (record { supply = 600; minted = 500 })
unfolding quote_first_mint isqrt newton
first = refl

added : quote_add 400 900 600 40 99 ≡ ok 60
unfolding quote_add
added = refl

quote_add_fair_example :
    (0 < 60)
    × (400 * (600 + 60) ≤ (400 + 40) * 600)
    × (900 * (600 + 60) ≤ (900 + 99) * 600)
    × (((400 + 40) * 600 < 400 * (600 + 60 + 1)) ⊎ ((900 + 99) * 600 < 900 * (600 + 60 + 1)))
quote_add_fair_example = quote_add_fair 400 900 600 40 99 60 added

removed : quote_remove 440 999 660 60 ≡ ok (record { kray_out = 40; rune_out = 90 })
unfolding quote_remove
removed = refl

abbrev alice : Text
alice = js "alice"

abbrev iron : Text
iron = js "1:1"

abbrev pool : AmmBook
pool = (mint_at iron alice 500 600 empty_amm).1

pool-IsBalanced : IsBalanced pool
pool-IsBalanced = mint_at-IsBalanced iron alice 500 600 empty_amm empty-IsBalanced

pool-IsTidyMap : IsTidyMap pool.shares
unfolding mint_at issue IsTidyMap get at
pool-IsTidyMap = put-IsTidyMap iron alice 500 [] (λ k. tt)

burned : AmmBook
unfolding burn_at redeem bag_at mint_at issue touch at put drop get set delete text_eq
burned = (burn_at iron alice (pos 200) pool).1

replay_pairs_solvent_example :
    solvent (
      replay
        (mint_act iron alice 500 600
          ∷ burn_act iron alice (pos 900)
          ∷ burn_act iron alice (pos 20)
          ∷ [])
        empty_amm)
    ≡ true
replay_pairs_solvent_example =
    replay_pairs_solvent
      (mint_act iron alice 500 600
        ∷ burn_act iron alice (pos 900)
        ∷ burn_act iron alice (pos 20)
        ∷ [])
      (tt, (refl, (refl, tt)))

-- A negative burn is taken on a pair that was never minted, and the book is no longer solvent.
burned_below_zero : solvent (burn_at iron alice (negsuc 4) empty_amm).1 ≡ false
unfolding solvent burn_at redeem bag_at touch at put get set text_eq all_pairs sort add member
    insert solvent_pair holders_at
burned_below_zero = refl

abbrev gold : Text
gold = js "156:2"

iron_and_gold :
    rr_pair_key iron gold ≡ some (record { key = js "156:2|1:1"; a = js "156:2"; b = js "1:1" })
unfolding rr_pair_key canonical_rune_key text_eq rune_key decimal decimal_value text_lt
iron_and_gold = refl

address_of_pair : amm_rr_pool_address iron gold ≡ some (js "KRAY_AMM_RR_156_2_1_1")
unfolding amm_rr_pool_address rr_pair_key canonical_rune_key text_eq rune_key decimal decimal_value
    text_lt
address_of_pair = refl

parse_amm_pot_address-amm_rr_pool_address_example :
    parse_amm_pot_address (js "KRAY_AMM_RR_156_2_1_1") ≡ some (rr_pot (js "156:2") (js "1:1"))
parse_amm_pot_address-amm_rr_pool_address_example =
    parse_amm_pot_address-amm_rr_pool_address iron gold (js "KRAY_AMM_RR_156_2_1_1")
      (record { key = js "156:2|1:1"; a = js "156:2"; b = js "1:1" }) iron_and_gold address_of_pair
