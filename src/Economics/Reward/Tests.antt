-- ===== src/Economics/Reward/Tests.antt =====
-- The split at concrete weights.
use kray_node.Base.{◌≡◌, refl, List, [], ◌∷◌, ◌==◌, if◌then◌else◌}
use kray_node.Base.Int.{pos, negsuc}
use kray_node.Base.Text.{js, text_eq, text_lt}
use kray_node.Base.Map.{get, set, sum_values}
use kray_node.Base.Sort.{sort, insert}
use kray_node.Economics.Reward.{
  Validator, merge, parts_of, bump, hand_out, largest_remainder_split, total_rewarded,
}
use kray_node.Economics.Reward.Conservation.{work, largest_remainder_split_exact}

-- Ann appears twice; Cid owes work.
abbrev workers : List Validator
workers =
    record { id = js "ann"; weight = pos 1 }
    ∷ record { id = js "bob"; weight = pos 3 }
    ∷ record { id = js "cid"; weight = negsuc 4 }
    ∷ record { id = js "ann"; weight = pos 2 }
    ∷ []

shares :
    largest_remainder_split 7 workers
    ≡ record { id = js "ann"; amount = 4 } ∷ record { id = js "bob"; amount = 3 } ∷ []
unfolding largest_remainder_split merge parts_of bump hand_out sort insert get set sum_values
    text_eq text_lt
shares = refl

largest_remainder_split_exact_example :
    total_rewarded (largest_remainder_split 7 workers) ≡ (if work workers == 0 then 0 else 7)
largest_remainder_split_exact_example = largest_remainder_split_exact 7 workers
