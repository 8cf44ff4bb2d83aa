-- ===== src/Protocol/Runestone/Allocation/Tests.antt =====
-- The theorems on the transfer law at a concrete transaction.
use kray_node.Base.{◌+◌, ◌≡◌, ◌≢◌, refl, Option, none, some, [], ◌∷◌}
use kray_node.Base.Map.{get, set}
use kray_node.Protocol.Runestone.Artifact.{RuneId, runestone}
use kray_node.Protocol.Runestone.Decipher.Artifacts.{decipher, found}
use kray_node.Protocol.Runestone.Tests.{deciphered, transfer, sent}
use kray_node.Protocol.Runestone.Allocation.{
  AllocationInput, Allocation, allocate, allocate_runestone, pour, pour_all, pour_some,
  eligible_from, add_balance, give, spread_evenly, spread_clamped, move_edict, apply_edicts, land,
  sweep,
}
use kray_node.Protocol.Runestone.Allocation.Sums.{in_outputs, amount_of}
use kray_node.Protocol.Runestone.Allocation.Conservation.{created, allocate_conserves}
use kray_node.Protocol.Runestone.Allocation.Total.{allocate-decipher}

-- The rune 2:3.
abbrev rune : RuneId
rune = record { block = 2; tx = 3 }

-- Nine units come in; the runestone in output 0 sends 5 of them to output 1, and the rest follow, as
-- the first output that is no OP_RETURN.
abbrev spending : AllocationInput
spending = record {
  output_scripts = transfer ∷ (1 ∷ []) ∷ [];
  inputs = record { id = rune; amount = 9 } ∷ [];
  mint_amount = none;
  etched_id = none;
}

allocated : Option Allocation
unfolding allocate allocate_runestone pour pour_all pour_some eligible_from add_balance give
    spread_evenly spread_clamped move_edict apply_edicts land sweep get set
allocated = allocate (some (runestone sent)) spending

abbrev outcome : Allocation
outcome = record { outputs = (1, record { id = rune; amount = 9 } ∷ []) ∷ []; burned = [] }

allocates : allocate (some (runestone sent)) spending ≡ some outcome
unfolding allocated
allocates = refl

allocate_conserves_example :
    in_outputs rune outcome.outputs + amount_of rune outcome.burned
    ≡ amount_of rune spending.inputs + created rune (some (runestone sent)) spending
allocate_conserves_example =
    allocate_conserves rune (some (runestone sent)) spending outcome allocates

allocate-decipher_example : allocate (some (runestone sent)) spending ≢ none
allocate-decipher_example = allocate-decipher 9 (runestone sent) spending read
  where
    read : decipher 9 spending.output_scripts ≡ found (runestone sent)
    read = unfold deciphered in refl
