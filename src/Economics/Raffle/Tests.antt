-- ===== src/Economics/Raffle/Tests.antt =====
-- The theorem on three entries of two addresses, and a draw that is refused.
use kray_node.Base.{ℕ, ◌≡◌, refl, none, some, List, [], ◌∷◌, sum_by}
use kray_node.Base.Text.{js, text_eq}
use kray_node.Economics.Raffle.{
  RaffleEntry, total_work, winner_at, raffle_winner, raffle_draw, is_beacon,
}
use kray_node.Economics.Raffle.Fair.{count_from, work_of, count_winner_at}

abbrev guardians : List RaffleEntry
guardians =
    record { address = js "bo"; work = 3 }
    ∷ record { address = js "ana"; work = 2 }
    ∷ record { address = js "bo"; work = 1 }
    ∷ []

count_winner_at_example :
    count_from 0 (total_work guardians) (λ (d : ℕ). text_eq (winner_at d guardians) (js "bo"))
    ≡ sum_by (work_of (js "bo")) guardians
count_winner_at_example = count_winner_at (js "bo") guardians

no_hash_no_draw : raffle_winner (λ t. t) (js "00") guardians ≡ none
unfolding raffle_winner raffle_draw total_work is_beacon
no_hash_no_draw = refl

nobody_wins : raffle_winner (λ t. t) (js "00") [] ≡ some none
unfolding raffle_winner total_work
nobody_wins = refl
