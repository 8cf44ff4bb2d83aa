-- ===== src/Economics/Governance/Tests.antt =====
-- The theorems on a proposal with two votes.
use kray_node.Base.{
  ℕ, ◌≤◌, ◌≡◌, refl, Bool, true, false, not, ◌&&◌, ◌||◌, Option, none, some, List, [], ◌∷◌, ◌==◌,
  arith,
}
use kray_node.Base.Text.{Text, js, text_eq}
use kray_node.Base.Map.{text_key, get, set}
use kray_node.Base.Result.{ok}
use kray_node.Economics.Isqrt.{isqrt, newton}
use kray_node.Economics.Honocracy.{default_honocracy, voice, unlocked_kray}
use kray_node.Economics.Governance.{
  Proposal, Governance, Ballot, empty_governance, used_stars_of, has_voted, box_of, open_box,
  apply_propose, apply_vote, enter_vote, vote_of, GovAct, propose_act, vote_act, apply, replay,
  clean_ranges_for, record_vote,
}
use kray_node.Economics.Governance.Ranges.{
  StarRange, sum_len, add_ranges, subtract_ranges, carve, carve_all, merge, merge_onto, overlaps,
  meets_any, meets,
}
use kray_node.Economics.Governance.Ranges.Laws.{in_ranges, in_ranges-subtract_ranges}
use kray_node.Economics.Governance.OneStar.{one_star_one_vote}
use kray_node.Economics.Governance.Accepted.{apply_vote-twice, record_vote-clean_ranges_for}

abbrev kip : Text
kip = js "k"

abbrev opened : List GovAct
opened = propose_act kip (js "t") (js "ana") 9 1 ∷ []

-- Glow 4 and four stars: 1 + 3 * 2 + 2.
abbrev first_vote : Ballot
first_vote = record {
  voter = js "ana";
  choice = js "y";
  interval = 3;
  glow = 4;
  kray = 4;
  weight = 9;
  stars = record { start = 10; len = 4 } ∷ [];
}

abbrev second_vote : Ballot
second_vote = record {
  voter = js "bo";
  choice = js "n";
  interval = 4;
  glow = 0;
  kray = 1;
  weight = 2;
  stars = record { start = 14; len = 1 } ∷ [];
}

abbrev start : Governance
start = replay opened empty_governance

first_taken : (apply_vote kip first_vote start).0 ≡ ok tt
unfolding apply_vote get replay apply apply_propose open_box set text_eq has_voted box_of sum_len
    voice isqrt newton unlocked_kray overlaps meets_any kray_node.Base.Sort.insert
    kray_node.Base.Sort.sort add_ranges meets merge merge_onto enter_vote used_stars_of vote_of
first_taken = refl

second_taken :
    (apply_vote kip second_vote (replay [] (apply_vote kip first_vote start).1)).0 ≡ ok tt
unfolding apply_vote get replay apply apply_propose open_box set text_eq has_voted box_of sum_len
    voice isqrt newton unlocked_kray overlaps meets_any kray_node.Base.Sort.insert
    kray_node.Base.Sort.sort add_ranges meets merge merge_onto enter_vote used_stars_of vote_of
second_taken = refl

first_holds : in_ranges 12 first_vote.stars ≡ true
unfolding in_ranges
first_holds = refl

one_star_one_vote_example : in_ranges 12 second_vote.stars ≡ false
one_star_one_vote_example =
    one_star_one_vote kip 12 first_vote second_vote [] start first_taken second_taken first_holds

abbrev holding : List StarRange
holding = record { start = 12; len = 4 } ∷ []

abbrev one_voted : List GovAct
one_voted = propose_act kip (js "t") (js "ana") 9 1 ∷ vote_act kip first_vote ∷ []

abbrev the_proposal : Proposal
the_proposal = record { title = js "t"; proposer = js "ana"; closes_at = 9; opened_seq = 1 }

proposal_there : get kip (replay one_voted empty_governance).proposals ≡ some the_proposal
unfolding apply_vote get replay apply apply_propose open_box set text_eq has_voted box_of sum_len
    voice isqrt newton unlocked_kray overlaps meets_any kray_node.Base.Sort.insert
    kray_node.Base.Sort.sort add_ranges meets merge merge_onto enter_vote used_stars_of vote_of
proposal_there = refl

bo_new : has_voted kip (js "bo") (replay one_voted empty_governance) ≡ false
unfolding apply_vote get replay apply apply_propose open_box set text_eq has_voted box_of sum_len
    voice isqrt newton unlocked_kray overlaps meets_any kray_node.Base.Sort.insert
    kray_node.Base.Sort.sort add_ranges meets merge merge_onto enter_vote used_stars_of vote_of
bo_new = refl

bo_weight :
    voice default_honocracy 0
      (sum_len (clean_ranges_for kip holding (replay one_voted empty_governance)))
    ≡ 2
unfolding apply_vote get replay apply apply_propose open_box set text_eq has_voted box_of sum_len
    voice isqrt newton unlocked_kray overlaps meets_any kray_node.Base.Sort.insert
    kray_node.Base.Sort.sort add_ranges meets merge merge_onto enter_vote used_stars_of vote_of
    clean_ranges_for subtract_ranges carve carve_all
bo_weight = refl

record_vote-clean_ranges_for_example :
    let b = replay one_voted empty_governance in
    let clean = clean_ranges_for kip holding b in
    ((record_vote kip (js "bo") (js "n") 4 0 clean 2 b).0 ≡ ok tt)
    × ((s : ℕ)
        → in_ranges s clean ≡ (in_ranges s holding && not (in_ranges s (used_stars_of kip b))))
record_vote-clean_ranges_for_example =
    record_vote-clean_ranges_for kip (js "bo") (js "n") 4 0 2 holding one_voted the_proposal
      proposal_there bo_new (omega arith) bo_weight

in_ranges-subtract_ranges_example :
    in_ranges 14 (subtract_ranges holding (record { start = 10; len = 4 } ∷ []))
    ≡ (in_ranges 14 holding && not (in_ranges 14 (record { start = 10; len = 4 } ∷ [])))
in_ranges-subtract_ranges_example =
    in_ranges-subtract_ranges 14 holding (record { start = 10; len = 4 } ∷ [])

abbrev span_of_four : StarRange
span_of_four = record { start = 20; len = 4 }

span_clean :
    overlaps (span_of_four ∷ []) (used_stars_of kip (replay one_voted empty_governance)) ≡ false
unfolding apply_vote get replay apply apply_propose open_box set text_eq has_voted box_of sum_len
    voice isqrt newton unlocked_kray overlaps meets_any kray_node.Base.Sort.insert
    kray_node.Base.Sort.sort add_ranges meets merge merge_onto enter_vote used_stars_of vote_of
span_clean = refl

apply_vote-twice_example :
    (apply_vote kip
      (record {
        voter = js "bo";
        choice = js "n";
        interval = 4;
        glow = 0;
        kray = 8;
        weight = voice default_honocracy 0 8;
        stars = span_of_four ∷ span_of_four ∷ [];
      })
      (replay one_voted empty_governance)).0
    ≡ ok tt
apply_vote-twice_example =
    apply_vote-twice kip (js "bo") (js "n") 4 0 span_of_four (replay one_voted empty_governance)
      the_proposal proposal_there bo_new (omega arith) span_clean
