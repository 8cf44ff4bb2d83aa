-- ===== src/Economics/Governance.antt =====
-- Proposals and votes, `class Governance` (economics/governance.ts): each act of the journal as a call on
-- the proposals, the votes and the stars that have voted.
use kray_node.Base.{
  ℕ, ◌+◌, Bool, true, false, not, Option, none, some, List, [], ◌∷◌, filter, ltb, ◌==◌,
  if◌then◌else◌,
}
use kray_node.Base.Text.{Text}
use kray_node.Base.Map.{text_key, Map, get, has, get_or, set}
use kray_node.Base.Result.{Result, ok, err, Action, ◌>>=◌, ◌>>◌, raise_if, gets, modify, or_raise}
use kray_node.Economics.Honocracy.{default_honocracy, voice}
use kray_node.Economics.Governance.Ranges.{
  StarRange, sum_len, has_len, subtract_ranges, add_ranges, overlaps,
}
pub mod Ranges
pub mod OneStar
pub mod Accepted
mod Tests

pub data Refusal : Type 0 where
  known_proposal unknown_proposal already_voted past_close wrong_weight wrong_voice star_voted :
      Refusal

pub record Proposal : Type 0 where
  pub title : Text
  pub proposer : Text
  pub closes_at : ℕ
  pub opened_seq : ℕ

pub record Vote : Type 0 where
  pub choice : Text
  pub interval : ℕ
  pub glow : ℕ
  pub kray : ℕ
  pub weight : ℕ

pub record Governance : Type 0 where
  pub proposals : Map Text Proposal
  pub votes : Map Text (Map Text Vote)
  pub used : Map Text (List StarRange)

abbrev pub Method : Type 0
Method = Action Governance Refusal (Unit {0})

abbrev pub empty_governance : Governance
empty_governance = record { proposals = []; votes = []; used = [] }

-- A vote as the journal has it; `weight` is its `voice`.
pub record Ballot : Type 0 where
  pub voter : Text
  pub choice : Text
  pub interval : ℕ
  pub glow : ℕ
  pub kray : ℕ
  pub weight : ℕ
  pub stars : List StarRange

-- `used.get(id)`
unfoldable pub used_stars_of : Text → Governance → List StarRange
used_stars_of id b = get_or [] id b.used

unfoldable pub box_of : Text → Governance → Map Text Vote
box_of id b = get_or [] id b.votes

unfoldable pub has_voted : Text → Text → Governance → Bool
has_voted id voter b = has voter (box_of id b)

unfoldable pub open_box : Text → Proposal → Governance → Governance
open_box id p b = record {
  proposals = set id p b.proposals;
  votes = set id [] b.votes;
  used = set id [] b.used;
}

unfoldable pub apply_propose : Text → Text → Text → ℕ → ℕ → Method
apply_propose id title proposer closes_at seq = do
  raise_if (← gets (λ b. has id b.proposals)) known_proposal
  modify (
      open_box id
        (record { title = title; proposer = proposer; closes_at = closes_at; opened_seq = seq }))

unfoldable pub vote_of : Ballot → Vote
vote_of v = record {
  choice = v.choice;
  interval = v.interval;
  glow = v.glow;
  kray = v.kray;
  weight = v.weight;
}

unfoldable pub enter_vote : Text → Ballot → Governance → Governance
enter_vote id v b = record b {
  used = set id (add_ranges (used_stars_of id b) v.stars) b.used;
  votes = set id (set v.voter (vote_of v) (box_of id b)) b.votes;
}

unfoldable pub apply_vote : Text → Ballot → Method
apply_vote id v = do
  p ← or_raise (← gets (λ b. get id b.proposals)) unknown_proposal
  raise_if (← gets (has_voted id v.voter)) already_voted
  raise_if (ltb p.closes_at v.interval) past_close
  raise_if (not (sum_len v.stars == v.kray)) wrong_weight
  raise_if (not (voice default_honocracy v.glow v.kray == v.weight)) wrong_voice
  raise_if (← gets (λ b. overlaps v.stars (used_stars_of id b))) star_voted
  modify (enter_vote id v)

pub data GovAct : Type 0 where
  propose_act : Text → Text → Text → ℕ → ℕ → GovAct
  vote_act : Text → Ballot → GovAct

unfoldable pub apply : GovAct → Method
apply (propose_act id title proposer closes_at seq) = apply_propose id title proposer closes_at seq
apply (vote_act id v) = apply_vote id v

unfoldable pub replay : List GovAct → Governance → Governance
replay [] b = b
replay (act ∷ acts) b = replay acts (apply act b).1

unfoldable pub clean_ranges_for : Text → List StarRange → Governance → List StarRange
clean_ranges_for id held b = subtract_ranges held (used_stars_of id b)

unfoldable pub clean_count : Text → List StarRange → Governance → ℕ
clean_count id held b = sum_len (clean_ranges_for id held b)

-- What `recordVote` writes: the spans that are printed are those that are not empty.
unfoldable pub ballot_of : Text → Text → ℕ → ℕ → List StarRange → ℕ → Ballot
ballot_of voter choice interval glow clean weight = record {
  voter = voter;
  choice = choice;
  interval = interval;
  glow = glow;
  kray = sum_len clean;
  weight = weight;
  stars = filter has_len clean;
}

unfoldable pub record_vote : Text → Text → Text → ℕ → ℕ → List StarRange → ℕ → Method
record_vote id voter choice interval glow clean weight =
    apply_vote id (ballot_of voter choice interval glow clean weight)
