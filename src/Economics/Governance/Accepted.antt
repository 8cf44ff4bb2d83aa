-- ===== src/Economics/Governance/Accepted.antt =====
-- A vote with clean stars is taken (economics/governance.ts).
use kray_node.Base.{
  ℕ, ◌+◌, ◌≤◌, ◌≡◌, refl, true, false, not, ◌&&◌, some, List, [], ◌∷◌, filter, ltb, ◌==◌, arith,
  Bool-cases, inl, inr,
}
use kray_node.Base.Text.{Text, text_eq}
use kray_node.Base.Map.{text_key, Map, get, has, get_or, set, get-set}
use kray_node.Base.Result.{ok}
use kray_node.Economics.Honocracy.{default_honocracy, voice}
use kray_node.Economics.Governance.{
  Proposal, Governance, Ballot, empty_governance, used_stars_of, has_voted, open_box, apply_propose,
  enter_vote, apply_vote, GovAct, propose_act, vote_act, apply, replay, clean_ranges_for, ballot_of,
  record_vote,
}
use kray_node.Economics.Governance.OneStar.{IsTaken, apply_vote-cases}
use kray_node.Economics.Governance.Ranges.{
  StarRange, sum_len, has_len, add_ranges, subtract_ranges, overlaps,
}
use kray_node.Economics.Governance.Ranges.Laws.{in_ranges, in_ranges-subtract_ranges}
use kray_node.Economics.Governance.Ranges.Clean.{
  AllLong, add_ranges-AllLong, subtract_ranges-AllLong, overlaps-subtract_ranges,
}

-- No span in use is empty.
unfoldable IsTidy : Governance → Type 0
IsTidy b = (id : Text) → AllLong (used_stars_of id b)

enter_vote-IsTidy :
    (id : Text) (v : Ballot) (b : Governance) → IsTidy b → IsTidy (enter_vote id v b)
unfolding IsTidy enter_vote used_stars_of
enter_vote-IsTidy id v b h j =
    let more = add_ranges (get_or [] id b.used) v.stars in
    ground (arith, h j, get-set j id more b.used, add_ranges-AllLong (get_or [] id b.used) v.stars)

open_used :
    (id j : Text) (used : Map Text (List StarRange))
    → AllLong (get_or [] j used)
    → AllLong (get_or [] j (set id [] used))
unfolding AllLong
open_used id j used h = elim (Bool-cases (text_eq id j)) [
  | inl y ↦
      let e : get_or [] j (set id [] used) ≡ [] = ground (arith, y, get-set j id [] used) in rw e tt
  | inr n ↦
      let e : get_or [] j (set id [] used) ≡ get_or [] j used =
        ground (arith, n, get-set j id [] used) in
      rw e h
]

apply_propose-IsTidy :
    (id title proposer : Text) (closes_at seq : ℕ) (b : Governance)
    → IsTidy b
    → IsTidy (apply_propose id title proposer closes_at seq b).1
unfolding IsTidy apply_propose open_box used_stars_of AllLong
apply_propose-IsTidy id title proposer closes_at seq b h j =
    elim (Bool-cases (has id b.proposals)) [
      | inl e ↦ rw e (h j)
      | inr e ↦ rw e (open_used id j b.used (h j))
    ]

apply_vote-IsTidy :
    (id : Text) (v : Ballot) (b : Governance) → IsTidy b → IsTidy (apply_vote id v b).1
apply_vote-IsTidy id v b h = elim (apply_vote-cases id v b) [
  | inl (r, e) ↦ rw e h
  | inr (p, t, e) ↦ rw e (enter_vote-IsTidy id v b h)
]

replay-IsTidy : (acts : List GovAct) (b : Governance) → IsTidy b → IsTidy (replay acts b)
unfolding replay apply
replay-IsTidy [] b h = h
replay-IsTidy (propose_act j title proposer closes_at seq ∷ acts) b h =
    replay-IsTidy acts _ (apply_propose-IsTidy j title proposer closes_at seq b h)
replay-IsTidy (vote_act j v ∷ acts) b h = replay-IsTidy acts _ (apply_vote-IsTidy j v b h)

empty_governance-IsTidy : IsTidy empty_governance
unfolding IsTidy used_stars_of get AllLong
empty_governance-IsTidy id = tt

filter_long : (rs : List StarRange) → AllLong rs → filter has_len rs ≡ rs
unfolding AllLong
filter_long [] h = refl
filter_long (r ∷ rs) (hr, h) = ground (arith, hr, filter_long rs h)

apply_vote-taken :
    (id : Text) (v : Ballot) (b : Governance) (p : Proposal)
    → IsTaken id v b p
    → apply_vote id v b ≡ (ok tt, enter_vote id v b)
unfolding apply_vote
apply_vote-taken id v b p t =
    let in_time : ltb p.closes_at v.interval ≡ false = ground (arith, t.in_time) in
    let one : (sum_len v.stars == v.kray) ≡ true = ground (arith, t.one_for_each) in
    let formula : (voice default_honocracy v.glow v.kray == v.weight) ≡ true =
      ground (arith, t.by_formula) in
    rw (t.found, t.new_voter, in_time, one, formula, t.clean)

-- On a journal from the empty book, a proposal is there, the voter has not voted on it, the interval is
-- not past its close, and the weight is the voice of the glow and of the number of clean stars. Then
-- the vote with the clean stars of what the voter holds is taken; its stars are those that are held and
-- have not voted on the proposal.
pub record_vote-clean_ranges_for :
    (id voter choice : Text) (interval glow weight : ℕ) (held : List StarRange) (acts : List GovAct)
    (p : Proposal)
    → get id (replay acts empty_governance).proposals ≡ some p
    → has_voted id voter (replay acts empty_governance) ≡ false
    → interval ≤ p.closes_at
    → voice default_honocracy glow
        (sum_len (clean_ranges_for id held (replay acts empty_governance)))
      ≡ weight
    → let b = replay acts empty_governance in
      let clean = clean_ranges_for id held b in
      ((record_vote id voter choice interval glow clean weight b).0 ≡ ok tt)
      × ((s : ℕ) → in_ranges s clean ≡ (in_ranges s held && not (in_ranges s (used_stars_of id b))))
unfolding record_vote ballot_of clean_ranges_for IsTidy
record_vote-clean_ranges_for id voter choice interval glow weight held acts p e n t w =
    let b = replay acts empty_governance in
    let used = used_stars_of id b in
    let clean = subtract_ranges held used in
    let tidy = replay-IsTidy acts empty_governance empty_governance-IsTidy in
    let whole = filter_long clean (subtract_ranges-AllLong held used) in
    let taken =
      apply_vote-taken id (ballot_of voter choice interval glow clean weight) b p (record {
        found = e;
        new_voter = n;
        in_time = t;
        one_for_each = rw whole refl;
        by_formula = w;
        clean = rw whole (overlaps-subtract_ranges held used (tidy id));
      }) in
    (rw taken refl, λ s. in_ranges-subtract_ranges s held used)

-- A proposal is there and the voter has not voted on it; a span of stars overlaps none that has voted.
-- Then a vote that names this one span twice, with twice its length as its weight and the voice of
-- that weight, is taken, in time.
pub apply_vote-twice :
    (id voter choice : Text) (interval glow : ℕ) (r : StarRange) (b : Governance) (p : Proposal)
    → get id b.proposals ≡ some p
    → has_voted id voter b ≡ false
    → interval ≤ p.closes_at
    → overlaps (r ∷ []) (used_stars_of id b) ≡ false
    → (apply_vote id
        (record {
          voter = voter;
          choice = choice;
          interval = interval;
          glow = glow;
          kray = r.len + r.len;
          weight = voice default_honocracy glow (r.len + r.len);
          stars = r ∷ r ∷ [];
        })
        b).0
      ≡ ok tt
unfolding sum_len overlaps
apply_vote-twice id voter choice interval glow r b p e n t o =
    let v : Ballot = record {
      voter = voter;
      choice = choice;
      interval = interval;
      glow = glow;
      kray = r.len + r.len;
      weight = voice default_honocracy glow (r.len + r.len);
      stars = r ∷ r ∷ [];
    } in
    let both : sum_len (r ∷ r ∷ []) ≡ r.len + r.len = omega arith in
    let clear : overlaps (r ∷ r ∷ []) (used_stars_of id b) ≡ false = ground (arith, o) in
    rw
      (apply_vote-taken id v b p (record {
        found = e;
        new_voter = n;
        in_time = t;
        one_for_each = both;
        by_formula = refl;
        clean = clear;
      }))
      refl
