-- ===== src/Economics/Governance/OneStar.antt =====
-- One star, one vote on a proposal (economics/governance.ts).
use kray_node.Base.{
  ℕ, ◌≤◌, ◌≡◌, ◌⊎◌, true, false, some, List, [], ◌∷◌, ltb, ◌==◌, arith, Bool-cases, Option-cases,
  inl, inr,
}
use kray_node.Base.Text.{Text, text_eq_iff}
use kray_node.Base.Map.{text_key, get, has, get_or, get-set}
use kray_node.Base.Result.{ok, err}
use kray_node.Economics.Honocracy.{default_honocracy, voice}
use kray_node.Economics.Governance.{
  Proposal, Governance, Ballot, Refusal, unknown_proposal, already_voted, past_close, wrong_weight,
  wrong_voice, star_voted, used_stars_of, has_voted, open_box, apply_propose, enter_vote,
  apply_vote, GovAct, propose_act, vote_act, apply, replay,
}
use kray_node.Economics.Governance.Ranges.{sum_len, add_ranges, overlaps}
use kray_node.Economics.Governance.Ranges.Laws.{in_ranges, in_ranges-add_ranges}
use kray_node.Economics.Governance.Ranges.Clean.{overlaps-apart}

-- What a vote that is taken has passed.
pub record IsTaken (id : Text) (v : Ballot) (b : Governance) (p : Proposal) : Type 0 where
  pub found : get id b.proposals ≡ some p
  pub new_voter : has_voted id v.voter b ≡ false
  pub in_time : v.interval ≤ p.closes_at
  pub one_for_each : sum_len v.stars ≡ v.kray
  pub by_formula : voice default_honocracy v.glow v.kray ≡ v.weight
  pub clean : overlaps v.stars (used_stars_of id b) ≡ false

pub apply_vote-cases :
    (id : Text) (v : Ballot) (b : Governance)
    → ((r : Refusal) × (apply_vote id v b ≡ (err r, b)))
      ⊎ ((p : Proposal) × IsTaken id v b p × (apply_vote id v b ≡ (ok tt, enter_vote id v b)))
unfolding apply_vote
apply_vote-cases id v b = elim (Option-cases (get id b.proposals)) [
  | inl e ↦ inl (unknown_proposal, rw e)
  | inr (p, e) ↦ elim (Bool-cases (has_voted id v.voter b)) [
    | inl t ↦ inl (already_voted, rw (e, t))
    | inr t ↦ elim (Bool-cases (ltb p.closes_at v.interval)) [
      | inl l ↦ inl (past_close, rw (e, t, l))
      | inr l ↦ elim (Bool-cases (sum_len v.stars == v.kray)) [
        | inr w ↦ inl (wrong_weight, rw (e, t, l, w))
        | inl w ↦ elim (Bool-cases (voice default_honocracy v.glow v.kray == v.weight)) [
          | inr f ↦ inl (wrong_voice, rw (e, t, l, w, f))
          | inl f ↦ elim (Bool-cases (overlaps v.stars (used_stars_of id b))) [
            | inl o ↦ inl (star_voted, rw (e, t, l, w, f, o))
            | inr o ↦ inr (
              p,
              record {
                found = e;
                new_voter = t;
                in_time = ground (arith, l);
                one_for_each = ground (arith, w);
                by_formula = ground (arith, f);
                clean = o;
              },
              rw (e, t, l, w, f, o),
            )
          ]
        ]
      ]
    ]
  ]
]

-- The proposal is there and the star has voted on it.
unfoldable HasStar : Text → ℕ → Governance → Type 0
HasStar id s b = (has id b.proposals ≡ true) × (in_ranges s (used_stars_of id b) ≡ true)

enter_vote-HasStar :
    (id j : Text) (s : ℕ) (v : Ballot) (b : Governance)
    → HasStar id s b
    → HasStar id s (enter_vote j v b)
unfolding HasStar enter_vote used_stars_of
enter_vote-HasStar id j s v b (h, i) =
    let more = add_ranges (get_or [] j b.used) v.stars in
    (
      h,
      ground (
        arith,
        i,
        text_eq_iff j id,
        get-set id j more b.used,
        in_ranges-add_ranges s (get_or [] j b.used) v.stars,
      ),
    )

apply_propose-HasStar :
    (id j title proposer : Text) (closes_at seq s : ℕ) (b : Governance)
    → HasStar id s b
    → HasStar id s (apply_propose j title proposer closes_at seq b).1
unfolding HasStar apply_propose open_box used_stars_of
apply_propose-HasStar id j title proposer closes_at seq s b (h, i) =
    elim (Bool-cases (has j b.proposals)) [
      | inl e ↦ rw e (h, i)
      | inr e ↦
          let p : Proposal = record {
            title = title;
            proposer = proposer;
            closes_at = closes_at;
            opened_seq = seq;
          } in
          rw e (
            ground (arith, e, h, text_eq_iff j id, get-set id j p b.proposals),
            ground (arith, e, h, i, text_eq_iff j id, get-set id j [] b.used),
          )
    ]

apply_vote-HasStar :
    (id j : Text) (s : ℕ) (v : Ballot) (b : Governance)
    → HasStar id s b
    → HasStar id s (apply_vote j v b).1
apply_vote-HasStar id j s v b h = elim (apply_vote-cases j v b) [
  | inl (r, e) ↦ rw e h
  | inr (p, t, e) ↦ rw e (enter_vote-HasStar id j s v b h)
]

replay-HasStar :
    (id : Text) (s : ℕ) (acts : List GovAct) (b : Governance)
    → HasStar id s b
    → HasStar id s (replay acts b)
unfolding replay apply
replay-HasStar id s [] b h = h
replay-HasStar id s (propose_act j title proposer closes_at seq ∷ acts) b h =
    replay-HasStar id s acts _ (apply_propose-HasStar id j title proposer closes_at seq s b h)
replay-HasStar id s (vote_act j v ∷ acts) b h =
    replay-HasStar id s acts _ (apply_vote-HasStar id j s v b h)

taken-HasStar :
    (id : Text) (s : ℕ) (v : Ballot) (b : Governance) (p : Proposal)
    → IsTaken id v b p
    → in_ranges s v.stars ≡ true
    → HasStar id s (enter_vote id v b)
unfolding HasStar enter_vote used_stars_of
taken-HasStar id s v b p t i =
    let more = add_ranges (get_or [] id b.used) v.stars in
    (
      ground (arith, t.found),
      ground (
        arith,
        i,
        text_eq_iff id id,
        get-set id id more b.used,
        in_ranges-add_ranges s (get_or [] id b.used) v.stars,
      ),
    )

apply_vote_clean :
    (id : Text) (s : ℕ) (v : Ballot) (b : Governance)
    → HasStar id s b
    → (apply_vote id v b).0 ≡ ok tt
    → in_ranges s v.stars ≡ false
unfolding HasStar
apply_vote_clean id s v b (h, i) k = elim (apply_vote-cases id v b) [
  | inl (r, e) ↦ ground (arith, k, e)
  | inr (p, t, e) ↦ ground (arith, i, overlaps-apart s v.stars (used_stars_of id b) t.clean)
]

-- Two votes on one proposal are taken, whoever casts them and whatever acts lie between. Then no star
-- of the first is a star of the second.
pub one_star_one_vote :
    (id : Text) (s : ℕ) (first second : Ballot) (acts : List GovAct) (b : Governance)
    → (apply_vote id first b).0 ≡ ok tt
    → (apply_vote id second (replay acts (apply_vote id first b).1)).0 ≡ ok tt
    → in_ranges s first.stars ≡ true
    → in_ranges s second.stars ≡ false
one_star_one_vote id s first second acts b k1 k2 i = elim (apply_vote-cases id first b) [
  | inl (r, e) ↦ ground (arith, k1, e)
  | inr (p, t, e) ↦
      let here = taken-HasStar id s first b p t i in
      let after : HasStar id s (apply_vote id first b).1 = rw e here in
      apply_vote_clean id s second _ (replay-HasStar id s acts _ after) k2
]
