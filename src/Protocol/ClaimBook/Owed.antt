-- ===== src/Protocol/ClaimBook/Owed.antt =====
-- What the pot owes, call by call (protocol/claim-book.ts).
use kray_node.Base.{
  ℕ, ◌+◌, ◌≤◌, ◌≡◌, refl, Bool, ◌&&◌, Option, none, some, List, [], ◌∷◌, if◌then◌else◌, arith,
  Option-cases, inl, inr,
}
use kray_node.Base.Text.{Text, text_eq}
use kray_node.Base.Map.{text_key, get}
use kray_node.Base.Result.{Result, ok, err}
use kray_node.Protocol.ClaimBook.{
  Claim, ClaimBook, Refusal, harvest_of, mint_of, put, open_claim, open_mint, chain_hand, pay_hand,
  take, close, Act, open_act, mint_act, take_act, close_act, apply, replay, IsFresh, AllFresh,
}
use kray_node.Protocol.ClaimBook.Outcome.{verdict, verdict-none, take-none, take-verdict}
use kray_node.Base.Map.{sum_values-set, sum_values-delete}
use kray_node.Protocol.ClaimBook.{backed_as, owed, owed_of, owed_if, owed_in}

-- What a call brings to the lane and asset, and what it takes from there.
abbrev pub if_ok : Result Refusal (Unit {0}) → ℕ → ℕ
if_ok (ok x) n = n
if_ok (err e) n = 0

-- A claim of the lane and asset counts an amount.
unfoldable pub counted : Text → Text → Option Bool → Option Claim → ℕ → ℕ
counted lane asset pool_backed none n = 0
counted lane asset pool_backed (some c) n =
    if text_eq c.lane lane && text_eq c.asset asset && backed_as pool_backed c.from_pool
    then n
    else 0

module _ (hash_of : Text → Text) (lane asset : Text) (pool_backed : Option Bool) where
  abbrev pub come : Act → ClaimBook → ℕ
  come (open_act root giver l a total expires from_pool) b =
      owed_if lane asset pool_backed (harvest_of giver l a total expires from_pool)
  come (mint_act root giver l a terms expires) b =
      owed_if lane asset pool_backed (mint_of giver l a terms expires)
  come (take_act root to amount) b = 0
  come (close_act root) b = 0

  abbrev pub gone : Act → ClaimBook → ℕ
  gone (open_act root giver l a total expires from_pool) b = 0
  gone (mint_act root giver l a terms expires) b = 0
  gone (take_act root to amount) b =
      if_ok (take hash_of root to amount b).0
        (counted lane asset pool_backed (get root b.live) amount)
  gone (close_act root) b = counted lane asset pool_backed (get root b.live) (owed root b)

  abbrev pub all_come : List Act → ClaimBook → ℕ
  all_come [] b = 0
  all_come (act ∷ acts) b = come act b + all_come acts (apply hash_of act b).1

  abbrev pub all_gone : List Act → ClaimBook → ℕ
  all_gone [] b = 0
  all_gone (act ∷ acts) b = gone act b + all_gone acts (apply hash_of act b).1

  put_owed :
      (root : Text) (c : Claim) (b : ClaimBook)
      → get root b.live ≡ none
      → owed_in lane asset pool_backed (put root c b)
        ≡ owed_in lane asset pool_backed b + owed_if lane asset pool_backed c
  unfolding owed_in
  put_owed root c b e =
      ground (arith, e, sum_values-set (owed_if lane asset pool_backed) root c b.live)

  close-owed :
      (root : Text) (b : ClaimBook)
      → owed_in lane asset pool_backed (close root b).1
          + counted lane asset pool_backed (get root b.live) (owed root b)
        ≡ owed_in lane asset pool_backed b
  unfolding owed_in owed owed_if counted close
  close-owed root b = elim (Option-cases (get root b.live)) [
    | inl e ↦ ground (arith, e, sum_values-delete (owed_if lane asset pool_backed) root b.live)
    | inr (c, e) ↦ ground (arith, e, sum_values-delete (owed_if lane asset pool_backed) root b.live)
  ]

  pay_hand_owed :
      (root to : Text) (amount : ℕ) (c : Claim) (b : ClaimBook)
      → get root b.live ≡ some c
      → c.paid + amount ≤ c.total
      → owed_in lane asset pool_backed (pay_hand hash_of root to amount c b)
          + counted lane asset pool_backed (get root b.live) amount
        ≡ owed_in lane asset pool_backed b
  unfolding owed_in owed_if owed_of counted pay_hand
  pay_hand_owed root to amount c b e o =
      let c' : Claim = record c {
        paid = c.paid + amount;
        taken_chain = chain_hand hash_of c.taken_chain to amount;
      } in
      ground (arith, e, o, sum_values-set (owed_if lane asset pool_backed) root c' b.live)

  take_owed :
      (root to : Text) (amount : ℕ) (b : ClaimBook)
      → owed_in lane asset pool_backed (take hash_of root to amount b).1
          + if_ok
              (take hash_of root to amount b).0
              (counted lane asset pool_backed (get root b.live) amount)
        ≡ owed_in lane asset pool_backed b
  take_owed root to amount b = elim (Option-cases (get root b.live)) [
    | inl e ↦ rw (take-none hash_of root to amount b e) (omega arith)
    | inr (c, e) ↦ elim (Option-cases (verdict root to amount c b)) [
      | inr (r, v) ↦ rw (take-verdict hash_of root to amount b c e, v) (omega arith)
      | inl v ↦
          let (t, p, o) = verdict-none root to amount c b v in
          rw (take-verdict hash_of root to amount b c e, v) (pay_hand_owed root to amount c b e o)
    ]
  ]

  apply_owed :
      (act : Act) (b : ClaimBook)
      → IsFresh hash_of act b
      → owed_in lane asset pool_backed (apply hash_of act b).1 + gone act b
        ≡ owed_in lane asset pool_backed b + come act b
  unfolding apply open_claim open_mint
  apply_owed (open_act root giver l a total expires from_pool) b f =
      omega (arith, put_owed root (harvest_of giver l a total expires from_pool) b f)
  apply_owed (mint_act root giver l a terms expires) b f =
      omega (arith, put_owed root (mint_of giver l a terms expires) b f)
  apply_owed (take_act root to amount) b f = omega (arith, take_owed root to amount b)
  apply_owed (close_act root) b f = omega (arith, close-owed root b)

  -- Over any list of calls that opens no root that is open, for a lane, an asset and a choice of
  -- pool-backed claims: what is owed after, with all that takings paid and closings gave back, is what
  -- was owed before with all that was opened.
  pub owed_in-replay :
      (acts : List Act) (b : ClaimBook)
      → AllFresh hash_of acts b
      → owed_in lane asset pool_backed (replay hash_of acts b) + all_gone acts b
        ≡ owed_in lane asset pool_backed b + all_come acts b
  unfolding replay
  owed_in-replay [] b f = refl
  owed_in-replay (act ∷ acts) b (f, fs) =
      omega (arith, apply_owed act b f, owed_in-replay acts (apply hash_of act b).1 fs)
