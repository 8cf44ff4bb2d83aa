-- ===== src/Protocol/ClaimBook/Once.antt =====
-- One hand takes once from one root (protocol/claim-book.ts).
use kray_node.Base.{
  ℕ, ◌+◌, ◌≡◌, true, false, some, List, [], ◌∷◌, arith, Bool-cases, Option-cases, inl, inr,
}
use kray_node.Base.Text.{Text, text_eq, text_eq_iff}
use kray_node.Base.Map.{text_key, get, add, get-set, get-delete_ne}
use kray_node.Base.Result.{ok, err}
use kray_node.Protocol.ClaimBook.{
  Claim, ClaimBook, already_taken, set_of, has_taken, put, open_claim, open_mint, chain_hand,
  pay_hand, take, close, Act, open_act, mint_act, take_act, close_act, apply, replay,
}
use kray_node.Protocol.ClaimBook.Outcome.{verdict, take-none, take-verdict}
use kray_node.Base.Map.{member-add}
use kray_node.Base.{All}

-- The calls that leave a root open.
abbrev pub NotClose : Text → Act → Type 0
NotClose root (open_act j giver lane asset total expires from_pool) = Unit
NotClose root (mint_act j giver lane asset terms expires) = Unit
NotClose root (take_act j to amount) = Unit
NotClose root (close_act j) = text_eq j root ≡ false

-- The root is open and the hand is in its set.
unfoldable HasHand : Text → Text → ClaimBook → Type 0
HasHand root to b = ((c : Claim) × (get root b.live ≡ some c)) × (has_taken root to b ≡ true)

put-HasHand :
    (root to j : Text) (c : Claim) (b : ClaimBook) → HasHand root to b → HasHand root to (put j c b)
unfolding HasHand has_taken
put-HasHand root to j c b ((x, e), t) = (
  elim (Bool-cases (text_eq j root)) [
    | inl y ↦ (c, ground (arith, y, get-set root j c b.live))
    | inr n ↦ (x, ground (arith, n, e, get-set root j c b.live))
  ],
  t,
)

close-HasHand :
    (root to j : Text) (b : ClaimBook)
    → text_eq j root ≡ false
    → HasHand root to b
    → HasHand root to (close j b).1
unfolding HasHand has_taken close
close-HasHand root to j b n ((x, e), t) = (
  (x, ground (arith, n, e, get-delete_ne root j b.live n)),
  ground (arith, n, t, get-delete_ne root j b.taken n),
)

module _ (hash_of : Text → Text) where
  pay_hand-HasHand :
      (root to j who : Text) (amount : ℕ) (c : Claim) (b : ClaimBook)
      → HasHand root to b
      → HasHand root to (pay_hand hash_of j who amount c b)
  unfolding HasHand has_taken pay_hand
  pay_hand-HasHand root to j who amount c b ((x, e), t) =
      let c' = record c {
        paid = c.paid + amount;
        taken_chain = chain_hand hash_of c.taken_chain who amount;
      } in
      let s' = add who (set_of (get j b.taken)) in
      (
        elim (Bool-cases (text_eq j root)) [
          | inl y ↦ (c', ground (arith, y, get-set root j c' b.live))
          | inr n ↦ (x, ground (arith, n, e, get-set root j c' b.live))
        ],
        ground (
          arith,
          t,
          text_eq_iff j root,
          get-set root j s' b.taken,
          member-add to who (set_of (get j b.taken)),
        ),
      )

  pay_hand-takes :
      (root to : Text) (amount : ℕ) (c : Claim) (b : ClaimBook)
      → HasHand root to (pay_hand hash_of root to amount c b)
  unfolding HasHand has_taken pay_hand
  pay_hand-takes root to amount c b =
      let c' = record c {
        paid = c.paid + amount;
        taken_chain = chain_hand hash_of c.taken_chain to amount;
      } in
      let s' = add to (set_of (get root b.taken)) in
      (
        (c', ground (arith, text_eq_iff root root, get-set root root c' b.live)),
        ground (
          arith,
          text_eq_iff root root,
          text_eq_iff to to,
          get-set root root s' b.taken,
          member-add to to (set_of (get root b.taken)),
        ),
      )

  take-HasHand :
      (root to j who : Text) (amount : ℕ) (b : ClaimBook)
      → HasHand root to b
      → HasHand root to (take hash_of j who amount b).1
  take-HasHand root to j who amount b h = elim (Option-cases (get j b.live)) [
    | inl e ↦ rw (take-none hash_of j who amount b e) h
    | inr (c, e) ↦ elim (Option-cases (verdict j who amount c b)) [
      | inr (r, v) ↦ rw (take-verdict hash_of j who amount b c e, v) h
      | inl v ↦
          rw (take-verdict hash_of j who amount b c e, v)
            (pay_hand-HasHand root to j who amount c b h)
    ]
  ]

  replay-HasHand :
      (root to : Text) (acts : List Act) (b : ClaimBook)
      → All (NotClose root) acts
      → HasHand root to b
      → HasHand root to (replay hash_of acts b)
  unfolding replay apply open_claim open_mint
  replay-HasHand root to [] b n h = h
  replay-HasHand root to (open_act j giver lane asset total expires from_pool ∷ acts) b (n, ns) h =
      replay-HasHand root to acts _ ns (put-HasHand root to j _ b h)
  replay-HasHand root to (mint_act j giver lane asset terms expires ∷ acts) b (n, ns) h =
      replay-HasHand root to acts _ ns (put-HasHand root to j _ b h)
  replay-HasHand root to (take_act j who amount ∷ acts) b (n, ns) h =
      replay-HasHand root to acts _ ns (take-HasHand root to j who amount b h)
  replay-HasHand root to (close_act j ∷ acts) b (n, ns) h =
      replay-HasHand root to acts _ ns (close-HasHand root to j b n h)

  take-again :
      (root to : Text) (amount : ℕ) (b : ClaimBook)
      → HasHand root to b
      → take hash_of root to amount b ≡ (err already_taken, b)
  unfolding HasHand verdict
  take-again root to amount b ((c, e), t) = rw (take-verdict hash_of root to amount b c e, t)

  take_ok-HasHand :
      (root to : Text) (amount : ℕ) (b : ClaimBook)
      → (take hash_of root to amount b).0 ≡ ok tt
      → HasHand root to (take hash_of root to amount b).1
  take_ok-HasHand root to amount b k = elim (Option-cases (get root b.live)) [
    | inl e ↦ ground (arith, k, take-none hash_of root to amount b e)
    | inr (c, e) ↦ elim (Option-cases (verdict root to amount c b)) [
      | inr (r, v) ↦ ground (arith, k, v, take-verdict hash_of root to amount b c e)
      | inl v ↦
          rw (take-verdict hash_of root to amount b c e, v) (pay_hand-takes root to amount c b)
    ]
  ]

  -- A hand has taken under a root. Then, after any calls that do not close that root, a second taking
  -- by that hand, of any amount, is refused as already taken and changes nothing.
  pub take_once :
      (root to : Text) (amount again : ℕ) (acts : List Act) (b : ClaimBook)
      → (take hash_of root to amount b).0 ≡ ok tt
      → All (NotClose root) acts
      → take hash_of root to again (replay hash_of acts (take hash_of root to amount b).1)
        ≡ (err already_taken, replay hash_of acts (take hash_of root to amount b).1)
  take_once root to amount again acts b k n =
      take-again root to again _
        (replay-HasHand root to acts _ n (take_ok-HasHand root to amount b k))
