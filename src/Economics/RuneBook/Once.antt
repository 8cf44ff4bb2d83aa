-- ===== src/Economics/RuneBook/Once.antt =====
-- One deposit is minted once and one delivery burns once, however many acts lie between.
use kray_node.Base.{
  ◌⊎◌, not, ◌&&◌, ℕ, ◌≡◌, ◌≢◌, Bool, true, false, List, [], ◌∷◌, arith, inl, inr, Option-cases,
}
use kray_node.Base.Text.{Text, text_eq, text_eq_iff, text_eq_refl}
use kray_node.Base.Map.{text_key, member}
use kray_node.Base.Result.{ok}
use kray_node.Protocol.Runestone.Artifact.{RuneId}
use kray_node.Economics.RuneKey.{rune_key}
use kray_node.Economics.RuneBook.State.{RuneBook, reach_locks}
use kray_node.Economics.RuneBook.Moves.{credit, deposit, rehomed, move}
use kray_node.Economics.RuneBook.Exits.{
  lock_up, give_back, mark_settled, burn, settle_exit, delivery,
}
use kray_node.Economics.RuneBook.Journal.{
  Act, deposit_act, rehome_act, send_act, request_act, arm_act, cancel_act, settle_act, apply,
  replay,
}
use kray_node.Economics.RuneBook.Solvency.{IsSolvent}
use kray_node.Economics.RuneBook.Outcomes.{
  SameView, deposit_outcome, rehome_outcome, send_outcome, request_exit_outcome,
}
use kray_node.Economics.RuneBook.Outcomes.Exits.{
  open_exit, arm_exit_closed, cancel_exit_closed, settle_exit_closed, arm_exit_outcome,
  cancel_exit_outcome, settle_exit_outcome,
}
use kray_node.Economics.RuneBook.Solvency.Methods.{deposit-KeepsSolvent, settle_exit-KeepsSolvent}
use kray_node.Economics.RuneBook.Flows.{apply-KeepsSolvent}
use kray_node.Economics.RuneBook.Conservation.{replay-IsSolvent}
use kray_node.Base.Map.{member-add}

abbrev implies : Bool → Bool → Bool
implies true b = b
implies false b = true

-- What was in the three sets of spent proofs is still there.
abbrev Remembers : Text → RuneBook → RuneBook → Type 0
Remembers x b c =
    (implies (member x b.credited) (member x c.credited) ≡ true)
    × (implies (member x b.settled) (member x c.settled) ≡ true)
    × (implies (member x b.delivered_tx) (member x c.delivered_tx) ≡ true)

credit-Remembers :
    (x k o to : Text) (n : ℕ) (pool : Bool) (b : RuneBook) → Remembers x b (credit k o n to pool b)
unfolding credit
credit-Remembers x k o to n pool b = ground (arith, member-add x o b.credited)

settled-Remembers :
    (x k a dk l1 : Text) (n : ℕ) (b : RuneBook)
    → Remembers x b (burn k a n (mark_settled k a dk l1 (reach_locks k b)))
unfolding burn mark_settled
settled-Remembers x k a dk l1 n b =
    ground (arith, member-add x dk b.settled, member-add x l1 b.delivered_tx)

apply-Remembers :
    (x : Text) (act : Act) (b : RuneBook) → IsSolvent b → Remembers x b (apply act b).1
unfolding apply SameView move rehomed lock_up give_back
apply-Remembers x (deposit_act rune o n to pool) b h =
    ground (
      arith,
      deposit_outcome rune b h o to n pool,
      credit-Remembers x (rune_key rune) o to n pool b,
    )
apply-Remembers x (rehome_act rune a n) b h = ground (arith, rehome_outcome rune b h a n)
apply-Remembers x (send_act rune from to n) b h = ground (arith, send_outcome rune b h from to n)
apply-Remembers x (request_act rune from n l1 when) b h =
    ground (arith, request_exit_outcome rune b h from n l1 when)
apply-Remembers x (arm_act rune from vault) b h = elim (Option-cases (open_exit rune from b)) [
  | inl c ↦ ground (arith, arm_exit_closed rune from b vault c)
  | inr (p, o) ↦ ground (arith, arm_exit_outcome rune from b h p vault o)
]
apply-Remembers x (cancel_act rune from) b h = elim (Option-cases (open_exit rune from b)) [
  | inl c ↦ ground (arith, cancel_exit_closed rune from b c)
  | inr (p, o) ↦ ground (arith, cancel_exit_outcome rune from b h p o)
]
apply-Remembers x (settle_act rune from n l1 key) b h =
    elim (Option-cases (open_exit rune from b)) [
      | inl c ↦ ground (arith, settle_exit_closed rune from b n l1 key c)
      | inr (p, o) ↦ ground (
        arith,
        settle_exit_outcome rune from b h p n l1 key o,
        settled-Remembers x (rune_key rune) from (delivery key l1) l1 n b,
      )
    ]

replay-Remembers :
    (x : Text) (acts : List Act) (b : RuneBook) → IsSolvent b → Remembers x b (replay acts b)
unfolding replay
replay-Remembers x [] b h = ground arith
replay-Remembers x (act ∷ acts) b h =
    let h' = (apply-KeepsSolvent act b h).0 in
    ground (arith, apply-Remembers x act b h, replay-Remembers x acts (apply act b).1 h')

credited-credit :
    (k o to : Text) (n : ℕ) (pool : Bool) (b : RuneBook)
    → member o (credit k o n to pool b).credited ≡ true
unfolding credit
credited-credit k o to n pool b = ground (arith, text_eq_refl o, member-add o o b.credited)

-- In a solvent book, once an outpoint has been credited no later deposit of it succeeds: for no rune,
-- amount or recipient, and whatever acts lie between.
pub deposit_once :
    (rune rune' : RuneId) (o to to' : Text) (n n' : ℕ) (pool pool' : Bool) (acts : List Act)
    (b : RuneBook)
    → IsSolvent b
    → (deposit rune o n to pool b).0 ≡ ok tt
    → (deposit rune' o n' to' pool' (replay acts (deposit rune o n to pool b).1)).0 ≢ ok tt
deposit_once rune rune' o to to' n n' pool pool' acts b h first =
    let b1 = (deposit rune o n to pool b).1 in
    let h1 = (deposit-KeepsSolvent rune o to n pool b h).0 in
    let h2 = replay-IsSolvent acts b1 h1 in
    λ again. ground (
      arith,
      deposit_outcome rune b h o to n pool,
      credited-credit (rune_key rune) o to n pool b,
      replay-Remembers o acts b1 h1,
      deposit_outcome rune' (replay acts b1) h2 o to' n' pool',
    )

-- Two deliveries of one L1 transaction that may not both burn: the same output, or the whole
-- transaction and any part of it.
abbrev pub Conflict : Text → Text → Text → Type 0
Conflict l1 key key' =
    (delivery key l1 ≡ delivery key' l1) ⊎ (delivery key l1 ≡ l1) ⊎ (delivery key' l1 ≡ l1)

settled-burn :
    (k a dk l1 : Text) (n : ℕ) (b : RuneBook)
    → let c = burn k a n (mark_settled k a dk l1 (reach_locks k b)) in
      (member dk c.settled ≡ true)
      × (implies (not (text_eq dk l1)) (member l1 c.delivered_tx) ≡ true)
unfolding burn mark_settled
settled-burn k a dk l1 n b = ground (
  arith,
  text_eq_refl dk,
  text_eq_refl l1,
  member-add dk dk b.settled,
  member-add l1 l1 b.delivered_tx,
)

-- What a settlement that succeeded has written down.
settle_exit_marks :
    (rune : RuneId) (from : Text) (n : ℕ) (l1 key : Text) (b : RuneBook)
    → IsSolvent b
    → (settle_exit rune from n l1 key b).0 ≡ ok tt
    → let c = (settle_exit rune from n l1 key b).1 in
      let dk = delivery key l1 in
      (member dk c.settled ≡ true)
      × (implies (not (text_eq dk l1)) (member l1 c.delivered_tx) ≡ true)
settle_exit_marks rune from n l1 key b h done = elim (Option-cases (open_exit rune from b)) [
  | inl c ↦ ground (arith, settle_exit_closed rune from b n l1 key c)
  | inr (p, o) ↦ ground (
    arith,
    settle_exit_outcome rune from b h p n l1 key o,
    settled-burn (rune_key rune) from (delivery key l1) l1 n b,
  )
]

-- A settlement that succeeds was of a delivery that conflicts with nothing settled before.
settle_exit_fresh :
    (rune : RuneId) (from : Text) (n : ℕ) (l1 key : Text) (b : RuneBook)
    → IsSolvent b
    → (settle_exit rune from n l1 key b).0 ≡ ok tt
    → let dk = delivery key l1 in
      (member dk b.settled ≡ false)
      × ((not (text_eq dk l1) && member l1 b.settled) ≡ false)
      × ((text_eq dk l1 && member l1 b.delivered_tx) ≡ false)
settle_exit_fresh rune from n l1 key b h done = elim (Option-cases (open_exit rune from b)) [
  | inl c ↦ ground (arith, settle_exit_closed rune from b n l1 key c)
  | inr (p, o) ↦ ground (arith, settle_exit_outcome rune from b h p n l1 key o)
]

-- In a solvent book, after a settlement succeeded no later one of a conflicting delivery of the same
-- L1 transaction succeeds (the same delivery, or one of the two the whole transaction): for no rune,
-- holder or amount, and whatever acts lie between.
pub settle_once :
    (rune rune' : RuneId) (from from' : Text) (n n' : ℕ) (l1 key key' : Text) (acts : List Act)
    (b : RuneBook)
    → IsSolvent b
    → Conflict l1 key key'
    → (settle_exit rune from n l1 key b).0 ≡ ok tt
    → (settle_exit rune' from' n' l1 key' (replay acts (settle_exit rune from n l1 key b).1)).0
      ≢ ok tt
settle_once rune rune' from from' n n' l1 key key' acts b h clash first =
    let b1 = (settle_exit rune from n l1 key b).1 in
    let h1 = (settle_exit-KeepsSolvent rune from n l1 key b h).0 in
    let b2 = replay acts b1 in
    λ again. ground (
      arith,
      settle_exit_marks rune from n l1 key b h first,
      replay-Remembers (delivery key l1) acts b1 h1,
      replay-Remembers l1 acts b1 h1,
      text_eq_iff (delivery key l1) l1,
      text_eq_iff (delivery key' l1) l1,
      settle_exit_fresh rune' from' n' l1 key' b2 (replay-IsSolvent acts b1 h1) again,
    )
