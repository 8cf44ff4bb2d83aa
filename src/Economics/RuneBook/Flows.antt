-- ===== src/Economics/RuneBook/Flows.antt =====
-- The reserve of a rune is what its deposits brought in less what its settlements burned.
use kray_node.Base.{ℕ, ◌+◌, ◌-◌, ◌≡◌, Bool, arith, inl, inr, Option-cases, if◌then◌else◌}
use kray_node.Base.Text.{Text, text_eq, text_eq_iff}
use kray_node.Base.Map.{text_key, get-set}
use kray_node.Base.Result.{err}
use kray_node.Protocol.Runestone.Artifact.{RuneId}
use kray_node.Economics.RuneKey.{rune_key}
use kray_node.Economics.RuneBook.State.{RuneBook, Refusal, reserve_at, reach_locks}
use kray_node.Economics.RuneBook.Moves.{credit, deposit}
use kray_node.Economics.RuneBook.Exits.{mark_settled, burn, settle_exit, delivery}
use kray_node.Economics.RuneBook.Journal.{
  Act, deposit_act, rehome_act, send_act, request_act, arm_act, cancel_act, settle_act, apply,
  minted, burned,
}
use kray_node.Economics.RuneBook.Solvency.{
  IsSolvent, KeepsSolvent, lock-le-reserve, reach_locks-IsSolvent,
}
use kray_node.Economics.RuneBook.Outcomes.{
  SameView, reach_locks-SameView, deposit_outcome, rehome_outcome, send_outcome,
  request_exit_outcome,
}
use kray_node.Economics.RuneBook.Outcomes.Exits.{
  open_exit, arm_exit_closed, cancel_exit_closed, settle_exit_closed, arm_exit_outcome,
  cancel_exit_outcome, settle_exit_outcome,
}
use kray_node.Economics.RuneBook.Solvency.Methods.{
  deposit-KeepsSolvent, rehome-KeepsSolvent, send-KeepsSolvent, request_exit-KeepsSolvent,
  arm_exit-KeepsSolvent, cancel_exit-KeepsSolvent, settle_exit-KeepsSolvent,
}

-- Every act keeps every rune solvent, whether it succeeds or is refused, and the tripwire never fires.
pub apply-KeepsSolvent : (act : Act) (b : RuneBook) → IsSolvent b → KeepsSolvent (apply act b)
unfolding apply
apply-KeepsSolvent (deposit_act rune o n to pool) b h = deposit-KeepsSolvent rune o to n pool b h
apply-KeepsSolvent (rehome_act rune a n) b h = ground (arith, rehome-KeepsSolvent rune a n b h)
apply-KeepsSolvent (send_act rune from to n) b h = send-KeepsSolvent rune from to n b h
apply-KeepsSolvent (request_act rune from n l1 when) b h =
    request_exit-KeepsSolvent rune from n l1 when b h
apply-KeepsSolvent (arm_act rune from vault) b h = arm_exit-KeepsSolvent rune from vault b h
apply-KeepsSolvent (cancel_act rune from) b h = cancel_exit-KeepsSolvent rune from b h
apply-KeepsSolvent (settle_act rune from n l1 key) b h =
    settle_exit-KeepsSolvent rune from n l1 key b h

-- On a solvent book, a refused act changes nothing that a reader of the book can see.
pub refused-SameView :
    (act : Act) (b : RuneBook) (e : Refusal)
    → IsSolvent b
    → (apply act b).0 ≡ err e
    → SameView b (apply act b).1
unfolding apply
refused-SameView (deposit_act rune o n to pool) b e h r =
    ground (arith, deposit_outcome rune b h o to n pool)
refused-SameView (rehome_act rune a n) b e h r = ground (arith, rehome_outcome rune b h a n)
refused-SameView (send_act rune from to n) b e h r = ground (arith, send_outcome rune b h from to n)
refused-SameView (request_act rune from n l1 when) b e h r =
    ground (arith, request_exit_outcome rune b h from n l1 when)
refused-SameView (arm_act rune from vault) b e h r = elim (Option-cases (open_exit rune from b)) [
  | inl c ↦
      ground (arith, arm_exit_closed rune from b vault c, reach_locks-SameView (rune_key rune) b)
  | inr (p, o) ↦ ground (arith, arm_exit_outcome rune from b h p vault o)
]
refused-SameView (cancel_act rune from) b e h r = elim (Option-cases (open_exit rune from b)) [
  | inl c ↦ ground (arith, cancel_exit_closed rune from b c, reach_locks-SameView (rune_key rune) b)
  | inr (p, o) ↦ ground (arith, cancel_exit_outcome rune from b h p o)
]
refused-SameView (settle_act rune from n l1 key) b e h r =
    elim (Option-cases (open_exit rune from b)) [
      | inl c ↦
          ground (
            arith,
            settle_exit_closed rune from b n l1 key c,
            reach_locks-SameView (rune_key rune) b,
          )
      | inr (p, o) ↦ ground (arith, settle_exit_outcome rune from b h p n l1 key o)
    ]

reserve_at-settled :
    (k j a dk l1 : Text) (n : ℕ) (b : RuneBook)
    → reserve_at k (burn j a n (mark_settled j a dk l1 (reach_locks j b)))
      ≡ (if text_eq j k then reserve_at j b - n else reserve_at k b)
unfolding burn mark_settled
reserve_at-settled k j a dk l1 n b = ground (arith, get-set k j (reserve_at j b - n) b.reserves)

pub deposit_flow :
    (k : Text) (rune : RuneId) (o to : Text) (n : ℕ) (pool : Bool) (b : RuneBook)
    → IsSolvent b
    → reserve_at k (deposit rune o n to pool b).1
      ≡ reserve_at k b + minted k (deposit_act rune o n to pool) b
unfolding minted credit SameView
deposit_flow k rune o to n pool b h = ground (
  arith,
  text_eq_iff (rune_key rune) k,
  deposit_outcome rune b h o to n pool,
  get-set k (rune_key rune) (reserve_at (rune_key rune) b + n) b.reserves,
)

pub settle_flow :
    (k : Text) (rune : RuneId) (from : Text) (n : ℕ) (l1 key : Text) (b : RuneBook)
    → IsSolvent b
    → reserve_at k (settle_exit rune from n l1 key b).1 + burned k (settle_act rune from n l1 key) b
      ≡ reserve_at k b
unfolding burned SameView
settle_flow k rune from n l1 key b h =
    let j = rune_key rune in
    elim (Option-cases (open_exit rune from b)) [
      | inl c ↦ ground (arith, settle_exit_closed rune from b n l1 key c)
      | inr (p, o) ↦ ground (
        arith,
        text_eq_iff j k,
        lock-le-reserve j from p (reach_locks j b) o (reach_locks-IsSolvent j b h),
        settle_exit_outcome rune from b h p n l1 key o,
        reserve_at-settled k j from (delivery key l1) l1 n b,
      )
    ]
