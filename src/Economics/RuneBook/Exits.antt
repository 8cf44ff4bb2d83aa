-- ===== src/Economics/RuneBook/Exits.antt =====
-- The two-phase exit of the rune book (rune-book.ts): request, arm, cancel, settle.
use kray_node.Base.{
  ℕ, ◌+◌, ◌-◌, Bool, true, false, not, ◌&&◌, Option, none, some, ltb, ◌==◌, if◌then◌else◌,
}
use kray_node.Base.Text.{Text, text_eq, is_blank}
use kray_node.Base.Map.{text_key, set, member, add}
use kray_node.Base.Result.{◌>>=◌, ◌>>◌, raise_if, gets, modify, or_raise}
use kray_node.Protocol.Runestone.Artifact.{RuneId}
use kray_node.Economics.RuneKey.{rune_key}
use kray_node.Economics.RuneBook.NestedMap.{at, put, drop}
use kray_node.Economics.RuneBook.State.{
  not_positive, insufficient, no_destination, exit_open, no_exit, already_armed, armed_exit,
  amount_mismatch, already_settled, consumed_whole, delivered_parts, negative_reserve, PendingExit,
  RuneBook, Method, balance_at, personal_at, reserve_at, assert_solvent, reach_balances,
  reach_locks, reach_personal, set_personal,
}

unfoldable pub lock_up : Text → PendingExit → RuneBook → RuneBook
lock_up k p b = record b {
  balances = put k p.address (balance_at k p.address b - p.amount) b.balances;
  locks = put k p.address p b.locks;
}

abbrev has_exit : Text → Text → RuneBook → Bool
has_exit k a b = elim (at k a b.locks) [ none ↦ false | some _ ↦ true ]

unfoldable pub request_exit : RuneId → Text → ℕ → Text → ℕ → Method Unit
request_exit rune from amount l1_address placed_at = do
  raise_if (amount == 0) not_positive
  raise_if (is_blank l1_address) no_destination
  let k = rune_key rune
  modify (reach_locks k)
  raise_if (← gets (has_exit k from)) exit_open
  modify (reach_balances k)
  have ← gets (balance_at k from)
  raise_if (ltb have amount) insufficient
  modify (
      lock_up k (record {
        address = from;
        amount = amount;
        l1_address = l1_address;
        placed_at = placed_at;
        armed = false;
        bound_vault = none;
      }))
  assert_solvent k

-- `{ ...pending, armed: true, ...(boundVault ? { boundVault } : {}) }`
unfoldable pub arm : PendingExit → Option Text → PendingExit
arm p none = record p { armed = true }
arm p (some vault) = record p {
  armed = true;
  bound_vault = if is_blank vault then p.bound_vault else some vault;
}

abbrev pub relock : Text → Text → PendingExit → RuneBook → RuneBook
relock k a p b = record b { locks = put k a p b.locks }

unfoldable pub arm_exit : RuneId → Text → Option Text → Method Unit
arm_exit rune from bound_vault = do
  let k = rune_key rune
  modify (reach_locks k)
  pending ← or_raise (← gets (λ b. at k from b.locks)) no_exit
  raise_if pending.armed already_armed
  modify (relock k from (arm pending bound_vault))
  assert_solvent k

unfoldable pub give_back : Text → Text → ℕ → RuneBook → RuneBook
give_back k a amount b = record b {
  locks = drop k a b.locks;
  balances = put k a (balance_at k a b + amount) b.balances;
}

unfoldable pub cancel_exit : RuneId → Text → Method Unit
cancel_exit rune from = do
  let k = rune_key rune
  modify (reach_locks k)
  pending ← or_raise (← gets (λ b. at k from b.locks)) no_exit
  raise_if pending.armed armed_exit
  modify (give_back k from pending.amount)
  assert_solvent k

-- `deliveryKey || l1Txid`
unfoldable pub delivery : Text → Text → Text
delivery delivery_key l1_txid = if is_blank delivery_key then l1_txid else delivery_key

-- The writes before the reserve is tested.
unfoldable pub mark_settled : Text → Text → Text → Text → RuneBook → RuneBook
mark_settled k from dk l1_txid b = record b {
  settled = add dk b.settled;
  delivered_tx = if text_eq dk l1_txid then b.delivered_tx else add l1_txid b.delivered_tx;
  locks = drop k from b.locks;
}

-- The writes behind it. The personal box falls with the reserve, floored at nothing.
unfoldable pub burn : Text → Text → ℕ → RuneBook → RuneBook
burn k from amount b =
    let b' = record b { reserves = set k (reserve_at k b - amount) b.reserves } in
    let had = personal_at k from b in
    if ltb 0 had then set_personal k from (had - amount) b' else reach_personal k b'

-- An absent `deliveryKey` is the blank one.
unfoldable pub settle_exit : RuneId → Text → ℕ → Text → Text → Method Unit
settle_exit rune from amount l1_txid delivery_key = do
  let k = rune_key rune
  modify (reach_locks k)
  pending ← or_raise (← gets (λ b. at k from b.locks)) no_exit
  raise_if (not (pending.amount == amount)) amount_mismatch
  let dk = delivery delivery_key l1_txid
  let whole = text_eq dk l1_txid
  raise_if (← gets (λ b. member dk b.settled)) already_settled
  raise_if (← gets (λ b. not whole && member l1_txid b.settled)) consumed_whole
  raise_if (← gets (λ b. whole && member l1_txid b.delivered_tx)) delivered_parts
  modify (mark_settled k from dk l1_txid)
  reserve ← gets (reserve_at k)
  raise_if (ltb reserve amount) negative_reserve
  modify (burn k from amount)
  assert_solvent k
