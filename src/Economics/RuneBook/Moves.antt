-- ===== src/Economics/RuneBook/Moves.antt =====
-- Deposits, rehoming and transfers of the rune book (rune-book.ts).
use kray_node.Base.{ℕ, ◌+◌, ◌-◌, Bool, Option, none, some, ltb, ◌==◌, if◌then◌else◌}
use kray_node.Base.Text.{Text, text_eq, is_blank}
use kray_node.Base.Map.{text_key, set, member, add}
use kray_node.Base.Result.{◌>>=◌, ◌>>◌, pure, raise_if, gets, modify}
use kray_node.Protocol.Runestone.Artifact.{RuneId}
use kray_node.Economics.RuneKey.{rune_key}
use kray_node.Economics.RuneBook.NestedMap.{put}
use kray_node.Economics.RuneBook.State.{
  not_positive, no_recipient, already_credited, nothing_to_rehome, same_party, insufficient,
  RuneBook, Method, balance_at, personal_at, reserve_at, assert_solvent, reach_balances,
  reach_personal, set_personal,
}

-- The writes of a deposit, once it has passed its guards.
unfoldable pub credit : Text → Text → ℕ → Text → Bool → RuneBook → RuneBook
credit k outpoint amount to pool b =
    let b' = record b {
      credited = add outpoint b.credited;
      reserves = set k (reserve_at k b + amount) b.reserves;
      balances = put k to (balance_at k to b + amount) b.balances;
    } in
    if pool
    then record b' { rehomed_runes = add k b.rehomed_runes }
    else record b' { personal = put k to (personal_at k to b + amount) b.personal }

unfoldable pub deposit : RuneId → Text → ℕ → Text → Bool → Method Unit
deposit rune outpoint amount to pool = do
  raise_if (amount == 0) not_positive
  raise_if (is_blank to) no_recipient
  raise_if (← gets (λ b. member outpoint b.credited)) already_credited
  modify (credit (rune_key rune) outpoint amount to pool)
  assert_solvent (rune_key rune)

-- `amount == null ? had : (amount > had ? had : amount)`
unfoldable pub rehome_take : ℕ → Option ℕ → ℕ
rehome_take had none = had
rehome_take had (some n) = if ltb had n then had else n

unfoldable pub rehomed : Text → Text → ℕ → RuneBook → RuneBook
rehomed k a left b =
    let b' = set_personal k a left b in record b' { rehomed_runes = add k b.rehomed_runes }

unfoldable pub rehome : RuneId → Text → Option ℕ → Method ℕ
rehome rune address amount = do
  let k = rune_key rune
  modify (reach_personal k)
  had ← gets (personal_at k address)
  raise_if (had == 0) nothing_to_rehome
  let take = rehome_take had amount
  raise_if (take == 0) not_positive
  modify (rehomed k address (had - take))
  assert_solvent k
  pure take

-- The two writes of a transfer, in the source's order: the second read sees the first write.
unfoldable pub move : Text → Text → Text → ℕ → RuneBook → RuneBook
move k from to amount b =
    let b' = record b { balances = put k from (balance_at k from b - amount) b.balances } in
    record b' { balances = put k to (balance_at k to b' + amount) b'.balances }

unfoldable pub send : RuneId → Text → Text → ℕ → Method Unit
send rune from to amount = do
  raise_if (amount == 0) not_positive
  raise_if (text_eq from to) same_party
  let k = rune_key rune
  modify (reach_balances k)
  have ← gets (balance_at k from)
  raise_if (ltb have amount) insufficient
  modify (move k from to amount)
  assert_solvent k
