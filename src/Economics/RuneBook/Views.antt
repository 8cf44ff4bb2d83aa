-- ===== src/Economics/RuneBook/Views.antt =====
-- What the rune book answers to its readers (rune-book.ts).
use kray_node.Base.{
  ℕ, ◌+◌, ◌-◌, Bool, true, ◌&&◌, Option, none, some, List, [], ◌∷◌, ltb, if◌then◌else◌,
}
use kray_node.Base.Text.{Text}
use kray_node.Base.Map.{text_key, has}
use kray_node.Protocol.Runestone.Artifact.{RuneId}
use kray_node.Economics.RuneKey.{rune_key}
use kray_node.Economics.RuneBook.NestedMap.{at}
use kray_node.Economics.RuneBook.State.{
  PendingExit, RuneBook, balance_at, personal_at, reserve_at, solvent_for,
}

unfoldable pub balance_of : RuneId → Text → RuneBook → ℕ
balance_of rune a b = balance_at (rune_key rune) a b

unfoldable pub locked_of : RuneId → Text → RuneBook → Option PendingExit
locked_of rune a b = at (rune_key rune) a b.locks

unfoldable pub personal_of : RuneId → Text → RuneBook → ℕ
personal_of rune a b = personal_at (rune_key rune) a b

abbrev pub exit_amount : Option PendingExit → ℕ
exit_amount none = 0
exit_amount (some p) = p.amount

-- What the address may hand to a third party: `free` clamped at 0, and at most the balance.
unfoldable pub transferable_of : RuneId → Text → RuneBook → ℕ
unfolding balance_of locked_of personal_of
transferable_of rune a b =
    let bal = balance_of rune a b in
    let held = bal + exit_amount (locked_of rune a b) in
    let personal = personal_of rune a b in
    let t = if ltb held personal then 0 else held - personal in if ltb t bal then t else bal

unfoldable pub reserve_of : RuneId → RuneBook → ℕ
reserve_of rune b = reserve_at (rune_key rune) b

unfoldable pub knows : RuneId → RuneBook → Bool
knows rune b = has (rune_key rune) b.reserves

-- `solvent()`: every rune with a reserve.
unfoldable pub all_solvent : List (Text × ℕ) → RuneBook → Bool
unfolding solvent_for
all_solvent [] b = true
all_solvent ((k, _) ∷ m) b = solvent_for k b && all_solvent m b

unfoldable pub solvent : RuneBook → Bool
unfolding all_solvent
solvent b = all_solvent b.reserves b
