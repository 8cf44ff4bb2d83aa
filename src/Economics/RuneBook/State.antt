-- ===== src/Economics/RuneBook/State.antt =====
-- The state of `class RuneBook` and its tripwire (rune-book.ts). Amounts are BigInts that every
-- operation tests for being positive; here they are natural numbers, and 0 is what is refused.
-- A method takes the book and returns its result or refusal with the book that it leaves.
use kray_node.Base.{ℕ, ◌+◌, Bool, not, Option, none, some, List, [], ltb, ◌==◌, if◌then◌else◌}
use kray_node.Base.Text.{Text}
use kray_node.Base.Map.{text_key, Map, get_or}
use kray_node.Base.Result.{Action, ◌>>=◌, raise_if, gets}
use kray_node.Economics.RuneBook.NestedMap.{Nested, touch, at, put, drop, total}

-- One constructor for each message that the book throws.
pub data Refusal : Type 0 where
  not_positive no_recipient already_credited : Refusal
  nothing_to_rehome same_party insufficient : Refusal
  no_destination exit_open no_exit already_armed armed_exit : Refusal
  amount_mismatch already_settled consumed_whole delivered_parts negative_reserve : Refusal
  insolvent : Refusal

pub record PendingExit : Type 0 where
  pub address : Text
  pub amount : ℕ
  pub l1_address : Text
  pub placed_at : ℕ
  pub armed : Bool
  pub bound_vault : Option Text

pub record RuneBook : Type 0 where
  pub balances : Nested ℕ
  pub locks : Nested PendingExit
  pub reserves : Map Text ℕ
  pub credited : List Text
  pub settled : List Text
  pub delivered_tx : List Text
  pub personal : Nested ℕ
  pub rehomed_runes : List Text

abbrev pub empty_book : RuneBook
empty_book = record {
  balances = [];
  locks = [];
  reserves = [];
  credited = [];
  settled = [];
  delivered_tx = [];
  personal = [];
  rehomed_runes = [];
}

abbrev pub Method : Type 0 → Type 0
Method A = Action RuneBook Refusal A

abbrev pub or_zero : Option ℕ → ℕ
or_zero none = 0
or_zero (some n) = n

-- `this.bal(k).get(a) ?? 0n` and its like, on a map whose empty entry is no matter.
abbrev pub balance_at : Text → Text → RuneBook → ℕ
balance_at k a b = or_zero (at k a b.balances)

abbrev pub personal_at : Text → Text → RuneBook → ℕ
personal_at k a b = or_zero (at k a b.personal)

abbrev pub reserve_at : Text → RuneBook → ℕ
reserve_at k b = get_or 0 k b.reserves

abbrev pub same_amount : ℕ → ℕ
same_amount n = n

abbrev pub credits : Text → RuneBook → ℕ
credits k b = total same_amount k b.balances

abbrev pub locked : Text → RuneBook → ℕ
locked k b = total (λ (p : PendingExit). p.amount) k b.locks

unfoldable pub solvent_for : Text → RuneBook → Bool
solvent_for k b = credits k b + locked k b == reserve_at k b

-- The tripwire after every move.
unfoldable pub assert_solvent : Text → Method Unit
unfolding solvent_for
assert_solvent k = do ok_now ← gets (solvent_for k); raise_if (not ok_now) insolvent

-- `const m = this.bal(k)` and its like: what reaching for a rune's map leaves behind.
abbrev pub reach_balances : Text → RuneBook → RuneBook
reach_balances k b = record b { balances = touch k b.balances }

abbrev pub reach_locks : Text → RuneBook → RuneBook
reach_locks k b = record b { locks = touch k b.locks }

abbrev pub reach_personal : Text → RuneBook → RuneBook
reach_personal k b = record b { personal = touch k b.personal }

abbrev pub set_personal : Text → Text → ℕ → RuneBook → RuneBook
set_personal k a left b = record b {
  personal = if ltb 0 left then put k a left b.personal else drop k a b.personal;
}
