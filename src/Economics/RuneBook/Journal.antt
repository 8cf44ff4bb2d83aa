-- ===== src/Economics/RuneBook/Journal.antt =====
-- The acts that the reducer replays on a rune book, and what a replay adds up to: a specification of
-- the book as a whole, over any sequence of acts, those that are refused included.
use kray_node.Base.{ℕ, ◌+◌, Bool, Option, List, [], ◌∷◌, if◌then◌else◌}
use kray_node.Base.Text.{Text, text_eq}
use kray_node.Base.Result.{Result, ok, err, ◌>>◌, pure}
use kray_node.Protocol.Runestone.Artifact.{RuneId}
use kray_node.Economics.RuneKey.{rune_key}
use kray_node.Economics.RuneBook.State.{RuneBook, Refusal, Method}
use kray_node.Economics.RuneBook.Moves.{deposit, rehome, send}
use kray_node.Economics.RuneBook.Exits.{request_exit, arm_exit, cancel_exit, settle_exit}

pub data Act : Type 0 where
  deposit_act : RuneId → Text → ℕ → Text → Bool → Act
  rehome_act : RuneId → Text → Option ℕ → Act
  send_act : RuneId → Text → Text → ℕ → Act
  request_act : RuneId → Text → ℕ → Text → ℕ → Act
  arm_act : RuneId → Text → Option Text → Act
  cancel_act : RuneId → Text → Act
  settle_act : RuneId → Text → ℕ → Text → Text → Act

unfoldable pub apply : Act → Method (Unit {0})
apply (deposit_act rune o n to pool) = deposit rune o n to pool
apply (rehome_act rune a n) = rehome rune a n >> pure tt
apply (send_act rune from to n) = send rune from to n
apply (request_act rune from n l1 when) = request_exit rune from n l1 when
apply (arm_act rune from vault) = arm_exit rune from vault
apply (cancel_act rune from) = cancel_exit rune from
apply (settle_act rune from n l1 key) = settle_exit rune from n l1 key

-- A refused act leaves the book that its `throw` leaves.
unfoldable pub replay : List Act → RuneBook → RuneBook
replay [] b = b
replay (act ∷ acts) b = replay acts (apply act b).1

abbrev pub when_ok : Result Refusal (Unit {0}) → ℕ → ℕ
when_ok (ok _) n = n
when_ok (err _) n = 0

-- What an act that succeeds brings into the reserve of `k`, and what it takes out.
unfoldable pub minted : Text → Act → RuneBook → ℕ
minted k (deposit_act rune o n to pool) b =
    if text_eq (rune_key rune) k then when_ok (deposit rune o n to pool b).0 n else 0
minted k (rehome_act rune a n) b = 0
minted k (send_act rune from to n) b = 0
minted k (request_act rune from n l1 when) b = 0
minted k (arm_act rune from vault) b = 0
minted k (cancel_act rune from) b = 0
minted k (settle_act rune from n l1 key) b = 0

unfoldable pub burned : Text → Act → RuneBook → ℕ
burned k (settle_act rune from n l1 key) b =
    if text_eq (rune_key rune) k then when_ok (settle_exit rune from n l1 key b).0 n else 0
burned k (deposit_act rune o n to pool) b = 0
burned k (rehome_act rune a n) b = 0
burned k (send_act rune from to n) b = 0
burned k (request_act rune from n l1 when) b = 0
burned k (arm_act rune from vault) b = 0
burned k (cancel_act rune from) b = 0

unfoldable pub all_minted : Text → List Act → RuneBook → ℕ
all_minted k [] b = 0
all_minted k (act ∷ acts) b = minted k act b + all_minted k acts (apply act b).1

unfoldable pub all_burned : Text → List Act → RuneBook → ℕ
all_burned k [] b = 0
all_burned k (act ∷ acts) b = burned k act b + all_burned k acts (apply act b).1
