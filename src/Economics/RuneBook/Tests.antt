-- ===== src/Economics/RuneBook/Tests.antt =====
-- Runs of the rune book, and its theorems at concrete books.
use kray_node.Base.{◌+◌, ◌≡◌, ◌≢◌, refl, true, false, none, some, List, [], ◌∷◌, arith, inr}
use kray_node.Base.Text.{Text, js, text_eq}
use kray_node.Base.Map.{text_key, get, set, delete, member, add, sum_values}
use kray_node.Base.Result.{Result, ok}
use kray_node.Base.Decimal.{decimal, decimal_value}
use kray_node.Protocol.Runestone.Artifact.{RuneId}
use kray_node.Economics.RuneKey.{rune_key, canonical_rune_key}
use kray_node.Economics.RuneBook.NestedMap.{touch, at, put, drop, total}
use kray_node.Economics.RuneBook.State.{
  RuneBook, PendingExit, Refusal, already_credited, empty_book, credits, locked, reserve_at,
  balance_at, personal_at, solvent_for, assert_solvent,
}
use kray_node.Economics.RuneBook.Moves.{deposit, credit, rehome, rehome_take, rehomed, send, move}
use kray_node.Economics.RuneBook.Exits.{
  request_exit, lock_up, arm_exit, arm, cancel_exit, settle_exit, mark_settled, burn, delivery,
}
use kray_node.Economics.RuneBook.Views.{transferable_of}
use kray_node.Economics.RuneBook.Journal.{
  Act, deposit_act, rehome_act, send_act, request_act, cancel_act, apply, replay, all_minted,
  all_burned,
}
use kray_node.Economics.RuneBook.Solvency.{IsSolvent}
use kray_node.Economics.RuneBook.Outcomes.{SameView}
use kray_node.Economics.RuneBook.Flows.{refused-SameView}
use kray_node.Economics.RuneBook.Conservation.{replay_conserves, replay-IsSolvent, empty-IsSolvent}
use kray_node.Economics.RuneBook.Once.{deposit_once, settle_once}
use kray_node.Economics.RuneBook.Tidy.{IsTidy, replay-IsTidy, empty-IsTidy}
use kray_node.Economics.RuneBook.Backing.{Backed}
use kray_node.Economics.RuneBook.Backing.Law.{replay-Backed}

abbrev dog : RuneId
dog = record { block = 840000; tx = 3 }

abbrev alice : Text
alice = js "alice"

abbrev bob : Text
bob = js "bob"

-- Alice deposits 70 and rehomes 50 of them, sends Bob 30 (and fails to send him 900), and Bob asks to
-- leave with 20.
abbrev opening : List Act
opening =
    deposit_act dog (js "t1:0") 70 alice false
    ∷ rehome_act dog alice (some 50)
    ∷ send_act dog alice bob 30
    ∷ send_act dog alice bob 900
    ∷ request_act dog bob 20 (js "bc1q") 7
    ∷ []

abbrev book : RuneBook
book = replay opening empty_book

book-IsSolvent : IsSolvent book
book-IsSolvent = replay-IsSolvent opening empty_book empty-IsSolvent

book-IsTidy : IsTidy book
book-IsTidy = replay-IsTidy opening empty_book empty-IsTidy

abbrev bobs_exit : PendingExit
bobs_exit = record {
  address = bob;
  amount = 20;
  l1_address = js "bc1q";
  placed_at = 7;
  armed = false;
  bound_vault = none;
}

-- The settlement of Bob's exit, with everything that it computes through.
settlement : Result Refusal (Unit {0}) × RuneBook
unfolding settle_exit mark_settled burn delivery cancel_exit arm_exit arm replay apply deposit
    credit rehome rehome_take rehomed send move request_exit lock_up assert_solvent solvent_for
    touch at put drop total sum_values get set delete member add text_eq rune_key decimal
    transferable_of
settlement = settle_exit dog bob 20 (js "t9") (js "t9:1") book

key_of_dog : rune_key dog ≡ js "840000:3"
unfolding settlement
key_of_dog = refl

canonical_key : canonical_rune_key (js "01:1") ≡ some (js "1:1")
unfolding canonical_rune_key decimal_value settlement
canonical_key = refl

book_numbers :
    (balance_at (rune_key dog) alice book ≡ 40)
    × (balance_at (rune_key dog) bob book ≡ 10)
    × (locked (rune_key dog) book ≡ 20)
    × (reserve_at (rune_key dog) book ≡ 70)
    × (personal_at (rune_key dog) alice book ≡ 20)
unfolding settlement
book_numbers = (refl, refl, refl, refl, refl)

settles : (settle_exit dog bob 20 (js "t9") (js "t9:1") book).0 ≡ ok tt
unfolding settlement
settles = refl

replay_conserves_example :
    credits (js "840000:3") book
      + locked (js "840000:3") book
      + all_burned (js "840000:3") opening empty_book
    ≡ all_minted (js "840000:3") opening empty_book
replay_conserves_example = replay_conserves (js "840000:3") opening

refused-SameView_example : SameView book (apply (deposit_act dog (js "t1:0") 5 bob true) book).1
unfolding settlement
refused-SameView_example =
    refused-SameView (deposit_act dog (js "t1:0") 5 bob true) book already_credited book-IsSolvent
      refl

deposit_once_example :
    (deposit dog
      (js "t1:0")
      9
      bob
      true
      (replay (cancel_act dog bob ∷ []) (deposit dog (js "t1:0") 70 alice false empty_book).1)).0
    ≢ ok tt
unfolding settlement
deposit_once_example =
    deposit_once dog dog (js "t1:0") alice bob 70 9 false true (cancel_act dog bob ∷ []) empty_book
      empty-IsSolvent refl

settle_once_example :
    (settle_exit dog alice 5 (js "t9") [] (
      replay
        (request_act dog alice 5 (js "bc1p") 9 ∷ [])
        (settle_exit dog bob 20 (js "t9") (js "t9:1") book).1)).0
    ≢ ok tt
unfolding delivery
settle_once_example =
    settle_once dog dog bob alice 20 5 (js "t9") (js "t9:1") []
      (request_act dog alice 5 (js "bc1p") 9 ∷ []) book book-IsSolvent (inr (inr refl)) settles

replay-Backed_example :
    Backed (rune_key dog) alice (
      replay
        (deposit_act dog (js "t1:0") 70 alice true ∷ send_act dog alice bob 30 ∷ [])
        empty_book)
unfolding settlement
replay-Backed_example =
    replay-Backed (deposit_act dog (js "t1:0") 70 alice true ∷ send_act dog alice bob 30 ∷ [])
      (rune_key dog) alice (tt, (omega arith, tt))
