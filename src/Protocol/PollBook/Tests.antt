-- ===== src/Protocol/PollBook/Tests.antt =====
-- The theorems on polls at a concrete poll.
use kray_node.Base.{◌≡◌, ◌≢◌, refl, some, List, [], ◌∷◌}
use kray_node.Base.Text.{Text, js, text_eq, text_lt}
use kray_node.Base.Map.{text_key, get, set, sum_values}
use kray_node.Base.Sort.{sort, insert}
use kray_node.Base.Result.{ok}
use kray_node.Protocol.PollBook.{
  PollBook, PollRow, PollView, open_poll, enter, cast, voted, add_at, tally, view, view_row, Act,
  open_act, cast_act, apply, replay,
}
use kray_node.Protocol.PollBook.Tally.{cast_once}

abbrev star : Text
star = js "7"

abbrev opened : List Act
opened =
    open_act star (js "gold?") (js "yes" ∷ js "no" ∷ [])
    ∷ cast_act star (js "ann") 1 5
    ∷ cast_act star (js "bob") 1 2
    ∷ cast_act star (js "ann") 0 9
    ∷ []

polled : PollBook
unfolding replay apply open_poll enter cast voted add_at tally view view_row get set sum_values sort
    insert text_eq text_lt
polled = replay opened []

abbrev row : PollRow
row = record {
  title = js "gold?";
  choices = js "yes" ∷ js "no" ∷ [];
  votes =
      (js "ann", record { face = 1; weight = 5 })
      ∷ (js "bob", record { face = 1; weight = 2 })
      ∷ [];
}

abbrev seen : PollView
seen = record {
  star = star;
  title = js "gold?";
  choices = js "yes" ∷ js "no" ∷ [];
  ballots = 2;
  tallies = 0 ∷ 7 ∷ [];
  voters =
      record { address = js "ann"; face = 1; weight = 5 }
      ∷ record { address = js "bob"; face = 1; weight = 2 }
      ∷ [];
}

shown : view star (replay opened []) ≡ some seen
shown = unfold polled in refl

cast_once_example :
    (cast star (js "cid") 1 3 (
      replay (cast_act star (js "dan") 0 1 ∷ []) (cast star (js "cid") 0 4 (replay opened [])).1)).0
    ≢ ok tt
cast_once_example =
    cast_once star (js "cid") 0 1 4 3 (cast_act star (js "dan") 0 1 ∷ []) (replay opened []) taken
  where
    taken : (cast star (js "cid") 0 4 (replay opened [])).0 ≡ ok tt
    taken = unfold polled in refl
