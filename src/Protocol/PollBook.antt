-- ===== src/Protocol/PollBook.antt =====
-- The ballots of sealed polls, `class PollBook` (protocol/poll-book.ts). Faces and weights are natural
-- numbers: what is not one is refused like a face past the last and a weight of 0.
use kray_node.Base.{
  ℕ, zero, suc, ◌+◌, Bool, true, false, Option, none, some, List, [], ◌∷◌, ltb, leb, ◌==◌,
  if◌then◌else◌, length, map,
}
use kray_node.Base.Text.{Text, text_lt, is_blank}
use kray_node.Base.Map.{text_key, Map, get, has, set}
use kray_node.Base.Sort.{sort}
use kray_node.Base.Result.{Action, ◌>>=◌, ◌>>◌, raise_if, gets, modify, or_raise}
pub mod Tally
mod Tests

pub data Refusal : Type 0 where
  poll_open too_few_choices no_poll no_signer already_voted no_face no_glow : Refusal

pub record Vote : Type 0 where
  pub face : ℕ
  pub weight : ℕ

pub record PollRow : Type 0 where
  pub title : Text
  pub choices : List Text
  pub votes : Map Text Vote

pub record PollBallot : Type 0 where
  pub address : Text
  pub face : ℕ
  pub weight : ℕ

pub record PollView : Type 0 where
  pub star : Text
  pub title : Text
  pub choices : List Text
  pub ballots : ℕ
  pub tallies : List ℕ
  pub voters : List PollBallot

abbrev pub PollBook : Type 0
PollBook = Map Text PollRow

abbrev pub Method : Type 0
Method = Action PollBook Refusal (Unit {0})

abbrev pub voted_in : Text → Option PollRow → Bool
voted_in addr none = false
voted_in addr (some row) = has addr row.votes

unfoldable pub voted : Text → Text → PollBook → Bool
voted star addr b = voted_in addr (get star b)

unfoldable pub open_poll : Text → Text → List Text → Method
open_poll star title choices = do
  raise_if (← gets (has star)) poll_open
  raise_if (ltb (length choices) 2) too_few_choices
  modify (set star (record { title = title; choices = choices; votes = [] }))

-- `row.votes.set(addr, { face, weight })` on the row that the book holds.
unfoldable pub enter : Text → Text → Vote → PollRow → PollBook → PollBook
enter star addr v row b = set star (record row { votes = set addr v row.votes }) b

unfoldable pub cast : Text → Text → ℕ → ℕ → Method
cast star addr face weight = do
  row ← or_raise (← gets (get star)) no_poll
  raise_if (is_blank addr) no_signer
  raise_if (has addr row.votes) already_voted
  raise_if (leb (length row.choices) face) no_face
  raise_if (weight == 0) no_glow
  modify (enter star addr (record { face = face; weight = weight }) row)

-- `tallies[i] += n`, for a place that is there, as `cast` has seen to.
unfoldable pub add_at : ℕ → ℕ → List ℕ → List ℕ
add_at i n [] = []
add_at zero n (t ∷ ts) = (t + n) ∷ ts
add_at (suc i) n (t ∷ ts) = t ∷ add_at i n ts

unfoldable pub tally : Map Text Vote → List ℕ → List ℕ
tally [] ts = ts
tally ((addr, v) ∷ votes) ts = tally votes (add_at v.face v.weight ts)

abbrev pub ballot_of : Text × Vote → PollBallot
ballot_of (addr, v) = record { address = addr; face = v.face; weight = v.weight }

-- The heavier ballot first, then the lesser address.
abbrev pub ballot_before : PollBallot → PollBallot → Bool
ballot_before x y =
    if x.weight == y.weight then text_lt x.address y.address else ltb y.weight x.weight

abbrev pub no_tally : Text → ℕ
no_tally c = 0

unfoldable pub view_row : Text → PollRow → PollView
view_row star row = record {
  star = star;
  title = row.title;
  choices = row.choices;
  ballots = length row.votes;
  tallies = tally row.votes (map no_tally row.choices);
  voters = sort ballot_before (map ballot_of row.votes);
}

unfoldable pub view : Text → PollBook → Option PollView
view star b = elim (get star b) [ none ↦ none | some row ↦ some (view_row star row) ]

-- A call that writes; the source has no others.
pub data Act : Type 0 where
  open_act : Text → Text → List Text → Act
  cast_act : Text → Text → ℕ → ℕ → Act

unfoldable pub apply : Act → Method
apply (open_act star title choices) = open_poll star title choices
apply (cast_act star addr face weight) = cast star addr face weight

unfoldable pub replay : List Act → PollBook → PollBook
replay [] b = b
replay (act ∷ acts) b = replay acts (apply act b).1
