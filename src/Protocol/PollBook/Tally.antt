-- ===== src/Protocol/PollBook/Tally.antt =====
-- One ballot for each address, and what the tallies say (protocol/poll-book.ts).
use kray_node.Base.{
  ℕ, zero, suc, ◌+◌, ◌<◌, ◌≡◌, ◌≢◌, refl, true, Option, none, some, List, [], ◌∷◌, ◌==◌,
  if◌then◌else◌, length, map, get_elem?, arith, Option-cases, inl, inr,
}
use kray_node.Base.Text.{Text, text_eq_iff, text_eq_refl}
use kray_node.Base.Map.{text_key, Map, get, set, get-set, sum_values}
use kray_node.Base.Result.{ok}
use kray_node.Protocol.PollBook.{
  Vote, PollRow, PollView, PollBook, voted, open_poll, enter, cast, add_at, tally, no_tally,
  view_row, view, Act, open_act, cast_act, apply, replay,
}

abbrev pub or_zero : Option ℕ → ℕ
or_zero none = 0
or_zero (some n) = n

-- What a vote weighs for the face `f`.
abbrev pub weight_for : ℕ → Vote → ℕ
weight_for f v = if v.face == f then v.weight else 0

abbrev IsThere : ℕ → List ℕ → Type 0
IsThere f ts = f < length ts

length-add_at : (i n : ℕ) (ts : List ℕ) → length (add_at i n ts) ≡ length ts
unfolding add_at
length-add_at i n [] = refl
length-add_at zero n (t ∷ ts) = refl
length-add_at (suc i) n (t ∷ ts) = ground (arith, length-add_at i n ts)

get_elem?-add_at :
    (f i n : ℕ) (ts : List ℕ)
    → f < length ts
    → or_zero (get_elem? (add_at i n ts) f) ≡ or_zero (get_elem? ts f) + (if i == f then n else 0)
unfolding add_at
get_elem?-add_at f i n [] lt = absurd (omega (arith, lt))
get_elem?-add_at zero zero n (t ∷ ts) lt = ground arith
get_elem?-add_at zero (suc i) n (t ∷ ts) lt = ground arith
get_elem?-add_at (suc f) zero n (t ∷ ts) lt = ground arith
get_elem?-add_at (suc f) (suc i) n (t ∷ ts) lt =
    ground (arith, get_elem?-add_at f i n ts (omega (arith, lt)))

get_elem?-tally :
    (f : ℕ) (votes : Map Text Vote) (ts : List ℕ)
    → f < length ts
    → or_zero (get_elem? (tally votes ts) f)
      ≡ or_zero (get_elem? ts f) + sum_values (weight_for f) votes
unfolding tally sum_values
get_elem?-tally f [] ts lt = omega arith
get_elem?-tally f ((addr, v) ∷ votes) ts lt = omega (
  arith,
  get_elem?-tally f votes (add_at v.face v.weight ts)
      (omega (arith, lt, length-add_at v.face v.weight ts)),
  get_elem?-add_at f v.face v.weight ts lt,
)

blank_sheet :
    (choices : List Text) (f : ℕ)
    → (length (map no_tally choices) ≡ length choices)
      × (or_zero (get_elem? (map no_tally choices) f) ≡ 0)
blank_sheet [] f = (refl, refl)
blank_sheet (c ∷ cs) zero = ground (arith, blank_sheet cs zero)
blank_sheet (c ∷ cs) (suc f) = ground (arith, blank_sheet cs f)

-- In the view of a poll the tally of each of its faces is the weight of the ballots for that face.
pub view_tally :
    (star : Text) (b : PollBook) (row : PollRow) (v : PollView) (f : ℕ)
    → get star b ≡ some row
    → view star b ≡ some v
    → f < length row.choices
    → or_zero (get_elem? v.tallies f) ≡ sum_values (weight_for f) row.votes
unfolding view view_row
view_tally star b row v f e seen lt =
    let (same, zeros) = blank_sheet row.choices f in
    let whole = get_elem?-tally f row.votes (map no_tally row.choices) (omega (arith, lt, same)) in
    ground (arith, e, seen, zeros, whole)

-- What a call leaves of a ballot.
apply_keeps_ballot :
    (act : Act) (star addr : Text) (b : PollBook)
    → voted star addr b ≡ true
    → voted star addr (apply act b).1 ≡ true
unfolding apply open_poll cast enter voted
apply_keeps_ballot (open_act s title choices) star addr b h = ground (
  arith,
  h,
  text_eq_iff s star,
  get-set star s (record { title = title; choices = choices; votes = [] }) b,
)
apply_keeps_ballot (cast_act s a f w) star addr b h = elim (Option-cases (get s b)) [
  | inl e ↦ ground (arith, e, h)
  | inr (row, e) ↦
      let vote : Vote = record { face = f; weight = w } in
      ground (
        arith,
        e,
        h,
        text_eq_iff s star,
        text_eq_iff a addr,
        get-set star s (record row { votes = set a vote row.votes }) b,
        get-set addr a vote row.votes,
      )
]

replay_keeps_ballot :
    (acts : List Act) (star addr : Text) (b : PollBook)
    → voted star addr b ≡ true
    → voted star addr (replay acts b) ≡ true
unfolding replay
replay_keeps_ballot [] star addr b h = h
replay_keeps_ballot (act ∷ acts) star addr b h =
    replay_keeps_ballot acts star addr (apply act b).1 (apply_keeps_ballot act star addr b h)

cast-voted :
    (star addr : Text) (f w : ℕ) (b : PollBook)
    → (cast star addr f w b).0 ≡ ok tt
    → voted star addr (cast star addr f w b).1 ≡ true
unfolding cast enter voted
cast-voted star addr f w b done = elim (Option-cases (get star b)) [
  | inl e ↦ ground (arith, e, done)
  | inr (row, e) ↦
      let vote : Vote = record { face = f; weight = w } in
      ground (
        arith,
        e,
        done,
        text_eq_refl star,
        text_eq_refl addr,
        get-set star star (record row { votes = set addr vote row.votes }) b,
        get-set addr addr vote row.votes,
      )
]

voted_refused :
    (star addr : Text) (f w : ℕ) (b : PollBook)
    → voted star addr b ≡ true
    → (cast star addr f w b).0 ≢ ok tt
unfolding cast voted
voted_refused star addr f w b h = λ done. elim (Option-cases (get star b)) [
  | inl e ↦ ground (arith, e, h)
  | inr (row, e) ↦ ground (arith, e, h, done)
]

-- After an address has cast a ballot on a poll, no later ballot of that address on that poll is taken,
-- for no face and weight, and whatever calls lie between.
pub cast_once :
    (star addr : Text) (f g w x : ℕ) (acts : List Act) (b : PollBook)
    → (cast star addr f w b).0 ≡ ok tt
    → (cast star addr g x (replay acts (cast star addr f w b).1)).0 ≢ ok tt
cast_once star addr f g w x acts b done =
    let b' = (cast star addr f w b).1 in
    voted_refused star addr g x (replay acts b')
      (replay_keeps_ballot acts star addr b' (cast-voted star addr f w b done))
