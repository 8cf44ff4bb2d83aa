-- ===== src/Protocol/CutBook/Holdings.antt =====
-- The book of Luz read as a table of holdings, and what each write does to it (protocol/cut-book.ts).
use kray_node.Base.{
  ℕ, zero, suc, ◌+◌, ◌-◌, ◌<◌, ◌≡◌, refl, false, none, some, List, [], ◌∷◌, if◌then◌else◌, arith,
}
use kray_node.Base.Text.{Text, text_eq, text_eq_iff}
use kray_node.Base.Map.{
  text_key, nat_key, Map, get, get_or, set, sum_values, weight, Distinct, get-set, get-delete_ne,
  get-delete_self, sum_values-set,
}
use kray_node.Base.Result.{Result, ok, err}
use kray_node.Protocol.CutBook.{
  Refusal, Credit, CutBook, owned_by, of, gather, endow, number_units, assign, publish, pay_row,
  pay, hand, Act, alloc_act, serial_act, send_act, unit_act,
}
use kray_node.Protocol.CutBook.Rows.{drawn}

-- star → address → units
abbrev pub Holdings : Type 0
Holdings = Text → Text → ℕ

abbrev pub holdings : CutBook → Holdings
holdings b k a = of k a b

abbrev pub credited : Text → List Credit → ℕ
credited a [] = 0
credited a (c ∷ cs) = (if text_eq c.to a then c.amount else 0) + credited a cs

-- The change of one star's column.
abbrev pub changed : Text → (Text → ℕ) → Holdings → Holdings
changed k f h j a = if text_eq k j then f a else h j a

abbrev pub moved : Text → Text → ℕ → (Text → ℕ) → Text → ℕ
moved from to n f a = if text_eq from a then f a - n else if text_eq to a then f a + n else f a

-- What the abstract ledger does on a call that is accepted.
abbrev pub spec : Act → Holdings → Holdings
spec (alloc_act k supply cs) h = changed k (λ a. credited a cs) h
spec (serial_act k supply cs) h = changed k (λ a. credited a cs) h
spec (send_act k from to n) h = changed k (moved from to n (h k)) h
spec (unit_act k from to unit) h = changed k (moved from to 1 (h k)) h

abbrev pub spec_step : Result Refusal (Unit {0}) → Act → Holdings → Holdings
spec_step (ok _) act h = spec act h
spec_step (err _) act h = h

pub gather_credited :
    (a : Text) (cs : List Credit) (row : Map Text ℕ) (sum : ℕ) (spent : Map Text ℕ × ℕ)
    → gather cs row sum ≡ ok spent
    → get_or 0 a spent.0 ≡ get_or 0 a row + credited a cs
unfolding gather
gather_credited a [] row sum spent e = ground (arith, e)
gather_credited a (c ∷ cs) row sum spent e =
    let n = get_or 0 c.to row + c.amount in
    ground (
      arith,
      e,
      text_eq_iff c.to a,
      get-set a c.to n row,
      gather_credited a cs (set c.to n row) (sum + c.amount) spent,
    )

abbrev pub IsFresh : ℕ → Map ℕ Text → Type 0
IsFresh last units = (u : ℕ) → last < u → get u units ≡ none

set-IsFresh :
    (last : ℕ) (to : Text) (units : Map ℕ Text)
    → IsFresh last units
    → IsFresh (last + 1) (set (last + 1) to units)
set-IsFresh last to units h u gt = ground (arith, get-set u (last + 1) to units, h u (omega arith))

number_units_owned :
    (a to : Text) (n last : ℕ) (units : Map ℕ Text)
    → IsFresh last units
    → (sum_values (owned_by a) (number_units n (last + 1) to units)
        ≡ sum_values (owned_by a) units + (if text_eq to a then n else 0))
      × IsFresh (last + n) (number_units n (last + 1) to units)
unfolding number_units
number_units_owned a to zero last units h = (ground arith, λ u gt. h u (omega arith))
number_units_owned a to (suc n) last units h =
    let units' = set (last + 1) to units in
    let (sum, fresh) = number_units_owned a to n (last + 1) units' (set-IsFresh last to units h) in
    let new : weight (owned_by a) (last + 1) units ≡ 0 =
      ground (arith, h (last + 1) (omega arith)) in
    (
      ground (arith, sum, new, sum_values-set (owned_by a) (last + 1) to units),
      λ u gt. fresh u (omega arith),
    )

pub assign_credited :
    (a : Text) (cs : List Credit) (last : ℕ) (units : Map ℕ Text) (spent : Map ℕ Text × ℕ)
    → assign cs last units ≡ ok spent
    → IsFresh last units
    → sum_values (owned_by a) spent.0 ≡ sum_values (owned_by a) units + credited a cs
unfolding assign
assign_credited a [] last units spent e h = ground (arith, e)
assign_credited a (c ∷ cs) last units spent e h =
    let units' = number_units c.amount (last + 1) c.to units in
    let (sum, fresh) = number_units_owned a c.to c.amount last units h in
    ground (arith, e, sum, assign_credited a cs (last + c.amount) units' spent, fresh)

get_or-drawn :
    (from a : Text) (left : ℕ) (row : Map Text ℕ)
    → Distinct row
    → get_or 0 a (drawn from left row) ≡ (if text_eq from a then left else get_or 0 a row)
get_or-drawn from a left row d = ground (
  arith,
  text_eq_iff from a,
  get-set a from left row,
  get-delete_ne a from row,
  get-delete_self from row d,
)

get_or-pay_row :
    (from to a : Text) (n : ℕ) (row : Map Text ℕ)
    → Distinct row
    → text_eq from to ≡ false
    → get_or 0 a (pay_row from to n row) ≡ moved from to n (λ c. get_or 0 c row) a
unfolding pay_row
get_or-pay_row from to a n row d ne =
    let left = get_or 0 from row - n in
    let row' = drawn from left row in
    ground (
      arith,
      ne,
      text_eq_iff from a,
      text_eq_iff to a,
      text_eq_iff from to,
      get_or-drawn from a left row d,
      get_or-drawn from to left row d,
      get-set a to (get_or 0 to row' + n) row',
    )

pub of-endow :
    (k j a : Text) (cap : ℕ) (row : Map Text ℕ) (b : CutBook)
    → get k b.serial_owners ≡ none
    → of j a (endow k cap row b) ≡ (if text_eq k j then get_or 0 a row else of j a b)
unfolding of endow
of-endow k j a cap row b e = ground (arith, e, text_eq_iff k j, get-set j k row b.bal)

pub of-publish :
    (k j a : Text) (cap : ℕ) (units : Map ℕ Text) (b : CutBook)
    → of j a (publish k cap units b)
      ≡ (if text_eq k j then sum_values (owned_by a) units else of j a b)
unfolding of publish
of-publish k j a cap units b = ground (arith, text_eq_iff k j, get-set j k units b.serial_owners)

pub of-pay :
    (k from to j a : Text) (n : ℕ) (b : CutBook)
    → get k b.serial_owners ≡ none
    → Distinct (get_or [] k b.bal)
    → text_eq from to ≡ false
    → of j a (pay k from to n b) ≡ changed k (moved from to n (holdings b k)) (holdings b) j a
unfolding of pay
of-pay k from to j a n b e d ne =
    let row = get_or [] k b.bal in
    ground (
      arith,
      e,
      text_eq_iff k j,
      get-set j k (pay_row from to n row) b.bal,
      get_or-pay_row from to a n row d ne,
    )

pub of-hand :
    (k from to j a : Text) (unit : ℕ) (units : Map ℕ Text) (b : CutBook)
    → get k b.serial_owners ≡ some units
    → get unit units ≡ some from
    → text_eq from to ≡ false
    → of j a (hand k unit to units b) ≡ changed k (moved from to 1 (holdings b k)) (holdings b) j a
unfolding of hand
of-hand k from to j a unit units b e f ne =
    let was : weight (owned_by a) unit units ≡ owned_by a from = ground (arith, f) in
    ground (
      arith,
      e,
      was,
      ne,
      text_eq_iff k j,
      text_eq_iff from a,
      text_eq_iff to a,
      text_eq_iff from to,
      sum_values-set (owned_by a) unit to units,
      get-set j k (set unit to units) b.serial_owners,
    )

pub no_row : (a : Text) → get_or {V = ℕ} 0 a [] ≡ 0
unfolding get
no_row a = refl

pub no_units : (a : Text) → sum_values {K = ℕ} (owned_by a) [] ≡ 0
unfolding sum_values
no_units a = refl
