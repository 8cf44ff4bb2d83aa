-- ===== src/Protocol/CutBook.antt =====
-- The holders of a star's Luz, `class CutBook` (protocol/cut-book.ts). A fungible book counts units for
-- each holder; a serial one names the owner of each unit from 1 to the supply. A star is its decimal
-- text. Amounts are natural numbers, and 0 is what the code refuses as not positive.
use kray_node.Base.{
  ℕ, zero, suc, ◌+◌, ◌-◌, Bool, true, false, not, ◌&&◌, ◌||◌, Option, none, some, List, [], ◌∷◌,
  ltb, ◌==◌, if◌then◌else◌, length,
}
use kray_node.Base.Text.{Text, text_eq, is_blank}
use kray_node.Base.Map.{text_key, nat_key, Map, get, has, get_or, set, delete, sum_values}
use kray_node.Base.Result.{
  Result, ok, err, Action, ◌>>=◌, ◌>>◌, raise_if, gets, modify, or_raise, lift,
}
pub mod Views
pub mod Rows
pub mod Valid
pub mod Run
pub mod Circulating
pub mod Holdings
pub mod Refinement
mod Tests

pub data Refusal : Type 0 where
  already_cut no_supply too_many_units no_credits no_owner no_amount not_whole : Refusal
  is_serial no_cut zero_amount same_party insufficient not_serial no_unit not_yours : Refusal

abbrev pub max_serial_cut_supply : ℕ
max_serial_cut_supply = 21000

pub record Credit : Type 0 where
  pub to : Text
  pub amount : ℕ

pub record CutBook : Type 0 where
  pub bal : Map Text (Map Text ℕ)
  pub supply : Map Text ℕ
  pub serial_owners : Map Text (Map ℕ Text)

abbrev pub empty_cut : CutBook
empty_cut = record { bal = []; supply = []; serial_owners = [] }

abbrev pub Method : Type 0
Method = Action CutBook Refusal (Unit {0})

-- The units that `addr` owns in an edition, counted.
abbrev pub owned_by : Text → Text → ℕ
owned_by addr owner = if text_eq owner addr then 1 else 0

abbrev pub of_row : Text → Option (Map ℕ Text) → Map Text ℕ → ℕ
of_row addr none row = get_or 0 addr row
of_row addr (some units) row = sum_values (owned_by addr) units

-- `of(star, addr)`, in either kind of book.
unfoldable pub of : Text → Text → CutBook → ℕ
of k addr b = of_row addr (get k b.serial_owners) (get_or [] k b.bal)

-- The loop of `genesisAlloc` over the credits: the row, and their sum.
unfoldable pub gather : List Credit → Map Text ℕ → ℕ → Result Refusal (Map Text ℕ × ℕ)
gather [] row sum = ok (row, sum)
gather (c ∷ cs) row sum =
    let rest = gather cs (set c.to (get_or 0 c.to row + c.amount) row) (sum + c.amount) in
    if is_blank c.to then err no_owner else if c.amount == 0 then err no_amount else rest

unfoldable pub endow : Text → ℕ → Map Text ℕ → CutBook → CutBook
endow k supply row b = record b { supply = set k supply b.supply; bal = set k row b.bal }

unfoldable pub genesis_alloc : Text → ℕ → List Credit → Method
genesis_alloc k supply credits = do
  raise_if (← gets (λ b. has k b.supply)) already_cut
  raise_if (supply == 0) no_supply
  raise_if (length credits == 0) no_credits
  spent ← lift (gather credits [] 0)
  raise_if (not (spent.1 == supply)) not_whole
  modify (endow k supply spent.0)

unfoldable pub genesis : Text → Text → ℕ → Method
genesis k owner supply = genesis_alloc k supply (record { to = owner; amount = supply } ∷ [])

-- `for (let i = 0n; i < c.amount; i++) { units.set(next, to); next++ }`
unfoldable pub number_units : ℕ → ℕ → Text → Map ℕ Text → Map ℕ Text
number_units zero next to units = units
number_units (suc n) next to units = number_units n (next + 1) to (set next to units)

-- The loop of `genesisSerial` over the credits: the owners and the last number given. The sum of the
-- amounts is that number, since each unit moves both by one.
unfoldable pub assign : List Credit → ℕ → Map ℕ Text → Result Refusal (Map ℕ Text × ℕ)
assign [] last units = ok (units, last)
assign (c ∷ cs) last units =
    let rest = assign cs (last + c.amount) (number_units c.amount (last + 1) c.to units) in
    if is_blank c.to then err no_owner else if c.amount == 0 then err no_amount else rest

unfoldable pub publish : Text → ℕ → Map ℕ Text → CutBook → CutBook
publish k supply units b = record b {
  supply = set k supply b.supply;
  serial_owners = set k units b.serial_owners;
}

unfoldable pub genesis_serial : Text → ℕ → List Credit → Method
genesis_serial k supply credits = do
  raise_if (← gets (λ b. has k b.supply)) already_cut
  raise_if (supply == 0) no_supply
  raise_if (ltb max_serial_cut_supply supply) too_many_units
  raise_if (length credits == 0) no_credits
  spent ← lift (assign credits 0 [])
  raise_if (not (spent.1 == supply)) not_whole
  modify (publish k supply spent.0)

-- The writes of a send on the row of the star: the read of the recipient sees the write of the sender.
unfoldable pub pay_row : Text → Text → ℕ → Map Text ℕ → Map Text ℕ
pay_row from to n row =
    let left = get_or 0 from row - n in
    let row' = if left == 0 then delete from row else set from left row in
    set to (get_or 0 to row' + n) row'

unfoldable pub pay : Text → Text → Text → ℕ → CutBook → CutBook
pay k from to n b = record b { bal = set k (pay_row from to n (get_or [] k b.bal)) b.bal }

unfoldable pub send : Text → Text → Text → ℕ → Method
send k from to amount = do
  raise_if (← gets (λ b. has k b.serial_owners)) is_serial
  raise_if (← gets (λ b. not (has k b.supply))) no_cut
  raise_if (amount == 0) zero_amount
  raise_if (text_eq from to) same_party
  have ← gets (of k from)
  raise_if (ltb have amount) insufficient
  modify (pay k from to amount)

unfoldable pub hand : Text → ℕ → Text → Map ℕ Text → CutBook → CutBook
hand k unit to units b = record b { serial_owners = set k (set unit to units) b.serial_owners }

abbrev pub is_owner : Text → Option Text → Bool
is_owner from none = false
is_owner from (some owner) = text_eq owner from

unfoldable pub send_unit : Text → Text → Text → ℕ → Method
send_unit k from to unit = do
  units ← or_raise (← gets (λ b. get k b.serial_owners)) not_serial
  raise_if (text_eq from to) same_party
  cap ← gets (λ b. get_or 0 k b.supply)
  raise_if (unit == 0 || ltb cap unit) no_unit
  raise_if (not (is_owner from (get unit units))) not_yours
  modify (hand k unit to units)

-- A call that writes; the source has no others.
pub data Act : Type 0 where
  alloc_act : Text → ℕ → List Credit → Act
  serial_act : Text → ℕ → List Credit → Act
  send_act : Text → Text → Text → ℕ → Act
  unit_act : Text → Text → Text → ℕ → Act

unfoldable pub apply : Act → Method
apply (alloc_act k supply credits) = genesis_alloc k supply credits
apply (serial_act k supply credits) = genesis_serial k supply credits
apply (send_act k from to n) = send k from to n
apply (unit_act k from to unit) = send_unit k from to unit

unfoldable pub replay : List Act → CutBook → CutBook
replay [] b = b
replay (act ∷ acts) b = replay acts (apply act b).1
