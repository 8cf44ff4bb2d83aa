-- ===== src/Protocol/ClaimBook.antt =====
-- Harvests and mints, `class ClaimBook` (protocol/claim-book.ts): a root, the hands that may take under
-- it, and what they took. The hash is a parameter; the remembered commitment text is not modelled.
-- Amounts are natural numbers: `take` and the openings do not test the sign, the reducer does before it
-- calls.
use kray_node.Base.{
  ℕ, zero, suc, ◌+◌, ◌-◌, ◌*◌, ◌≡◌, Bool, true, false, not, ◌&&◌, ◌||◌, Option, none, some, List,
  [], ◌∷◌, ◌++◌, map, ltb, leb, ◌==◌, if◌then◌else◌, length,
}
use kray_node.Base.Text.{Text, js, text_eq}
use kray_node.Base.Decimal.{decimal}
use kray_node.Base.Map.{text_key, Map, get, set, delete, sum_values, member, add}
use kray_node.Base.Result.{
  Result, ok, err, Action, ◌>>=◌, ◌>>◌, pure, raise_if, gets, modify, or_raise,
}
use kray_node.Protocol.Merkle.{MerkleStep, build_merkle_root, merkle_proof, verify_merkle_proof}
use kray_node.Protocol.Chain.{zero_hash}
pub mod Outcome
pub mod Valid
pub mod Once
pub mod Owed
pub mod Harvest
pub mod Leaves
pub mod Proofs
pub mod Accepted
mod Tests

pub data Refusal : Type 0 where
  no_harvest already_taken no_pot not_one_pot over_total : Refusal

-- The gate is the star whose children may take, or nothing for a public mint.
pub record MintTerms : Type 0 where
  pub per_hand : ℕ
  pub hands : ℕ
  pub gate : Option ℕ

pub record Claim : Type 0 where
  pub giver : Text
  pub lane : Text
  pub asset : Text
  pub total : ℕ
  pub paid : ℕ
  pub expires : ℕ
  pub taken_chain : Text
  pub from_pool : Bool
  pub mint : Option MintTerms

pub record ClaimBook : Type 0 where
  pub live : Map Text Claim
  pub taken : Map Text (List Text)

-- `ClaimShare`: a hand and its amount.
abbrev pub Share : Type 0
Share = Text × ℕ

abbrev pub Method : Type 0
Method = Action ClaimBook Refusal (Unit {0})

abbrev pub empty_claims : ClaimBook
empty_claims = record { live = []; taken = [] }

-- `NO_HANDS`
abbrev pub no_hands : Text
no_hands = zero_hash

abbrev pub size_of : Option (List Text) → ℕ
size_of none = 0
size_of (some s) = length s

abbrev pub set_of : Option (List Text) → List Text
set_of none = []
set_of (some s) = s

-- `this.taken.get(root)?.size ?? 0`
unfoldable pub taken_count : Text → ClaimBook → ℕ
taken_count root b = size_of (get root b.taken)

unfoldable pub has_taken : Text → Text → ClaimBook → Bool
has_taken root to b = member to (set_of (get root b.taken))

unfoldable pub owed_of : Claim → ℕ
owed_of c = c.total - c.paid

abbrev pub owed_part : Option Claim → ℕ
owed_part none = 0
owed_part (some c) = owed_of c

unfoldable pub owed : Text → ClaimBook → ℕ
owed root b = owed_part (get root b.live)

abbrev pub same_flag : Bool → Bool → Bool
same_flag a b = if a then b else not b

-- `opts.poolBacked`, where it is given.
abbrev pub backed_as : Option Bool → Bool → Bool
backed_as none from_pool = true
backed_as (some wanted) from_pool = same_flag wanted from_pool

unfoldable pub owed_if : Text → Text → Option Bool → Claim → ℕ
owed_if lane asset pool_backed c =
    if text_eq c.lane lane && text_eq c.asset asset && backed_as pool_backed c.from_pool
    then owed_of c
    else 0

unfoldable pub owed_in : Text → Text → Option Bool → ClaimBook → ℕ
owed_in lane asset pool_backed b = sum_values (owed_if lane asset pool_backed) b.live

unfoldable pub harvest_of : Text → Text → Text → ℕ → ℕ → Bool → Claim
harvest_of giver lane asset total expires from_pool = record {
  giver = giver;
  lane = lane;
  asset = asset;
  total = total;
  paid = 0;
  expires = expires;
  taken_chain = no_hands;
  from_pool = from_pool;
  mint = none;
}

unfoldable pub mint_of : Text → Text → Text → MintTerms → ℕ → Claim
mint_of giver lane asset terms expires = record {
  giver = giver;
  lane = lane;
  asset = asset;
  total = terms.per_hand * terms.hands;
  paid = 0;
  expires = expires;
  taken_chain = no_hands;
  from_pool = false;
  mint = some terms;
}

abbrev pub put : Text → Claim → ClaimBook → ClaimBook
put root c b = record b { live = set root c b.live }

unfoldable pub open_claim : Text → Text → Text → Text → ℕ → ℕ → Bool → Method
open_claim root giver lane asset total expires from_pool =
    modify (put root (harvest_of giver lane asset total expires from_pool))

unfoldable pub open_mint : Text → Text → Text → Text → MintTerms → ℕ → Method
open_mint root giver lane asset terms expires =
    modify (put root (mint_of giver lane asset terms expires))

abbrev pub left_of : Option MintTerms → ℕ → ℕ
left_of none count = 0
left_of (some m) count = m.hands - count

abbrev pub left_part : Option Claim → ℕ → ℕ
left_part none count = 0
left_part (some c) count = left_of c.mint count

unfoldable pub pots_left : Text → ClaimBook → ℕ
pots_left root b = left_part (get root b.live) (taken_count root b)

-- The two tests that only a mint has.
unfoldable pub check_mint : Option MintTerms → ℕ → ℕ → Method
check_mint none count amount = pure tt
check_mint (some m) count amount = do
  raise_if (leb m.hands count) no_pot
  raise_if (not (amount == m.per_hand)) not_one_pot

module _ (hash_of : Text → Text) where
  -- `H(chain|to|amount)`
  unfoldable pub chain_hand : Text → Text → ℕ → Text
  chain_hand chain to amount = hash_of (chain ++ (b'|' ∷ (to ++ (b'|' ∷ decimal amount))))

  unfoldable pub pay_hand : Text → Text → ℕ → Claim → ClaimBook → ClaimBook
  pay_hand root to amount c b = record {
    live =
        set root
          (record c { paid = c.paid + amount; taken_chain = chain_hand c.taken_chain to amount })
          b.live;
    taken = set root (add to (set_of (get root b.taken))) b.taken;
  }

  unfoldable pub take : Text → Text → ℕ → Method
  take root to amount = do
    c ← or_raise (← gets (λ b. get root b.live)) no_harvest
    raise_if (← gets (has_taken root to)) already_taken
    check_mint c.mint (← gets (taken_count root)) amount
    raise_if (ltb c.total (c.paid + amount)) over_total
    modify (pay_hand root to amount c)

unfoldable pub close : Text → Method
close root = modify (λ b. record { live = delete root b.live; taken = delete root b.taken })

-- A call that writes; the source has no others.
pub data Act : Type 0 where
  open_act : Text → Text → Text → Text → ℕ → ℕ → Bool → Act
  mint_act : Text → Text → Text → Text → MintTerms → ℕ → Act
  take_act : Text → Text → ℕ → Act
  close_act : Text → Act

module _ (hash_of : Text → Text) where
  unfoldable pub apply : Act → Method
  apply (open_act root giver lane asset total expires from_pool) =
      open_claim root giver lane asset total expires from_pool
  apply (mint_act root giver lane asset terms expires) =
      open_mint root giver lane asset terms expires
  apply (take_act root to amount) = take hash_of root to amount
  apply (close_act root) = close root

  unfoldable pub replay : List Act → ClaimBook → ClaimBook
  replay [] b = b
  replay (act ∷ acts) b = replay acts (apply act b).1

  -- What the reducer has checked: it opens no root that is open.
  abbrev pub IsFresh : Act → ClaimBook → Type 0
  IsFresh (open_act root giver lane asset total expires from_pool) b = get root b.live ≡ none
  IsFresh (mint_act root giver lane asset terms expires) b = get root b.live ≡ none
  IsFresh (take_act root to amount) b = Unit
  IsFresh (close_act root) b = Unit

  abbrev pub AllFresh : List Act → ClaimBook → Type 0
  AllFresh [] b = Unit
  AllFresh (act ∷ acts) b = IsFresh act b × AllFresh acts (apply act b).1
