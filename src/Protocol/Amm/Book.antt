-- ===== src/Protocol/Amm/Book.antt =====
-- The book of shares, `class AmmBook`, and the keys of its pools (amm.ts). The canonical key of a rune
-- stands for its pair with KRAY; a pair of two runes has a key of both. A burn takes a BigInt of either
-- sign, as the source does; what is minted is tested there for being positive, so 0 stands for what is
-- refused.
use kray_node.Base.{
  ℕ, ◌+◌, ◌≡◌, ◌⊎◌, inl, inr, refl, sym, ap, ◌∙◌, Bool-cases, Option-cases, arith, Bool, true, not,
  ◌&&◌, Option, none, some, List, [], ◌∷◌, ◌++◌, ltb, ◌==◌, if◌then◌else◌, filter, sum_by,
}
use kray_node.Base.Int.{ℤ, ltb_int, take_away}
use kray_node.Base.Text.{
  Text, text_eq, text_lt, text_eq_iff, text_lt_irrefl, text_lt_trans, text_lt_total,
}
use kray_node.Base.Map.{text_key, Map, get_or, set, add}
use kray_node.Base.Sort.{sort}
use kray_node.Base.Result.{Action, ◌>>=◌, ◌>>◌, raise_if, gets, modify, or_raise}
use std.Path.{ap₂}
use kray_node.Protocol.Runestone.Artifact.{RuneId}
use kray_node.Economics.RuneKey.{
  rune_key, canonical_rune_key, canonical_rune_key-rune_key, canonical_rune_key_sound,
}
use kray_node.Economics.RuneBook.NestedMap.{Nested, touch, at, put, drop, entry}
use kray_node.Protocol.Amm.Quote.{
  Refusal, bad_rune_id, same_rune, mint_not_positive, wrong_supply, insufficient_lp,
  minimum_liquidity,
}

pub record RrPair : Type 0 where
  pub key : Text
  pub a : Text
  pub b : Text

abbrev pub bar : ℕ
bar = 0x7c

abbrev ordered_pair : Text → Text → RrPair
ordered_pair a b =
    if text_lt a b
    then record { key = a ++ (bar ∷ b); a = a; b = b }
    else record { key = b ++ (bar ∷ a); a = b; b = a }

abbrev pair_of : Option Text → Option Text → Option RrPair
pair_of none _ = none
pair_of (some a) none = none
pair_of (some a) (some b) = if text_eq a b then none else some (ordered_pair a b)

-- `rrPairKey`; `none` is a `throw`, for a key that is not a rune's or for twice the same rune.
unfoldable pub rr_pair_key : Text → Text → Option RrPair
rr_pair_key rune_a rune_b = pair_of (canonical_rune_key rune_a) (canonical_rune_key rune_b)

pub record AmmBook : Type 0 where
  pub shares : Nested ℕ
  pub supply : Map Text ℕ

abbrev pub empty_amm : AmmBook
empty_amm = record { shares = []; supply = [] }

abbrev pub Method : Type 0 → Type 0
Method A = Action AmmBook Refusal A

abbrev pub or_zero : Option ℕ → ℕ
or_zero none = 0
or_zero (some n) = n

abbrev pub supply_at : Text → AmmBook → ℕ
supply_at k b = get_or 0 k b.supply

-- `this.bagAt(key).get(addr) ?? 0n`, on a map whose empty entry is no matter.
abbrev pub lp_at : Text → Text → AmmBook → ℕ
lp_at k a b = or_zero (at k a b.shares)

unfoldable pub bag_at : Text → AmmBook → AmmBook
bag_at k b = record b { shares = touch k b.shares }

-- The writes of a mint, once it has passed its guards.
unfoldable pub issue : Text → Text → ℕ → ℕ → AmmBook → AmmBook
issue k to minted supply_after b = record b {
  shares = put k to (lp_at k to b + minted) b.shares;
  supply = set k supply_after b.supply;
}

-- `current === 0n ? minted + MINIMUM_LIQUIDITY : current + minted`
abbrev pub expected : ℕ → ℕ → ℕ
expected current minted = if current == 0 then minted + minimum_liquidity else current + minted

unfoldable pub mint_at : Text → Text → ℕ → ℕ → Method (Unit {0})
mint_at k to minted supply_after = do
  raise_if (minted == 0) mint_not_positive
  current ← gets (supply_at k)
  raise_if (not (supply_after == expected current minted)) wrong_supply
  modify (issue k to minted supply_after)

-- The writes of a burn. The new supply is not negative, since no one holds more than the supply
-- (`replay-IsCovered` of Negative).
unfoldable pub redeem : Text → Text → ℤ → AmmBook → AmmBook
redeem k from lp b =
    let left = take_away (lp_at k from b) lp in
    record b {
      shares = if ltb 0 left then put k from left b.shares else drop k from b.shares;
      supply = set k (take_away (supply_at k b) lp) b.supply;
    }

-- The sign of `lp` is not tested: a negative burn is taken, and makes shares.
unfoldable pub burn_at : Text → Text → ℤ → Method (Unit {0})
burn_at k from lp = do
  modify (bag_at k)
  have ← gets (lp_at k from)
  raise_if (ltb_int have lp) insufficient_lp
  modify (redeem k from lp)

unfoldable pub mint : Text → Text → ℕ → ℕ → Method (Unit {0})
mint rune_id to minted supply_after = do
  k ← or_raise (canonical_rune_key rune_id) bad_rune_id
  mint_at k to minted supply_after

unfoldable pub mint_rr : Text → Text → Text → ℕ → ℕ → Method (Unit {0})
mint_rr a b to minted supply_after = do
  p ← or_raise (rr_pair_key a b) same_rune
  mint_at p.key to minted supply_after

unfoldable pub burn : Text → Text → ℤ → Method (Unit {0})
burn rune_id from lp = do k ← or_raise (canonical_rune_key rune_id) bad_rune_id; burn_at k from lp

unfoldable pub burn_rr : Text → Text → Text → ℤ → Method (Unit {0})
burn_rr a b from lp = do p ← or_raise (rr_pair_key a b) same_rune; burn_at p.key from lp

-- `holdersAt`: the positive holdings, sorted by address.
unfoldable pub holders_at : Text → AmmBook → List (Text × ℕ)
holders_at k b =
    sort (λ (x y : Text × ℕ). text_lt x.0 y.0)
      (filter (λ (h : Text × ℕ). ltb 0 h.1) (entry k b.shares))

abbrev add_keys : {V : Type 0} → Map Text V → List Text → List Text
add_keys [] ks = ks
add_keys ((k, v) ∷ m) ks = add_keys m (add k ks)

-- One round of the loop of `solvent`.
unfoldable pub solvent_pair : Text → AmmBook → Bool
solvent_pair k b =
    let supply = supply_at k b in
    let held = sum_by (λ (h : Text × ℕ). h.1) (holders_at k b) in
    if supply == 0 then held == 0 else supply == held + minimum_liquidity

unfoldable pub all_pairs : List Text → AmmBook → Bool
all_pairs [] b = true
all_pairs (k ∷ ks) b = solvent_pair k b && all_pairs ks b

unfoldable pub solvent : AmmBook → Bool
solvent b = all_pairs (sort text_lt (add_keys b.shares (add_keys b.supply []))) b

pair_of_comm : (a b : Option Text) → pair_of a b ≡ pair_of b a
pair_of_comm none none = refl
pair_of_comm none (some b) = refl
pair_of_comm (some a) none = refl
pair_of_comm (some a) (some b) = ground (
  arith,
  text_eq_iff a b,
  text_eq_iff b a,
  text_lt_irrefl a,
  text_lt_trans a b a,
  text_lt_total a b,
)

pair_of_again :
    (a b : Text)
    → (p : RrPair) → pair_of (some a) (some b) ≡ some p
    → (pair_of (some p.a) (some p.b) ≡ some p) × (((p.a ≡ a) × (p.b ≡ b)) ⊎ ((p.a ≡ b) × (p.b ≡ a)))
pair_of_again a b p h = elim (Bool-cases (text_eq a b)) [
  | inl e ↦ ground (arith, e)
  | inr n ↦ elim (Bool-cases (text_lt a b)) [
    | inl l ↦ ground (arith, n, l)
    | inr g ↦ ground (arith, n, g, text_eq_iff a b, text_eq_iff b a, text_lt_total a b)
  ]
]

abbrev pub IsPairOf : RrPair → RuneId → RuneId → Type 0
IsPairOf p i j =
    (p.a ≡ rune_key i) × ((p.b ≡ rune_key j) × (rr_pair_key (rune_key i) (rune_key j) ≡ some p))

pair_of_runes :
    (p : RrPair)
    → (i j : RuneId) → p.a ≡ rune_key i
    → p.b ≡ rune_key j
    → pair_of (some p.a) (some p.b) ≡ some p
    → IsPairOf p i j
unfolding rr_pair_key
pair_of_runes p i j u v h = (u, (v, ap₂ pair_of (canonical i (p.a) u) (canonical j (p.b) v) ∙ h))
  where
    canonical :
        (id : RuneId) → (k : Text) → k ≡ rune_key id → canonical_rune_key (rune_key id) ≡ some k
    canonical id k same = canonical_rune_key-rune_key id ∙ ap some (sym same)

-- A pair that is accepted is the pair of two runes, each in its canonical spelling.
pub rr_pair_key_sound :
    (x y : Text)
    → (p : RrPair) → rr_pair_key x y ≡ some p
    → (i : RuneId) × ((j : RuneId) × IsPairOf p i j)
unfolding rr_pair_key
rr_pair_key_sound x y p h = elim (Option-cases (canonical_rune_key x)) [
  | inl e ↦ ground (arith, e)
  | inr (a, ea) ↦ elim (Option-cases (canonical_rune_key y)) [
    | inl e ↦ ground (arith, ea, e)
    | inr (b, eb) ↦
        let (i, ei) = canonical_rune_key_sound x a ea in
        let (j, ej) = canonical_rune_key_sound y b eb in
        let (again, named) = pair_of_again a b p (ap₂ pair_of (sym ea) (sym eb) ∙ h) in
        elim named [
          | inl (u, v) ↦ (i, (j, pair_of_runes p i j (u ∙ ei) (v ∙ ej) again))
          | inr (u, v) ↦ (j, (i, pair_of_runes p j i (u ∙ ej) (v ∙ ei) again))
        ]
  ]
]

pair_of_named : (o q : Option Text) (p : RrPair) → pair_of o q ≡ some p → p.key ≡ p.a ++ (bar ∷ p.b)
pair_of_named none q p h = ground arith
pair_of_named (some a) none p h = ground arith
pair_of_named (some a) (some b) p h = ground arith

-- The key of a pair is its two runes with a bar between them.
pub rr_pair_key_named :
    (x y : Text) (p : RrPair) → rr_pair_key x y ≡ some p → p.key ≡ p.a ++ (bar ∷ p.b)
unfolding rr_pair_key
rr_pair_key_named x y p h = pair_of_named (canonical_rune_key x) (canonical_rune_key y) p h

-- The order in which the two runes of a pair are named does not matter, also to the refusals.
pub rr_pair_key_comm : (a b : Text) → rr_pair_key a b ≡ rr_pair_key b a
unfolding rr_pair_key
rr_pair_key_comm a b = pair_of_comm (canonical_rune_key a) (canonical_rune_key b)
