-- ===== src/Protocol/ClaimBook/Outcome.antt =====
-- What a taking comes to, test by test (protocol/claim-book.ts).
use kray_node.Base.{
  ℕ, ◌+◌, ◌≤◌, ◌<◌, ◌≡◌, refl, false, Option, none, some, ltb, leb, ◌==◌, if◌then◌else◌, arith,
  Bool-cases, Option-cases, inl, inr,
}
use kray_node.Base.Text.{Text}
use kray_node.Base.Map.{text_key, get}
use kray_node.Base.Result.{Result, ok, err}
use kray_node.Protocol.ClaimBook.{
  MintTerms, Claim, ClaimBook, Refusal, no_harvest, already_taken, no_pot, not_one_pot, over_total,
  taken_count, has_taken, check_mint, pay_hand, take,
}

-- Which test refuses a taking, if one does.
abbrev pub mint_verdict : Option MintTerms → ℕ → ℕ → Option Refusal
mint_verdict none count amount = none
mint_verdict (some m) count amount =
    if leb m.hands count
    then some no_pot
    else (if amount == m.per_hand then none else some not_one_pot)

abbrev pub or_then : Option Refusal → Option Refusal → Option Refusal
or_then none r = r
or_then (some e) r = some e

unfoldable pub verdict : Text → Text → ℕ → Claim → ClaimBook → Option Refusal
verdict root to amount c b =
    if has_taken root to b
    then some already_taken
    else or_then (mint_verdict c.mint (taken_count root b) amount)
        (if ltb c.total (c.paid + amount) then some over_total else none)

abbrev pub outcome : Option Refusal → ClaimBook → ClaimBook → Result Refusal (Unit {0}) × ClaimBook
outcome none next b = (ok tt, next)
outcome (some e) next b = (err e, b)

-- What a taking that is not refused has passed.
unfoldable pub IsOnePot : Option MintTerms → ℕ → ℕ → Type 0
IsOnePot none count amount = Unit
IsOnePot (some m) count amount = (count < m.hands) × (amount ≡ m.per_hand)

pub verdict-none :
    (root to : Text) (amount : ℕ) (c : Claim) (b : ClaimBook)
    → verdict root to amount c b ≡ none
    → (has_taken root to b ≡ false)
      × (IsOnePot c.mint (taken_count root b) amount)
      × (c.paid + amount ≤ c.total)
unfolding verdict IsOnePot
verdict-none root to amount c b v = elim (Bool-cases (has_taken root to b)) [
  | inl t ↦ ground (arith, v, t)
  | inr t ↦ elim (Option-cases c.mint) [
    | inl em ↦ (t, rw em tt, ground (arith, v, t, em))
    | inr (m, em) ↦
        (t, rw em (ground (arith, v, t, em), ground (arith, v, t, em)), ground (arith, v, t, em))
  ]
]

mint_verdict-none :
    (mint : Option MintTerms) (count amount : ℕ)
    → IsOnePot mint count amount
    → mint_verdict mint count amount ≡ none
unfolding IsOnePot
mint_verdict-none none count amount p = refl
mint_verdict-none (some m) count amount (f, e) = ground (arith, f, e)

pub verdict-passed :
    (root to : Text) (amount : ℕ) (c : Claim) (b : ClaimBook)
    → has_taken root to b ≡ false
    → IsOnePot c.mint (taken_count root b) amount
    → c.paid + amount ≤ c.total
    → verdict root to amount c b ≡ none
unfolding verdict
verdict-passed root to amount c b t p o =
    ground (arith, t, o, mint_verdict-none c.mint (taken_count root b) amount p)

module _ (hash_of : Text → Text) where
  pub take-none :
      (root to : Text) (amount : ℕ) (b : ClaimBook)
      → get root b.live ≡ none
      → take hash_of root to amount b ≡ (err no_harvest, b)
  unfolding take
  take-none root to amount b e = rw e

  pub take-verdict :
      (root to : Text) (amount : ℕ) (b : ClaimBook) (c : Claim)
      → get root b.live ≡ some c
      → take hash_of root to amount b
        ≡ outcome (verdict root to amount c b) (pay_hand hash_of root to amount c b) b
  unfolding take check_mint verdict
  take-verdict root to amount b c e = elim (Bool-cases (has_taken root to b)) [
    | inl t ↦ rw (e, t)
    | inr t ↦ elim (Option-cases c.mint) [
      | inl em ↦ elim (Bool-cases (ltb c.total (c.paid + amount))) [
        | inl o ↦ rw (e, t, em, o)
        | inr o ↦ rw (e, t, em, o)
      ]
      | inr (m, em) ↦ elim (Bool-cases (leb m.hands (taken_count root b))) [
        | inl f ↦ rw (e, t, em, f)
        | inr f ↦ elim (Bool-cases (amount == m.per_hand)) [
          | inl p ↦ elim (Bool-cases (ltb c.total (c.paid + amount))) [
            | inl o ↦ rw (e, t, em, f, p, o)
            | inr o ↦ rw (e, t, em, f, p, o)
          ]
          | inr p ↦ rw (e, t, em, f, p)
        ]
      ]
    ]
  ]
