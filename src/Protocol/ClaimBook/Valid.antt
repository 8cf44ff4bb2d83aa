-- ===== src/Protocol/ClaimBook/Valid.antt =====
-- What a book of claims keeps (protocol/claim-book.ts).
use kray_node.Base.{
  ℕ, suc, ◌+◌, ◌*◌, ◌≤◌, ◌≡◌, refl, Bool, false, Option, none, some, List, [], ◌∷◌, length,
  length-append, arith, Bool-cases, Option-cases, inl, inr,
}
use kray_node.Base.Text.{Text, text_eq, text_eq_iff}
use kray_node.Base.Map.{
  text_key, get, member, add, Distinct, get-set, get-delete_ne, get-delete_self, set-Distinct,
  delete-Distinct,
}
use kray_node.Protocol.ClaimBook.{
  MintTerms, Claim, ClaimBook, size_of, set_of, taken_count, has_taken, harvest_of, mint_of, put,
  open_claim, open_mint, chain_hand, pay_hand, take, close, Act, open_act, mint_act, take_act,
  close_act, apply, replay, IsFresh, AllFresh, empty_claims,
}
use kray_node.Protocol.ClaimBook.Outcome.{verdict, IsOnePot, verdict-none, take-none, take-verdict}

-- Pots are counted: what a mint has paid is one pot for each hand that took.
unfoldable pub IsCounted : Option MintTerms → ℕ → Claim → Type 0
IsCounted none count c = Unit
IsCounted (some m) count c =
    (c.total ≡ m.per_hand * m.hands) × (c.paid ≡ m.per_hand * count) × (count ≤ m.hands)

unfoldable pub IsValidClaim : ℕ → Claim → Type 0
IsValidClaim count c = (c.paid ≤ c.total) × IsCounted c.mint count c

unfoldable pub IsValid : ClaimBook → Type 0
IsValid b =
    (Distinct b.live)
    × (Distinct b.taken)
    × ((root : Text) (c : Claim) → get root b.live ≡ some c → IsValidClaim (taken_count root b) c)
    × ((root : Text) → get root b.live ≡ none → get root b.taken ≡ none)

pub empty_claims-IsValid : IsValid empty_claims
unfolding IsValid get
empty_claims-IsValid = (tt, tt, (λ root c e. cc), (λ root e. refl))

length-add : (to : Text) (s : List Text) → member to s ≡ false → length (add to s) ≡ suc (length s)
unfolding add
length-add to s h = ground (arith, h, length-append s (to ∷ []))

-- A claim that nobody has taken from is put under a root that is not open.
put-IsValid :
    (root : Text) (c : Claim) (b : ClaimBook)
    → get root b.live ≡ none
    → IsValidClaim 0 c
    → IsValid b
    → IsValid (put root c b)
unfolding IsValid taken_count
put-IsValid root c b fresh hc (dl, dt, claims, absent) = (
  set-Distinct root c b.live dl,
  dt,
  (λ j x e.
      ground
        (arith, e, get-set j root c b.live, text_eq_iff root j, claims j x, absent root fresh, hc)),
  (λ j e. ground (arith, e, get-set j root c b.live, absent j)),
)

harvest_of-IsValidClaim :
    (giver lane asset : Text) (total expires : ℕ) (from_pool : Bool)
    → IsValidClaim 0 (harvest_of giver lane asset total expires from_pool)
unfolding IsValidClaim IsCounted harvest_of
harvest_of-IsValidClaim giver lane asset total expires from_pool = (omega arith, tt)

mint_of-IsValidClaim :
    (giver lane asset : Text) (terms : MintTerms) (expires : ℕ)
    → IsValidClaim 0 (mint_of giver lane asset terms expires)
unfolding IsValidClaim IsCounted mint_of
mint_of-IsValidClaim giver lane asset terms expires =
    (omega arith, (refl, ground arith, omega arith))

close-IsValid : (root : Text) (b : ClaimBook) → IsValid b → IsValid (close root b).1
unfolding IsValid close taken_count
close-IsValid root b (dl, dt, claims, absent) = (
  delete-Distinct root b.live dl,
  delete-Distinct root b.taken dt,
  (λ j x e. elim (Bool-cases (text_eq root j)) [
    | inl y ↦ ground (arith, e, text_eq_iff root j, get-delete_self root b.live dl)
    | inr n ↦
        ground (arith, e, claims j x, get-delete_ne j root b.live n, get-delete_ne j root b.taken n)
  ]),
  (λ j e. elim (Bool-cases (text_eq root j)) [
    | inl y ↦ ground (arith, text_eq_iff root j, get-delete_self root b.taken dt)
    | inr n ↦
        ground (arith, e, absent j, get-delete_ne j root b.live n, get-delete_ne j root b.taken n)
  ]),
)

pay_hand-IsCounted :
    (mint : Option MintTerms) (chain : Text) (amount count : ℕ) (c : Claim)
    → IsOnePot mint count amount
    → IsCounted mint count c
    → IsCounted mint (suc count) (record c { paid = c.paid + amount; taken_chain = chain })
unfolding IsOnePot IsCounted
pay_hand-IsCounted none chain amount count c p h = tt
pay_hand-IsCounted (some m) chain amount count c (f, e) (et, ep, ec) =
    (et, ground (arith, ep, e), f)

pay_hand-IsValidClaim :
    (chain : Text) (amount count : ℕ) (c : Claim)
    → IsOnePot c.mint count amount
    → c.paid + amount ≤ c.total
    → IsValidClaim count c
    → IsValidClaim (suc count) (record c { paid = c.paid + amount; taken_chain = chain })
unfolding IsValidClaim
pay_hand-IsValidClaim chain amount count c p o (h, k) =
    (o, pay_hand-IsCounted c.mint chain amount count c p k)

size-set_of : (o : Option (List Text)) → size_of o ≡ length (set_of o)
size-set_of none = refl
size-set_of (some s) = refl

module _ (hash_of : Text → Text) where
  pub taken_count-pay_hand :
      (root to : Text) (amount : ℕ) (c : Claim) (b : ClaimBook)
      → has_taken root to b ≡ false
      → taken_count root (pay_hand hash_of root to amount c b) ≡ suc (taken_count root b)
  unfolding taken_count has_taken pay_hand
  taken_count-pay_hand root to amount c b t =
      let s = set_of (get root b.taken) in
      ground (
        arith,
        text_eq_iff root root,
        get-set root root (add to s) b.taken,
        size-set_of (get root b.taken),
        length-add to s t,
      )

  pay_hand-IsValid :
      (root to : Text) (amount : ℕ) (c : Claim) (b : ClaimBook)
      → get root b.live ≡ some c
      → has_taken root to b ≡ false
      → IsOnePot c.mint (taken_count root b) amount
      → c.paid + amount ≤ c.total
      → IsValid b
      → IsValid (pay_hand hash_of root to amount c b)
  unfolding IsValid pay_hand taken_count has_taken
  pay_hand-IsValid root to amount c b e t p o (dl, dt, claims, absent) =
      let c' = record c {
        paid = c.paid + amount;
        taken_chain = chain_hand hash_of c.taken_chain to amount;
      } in
      let s' = add to (set_of (get root b.taken)) in
      let paid =
        pay_hand-IsValidClaim (chain_hand hash_of c.taken_chain to amount) amount
          (taken_count root b) c p o (claims root c e) in
      (
        set-Distinct root c' b.live dl,
        set-Distinct root s' b.taken dt,
        (λ j x ex. elim (Bool-cases (text_eq root j)) [
          | inl y ↦ ground (
            arith,
            ex,
            y,
            get-set j root c' b.live,
            get-set j root s' b.taken,
            size-set_of (get root b.taken),
            length-add to (set_of (get root b.taken)) t,
            paid,
          )
          | inr n ↦
              ground (arith, ex, n, get-set j root c' b.live, get-set j root s' b.taken, claims j x)
        ]),
        (λ j ex. ground (arith, ex, get-set j root c' b.live, get-set j root s' b.taken, absent j)),
      )

  take-IsValid :
      (root to : Text) (amount : ℕ) (b : ClaimBook)
      → IsValid b
      → IsValid (take hash_of root to amount b).1
  take-IsValid root to amount b h = elim (Option-cases (get root b.live)) [
    | inl e ↦ rw (take-none hash_of root to amount b e) h
    | inr (c, e) ↦ elim (Option-cases (verdict root to amount c b)) [
      | inr (r, v) ↦ rw (take-verdict hash_of root to amount b c e, v) h
      | inl v ↦
          let (t, p, o) = verdict-none root to amount c b v in
          rw (take-verdict hash_of root to amount b c e, v)
            (pay_hand-IsValid root to amount c b e t p o h)
    ]
  ]

  apply-IsValid :
      (act : Act) (b : ClaimBook)
      → IsFresh hash_of act b
      → IsValid b
      → IsValid (apply hash_of act b).1
  unfolding apply open_claim open_mint
  apply-IsValid (open_act root giver lane asset total expires from_pool) b f h =
      put-IsValid root _ b f (harvest_of-IsValidClaim giver lane asset total expires from_pool) h
  apply-IsValid (mint_act root giver lane asset terms expires) b f h =
      put-IsValid root _ b f (mint_of-IsValidClaim giver lane asset terms expires) h
  apply-IsValid (take_act root to amount) b f h = take-IsValid root to amount b h
  apply-IsValid (close_act root) b f h = close-IsValid root b h

  -- From a valid book, over any list of calls that opens no root that is open: no claim has paid more
  -- than its total, and each mint has paid one pot to each of its hands and to no more than it has
  -- pots for. A root that is not open has no hands.
  pub replay-IsValid :
      (acts : List Act) (b : ClaimBook)
      → AllFresh hash_of acts b
      → IsValid b
      → IsValid (replay hash_of acts b)
  unfolding replay
  replay-IsValid [] b f h = h
  replay-IsValid (act ∷ acts) b (f, fs) h =
      replay-IsValid acts (apply hash_of act b).1 fs (apply-IsValid act b f h)
