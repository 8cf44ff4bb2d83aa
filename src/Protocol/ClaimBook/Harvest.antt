-- ===== src/Protocol/ClaimBook/Harvest.antt =====
-- Every hand is paid (protocol/claim-book.ts).
use kray_node.Base.{
  ℕ, suc, ◌+◌, ◌*◌, ◌≤◌, ◌≡◌, refl, ap, Bool, false, Option, none, some, List, [], ◌∷◌, length,
  arith,
}
use kray_node.Base.Text.{Text, text_eq_iff}
use kray_node.Base.Map.{text_key, Map, get, set, member, add, get-set}
use kray_node.Base.Result.{ok}
use kray_node.Protocol.ClaimBook.{
  Share, MintTerms, Claim, ClaimBook, set_of, taken_count, has_taken, harvest_of, mint_of,
  open_claim, open_mint, chain_hand, pay_hand, take,
}
use kray_node.Protocol.ClaimBook.Outcome.{IsOnePot, verdict-passed, take-verdict}
use kray_node.Base.{All}
use kray_node.Protocol.ClaimBook.Valid.{IsValid, taken_count-pay_hand}
use native.Mathlib.Nat.{mul-le-mul_left}

-- Each taking succeeds on the book that the one before has left.
abbrev pub AllPaid : (Text → Text) → Text → List Share → ClaimBook → Type 0
AllPaid hash_of root [] b = Unit
AllPaid hash_of root ((to, n) ∷ shares) b =
    ((take hash_of root to n b).0 ≡ ok tt)
    × AllPaid hash_of root shares (take hash_of root to n b).1

-- No hand is named twice, and none has taken.
abbrev pub AllNew : List Share → List Text → Type 0
AllNew [] s = Unit
AllNew ((to, n) ∷ shares) s = (member to s ≡ false) × AllNew shares (add to s)

abbrev pub amounts : List Share → ℕ
amounts [] = 0
amounts ((to, n) ∷ shares) = n + amounts shares

-- What is left covers the shares: their sum for a harvest, their number of whole pots for a mint.
abbrev pub HasRoom : Option MintTerms → ℕ → List Share → Type 0
HasRoom none count shares = Unit
HasRoom (some m) count shares =
    (count + length shares ≤ m.hands) × All (λ (s : Share). s.1 ≡ m.per_hand) shares

abbrev pub pots : MintTerms → List Text → List Share
pots m [] = []
pots m (to ∷ hands) = (to, m.per_hand) ∷ pots m hands

pots_room :
    (m : MintTerms) (hands : List Text) → All (λ (s : Share). s.1 ≡ m.per_hand) (pots m hands)
pots_room m [] = tt
pots_room m (to ∷ hands) = (refl, pots_room m hands)

pots_total :
    (m : MintTerms) (hands : List Text) → amounts (pots m hands) ≡ m.per_hand * length hands
pots_total m [] = ground arith
pots_total m (to ∷ hands) = ground (arith, pots_total m hands)

length-pots : (m : MintTerms) (hands : List Text) → length (pots m hands) ≡ length hands
length-pots m [] = refl
length-pots m (to ∷ hands) = ap suc (length-pots m hands)

module _ (hash_of : Text → Text) where
  HasRoom-IsOnePot :
      (mint : Option MintTerms) (count : ℕ) (to : Text) (n : ℕ) (shares : List Share)
      → HasRoom mint count ((to, n) ∷ shares)
      → IsOnePot mint count n
  unfolding IsOnePot
  HasRoom-IsOnePot none count to n shares r = tt
  HasRoom-IsOnePot (some m) count to n shares (r, (e, es)) = (omega (arith, r), e)

  HasRoom-rest :
      (mint : Option MintTerms) (count : ℕ) (s : Share) (shares : List Share)
      → HasRoom mint count (s ∷ shares)
      → HasRoom mint (suc count) shares
  HasRoom-rest none count s shares r = tt
  HasRoom-rest (some m) count s shares (r, (e, es)) = (omega (arith, r), es)

  set_of-get :
      (root : Text) (s : List Text) (m : Map Text (List Text)) → get root (set root s m) ≡ some s
  set_of-get root s m = ground (arith, text_eq_iff root root, get-set root root s m)

  pays :
      (root : Text) (shares : List Share) (c : Claim) (b : ClaimBook)
      → get root b.live ≡ some c
      → AllNew shares (set_of (get root b.taken))
      → HasRoom c.mint (taken_count root b) shares
      → c.paid + amounts shares ≤ c.total
      → AllPaid hash_of root shares b
  unfolding has_taken pay_hand
  pays root [] c b e t r o = tt
  pays root ((to, n) ∷ shares) c b e (t, ts) r o =
      let p = HasRoom-IsOnePot c.mint (taken_count root b) to n shares r in
      let v = verdict-passed root to n c b t p (omega (arith, o)) in
      let paid = take-verdict hash_of root to n b c e in
      let c' : Claim = record c {
        paid = c.paid + n;
        taken_chain = chain_hand hash_of c.taken_chain to n;
      } in
      rw (paid, v)
        (
          refl,
          pays root shares c' (pay_hand hash_of root to n c b)
              (ground (arith, text_eq_iff root root, get-set root root c' b.live))
              (rw (set_of-get root (add to (set_of (get root b.taken))) b.taken) ts)
              (rw (taken_count-pay_hand hash_of root to n c b t)
                (HasRoom-rest c.mint (taken_count root b) (to, n) shares r))
              (omega (arith, o)),
        )

  no_hands_yet :
      (root : Text) (b : ClaimBook) → IsValid b → get root b.live ≡ none → get root b.taken ≡ none
  unfolding IsValid
  no_hands_yet root b (dl, dt, claims, absent) e = absent root e

  -- On a valid book, a harvest is opened under a root that is not open, and the shares name no hand
  -- twice and sum to no more than its total. Then the takings of the shares, in the order given, all
  -- succeed.
  pub hands_paid :
      (root giver lane asset : Text) (total expires : ℕ) (from_pool : Bool) (shares : List Share)
      (b : ClaimBook)
      → IsValid b
      → get root b.live ≡ none
      → AllNew shares []
      → amounts shares ≤ total
      → AllPaid hash_of root shares (open_claim root giver lane asset total expires from_pool b).1
  unfolding open_claim harvest_of
  hands_paid root giver lane asset total expires from_pool shares b h e new o =
      pays root shares (harvest_of giver lane asset total expires from_pool) _
        (ground (
          arith,
          text_eq_iff root root,
          get-set root root (harvest_of giver lane asset total expires from_pool) b.live,
        ))
        (rw (no_hands_yet root b h e) new) tt (omega (arith, o))

  -- On a valid book, a mint is opened under a root that is not open, for at least as many hands as
  -- are named, none of them twice. Then each of them, in the order given, takes its whole pot.
  pub pots_paid :
      (root giver lane asset : Text) (m : MintTerms) (expires : ℕ) (hands : List Text)
      (b : ClaimBook)
      → IsValid b
      → get root b.live ≡ none
      → AllNew (pots m hands) []
      → length hands ≤ m.hands
      → AllPaid hash_of root (pots m hands) (open_mint root giver lane asset m expires b).1
  unfolding open_mint mint_of taken_count
  pots_paid root giver lane asset m expires hands b h e new o =
      pays root (pots m hands) (mint_of giver lane asset m expires) _
        (ground (
          arith,
          text_eq_iff root root,
          get-set root root (mint_of giver lane asset m expires) b.live,
        ))
        (rw (no_hands_yet root b h e) new)
        (rw (no_hands_yet root b h e) (omega (arith, o, length-pots m hands), pots_room m hands))
        (omega (arith, pots_total m hands, mul-le-mul_left m.per_hand o))
