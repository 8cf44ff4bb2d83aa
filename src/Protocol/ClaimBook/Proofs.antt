-- ===== src/Protocol/ClaimBook/Proofs.antt =====
-- A proof is accepted for the shares under the root and for no others (protocol/claim-book.ts).
use kray_node.Base.{
  ℕ, zero, suc, ◌<◌, ◌≡◌, ◌⊎◌, refl, ap, true, false, some, List, [], ◌∷◌, ◌++◌, map, ◌==◌, length,
  get_elem?, All, arith, inl, inr,
}
use kray_node.Base.Text.{Text, js}
use kray_node.Base.Decimal.{decimal, is_digit, decimal_digits, decimal-injective}
use kray_node.Protocol.Merkle.{MerkleStep}
use kray_node.Protocol.Merkle.Collision.{IsWide, IsWideStep, Holds, Collision, append-inj}
use kray_node.Protocol.Merkle.Sound.{verify_merkle_proof-Holds}
use kray_node.Protocol.ClaimBook.{Share}
use kray_node.Protocol.ClaimBook.Leaves.{
  claim_leaf, leaf_of, is_hash, all_hashes, claim_root, claim_proves,
}

abbrev IsNot : ℕ → ℕ → Type 0
IsNot c x = (x == c) ≡ false

no_bar : (c : ℕ) (b s t : Text) → s ≡ b ++ (c ∷ t) → All (IsNot c) s → true ≡ false
no_bar c [] [] t e h = cc
no_bar c (y ∷ b) [] t e h = cc
no_bar c [] (x ∷ s) t e (hx, h) = ground (arith, e, hx)
no_bar c (y ∷ b) (x ∷ s) t e (hx, h) = let es : s ≡ b ++ (c ∷ t) = cc in no_bar c b s t es h

-- The last bar is where it is: what follows has none.
bar_last-inj :
    (c : ℕ) (a b s t : Text)
    → All (IsNot c) s
    → All (IsNot c) t
    → a ++ (c ∷ s) ≡ b ++ (c ∷ t)
    → (a ≡ b) × (s ≡ t)
bar_last-inj c [] [] s t hs ht e = (refl, cc)
bar_last-inj c [] (y ∷ b) s t hs ht e = let es : s ≡ b ++ (c ∷ t) = cc in cc (no_bar c b s t es hs)
bar_last-inj c (x ∷ a) [] s t hs ht e = let et : t ≡ a ++ (c ∷ s) = cc in cc (no_bar c a t s et ht)
bar_last-inj c (x ∷ a) (y ∷ b) s t hs ht e = ground (arith, e, bar_last-inj c a b s t hs ht)

digits_no_bar : (t : Text) → All (λ x. is_digit x ≡ true) t → All (IsNot b'|') t
digits_no_bar [] h = tt
digits_no_bar (x ∷ t) (d, h) = (ground (arith, d), digits_no_bar t h)

amount_no_bar : (n : ℕ) → All (IsNot b'|') (js "amount=" ++ decimal n)
amount_no_bar n = (
  refl,
  (refl, (refl, (refl, (refl, (refl, (refl, digits_no_bar (decimal n) (decimal_digits n))))))),
)

claim_leaf-inj : (u v : Text) (m n : ℕ) → claim_leaf u m ≡ claim_leaf v n → (u ≡ v) × (m ≡ n)
unfolding claim_leaf
claim_leaf-inj u v m n e =
    let (_, e1) =
      append-inj (js "kray-core.claim.leaf.v1|to=") _ (js "kray-core.claim.leaf.v1|to=") _ refl e in
    let (eu, e2) = bar_last-inj b'|' u v _ _ (amount_no_bar m) (amount_no_bar n) e1 in
    let (_, e3) = append-inj (js "amount=") (decimal m) (js "amount=") (decimal n) refl e2 in
    (eu, decimal-injective m n e3)

is_hash-IsWide : (t : Text) → is_hash t ≡ true → IsWide t
unfolding is_hash IsWide
is_hash-IsWide t h = ground (arith, h)

all_hashes-IsWideStep : (steps : List MerkleStep) → all_hashes steps ≡ true → All IsWideStep steps
unfolding all_hashes IsWideStep
all_hashes-IsWideStep [] h = tt
all_hashes-IsWideStep (s ∷ steps) h =
    (is_hash-IsWide s.hash (ground (arith, h)), all_hashes-IsWideStep steps (ground (arith, h)))

pub length-leaves : (shares : List Share) → length (map leaf_of shares) ≡ length shares
length-leaves [] = refl
length-leaves (s ∷ shares) = ap suc (length-leaves shares)

Holds-share :
    (shares : List Share) (i : ℕ) (to : Text) (amount : ℕ)
    → get_elem? (map leaf_of shares) i ≡ some (claim_leaf to amount)
    → get_elem? shares i ≡ some (to, amount)
Holds-share [] i to amount e = cc
Holds-share ((who, n) ∷ shares) zero to amount e =
    let (et, en) = claim_leaf-inj who to n amount cc in rw (et, en)
Holds-share (s ∷ shares) (suc i) to amount e = Holds-share shares i to amount e

module _ (hash_of : Text → Text) (wide : (t : Text) → IsWide (hash_of t)) where
  -- The hash has outputs of 64 letters, and there is a share. If a proof is accepted under the root of
  -- the shares for a hand and an amount, then that hand with that amount is one of the shares, or two
  -- different texts with one hash are at hand.
  pub claim_proves_sound :
      (shares : List Share) (to : Text) (amount : ℕ) (steps : List MerkleStep)
      → 0 < length shares
      → claim_proves hash_of (claim_root hash_of shares) to amount steps ≡ true
      → ((i : ℕ) × (get_elem? shares i ≡ some (to, amount))) ⊎ Collision hash_of wide
  unfolding claim_proves claim_root Holds
  claim_proves_sound shares to amount steps h v =
      elim (verify_merkle_proof-Holds hash_of wide (claim_leaf to amount) steps (map leaf_of shares)
        (omega (arith, length-leaves shares)) (all_hashes-IsWideStep steps (ground (arith, v)))
        (ground (arith, v))) [
          | inl (i, e) ↦ inl (i, Holds-share shares i to amount e)
          | inr c ↦ inr c
        ]
