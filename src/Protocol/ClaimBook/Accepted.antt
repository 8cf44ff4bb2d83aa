-- ===== src/Protocol/ClaimBook/Accepted.antt =====
-- Every published share has a proof that is accepted, and no mint is a harvest (protocol/claim-book.ts).
use kray_node.Base.{
  ℕ, zero, suc, ◌/◌, ◌^◌, ◌≤◌, ◌≡◌, ◌≢◌, refl, ◌∙◌, true, Option, some, List, [], ◌∷◌, ◌++◌, map,
  leb, length, get_elem?, All, arith, Bool-cases, Option-cases, inl, inr,
}
use kray_node.Base.Text.{Text, js}
use kray_node.Protocol.Merkle.{
  MerkleStep, hash_leaf, hash_node, next_level, sibling_index, sibling_at, empty_root, proof_from,
}
use kray_node.Protocol.Merkle.Collision.{IsWide, Collision}
use kray_node.Protocol.Merkle.Complete.{
  verify_merkle_proof-merkle_proof, merkle_proof-some, get_elem?-map_leaf, length-map_leaf,
  length-next_level, above, get_elem?-next_level,
}
use kray_node.Protocol.Merkle.Levels.{next_level-All, leaves-All, build_merkle_root-All}
use kray_node.Protocol.ClaimBook.{Share}
use kray_node.Protocol.ClaimBook.Proofs.{length-leaves}
use kray_node.Protocol.ClaimBook.Leaves.{
  claim_leaf, leaf_of, is_hash, all_hashes, claim_root, claim_proof, claim_proves, claim_max_hands,
  mint_id, mint_text,
}

get_elem?-leaves :
    (shares : List Share) (i : ℕ) (s : Share)
    → get_elem? shares i ≡ some s
    → get_elem? (map leaf_of shares) i ≡ some (leaf_of s)
get_elem?-leaves [] i s e = cc
get_elem?-leaves (x ∷ shares) zero s e = cc
get_elem?-leaves (x ∷ shares) (suc i) s e = get_elem?-leaves shares i s e

module _ (hash_of : Text → Text) (hex : (t : Text) → is_hash (hash_of t) ≡ true) where
  abbrev IsHash : Text → Type 0
  IsHash t = is_hash t ≡ true

  hash_node-IsHash : (a b : Text) → IsHash (hash_node hash_of a b)
  unfolding hash_node
  hash_node-IsHash a b = hex (1 ∷ (a ++ b))

  hash_leaf-IsHash : (x : Text) → IsHash (hash_leaf hash_of x)
  unfolding hash_leaf
  hash_leaf-IsHash x = hex (0 ∷ x)

  get_elem?-IsHash :
      (level : List Text) (i : ℕ) (x : Text)
      → All IsHash level
      → get_elem? level i ≡ some x
      → IsHash x
  get_elem?-IsHash [] i x h e = cc
  get_elem?-IsHash (a ∷ level) zero x (ha, h) e = ground (arith, ha, e)
  get_elem?-IsHash (a ∷ level) (suc i) x (ha, h) e = get_elem?-IsHash level i x h e

  sibling_at-IsHash :
      (level : List Text) (i : ℕ) (x : Text)
      → All IsHash level
      → get_elem? level i ≡ some x
      → IsHash (sibling_at level i)
  sibling_at-IsHash level i x h e = elim (Option-cases (get_elem? level (sibling_index i))) [
    | inl n ↦ rw (n, e) (get_elem?-IsHash level i x h e)
    | inr (y, s) ↦ rw s (get_elem?-IsHash level (sibling_index i) y h s)
  ]

  proof_from-hashes :
      (fuel : ℕ) (level : List Text) (i : ℕ) (x : Text)
      → All IsHash level
      → get_elem? level i ≡ some x
      → all_hashes (proof_from hash_of fuel level i) ≡ true
  unfolding proof_from all_hashes
  proof_from-hashes zero level i x h e = refl
  proof_from-hashes (suc fuel) level i x h e = elim (Bool-cases (leb (length level) 1)) [
    | inl small ↦ rw small
    | inr big ↦
        let s = sibling_at-IsHash level i x h e in
        let rest =
          proof_from-hashes fuel (next_level hash_of level) (i / 2) (above hash_of level i x)
            (next_level-All hash_of IsHash hash_leaf-IsHash hash_node-IsHash level)
            (get_elem?-next_level hash_of level i x e) in
        rw (big, s, rest)
  ]

  -- As many steps as halvings.
  length-proof_from :
      (k fuel : ℕ) (level : List Text) (i : ℕ)
      → length level ≤ 2 ^ k
      → length (proof_from hash_of fuel level i) ≤ k
  unfolding proof_from
  length-proof_from k zero level i h = omega arith
  length-proof_from zero (suc fuel) level i h = ground (arith, h)
  length-proof_from (suc k) (suc fuel) level i h = elim (Bool-cases (leb (length level) 1)) [
    | inl small ↦ rw small (omega arith)
    | inr big ↦ rw big (
        omega (
          arith,
          length-proof_from k fuel (next_level hash_of level) (i / 2)
              (omega (arith, h, length-next_level hash_of level)),
        ))
  ]

  -- The hash has outputs of 64 hex letters. Then in a list of at most `CLAIM_MAX_HANDS` shares each
  -- index has a proof, and the proof is accepted under the root of the list for the share's hand and
  -- amount.
  pub claim_proves-claim_proof :
      (shares : List Share) (i : ℕ) (to : Text) (amount : ℕ)
      → length shares ≤ claim_max_hands
      → get_elem? shares i ≡ some (to, amount)
      → (steps : List MerkleStep) × (claim_proof hash_of shares i ≡ some steps)
        × (claim_proves hash_of (claim_root hash_of shares) to amount steps ≡ true)
  unfolding claim_proves claim_root claim_proof
  claim_proves-claim_proof shares i to amount h e =
      let leaves = map leaf_of shares in
      let el = get_elem?-leaves shares i (to, amount) e in
      let (steps, found, v) =
        verify_merkle_proof-merkle_proof hash_of leaves i (claim_leaf to amount) el in
      let from = merkle_proof-some hash_of leaves i steps found in
      let hashes =
        proof_from-hashes (length leaves) (map (hash_leaf hash_of) leaves) i
          (hash_leaf hash_of (claim_leaf to amount))
          (leaves-All hash_of IsHash hash_leaf-IsHash hash_node-IsHash leaves)
          (get_elem?-map_leaf hash_of leaves i (claim_leaf to amount) el) in
      let short =
        length-proof_from 17 (length leaves) (map (hash_leaf hash_of) leaves) i
          (omega (arith, h, length-map_leaf hash_of leaves, length-leaves shares)) in
      let root =
        build_merkle_root-All hash_of IsHash hash_leaf-IsHash hash_node-IsHash leaves
          (hex (js "kray-empty-block")) in
      (steps, found, ground (arith, root, from, hashes, short, v))

-- A text that no mint's line is, as the leaves, the nodes and the empty root hash.
abbrev NotMint : (Text → Text) → Text → Type 0
NotMint hash_of v = (t : Text) × ((s : Text) → js "kray-c" ++ s ≢ t) × (v ≡ hash_of t)

module _ (hash_of : Text → Text) (wide : (t : Text) → IsWide (hash_of t)) where
  hash_leaf-NotMint : (x : Text) → NotMint hash_of (hash_leaf hash_of x)
  unfolding hash_leaf
  hash_leaf-NotMint x = (0 ∷ x, (λ s e. ground (arith, e)), refl)

  hash_node-NotMint : (a b : Text) → NotMint hash_of (hash_node hash_of a b)
  unfolding hash_node
  hash_node-NotMint a b = (1 ∷ (a ++ b), (λ s e. ground (arith, e)), refl)

  empty_root-NotMint : NotMint hash_of (empty_root hash_of)
  empty_root-NotMint = (js "kray-empty-block", (λ s e. ground (arith, e)), refl)

  -- The hash has outputs of 64 letters. A mint's id that is the root of a harvest is a collision: two
  -- different texts with one hash.
  pub mint_id-claim_root :
      (network giver lane asset : Text) (per_hand hands : ℕ) (gate : Option ℕ) (nonce : ℕ)
      (shares : List Share)
      → mint_id hash_of network giver lane asset per_hand hands gate nonce
        ≡ claim_root hash_of shares
      → Collision hash_of wide
  unfolding mint_id mint_text claim_root Collision
  mint_id-claim_root network giver lane asset per_hand hands gate nonce shares e =
      let (t, neq, h) =
        build_merkle_root-All hash_of (NotMint hash_of) hash_leaf-NotMint hash_node-NotMint
          (map leaf_of shares) empty_root-NotMint in
      (_, t, neq _, e ∙ h)
