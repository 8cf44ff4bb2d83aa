-- ===== src/Protocol/Merkle/Collision.antt =====
-- Nodes and leaves are told apart, unless a hash collision is at hand (protocol/block.ts).
use kray_node.Base.{
  ℕ, ◌≡◌, ◌⊎◌, ◌≢◌, refl, sym, ◌∙◌, some, List, [], ◌∷◌, ◌++◌, length, get_elem?, arith, Bool-cases,
  inl, inr,
}
use kray_node.Base.Text.{Text, text_eq, text_eq_sound, text_eq_complete}
use kray_node.Protocol.Merkle.{MerkleStep, hash_leaf, hash_node}

-- SHA-256 in hex, as every node and every checked step has it.
unfoldable pub IsWide : Text → Type 0
IsWide t = length t ≡ 64

unfoldable pub IsWideStep : MerkleStep → Type 0
IsWideStep s = IsWide s.hash

unfoldable pub Holds : List Text → Text → Type 0
Holds level v = (i : ℕ) × (get_elem? level i ≡ some v)

pub append-inj : (a b x y : Text) → length a ≡ length x → a ++ b ≡ x ++ y → (a ≡ x) × (b ≡ y)
append-inj [] b [] y h e = (refl, e)
append-inj [] b (c ∷ x) y h e = absurd (omega (arith, h))
append-inj (c ∷ a) b [] y h e = absurd (omega (arith, h))
append-inj (c ∷ a) b (d ∷ x) y h e = ground (arith, append-inj a b x y)

module _ (hash_of : Text → Text) (wide : (t : Text) → IsWide (hash_of t)) where
  unfoldable pub Collision : Type 0
  Collision = (x : Text) × (y : Text) × (x ≢ y) × (hash_of x ≡ hash_of y)

  -- Equal hashes have equal inputs, or there is a collision.
  pub hash_of-inj : (x y : Text) → hash_of x ≡ hash_of y → (x ≡ y) ⊎ Collision
  unfolding Collision
  hash_of-inj x y e = elim (Bool-cases (text_eq x y)) [
    | inl same ↦ inl (text_eq_sound x y same)
    | inr different ↦ inr (x, y, (λ eq. ground (arith, different, text_eq_complete x y eq)), e)
  ]

  pub hash_node-inj :
      (a b x y : Text)
      → IsWide a
      → IsWide x
      → hash_node hash_of a b ≡ hash_node hash_of x y
      → ((a ≡ x) × (b ≡ y)) ⊎ Collision
  unfolding hash_node IsWide
  hash_node-inj a b x y ha hx e = elim (hash_of-inj (1 ∷ (a ++ b)) (1 ∷ (x ++ y)) e) [
    | inl same ↦ inl (append-inj a b x y (ha ∙ sym hx) cc)
    | inr c ↦ inr c
  ]

  pub hash_leaf-inj : (x y : Text) → hash_leaf hash_of x ≡ hash_leaf hash_of y → (x ≡ y) ⊎ Collision
  unfolding hash_leaf
  hash_leaf-inj x y e = elim (hash_of-inj (0 ∷ x) (0 ∷ y) e) [ inl same ↦ inl cc | inr c ↦ inr c ]

  -- A leaf is never an inner node.
  pub hash_leaf-neq-hash_node :
      (x a b : Text) → hash_leaf hash_of x ≡ hash_node hash_of a b → Collision
  unfolding hash_leaf hash_node
  hash_leaf-neq-hash_node x a b e = elim (hash_of-inj (0 ∷ x) (1 ∷ (a ++ b)) e) [
    | inl same ↦ ground (arith, same)
    | inr c ↦ c
  ]
