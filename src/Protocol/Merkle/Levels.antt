-- ===== src/Protocol/Merkle/Levels.antt =====
-- What holds of every leaf's hash and of every node holds of the root (protocol/block.ts).
use kray_node.Base.{ℕ, zero, suc, List, [], ◌∷◌, map, leb, length, All, Bool-cases, inl, inr}
use kray_node.Base.Text.{Text}
use kray_node.Protocol.Merkle.{
  hash_leaf, hash_node, next_level, climb, first_or, empty_root, build_merkle_root,
}

module _ (hash_of : Text → Text) (P : Text → Type 0) (leaf : (x : Text) → P (hash_leaf hash_of x))
    (node : (a b : Text) → P (hash_node hash_of a b)) where
  pub next_level-All : (level : List Text) → All P (next_level hash_of level)
  unfolding next_level
  next_level-All [] = tt
  next_level-All (a ∷ []) = (node a a, tt)
  next_level-All (a ∷ b ∷ level) = (node a b, next_level-All level)

  pub leaves-All : (leaves : List Text) → All P (map (hash_leaf hash_of) leaves)
  leaves-All [] = tt
  leaves-All (x ∷ leaves) = (leaf x, leaves-All leaves)

  climb-All : (fuel : ℕ) (level : List Text) → All P level → All P (climb hash_of fuel level)
  unfolding climb
  climb-All zero level h = h
  climb-All (suc fuel) level h = elim (Bool-cases (leb (length level) 1)) [
    | inl e ↦ rw e h
    | inr e ↦ rw e (climb-All fuel (next_level hash_of level) (next_level-All level))
  ]

  first_or-All : (d : Text) (level : List Text) → P d → All P level → P (first_or d level)
  first_or-All d [] hd h = hd
  first_or-All d (x ∷ level) hd (hx, h) = hx

  pub build_merkle_root-All :
      (leaves : List Text) → P (empty_root hash_of) → P (build_merkle_root hash_of leaves)
  unfolding build_merkle_root
  build_merkle_root-All leaves hd =
      first_or-All (empty_root hash_of) _ hd (climb-All (length leaves) _ (leaves-All leaves))
