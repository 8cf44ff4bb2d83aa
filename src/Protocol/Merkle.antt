-- ===== src/Protocol/Merkle.antt =====
-- The Merkle tree of protocol/block.ts. The hash, SHA-256 as lower-case hex, is a parameter.
use kray_node.Base.{
  ℕ, zero, suc, ◌+◌, ◌-◌, ◌/◌, ◌%◌, Bool, true, false, not, Option, none, some, List, [], ◌∷◌, ◌++◌,
  map, ltb, leb, ◌==◌, if◌then◌else◌, length, get_elem?,
}
use kray_node.Base.Text.{Text, js, text_eq}
pub mod Levels
pub mod Complete
pub mod Collision
pub mod Sound
pub mod Binding
pub mod Tests

pub record MerkleStep : Type 0 where
  pub hash : Text
  pub sibling_is_right : Bool

abbrev pub first_or : Text → List Text → Text
first_or d [] = d
first_or d (x ∷ xs) = x

abbrev pub or_else : Option Text → Option Text → Text
or_else (some x) d = x
or_else none (some y) = y
or_else none none = []

unfoldable pub sibling_index : ℕ → ℕ
sibling_index i = if i % 2 == 1 then i - 1 else i + 1

-- The sibling at a place, the place itself where the last one is alone.
abbrev pub sibling_at : List Text → ℕ → Text
sibling_at level i = or_else (get_elem? level (sibling_index i)) (get_elem? level i)

module _ (hash_of : Text → Text) where
  -- The prefixes keep leaves and inner nodes apart.
  unfoldable pub hash_leaf : Text → Text
  hash_leaf raw = hash_of (0 ∷ raw)

  unfoldable pub hash_node : Text → Text → Text
  hash_node a b = hash_of (1 ∷ (a ++ b))

  -- One round: pairs, the last one doubled if it is alone.
  unfoldable pub next_level : List Text → List Text
  next_level [] = []
  next_level (a ∷ []) = hash_node a a ∷ []
  next_level (a ∷ b ∷ level) = hash_node a b ∷ next_level level

  -- `while (level.length > 1)`; each round leaves fewer, so as many rounds as leaves are enough.
  unfoldable pub climb : ℕ → List Text → List Text
  climb zero level = level
  climb (suc fuel) level = if leb (length level) 1 then level else climb fuel (next_level level)

  abbrev pub empty_root : Text
  empty_root = hash_of (js "kray-empty-block")

  unfoldable pub build_merkle_root : List Text → Text
  build_merkle_root leaves = first_or empty_root (climb (length leaves) (map hash_leaf leaves))

  unfoldable pub proof_from : ℕ → List Text → ℕ → List MerkleStep
  proof_from zero level i = []
  proof_from (suc fuel) level i =
      let step : MerkleStep = record {
        hash = sibling_at level i;
        sibling_is_right = not (i % 2 == 1);
      } in
      if leb (length level) 1 then [] else step ∷ proof_from fuel (next_level level) (i / 2)

  -- `none` is the exception on an index out of range.
  unfoldable pub merkle_proof : List Text → ℕ → Option (List MerkleStep)
  merkle_proof leaves i =
      if ltb i (length leaves)
      then some (proof_from (length leaves) (map hash_leaf leaves) i)
      else none

  unfoldable pub fold_steps : Text → List MerkleStep → Text
  fold_steps h [] = h
  fold_steps h (s ∷ steps) =
      fold_steps (if s.sibling_is_right then hash_node h s.hash else hash_node s.hash h) steps

  unfoldable pub verify_merkle_proof : Text → List MerkleStep → Text → Bool
  verify_merkle_proof raw steps root = text_eq (fold_steps (hash_leaf raw) steps) root
