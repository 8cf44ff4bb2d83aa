-- ===== src/Protocol/Merkle/Tests.antt =====
-- The theorems on a hash that pads its input to 64 letters.
use kray_node.Base.{
  ℕ, zero, suc, ◌≤◌, ◌<◌, ◌≡◌, ◌⊎◌, refl, Bool, true, false, Option, none, some, List, [], ◌∷◌,
  length, get_elem?, All, arith,
}
use kray_node.Base.Text.{Text, js}
use kray_node.Protocol.Merkle.{
  MerkleStep, build_merkle_root, merkle_proof, verify_merkle_proof, hash_leaf, hash_node,
  next_level, climb, fold_steps,
}
use kray_node.Protocol.Merkle.Collision.{IsWide, IsWideStep, Holds, Collision}
use kray_node.Protocol.Merkle.Complete.{verify_merkle_proof-merkle_proof}
use kray_node.Protocol.Merkle.Sound.{verify_merkle_proof-Holds}

abbrev pub pad : ℕ → Text → Text
pad zero t = []
pad (suc n) [] = 48 ∷ pad n []
pad (suc n) (x ∷ t) = x ∷ pad n t

abbrev pub toy_hash : Text → Text
toy_hash t = pad 64 t

pub length-pad : (n : ℕ) (t : Text) → length (pad n t) ≡ n
length-pad zero t = refl
length-pad (suc n) [] = omega (arith, length-pad n [])
length-pad (suc n) (x ∷ t) = omega (arith, length-pad n t)

pub toy_hash-IsWide : (t : Text) → IsWide (toy_hash t)
unfolding IsWide
toy_hash-IsWide t = length-pad 64 t

abbrev pub three : List Text
three = js "a" ∷ js "b" ∷ js "c" ∷ []

verify_merkle_proof-merkle_proof_example :
    (steps : List MerkleStep) × (merkle_proof toy_hash three 2 ≡ some steps)
    × (verify_merkle_proof toy_hash (js "c") steps (build_merkle_root toy_hash three) ≡ true)
verify_merkle_proof-merkle_proof_example =
    verify_merkle_proof-merkle_proof toy_hash three 2 (js "c") refl

-- The proof of the third of three: itself, then the node of the other two.
abbrev steps_of_c : List MerkleStep
steps_of_c =
    record { hash = toy_hash (0 ∷ js "c"); sibling_is_right = true }
    ∷ record { hash = toy_hash (1 ∷ toy_hash (0 ∷ js "a")); sibling_is_right = false }
    ∷ []

steps_of_c_wide : All IsWideStep steps_of_c
unfolding IsWideStep IsWide
steps_of_c_wide = (refl, (refl, tt))

steps_of_c_verify :
    verify_merkle_proof toy_hash (js "c") steps_of_c (build_merkle_root toy_hash three) ≡ true
unfolding verify_merkle_proof build_merkle_root kray_node.Base.Text.text_eq fold_steps hash_node
    climb next_level hash_leaf
steps_of_c_verify = refl

verify_merkle_proof-Holds_example : Holds three (js "c") ⊎ Collision toy_hash toy_hash-IsWide
verify_merkle_proof-Holds_example =
    verify_merkle_proof-Holds toy_hash toy_hash-IsWide (js "c") steps_of_c three (omega arith)
      steps_of_c_wide steps_of_c_verify
