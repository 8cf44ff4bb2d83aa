-- ===== src/Protocol/Merkle/Complete.antt =====
-- Every leaf has a proof that verifies (protocol/block.ts).
use kray_node.Base.{
  ℕ, zero, suc, ◌+◌, ◌*◌, ◌/◌, ◌%◌, ◌≤◌, ◌≡◌, refl, ap, sym, true, not, some, List, [], ◌∷◌, map,
  leb, ◌==◌, if◌then◌else◌, length, get_elem?, get_elem?-lt, lt→ltb, arith, Bool-cases, inl, inr,
}
use kray_node.Base.Text.{Text, text_eq_complete}
use kray_node.Protocol.Merkle.{
  MerkleStep, hash_leaf, hash_node, next_level, climb, first_or, empty_root, build_merkle_root,
  sibling_index, sibling_at, proof_from, merkle_proof, fold_steps, verify_merkle_proof,
}

module _ (hash_of : Text → Text) where
  -- The node above a place.
  abbrev pub above : List Text → ℕ → Text → Text
  above level i x =
      if i % 2 == 1
      then hash_node hash_of (sibling_at level i) x
      else hash_node hash_of x (sibling_at level i)

  pub length-next_level :
      (level : List Text) → length (next_level hash_of level) * 2 ≤ length level + 1
  unfolding next_level
  length-next_level [] = omega arith
  length-next_level (a ∷ []) = omega arith
  length-next_level (a ∷ b ∷ level) = omega (arith, length-next_level level)

  -- Two places on is one node on.
  half_shift : (i : ℕ) → suc (suc i) / 2 ≡ suc (i / 2)
  half_shift i = omega arith

  parity_shift : (i : ℕ) → suc (suc i) % 2 ≡ i % 2
  parity_shift i = omega arith

  sibling_index-shift : (i : ℕ) → sibling_index (suc (suc i)) ≡ suc (suc (sibling_index i))
  unfolding sibling_index
  sibling_index-shift i = ground (arith, parity_shift i)

  sibling_at-shift :
      (a b : Text) (level : List Text) (i : ℕ)
      → sibling_at (a ∷ b ∷ level) (suc (suc i)) ≡ sibling_at level i
  sibling_at-shift a b level i = rw (sibling_index-shift i)

  above-shift :
      (a b : Text) (level : List Text) (i : ℕ) (x : Text)
      → above (a ∷ b ∷ level) (suc (suc i)) x ≡ above level i x
  above-shift a b level i x = rw (sibling_at-shift a b level i, parity_shift i)

  pub get_elem?-next_level :
      (level : List Text) (i : ℕ) (x : Text)
      → get_elem? level i ≡ some x
      → get_elem? (next_level hash_of level) (i / 2) ≡ some (above level i x)
  unfolding next_level sibling_index
  get_elem?-next_level [] i x e = cc
  get_elem?-next_level (a ∷ []) zero x e = ground (arith, e)
  get_elem?-next_level (a ∷ []) (suc i) x e = cc
  get_elem?-next_level (a ∷ b ∷ level) zero x e = ground (arith, e)
  get_elem?-next_level (a ∷ b ∷ level) (suc zero) x e = ground (arith, e)
  get_elem?-next_level (a ∷ b ∷ level) (suc (suc i)) x e =
      rw (half_shift i, above-shift a b level i x, get_elem?-next_level level i x e)

  first_or-alone :
      (level : List Text) (i : ℕ) (x d : Text)
      → get_elem? level i ≡ some x
      → length level ≤ 1
      → first_or d level ≡ x
  first_or-alone [] i x d e h = cc
  first_or-alone (a ∷ []) zero x d e h = cc
  first_or-alone (a ∷ []) (suc i) x d e h = cc
  first_or-alone (a ∷ b ∷ level) i x d e h = absurd (omega arith)

  fold_steps-step :
      (level : List Text) (i : ℕ) (x : Text) (rest : List MerkleStep)
      → fold_steps hash_of x
          (record { hash = sibling_at level i; sibling_is_right = not (i % 2 == 1) } ∷ rest)
        ≡ fold_steps hash_of (above level i x) rest
  unfolding fold_steps
  fold_steps-step level i x rest = elim (Bool-cases (i % 2 == 1)) [
    | inl odd ↦ rw odd
    | inr even ↦ rw even
  ]

  fold_steps-proof_from :
      (fuel : ℕ) (level : List Text) (i : ℕ) (x d : Text)
      → get_elem? level i ≡ some x
      → length level ≤ fuel + 1
      → fold_steps hash_of x (proof_from hash_of fuel level i)
        ≡ first_or d (climb hash_of fuel level)
  unfolding proof_from climb fold_steps
  fold_steps-proof_from zero level i x d e h = sym (first_or-alone level i x d e (omega arith))
  fold_steps-proof_from (suc fuel) level i x d e h = elim (Bool-cases (leb (length level) 1)) [
    | inl small ↦ ground (arith, small, first_or-alone level i x d e)
    | inr big ↦ rw (
      big,
      fold_steps-step level i x (proof_from hash_of fuel (next_level hash_of level) (i / 2)),
      fold_steps-proof_from fuel (next_level hash_of level) (i / 2) (above level i x) d
          (get_elem?-next_level level i x e) (omega (arith, length-next_level level, h)),
    )
  ]

  pub climb-pair :
      (fuel : ℕ) (x y : Text) (level : List Text)
      → climb hash_of (suc fuel) (x ∷ y ∷ level)
        ≡ climb hash_of fuel (next_level hash_of (x ∷ y ∷ level))
  unfolding climb
  climb-pair fuel x y level = ground arith

  pub get_elem?-map_leaf :
      (leaves : List Text) (i : ℕ) (raw : Text)
      → get_elem? leaves i ≡ some raw
      → get_elem? (map (hash_leaf hash_of) leaves) i ≡ some (hash_leaf hash_of raw)
  get_elem?-map_leaf [] i raw e = cc
  get_elem?-map_leaf (a ∷ leaves) zero raw e = cc
  get_elem?-map_leaf (a ∷ leaves) (suc i) raw e = get_elem?-map_leaf leaves i raw e

  pub length-map_leaf :
      (leaves : List Text) → length (map (hash_leaf hash_of) leaves) ≡ length leaves
  length-map_leaf [] = refl
  length-map_leaf (a ∷ leaves) = ap suc (length-map_leaf leaves)

  -- Whatever the hash is: every index below the number of leaves has a proof, and its leaf verifies
  -- with it against the root of those leaves.
  pub verify_merkle_proof-merkle_proof :
      (leaves : List Text) (i : ℕ) (raw : Text)
      → get_elem? leaves i ≡ some raw
      → (steps : List MerkleStep) × (merkle_proof hash_of leaves i ≡ some steps)
        × (verify_merkle_proof hash_of raw steps (build_merkle_root hash_of leaves) ≡ true)
  unfolding merkle_proof verify_merkle_proof build_merkle_root
  verify_merkle_proof-merkle_proof leaves i raw e = (
    proof_from hash_of (length leaves) (map (hash_leaf hash_of) leaves) i,
    rw (lt→ltb i (length leaves) (get_elem?-lt leaves i raw e)),
    text_eq_complete _ _ (
        fold_steps-proof_from (length leaves) (map (hash_leaf hash_of) leaves) i
          (hash_leaf hash_of raw) (empty_root hash_of) (get_elem?-map_leaf leaves i raw e)
          (omega (arith, length-map_leaf leaves))),
  )

  pub merkle_proof-some :
      (leaves : List Text) (i : ℕ) (steps : List MerkleStep)
      → merkle_proof hash_of leaves i ≡ some steps
      → steps ≡ proof_from hash_of (length leaves) (map (hash_leaf hash_of) leaves) i
  unfolding merkle_proof
  merkle_proof-some leaves i steps e = ground (arith, e)
