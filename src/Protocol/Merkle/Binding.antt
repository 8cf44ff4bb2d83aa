-- ===== src/Protocol/Merkle/Binding.antt =====
-- A root and a number of leaves fix the leaves (protocol/block.ts).
use kray_node.Base.{
  ℕ, zero, suc, ◌+◌, ◌≤◌, ◌≡◌, ◌⊎◌, refl, ap, sym, ◌∙◌, List, [], ◌∷◌, map, length, All, arith, inl,
  inr,
}
use kray_node.Base.Text.{Text}
use kray_node.Protocol.Merkle.{
  hash_leaf, hash_node, next_level, climb, first_or, empty_root, build_merkle_root,
}
use kray_node.Protocol.Merkle.Complete.{length-next_level, climb-pair, length-map_leaf}
use kray_node.Protocol.Merkle.Collision.{IsWide, Collision, hash_node-inj, hash_leaf-inj}

module _ (hash_of : Text → Text) (wide : (t : Text) → IsWide (hash_of t)) where
  next_level-IsWide : (level : List Text) → All IsWide (next_level hash_of level)
  unfolding next_level hash_node
  next_level-IsWide [] = tt
  next_level-IsWide (a ∷ []) = (wide _, tt)
  next_level-IsWide (a ∷ b ∷ level) = (wide _, next_level-IsWide level)

  length-next_level-same :
      (u v : List Text)
      → length u ≡ length v
      → length (next_level hash_of u) ≡ length (next_level hash_of v)
  unfolding next_level
  length-next_level-same [] [] h = refl
  length-next_level-same [] (x ∷ v) h = absurd (omega arith)
  length-next_level-same (a ∷ u) [] h = absurd (omega arith)
  length-next_level-same (a ∷ []) (x ∷ []) h = refl
  length-next_level-same (a ∷ []) (x ∷ y ∷ v) h = absurd (omega arith)
  length-next_level-same (a ∷ b ∷ u) (x ∷ []) h = absurd (omega arith)
  length-next_level-same (a ∷ b ∷ u) (x ∷ y ∷ v) h =
      omega (arith, length-next_level-same u v (omega arith))

  next_level-inj :
      (u v : List Text)
      → length u ≡ length v
      → All IsWide u
      → All IsWide v
      → next_level hash_of u ≡ next_level hash_of v
      → (u ≡ v) ⊎ Collision hash_of wide
  unfolding next_level
  next_level-inj [] [] h wu wv e = inl refl
  next_level-inj [] (x ∷ v) h wu wv e = absurd (omega arith)
  next_level-inj (a ∷ u) [] h wu wv e = absurd (omega arith)
  next_level-inj (a ∷ []) (x ∷ y ∷ v) h wu wv e = absurd (omega arith)
  next_level-inj (a ∷ b ∷ u) (x ∷ []) h wu wv e = absurd (omega arith)
  next_level-inj (a ∷ []) (x ∷ []) h (wa, wu) (wx, wv) e =
      elim (hash_node-inj hash_of wide a a x x wa wx (ground (arith, e))) [
        | inl (ea, eb) ↦ inl (rw ea)
        | inr c ↦ inr c
      ]
  next_level-inj (a ∷ b ∷ u) (x ∷ y ∷ v) h (wa, (wb, wu)) (wx, (wy, wv)) e =
      elim (hash_node-inj hash_of wide a b x y wa wx (ground (arith, e))) [
        | inl (ea, eb) ↦ elim (next_level-inj u v (omega arith) wu wv (ground (arith, e))) [
          | inl eu ↦ inl (rw (ea, eb, eu))
          | inr c ↦ inr c
        ]
        | inr c ↦ inr c
      ]

  climb-inj :
      (d : Text) (fuel : ℕ) (u v : List Text)
      → length u ≡ length v
      → length u ≤ fuel + 1
      → All IsWide u
      → All IsWide v
      → first_or d (climb hash_of fuel u) ≡ first_or d (climb hash_of fuel v)
      → (u ≡ v) ⊎ Collision hash_of wide
  unfolding climb
  climb-inj d fuel [] [] h hf wu wv e = inl refl
  climb-inj d fuel [] (x ∷ v) h hf wu wv e = absurd (omega arith)
  climb-inj d fuel (a ∷ u) [] h hf wu wv e = absurd (omega arith)
  climb-inj d fuel (a ∷ []) (x ∷ y ∷ v) h hf wu wv e = absurd (omega arith)
  climb-inj d fuel (a ∷ b ∷ u) (x ∷ []) h hf wu wv e = absurd (omega arith)
  climb-inj d zero (a ∷ []) (x ∷ []) h hf wu wv e = inl (rw e)
  climb-inj d (suc fuel) (a ∷ []) (x ∷ []) h hf wu wv e = inl (rw e)
  climb-inj d zero (a ∷ b ∷ u) (x ∷ y ∷ v) h hf wu wv e = absurd (omega arith)
  climb-inj d (suc fuel) (a ∷ b ∷ u) (x ∷ y ∷ v) h hf wu wv e =
      elim (climb-inj d fuel (next_level hash_of (a ∷ b ∷ u)) (next_level hash_of (x ∷ y ∷ v))
        (length-next_level-same (a ∷ b ∷ u) (x ∷ y ∷ v) h)
        (omega (arith, length-next_level hash_of (a ∷ b ∷ u), hf)) (next_level-IsWide (a ∷ b ∷ u))
        (next_level-IsWide (x ∷ y ∷ v))
        (rw (← climb-pair hash_of fuel a b u, ← climb-pair hash_of fuel x y v) e)) [
          | inl eq ↦ next_level-inj (a ∷ b ∷ u) (x ∷ y ∷ v) h wu wv eq
          | inr c ↦ inr c
        ]

  map_leaf-IsWide : (leaves : List Text) → All IsWide (map (hash_leaf hash_of) leaves)
  unfolding hash_leaf
  map_leaf-IsWide [] = tt
  map_leaf-IsWide (x ∷ leaves) = (wide _, map_leaf-IsWide leaves)

  map_leaf-inj :
      (u v : List Text)
      → map (hash_leaf hash_of) u ≡ map (hash_leaf hash_of) v
      → (u ≡ v) ⊎ Collision hash_of wide
  map_leaf-inj [] [] e = inl refl
  map_leaf-inj [] (x ∷ v) e = cc
  map_leaf-inj (a ∷ u) [] e = cc
  map_leaf-inj (a ∷ u) (x ∷ v) e = elim (hash_leaf-inj hash_of wide a x (ground (arith, e))) [
    | inl ea ↦ elim (map_leaf-inj u v (ground (arith, e))) [
      | inl eu ↦ inl (rw (ea, eu))
      | inr c ↦ inr c
    ]
    | inr c ↦ inr c
  ]

  -- The hash has outputs of 64 letters. Then two lists of leaves of one length with one root are the
  -- same list in the same order, or two different texts with one hash are at hand.
  pub build_merkle_root-inj :
      (u v : List Text)
      → length u ≡ length v
      → build_merkle_root hash_of u ≡ build_merkle_root hash_of v
      → (u ≡ v) ⊎ Collision hash_of wide
  unfolding build_merkle_root
  build_merkle_root-inj u v h e =
      elim (climb-inj (empty_root hash_of) (length u) (map (hash_leaf hash_of) u)
        (map (hash_leaf hash_of) v)
        (length-map_leaf hash_of u ∙ h ∙ sym (length-map_leaf hash_of v))
        (omega (arith, length-map_leaf hash_of u)) (map_leaf-IsWide u) (map_leaf-IsWide v)
        (e
          ∙ ap (λ n. first_or (empty_root hash_of) (climb hash_of n (map (hash_leaf hash_of) v)))
              (sym h))) [ inl eq ↦ map_leaf-inj u v eq | inr c ↦ inr c ]
