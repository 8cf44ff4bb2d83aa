-- ===== src/Protocol/Merkle/Sound.antt =====
-- Only leaves verify, unless a hash collision is at hand (protocol/block.ts).
use kray_node.Base.{
  ℕ, zero, suc, ◌<◌, ◌≡◌, ◌⊎◌, refl, ◌∙◌, true, some, List, [], ◌∷◌, ◌++◌, map, if◌then◌else◌,
  length, get_elem?, All, arith, Bool-cases, inl, inr,
}
use kray_node.Base.Text.{Text, text_eq_sound}
use kray_node.Protocol.Merkle.{
  MerkleStep, hash_leaf, hash_node, next_level, climb, first_or, empty_root, build_merkle_root,
  fold_steps, verify_merkle_proof,
}
use kray_node.Protocol.Merkle.Complete.{length-map_leaf, climb-pair}
use kray_node.Protocol.Merkle.Collision.{
  IsWide, IsWideStep, Holds, Collision, hash_node-inj, hash_leaf-inj, hash_leaf-neq-hash_node,
}

module _ (hash_of : Text → Text) (wide : (t : Text) → IsWide (hash_of t)) where
  abbrev join : Text → MerkleStep → Text
  join h s = if s.sibling_is_right then hash_node hash_of h s.hash else hash_node hash_of s.hash h

  hash_node-IsWide : (a b : Text) → IsWide (hash_node hash_of a b)
  unfolding hash_node
  hash_node-IsWide a b = wide (1 ∷ (a ++ b))

  join-IsWide : (h : Text) (s : MerkleStep) → IsWide (join h s)
  join-IsWide h s = elim (Bool-cases s.sibling_is_right) [
    | inl e ↦ rw e (hash_node-IsWide h s.hash)
    | inr e ↦ rw e (hash_node-IsWide s.hash h)
  ]

  fold_steps-IsWide :
      (h : Text) (steps : List MerkleStep) → IsWide h → IsWide (fold_steps hash_of h steps)
  unfolding fold_steps
  fold_steps-IsWide h [] w = w
  fold_steps-IsWide h (s ∷ steps) w = fold_steps-IsWide (join h s) steps (join-IsWide h s)

  -- What the fold has come to after some of the steps.
  abbrev Reached : Text → Text → Type 0
  Reached h v =
      (steps : List MerkleStep) × (All IsWideStep steps) × (fold_steps hash_of h steps ≡ v)

  -- The last step of a fold that takes one.
  abbrev LastStep : Text → Text → Type 0
  LastStep h v =
      (steps : List MerkleStep) × (s : MerkleStep) × (All IsWideStep steps)
      × (IsWideStep s)
      × (join (fold_steps hash_of h steps) s ≡ v)

  fold_steps-last :
      (h : Text) (s : MerkleStep) (steps : List MerkleStep)
      → IsWideStep s
      → All IsWideStep steps
      → LastStep h (fold_steps hash_of h (s ∷ steps))
  unfolding fold_steps
  fold_steps-last h s [] ws w = ([], s, w, ws, refl)
  fold_steps-last h s (t ∷ steps) ws (wt, w) =
      let (pre, l, wpre, wl, e) = fold_steps-last (join h s) t steps wt w in
      (s ∷ pre, l, (ws, wpre), wl, e)

  abbrev WideLevel : List Text → Type 0
  WideLevel level = (i : ℕ) (v : Text) → get_elem? level i ≡ some v → IsWide v

  abbrev Parents : List Text → Text → Type 0
  Parents level v =
      (a : Text) × (b : Text) × (Holds level a) × (Holds level b) × (v ≡ hash_node hash_of a b)

  Parents-later :
      (a b : Text) (level : List Text) (v : Text) → Parents level v → Parents (a ∷ b ∷ level) v
  unfolding Holds
  Parents-later a b level v (x, y, (i, ex), (j, ey), e) =
      (x, y, (suc (suc i), ex), (suc (suc j), ey), e)

  next_level-Parents :
      (level : List Text) (i : ℕ) (v : Text)
      → get_elem? (next_level hash_of level) i ≡ some v
      → Parents level v
  unfolding next_level Holds
  next_level-Parents [] i v e = cc
  next_level-Parents (a ∷ []) zero v e = (a, a, (0, refl), (0, refl), cc)
  next_level-Parents (a ∷ []) (suc i) v e = cc
  next_level-Parents (a ∷ b ∷ level) zero v e = (a, b, (0, refl), (1, refl), cc)
  next_level-Parents (a ∷ b ∷ level) (suc i) v e =
      Parents-later a b level v (next_level-Parents level i v e)

  hash_leaf-IsWide : (raw : Text) → IsWide (hash_leaf hash_of raw)
  unfolding hash_leaf
  hash_leaf-IsWide raw = wide (0 ∷ raw)

  abbrev ReachedIn : Text → List Text → Type 0
  ReachedIn raw level = (v : Text) × (Holds level v) × (Reached (hash_leaf hash_of raw) v)

  join-child :
      (h a b : Text) (s : MerkleStep)
      → IsWide h
      → IsWideStep s
      → IsWide a
      → join h s ≡ hash_node hash_of a b
      → ((h ≡ a) ⊎ (h ≡ b)) ⊎ Collision hash_of wide
  unfolding IsWideStep
  join-child h a b s wh ws wa e = elim (Bool-cases s.sibling_is_right) [
    | inl r ↦ elim (hash_node-inj hash_of wide h s.hash a b wh wa (ground (arith, r, e))) [
      | inl (ea, eb) ↦ inl (inl ea)
      | inr c ↦ inr c
    ]
    | inr l ↦ elim (hash_node-inj hash_of wide s.hash h a b ws wa (ground (arith, l, e))) [
      | inl (ea, eb) ↦ inl (inr eb)
      | inr c ↦ inr c
    ]
  ]

  -- A node that a leaf's fold reaches was joined from one of its children.
  Reached-child :
      (raw v a b : Text)
      → IsWide a
      → v ≡ hash_node hash_of a b
      → Reached (hash_leaf hash_of raw) v
      → (Reached (hash_leaf hash_of raw) a ⊎ Reached (hash_leaf hash_of raw) b)
        ⊎ Collision hash_of wide
  unfolding fold_steps
  Reached-child raw v a b wa ev ([], w, e) =
      inr (hash_leaf-neq-hash_node hash_of wide raw a b (e ∙ ev))
  Reached-child raw v a b wa ev (s ∷ steps, (ws, w), e) =
      let (pre, l, wpre, wl, el) = fold_steps-last (hash_leaf hash_of raw) s steps ws w in
      let below = fold_steps hash_of (hash_leaf hash_of raw) pre in
      elim (join-child below a b l
        (fold_steps-IsWide (hash_leaf hash_of raw) pre (hash_leaf-IsWide raw)) wl wa
        (el ∙ e ∙ ev)) [
          | inl (inl eq) ↦ inl (inl (pre, wpre, eq))
          | inl (inr eq) ↦ inl (inr (pre, wpre, eq))
          | inr c ↦ inr c
        ]

  -- Down one level, from a place that the fold reaches.
  Reached-next_level :
      (raw : Text) (level : List Text) (v : Text)
      → WideLevel level
      → Holds (next_level hash_of level) v
      → Reached (hash_leaf hash_of raw) v
      → ReachedIn raw level ⊎ Collision hash_of wide
  unfolding Holds
  Reached-next_level raw level v wl (i, ev) r =
      let (a, b, (ia, ea), (ib, eb), e) = next_level-Parents level i v ev in
      elim (Reached-child raw v a b (wl ia a ea) e r) [
        | inl (inl ra) ↦ inl (a, (ia, ea), ra)
        | inl (inr rb) ↦ inl (b, (ib, eb), rb)
        | inr c ↦ inr c
      ]

  WideLevel-next_level :
      (level : List Text) → WideLevel level → WideLevel (next_level hash_of level)
  WideLevel-next_level level wl i v e =
      let (a, b, ha, hb, ev) = next_level-Parents level i v e in rw ev (hash_node-IsWide a b)

  next_level-pos : (x : Text) (level : List Text) → 0 < length (next_level hash_of (x ∷ level))
  unfolding next_level
  next_level-pos x [] = omega arith
  next_level-pos x (y ∷ level) = omega arith

  Reached-climb :
      (raw d : Text) (fuel : ℕ) (level : List Text)
      → WideLevel level
      → 0 < length level
      → Reached (hash_leaf hash_of raw) (first_or d (climb hash_of fuel level))
      → ReachedIn raw level ⊎ Collision hash_of wide
  unfolding climb Holds
  Reached-climb raw d zero (x ∷ level) wl h r = inl (x, (0, refl), r)
  Reached-climb raw d zero [] wl h r = absurd (omega arith)
  Reached-climb raw d (suc fuel) [] wl h r = absurd (omega arith)
  Reached-climb raw d (suc fuel) (x ∷ []) wl h r = inl (x, (0, refl), r)
  Reached-climb raw d (suc fuel) (x ∷ y ∷ level) wl h r =
      let next = next_level hash_of (x ∷ y ∷ level) in
      elim (Reached-climb raw d fuel next (WideLevel-next_level (x ∷ y ∷ level) wl)
        (next_level-pos x (y ∷ level)) (rw (← climb-pair hash_of fuel x y level) r)) [
          | inl (v, hv, rv) ↦ Reached-next_level raw (x ∷ y ∷ level) v wl hv rv
          | inr c ↦ inr c
        ]

  hash_leaf-neq-join :
      (h x : Text) (s : MerkleStep) → join h s ≡ hash_leaf hash_of x → Collision hash_of wide
  hash_leaf-neq-join h x s e = elim (Bool-cases s.sibling_is_right) [
    | inl r ↦ hash_leaf-neq-hash_node hash_of wide x h s.hash (ground (arith, r, e))
    | inr l ↦ hash_leaf-neq-hash_node hash_of wide x s.hash h (ground (arith, l, e))
  ]

  Reached-hash_leaf :
      (raw x : Text)
      → Reached (hash_leaf hash_of raw) (hash_leaf hash_of x)
      → (raw ≡ x) ⊎ Collision hash_of wide
  unfolding fold_steps
  Reached-hash_leaf raw x ([], w, e) = hash_leaf-inj hash_of wide raw x e
  Reached-hash_leaf raw x (s ∷ steps, (ws, w), e) =
      let (pre, l, wpre, wl, el) = fold_steps-last (hash_leaf hash_of raw) s steps ws w in
      inr (hash_leaf-neq-join (fold_steps hash_of (hash_leaf hash_of raw) pre) x l (el ∙ e))

  map_leaf-source :
      (leaves : List Text) (i : ℕ) (v : Text)
      → get_elem? (map (hash_leaf hash_of) leaves) i ≡ some v
      → (x : Text) × (get_elem? leaves i ≡ some x) × (v ≡ hash_leaf hash_of x)
  map_leaf-source [] i v e = cc
  map_leaf-source (x ∷ leaves) zero v e = (x, refl, cc)
  map_leaf-source (x ∷ leaves) (suc i) v e = map_leaf-source leaves i v e

  map_leaf-WideLevel : (leaves : List Text) → WideLevel (map (hash_leaf hash_of) leaves)
  map_leaf-WideLevel leaves i v e =
      let (x, ex, ev) = map_leaf-source leaves i v e in rw ev (hash_leaf-IsWide x)

  reached-leaves :
      (raw : Text) (leaves : List Text)
      → ReachedIn raw (map (hash_leaf hash_of) leaves)
      → Holds leaves raw ⊎ Collision hash_of wide
  unfolding Holds
  reached-leaves raw leaves (v, (i, ei), r) =
      let (x, ex, ev) = map_leaf-source leaves i v ei in
      elim (Reached-hash_leaf raw x (rw (← ev) r)) [ inl eq ↦ inl (i, rw eq ex) | inr c ↦ inr c ]

  -- The hash has outputs of 64 letters, as have the hashes of the steps, and there is a leaf. Then a
  -- text whose steps verify against the root of the leaves is one of the leaves, or two different
  -- texts with one hash are at hand.
  pub verify_merkle_proof-Holds :
      (raw : Text) (steps : List MerkleStep) (leaves : List Text)
      → 0 < length leaves
      → All IsWideStep steps
      → verify_merkle_proof hash_of raw steps (build_merkle_root hash_of leaves) ≡ true
      → Holds leaves raw ⊎ Collision hash_of wide
  unfolding verify_merkle_proof build_merkle_root
  verify_merkle_proof-Holds raw steps leaves h w v =
      elim (Reached-climb raw (empty_root hash_of) (length leaves) (map (hash_leaf hash_of) leaves)
        (map_leaf-WideLevel leaves) (omega (arith, length-map_leaf hash_of leaves))
        (steps, w, text_eq_sound _ _ v)) [ inl r ↦ reached-leaves raw leaves r | inr c ↦ inr c ]
