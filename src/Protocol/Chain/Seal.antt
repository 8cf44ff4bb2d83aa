-- ===== src/Protocol/Chain/Seal.antt =====
-- Sealed blocks verify and load (KrayChain of protocol/block.ts).
use kray_node.Base.{
  ℕ, suc, ◌+◌, ◌≡◌, refl, sym, ap, ◌∙◌, map, true, none, some, List, [], ◌∷◌, ◌++◌, append-nil,
  append_assoc, if◌then◌else◌, length, length-append, arith, Bool-cases, inl, inr,
}
use kray_node.Base.Text.{Text, text_eq_refl}
use kray_node.Protocol.Merkle.{build_merkle_root}
use kray_node.Protocol.Chain.{
  KrayBlock, zero_hash, follows, verify_from, verify, tip, head_of, next_number, load, sealed_body,
  seal_block,
}

tip-append : (blocks : List KrayBlock) (b : KrayBlock) → tip (blocks ++ (b ∷ [])) ≡ some b
unfolding tip
tip-append [] b = refl
tip-append (a ∷ []) b = refl
tip-append (a ∷ c ∷ blocks) b = tip-append (c ∷ blocks) b

head_of-append : (blocks : List KrayBlock) (b : KrayBlock) → head_of (blocks ++ (b ∷ [])) ≡ b.hash
unfolding head_of tip
head_of-append blocks b = rw (tip-append blocks b)

-- The last hash and the next number, read along the blocks.
abbrev pub last_hash : Text → List KrayBlock → Text
last_hash prev [] = prev
last_hash prev (b ∷ blocks) = last_hash b.hash blocks

tip-last :
    (b : KrayBlock) (blocks : List KrayBlock)
    → (t : KrayBlock) × (tip (b ∷ blocks) ≡ some t) × (t.hash ≡ last_hash b.hash blocks)
unfolding tip
tip-last b [] = (b, refl, refl)
tip-last b (c ∷ blocks) = tip-last c blocks

pub head_of-last : (blocks : List KrayBlock) → head_of blocks ≡ last_hash zero_hash blocks
unfolding head_of tip
head_of-last [] = refl
head_of-last (b ∷ blocks) = let (t, e, h) = tip-last b blocks in rw e h

pub record SealCall : Type 0 where
  pub leaves : List Text
  pub from_seq : ℕ
  pub to_seq : ℕ
  pub at : ℕ

-- What a block records, beside its place in the chain.
pub record Content : Type 0 where
  pub from_seq : ℕ
  pub to_seq : ℕ
  pub tx_count : ℕ
  pub merkle_root : Text
  pub at : ℕ

abbrev pub content : KrayBlock → Content
content b = record {
  from_seq = b.body.from_seq;
  to_seq = b.body.to_seq;
  tx_count = b.body.tx_count;
  merkle_root = b.body.merkle_root;
  at = b.body.at;
}

map-append : {A B : Type 0} (f : A → B) (xs ys : List A) → map f (xs ++ ys) ≡ map f xs ++ map f ys
map-append f [] ys = refl
map-append f (x ∷ xs) ys = ap (λ m. f x ∷ m) (map-append f xs ys)

length-append-one :
    (blocks : List KrayBlock) (b : KrayBlock) → length (blocks ++ (b ∷ [])) ≡ suc (length blocks)
length-append-one blocks b = omega (arith, length-append blocks (b ∷ []))

module _ (hash_of : Text → Text) where
  -- Loading is checking: `load` refuses the file exactly when `verify` refuses its blocks.
  load-onto :
      (pre lines : List KrayBlock)
      → load hash_of pre lines ≡ (
          if verify_from hash_of (length pre) (head_of pre) lines
          then some (pre ++ lines)
          else none)
  unfolding load verify_from
  load-onto pre [] = rw (append-nil pre)
  load-onto pre (b ∷ lines) = elim (Bool-cases (follows hash_of (length pre) (head_of pre) b)) [
    | inl e ↦ rw (
      e,
      load-onto (pre ++ (b ∷ [])) lines,
      length-append-one pre b,
      head_of-append pre b,
      append_assoc pre (b ∷ []) lines,
    )
    | inr e ↦ rw e
  ]

  -- A new block goes on.
  verify_from-append :
      (i n : ℕ) (prev : Text) (blocks : List KrayBlock) (b : KrayBlock)
      → n ≡ i + length blocks
      → verify_from hash_of i prev blocks ≡ true
      → follows hash_of n (last_hash prev blocks) b ≡ true
      → verify_from hash_of i prev (blocks ++ (b ∷ [])) ≡ true
  unfolding verify_from
  verify_from-append i n prev [] b en v f = ground (arith, en, f)
  verify_from-append i n prev (a ∷ blocks) b en v f =
      ground (arith, en, v, f, verify_from-append (suc i) n a.hash blocks b)

  next_number-from :
      (i : ℕ) (prev : Text) (b : KrayBlock) (blocks : List KrayBlock)
      → verify_from hash_of i prev (b ∷ blocks) ≡ true
      → next_number (b ∷ blocks) ≡ i + suc (length blocks)
  unfolding next_number verify_from tip follows
  next_number-from i prev b [] v = ground (arith, v)
  next_number-from i prev b (c ∷ blocks) v =
      ground (arith, v, next_number-from (suc i) b.hash c blocks)

  next_number-verify :
      (blocks : List KrayBlock) → verify hash_of blocks ≡ true → next_number blocks ≡ length blocks
  unfolding verify next_number tip
  next_number-verify [] v = refl
  next_number-verify (b ∷ blocks) v = ground (arith, next_number-from 0 zero_hash b blocks v)

  follows-seal_block :
      (blocks : List KrayBlock) (leaves : List Text) (from_seq to_seq at : ℕ)
      → follows hash_of
          (next_number blocks)
          (head_of blocks)
          (seal_block hash_of blocks leaves from_seq to_seq at)
        ≡ true
  unfolding follows seal_block sealed_body
  follows-seal_block blocks leaves from_seq to_seq at = ground (
    arith,
    text_eq_refl (head_of blocks),
    text_eq_refl (seal_block hash_of blocks leaves from_seq to_seq at).hash,
  )

  verify-seal_block :
      (blocks : List KrayBlock) (leaves : List Text) (from_seq to_seq at : ℕ)
      → verify hash_of blocks ≡ true
      → verify hash_of (blocks ++ (seal_block hash_of blocks leaves from_seq to_seq at ∷ [])) ≡ true
  unfolding verify
  verify-seal_block blocks leaves from_seq to_seq at v =
      verify_from-append 0 (next_number blocks) zero_hash blocks _
        (omega (arith, next_number-verify blocks v)) v
        (rw (← head_of-last blocks) (follows-seal_block blocks leaves from_seq to_seq at))

  -- Any number of seals, the first of them onto an empty chain.
  abbrev pub sealed : List SealCall → List KrayBlock → List KrayBlock
  sealed [] blocks = blocks
  sealed (c ∷ calls) blocks =
      sealed calls (blocks ++ (seal_block hash_of blocks c.leaves c.from_seq c.to_seq c.at ∷ []))

  verify-sealed :
      (calls : List SealCall) (blocks : List KrayBlock)
      → verify hash_of blocks ≡ true
      → verify hash_of (sealed calls blocks) ≡ true
  verify-sealed [] blocks v = v
  verify-sealed (c ∷ calls) blocks v =
      verify-sealed calls _ (verify-seal_block blocks c.leaves c.from_seq c.to_seq c.at v)

  -- On any file: the load keeps every block in order if they verify, and refuses to run if they do not.
  pub load-verify :
      (lines : List KrayBlock)
      → load hash_of [] lines ≡ (if verify hash_of lines then some lines else none)
  unfolding verify head_of tip
  load-verify lines = load-onto [] lines

  -- What a seal is asked to record, and what a block has of it.
  abbrev pub asked : SealCall → Content
  asked c = record {
    from_seq = c.from_seq;
    to_seq = c.to_seq;
    tx_count = length c.leaves;
    merkle_root = build_merkle_root hash_of c.leaves;
    at = c.at;
  }

  sealed-contents :
      (calls : List SealCall) (blocks : List KrayBlock)
      → map content (sealed calls blocks) ≡ map content blocks ++ map asked calls
  unfolding seal_block sealed_body
  sealed-contents [] blocks = sym (append-nil (map content blocks))
  sealed-contents (c ∷ calls) blocks =
      let b = seal_block hash_of blocks c.leaves c.from_seq c.to_seq c.at in
      sealed-contents calls (blocks ++ (b ∷ []))
      ∙ (ap (λ m. m ++ map asked calls) (map-append content blocks (b ∷ []))
          ∙ append_assoc (map content blocks) (asked c ∷ []) (map asked calls))

  -- Any number of seals makes a chain that verifies, with one block for each seal, in their order: it
  -- has the range and the time that the seal was given, and the count and the root of its leaves.
  pub sealed_lem :
      (calls : List SealCall)
      → (verify hash_of (sealed calls []) ≡ true)
        × (map content (sealed calls []) ≡ map asked calls)
  unfolding verify verify_from
  sealed_lem calls = (verify-sealed calls [] refl, sealed-contents calls [])
