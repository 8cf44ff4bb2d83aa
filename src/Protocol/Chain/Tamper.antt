-- ===== src/Protocol/Chain/Tamper.antt =====
-- The last hash fixes the whole chain (KrayChain of protocol/block.ts).
use kray_node.Base.{
  ℕ, suc, ◌≡◌, ◌⊎◌, refl, ap, sym, ◌∙◌, true, List, [], ◌∷◌, length, All, arith, inl, inr,
}
use kray_node.Base.Text.{Text, js, text_eq_sound}
use kray_node.Base.Decimal.{decimal, decimal_before-inj, decimal-injective}
use kray_node.Protocol.Chain.{
  BlockBody, KrayBlock, part, block_text, zero_hash, block_hash, follows, verify_from, verify,
  head_of,
}
use kray_node.Protocol.Chain.Seal.{last_hash, head_of-last}
use kray_node.Protocol.Merkle.Collision.{IsWide, Collision, append-inj, hash_of-inj}

-- The hash it names and its root are 64 letters, as the builder of the root gives them.
unfoldable pub IsWideBody : BlockBody → Type 0
IsWideBody b = IsWide b.prev_hash × IsWide b.merkle_root

unfoldable pub IsWideRoot : KrayBlock → Type 0
IsWideRoot b = IsWide b.body.merkle_root

wide_part-inj : (t u r s : Text) → IsWide t → IsWide u → part t r ≡ part u s → (t ≡ u) × (r ≡ s)
unfolding IsWide
wide_part-inj t u r s wt wu e =
    let (et, er) = append-inj t (b':' ∷ r) u (b':' ∷ s) (wt ∙ sym wu) e in (et, cc)

decimal-part-inj :
    (m n : ℕ) (r s : Text) → part (decimal m) r ≡ part (decimal n) s → (m ≡ n) × (r ≡ s)
decimal-part-inj m n r s e = decimal_before-inj m n b':' r s refl e

block_text-inj :
    (b c : BlockBody) → IsWideBody b → IsWideBody c → block_text b ≡ block_text c → b ≡ c
unfolding block_text IsWideBody
block_text-inj b c (pb, rb) (pc, rc) e =
    let (_, e1) = append-inj (js "kray-block:") _ (js "kray-block:") _ refl e in
    let (en, e2) = decimal-part-inj b.number c.number _ _ e1 in
    let (ep, e3) = wide_part-inj b.prev_hash c.prev_hash _ _ pb pc e2 in
    let (er, e4) = wide_part-inj b.merkle_root c.merkle_root _ _ rb rc e3 in
    let (ef, e5) = decimal-part-inj b.from_seq c.from_seq _ _ e4 in
    let (et, e6) = decimal-part-inj b.to_seq c.to_seq _ _ e5 in
    let (ex, e7) = decimal-part-inj b.tx_count c.tx_count _ _ e6 in
    let ea = decimal-injective b.at c.at e7 in
    λ i. record {
      number = en i;
      prev_hash = ep i;
      from_seq = ef i;
      to_seq = et i;
      tx_count = ex i;
      merkle_root = er i;
      at = ea i;
    }

length-zero_hash : IsWide zero_hash
unfolding IsWide zero_hash
length-zero_hash = refl

module _ (hash_of : Text → Text) (wide : (t : Text) → IsWide (hash_of t)) where
  follows-facts :
      (i : ℕ) (prev : Text) (b : KrayBlock)
      → follows hash_of i prev b ≡ true
      → (b.body.prev_hash ≡ prev) × (b.hash ≡ block_hash hash_of b.body)
  unfolding follows
  follows-facts i prev b f = (
    text_eq_sound b.body.prev_hash prev (ground (arith, f)),
    text_eq_sound b.hash (block_hash hash_of b.body) (ground (arith, f)),
  )

  verify_from-parts :
      (i : ℕ) (prev : Text) (b : KrayBlock) (blocks : List KrayBlock)
      → verify_from hash_of i prev (b ∷ blocks) ≡ true
      → (follows hash_of i prev b ≡ true) × (verify_from hash_of (suc i) b.hash blocks ≡ true)
  unfolding verify_from
  verify_from-parts i prev b blocks v = (ground (arith, v), ground (arith, v))

  block_hash-IsWide : (b : BlockBody) → IsWide (block_hash hash_of b)
  unfolding block_hash
  block_hash-IsWide b = wide (block_text b)

  -- Two blocks in order with one hash.
  follows-inj :
      (i : ℕ) (p q : Text) (b c : KrayBlock)
      → IsWide p
      → IsWide q
      → IsWideRoot b
      → IsWideRoot c
      → follows hash_of i p b ≡ true
      → follows hash_of i q c ≡ true
      → b.hash ≡ c.hash
      → ((p ≡ q) × (b ≡ c)) ⊎ Collision hash_of wide
  unfolding block_hash IsWideRoot IsWideBody
  follows-inj i p q b c wp wq rb rc fb fc e =
      let (pb, hb) = follows-facts i p b fb in
      let (pc, hc) = follows-facts i q c fc in
      elim (hash_of-inj hash_of wide (block_text b.body) (block_text c.body) (sym hb ∙ e ∙ hc)) [
        | inl same ↦
            let eb = block_text-inj b.body c.body (rw pb wp, rb) (rw pc wq, rc) same in
            inl (sym pb ∙ ap (λ x. x.prev_hash) eb ∙ pc, λ k. record { body = eb k; hash = e k })
        | inr x ↦ inr x
      ]

  verify_from-inj :
      (i : ℕ) (p q : Text) (u v : List KrayBlock)
      → length u ≡ length v
      → IsWide p
      → IsWide q
      → All IsWideRoot u
      → All IsWideRoot v
      → verify_from hash_of i p u ≡ true
      → verify_from hash_of i q v ≡ true
      → last_hash p u ≡ last_hash q v
      → ((p ≡ q) × (u ≡ v)) ⊎ Collision hash_of wide
  verify_from-inj i p q [] [] h wp wq ru rv vu vv e = inl (e, refl)
  verify_from-inj i p q [] (c ∷ v) h wp wq ru rv vu vv e = absurd (omega arith)
  verify_from-inj i p q (b ∷ u) [] h wp wq ru rv vu vv e = absurd (omega arith)
  verify_from-inj i p q (b ∷ u) (c ∷ v) h wp wq (rb, ru) (rc, rv) vu vv e =
      let (fb, tu) = verify_from-parts i p b u vu in
      let (fc, tv) = verify_from-parts i q c v vv in
      let (_, hb) = follows-facts i p b fb in
      let (_, hc) = follows-facts i q c fc in
      elim (verify_from-inj (suc i) b.hash c.hash u v (omega arith)
        (rw hb (block_hash-IsWide b.body)) (rw hc (block_hash-IsWide c.body)) ru rv tu tv e) [
          | inl (eh, eu) ↦ elim (follows-inj i p q b c wp wq rb rc fb fc eh) [
            | inl (ep, eb) ↦ inl (ep, rw (eb, eu))
            | inr x ↦ inr x
          ]
          | inr x ↦ inr x
        ]

  -- The hash has outputs of 64 letters, as have the roots in the blocks. Then two chains of one
  -- length that verify and end in one hash have the same blocks, or two different texts with one
  -- hash are at hand.
  pub verify-inj :
      (u v : List KrayBlock)
      → length u ≡ length v
      → All IsWideRoot u
      → All IsWideRoot v
      → verify hash_of u ≡ true
      → verify hash_of v ≡ true
      → head_of u ≡ head_of v
      → (u ≡ v) ⊎ Collision hash_of wide
  unfolding verify
  verify-inj u v h ru rv vu vv e =
      elim (verify_from-inj 0 zero_hash zero_hash u v h length-zero_hash length-zero_hash ru rv vu
        vv (sym (head_of-last u) ∙ e ∙ head_of-last v)) [ inl (_, eu) ↦ inl eu | inr x ↦ inr x ]
