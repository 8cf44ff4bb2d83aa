-- ===== src/Protocol/ClaimBook/Leaves.antt =====
-- The leaves, the roots and the ids of claims, and the check of a proof (protocol/claim-book.ts).
use kray_node.Base.{
  ℕ, Bool, true, ◌&&◌, ◌||◌, Option, none, some, List, [], ◌∷◌, ◌++◌, map, leb, ◌==◌, length,
}
use kray_node.Base.Text.{Text, js}
use kray_node.Base.Decimal.{decimal, is_digit}
use kray_node.Protocol.Merkle.{MerkleStep, build_merkle_root, merkle_proof, verify_merkle_proof}
use kray_node.Protocol.ClaimBook.{Share}

-- `CLAIM_MAX_HANDS`, `CLAIM_MAX_PROOF`
abbrev pub claim_max_hands : ℕ
claim_max_hands = 100000

abbrev pub claim_max_proof : ℕ
claim_max_proof = 40

unfoldable pub claim_leaf : Text → ℕ → Text
claim_leaf to amount = js "kray-core.claim.leaf.v1|to=" ++ (to ++ (js "|amount=" ++ decimal amount))

abbrev pub leaf_of : Share → Text
leaf_of s = claim_leaf s.0 s.1

-- `/^[0-9a-f]$/`
abbrev pub is_hex_digit : ℕ → Bool
is_hex_digit c = is_digit c || (leb b'a' c && leb c b'f')

abbrev pub all_hex : Text → Bool
all_hex [] = true
all_hex (c ∷ t) = is_hex_digit c && all_hex t

-- `/^[0-9a-f]{64}$/`
unfoldable pub is_hash : Text → Bool
is_hash t = length t == 64 && all_hex t

unfoldable pub all_hashes : List MerkleStep → Bool
all_hashes [] = true
all_hashes (s ∷ steps) = is_hash s.hash && all_hashes steps

unfoldable pub gate_text : Option ℕ → Text
gate_text none = js "none"
gate_text (some star) = js "childOf:" ++ decimal star

unfoldable pub mint_text : Text → Text → Text → Text → ℕ → ℕ → Option ℕ → ℕ → Text
mint_text network giver lane asset per_hand hands gate nonce =
    js "kray-core.mint.id.v1|net="
    ++ (network
        ++ (js "|giver="
            ++ (giver
                ++ (js "|lane="
                    ++ (lane
                        ++ (js "|asset="
                            ++ (asset
                                ++ (js "|perHand="
                                    ++ (decimal per_hand
                                        ++ (js "|hands="
                                            ++ (decimal hands
                                                ++ (js "|gate="
                                                    ++ (gate_text gate
                                                        ++ (js "|nonce="
                                                            ++ decimal nonce))))))))))))))

module _ (hash_of : Text → Text) where
  unfoldable pub mint_id : Text → Text → Text → Text → ℕ → ℕ → Option ℕ → ℕ → Text
  mint_id network giver lane asset per_hand hands gate nonce =
      hash_of (mint_text network giver lane asset per_hand hands gate nonce)

  unfoldable pub claim_root : List Share → Text
  claim_root shares = build_merkle_root hash_of (map leaf_of shares)

  unfoldable pub claim_proof : List Share → ℕ → Option (List MerkleStep)
  claim_proof shares i = merkle_proof hash_of (map leaf_of shares) i

  unfoldable pub claim_proves : Text → Text → ℕ → List MerkleStep → Bool
  claim_proves root to amount steps =
      is_hash root
      && (leb (length steps) claim_max_proof
          && (all_hashes steps && verify_merkle_proof hash_of (claim_leaf to amount) steps root))
