-- ===== src/Protocol/ClaimBook/Tests.antt =====
-- The theorems on a harvest of two shares and a mint of two pots.
use kray_node.Base.{
  ℕ, zero, suc, ◌+◌, ◌%◌, ◌≤◌, ◌<◌, ◌≡◌, ◌⊎◌, refl, Bool, true, false, ◌&&◌, Option, none, some,
  List, [], ◌∷◌, ◌++◌, ◌==◌, length, get_elem?, All, arith,
}
use kray_node.Base.Text.{Text, js, text_eq}
use kray_node.Base.Map.{text_key, get, set, member, add}
use kray_node.Base.Result.{ok, err}
use kray_node.Protocol.Merkle.{
  MerkleStep, hash_leaf, hash_node, next_level, climb, build_merkle_root, fold_steps,
  verify_merkle_proof,
}
use kray_node.Protocol.Merkle.Collision.{IsWide, Collision}
use kray_node.Protocol.Merkle.Tests.{pad, length-pad}
use kray_node.Protocol.ClaimBook.{
  Share, MintTerms, ClaimBook, Act, open_act, mint_act, take_act, close_act, empty_claims,
  open_claim, open_mint, harvest_of, mint_of, take, close, check_mint, pay_hand, has_taken,
  taken_count, replay, apply, owed_in, AllFresh, already_taken,
}
use kray_node.Protocol.ClaimBook.Valid.{IsValid, empty_claims-IsValid, replay-IsValid}
use kray_node.Protocol.ClaimBook.Once.{take_once}
use kray_node.Protocol.ClaimBook.Owed.{all_come, all_gone, owed_in-replay}
use kray_node.Protocol.ClaimBook.Harvest.{AllNew, AllPaid, pots, hands_paid}
use kray_node.Protocol.ClaimBook.Leaves.{
  is_hash, claim_leaf, claim_root, claim_proof, claim_proves, mint_id, mint_text, all_hashes,
}
use kray_node.Protocol.ClaimBook.Proofs.{claim_proves_sound}
use kray_node.Protocol.ClaimBook.Accepted.{claim_proves-claim_proof}

-- Ten hex letters, padded.
abbrev digits : Text → Text
digits [] = []
digits (c ∷ t) = (b'0' + c % 10) ∷ digits t

abbrev hex_hash : Text → Text
hex_hash t = pad 64 (digits t)

hex_hash-IsWide : (t : Text) → IsWide (hex_hash t)
unfolding IsWide
hex_hash-IsWide t = length-pad 64 (digits t)

all_hex-pad :
    (n : ℕ) (t : Text) → kray_node.Protocol.ClaimBook.Leaves.all_hex (pad n (digits t)) ≡ true
all_hex-pad zero t = refl
all_hex-pad (suc n) [] = all_hex-pad n []
all_hex-pad (suc n) (c ∷ t) = ground (arith, all_hex-pad n t)

hex_hash-is_hash : (t : Text) → is_hash (hex_hash t) ≡ true
unfolding is_hash
hex_hash-is_hash t = ground (arith, length-pad 64 (digits t), all_hex-pad 64 t)

abbrev two_shares : List Share
two_shares = (js "ana", 3) ∷ (js "bo", 4) ∷ []

abbrev two_pots : MintTerms
two_pots = record { per_hand = 5; hands = 2; gate = none }

abbrev root1 : Text
root1 = js "r1"

abbrev season : List Act
season =
    open_act root1 (js "gil") (js "luz") (js "luz") 7 100 false
    ∷ mint_act (js "m1") (js "gil") (js "luz") (js "luz") two_pots 0
    ∷ take_act root1 (js "ana") 3
    ∷ take_act root1 (js "ana") 1
    ∷ take_act (js "m1") (js "bo") 5
    ∷ close_act root1
    ∷ []

season_fresh : AllFresh hex_hash season empty_claims
unfolding apply open_claim get set text_eq harvest_of
season_fresh = (refl, (refl, (tt, (tt, (tt, (tt, tt))))))

replay-IsValid_example : IsValid (replay hex_hash season empty_claims)
replay-IsValid_example =
    replay-IsValid hex_hash season empty_claims season_fresh empty_claims-IsValid

abbrev opened : ClaimBook
opened = (open_claim root1 (js "gil") (js "luz") (js "luz") 7 100 false empty_claims).1

ana_takes : (take hex_hash root1 (js "ana") 3 opened).0 ≡ ok tt
unfolding take open_claim get set text_eq harvest_of check_mint has_taken member
    kray_node.Base.Decimal.decimal
ana_takes = refl

take_once_example :
    let b =
      replay hex_hash
        (take_act root1 (js "bo") 4 ∷ [])
        (take hex_hash root1 (js "ana") 3 opened).1 in
    take hex_hash root1 (js "ana") 1 b ≡ (err already_taken, b)
take_once_example =
    take_once hex_hash root1 (js "ana") 3 1 (take_act root1 (js "bo") 4 ∷ []) opened ana_takes
      (tt, tt)

owed_in-replay_example :
    owed_in (js "luz") (js "luz") none (replay hex_hash season empty_claims)
      + all_gone hex_hash (js "luz") (js "luz") none season empty_claims
    ≡ owed_in (js "luz") (js "luz") none empty_claims
      + all_come hex_hash (js "luz") (js "luz") none season empty_claims
owed_in-replay_example =
    owed_in-replay hex_hash (js "luz") (js "luz") none season empty_claims season_fresh

nothing_live : get root1 empty_claims.live ≡ none
unfolding get
nothing_live = refl

no_mint_live : get (js "m1") empty_claims.live ≡ none
unfolding get
no_mint_live = refl

two_new_hands : AllNew two_shares []
unfolding member add text_eq
two_new_hands = (refl, (refl, tt))

two_new_pots : AllNew (pots two_pots (js "ana" ∷ js "bo" ∷ [])) []
unfolding member add text_eq
two_new_pots = (refl, (refl, tt))

hands_paid_example : AllPaid hex_hash root1 two_shares opened
hands_paid_example =
    hands_paid hex_hash root1 (js "gil") (js "luz") (js "luz") 7 100 false two_shares empty_claims
      empty_claims-IsValid nothing_live two_new_hands (omega arith)

claim_proves-claim_proof_example :
    (steps : List MerkleStep) × (claim_proof hex_hash two_shares 1 ≡ some steps)
    × (claim_proves hex_hash (claim_root hex_hash two_shares) (js "bo") 4 steps ≡ true)
claim_proves-claim_proof_example =
    claim_proves-claim_proof hex_hash hex_hash-is_hash two_shares 1 (js "bo") 4 (omega arith) refl

-- The proof of the second of the two.
abbrev steps_of_bo : List MerkleStep
steps_of_bo =
    record { hash = hash_leaf hex_hash (claim_leaf (js "ana") 3); sibling_is_right = false } ∷ []

steps_of_bo_prove :
    claim_proves hex_hash (claim_root hex_hash two_shares) (js "bo") 4 steps_of_bo ≡ true
unfolding claim_proves claim_root claim_leaf build_merkle_root is_hash all_hashes
    verify_merkle_proof hash_leaf hash_node climb next_level fold_steps text_eq
    kray_node.Base.Decimal.decimal
steps_of_bo_prove = refl

claim_proves_sound_example :
    ((i : ℕ) × (get_elem? two_shares i ≡ some (js "bo", 4))) ⊎ Collision hex_hash hex_hash-IsWide
claim_proves_sound_example =
    claim_proves_sound hex_hash hex_hash-IsWide two_shares (js "bo") 4 steps_of_bo (omega arith)
      steps_of_bo_prove

-- A hash with one value.
abbrev one_hash : Text → Text
one_hash t = pad 64 []

one_hash-IsWide : (t : Text) → IsWide (one_hash t)
unfolding IsWide
one_hash-IsWide t = refl

one_id :
    mint_id one_hash (js "main") (js "gil") (js "luz") (js "luz") 5 2 none 1
    ≡ claim_root one_hash two_shares
unfolding mint_id claim_root build_merkle_root climb next_level hash_leaf hash_node
one_id = refl
