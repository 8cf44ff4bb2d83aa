-- ===== src/Protocol/Chain/Tests.antt =====
-- The theorems on a chain of two blocks, under the hash that pads to 64 letters.
use kray_node.Base.{◌≡◌, ◌⊎◌, refl, true, none, some, List, [], ◌∷◌, map, All, if◌then◌else◌}
use kray_node.Base.Text.{js}
use kray_node.Protocol.Chain.{KrayBlock, seal_block, sealed_body, verify, load}
use kray_node.Protocol.Chain.Seal.{SealCall, sealed, load-verify, content, asked, sealed_lem}
use kray_node.Protocol.Chain.Tamper.{IsWideRoot, verify-inj}
use kray_node.Protocol.Merkle.{build_merkle_root}
use kray_node.Protocol.Merkle.Collision.{IsWide, Collision}
use kray_node.Protocol.Merkle.Tests.{toy_hash, toy_hash-IsWide, three}

abbrev two_seals : List SealCall
two_seals =
    record { leaves = three; from_seq = 0; to_seq = 2; at = 1700000000000 }
    ∷ record { leaves = js "d" ∷ []; from_seq = 3; to_seq = 3; at = 1700000600000 }
    ∷ []

abbrev two_blocks : List KrayBlock
two_blocks = sealed toy_hash two_seals []

load-verify_example :
    load toy_hash [] two_blocks ≡ (if verify toy_hash two_blocks then some two_blocks else none)
load-verify_example = load-verify toy_hash two_blocks

sealed_lem_example :
    (verify toy_hash two_blocks ≡ true) × (map content two_blocks ≡ map (asked toy_hash) two_seals)
sealed_lem_example = sealed_lem toy_hash two_seals

two_blocks_wide : All IsWideRoot two_blocks
unfolding IsWideRoot seal_block sealed_body build_merkle_root kray_node.Protocol.Merkle.climb
    kray_node.Protocol.Merkle.next_level kray_node.Protocol.Merkle.hash_leaf
    kray_node.Protocol.Merkle.hash_node IsWide
two_blocks_wide = (refl, (refl, tt))

verify-two_blocks : verify toy_hash two_blocks ≡ true
verify-two_blocks = (sealed_lem toy_hash two_seals).0

verify-inj_example : (two_blocks ≡ two_blocks) ⊎ Collision toy_hash toy_hash-IsWide
verify-inj_example =
    verify-inj toy_hash toy_hash-IsWide two_blocks two_blocks refl two_blocks_wide two_blocks_wide
      verify-two_blocks verify-two_blocks refl
