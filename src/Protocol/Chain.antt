-- ===== src/Protocol/Chain.antt =====
-- The chain of sealed blocks: KrayChain of protocol/block.ts. The file, its lines and their JSON are
-- not modelled: `load` starts from the blocks that the lines parse to, and `seal_block` ends with the
-- block that is written.
use kray_node.Base.{
  ℕ, zero, suc, ◌+◌, ◌≡◌, Bool, true, false, ◌&&◌, Option, none, some, List, [], ◌∷◌, ◌++◌, ◌==◌,
  if◌then◌else◌, length, get_elem?,
}
use kray_node.Base.Text.{Text, js, text_eq}
use kray_node.Base.Decimal.{decimal}
use kray_node.Protocol.Merkle.{build_merkle_root}
pub mod Seal
pub mod Tamper
mod Tests

-- `'0'.repeat(64)`
abbrev repeat_letter : ℕ → ℕ → Text
repeat_letter c zero = []
repeat_letter c (suc n) = c ∷ repeat_letter c n

unfoldable pub zero_hash : Text
zero_hash = repeat_letter b'0' 64

pub record BlockBody : Type 0 where
  pub number : ℕ
  pub prev_hash : Text
  pub from_seq : ℕ
  pub to_seq : ℕ
  pub tx_count : ℕ
  pub merkle_root : Text
  pub at : ℕ

pub record KrayBlock : Type 0 where
  pub body : BlockBody
  pub hash : Text

abbrev pub part : Text → Text → Text
part t rest = t ++ (b':' ∷ rest)

unfoldable pub block_text : BlockBody → Text
block_text b =
    js "kray-block:"
    ++ part (decimal b.number) (
        part b.prev_hash (
          part b.merkle_root (
            part (decimal b.from_seq)
              (part (decimal b.to_seq) (part (decimal b.tx_count) (decimal b.at))))))

unfoldable pub tip : List KrayBlock → Option KrayBlock
tip [] = none
tip (b ∷ []) = some b
tip (b ∷ c ∷ blocks) = tip (c ∷ blocks)

abbrev pub hash_or_zero : Option KrayBlock → Text
hash_or_zero none = zero_hash
hash_or_zero (some b) = b.hash

abbrev pub number_after : Option KrayBlock → ℕ
number_after none = 0
number_after (some b) = b.body.number + 1

-- `head`
unfoldable pub head_of : List KrayBlock → Text
head_of blocks = hash_or_zero (tip blocks)

unfoldable pub next_number : List KrayBlock → ℕ
next_number blocks = number_after (tip blocks)

module _ (hash_of : Text → Text) where
  unfoldable pub block_hash : BlockBody → Text
  block_hash b = hash_of (block_text b)

  -- One block is the one expected next.
  unfoldable pub follows : ℕ → Text → KrayBlock → Bool
  follows i prev b =
      b.body.number == i && (text_eq b.body.prev_hash prev && text_eq b.hash (block_hash b.body))

  unfoldable pub verify_from : ℕ → Text → List KrayBlock → Bool
  verify_from i prev [] = true
  verify_from i prev (b ∷ blocks) =
      if follows i prev b then verify_from (suc i) b.hash blocks else false

  unfoldable pub verify : List KrayBlock → Bool
  verify blocks = verify_from 0 zero_hash blocks

  -- The parsed blocks, oldest first, onto those read before; `none` is the refusal to run.
  unfoldable pub load : List KrayBlock → List KrayBlock → Option (List KrayBlock)
  load blocks [] = some blocks
  load blocks (b ∷ lines) =
      if follows (length blocks) (head_of blocks) b then load (blocks ++ (b ∷ [])) lines else none

  unfoldable pub sealed_body : List KrayBlock → List Text → ℕ → ℕ → ℕ → BlockBody
  sealed_body blocks leaves from_seq to_seq at = record {
    number = next_number blocks;
    prev_hash = head_of blocks;
    from_seq = from_seq;
    to_seq = to_seq;
    tx_count = length leaves;
    merkle_root = build_merkle_root hash_of leaves;
    at = at;
  }

  -- The block that is appended to the list.
  unfoldable pub seal_block : List KrayBlock → List Text → ℕ → ℕ → ℕ → KrayBlock
  seal_block blocks leaves from_seq to_seq at =
      let body = sealed_body blocks leaves from_seq to_seq at in
      record { body = body; hash = block_hash body }
