-- ===== src/Lib.antt =====
-- KRAY node: the verification library of kray-core (apps/kray-core/src).
--
-- The node credits Bitcoin runes to addresses in a book of its own. A transaction on Bitcoin is read by
-- protocol/runestone.ts: `decipher` makes an artifact of its output scripts, and `allocate` says which
-- runes end up in which output. A proven deposit is credited to an address in economics/rune-book.ts,
-- where it is sent, locked for an exit, and burned when the payout on Bitcoin is proven. Runes and KRAY
-- are traded against pools by protocol/amm.ts. protocol/pool-book.ts keeps what owners committed for
-- seasons of payments, and economics/reward.ts splits the fees of a window among those who worked;
-- protocol/poll-book.ts takes one ballot of each address on a poll. protocol/cut-book.ts cuts stars into
-- units of Luz, fungible ones and numbered ones, and protocol/claim-book.ts pays harvests and mints to the
-- hands that prove their share under a Merkle root. protocol/packet-market.ts lists packets for sale, and
-- protocol/star-offers.ts holds bids on stars. The ledger (protocol/ledger.ts) replays a journal of
-- signed acts into these books, and protocol/block.ts seals the journal into a chain of blocks.
-- economics/anchor-pool.ts draws who pays to anchor the chain on Bitcoin, economics/raffle.ts who gets the
-- rest of a donation, and economics/governance.ts counts votes by the voice of economics/honocracy.ts.
--
-- Files:
--   Base/*: lists, texts as lists of UTF-16 code units, maps in insertion order (JavaScript's Map and
--     Set), results with a named refusal and the state-and-refusal monad in which the methods are
--     written, decimal numbers, bits, and insertion sort for `Array.sort`.
--   Economics/RuneKey: runeKey, parseRuneKey, canonicalRuneKey (economics/rune-book.ts).
--   Economics/RuneBook/{NestedMap, State, Moves, Exits, Views}: class RuneBook: its maps; its fields and
--     assertSolvent; deposit, rehome, send; requestExit, armExit, cancelExit, settleExit; balanceOf to
--     solvent. Each method is one function with the source's guards in their order, from the book to its
--     result or refusal and the book that it leaves.
--   Economics/RuneBook/{Solvency, Outcomes, Journal, Flows, Conservation, Once, Tidy, Backing,
--     Effects, Returns}: proofs. Journal replays lists of acts, refused ones included.
--   Economics/Honocracy: the voice of an address (economics/honocracy.ts).
--   Economics/Governance: class Governance (economics/governance.ts): proposals and votes; Ranges has
--     subtractRanges, addRanges, overlaps on spans of stars; OneStar, Accepted, Ranges/Laws, Ranges/Clean
--     are proofs.
--   Economics/Raffle: raffleDraw and raffleWinner (economics/raffle.ts); Fair below it.
--   Economics/AnchorPool: class AnchorPool (economics/anchor-pool.ts); Draw and Ledger below it.
--   Economics/Isqrt: isqrt (economics/presence.ts).
--   Protocol/Runestone/{Artifact, Varint, Name, Payload}: the types, decodeVarint and encodeVarint,
--     runeName, runeValue and spacedRuneName, runestonePayload (protocol/runestone.ts).
--   Protocol/Runestone/Decipher/*: decipher: payload to integers, integers to fields and edicts
--     (Message), fields to the parts of a runestone (Fields), the verdict (Artifacts), its ranges
--     (Bounds).
--   Protocol/Runestone/Allocation and below it: allocate; the sums that its writes keep (Sums,
--     Conservation), where runes land (Places), and that it returns (Total).
--   Protocol/Amm/{Quote, Book}: quoteOut, quoteFirstMint, quoteAdd, quoteRemove; rrPairKey and class
--     AmmBook (protocol/amm.ts); what it shows (Views), the text that is hashed (Commitment),
--     addresses of pools (Address). Protocol/Amm/{Invariant, Shares, Effects, Journal,
--     Negative}: proofs.
--   Economics/Reward: largestRemainderSplit and totalRewarded (economics/reward.ts).
--   Protocol/PoolBook: class PoolBook (protocol/pool-book.ts); Covered and Conservation below it.
--   Protocol/PollBook: class PollBook (protocol/poll-book.ts); Tally below it.
--   Protocol/CutBook: class CutBook (protocol/cut-book.ts), its readers in Views; Rows, Valid, Run,
--     Circulating, Holdings and Refinement below it are proofs. The last one reads the book as a
--     function from a star and an address to an amount.
--   Protocol/Merkle: buildMerkleRoot, merkleProof, verifyMerkleProof (protocol/block.ts); proofs in
--     Levels, Complete, Collision, Sound, Binding below it.
--   Protocol/Chain: blockHash and class KrayChain (protocol/block.ts); Seal and Tamper below it.
--   Protocol/ClaimBook: class ClaimBook (protocol/claim-book.ts); Leaves has claimLeaf, mintId, claimRoot,
--     claimProof, claimProves. Outcome, Valid, Once, Owed, Harvest, Proofs, Accepted are proofs.
--   Protocol/PacketMarket: class PacketMarket (protocol/packet-market.ts); Keys below it.
--   Protocol/StarOffers: class StarOffers (protocol/star-offers.ts); Locked below it.
--   The Tests modules run the code on concrete data and apply the theorems there.
--
-- Numbers: a BigInt that the code tests for being positive is a natural number, and 0 stands for every
-- value that the test refuses. The amounts of ClaimBook and PoolBook, whose sign the reducer tests before
-- it calls, are natural numbers too. AmmBook.burn takes either sign, as in the source. A difference is written where the code has established that it is not
-- negative, or where a lemma shows it. Bytes and code units are natural numbers. The length of an
-- OP_PUSHDATA4 is a signed 32-bit number in JavaScript, and is modelled so.
--
-- Hashes: `createHash('sha256')` in hex is a parameter, a function from text to text. Where a theorem needs
-- it, a hypothesis says that every hash has 64 letters, or that it has 64 hex letters. That SHA-256 has no
-- known collision is not a hypothesis: such a theorem ends in `or a collision is at hand`, two different
-- texts with one hash that its proof computes from the data it is about.
--
-- Fuel: decodeVarint has its 19 rounds from the source. encodeVarint, runeName, runeValue, isqrt and the
-- scan of a payload take as many rounds as their argument allows, which is enough, since each round
-- shrinks what is left or consumes a byte. The loop over the data pushes of a script takes its number of
-- rounds as an argument, since there are scripts on which it does not end. The climb of a Merkle tree takes
-- as many rounds as there are leaves, since each round leaves fewer nodes.
--
-- Not modelled: the texts of errors, the hashed commitments and some of the sorted listings of the other
-- books than that of pools, signatures, files and the network (the blocks of a
-- chain are those that its lines parse to), the pages and the
-- server of apps/kray-net, and the reducer of the ledger, whose gate on transfers (not more than
-- transferableOf) is a hypothesis of the backing law.
pub mod Base
pub mod Economics
pub mod Protocol
