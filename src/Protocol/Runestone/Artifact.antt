-- ===== src/Protocol/Runestone/Artifact.antt =====
-- What a runestone says: the types of runestone.ts. Amounts are u128 numbers.
use kray_node.Base.{ℕ, Bool, Option, List, ◌-◌, ◌^◌}

pub data Flaw : Type 0 where
  edict_output edict_rune_id invalid_script opcode : Flaw
  supply_overflow trailing_integers truncated_field : Flaw
  unrecognized_even_tag unrecognized_flag varint : Flaw

pub record RuneId : Type 0 where
  pub block : ℕ
  pub tx : ℕ

pub record Edict : Type 0 where
  pub id : RuneId
  pub amount : ℕ
  pub output : ℕ

pub record Terms : Type 0 where
  pub amount : Option ℕ
  pub cap : Option ℕ
  pub height_start : Option ℕ
  pub height_end : Option ℕ
  pub offset_start : Option ℕ
  pub offset_end : Option ℕ

-- The symbol is kept as its code point.
pub record Etching : Type 0 where
  pub divisibility : Option ℕ
  pub premine : Option ℕ
  pub rune : Option ℕ
  pub spacers : Option ℕ
  pub symbol : Option ℕ
  pub terms : Option Terms
  pub turbo : Bool

pub record Runestone : Type 0 where
  pub edicts : List Edict
  pub etching : Option Etching
  pub mint : Option RuneId
  pub pointer : Option ℕ

pub record Cenotaph : Type 0 where
  pub flaws : List Flaw
  pub etching : Option ℕ
  pub mint : Option RuneId

pub data Artifact : Type 0 where
  runestone : Runestone → Artifact
  cenotaph : Cenotaph → Artifact

abbrev pub u128_max : ℕ
u128_max = 2 ^ 128 - 1

abbrev pub u64_max : ℕ
u64_max = 2 ^ 64 - 1

abbrev pub u32_max : ℕ
u32_max = 2 ^ 32 - 1
