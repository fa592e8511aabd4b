-- ===== src/Types.antt =====
-- src/blockchaintypes.h: what is kept of blocks and transactions.
use blockchain_indexer.Base.{ℕ, ℤ, Bool, List, Bytes, Str}

pub record ScannedBlock : Type 0 where
  pub file_name : Str
  pub file_position : ℕ
  pub block_size : ℕ
  pub block_hash : Str
  pub previous_block_hash : Str
  pub main_chain : Bool

pub record TransactionOutput : Type 0 where
  pub value : ℕ
  pub script : Bytes
  pub index : ℕ
  pub tx_hash : Str

pub record TransactionInput : Type 0 where
  pub index : ℕ
  pub tx_hash : Str
  pub txo_index : ℕ
  pub sequence : ℕ
  pub coinbase : Bool
  pub script : Bytes
  pub witness_data : List Bytes

pub record Transaction : Type 0 where
  pub inputs : List TransactionInput
  pub outputs : List TransactionOutput
  pub tx_hash : Str
  pub tx_wit_hash : Str
  pub file_position : ℕ
  pub byte_size : ℕ
  pub version : ℕ
  pub lock_time : ℕ

-- `file_position` is an `int` here, where the reader's parameter has 64 bits.
pub record Block : Type 0 where
  pub file_name : Str
  pub file_position : ℤ
  pub block_hash : Str
  pub previous_block_hash : Str
  pub merkle_root : Str
  pub height : ℕ
  pub byte_size : ℕ
  pub time : ℕ
  pub bits : ℕ
  pub nonce : ℕ
  pub version : ℕ
  pub transactions : List Transaction
  pub main_chain : Bool

pub record PotentialDoubleSpend : Type 0 where
  pub tx : Transaction
  pub block : Block

pub record DoubleSpentOutpoint : Type 0 where
  pub outpoint : Str
  pub also_spent_in_tx : Transaction
  pub also_spent_in_block : Block

pub record DoubleSpend : Type 0 where
  pub tx : Transaction
  pub block : Block
  pub outpoints : List DoubleSpentOutpoint

pub record DoubleSpentCoinBase : Type 0 where
  pub tx : Transaction
  pub block : Block
  pub outpoints : List Str
