-- ===== src/BlockReader/Serialize.antt =====
-- The transaction format of the protocol, as an encoder: what src/blockreader.cpp must read back.
use blockchain_indexer.Base.{
  ℕ, ◌+◌, ◌%◌, ◌^◌, ◌<◌, ◌&&◌, List, [], ◌∷◌, ◌++◌, Bytes, length, ◌==◌, ◌≡◌, All,
}
use blockchain_indexer.Base.Text.{str_eq}
use blockchain_indexer.Types.{TransactionInput, TransactionOutput}
use blockchain_indexer.Stream.{to_le}
use blockchain_indexer.FileReader.Encode.{encode_var_int, encode_string}
use blockchain_indexer.Utility.{hash_to_reverse_hex}
use blockchain_indexer.BlockReader.{zero_hash}

pub record RawInput : Type 0 where
  pub hash : Bytes
  pub txo_index : ℕ
  pub script : Bytes
  pub sequence : ℕ
  pub witness : List Bytes

pub record RawOutput : Type 0 where
  pub value : ℕ
  pub script : Bytes

pub record RawTransaction : Type 0 where
  pub version : ℕ
  pub inputs : List RawInput
  pub outputs : List RawOutput
  pub lock_time : ℕ

unfoldable pub input_bytes : RawInput → Bytes
input_bytes i = i.hash ++ (to_le 4 i.txo_index ++ (encode_string i.script ++ to_le 4 i.sequence))

unfoldable pub inputs_bytes : List RawInput → Bytes
inputs_bytes [] = []
inputs_bytes (i ∷ is) = input_bytes i ++ inputs_bytes is

unfoldable pub output_bytes : RawOutput → Bytes
output_bytes o = to_le 8 o.value ++ encode_string o.script

unfoldable pub outputs_bytes : List RawOutput → Bytes
outputs_bytes [] = []
outputs_bytes (o ∷ os) = output_bytes o ++ outputs_bytes os

unfoldable pub items_bytes : List Bytes → Bytes
items_bytes [] = []
items_bytes (b ∷ bs) = encode_string b ++ items_bytes bs

unfoldable pub witness_bytes : RawInput → Bytes
witness_bytes i = encode_var_int (length i.witness) ++ items_bytes i.witness

unfoldable pub witnesses_bytes : List RawInput → Bytes
witnesses_bytes [] = []
witnesses_bytes (i ∷ is) = witness_bytes i ++ witnesses_bytes is

-- The inputs and outputs, with their counts.
unfoldable pub body_bytes : RawTransaction → Bytes
body_bytes t =
    encode_var_int (length t.inputs)
    ++ (inputs_bytes t.inputs ++ (encode_var_int (length t.outputs) ++ outputs_bytes t.outputs))

-- The original serialization, which the transaction's id is the hash of.
unfoldable pub original : RawTransaction → Bytes
original t = to_le 4 t.version ++ (body_bytes t ++ to_le 4 t.lock_time)

-- The serialization with the marker, the flag and the witnesses.
unfoldable pub extended : RawTransaction → Bytes
extended t =
    to_le 4 t.version
    ++ ((0 ∷ 1 ∷ []) ++ (body_bytes t ++ (witnesses_bytes t.inputs ++ to_le 4 t.lock_time)))

-- Values in their ranges: what can be written in the format.
pub record InputFits (i : RawInput) : Type 0 where
  pub hash : length i.hash ≡ 32
  pub txo_index : i.txo_index < 256 ^ 4
  pub script : length i.script < 2 ^ 64
  pub sequence : i.sequence < 256 ^ 4
  pub witness : length i.witness < 2 ^ 64
  pub items : All (λ (b : Bytes). length b < 2 ^ 64) i.witness

pub record OutputFits (o : RawOutput) : Type 0 where
  pub value : o.value < 256 ^ 8
  pub script : length o.script < 2 ^ 64

pub record Fits (t : RawTransaction) : Type 0 where
  pub version : t.version < 256 ^ 4
  pub some_input : 0 < length t.inputs
  pub input_count : length t.inputs < 2 ^ 64
  pub inputs : All InputFits t.inputs
  pub output_count : length t.outputs < 2 ^ 64
  pub outputs : All OutputFits t.outputs
  pub lock_time : t.lock_time < 256 ^ 4

-- What the reader must make of an input, without and with its witness.
unfoldable pub plain_input : RawInput → ℕ → TransactionInput
plain_input i n = record {
  index = n % 2 ^ 32;
  tx_hash = hash_to_reverse_hex i.hash;
  txo_index = i.txo_index;
  sequence = i.sequence;
  coinbase = n == 0 && str_eq (hash_to_reverse_hex i.hash) zero_hash && i.txo_index == 4294967295;
  script = i.script;
  witness_data = [];
}

unfoldable pub plain_inputs : List RawInput → ℕ → List TransactionInput
plain_inputs [] n = []
plain_inputs (i ∷ is) n = plain_input i n ∷ plain_inputs is (n + 1)

unfoldable pub witness_input : RawInput → ℕ → TransactionInput
witness_input i n = record (plain_input i n) { witness_data = i.witness }

unfoldable pub witness_inputs : List RawInput → ℕ → List TransactionInput
witness_inputs [] n = []
witness_inputs (i ∷ is) n = witness_input i n ∷ witness_inputs is (n + 1)

unfoldable pub plain_output : RawOutput → ℕ → TransactionOutput
plain_output o n = record { value = o.value; script = o.script; index = n % 2 ^ 32; tx_hash = [] }

unfoldable pub plain_outputs : List RawOutput → ℕ → List TransactionOutput
plain_outputs [] n = []
plain_outputs (o ∷ os) n = plain_output o n ∷ plain_outputs os (n + 1)
