-- ===== src/Examples/Blocks.antt =====
-- Transactions and encodings that the reader takes back.
use blockchain_indexer.Base.{
  ℕ, List, ◌+◌, ◌^◌, ◌<◌, ◌≡◌, refl, [], ◌∷◌, ◌++◌, length, replicate, arith,
}
use blockchain_indexer.Stream.{to_le}
use blockchain_indexer.Stream.Reads.{Reads}
use blockchain_indexer.FileReader.{read_string}
use blockchain_indexer.FileReader.Encode.{encode_var_int, encode_string, read_string-encode}
use blockchain_indexer.Utility.Base58.Number.{Spelled, base58-Spelled}
use blockchain_indexer.BlockReader.{read_transaction}
use blockchain_indexer.BlockReader.Serialize.{
  RawTransaction, RawInput, Fits, original, extended, plain_inputs, witness_inputs, inputs_bytes,
  input_bytes, outputs_bytes, output_bytes, body_bytes, items_bytes, witness_bytes, witnesses_bytes,
}
use blockchain_indexer.BlockReader.Body.{good}
use blockchain_indexer.BlockReader.RoundTrip.{
  expected, read_transaction-original, read_transaction-extended,
}
use blockchain_indexer.Examples.{toy_crypto, some_junk}

abbrev spending : RawInput
spending = record {
  hash = replicate 32 9;
  txo_index = 1;
  script = [];
  sequence = 4294967295;
  witness = (1 ∷ 2 ∷ []) ∷ [];
}

abbrev pub one_payment : RawTransaction
one_payment = record {
  version = 2;
  inputs = spending ∷ [];
  outputs = record { value = 5000; script = 0x51 ∷ [] } ∷ [];
  lock_time = 0;
}

one_payment-Fits : Fits one_payment
one_payment-Fits = record {
  version = omega arith;
  some_input = omega arith;
  input_count = omega arith;
  inputs = (
    record {
      hash = refl;
      txo_index = omega arith;
      script = omega arith;
      sequence = omega arith;
      witness = omega arith;
      items = (omega arith, tt);
    },
    tt,
  );
  output_count = omega arith;
  outputs = (record { value = omega arith; script = omega arith }, tt);
  lock_time = omega arith;
}

pub small_original : 0 + length (original one_payment) < 2 ^ 64
unfolding original body_bytes encode_var_int encode_string inputs_bytes input_bytes outputs_bytes
    output_bytes to_le
small_original = omega arith

small_extended : 0 + length (extended one_payment) < 2 ^ 64
unfolding extended body_bytes encode_var_int encode_string inputs_bytes input_bytes outputs_bytes
    output_bytes to_le witnesses_bytes witness_bytes items_bytes
small_extended = omega arith

read_transaction-original_example :
    read_transaction toy_crypto some_junk (good (original one_payment ++ 3 ∷ []) 0) ≡ (
      expected toy_crypto one_payment (plain_inputs one_payment.inputs 0) (original one_payment) 0,
      good (original one_payment ++ 3 ∷ []) (0 + length (original one_payment)),
    )
read_transaction-original_example =
    read_transaction-original some_junk one_payment (original one_payment ++ 3 ∷ []) (3 ∷ []) 0
      one_payment-Fits toy_crypto refl small_original

read_transaction-extended_example :
    read_transaction toy_crypto some_junk (good (extended one_payment ++ 3 ∷ []) 0) ≡ (
      expected toy_crypto one_payment
          (witness_inputs one_payment.inputs 0)
          (extended one_payment)
          0,
      good (extended one_payment ++ 3 ∷ []) (0 + length (extended one_payment)),
    )
read_transaction-extended_example =
    read_transaction-extended some_junk one_payment (extended one_payment ++ 3 ∷ []) (3 ∷ []) 0
      one_payment-Fits toy_crypto refl small_extended

read_string-encode_example : Reads read_string (encode_string (1 ∷ 2 ∷ 3 ∷ [])) (1 ∷ 2 ∷ 3 ∷ [])
read_string-encode_example = read_string-encode (1 ∷ 2 ∷ 3 ∷ []) (omega arith)

base58-Spelled_example : (ds : List ℕ) × Spelled (0 ∷ 0 ∷ 200 ∷ 7 ∷ []) ds
base58-Spelled_example =
    base58-Spelled (0 ∷ 0 ∷ 200 ∷ 7 ∷ [])
      (omega arith, (omega arith, (omega arith, (omega arith, tt)))) (omega arith)
