-- ===== src/BlockReader/Inputs.antt =====
-- Inputs, outputs and witnesses are read back from their encodings.
use blockchain_indexer.Base.{
  ℕ, suc, ◌+◌, ◌^◌, ◌<◌, ◌≡◌, refl, List, [], ◌∷◌, Bytes, length, arith, ltb, All,
}
use blockchain_indexer.External.{Indeterminate}
use blockchain_indexer.Types.{TransactionInput}
use blockchain_indexer.Stream.Reads.{
  Reads, Reads-pure, Reads-map, Reads-bind, Reads-uint, Reads-then,
}
use blockchain_indexer.FileReader.Encode.{read_var_int-encode, read_hash-read, read_string-encode}
use blockchain_indexer.BlockReader.{
  read_input, read_inputs, store_items, read_output, read_outputs, read_witness_items, read_witness,
  read_witnesses,
}
use blockchain_indexer.BlockReader.Serialize.{
  RawInput, RawOutput, InputFits, OutputFits, input_bytes, inputs_bytes, output_bytes,
  outputs_bytes, items_bytes, witness_bytes, witnesses_bytes, plain_input, plain_inputs,
  plain_output, plain_outputs, witness_input, witness_inputs,
}

module _ (junk : Indeterminate) where
  read_input-bytes :
      (i : RawInput) (n : ℕ)
      → InputFits i
      → Reads (read_input junk n) (input_bytes i) (plain_input i n)
  unfolding read_input input_bytes plain_input
  read_input-bytes i n f = Reads-bind _ _ (read_hash-read i.hash f.hash) (
      Reads-bind _ _ (Reads-uint 4 i.txo_index junk.word f.txo_index) (
        Reads-bind _ _ (read_string-encode i.script f.script)
          (Reads-map _ _ (Reads-uint 4 i.sequence junk.word f.sequence))))

  pub read_inputs-bytes :
      (is : List RawInput) (n : ℕ)
      → All InputFits is
      → Reads (read_inputs junk (length is) n) (inputs_bytes is) (plain_inputs is n)
  unfolding read_inputs inputs_bytes plain_inputs
  read_inputs-bytes [] n f = Reads-pure []
  read_inputs-bytes (i ∷ is) n f =
      Reads-bind _ _ (read_input-bytes i n f.0) (Reads-map _ _ (read_inputs-bytes is (n + 1) f.1))

  read_output-bytes :
      (o : RawOutput) (n : ℕ)
      → OutputFits o
      → Reads (read_output junk n) (output_bytes o) (plain_output o n)
  unfolding read_output output_bytes plain_output
  read_output-bytes o n f =
      Reads-bind _ _ (Reads-uint 8 o.value junk.word f.value)
        (Reads-map _ _ (read_string-encode o.script f.script))

  pub read_outputs-bytes :
      (os : List RawOutput) (n : ℕ)
      → All OutputFits os
      → Reads (read_outputs junk (length os) n) (outputs_bytes os) (plain_outputs os n)
  unfolding read_outputs outputs_bytes plain_outputs
  read_outputs-bytes [] n f = Reads-pure []
  read_outputs-bytes (o ∷ os) n f =
      Reads-bind _ _ (read_output-bytes o n f.0) (Reads-map _ _ (read_outputs-bytes os (n + 1) f.1))

read_items-bytes :
    (bs : List Bytes)
    → All (λ (b : Bytes). length b < 2 ^ 64) bs
    → Reads (read_witness_items (length bs)) (items_bytes bs) bs
unfolding read_witness_items items_bytes
read_items-bytes [] f = Reads-pure []
read_items-bytes (b ∷ bs) f =
    Reads-bind _ _ (read_string-encode b f.0) (Reads-map _ _ (read_items-bytes bs f.1))

store_items-bytes :
    (txi : TransactionInput) (bs : List Bytes)
    → All (λ (b : Bytes). length b < 2 ^ 64) bs
    → txi.witness_data ≡ []
    → Reads (store_items txi (length bs)) (items_bytes bs) (record txi { witness_data = bs })
unfolding store_items
store_items-bytes txi [] f e = unfold items_bytes in rw (← e) (Reads-pure txi)
store_items-bytes txi (b ∷ bs) f e =
    Reads-then (ltb 0 (suc (length bs))) _ _ (ground arith)
      (Reads-map _ _ (read_items-bytes (b ∷ bs) f))

read_witness-bytes :
    (i : RawInput) (n : ℕ)
    → InputFits i
    → Reads (read_witness (plain_input i n)) (witness_bytes i) (witness_input i n)
unfolding read_witness witness_bytes witness_input
read_witness-bytes i n f =
    Reads-bind _ _ (read_var_int-encode (length i.witness) f.witness)
      (store_items-bytes (plain_input i n) i.witness f.items (unfold plain_input in refl))

pub read_witnesses-bytes :
    (is : List RawInput) (n : ℕ)
    → All InputFits is
    → Reads (read_witnesses (plain_inputs is n)) (witnesses_bytes is) (witness_inputs is n)
unfolding read_witnesses witnesses_bytes witness_inputs plain_inputs
read_witnesses-bytes [] n f = Reads-pure []
read_witnesses-bytes (i ∷ is) n f =
    Reads-bind _ _ (read_witness-bytes i n f.0)
      (Reads-map _ _ (read_witnesses-bytes is (n + 1) f.1))
