-- ===== src/BlockReader.antt =====
-- src/blockreader.cpp: blocks and transactions read from the coin's block files.
pub mod Inputs
pub mod Body
pub mod Marker
pub mod Serialize
pub mod RoundTrip
pub mod Fields
use blockchain_indexer.Base.{
  ℕ, zero, suc, ◌+◌, ◌-◌, ◌%◌, ◌^◌, Bool, true, false, not, ◌&&◌, List, [], ◌∷◌, ◌++◌, Bytes, Str,
  length, take, replicate, get_or, ltb, ◌==◌, if◌then◌else◌, Result, ok, err, exited, Option, none,
  some, to_int,
}
use blockchain_indexer.Base.Text.{str_eq}
use blockchain_indexer.Types.{TransactionInput, TransactionOutput, Transaction, Block}
use blockchain_indexer.Stream.{
  Stream, Reader, pure, ◌>>=◌, open_stream, read, to_le, read_uint, tellg, seekg_beg, seekg_back,
}
use blockchain_indexer.FileReader.{read_var_int, read_hash, read_string}
use blockchain_indexer.External.{Crypto, Indeterminate}
use blockchain_indexer.Utility.{hash_to_reverse_hex}

abbrev pub zero_hash : Str
zero_hash = replicate 64 b'0'

-- The difference of two stream positions as `uint64_t`.
unfoldable pub sub64 : ℕ → ℕ → ℕ
sub64 a b = (a + 2 ^ 64 - b) % 2 ^ 64

module _ (junk : Indeterminate) where
  unfoldable pub read_input : ℕ → Reader TransactionInput
  read_input input = do
    hash ← read_hash
    txo_index ← read_uint 4 junk.word
    script ← read_string
    sequence ← read_uint 4 junk.word
    pure (record {
      index = input % 2 ^ 32;
      tx_hash = hash_to_reverse_hex hash;
      txo_index = txo_index;
      sequence = sequence;
      coinbase =
          input == 0 && str_eq (hash_to_reverse_hex hash) zero_hash && txo_index == 4294967295;
      script = script;
      witness_data = [];
    })

  -- `count` more inputs, the first of them number `input`.
  unfoldable pub read_inputs : ℕ → ℕ → Reader (List TransactionInput)
  read_inputs zero input = pure []
  read_inputs (suc count) input = do
    txi ← read_input input
    rest ← read_inputs count (input + 1)
    pure (txi ∷ rest)

  -- The hash is not set here.
  unfoldable pub read_output : ℕ → Reader TransactionOutput
  read_output output = do
    value ← read_uint 8 junk.word
    script ← read_string
    pure (record { value = value; script = script; index = output % 2 ^ 32; tx_hash = [] })

  unfoldable pub read_outputs : ℕ → ℕ → Reader (List TransactionOutput)
  read_outputs zero output = pure []
  read_outputs (suc count) output = do
    txo ← read_output output
    rest ← read_outputs count (output + 1)
    pure (txo ∷ rest)

unfoldable pub read_witness_items : ℕ → Reader (List Bytes)
read_witness_items zero = pure []
read_witness_items (suc count) = do
  item ← read_string
  rest ← read_witness_items count
  pure (item ∷ rest)

-- The items of one input: `witnessData` is replaced only if there are some.
unfoldable pub store_items : TransactionInput → ℕ → Reader TransactionInput
store_items txi witness_items =
    if ltb 0 witness_items
    then (do items ← read_witness_items witness_items; pure (record txi { witness_data = items }))
    else pure txi

unfoldable pub read_witness : TransactionInput → Reader TransactionInput
read_witness txi = do witness_items ← read_var_int; store_items txi witness_items

unfoldable pub read_witnesses : List TransactionInput → Reader (List TransactionInput)
read_witnesses [] = pure []
read_witnesses (txi ∷ inputs) = do
  txi' ← read_witness txi
  rest ← read_witnesses inputs
  pure (txi' ∷ rest)

-- The positions that the reader remembers on its way through a transaction.
pub record Marks : Type 0 where
  pub start_pos_tx : ℕ
  pub start_pos_inputs : ℕ
  pub end_pos_outputs : ℕ
  pub end_pos_tx : ℕ

-- The marker of the segwit serialization, or the stream moved back in front of the input count.
unfoldable pub read_marker : Indeterminate → Stream → Bool × Stream
read_marker junk s =
    let (marker, s1) = read 2 (to_le 2 junk.word) s in
    let segwit = get_or marker 0 0 == 0x00 && not (get_or marker 1 0 == 0x00) in
    (segwit, if segwit then s1 else seekg_back 2 s1)

-- What the first pass over a transaction reads.
pub record Parts : Type 0 where
  pub segwit : Bool
  pub version : ℕ
  pub inputs : List TransactionInput
  pub outputs : List TransactionOutput
  pub lock_time : ℕ
  pub marks : Marks

-- The inputs and outputs, each behind their count.
unfoldable pub read_puts : Indeterminate → Reader (List TransactionInput × List TransactionOutput)
read_puts junk = do
  input_count ← read_var_int
  inputs ← read_inputs junk input_count 0
  output_count ← read_var_int
  outputs ← read_outputs junk output_count 0
  pure (inputs, outputs)

-- What stands behind the marker, and the witnesses of a segwit transaction.
unfoldable pub read_body : Indeterminate → ℕ → ℕ → Bool → Reader Parts
read_body junk start_pos_tx version segwit s2 =
    let start_pos_inputs = tellg s2 in
    let ((inputs, outputs), s6) = read_puts junk s2 in
    let (inputs', s7) = if segwit then read_witnesses inputs s6 else (inputs, s6) in
    let (lock_time, s8) = read_uint 4 junk.word s7 in
    (
      record {
        segwit = segwit;
        version = version;
        inputs = inputs';
        outputs = outputs;
        lock_time = lock_time;
        marks = record {
          start_pos_tx = start_pos_tx;
          start_pos_inputs = start_pos_inputs;
          end_pos_outputs = tellg s6;
          end_pos_tx = tellg s8;
        };
      },
      s8,
    )

unfoldable pub read_parts : Indeterminate → Reader Parts
read_parts junk s =
    let (version, s1) = read_uint 4 junk.word s in
    let (segwit, s2) = read_marker junk s1 in read_body junk (tellg s) version segwit s2

module _ (crypto : Crypto) where
  open crypto use {sha256}

  unfoldable pub double_hash : Bytes → Str
  double_hash bytes = hash_to_reverse_hex (sha256 (sha256 bytes))

  -- The second pass: the bytes of the original serialization are read again and hashed, and for
  -- a segwit transaction all of its bytes too. The hashes, and the stream behind the transaction.
  -- The vector `txHashBytes`, whose size is computed in 64 bits. Where it wraps, the reads have failed
  -- and the vector is as short as it was made.
  unfoldable pub tx_hash_bytes : ℕ → Bytes → Bytes → Bytes → Bytes
  tx_hash_bytes txitxo_length version txitxo lock_time =
      take ((4 + txitxo_length + 4) % 2 ^ 64) (version ++ txitxo ++ lock_time)

  unfoldable pub hash_transaction : Bool → Marks → Stream → (Str × Str) × Stream
  hash_transaction segwit m s =
      let txitxo_length = sub64 m.end_pos_outputs m.start_pos_inputs in
      let (version, s1) = read 4 (replicate 4 0) (seekg_beg m.start_pos_tx s) in
      let (txitxo, s2) =
        read txitxo_length (replicate txitxo_length 0) (seekg_beg m.start_pos_inputs s1) in
      let (lock_time, s3) = read 4 (replicate 4 0) (seekg_beg (sub64 m.end_pos_tx 4) s2) in
      let tx_hash = double_hash (tx_hash_bytes txitxo_length version txitxo lock_time) in
      let length = sub64 m.end_pos_tx m.start_pos_tx in
      let (transaction_bytes, s4) =
        read length (replicate length 0) (seekg_beg m.start_pos_tx s3) in
      if segwit
      then ((tx_hash, double_hash transaction_bytes), seekg_beg m.end_pos_tx s4)
      else ((tx_hash, tx_hash), seekg_beg m.end_pos_tx s3)

  module _ (junk : Indeterminate) where
    -- The second pass over what the first has read.
    unfoldable pub read_transaction : Stream → Transaction × Stream
    read_transaction s =
        let (parts, s1) = read_parts junk s in
        let ((tx_hash, tx_wit_hash), s2) = hash_transaction parts.segwit parts.marks s1 in
        (
          record {
            inputs = parts.inputs;
            outputs = parts.outputs;
            tx_hash = tx_hash;
            tx_wit_hash = tx_wit_hash;
            file_position = parts.marks.start_pos_tx;
            byte_size = sub64 parts.marks.end_pos_tx parts.marks.start_pos_tx;
            version = parts.version;
            lock_time = parts.lock_time;
          },
          s2,
        )

    unfoldable pub read_transactions : ℕ → Stream → List Transaction × Stream
    read_transactions zero s = ([], s)
    read_transactions (suc count) s =
        let (tx, s1) = read_transaction s in
        let (rest, s2) = read_transactions count s1 in (tx ∷ rest, s2)

    -- The part of `readBlock` that works on the open file.
    unfoldable pub read_block_at : Str → ℕ → ℕ → Bool → Stream → Block
    read_block_at file_name file_position block_height header_only file =
        let (header, s1) = read 80 (replicate 80 0) (seekg_beg file_position file) in
        let (version, s2) = read_uint 4 junk.word (seekg_beg file_position s1) in
        let (previous, s3) = read_hash s2 in
        let (root, s4) = read_hash s3 in
        let (time, s5) = read_uint 4 junk.word s4 in
        let (bits, s6) = read_uint 4 junk.word s5 in
        let (nonce, s7) = read_uint 4 junk.word s6 in
        let (tx_count, s8) = read_var_int (seekg_beg ((file_position + 80) % 2 ^ 64) s7) in
        let (transactions, s9) = read_transactions tx_count s8 in
        let end_pos_block = if header_only then tellg s7 else tellg s9 in
        record {
          file_name = file_name;
          file_position = to_int file_position;
          block_hash = double_hash header;
          previous_block_hash = hash_to_reverse_hex previous;
          merkle_root = hash_to_reverse_hex root;
          height = block_height;
          byte_size = sub64 end_pos_block file_position;
          time = time;
          bits = bits;
          nonce = nonce;
          version = version;
          transactions = if header_only then [] else transactions;
          main_chain = junk.flag;
        }

-- The name of a file in the blocks directory.
unfoldable pub block_path : Str → Str → Str
block_path blocks_dir file_name = blocks_dir ++ (b'/' ∷ file_name)

-- The file system is a function from paths to contents. A block file that cannot be opened ends
-- the process.
module _ (crypto : Crypto) (junk : Indeterminate) (files : Str → Option Bytes) where
  unfoldable pub read_block : Str → Str → ℕ → ℕ → Bool → Result Block
  read_block blocks_dir file_name file_position block_height header_only =
      elim (files (block_path blocks_dir file_name)) [
        | none ↦ err exited
        | some bytes ↦ ok (
            read_block_at crypto junk file_name file_position block_height header_only
              (open_stream bytes))
      ]

-- The position is not used: the header read is the first of the file, and zeros without a file.
unfoldable pub read_raw_block_header : (Str → Option Bytes) → Str → Str → ℕ → Bytes
read_raw_block_header files blocks_dir file_name file_position =
    elim (files (block_path blocks_dir file_name)) [
      | none ↦ replicate 80 0
      | some bytes ↦ (read 80 (replicate 80 0) (open_stream bytes)).0
    ]
