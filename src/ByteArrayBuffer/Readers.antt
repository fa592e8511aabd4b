-- ===== src/ByteArrayBuffer/Readers.antt =====
-- The readers of src/filereader.cpp, and those of the inputs, outputs and witnesses of a transaction,
-- as clients.
use blockchain_indexer.Base.{ℕ, zero, suc, ◌+◌, List, [], ◌∷◌, replicate, ltb, ◌==◌}
use blockchain_indexer.Types.{TransactionInput}
use blockchain_indexer.Stream.{Reader, pure, ◌>>=◌}
use blockchain_indexer.External.{Indeterminate}
use blockchain_indexer.FileReader.{after_prefix, read_var_int, read_hash, read_string}
use blockchain_indexer.BlockReader.{
  read_input, read_inputs, read_output, read_outputs, read_witness_items, store_items, read_witness,
  read_witnesses, read_puts,
}
use blockchain_indexer.ByteArrayBuffer.Follows.{
  Follows, Follows-pure, Follows-if, Follows-bind, Follows-read, Follows-read_uint,
}

Follows-after_prefix : (prefix : ℕ) → Follows (after_prefix prefix)
unfolding after_prefix
Follows-after_prefix prefix = Follows-if (ltb prefix 253) _ _ (Follows-pure prefix) (
    Follows-if (prefix == 253) _ _ (Follows-read_uint 2 0) (
      Follows-if (prefix == 254) _ _ (Follows-read_uint 4 0)
        (Follows-if (prefix == 255) _ _ (Follows-read_uint 8 0) (Follows-pure 0))))

pub Follows-read_var_int : Follows read_var_int
unfolding read_var_int
Follows-read_var_int = Follows-bind _ _ (Follows-read_uint 1 0) Follows-after_prefix

Follows-read_hash : Follows read_hash
unfolding read_hash
Follows-read_hash = Follows-read 32 (replicate 32 0)

Follows-read_string : Follows read_string
unfolding read_string
Follows-read_string = Follows-bind _ _ Follows-read_var_int (λ length.
    Follows-if (ltb 0 length) _ _ (Follows-read length (replicate length 0)) (Follows-pure []))

-- A loop that reads an item and then the others.
Follows-cons {ℓ} :
    {A : Type ℓ} (f : Reader A) (g : Reader (List A))
    → Follows f
    → Follows g
    → Follows (do x ← f; xs ← g; pure (x ∷ xs))
Follows-cons f g hf hg =
    Follows-bind _ _ hf (λ x. Follows-bind _ _ hg (λ xs. Follows-pure (x ∷ xs)))

module _ (junk : Indeterminate) where
  Follows-read_input : (input : ℕ) → Follows (read_input junk input)
  unfolding read_input
  Follows-read_input input = Follows-bind _ _ Follows-read_hash (λ hash.
      Follows-bind _ _ (Follows-read_uint 4 junk.word) (λ txo_index.
        Follows-bind _ _ Follows-read_string (λ script.
          Follows-bind _ _ (Follows-read_uint 4 junk.word) (λ sequence. Follows-pure _))))

  Follows-read_inputs : (count input : ℕ) → Follows (read_inputs junk count input)
  unfolding read_inputs
  Follows-read_inputs zero input = Follows-pure []
  Follows-read_inputs (suc count) input =
      Follows-cons (read_input junk input) (read_inputs junk count (input + 1))
        (Follows-read_input input) (Follows-read_inputs count (input + 1))

  Follows-read_output : (output : ℕ) → Follows (read_output junk output)
  unfolding read_output
  Follows-read_output output =
      Follows-bind _ _ (Follows-read_uint 8 junk.word)
        (λ value. Follows-bind _ _ Follows-read_string (λ script. Follows-pure _))

  Follows-read_outputs : (count output : ℕ) → Follows (read_outputs junk count output)
  unfolding read_outputs
  Follows-read_outputs zero output = Follows-pure []
  Follows-read_outputs (suc count) output =
      Follows-cons (read_output junk output) (read_outputs junk count (output + 1))
        (Follows-read_output output) (Follows-read_outputs count (output + 1))

  pub Follows-read_puts : Follows (read_puts junk)
  unfolding read_puts
  Follows-read_puts = Follows-bind _ _ Follows-read_var_int (λ input_count.
      Follows-bind _ _ (Follows-read_inputs input_count 0) (λ inputs.
        Follows-bind _ _ Follows-read_var_int (λ output_count.
          Follows-bind _ _ (Follows-read_outputs output_count 0)
            (λ outputs. Follows-pure (inputs, outputs)))))

Follows-read_witness_items : (count : ℕ) → Follows (read_witness_items count)
unfolding read_witness_items
Follows-read_witness_items zero = Follows-pure []
Follows-read_witness_items (suc count) =
    Follows-cons read_string (read_witness_items count) Follows-read_string
      (Follows-read_witness_items count)

Follows-store_items :
    (txi : TransactionInput) (witness_items : ℕ) → Follows (store_items txi witness_items)
unfolding store_items
Follows-store_items txi witness_items =
    Follows-if (ltb 0 witness_items) _ _
      (Follows-bind _ _ (Follows-read_witness_items witness_items) (λ items. Follows-pure _))
      (Follows-pure txi)

Follows-read_witness : (txi : TransactionInput) → Follows (read_witness txi)
unfolding read_witness
Follows-read_witness txi = Follows-bind _ _ Follows-read_var_int (Follows-store_items txi)

pub Follows-read_witnesses : (inputs : List TransactionInput) → Follows (read_witnesses inputs)
unfolding read_witnesses
Follows-read_witnesses [] = Follows-pure []
Follows-read_witnesses (txi ∷ inputs) =
    Follows-cons (read_witness txi) (read_witnesses inputs) (Follows-read_witness txi)
      (Follows-read_witnesses inputs)
