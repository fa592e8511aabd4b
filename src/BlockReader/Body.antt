-- ===== src/BlockReader/Body.antt =====
-- The inputs, outputs and witnesses of a transaction are read back, with the positions between them.
use blockchain_indexer.Base.{
  ℕ, ◌+◌, ◌≡◌, refl, sym, ap, ◌∙◌, Bool, true, false, List, ◌++◌, Bytes, length, drop, drop-append,
  drop-drop,
}
use blockchain_indexer.External.{Indeterminate}
use blockchain_indexer.Types.{TransactionInput}
use blockchain_indexer.Stream.{Stream, Reader, to_le, tellg}
use blockchain_indexer.Stream.At.{length-to_le}
use blockchain_indexer.Stream.Reads.{Reads, Reads-bind, Reads-map, Reads-uint}
use blockchain_indexer.FileReader.Encode.{read_var_int-encode}
use blockchain_indexer.BlockReader.{Parts, read_puts, read_body}
use blockchain_indexer.BlockReader.Serialize.{
  RawTransaction, Fits, body_bytes, witnesses_bytes, plain_inputs, plain_outputs, witness_inputs,
}
use blockchain_indexer.BlockReader.Inputs.{
  read_inputs-bytes, read_outputs-bytes, read_witnesses-bytes,
}

-- A stream with no flag set.
abbrev pub good : Bytes → ℕ → Stream
good contents position = record {
  contents = contents;
  position = position;
  eof = false;
  fail = false;
}

module _ {ℓ} {A : Type ℓ} {f : Reader A} {bytes : Bytes} {a : A} where
  pub Reads-good :
      Reads f bytes a
      → (c : Bytes) (p : ℕ) (rest : Bytes) → drop p c ≡ bytes ++ rest
      → f (good c p) ≡ (a, good c (p + length bytes))
  Reads-good r c p rest h =
      r.at (good c p) rest (record { no_eof = refl; no_fail = refl; ahead = h })

pub drop-behind :
    (c : Bytes) (p : ℕ) (xs rest : Bytes) → drop p c ≡ xs ++ rest → drop (p + length xs) c ≡ rest
drop-behind c p xs rest h =
    sym (drop-drop p (length xs) c) ∙ ap (drop (length xs)) h ∙ drop-append xs rest

-- What the first pass must read, from the positions of the transaction and of its inputs.
abbrev pub parts_of : RawTransaction → ℕ → ℕ → Bool → List TransactionInput → ℕ → Parts
parts_of t start p segwit inputs end = record {
  segwit = segwit;
  version = t.version;
  inputs = inputs;
  outputs = plain_outputs t.outputs 0;
  lock_time = t.lock_time;
  marks = record {
    start_pos_tx = start;
    start_pos_inputs = p;
    end_pos_outputs = p + length (body_bytes t);
    end_pos_tx = end;
  };
}

module _ (junk : Indeterminate) (t : RawTransaction) (fits : Fits t) where
  pub read_puts-bytes :
      Reads (read_puts junk) (body_bytes t) (plain_inputs t.inputs 0, plain_outputs t.outputs 0)
  unfolding read_puts body_bytes
  read_puts-bytes = Reads-bind _ _ (read_var_int-encode (length t.inputs) fits.input_count) (
      Reads-bind _ _ (read_inputs-bytes junk t.inputs 0 fits.inputs) (
        Reads-bind _ _ (read_var_int-encode (length t.outputs) fits.output_count)
          (Reads-map _ _ (read_outputs-bytes junk t.outputs 0 fits.outputs))))

  module _ (c rest : Bytes) (start p : ℕ) where
    pub read_body-original :
        drop p c ≡ body_bytes t ++ (to_le 4 t.lock_time ++ rest)
        → read_body junk start t.version false (good c p) ≡ (
          parts_of t start p false (plain_inputs t.inputs 0) (p + length (body_bytes t) + 4),
          good c (p + length (body_bytes t) + 4),
        )
    unfolding read_body tellg
    read_body-original h =
        let h1 = drop-behind c p (body_bytes t) _ h in
        rw (Reads-good read_puts-bytes c p _ h) (
          rw
            (Reads-good (Reads-uint 4 t.lock_time junk.word fits.lock_time) c
              (p + length (body_bytes t)) rest h1)
            (rw (length-to_le 4 t.lock_time)))

    pub read_body-extended :
        drop p c ≡ body_bytes t ++ (witnesses_bytes t.inputs ++ (to_le 4 t.lock_time ++ rest))
        → let end = p + length (body_bytes t) + length (witnesses_bytes t.inputs) + 4 in
          read_body junk start t.version true (good c p)
          ≡ (parts_of t start p true (witness_inputs t.inputs 0) end, good c end)
    unfolding read_body tellg
    read_body-extended h =
        let h1 = drop-behind c p (body_bytes t) _ h in
        let p1 = p + length (body_bytes t) in
        let h2 = drop-behind c p1 (witnesses_bytes t.inputs) _ h1 in
        rw (Reads-good read_puts-bytes c p _ h) (
          rw (Reads-good (read_witnesses-bytes t.inputs 0 fits.inputs) c p1 _ h1) (
            rw
              (Reads-good (Reads-uint 4 t.lock_time junk.word fits.lock_time) c
                (p1 + length (witnesses_bytes t.inputs)) rest h2)
              (rw (length-to_le 4 t.lock_time))))
