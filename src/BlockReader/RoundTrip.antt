-- ===== src/BlockReader/RoundTrip.antt =====
-- `readTransaction` reads back every transaction of the protocol's two formats, and computes its
-- two hashes over the bytes that define them.
use blockchain_indexer.Base.{
  ℕ, ◌+◌, ◌-◌, ◌^◌, ◌<◌, ◌≤◌, ◌≡◌, refl, ap, ◌∙◌, true, false, List, [], ◌∷◌, ◌++◌, Bytes, length,
  arith, drop, take, ◌%◌, take-length, length-append, replicate, length-replicate,
}
use mathlib.Core.List.{append_assoc}
use blockchain_indexer.External.{Crypto, Indeterminate}
use blockchain_indexer.Types.{TransactionInput, Transaction}
use blockchain_indexer.Stream.{to_le, read, tellg, seekg_beg}
use blockchain_indexer.Stream.At.{length-to_le}
use blockchain_indexer.Stream.Reads.{Reads-uint, Reads-read}
use blockchain_indexer.BlockReader.{
  Marks, read_parts, tx_hash_bytes, hash_transaction, double_hash, read_transaction, sub64,
}
use blockchain_indexer.BlockReader.Serialize.{
  RawTransaction, Fits, body_bytes, witnesses_bytes, plain_inputs, plain_outputs, witness_inputs,
  original, extended,
}
use blockchain_indexer.BlockReader.Body.{
  good, Reads-good, drop-behind, parts_of, read_body-original, read_body-extended,
}
use blockchain_indexer.BlockReader.Marker.{body-Unmarked, read_marker-none, read_marker-segwit}

sub64-le : (a b : ℕ) → b ≤ a → a < 2 ^ 64 → sub64 a b ≡ a - b
unfolding sub64
sub64-le a b h k = omega arith

-- A second read of `n` bytes at a position where they stand.
reread :
    (c : Bytes) (p q n : ℕ) (front rest : Bytes)
    → drop p c ≡ front ++ rest
    → length front ≡ n
    → read n (replicate n 0) (seekg_beg p (good c q)) ≡ (front, good c (p + n))
unfolding seekg_beg
reread c p q n front rest h e =
    Reads-good (Reads-read (replicate n 0) front n e (length-replicate n 0)) c p rest h
    ∙ ap (λ (k : ℕ). (front, good c (p + k))) e

-- The vector that is hashed holds all three pieces, where its size does not wrap.
tx_hash_bytes-whole :
    (crypto : Crypto) (version body lock : Bytes)
    → length version ≡ 4
    → length lock ≡ 4
    → length body + 8 < 2 ^ 64
    → tx_hash_bytes crypto (length body) version body lock ≡ version ++ body ++ lock
unfolding tx_hash_bytes
tx_hash_bytes-whole crypto version body lock v l small =
    let whole = version ++ body ++ lock in
    let size : (4 + length body + 4) % 2 ^ 64 ≡ length whole = omega (
      arith,
      v,
      l,
      length-append version body,
      length-append (version ++ body) lock,
      length-append version (body ++ lock),
      length-append body lock,
    ) in
    ap (λ (n : ℕ). take n whole) size ∙ take-length whole

module _ (crypto : Crypto) (c : Bytes) (m : Marks) (q : ℕ) where
  -- The second pass over the three pieces of the original serialization.
  hash_original :
      (version body lock rest1 rest2 rest3 : Bytes)
      → drop m.start_pos_tx c ≡ version ++ rest1
      → drop m.start_pos_inputs c ≡ body ++ rest2
      → drop (m.end_pos_tx - 4) c ≡ lock ++ rest3
      → length version ≡ 4
      → sub64 m.end_pos_outputs m.start_pos_inputs ≡ length body
      → sub64 m.end_pos_tx 4 ≡ m.end_pos_tx - 4
      → length lock ≡ 4
      → length body + 8 < 2 ^ 64
      → hash_transaction crypto false m (good c q) ≡ (
        (
          double_hash crypto (version ++ body ++ lock),
          double_hash crypto (version ++ body ++ lock),
        ),
        good c m.end_pos_tx,
      )
  unfolding hash_transaction
  hash_original version body lock rest1 rest2 rest3 h1 h2 h3 l1 l2 e l3 small =
      rw (l2, e, reread c m.start_pos_tx q 4 version rest1 h1 l1)
        (rw (reread c m.start_pos_inputs (m.start_pos_tx + 4) (length body) body rest2 h2 refl) (
          rw (reread c (m.end_pos_tx - 4) (m.start_pos_inputs + length body) 4 lock rest3 h3 l3) (
            rw (tx_hash_bytes-whole crypto version body lock l1 l3 small)
              (unfold seekg_beg in refl))))

  hash_extended :
      (version body lock whole rest1 rest2 rest3 rest4 : Bytes)
      → drop m.start_pos_tx c ≡ version ++ rest1
      → drop m.start_pos_inputs c ≡ body ++ rest2
      → drop (m.end_pos_tx - 4) c ≡ lock ++ rest3
      → drop m.start_pos_tx c ≡ whole ++ rest4
      → length version ≡ 4
      → sub64 m.end_pos_outputs m.start_pos_inputs ≡ length body
      → sub64 m.end_pos_tx 4 ≡ m.end_pos_tx - 4
      → length lock ≡ 4
      → sub64 m.end_pos_tx m.start_pos_tx ≡ length whole
      → length body + 8 < 2 ^ 64
      → hash_transaction crypto true m (good c q) ≡ (
        (double_hash crypto (version ++ body ++ lock), double_hash crypto whole),
        good c m.end_pos_tx,
      )
  unfolding hash_transaction
  hash_extended version body lock whole rest1 rest2 rest3 rest4 h1 h2 h3 h4 l1 l2 e l3 l4 small =
      rw (l2, e, l4, reread c m.start_pos_tx q 4 version rest1 h1 l1)
        (rw (reread c m.start_pos_inputs (m.start_pos_tx + 4) (length body) body rest2 h2 refl) (
          rw (reread c (m.end_pos_tx - 4) (m.start_pos_inputs + length body) 4 lock rest3 h3 l3) (
            rw (reread c m.start_pos_tx (m.end_pos_tx - 4 + 4) (length whole) whole rest4 h4 refl) (
              rw (tx_hash_bytes-whole crypto version body lock l1 l3 small)
                (unfold seekg_beg in refl)))))

drop-at :
    (c : Bytes) (p q : ℕ) (xs rest : Bytes)
    → drop p c ≡ xs ++ rest
    → q ≡ p + length xs
    → drop q c ≡ rest
drop-at c p q xs rest h e = rw e (drop-behind c p xs rest h)

-- What `readTransaction` must return for a transaction at position `p`.
abbrev pub expected : Crypto → RawTransaction → List TransactionInput → Bytes → ℕ → Transaction
expected crypto t inputs bytes p = record {
  inputs = inputs;
  outputs = plain_outputs t.outputs 0;
  tx_hash = double_hash crypto (original t);
  tx_wit_hash = double_hash crypto bytes;
  file_position = p;
  byte_size = length bytes;
  version = t.version;
  lock_time = t.lock_time;
}

length-original : (t : RawTransaction) → length (original t) ≡ 4 + length (body_bytes t) + 4
unfolding original
length-original t = omega (
  arith,
  length-append (to_le 4 t.version) (body_bytes t ++ to_le 4 t.lock_time),
  length-append (body_bytes t) (to_le 4 t.lock_time),
  length-to_le 4 t.version,
  length-to_le 4 t.lock_time,
)

pieces-original :
    (t : RawTransaction) → to_le 4 t.version ++ body_bytes t ++ to_le 4 t.lock_time ≡ original t
unfolding original
pieces-original t = append_assoc (to_le 4 t.version) (body_bytes t) (to_le 4 t.lock_time)

original-append :
    (t : RawTransaction) (rest : Bytes)
    → original t ++ rest ≡ to_le 4 t.version ++ (body_bytes t ++ (to_le 4 t.lock_time ++ rest))
unfolding original
original-append t rest = simp append_assoc

length-extended :
    (t : RawTransaction)
    → length (extended t) ≡ 4 + 2 + length (body_bytes t) + length (witnesses_bytes t.inputs) + 4
unfolding extended
length-extended t = omega (
  arith,
  length-append (to_le 4 t.version)
      ((0 ∷ 1 ∷ []) ++ (body_bytes t ++ (witnesses_bytes t.inputs ++ to_le 4 t.lock_time))),
  length-append (body_bytes t) (witnesses_bytes t.inputs ++ to_le 4 t.lock_time),
  length-append (witnesses_bytes t.inputs) (to_le 4 t.lock_time),
  length-to_le 4 t.version,
  length-to_le 4 t.lock_time,
)

extended-append :
    (t : RawTransaction) (rest : Bytes)
    → extended t ++ rest
      ≡ to_le 4 t.version
        ++ ((0 ∷ 1 ∷ [])
            ++ (body_bytes t ++ (witnesses_bytes t.inputs ++ (to_le 4 t.lock_time ++ rest))))
unfolding extended
extended-append t rest = simp append_assoc

size_of : (end p n : ℕ) → end ≡ p + n → end < 2 ^ 64 → sub64 end p ≡ n
size_of end p n e fit = sub64-le end p (omega arith) fit ∙ omega arith

module _ (junk : Indeterminate) (t : RawTransaction) (c rest : Bytes) (p : ℕ) (fits : Fits t) where
  read_parts-original :
      drop p c ≡ to_le 4 t.version ++ (body_bytes t ++ (to_le 4 t.lock_time ++ rest))
      → let end = p + 4 + length (body_bytes t) + 4 in
        read_parts junk (good c p)
        ≡ (parts_of t p (p + 4) false (plain_inputs t.inputs 0) end, good c end)
  unfolding read_parts tellg
  read_parts-original h =
      let h1 =
        drop-at c p (p + 4) (to_le 4 t.version) _ h (omega (arith, length-to_le 4 t.version)) in
      rw
        (
          Reads-good (Reads-uint 4 t.version junk.word fits.version) c p _ h,
          length-to_le 4 t.version,
        )
        (rw (read_marker-none junk c (p + 4) (rw h1 (body-Unmarked t _ fits)))
          (read_body-original junk t fits c rest p (p + 4) h1))

  read_parts-extended :
      drop p c
        ≡ to_le 4 t.version
          ++ ((0 ∷ 1 ∷ [])
              ++ (body_bytes t ++ (witnesses_bytes t.inputs ++ (to_le 4 t.lock_time ++ rest))))
      → let end = p + 4 + 2 + length (body_bytes t) + length (witnesses_bytes t.inputs) + 4 in
        read_parts junk (good c p)
        ≡ (parts_of t p (p + 4 + 2) true (witness_inputs t.inputs 0) end, good c end)
  unfolding read_parts tellg
  read_parts-extended h =
      let h1 =
        drop-at c p (p + 4) (to_le 4 t.version) _ h (omega (arith, length-to_le 4 t.version)) in
      let h2 = drop-behind c (p + 4) (0 ∷ 1 ∷ []) _ h1 in
      rw
        (
          Reads-good (Reads-uint 4 t.version junk.word fits.version) c p _ h,
          length-to_le 4 t.version,
        )
        (rw (read_marker-segwit junk c (p + 4) _ h1)
          (read_body-extended junk t fits c rest p (p + 4 + 2) h2))

  module _ (crypto : Crypto) where
    -- A transaction written in the original format, its values in the ranges of the format, is read
    -- back whole, wherever it stands in the stream and whatever follows it, if it ends before 2 ^
    -- 64; both hashes are over exactly its bytes, and the stream is left behind it.
    pub read_transaction-original :
        drop p c ≡ original t ++ rest
        → p + length (original t) < 2 ^ 64
        → read_transaction crypto junk (good c p) ≡ (
          expected crypto t (plain_inputs t.inputs 0) (original t) p,
          good c (p + length (original t)),
        )
    unfolding read_transaction
    read_transaction-original h b =
        let version = to_le 4 t.version in
        let body = body_bytes t in
        let lock = to_le 4 t.lock_time in
        let end = p + 4 + length body + 4 in
        let h0 : drop p c ≡ version ++ (body ++ (lock ++ rest)) = h ∙ original-append t rest in
        let lv : length version ≡ 4 = length-to_le 4 t.version in
        let ll : length lock ≡ 4 = length-to_le 4 t.lock_time in
        let total : length (original t) ≡ 4 + length body + 4 = length-original t in
        let fit : end < 2 ^ 64 = omega (arith, total) in
        let ends : end ≡ p + length (original t) = omega (arith, total) in
        let h1 = drop-at c p (p + 4) version _ h0 (omega arith) in
        let h2 = drop-at c (p + 4) (end - 4) body _ h1 (omega arith) in
        let marks = (parts_of t p (p + 4) false (plain_inputs t.inputs 0) end).marks in
        rw (read_parts-original h0) (
          rw
            (hash_original crypto c marks end version body lock _ _ rest h0 h1 h2 lv
              (sub64-le (p + 4 + length body) (p + 4) (omega arith) (omega arith) ∙ omega arith)
              (sub64-le end 4 (omega arith) fit) ll (omega (arith, fit)))
            (rw (pieces-original t, size_of end p (length (original t)) ends fit, ends)))

    -- A transaction written in the segwit format, its values in the ranges of the format, is read
    -- back whole, wherever it stands in the stream and whatever follows it, if it ends before 2 ^
    -- 64: inputs with their witnesses, outputs, version, lock time, position and size. The id is
    -- the hash of the original serialization, the witness hash that of all its bytes, and the
    -- stream is left behind it.
    pub read_transaction-extended :
        drop p c ≡ extended t ++ rest
        → p + length (extended t) < 2 ^ 64
        → read_transaction crypto junk (good c p) ≡ (
          expected crypto t (witness_inputs t.inputs 0) (extended t) p,
          good c (p + length (extended t)),
        )
    unfolding read_transaction
    read_transaction-extended h b =
        let version = to_le 4 t.version in
        let body = body_bytes t in
        let lock = to_le 4 t.lock_time in
        let witnesses = witnesses_bytes t.inputs in
        let end = p + 4 + 2 + length body + length witnesses + 4 in
        let h0 = h ∙ extended-append t rest in
        let lv : length version ≡ 4 = length-to_le 4 t.version in
        let ll : length lock ≡ 4 = length-to_le 4 t.lock_time in
        let total = length-extended t in
        let fit : end < 2 ^ 64 = omega (arith, total) in
        let ends : end ≡ p + length (extended t) = omega (arith, total) in
        let h1 = drop-at c p (p + 4) version _ h0 (omega arith) in
        let h2 = drop-behind c (p + 4) (0 ∷ 1 ∷ []) _ h1 in
        let h3 = drop-behind c (p + 4 + 2) body _ h2 in
        let h4 = drop-at c (p + 4 + 2 + length body) (end - 4) witnesses _ h3 (omega arith) in
        let marks = (parts_of t p (p + 4 + 2) true (witness_inputs t.inputs 0) end).marks in
        rw (read_parts-extended h0) (
          rw
            (hash_extended crypto c marks end version body lock (extended t) _ _ rest rest h0 h2 h4
              h lv
              (sub64-le (p + 4 + 2 + length body) (p + 4 + 2) (omega arith) (omega arith)
                ∙ omega arith)
              (sub64-le end 4 (omega arith) fit) ll (size_of end p (length (extended t)) ends fit)
              (omega (arith, fit)))
            (rw (pieces-original t, size_of end p (length (extended t)) ends fit, ends)))
