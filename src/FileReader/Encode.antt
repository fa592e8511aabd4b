-- ===== src/FileReader/Encode.antt =====
-- The encodings that src/filereader.cpp reads: compact sizes and strings behind their length.
use blockchain_indexer.Base.{
  ℕ, ◌^◌, ◌<◌, ◌≡◌, refl, [], ◌∷◌, ◌++◌, Bytes, length, replicate, ltb, arith, if◌then◌else◌,
  length-replicate, Bool-cases, inl, inr, true, ltb→lt,
}
use mathlib.Core.List.{append-nil}
use blockchain_indexer.Stream.{read, to_le, pure}
use blockchain_indexer.Stream.Reads.{
  Reads, Reads-then, Reads-pure, Reads-bind, Reads-uint, Reads-read,
}
use blockchain_indexer.FileReader.{after_prefix, read_var_int, read_hash, read_string}

-- The shortest form, as the protocol writes it.
unfoldable pub encode_var_int : ℕ → Bytes
encode_var_int n =
    if ltb n 253
    then to_le 1 n
    else if ltb n (2 ^ 16)
    then to_le 1 253 ++ to_le 2 n
    else if ltb n (2 ^ 32)
    then to_le 1 254 ++ to_le 4 n
    else to_le 1 255 ++ to_le 8 n

unfoldable pub encode_string : Bytes → Bytes
encode_string s = encode_var_int (length s) ++ s

Reads-prefix :
    (p n : ℕ) {ys : Bytes}
    → p < 256
    → Reads (after_prefix p) ys n
    → Reads read_var_int (to_le 1 p ++ ys) n
unfolding read_var_int
Reads-prefix p n b r = Reads-bind _ _ (Reads-uint 1 p 0 b) r

Reads-small : (n : ℕ) → ltb n 253 ≡ true → Reads (after_prefix n) [] n
unfolding after_prefix
Reads-small n e = Reads-then (ltb n 253) _ _ e (Reads-pure n)

Reads-16 : (n : ℕ) → n < 256 ^ 2 → Reads (after_prefix 253) (to_le 2 n) n
unfolding after_prefix
Reads-16 n h = Reads-uint 2 n 0 h

Reads-32 : (n : ℕ) → n < 256 ^ 4 → Reads (after_prefix 254) (to_le 4 n) n
unfolding after_prefix
Reads-32 n h = Reads-uint 4 n 0 h

Reads-64 : (n : ℕ) → n < 256 ^ 8 → Reads (after_prefix 255) (to_le 8 n) n
unfolding after_prefix
Reads-64 n h = Reads-uint 8 n 0 h

-- Every 64-bit number in its shortest encoding is read back, wherever it stands and whatever
-- follows, and exactly its bytes are taken.
pub read_var_int-encode : (n : ℕ) → n < 2 ^ 64 → Reads read_var_int (encode_var_int n) n
unfolding encode_var_int
read_var_int-encode n h = elim (Bool-cases (ltb n 253)) [
  | inl small ↦ rw small (
      rw (append-nil) at
        (Reads-prefix n n (omega (arith, ltb→lt n 253 small)) (Reads-small n small)))
  | inr large ↦ rw large (elim (Bool-cases (ltb n (2 ^ 16))) [
    | inl e ↦ rw e (Reads-prefix 253 n (omega arith) (Reads-16 n (ltb→lt _ _ e)))
    | inr f ↦ rw f (elim (Bool-cases (ltb n (2 ^ 32))) [
      | inl e ↦ rw e (Reads-prefix 254 n (omega arith) (Reads-32 n (ltb→lt _ _ e)))
      | inr g ↦ rw g (Reads-prefix 255 n (omega arith) (Reads-64 n h))
    ])
  ])
]

pub read_hash-read : (hash : Bytes) → length hash ≡ 32 → Reads read_hash hash hash
unfolding read_hash
read_hash-read hash e = Reads-read (replicate 32 0) hash 32 e refl

Reads-body :
    (b : Bytes)
    → Reads (if ltb 0 (length b) then read (length b) (replicate (length b) 0) else pure []) b b
Reads-body [] = Reads-pure []
Reads-body (x ∷ xs) =
    let n = length (x ∷ xs) in
    Reads-then (ltb 0 n) _ _ (ground arith)
      (Reads-read (replicate n 0) (x ∷ xs) n refl (length-replicate n 0))

-- Every byte string shorter than 2 ^ 64 behind its encoded length is read back, and exactly these
-- bytes are taken.
pub read_string-encode : (b : Bytes) → length b < 2 ^ 64 → Reads read_string (encode_string b) b
unfolding read_string encode_string
read_string-encode b h = Reads-bind _ _ (read_var_int-encode (length b) h) (Reads-body b)
