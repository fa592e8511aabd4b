-- ===== src/BlockReader/Marker.antt =====
-- The segwit marker is recognised, and taken for no marker in front of an input count.
use blockchain_indexer.Base.{
  ℕ, ◌+◌, ◌%◌, ◌/◌, ◌^◌, ◌<◌, ◌≡◌, ◌≢◌, refl, true, false, List, [], ◌∷◌, ◌++◌, Bytes, length,
  arith, ltb, drop, All, Bool-cases, inl, inr, ltb→lt,
}
use mathlib.Core.List.{append_assoc}
use blockchain_indexer.External.{Indeterminate}
use blockchain_indexer.Stream.{to_le, seekg_back}
use blockchain_indexer.Stream.At.{length-to_le}
use blockchain_indexer.Stream.Reads.{Reads-read}
use blockchain_indexer.FileReader.Encode.{encode_var_int}
use blockchain_indexer.BlockReader.{read_marker}
use blockchain_indexer.BlockReader.Body.{good, Reads-good}
use blockchain_indexer.BlockReader.Serialize.{
  RawInput, RawTransaction, InputFits, Fits, input_bytes, inputs_bytes, outputs_bytes, body_bytes,
}

-- Two bytes and more, the first of them not 0.
pub record Unmarked (bytes : Bytes) : Type 0 where
  pub first : ℕ
  pub second : ℕ
  pub more : Bytes
  pub splits : bytes ≡ first ∷ second ∷ more
  pub first-ne-zero : first ≢ 0

Unmarked-encode :
    (n y : ℕ) (ys : Bytes) → 0 < n → n < 2 ^ 64 → Unmarked (encode_var_int n ++ y ∷ ys)
unfolding encode_var_int to_le
Unmarked-encode n y ys pos h = elim (Bool-cases (ltb n 253)) [
  | inl e ↦ record {
    first = n % 256;
    second = y;
    more = ys;
    splits = rw e;
    first-ne-zero = omega (arith, ltb→lt n 253 e);
  }
  | inr e ↦ elim (Bool-cases (ltb n (2 ^ 16))) [
    | inl e1 ↦ record {
      first = 253;
      second = n % 256;
      more = n / 256 % 256 ∷ y ∷ ys;
      splits = rw (e, e1);
      first-ne-zero = omega arith;
    }
    | inr e1 ↦ elim (Bool-cases (ltb n (2 ^ 32))) [
      | inl e2 ↦ record {
        first = 254;
        second = n % 256;
        more = to_le 3 (n / 256) ++ y ∷ ys;
        splits = rw (e, e1, e2);
        first-ne-zero = omega arith;
      }
      | inr e2 ↦ record {
        first = 255;
        second = n % 256;
        more = to_le 7 (n / 256) ++ y ∷ ys;
        splits = rw (e, e1, e2);
        first-ne-zero = omega arith;
      }
    ]
  ]
]

split_first : (xs : Bytes) → 0 < length xs → (y : ℕ) × (ys : Bytes) × (xs ≡ y ∷ ys)
split_first [] h = absurd (omega arith)
split_first (y ∷ ys) h = (y, ys, refl)

-- The bytes of the inputs begin with the first byte of a hash.
inputs_head :
    (is : List RawInput) (rest : Bytes)
    → 0 < length is
    → All InputFits is
    → (y : ℕ) × (ys : Bytes) × (inputs_bytes is ++ rest ≡ y ∷ ys)
unfolding inputs_bytes input_bytes
inputs_head [] rest h f = absurd (omega arith)
inputs_head (i ∷ is) rest h f =
    let (y, ys, e) = split_first i.hash (omega (arith, f.0.hash)) in rw e (y, _, refl)

pub body-Unmarked : (t : RawTransaction) (rest : Bytes) → Fits t → Unmarked (body_bytes t ++ rest)
unfolding body_bytes
body-Unmarked t rest f =
    let tail = encode_var_int (length t.outputs) ++ (outputs_bytes t.outputs ++ rest) in
    let (y, ys, e) = inputs_head t.inputs tail f.some_input f.inputs in
    simp append_assoc (rw e (Unmarked-encode (length t.inputs) y ys f.some_input f.input_count))

pub read_marker-none :
    (junk : Indeterminate) (c : Bytes) (p : ℕ)
    → Unmarked (drop p c)
    → read_marker junk (good c p) ≡ (false, good c p)
unfolding read_marker seekg_back
read_marker-none junk c p u =
    rw
      (Reads-good
        (Reads-read (to_le 2 junk.word) (u.first ∷ u.second ∷ []) 2 refl (length-to_le 2 junk.word))
        c p u.more u.splits)
      (ground arith)

pub read_marker-segwit :
    (junk : Indeterminate) (c : Bytes) (p : ℕ) (rest : Bytes)
    → drop p c ≡ (0 ∷ 1 ∷ []) ++ rest
    → read_marker junk (good c p) ≡ (true, good c (p + 2))
unfolding read_marker
read_marker-segwit junk c p rest h = rw (
    Reads-good (Reads-read (to_le 2 junk.word) (0 ∷ 1 ∷ []) 2 refl (length-to_le 2 junk.word)) c p
      rest h)
