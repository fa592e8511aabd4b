-- ===== src/Utility/Hex.antt =====
-- Hexadecimal text of src/utility.cpp: byte order, and reading it back.
use blockchain_indexer.Base.{
  ℕ, zero, suc, ◌%◌, ◌^◌, ◌<◌, ◌≤◌, ◌≡◌, refl, ap, ◌∙◌, true, false, [], ◌∷◌, ◌++◌, reverse, Bytes,
  Str, IsByte, All, length, take, take-length, get_or, arith, ◌==◌, all_below, below-all_below,
  ==_iff,
}
use mathlib.Core.List.{reverse-append}
use blockchain_indexer.Base.Text.{skip_space}
use blockchain_indexer.Utility.{
  hex_byte, hash_to_hex, reverse_hex_loop, hash_to_reverse_hex, strtol16_byte, hex_to_bytes,
}

take-suc : (n : ℕ) (xs : Bytes) → n < length xs → take (suc n) xs ≡ take n xs ++ get_or xs n 0 ∷ []
take-suc zero [] h = absurd (omega arith)
take-suc zero (x ∷ xs) h = refl
take-suc (suc n) [] h = absurd (omega arith)
take-suc (suc n) (x ∷ xs) h = ap (◌∷◌ x) (take-suc n xs (omega arith))

hash_to_hex-cons : (b : ℕ) (bs : Bytes) → hash_to_hex (b ∷ bs) ≡ hex_byte b ++ hash_to_hex bs
unfolding hash_to_hex
hash_to_hex-cons b bs = refl

reverse_hex_loop-take :
    (n : ℕ) (hash : Bytes)
    → n ≤ length hash
    → reverse_hex_loop n hash ≡ hash_to_hex (reverse (take n hash))
unfolding reverse_hex_loop
reverse_hex_loop-take zero hash h = unfold hash_to_hex in refl
reverse_hex_loop-take (suc n) hash h =
    rw (take-suc n hash h, reverse-append, hash_to_hex-cons)
      (ap (λ (s : Str). hex_byte (get_or hash n 0) ++ s)
        (reverse_hex_loop-take n hash (omega arith)))

not_empty :
    (hash : Bytes)
    → 0 < length hash
    → length hash < 2 ^ 32
    → hash_to_reverse_hex hash ≡ reverse_hex_loop (length hash) hash
unfolding hash_to_reverse_hex
not_empty hash h small =
    let some_byte : (length hash == 0) ≡ false = ground arith in
    let kept : length hash % 2 ^ 32 ≡ length hash = omega arith in rw (some_byte, kept) refl

-- The text of a hash is the hexadecimal text of its bytes in reverse.
pub hash_to_reverse_hex-reverse :
    (hash : Bytes) → length hash < 2 ^ 32 → hash_to_reverse_hex hash ≡ hash_to_hex (reverse hash)
hash_to_reverse_hex-reverse [] small = unfold hash_to_reverse_hex hash_to_hex in refl
hash_to_reverse_hex-reverse (x ∷ xs) small =
    not_empty (x ∷ xs) (omega arith) small
    ∙ reverse_hex_loop-take (length (x ∷ xs)) (x ∷ xs) (omega arith)
    ∙ ap (λ (s : Bytes). hash_to_hex (reverse s)) (take-length (x ∷ xs))

byte_table : all_below (λ b. strtol16_byte (hex_byte b) == b) 256 ≡ true
unfolding all_below strtol16_byte hex_byte skip_space
byte_table = refl

strtol16_byte-hex_byte : (b : ℕ) → b < 256 → strtol16_byte (hex_byte b) ≡ b
strtol16_byte-hex_byte b h =
    (==_iff _ b).0 (below-all_below (λ n. strtol16_byte (hex_byte n) == n) 256 b h byte_table)

hex_to_bytes-cons :
    (b : ℕ) (bs : Bytes)
    → hex_to_bytes (hash_to_hex (b ∷ bs))
      ≡ strtol16_byte (hex_byte b) ∷ hex_to_bytes (hash_to_hex bs)
unfolding hex_to_bytes hash_to_hex
hex_to_bytes-cons b bs = unfold hex_byte in refl

-- `hexToBytes` reads back the bytes that `hashToHex` wrote.
pub hex_to_bytes-hash_to_hex :
    (bytes : Bytes) → All IsByte bytes → hex_to_bytes (hash_to_hex bytes) ≡ bytes
hex_to_bytes-hash_to_hex [] h = unfold hex_to_bytes hash_to_hex in refl
hex_to_bytes-hash_to_hex (b ∷ bs) h =
    hex_to_bytes-cons b bs ∙ cc (strtol16_byte-hex_byte b h.0, hex_to_bytes-hash_to_hex bs h.1)
