-- ===== src/Utility/HexText.antt =====
-- Length and characters of the text of a hash.
use blockchain_indexer.Base.{
  ℕ, zero, suc, ◌+◌, ◌/◌, ◌%◌, ◌^◌, ◌<◌, ◌≡◌, Bool, true, false, ◌||◌, ◌&&◌, [], ◌∷◌, Bytes, Str,
  All, IsByte, length, get_or, leb, ◌==◌, arith,
}
use blockchain_indexer.Base.Text.{is_digit}
use blockchain_indexer.Utility.{hex_digit, hex_byte, reverse_hex_loop, hash_to_reverse_hex}

-- Hexadecimal text in small letters.
abbrev pub is_hex : ℕ → Bool
is_hex c = is_digit c || leb b'a' c && leb c b'f'

abbrev pub IsHex : Str → Type 0
IsHex s = All (λ (c : ℕ). is_hex c ≡ true) s

hex_digit-is_hex : (d : ℕ) → d < 16 → is_hex (hex_digit d) ≡ true
unfolding hex_digit
hex_digit-is_hex d h = ground arith

get_or-IsByte : (hash : Bytes) (i : ℕ) → All IsByte hash → get_or hash i 0 < 256
get_or-IsByte [] i a = omega arith
get_or-IsByte (b ∷ hash) zero a = a.0
get_or-IsByte (b ∷ hash) (suc i) a = get_or-IsByte hash i a.1

reverse_hex_loop-IsHex : (n : ℕ) (hash : Bytes) → All IsByte hash → IsHex (reverse_hex_loop n hash)
unfolding reverse_hex_loop hex_byte
reverse_hex_loop-IsHex zero hash a = tt
reverse_hex_loop-IsHex (suc n) hash a =
    let byte = get_or-IsByte hash n a in
    (
      hex_digit-is_hex (get_or hash n 0 / 16) (omega arith),
      (hex_digit-is_hex (get_or hash n 0 % 16) (omega arith), reverse_hex_loop-IsHex n hash a),
    )

length-reverse_hex_loop : (n : ℕ) (hash : Bytes) → length (reverse_hex_loop n hash) ≡ n + n
unfolding reverse_hex_loop hex_byte
length-reverse_hex_loop zero hash = omega arith
length-reverse_hex_loop (suc n) hash = omega (arith, length-reverse_hex_loop n hash)

pub hash_to_reverse_hex-IsHex : (hash : Bytes) → All IsByte hash → IsHex (hash_to_reverse_hex hash)
unfolding hash_to_reverse_hex
hash_to_reverse_hex-IsHex [] a = tt
hash_to_reverse_hex-IsHex (b ∷ hash) a =
    let some_byte : (length (b ∷ hash) == 0) ≡ false = ground arith in
    rw some_byte (reverse_hex_loop-IsHex (length (b ∷ hash) % 2 ^ 32) (b ∷ hash) a)

pub length-hash_to_reverse_hex :
    (hash : Bytes)
    → length hash < 2 ^ 32
    → length (hash_to_reverse_hex hash) ≡ length hash + length hash
unfolding hash_to_reverse_hex
length-hash_to_reverse_hex [] small = omega arith
length-hash_to_reverse_hex (b ∷ hash) small =
    let some_byte : (length (b ∷ hash) == 0) ≡ false = ground arith in
    let kept : length (b ∷ hash) % 2 ^ 32 ≡ length (b ∷ hash) = omega arith in
    rw (some_byte, kept) (length-reverse_hex_loop (length (b ∷ hash)) (b ∷ hash))
