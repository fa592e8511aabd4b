-- ===== src/Utility.antt =====
-- src/utility.cpp: hexadecimal text, Base58 and the addresses of the coin.
pub mod Hex
pub mod Base58
pub mod HexText
use blockchain_indexer.Base.{
  ℕ, zero, suc, ◌+◌, ◌-◌, ◌*◌, ◌/◌, ◌%◌, ◌^◌, min, Bool, true, false, not, ◌&&◌, ◌||◌, List, [],
  ◌∷◌, ◌++◌, map, reverse, Bytes, Str, length, take, drop, replicate, get_or, ltb, leb, ◌==◌,
  if◌then◌else◌, Result, ok, err, out_of_range, length_error, assertion, ℤ, pos, negsuc, to_int,
  ◌>>=◌,
}
use blockchain_indexer.Base.Text.{text, skip_space}
use blockchain_indexer.External.{Crypto, CoinParams}

-- A digit that `hex` prints.
unfoldable pub hex_digit : ℕ → ℕ
hex_digit d = if ltb d 10 then 48 + d else 87 + d

-- `hex << setw(2) << setfill('0')` of one byte.
unfoldable pub hex_byte : ℕ → Str
unfolding hex_digit
hex_byte b = hex_digit (b / 16) ∷ hex_digit (b % 16) ∷ []

unfoldable pub hash_to_hex : Bytes → Str
unfolding hex_byte
hash_to_hex [] = []
hash_to_hex (b ∷ bs) = hex_byte b ++ hash_to_hex bs

-- The loop `for(uint i = hash.size(); i-- > 0;)`, from a size converted to 32 bits.
unfoldable pub reverse_hex_loop : ℕ → Bytes → Str
unfolding hex_byte
reverse_hex_loop zero hash = []
reverse_hex_loop (suc i) hash = hex_byte (get_or hash i 0) ++ reverse_hex_loop i hash

unfoldable pub hash_to_reverse_hex : Bytes → Str
unfolding reverse_hex_loop
hash_to_reverse_hex hash =
    if length hash == 0 then [] else reverse_hex_loop (length hash % 2 ^ 32) hash

-- The value of a hexadecimal digit, and 16 for any other character.
unfoldable pub hex_value : ℕ → ℕ
hex_value c =
    if leb b'0' c && leb c b'9'
    then c - 48
    else if leb b'a' c && leb c b'f'
    then c - 87
    else if leb b'A' c && leb c b'F'
    then c - 55
    else 16

unfoldable pub hex_digits : ℕ → Str → ℕ
unfolding hex_value
hex_digits acc [] = acc
hex_digits acc (c ∷ cs) =
    let rest = hex_digits (acc * 16 + hex_value c) cs in if ltb (hex_value c) 16 then rest else acc

-- An optional `0x`, which counts only if a digit follows it.
unfoldable pub hex_prefix : Str → Str
unfolding hex_value
hex_prefix (a ∷ b ∷ c ∷ cs) =
    if a == b'0' && (b == b'x' || b == b'X') && ltb (hex_value c) 16 then c ∷ cs else a ∷ b ∷ c ∷ cs
hex_prefix s = s

-- `(unsigned char) strtol(s, NULL, 16)`; `strtol` saturates at the ends of a 64-bit `long`.
unfoldable pub signed_hex : Str → ℕ
unfolding hex_digits hex_prefix
signed_hex [] = 0
signed_hex (c ∷ cs) =
    if c == b'-'
    then (256 - min (hex_digits 0 (hex_prefix cs)) (2 ^ 63) % 256) % 256
    else min (hex_digits 0 (hex_prefix (if c == b'+' then cs else c ∷ cs))) (2 ^ 63 - 1) % 256

unfoldable pub strtol16_byte : Str → ℕ
unfolding signed_hex skip_space
strtol16_byte s = signed_hex (skip_space s)

-- Two characters a round, the last round possibly one.
unfoldable pub hex_to_bytes : Str → Bytes
unfolding strtol16_byte
hex_to_bytes [] = []
hex_to_bytes (a ∷ []) = strtol16_byte (a ∷ []) ∷ []
hex_to_bytes (a ∷ b ∷ rest) = strtol16_byte (a ∷ b ∷ []) ∷ hex_to_bytes rest

-- CoinParams::readFromFile, from the four strings that the file holds.
unfoldable pub read_coin_params : Str → Str → Str → Str → CoinParams
unfolding hex_to_bytes
read_coin_params magic prefix_bech32 version_p2sh version_p2pkh = record {
  magic = hex_to_bytes magic;
  bech32_prefix = prefix_bech32;
  p2pkh_version = strtol16_byte version_p2pkh;
  p2sh_version = strtol16_byte version_p2sh;
}

abbrev pub psz_base58 : Str
psz_base58 = text "123456789ABCDEFGHJKLMNPQRSTUVWXYZabcdefghijkmnopqrstuvwxyz"

unfoldable pub count_zeroes : Bytes → ℕ
count_zeroes [] = 0
count_zeroes (b ∷ bs) = let rest = suc (count_zeroes bs) in if b == 0 then rest else 0

-- "b58 = b58 * 256 + ch". The digits stand in the order of the vector's reverse iterator.
unfoldable pub base58_carry : List ℕ → ℕ → ℕ → ℕ → List ℕ × ℕ × ℕ
base58_carry [] carry i length = ([], carry, i)
base58_carry (d ∷ ds) carry i length =
    let c = carry + 256 * d in
    let (rest, carry', i') = base58_carry ds (c / 58) (i + 1) length in
    if not (carry == 0) || ltb i length then (c % 58 ∷ rest, carry', i') else (d ∷ ds, carry, i)

unfoldable pub base58_loop : Bytes → List ℕ → ℕ → Result (List ℕ × ℕ)
unfolding base58_carry
base58_loop [] digits length = ok (digits, length)
base58_loop (b ∷ bs) digits length =
    let (digits', carry, i) = base58_carry digits b 0 length in
    let rest = base58_loop bs digits' i in if carry == 0 then rest else err assertion

unfoldable pub skip_zeroes : List ℕ → List ℕ
skip_zeroes [] = []
skip_zeroes (d ∷ ds) = let rest = skip_zeroes ds in if d == 0 then rest else d ∷ ds

-- `int size`, from a computation in 64 bits.
unfoldable pub base58_size : ℕ → ℤ
base58_size remaining = to_int (remaining * 138 % 2 ^ 64 / 100 + 1)

-- `std::vector<unsigned char> b58(size)`. A negative size is too large for a vector.
unfoldable pub base58_room : ℤ → Result (List ℕ)
base58_room (pos size) = ok (replicate size 0)
base58_room (negsuc _) = err length_error

unfoldable pub base58 : Bytes → Result Str
unfolding count_zeroes base58_loop skip_zeroes
base58 input =
    let zeroes = count_zeroes input in
    do
      room ← base58_room (base58_size (length input - zeroes))
      (digits, length) ← base58_loop (drop zeroes input) room 0
      ok (
          replicate zeroes b'1'
          ++ map (λ d. get_or psz_base58 d 0) (skip_zeroes (reverse (take length digits))))

-- convertbits<8, 5, true>: the accumulator keeps 12 bits.
unfoldable pub convert_inner : ℕ → ℕ → ℕ → Bytes × ℕ
convert_inner zero acc bits = ([], bits)
convert_inner (suc fuel) acc bits =
    let (rest, bits') = convert_inner fuel acc (bits - 5) in
    if leb 5 bits then (acc / 2 ^ (bits - 5) % 32 ∷ rest, bits') else ([], bits)

unfoldable pub convert_loop : Bytes → ℕ → ℕ → Bytes
unfolding convert_inner
convert_loop [] acc bits = if bits == 0 then [] else acc * 2 ^ (5 - bits) % 32 ∷ []
convert_loop (value ∷ rest) acc bits =
    let acc' = (acc * 256 + value) % 2 ^ 12 in
    let (out, bits') = convert_inner 3 acc' (bits + 8) in out ++ convert_loop rest acc' bits'

unfoldable pub convert_bits : Bytes → Bytes
unfolding convert_loop
convert_bits input = convert_loop input 0 0

module _ (crypto : Crypto) (params : CoinParams) where
  open crypto use {sha256, ripe_md160, bech32_encode}
  open params use {bech32_prefix, p2pkh_version, p2sh_version}

  unfoldable pub ripe_md160_to_address : ℕ → Bytes → Result Str
  ripe_md160_to_address version_byte ripe_md =
      let payload = version_byte ∷ ripe_md in base58 (payload ++ take 4 (sha256 (sha256 payload)))

  unfoldable pub ripe_md160_to_p2pk_address : Bytes → Result Str
  ripe_md160_to_p2pk_address ripe_md = ripe_md160_to_address p2pkh_version ripe_md

  unfoldable pub ripe_md160_to_p2sh_address : Bytes → Result Str
  ripe_md160_to_p2sh_address ripe_md = ripe_md160_to_address p2sh_version ripe_md

  unfoldable pub public_key_to_address : Bytes → Result Str
  public_key_to_address public_key = ripe_md160_to_p2pk_address (ripe_md160 (sha256 public_key))

  -- With padding the conversion always succeeds. Witness version 0 stands in front.
  unfoldable pub bech32_address : Bytes → Str
  bech32_address input = bech32_encode bech32_prefix (0 ∷ convert_bits input)
