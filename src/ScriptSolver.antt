-- ===== src/ScriptSolver.antt =====
-- src/scriptsolver.cpp: the kind of an output script, and the addresses that it pays to.
pub mod Templates
pub mod Types
pub mod Addresses
pub mod Multisig
use blockchain_indexer.Base.{
  ℕ, zero, suc, ◌+◌, ◌-◌, ◌*◌, ◌%◌, ◌^◌, Bool, true, false, not, ◌&&◌, ◌||◌, List, [], ◌∷◌, ◌++◌,
  Bytes, Str, length, take, drop, get_or, ltb, leb, ◌==◌, if◌then◌else◌, Result, ok, err, ℤ, pos,
  negsuc, out_of_range, undefined, out_of_fuel, ◌>>=◌,
}
use blockchain_indexer.Base.Text.{text}
use blockchain_indexer.External.{Crypto, CoinParams}
use blockchain_indexer.Utility.{
  ripe_md160_to_p2pk_address, ripe_md160_to_p2sh_address, public_key_to_address, bech32_address,
}

pub data ScriptType : Type 0 where
  p2pkh p2pk p2sh p2wpkh p2wsh nulldata multisig p2cpk known_nonstandard unknown : ScriptType

-- The values of the SCRIPT_TYPE_ macros.
unfoldable pub type_code : ScriptType → ℕ
type_code p2pkh = 1
type_code p2pk = 2
type_code p2sh = 3
type_code p2wpkh = 4
type_code p2wsh = 5
type_code nulldata = 6
type_code multisig = 7
type_code p2cpk = 8
type_code known_nonstandard = 9
type_code unknown = 0xff

-- `script.at(i)`.
unfoldable pub at_ : Bytes → ℕ → Result ℕ
at_ script i = if ltb i (length script) then ok (get_or script i 0) else err out_of_range

-- Tests of bytes at indices, joined by `&&`: none behind the first that fails is made.
unfoldable pub all_at : List (ℕ × ℕ) → Bytes → Result Bool
all_at [] script = ok true
all_at ((i, byte) ∷ tests) script =
    let rest = all_at tests script in do b ← at_ script i; if byte == b then rest else ok false

-- The tests are made of a script of this size only.
unfoldable pub template : ℕ → (ℕ → List (ℕ × ℕ)) → Bytes → Result Bool
template size tests script =
    let rest = all_at (tests (length script)) script in
    if size == length script then rest else ok false

infixr 55 ◌||?◌
abbrev pub ◌||?◌ : Result Bool → Result Bool → Result Bool
(ok true) ||? b = ok true
(ok false) ||? b = b
(err f) ||? b = err f

-- OP_DUP OP_HASH160 OP_PUSHDATA(20) ... OP_EQUALVERIFY, and the opcode behind.
abbrev pub p2pkh_tests : ℕ → ℕ → List (ℕ × ℕ)
p2pkh_tests last size = (0, 0x76) ∷ (1, 0xa9) ∷ (2, 20) ∷ (size - 2, 0x88) ∷ (size - 1, last) ∷ []

-- With OP_CHECKSIG OP_NOP behind.
abbrev pub p2pkh_nop_tests : ℕ → List (ℕ × ℕ)
p2pkh_nop_tests size =
    (0, 0x76) ∷ (1, 0xa9) ∷ (2, 20) ∷ (size - 3, 0x88) ∷ (size - 2, 0xac) ∷ (size - 1, 0x61) ∷ []

unfoldable pub is_p2pkh : Bytes → Result Bool
is_p2pkh script =
    template 25 (p2pkh_tests 0xac) script
    ||? template 25 (p2pkh_tests 0xb0) script
    ||? template 26 p2pkh_nop_tests script

-- A push of a key and OP_CHECKSIG.
abbrev pub key_tests : ℕ → ℕ → List (ℕ × ℕ)
key_tests push size = (0, push) ∷ (size - 1, 0xac) ∷ []

unfoldable pub is_p2pk : Bytes → Result Bool
is_p2pk script = template 67 (key_tests 65) script

unfoldable pub is_p2cpk : Bytes → Result Bool
is_p2cpk script = template 35 (key_tests 0x21) script

-- Version 0 and a push of the program. The source calls a 20-byte witness program P2WSH and a 32-byte
-- one P2WPKH.
abbrev pub witness_tests : ℕ → ℕ → List (ℕ × ℕ)
witness_tests push size = (0, 0x00) ∷ (1, push) ∷ []

unfoldable pub is_p2wsh : Bytes → Result Bool
is_p2wsh script = template 22 (witness_tests 0x14) script

unfoldable pub is_p2wpkh : Bytes → Result Bool
is_p2wpkh script = template 34 (witness_tests 0x20) script

abbrev pub p2sh_tests : ℕ → List (ℕ × ℕ)
p2sh_tests size = (0, 0xa9) ∷ (1, 20) ∷ (size - 1, 0x87) ∷ []

unfoldable pub is_p2sh : Bytes → Result Bool
is_p2sh script = template 23 p2sh_tests script

-- Whether the script begins with OP_RETURN.
unfoldable pub is_nulldata : Bytes → Result Bool
is_nulldata script =
    let first = all_at ((0, 0x6a) ∷ []) script in if ltb 0 (length script) then first else ok false

-- The loop over the pushes of an OP_RETURN script: whether it met an opcode. `position` has 32 bits.
unfoldable pub found_opcodes : ℕ → Bytes → ℕ → Result Bool
found_opcodes zero script position = err out_of_fuel
found_opcodes (suc fuel) script position =
    let scan = λ (opcode : ℕ).
      let rest = found_opcodes fuel script ((position + opcode + 1) % 2 ^ 32) in
      if leb 0x01 opcode && leb opcode 0x4b then rest else ok true in
    let pushed : Result Bool = at_ script position >>= scan in
    if ltb position (length script) then pushed else ok false

-- isMultiSig, with its read checked.
unfoldable pub multi_sig_test : Bytes → Result Bool
multi_sig_test script =
    let last = all_at ((length script - 1, 0xae) ∷ []) script in
    if length script == 0 then ok false else last

-- Its callers outside: the read is in range where it is made.
unfoldable pub is_multi_sig : Bytes → Bool
is_multi_sig script =
    if length script == 0 then false else get_or script (length script - 1) 0 == 0xae

-- The scripts of six and of five bytes that are known.
abbrev pub six_tests : ℕ → List (ℕ × ℕ)
six_tests size = (0, 0x73) ∷ (1, 0x63) ∷ (2, 0x72) ∷ (3, 0x69) ∷ (4, 0x70) ∷ (5, 0x74) ∷ []

abbrev pub five_tests : ℕ → List (ℕ × ℕ)
five_tests size = (0, 0x76) ∷ (1, 0xa9) ∷ (2, 0x00) ∷ (3, 0x88) ∷ (4, 0xac) ∷ []

abbrev pub first_test : ℕ → ℕ → List (ℕ × ℕ)
first_test byte size = (0, byte) ∷ []

unfoldable pub is_known_nonstandard : Bytes → Result Bool
is_known_nonstandard script =
    template 33 (first_test 0x20) script
    ||? template 37 (first_test 0x24) script
    ||? template 24 (first_test 0x14) script
    ||? template 6 six_tests script
    ||? template 5 five_tests script

-- The branch for scripts that begin with OP_RETURN.
unfoldable pub nulldata_type : Bytes → Result ScriptType
nulldata_type script = do
  found ← found_opcodes (suc (length script)) script 1
  ok (if found then unknown else nulldata)

-- The type of the first test that holds, or what comes after it.
abbrev pub type_if : Result Bool → ScriptType → Result ScriptType → Result ScriptType
type_if (ok true) t rest = ok t
type_if (ok false) t rest = rest
type_if (err f) t rest = err f

-- The tests behind that for OP_RETURN.
unfoldable pub later_type : Bytes → Result ScriptType
later_type script =
    type_if (multi_sig_test script) multisig
      (type_if (is_known_nonstandard script) known_nonstandard (ok unknown))

unfoldable pub get_script_type : Bytes → Result ScriptType
get_script_type script = type_if (is_p2pkh script) p2pkh (
    type_if (is_p2pk script) p2pk (
      type_if (is_p2cpk script) p2cpk (
        type_if (is_p2wsh script) p2wsh (
          type_if (is_p2wpkh script) p2wpkh (
            type_if (is_p2sh script) p2sh (do
              op_return ← is_nulldata script
              if op_return then nulldata_type script else later_type script))))))

abbrev pub script_type_names : List Str
script_type_names =
    []
    ∷ text "pay-to-pubkeyhash"
    ∷ text "pay-to-pubkey"
    ∷ text "pay-to-scripthash"
    ∷ text "pay-to-witness-pubkeyhash"
    ∷ text "pay-to-witnessscripthash"
    ∷ text "nulldata"
    ∷ text "multisig"
    ∷ text "pay-to-pubkey"
    ∷ []

-- `v.at(i)` on a list of names.
unfoldable pub name_at : List Str → ℕ → Result Str
name_at names i = if ltb i (length names) then ok (get_or names i []) else err out_of_range

unfoldable pub type_name : ScriptType → Result Str
unfolding type_code name_at
type_name unknown = ok (text "Unknown")
type_name t = name_at script_type_names (type_code t)

unfoldable pub get_script_type_name : Bytes → Result Str
get_script_type_name script = do t ← get_script_type script; type_name t

-- `vector<unsigned char>(&script[from], &script[to])`.
unfoldable pub slice : Bytes → ℕ → ℕ → Result Bytes
slice script from to =
    if leb to (length script) then ok (take (to - from) (drop from script)) else err undefined

-- -1 where the script is not a multisig script.
unfoldable pub required_signatures : Bytes → ℤ
required_signatures script = if not (is_multi_sig script) then negsuc 0 else pos (get_or script 0 0)

module _ (crypto : Crypto) (params : CoinParams) where
  -- The address of a key, in front of those that follow it.
  unfoldable pub add_key : Result Bytes → Result (List Str) → Result (List Str)
  add_key slice later = do
    key ← slice
    address ← public_key_to_address crypto params key
    rest ← later
    ok (address ∷ rest)

  -- The keys of a multisig script from `position` on. The bound is computed in 64 bits.
  unfoldable pub multisig_addresses : ℕ → Bytes → ℕ → Result (List Str)
  multisig_addresses zero script position = err out_of_fuel
  multisig_addresses (suc fuel) script position =
      let size = length script in
      let compressed =
        add_key (slice script (position + 1) (position + 34))
          (multisig_addresses fuel script ((position + 34) % 2 ^ 32)) in
      let uncompressed =
        add_key (slice script (position + 1) (position + 66))
          (multisig_addresses fuel script ((position + 66) % 2 ^ 32)) in
      let other = multisig_addresses fuel script (size % 2 ^ 32) in
      if not (ltb position ((size + 2 ^ 64 - 2) % 2 ^ 64))
      then ok []
      else if not (ltb position size)
      then err out_of_range
      else if get_or script position 0 == 0x21
      then compressed
      else if get_or script position 0 == 0x41
      then uncompressed
      else other

  -- The single address of the other kinds.
  unfoldable pub one_address : Result Str → Result (List Str)
  one_address address = do a ← address; ok (a ∷ [])

  unfoldable pub addresses_of_type : ScriptType → Bytes → Result (List Str)
  addresses_of_type p2pkh script =
      one_address (do h ← slice script 3 23; ripe_md160_to_p2pk_address crypto params h)
  addresses_of_type p2pk script =
      one_address (do k ← slice script 1 66; public_key_to_address crypto params k)
  addresses_of_type p2cpk script =
      one_address (do k ← slice script 1 34; public_key_to_address crypto params k)
  addresses_of_type p2wsh script =
      one_address (do p ← slice script 2 22; ok (bech32_address crypto params p))
  addresses_of_type p2wpkh script =
      one_address (do p ← slice script 2 34; ok (bech32_address crypto params p))
  addresses_of_type p2sh script =
      one_address (do h ← slice script 2 22; ripe_md160_to_p2sh_address crypto params h)
  addresses_of_type multisig script = multisig_addresses (suc (length script)) script 1
  addresses_of_type nulldata script = ok []
  addresses_of_type known_nonstandard script = ok []
  addresses_of_type unknown script = ok []

  unfoldable pub get_addresses_from_script : Bytes → Result (List Str)
  get_addresses_from_script script = do t ← get_script_type script; addresses_of_type t script
