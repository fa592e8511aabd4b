-- ===== src/Examples/Scripts.antt =====
-- Scripts and the addresses that they pay to.
use blockchain_indexer.Base.{
  ◌⊎◌, ◌≢◌, Str, ◌+◌, ◌^◌, ◌<◌, ◌≡◌, refl, inl, inr, List, [], ◌∷◌, Bytes, length, replicate, arith,
  ok, err, undefined, out_of_range,
}
use blockchain_indexer.Utility.{
  ripe_md160_to_p2pk_address, ripe_md160_to_p2sh_address, bech32_address,
}
use blockchain_indexer.ScriptSolver.{
  ScriptType, multisig, known_nonstandard, one_address, get_script_type, get_script_type_name,
  get_addresses_from_script, is_p2pkh, is_p2pk, is_p2cpk, is_p2wsh, is_p2wpkh, is_p2sh, is_nulldata,
  later_type, multi_sig_test, template, all_at, at_, is_known_nonstandard,
}
use blockchain_indexer.ScriptSolver.Types.{get_script_type_total, get_script_type_name_total}
use blockchain_indexer.ScriptSolver.Addresses.{
  p2pkh_script, p2sh_script, witness_script, hash_scripts-addresses, witness_script-addresses,
}
use blockchain_indexer.ScriptSolver.Multisig.{
  pushes, multisig_script, key_addresses, multisig_truncated, multisig_script-addresses,
}
use blockchain_indexer.Examples.{toy_crypto, vertcoin}

abbrev a_hash : Bytes
a_hash = replicate 20 7

abbrev two_keys : List Bytes
two_keys = replicate 33 2 ∷ replicate 65 4 ∷ []

two_keys-type : get_script_type (multisig_script 1 two_keys 2) ≡ ok multisig
unfolding get_script_type is_p2pkh is_p2pk is_p2cpk is_p2wsh is_p2wpkh is_p2sh is_nulldata
    later_type multi_sig_test template all_at at_ multisig_script pushes
two_keys-type = refl

two_keys-small : length (multisig_script 1 two_keys 2) + 66 < 2 ^ 32
unfolding multisig_script pushes
two_keys-small = omega arith

multisig_script-addresses_example :
    get_addresses_from_script toy_crypto vertcoin (multisig_script 1 two_keys 2)
    ≡ key_addresses toy_crypto vertcoin two_keys
multisig_script-addresses_example =
    multisig_script-addresses toy_crypto vertcoin 1 2 two_keys (inl refl, (inr refl, tt))
      two_keys-small two_keys-type

get_script_type_total_example : (t : ScriptType) × (get_script_type (0x6a ∷ 2 ∷ 1 ∷ 1 ∷ []) ≡ ok t)
get_script_type_total_example = get_script_type_total (0x6a ∷ 2 ∷ 1 ∷ 1 ∷ []) (omega arith)

hash_scripts-addresses_example :
    (get_addresses_from_script toy_crypto vertcoin (p2pkh_script a_hash)
      ≡ one_address toy_crypto vertcoin (ripe_md160_to_p2pk_address toy_crypto vertcoin a_hash))
    × (get_addresses_from_script toy_crypto vertcoin (p2sh_script a_hash)
        ≡ one_address toy_crypto vertcoin (ripe_md160_to_p2sh_address toy_crypto vertcoin a_hash))
hash_scripts-addresses_example = hash_scripts-addresses toy_crypto vertcoin a_hash refl

witness_script-addresses_example :
    get_addresses_from_script toy_crypto vertcoin (witness_script a_hash)
    ≡ ok (bech32_address toy_crypto vertcoin a_hash ∷ [])
witness_script-addresses_example = witness_script-addresses toy_crypto vertcoin a_hash (inl refl)

-- One key announced, and nothing of it there.
abbrev cut_off : Bytes
cut_off = 1 ∷ 0x21 ∷ 1 ∷ 0xae ∷ []

cut_off-type : get_script_type cut_off ≡ ok multisig
unfolding get_script_type is_p2pkh is_p2pk is_p2cpk is_p2wsh is_p2wpkh is_p2sh is_nulldata
    later_type multi_sig_test template all_at at_
cut_off-type = refl

multisig_truncated_example : get_addresses_from_script toy_crypto vertcoin cut_off ≡ err undefined
multisig_truncated_example =
    multisig_truncated toy_crypto vertcoin cut_off cut_off-type refl (omega arith) (omega arith)

abbrev puzzle : Bytes
puzzle = 0x76 ∷ 0xa9 ∷ 0x00 ∷ 0x88 ∷ 0xac ∷ []

puzzle-type : get_script_type puzzle ≡ ok known_nonstandard
unfolding get_script_type is_p2pkh is_p2pk is_p2cpk is_p2wsh is_p2wpkh is_p2sh is_nulldata
    later_type multi_sig_test template all_at at_ is_known_nonstandard
puzzle-type = refl

get_script_type_name_total_example :
    (t : ScriptType) × (get_script_type puzzle ≡ ok t)
    × (((t ≡ known_nonstandard) × (get_script_type_name puzzle ≡ err out_of_range))
        ⊎ ((t ≢ known_nonstandard) × (s : Str) × (get_script_type_name puzzle ≡ ok s)))
get_script_type_name_total_example = get_script_type_name_total puzzle (omega arith)
