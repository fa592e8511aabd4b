-- ===== src/ScriptSolver/Addresses.antt =====
-- The addresses of the standard scripts, and the scripts on which the solver fails.
use blockchain_indexer.Base.{
  ◌==◌, ◌||◌, false, ℕ, suc, ◌+◌, ◌-◌, ◌≡◌, refl, sym, ap, ◌∙◌, [], ◌∷◌, ◌++◌, Bytes, length, take,
  drop, get_or, arith, ok, ◌⊎◌, inl, inr, drop-append, take-append, length-append,
}
use mathlib.Core.List.{append-nil}
use blockchain_indexer.External.{Crypto, CoinParams}
use blockchain_indexer.Utility.{
  ripe_md160_to_p2pk_address, ripe_md160_to_p2sh_address, bech32_address,
}
use blockchain_indexer.ScriptSolver.{
  p2pkh_tests, p2pkh_nop_tests, key_tests, witness_tests, p2sh_tests, p2pkh, p2sh, p2wpkh, p2wsh,
  is_p2pkh, is_p2pk, is_p2cpk, is_p2wsh, is_p2wpkh, is_p2sh, get_script_type, slice, one_address,
  addresses_of_type, get_addresses_from_script,
}
use blockchain_indexer.ScriptSolver.Templates.{template-other, template-holds}

get_or-append_right : (xs ys : Bytes) (k : ℕ) → get_or (xs ++ ys) (length xs + k) 0 ≡ get_or ys k 0
get_or-append_right [] ys k = ap (λ (i : ℕ). get_or ys i 0) (omega arith)
get_or-append_right (x ∷ xs) ys k =
    ap (λ (i : ℕ). get_or (x ∷ xs ++ ys) i 0) (suc_out (length xs) k) ∙ get_or-append_right xs ys k
  where
    suc_out : (a b : ℕ) → suc a + b ≡ suc (a + b)
    suc_out a b = omega arith

-- OP_DUP OP_HASH160 <hash> OP_EQUALVERIFY OP_CHECKSIG
abbrev pub p2pkh_script : Bytes → Bytes
p2pkh_script hash = 0x76 ∷ 0xa9 ∷ 20 ∷ (hash ++ 0x88 ∷ 0xac ∷ [])

-- OP_HASH160 <hash> OP_EQUAL
abbrev pub p2sh_script : Bytes → Bytes
p2sh_script hash = 0xa9 ∷ 20 ∷ (hash ++ 0x87 ∷ [])

-- <version 0> <program>
abbrev pub witness_script : Bytes → Bytes
witness_script program = 0x00 ∷ length program ∷ program

p2pkh_script-type :
    (hash : Bytes) → length hash ≡ 20 → get_script_type (p2pkh_script hash) ≡ ok p2pkh
unfolding get_script_type is_p2pkh
p2pkh_script-type hash e =
    let script = p2pkh_script hash in
    let size : length script ≡ 25 = omega (arith, length-append hash (0x88 ∷ 0xac ∷ []), e) in
    let verify : get_or script 23 0 ≡ 0x88 =
      rw e at (get_or-append_right hash (0x88 ∷ 0xac ∷ []) 0) in
    let check : get_or script 24 0 ≡ 0xac =
      rw e at (get_or-append_right hash (0x88 ∷ 0xac ∷ []) 1) in
    rw
      (template-holds 25 (p2pkh_tests 0xac) script size (
        (omega (arith, size), refl),
        (
          (omega (arith, size), refl),
          (
            (omega (arith, size), refl),
            ((omega (arith, size), verify), ((omega (arith, size), check), tt)),
          ),
        ),
      ))
      refl

pub slice-append :
    (pre mid post : Bytes) (from to : ℕ)
    → from ≡ length pre
    → to ≡ length pre + length mid
    → slice (pre ++ (mid ++ post)) from to ≡ ok mid
unfolding slice
slice-append pre mid post from to e1 e2 =
    rw (e1, e2, cut pre mid post (length pre + length mid - length pre) (omega arith))
      (ground (arith, length-append pre (mid ++ post), length-append mid post))
  where
    cut :
        (pre mid post : Bytes) (n : ℕ)
        → n ≡ length mid
        → take n (drop (length pre) (pre ++ (mid ++ post))) ≡ mid
    cut pre mid post n e = rw (drop-append pre (mid ++ post), e) (take-append mid post)

-- The tests for scripts of other sizes.
not_p2pkh :
    (script : Bytes) (n : ℕ)
    → length script ≡ n
    → ((25 == n) || (26 == n)) ≡ false
    → is_p2pkh script ≡ ok false
unfolding is_p2pkh
not_p2pkh script n size other =
    rw
      (
        template-other 25 (p2pkh_tests 0xac) script (ground arith),
        template-other 25 (p2pkh_tests 0xb0) script (ground arith),
        template-other 26 p2pkh_nop_tests script (ground arith),
      )
      refl

not_key :
    (script : Bytes) (n : ℕ)
    → length script ≡ n
    → ((67 == n) || (35 == n)) ≡ false
    → (is_p2pk script ≡ ok false) × (is_p2cpk script ≡ ok false)
unfolding is_p2pk is_p2cpk
not_key script n size other = (
  template-other 67 (key_tests 65) script (ground arith),
  template-other 35 (key_tests 0x21) script (ground arith),
)

p2sh_script-type : (hash : Bytes) → length hash ≡ 20 → get_script_type (p2sh_script hash) ≡ ok p2sh
unfolding get_script_type is_p2wsh is_p2wpkh is_p2sh
p2sh_script-type hash e =
    let script = p2sh_script hash in
    let size : length script ≡ 23 = omega (arith, length-append hash (0x87 ∷ []), e) in
    let equal : get_or script 22 0 ≡ 0x87 = rw e at (get_or-append_right hash (0x87 ∷ []) 0) in
    let (no_key, no_short_key) = not_key script 23 size refl in
    rw
      (
        not_p2pkh script 23 size refl,
        no_key,
        no_short_key,
        template-other 22 (witness_tests 0x14) script (ground arith),
        template-other 34 (witness_tests 0x20) script (ground arith),
        template-holds 23 p2sh_tests script size (
          (omega (arith, size), refl),
          ((omega (arith, size), refl), ((omega (arith, size), equal), tt)),
        ),
      )
      refl

witness_script-p2wsh :
    (program : Bytes) → length program ≡ 20 → get_script_type (witness_script program) ≡ ok p2wsh
unfolding get_script_type is_p2wsh
witness_script-p2wsh program e =
    let script = witness_script program in
    let size : length script ≡ 22 = omega (arith, e) in
    let (no_key, no_short_key) = not_key script 22 size refl in
    rw
      (
        not_p2pkh script 22 size refl,
        no_key,
        no_short_key,
        template-holds 22 (witness_tests 0x14) script size
            ((omega (arith, size), refl), ((omega (arith, size), e), tt)),
      )
      refl

witness_script-p2wpkh :
    (program : Bytes) → length program ≡ 32 → get_script_type (witness_script program) ≡ ok p2wpkh
unfolding get_script_type is_p2wsh is_p2wpkh
witness_script-p2wpkh program e =
    let script = witness_script program in
    let size : length script ≡ 34 = omega (arith, e) in
    let (no_key, no_short_key) = not_key script 34 size refl in
    rw
      (
        not_p2pkh script 34 size refl,
        no_key,
        no_short_key,
        template-other 22 (witness_tests 0x14) script (ground arith),
        template-holds 34 (witness_tests 0x20) script size
            ((omega (arith, size), refl), ((omega (arith, size), e), tt)),
      )
      refl

slice_program :
    (program : Bytes) (to : ℕ)
    → to ≡ 2 + length program
    → slice (witness_script program) 2 to ≡ ok program
slice_program program to e =
    ap (λ (xs : Bytes). slice (0x00 ∷ length program ∷ xs) 2 to) (sym (append-nil program))
    ∙ slice-append (0x00 ∷ length program ∷ []) program [] 2 to refl e

module _ (crypto : Crypto) (params : CoinParams) where
  p2pkh_script-addresses :
      (hash : Bytes)
      → length hash ≡ 20
      → get_addresses_from_script crypto params (p2pkh_script hash)
        ≡ one_address crypto params (ripe_md160_to_p2pk_address crypto params hash)
  unfolding get_addresses_from_script addresses_of_type
  p2pkh_script-addresses hash e =
      rw (p2pkh_script-type hash e)
        (rw (slice-append (0x76 ∷ 0xa9 ∷ 20 ∷ []) hash (0x88 ∷ 0xac ∷ []) 3 23 refl (omega arith)))

  p2sh_script-addresses :
      (hash : Bytes)
      → length hash ≡ 20
      → get_addresses_from_script crypto params (p2sh_script hash)
        ≡ one_address crypto params (ripe_md160_to_p2sh_address crypto params hash)
  unfolding get_addresses_from_script addresses_of_type
  p2sh_script-addresses hash e =
      rw (p2sh_script-type hash e)
        (rw (slice-append (0xa9 ∷ 20 ∷ []) hash (0x87 ∷ []) 2 22 refl (omega arith)))

  -- For a hash of 20 bytes a pay-to-pubkey-hash script gives the one address of that hash, and a
  -- pay-to-script-hash script the one address of that hash under the other version.
  pub hash_scripts-addresses :
      (hash : Bytes)
      → length hash ≡ 20
      → (get_addresses_from_script crypto params (p2pkh_script hash)
          ≡ one_address crypto params (ripe_md160_to_p2pk_address crypto params hash))
        × (get_addresses_from_script crypto params (p2sh_script hash)
            ≡ one_address crypto params (ripe_md160_to_p2sh_address crypto params hash))
  hash_scripts-addresses hash e = (p2pkh_script-addresses hash e, p2sh_script-addresses hash e)

  -- A witness script of version 0 with a program of 20 or 32 bytes gives the Bech32 address of the
  -- program.
  pub witness_script-addresses :
      (program : Bytes)
      → (length program ≡ 20) ⊎ (length program ≡ 32)
      → get_addresses_from_script crypto params (witness_script program)
        ≡ ok (bech32_address crypto params program ∷ [])
  unfolding get_addresses_from_script addresses_of_type one_address
  witness_script-addresses program (inl e) =
      rw (witness_script-p2wsh program e) (rw (slice_program program 22 (omega arith)))
  witness_script-addresses program (inr e) =
      rw (witness_script-p2wpkh program e) (rw (slice_program program 34 (omega arith)))
