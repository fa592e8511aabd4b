-- ===== src/ScriptSolver/Multisig.antt =====
-- The keys of multisig scripts: the well-formed ones, and those that end inside a key.
use blockchain_indexer.Base.{
  get_or, ℕ, zero, suc, ◌+◌, ◌-◌, ◌%◌, ◌^◌, ◌<◌, ◌≤◌, ◌≡◌, refl, sym, ap, ◌∙◌, true, false, List,
  [], ◌∷◌, ◌++◌, Bytes, Str, length, arith, ltb, Result, ok, err, undefined, tests, ◌⊎◌, All, inl,
  inr, length-append,
}
use mathlib.Core.List.{append_assoc}
use blockchain_indexer.External.{Crypto, CoinParams}
use blockchain_indexer.ScriptSolver.{
  multisig, get_script_type, slice, add_key, multisig_addresses, addresses_of_type,
  get_addresses_from_script,
}
use blockchain_indexer.ScriptSolver.Addresses.{slice-append}

-- A key behind its length, as a multisig script pushes it.
unfoldable pub pushes : List Bytes → Bytes
pushes [] = []
pushes (key ∷ keys) = length key ∷ (key ++ pushes keys)

-- m, the keys, n, OP_CHECKMULTISIG
unfoldable pub multisig_script : ℕ → List Bytes → ℕ → Bytes
multisig_script m keys n = m ∷ (pushes keys ++ n ∷ 0xae ∷ [])

abbrev pub IsKey : Bytes → Type 0
IsKey key = (length key ≡ 33) ⊎ (length key ≡ 65)

head_at : (pre : Bytes) (x : ℕ) (ys : Bytes) → get_or (pre ++ (x ∷ ys)) (length pre) 0 ≡ x
head_at [] x ys = refl
head_at (p ∷ pre) x ys = head_at pre x ys

slice_key :
    (key pre post : Bytes) (to : ℕ)
    → to ≡ length pre + 1 + length key
    → slice (pre ++ (length key ∷ (key ++ post))) (length pre + 1) to ≡ ok key
slice_key key pre post to e =
    ap (λ (s : Bytes). slice s (length pre + 1) to)
      (sym (append_assoc pre (length key ∷ []) (key ++ post)))
    ∙ slice-append (pre ++ length key ∷ []) key post (length pre + 1) to
        (omega (arith, length-append pre (length key ∷ [])))
        (omega (arith, length-append pre (length key ∷ [])))

moved : (p k n : ℕ) → k ≡ n → p + suc n ≡ p + 1 + k
moved p k n e = omega arith

-- There are fewer keys than bytes.
many_keys :
    (keys : List Bytes) (pre : Bytes) (n : ℕ)
    → All IsKey keys
    → length keys < suc (length (pre ++ (pushes keys ++ n ∷ 0xae ∷ [])))
unfolding pushes
many_keys [] pre n ks = omega arith
many_keys (key ∷ keys) pre n ks = omega (
  arith,
  many_keys keys [] n ks.1,
  length-append pre ((length key ∷ (key ++ pushes keys)) ++ n ∷ 0xae ∷ []),
  length-append (key ++ pushes keys) (n ∷ 0xae ∷ []),
  length-append key (pushes keys),
  length-append (pushes keys) (n ∷ 0xae ∷ []),
)

module _ (crypto : Crypto) (params : CoinParams) where
  -- The addresses of the keys, in order.
  unfoldable pub key_addresses : List Bytes → Result (List Str)
  key_addresses [] = ok []
  key_addresses (key ∷ keys) = add_key crypto params (ok key) (key_addresses keys)

  -- One round of the loop at a compressed and at an uncompressed key.
  compressed_step :
      (script : Bytes) (position fuel : ℕ)
      → get_or script position 0 ≡ 0x21
      → position + 2 < length script
      → length script + 34 < 2 ^ 32
      → multisig_addresses crypto params (suc fuel) script position
        ≡ add_key crypto params
            (slice script (position + 1) (position + 34))
            (multisig_addresses crypto params fuel script (position + 34))
  unfolding multisig_addresses
  compressed_step script position fuel at inside fit =
      let t1 : ltb position ((length script + 2 ^ 64 - 2) % 2 ^ 64) ≡ true = omega tests in
      let t2 : ltb position (length script) ≡ true = omega tests in
      let t4 : (position + 34) % 2 ^ 32 ≡ position + 34 = omega arith in rw (t1, t2, at, t4)

  uncompressed_step :
      (script : Bytes) (position fuel : ℕ)
      → get_or script position 0 ≡ 0x41
      → position + 2 < length script
      → length script + 66 < 2 ^ 32
      → multisig_addresses crypto params (suc fuel) script position
        ≡ add_key crypto params
            (slice script (position + 1) (position + 66))
            (multisig_addresses crypto params fuel script (position + 66))
  unfolding multisig_addresses
  uncompressed_step script position fuel at inside fit =
      let t1 : ltb position ((length script + 2 ^ 64 - 2) % 2 ^ 64) ≡ true = omega tests in
      let t2 : ltb position (length script) ≡ true = omega tests in
      let t4 : (position + 66) % 2 ^ 32 ≡ position + 66 = omega arith in rw (t1, t2, at, t4)

  end_step :
      (script : Bytes) (position fuel : ℕ)
      → position + 2 ≡ length script
      → length script < 2 ^ 32
      → multisig_addresses crypto params (suc fuel) script position ≡ ok []
  unfolding multisig_addresses
  end_step script position fuel e fit =
      let t1 : ltb position ((length script + 2 ^ 64 - 2) % 2 ^ 64) ≡ false = ground arith in rw t1

  -- A multisig script of 4 to 34 bytes that announces a compressed key first makes the solver read
  -- behind the end of the script.
  pub multisig_truncated :
      (script : Bytes)
      → get_script_type script ≡ ok multisig
      → get_or script 1 0 ≡ 0x21
      → 4 ≤ length script
      → length script < 35
      → get_addresses_from_script crypto params script ≡ err undefined
  unfolding get_addresses_from_script addresses_of_type
  multisig_truncated script t k h1 h2 =
      let outside : slice script 2 35 ≡ err undefined = unfold slice in ground arith in
      rw t (
        compressed_step script 1 (length script) k (omega arith) (omega arith)
        ∙ (unfold add_key in rw outside))

  key_step :
      (key pre post : Bytes) (fuel : ℕ)
      → IsKey key
      → 2 ≤ length post
      → length (pre ++ (length key ∷ (key ++ post))) + 66 < 2 ^ 32
      → multisig_addresses crypto params
          (suc fuel)
          (pre ++ (length key ∷ (key ++ post)))
          (length pre)
        ≡ add_key crypto params (ok key) (
            multisig_addresses crypto params fuel
              (pre ++ (length key ∷ (key ++ post)))
              (length pre + 1 + length key))
  key_step key pre post fuel (inl k) h fit =
      let script = pre ++ (length key ∷ (key ++ post)) in
      let size = length-append pre (length key ∷ (key ++ post)) in
      compressed_step script (length pre) fuel (head_at pre (length key) (key ++ post) ∙ k)
        (omega (arith, size, length-append key post)) (omega arith)
      ∙ rw (
        slice_key key pre post (length pre + 34) (omega arith),
        moved (length pre) (length key) 33 k,
      )
  key_step key pre post fuel (inr k) h fit =
      let script = pre ++ (length key ∷ (key ++ post)) in
      let size = length-append pre (length key ∷ (key ++ post)) in
      uncompressed_step script (length pre) fuel (head_at pre (length key) (key ++ post) ∙ k)
        (omega (arith, size, length-append key post)) (omega arith)
      ∙ rw (
        slice_key key pre post (length pre + 66) (omega arith),
        moved (length pre) (length key) 65 k,
      )

  keys_from :
      (keys : List Bytes) (pre : Bytes) (n fuel : ℕ)
      → All IsKey keys
      → length keys < fuel
      → length (pre ++ (pushes keys ++ n ∷ 0xae ∷ [])) + 66 < 2 ^ 32
      → multisig_addresses crypto params fuel (pre ++ (pushes keys ++ n ∷ 0xae ∷ [])) (length pre)
        ≡ key_addresses keys
  unfolding pushes key_addresses
  keys_from [] pre n zero ks f fit = absurd (omega arith)
  keys_from [] pre n (suc fuel) ks f fit =
      end_step (pre ++ n ∷ 0xae ∷ []) (length pre) fuel
        (omega (arith, length-append pre (n ∷ 0xae ∷ []))) (omega arith)
  keys_from (key ∷ keys) pre n zero ks f fit = absurd (omega arith)
  keys_from (key ∷ keys) pre n (suc fuel) ks f fit =
      let post = pushes keys ++ n ∷ 0xae ∷ [] in
      let joined = append_assoc key (pushes keys) (n ∷ 0xae ∷ []) in
      let moved_on = append_assoc pre (length key ∷ key) post in
      let there : length (pre ++ length key ∷ key) ≡ length pre + 1 + length key =
        omega (arith, length-append pre (length key ∷ key)) in
      rw joined (
        key_step key pre post fuel ks.0 (omega (arith, length-append (pushes keys) (n ∷ 0xae ∷ [])))
          (rw joined at fit)
        ∙ ap (add_key crypto params (ok key)) (
            rw (there, moved_on) at
              (keys_from keys (pre ++ length key ∷ key) n fuel ks.1 (omega arith)
                (rw (← moved_on) at (rw joined at fit)))))

  -- A script of the form m, keys behind their lengths, n, OP_CHECKMULTISIG, with compressed or
  -- uncompressed keys, fewer than 2 ^ 32 - 66 bytes long and of the multisig type, gives the
  -- addresses of its keys in order and no others.
  pub multisig_script-addresses :
      (m n : ℕ) (keys : List Bytes)
      → All IsKey keys
      → length (multisig_script m keys n) + 66 < 2 ^ 32
      → get_script_type (multisig_script m keys n) ≡ ok multisig
      → get_addresses_from_script crypto params (multisig_script m keys n) ≡ key_addresses keys
  unfolding get_addresses_from_script addresses_of_type multisig_script
  multisig_script-addresses m n keys ks fit t =
      rw t (keys_from keys (m ∷ []) n _ ks (many_keys keys (m ∷ []) n ks) fit)
