-- ===== src/ScriptSolver/Types.antt =====
-- The kinds of scripts: every read of the tests is in range, and there is a type for every script.
use blockchain_indexer.Base.{
  ℕ, zero, suc, ◌+◌, ◌-◌, ◌%◌, ◌^◌, ◌<◌, ◌≤◌, ◌≡◌, ◌≢◌, refl, Bool, true, false, ◌&&◌, ◌==◌, [],
  ◌∷◌, Bytes, Str, ◌⊎◌, out_of_range, if◌then◌else◌, length, get_or, arith, ltb, leb, Result, ok,
  err, ◌>>=◌, Bool-cases, inl, inr,
}
use blockchain_indexer.ScriptSolver.{
  ScriptType, nulldata, known_nonstandard, unknown, p2pkh, p2pkh_tests, p2pkh_nop_tests, key_tests,
  witness_tests, p2sh_tests, six_tests, five_tests, first_test, is_p2pkh, is_p2pk, is_p2cpk,
  is_p2wsh, is_p2wpkh, is_p2sh, is_nulldata, found_opcodes, multi_sig_test, is_known_nonstandard,
  nulldata_type, type_if, later_type, get_script_type, get_script_type_name, type_name,
}
use blockchain_indexer.ScriptSolver.Templates.{
  Returns, at_-inside, all_at-Returns, template-Returns, ||?-Returns,
}

type_if-Returns :
    {test : Result Bool} (t : ScriptType) {rest : Result ScriptType}
    → Returns test
    → Returns rest
    → Returns (type_if test t rest)
type_if-Returns t (true, e) s = rw e (t, refl)
type_if-Returns t (false, e) s = rw e s

is_p2pkh-Returns : (script : Bytes) → Returns (is_p2pkh script)
unfolding is_p2pkh
is_p2pkh-Returns script = ||?-Returns (template-Returns 25 (p2pkh_tests 0xac) script refl) (
    ||?-Returns (template-Returns 25 (p2pkh_tests 0xb0) script refl)
      (template-Returns 26 p2pkh_nop_tests script refl))

is_known_nonstandard-Returns : (script : Bytes) → Returns (is_known_nonstandard script)
unfolding is_known_nonstandard
is_known_nonstandard-Returns script =
    ||?-Returns (template-Returns 33 (first_test 0x20) script refl) (
      ||?-Returns (template-Returns 37 (first_test 0x24) script refl) (
        ||?-Returns (template-Returns 24 (first_test 0x14) script refl) (
          ||?-Returns (template-Returns 6 six_tests script refl)
            (template-Returns 5 five_tests script refl))))

-- The two tests that ask for some byte only.
is_nulldata-Returns : (script : Bytes) → Returns (is_nulldata script)
unfolding is_nulldata
is_nulldata-Returns script = elim (Bool-cases (ltb 0 (length script))) [
  | inl e ↦ rw e (all_at-Returns ((0, 0x6a) ∷ []) script (ground arith, tt))
  | inr e ↦ (false, rw e refl)
]

multi_sig_test-Returns : (script : Bytes) → Returns (multi_sig_test script)
unfolding multi_sig_test
multi_sig_test-Returns script = elim (Bool-cases (length script == 0)) [
  | inl e ↦ (false, rw e refl)
  | inr e ↦ rw e (all_at-Returns ((length script - 1, 0xae) ∷ []) script (ground arith, tt))
]

-- The scan of an OP_RETURN script ends: each round moves on by a byte at least. The bound on the
-- length keeps the 32-bit position from wrapping.
found_opcodes_total :
    (fuel : ℕ) (script : Bytes) (position : ℕ)
    → length script + 256 < 2 ^ 32
    → length script ≤ fuel + position
    → Returns (found_opcodes (suc fuel) script position)
unfolding found_opcodes
found_opcodes_total zero script position fit h =
    let past : ltb position (length script) ≡ false = ground arith in (false, rw past refl)
found_opcodes_total (suc fuel) script position fit h =
    elim (Bool-cases (ltb position (length script))) [
      | inr past ↦ (false, rw past refl)
      | inl inside ↦
          let opcode = get_or script position 0 in
          let read = at_-inside script position (ground arith) in
          elim (Bool-cases (leb 0x01 opcode && leb opcode 0x4b)) [
            | inr no_push ↦ (true, rw (inside, read, no_push) refl)
            | inl push ↦
                let next = (position + opcode + 1) % 2 ^ 32 in
                let (b, e) =
                  found_opcodes_total fuel script next fit
                    (further position fuel opcode (length script) fit h inside push) in
                (b, rw (inside, read, push) e)
          ]
    ]
  where
    further :
        (position fuel opcode size : ℕ)
        → size + 256 < 2 ^ 32
        → size ≤ suc fuel + position
        → ltb position size ≡ true
        → (leb 0x01 opcode && leb opcode 0x4b) ≡ true
        → size ≤ fuel + (position + opcode + 1) % 2 ^ 32
    further position fuel opcode size fit h inside push = ground arith

nulldata_type_total :
    (script : Bytes) → length script + 256 < 2 ^ 32 → Returns (nulldata_type script)
unfolding nulldata_type
nulldata_type_total script fit =
    let (b, e) = found_opcodes_total (length script) script 1 fit (omega arith) in
    (if b then unknown else nulldata, rw e refl)

later_type_total : (script : Bytes) → Returns (later_type script)
unfolding later_type
later_type_total script =
    type_if-Returns _ (multi_sig_test-Returns script)
      (type_if-Returns _ (is_known_nonstandard-Returns script) (unknown, refl))

-- Every script of fewer than 2 ^ 32 - 256 bytes has a type: the scan of an OP_RETURN script ends
-- with the fuel that it is given, and none of the tests reads a byte out of range.
pub get_script_type_total :
    (script : Bytes)
    → length script + 256 < 2 ^ 32
    → (t : ScriptType) × (get_script_type script ≡ ok t)
unfolding get_script_type is_p2pk is_p2cpk is_p2wsh is_p2wpkh is_p2sh
get_script_type_total script fit = type_if-Returns _ (is_p2pkh-Returns script) (
    type_if-Returns _ (template-Returns 67 (key_tests 65) script refl) (
      type_if-Returns _ (template-Returns 35 (key_tests 0x21) script refl) (
        type_if-Returns _ (template-Returns 22 (witness_tests 0x14) script refl) (
          type_if-Returns _ (template-Returns 34 (witness_tests 0x20) script refl) (
            type_if-Returns _ (template-Returns 23 p2sh_tests script refl)
              (by_first (is_nulldata-Returns script)))))))
  where
    by_first :
        Returns (is_nulldata script)
        → Returns (do
          op_return ← is_nulldata script
          if op_return then nulldata_type script else later_type script)
    by_first (true, e) = rw e (nulldata_type_total script fit)
    by_first (false, e) = rw e (later_type_total script)

type_name_total : (t : ScriptType) → t ≢ known_nonstandard → Returns (type_name t)
unfolding type_name
type_name_total known_nonstandard h = absurd (h refl)
type_name_total p2pkh h = (_, refl)
type_name_total _ h = (_, refl)

-- The types by whether they have a name.
named_or : (t : ScriptType) → (t ≡ known_nonstandard) ⊎ (t ≢ known_nonstandard)
named_or known_nonstandard = inl refl
named_or t = inr (λ e. cc e)

-- Of the scripts of fewer than 2 ^ 32 - 256 bytes, getScriptTypeName gives a name to each whose
-- type is not a known non-standard one, and for each of the others the look-up among the nine names
-- is out of range.
pub get_script_type_name_total :
    (script : Bytes)
    → length script + 256 < 2 ^ 32
    → (t : ScriptType) × (get_script_type script ≡ ok t)
      × (((t ≡ known_nonstandard) × (get_script_type_name script ≡ err out_of_range))
          ⊎ ((t ≢ known_nonstandard) × (s : Str) × (get_script_type_name script ≡ ok s)))
unfolding get_script_type_name type_name
get_script_type_name_total script fit =
    let (t, e) = get_script_type_total script fit in
    (
      t,
      e,
      elim (named_or t) [
        | inl k ↦ inl (k, rw (e, k) refl)
        | inr k ↦ let (s, n) = type_name_total t k in inr (k, s, rw e n)
      ],
    )
