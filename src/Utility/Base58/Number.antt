-- ===== src/Utility/Base58/Number.antt =====
-- The text that base58 of src/utility.cpp gives, and the number that it stands for.
use blockchain_indexer.Base.{
  ℕ, zero, suc, ◌+◌, ◌-◌, ◌*◌, ◌/◌, ◌^◌, ◌≤◌, ◌<◌, ◌≡◌, refl, sym, ap, ◌∙◌, inl, inr, Bool-cases,
  List, [], ◌∷◌, ◌++◌, map, reverse, Bytes, IsByte, All, length, take, drop, replicate, get_or,
  arith, ◌==◌, ◌%◌, ltb, true, pos, ok, length-drop, length-replicate,
}
use mathlib.Core.List.{reverse_aux}
use blockchain_indexer.Utility.{
  count_zeroes, skip_zeroes, base58, base58_size, base58_room, psz_base58,
}
use blockchain_indexer.Utility.Base58.{
  le58, be256, be58, Digits58, ZeroFrom, le58-zero, base58_loop_total, room,
}
use native.Mathlib.Nat.{pow-zero, pow-succ', mul_assoc, mul-le-mul_right}

-- No zero stands in front.
unfoldable pub Leading : List ℕ → Type 0
Leading [] = Unit
Leading (d ∷ ds) = 0 < d

be256_bound :
    (acc : ℕ) (bytes : Bytes) → All IsByte bytes → be256 acc bytes < (acc + 1) * 256 ^ length bytes
unfolding be256
be256_bound acc [] h = rw (pow-zero 256) (omega arith)
be256_bound acc (b ∷ bs) (small, h) =
    let bound = be256_bound (256 * acc + b) bs h in
    let wide : 256 * acc + b + 1 ≤ (acc + 1) * 256 = omega (arith, small) in
    let above = mul-le-mul_right (256 ^ length bs) wide in
    let apart : (acc + 1) * 256 * 256 ^ length bs ≡ (acc + 1) * 256 ^ suc (length bs) =
      mul_assoc (acc + 1) 256 (256 ^ length bs)
      ∙ ap (λ (k : ℕ). (acc + 1) * k) (sym (pow-succ' 256 (length bs))) in
    omega (arith, bound, above, apart)

drop-All : (n : ℕ) (bytes : Bytes) → All IsByte bytes → All IsByte (drop n bytes)
drop-All zero bytes h = h
drop-All (suc n) [] h = tt
drop-All (suc n) (b ∷ bs) h = drop-All n bs h.1

be256-drop : (bytes : Bytes) → be256 0 (drop (count_zeroes bytes) bytes) ≡ be256 0 bytes
unfolding be256 count_zeroes
be256-drop [] = refl
be256-drop (b ∷ bs) = elim (Bool-cases (b == 0)) [
  | inl z ↦ let nothing : 256 * 0 + b ≡ 0 = ground arith in rw (z, nothing) (be256-drop bs)
  | inr n ↦ rw n refl
]

le58-take : (k : ℕ) (ds : List ℕ) → ZeroFrom k ds → le58 (take k ds) ≡ le58 ds
unfolding le58 ZeroFrom
le58-take zero ds z = sym (le58-zero ds z)
le58-take (suc k) [] z = refl
le58-take (suc k) (d ∷ ds) z = omega (arith, le58-take k ds z)

take-Digits58 : (k : ℕ) (ds : List ℕ) → Digits58 ds → Digits58 (take k ds)
take-Digits58 zero ds h = tt
take-Digits58 (suc k) [] h = tt
take-Digits58 (suc k) (d ∷ ds) (b, h) = (b, take-Digits58 k ds h)

reverse_aux-Digits58 :
    (ds front : List ℕ) → Digits58 ds → Digits58 front → Digits58 (reverse_aux ds front)
reverse_aux-Digits58 [] front h k = k
reverse_aux-Digits58 (d ∷ ds) front (b, h) k = reverse_aux-Digits58 ds (d ∷ front) h (b, k)

be58-reverse_aux : (ds front : List ℕ) → be58 0 (reverse_aux ds front) ≡ be58 (le58 ds) front
unfolding be58 le58
be58-reverse_aux [] front = refl
be58-reverse_aux (d ∷ ds) front = be58-reverse_aux ds (d ∷ front)

be58-skip_zeroes : (ds : List ℕ) → be58 0 (skip_zeroes ds) ≡ be58 0 ds
unfolding be58 skip_zeroes
be58-skip_zeroes [] = refl
be58-skip_zeroes (d ∷ ds) = elim (Bool-cases (d == 0)) [
  | inl z ↦ let nothing : d + 58 * 0 ≡ 0 = ground arith in rw (z, nothing) (be58-skip_zeroes ds)
  | inr n ↦ rw n refl
]

skip_zeroes-Digits58 : (ds : List ℕ) → Digits58 ds → Digits58 (skip_zeroes ds)
unfolding skip_zeroes
skip_zeroes-Digits58 [] h = tt
skip_zeroes-Digits58 (d ∷ ds) h = elim (Bool-cases (d == 0)) [
  | inl z ↦ rw z (skip_zeroes-Digits58 ds h.1)
  | inr n ↦ rw n h
]

skip_zeroes-Leading : (ds : List ℕ) → Leading (skip_zeroes ds)
unfolding skip_zeroes Leading
skip_zeroes-Leading [] = tt
skip_zeroes-Leading (d ∷ ds) = elim (Bool-cases (d == 0)) [
  | inl z ↦ rw z (skip_zeroes-Leading ds)
  | inr n ↦ let above : 0 < d = ground arith in rw n above
]

replicate-zeroes :
    (n : ℕ) → Digits58 (replicate n 0) × ZeroFrom 0 (replicate n 0) × (le58 (replicate n 0) ≡ 0)
unfolding ZeroFrom le58
replicate-zeroes zero = (tt, tt, refl)
replicate-zeroes (suc n) =
    let (d, z, v) = replicate-zeroes n in ((omega arith, d), (refl, z), omega (arith, v))

-- Digits to base 58 without a zero in front, as characters behind a '1' for each zero byte in front.
abbrev pub Spelled : Bytes → List ℕ → Type 0
Spelled input ds =
    (base58 input ≡ ok (replicate (count_zeroes input) b'1' ++ map (λ d. get_or psz_base58 d 0) ds))
    × Digits58 ds
    × Leading ds
    × (be58 0 ds ≡ be256 0 input)

enough_room :
    (input : Bytes)
    → All IsByte input
    → be256 0 (drop (count_zeroes input) input)
      < 58 ^ ((length input - count_zeroes input) * 138 / 100 + 1)
enough_room input h =
    let rest = drop (count_zeroes input) input in
    let bound = be256_bound 0 rest (drop-All (count_zeroes input) input h) in
    let wide = room (length input - count_zeroes input) in
    let measured : 256 ^ length rest ≡ 256 ^ (length input - count_zeroes input) =
      ap (λ (k : ℕ). 256 ^ k) (length-drop (count_zeroes input) input) in
    omega (arith, bound, wide, measured)

-- The size of a short input is an `int`.
base58_size-exact :
    (remaining : ℕ) → remaining < 2 ^ 30 → base58_size remaining ≡ pos (remaining * 138 / 100 + 1)
unfolding base58_size
base58_size-exact remaining h =
    let whole : remaining * 138 % 2 ^ 64 ≡ remaining * 138 = omega arith in
    let small : (remaining * 138 / 100 + 1) % 2 ^ 32 ≡ remaining * 138 / 100 + 1 = omega arith in
    let positive : ltb (remaining * 138 / 100 + 1) (2 ^ 31) ≡ true = ground arith in
    rw (whole, small, positive) refl

-- For every input of fewer than 2 ^ 30 bytes the size that base58 computes is an int, its assertion
-- holds, with the space of that size, and the text is a 1 for each zero byte in front, and then the
-- characters of digits below 58, the first of them not 0, which stand for the same number to base
-- 58 as the bytes do to base 256.
pub base58-Spelled :
    (input : Bytes) → All IsByte input → length input < 2 ^ 30 → (ds : List ℕ) × Spelled input ds
unfolding base58 be58 base58_room
base58-Spelled input h small_input =
    let zeroes = count_zeroes input in
    let rest = drop zeroes input in
    let size = (length input - zeroes) * 138 / 100 + 1 in
    let (small, none, nothing) = replicate-zeroes size in
    let fits : be256 (le58 (replicate size 0)) rest < 58 ^ length (replicate size 0) =
      rw (nothing, length-replicate {A = ℕ} size 0) (enough_room input h) in
    let (r, runs, added) = base58_loop_total rest (replicate size 0) 0 small none fits in
    let kept = take r.1 r.0 in
    let kept-Digits58 = take-Digits58 r.1 r.0 added.digits58 in
    (
      skip_zeroes (reverse kept),
      (
        rw (base58_size-exact (length input - zeroes) (omega arith)) (rw runs refl),
        skip_zeroes-Digits58 (reverse kept) (reverse_aux-Digits58 kept [] kept-Digits58 tt),
        skip_zeroes-Leading (reverse kept),
        be58-skip_zeroes (reverse kept)
            ∙ be58-reverse_aux kept []
            ∙ le58-take r.1 r.0 added.zeroes
            ∙ added.total
            ∙ ap (λ (n : ℕ). be256 n rest) nothing
            ∙ be256-drop input,
      ),
    )
