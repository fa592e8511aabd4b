-- ===== src/Utility/Base58.antt =====
-- base58 of src/utility.cpp: its assertion holds, and its digits are those of the input's number.
pub mod Number
use blockchain_indexer.Base.{
  ℕ, zero, suc, ◌+◌, ◌-◌, ◌*◌, ◌/◌, ◌%◌, ◌^◌, ◌≤◌, ◌<◌, ◌≡◌, ◌⊎◌, refl, sym, ap, ◌∙◌, inl, inr,
  Bool, true, false, not, ◌||◌, Bool-cases, List, [], ◌∷◌, ◌++◌, map, reverse, Bytes, IsByte, All,
  length, take, drop, replicate, get_or, arith, ltb, leb, leb→le, all_below, below-all_below, ◌==◌,
  if◌then◌else◌, Result, ok, err, assertion, ◌>>=◌,
}
use blockchain_indexer.Utility.{
  count_zeroes, base58_carry, base58_loop, skip_zeroes, base58, psz_base58,
}
use native.Mathlib.Nat.{pow-zero, pow-succ', mul_assoc, mul-le-mul_left, mul-le-mul}

-- The number of digits to base 58, the lowest first.
unfoldable pub le58 : List ℕ → ℕ
le58 [] = 0
le58 (d ∷ ds) = d + 58 * le58 ds

-- The number of bytes, and of digits to base 58, the highest first, behind a number.
unfoldable pub be256 : ℕ → Bytes → ℕ
be256 acc [] = acc
be256 acc (b ∷ bs) = be256 (256 * acc + b) bs

unfoldable pub be58 : ℕ → List ℕ → ℕ
be58 acc [] = acc
be58 acc (d ∷ ds) = be58 (d + 58 * acc) ds

abbrev pub Digits58 : List ℕ → Type 0
Digits58 ds = All (λ (d : ℕ). d < 58) ds

-- From a place on, all digits are 0.
unfoldable ZeroFrom : ℕ → List ℕ → Type 0
ZeroFrom k [] = Unit
ZeroFrom zero (d ∷ ds) = (d ≡ 0) × ZeroFrom zero ds
ZeroFrom (suc k) (d ∷ ds) = ZeroFrom k ds

le58-zero : (ds : List ℕ) → ZeroFrom zero ds → le58 ds ≡ 0
unfolding ZeroFrom le58
le58-zero [] h = refl
le58-zero (d ∷ ds) (e, h) = omega (arith, e, le58-zero ds h)

ZeroFrom-tail : (k d : ℕ) (ds : List ℕ) → ZeroFrom k (d ∷ ds) → ZeroFrom (k - 1) ds
unfolding ZeroFrom
ZeroFrom-tail zero d ds h = h.1
ZeroFrom-tail (suc k) d ds h = let e : suc k - 1 ≡ k = omega arith in rw e h

-- What the inner loop must leave: the digits, the carry, and where it has stopped.
record Carried (ds : List ℕ) (carry i : ℕ) (r : List ℕ × ℕ × ℕ) : Type 0 where
  stop : ℕ
  stops : r.2 ≡ i + stop
  zeroes : ZeroFrom stop r.0
  digits : Digits58 r.0
  same : length r.0 ≡ length ds
  total : le58 r.0 + 58 ^ length ds * r.1 ≡ carry + 256 * le58 ds

shift : (n carry : ℕ) → 58 ^ suc n * carry ≡ 58 * (58 ^ n * carry)
shift n carry = ap (λ (p : ℕ). p * carry) (pow-succ' 58 n) ∙ mul_assoc 58 (58 ^ n) carry

Carried-on :
    (d : ℕ) (ds : List ℕ) (carry i : ℕ) (r : List ℕ × ℕ × ℕ)
    → Carried ds ((carry + 256 * d) / 58) (i + 1) r
    → Carried (d ∷ ds) carry i ((carry + 256 * d) % 58 ∷ r.0, r.1, r.2)
unfolding le58 ZeroFrom
Carried-on d ds carry i r c =
    let stops = c.stops in
    let total = c.total in
    let shifted = shift (length ds) r.1 in
    record {
      stop = suc c.stop;
      stops = omega (arith, stops);
      zeroes = c.zeroes;
      digits = (omega arith, c.digits);
      same = ap suc c.same;
      total = omega (arith, total, shifted);
    }

Carried-off : (ds : List ℕ) (i : ℕ) → Digits58 ds → ZeroFrom zero ds → Carried ds 0 i (ds, 0, i)
Carried-off ds i h z =
    let none = le58-zero ds z in
    record {
      stop = 0;
      stops = omega arith;
      zeroes = z;
      digits = h;
      same = refl;
      total = omega (arith, none);
    }

carried :
    (ds : List ℕ) (carry i length_now : ℕ)
    → Digits58 ds
    → ZeroFrom (length_now - i) ds
    → Carried ds carry i (base58_carry ds carry i length_now)
unfolding base58_carry le58 ZeroFrom
carried [] carry i length_now h z = record {
  stop = 0;
  stops = omega arith;
  zeroes = tt;
  digits = tt;
  same = refl;
  total = omega arith;
}
carried (d ∷ ds) carry i length_now (b, h) z =
    let tail = ZeroFrom-tail (length_now - i) d ds z in
    let same : length_now - i - 1 ≡ length_now - (i + 1) = omega arith in
    let rest = carried ds ((carry + 256 * d) / 58) (i + 1) length_now h (rw same at tail) in
    elim (Bool-cases (not (carry == 0) || ltb i length_now)) [
      | inl t ↦ rw t (Carried-on d ds carry i _ rest)
      | inr t ↦
          let nothing : carry ≡ 0 = ground arith in
          let past : length_now - i ≡ 0 = ground arith in
          rw t (rw nothing (Carried-off (d ∷ ds) i (b, h) (rw past at z)))
    ]

be256_grows : (acc : ℕ) (bytes : Bytes) → acc ≤ be256 acc bytes
unfolding be256
be256_grows acc [] = omega arith
be256_grows acc (b ∷ bs) = omega (arith, be256_grows (256 * acc + b) bs)

-- No carry is left where the number fits the digits.
no_carry :
    (ds : List ℕ) (carry : ℕ) (r : List ℕ × ℕ × ℕ)
    → Carried ds carry 0 r
    → carry + 256 * le58 ds < 58 ^ length ds
    → r.1 ≡ 0
no_carry ds carry r c fits = elim (pos_cases r.1) [
  | inl z ↦ z
  | inr p ↦
      let total = c.total in
      let above = mul-le-mul_left (58 ^ length ds) p in absurd (omega (arith, total, above, fits))
]
  where
    pos_cases : (n : ℕ) → (n ≡ 0) ⊎ (1 ≤ n)
    pos_cases zero = inl refl
    pos_cases (suc n) = inr (omega arith)

-- The bytes are added to the digits one after the other.
record Added (digits : List ℕ) (bytes : Bytes) (r : List ℕ × ℕ) : Type 0 where
  digits58 : Digits58 r.0
  zeroes : ZeroFrom r.1 r.0
  total : le58 r.0 ≡ be256 (le58 digits) bytes

base58_loop-cons :
    (b : ℕ) (bs : Bytes) (digits : List ℕ) (length_now : ℕ)
    → (base58_carry digits b 0 length_now).1 ≡ 0
    → base58_loop (b ∷ bs) digits length_now
      ≡ (let r = base58_carry digits b 0 length_now in base58_loop bs r.0 r.2)
unfolding base58_loop
base58_loop-cons b bs digits length_now none =
    ap
      (λ (carry : ℕ).
        let r = base58_carry digits b 0 length_now in
        if carry == 0 then base58_loop bs r.0 r.2 else err assertion)
      none

base58_loop_total :
    (bytes : Bytes) (digits : List ℕ) (length_now : ℕ)
    → Digits58 digits
    → ZeroFrom length_now digits
    → be256 (le58 digits) bytes < 58 ^ length digits
    → (r : List ℕ × ℕ) × (base58_loop bytes digits length_now ≡ ok r) × Added digits bytes r
unfolding base58_loop be256
base58_loop_total [] digits length_now h z fits =
    ((digits, length_now), refl, record { digits58 = h; zeroes = z; total = refl })
base58_loop_total (b ∷ bs) digits length_now h z fits =
    let c = carried digits b 0 length_now h (rw (zero_less length_now) z) in
    let r = base58_carry digits b 0 length_now in
    let grows = be256_grows (256 * le58 digits + b) bs in
    let none : r.1 ≡ 0 = no_carry digits b r c (omega (arith, grows, fits)) in
    let total = c.total in
    let value : le58 r.0 ≡ 256 * le58 digits + b =
      omega (arith, total, ap (λ (n : ℕ). 58 ^ length digits * n) none) in
    let stops = c.stops in
    let at : r.2 ≡ c.stop = omega (arith, stops) in
    let (last, runs, added) =
      base58_loop_total bs r.0 r.2 c.digits (rw at c.zeroes) (rw (value, c.same) fits) in
    (
      last,
      base58_loop-cons b bs digits length_now none ∙ runs,
      record {
        digits58 = added.digits58;
        zeroes = added.zeroes;
        total = added.total ∙ ap (λ (n : ℕ). be256 n bs) value;
      },
    )
  where
    zero_less : (n : ℕ) → n - 0 ≡ n
    zero_less n = omega arith

-- 58 ^ 138 is more than 256 ^ 100, and within the first hundred the quotients are enough too.
remainders : all_below (λ r. leb (256 ^ r) (58 ^ (r * 138 / 100 + 1))) 100 ≡ true
unfolding all_below
remainders = refl

hundred : 256 ^ 100 ≤ 58 ^ 138
hundred = leb→le (256 ^ 100) (58 ^ 138) refl

pow_sum : (b m n : ℕ) → b ^ (m + n) ≡ b ^ m * b ^ n
pow_sum b zero n = ap (λ (k : ℕ). b ^ k) plus_zero ∙ one_times
  where
    plus_zero : 0 + n ≡ n
    plus_zero = omega arith

    one_times : b ^ n ≡ b ^ 0 * b ^ n
    one_times = rw (pow-zero b) (omega arith)
pow_sum b (suc m) n =
    let next : suc m + n ≡ suc (m + n) = omega arith in
    ap (λ (k : ℕ). b ^ k) next
    ∙ pow-succ' b (m + n)
    ∙ ap (λ (k : ℕ). b * k) (pow_sum b m n)
    ∙ sym (mul_assoc b (b ^ m) (b ^ n))
    ∙ ap (λ (k : ℕ). k * b ^ n) (sym (pow-succ' b m))

room_of : (q r : ℕ) → r < 100 → 256 ^ (q * 100 + r) ≤ 58 ^ (q * 138 + (r * 138 / 100 + 1))
room_of zero r h =
    let small =
      leb→le (256 ^ r) (58 ^ (r * 138 / 100 + 1))
        (below-all_below (λ r. leb (256 ^ r) (58 ^ (r * 138 / 100 + 1))) 100 r h remainders) in
    let low : r ≡ 0 * 100 + r = omega arith in
    let high : r * 138 / 100 + 1 ≡ 0 * 138 + (r * 138 / 100 + 1) = omega arith in
    rw (← low, ← high) small
room_of (suc q) r h =
    let more = mul-le-mul hundred (room_of q r h) in
    let low : suc q * 100 + r ≡ 100 + (q * 100 + r) = omega arith in
    let high : suc q * 138 + (r * 138 / 100 + 1) ≡ 138 + (q * 138 + (r * 138 / 100 + 1)) =
      omega arith in
    rw (low, high, pow_sum 256 100 (q * 100 + r), pow_sum 58 138 (q * 138 + (r * 138 / 100 + 1)))
      more

room : (n : ℕ) → 256 ^ n ≤ 58 ^ (n * 138 / 100 + 1)
room n =
    let whole : n / 100 * 100 + n % 100 ≡ n = omega arith in
    let share : n / 100 * 138 + (n % 100 * 138 / 100 + 1) ≡ n * 138 / 100 + 1 = omega arith in
    rw (whole, share) at (room_of (n / 100) (n % 100) (omega arith))
