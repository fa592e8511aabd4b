-- ===== src/Base/Text/Digits.antt =====
-- A number printed with leading zeros is read back by `stoull`.
use blockchain_indexer.Base.Tests.{ltb, ◌==◌, Bool-cases}
use blockchain_indexer.Base.Lists.{length, replicate, All, length-append, length-replicate}
use blockchain_indexer.Base.Outcome.{ok}
use blockchain_indexer.Base.Text.Decimal.{
  to_signed, stoll, dec, dec_loop, setw, pad8, is_digit, digits_value, starts_digit, skip_space,
  unsigned_part, signed_part, to_unsigned, stoull,
}
use blockchain_indexer.Base.Int.{pos}
use Prim.Native.Nat.{ℕ, zero, suc, ◌+◌, ◌-◌, ◌*◌, ◌/◌, ◌%◌, ◌^◌, ◌<◌, ◌≤◌}
use mathlib.Core.Path.{◌≡◌, refl, ap, ◌∙◌}
use mathlib.Core.Logic.{inl, inr}
use mathlib.Core.Bool.{true, false}
use mathlib.Core.Option.{some}
use mathlib.Core.List.{List, [], ◌∷◌, ◌++◌}
use native.Mathlib.Omega.{arith}

abbrev pub IsDigits : List ℕ → Type 0
IsDigits s = All (λ (c : ℕ). is_digit c ≡ true) s

IsDigits-append : (a b : List ℕ) → IsDigits a → IsDigits b → IsDigits (a ++ b)
IsDigits-append [] b h k = k
IsDigits-append (c ∷ a) b h k = (h.0, IsDigits-append a b h.1 k)

digit-IsDigits : (d : ℕ) → d < 10 → IsDigits ((48 + d) ∷ [])
digit-IsDigits d h = (ground arith, tt)

dec_loop-IsDigits : (f n : ℕ) → IsDigits (dec_loop f n)
unfolding dec_loop
dec_loop-IsDigits zero n = tt
dec_loop-IsDigits (suc f) n = elim (Bool-cases (ltb n 10)) [
  | inl e ↦ rw e (digit-IsDigits n (ground arith))
  | inr e ↦
      rw e
        (IsDigits-append _ _ (dec_loop-IsDigits f (n / 10)) (digit-IsDigits (n % 10) (omega arith)))
]

zeros-IsDigits : (n : ℕ) → IsDigits (replicate n b'0')
zeros-IsDigits zero = tt
zeros-IsDigits (suc n) = (refl, zeros-IsDigits n)

digits_value-digit : (acc d : ℕ) → d < 10 → digits_value acc ((48 + d) ∷ []) ≡ acc * 10 + d
unfolding digits_value
digits_value-digit acc d h = ground arith

digits_value-append :
    (a b : List ℕ) (acc : ℕ)
    → IsDigits a
    → digits_value acc (a ++ b) ≡ digits_value (digits_value acc a) b
unfolding digits_value
digits_value-append [] b acc h = refl
digits_value-append (c ∷ a) b acc h = rw (h.0) (digits_value-append a b _ h.1)

digits_value-zeros : (n : ℕ) → digits_value 0 (replicate n b'0') ≡ 0
unfolding digits_value
digits_value-zeros zero = refl
digits_value-zeros (suc n) = digits_value-zeros n

digits_value-dec_loop : (f n : ℕ) → n < f → digits_value 0 (dec_loop f n) ≡ n
unfolding dec_loop
digits_value-dec_loop zero n h = absurd (omega arith)
digits_value-dec_loop (suc f) n h = elim (Bool-cases (ltb n 10)) [
  | inl e ↦ rw e (digits_value-digit 0 n (ground arith) ∙ omega arith)
  | inr e ↦ rw e (
      digits_value-append (dec_loop f (n / 10)) _ 0 (dec_loop-IsDigits f (n / 10))
      ∙ rw (digits_value-dec_loop f (n / 10) (ground arith))
          (digits_value-digit (n / 10) (n % 10) (omega arith) ∙ omega arith))
]

dec_loop-some : (f n : ℕ) → 0 < length (dec_loop (suc f) n)
unfolding dec_loop
dec_loop-some f n = elim (Bool-cases (ltb n 10)) [
  | inl e ↦ rw e (omega arith)
  | inr e ↦ rw e (omega (arith, length-append (dec_loop f (n / 10)) ((48 + n % 10) ∷ [])))
]

-- The text of a number as the program pads it.
setw-value : (w n : ℕ) → digits_value 0 (setw w (dec n)) ≡ n
unfolding setw dec
setw-value w n =
    digits_value-append (replicate (w - length (dec_loop (suc n) n)) b'0') _ 0
      (zeros-IsDigits (w - length (dec_loop (suc n) n)))
    ∙ rw (digits_value-zeros (w - length (dec_loop (suc n) n)))
        (digits_value-dec_loop (suc n) n (omega arith))

pub setw-IsDigits : (w n : ℕ) → IsDigits (setw w (dec n))
unfolding setw dec
setw-IsDigits w n =
    IsDigits-append _ _ (zeros-IsDigits (w - length (dec_loop (suc n) n)))
      (dec_loop-IsDigits (suc n) n)

pub pad8-IsDigits : (n : ℕ) → IsDigits (pad8 n)
unfolding pad8
pad8-IsDigits n = setw-IsDigits 8 n

digit-bounds : (c : ℕ) → is_digit c ≡ true → (48 ≤ c) × (c ≤ 57)
digit-bounds c h = ground arith

skip_space-digit : (c : ℕ) (cs : List ℕ) → is_digit c ≡ true → skip_space (c ∷ cs) ≡ c ∷ cs
unfolding skip_space
skip_space-digit c cs h = let (low, high) = digit-bounds c h in ground arith

unsigned_part-digit :
    (c : ℕ) (cs : List ℕ)
    → is_digit c ≡ true
    → unsigned_part (c ∷ cs) ≡ some (digits_value 0 (c ∷ cs))
unfolding unsigned_part starts_digit
unsigned_part-digit c cs h = rw h

signed_part-digit :
    (c : ℕ) (cs : List ℕ)
    → is_digit c ≡ true
    → signed_part (c ∷ cs) ≡ some (false, digits_value 0 (c ∷ cs))
unfolding signed_part
signed_part-digit c cs h =
    let (low, high) = digit-bounds c h in
    let minus : (c == b'-') ≡ false = ground arith in
    let plus : (c == b'+') ≡ false = ground arith in rw (minus, plus, unsigned_part-digit c cs h)

stoull-IsDigits :
    (s : List ℕ)
    → IsDigits s
    → 0 < length s
    → digits_value 0 s < 2 ^ 64
    → stoull s ≡ ok (digits_value 0 s)
unfolding stoull to_unsigned
stoull-IsDigits [] d h b = absurd (omega arith)
stoull-IsDigits (c ∷ cs) d h b =
    rw (skip_space-digit c cs d.0, signed_part-digit c cs d.0) (ground arith)

pub setw-some : (w n : ℕ) → 0 < length (setw w (dec n))
unfolding setw dec
setw-some w n = omega (
  arith,
  length-append (replicate (w - length (dec_loop (suc n) n)) b'0') (dec_loop (suc n) n),
  dec_loop-some n n,
)

pub pad8-some : (n : ℕ) → 0 < length (pad8 n)
unfolding pad8
pad8-some n = setw-some 8 n

pad8-value : (n : ℕ) → digits_value 0 (pad8 n) ≡ n
unfolding pad8
pad8-value n = setw-value 8 n

-- Reading back the padded text of a 64-bit number gives it.
pub stoull-pad8 : (n : ℕ) → n < 2 ^ 64 → stoull (pad8 n) ≡ ok n
stoull-pad8 n h =
    stoull-IsDigits (pad8 n) (pad8-IsDigits n) (pad8-some n) (rw (pad8-value n) h)
    ∙ ap ok (pad8-value n)

to_signed-small : (n : ℕ) → n < 2 ^ 63 → to_signed 64 (some (false, n)) ≡ ok (pos n)
unfolding to_signed
to_signed-small n h = ground arith

stoll-IsDigits :
    (s : List ℕ)
    → IsDigits s
    → 0 < length s
    → digits_value 0 s < 2 ^ 63
    → stoll s ≡ ok (pos (digits_value 0 s))
unfolding stoll
stoll-IsDigits [] d h b = absurd (omega arith)
stoll-IsDigits (c ∷ cs) d h b =
    rw (skip_space-digit c cs d.0, signed_part-digit c cs d.0) (to_signed-small _ b)

-- Reading back the padded text of a number gives it, and so with its plain text.
pub stoll-setw : (w n : ℕ) → n < 2 ^ 63 → stoll (setw w (dec n)) ≡ ok (pos n)
stoll-setw w n h =
    stoll-IsDigits (setw w (dec n)) (setw-IsDigits w n) (setw-some w n) (rw (setw-value w n) h)
    ∙ ap (λ (k : ℕ). ok (pos k)) (setw-value w n)

pub stoll-pad8 : (n : ℕ) → n < 2 ^ 63 → stoll (pad8 n) ≡ ok (pos n)
unfolding pad8
stoll-pad8 n h = stoll-setw 8 n h

pub stoll-dec : (n : ℕ) → n < 2 ^ 63 → stoll (dec n) ≡ ok (pos n)
unfolding dec
stoll-dec n h =
    let value = digits_value-dec_loop (suc n) n (omega arith) in
    stoll-IsDigits (dec_loop (suc n) n) (dec_loop-IsDigits (suc n) n) (dec_loop-some n n)
      (rw value h)
    ∙ ap (λ (k : ℕ). ok (pos k)) value

-- 10 ^ (k + 1)
tens : ℕ → ℕ
tens zero = 10
tens (suc k) = 10 * tens k

-- A number has no more digits than its bound has zeros.
dec_loop-width : (k f n : ℕ) → n < tens k → length (dec_loop f n) ≤ suc k
unfolding dec_loop tens
dec_loop-width k zero n h = omega arith
dec_loop-width zero (suc f) n h =
    let small : ltb n 10 ≡ true = ground arith in rw small (omega arith)
dec_loop-width (suc k) (suc f) n h = elim (Bool-cases (ltb n 10)) [
  | inl e ↦ rw e (omega arith)
  | inr e ↦
      let shorter : length (dec_loop f (n / 10)) ≤ suc k =
        dec_loop-width k f (n / 10) (omega arith) in
      rw e (omega (arith, length-append (dec_loop f (n / 10)) ((48 + n % 10) ∷ []), shorter))
]

length-setw : (w n : ℕ) → length (dec_loop (suc n) n) ≤ w → length (setw w (dec n)) ≡ w
unfolding setw dec
length-setw w n width = omega (
  arith,
  width,
  length-append (replicate (w - length (dec_loop (suc n) n)) b'0') (dec_loop (suc n) n),
  length-replicate {A = ℕ} (w - length (dec_loop (suc n) n)) b'0',
)

pub length-pad8 : (n : ℕ) → n < 10 ^ 8 → length (pad8 n) ≡ 8
unfolding pad8 tens
length-pad8 n h = length-setw 8 n (dec_loop-width 7 (suc n) n h)

pub length-setw_12 : (n : ℕ) → n < 10 ^ 12 → length (setw 12 (dec n)) ≡ 12
unfolding tens
length-setw_12 n h = length-setw 12 n (dec_loop-width 11 (suc n) n h)
