-- ===== src/Base/Text/Decimal.antt =====
-- Decimal output of `operator<<` and `std::to_string`, `setw` with `setfill('0')`, `substr`, and the
-- conversions `stoi`, `stol`, `stoll`, `stoull` of the standard library.
use blockchain_indexer.Base.Tests.{ltb, leb, ◌==◌, if◌then◌else◌}
use blockchain_indexer.Base.Lists.{length, take, drop, replicate}
use blockchain_indexer.Base.Int.{ℤ, pos, negsuc}
use blockchain_indexer.Base.Outcome.{Result, ok, err, invalid_argument, out_of_range}
use Prim.Native.Nat.{ℕ, zero, suc, ◌+◌, ◌-◌, ◌*◌, ◌/◌, ◌%◌, ◌^◌}
use mathlib.Core.Bool.{Bool, true, false, ◌&&◌, ◌||◌}
use mathlib.Core.Option.{Option, none, some}
use mathlib.Core.List.{List, [], ◌∷◌, ◌++◌}

-- The fuel exceeds the number of digits, so the case of no fuel is not reached.
unfoldable pub dec_loop : ℕ → ℕ → List ℕ
dec_loop zero n = []
dec_loop (suc f) n =
    let rest = dec_loop f (n / 10) ++ (48 + n % 10) ∷ [] in if ltb n 10 then (48 + n) ∷ [] else rest

unfoldable pub dec : ℕ → List ℕ
unfolding dec_loop
dec n = dec_loop (suc n) n

unfoldable pub dec_ℤ : ℤ → List ℕ
unfolding dec
dec_ℤ (pos n) = dec n
dec_ℤ (negsuc n) = b'-' ∷ dec (suc n)

-- `setw(w) << setfill('0')`: a longer text is not cut.
unfoldable pub setw : ℕ → List ℕ → List ℕ
setw w s = replicate (w - length s) b'0' ++ s

unfoldable pub pad8 : ℕ → List ℕ
unfolding setw dec
pad8 n = setw 8 (dec n)

-- `s.substr(at, n)`: it throws if `at` lies beyond the end.
unfoldable pub substr : ℕ → ℕ → List ℕ → Result (List ℕ)
substr at n s = if ltb (length s) at then err out_of_range else ok (take n (drop at s))

abbrev pub is_digit : ℕ → Bool
is_digit c = leb b'0' c && leb c b'9'

-- The value of the digits at the front, after those read so far.
unfoldable pub digits_value : ℕ → List ℕ → ℕ
digits_value acc [] = acc
digits_value acc (c ∷ cs) =
    let rest = digits_value (acc * 10 + (c - 48)) cs in if is_digit c then rest else acc

unfoldable pub starts_digit : List ℕ → Bool
starts_digit [] = false
starts_digit (c ∷ cs) = is_digit c

unfoldable pub skip_space : List ℕ → List ℕ
skip_space [] = []
skip_space (c ∷ cs) =
    let rest = skip_space cs in if c == b' ' || leb 9 c && leb c 13 then rest else c ∷ cs

-- Sign and magnitude; `none` if no conversion could be performed.
unfoldable pub unsigned_part : List ℕ → Option ℕ
unfolding starts_digit digits_value
unsigned_part s = if starts_digit s then some (digits_value 0 s) else none

unfoldable pub signed_part : List ℕ → Option (Bool × ℕ)
unfolding unsigned_part
signed_part [] = none
signed_part (c ∷ cs) =
    if c == b'-'
    then elim (unsigned_part cs) [ none ↦ none | some n ↦ some (true, n) ]
    else if c == b'+'
    then elim (unsigned_part cs) [ none ↦ none | some n ↦ some (false, n) ]
    else elim (unsigned_part (c ∷ cs)) [ none ↦ none | some n ↦ some (false, n) ]

-- Signed conversion to `w` bits: `stoi` at 32, `stol` and `stoll` at 64.
unfoldable pub to_signed : ℕ → Option (Bool × ℕ) → Result ℤ
to_signed w none = err invalid_argument
to_signed w (some (false, n)) = if ltb n (2 ^ (w - 1)) then ok (pos n) else err out_of_range
to_signed w (some (true, zero)) = ok (pos 0)
to_signed w (some (true, suc n)) = if ltb n (2 ^ (w - 1)) then ok (negsuc n) else err out_of_range

unfoldable pub stoi : List ℕ → Result ℤ
unfolding to_signed signed_part skip_space
stoi s = to_signed 32 (signed_part (skip_space s))

unfoldable pub stoll : List ℕ → Result ℤ
unfolding to_signed signed_part skip_space
stoll s = to_signed 64 (signed_part (skip_space s))

-- A minus sign negates the result modulo 2 ^ 64.
unfoldable pub to_unsigned : Option (Bool × ℕ) → Result ℕ
to_unsigned none = err invalid_argument
to_unsigned (some (minus, n)) =
    if ltb n (2 ^ 64) then ok (if minus then (2 ^ 64 - n) % 2 ^ 64 else n) else err out_of_range

unfoldable pub stoull : List ℕ → Result ℕ
unfolding to_unsigned signed_part skip_space
stoull s = to_unsigned (signed_part (skip_space s))
