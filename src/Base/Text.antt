-- ===== src/Base/Text.antt =====
-- `std::string` as a list of bytes: comparison, decimal printing and parsing, `setw`, `substr`.
mod Decimal
mod Order
mod Digits
unfoldable pub use Decimal.*
unfoldable pub use Order.*
pub use Digits.{
  stoull-pad8, stoll-pad8, stoll-dec, length-pad8, IsDigits, pad8-IsDigits, pad8-some, stoll-setw,
  length-setw_12, setw-IsDigits,
}
use Prim.Native.Char.{code}
use Prim.Native.String.{String}
use mathlib.Core.List.{List, [], ◌∷◌}
use Prim.Native.Nat.{ℕ}

-- The bytes of an ASCII literal. `String` has its own `[]` and `∷`.
abbrev pub text : String → List ℕ
text String.[] = []
text (String.◌∷◌ c s) = code c ∷ text s
