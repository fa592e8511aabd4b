-- ===== src/Dict/Keys.antt =====
-- The key types of the program's maps.
use blockchain_indexer.Base.{ℕ, Str, ◌==◌ as nat_eq, arith, ◌≡◌, true}
use blockchain_indexer.Base.Text.{str_eq, str_eq→eq, str_eq_refl}
use blockchain_indexer.Dict.{Key}

pub nat_same : (a b : ℕ) → nat_eq a b ≡ true → a ≡ b
nat_same a b h = ground arith

pub nat_refl : (a : ℕ) → nat_eq a a ≡ true
nat_refl a = ground arith

instance abbrev pub str_key : Key Str
str_key = record { same = str_eq; same→eq = str_eq→eq; same_refl = str_eq_refl }

instance abbrev pub nat_key : Key ℕ
nat_key = record { same = nat_eq; same→eq = nat_same; same_refl = nat_refl }
