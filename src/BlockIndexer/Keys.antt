-- ===== src/BlockIndexer/Keys.antt =====
-- The keys of the database: that of a block by its height is no other key that indexBlock writes.
use blockchain_indexer.Base.{
  ℕ, zero, suc, ◌+◌, ◌-◌, ◌%◌, ◌/◌, ◌≤◌, ◌<◌, ◌≡◌, refl, ap, ◌∙◌, false, ◌||◌, [], ◌∷◌, ◌++◌, Str,
  length, ◌==◌, ltb, if◌then◌else◌, arith, replicate, Bool-cases, inl, inr,
}
use blockchain_indexer.Base.Text.{text, str_eq, str_eq→eq, pad8, dec, dec_loop, setw}
use blockchain_indexer.BlockIndexer.{block_key, tx_block_key, spent_key, indexed_key}

-- The number of dashes and of letters v in a key.
unfoldable pub marks : Str → ℕ
marks [] = 0
marks (c ∷ cs) = (if c == b'-' || c == b'v' then 1 else 0) + marks cs

pub marks-append : (a b : Str) → marks (a ++ b) ≡ marks a + marks b
unfolding marks
marks-append [] b = omega arith
marks-append (c ∷ a) b = omega (arith, marks-append a b)

marks-digit : (d : ℕ) → d < 10 → marks ((48 + d) ∷ []) ≡ 0
unfolding marks
marks-digit d h = ground arith

marks-dec_loop : (f n : ℕ) → marks (dec_loop f n) ≡ 0
unfolding dec_loop
marks-dec_loop zero n = unfold marks in refl
marks-dec_loop (suc f) n = elim (Bool-cases (ltb n 10)) [
  | inl e ↦ rw e (marks-digit n (ground arith))
  | inr e ↦ rw e (
      marks-append (dec_loop f (n / 10)) ((48 + n % 10) ∷ [])
      ∙ omega (arith, marks-dec_loop f (n / 10), marks-digit (n % 10) (omega arith)))
]

marks-zeros : (n : ℕ) → marks (replicate n b'0') ≡ 0
unfolding marks
marks-zeros zero = refl
marks-zeros (suc n) = omega (arith, marks-zeros n)

pub marks-pad8 : (n : ℕ) → marks (pad8 n) ≡ 0
unfolding pad8 setw dec
marks-pad8 n =
    marks-append (replicate (8 - length (dec_loop (suc n) n)) b'0') (dec_loop (suc n) n)
    ∙ omega (arith, marks-zeros (8 - length (dec_loop (suc n) n)), marks-dec_loop (suc n) n)

pub marks-block_key : (height : ℕ) → marks (block_key height) ≡ 1
unfolding block_key marks
marks-block_key height = omega (arith, marks-pad8 height)

-- A key with two marks is not the key of a block.
pub block_key-ne : (height : ℕ) (k : Str) → 2 ≤ marks k → str_eq k (block_key height) ≡ false
block_key-ne height k h = elim (Bool-cases (str_eq k (block_key height))) [
  | inl e ↦ absurd (
      let same : marks k ≡ marks (block_key height) = ap marks (str_eq→eq _ _ e) in
      omega (arith, same, marks-block_key height))
  | inr e ↦ e
]

pub marks-in_front : (a b : Str) → marks a ≤ marks (a ++ b)
marks-in_front a b = omega (arith, marks-append a b)

pub marks-behind : (a b : Str) → marks b ≤ marks (a ++ b)
marks-behind a b = omega (arith, marks-append a b)

pub marks-indexed_key : (prefix : Str) (n : ℕ) → marks (indexed_key prefix n) ≡ suc (marks prefix)
unfolding indexed_key marks
marks-indexed_key prefix n = marks-append prefix (text "-" ++ pad8 n) ∙ omega (arith, marks-pad8 n)

pub marks-tx_block_key : (tx_hash : Str) → 2 ≤ marks (tx_block_key tx_hash)
unfolding tx_block_key marks
marks-tx_block_key tx_hash = omega (arith, marks-append tx_hash (text "-block"))

pub marks-spent_key : (tx_hash : Str) (index : ℕ) → 2 ≤ marks (spent_key tx_hash index)
unfolding spent_key marks
marks-spent_key tx_hash index =
    omega (arith, marks-append tx_hash (text "-" ++ (pad8 index ++ text "-spent")))
