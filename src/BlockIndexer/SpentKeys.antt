-- ===== src/BlockIndexer/SpentKeys.antt =====
-- The key of a spent output is no key of another kind that indexBlock writes.
use blockchain_indexer.Base.{
  ℕ, ◌<◌, ◌≡◌, refl, sym, ap, ◌∙◌, Bool, true, false, ◌&&◌, Bool-cases, inl, inr, [], ◌∷◌, ◌++◌,
  Str, length, get_or, ◌==◌, arith,
}
use mathlib.Core.List.{append_assoc}
use blockchain_indexer.Base.Text.{
  text, str_eq, str_eq→eq, pad8, IsDigits, pad8-IsDigits, pad8-some, is_digit,
}
use blockchain_indexer.BlockIndexer.{tx_block_key, spent_key, indexed_key}

-- The last character.
unfoldable pub last : Str → ℕ
last [] = 0
last (c ∷ []) = c
last (c ∷ d ∷ cs) = last (d ∷ cs)

-- Texts that begin with t, have o in the third place, and end with t.
unfoldable pub looks_spent : Str → Bool
looks_spent k = get_or k 0 0 == b't' && get_or k 2 0 == b'o' && last k == b't'

last-append : (xs ys : Str) → 0 < length ys → last (xs ++ ys) ≡ last ys
unfolding last
last-append [] ys h = refl
last-append (x ∷ []) [] h = absurd (omega arith)
last-append (x ∷ []) (y ∷ ys) h = refl
last-append (x ∷ z ∷ xs) ys h = last-append (z ∷ xs) ys h

last-IsDigits : (s : Str) → IsDigits s → 0 < length s → is_digit (last s) ≡ true
unfolding last
last-IsDigits [] d h = absurd (omega arith)
last-IsDigits (c ∷ []) d h = d.0
last-IsDigits (c ∷ e ∷ cs) d h = last-IsDigits (e ∷ cs) d.1 (omega arith)

other-last : (k : Str) (c : ℕ) → last k ≡ c → (c == b't') ≡ false → looks_spent k ≡ false
unfolding looks_spent
other-last k c e n = ground (arith, ap (λ (x : ℕ). x == b't') e, n)

digit-last : (k : Str) → is_digit (last k) ≡ true → looks_spent k ≡ false
unfolding looks_spent
digit-last k h = let no : (last k == b't') ≡ false = ground arith in ground (arith, no)

pub looks_spent-indexed_key : (prefix : Str) (n : ℕ) → looks_spent (indexed_key prefix n) ≡ false
unfolding indexed_key
looks_spent-indexed_key prefix n =
    let tail = text "-" ++ pad8 n in
    let some_tail : 0 < length tail = omega arith in
    let same : last (prefix ++ tail) ≡ last (pad8 n) =
      last-append prefix tail some_tail ∙ last-append (text "-") (pad8 n) (pad8-some n) in
    digit-last (prefix ++ tail) (rw same (last-IsDigits (pad8 n) (pad8-IsDigits n) (pad8-some n)))

pub looks_spent-value_key : (a b : Str) → looks_spent (a ++ (b ++ text "-value")) ≡ false
looks_spent-value_key a b =
    other-last _ b'e'
      (ap last (sym (append_assoc a b (text "-value")))
        ∙ last-append (a ++ b) (text "-value") (omega arith)
        ∙ (unfold last in refl))
      refl

pub looks_spent-tx_block_key : (h : Str) → looks_spent (tx_block_key h) ≡ false
unfolding looks_spent tx_block_key
looks_spent-tx_block_key h = refl

pub looks_spent-spent_key : (h : Str) (n : ℕ) → looks_spent (spent_key h n) ≡ true
unfolding looks_spent spent_key
looks_spent-spent_key h n =
    let front = text "txo-" ++ (h ++ (text "-" ++ pad8 n)) in
    let joined : text "txo-" ++ (h ++ (text "-" ++ (pad8 n ++ text "-spent")))
        ≡ front ++ text "-spent" =
      simp append_assoc in
    let t : last (spent_key h n) ≡ b't' =
      ap last joined ∙ last-append front (text "-spent") (omega arith) ∙ (unfold last in refl) in
    rw t

-- Keys of other kinds differ from it.
pub spent_key-ne :
    (h : Str) (n : ℕ) (k : Str) → looks_spent k ≡ false → str_eq k (spent_key h n) ≡ false
spent_key-ne h n k other = elim (Bool-cases (str_eq k (spent_key h n))) [
  | inr e ↦ e
  | inl e ↦
      let same : looks_spent k ≡ looks_spent (spent_key h n) = ap looks_spent (str_eq→eq _ _ e) in
      absurd (cc (same, other, looks_spent-spent_key h n))
]
