-- ===== src/ByteArrayBuffer/Places.antt =====
-- What the buffer does while its pointer stands inside the bytes.
use blockchain_indexer.Base.{
  ℕ, zero, suc, ◌+◌, ◌-◌, ◌≤◌, ◌<◌, ◌≡◌, ◌⊎◌, inl, inr, refl, ap, List, [], ◌∷◌, Bytes, length,
  take, drop, get_elem?, arith, none, some, ok, pos, negsuc, sub_ℕ, ◌+ℤ◌,
}
use blockchain_indexer.ByteArrayBuffer.{ByteArrayBuffer, uflow, xsgetn, sought}

pub add_pos : (a b : ℕ) → pos a +ℤ pos b ≡ pos (a + b)
add_pos a b = ground arith

-- The buffer over the bytes whose pointer stands at `p`.
abbrev pub standing : Bytes → ℕ → ByteArrayBuffer
standing bytes p = record { bytes = bytes; current = pos p }

module _ {ℓ} {A : Type ℓ} where
  drop-cases :
      (p : ℕ) (xs : List A)
      → p ≤ length xs
      → ((p ≡ length xs) × (drop p xs ≡ []))
        ⊎ ((x : A) × (p < length xs)
            × (get_elem? xs p ≡ some x)
            × (drop p xs ≡ x ∷ drop (suc p) xs))
  drop-cases zero [] h = inl (refl, refl)
  drop-cases zero (x ∷ xs) h = inr (x, omega arith, refl, refl)
  drop-cases (suc p) [] h = absurd (omega arith)
  drop-cases (suc p) (x ∷ xs) h = elim (drop-cases p xs (omega arith)) [
    | inl (e, d) ↦ inl (ap suc e, d)
    | inr (y, l, g, d) ↦ inr (y, omega (arith, l), g, d)
  ]

uflow-end :
    (bytes : Bytes) (p : ℕ)
    → p ≡ length bytes
    → uflow (standing bytes p) ≡ ok (none, standing bytes p)
unfolding uflow
uflow-end bytes p e = ground arith

uflow-inside :
    (bytes : Bytes) (p byte : ℕ)
    → p < length bytes
    → get_elem? bytes p ≡ some byte
    → uflow (standing bytes p) ≡ ok (some byte, standing bytes (suc p))
unfolding uflow
uflow-inside bytes p byte l g = ground (arith, add_pos p 1)

pub xsgetn-standing :
    (n p : ℕ) (bytes : Bytes)
    → p ≤ length bytes
    → xsgetn n (standing bytes p)
      ≡ ok (take n (drop p bytes), standing bytes (p + length (take n (drop p bytes))))
unfolding xsgetn
xsgetn-standing zero p bytes h = ap (λ (q : ℕ). ok ([], standing bytes q)) (omega arith)
xsgetn-standing (suc n) p bytes h = elim (drop-cases p bytes h) [
  | inl (e, d) ↦
      rw (uflow-end bytes p e, d) (ap (λ (q : ℕ). ok ([], standing bytes q)) (omega arith))
  | inr (byte, l, g, d) ↦
      rw (uflow-inside bytes p byte l g, d)
        (rw (xsgetn-standing n (suc p) bytes (omega (arith, l)))
          (ap (λ (q : ℕ). ok (byte ∷ take n (drop (suc p) bytes), standing bytes q)) (omega arith)))
]

pub sought-inside : (bytes : Bytes) (p : ℕ) → p ≤ length bytes → sought (standing bytes p) ≡ pos p
unfolding sought
sought-inside bytes p h = ground arith

pub sought-before :
    (bytes : Bytes) (n : ℕ) → sought (record { bytes = bytes; current = negsuc n }) ≡ negsuc 0
unfolding sought
sought-before bytes n = ground arith

pub back_inside : (p n : ℕ) → n ≤ p → pos p +ℤ sub_ℕ 0 n ≡ pos (p - n)
back_inside p zero h = ground arith
back_inside p (suc n) h = ground arith

pub back_outside : (p n : ℕ) → p < n → pos p +ℤ sub_ℕ 0 n ≡ negsuc (n - p - 1)
back_outside p zero h = absurd (omega arith)
back_outside p (suc n) h = ground arith
