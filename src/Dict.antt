-- ===== src/Dict.antt =====
-- `unordered_map` as a list of entries with distinct keys. The order of iteration, which C++ leaves
-- open, is the order of the list here.
pub mod Keys
use blockchain_indexer.Base.{
  ℕ, ◌≡◌, refl, Bool, true, false, Bool-cases, inl, inr, Option, none, some, List, [], ◌∷◌, arith,
  if◌then◌else◌,
}

pub record Key {ℓ} (K : Type ℓ) : Type ℓ where
  pub same : K → K → Bool
  pub same→eq : (a b : K) → same a b ≡ true → a ≡ b
  pub same_refl : (a : K) → same a a ≡ true

abbrev pub Dict {ℓ κ} : Type ℓ → Type κ → Type (ℓ ⊔ κ)
Dict K V = List (K × V)

module _ {ℓ κ} {K : Type ℓ} {V : Type κ} ⦃key : Key K⦄ where
  -- find(k), and m[k] where the key is there
  unfoldable pub lookup : K → Dict K V → Option V
  lookup k [] = none
  lookup k ((j, v) ∷ m) = if key.same j k then some v else lookup k m

  -- m[k] = v
  unfoldable pub insert : K → V → Dict K V → Dict K V
  insert k v [] = (k, v) ∷ []
  insert k v ((j, w) ∷ m) = if key.same j k then (j, v) ∷ m else (j, w) ∷ insert k v m

  -- erase(k)
  unfoldable pub erase : K → Dict K V → Dict K V
  erase k [] = []
  erase k ((j, v) ∷ m) = let rest = erase k m in if key.same j k then rest else (j, v) ∷ rest

  pub lookup-insert :
      (k j : K) (v : V) (m : Dict K V)
      → lookup j (insert k v m) ≡ (if key.same k j then some v else lookup j m)
  unfolding lookup insert
  lookup-insert k j v [] = refl
  lookup-insert k j v ((i, w) ∷ m) = ground (
    arith,
    lookup-insert k j v m,
    key.same→eq i k,
    key.same→eq i j,
    key.same→eq k j,
    key.same_refl i,
    key.same_refl k,
  )

  pub lookup-erase :
      (k j : K) (m : Dict K V) → lookup j (erase k m) ≡ (if key.same k j then none else lookup j m)
  unfolding lookup erase
  lookup-erase k j [] = ground arith
  lookup-erase k j ((i, w) ∷ m) = ground (
    arith,
    lookup-erase k j m,
    key.same→eq i k,
    key.same→eq i j,
    key.same→eq k j,
    key.same_refl i,
    key.same_refl k,
  )

-- No key stands twice.
module _ {ℓ κ} {K : Type ℓ} {V : Type κ} ⦃key : Key K⦄ where
  abbrev pub Distinct : Dict K V → Type κ
  Distinct [] = Unit {κ}
  Distinct ((k, v) ∷ m) = (lookup k m ≡ none) × Distinct m

  pub insert-Distinct : (k : K) (v : V) (m : Dict K V) → Distinct m → Distinct (insert k v m)
  unfolding insert
  insert-Distinct k v [] d = (unfold lookup in refl, tt)
  insert-Distinct k v ((j, w) ∷ m) d = elim (Bool-cases (key.same j k)) [
    | inl e ↦ rw e d
    | inr e ↦ rw e (rw (lookup-insert k j v m, other j k e) (d.0), insert-Distinct k v m d.1)
  ]
    where
      other : (j k : K) → key.same j k ≡ false → key.same k j ≡ false
      other j k e = ground (arith, key.same→eq k j, key.same_refl j)
