-- ===== src/ScriptSolver/Templates.antt =====
-- The tests of a script against a template: when they get through, and what they find.
use blockchain_indexer.Base.{
  ℕ, ◌<◌, ◌≡◌, refl, Bool, true, false, Bool-cases, inl, inr, ◌==◌, ==_iff, List, [], ◌∷◌, All, ap,
  ◌&&◌, Bytes, length, get_or, arith, ltb, Result, ok,
}
use blockchain_indexer.ScriptSolver.{at_, all_at, template, ◌||?◌}

-- A computation that gets through.
abbrev pub Returns : {A : Type 0} → Result A → Type 0
Returns {A = A} r = (a : A) × (r ≡ ok a)

pub at_-inside :
    (script : Bytes) (i : ℕ) → i < length script → at_ script i ≡ ok (get_or script i 0)
unfolding at_
at_-inside script i h = let t : ltb i (length script) ≡ true = ground arith in rw t refl

pub all_at-Returns :
    (tests : List (ℕ × ℕ)) (script : Bytes)
    → All (λ (t : ℕ × ℕ). t.0 < length script) tests
    → Returns (all_at tests script)
unfolding all_at
all_at-Returns [] script h = (true, refl)
all_at-Returns ((i, byte) ∷ tests) script h = elim (Bool-cases (byte == get_or script i 0)) [
  | inl e ↦
      let (b, rest) = all_at-Returns tests script h.1 in (b, rw (at_-inside script i h.0, e) rest)
  | inr e ↦ (false, rw (at_-inside script i h.0, e) refl)
]

-- All indices are below a size.
abbrev indices_below : ℕ → List (ℕ × ℕ) → Bool
indices_below size [] = true
indices_below size ((i, byte) ∷ tests) = ltb i size && indices_below size tests

below :
    (size : ℕ) (tests : List (ℕ × ℕ))
    → indices_below size tests ≡ true
    → All (λ (t : ℕ × ℕ). t.0 < size) tests
below size [] h = tt
below size ((i, byte) ∷ tests) h = elim (Bool-cases (ltb i size)) [
  | inl e ↦ (ground arith, below size tests (rw e at h))
  | inr e ↦ absurd (ground arith)
]

-- A template whose indices are below its size reads nothing out of range.
pub template-Returns :
    (size : ℕ) (tests : ℕ → List (ℕ × ℕ)) (script : Bytes)
    → indices_below size (tests size) ≡ true
    → Returns (template size tests script)
unfolding template
template-Returns size tests script h = elim (Bool-cases (size == length script)) [
  | inl e ↦
      let same = (==_iff size (length script)).0 e in
      rw e (
        all_at-Returns (tests (length script)) script
          (below (length script) (tests (length script)) (rw same at h)))
  | inr e ↦ (false, rw e refl)
]

pub template-other :
    (size : ℕ) (tests : ℕ → List (ℕ × ℕ)) (script : Bytes)
    → (size == length script) ≡ false
    → template size tests script ≡ ok false
unfolding template
template-other size tests script h = rw h refl

all_at-holds :
    (tests : List (ℕ × ℕ)) (script : Bytes)
    → All (λ (t : ℕ × ℕ). (t.0 < length script) × (get_or script t.0 0 ≡ t.1)) tests
    → all_at tests script ≡ ok true
unfolding all_at
all_at-holds [] script h = refl
all_at-holds ((i, byte) ∷ tests) script ((inside, e), h) =
    let same : (byte == get_or script i 0) ≡ true = ground arith in
    rw (at_-inside script i inside, same) (all_at-holds tests script h)

pub template-holds :
    (size : ℕ) (tests : ℕ → List (ℕ × ℕ)) (script : Bytes)
    → length script ≡ size
    → All (λ (t : ℕ × ℕ). (t.0 < length script) × (get_or script t.0 0 ≡ t.1)) (tests size)
    → template size tests script ≡ ok true
unfolding template
template-holds size tests script e h =
    let same : (size == length script) ≡ true = ground arith in
    let chosen : tests (length script) ≡ tests size = ap tests e in
    rw same (all_at-holds (tests (length script)) script (rw chosen h))

pub ||?-Returns : {a b : Result Bool} → Returns a → Returns b → Returns (a ||? b)
||?-Returns (true, e) s = rw e (true, refl)
||?-Returns (false, e) s = rw e s
