-- ===== src/BlockFileWatcher/Hashes.antt =====
-- How far each chain was followed: the number of chains still followed, and what is left of them.
use blockchain_indexer.Base.{
  ℕ, zero, suc, ◌+◌, ◌≤◌, ◌<◌, ◌≡◌, refl, ap, ◌∙◌, false, List, [], ◌∷◌, Str, length, get_or, set,
  ◌==◌, Bool-cases, inl, inr, if◌then◌else◌, arith, All,
}
use blockchain_indexer.Base.Text.{str_eq}
use blockchain_indexer.BlockFileWatcher.{count_chains, first_chain}

pub length-set : (hs : List Str) (i : ℕ) (v : Str) → length (set hs i v) ≡ length hs
length-set [] i v = refl
length-set (h ∷ hs) zero v = refl
length-set (h ∷ hs) (suc i) v = ap suc (length-set hs i v)

pub set-same : (hs : List Str) (i : ℕ) → set hs i (get_or hs i []) ≡ hs
set-same [] i = refl
set-same (h ∷ hs) zero = refl
set-same (h ∷ hs) (suc i) = ap (◌∷◌ h) (set-same hs i)

pub All-set :
    (P : Str → Type 0) (hs : List Str) (i : ℕ) (v : Str) → All P hs → P v → All P (set hs i v)
All-set P [] i v a p = tt
All-set P (h ∷ hs) zero v a p = (p, a.1)
All-set P (h ∷ hs) (suc i) v a p = (a.0, All-set P hs i v a.1 p)

pub All-at :
    (P : Str → Type 0) (hs : List Str) (i : ℕ) → i < length hs → All P hs → P (get_or hs i [])
All-at P [] i h a = absurd (omega arith)
All-at P (x ∷ hs) zero h a = a.0
All-at P (x ∷ hs) (suc i) h a = All-at P hs i (omega arith) a.1

abbrev pub live : Str → ℕ
live h = if str_eq h [] then 0 else 1

pub count-set :
    (hs : List Str) (i : ℕ) (v : Str)
    → i < length hs
    → count_chains (set hs i v) + live (get_or hs i []) ≡ count_chains hs + live v
unfolding count_chains
count-set [] i v h = absurd (omega arith)
count-set (x ∷ hs) zero v h = omega arith
count-set (x ∷ hs) (suc i) v h = omega (arith, count-set hs i v (omega arith))

pub first_chain-live :
    (hs : List Str) → 0 < count_chains hs → str_eq (get_or hs (first_chain hs) []) [] ≡ false
unfolding count_chains first_chain
first_chain-live [] h = absurd (omega arith)
first_chain-live (x ∷ hs) h = elim (Bool-cases (str_eq x [])) [
  | inl e ↦
      let h' = rw e at h in
      let c : 0 < count_chains hs = omega (arith, h') in rw e (first_chain-live hs c)
  | inr e ↦ rw e e
]

pub first_chain-bound : (hs : List Str) → 0 < count_chains hs → first_chain hs < length hs
unfolding count_chains first_chain
first_chain-bound [] h = absurd (omega arith)
first_chain-bound (x ∷ hs) h = elim (Bool-cases (str_eq x [])) [
  | inl e ↦
      let h' = rw e at h in
      let c : 0 < count_chains hs = omega (arith, h') in
      rw e (omega (arith, first_chain-bound hs c))
  | inr e ↦ rw e (omega arith)
]

module _ (rank : Str → ℕ) where
  -- One more than the rank of a chain that is still followed.
  unfoldable pub weight : Str → ℕ
  weight h = if str_eq h [] then 0 else suc (rank h)

  unfoldable pub total : List Str → ℕ
  total [] = 0
  total (h ∷ hs) = weight h + total hs

  pub total-set :
      (hs : List Str) (i : ℕ) (v : Str)
      → i < length hs
      → total (set hs i v) + weight (get_or hs i []) ≡ total hs + weight v
  unfolding total
  total-set [] i v h = absurd (omega arith)
  total-set (x ∷ hs) zero v h = omega arith
  total-set (x ∷ hs) (suc i) v h = omega (arith, total-set hs i v (omega arith))

  pub weight-live : (h : Str) → str_eq h [] ≡ false → weight h ≡ suc (rank h)
  unfolding weight
  weight-live h e = rw e

  live-weight : (h : Str) → live h ≤ weight h
  unfolding weight
  live-weight h = ground arith

  pub count-total : (hs : List Str) → count_chains hs ≤ total hs
  unfolding count_chains total
  count-total [] = omega arith
  count-total (h ∷ hs) = omega (arith, live-weight h, count-total hs)

  pub weight-empty : weight [] ≡ 0
  unfolding weight str_eq
  weight-empty = refl

  -- Candidates and how far their chains were followed, with every rank within the bound.
  pub record Following (bound n : ℕ) (hs : List Str) : Type 0 where
    pub as_many : length hs ≡ n
    pub some_live : 0 < count_chains hs
    pub bounded : All (λ (h : Str). weight h ≤ suc bound) hs

  -- A chain that is followed by one block, or dropped, leaves less to do.
  pub advance :
      (bound n : ℕ) (hs : List Str) (i : ℕ) (v : Str)
      → Following bound n hs
      → i < length hs
      → str_eq (get_or hs i []) [] ≡ false
      → (count_chains hs == 1) ≡ false
      → weight v < weight (get_or hs i [])
      → Following bound n (set hs i v) × (total (set hs i v) < total hs)
  advance bound n hs i v f inside e c less =
      let live_one : live (get_or hs i []) ≡ 1 = rw e in
      let two : 2 ≤ count_chains hs = ground (arith, f.some_live) in
      let kept = count-set hs i v inside in
      let under = All-at _ hs i inside f.bounded in
      (
        record {
          as_many = length-set hs i v ∙ f.as_many;
          some_live = omega (arith, kept, live_one, two);
          bounded = All-set _ hs i v f.bounded (omega (arith, less, under));
        },
        omega (arith, total-set hs i v inside, less),
      )
