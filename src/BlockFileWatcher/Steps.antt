-- ===== src/BlockFileWatcher/Steps.antt =====
-- The steps of `findLongestChain`: what each way through its loop needs in order to end.
use blockchain_indexer.Base.{
  ℕ, zero, suc, ◌+◌, ◌≤◌, ◌<◌, ◌≡◌, ◌≢◌, refl, ◌∙◌, ap, ◌⊎◌, inl, inr, true, false, Bool-cases,
  List, [], ◌∷◌, map, Str, length, get_or, set, ltb, leb, ◌==◌, if◌then◌else◌, arith, All, Result,
  ok, none, some,
}
use blockchain_indexer.Base.Text.{str_eq}
use blockchain_indexer.Types.{ScannedBlock}
use blockchain_indexer.Dict.{lookup}
use blockchain_indexer.Dict.Keys.{str_key}
use blockchain_indexer.BlockFileWatcher.{
  Blocks, bucket, bucket_or_none, count_chains, first_chain, block_at, longest,
}
use blockchain_indexer.BlockFileWatcher.Chain.{Candidate}
use blockchain_indexer.BlockFileWatcher.Hashes.{first_chain-bound}

-- The blocks are a forest: no vector is empty, no block follows the empty hash, and the hash of each
-- block is below that of the block before it.
abbrev pub IsBelow : (Str → ℕ) → ℕ → ScannedBlock → Type 0
IsBelow rank bound b = (rank b.block_hash < bound) × (str_eq b.block_hash [] ≡ false)

pub record Forest (blocks : Blocks) (rank : Str → ℕ) : Type 0 where
  pub no_empty : lookup [] blocks ≡ none
  pub filled : (h : Str) (bs : List ScannedBlock) → lookup h blocks ≡ some bs → 0 < length bs
  pub falls :
      (h : Str) (bs : List ScannedBlock)
      → lookup h blocks ≡ some bs
      → All (IsBelow rank (rank h)) bs

pub decide_eq : (i j : ℕ) → (i ≡ j) ⊎ (i ≢ j)
decide_eq i j = ground arith

pub by_suc :
    (P : ℕ → Type 0) (n : ℕ) → ((f : ℕ) → n ≤ f → P (suc f)) → (fuel : ℕ) → suc n ≤ fuel → P fuel
by_suc P n g zero h = absurd (omega arith)
by_suc P n g (suc f) h = g f (omega arith)

pub All-get :
    (P : ScannedBlock → Type 0) (bs : List ScannedBlock) (b : ScannedBlock)
    → All P bs
    → Candidate b bs
    → P b
All-get P [] b a (k, e) = cc
All-get P (x ∷ xs) b a (zero, e) = let same : x ≡ b = cc e in rw (← same) a.0
All-get P (x ∷ xs) b a (suc k, e) = All-get P xs b a.1 (k, e)

pub All-weaken :
    (rank : Str → ℕ) (low high : ℕ) (bs : List ScannedBlock)
    → low ≤ high
    → All (IsBelow rank low) bs
    → All (IsBelow rank high) bs
All-weaken rank low high [] h a = tt
All-weaken rank low high (b ∷ bs) h a =
    let lt = a.0.0 in ((omega (arith, lt), a.0.1), All-weaken rank low high bs h a.1)

module _ (blocks : Blocks) where
  -- With enough fuel the search gives one block, whatever the fuel.
  abbrev pub Ends : List ScannedBlock → List Str → ℕ → Type 0
  Ends m hs i =
      (n : ℕ) × (best : ScannedBlock) × ((fuel : ℕ)
        → n ≤ fuel
        → longest fuel blocks m hs i ≡ ok best)

  pub longest-again :
      (f : ℕ) (m : List ScannedBlock) (hs : List Str) (i : ℕ)
      → leb (length hs) i ≡ true
      → longest (suc f) blocks m hs i ≡ longest f blocks m hs 0
  unfolding longest
  longest-again f m hs i e = rw e

  pub longest-done :
      (f : ℕ) (m : List ScannedBlock) (hs : List Str) (i : ℕ)
      → leb (length hs) i ≡ false
      → (count_chains hs == 1) ≡ true
      → longest (suc f) blocks m hs i ≡ block_at m (first_chain hs)
  unfolding longest
  longest-done f m hs i e c = rw (e, c)

  pub longest-dropped :
      (f : ℕ) (m : List ScannedBlock) (hs : List Str) (i : ℕ)
      → leb (length hs) i ≡ false
      → (count_chains hs == 1) ≡ false
      → lookup (get_or hs i []) blocks ≡ none
      → longest (suc f) blocks m hs i ≡ longest f blocks m (set hs i []) (i + 1)
  unfolding longest
  longest-dropped f m hs i e c l = rw (e, c, l)

  unfoldable pub chosen : ℕ → List ScannedBlock → Result ScannedBlock
  chosen f next =
      if ltb 1 (length next)
      then longest f blocks next (map (λ b. b.block_hash) next) 0
      else block_at next 0

  pub longest-followed :
      (f : ℕ) (m : List ScannedBlock) (hs : List Str) (i : ℕ) (next : List ScannedBlock)
      (b : ScannedBlock)
      → leb (length hs) i ≡ false
      → (count_chains hs == 1) ≡ false
      → lookup (get_or hs i []) blocks ≡ some next
      → chosen f next ≡ ok b
      → longest (suc f) blocks m hs i ≡ longest f blocks m (set hs i b.block_hash) (i + 1)
  unfolding longest chosen
  longest-followed f m hs i next b e c l g =
      let bs : bucket blocks (get_or hs i []) ≡ next = ap bucket_or_none l in
      elim (Bool-cases (ltb 1 (length next))) [
        | inl t ↦ rw (e, c, l, bs, t) (rw (rw t at g))
        | inr t ↦ rw (e, c, l, bs, t) (rw (rw t at g))
      ]

  pub block_at-total :
      (m : List ScannedBlock) (i : ℕ) → i < length m → (b : ScannedBlock) × (block_at m i ≡ ok b)
  unfolding block_at
  block_at-total [] i h = absurd (omega arith)
  block_at-total (x ∷ m) zero h = (x, refl)
  block_at-total (x ∷ m) (suc i) h = block_at-total m i (omega arith)

  -- The search ends if it ends one step later.
  pub Ends-again :
      (m : List ScannedBlock) (hs : List Str) (i : ℕ)
      → leb (length hs) i ≡ true
      → Ends m hs 0
      → Ends m hs i
  Ends-again m hs i e (n, best, g) =
      (suc n, best, by_suc _ n (λ f h. longest-again f m hs i e ∙ g f h))

  pub Ends-done :
      (m : List ScannedBlock) (hs : List Str) (i : ℕ)
      → length hs ≡ length m
      → leb (length hs) i ≡ false
      → (count_chains hs == 1) ≡ true
      → Ends m hs i
  Ends-done m hs i lh e c =
      let some_chain : 0 < count_chains hs = ground arith in
      let (b, g) = block_at-total m (first_chain hs) (rw lh at (first_chain-bound hs some_chain)) in
      (1, b, by_suc _ 0 (λ f _. longest-done f m hs i e c ∙ g))

  pub Ends-dropped :
      (m : List ScannedBlock) (hs : List Str) (i : ℕ)
      → leb (length hs) i ≡ false
      → (count_chains hs == 1) ≡ false
      → lookup (get_or hs i []) blocks ≡ none
      → Ends m (set hs i []) (i + 1)
      → Ends m hs i
  Ends-dropped m hs i e c l (n, best, g) =
      (suc n, best, by_suc _ n (λ f h. longest-dropped f m hs i e c l ∙ g f h))

  pub Ends-followed :
      (m : List ScannedBlock) (hs : List Str) (i : ℕ) (next : List ScannedBlock) (b : ScannedBlock)
      (k : ℕ)
      → leb (length hs) i ≡ false
      → (count_chains hs == 1) ≡ false
      → lookup (get_or hs i []) blocks ≡ some next
      → ((f : ℕ) → k ≤ f → chosen f next ≡ ok b)
      → Ends m (set hs i b.block_hash) (i + 1)
      → Ends m hs i
  Ends-followed m hs i next b k e c l choice (n, best, g) = (
    suc (k + n),
    best,
    by_suc _ (k + n) (λ f h.
        longest-followed f m hs i next b e c l (choice f (omega arith)) ∙ g f (omega arith)),
  )
