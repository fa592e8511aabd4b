-- ===== src/BlockFileWatcher/Termination.antt =====
-- `findLongestChain` ends: each chain that it follows comes to an end.
use blockchain_indexer.Base.{
  ℕ, zero, suc, ◌+◌, ◌≤◌, ◌<◌, ◌≡◌, refl, ap, ◌⊎◌, inl, inr, true, false, Bool-cases, Option-cases,
  List, [], ◌∷◌, map, Str, length, get_or, set, ltb, leb, ◌==◌, arith, All, ok, some,
}
use blockchain_indexer.Base.Text.{str_eq, str_eq→eq}
use blockchain_indexer.Types.{ScannedBlock}
use blockchain_indexer.Dict.{lookup}
use blockchain_indexer.Dict.Keys.{str_key}
use blockchain_indexer.BlockFileWatcher.{Blocks, count_chains, first_chain, find_longest_chain}
use blockchain_indexer.BlockFileWatcher.Chain.{Candidate, block_at-Candidate, longest-Candidate}
use blockchain_indexer.BlockFileWatcher.Hashes.{
  weight, total, set-same, first_chain-live, first_chain-bound, count-total, weight-live,
  weight-empty, All-at, Following, advance,
}
use blockchain_indexer.BlockFileWatcher.Steps.{
  IsBelow, Forest, decide_eq, All-get, All-weaken, Ends, chosen, block_at-total, Ends-again,
  Ends-done, Ends-dropped, Ends-followed,
}

module _ (blocks : Blocks) where
  module _ (rank : Str → ℕ) (forest : Forest blocks rank) where
    open forest use {no_empty, filled, falls}

    -- Vectors of blocks below a bound can be searched.
    abbrev Searches : ℕ → Type 0
    Searches bound =
        (next : List ScannedBlock)
        → 0 < length next
        → All (IsBelow rank bound) next
        → Ends blocks next (map (λ b. b.block_hash) next) 0

    -- The block that stands for those that follow a hash, and that it is below the hash.
    chosen-total :
        (bound : ℕ) (next : List ScannedBlock)
        → Searches bound
        → 0 < length next
        → All (IsBelow rank bound) next
        → (k : ℕ) × (b : ScannedBlock) × ((f : ℕ) → k ≤ f → chosen blocks f next ≡ ok b)
          × IsBelow rank bound b
    unfolding chosen
    chosen-total bound next searches h below = elim (Bool-cases (ltb 1 (length next))) [
      | inl t ↦
          let (k, b, g) = searches next h below in
          (
            k,
            b,
            (λ f r. rw t (g f r)),
            All-get _ next b below (longest-Candidate k blocks next _ 0 b (g k (omega arith))),
          )
      | inr t ↦
          let (b, g) = block_at-total blocks next 0 h in
          (0, b, (λ f _. rw t g), All-get _ next b below (block_at-Candidate next 0 b g))
    ]

    abbrev LiveFrom : List Str → ℕ → Type 0
    LiveFrom hs i = (j : ℕ) × (i ≤ j) × (j < length hs) × (str_eq (get_or hs j []) [] ≡ false)

    -- What the search does at a chain that is still followed, if it ends with less to do.
    at_live :
        (bound limit : ℕ)
        → Searches bound
        → ((m : List ScannedBlock) (hs : List Str) (i : ℕ)
            → Following rank bound (length m) hs
            → total rank hs ≤ limit
            → Ends blocks m hs i)
        → (m : List ScannedBlock) (hs : List Str) (i : ℕ) → Following rank bound (length m) hs
        → total rank hs ≤ suc limit
        → leb (length hs) i ≡ false
        → (count_chains hs == 1) ≡ false
        → str_eq (get_or hs i []) [] ≡ false
        → Ends blocks m hs i
    at_live bound limit searches ih m hs i fo t e c lv =
        let inside : i < length hs = ground arith in
        let here = weight-live rank (get_or hs i []) lv in
        elim (Option-cases (lookup (get_or hs i []) blocks)) [
          | inl l ↦
              let (fo', less) =
                advance rank bound (length m) hs i [] fo inside lv c
                  (omega (arith, weight-empty rank, here)) in
              Ends-dropped blocks m hs i e c l (ih m (set hs i []) (i + 1) fo' (omega arith))
          | inr (next, l) ↦
              let under = All-at _ hs i inside fo.bounded in
              let below = falls (get_or hs i []) next l in
              let (k, b, choice, isb) =
                chosen-total (rank (get_or hs i [])) next
                  (λ nx h bl. searches nx h (
                    All-weaken rank (rank (get_or hs i [])) bound nx (omega (arith, here, under))
                      bl))
                  (filled (get_or hs i []) next l) below in
              let lower = isb.0 in
              let (fo', less) =
                advance rank bound (length m) hs i b.block_hash fo inside lv c
                  (omega (arith, weight-live rank b.block_hash isb.1, here, lower)) in
              Ends-followed blocks m hs i next b k e c l choice
                (ih m (set hs i b.block_hash) (i + 1) fo' (omega arith))
        ]

    dead_end : (hs : List Str) (i : ℕ) → str_eq (get_or hs i []) [] ≡ true → get_or hs i [] ≡ []
    dead_end hs i h = str_eq→eq _ _ h

    -- One pass from `i` on.
    pass :
        (bound limit : ℕ)
        → Searches bound
        → ((m : List ScannedBlock) (hs : List Str) (i : ℕ)
            → Following rank bound (length m) hs
            → total rank hs ≤ limit
            → Ends blocks m hs i)
        → (d : ℕ) (m : List ScannedBlock) (hs : List Str) (i : ℕ)
        → Following rank bound (length m) hs
        → total rank hs ≤ suc limit
        → length hs ≤ i + d
        → LiveFrom hs i ⊎ Ends blocks m hs 0
        → Ends blocks m hs i
    pass bound limit searches ih zero m hs i fo t far (inl (j, after, inside, _)) =
        absurd (omega arith)
    pass bound limit searches ih zero m hs i fo t far (inr ends) =
        Ends-again blocks m hs i (ground arith) ends
    pass bound limit searches ih (suc d) m hs i fo t far onward =
        elim (Bool-cases (leb (length hs) i)) [
          | inl e ↦ elim onward [
            | inl (j, after, inside, _) ↦ absurd (ground arith)
            | inr ends ↦ Ends-again blocks m hs i e ends
          ]
          | inr e ↦ elim (Bool-cases (count_chains hs == 1)) [
            | inl c ↦ Ends-done blocks m hs i fo.as_many e c
            | inr c ↦ elim (Bool-cases (str_eq (get_or hs i []) [])) [
              | inr lv ↦ at_live bound limit searches ih m hs i fo t e c lv
              | inl dead ↦
                  let empty = dead_end hs i dead in
                  let same : set hs i [] ≡ hs = rw empty at (set-same hs i) in
                  let onward' : LiveFrom hs (i + 1) ⊎ Ends blocks m hs 0 = later hs i dead onward in
                  Ends-dropped blocks m hs i e c (rw empty no_empty) (
                    rw same
                      (pass bound limit searches ih d m hs (i + 1) fo t (omega arith) onward'))
            ]
          ]
        ]
      where
        later :
            {C : Type 0} (hs : List Str) (i : ℕ)
            → str_eq (get_or hs i []) [] ≡ true
            → LiveFrom hs i ⊎ C
            → LiveFrom hs (i + 1) ⊎ C
        later hs i dead (inr c) = inr c
        later hs i dead (inl (j, after, inside, lv)) = elim (decide_eq i j) [
          | inl e ↦ absurd (cc (dead, lv, e))
          | inr ne ↦ inl (j, omega arith, inside, lv)
        ]

    walk :
        (bound : ℕ)
        → Searches bound
        → (limit : ℕ) (m : List ScannedBlock) (hs : List Str) (i : ℕ)
        → Following rank bound (length m) hs
        → total rank hs ≤ limit
        → Ends blocks m hs i
    walk bound searches zero m hs i fo t = absurd (omega (arith, count-total rank hs, fo.some_live))
    walk bound searches (suc limit) m hs i fo t =
        let ih = walk bound searches limit in
        let j = first_chain hs in
        let start : Ends blocks m hs 0 =
          pass bound limit searches ih (length hs) m hs 0 fo t (omega arith) (
            inl (
              j,
              omega arith,
              first_chain-bound hs fo.some_live,
              first_chain-live hs fo.some_live,
            )) in
        pass bound limit searches ih (length hs) m hs i fo t (omega arith) (inr start)

    hashes-Following :
        (bound : ℕ) (next : List ScannedBlock)
        → 0 < length next
        → All (IsBelow rank (suc bound)) next
        → Following rank bound (length next) (map (λ b. b.block_hash) next)
    unfolding count_chains
    hashes-Following bound next h below = record {
      as_many = length-hashes next;
      some_live = hashes-live next h below;
      bounded = hashes-bounded next below;
    }
      where
        length-hashes : (bs : List ScannedBlock) → length (map (λ b. b.block_hash) bs) ≡ length bs
        length-hashes [] = refl
        length-hashes (b ∷ bs) = ap suc (length-hashes bs)

        hashes-live :
            (bs : List ScannedBlock)
            → 0 < length bs
            → All (IsBelow rank (suc bound)) bs
            → 0 < count_chains (map (λ b. b.block_hash) bs)
        hashes-live [] h below = absurd (omega arith)
        hashes-live (b ∷ bs) h below = rw (below.0.1) (omega arith)

        hashes-bounded :
            (bs : List ScannedBlock)
            → All (IsBelow rank (suc bound)) bs
            → All (λ (h : Str). weight rank h ≤ suc bound) (map (λ b. b.block_hash) bs)
        hashes-bounded [] below = tt
        hashes-bounded (b ∷ bs) below =
            let lt = below.0.0 in
            (omega (arith, lt, weight-live rank b.block_hash below.0.1), hashes-bounded bs below.1)

    Searches-total : (bound : ℕ) → Searches bound
    Searches-total zero [] h below = absurd (omega arith)
    Searches-total zero (b ∷ next) h below = absurd (let lt = below.0.0 in omega arith)
    Searches-total (suc bound) next h below =
        walk bound (Searches-total bound) (total rank (map (λ b. b.block_hash) next)) next
          (map (λ b. b.block_hash) next) 0 (hashes-Following bound next h below) (omega arith)

    -- In a forest of blocks the search among the blocks behind any hash ends: from some fuel on,
    -- every fuel gives one and the same of these blocks. A forest has no empty vector, nothing
    -- behind the empty hash, and a rank of hashes that falls from each block to those behind it.
    pub find_longest_chain_total :
        (hash : Str) (matching : List ScannedBlock)
        → lookup hash blocks ≡ some matching
        → (n : ℕ) × (best : ScannedBlock) × Candidate best matching
          × ((fuel : ℕ) → n ≤ fuel → find_longest_chain fuel blocks matching ≡ ok best)
    unfolding find_longest_chain
    find_longest_chain_total hash matching l =
        let (n, best, g) =
          Searches-total (rank hash) matching (filled hash matching l) (falls hash matching l) in
        (n, best, longest-Candidate n blocks matching _ 0 best (g n (omega arith)), g)
