-- ===== src/BlockFileWatcher/Chain.antt =====
-- The walk along the longest chain: what it returns, and that it reads no vector past its end.
use blockchain_indexer.Base.{
  ℕ, zero, suc, ◌+◌, ◌≡◌, refl, ◌∙◌, Bool, true, false, List, [], Str, length, get_or, get_elem?,
  set, ltb, if◌then◌else◌, Result, ok, err, out_of_range, Option, none, some, ◌>>=◌, >>=-eq-ok,
}
use blockchain_indexer.Types.{ScannedBlock}
use blockchain_indexer.Dict.Keys.{str_key}
use blockchain_indexer.BlockFileWatcher.{
  Blocks, bucket, first_chain, block_at, longest, find_longest_chain,
}

-- The block stands in the vector.
abbrev pub Candidate : ScannedBlock → List ScannedBlock → Type 0
Candidate best matching = (k : ℕ) × (get_elem? matching k ≡ some best)

pub block_at-Candidate :
    (matching : List ScannedBlock) (i : ℕ) (best : ScannedBlock)
    → block_at matching i ≡ ok best
    → Candidate best matching
unfolding block_at
block_at-Candidate matching i best h = by_entry (get_elem? matching i) refl h
  where
    by_entry :
        (o : Option ScannedBlock)
        → get_elem? matching i ≡ o
        → elim o [ none ↦ err out_of_range | some b ↦ ok b ] ≡ ok best
        → Candidate best matching
    by_entry none e h = cc
    by_entry (some b) e h = (i, e ∙ cc)

-- What holds of every way on that the search has holds of the search.
by_branch :
    {R C : Type 0} (r : R) (a b : Bool) (o : Option (List ScannedBlock)) (w x y z : R)
    → (w ≡ r → C)
    → (x ≡ r → C)
    → (y ≡ r → C)
    → (z ≡ r → C)
    → (if a then w else if b then x else elim o [ none ↦ y | some _ ↦ z ]) ≡ r
    → C
by_branch r true b o w x y z hw hx hy hz h = hw h
by_branch r false true o w x y z hw hx hy hz h = hx h
by_branch r false false none w x y z hw hx hy hz h = hy h
by_branch r false false (some _) w x y z hw hx hy hz h = hz h

by_test :
    {R C : Type 0} (r : R) (a : Bool) (w x : R)
    → (w ≡ r → C)
    → (x ≡ r → C)
    → (if a then w else x) ≡ r
    → C
by_test r true w x hw hx h = hw h
by_test r false w x hw hx h = hx h

pub longest-Candidate :
    (fuel : ℕ) (blocks : Blocks) (matching : List ScannedBlock) (hashes : List Str) (i : ℕ)
    (best : ScannedBlock)
    → longest fuel blocks matching hashes i ≡ ok best
    → Candidate best matching
unfolding longest
longest-Candidate zero blocks matching hashes i best h = cc
longest-Candidate (suc fuel) blocks matching hashes i best h =
    let next = bucket blocks (get_or hashes i []) in
    let later : (hs : List Str) (k : ℕ)
        → longest fuel blocks matching hs k ≡ ok best
        → Candidate best matching =
      λ hs k. longest-Candidate fuel blocks matching hs k best in
    let behind : (m : Result ScannedBlock)
        → (m >>= λ (b : ScannedBlock).
            longest fuel blocks matching (set hashes i b.block_hash) (i + 1))
          ≡ ok best
        → Candidate best matching =
      λ m g. let (b, _, e) = >>=-eq-ok m _ g in later _ _ e in
    by_branch (ok best) _ _ _ _ _ _ _ (later hashes 0)
      (block_at-Candidate matching (first_chain hashes) best) (later _ _)
      (by_test (ok best) (ltb 1 (length next)) _ _ (behind _) (behind _)) h

-- Whichever block findLongestChain returns, on any map of blocks, it is one of the blocks that it
-- was to choose from.
pub find_longest_chain-Candidate :
    (fuel : ℕ) (blocks : Blocks) (matching : List ScannedBlock) (best : ScannedBlock)
    → find_longest_chain fuel blocks matching ≡ ok best
    → Candidate best matching
unfolding find_longest_chain
find_longest_chain-Candidate fuel blocks matching best h =
    longest-Candidate fuel blocks matching _ 0 best h
