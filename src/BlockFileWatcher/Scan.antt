-- ===== src/BlockFileWatcher/Scan.antt =====
-- The scan of the block files: it ends, and files every block once, under the hash of the block
-- before it.
use blockchain_indexer.Base.{
  ℕ, zero, suc, ◌+◌, ◌≤◌, ◌<◌, ◌≡◌, refl, sym, ap, ◌∙◌, true, false, Bool-cases, Option-cases, inl,
  inr, List, [], ◌∷◌, ◌++◌, Bytes, Str, length, All, if◌then◌else◌, arith, Option, none, some,
  Result, ok, length-append,
}
use blockchain_indexer.Base.Text.{str_eq, str_eq→eq, str_eq_comm}
use blockchain_indexer.Types.{ScannedBlock}
use blockchain_indexer.Dict.{lookup, lookup-insert}
use blockchain_indexer.Dict.Keys.{str_key}
use blockchain_indexer.Stream.{Stream, open_stream}
use blockchain_indexer.External.{Crypto, CoinParams, Indeterminate}
use blockchain_indexer.BlockReader.{block_path}
use blockchain_indexer.BlockScanner.{move_next, scan_next_block}
use blockchain_indexer.BlockScanner.Progress.{scan_next_block-Onward, move_next-inside}
use blockchain_indexer.BlockFileWatcher.{
  Blocks, bucket, bucket_or_none, block_found, add_block, scan_loop, scan_blocks, is_block_file,
  scan_block_files,
}

-- No two blocks of the vector have the same hash.
unfoldable pub Once : List ScannedBlock → Type 0
Once [] = Unit
Once (b ∷ bs) = (block_found b.block_hash bs ≡ false) × Once bs

-- A vector that is not empty, of different blocks that follow `hash`.
pub record Filed (hash : Str) (bs : List ScannedBlock) : Type 0 where
  pub some_block : 0 < length bs
  pub behind : All (λ (b : ScannedBlock). b.previous_block_hash ≡ hash) bs
  pub once : Once bs

abbrev pub IsFiled : Blocks → Type 0
IsFiled blocks =
    (hash : Str) (bs : List ScannedBlock) → lookup hash blocks ≡ some bs → Filed hash bs

Once-append :
    (bs : List ScannedBlock) (b : ScannedBlock)
    → Once bs
    → block_found b.block_hash bs ≡ false
    → Once (bs ++ b ∷ [])
unfolding Once block_found
Once-append [] b o f = (refl, tt)
Once-append (x ∷ bs) b o f =
    let comm = str_eq_comm x.block_hash b.block_hash in
    (still_new x.block_hash bs b o.0 (ground arith), Once-append bs b o.1 (ground arith))
  where
    still_new :
        (h : Str) (bs : List ScannedBlock) (b : ScannedBlock)
        → block_found h bs ≡ false
        → str_eq b.block_hash h ≡ false
        → block_found h (bs ++ b ∷ []) ≡ false
    still_new h [] b f g = ground arith
    still_new h (y ∷ bs) b f g = ground (arith, still_new h bs b (ground arith) g)

All-snoc :
    (P : ScannedBlock → Type 0) (bs : List ScannedBlock) (b : ScannedBlock)
    → All P bs
    → P b
    → All P (bs ++ b ∷ [])
All-snoc P [] b a p = (p, tt)
All-snoc P (x ∷ bs) b a p = (a.0, All-snoc P bs b a.1 p)

-- The vector that add_block stores.
added : ScannedBlock → List ScannedBlock → List ScannedBlock
added block matching =
    if block_found block.block_hash matching then matching else matching ++ block ∷ []

added-Filed :
    (block : ScannedBlock) (old : Option (List ScannedBlock))
    → ((bs : List ScannedBlock) → old ≡ some bs → Filed block.previous_block_hash bs)
    → Filed block.previous_block_hash (added block (bucket_or_none old))
unfolding added
added-Filed block none h =
    unfold block_found in
    record {
      some_block = omega arith;
      behind = (refl, tt);
      once = unfold Once block_found in (refl, tt);
    }
added-Filed block (some bs) h = elim (Bool-cases (block_found block.block_hash bs)) [
  | inl e ↦ rw e (h bs refl)
  | inr e ↦
      let f = h bs refl in
      rw e (record {
        some_block = omega (arith, length-append bs (block ∷ []));
        behind = All-snoc _ bs block f.behind refl;
        once = Once-append bs block f.once e;
      })
]

lookup-add_block :
    (block : ScannedBlock) (blocks : Blocks) (hash : Str)
    → lookup hash (add_block block blocks) ≡ (
        if str_eq block.previous_block_hash hash
        then some (added block (bucket blocks block.previous_block_hash))
        else lookup hash blocks)
unfolding add_block added
lookup-add_block block blocks hash = lookup-insert block.previous_block_hash hash _ blocks

-- Adding a block keeps every vector of the map non-empty, free of repetitions, and of blocks that
-- follow the hash that it stands under.
pub add_block-IsFiled :
    (block : ScannedBlock) (blocks : Blocks) → IsFiled blocks → IsFiled (add_block block blocks)
add_block-IsFiled block blocks filed hash bs l =
    let at = sym (lookup-add_block block blocks hash) ∙ l in
    elim (Bool-cases (str_eq block.previous_block_hash hash)) [
      | inl e ↦
          let new : added block (bucket blocks block.previous_block_hash) ≡ bs = cc (rw e at at) in
          rw (← str_eq→eq _ _ e, ← new)
            (added-Filed block (lookup block.previous_block_hash blocks)
              (filed block.previous_block_hash))
      | inr e ↦ filed hash bs (rw e at at)
    ]

-- What a scan gives: it ends, and files all blocks.
abbrev pub Scanned : Result (Blocks × ℕ) → Type 0
Scanned r = (blocks : Blocks) × (total : ℕ) × (r ≡ ok (blocks, total)) × IsFiled blocks

module _ (crypto : Crypto) (params : CoinParams) (junk : Indeterminate) where
  scan_loop-end :
      (fuel : ℕ) (name : Str) (s : Stream) (blocks : Blocks) (total : ℕ)
      → (move_next params s).0 ≡ false
      → scan_loop crypto params junk (suc fuel) name s blocks total ≡ ok (blocks, total)
  unfolding scan_loop
  scan_loop-end fuel name s blocks total h = rw h

  scan_loop-block :
      (fuel : ℕ) (name : Str) (s : Stream) (blocks : Blocks) (total : ℕ)
      → (move_next params s).0 ≡ true
      → scan_loop crypto params junk (suc fuel) name s blocks total
        ≡ scan_loop crypto params junk fuel name
            (scan_next_block crypto junk name (move_next params s).1).1
            (add_block (scan_next_block crypto junk name (move_next params s).1).0 blocks)
            (total + 1)
  unfolding scan_loop
  scan_loop-block fuel name s blocks total h = rw h

  scan_loop-Scanned :
      (fuel : ℕ) (name : Str) (s : Stream) (blocks : Blocks) (total : ℕ)
      → length s.contents ≤ fuel + s.position
      → IsFiled blocks
      → Scanned (scan_loop crypto params junk (suc fuel) name s blocks total)
  scan_loop-Scanned zero name s blocks total enough filed =
      elim (Bool-cases (move_next params s).0) [
        | inr e ↦ (blocks, total, scan_loop-end zero name s blocks total e, filed)
        | inl e ↦
            let (file, moved, inside) = move_next-inside params s e in
            absurd (omega (arith, enough, inside))
      ]
  scan_loop-Scanned (suc f) name s blocks total enough filed =
      elim (Bool-cases (move_next params s).0) [
        | inr e ↦ (blocks, total, scan_loop-end (suc f) name s blocks total e, filed)
        | inl e ↦
            let (file, moved, inside) = move_next-inside params s e in
            let s1 = (move_next params s).1 in
            let block = (scan_next_block crypto junk name s1).0 in
            let s2 = (scan_next_block crypto junk name s1).1 in
            let on = scan_next_block-Onward crypto junk name s1 in
            let same : length s2.contents ≡ length s.contents = ap length (on.same_file ∙ file) in
            let (bs, t, g, fd) =
              scan_loop-Scanned f name s2 (add_block block blocks) (total + 1)
                (omega (arith, same, on.not_back, moved, enough))
                (add_block-IsFiled block blocks filed) in
            (bs, t, scan_loop-block (suc f) name s blocks total e ∙ g, fd)
      ]

  module _ (files : Str → Option Bytes) (blocks_dir : Str) where
    scan_blocks-Scanned :
        (name : Str) (blocks : Blocks) (total : ℕ)
        → IsFiled blocks
        → Scanned (scan_blocks crypto params junk files blocks_dir name blocks total)
    unfolding scan_blocks
    scan_blocks-Scanned name blocks total filed =
        elim (Option-cases (files (block_path blocks_dir name))) [
          | inl e ↦ (blocks, total, rw (e, scan_blocks), filed)
          | inr (bytes, e) ↦
              let (bs, t, g, fd) =
                scan_loop-Scanned (length bytes) name (open_stream bytes) blocks total (omega arith)
                  filed in
              (bs, t, rw (e, scan_blocks) g, fd)
        ]

    -- The scan of a directory ends, whatever bytes its files hold and wherever a file breaks off.
    -- From a map with no empty vector, no block twice in a vector, and each block under the hash of
    -- the block before it, it leaves such a map.
    pub scan_block_files_total :
        (names : List Str) (blocks : Blocks) (total : ℕ)
        → IsFiled blocks
        → Scanned (scan_block_files crypto params junk files blocks_dir names blocks total)
    unfolding scan_block_files
    scan_block_files_total [] blocks total filed = (blocks, total, refl, filed)
    scan_block_files_total (name ∷ names) blocks total filed =
        elim (Bool-cases (is_block_file name)) [
          | inr e ↦
              let (bs, t, g, fd) = scan_block_files_total names blocks total filed in
              (bs, t, rw e g, fd)
          | inl e ↦
              let (bs1, t1, g1, fd1) = scan_blocks-Scanned name blocks total filed in
              let (bs, t, g, fd) = scan_block_files_total names bs1 t1 fd1 in
              (bs, t, rw (e, g1) g, fd)
        ]
