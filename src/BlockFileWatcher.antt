-- ===== src/BlockFileWatcher.antt =====
-- src/blockfilewatcher.cpp: the blocks found in the files, by the block that they follow; the walk
-- along the longest chain; and, in the children, the search for double spends.
pub mod Scan
pub mod Chain
pub mod Hashes
pub mod Steps
pub mod Termination
pub mod Update
pub mod Watch
pub mod DoubleSpends
use blockchain_indexer.Base.{
  ℕ, zero, suc, ◌+◌, Bool, true, false, not, ◌&&◌, ◌||◌, List, [], ◌∷◌, ◌++◌, map, Bytes, Str,
  length, get_or, get_elem?, set, take, ltb, leb, ◌==◌, if◌then◌else◌, Result, ok, err, out_of_fuel,
  out_of_range, Option, none, some, ◌>>=◌, any, pos, ◌^◌, undefined,
}
use blockchain_indexer.Base.Text.{text, str_eq}
use blockchain_indexer.Types.{ScannedBlock, Block}
use blockchain_indexer.Dict.{Dict, lookup, insert}
use blockchain_indexer.Dict.Keys.{str_key}
use blockchain_indexer.Stream.{Stream, open_stream}
use blockchain_indexer.Leveldb.{Leveldb}
use blockchain_indexer.External.{Crypto, CoinParams, Indeterminate}
use blockchain_indexer.BlockReader.{block_path, read_block, zero_hash}
use blockchain_indexer.BlockScanner.{move_next, scan_next_block}
use blockchain_indexer.BlockIndexer.{Indexer, has_indexed_block, index_block}

-- The scanned blocks, by the hash of the block before them.
abbrev pub Blocks : Type 0
Blocks = Dict Str (List ScannedBlock)

abbrev pub bucket_or_none : Option (List ScannedBlock) → List ScannedBlock
bucket_or_none none = []
bucket_or_none (some blocks) = blocks

-- blocks[hash], where a missing key reads as an empty vector.
abbrev pub bucket : Blocks → Str → List ScannedBlock
bucket blocks hash = bucket_or_none (lookup hash blocks)

unfoldable pub block_found : Str → List ScannedBlock → Bool
block_found hash blocks = any (λ matching. str_eq matching.block_hash hash) blocks

-- The body of the loop of scanBlocks: a block whose hash is in the vector is not added again.
unfoldable pub add_block : ScannedBlock → Blocks → Blocks
add_block block blocks =
    let matching = bucket blocks block.previous_block_hash in
    insert block.previous_block_hash
      (if block_found block.block_hash matching then matching else matching ++ block ∷ []) blocks

unfoldable pub is_block_file : Str → Bool
is_block_file name = str_eq (take 3 name) (text "blk")

module _ (crypto : Crypto) (params : CoinParams) (junk : Indeterminate) where
  -- The loop of scanBlocks, with the count of all blocks met.
  unfoldable pub scan_loop : ℕ → Str → Stream → Blocks → ℕ → Result (Blocks × ℕ)
  scan_loop zero file_name s blocks total = err out_of_fuel
  scan_loop (suc fuel) file_name s blocks total =
      let (found, s1) = move_next params s in
      let (block, s2) = scan_next_block crypto junk file_name s1 in
      let rest = scan_loop fuel file_name s2 (add_block block blocks) (total + 1) in
      if found then rest else ok (blocks, total)

  -- Each round reads four bytes at least, so the length of the file bounds their number.
  unfoldable pub scan_blocks : (Str → Option Bytes) → Str → Str → Blocks → ℕ → Result (Blocks × ℕ)
  scan_blocks files blocks_dir file_name blocks total =
      elim (files (block_path blocks_dir file_name)) [
        | none ↦ ok (blocks, total)
        | some bytes ↦ scan_loop (suc (length bytes)) file_name (open_stream bytes) blocks total
      ]

  -- The entries of the directory, in the order in which it lists them.
  unfoldable pub scan_block_files :
      (Str → Option Bytes) → Str → List Str → Blocks → ℕ → Result (Blocks × ℕ)
  scan_block_files files blocks_dir [] blocks total = ok (blocks, total)
  scan_block_files files blocks_dir (name ∷ names) blocks total =
      let scanned = scan_blocks files blocks_dir name blocks total in
      do
        (blocks', total') ← if is_block_file name then scanned else ok (blocks, total)
        scan_block_files files blocks_dir names blocks' total'

-- The number of chains that are still followed.
unfoldable pub count_chains : List Str → ℕ
count_chains [] = 0
count_chains (hash ∷ hashes) = (if str_eq hash [] then 0 else 1) + count_chains hashes

unfoldable pub first_chain : List Str → ℕ
first_chain [] = 0
first_chain (hash ∷ hashes) =
    let rest = suc (first_chain hashes) in if str_eq hash [] then rest else 0

unfoldable pub block_at : List ScannedBlock → ℕ → Result ScannedBlock
block_at blocks i = elim (get_elem? blocks i) [ none ↦ err out_of_range | some b ↦ ok b ]

-- One position of findLongestChain: `hashes` holds how far each candidate's chain was followed, and
-- `i` is the index of the inner loop. A block with rivals is chosen by a search of its own.
unfoldable pub longest : ℕ → Blocks → List ScannedBlock → List Str → ℕ → Result ScannedBlock
longest zero blocks matching hashes i = err out_of_fuel
longest (suc fuel) blocks matching hashes i =
    let again = longest fuel blocks matching hashes 0 in
    let dropped = longest fuel blocks matching (set hashes i []) (i + 1) in
    let follow = λ (best : ScannedBlock).
      longest fuel blocks matching (set hashes i best.block_hash) (i + 1) in
    let next = bucket blocks (get_or hashes i []) in
    let nested = longest fuel blocks next (map (λ b. b.block_hash) next) 0 >>= follow in
    let single = block_at next 0 >>= follow in
    let followed = if ltb 1 (length next) then nested else single in
    if leb (length hashes) i
    then again
    else if count_chains hashes == 1
    then block_at matching (first_chain hashes)
    else elim (lookup (get_or hashes i []) blocks) [ none ↦ dropped | some _ ↦ followed ]

unfoldable pub find_longest_chain : ℕ → Blocks → List ScannedBlock → Result ScannedBlock
find_longest_chain fuel blocks matching =
    longest fuel blocks matching (map (λ b. b.block_hash) matching) 0

-- The candidate that processNextBlock takes.
unfoldable pub best_block : ℕ → Blocks → List ScannedBlock → Result ScannedBlock
best_block fuel blocks matching =
    let searched = find_longest_chain fuel blocks matching in
    if ltb 1 (length matching) then searched else block_at matching 0

module _ (ldb : Leveldb) (crypto : Crypto) (params : CoinParams) (junk : Indeterminate) where
  module _ (files : Str → Option Bytes) (blocks_dir : Str) where
    unfoldable pub index_best : ScannedBlock → ℕ → Indexer ldb → Result (Indexer ldb)
    index_best best block_height ix =
        let indexing : Result (Indexer ldb) =
          read_block crypto junk files blocks_dir best.file_name best.file_position block_height
            false
          >>= λ full_block. index_block ldb crypto params full_block ix >>= λ r. ok r.1 in
        if not (has_indexed_block ldb best.block_hash (pos block_height) ix)
        then indexing
        else ok ix

    -- The hash of the block that was processed, and "" at the end of the chain.
    unfoldable pub process_next_block :
        ℕ → Blocks → Str → ℕ → Indexer ldb → Result (Str × Indexer ldb)
    process_next_block fuel blocks prev_block_hash block_height ix =
        let matching = bucket blocks prev_block_hash in
        let processing : Result (Str × Indexer ldb) = best_block fuel blocks matching >>= λ best.
        index_best best block_height ix >>= λ ix'. ok (best.block_hash, ix') in
        if ltb 0 (length matching) then processing else ok ([], ix)

    -- The loop of updateIndex: the height reached, and the indexer. The height is an `int`,
    -- which must not overflow.
    unfoldable pub update_loop : ℕ → ℕ → Blocks → Str → ℕ → Indexer ldb → Result (ℕ × Indexer ldb)
    update_loop zero fuel blocks processed block_height ix = err out_of_fuel
    update_loop (suc rounds) fuel blocks processed block_height ix =
        let next : Result (ℕ × Indexer ldb) =
          process_next_block fuel blocks processed (block_height + 1) ix >>= λ r.
          update_loop rounds fuel blocks r.0 (block_height + 1) r.1 in
        let more = if ltb (block_height + 1) (2 ^ 31) then next else err undefined in
        if not (str_eq processed []) then more else ok (block_height, ix)

    -- The directory is listed by `names`. The map of blocks is empty before and after.
    unfoldable pub update_index : ℕ → ℕ → List Str → Indexer ldb → Result (ℕ × Indexer ldb)
    update_index rounds fuel names ix =
        scan_block_files crypto params junk files blocks_dir names [] 0 >>= λ scanned.
        process_next_block fuel scanned.0 zero_hash 0 ix >>= λ r.
        update_loop rounds fuel scanned.0 r.0 0 r.1
