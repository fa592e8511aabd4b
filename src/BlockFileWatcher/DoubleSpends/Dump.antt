-- ===== src/BlockFileWatcher/DoubleSpends/Dump.antt =====
-- dumpDoubleSpends of src/blockfilewatcher.cpp: all blocks by height, and the analysis of each run
-- of heights that have more than one block.
use blockchain_indexer.Base.{
  ℕ, zero, suc, ◌+◌, Bool, true, false, not, List, [], ◌∷◌, ◌++◌, Bytes, Str, length, ltb, ◌==◌,
  if◌then◌else◌, Result, ok, err, out_of_fuel, Option, none, some, ◌>>=◌,
}
use blockchain_indexer.Base.Text.{str_eq}
use blockchain_indexer.Types.{ScannedBlock, Block}
use blockchain_indexer.Dict.{Dict, lookup, insert}
use blockchain_indexer.Dict.Keys.{str_key, nat_key}
use blockchain_indexer.Json.{Json}
use blockchain_indexer.External.{Crypto, CoinParams, Indeterminate}
use blockchain_indexer.BlockReader.{read_block, zero_hash}
use blockchain_indexer.BlockFileWatcher.{
  Blocks, bucket, bucket_or_none, find_longest_chain, scan_block_files, block_found,
}
use blockchain_indexer.BlockFileWatcher.DoubleSpends.{analyze_double_blocks}
use blockchain_indexer.BlockFileWatcher.DoubleSpends.Events.{found_events}

-- The state of indexBlocksByHeight: reading `blocks[hash]` adds an empty vector for a new key.
pub record ByHeight : Type 0 where
  pub blocks : Blocks
  pub blocks_by_height : Dict ℕ (List ScannedBlock)

unfoldable pub touch : Str → Blocks → Blocks
touch hash blocks = elim (lookup hash blocks) [ none ↦ insert hash [] blocks | some _ ↦ blocks ]

abbrev pub height_or_none : ℕ → Dict ℕ (List ScannedBlock) → List ScannedBlock
height_or_none height m = bucket_or_none (lookup height m)

-- The loop of indexBlocksByHeight. `known` is the vector of this height before the loop.
unfoldable pub index_matching :
    ℕ
    → List ScannedBlock
    → ScannedBlock
    → List ScannedBlock
    → ByHeight
    → List ScannedBlock × ByHeight
index_matching height known on_main_chain [] st = ([], st)
index_matching height known on_main_chain (block ∷ matching) st =
    let marked = record block {
      main_chain =
          if str_eq block.block_hash on_main_chain.block_hash then true else block.main_chain;
    } in
    let added : ByHeight = record {
      blocks = touch block.block_hash st.blocks;
      blocks_by_height =
          insert height (height_or_none height st.blocks_by_height ++ marked ∷ [])
            st.blocks_by_height;
    } in
    let is_known = block_found block.block_hash known in
    let (later, st') =
      index_matching height known on_main_chain matching (if is_known then st else added) in
    (if is_known then later else bucket st.blocks block.block_hash ++ later, st')

unfoldable pub index_blocks_by_height :
    ℕ → List ScannedBlock → ScannedBlock → ByHeight → List ScannedBlock × ByHeight
index_blocks_by_height height matching on_main_chain st =
    let known = height_or_none height st.blocks_by_height in
    let st1 = record st { blocks_by_height = insert height known st.blocks_by_height } in
    index_matching height known on_main_chain matching st1

-- The first loop of dumpDoubleSpends, from the blocks at one height.
unfoldable pub index_heights : ℕ → ℕ → ℕ → List ScannedBlock → ByHeight → Result ByHeight
index_heights zero fuel i matching st = err out_of_fuel
index_heights (suc rounds) fuel i matching st =
    let more : Result ByHeight = find_longest_chain fuel st.blocks matching >>= λ main.
    let (next, st') = index_blocks_by_height (i + 1) matching main st in
    index_heights rounds fuel (i + 1) next st' in
    if ltb 0 (length matching) then more else ok st

-- The last block of a chain; the chains are never empty.
unfoldable pub last_hash : List Block → Str
last_hash [] = []
last_hash (b ∷ []) = b.block_hash
last_hash (b ∷ c ∷ rest) = last_hash (c ∷ rest)

-- A block joins every chain that it follows, among those numbered from `k` on without a gap.
unfoldable pub extend_chains : ℕ → ℕ → Block → Dict ℕ (List Block) → Dict ℕ (List Block)
extend_chains zero k block chains = chains
extend_chains (suc rounds) k block chains = elim (lookup k chains) [
  | none ↦ chains
  | some chain ↦ extend_chains rounds (k + 1) block (
      if str_eq (last_hash chain) block.previous_block_hash
      then insert k (chain ++ block ∷ []) chains
      else chains)
]

unfoldable pub add_double_block : ℕ → Block → Dict ℕ (List Block) → Dict ℕ (List Block)
add_double_block j block chains = elim (lookup j chains) [
  | none ↦ insert j (block ∷ []) chains
  | some _ ↦ extend_chains (length chains) 0 block chains
]

-- The state of the second loop.
pub record Dumping : Type 0 where
  pub double_blocks : Dict ℕ (List Block)
  pub events : List Json
  pub reorged_coinbases : List Str
  pub prev_double_block : Option ℕ

module _ (crypto : Crypto) (params : CoinParams) (junk : Indeterminate) where
  -- An analysis of the chains gathered so far, its events behind those before.
  unfoldable pub analyze : Dumping → Result Dumping
  analyze d = do
    (coinbases, found) ← analyze_double_blocks d.double_blocks d.reorged_coinbases
    events ← found_events crypto params found
    ok (record d { events = d.events ++ events; reorged_coinbases = coinbases })

  module _ (files : Str → Option Bytes) (blocks_dir : Str) where
    unfoldable pub read_double_blocks :
        ℕ → ℕ → List ScannedBlock → Dict ℕ (List Block) → Result (Dict ℕ (List Block))
    read_double_blocks i j [] chains = ok chains
    read_double_blocks i j (scanned ∷ rest) chains = do
      block ←
          read_block crypto junk files blocks_dir scanned.file_name scanned.file_position i false
      read_double_blocks i (j + 1) rest
          (add_double_block j (record block { main_chain = scanned.main_chain }) chains)

    -- `prevDoubleBlock` is -1 at first, which is no height less one.
    unfoldable pub follows : Option ℕ → ℕ → Bool
    follows none i = false
    follows (some prev) i = prev + 1 == i

    unfoldable pub dump_height : ℕ → List ScannedBlock → Dumping → Result Dumping
    dump_height i at_height d =
        let cleared : Result Dumping = analyze d >>= λ d'. ok (record d' { double_blocks = [] }) in
        let dumped : Result Dumping =
          (if not (follows d.prev_double_block i) then cleared else ok d) >>= λ d1.
          read_double_blocks i 0 at_height d1.double_blocks >>= λ chains.
          ok (record d1 { double_blocks = chains; prev_double_block = some i }) in
        if ltb 1 (length at_height) then dumped else ok d

    -- The heights from `i` on without a gap.
    unfoldable pub dump_heights : ℕ → ℕ → Dict ℕ (List ScannedBlock) → Dumping → Result Dumping
    dump_heights zero i by_height d = ok d
    dump_heights (suc rounds) i by_height d = elim (lookup i by_height) [
      | none ↦ ok d
      | some at_height ↦ do d' ← dump_height i at_height d; dump_heights rounds (i + 1) by_height d'
    ]

    unfoldable pub dump_double_spends : ℕ → ℕ → List Str → Result (List Json)
    dump_double_spends rounds fuel names =
        scan_block_files crypto params junk files blocks_dir names [] 0 >>= λ scanned.
        index_heights rounds fuel 0 (bucket scanned.0 zero_hash)
          (record { blocks = touch zero_hash scanned.0; blocks_by_height = [] })
        >>= λ st.
            dump_heights (length st.blocks_by_height) 1 st.blocks_by_height (record {
              double_blocks = [];
              events = [];
              reorged_coinbases = [];
              prev_double_block = none;
            })
            >>= λ d. analyze d >>= λ last. ok last.events
