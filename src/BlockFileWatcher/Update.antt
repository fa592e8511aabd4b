-- ===== src/BlockFileWatcher/Update.antt =====
-- `updateIndex` follows a chain of blocks to its tip, and ends there.
use blockchain_indexer.Base.{
  ℕ, ◌+◌, ◌^◌, ◌≤◌, ◌<◌, ◌≡◌, List, [], ◌∷◌, Bytes, Str, length, Option, none, some, ok,
}
use blockchain_indexer.Types.{ScannedBlock}
use blockchain_indexer.Dict.{lookup}
use blockchain_indexer.Dict.Keys.{str_key}
use blockchain_indexer.Leveldb.{Leveldb}
use blockchain_indexer.External.{Crypto, CoinParams, Indeterminate}
use blockchain_indexer.BlockIndexer.{Indexer}
use blockchain_indexer.BlockFileWatcher.{Blocks, index_best, update_loop}
use blockchain_indexer.BlockFileWatcher.Chain.{Candidate}
use blockchain_indexer.BlockFileWatcher.Steps.{Forest}

module _ (blocks : Blocks) where
  -- The blocks lead from the hash to a tip, each of them one of those that follow the one before it.
  abbrev pub LeadsFrom : Str → List ScannedBlock → Type 0
  LeadsFrom hash [] = lookup hash blocks ≡ none
  LeadsFrom hash (b ∷ chain) =
      (next : List ScannedBlock) × (lookup hash blocks ≡ some next)
      × Candidate b next
      × LeadsFrom b.block_hash chain

  module _ (rank : Str → ℕ) (forest : Forest blocks rank) where
    open forest use {filled, falls}

    module _ (ldb : Leveldb) (crypto : Crypto) (params : CoinParams) (junk : Indeterminate)
        (files : Str → Option Bytes) (blocks_dir : Str) (Good : Indexer ldb → Type 0) where
      -- Each block of the map can be read and indexed, at any height and over any good index, and
      -- leaves a good one.
      abbrev pub CanIndex : Type 0
      CanIndex =
          (hash : Str) (next : List ScannedBlock) (best : ScannedBlock) (height : ℕ)
          (ix : Indexer ldb)
          → lookup hash blocks ≡ some next
          → Candidate best next
          → height < 2 ^ 31
          → Good ix
          → (ix' : Indexer ldb) × (index_best ldb crypto params junk files blocks_dir best height ix
              ≡ ok ix')
            × Good ix'

      -- From a hash and a good index on, with enough rounds and fuel, and as long as the height is an
      -- `int`, the loop comes to the tip, and the index is a good one.
      abbrev pub Reaches : Str → Type 0
      Reaches hash =
          (chain : List ScannedBlock) × LeadsFrom hash chain
          × (enough : ℕ) × ((rounds fuel height : ℕ) (ix : Indexer ldb)
              → enough ≤ fuel
              → length chain + 2 ≤ rounds
              → height + (length chain + 1) < 2 ^ 31
              → Good ix
              → (ix' : Indexer ldb) × (update_loop ldb crypto params junk files blocks_dir rounds
                    fuel blocks hash height ix
                  ≡ ok (height + (length chain + 1), ix'))
                × Good ix')
