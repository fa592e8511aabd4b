-- ===== src/BlockFileWatcher/Watch.antt =====
-- startWatcher of src/blockfilewatcher.cpp: an update of the index whenever a block file is newer
-- than all that were seen.
pub mod Quiet
use blockchain_indexer.Base.{
  ℕ, ◌≡◌, Bool, true, false, List, [], ◌∷◌, Bytes, Str, All, if◌then◌else◌, Option, none, some,
  Result, ok, ◌>>=◌, ℤ, ltb_ℤ, ◌≤ℤ◌,
}
use blockchain_indexer.Leveldb.{Leveldb}
use blockchain_indexer.External.{Crypto, CoinParams, Indeterminate}
use blockchain_indexer.BlockIndexer.{Indexer}
use blockchain_indexer.BlockFileWatcher.{is_block_file, update_index}

pub record Timespec : Type 0 where
  pub tv_sec : ℤ
  pub tv_nsec : ℕ

-- An entry of the directory, and what `stat` says of it, if it succeeds.
pub record DirEntry : Type 0 where
  pub d_name : Str
  pub st_mtim : Option Timespec

abbrev pub newer_of : Timespec → Bool → Timespec → Bool × Timespec
newer_of modified should_update max =
    if ltb_ℤ max.tv_sec modified.tv_sec then (true, modified) else (should_update, max)

abbrev pub stat_of : Option Timespec → Bool → Timespec → Bool × Timespec
stat_of none should_update max = (should_update, max)
stat_of (some modified) should_update max = newer_of modified should_update max

-- The loop over the directory: shouldUpdate and maxLastModified.
unfoldable pub detect_changes : List DirEntry → Bool → Timespec → Bool × Timespec
detect_changes [] should_update max = (should_update, max)
detect_changes (entry ∷ entries) should_update max =
    let (should_update', max') =
      if is_block_file entry.d_name
      then stat_of entry.st_mtim should_update max
      else (should_update, max) in
    detect_changes entries should_update' max'

-- The disk during a round: the entries as startWatcher lists them and as scanBlockFiles does.
pub record Disk : Type 0 where
  pub entries : List DirEntry
  pub names : List Str
  pub files : Str → Option Bytes

pub record Watcher (ldb : Leveldb) : Type 0 where
  pub max_last_modified : Timespec
  pub indexer : Indexer ldb

module _ (ldb : Leveldb) (crypto : Crypto) (params : CoinParams) (junk : Indeterminate)
    (blocks_dir : Str) where
  -- One round of the endless loop.
  unfoldable pub watcher_round : ℕ → ℕ → Disk → Watcher ldb → Result (Watcher ldb)
  unfolding detect_changes
  watcher_round rounds fuel disk w =
      let (should_update, max) = detect_changes disk.entries false w.max_last_modified in
      let updated : Result (Watcher ldb) =
        update_index ldb crypto params junk disk.files blocks_dir rounds fuel disk.names w.indexer
        >>= λ r. ok (record { max_last_modified = max; indexer = r.1 }) in
      if should_update then updated else ok (record w { max_last_modified = max })

  -- The rounds over a sequence of states of the disk.
  unfoldable pub watcher_rounds : ℕ → ℕ → List Disk → Watcher ldb → Result (Watcher ldb)
  watcher_rounds rounds fuel [] w = ok w
  watcher_rounds rounds fuel (disk ∷ disks) w =
      watcher_round rounds fuel disk w >>= watcher_rounds rounds fuel disks
