-- ===== src/Examples/Watch.antt =====
-- Two rounds of the watcher over a directory with a file that holds no block.
use blockchain_indexer.Base.{◌≡◌, refl, [], ◌∷◌, replicate, ok, some, pos}
use blockchain_indexer.Base.Text.{text, str_eq}
use blockchain_indexer.Stream.{read}
use blockchain_indexer.BlockScanner.{move_next}
use blockchain_indexer.Dict.{lookup}
use blockchain_indexer.MempoolMonitor.{empty_mempool}
use blockchain_indexer.BlockFileWatcher.{
  is_block_file, scan_block_files, scan_blocks, scan_loop, process_next_block, update_loop,
  update_index,
}
use blockchain_indexer.BlockFileWatcher.Watch.{
  Timespec, Disk, Watcher, detect_changes, watcher_round,
}
use blockchain_indexer.BlockFileWatcher.Watch.Quiet.{Settled, UpdatesOrRests, watcher_round-Settled}
use blockchain_indexer.Examples.{some_junk, vertcoin}
use blockchain_indexer.Examples.Indexed.{constant}
use blockchain_indexer.Leveldb.Table.{table}

abbrev at_five : Timespec
at_five = record { tv_sec = pos 5; tv_nsec = 17 }

abbrev eight_zeros : Disk
eight_zeros = record {
  entries =
      record { d_name = text "."; st_mtim = some (record { tv_sec = pos 9; tv_nsec = 0 }) }
      ∷ record { d_name = text "blk00000.dat"; st_mtim = some at_five }
      ∷ [];
  names = text "." ∷ text "blk00000.dat" ∷ [];
  files = λ path. some (replicate 8 0);
}

-- The file has been written to since.
abbrev nine_zeros : Disk
nine_zeros = record eight_zeros { files = λ path. some (replicate 9 0) }

abbrev started : Watcher table
started = record {
  max_last_modified = record { tv_sec = pos 0; tv_nsec = 0 };
  indexer = record { db = []; next_txo_index = []; mempool = empty_mempool };
}

abbrev seen_five : Watcher table
seen_five = record started { max_last_modified = at_five }

first_round :
    watcher_round table constant vertcoin some_junk (text "blocks") 1 1 eight_zeros started
    ≡ ok seen_five
unfolding watcher_round detect_changes update_index scan_block_files scan_blocks scan_loop
    process_next_block update_loop is_block_file str_eq move_next read lookup
first_round = refl

watcher_round-Settled_example :
    UpdatesOrRests table constant vertcoin some_junk
      (text "blocks")
      1
      1
      eight_zeros
      started
      seen_five
    × Settled eight_zeros.entries at_five
    × (watcher_round table constant vertcoin some_junk (text "blocks") 1 1 nine_zeros seen_five
        ≡ ok seen_five)
watcher_round-Settled_example =
    watcher_round-Settled table constant vertcoin some_junk (text "blocks") 1 1 eight_zeros
      nine_zeros started seen_five first_round refl
