-- ===== src/Examples/Update.antt =====
-- The update of the index over the fork, with files of zeros and a table in memory.
use blockchain_indexer.Base.{ℕ, ◌≡◌, false, ok, replicate}
use blockchain_indexer.Base.Text.{text}
use blockchain_indexer.Types.{ScannedBlock, Block}
use blockchain_indexer.Stream.{open_stream}
use blockchain_indexer.Leveldb.Table.{table, table_get}
use blockchain_indexer.BlockReader.{read_block_at}
use blockchain_indexer.BlockIndexer.{Indexer}
use blockchain_indexer.BlockIndexer.Numbered.{HasNumber}
use blockchain_indexer.BlockFileWatcher.{index_best}
use blockchain_indexer.Examples.{some_junk, vertcoin}
use blockchain_indexer.Examples.Index.{new_index}
use blockchain_indexer.Examples.Indexed.{constant, zeros}

-- What the file holds is a block without transactions.
abbrev zeros_block : ℕ → Block
zeros_block height =
    read_block_at constant some_junk (text "blk00000.dat") 8 height false
      (open_stream (replicate 200 0))

abbrev Indexes : ScannedBlock → ℕ → Indexer table → Type 0
Indexes best height ix =
    (ix' : Indexer table) × (index_best table constant vertcoin some_junk zeros (text "blocks") best
        height ix
      ≡ ok ix')
    × HasNumber table ix'

-- The loop can start from the empty index.
new_index-HasNumber : HasNumber table new_index
unfolding table_get
new_index-HasNumber s e = cc e
