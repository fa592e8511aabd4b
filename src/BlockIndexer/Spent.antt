-- ===== src/BlockIndexer/Spent.antt =====
-- An output that a block spends is recorded as spent once `indexBlock` has returned.
use blockchain_indexer.Base.{
  ℕ, ◌≡◌, refl, ap, ◌∙◌, Bool, true, false, List, get_elem?, All-at, some, ok, >>=-eq-ok,
}
use blockchain_indexer.Types.{TransactionInput, Transaction, Block}
use blockchain_indexer.Leveldb.{Leveldb, Laws, Op, after}
use blockchain_indexer.External.{Crypto, CoinParams}
use blockchain_indexer.BlockIndexer.Batch.{finished}
use blockchain_indexer.BlockIndexer.{
  Indexer, Job, block_key, spent_key, block_entries, is_indexed, replace_block, raise_highest,
  index_transactions, write_block, index_block,
}
use blockchain_indexer.BlockIndexer.Indexed.{after-append}
use blockchain_indexer.BlockIndexer.Recorded.{Recorded}
use blockchain_indexer.BlockIndexer.Spending.{index_transactions-Stores}

module _ (ldb : Leveldb) (laws : Laws ldb)
    (written : (db : ldb.Db) (ops : List Op) → (ldb.write db ops).1 ≡ true) (crypto : Crypto)
    (params : CoinParams) (block : Block) (i j : ℕ) (tx : Transaction) (txi : TransactionInput)
    (there : get_elem? block.transactions i ≡ some tx) (at : get_elem? tx.inputs j ≡ some txi)
    (spends : txi.coinbase ≡ false) where
  write_block-Recorded :
      (ix ix' : Indexer ldb)
      → write_block ldb crypto params block ix ≡ ok ix'
      → Recorded block
          (spent_key txi.tx_hash txi.txo_index)
          (ldb.get ix'.db (spent_key txi.tx_hash txi.txo_index))
  unfolding write_block
  write_block-Recorded ix ix' h =
      let start : Job ldb = record {
        indexer = ix;
        batch = block_entries ldb block;
        overflowed = false;
      } in
      let key = spent_key txi.tx_hash txi.txo_index in
      let (job, e, g) =
        >>=-eq-ok (index_transactions ldb crypto params block 0 block.transactions start) _ h in
      let stores =
        index_transactions-Stores ldb block txi.tx_hash txi.txo_index crypto params 0
          block.transactions i j tx txi start job
          (All-at _ block.transactions (λ k t h. All-at _ t.inputs (λ l ti g. (k, l, h, g)))) there
          at (refl, refl, spends) e in
      let same : record job.indexer { db = (ldb.write job.db job.batch).0 } ≡ ix' =
        finished ldb job.overflowed g in
      let kept : after job.batch key (ldb.get job.db key)
          ≡ after stores.ops key (after (block_entries ldb block) key (ldb.get job.db key)) =
        rw stores.batch (after-append (block_entries ldb block) stores.ops key _) in
      rw (← same, laws.get-write job.db job.batch key (written job.db job.batch), kept)
        (stores.sets _)

  -- Where LevelDB keeps its promises and every write succeeds, once indexBlock has returned for a
  -- block that was not indexed before, for each input of its transactions that is no coinbase the
  -- key of the outpoint has an entry. The entry consists of the hash of this block, the hash of one
  -- of its transactions and the number of an input of it whose outpoint has that key, whatever
  -- stood there before and whatever else the block writes.
  pub index_block-Recorded :
      (ix ix' : Indexer ldb) (b : Bool)
      → is_indexed ldb block.block_hash block.height ix ≡ false
      → index_block ldb crypto params block ix ≡ ok (b, ix')
      → Recorded block
          (spent_key txi.tx_hash txi.txo_index)
          (ldb.get ix'.db (spent_key txi.tx_hash txi.txo_index))
  unfolding index_block
  index_block-Recorded ix ix' b new h =
      let existing = ldb.get ix.db (block_key block.height) in
      let start = raise_highest ldb block.height (replace_block ldb existing ix) in
      let (ix1, _, g) = >>=-eq-ok start _ (rw new at h) in
      let (ix2, made, last) = >>=-eq-ok (write_block ldb crypto params block ix1) _ g in
      let same : ix2 ≡ ix' = cc last in write_block-Recorded ix1 ix' (made ∙ ap ok same)
