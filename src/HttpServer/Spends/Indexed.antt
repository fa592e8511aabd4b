-- ===== src/HttpServer/Spends/Indexed.antt =====
-- outpointSpend after indexBlock: the spends of the block that was indexed.
use blockchain_indexer.Base.{
  ℕ, ◌^◌, ◌<◌, ◌≡◌, ap, ◌∙◌, Bool, true, false, List, Str, length, get_elem?, some, ℤ, pos, ok,
}
use blockchain_indexer.Types.{TransactionInput, Transaction, Block}
use blockchain_indexer.Leveldb.{Leveldb, Laws, Op}
use blockchain_indexer.External.{Crypto, CoinParams}
use blockchain_indexer.Utility.HexText.{IsHex}
use blockchain_indexer.MempoolMonitor.{Mempool}
use blockchain_indexer.BlockIndexer.{Indexer, spent_key, tx_block_key, is_indexed, index_block}
use blockchain_indexer.BlockIndexer.Recorded.{IsInput}
use blockchain_indexer.BlockIndexer.Spent.{index_block-Recorded}
use blockchain_indexer.BlockIndexer.OwnEntries.{index_block-hash_key}
use blockchain_indexer.HttpServer.{outpoint_answer}
use blockchain_indexer.HttpServer.Spends.{outpoint_answer-stored}

module _ (ldb : Leveldb) (laws : Laws ldb)
    (written : (db : ldb.Db) (ops : List Op) → (ldb.write db ops).1 ≡ true) (crypto : Crypto)
    (params : CoinParams) (block : Block) (hex : IsHex block.block_hash)
    (long : length block.block_hash ≡ 64) (low : block.height < 2 ^ 63)
    (hashes : (i : ℕ) (t : Transaction)
      → get_elem? block.transactions i ≡ some t
      → length t.tx_hash ≡ 64) where
  -- Where LevelDB keeps its promises and every write succeeds, once a block was indexed that was
  -- not known before, of a hash of 64 hexadecimal digits and transactions with hashes of 64
  -- characters, at a height below 2 ^ 63: for each outpoint that an input of it spends, of a
  -- transaction that the index knows, outpointSpend names a transaction of the block with an input
  -- of the same key, and the height of the block, whatever the mempool holds and whatever was asked
  -- for.
  pub outpoint_answer-index_block :
      (i j : ℕ) (tx : Transaction) (txi : TransactionInput) (ix ix' : Indexer ldb) (b : Bool)
      (mempool : Mempool) (some_block : Str) (raw unconfirmed : ℤ)
      → get_elem? block.transactions i ≡ some tx
      → get_elem? tx.inputs j ≡ some txi
      → txi.coinbase ≡ false
      → is_indexed ldb block.block_hash block.height ix ≡ false
      → index_block ldb crypto params block ix ≡ ok (b, ix')
      → ldb.get ix'.db (tx_block_key txi.tx_hash) ≡ some some_block
      → (t : Transaction) × (ti : TransactionInput) × IsInput block t ti
        × (spent_key txi.tx_hash txi.txo_index ≡ spent_key ti.tx_hash ti.txo_index)
        × (outpoint_answer ldb ix'.db mempool (record {
          txid = txi.tx_hash;
          vout = pos txi.txo_index;
          raw = raw;
          unconfirmed = unconfirmed;
        })
            ≡ ok (record {
              failure = false;
              spent = some true;
              spender = some t.tx_hash;
              height = some (pos block.height);
            }))
  outpoint_answer-index_block i j tx txi ix ix' b mempool some_block raw unconfirmed there at spends
        new indexed known =
      let (v, found, (t, ti, input, real, key, value)) =
        index_block-Recorded ldb laws written crypto params block i j tx txi there at spends ix ix'
          b new indexed in
      let by_hash =
        index_block-hash_key ldb block laws written crypto params ix ix' b new indexed hex in
      (
        t,
        ti,
        input,
        key,
        outpoint_answer-stored ldb ix'.db mempool txi.tx_hash block.block_hash t.tx_hash some_block
            txi.txo_index ti.index block.height raw unconfirmed long (hashes input.0 t input.2) low
            known (found ∙ ap some value) by_hash,
      )
