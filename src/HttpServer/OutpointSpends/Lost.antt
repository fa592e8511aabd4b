-- ===== src/HttpServer/OutpointSpends/Lost.antt =====
-- outpointSpends compared with outpointSpend.
use blockchain_indexer.Base.{
  Bool, true, false, not, ◌||◌, [], ◌++◌, Str, none, some, is_zero_ℤ, ℤ, Option, ◌>>=◌,
}
use blockchain_indexer.Base.Text.{text, str_eq}
use blockchain_indexer.Leveldb.{Leveldb}
use blockchain_indexer.MempoolMonitor.{Mempool, outpoint_spend}
use blockchain_indexer.BlockIndexer.{tx_block_key}
use blockchain_indexer.HttpServer.{SpendRequest, SpendAnswer, to_uint32, pad8_ℤ}

module _ (ldb : Leveldb) (db : ldb.Db) (mempool : Mempool) where
  -- The key under which the spend of the outpoint would stand.
  abbrev pub request_key : SpendRequest → Str
  request_key r = text "txo-" ++ (r.txid ++ (text "-" ++ (pad8_ℤ r.vout ++ text "-spent")))

  -- Whether a transaction of the mempool spends the outpoint.
  abbrev is_claimed : SpendRequest → Bool
  is_claimed r = not (str_eq (outpoint_spend mempool r.txid (to_uint32 r.vout)) [])

  -- Whether outpointSpends leaves open what outpointSpend answers: no block spends the outpoint of
  -- a known transaction, and unconfirmed spends are not asked for, or there is one.
  unfoldable pub is_left_open : SpendRequest → Bool
  is_left_open r = elim (ldb.get db (tx_block_key r.txid)) [
    | none ↦ false
    | some _ ↦ elim (ldb.get db (request_key r)) [
      | none ↦ is_zero_ℤ r.unconfirmed || is_claimed r
      | some _ ↦ false
    ]
  ]

  -- An answer without any of the members.
  abbrev pub silent : SpendAnswer
  silent = record { failure = false; spent = none; spender = none; height = none }

  abbrev spent_answer : Str → Option ℤ → SpendAnswer
  spent_answer spender height = record {
    failure = false;
    spent = some true;
    spender = some spender;
    height = height;
  }
