-- ===== src/HttpServer/AddressTxos/Handler.antt =====
-- src/httpserver.cpp, addressTxos: the parameters, the outputs of the mempool, and the answer.
use blockchain_indexer.Base.{
  List, [], ◌∷◌, ◌++◌, Str, if◌then◌else◌, Option, none, some, ℤ, Result, ok, ◌>>=◌, map,
}
use blockchain_indexer.Base.Text.{str_eq, stoi, stoll}
use blockchain_indexer.Types.{TransactionOutput}
use blockchain_indexer.Leveldb.{Leveldb}
use blockchain_indexer.Json.{Json, null, string, json_object, json_array, number, natural}
use blockchain_indexer.MempoolMonitor.{Mempool, outpoint_spend, get_txos}
use blockchain_indexer.HttpServer.Daemon.{Asked, given, refused, Daemon}
use blockchain_indexer.HttpServer.AddressTxos.{TxosQuery, TxoItem, is_one_ℤ, confirmed_txos}
use Prim.Native.String.{String}

-- The parameters as they come, with "0" for each that is not there.
pub record TxosRequest : Type 0 where
  pub address : Str
  pub since_block : Str
  pub tx_hash_only : Str
  pub raw : Str
  pub unspent : Str
  pub unconfirmed : Str
  pub script : Str

unfoldable pub read_query : TxosRequest → Result TxosQuery
read_query r = do
  since_block ← stoll r.since_block
  tx_hash_only ← stoi r.tx_hash_only
  raw ← stoi r.raw
  unspent ← stoi r.unspent
  unconfirmed ← stoi r.unconfirmed
  scripts ← stoi r.script
  ok (record {
    since_block = since_block;
    tx_hash_only = tx_hash_only;
    raw = raw;
    unspent = unspent;
    unconfirmed = unconfirmed;
    scripts = scripts;
  })

abbrev string_or_null : Option Str → Json
string_or_null none = null
string_or_null (some s) = string s

abbrev string_member : String → Option Str → List (String × Json)
string_member name none = []
string_member name (some s) = (name, string s) ∷ []

abbrev number_member : String → Option ℤ → List (String × Json)
number_member name none = []
number_member name (some n) = (name, number n) ∷ []

unfoldable pub item_json : TxoItem → Json
item_json item = json_object (
    ("height", number item.height)
    ∷ ("time", number item.time)
    ∷ ("spender", string_or_null item.spender)
    ∷ (string_member "tx" item.tx
        ++ (string_member "script" item.script
            ++ (string_member "txhash" item.tx_hash
                ++ (number_member "vout" item.vout ++ number_member "value" item.value)))))

-- The answer with code 200, or the one with code 400 and a message.
pub data TxosReply : Type 0 where
  page : Json → TxosReply
  bad_request_reply : Str → TxosReply

module _ (ldb : Leveldb) (db : ldb.Db) (mempool : Mempool) (daemon : Daemon) where
  unfoldable pub mempool_json : TransactionOutput → Json
  mempool_json txo =
      let spender = outpoint_spend mempool txo.tx_hash txo.index in
      json_object (
        ("txhash", string txo.tx_hash)
        ∷ ("vout", natural txo.index)
        ∷ ("value", natural txo.value)
        ∷ ("block", natural 0)
        ∷ ("spender", if str_eq spender [] then null else string spender)
        ∷ [])

  unfoldable pub unconfirmed_json : TxosQuery → Str → List Json
  unconfirmed_json q address =
      if is_one_ℤ q.unconfirmed then map mempool_json (get_txos mempool address) else []

  unfoldable pub txos_reply : TxosQuery → Str → Asked (List TxoItem) → TxosReply
  txos_reply q address (refused m) = bad_request_reply m
  txos_reply q address (given items) =
      page (json_array (map item_json items ++ unconfirmed_json q address))

  unfoldable pub address_txos : TxosRequest → Result TxosReply
  address_txos r = do
    q ← read_query r
    items ← confirmed_txos ldb db mempool daemon q r.address
    ok (txos_reply q r.address items)
