-- ===== src/HttpServer/OutpointSpends/Batch.antt =====
-- src/httpserver.cpp, outpointSpends: the outpoints of the request's body, one after the other.
use blockchain_indexer.Base.{
  List, [], ◌∷◌, Str, Option, none, some, ℤ, Result, ok, err, invalid_argument, ◌>>=◌,
}
use blockchain_indexer.Base.Text.{stoi}
use blockchain_indexer.Leveldb.{Leveldb}
use blockchain_indexer.MempoolMonitor.{Mempool}
use blockchain_indexer.Json.{
  Json, null, bool, number, string, array, object, Items, nil, cons, Members, end, member,
  member_of, json_array,
}
use blockchain_indexer.HttpServer.Daemon.{Daemon, Answer, success}
use blockchain_indexer.HttpServer.OutpointSpends.{spends_item}

unfoldable pub item_list : Items → List Json
item_list nil = []
item_list (cons j js) = j ∷ item_list js

unfoldable pub value_list : Members → List Json
value_list end = []
value_list (member k j ms) = j ∷ value_list ms

-- What `for (auto& txo : input)` visits; nothing is visited where the input is null.
unfoldable pub elements : Json → List Json
elements null = []
elements (bool b) = bool b ∷ []
elements (number n) = number n ∷ []
elements (string s) = string s ∷ []
elements (array js) = item_list js
elements (object ms) = value_list ms

-- An outpoint of the input: a text and a number.
unfoldable pub outpoint_of : Json → Json → Option (Str × ℤ)
outpoint_of (string txid) (number vout) = some (txid, vout)
outpoint_of _ _ = none

unfoldable pub outpoint_in : Json → Option (Str × ℤ)
outpoint_in (object ms) = outpoint_of (member_of "txid" ms) (member_of "vout" ms)
outpoint_in _ = none

module _ (ldb : Leveldb) (db : ldb.Db) (mempool : Mempool) (daemon : Daemon)
    (raw unconfirmed : ℤ) where
  -- The loop; what is no outpoint is passed over.
  unfoldable pub spends_items : List Json → Result (List Json)
  spends_items [] = ok []
  spends_items (txo ∷ txos) = elim (outpoint_in txo) [
    | none ↦ spends_items txos
    | some (txid, vout) ↦ do
      item ← spends_item ldb db mempool daemon raw unconfirmed txid vout
      rest ← spends_items txos
      ok (item ∷ rest)
  ]

-- `parse` is that of the JSON library: `none` is its exception.
module _ (ldb : Leveldb) (db : ldb.Db) (mempool : Mempool) (daemon : Daemon)
    (parse : Str → Option Json) where
  unfoldable pub outpoint_spends_handler : Str → Str → Str → Result Answer
  outpoint_spends_handler raw_parameter unconfirmed_parameter content = do
    raw ← stoi raw_parameter
    unconfirmed ← stoi unconfirmed_parameter
    elim (parse content) [
      | none ↦ err invalid_argument
      | some input ↦ do
        output ← spends_items ldb db mempool daemon raw unconfirmed (elements input)
        ok (success (json_array output))
    ]
