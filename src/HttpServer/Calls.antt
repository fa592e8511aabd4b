-- ===== src/HttpServer/Calls.antt =====
-- src/httpserver.cpp: the requests that are passed on to the daemon or to the mempool monitor.
use blockchain_indexer.Base.{Str, map}
use blockchain_indexer.MempoolMonitor.{Mempool, get_tx_ids}
use blockchain_indexer.Json.{string, json_array}
use blockchain_indexer.HttpServer.Daemon.{given, refused, Daemon, Answer, success, plain, failure}

unfoldable pub mempool_transaction_ids : Mempool → Answer
mempool_transaction_ids mempool = success (json_array (map (λ id. string id) (get_tx_ids mempool)))

module _ (daemon : Daemon) where
  unfoldable pub get_transaction : Str → Answer
  get_transaction id = elim (daemon.verbose_transaction id) [
    | given tx ↦ plain tx
    | refused message ↦ failure 404 message
  ]

  unfoldable pub send_raw_transaction_handler : Str → Answer
  send_raw_transaction_handler raw_tx = elim (daemon.send_raw_transaction raw_tx) [
    | given tx_id ↦ plain tx_id
    | refused message ↦ failure 400 message
  ]
