-- ===== src/Examples/Mempool.antt =====
-- A round of the mempool watcher: one transaction is there already, and one is read.
use blockchain_indexer.Base.{◌≡◌, refl, any, [], ◌∷◌, ◌++◌, Str, replicate, some, ok}
use blockchain_indexer.Base.Text.{text, str_eq}
use blockchain_indexer.Dict.{lookup, insert}
use blockchain_indexer.Dict.Keys.{str_key}
use blockchain_indexer.Stream.{◌>>=◌, read_uint, seekg_back}
use blockchain_indexer.FileReader.{read_var_int}
use blockchain_indexer.Utility.{hex_to_bytes}
use blockchain_indexer.BlockReader.{
  read_transaction, read_parts, read_body, read_puts, read_outputs, read_inputs, read_marker,
}
use blockchain_indexer.MempoolMonitor.{
  Mempool, Vertcoind, watch_round, add_missing, add_transaction, add_outputs,
}
use blockchain_indexer.MempoolMonitor.Added.{read_text, known_or_listed, watch_round-lookup}
use blockchain_indexer.Examples.{toy_crypto, some_junk, vertcoin}
use blockchain_indexer.Examples.Spends.{spender}

-- Ten bytes: a transaction without inputs and outputs.
abbrev empty_text : Str
empty_text = replicate 20 b'0'

abbrev two_listed : Vertcoind
two_listed = record {
  get_raw_mempool = some (text "t" ∷ text "v" ∷ []);
  get_raw_transaction = λ txid. some empty_text;
}

abbrev one_waiting : Mempool
one_waiting = record {
  mempool_transactions = (text "t", spender (text "t")) ∷ [];
  address_mempool_transactions = [];
}

abbrev both_waiting : Mempool
both_waiting = record {
  mempool_transactions =
      one_waiting.mempool_transactions
      ++ (text "v", read_text toy_crypto some_junk empty_text) ∷ [];
  address_mempool_transactions = [];
}

one_round : watch_round toy_crypto vertcoin some_junk two_listed one_waiting ≡ ok both_waiting
unfolding watch_round add_missing add_transaction add_outputs lookup insert str_eq read_transaction
    read_parts read_body read_puts ◌>>=◌ read_outputs read_var_int read_uint read_inputs read_marker
    hex_to_bytes seekg_back
one_round = refl

watch_round-lookup_example :
    lookup (text "v") both_waiting.mempool_transactions
    ≡ known_or_listed toy_crypto some_junk
        (lookup (text "v") one_waiting.mempool_transactions)
        (any (λ txid. str_eq txid (text "v")) (text "t" ∷ text "v" ∷ []))
        (some empty_text)
watch_round-lookup_example =
    watch_round-lookup toy_crypto vertcoin some_junk two_listed (text "t" ∷ text "v" ∷ [])
      one_waiting both_waiting (text "v") refl ((empty_text, refl), ((empty_text, refl), tt))
      one_round
