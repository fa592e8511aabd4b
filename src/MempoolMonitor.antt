-- ===== src/MempoolMonitor.antt =====
-- src/mempoolmonitor.cpp: the unconfirmed transactions, and their outputs by address.
pub mod Removal
pub mod Added
pub mod Linked
pub mod Known
use blockchain_indexer.Base.{
  ℕ, Bool, true, false, not, ◌&&◌, List, [], ◌∷◌, ◌++◌, map, Bytes, Str, ◌==◌, if◌then◌else◌,
  Result, ok, err, Option, none, some, ◌>>=◌,
}
use blockchain_indexer.Base.Text.{str_eq}
use blockchain_indexer.Types.{TransactionInput, TransactionOutput, Transaction}
use blockchain_indexer.Dict.{Dict, lookup, insert, erase}
use blockchain_indexer.Dict.Keys.{str_key}
use blockchain_indexer.Stream.{open_stream}
use blockchain_indexer.External.{Crypto, CoinParams, Indeterminate}
use blockchain_indexer.Utility.{hex_to_bytes}
use blockchain_indexer.ScriptSolver.{get_addresses_from_script}
use blockchain_indexer.BlockReader.{read_transaction}

pub record Mempool : Type 0 where
  pub mempool_transactions : Dict Str Transaction
  pub address_mempool_transactions : Dict Str (List TransactionOutput)

abbrev pub empty_mempool : Mempool
empty_mempool = record { mempool_transactions = []; address_mempool_transactions = [] }

unfoldable pub spends : Str → ℕ → List TransactionInput → Bool
spends txid vout [] = false
spends txid vout (txi ∷ inputs) =
    let rest = spends txid vout inputs in
    if str_eq txi.tx_hash txid && txi.txo_index == vout then true else rest

-- The hash of the first transaction that spends the outpoint, and "" if there is none.
unfoldable pub spender_in : Dict Str Transaction → Str → ℕ → Str
spender_in [] txid vout = []
spender_in ((id, tx) ∷ txs) txid vout =
    let rest = spender_in txs txid vout in if spends txid vout tx.inputs then tx.tx_hash else rest

unfoldable pub outpoint_spend : Mempool → Str → ℕ → Str
outpoint_spend m txid vout = spender_in m.mempool_transactions txid vout

unfoldable pub get_tx_ids : Mempool → List Str
get_tx_ids m = map (λ kvp. kvp.1.tx_hash) m.mempool_transactions

abbrev pub outputs_or_none : Option (List TransactionOutput) → List TransactionOutput
outputs_or_none none = []
outputs_or_none (some txos) = txos

unfoldable pub get_txos : Mempool → Str → List TransactionOutput
get_txos m address = outputs_or_none (lookup address m.address_mempool_transactions)

-- The outputs that are not of the transaction, and whether one was left out.
unfoldable pub without_tx : Str → List TransactionOutput → List TransactionOutput × Bool
without_tx txid [] = ([], false)
without_tx txid (txo ∷ txos) =
    let (new_vector, items_removed) = without_tx txid txos in
    if not (str_eq txo.tx_hash txid) then (txo ∷ new_vector, items_removed) else (new_vector, true)

-- The vectors that change, by address.
unfoldable pub changed_txos :
    Str → Dict Str (List TransactionOutput) → Dict Str (List TransactionOutput)
changed_txos txid [] = []
changed_txos txid ((address, txos) ∷ rest) =
    let (new_vector, items_removed) = without_tx txid txos in
    if items_removed then (address, new_vector) ∷ changed_txos txid rest else changed_txos txid rest

unfoldable pub store_all :
    Dict Str (List TransactionOutput)
    → Dict Str (List TransactionOutput)
    → Dict Str (List TransactionOutput)
store_all [] m = m
store_all ((address, txos) ∷ changed) m = store_all changed (insert address txos m)

unfoldable pub transaction_indexed : Str → Mempool → Mempool
transaction_indexed txid m = elim (lookup txid m.mempool_transactions) [
  | none ↦ m
  | some _ ↦ record {
    mempool_transactions = erase txid m.mempool_transactions;
    address_mempool_transactions =
        store_all (changed_txos txid m.address_mempool_transactions) m.address_mempool_transactions;
  }
]

-- `addressMempoolTransactions[address].push_back(out)`, after an empty vector if there was none.
unfoldable pub add_txo :
    TransactionOutput
    → List Str
    → Dict Str (List TransactionOutput)
    → Dict Str (List TransactionOutput)
add_txo out [] m = m
add_txo out (address ∷ addresses) m =
    add_txo out addresses (insert address (outputs_or_none (lookup address m) ++ out ∷ []) m)

-- The daemon's calls: `none` is a JsonRpcException.
pub record Vertcoind : Type 0 where
  pub get_raw_mempool : Option (List Str)
  pub get_raw_transaction : Str → Option Str

module _ (crypto : Crypto) (params : CoinParams) (junk : Indeterminate) (daemon : Vertcoind) where
  unfoldable pub add_outputs :
      Str
      → List TransactionOutput
      → Dict Str (List TransactionOutput)
      → Result (Dict Str (List TransactionOutput))
  add_outputs tx_hash [] m = ok m
  add_outputs tx_hash (out ∷ outputs) m = do
    addresses ← get_addresses_from_script crypto params out.script
    add_outputs tx_hash outputs (add_txo (record out { tx_hash = tx_hash }) addresses m)

  unfoldable pub add_transaction : Str → Bytes → Mempool → Result Mempool
  add_transaction txid raw m =
      let tx = (read_transaction crypto junk (open_stream raw)).0 in
      do
        added ← add_outputs tx.tx_hash tx.outputs m.address_mempool_transactions
        ok (record {
          mempool_transactions = insert txid tx m.mempool_transactions;
          address_mempool_transactions = added;
        })

  -- The loop over the daemon's list. A failed call ends it, and keeps what was added.
  unfoldable pub add_missing : List Str → Mempool → Result Mempool
  add_missing [] m = ok m
  add_missing (txid ∷ txids) m = elim (lookup txid m.mempool_transactions) [
    | some _ ↦ add_missing txids m
    | none ↦ elim (daemon.get_raw_transaction txid) [
      | none ↦ ok m
      | some raw_tx ↦ do m' ← add_transaction txid (hex_to_bytes raw_tx) m; add_missing txids m'
    ]
  ]

  -- One round of startWatcher.
  unfoldable pub watch_round : Mempool → Result Mempool
  watch_round m = elim daemon.get_raw_mempool [ none ↦ ok m | some txids ↦ add_missing txids m ]
