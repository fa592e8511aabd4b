-- ===== src/BlockFileWatcher/DoubleSpends/Events.antt =====
-- The JSON events of src/blockfilewatcher.cpp.
use blockchain_indexer.Base.{List, [], ◌∷◌, ◌++◌, map, Result, ok, ◌>>=◌}
use blockchain_indexer.Base.Text.{text}
use blockchain_indexer.Types.{
  TransactionInput, TransactionOutput, Transaction, Block, DoubleSpentOutpoint, DoubleSpend,
  DoubleSpentCoinBase,
}
use blockchain_indexer.Json.{Json, string, json_array, json_object, natural}
use blockchain_indexer.External.{Crypto, CoinParams}
use blockchain_indexer.ScriptSolver.{get_addresses_from_script, get_script_type_name}
use blockchain_indexer.BlockFileWatcher.DoubleSpends.{Found}

unfoldable pub vin_json : TransactionInput → Json
vin_json txi = json_object (("txid", string txi.tx_hash) ∷ ("vout", natural txi.txo_index) ∷ [])

unfoldable pub block_json : Block → Json
block_json block =
    json_object (("hash", string block.block_hash) ∷ ("height", natural block.height) ∷ [])

module _ (crypto : Crypto) (params : CoinParams) where
  unfoldable pub vouts_json : List TransactionOutput → Result (List Json)
  vouts_json [] = ok []
  vouts_json (txo ∷ outputs) = do
    addresses ← get_addresses_from_script crypto params txo.script
    type ← get_script_type_name txo.script
    rest ← vouts_json outputs
    ok (
        json_object (
          ("to", json_array (map string addresses))
          ∷ ("type", string type)
          ∷ ("valueSat", natural txo.value)
          ∷ [])
        ∷ rest)

  unfoldable pub tx_to_json : Transaction → Result Json
  tx_to_json tx = do
    vouts ← vouts_json tx.outputs
    ok (
        json_object (
          ("txid", string tx.tx_hash)
          ∷ ("vin", json_array (map vin_json tx.inputs))
          ∷ ("vout", json_array vouts)
          ∷ []))

  unfoldable pub outpoints_json : List DoubleSpentOutpoint → Result (List Json)
  outpoints_json [] = ok []
  outpoints_json (dso ∷ outpoints) = do
    tx ← tx_to_json dso.also_spent_in_tx
    rest ← outpoints_json outpoints
    ok (
        json_object (
          ("outpoint", string dso.outpoint)
          ∷ (
            "alsoSpentIn",
            json_object (("tx", tx) ∷ ("block", block_json dso.also_spent_in_block) ∷ []),
          )
          ∷ [])
        ∷ rest)

  unfoldable pub double_spend_events : List DoubleSpend → Result (List Json)
  double_spend_events [] = ok []
  double_spend_events (ds ∷ rest) = do
    tx ← tx_to_json ds.tx
    outpoints ← outpoints_json ds.outpoints
    events ← double_spend_events rest
    let details = json_object (
        ("mainChainBlock", block_json ds.block)
        ∷ ("mainChainTx", tx)
        ∷ ("doubleSpentOutpoints", json_array outpoints)
        ∷ [])
    ok (json_object (("event", string (text "doubleSpend")) ∷ ("details", details) ∷ []) ∷ events)

  unfoldable pub coinbase_events : List DoubleSpentCoinBase → Result (List Json)
  coinbase_events [] = ok []
  coinbase_events (spend ∷ rest) = do
    tx ← tx_to_json spend.tx
    events ← coinbase_events rest
    let details = json_object (
        ("orphanedTx", tx)
        ∷ ("orphanedBlock", block_json spend.block)
        ∷ ("coinbasesSpent", json_array (map string spend.outpoints))
        ∷ [])
    ok (
        json_object (("event", string (text "spendingReorgedCoinbase")) ∷ ("details", details) ∷ [])
        ∷ events)

  -- The events of one analysis, double spends first.
  unfoldable pub found_events : Found → Result (List Json)
  found_events found = do
    spends ← double_spend_events found.double_spends
    coinbases ← coinbase_events found.orphans_spending_reorged_coinbase
    ok (spends ++ coinbases)
