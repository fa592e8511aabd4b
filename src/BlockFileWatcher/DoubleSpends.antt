-- ===== src/BlockFileWatcher/DoubleSpends.antt =====
-- The search for double spends of src/blockfilewatcher.cpp, up to the events that it reports.
pub mod Filed
pub mod Sound
pub mod Events
pub mod Dump
use blockchain_indexer.Base.{
  ℕ, zero, suc, ◌+◌, Bool, true, false, not, ◌&&◌, List, [], ◌∷◌, ◌++◌, Str, length, ltb, ◌==◌,
  if◌then◌else◌, any, Result, ok, err, out_of_range, Option, none, some, ◌>>=◌,
}
use blockchain_indexer.Base.Text.{text, str_eq, pad8}
use blockchain_indexer.Types.{
  TransactionInput, Transaction, Block, PotentialDoubleSpend, DoubleSpentOutpoint, DoubleSpend,
  DoubleSpentCoinBase,
}
use blockchain_indexer.Dict.{Dict, lookup, insert}
use blockchain_indexer.Dict.Keys.{str_key, nat_key}
use blockchain_indexer.BlockReader.{zero_hash}

abbrev pub Spends : Type 0
Spends = Dict Str (List PotentialDoubleSpend)

-- What the first loops of analyzeDoubleBlocks gather.
pub record Gathered : Type 0 where
  pub reorged_coinbases : List Str
  pub spends : Spends

unfoldable pub add_spend : Str → PotentialDoubleSpend → Spends → Spends
add_spend outpoint spend spends = elim (lookup outpoint spends) [
  | none ↦ insert outpoint (spend ∷ []) spends
  | some known ↦ insert outpoint (known ++ spend ∷ []) spends
]

unfoldable pub gather_inputs : Block → Transaction → List TransactionInput → Spends → Spends
gather_inputs block tx [] spends = spends
gather_inputs block tx (txi ∷ inputs) spends = gather_inputs block tx inputs (
    if not (str_eq txi.tx_hash zero_hash)
    then add_spend (txi.tx_hash ++ pad8 txi.txo_index) (record { tx = tx; block = block }) spends
    else spends)

-- The first input, as `at(0)`.
unfoldable pub first_input : Transaction → Result TransactionInput
first_input tx = elim tx.inputs [ [] ↦ err out_of_range | txi ∷ _ ↦ ok txi ]

unfoldable pub gather_transaction : Block → Transaction → Gathered → Result Gathered
gather_transaction block tx g = do
  first ← first_input tx
  ok (record {
    reorged_coinbases =
        if str_eq first.tx_hash zero_hash && not block.main_chain
        then g.reorged_coinbases ++ tx.tx_hash ∷ []
        else g.reorged_coinbases;
    spends = gather_inputs block tx tx.inputs g.spends;
  })

unfoldable pub gather_transactions : Block → List Transaction → Gathered → Result Gathered
gather_transactions block [] g = ok g
gather_transactions block (tx ∷ txs) g = do
  g' ← gather_transaction block tx g
  gather_transactions block txs g'

unfoldable pub gather_blocks : List Block → Gathered → Result Gathered
gather_blocks [] g = ok g
gather_blocks (block ∷ blocks) g = do
  g' ← gather_transactions block block.transactions g
  gather_blocks blocks g'

-- `for(int i = 0; find(i) != end(); i++)`: the keys from `i` on, without a gap. There are at most as
-- many rounds as entries.
unfoldable pub consecutive : ℕ → ℕ → Dict ℕ (List Block) → List (List Block)
consecutive zero i chains = []
consecutive (suc rounds) i chains =
    let rest = consecutive rounds (i + 1) chains in
    elim (lookup i chains) [ none ↦ [] | some blocks ↦ blocks ∷ rest ]

unfoldable pub gather_chains : List (List Block) → Gathered → Result Gathered
gather_chains [] g = ok g
gather_chains (blocks ∷ chains) g = do g' ← gather_blocks blocks g; gather_chains chains g'

-- The first spend in a block of the main chain.
unfoldable pub main_chain_spend : List PotentialDoubleSpend → Option PotentialDoubleSpend
main_chain_spend [] = none
main_chain_spend (spend ∷ spends) =
    let rest = main_chain_spend spends in if spend.block.main_chain then some spend else rest

-- The outpoint of the last input that spends a reorganised coinbase.
unfoldable pub reorged_spend : List Str → List TransactionInput → Option Str → Option Str
reorged_spend coinbases [] found = found
reorged_spend coinbases (txi ∷ inputs) found = reorged_spend coinbases inputs (
    if any (λ coinbase. str_eq coinbase txi.tx_hash) coinbases
    then some (txi.tx_hash ++ text "00000000")
    else found)

-- What the second part of analyzeDoubleBlocks finds.
pub record Found : Type 0 where
  pub double_spends : List DoubleSpend
  pub orphans_spending_reorged_coinbase : List DoubleSpentCoinBase
  pub orphans_missing_from_main_chain : List Transaction

abbrev pub nothing_found : Found
nothing_found = record {
  double_spends = [];
  orphans_spending_reorged_coinbase = [];
  orphans_missing_from_main_chain = [];
}

unfoldable pub add_orphan_spend :
    PotentialDoubleSpend → Str → List DoubleSpentCoinBase → List DoubleSpentCoinBase
add_orphan_spend spend coinbase [] =
    record { tx = spend.tx; block = spend.block; outpoints = coinbase ∷ [] } ∷ []
add_orphan_spend spend coinbase (existing ∷ rest) =
    if str_eq existing.block.block_hash spend.block.block_hash
      && str_eq existing.tx.tx_hash spend.tx.tx_hash
    then (if any (λ outpoint. str_eq outpoint coinbase) existing.outpoints
        then existing ∷ rest
        else record existing { outpoints = existing.outpoints ++ coinbase ∷ [] } ∷ rest)
    else existing ∷ add_orphan_spend spend coinbase rest

unfoldable pub add_orphan : Transaction → List Transaction → List Transaction
add_orphan tx orphans =
    if any (λ (known : Transaction). str_eq tx.tx_hash known.tx_hash) orphans
    then orphans
    else orphans ++ tx ∷ []

-- A spend of an outpoint that no block of the main chain spends.
unfoldable pub orphaned_spend : List Str → PotentialDoubleSpend → Found → Found
orphaned_spend coinbases spend found = elim (reorged_spend coinbases spend.tx.inputs none) [
  | some coinbase ↦ record found {
    orphans_spending_reorged_coinbase =
        add_orphan_spend spend coinbase found.orphans_spending_reorged_coinbase;
  }
  | none ↦ record found {
    orphans_missing_from_main_chain = add_orphan spend.tx found.orphans_missing_from_main_chain;
  }
]

unfoldable pub orphaned_spends : List Str → List PotentialDoubleSpend → Found → Found
orphaned_spends coinbases [] found = found
orphaned_spends coinbases (spend ∷ spends) found =
    orphaned_spends coinbases spends (orphaned_spend coinbases spend found)

-- Whether an outpoint of the list was also spent in the same transaction of the same block.
unfoldable pub same_rival : DoubleSpentOutpoint → List DoubleSpentOutpoint → Bool
same_rival dso outpoints =
    any
      (λ (known : DoubleSpentOutpoint).
        str_eq known.also_spent_in_block.block_hash dso.also_spent_in_block.block_hash
        && str_eq known.also_spent_in_tx.tx_hash dso.also_spent_in_tx.tx_hash)
      outpoints

-- The outpoint joins the first known double spend of the same transactions, or starts a new one.
unfoldable pub add_double_spend :
    PotentialDoubleSpend → DoubleSpentOutpoint → List DoubleSpend → List DoubleSpend
add_double_spend main dso [] =
    record { tx = main.tx; block = main.block; outpoints = dso ∷ [] } ∷ []
add_double_spend main dso (existing ∷ rest) =
    if str_eq existing.block.block_hash main.block.block_hash
      && str_eq existing.tx.tx_hash main.tx.tx_hash
      && same_rival dso existing.outpoints
    then record existing { outpoints = existing.outpoints ++ dso ∷ [] } ∷ rest
    else existing ∷ add_double_spend main dso rest

-- The spends of an outpoint by other transactions in other blocks than the main chain's.
unfoldable pub rival_spends :
    Str → PotentialDoubleSpend → List PotentialDoubleSpend → List DoubleSpend → List DoubleSpend
rival_spends outpoint main [] known = known
rival_spends outpoint main (spend ∷ spends) known = rival_spends outpoint main spends (
    if not (str_eq spend.tx.tx_hash main.tx.tx_hash)
      && not (str_eq spend.block.block_hash main.block.block_hash)
    then add_double_spend main
        (record {
          outpoint = outpoint;
          also_spent_in_tx = spend.tx;
          also_spent_in_block = spend.block;
        })
        known
    else known)

unfoldable pub judge_outpoint : List Str → Str → List PotentialDoubleSpend → Found → Found
judge_outpoint coinbases outpoint spends found = elim (main_chain_spend spends) [
  | none ↦ orphaned_spends coinbases spends found
  | some main ↦
      if ltb 1 (length spends)
      then record found { double_spends = rival_spends outpoint main spends found.double_spends }
      else found
]

unfoldable pub judge_spends : List Str → Spends → Found → Found
judge_spends coinbases [] found = found
judge_spends coinbases ((outpoint, spends) ∷ rest) found =
    judge_spends coinbases rest (judge_outpoint coinbases outpoint spends found)

-- analyzeDoubleBlocks without its output: the coinbases gathered so far, and what was found.
unfoldable pub analyze_double_blocks : Dict ℕ (List Block) → List Str → Result (List Str × Found)
analyze_double_blocks double_blocks coinbases = do
  g ←
      gather_chains (consecutive (length double_blocks) 0 double_blocks)
        (record { reorged_coinbases = coinbases; spends = [] })
  ok (g.reorged_coinbases, judge_spends g.reorged_coinbases g.spends nothing_found)
