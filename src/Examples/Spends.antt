-- ===== src/Examples/Spends.antt =====
-- An outpoint that two blocks of the same height spend.
use blockchain_indexer.Base.{ℕ, ◌≡◌, refl, Bool, true, false, List, [], ◌∷◌, Str, All, ok, pos}
use blockchain_indexer.Base.Text.{text, str_eq, pad8, setw, dec, dec_loop}
use blockchain_indexer.Types.{Block, Transaction}
use blockchain_indexer.Dict.{Dict, lookup, insert}
use blockchain_indexer.Dict.Keys.{nat_key, str_key}
use blockchain_indexer.BlockFileWatcher.DoubleSpends.{
  Found, analyze_double_blocks, gather_chains, consecutive, gather_blocks, gather_transactions,
  gather_transaction, gather_inputs, add_spend, first_input, judge_spends, judge_outpoint,
  main_chain_spend, rival_spends, add_double_spend,
}
use blockchain_indexer.BlockFileWatcher.DoubleSpends.Sound.{
  IsDoubleSpend, analyze_double_blocks_sound,
}

abbrev pub spender : Str → Transaction
spender tx_hash = record {
  inputs =
      record {
        index = 0;
        tx_hash = text "ab";
        txo_index = 0;
        sequence = 0;
        coinbase = false;
        script = [];
        witness_data = [];
      }
      ∷ [];
  outputs = [];
  tx_hash = tx_hash;
  tx_wit_hash = tx_hash;
  file_position = 0;
  byte_size = 0;
  version = 1;
  lock_time = 0;
}

abbrev block_of : Str → Bool → Transaction → Block
block_of block_hash main_chain tx = record {
  file_name = [];
  file_position = pos 0;
  block_hash = block_hash;
  previous_block_hash = [];
  merkle_root = [];
  height = 1;
  byte_size = 0;
  time = 0;
  bits = 0;
  nonce = 0;
  version = 1;
  transactions = tx ∷ [];
  main_chain = main_chain;
}

abbrev pub on_main : Block
on_main = block_of (text "m") true (spender (text "t"))

abbrev orphan : Block
orphan = block_of (text "o") false (spender (text "u"))

abbrev both_sides : Dict ℕ (List Block)
both_sides = (0, on_main ∷ []) ∷ (1, orphan ∷ []) ∷ []

abbrev one_double_spend : Found
one_double_spend = record {
  double_spends =
      record {
        tx = spender (text "t");
        block = on_main;
        outpoints =
            record {
              outpoint = text "ab00000000";
              also_spent_in_tx = spender (text "u");
              also_spent_in_block = orphan;
            }
            ∷ [];
      }
      ∷ [];
  orphans_spending_reorged_coinbase = [];
  orphans_missing_from_main_chain = [];
}

both_sides-found : analyze_double_blocks both_sides [] ≡ ok ([], one_double_spend)
unfolding analyze_double_blocks gather_chains consecutive gather_blocks gather_transactions
    gather_transaction gather_inputs add_spend first_input judge_spends judge_outpoint
    main_chain_spend rival_spends add_double_spend lookup insert str_eq pad8 setw dec dec_loop
both_sides-found = refl

analyze_double_blocks-sound_example : All IsDoubleSpend one_double_spend.double_spends
analyze_double_blocks-sound_example =
    analyze_double_blocks_sound both_sides [] [] one_double_spend both_sides-found
