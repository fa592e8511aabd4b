-- ===== src/Examples/Payment.antt =====
-- A round of the mempool watcher that reads a payment.
use blockchain_indexer.Base.{
  ◌>>=◌, ℕ, ◌+◌, ◌<◌, ◌^◌, ap, sym, ◌∙◌, Bytes, length, arith, Result, All, Bool-cases, inl, inr,
  none, if◌then◌else◌, ◌≡◌, refl, [], ◌∷◌, Str, replicate, some, ok,
}
use blockchain_indexer.Base.Text.{str_eq, str_eq→eq, str_eq_refl}
use blockchain_indexer.Dict.{lookup, insert}
use blockchain_indexer.Dict.Keys.{str_key}
use blockchain_indexer.Stream.{Stream, open_stream, to_le}
use blockchain_indexer.Utility.{hex_to_bytes}
use blockchain_indexer.BlockReader.{read_transaction}
use blockchain_indexer.MempoolMonitor.{
  Mempool, Vertcoind, watch_round, add_missing, add_transaction, add_outputs,
}
use blockchain_indexer.MempoolMonitor.Added.{read_text, watch_round-listed, add_missing-unknown}
use blockchain_indexer.Types.{Transaction, TransactionOutput}
use blockchain_indexer.MempoolMonitor.{get_txos, empty_mempool}
use blockchain_indexer.MempoolMonitor.Linked.{Knows}
use blockchain_indexer.MempoolMonitor.Known.{IsHonest, begins, watched, Becomes-Knows}
use blockchain_indexer.BlockReader.Serialize.{
  RawTransaction, Fits, original, body_bytes, inputs_bytes, input_bytes, outputs_bytes,
  output_bytes, plain_outputs, plain_output,
}
use blockchain_indexer.BlockReader.RoundTrip.{read_transaction-original}
use blockchain_indexer.FileReader.Encode.{encode_var_int, encode_string}
use mathlib.Core.List.{append-nil}
use blockchain_indexer.ScriptSolver.Addresses.{witness_script, witness_script-addresses}
use blockchain_indexer.Utility.{hash_to_hex, bech32_address}
use blockchain_indexer.MempoolMonitor.{add_txo}
use blockchain_indexer.Examples.{toy_crypto, some_junk, vertcoin}

-- A payment to the hash of a key, as text.
abbrev paying : RawTransaction
paying = record {
  version = 2;
  inputs =
      record {
        hash = replicate 32 9;
        txo_index = 1;
        script = [];
        sequence = 4294967295;
        witness = [];
      }
      ∷ [];
  outputs = record { value = 5000; script = witness_script (replicate 20 7) } ∷ [];
  lock_time = 0;
}

abbrev paying_text : Str
paying_text = hash_to_hex (original paying)

-- A daemon whose only transaction is named by its hash.
abbrev paying_hash : Str
paying_hash = (read_text toy_crypto some_junk paying_text).tx_hash

abbrev one_listed : ℕ → Vertcoind
one_listed n = record {
  get_raw_mempool = some (paying_hash ∷ []);
  get_raw_transaction = λ txid. if str_eq paying_hash txid then some paying_text else none;
}

one_listed-IsHonest : (n : ℕ) → IsHonest toy_crypto vertcoin some_junk (one_listed n)
one_listed-IsHonest n txid raw_tx e = elim (Bool-cases (str_eq paying_hash txid)) [
  | inl same ↦
      let there : some paying_text ≡ some raw_tx = rw same at e in
      let text_same : paying_text ≡ raw_tx = cc there in
      rw (← text_same) (str_eq→eq paying_hash txid same)
  | inr differ ↦ let missing : none ≡ some raw_tx = rw differ at e in cc missing
]

abbrev paid : TransactionOutput
paid = record { value = 5000; script = witness_script (replicate 20 7); index = 0; tx_hash = [] }

paying-read : hex_to_bytes paying_text ≡ original paying
unfolding hex_to_bytes hash_to_hex original to_le body_bytes encode_var_int inputs_bytes input_bytes
    encode_string outputs_bytes output_bytes
paying-read = refl

paying-Fits : Fits paying
paying-Fits = record {
  version = omega arith;
  some_input = omega arith;
  input_count = omega arith;
  inputs = (
    record {
      hash = refl;
      txo_index = omega arith;
      script = omega arith;
      sequence = omega arith;
      witness = omega arith;
      items = tt;
    },
    tt,
  );
  output_count = omega arith;
  outputs = (record { value = omega arith; script = omega arith }, tt);
  lock_time = omega arith;
}

small_paying : 0 + length (original paying) < 2 ^ 64
unfolding original to_le body_bytes encode_var_int inputs_bytes input_bytes encode_string
    outputs_bytes output_bytes
small_paying = omega arith

paying-outputs : (read_text toy_crypto some_junk paying_text).outputs ≡ paid ∷ []
unfolding plain_outputs plain_output
paying-outputs =
    ap (λ (raw : Bytes). (read_transaction toy_crypto some_junk (open_stream raw)).0.outputs)
      paying-read
    ∙ ap (λ (r : Transaction × Stream). r.0.outputs)
        (read_transaction-original some_junk paying (original paying) [] 0 paying-Fits toy_crypto
          (sym (append-nil (original paying))) small_paying)

paid-add_outputs :
    (hash : Str)
    → add_outputs toy_crypto vertcoin some_junk (one_listed 0) hash (paid ∷ []) []
      ≡ ok (
          (bech32_address toy_crypto vertcoin (replicate 20 7), record paid { tx_hash = hash } ∷ [])
          ∷ [])
unfolding add_outputs add_txo lookup insert
paid-add_outputs hash =
    rw (witness_script-addresses toy_crypto vertcoin (replicate 20 7) (inl refl)) refl

abbrev polled : Mempool
polled = record {
  mempool_transactions = (paying_hash, read_text toy_crypto some_junk paying_text) ∷ [];
  address_mempool_transactions =
      (
        bech32_address toy_crypto vertcoin (replicate 20 7),
        record paid { tx_hash = paying_hash } ∷ [],
      )
      ∷ [];
}

listed-given : (one_listed 0).get_raw_transaction paying_hash ≡ some paying_text
listed-given = rw (str_eq_refl paying_hash) refl

polled-add_transaction :
    add_transaction toy_crypto vertcoin some_junk
      (one_listed 0)
      paying_hash
      (hex_to_bytes paying_text)
      empty_mempool
    ≡ ok polled
unfolding add_transaction insert
polled-add_transaction = rw (paying-outputs, paid-add_outputs paying_hash) refl

polled-watch_round :
    watch_round toy_crypto vertcoin some_junk (one_listed 0) empty_mempool ≡ ok polled
unfolding add_missing lookup
polled-watch_round =
    watch_round-listed toy_crypto vertcoin some_junk (one_listed 0) (paying_hash ∷ []) empty_mempool
      refl
    ∙ add_missing-unknown toy_crypto vertcoin some_junk (one_listed 0) paying_hash [] empty_mempool
        paying_text refl listed-given
    ∙ ap (λ (r : Result Mempool). r >>= add_missing toy_crypto vertcoin some_junk (one_listed 0) [])
        polled-add_transaction

Becomes-Knows_example :
    All
      (λ (out : TransactionOutput). Knows polled.mempool_transactions out)
      (get_txos polled (bech32_address toy_crypto vertcoin (replicate 20 7)))
Becomes-Knows_example =
    Becomes-Knows toy_crypto vertcoin some_junk one_listed polled
      (bech32_address toy_crypto vertcoin (replicate 20 7)) one_listed-IsHonest
      (watched 0 begins polled-watch_round)
