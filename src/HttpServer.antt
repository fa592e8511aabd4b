-- ===== src/HttpServer.antt =====
-- src/httpserver.cpp: what the server answers from the index and the mempool.
pub mod Entries
pub mod Sums
pub mod Spends
pub mod Daemon
pub mod AddressTxos
pub mod Blocks
pub mod OutpointSpends
pub mod Calls
pub mod Sync
pub mod BlockTransactions
pub mod Proof
use blockchain_indexer.Base.{
  ℕ, ◌+◌, ◌-◌, ◌%◌, ◌^◌, Bool, true, false, not, ◌&&◌, List, [], ◌∷◌, ◌++◌, Str, length, ◌==◌,
  if◌then◌else◌, Option, none, some, ℤ, pos, negsuc, add_long, is_zero_ℤ, Result, ok, err, ◌>>=◌,
  map,
}
use blockchain_indexer.Base.Text.{text, str_eq, pad8, setw, dec_ℤ, substr, stoi, stoll}
use blockchain_indexer.Types.{TransactionOutput}
use blockchain_indexer.Leveldb.{Leveldb, range}
use blockchain_indexer.BlockIndexer.{tx_block_key}
use blockchain_indexer.Json.{Json, json_object, number}
use blockchain_indexer.MempoolMonitor.{Mempool, outpoint_spend, get_txos}

-- The sums of addressBalance, each a `long long`.
pub record Balance : Type 0 where
  pub balance : ℤ
  pub unconfirmed_balance : ℤ
  pub tx_count : ℤ
  pub unconfirmed_tx_count : ℤ

-- A `long` as `uint32_t`.
unfoldable pub to_uint32 : ℤ → ℕ
to_uint32 (pos n) = n % 2 ^ 32
to_uint32 (negsuc n) = 2 ^ 32 - 1 - n % 2 ^ 32

pub data Reply : Type 0 where
  json_reply : Json → Reply
  text_reply : Str → Reply

module _ (ldb : Leveldb) (db : ldb.Db) (mempool : Mempool) where
  -- An output that no block spends: it counts, and without a spender in the mempool it counts as
  -- unconfirmed too.
  unfoldable pub count_unspent : ℤ → Str → ℕ → Balance → Balance
  count_unspent value tx_hash vout b =
      if str_eq (outpoint_spend mempool tx_hash vout) []
      then record b {
        balance = add_long b.balance value;
        unconfirmed_balance = add_long b.unconfirmed_balance value;
        tx_count = add_long b.tx_count (pos 1);
      }
      else record b {
        balance = add_long b.balance value;
        tx_count = add_long b.tx_count (pos 1);
        unconfirmed_tx_count = add_long b.unconfirmed_tx_count (pos 1);
      }

  -- The rest of the loop's body for an output that no block spends.
  unfoldable pub count_value : Str → Str → Str → Balance → Result Balance
  count_value txo tx_hash index b = do
    rest ← substr 80 (length txo) txo
    value ← stoll rest
    vout ← stoll index
    ok (count_unspent value tx_hash (to_uint32 vout) b)

  unfoldable pub count_spent : Balance → Balance
  count_spent b = record b { tx_count = add_long (add_long b.tx_count (pos 1)) (pos 1) }

  -- The body of the loop over the entries of an address, for the value of an entry.
  unfoldable pub count_txo : Str → Balance → Result Balance
  count_txo txo b = do
    tx_hash ← substr 0 64 txo
    index ← substr 64 8 txo
    elim (ldb.get db (text "txo-" ++ (tx_hash ++ (text "-" ++ (index ++ text "-spent"))))) [
      | none ↦ count_value txo tx_hash index b
      | some _ ↦ ok (count_spent b)
    ]

  unfoldable pub count_txos : List Str → Balance → Result Balance
  count_txos [] b = ok b
  count_txos (txo ∷ txos) b = do b' ← count_txo txo b; count_txos txos b'

  -- The loop over the mempool's outputs of the address.
  unfoldable pub count_mempool : List TransactionOutput → Balance → Balance
  count_mempool [] b = b
  count_mempool (txo ∷ txos) b = count_mempool txos (
      if str_eq (outpoint_spend mempool txo.tx_hash txo.index) []
      then record b {
        unconfirmed_balance = add_long b.unconfirmed_balance (pos txo.value);
        unconfirmed_tx_count = add_long b.unconfirmed_tx_count (pos 1);
      }
      else record b {
        unconfirmed_tx_count = add_long (add_long b.unconfirmed_tx_count (pos 1)) (pos 1);
      })

  abbrev pub no_balance : Balance
  no_balance = record {
    balance = pos 0;
    unconfirmed_balance = pos 0;
    tx_count = pos 0;
    unconfirmed_tx_count = pos 0;
  }

  unfoldable pub balance_of : Str → Result Balance
  balance_of address = do
    b ←
        count_txos
          (map (λ e. e.1)
            (range ldb db (address ++ text "-txo-00000001") (address ++ text "-txo-99999999")))
          no_balance
    ok (count_mempool (get_txos mempool address) b)

  unfoldable pub balance_reply : ℤ → Balance → Reply
  balance_reply details b =
      if not (is_zero_ℤ details)
      then json_reply (
          json_object (
            ("balance", number b.balance)
            ∷ ("txCount", number b.tx_count)
            ∷ ("unconfirmedBalance", number b.unconfirmed_balance)
            ∷ ("unconfirmedTxCount", number b.unconfirmed_tx_count)
            ∷ []))
      else text_reply (dec_ℤ b.balance)

  unfoldable pub address_balance : Str → Str → Result Reply
  address_balance address details_parameter = do
    details ← stoi details_parameter
    b ← balance_of address
    ok (balance_reply details b)

  unfoldable pub get_addresses_for_txo : Str → ℕ → List Str
  get_addresses_for_txo tx_hash idx =
      let key = tx_hash ++ (pad8 idx ++ text "-address-") in
      map (λ e. e.1) (range ldb db (key ++ text "00000000") (key ++ text "99999999"))

  unfoldable pub get_value_for_txo : Str → ℕ → Result ℤ
  get_value_for_txo tx_hash idx = elim (ldb.get db (tx_hash ++ (pad8 idx ++ text "-value"))) [
    | none ↦ ok (pos 0)
    | some value ↦ stoll value
  ]

-- The parameters of a request for a spend. `raw` asks the daemon for the spending transaction too.
pub record SpendRequest : Type 0 where
  pub txid : Str
  pub vout : ℤ
  pub raw : ℤ
  pub unconfirmed : ℤ

-- The members of the answer, before the daemon is asked: `none` is a member that is not set.
pub record SpendAnswer : Type 0 where
  pub failure : Bool
  pub spent : Option Bool
  pub spender : Option Str
  pub height : Option ℤ

abbrev pub not_found : SpendAnswer
not_found = record { failure = true; spent = none; spender = none; height = none }

-- `setw(8) << setfill('0')` of a `long long`.
abbrev pub pad8_ℤ : ℤ → Str
pad8_ℤ vout = setw 8 (dec_ℤ vout)

module _ (ldb : Leveldb) (db : ldb.Db) (mempool : Mempool) where
  -- The height of the block whose hash the entry begins with.
  unfoldable pub height_of : Str → Result (Option ℤ)
  height_of block_hash = elim (ldb.get db (text "block-hash-" ++ block_hash)) [
    | none ↦ ok none
    | some height ↦ do h ← stoll height; ok (some h)
  ]

  unfoldable pub confirmed_spend : Str → Result SpendAnswer
  confirmed_spend spent_tx = do
    spender ← substr 64 64 spent_tx
    block_hash ← substr 0 64 spent_tx
    height ← height_of block_hash
    ok (record { failure = false; spent = some true; spender = some spender; height = height })

  unfoldable pub mempool_spend : SpendRequest → SpendAnswer
  mempool_spend r =
      let spender = outpoint_spend mempool r.txid (to_uint32 r.vout) in
      if not (is_zero_ℤ r.unconfirmed) && not (str_eq spender [])
      then record {
        failure = false;
        spent = some true;
        spender = some spender;
        height = some (pos 0);
      }
      else record { failure = false; spent = some false; spender = none; height = none }

  unfoldable pub find_spend : SpendRequest → Result SpendAnswer
  find_spend r =
      elim (ldb.get db
        (text "txo-" ++ (r.txid ++ (text "-" ++ (pad8_ℤ r.vout ++ text "-spent"))))) [
          | none ↦ ok (mempool_spend r)
          | some spent_tx ↦ confirmed_spend spent_tx
        ]

  unfoldable pub outpoint_answer : SpendRequest → Result SpendAnswer
  outpoint_answer r = elim (ldb.get db (tx_block_key r.txid)) [
    | none ↦ ok not_found
    | some _ ↦ find_spend r
  ]
