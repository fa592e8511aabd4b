-- ===== src/HttpServer/AddressTxos.antt =====
-- src/httpserver.cpp, addressTxos: the outputs of an address, listed.
pub mod Handler
pub mod Listing
use blockchain_indexer.Base.{
  ℕ, zero, suc, Bool, true, false, not, ◌&&◌, ◌||◌, List, [], ◌∷◌, ◌++◌, Str, length, if◌then◌else◌,
  Option, none, some, ℤ, pos, negsuc, is_zero_ℤ, ltb_ℤ, Result, ok, ◌>>=◌, map,
}
use blockchain_indexer.Base.Text.{text, str_eq, setw, dec_ℤ, substr, stoi, stoll}
use blockchain_indexer.Types.{TransactionOutput}
use blockchain_indexer.Leveldb.{Leveldb, range}
use blockchain_indexer.Json.{Json, null, string, json_object, json_array, number, natural}
use blockchain_indexer.MempoolMonitor.{Mempool, outpoint_spend, get_txos}
use blockchain_indexer.HttpServer.{to_uint32}
use blockchain_indexer.HttpServer.Daemon.{Asked, given, refused, Daemon}
use Prim.Native.String.{String}

pub record TxosQuery : Type 0 where
  pub since_block : ℤ
  pub tx_hash_only : ℤ
  pub raw : ℤ
  pub unspent : ℤ
  pub unconfirmed : ℤ
  pub scripts : ℤ

-- A listed output: `none` is a member that is not set, but a spender that is null.
pub record TxoItem : Type 0 where
  pub height : ℤ
  pub time : ℤ
  pub spender : Option Str
  pub tx : Option Str
  pub script : Option Str
  pub tx_hash : Option Str
  pub vout : Option ℤ
  pub value : Option ℤ

pub data Spender : Type 0 where
  skipped : Spender
  nobody : Spender
  spent_by : Str → Spender

pub data Step : Type 0 where
  left_out : Step
  listed : TxoItem → Step
  bad_request : Str → Step

abbrev pub is_one_ℤ : ℤ → Bool
is_one_ℤ (pos (suc zero)) = true
is_one_ℤ _ = false

abbrev block_time_crossover : ℤ
block_time_crossover = pos 946702800

-- A value from 2000/1/1 on is a time, a smaller one a height.
unfoldable pub is_since : ℤ → ℤ → ℤ → Bool
is_since since block block_time =
    not (ltb_ℤ block since) && ltb_ℤ since block_time_crossover
    || not (ltb_ℤ block_time since) && not (ltb_ℤ since block_time_crossover)

module _ (ldb : Leveldb) (db : ldb.Db) (mempool : Mempool) (daemon : Daemon) where
  unfoldable pub find_spender : TxosQuery → Option Str → Str → Str → Result Spender
  find_spender q (some spent_tx) tx_hash index =
      if is_one_ℤ q.unspent then ok skipped else (do s ← substr 64 64 spent_tx; ok (spent_by s))
  find_spender q none tx_hash index = if is_zero_ℤ q.unconfirmed then ok nobody else (do
    vout ← stoll index
    let spender = outpoint_spend mempool tx_hash (to_uint32 vout)
    ok (
        if str_eq spender []
        then nobody
        else if is_one_ℤ q.unspent
        then skipped
        else spent_by spender))

  unfoldable pub raw_member : TxosQuery → Str → Asked (Option Str)
  raw_member q tx_hash =
      if is_zero_ℤ q.raw then given none else elim (daemon.raw_transaction tx_hash) [
        | given tx ↦ given (some tx)
        | refused m ↦ refused m
      ]

  unfoldable pub script_member : TxosQuery → Str → Str → Result (Asked (Option Str))
  script_member q tx_hash index =
      if is_zero_ℤ q.raw && not (is_zero_ℤ q.scripts)
      then (do
        vout ← stoi index
        ok (elim (daemon.script_hex tx_hash vout) [
          | given hex ↦ given (some hex)
          | refused m ↦ refused m
        ]))
      else ok (given none)

  unfoldable pub spender_member : TxosQuery → Spender → Asked (Option Str)
  spender_member q (spent_by s) =
      if is_zero_ℤ q.raw
      then given (some s)
      else elim (daemon.raw_transaction s) [ given tx ↦ given (some tx) | refused m ↦ refused m ]
  spender_member q nobody = given none
  spender_member q skipped = given none

  -- The members at the end of the loop's body.
  unfoldable pub finish_item : TxosQuery → Str → Str → Str → TxoItem → Result TxoItem
  finish_item q txo tx_hash index item =
      if not (is_zero_ℤ q.raw)
      then ok item
      else if is_zero_ℤ q.tx_hash_only
      then (do
        vout ← stoll index
        rest ← substr 80 (length txo) txo
        value ← stoll rest
        ok (record item { tx_hash = some tx_hash; vout = some vout; value = some value }))
      else ok (record item { tx_hash = some tx_hash })

  unfoldable pub make_item : TxosQuery → Str → Str → Str → ℤ → ℤ → Spender → Result Step
  make_item q txo tx_hash index block block_time spender = elim (raw_member q tx_hash) [
    | refused m ↦ ok (bad_request m)
    | given tx ↦ do
      script_answer ← script_member q tx_hash index
      elim script_answer [
        | refused m ↦ ok (bad_request m)
        | given script ↦ elim (spender_member q spender) [
          | refused m ↦ ok (bad_request m)
          | given spender_text ↦ do
            item ← finish_item q txo tx_hash index (record {
              height = block;
              time = block_time;
              spender = spender_text;
              tx = tx;
              script = script;
              tx_hash = none;
              vout = none;
              value = none;
            })
            ok (listed item)
        ]
      ]
  ]

  -- `Get` leaves the text empty when there is no entry.
  unfoldable pub block_time_of : ℤ → Result ℤ
  block_time_of block = elim (ldb.get db (text "block-time-" ++ setw 8 (dec_ℤ block))) [
    | none ↦ stoll []
    | some time ↦ stoll time
  ]

  unfoldable pub step_of : TxosQuery → Str → Str → Str → ℤ → ℤ → Spender → Result Step
  step_of q txo tx_hash index block block_time skipped = ok left_out
  step_of q txo tx_hash index block block_time nobody =
      make_item q txo tx_hash index block block_time nobody
  step_of q txo tx_hash index block block_time (spent_by s) =
      make_item q txo tx_hash index block block_time (spent_by s)

  -- The body of the loop, for the value of an entry.
  unfoldable pub list_txo : TxosQuery → Str → Result Step
  list_txo q txo = do
    tx_hash ← substr 0 64 txo
    index ← substr 64 8 txo
    let spent = ldb.get db (text "txo-" ++ (tx_hash ++ (text "-" ++ (index ++ text "-spent"))))
    height ← substr 72 8 txo
    block ← stoll height
    block_time ← block_time_of block
    if is_since q.since_block block block_time
        then (do
          spender ← find_spender q spent tx_hash index
          step_of q txo tx_hash index block block_time spender)
        else ok left_out

  -- An item before what the rest of the loop gives.
  unfoldable pub push_item : TxoItem → Asked (List TxoItem) → Asked (List TxoItem)
  push_item item (given rest) = given (item ∷ rest)
  push_item item (refused m) = refused m

  unfoldable pub list_txos : TxosQuery → List Str → Result (Asked (List TxoItem))
  list_txos q [] = ok (given [])
  list_txos q (txo ∷ txos) = do
    step ← list_txo q txo
    elim step [
      | left_out ↦ list_txos q txos
      | bad_request m ↦ ok (refused m)
      | listed item ↦ do rest ← list_txos q txos; ok (push_item item rest)
    ]

  unfoldable pub confirmed_txos : TxosQuery → Str → Result (Asked (List TxoItem))
  confirmed_txos q address = list_txos q (
      map (λ e. e.1)
        (range ldb db (address ++ text "-txo-00000001") (address ++ text "-txo-99999999")))
