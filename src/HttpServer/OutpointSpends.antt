-- ===== src/HttpServer/OutpointSpends.antt =====
-- src/httpserver.cpp: the answers to outpointSpend and outpointSpends.
pub mod Lost
pub mod Batch
use blockchain_indexer.Base.{
  ℕ, Bool, true, false, not, ◌&&◌, List, [], ◌∷◌, ◌++◌, Str, if◌then◌else◌, Option, none, some, ℤ,
  pos, negsuc, is_zero_ℤ, to_int, to_uint64, Result, ok, err, invalid_argument, ◌>>=◌,
}
use blockchain_indexer.Base.Text.{text, str_eq, stoi, stoll, substr}
use blockchain_indexer.Leveldb.{Leveldb}
use blockchain_indexer.MempoolMonitor.{Mempool, outpoint_spend}
use blockchain_indexer.BlockIndexer.{tx_block_key}
use blockchain_indexer.Json.{
  Json, null, bool, number, string, array, object, Items, nil, cons, Members, end, member,
  json_object, json_array,
}
use blockchain_indexer.HttpServer.{
  SpendRequest, SpendAnswer, not_found, to_uint32, pad8_ℤ, outpoint_answer,
}
use blockchain_indexer.HttpServer.Daemon.{Asked, given, refused, Daemon, Answer, success, failure}
use Prim.Native.String.{String}

abbrev number_or_nothing : String → Option ℤ → List (String × Json)
number_or_nothing name none = []
number_or_nothing name (some n) = (name, number n) ∷ []

abbrev bool_or_nothing : String → Option Bool → List (String × Json)
bool_or_nothing name none = []
bool_or_nothing name (some b) = (name, bool b) ∷ []

abbrev failure_members : Bool → List (String × Json)
failure_members false = ("error", bool false) ∷ []
failure_members true =
    ("error", bool true) ∷ ("errorDescription", string (text "Transaction ID not found")) ∷ []

-- The members `spender` and `spenderRaw`. Asking `j["spender"].is_string()` makes the member null where
-- it was not set.
abbrev spender_members : Option Str → List (String × Json)
spender_members none = []
spender_members (some s) = ("spender", string s) ∷ []

abbrev raw_members : Option Str → List (String × Json)
raw_members none = ("spender", null) ∷ []
raw_members (some raw_tx) = ("spenderRaw", string raw_tx) ∷ ("spender", null) ∷ []

unfoldable pub spend_json : SpendAnswer → List (String × Json) → List (String × Json)
spend_json a spender =
    failure_members a.failure
    ++ (bool_or_nothing "spent" a.spent ++ (spender ++ number_or_nothing "height" a.height))

-- The spending transaction, where it is known.
unfoldable pub ask_spender : Daemon → Option Str → Asked (Option Str)
ask_spender daemon none = given none
ask_spender daemon (some s) = elim (daemon.raw_transaction s) [
  | given tx ↦ given (some tx)
  | refused m ↦ refused m
]

unfoldable pub raw_answer : SpendAnswer → Asked (Option Str) → Answer
raw_answer a (given raw_tx) = success (json_object (spend_json a (raw_members raw_tx)))
raw_answer a (refused m) = failure 400 m

module _ (ldb : Leveldb) (db : ldb.Db) (mempool : Mempool) (daemon : Daemon) where
  -- The answer for an unknown transaction never asks for a spender.
  unfoldable pub spend_reply : SpendRequest → SpendAnswer → Answer
  spend_reply r a =
      if not a.failure && not (is_zero_ℤ r.raw)
      then raw_answer a (ask_spender daemon a.spender)
      else success (json_object (spend_json a (spender_members a.spender)))

  -- outpointSpend, from its parameters as they come.
  unfoldable pub outpoint_spend_handler : Str → Str → Str → Str → Result Answer
  outpoint_spend_handler txid vout_parameter raw_parameter unconfirmed_parameter = do
    raw ← stoi raw_parameter
    unconfirmed ← stoi unconfirmed_parameter
    vout ← stoll vout_parameter
    let r : SpendRequest = record { txid = txid; vout = vout; raw = raw; unconfirmed = unconfirmed }
    a ← outpoint_answer ldb db mempool r
    ok (spend_reply r a)

-- `txo["vout"].get<int>()`.
unfoldable pub as_int : ℤ → ℤ
as_int n = to_int (to_uint64 n)

module _ (ldb : Leveldb) (db : ldb.Db) (mempool : Mempool) where
  -- A spender in the mempool is written to a `json j` of its own block, which is dropped.
  unfoldable pub unconfirmed_spends : SpendRequest → SpendAnswer
  unconfirmed_spends r =
      let nothing : SpendAnswer = record {
        failure = false;
        spent = none;
        spender = none;
        height = none;
      } in
      if not (is_zero_ℤ r.unconfirmed)
      then (if str_eq (outpoint_spend mempool r.txid (to_uint32 r.vout)) []
          then record nothing { spent = some false }
          else nothing)
      else nothing

  -- The branch for a spend in a block. Its height is set where the index has the block.
  unfoldable pub spends_height : Str → Option Str → Result SpendAnswer
  spends_height spender none =
      ok (record { failure = false; spent = some true; spender = some spender; height = none })
  spends_height spender (some block_height) = do
    height ← stoll block_height
    ok (record { failure = false; spent = some true; spender = some spender; height = some height })

  unfoldable pub confirmed_spends : Str → Result SpendAnswer
  confirmed_spends spent_tx = do
    spender ← substr 64 64 spent_tx
    block_hash ← substr 0 64 spent_tx
    spends_height spender (ldb.get db (text "block-hash-" ++ block_hash))

  -- One outpoint of outpointSpends, with its number as an `int`.
  unfoldable pub spends_answer : SpendRequest → Result SpendAnswer
  spends_answer r = elim (ldb.get db (tx_block_key r.txid)) [
    | none ↦ ok not_found
    | some _ ↦
        elim (ldb.get db
          (text "txo-" ++ (r.txid ++ (text "-" ++ (pad8_ℤ r.vout ++ text "-spent"))))) [
            | none ↦ ok (unconfirmed_spends r)
            | some spent_tx ↦ confirmed_spends spent_tx
          ]
  ]

  module _ (daemon : Daemon) where
    -- A call that fails is noted on the console only.
    unfoldable pub spends_members : SpendRequest → SpendAnswer → List (String × Json)
    spends_members r a =
        if is_zero_ℤ r.raw then spend_json a (spender_members a.spender) else elim a.spender [
          | none ↦ spend_json a (raw_members none)
          | some s ↦ elim (daemon.raw_transaction s) [
            | given tx ↦ spend_json a (raw_members (some tx))
            | refused m ↦ spend_json a (spender_members (some s))
          ]
        ]

    unfoldable pub spends_item : ℤ → ℤ → Str → ℤ → Result Json
    spends_item raw unconfirmed txid vout = do
      let r : SpendRequest = record {
        txid = txid;
        vout = as_int vout;
        raw = raw;
        unconfirmed = unconfirmed;
      }
      a ← spends_answer r
      ok (json_object (("txid", string txid) ∷ ("vout", number vout) ∷ spends_members r a))
