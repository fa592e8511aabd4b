-- ===== src/HttpServer/Sync.antt =====
-- src/httpserver.cpp: how far the index has come (sync).
use blockchain_indexer.Base.{
  ℤ, pos, Bool, if◌then◌else◌, [], ◌∷◌, Str, to_int, to_uint64, Result, ok, err, type_error, ◌>>=◌,
}
use blockchain_indexer.Base.Text.{text, stoll}
use blockchain_indexer.Leveldb.{Leveldb}
use blockchain_indexer.Json.{Json, null, number, string, json_object}
use blockchain_indexer.HttpServer.Daemon.{Asked, given, refused, Answer, success}
use blockchain_indexer.HttpServer.Blocks.{text_of}

-- The machine's arithmetic on `float`.
pub record Floats : Type 1 where
  pub Float : Type 0
  pub from_int : ℤ → Float
  pub divide : Float → Float → Float
  pub multiply : Float → Float → Float
  pub at_least : Float → Float → Bool
  pub to_json : Float → Json

module _ (floats : Floats) where
  open floats use {Float, from_int, divide, multiply, at_least, to_json}

  abbrev progress : ℤ → ℤ → Float
  progress height chain_height =
      multiply (divide (from_int (to_int (to_uint64 height))) (from_int chain_height))
        (from_int (pos 100))

  unfoldable pub sync_status : Float → Str
  sync_status percentage =
      if at_least percentage (from_int (pos 100)) then text "finished" else text "indexing"

  unfoldable pub sync_json : ℤ → ℤ → Json
  sync_json height chain_height = json_object (
      ("error", null)
      ∷ ("height", number height)
      ∷ ("blockChainHeight", number chain_height)
      ∷ ("syncPercentage", to_json (progress height chain_height))
      ∷ ("status", string (sync_status (progress height chain_height)))
      ∷ [])

  -- When the daemon's call has failed, blockChainHeight is null, and no `int` can be got from it.
  unfoldable pub sync : (ldb : Leveldb) → ldb.Db → Asked ℤ → Result Answer
  sync ldb db block_count = stoll (text_of ldb db (text "highestblock")) >>= λ height.
      elim block_count [
        | given chain_height ↦ ok (success (sync_json height chain_height))
        | refused message ↦ err type_error
      ]
