-- ===== src/HttpServer/Daemon.antt =====
-- src/httpserver.cpp: the calls of the daemon, and how a request is answered.
use blockchain_indexer.Base.{ℕ, ℤ, Str}
use blockchain_indexer.Json.{Json}

-- What was asked for, or the message of the exception that the daemon's client threw.
pub data Asked (A : Type 0) : Type 0 where
  given : A → Asked A
  refused : Str → Asked A

-- The daemon's getrawtransaction: the transaction as text, and from the verbose answer the
-- text of an output's script.
pub record Daemon : Type 0 where
  pub raw_transaction : Str → Asked Str
  pub script_hex : Str → ℤ → Asked Str
  pub verbose_transaction : Str → Asked Str
  pub send_raw_transaction : Str → Asked Str

-- `session->close` with code 200 and a JSON value or a text, or with a code and a message.
pub data Answer : Type 0 where
  success : Json → Answer
  plain : Str → Answer
  failure : ℕ → Str → Answer
