-- ===== src/FileReader.antt =====
-- src/filereader.cpp: variable-length integers, hashes and length-prefixed strings on a stream.
pub mod Encode
use blockchain_indexer.Base.{ℕ, ◌<◌, List, [], Bytes, replicate, ltb, ◌==◌, if◌then◌else◌}
use blockchain_indexer.Stream.{Reader, read, read_uint, pure, ◌>>=◌}

-- What follows the prefix. The variables are set to 0 before the reads.
unfoldable pub after_prefix : ℕ → Reader ℕ
after_prefix prefix =
    if ltb prefix 253
    then pure prefix
    else if prefix == 253
    then read_uint 2 0
    else if prefix == 254
    then read_uint 4 0
    else if prefix == 255
    then read_uint 8 0
    else pure 0

unfoldable pub read_var_int : Reader ℕ
unfolding after_prefix
read_var_int = do prefix ← read_uint 1 0; after_prefix prefix

unfoldable pub read_hash : Reader Bytes
read_hash = read 32 (replicate 32 0)

unfoldable pub read_string : Reader Bytes
read_string = do
  length ← read_var_int
  if ltb 0 length then read length (replicate length 0) else pure []
