-- ===== src/CoinParams.antt =====
-- src/coinparams.cpp: the coin's parameters, from the JSON value that the library reads from the file.
use blockchain_indexer.Base.{Str, Result, ok, err, assertion, type_error, ◌>>=◌}
use blockchain_indexer.Json.{Json, null, string, object, member_of}
use blockchain_indexer.External.{CoinParams}
use blockchain_indexer.Utility.{read_coin_params}
use Prim.Native.String.{String}

-- `assert(j[name].is_string())`, and the string.
unfoldable pub checked_string : Json → Result Str
checked_string (string s) = ok s
checked_string _ = err assertion

-- A value that is no object has no members; null becomes an object when one is asked for.
unfoldable pub string_of : String → Json → Result Str
unfolding checked_string member_of
string_of name null = err assertion
string_of name (object members) = checked_string (member_of name members)
string_of name _ = err type_error

unfoldable pub read_from_file : Json → Result CoinParams
unfolding string_of read_coin_params
read_from_file j = do
  magic ← string_of "magic" j
  prefix_bech32 ← string_of "prefix_bech32" j
  version_p2sh ← string_of "version_p2sh" j
  version_p2pkh ← string_of "version_p2pkh" j
  ok (read_coin_params magic prefix_bech32 version_p2sh version_p2pkh)
