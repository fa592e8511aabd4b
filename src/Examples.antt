-- ===== src/Examples.antt =====
-- The theorems at concrete inputs, and the data that they share.
pub mod Blocks
pub mod Scripts
pub mod Chains
pub mod Spends
pub mod Index
pub mod Server
pub mod Answers
pub mod Indexed
pub mod Update
pub mod Mempool
pub mod Payment
pub mod Start
pub mod Watch
pub mod Buffer
use blockchain_indexer.Base.{ℕ, ◌++◌, Bytes, List, [], ◌∷◌, replicate, take, true}
use blockchain_indexer.Base.Text.{text}
use blockchain_indexer.External.{Crypto, CoinParams, Indeterminate}

-- Short functions in place of the digests.
abbrev pub toy_crypto : Crypto
toy_crypto = record {
  sha256 = λ input. take 32 (input ++ replicate 32 0);
  ripe_md160 = λ input. take 20 (input ++ replicate 20 0);
  bech32_encode = λ prefix values. prefix ++ values;
}

abbrev pub some_junk : Indeterminate
some_junk = record { word = 7; flag = true }

abbrev pub vertcoin : CoinParams
vertcoin = record {
  magic = 0xfa ∷ 0xbf ∷ 0xb5 ∷ 0xda ∷ [];
  bech32_prefix = text "vtc";
  p2pkh_version = 71;
  p2sh_version = 5;
}
