-- ===== src/External.antt =====
-- What the indexer calls and does not implement: OpenSSL's SHA-256, and the copies of Bitcoin
-- Core's RIPEMD-160 and Bech32 in src/crypto. Also the coin's parameters (src/coinparams.h) and
-- the contents of variables that the program reads before it has written them.
use blockchain_indexer.Base.{ℕ, ◌≡◌, Bool, Bytes, Str, length, All, IsByte}

pub record Crypto : Type 0 where
  pub sha256 : Bytes → Bytes
  pub ripe_md160 : Bytes → Bytes
  pub bech32_encode : Str → Bytes → Str

-- The digests have 32 and 20 bytes.
pub record Digests (crypto : Crypto) : Type 0 where
  pub length-sha256 : (input : Bytes) → length (crypto.sha256 input) ≡ 32
  pub length-ripe_md160 : (input : Bytes) → length (crypto.ripe_md160 input) ≡ 20
  pub sha256-IsByte : (input : Bytes) → All IsByte (crypto.sha256 input)

pub record CoinParams : Type 0 where
  pub magic : Bytes
  pub bech32_prefix : Str
  pub p2pkh_version : ℕ
  pub p2sh_version : ℕ

pub record Indeterminate : Type 0 where
  pub word : ℕ
  pub flag : Bool
