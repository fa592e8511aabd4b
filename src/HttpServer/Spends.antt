-- ===== src/HttpServer/Spends.antt =====
-- What the server answers about an outpoint whose spend the indexer has stored.
pub mod Indexed
use blockchain_indexer.Base.{
  ℕ, ◌^◌, ◌<◌, ◌≡◌, refl, sym, ap, ◌∙◌, true, false, [], ◌++◌, Str, length, some, ℤ, pos, ok,
}
use blockchain_indexer.Base.Text.{text, pad8, dec_ℤ, stoll-pad8}
use blockchain_indexer.Leveldb.{Leveldb}
use blockchain_indexer.MempoolMonitor.{Mempool}
use blockchain_indexer.BlockIndexer.{tx_block_key, spent_key}
use blockchain_indexer.HttpServer.{height_of, confirmed_spend, find_spend, outpoint_answer, pad8_ℤ}
use blockchain_indexer.HttpServer.Entries.{substr-inside}

-- What the indexer stores under the outpoint that an input spends.
abbrev pub spend_text : Str → Str → ℕ → Str
spend_text block_hash tx_hash index = block_hash ++ (tx_hash ++ pad8 index)

module _ (ldb : Leveldb) (db : ldb.Db) (mempool : Mempool) where
  key-spend :
      (txid : Str) (vout : ℕ)
      → text "txo-" ++ (txid ++ (text "-" ++ (pad8_ℤ (pos vout) ++ text "-spent")))
        ≡ spent_key txid vout
  unfolding spent_key dec_ℤ pad8
  key-spend txid vout = refl

  height_of-stored :
      (block_hash : Str) (height : ℕ)
      → height < 2 ^ 63
      → ldb.get db (text "block-hash-" ++ block_hash) ≡ some (pad8 height)
      → height_of ldb db mempool block_hash ≡ ok (some (pos height))
  unfolding height_of
  height_of-stored block_hash height h e = rw (e, height_of) (rw (stoll-pad8 height h))

  confirmed_spend-text :
      (block_hash tx_hash : Str) (index height : ℕ)
      → length block_hash ≡ 64
      → length tx_hash ≡ 64
      → height < 2 ^ 63
      → ldb.get db (text "block-hash-" ++ block_hash) ≡ some (pad8 height)
      → confirmed_spend ldb db mempool (spend_text block_hash tx_hash index)
        ≡ ok (record {
          failure = false;
          spent = some true;
          spender = some tx_hash;
          height = some (pos height);
        })
  unfolding confirmed_spend
  confirmed_spend-text block_hash tx_hash index height lb lt h e =
      rw (substr-inside block_hash tx_hash (pad8 index) 64 64 (sym lb) (sym lt)) (
        rw (substr-inside [] block_hash (tx_hash ++ pad8 index) 0 64 refl (sym lb))
          (rw (height_of-stored block_hash height h e)))

  -- For a known transaction and an outpoint under which a spend stands as the indexer writes it,
  -- with hashes of 64 characters, the server names the spending transaction and the height that is
  -- stored for its block, whatever the mempool holds and whether unconfirmed spends were asked for
  -- or not.
  pub outpoint_answer-stored :
      (txid block_hash tx_hash some_block : Str) (vout index height : ℕ) (raw unconfirmed : ℤ)
      → length block_hash ≡ 64
      → length tx_hash ≡ 64
      → height < 2 ^ 63
      → ldb.get db (tx_block_key txid) ≡ some some_block
      → ldb.get db (spent_key txid vout) ≡ some (spend_text block_hash tx_hash index)
      → ldb.get db (text "block-hash-" ++ block_hash) ≡ some (pad8 height)
      → outpoint_answer ldb db mempool
          (record { txid = txid; vout = pos vout; raw = raw; unconfirmed = unconfirmed })
        ≡ ok (record {
          failure = false;
          spent = some true;
          spender = some tx_hash;
          height = some (pos height);
        })
  unfolding outpoint_answer find_spend
  outpoint_answer-stored txid block_hash tx_hash some_block vout index height raw unconfirmed lb lt
        h known spent stored =
      let found = ap (ldb.get db) (key-spend txid vout) ∙ spent in
      rw (known, outpoint_answer)
        (rw (found, find_spend)
          (confirmed_spend-text block_hash tx_hash index height lb lt h stored))
