-- ===== src/BlockIndexer/OwnEntries.antt =====
-- The entries that tell the height and the position of a block, once it is indexed.
use blockchain_indexer.Base.{
  ℕ, ◌≡◌, refl, ◌∙◌, Bool, true, false, List, [], ◌∷◌, ◌++◌, Str, arith, Option, some, ok,
}
use blockchain_indexer.Base.Text.{
  text, str_eq, str_eq_refl, pad8, setw, dec, dec_ℤ, IsDigits, pad8-IsDigits,
}
use blockchain_indexer.Utility.HexText.{IsHex}
use blockchain_indexer.Types.{Block}
use blockchain_indexer.Leveldb.{Leveldb, Laws, Op, after}
use blockchain_indexer.External.{Crypto, CoinParams}
use blockchain_indexer.BlockIndexer.{Indexer, block_entries, is_indexed, index_block}
use blockchain_indexer.BlockIndexer.PlainKeys.{has_mark, has_mark-none, index_block-plain}

has_mark-digits : (s : Str) → IsDigits s → has_mark s ≡ false
unfolding has_mark
has_mark-digits [] d = refl
has_mark-digits (c ∷ cs) d = let d0 = d.0 in ground (arith, has_mark-digits cs d.1)

has_mark-hex : (s : Str) → IsHex s → has_mark s ≡ false
unfolding has_mark
has_mark-hex [] d = refl
has_mark-hex (c ∷ cs) d = let d0 = d.0 in ground (arith, has_mark-hex cs d.1)

abbrev pub hash_key : Str → Str
hash_key block_hash = text "block-hash-" ++ block_hash

abbrev pub position_key : ℕ → Str
position_key height = text "block-filePosition-" ++ pad8 height

plain-hash_key : (h : Str) → IsHex h → has_mark (hash_key h) ≡ false
plain-hash_key h d =
    has_mark-none (text "block-hash-") h (unfold has_mark in refl) (has_mark-hex h d)

plain-position_key : (n : ℕ) → has_mark (position_key n) ≡ false
plain-position_key n =
    has_mark-none (text "block-filePosition-") (pad8 n) (unfold has_mark in refl)
      (has_mark-digits (pad8 n) (pad8-IsDigits n))

-- The key of a time goes on like that of a hash, but no hash has a t.
time-ne : (rest h : Str) → IsHex h → str_eq (text "time-" ++ rest) h ≡ false
unfolding str_eq
time-ne rest [] d = refl
time-ne rest (c ∷ cs) d = let d0 = d.0 in ground arith

module _ (ldb : Leveldb) (block : Block) where
  after-hash_key :
      (old : Option Str)
      → IsHex block.block_hash
      → after (block_entries ldb block) (hash_key block.block_hash) old ≡ some (pad8 block.height)
  unfolding after block_entries str_eq
  after-hash_key old d =
      rw (time-ne (setw 12 (dec block.time)) block.block_hash d, str_eq_refl block.block_hash)

  after-position_key :
      (old : Option Str)
      → after (block_entries ldb block) (position_key block.height) old
        ≡ some (block.file_name ++ setw 12 (dec_ℤ block.file_position))
  unfolding after block_entries str_eq
  after-position_key old = rw (str_eq_refl (pad8 block.height))

  module _ (laws : Laws ldb) (written : (db : ldb.Db) (ops : List Op) → (ldb.write db ops).1 ≡ true)
      (crypto : Crypto) (params : CoinParams) (ix ix' : Indexer ldb) (b : Bool)
      (new : is_indexed ldb block.block_hash block.height ix ≡ false)
      (indexed : index_block ldb crypto params block ix ≡ ok (b, ix')) where
    pub index_block-hash_key :
        IsHex block.block_hash
        → ldb.get ix'.db (hash_key block.block_hash) ≡ some (pad8 block.height)
    index_block-hash_key d =
        let (old, e) =
          index_block-plain ldb laws written crypto params block (hash_key block.block_hash)
            (plain-hash_key block.block_hash d) ix ix' b new indexed in
        e ∙ after-hash_key old d

    pub index_block-position_key :
        ldb.get ix'.db (position_key block.height)
        ≡ some (block.file_name ++ setw 12 (dec_ℤ block.file_position))
    index_block-position_key =
        let (old, e) =
          index_block-plain ldb laws written crypto params block (position_key block.height)
            (plain-position_key block.height) ix ix' b new indexed in
        e ∙ after-position_key old
