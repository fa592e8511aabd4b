-- ===== src/HttpServer/Blocks/Indexed.antt =====
-- getBlock after indexBlock: the block that was indexed.
use blockchain_indexer.Base.{
  ℕ, ◌^◌, ◌<◌, ◌≡◌, refl, sym, ap, ◌∙◌, Bool, true, false, List, [], ◌++◌, Bytes, Str, length,
  arith, Option, some, pos, to_uint64, ok,
}
use mathlib.Core.List.{append-nil}
use blockchain_indexer.Base.Text.{
  pad8, setw, dec, dec_ℤ, substr, stoll-pad8, stoll-setw, length-setw_12,
}
use blockchain_indexer.Types.{Block}
use blockchain_indexer.Leveldb.{Leveldb, Laws, Op}
use blockchain_indexer.External.{Crypto, Digests, CoinParams, Indeterminate}
use blockchain_indexer.BlockReader.{read_block}
use blockchain_indexer.BlockReader.Fields.{Fields, read_block-Fields}
use blockchain_indexer.BlockIndexer.{Indexer, is_indexed, index_block}
use blockchain_indexer.BlockIndexer.OwnEntries.{
  hash_key, position_key, index_block-hash_key, index_block-position_key,
}
use blockchain_indexer.HttpServer.Daemon.{success}
use blockchain_indexer.HttpServer.Entries.{substr-inside}
use blockchain_indexer.HttpServer.Blocks.{
  block_members, highest_block, find_block, read_stored, get_block,
}

to_uint64-small : (n : ℕ) → n < 2 ^ 63 → to_uint64 (pos n) ≡ n
unfolding to_uint64
to_uint64-small n h = omega arith

module _ (ldb : Leveldb) (db : ldb.Db) where
  find_block-stored :
      (block_hash position : Str) (height : ℕ)
      → height < 2 ^ 63
      → ldb.get db (hash_key block_hash) ≡ some (pad8 height)
      → ldb.get db (position_key height) ≡ some position
      → find_block ldb db block_hash ≡ ok (some (height, position))
  unfolding find_block
  find_block-stored block_hash position height h e p =
      rw (e, find_block)
        (rw (stoll-pad8 height h, to_uint64-small height h)
          (rw (p, find_block, to_uint64-small height h)))

  module _ (crypto : Crypto) (junk : Indeterminate) (files : Str → Option Bytes)
      (blocks_dir : Str) where
    -- The text of a position is taken apart into the name of the file and the place in it.
    read_stored-text :
        (name : Str) (position height : ℕ) (header_only : Bool)
        → length name ≡ 12
        → position < 2 ^ 31
        → read_stored ldb db crypto junk files blocks_dir
            (name ++ setw 12 (dec position))
            height
            header_only
          ≡ read_block crypto junk files blocks_dir name position height header_only
    unfolding read_stored
    read_stored-text name position height header_only len h =
        let width = length-setw_12 position (omega arith) in
        let front : substr 0 12 (name ++ setw 12 (dec position)) ≡ ok name =
          substr-inside [] name (setw 12 (dec position)) 0 12 refl (sym len) in
        let behind : substr 12 12 (name ++ setw 12 (dec position)) ≡ ok (setw 12 (dec position)) =
          ap (λ (s : Str). substr 12 12 (name ++ s)) (sym (append-nil (setw 12 (dec position))))
          ∙ substr-inside name (setw 12 (dec position)) [] 12 12 (sym len) (sym width) in
        rw (front, behind)
          (rw (stoll-setw 12 position (omega arith), to_uint64-small position (omega arith)))

module _ (ldb : Leveldb) (laws : Laws ldb)
    (written : (db : ldb.Db) (ops : List Op) → (ldb.write db ops).1 ≡ true) (crypto : Crypto)
    (digests : Digests crypto) (params : CoinParams) (junk : Indeterminate)
    (files : Str → Option Bytes) (blocks_dir : Str) where
  position_entry :
      {name : Str} {position height : ℕ} {block : Block} {o : Option Str}
      → Fields name position height block
      → o ≡ some (block.file_name ++ setw 12 (dec_ℤ block.file_position))
      → o ≡ some (name ++ setw 12 (dec position))
  unfolding dec_ℤ
  position_entry f e = e ∙ rw (f.file_name, f.file_position)

  -- Where LevelDB keeps its promises and every write succeeds, and a block was read from a file
  -- with a name of 12 characters at a position below 2 ^ 31 and for a height below 2 ^ 63, and was
  -- indexed when it was not known before: then getBlock on its hash answers with that block, each
  -- member as it was read, and the confirmations by the highest block that is stored.
  pub get_block-index_block :
      (name : Str) (position height highest : ℕ) (block : Block) (ix ix' : Indexer ldb) (b : Bool)
      → length name ≡ 12
      → position < 2 ^ 31
      → height < 2 ^ 63
      → read_block crypto junk files blocks_dir name position height false ≡ ok block
      → is_indexed ldb block.block_hash block.height ix ≡ false
      → index_block ldb crypto params block ix ≡ ok (b, ix')
      → highest_block ldb ix'.db ≡ ok highest
      → get_block ldb ix'.db crypto junk files blocks_dir block.block_hash
        ≡ ok (success (block_members highest block))
  unfolding get_block
  get_block-index_block name position height highest block ix ix' b len small low made new indexed
        top =
      let f =
        read_block-Fields crypto digests junk files blocks_dir name position height false block
          small made in
      let by_hash : ldb.get ix'.db (hash_key block.block_hash) ≡ some (pad8 height) =
        index_block-hash_key ldb block laws written crypto params ix ix' b new indexed f.hash_hex
        ∙ ap (λ (n : ℕ). some (pad8 n)) f.height in
      let by_height = position_entry f (
        rw f.height at
          (index_block-position_key ldb block laws written crypto params ix ix' b new indexed)) in
      rw
        (
          top,
          find_block-stored ldb ix'.db block.block_hash (name ++ setw 12 (dec position)) height low
              by_hash by_height,
        )
        (rw
          (read_stored-text ldb ix'.db crypto junk files blocks_dir name position height false len
            small)
          (rw made))
