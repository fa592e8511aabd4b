-- ===== src/BlockReader/Fields.antt =====
-- What `readBlock` says of a block whatever stands in the file.
use blockchain_indexer.Base.{
  ℕ, ◌^◌, ◌<◌, ◌≡◌, refl, Bool, inl, inr, Bytes, Str, length, arith, Option, Option-cases, to_int,
  ok, pos,
}
use blockchain_indexer.Types.{Block}
use blockchain_indexer.Stream.{Stream, open_stream}
use blockchain_indexer.External.{Crypto, Digests, Indeterminate}
use blockchain_indexer.Utility.HexText.{
  IsHex, hash_to_reverse_hex-IsHex, length-hash_to_reverse_hex,
}
use blockchain_indexer.BlockReader.{double_hash, read_block_at, block_path, read_block}

-- The fields that come from the arguments, and the form of the hash.
pub record Fields (given_name : Str) (position given_height : ℕ) (block : Block) : Type 0 where
  pub file_name : block.file_name ≡ given_name
  pub file_position : block.file_position ≡ pos position
  pub height : block.height ≡ given_height
  pub hash_hex : IsHex block.block_hash
  pub length-hash : length block.block_hash ≡ 64

module _ (crypto : Crypto) (digests : Digests crypto) where
  double_hash-IsHex : (bytes : Bytes) → IsHex (double_hash crypto bytes)
  unfolding double_hash
  double_hash-IsHex bytes =
      hash_to_reverse_hex-IsHex _ (digests.sha256-IsByte (crypto.sha256 bytes))

  length-double_hash : (bytes : Bytes) → length (double_hash crypto bytes) ≡ 64
  unfolding double_hash
  length-double_hash bytes =
      let short = digests.length-sha256 (crypto.sha256 bytes) in
      omega (
        arith,
        length-hash_to_reverse_hex (crypto.sha256 (crypto.sha256 bytes)) (omega (arith, short)),
        short,
      )

  to_int-small : (n : ℕ) → n < 2 ^ 31 → to_int n ≡ pos n
  to_int-small n h = ground arith

  read_block_at-Fields :
      (junk : Indeterminate) (name : Str) (position height : ℕ) (header_only : Bool) (file : Stream)
      → position < 2 ^ 31
      → Fields name position height
          (read_block_at crypto junk name position height header_only file)
  unfolding read_block_at
  read_block_at-Fields junk name position height header_only file h = record {
    file_name = refl;
    file_position = to_int-small position h;
    height = refl;
    hash_hex = double_hash-IsHex _;
    length-hash = length-double_hash _;
  }

  pub read_block-Fields :
      (junk : Indeterminate) (files : Str → Option Bytes) (blocks_dir name : Str)
      (position height : ℕ) (header_only : Bool) (block : Block)
      → position < 2 ^ 31
      → read_block crypto junk files blocks_dir name position height header_only ≡ ok block
      → Fields name position height block
  unfolding read_block
  read_block-Fields junk files blocks_dir name position height header_only block h e =
      elim (Option-cases (files (block_path blocks_dir name))) [
        | inl n ↦ cc (rw (n, read_block) at e)
        | inr (bytes, n) ↦
            let same : read_block_at crypto junk name position height header_only
                  (open_stream bytes)
                ≡ block =
              cc (rw (n, read_block) at e) in
            rw (← same)
              (read_block_at-Fields junk name position height header_only (open_stream bytes) h)
      ]
