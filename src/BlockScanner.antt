-- ===== src/BlockScanner.antt =====
-- src/blockscanner.cpp: the sequence of blocks in one block file.
pub mod Progress
use blockchain_indexer.Base.{
  ◌+◌, ◌-◌, ◌%◌, ◌^◌, Bool, true, false, Bytes, Str, replicate, take, drop, Option, none, some,
  if◌then◌else◌,
}
use blockchain_indexer.Base.Text.{str_eq}
use blockchain_indexer.Types.{ScannedBlock}
use blockchain_indexer.Stream.{Stream, open_stream, read, read_uint, tellg, seekg_forward}
use blockchain_indexer.External.{Crypto, CoinParams, Indeterminate}
use blockchain_indexer.Utility.{hash_to_reverse_hex}
use blockchain_indexer.BlockReader.{block_path, double_hash}

pub record BlockScanner : Type 0 where
  pub block_file_path : Str
  pub block_file_name : Str
  pub block_file_stream : Option Stream

unfoldable pub new_scanner : Str → Str → BlockScanner
new_scanner blocks_dir block_file_name = record {
  block_file_path = block_path blocks_dir block_file_name;
  block_file_name = block_file_name;
  block_file_stream = none;
}

unfoldable pub open_file : (Str → Option Bytes) → BlockScanner → Bool × BlockScanner
open_file files scanner = elim (files scanner.block_file_path) [
  | none ↦ (false, scanner)
  | some bytes ↦ (true, record scanner { block_file_stream = some (open_stream bytes) })
]

unfoldable pub close_file : BlockScanner → Bool × BlockScanner
close_file scanner = elim scanner.block_file_stream [
  | none ↦ (false, scanner)
  | some s ↦ (true, record scanner { block_file_stream = none })
]

-- Whether the next four bytes are the coin's magic number. The coin's magic has four bytes at
-- least, and the comparison is with the first four.
unfoldable pub move_next : CoinParams → Stream → Bool × Stream
move_next params stream =
    let (buffer, s) = read 4 (replicate 4 0) stream in
    (if s.eof then false else if s.fail then false else str_eq buffer (take 4 params.magic), s)

-- `block_size` of the result is not set, and nor is `main_chain`. The size of the rest of the
-- block is computed in 32 bits.
unfoldable pub scan_next_block : Crypto → Indeterminate → Str → Stream → ScannedBlock × Stream
scan_next_block crypto junk block_file_name stream =
    let (block_size, s1) = read_uint 4 junk.word stream in
    let (block_header, s2) = read 80 (replicate 80 0) s1 in
    (
      record {
        file_name = block_file_name;
        file_position = tellg s1;
        block_size = junk.word;
        block_hash = double_hash crypto block_header;
        previous_block_hash = hash_to_reverse_hex (take 32 (drop 4 block_header));
        main_chain = junk.flag;
      },
      seekg_forward ((block_size + 2 ^ 32 - 80) % 2 ^ 32) s2,
    )
