-- ===== src/Examples/Chains.antt =====
-- A fork of three blocks, and a spend that stands on both of its sides.
use blockchain_indexer.Base.{
  ℕ, ◌+◌, ◌≤◌, ◌≡◌, ◌⊎◌, inl, inr, refl, sym, true, false, List, [], ◌∷◌, ◌++◌, Bytes, Str, length,
  replicate, arith, ok, Option, none, some, Bool-cases, if◌then◌else◌,
}
use blockchain_indexer.Base.Text.{text, str_eq, str_eq→eq}
use blockchain_indexer.Types.{ScannedBlock}
use blockchain_indexer.Dict.{lookup}
use blockchain_indexer.Dict.Keys.{str_key, nat_key}
use blockchain_indexer.Stream.{Stream, open_stream, read}
use blockchain_indexer.BlockScanner.{move_next}
use blockchain_indexer.BlockScanner.Progress.{move_next-inside}
use blockchain_indexer.BlockFileWatcher.{
  Blocks, add_block, scan_block_files, longest, find_longest_chain, count_chains, first_chain,
  block_at,
}
use blockchain_indexer.BlockFileWatcher.Scan.{
  IsFiled, Scanned, add_block-IsFiled, scan_block_files_total,
}
use blockchain_indexer.BlockFileWatcher.Chain.{Candidate}
use blockchain_indexer.BlockFileWatcher.Steps.{Forest}
use blockchain_indexer.BlockFileWatcher.Termination.{find_longest_chain_total}
use blockchain_indexer.Examples.{toy_crypto, some_junk, vertcoin}

abbrev pub a_block : Str → Str → ScannedBlock
a_block hash previous = record {
  file_name = text "blk00000.dat";
  file_position = 8;
  block_size = 0;
  block_hash = hash;
  previous_block_hash = previous;
  main_chain = false;
}

-- The blocks b and c follow a, and d follows c.
abbrev pub side : List ScannedBlock
side = a_block (b'b' ∷ []) (b'a' ∷ []) ∷ a_block (b'c' ∷ []) (b'a' ∷ []) ∷ []

abbrev pub longer : List ScannedBlock
longer = a_block (b'd' ∷ []) (b'c' ∷ []) ∷ []

abbrev pub forked : Blocks
forked = (b'a' ∷ [], side) ∷ (b'c' ∷ [], longer) ∷ []

-- How many blocks can still follow.
pub rank : Str → ℕ
rank hash = if str_eq hash (b'a' ∷ []) then 2 else if str_eq hash (b'c' ∷ []) then 1 else 0

pub forked-cases :
    (h : Str) (bs : List ScannedBlock)
    → lookup h forked ≡ some bs
    → ((h ≡ b'a' ∷ []) × (bs ≡ side)) ⊎ ((h ≡ b'c' ∷ []) × (bs ≡ longer))
unfolding lookup
forked-cases h bs l = elim (Bool-cases (str_eq (b'a' ∷ []) h)) [
  | inl e ↦ inl (sym (str_eq→eq _ _ e), let m : side ≡ bs = cc (rw e at l) in sym m)
  | inr e ↦ elim (Bool-cases (str_eq (b'c' ∷ []) h)) [
    | inl f ↦ inr (sym (str_eq→eq _ _ f), let m : longer ≡ bs = cc (rw (e, f) at l) in sym m)
    | inr f ↦ absurd (let m : none ≡ some bs = rw (e, f) at l in cc m)
  ]
]

pub forked-Forest : Forest forked rank
unfolding rank str_eq lookup
forked-Forest = record {
  no_empty = refl;
  filled = λ h bs l. elim (forked-cases h bs l) [
    | inl (_, e) ↦ rw e (omega arith)
    | inr (_, e) ↦ rw e (omega arith)
  ];
  falls = λ h bs l. elim (forked-cases h bs l) [
    | inl (k, e) ↦ rw (k, e) ((omega arith, refl), ((omega arith, refl), tt))
    | inr (k, e) ↦ rw (k, e) ((omega arith, refl), tt)
  ];
}

found_side : lookup (b'a' ∷ []) forked ≡ some side
unfolding lookup str_eq
found_side = refl

find_longest_chain_total_example :
    (n : ℕ) × (best : ScannedBlock) × Candidate best side
    × ((fuel : ℕ) → n ≤ fuel → find_longest_chain fuel forked side ≡ ok best)
find_longest_chain_total_example =
    find_longest_chain_total forked rank forked-Forest (b'a' ∷ []) side found_side

-- The side with two blocks is the longer one.
side-longest : find_longest_chain 9 forked side ≡ ok (a_block (b'c' ∷ []) (b'a' ∷ []))
unfolding find_longest_chain longest count_chains first_chain block_at lookup str_eq
side-longest = refl

none-IsFiled : IsFiled []
unfolding lookup
none-IsFiled hash bs l = cc

add_block-IsFiled_example : IsFiled (add_block (a_block (b'b' ∷ []) (b'a' ∷ [])) [])
add_block-IsFiled_example = add_block-IsFiled (a_block (b'b' ∷ []) (b'a' ∷ [])) [] none-IsFiled

-- One file with the magic number and the front of a block.
abbrev one_file : Str → Option Bytes
one_file path = some (vertcoin.magic ++ (100 ∷ 0 ∷ 0 ∷ 0 ∷ replicate 90 1))

scan_block_files_total_example : Scanned (
    scan_block_files toy_crypto vertcoin some_junk one_file
      (text "blocks")
      (text "blk00000.dat" ∷ text "rev00000.dat" ∷ [])
      []
      0)
scan_block_files_total_example =
    scan_block_files_total toy_crypto vertcoin some_junk one_file (text "blocks")
      (text "blk00000.dat" ∷ text "rev00000.dat" ∷ []) [] 0 none-IsFiled

abbrev at_magic : Stream
at_magic = open_stream (vertcoin.magic ++ 1 ∷ 2 ∷ [])

finds_magic : (move_next vertcoin at_magic).0 ≡ true
unfolding move_next read str_eq
finds_magic = refl

move_next-inside_example :
    ((move_next vertcoin at_magic).1.contents ≡ at_magic.contents)
    × ((move_next vertcoin at_magic).1.position ≡ at_magic.position + 4)
    × (at_magic.position + 4 ≤ length at_magic.contents)
move_next-inside_example = move_next-inside vertcoin at_magic finds_magic
