-- ===== src/BlockIndexer/Indexed.antt =====
-- A block that `indexBlock` has indexed is known to `hasIndexedBlock`.
use blockchain_indexer.Base.{
  false, ℕ, ◌≤◌, ◌≡◌, refl, ap, ◌∙◌, Bool, true, Bool-cases, inl, inr, List, [], ◌∷◌, ◌++◌, Str,
  All, All-at, arith, Option, some, ok, ◌<◌, ◌^◌, to_int, pos, >>=-eq-ok,
}
use blockchain_indexer.Base.Text.{text, str_eq_refl, pad8, dec_ℤ}
use blockchain_indexer.Types.{Block}
use blockchain_indexer.Leveldb.{Leveldb, Laws, Op, put, delete, after}
use blockchain_indexer.External.{Crypto, CoinParams}
use blockchain_indexer.BlockIndexer.{
  Indexer, Job, indexed_key, block_key, block_entries, is_indexed, has_indexed_block, replace_block,
  raise_highest, index_transactions, write_block, index_block,
}
use blockchain_indexer.BlockIndexer.Keys.{
  marks, marks-behind, marks-indexed_key, marks-tx_block_key, marks-spent_key, block_key-ne,
}
use blockchain_indexer.BlockIndexer.Batch.{Rules, index_transactions-Adds, finished}

abbrev op_key : Op → Str
op_key (put k v) = k
op_key (delete k) = k

-- The entry is not under the key of a block.
abbrev IsApart : Op → Type 0
IsApart op = 2 ≤ marks (op_key op)

suffix-marks : (s suffix : Str) (n : ℕ) → 1 ≤ marks suffix → 2 ≤ marks (indexed_key (s ++ suffix) n)
suffix-marks s suffix n h = omega (arith, marks-indexed_key (s ++ suffix) n, marks-behind s suffix)

IsApart-Rules : (block_hash : Str) → Rules block_hash (λ tx txi. Unit) IsApart
unfolding marks
IsApart-Rules block_hash = record {
  ordered = λ n v. omega (
    arith,
    marks-indexed_key (text "block-" ++ (block_hash ++ text "-tx")) n,
    marks-behind block_hash (text "-tx"),
  );
  file_position = λ h v. omega arith;
  tx_block = λ h v. marks-tx_block_key h;
  txo = λ s n v. suffix-marks s (text "-txo") n (omega arith);
  address = λ a b n v.
      suffix-marks a (b ++ text "-address") n (omega (arith, marks-behind b (text "-address")));
  txospent = λ s n v. suffix-marks s (text "-txospent") n (omega arith);
  multisig = λ h rest v. omega (arith, marks-behind h (text "-" ++ rest));
  value =
      λ a b v. omega (arith, marks-behind a (b ++ text "-value"), marks-behind b (text "-value"));
  spent = λ tx txi at c. marks-spent_key txi.tx_hash txi.txo_index;
}

-- Entries under other keys leave what stands under the key of a block.
after-apart :
    (height : ℕ) (ops : List Op) (old : Option Str)
    → All IsApart ops
    → after ops (block_key height) old ≡ old
unfolding after
after-apart height [] old a = refl
after-apart height (put k v ∷ ops) old a =
    rw (block_key-ne height k a.0) (after-apart height ops old a.1)
after-apart height (delete k ∷ ops) old a =
    rw (block_key-ne height k a.0) (after-apart height ops old a.1)

pub after-append :
    (xs ys : List Op) (k : Str) (old : Option Str)
    → after (xs ++ ys) k old ≡ after ys k (after xs k old)
unfolding after
after-append [] ys k old = refl
after-append (put j v ∷ xs) ys k old = after-append xs ys k _
after-append (delete j ∷ xs) ys k old = after-append xs ys k _

after-head :
    (k v : Str) (ops : List Op) (old : Option Str)
    → after (put k v ∷ ops) k old ≡ after ops k (some v)
unfolding after
after-head k v ops old = rw (str_eq_refl k)

module _ (ldb : Leveldb) where
  after-entries :
      (block : Block) (old : Option Str)
      → after (block_entries ldb block) (block_key block.height) old ≡ some block.block_hash
  unfolding block_entries marks
  after-entries block old =
      after-head (block_key block.height) block.block_hash _ old
      ∙ after-apart block.height _ _ (
        omega arith,
        (omega arith, (omega arith, (omega arith, (omega arith, (omega arith, tt))))),
      )

  found_indexed :
      (block : Block) (ix : Indexer ldb)
      → ldb.get ix.db (block_key block.height) ≡ some block.block_hash
      → is_indexed ldb block.block_hash block.height ix ≡ true
  unfolding is_indexed
  found_indexed block ix h = rw (h, is_indexed) (str_eq_refl block.block_hash)

  module _ (laws : Laws ldb) (written : (db : ldb.Db) (ops : List Op) → (ldb.write db ops).1 ≡ true)
      (crypto : Crypto) (params : CoinParams) where
    write_block-found :
        (block : Block) (ix ix' : Indexer ldb)
        → write_block ldb crypto params block ix ≡ ok ix'
        → ldb.get ix'.db (block_key block.height) ≡ some block.block_hash
    unfolding write_block
    write_block-found block ix ix' h =
        let start : Job ldb = record {
          indexer = ix;
          batch = block_entries ldb block;
          overflowed = false;
        } in
        let (job, e, g) =
          >>=-eq-ok (index_transactions ldb crypto params block 0 block.transactions start) _ h in
        let adds =
          index_transactions-Adds ldb block (λ tx txi. Unit) IsApart
            (IsApart-Rules block.block_hash) crypto params 0 block.transactions start job
            (All-at _ block.transactions (λ i tx h. All-at _ tx.inputs (λ j txi h. tt))) e in
        let same : record job.indexer { db = (ldb.write job.db job.batch).0 } ≡ ix' =
          finished ldb job.overflowed g in
        rw (← same) (
          laws.get-write job.db job.batch (block_key block.height) (written job.db job.batch)
          ∙ rw (
            adds.batch,
            after-append (block_entries ldb block) adds.ops,
            after-entries block,
            after-apart block.height adds.ops (some block.block_hash) adds.apart,
          ))

    index_block-is_indexed :
        (block : Block) (ix ix' : Indexer ldb) (b : Bool)
        → index_block ldb crypto params block ix ≡ ok (b, ix')
        → is_indexed ldb block.block_hash block.height ix' ≡ true
    unfolding index_block
    index_block-is_indexed block ix ix' b h =
        elim (Bool-cases (is_indexed ldb block.block_hash block.height ix)) [
          | inl e ↦ let same : ix ≡ ix' = cc (rw e at h) in rw (← same) e
          | inr e ↦
              let existing = ldb.get ix.db (block_key block.height) in
              let start = raise_highest ldb block.height (replace_block ldb existing ix) in
              let (ix1, _, g) = >>=-eq-ok start _ (rw e at h) in
              let (ix2, made, last) = >>=-eq-ok (write_block ldb crypto params block ix1) _ g in
              let same : ix2 ≡ ix' = cc last in
              found_indexed block ix' (write_block-found block ix1 ix' (made ∙ ap ok same))
        ]

    -- Where LevelDB keeps its promises and every write succeeds, a block at a height below 2 ^ 31
    -- is known to hasIndexedBlock, which takes the height as an int, once indexBlock has returned,
    -- whichever block stood at its height before and whatever its transactions are.
    pub index_block-has_indexed :
        (block : Block) (ix ix' : Indexer ldb) (b : Bool)
        → index_block ldb crypto params block ix ≡ ok (b, ix')
        → block.height < 2 ^ 31
        → has_indexed_block ldb block.block_hash (to_int block.height) ix' ≡ true
    unfolding has_indexed_block is_indexed block_key pad8 dec_ℤ
    index_block-has_indexed block ix ix' b h small =
        let kept : to_int block.height ≡ pos block.height = ground arith in
        rw kept (index_block-is_indexed block ix ix' b h)
