-- ===== src/BlockIndexer/PlainKeys.antt =====
-- What indexBlock leaves under the keys of the block itself: no entry of a transaction has such a key.
use blockchain_indexer.Base.{
  ℕ, ◌≡◌, refl, ap, ◌∙◌, Bool, true, false, ◌||◌, Bool-cases, inl, inr, List, [], ◌∷◌, ◌++◌, Str,
  All, All-at, ◌==◌, arith, Option, ok, >>=-eq-ok,
}
use blockchain_indexer.Base.Text.{text, str_eq, str_eq→eq}
use blockchain_indexer.Types.{Block}
use blockchain_indexer.Leveldb.{Leveldb, Laws, Op, put, delete, after}
use blockchain_indexer.External.{Crypto, CoinParams}
use blockchain_indexer.BlockIndexer.{
  Indexer, Job, block_key, block_entries, is_indexed, replace_block, raise_highest,
  index_transactions, write_block, index_block, indexed_key, tx_block_key, spent_key,
}
use blockchain_indexer.BlockIndexer.Indexed.{after-append}
use blockchain_indexer.BlockIndexer.Batch.{Rules, index_transactions-Adds, finished}

-- Whether a letter x, r or v occurs.
unfoldable pub has_mark : Str → Bool
has_mark [] = false
has_mark (c ∷ cs) = c == b'x' || c == b'r' || c == b'v' || has_mark cs

pub has_mark-behind : (a b : Str) → has_mark b ≡ true → has_mark (a ++ b) ≡ true
unfolding has_mark
has_mark-behind [] b h = h
has_mark-behind (c ∷ a) b h = ground (arith, has_mark-behind a b h)

has_mark-in_front : (a b : Str) → has_mark a ≡ true → has_mark (a ++ b) ≡ true
unfolding has_mark
has_mark-in_front [] b h = cc
has_mark-in_front (c ∷ a) b h = ground (arith, has_mark-in_front a b)

pub has_mark-none :
    (a b : Str) → has_mark a ≡ false → has_mark b ≡ false → has_mark (a ++ b) ≡ false
unfolding has_mark
has_mark-none [] b h k = k
has_mark-none (c ∷ a) b h k = ground (arith, has_mark-none a b)

-- The entry is under a marked key.
abbrev IsMarked : Op → Type 0
IsMarked (put k v) = has_mark k ≡ true
IsMarked (delete k) = has_mark k ≡ true

IsMarked-indexed :
    (prefix : Str) (n : ℕ) → has_mark prefix ≡ true → has_mark (indexed_key prefix n) ≡ true
unfolding indexed_key
IsMarked-indexed prefix n h = has_mark-in_front prefix _ h

IsMarked-Rules : (block_hash : Str) → Rules block_hash (λ tx txi. Unit) IsMarked
unfolding has_mark tx_block_key spent_key
IsMarked-Rules block_hash = record {
  ordered = λ n v. IsMarked-indexed _ n (
      has_mark-behind (text "block-") (block_hash ++ text "-tx")
        (has_mark-behind block_hash (text "-tx") refl));
  file_position = λ h v. refl;
  tx_block = λ h v. refl;
  txo = λ s n v. IsMarked-indexed _ n (has_mark-behind s (text "-txo") refl);
  address = λ a b n v.
      IsMarked-indexed _ n
        (has_mark-behind a (b ++ text "-address") (has_mark-behind b (text "-address") refl));
  txospent = λ s n v. IsMarked-indexed _ n (has_mark-behind s (text "-txospent") refl);
  multisig = λ h rest v. refl;
  value = λ a b v. has_mark-behind a (b ++ text "-value") (has_mark-behind b (text "-value") refl);
  spent = λ tx txi at c. refl;
}

marked-ne : (k key : Str) → has_mark k ≡ true → has_mark key ≡ false → str_eq k key ≡ false
marked-ne k key h p = elim (Bool-cases (str_eq k key)) [
  | inr e ↦ e
  | inl e ↦
      let same : has_mark k ≡ has_mark key = ap has_mark (str_eq→eq _ _ e) in
      absurd (cc (same, h, p))
]

after-plain :
    (key : Str) (ops : List Op) (old : Option Str)
    → has_mark key ≡ false
    → All IsMarked ops
    → after ops key old ≡ old
unfolding after
after-plain key [] old p a = refl
after-plain key (put k v ∷ ops) old p a = rw (marked-ne k key a.0 p) (after-plain key ops old p a.1)
after-plain key (delete k ∷ ops) old p a =
    rw (marked-ne k key a.0 p) (after-plain key ops old p a.1)

module _ (ldb : Leveldb) (laws : Laws ldb)
    (written : (db : ldb.Db) (ops : List Op) → (ldb.write db ops).1 ≡ true) (crypto : Crypto)
    (params : CoinParams) (block : Block) (key : Str) (plain : has_mark key ≡ false) where
  write_block-plain :
      (ix ix' : Indexer ldb)
      → write_block ldb crypto params block ix ≡ ok ix'
      → ldb.get ix'.db key ≡ after (block_entries ldb block) key (ldb.get ix.db key)
  unfolding write_block
  write_block-plain ix ix' h =
      let start : Job ldb = record {
        indexer = ix;
        batch = block_entries ldb block;
        overflowed = false;
      } in
      let (job, e, g) =
        >>=-eq-ok (index_transactions ldb crypto params block 0 block.transactions start) _ h in
      let adds =
        index_transactions-Adds ldb block (λ tx txi. Unit) IsMarked
          (IsMarked-Rules block.block_hash) crypto params 0 block.transactions start job
          (All-at _ block.transactions (λ i tx h. All-at _ tx.inputs (λ j txi h. tt))) e in
      let same : record job.indexer { db = (ldb.write job.db job.batch).0 } ≡ ix' =
        finished ldb job.overflowed g in
      let before : ldb.get job.db key ≡ ldb.get ix.db key =
        ap (λ (db : ldb.Db). ldb.get db key) adds.same_db in
      rw (← same) (
        laws.get-write job.db job.batch key (written job.db job.batch)
        ∙ rw (adds.batch, before, after-append (block_entries ldb block) adds.ops)
            (after-plain key adds.ops _ plain adds.apart))

  -- Once a new block was indexed, what its own entries leave there.
  pub index_block-plain :
      (ix ix' : Indexer ldb) (b : Bool)
      → is_indexed ldb block.block_hash block.height ix ≡ false
      → index_block ldb crypto params block ix ≡ ok (b, ix')
      → (old : Option Str) × (ldb.get ix'.db key ≡ after (block_entries ldb block) key old)
  unfolding index_block
  index_block-plain ix ix' b new h =
      let existing = ldb.get ix.db (block_key block.height) in
      let start = raise_highest ldb block.height (replace_block ldb existing ix) in
      let (ix1, _, g) = >>=-eq-ok start _ (rw new at h) in
      let (ix2, made, last) = >>=-eq-ok (write_block ldb crypto params block ix1) _ g in
      let same : ix2 ≡ ix' = cc last in
      (ldb.get ix1.db key, write_block-plain ix1 ix' (made ∙ ap ok same))
