-- ===== src/BlockIndexer/Clear.antt =====
-- How a replaced block is undone: the entries that the index lists for it are removed.
use blockchain_indexer.Base.{
  ◌≡◌, refl, ap, ◌∙◌, Bool, true, false, ◌||◌, List, [], ◌∷◌, ◌++◌, Str, any, if◌then◌else◌, Option,
  none,
}
use blockchain_indexer.Base.Text.{text, str_eq}
use blockchain_indexer.Leveldb.{Leveldb, Laws, after, range}
use blockchain_indexer.BlockIndexer.Indexed.{after-append}
use blockchain_indexer.BlockIndexer.{Indexer, deletions, clear_block_txos}

-- Whether the key stands as a value among the entries.
unfoldable pub is_listed : Str → List (Str × Str) → Bool
is_listed k entries = any (λ e. str_eq e.1 k) entries

-- One deletion behind another.
collapse :
    (a b : Bool) (old : Option Str)
    → (if b then none else if a then none else old) ≡ (if a || b then none else old)
collapse true true old = refl
collapse true false old = refl
collapse false b old = refl

after-deletions :
    (ldb : Leveldb) (entries : List (Str × Str)) (k : Str) (old : Option Str)
    → after (deletions ldb entries) k old ≡ (if is_listed k entries then none else old)
unfolding after deletions is_listed
after-deletions ldb [] k old = refl
after-deletions ldb ((i, v) ∷ entries) k old =
    after-deletions ldb entries k (if str_eq v k then none else old)
    ∙ collapse (str_eq v k) (is_listed k entries) old

after-both :
    (ldb : Leveldb) (xs ys : List (Str × Str)) (k : Str) (old : Option Str)
    → after (deletions ldb xs ++ deletions ldb ys) k old
      ≡ (if is_listed k xs || is_listed k ys then none else old)
after-both ldb xs ys k old =
    after-append (deletions ldb xs) (deletions ldb ys) k old
    ∙ after-deletions ldb ys k (after (deletions ldb xs) k old)
    ∙ ap (λ (o : Option Str). if is_listed k ys then none else o) (after-deletions ldb xs k old)
    ∙ collapse (is_listed k xs) (is_listed k ys) old

module _ (ldb : Leveldb) (laws : Laws ldb) where
  -- The entries that the index lists for a block: its outputs, and the spends in it.
  unfoldable pub listed_for : Str → ldb.Db → Str → Bool
  listed_for block_hash db k =
      is_listed k
        (range ldb db (block_hash ++ text "-txo-00000001") (block_hash ++ text "-txo-99999999"))
      || is_listed k (
          range ldb db (block_hash ++ text "-txospent-00000001")
            (block_hash ++ text "-txospent-99999999"))

  -- Where LevelDB keeps its promises and the write succeeds, after clearBlockTxos a key has no
  -- entry if the index lists it among the outputs or spends of the block, and every other key has
  -- what it had.
  pub get-clear_block_txos :
      (block_hash k : Str) (ix : Indexer ldb)
      → (clear_block_txos ldb block_hash ix).0 ≡ true
      → ldb.get (clear_block_txos ldb block_hash ix).1.db k
        ≡ (if listed_for block_hash ix.db k then none else ldb.get ix.db k)
  unfolding clear_block_txos listed_for
  get-clear_block_txos block_hash k ix written =
      laws.get-write ix.db _ k written ∙ after-both ldb _ _ k (ldb.get ix.db k)
