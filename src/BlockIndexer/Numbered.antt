-- ===== src/BlockIndexer/Numbered.antt =====
-- That "highestblock" holds a number: indexing a block without transactions asks for no more.
use blockchain_indexer.Base.{
  ℕ, ◌≡◌, ◌<◌, ◌^◌, inl, inr, refl, Bool, true, false, Bool-cases, Option, Option-cases, none, some,
  List, [], ◌∷◌, Str, ltb, if◌then◌else◌, ok,
}
use blockchain_indexer.Base.Text.{text, str_eq, str_eq_refl, pad8, stoull, stoull-pad8}
use blockchain_indexer.Types.{Block}
use blockchain_indexer.Leveldb.{Leveldb, Laws, Op, after}
use blockchain_indexer.External.{Crypto, CoinParams}
use blockchain_indexer.BlockIndexer.{
  Indexer, block_key, block_entries, is_indexed, deletions, clear_block_txos, replace_block,
  raise_highest, index_transactions, write_block, index_block,
}
use blockchain_indexer.BlockIndexer.Indexed.{after-append}
use blockchain_indexer.BlockIndexer.Highest.{raise-none, raise-some}

-- No entry, or one that stoull reads.
abbrev pub Numbered : Option Str → Type 0
Numbered entry = (s : Str) → entry ≡ some s → (n : ℕ) × (stoull s ≡ ok n)

Numbered-none : Numbered none
Numbered-none s e = cc e

Numbered-if : (b : Bool) (old : Option Str) → Numbered old → Numbered (if b then none else old)
Numbered-if true old h = Numbered-none
Numbered-if false old h = h

Numbered-pad8 : (height : ℕ) → height < 2 ^ 64 → Numbered (some (pad8 height))
Numbered-pad8 height h s e =
    let same : pad8 height ≡ s = cc e in (height, rw (← same) (stoull-pad8 height h))

module _ (ldb : Leveldb) where
  -- The indexer finds no text there that is not a number.
  abbrev pub HasNumber : Indexer ldb → Type 0
  HasNumber ix = Numbered (ldb.get ix.db (text "highestblock"))

  after-deletions :
      (k : Str) (entries : List (Str × Str)) (old : Option Str)
      → Numbered old
      → Numbered (after (deletions ldb entries) k old)
  unfolding after deletions
  after-deletions k [] old h = h
  after-deletions k ((j, v) ∷ entries) old h =
      after-deletions k entries _ (Numbered-if (str_eq v k) old h)

  -- The entries of a block stand under other keys.
  after-block_entries :
      (block : Block) (old : Option Str)
      → after (block_entries ldb block) (text "highestblock") old ≡ old
  unfolding after block_entries block_key str_eq
  after-block_entries block old = refl

  module _ (laws : Laws ldb)
      (written : (db : ldb.Db) (ops : List Op) → (ldb.write db ops).1 ≡ true) where
    replace_block-HasNumber :
        (existing : Option Str) (ix : Indexer ldb)
        → HasNumber ix
        → HasNumber (replace_block ldb existing ix)
    unfolding replace_block clear_block_txos
    replace_block-HasNumber none ix h = h
    replace_block-HasNumber (some hash) ix h =
        rw (laws.get-write ix.db _ (text "highestblock") (written ix.db _), after-append)
          (after-deletions _ _ _ (after-deletions _ _ _ h))

    put-HasNumber :
        (height : ℕ) (ix : Indexer ldb)
        → height < 2 ^ 64
        → HasNumber (record ix { db = ldb.put_one ix.db (text "highestblock") (pad8 height) })
    put-HasNumber height ix b =
        rw
          (
            laws.get-put_one ix.db (text "highestblock") (pad8 height) (text "highestblock"),
            str_eq_refl (text "highestblock"),
          )
          (Numbered-pad8 height b)

    raise_highest-HasNumber :
        (height : ℕ) (ix : Indexer ldb)
        → height < 2 ^ 64
        → HasNumber ix
        → (ix' : Indexer ldb) × (raise_highest ldb height ix ≡ ok ix') × HasNumber ix'
    raise_highest-HasNumber height ix b h =
        elim (Option-cases (ldb.get ix.db (text "highestblock"))) [
          | inl e ↦ (_, raise-none ldb laws height ix e, put-HasNumber height ix b)
          | inr (s, e) ↦
              let (n, r) = h s e in
              (_, raise-some ldb laws height n ix s e r, by_order (ltb n height))
        ]
      where
        by_order :
            (t : Bool)
            → HasNumber (
                if t
                then record ix { db = ldb.put_one ix.db (text "highestblock") (pad8 height) }
                else ix)
        by_order true = put-HasNumber height ix b
        by_order false = h

    module _ (crypto : Crypto) (params : CoinParams) where
      write_block-HasNumber :
          (block : Block) (ix : Indexer ldb)
          → block.transactions ≡ []
          → HasNumber ix
          → (ix' : Indexer ldb) × (write_block ldb crypto params block ix ≡ ok ix') × HasNumber ix'
      unfolding write_block index_transactions
      write_block-HasNumber block ix empty h = (
        record ix { db = (ldb.write ix.db (block_entries ldb block)).0 },
        rw empty refl,
        rw
            (
              laws.get-write ix.db (block_entries ldb block) (text "highestblock")
                  (written ix.db _),
              after-block_entries block _,
            )
            h,
      )

      -- A block without transactions is indexed, and a number stays where one stood.
      pub index_block-HasNumber :
          (block : Block) (ix : Indexer ldb)
          → block.transactions ≡ []
          → block.height < 2 ^ 64
          → HasNumber ix
          → (r : Bool × Indexer ldb) × (index_block ldb crypto params block ix ≡ ok r)
            × HasNumber r.1
      unfolding index_block
      index_block-HasNumber block ix empty b h =
          elim (Bool-cases (is_indexed ldb block.block_hash block.height ix)) [
            | inl e ↦ ((true, ix), rw e refl, h)
            | inr e ↦
                let existing = ldb.get ix.db (block_key block.height) in
                let (ix1, raised, h1) =
                  raise_highest-HasNumber block.height (replace_block ldb existing ix) b
                    (replace_block-HasNumber existing ix h) in
                let (ix2, made, h2) = write_block-HasNumber block ix1 empty h1 in
                ((true, ix2), rw (e, raised, made) refl, h2)
          ]
