-- ===== src/BlockIndexer/Recorded.antt =====
-- What stands under the key of a spent output through the rest of the batch of `indexBlock`.
use blockchain_indexer.Base.{
  ℕ, ◌≡◌, sym, ◌⊎◌, refl, ◌∙◌, false, Bool-cases, inl, inr, List, [], ◌∷◌, ◌++◌, Str, All,
  get_elem?, Option, some,
}
use blockchain_indexer.Base.Text.{text, str_eq, str_eq→eq, pad8}
use blockchain_indexer.Types.{TransactionInput, Transaction, Block}
use blockchain_indexer.Leveldb.{Op, put, delete, after}
use blockchain_indexer.BlockIndexer.{spent_key}
use blockchain_indexer.BlockIndexer.SpentKeys.{
  looks_spent, looks_spent-indexed_key, looks_spent-value_key, looks_spent-tx_block_key,
  spent_key-ne,
}
use blockchain_indexer.BlockIndexer.Batch.{Rules}

-- The input stands in the transaction, which stands in the block.
abbrev pub IsInput : Block → Transaction → TransactionInput → Type 0
IsInput block tx txi =
    (i : ℕ) × (j : ℕ) × (get_elem? block.transactions i ≡ some tx)
    × (get_elem? tx.inputs j ≡ some txi)

-- The entry is of an input of the block, and names its transaction.
abbrev pub IsSpendIn : Block → Str → Str → Type 0
IsSpendIn block k v =
    (tx : Transaction) × (txi : TransactionInput) × IsInput block tx txi
    × (txi.coinbase ≡ false)
    × (k ≡ spent_key txi.tx_hash txi.txo_index)
    × (v ≡ block.block_hash ++ (tx.tx_hash ++ pad8 txi.index))

-- The entry leaves a spent output recorded as spent in the block.
abbrev pub Keeps : Block → Op → Type 0
Keeps block (put k v) = (looks_spent k ≡ false) ⊎ IsSpendIn block k v
Keeps block (delete k) = looks_spent k ≡ false

pub Keeps-Rules : (block : Block) → Rules block.block_hash (IsInput block) (Keeps block)
Keeps-Rules block = record {
  ordered =
      λ n v. inl (looks_spent-indexed_key (text "block-" ++ (block.block_hash ++ text "-tx")) n);
  file_position = λ h v. inl (unfold looks_spent in refl);
  tx_block = λ h v. inl (looks_spent-tx_block_key h);
  txo = λ s n v. inl (looks_spent-indexed_key (s ++ text "-txo") n);
  address = λ a b n v. inl (looks_spent-indexed_key (a ++ (b ++ text "-address")) n);
  txospent = λ s n v. inl (looks_spent-indexed_key (s ++ text "-txospent") n);
  multisig = λ h rest v. inl (unfold looks_spent in refl);
  value = λ a b v. inl (looks_spent-value_key a b);
  spent = λ tx txi at c. inr (tx, txi, at, c, refl, refl);
}

-- Under the key stands what names a transaction of the block with an input of that key.
abbrev pub Recorded : Block → Str → Option Str → Type 0
Recorded block k o = (v : Str) × (o ≡ some v) × IsSpendIn block k v

pub after-Recorded :
    (block : Block) (h : Str) (n : ℕ) (ops : List Op) (old : Option Str)
    → All (Keeps block) ops
    → Recorded block (spent_key h n) old
    → Recorded block (spent_key h n) (after ops (spent_key h n) old)
unfolding after
after-Recorded block h n [] old a r = r
after-Recorded block h n (delete k ∷ ops) old a r =
    rw (spent_key-ne h n k a.0) (after-Recorded block h n ops old a.1 r)
after-Recorded block h n (put k v ∷ ops) old (inl e, a) r =
    rw (spent_key-ne h n k e) (after-Recorded block h n ops old a r)
after-Recorded block h n (put k v ∷ ops) old (inr (tx, txi, at, c, e, g), a) r =
    elim (Bool-cases (str_eq k (spent_key h n))) [
      | inl same ↦ rw same (
          after-Recorded block h n ops (some v) a
            (v, refl, (tx, txi, at, c, sym (str_eq→eq _ _ same) ∙ e, g)))
      | inr other ↦ rw other (after-Recorded block h n ops old a r)
    ]
