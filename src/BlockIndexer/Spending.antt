-- ===== src/BlockIndexer/Spending.antt =====
-- Every output that a block spends is stored as spent once `indexBlock` has returned.
use blockchain_indexer.Base.{
  ℕ, zero, suc, ◌+◌, ◌≡◌, sym, refl, ap, ◌∙◌, false, inl, List, [], ◌∷◌, ◌++◌, Str, All, get_elem?,
  Option, some, ok, >>=-eq-ok,
}
use mathlib.Core.List.{append_assoc}
use blockchain_indexer.Base.Text.{text, str_eq_refl, pad8}
use blockchain_indexer.Types.{TransactionInput, Transaction, Block}
use blockchain_indexer.Leveldb.{Leveldb, Op, put, after}
use blockchain_indexer.External.{Crypto, CoinParams}
use blockchain_indexer.BlockIndexer.{
  Job, emit, spent_key, index_input, index_inputs, index_transaction, index_transactions,
}
use blockchain_indexer.BlockIndexer.SpentKeys.{looks_spent-indexed_key}
use blockchain_indexer.BlockIndexer.Indexed.{after-append}
use blockchain_indexer.BlockIndexer.Batch.{
  Adds, numbered-Adds, index_input-Adds, index_inputs-Adds, told-Adds, index_transaction-inputs,
  index_transaction-Adds, index_transactions-Adds,
}
use blockchain_indexer.BlockIndexer.Recorded.{IsInput, Keeps, Keeps-Rules, Recorded, after-Recorded}

module _ (ldb : Leveldb) (block : Block) (h : Str) (n : ℕ) where
  abbrev Added : Job ldb → Job ldb → Type 0
  Added = Adds ldb block (IsInput block) (Keeps block) (Keeps-Rules block)

  -- The second job has more entries, which record the output as spent whatever stood there.
  pub record Stores (job job' : Job ldb) : Type 0 where
    pub ops : List Op
    pub batch : job'.batch ≡ job.batch ++ ops
    pub sets : (old : Option Str) → Recorded block (spent_key h n) (after ops (spent_key h n) old)
    pub same_db : job'.db ≡ job.db

  Adds-Stores : (a b c : Job ldb) → Added a b → Stores b c → Stores a c
  Adds-Stores a b c f g = record {
    ops = f.ops ++ g.ops;
    batch = g.batch ∙ ap (λ (xs : List Op). xs ++ g.ops) f.batch ∙ append_assoc a.batch f.ops g.ops;
    sets = λ old. rw (after-append f.ops g.ops (spent_key h n) old) (g.sets _);
    same_db = g.same_db ∙ f.same_db;
  }

  Stores-Adds : (a b c : Job ldb) → Stores a b → Added b c → Stores a c
  Stores-Adds a b c f g = record {
    ops = f.ops ++ g.ops;
    batch = g.batch ∙ ap (λ (xs : List Op). xs ++ g.ops) f.batch ∙ append_assoc a.batch f.ops g.ops;
    sets = λ old.
        rw (after-append f.ops g.ops (spent_key h n) old)
          (after-Recorded block h n g.ops _ g.apart (f.sets old));
    same_db = g.same_db ∙ f.same_db;
  }

  abbrev pub IsSpending : TransactionInput → Type 0
  IsSpending txi = (txi.tx_hash ≡ h) × (txi.txo_index ≡ n) × (txi.coinbase ≡ false)

  emit-Stores :
      (tx : Transaction) (txi : TransactionInput) (job : Job ldb)
      → IsInput block tx txi
      → IsSpending txi
      → Stores job
          (emit ldb (spent_key h n) (block.block_hash ++ (tx.tx_hash ++ pad8 txi.index)) job)
  unfolding emit after
  emit-Stores tx txi job at (e, f, c) = record {
    ops = put (spent_key h n) (block.block_hash ++ (tx.tx_hash ++ pad8 txi.index)) ∷ [];
    batch = refl;
    sets = λ old. rw (str_eq_refl (spent_key h n)) (
      _,
      refl,
      (tx, txi, at, c, sym (ap (λ x. spent_key x txi.txo_index) e ∙ ap (spent_key h) f), refl),
    );
    same_db = refl;
  }

  index_input-Stores :
      (tx : Transaction) (txi : TransactionInput) (job : Job ldb)
      → IsInput block tx txi
      → IsSpending txi
      → Stores job (index_input ldb block tx txi job)
  unfolding index_input
  index_input-Stores tx txi job at (e, f, c) =
      rw (e, f, c)
        (Stores-Adds job _ _ (emit-Stores tx txi job at (e, f, c)) (
          numbered-Adds ldb block (IsInput block) (Keeps block) (Keeps-Rules block)
            (block.block_hash ++ text "-txospent") _ _ _
            (inl (looks_spent-indexed_key (block.block_hash ++ text "-txospent") _))))

  index_inputs-Stores :
      (tx : Transaction) (inputs : List TransactionInput) (j : ℕ) (txi : TransactionInput)
      (job : Job ldb)
      → All (IsInput block tx) inputs
      → get_elem? inputs j ≡ some txi
      → IsSpending txi
      → Stores job (index_inputs ldb block tx inputs job)
  unfolding index_inputs
  index_inputs-Stores tx [] j txi job all at s = cc
  index_inputs-Stores tx (i ∷ inputs) zero txi job all at s =
      let same : txi ≡ i = cc at in
      Stores-Adds job _ _ (index_input-Stores tx i job all.0 (rw same at s)) (
        index_inputs-Adds ldb block (IsInput block) (Keeps block) (Keeps-Rules block) tx inputs _
          all.1)
  index_inputs-Stores tx (i ∷ inputs) (suc j) txi job all at s =
      Adds-Stores job _ _
        (index_input-Adds ldb block (IsInput block) (Keeps block) (Keeps-Rules block) tx i job
          all.0)
        (index_inputs-Stores tx inputs j txi _ all.1 at s)

  module _ (crypto : Crypto) (params : CoinParams) where
    index_transaction-Stores :
        (m : ℕ) (tx : Transaction) (j : ℕ) (txi : TransactionInput) (job job' : Job ldb)
        → All (IsInput block tx) tx.inputs
        → get_elem? tx.inputs j ≡ some txi
        → IsSpending txi
        → index_transaction ldb crypto params block m tx job ≡ ok job'
        → Stores job job'
    index_transaction-Stores m tx j txi job job' all at s e =
        let (job4, adds, same) =
          index_transaction-inputs ldb block (IsInput block) (Keeps block) (Keeps-Rules block)
            crypto params m tx job job' e in
        rw (← same) (
          Adds-Stores job job4 _ adds (
            Stores-Adds job4 _ _ (index_inputs-Stores tx tx.inputs j txi job4 all at s) (
              told-Adds ldb block (IsInput block) (Keeps block) (Keeps-Rules block) tx
                (index_inputs ldb block tx tx.inputs job4))))

    pub index_transactions-Stores :
        (m : ℕ) (txs : List Transaction) (i j : ℕ) (tx : Transaction) (txi : TransactionInput)
        (job job' : Job ldb)
        → All (λ t. All (IsInput block t) t.inputs) txs
        → get_elem? txs i ≡ some tx
        → get_elem? tx.inputs j ≡ some txi
        → IsSpending txi
        → index_transactions ldb crypto params block m txs job ≡ ok job'
        → Stores job job'
    unfolding index_transactions
    index_transactions-Stores m [] i j tx txi job job' all there at s e = cc
    index_transactions-Stores m (t ∷ txs) zero j tx txi job job' all there at s e =
        let same : tx ≡ t = cc there in
        let (job1, first, rest) =
          >>=-eq-ok (index_transaction ldb crypto params block m t job) _ e in
        Stores-Adds job job1 job'
          (index_transaction-Stores m t j txi job job1 all.0 (rw same at at) s first)
          (index_transactions-Adds ldb block (IsInput block) (Keeps block) (Keeps-Rules block)
            crypto params (m + 1) txs job1 job' all.1 rest)
    index_transactions-Stores m (t ∷ txs) (suc i) j tx txi job job' all there at s e =
        let (job1, first, rest) =
          >>=-eq-ok (index_transaction ldb crypto params block m t job) _ e in
        Adds-Stores job job1 job'
          (index_transaction-Adds ldb block (IsInput block) (Keeps block) (Keeps-Rules block) crypto
            params m t job job1 all.0 first)
          (index_transactions-Stores (m + 1) txs i j tx txi job1 job' all.1 there at s rest)
