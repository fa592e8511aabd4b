-- ===== src/BlockIndexer/Batch.antt =====
-- The batch of indexBlock: what is behind the entries of the block itself.
use blockchain_indexer.Base.{
  ℕ, ◌+◌, ◌≡◌, arith, refl, false, sym, ap, ◌∙◌, not, ◌&&◌, Bool-cases, inl, inr, List, [], ◌∷◌,
  ◌++◌, Str, length, All, ltb, Bool, true, if◌then◌else◌, err, undefined, ok, >>=-eq-ok,
}
use mathlib.Core.List.{append-nil, append_assoc}
use blockchain_indexer.Base.Text.{text, pad8, dec}
use blockchain_indexer.Types.{TransactionInput, TransactionOutput, Transaction, Block}
use blockchain_indexer.Leveldb.{Leveldb, Op, put}
use blockchain_indexer.External.{Crypto, CoinParams}
use blockchain_indexer.ScriptSolver.{get_addresses_from_script, is_multi_sig}
use blockchain_indexer.BlockIndexer.{
  Indexer, Job, emit, get_next_txo_index, indexed_key, tx_block_key, spent_key, index_address,
  index_addresses, note_multisig, index_input, index_inputs, index_output, index_outputs,
  index_transaction, index_transactions,
}
use blockchain_indexer.MempoolMonitor.{transaction_indexed}

-- What has to hold of an entry of each kind, for a property of all entries behind the block's own.
pub record Rules (block_hash : Str) (IsInput : Transaction → TransactionInput → Type 0)
    (Q : Op → Type 0) : Type 0 where
  pub ordered :
      (n : ℕ) (v : Str) → Q (put (indexed_key (text "block-" ++ (block_hash ++ text "-tx")) n) v)
  pub file_position : (tx_hash v : Str) → Q (put (text "tx-filePosition-" ++ tx_hash) v)
  pub tx_block : (tx_hash v : Str) → Q (put (tx_block_key tx_hash) v)
  pub txo : (s : Str) (n : ℕ) (v : Str) → Q (put (indexed_key (s ++ text "-txo") n) v)
  pub address :
      (a b : Str) (n : ℕ) (v : Str) → Q (put (indexed_key (a ++ (b ++ text "-address")) n) v)
  pub txospent : (s : Str) (n : ℕ) (v : Str) → Q (put (indexed_key (s ++ text "-txospent") n) v)
  pub multisig :
      (tx_hash rest v : Str) → Q (put (text "multisigtx-" ++ (tx_hash ++ (text "-" ++ rest))) v)
  pub value : (a b v : Str) → Q (put (a ++ (b ++ text "-value")) v)
  pub spent :
      (tx : Transaction) (txi : TransactionInput)
      → IsInput tx txi
      → txi.coinbase ≡ false
      → Q (put (spent_key txi.tx_hash txi.txo_index) (block_hash ++ (tx.tx_hash ++ pad8 txi.index)))

module _ (Q : Op → Type 0) where
  pub All-append : (xs ys : List Op) → All Q xs → All Q ys → All Q (xs ++ ys)
  All-append [] ys h k = k
  All-append (x ∷ xs) ys h k = (h.0, All-append xs ys h.1 k)

module _ (ldb : Leveldb) (block : Block) (IsInput : Transaction → TransactionInput → Type 0)
    (Q : Op → Type 0) (rules : Rules block.block_hash IsInput Q) where
  -- The second job has more entries behind those of the first, with the property, over the same database.
  pub record Adds (job job' : Job ldb) : Type 0 where
    pub ops : List Op
    pub batch : job'.batch ≡ job.batch ++ ops
    pub apart : All Q ops
    pub same_db : job'.db ≡ job.db

  pub Adds-refl : (job : Job ldb) → Adds job job
  Adds-refl job = record {
    ops = [];
    batch = sym (append-nil job.batch);
    apart = tt;
    same_db = refl;
  }

  pub Adds-trans : (a b c : Job ldb) → Adds a b → Adds b c → Adds a c
  Adds-trans a b c f g = record {
    ops = f.ops ++ g.ops;
    batch = g.batch ∙ ap (λ (xs : List Op). xs ++ g.ops) f.batch ∙ append_assoc a.batch f.ops g.ops;
    apart = All-append Q f.ops g.ops f.apart g.apart;
    same_db = g.same_db ∙ f.same_db;
  }

  pub emit-Adds : (k v : Str) (job : Job ldb) → Q (put k v) → Adds job (emit ldb k v job)
  unfolding emit
  emit-Adds k v job h = record { ops = put k v ∷ []; batch = refl; apart = (h, tt); same_db = refl }

  next-Adds : (prefix : Str) (job : Job ldb) → Adds job (get_next_txo_index ldb prefix job).1
  unfolding get_next_txo_index
  next-Adds prefix job = record {
    ops = [];
    batch = sym (append-nil job.batch);
    apart = tt;
    same_db = refl;
  }

  -- An entry under a key that a counter completes.
  pub numbered-Adds :
      (prefix k v : Str) (job : Job ldb)
      → Q (put k v)
      → Adds job (emit ldb k v (get_next_txo_index ldb prefix job).1)
  numbered-Adds prefix k v job h =
      Adds-trans job _ _ (next-Adds prefix job)
        (emit-Adds k v (get_next_txo_index ldb prefix job).1 h)

  index_address-Adds :
      (tx : Transaction) (out : TransactionOutput) (address : Str) (job : Job ldb)
      → Adds job (index_address ldb block tx out address job)
  unfolding index_address
  index_address-Adds tx out address job =
      Adds-trans job _ _ (numbered-Adds (address ++ text "-txo") _ _ job (rules.txo address _ _)) (
        Adds-trans _ _ _
          (numbered-Adds (block.block_hash ++ text "-txo") _ _ _ (rules.txo block.block_hash _ _))
          (numbered-Adds (tx.tx_hash ++ (pad8 out.index ++ text "-address")) _ _ _
            (rules.address tx.tx_hash (pad8 out.index) _ _)))

  index_addresses-Adds :
      (tx : Transaction) (out : TransactionOutput) (addresses : List Str) (job : Job ldb)
      → Adds job (index_addresses ldb block tx out addresses job)
  unfolding index_addresses
  index_addresses-Adds tx out [] job = Adds-refl job
  index_addresses-Adds tx out (address ∷ addresses) job =
      Adds-trans _ _ _ (index_address-Adds tx out address job)
        (index_addresses-Adds tx out addresses _)

  note_multisig-Adds :
      (tx : Transaction) (out : TransactionOutput) (addresses : List Str) (job : Job ldb)
      → Adds job (note_multisig ldb tx out addresses job)
  unfolding note_multisig
  note_multisig-Adds tx out addresses job =
      elim (Bool-cases (ltb 1 (length addresses) && is_multi_sig out.script)) [
        | inl e ↦ rw e (emit-Adds _ _ job (rules.multisig tx.tx_hash (pad8 out.index) _))
        | inr e ↦ rw e (Adds-refl job)
      ]

  pub index_input-Adds :
      (tx : Transaction) (txi : TransactionInput) (job : Job ldb)
      → IsInput tx txi
      → Adds job (index_input ldb block tx txi job)
  unfolding index_input
  index_input-Adds tx txi job at = elim (Bool-cases (not txi.coinbase)) [
    | inr e ↦ rw e (Adds-refl job)
    | inl e ↦ rw e (
        Adds-trans job _ _
          (emit-Adds (spent_key txi.tx_hash txi.txo_index) _ job
            (rules.spent tx txi at (ground arith)))
          (numbered-Adds (block.block_hash ++ text "-txospent") _ _ _
            (rules.txospent block.block_hash _ _)))
  ]

  pub index_inputs-Adds :
      (tx : Transaction) (inputs : List TransactionInput) (job : Job ldb)
      → All (IsInput tx) inputs
      → Adds job (index_inputs ldb block tx inputs job)
  unfolding index_inputs
  index_inputs-Adds tx [] job at = Adds-refl job
  index_inputs-Adds tx (txi ∷ inputs) job at =
      Adds-trans _ _ _ (index_input-Adds tx txi job at.0) (index_inputs-Adds tx inputs _ at.1)

  -- The mempool is told of a transaction: nothing is added.
  abbrev pub told : Transaction → Job ldb → Job ldb
  told tx job = record job {
    indexer = record job.indexer { mempool = transaction_indexed tx.tx_hash job.mempool };
  }

  pub told-Adds : (tx : Transaction) (job : Job ldb) → Adds job (told tx job)
  told-Adds tx job = record {
    ops = [];
    batch = sym (append-nil job.batch);
    apart = tt;
    same_db = refl;
  }

  module _ (crypto : Crypto) (params : CoinParams) where
    index_output-Adds :
        (tx : Transaction) (out : TransactionOutput) (job job' : Job ldb)
        → index_output ldb crypto params block tx out job ≡ ok job'
        → Adds job job'
    unfolding index_output
    index_output-Adds tx out job job' h =
        let (addresses, _, e) =
          >>=-eq-ok (get_addresses_from_script crypto params out.script) _ h in
        let made =
          index_addresses ldb block tx out addresses (note_multisig ldb tx out addresses job) in
        let same : emit ldb (tx.tx_hash ++ (pad8 out.index ++ text "-value")) (dec out.value) made
            ≡ job' =
          cc e in
        rw (← same) (
          Adds-trans _ _ _ (note_multisig-Adds tx out addresses job) (
            Adds-trans _ _ _ (index_addresses-Adds tx out addresses _)
              (emit-Adds _ _ made (rules.value tx.tx_hash (pad8 out.index) _))))

    index_outputs-Adds :
        (tx : Transaction) (outputs : List TransactionOutput) (job job' : Job ldb)
        → index_outputs ldb crypto params block tx outputs job ≡ ok job'
        → Adds job job'
    unfolding index_outputs
    index_outputs-Adds tx [] job job' h =
        let same : job ≡ job' = cc h in rw (← same) (Adds-refl job)
    index_outputs-Adds tx (out ∷ outputs) job job' h =
        let (job1, e, g) = >>=-eq-ok (index_output ldb crypto params block tx out job) _ h in
        Adds-trans _ _ _ (index_output-Adds tx out job job1 e)
          (index_outputs-Adds tx outputs job1 job' g)

    -- What a transaction adds before its inputs, and then its inputs.
    pub index_transaction-inputs :
        (n : ℕ) (tx : Transaction) (job job' : Job ldb)
        → index_transaction ldb crypto params block n tx job ≡ ok job'
        → (job4 : Job ldb) × Adds job job4
          × (told tx (index_inputs ldb block tx tx.inputs job4) ≡ job')
    unfolding index_transaction
    index_transaction-inputs n tx job job' h =
        let (job4, e, g) = >>=-eq-ok (index_outputs ldb crypto params block tx tx.outputs _) _ h in
        (
          job4,
          Adds-trans job _ job4 (emit-Adds _ _ job (rules.ordered n _)) (
              Adds-trans _ _ job4 (emit-Adds _ _ _ (rules.file_position tx.tx_hash _)) (
                Adds-trans _ _ job4 (emit-Adds _ _ _ (rules.tx_block tx.tx_hash _))
                  (index_outputs-Adds tx tx.outputs _ job4 e))),
          cc g,
        )

    pub index_transaction-Adds :
        (n : ℕ) (tx : Transaction) (job job' : Job ldb)
        → All (IsInput tx) tx.inputs
        → index_transaction ldb crypto params block n tx job ≡ ok job'
        → Adds job job'
    index_transaction-Adds n tx job job' at h =
        let (job4, adds, same) = index_transaction-inputs n tx job job' h in
        rw (← same) (
          Adds-trans _ _ _ adds (
            Adds-trans _ _ _ (index_inputs-Adds tx tx.inputs job4 at)
              (told-Adds tx (index_inputs ldb block tx tx.inputs job4))))

    pub index_transactions-Adds :
        (n : ℕ) (txs : List Transaction) (job job' : Job ldb)
        → All (λ tx. All (IsInput tx) tx.inputs) txs
        → index_transactions ldb crypto params block n txs job ≡ ok job'
        → Adds job job'
    unfolding index_transactions
    index_transactions-Adds n [] job job' at h =
        let same : job ≡ job' = cc h in rw (← same) (Adds-refl job)
    index_transactions-Adds n (tx ∷ txs) job job' at h =
        let (job1, e, g) = >>=-eq-ok (index_transaction ldb crypto params block n tx job) _ h in
        Adds-trans _ _ _ (index_transaction-Adds n tx job job1 at.0 e)
          (index_transactions-Adds (n + 1) txs job1 job' at.1 g)

-- A job whose counters have not overflowed gives its indexer.
pub finished :
    (ldb : Leveldb) (overflowed : Bool) {ix ix' : Indexer ldb}
    → (if overflowed then err undefined else ok ix) ≡ ok ix'
    → ix ≡ ix'
finished ldb true h = absurd (cc h)
finished ldb false h = cc h
