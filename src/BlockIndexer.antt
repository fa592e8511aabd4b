-- ===== src/BlockIndexer.antt =====
-- src/blockindexer.cpp: what the index stores for a block, and how a reorganised block is undone.
pub mod Keys
pub mod Batch
pub mod Indexed
pub mod SpentKeys
pub mod Recorded
pub mod Spending
pub mod Spent
pub mod PlainKeys
pub mod OwnEntries
pub mod Clear
pub mod Highest
pub mod Numbered
use blockchain_indexer.Base.{
  ◌^◌, undefined, ℕ, suc, ◌+◌, Bool, true, false, not, ◌&&◌, ◌||◌, List, [], ◌∷◌, ◌++◌, map, Bytes,
  Str, length, ◌==◌, ltb, if◌then◌else◌, ℤ, Result, ok, err, Option, none, some, ◌>>=◌,
}
use blockchain_indexer.Base.Text.{text, str_eq, pad8, dec, dec_ℤ, setw, stoull}
use blockchain_indexer.Types.{TransactionInput, TransactionOutput, Transaction, Block}
use blockchain_indexer.Dict.{Dict, lookup, insert}
use blockchain_indexer.Dict.Keys.{str_key}
use blockchain_indexer.Leveldb.{Leveldb, Op, put, delete, range}
use blockchain_indexer.External.{Crypto, CoinParams}
use blockchain_indexer.ScriptSolver.{get_addresses_from_script, is_multi_sig, required_signatures}
use blockchain_indexer.MempoolMonitor.{Mempool, transaction_indexed}

abbrev pub first_index : Str
first_index = text "-00000001"

abbrev pub last_index : Str
last_index = text "-99999999"

-- The keys that the program builds with string streams.
unfoldable pub block_key : ℕ → Str
block_key height = text "block-" ++ pad8 height

unfoldable pub tx_block_key : Str → Str
tx_block_key tx_hash = text "tx-" ++ (tx_hash ++ text "-block")

unfoldable pub spent_key : Str → ℕ → Str
spent_key tx_hash index = text "txo-" ++ (tx_hash ++ (text "-" ++ (pad8 index ++ text "-spent")))

unfoldable pub indexed_key : Str → ℕ → Str
indexed_key prefix index = prefix ++ (text "-" ++ pad8 index)

module _ (ldb : Leveldb) where
  -- The database, the counters in memory, and the mempool that is told of indexed transactions.
  pub record Indexer : Type 0 where
    pub db : ldb.Db
    pub next_txo_index : Dict Str ℕ
    pub mempool : Mempool

  -- An indexer at work on a batch, and whether one of its counters, which are of type `int`, has
  -- overflowed: from there on what the code does is undefined.
  pub record Job : Type 0 where
    pub indexer : Indexer
    pub open indexer use *
    pub batch : List Op
    pub overflowed : Bool

  unfoldable pub emit : Str → Str → Job → Job
  emit k v job = record job { batch = job.batch ++ put k v ∷ [] }

  unfoldable pub get_next_txo_index : Str → Job → ℕ × Job
  get_next_txo_index prefix job =
      let next : ℕ = elim (lookup prefix job.next_txo_index) [
        | none ↦ suc (length (range ldb job.db (prefix ++ first_index) (prefix ++ last_index)))
        | some n ↦ n + 1
      ] in
      (
        next,
        record job {
          indexer = record job.indexer { next_txo_index = insert prefix next job.next_txo_index };
          overflowed = job.overflowed || not (ltb next (2 ^ 31));
        },
      )

  unfoldable pub deletions : List (Str × Str) → List Op
  deletions entries = map (λ e. delete e.1) entries

  unfoldable pub clear_block_txos : Str → Indexer → Bool × Indexer
  clear_block_txos block_hash ix =
      let txos =
        range ldb ix.db (block_hash ++ text "-txo-00000001") (block_hash ++ text "-txo-99999999") in
      let spent =
        range ldb ix.db (block_hash ++ text "-txospent-00000001")
          (block_hash ++ text "-txospent-99999999") in
      let (db, written) = ldb.write ix.db (deletions txos ++ deletions spent) in
      (written, record ix { db = db })

  -- Whether this block stands at the height, as indexBlock looks it up.
  unfoldable pub is_indexed : Str → ℕ → Indexer → Bool
  is_indexed block_hash block_height ix = elim (ldb.get ix.db (block_key block_height)) [
    | none ↦ false
    | some existing_block_hash ↦ str_eq existing_block_hash block_hash
  ]

  -- The height is an `int` here.
  unfoldable pub has_indexed_block : Str → ℤ → Indexer → Bool
  has_indexed_block block_hash block_height ix =
      elim (ldb.get ix.db (text "block-" ++ setw 8 (dec_ℤ block_height))) [
        | none ↦ false
        | some existing_block_hash ↦ str_eq existing_block_hash block_hash
      ]

  -- The first part of indexBlock: a different block at this height is undone, and the highest
  -- block is raised.
  unfoldable pub replace_block : Option Str → Indexer → Indexer
  replace_block none ix = ix
  replace_block (some existing_block_hash) ix = (clear_block_txos existing_block_hash ix).1

  unfoldable pub raise_highest : ℕ → Indexer → Result Indexer
  raise_highest height ix = elim (ldb.get ix.db (text "highestblock")) [
    | none ↦ ok (record ix { db = ldb.put_one ix.db (text "highestblock") (pad8 height) })
    | some highest_block ↦ do
      highest ← stoull highest_block
      ok (
          if ltb highest height
          then record ix { db = ldb.put_one ix.db (text "highestblock") (pad8 height) }
          else ix)
  ]

  -- The entries of the batch that describe the block itself.
  unfoldable pub block_entries : Block → List Op
  block_entries block =
      let height = pad8 block.height in
      put (block_key block.height) block.block_hash
      ∷ put (text "block-filePosition-" ++ height)
          (block.file_name ++ setw 12 (dec_ℤ block.file_position))
      ∷ put (text "block-hash-" ++ block.block_hash) height
      ∷ put (text "block-time-" ++ height) (dec block.time)
      ∷ put (text "block-hash-time-" ++ setw 12 (dec block.time)) block.block_hash
      ∷ put (text "block-size-" ++ height) (dec block.byte_size)
      ∷ put (text "block-txcount-" ++ height) (dec (length block.transactions))
      ∷ []

  -- One output and one of its addresses.
  unfoldable pub index_address : Block → Transaction → TransactionOutput → Str → Job → Job
  index_address block tx out address job =
      let (n1, job1) = get_next_txo_index (address ++ text "-txo") job in
      let txo_key = indexed_key (address ++ text "-txo") n1 in
      let job2 =
        emit txo_key (tx.tx_hash ++ (pad8 out.index ++ (pad8 block.height ++ dec out.value)))
          job1 in
      let (n2, job3) = get_next_txo_index (block.block_hash ++ text "-txo") job2 in
      let job4 = emit (indexed_key (block.block_hash ++ text "-txo") n2) txo_key job3 in
      let txo_address_key = tx.tx_hash ++ (pad8 out.index ++ text "-address") in
      let (n3, job5) = get_next_txo_index txo_address_key job4 in
      emit (indexed_key txo_address_key n3) address job5

  unfoldable pub index_addresses : Block → Transaction → TransactionOutput → List Str → Job → Job
  index_addresses block tx out [] job = job
  index_addresses block tx out (address ∷ addresses) job =
      index_addresses block tx out addresses (index_address block tx out address job)

  unfoldable pub note_multisig : Transaction → TransactionOutput → List Str → Job → Job
  note_multisig tx out addresses job =
      if ltb 1 (length addresses) && is_multi_sig out.script
      then emit (text "multisigtx-" ++ (tx.tx_hash ++ (text "-" ++ pad8 out.index)))
          (dec_ℤ (required_signatures out.script)) job
      else job

  unfoldable pub index_input : Block → Transaction → TransactionInput → Job → Job
  index_input block tx txi job =
      let tx_spent_key = spent_key txi.tx_hash txi.txo_index in
      let job1 = emit tx_spent_key (block.block_hash ++ (tx.tx_hash ++ pad8 txi.index)) job in
      let (n, job2) = get_next_txo_index (block.block_hash ++ text "-txospent") job1 in
      if not txi.coinbase
      then emit (indexed_key (block.block_hash ++ text "-txospent") n) tx_spent_key job2
      else job

  unfoldable pub index_inputs : Block → Transaction → List TransactionInput → Job → Job
  index_inputs block tx [] job = job
  index_inputs block tx (txi ∷ inputs) job =
      index_inputs block tx inputs (index_input block tx txi job)

  module _ (crypto : Crypto) (params : CoinParams) where
    unfoldable pub index_output : Block → Transaction → TransactionOutput → Job → Result Job
    index_output block tx out job = do
      addresses ← get_addresses_from_script crypto params out.script
      let job1 = index_addresses block tx out addresses (note_multisig tx out addresses job)
      ok (emit (tx.tx_hash ++ (pad8 out.index ++ text "-value")) (dec out.value) job1)

    unfoldable pub index_outputs : Block → Transaction → List TransactionOutput → Job → Result Job
    index_outputs block tx [] job = ok job
    index_outputs block tx (out ∷ outputs) job = do
      job' ← index_output block tx out job
      index_outputs block tx outputs job'

    -- The entries of one transaction; the mempool is told of it at once, before the batch is written.
    unfoldable pub index_transaction : Block → ℕ → Transaction → Job → Result Job
    index_transaction block tx_index tx job =
        let job1 =
          emit (indexed_key (text "block-" ++ (block.block_hash ++ text "-tx")) tx_index) tx.tx_hash
            job in
        let job2 =
          emit (text "tx-filePosition-" ++ tx.tx_hash)
            (block.file_name ++ setw 12 (dec tx.file_position)) job1 in
        let job3 = emit (tx_block_key tx.tx_hash) block.block_hash job2 in
        do
          job4 ← index_outputs block tx tx.outputs job3
          let job5 = index_inputs block tx tx.inputs job4
          ok (record job5 {
            indexer = record job5.indexer { mempool = transaction_indexed tx.tx_hash job5.mempool };
          })

    unfoldable pub index_transactions : Block → ℕ → List Transaction → Job → Result Job
    index_transactions block tx_index [] job = ok job
    index_transactions block tx_index (tx ∷ txs) job = do
      job' ← index_transaction block tx_index tx job
      index_transactions block (tx_index + 1) txs job'

    unfoldable pub write_block : Block → Indexer → Result Indexer
    write_block block ix = do
      job ←
          index_transactions block 0 block.transactions
            (record { indexer = ix; batch = block_entries block; overflowed = false })
      if job.overflowed
          then err undefined
          else ok (record job.indexer { db = (ldb.write job.db job.batch).0 })

    unfoldable pub index_block : Block → Indexer → Result (Bool × Indexer)
    index_block block ix =
        let existing = ldb.get ix.db (block_key block.height) in
        let indexing : Result (Bool × Indexer) =
          raise_highest block.height (replace_block existing ix) >>= λ ix1.
          write_block block ix1 >>= λ ix2. ok (true, ix2) in
        if is_indexed block.block_hash block.height ix then ok (true, ix) else indexing
