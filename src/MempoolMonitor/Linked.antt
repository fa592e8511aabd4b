-- ===== src/MempoolMonitor/Linked.antt =====
-- The two maps of the mempool agree, and keep doing so when an output comes or a transaction goes.
use blockchain_indexer.Base.{
  ◌≡◌, refl, inl, inr, false, Bool-cases, List, [], ◌∷◌, ◌++◌, Str, All, arith, some,
}
use blockchain_indexer.Base.Text.{str_eq, str_eq→eq, str_eq_refl}
use blockchain_indexer.Types.{Transaction, TransactionOutput}
use blockchain_indexer.Dict.{Dict, lookup, insert, lookup-insert, Distinct, insert-Distinct}
use blockchain_indexer.Dict.Keys.{str_key}
use blockchain_indexer.MempoolMonitor.{
  Mempool, outputs_or_none, store_all, add_txo, transaction_indexed,
}
use blockchain_indexer.MempoolMonitor.Removal.{others, lookup-transaction_indexed}

abbrev pub Txs : Type 0
Txs = Dict Str Transaction

abbrev pub Txos : Type 0
Txos = Dict Str (List TransactionOutput)

-- The transaction of the output is there.
abbrev pub Knows : Txs → TransactionOutput → Type 0
Knows txs out = (tx : Transaction) × (lookup out.tx_hash txs ≡ some tx)

abbrev pub KnowsAll : Txs → List TransactionOutput → Type 0
KnowsAll txs outs = All (λ (out : TransactionOutput). Knows txs out) outs

-- What holds of the vector of every address, and that no address stands twice.
pub record Linked (txs : Txs) (m : Txos) : Type 0 where
  pub distinct : Distinct m
  pub known : (address : Str) → KnowsAll txs (outputs_or_none (lookup address m))

KnowsAll-snoc :
    (txs : Txs) (outs : List TransactionOutput) (out : TransactionOutput)
    → KnowsAll txs outs
    → Knows txs out
    → KnowsAll txs (outs ++ out ∷ [])
KnowsAll-snoc txs [] out h k = (k, tt)
KnowsAll-snoc txs (o ∷ outs) out h k = (h.0, KnowsAll-snoc txs outs out h.1 k)

pub Linked-add_txo :
    (txs : Txs) (out : TransactionOutput) (addresses : List Str) (m : Txos)
    → Linked txs m
    → Knows txs out
    → Linked txs (add_txo out addresses m)
unfolding add_txo
Linked-add_txo txs out [] m h k = h
Linked-add_txo txs out (a ∷ addresses) m h k =
    let more = outputs_or_none (lookup a m) ++ out ∷ [] in
    Linked-add_txo txs out addresses (insert a more m)
      (record {
        distinct = insert-Distinct a more m h.distinct;
        known = λ address. elim (Bool-cases (str_eq a address)) [
          | inl same ↦
              rw (lookup-insert a address more m, same) (KnowsAll-snoc txs _ out (h.known a) k)
          | inr differ ↦ rw (lookup-insert a address more m, differ) (h.known address)
        ];
      })
      k

-- A transaction more does no harm.
pub KnowsAll-insert :
    (txid : Str) (tx : Transaction) (txs : Txs) (outs : List TransactionOutput)
    → KnowsAll txs outs
    → KnowsAll (insert txid tx txs) outs
KnowsAll-insert txid tx txs [] h = tt
KnowsAll-insert txid tx txs (out ∷ outs) ((old, e), h) = (
  elim (Bool-cases (str_eq txid out.tx_hash)) [
    | inl same ↦ (tx, rw (lookup-insert txid out.tx_hash tx txs, same) refl)
    | inr differ ↦ (old, rw (lookup-insert txid out.tx_hash tx txs, differ) e)
  ],
  KnowsAll-insert txid tx txs outs h,
)

-- One less leaves the outputs of the others.
pub KnowsAll-without :
    (txid : Str) (m : Mempool) (outs : List TransactionOutput)
    → KnowsAll m.mempool_transactions outs
    → KnowsAll (transaction_indexed txid m).mempool_transactions (others txid outs)
unfolding others
KnowsAll-without txid m [] h = tt
KnowsAll-without txid m (out ∷ outs) ((tx, e), h) = elim (Bool-cases (str_eq out.tx_hash txid)) [
  | inl same ↦ rw same (KnowsAll-without txid m outs h)
  | inr differ ↦
      let other : str_eq txid out.tx_hash ≡ false =
        ground (arith, str_eq→eq txid out.tx_hash, str_eq_refl txid) in
      rw differ (
        (tx, rw (lookup-transaction_indexed txid out.tx_hash m, other) e),
        KnowsAll-without txid m outs h,
      )
]

pub store_all-Distinct : (changed m : Txos) → Distinct m → Distinct (store_all changed m)
unfolding store_all
store_all-Distinct [] m d = d
store_all-Distinct ((address, outs) ∷ changed) m d =
    store_all-Distinct changed (insert address outs m) (insert-Distinct address outs m d)
