-- ===== src/MempoolMonitor/Known.antt =====
-- The two maps of the mempool agree: no output is left of a transaction that is not there.
use blockchain_indexer.Base.{
  ℕ, ◌≡◌, refl, sym, ap, ◌∙◌, inl, inr, Option-cases, List, [], ◌∷◌, Bytes, Str, All, none, some,
  Result, ok, >>=-eq-ok,
}
use blockchain_indexer.Base.Text.{str_eq_refl}
use blockchain_indexer.Types.{Transaction, TransactionOutput}
use blockchain_indexer.Dict.{lookup, insert, lookup-insert}
use blockchain_indexer.Dict.Keys.{str_key}
use blockchain_indexer.Stream.{open_stream}
use blockchain_indexer.BlockReader.{read_transaction}
use blockchain_indexer.External.{Crypto, CoinParams, Indeterminate}
use blockchain_indexer.Utility.{hex_to_bytes}
use blockchain_indexer.ScriptSolver.{get_addresses_from_script}
use blockchain_indexer.MempoolMonitor.{
  Mempool, Vertcoind, empty_mempool, get_txos, add_outputs, add_transaction, add_missing,
  watch_round, transaction_indexed,
}
use blockchain_indexer.MempoolMonitor.Added.{
  read_text, add_missing-known, add_missing-unknown, watch_round-listed,
}
use blockchain_indexer.MempoolMonitor.Removal.{
  others, txos-transaction_indexed, transaction_indexed-absent, get_txos-transaction_indexed,
}
use blockchain_indexer.MempoolMonitor.Linked.{
  Txs, Txos, Knows, Linked, Linked-add_txo, KnowsAll-insert, KnowsAll-without, store_all-Distinct,
}

abbrev IsLinked : Mempool → Type 0
IsLinked m = Linked m.mempool_transactions m.address_mempool_transactions

IsLinked-transaction_indexed :
    (txid : Str) (m : Mempool) → IsLinked m → IsLinked (transaction_indexed txid m)
unfolding get_txos
IsLinked-transaction_indexed txid m h = elim (Option-cases (lookup txid m.mempool_transactions)) [
  | inl e ↦ rw (transaction_indexed-absent txid m e) h
  | inr (tx, e) ↦ record {
    distinct =
        rw (txos-transaction_indexed txid m tx e)
          (store_all-Distinct _ m.address_mempool_transactions h.distinct);
    known = λ address.
        rw (get_txos-transaction_indexed txid address m tx h.distinct e)
          (KnowsAll-without txid m _ (h.known address));
  }
]

module _ (crypto : Crypto) (params : CoinParams) (junk : Indeterminate) where
  -- The daemon's name of a transaction is its hash.
  abbrev pub IsHonest : Vertcoind → Type 0
  IsHonest daemon =
      (txid raw_tx : Str)
      → daemon.get_raw_transaction txid ≡ some raw_tx
      → (read_text crypto junk raw_tx).tx_hash ≡ txid

  module _ (daemon : Vertcoind) where
    Linked-add_outputs :
        (txs : Txs) (tx_hash : Str) (outs : List TransactionOutput) (m m' : Txos)
        → Linked txs m
        → (tx : Transaction) × (lookup tx_hash txs ≡ some tx)
        → add_outputs crypto params junk daemon tx_hash outs m ≡ ok m'
        → Linked txs m'
    unfolding add_outputs
    Linked-add_outputs txs tx_hash [] m m' h k e = let same : m ≡ m' = cc in rw (← same) h
    Linked-add_outputs txs tx_hash (out ∷ outs) m m' h k e =
        let (addresses, solved, others) =
          >>=-eq-ok (get_addresses_from_script crypto params out.script) _ e in
        Linked-add_outputs txs tx_hash outs _ m'
          (Linked-add_txo txs (record out { tx_hash = tx_hash }) addresses m h k) k others

    IsLinked-add_transaction :
        (txid : Str) (raw : Bytes) (m m' : Mempool)
        → IsLinked m
        → (read_transaction crypto junk (open_stream raw)).0.tx_hash ≡ txid
        → add_transaction crypto params junk daemon txid raw m ≡ ok m'
        → IsLinked m'
    unfolding add_transaction
    IsLinked-add_transaction txid raw m m' h named e =
        let tx = (read_transaction crypto junk (open_stream raw)).0 in
        let txs = insert txid tx m.mempool_transactions in
        let (added, outputs, last) =
          >>=-eq-ok
            (add_outputs crypto params junk daemon tx.tx_hash tx.outputs
              m.address_mempool_transactions)
            _ e in
        let there : lookup tx.tx_hash txs ≡ some tx =
          rw named
            (lookup-insert txid txid tx m.mempool_transactions ∙ rw (str_eq_refl txid) refl) in
        let wider : Linked txs m.address_mempool_transactions = record {
          distinct = h.distinct;
          known = λ address. KnowsAll-insert txid tx m.mempool_transactions _ (h.known address);
        } in
        let linked =
          Linked-add_outputs txs tx.tx_hash tx.outputs m.address_mempool_transactions added wider
            (tx, there) outputs in
        let result : record { mempool_transactions = txs; address_mempool_transactions = added }
            ≡ m' =
          cc in
        rw (← result) linked

    module _ (honest : IsHonest daemon) where
      IsLinked-add_missing :
          (txids : List Str) (m m' : Mempool)
          → IsLinked m
          → add_missing crypto params junk daemon txids m ≡ ok m'
          → IsLinked m'
      unfolding add_missing
      IsLinked-add_missing [] m m' h e = let same : m ≡ m' = cc in rw (← same) h
      IsLinked-add_missing (txid ∷ txids) m m' h e =
          elim (Option-cases (lookup txid m.mempool_transactions)) [
            | inr (tx, there) ↦
                IsLinked-add_missing txids m m' h
                  (sym (add_missing-known crypto params junk daemon txid txids m tx there) ∙ e)
            | inl absent ↦ elim (Option-cases (daemon.get_raw_transaction txid)) [
              | inl refused ↦
                  let stays : add_missing crypto params junk daemon (txid ∷ txids) m ≡ ok m =
                    rw (add_missing, absent, refused) refl in
                  let same : m ≡ m' = cc (stays, e) in rw (← same) h
              | inr (raw_tx, given) ↦
                  let (m1, adds, others) =
                    >>=-eq-ok
                      (add_transaction crypto params junk daemon txid (hex_to_bytes raw_tx) m) _
                      (sym (
                          add_missing-unknown crypto params junk daemon txid txids m raw_tx absent
                            given)
                        ∙ e) in
                  IsLinked-add_missing txids m1 m'
                    (IsLinked-add_transaction txid (hex_to_bytes raw_tx) m m1 h
                      (honest txid raw_tx given) adds)
                    others
            ]
          ]

      IsLinked-watch_round :
          (m m' : Mempool)
          → IsLinked m
          → watch_round crypto params junk daemon m ≡ ok m'
          → IsLinked m'
      unfolding watch_round
      IsLinked-watch_round m m' h e = elim (Option-cases daemon.get_raw_mempool) [
        | inl refused ↦
            let stays : watch_round crypto params junk daemon m ≡ ok m =
              ap
                (λ o. elim o as (λ _. Result Mempool) [
                  | none ↦ ok m
                  | some txids ↦ add_missing crypto params junk daemon txids m
                ])
                refused in
            let same : m ≡ m' = cc (stays, e) in rw (← same) h
        | inr (txids, listed) ↦
            IsLinked-add_missing txids m m' h
              (sym (watch_round-listed crypto params junk daemon txids m listed) ∙ e)
      ]

  -- What the mempool can become: rounds over what the daemon has by then, and transactions indexed.
  pub data Becomes (daemons : ℕ → Vertcoind) : Mempool → Type 0 where
    begins : Becomes daemons empty_mempool
    watched :
        {m m' : Mempool} (n : ℕ)
        → Becomes daemons m
        → watch_round crypto params junk (daemons n) m ≡ ok m'
        → Becomes daemons m'
    indexed :
        {m : Mempool} (txid : Str)
        → Becomes daemons m
        → Becomes daemons (transaction_indexed txid m)

  Becomes-IsLinked :
      (daemons : ℕ → Vertcoind) (m : Mempool)
      → ((n : ℕ) → IsHonest (daemons n))
      → Becomes daemons m
      → IsLinked m
  unfolding lookup
  Becomes-IsLinked daemons m honest begins = record { distinct = tt; known = λ address. tt }
  Becomes-IsLinked daemons m' honest (watched {m} n b e) =
      IsLinked-watch_round (daemons n) (honest n) m m' (Becomes-IsLinked daemons m honest b) e
  Becomes-IsLinked daemons m' honest (indexed {m} txid b) =
      IsLinked-transaction_indexed txid m (Becomes-IsLinked daemons m honest b)

  -- From the empty mempool on, in every state that rounds of startWatcher which return, over
  -- whatever daemons give each transaction under its hash, and removals of indexed transactions
  -- lead to, in any order: every output that the mempool has of an address is of a transaction that
  -- the mempool has.
  pub Becomes-Knows :
      (daemons : ℕ → Vertcoind) (m : Mempool) (address : Str)
      → ((n : ℕ) → IsHonest (daemons n))
      → Becomes daemons m
      → All (λ (out : TransactionOutput). Knows m.mempool_transactions out) (get_txos m address)
  unfolding get_txos
  Becomes-Knows daemons m address honest b = (Becomes-IsLinked daemons m honest b).known address
