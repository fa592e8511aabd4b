-- ===== src/MempoolMonitor/Removal.antt =====
-- `transactionIndexed` takes a transaction out of the mempool, with all its outputs and no others.
use blockchain_indexer.Base.{
  ◌≡◌, ◌≢◌, All, ◌⊎◌, refl, sym, ap, ◌∙◌, true, false, List, [], ◌∷◌, Str, Option, none, some,
  arith, if◌then◌else◌, Bool-cases, Option-cases, inl, inr,
}
use blockchain_indexer.Base.Text.{str_eq, str_eq→eq, str_eq_refl}
use blockchain_indexer.Types.{Transaction, TransactionOutput}
use blockchain_indexer.Dict.{Dict, lookup, insert, lookup-insert, lookup-erase, erase, Distinct}
use blockchain_indexer.Dict.Keys.{str_key}
use blockchain_indexer.MempoolMonitor.{
  Mempool, without_tx, changed_txos, store_all, transaction_indexed, get_txos, outputs_or_none,
}

abbrev Txos : Type 0
Txos = Dict Str (List TransactionOutput)

-- What the removal leaves of an address's outputs: those of other transactions, in order.
unfoldable pub others : Str → List TransactionOutput → List TransactionOutput
others txid [] = []
others txid (txo ∷ txos) =
    if str_eq txo.tx_hash txid then others txid txos else txo ∷ others txid txos

without_tx-others :
    (txid : Str) (txos : List TransactionOutput) → (without_tx txid txos).0 ≡ others txid txos
unfolding without_tx others
without_tx-others txid [] = refl
without_tx-others txid (txo ∷ txos) = ground (arith, without_tx-others txid txos)

others_unchanged :
    (txid : Str) (txos : List TransactionOutput)
    → (without_tx txid txos).1 ≡ false
    → others txid txos ≡ txos
unfolding without_tx others
others_unchanged txid [] h = refl
others_unchanged txid (txo ∷ txos) h = ground (arith, others_unchanged txid txos)

changed-missing :
    (txid k : Str) (m : Txos) → lookup k m ≡ none → lookup k (changed_txos txid m) ≡ none
unfolding lookup changed_txos
changed-missing txid k [] h = refl
changed-missing txid k ((j, txos) ∷ m) h = ground (arith, changed-missing txid k m)

changed-Distinct : (txid : Str) (m : Txos) → Distinct m → Distinct (changed_txos txid m)
unfolding changed_txos
changed-Distinct txid [] d = tt
changed-Distinct txid ((j, txos) ∷ m) d = elim (Bool-cases (without_tx txid txos).1) [
  | inl e ↦ rw e (changed-missing txid j m d.0, changed-Distinct txid m d.1)
  | inr e ↦ rw e (changed-Distinct txid m d.1)
]

-- A vector is stored again exactly if it changes.
abbrev Changes : Str → Option (List TransactionOutput) → Option (List TransactionOutput) → Type 0
Changes txid none changed = changed ≡ none
Changes txid (some txos) changed =
    changed ≡ (if (without_tx txid txos).1 then some (others txid txos) else none)

changed-Changes :
    (txid k : Str) (m : Txos)
    → Distinct m
    → Changes txid (lookup k m) (lookup k (changed_txos txid m))
unfolding lookup changed_txos
changed-Changes txid k [] d = refl
changed-Changes txid k ((j, txos) ∷ m) d = elim (Bool-cases (str_eq j k)) [
  | inl e ↦ rw e (elim (Bool-cases (without_tx txid txos).1) [
    | inl c ↦ rw c (rw e (ap some (without_tx-others txid txos)))
    | inr c ↦ rw c (rw (← str_eq→eq j k e) (changed-missing txid j m d.0))
  ])
  | inr e ↦ rw e (elim (Bool-cases (without_tx txid txos).1) [
    | inl c ↦ rw c (rw e (changed-Changes txid k m d.1))
    | inr c ↦ rw c (changed-Changes txid k m d.1)
  ])
]

abbrev or_else :
    Option (List TransactionOutput)
    → Option (List TransactionOutput)
    → Option (List TransactionOutput)
or_else none o = o
or_else (some v) o = some v

store_all-lookup :
    (ch m : Txos) (k : Str)
    → Distinct ch
    → lookup k (store_all ch m) ≡ or_else (lookup k ch) (lookup k m)
unfolding store_all
store_all-lookup [] m k d = unfold lookup in refl
store_all-lookup ((j, txos) ∷ ch) m k d =
    store_all-lookup ch (insert j txos m) k d.1
    ∙ ap (or_else (lookup k ch)) (lookup-insert j k txos m)
    ∙ overlap (Bool-cases (str_eq j k))
  where
    overlap :
        (str_eq j k ≡ true) ⊎ (str_eq j k ≡ false)
        → or_else (lookup k ch) (if str_eq j k then some txos else lookup k m)
          ≡ or_else (lookup k ((j, txos) ∷ ch)) (lookup k m)
    overlap (inl e) = unfold lookup in rw e (rw (rw (str_eq→eq j k e) at d.0))
    overlap (inr e) = unfold lookup in rw e

-- The address map after a transaction of the mempool was indexed, and the transactions.
pub txos-transaction_indexed :
    (txid : Str) (m : Mempool) (tx : Transaction)
    → lookup txid m.mempool_transactions ≡ some tx
    → (transaction_indexed txid m).address_mempool_transactions
      ≡ store_all (changed_txos txid m.address_mempool_transactions) m.address_mempool_transactions
unfolding transaction_indexed
txos-transaction_indexed txid m tx h = rw (h, transaction_indexed)

get_txos-txos :
    (m : Mempool) (address : Str) (o : Option (List TransactionOutput))
    → lookup address m.address_mempool_transactions ≡ o
    → get_txos m address ≡ outputs_or_none o
unfolding get_txos
get_txos-txos m address o h = rw h

outputs-Changes :
    (txid : Str) (old changed : Option (List TransactionOutput))
    → Changes txid old changed
    → outputs_or_none (or_else changed old) ≡ others txid (outputs_or_none old)
outputs-Changes txid none changed c = rw c (unfold others in refl)
outputs-Changes txid (some txos) changed c = elim (Bool-cases (without_tx txid txos).1) [
  | inl e ↦ rw (c, e)
  | inr e ↦ rw (c, e) (sym (others_unchanged txid txos e))
]

-- Once a transaction of the mempool was indexed, the outputs that the mempool has of any address
-- are those it had, in their order, less the ones of that transaction, where no address stands
-- twice in the map.
pub get_txos-transaction_indexed :
    (txid address : Str) (m : Mempool) (tx : Transaction)
    → Distinct m.address_mempool_transactions
    → lookup txid m.mempool_transactions ≡ some tx
    → get_txos (transaction_indexed txid m) address ≡ others txid (get_txos m address)
get_txos-transaction_indexed txid address m tx d h =
    let old = lookup address m.address_mempool_transactions in
    let ch = changed_txos txid m.address_mempool_transactions in
    let found : lookup address (transaction_indexed txid m).address_mempool_transactions
        ≡ or_else (lookup address ch) old =
      ap (lookup address) (txos-transaction_indexed txid m tx h)
      ∙ store_all-lookup ch m.address_mempool_transactions address
          (changed-Distinct txid m.address_mempool_transactions d) in
    get_txos-txos (transaction_indexed txid m) address (or_else (lookup address ch) old) found
    ∙ outputs-Changes txid old (lookup address ch)
        (changed-Changes txid address m.address_mempool_transactions d)
    ∙ ap (others txid) (sym (get_txos-txos m address old refl))

transactions-transaction_indexed :
    (txid : Str) (m : Mempool) (tx : Transaction)
    → lookup txid m.mempool_transactions ≡ some tx
    → (transaction_indexed txid m).mempool_transactions ≡ erase txid m.mempool_transactions
unfolding transaction_indexed
transactions-transaction_indexed txid m tx h = rw (h, transaction_indexed)

pub transaction_indexed-absent :
    (txid : Str) (m : Mempool)
    → lookup txid m.mempool_transactions ≡ none
    → transaction_indexed txid m ≡ m
unfolding transaction_indexed
transaction_indexed-absent txid m h = rw (h, transaction_indexed)

lookup-absent :
    (txid other : Str) (txs : Dict Str Transaction)
    → lookup txid txs ≡ none
    → lookup other txs ≡ (if str_eq txid other then none else lookup other txs)
lookup-absent txid other txs e = elim (Bool-cases (str_eq txid other)) [
  | inl same ↦ rw same (rw (← str_eq→eq txid other same) e)
  | inr differ ↦ rw differ
]

-- After transactionIndexed, whether the transaction was known or not, it is not in the mempool and
-- every other one is what it was.
pub lookup-transaction_indexed :
    (txid other : Str) (m : Mempool)
    → lookup other (transaction_indexed txid m).mempool_transactions
      ≡ (if str_eq txid other then none else lookup other m.mempool_transactions)
lookup-transaction_indexed txid other m = elim (Option-cases (lookup txid m.mempool_transactions)) [
  | inl e ↦
      ap (λ n. lookup other n.mempool_transactions) (transaction_indexed-absent txid m e)
      ∙ lookup-absent txid other m.mempool_transactions e
  | inr (tx, e) ↦
      ap (lookup other) (transactions-transaction_indexed txid m tx e)
      ∙ lookup-erase txid other m.mempool_transactions
]

str_ne : (a b : Str) → str_eq a b ≡ false → a ≢ b
str_ne a b e same = cc (e, ap (str_eq a) (sym same), str_eq_refl a)

-- None of the outputs that are left is of the transaction.
pub others-All :
    (txid : Str) (txos : List TransactionOutput)
    → All (λ (txo : TransactionOutput). txo.tx_hash ≢ txid) (others txid txos)
unfolding others
others-All txid [] = tt
others-All txid (txo ∷ txos) = elim (Bool-cases (str_eq txo.tx_hash txid)) [
  | inl e ↦ rw e (others-All txid txos)
  | inr e ↦ rw e (str_ne txo.tx_hash txid e, others-All txid txos)
]
