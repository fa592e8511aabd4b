-- ===== src/BlockFileWatcher/DoubleSpends/Filed.antt =====
-- The spends that the first loops gather: each is filed under an outpoint that it spends.
use blockchain_indexer.Base.{
  ℕ, ◌≡◌, refl, false, Bool-cases, Option-cases, inl, inr, List, [], ◌∷◌, ◌++◌, Str, All, All-at,
  get_elem?, ok, >>=-eq-ok, some,
}
use blockchain_indexer.Base.Text.{str_eq, str_eq→eq, pad8}
use blockchain_indexer.Types.{TransactionInput, Transaction, Block, PotentialDoubleSpend}
use blockchain_indexer.Dict.{lookup, insert}
use blockchain_indexer.Dict.Keys.{str_key}
use blockchain_indexer.BlockReader.{zero_hash}
use blockchain_indexer.BlockFileWatcher.DoubleSpends.{
  Spends, Gathered, add_spend, gather_inputs, gather_transaction, gather_transactions,
  gather_blocks, gather_chains, first_input,
}

-- One of the elements.
abbrev pub Among {ℓ} : {A : Type ℓ} → A → List A → Type ℓ
Among x xs = (i : ℕ) × (get_elem? xs i ≡ some x)

-- An input with this outpoint, which is no coinbase's: its hash, and its number in eight digits.
pub record IsInputOf (outpoint : Str) (txi : TransactionInput) : Type 0 where
  pub not_coinbase : str_eq txi.tx_hash zero_hash ≡ false
  pub named : outpoint ≡ txi.tx_hash ++ pad8 txi.txo_index

-- A transaction of the block, with an input that spends the outpoint.
pub record IsSpend (outpoint : Str) (spend : PotentialDoubleSpend) : Type 0 where
  pub in_block : Among spend.tx spend.block.transactions
  pub spends : (txi : TransactionInput) × Among txi spend.tx.inputs × IsInputOf outpoint txi

-- Every spend spends the outpoint that it is filed under.
abbrev pub Filed : Spends → Type 0
Filed spends = All (λ (e : Str × List PotentialDoubleSpend). All (IsSpend e.0) e.1) spends

All-snoc :
    (P : PotentialDoubleSpend → Type 0) (xs : List PotentialDoubleSpend) (x : PotentialDoubleSpend)
    → All P xs
    → P x
    → All P (xs ++ x ∷ [])
All-snoc P [] x a p = (p, tt)
All-snoc P (y ∷ xs) x a p = (a.0, All-snoc P xs x a.1 p)

Filed-insert :
    (outpoint : Str) (known : List PotentialDoubleSpend) (spends : Spends)
    → All (IsSpend outpoint) known
    → Filed spends
    → Filed (insert outpoint known spends)
unfolding insert
Filed-insert outpoint known [] a f = (a, tt)
Filed-insert outpoint known ((other, old) ∷ spends) a f =
    elim (Bool-cases (str_eq other outpoint)) [
      | inl e ↦ rw e (rw (str_eq→eq other outpoint e) a, f.1)
      | inr e ↦ rw e (f.0, Filed-insert outpoint known spends a f.1)
    ]

Filed-lookup :
    (outpoint : Str) (known : List PotentialDoubleSpend) (spends : Spends)
    → Filed spends
    → lookup outpoint spends ≡ some known
    → All (IsSpend outpoint) known
unfolding lookup
Filed-lookup outpoint known [] f l = cc l
Filed-lookup outpoint known ((other, old) ∷ spends) f l =
    elim (Bool-cases (str_eq other outpoint)) [
      | inl e ↦
          let same : old ≡ known = cc (rw e at l) in rw (← same, ← str_eq→eq other outpoint e) f.0
      | inr e ↦ Filed-lookup outpoint known spends f.1 (rw e at l)
    ]

add_spend-Filed :
    (outpoint : Str) (spend : PotentialDoubleSpend) (spends : Spends)
    → IsSpend outpoint spend
    → Filed spends
    → Filed (add_spend outpoint spend spends)
unfolding add_spend
add_spend-Filed outpoint spend spends s f = elim (Option-cases (lookup outpoint spends)) [
  | inl e ↦ rw (e, add_spend) (Filed-insert outpoint _ spends (s, tt) f)
  | inr (known, e) ↦
      rw (e, add_spend)
        (Filed-insert outpoint _ spends
          (All-snoc _ known spend (Filed-lookup outpoint known spends f e) s) f)
]

module _ (block : Block) (tx : Transaction) (stands : Among tx block.transactions) where
  gather_inputs-Filed :
      (inputs : List TransactionInput) (spends : Spends)
      → All (λ txi. Among txi tx.inputs) inputs
      → Filed spends
      → Filed (gather_inputs block tx inputs spends)
  unfolding gather_inputs
  gather_inputs-Filed [] spends a f = f
  gather_inputs-Filed (txi ∷ inputs) spends a f = elim (Bool-cases (str_eq txi.tx_hash zero_hash)) [
    | inl e ↦ rw e (gather_inputs-Filed inputs spends a.1 f)
    | inr e ↦
        let spent : IsSpend (txi.tx_hash ++ pad8 txi.txo_index)
            (record { tx = tx; block = block }) =
          record {
            in_block = stands;
            spends = (txi, a.0, record { not_coinbase = e; named = refl });
          } in
        rw e (gather_inputs-Filed inputs _ a.1 (add_spend-Filed _ _ spends spent f))
  ]

  gather_transaction-Filed :
      (g g' : Gathered) → gather_transaction block tx g ≡ ok g' → Filed g.spends → Filed g'.spends
  unfolding gather_transaction
  gather_transaction-Filed g g' h f =
      let (first, _, e) = >>=-eq-ok (first_input tx) _ h in
      let same : gather_inputs block tx tx.inputs g.spends ≡ g'.spends = cc e in
      rw (← same)
        (gather_inputs-Filed tx.inputs g.spends (All-at _ tx.inputs (λ i txi at. (i, at))) f)

gather_transactions-Filed :
    (block : Block) (txs : List Transaction) (g g' : Gathered)
    → All (λ tx. Among tx block.transactions) txs
    → gather_transactions block txs g ≡ ok g'
    → Filed g.spends
    → Filed g'.spends
unfolding gather_transactions
gather_transactions-Filed block [] g g' a h f = let same : g ≡ g' = cc h in rw (← same) f
gather_transactions-Filed block (tx ∷ txs) g g' a h f =
    let (g1, e, rest) = >>=-eq-ok (gather_transaction block tx g) _ h in
    gather_transactions-Filed block txs g1 g' a.1 rest
      (gather_transaction-Filed block tx a.0 g g1 e f)

gather_blocks-Filed :
    (blocks : List Block) (g g' : Gathered)
    → gather_blocks blocks g ≡ ok g'
    → Filed g.spends
    → Filed g'.spends
unfolding gather_blocks
gather_blocks-Filed [] g g' h f = let same : g ≡ g' = cc h in rw (← same) f
gather_blocks-Filed (block ∷ blocks) g g' h f =
    let (g1, e, rest) = >>=-eq-ok (gather_transactions block block.transactions g) _ h in
    gather_blocks-Filed blocks g1 g' rest (
      gather_transactions-Filed block block.transactions g g1
        (All-at _ block.transactions (λ i tx at. (i, at))) e f)

pub gather_chains-Filed :
    (chains : List (List Block)) (g g' : Gathered)
    → gather_chains chains g ≡ ok g'
    → Filed g.spends
    → Filed g'.spends
unfolding gather_chains
gather_chains-Filed [] g g' h f = let same : g ≡ g' = cc h in rw (← same) f
gather_chains-Filed (blocks ∷ chains) g g' h f =
    let (g1, e, rest) = >>=-eq-ok (gather_blocks blocks g) _ h in
    gather_chains-Filed chains g1 g' rest (gather_blocks-Filed blocks g g1 e f)
