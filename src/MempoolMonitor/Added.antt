-- ===== src/MempoolMonitor/Added.antt =====
-- What a round of startWatcher adds to the transactions of the mempool.
use blockchain_indexer.Base.{
  ◌≡◌, refl, sym, ap, ◌∙◌, inl, inr, Bool, Bool-cases, Option-cases, ◌||◌, List, [], ◌∷◌, Bytes,
  Str, any, All, if◌then◌else◌, Option, none, some, Result, ok, ◌>>=◌, >>=-eq-ok,
}
use blockchain_indexer.Base.Text.{str_eq, str_eq→eq}
use blockchain_indexer.Types.{Transaction}
use blockchain_indexer.Dict.{Dict, lookup, insert, lookup-insert}
use blockchain_indexer.Dict.Keys.{str_key}
use blockchain_indexer.Stream.{open_stream}
use blockchain_indexer.External.{Crypto, CoinParams, Indeterminate}
use blockchain_indexer.Utility.{hex_to_bytes}
use blockchain_indexer.BlockReader.{read_transaction}
use blockchain_indexer.MempoolMonitor.{
  Mempool, Vertcoind, add_outputs, add_transaction, add_missing, watch_round,
}

module _ (crypto : Crypto) (junk : Indeterminate) where
  -- The transaction that a text of the daemon stands for.
  abbrev pub read_text : Str → Transaction
  read_text raw_tx = (read_transaction crypto junk (open_stream (hex_to_bytes raw_tx))).0

  abbrev pub read_or_none : Option Str → Option Transaction
  read_or_none none = none
  read_or_none (some raw_tx) = some (read_text raw_tx)

  -- A known transaction stays what it is. An unknown one is what the daemon has, if it is listed.
  abbrev pub known_or_listed : Option Transaction → Bool → Option Str → Option Transaction
  known_or_listed (some tx) listed raw = some tx
  known_or_listed none listed raw = if listed then read_or_none raw else none

module _ (crypto : Crypto) (params : CoinParams) (junk : Indeterminate) (daemon : Vertcoind) where
  abbrev pub AllGiven : List Str → Type 0
  AllGiven txids =
      All (λ txid. (raw_tx : Str) × (daemon.get_raw_transaction txid ≡ some raw_tx)) txids

  add_transaction-known :
      (txid : Str) (raw : Bytes) (m m' : Mempool)
      → add_transaction crypto params junk daemon txid raw m ≡ ok m'
      → m'.mempool_transactions
        ≡ insert txid (read_transaction crypto junk (open_stream raw)).0 m.mempool_transactions
  unfolding add_transaction
  add_transaction-known txid raw m m' h =
      let (added, outputs, e) =
        >>=-eq-ok (add_outputs crypto params junk daemon _ _ m.address_mempool_transactions) _ h in
      cc

  listed_at : Str → List Str → Bool
  listed_at id txids = any (λ txid. str_eq txid id) txids

  -- The rest of the list, after one of its transactions was there already.
  known-skip :
      (txid id : Str) (txs : Dict Str Transaction) (tx : Transaction) (rest : Bool)
      → lookup txid txs ≡ some tx
      → known_or_listed crypto junk (lookup id txs) rest (daemon.get_raw_transaction id)
        ≡ known_or_listed crypto junk
            (lookup id txs)
            (str_eq txid id || rest)
            (daemon.get_raw_transaction id)
  known-skip txid id txs tx rest e = elim (Bool-cases (str_eq txid id)) [
    | inl same ↦
        let there : lookup id txs ≡ some tx = rw (← str_eq→eq txid id same) e in rw there refl
    | inr differ ↦ rw differ refl
  ]

  -- And after one was added.
  known-insert :
      (txid id raw_tx : Str) (txs : Dict Str Transaction) (rest : Bool)
      → lookup txid txs ≡ none
      → daemon.get_raw_transaction txid ≡ some raw_tx
      → known_or_listed crypto junk
          (lookup id (insert txid (read_text crypto junk raw_tx) txs))
          rest
          (daemon.get_raw_transaction id)
        ≡ known_or_listed crypto junk
            (lookup id txs)
            (str_eq txid id || rest)
            (daemon.get_raw_transaction id)
  known-insert txid id raw_tx txs rest absent given = elim (Bool-cases (str_eq txid id)) [
    | inl same ↦
        let e = str_eq→eq txid id same in
        let none_there : lookup id txs ≡ none = rw (← e) absent in
        let raw_there : daemon.get_raw_transaction id ≡ some raw_tx = rw (← e) given in
        rw (lookup-insert txid id (read_text crypto junk raw_tx) txs, same, none_there, raw_there)
          refl
    | inr differ ↦ rw (lookup-insert txid id (read_text crypto junk raw_tx) txs, differ) refl
  ]

  pub add_missing-known :
      (txid : Str) (txids : List Str) (m : Mempool) (tx : Transaction)
      → lookup txid m.mempool_transactions ≡ some tx
      → add_missing crypto params junk daemon (txid ∷ txids) m
        ≡ add_missing crypto params junk daemon txids m
  unfolding add_missing
  add_missing-known txid txids m tx e = rw (add_missing, e) refl

  pub add_missing-unknown :
      (txid : Str) (txids : List Str) (m : Mempool) (raw_tx : Str)
      → lookup txid m.mempool_transactions ≡ none
      → daemon.get_raw_transaction txid ≡ some raw_tx
      → add_missing crypto params junk daemon (txid ∷ txids) m ≡ (
          add_transaction crypto params junk daemon txid (hex_to_bytes raw_tx) m
          >>= add_missing crypto params junk daemon txids)
  unfolding add_missing
  add_missing-unknown txid txids m raw_tx e raw = rw (add_missing, e, raw) refl

  pub watch_round-listed :
      (txids : List Str) (m : Mempool)
      → daemon.get_raw_mempool ≡ some txids
      → watch_round crypto params junk daemon m ≡ add_missing crypto params junk daemon txids m
  unfolding watch_round
  watch_round-listed txids m l =
      ap
        (λ o. elim o as (λ _. Result Mempool) [
          | none ↦ ok m
          | some txids ↦ add_missing crypto params junk daemon txids m
        ])
        l

  add_missing-lookup :
      (txids : List Str) (m m' : Mempool) (id : Str)
      → AllGiven txids
      → add_missing crypto params junk daemon txids m ≡ ok m'
      → lookup id m'.mempool_transactions
        ≡ known_or_listed crypto junk
            (lookup id m.mempool_transactions)
            (listed_at id txids)
            (daemon.get_raw_transaction id)
  unfolding add_missing listed_at
  add_missing-lookup [] m m' id g h = elim (Option-cases (lookup id m.mempool_transactions)) [
    | inl e ↦ let same : m ≡ m' = cc in rw (← same, e) refl
    | inr (tx, e) ↦ let same : m ≡ m' = cc in rw (← same, e) refl
  ]
  add_missing-lookup (txid ∷ txids) m m' id ((raw_tx, raw), g) h =
      elim (Option-cases (lookup txid m.mempool_transactions)) [
        | inr (tx, e) ↦
            add_missing-lookup txids m m' id g (sym (add_missing-known txid txids m tx e) ∙ h)
            ∙ known-skip txid id m.mempool_transactions tx (listed_at id txids) e
        | inl e ↦
            let (m1, adds, others) =
              >>=-eq-ok (add_transaction crypto params junk daemon txid (hex_to_bytes raw_tx) m) _
                (sym (add_missing-unknown txid txids m raw_tx e raw) ∙ h) in
            let known = add_transaction-known txid (hex_to_bytes raw_tx) m m1 adds in
            add_missing-lookup txids m1 m' id g others
            ∙ ap
                (λ txs.
                  known_or_listed crypto junk (lookup id txs) (listed_at id txids)
                    (daemon.get_raw_transaction id))
                known
            ∙ known-insert txid id raw_tx m.mempool_transactions (listed_at id txids) e raw
      ]

  -- Where the daemon lists the transactions of its mempool and gives each of them, a round of
  -- startWatcher that returns leaves every known transaction as it was, has for every other one
  -- that is listed the transaction that readTransaction reads from the bytes of the text given, and
  -- knows no others.
  pub watch_round-lookup :
      (txids : List Str) (m m' : Mempool) (id : Str)
      → daemon.get_raw_mempool ≡ some txids
      → AllGiven txids
      → watch_round crypto params junk daemon m ≡ ok m'
      → lookup id m'.mempool_transactions
        ≡ known_or_listed crypto junk
            (lookup id m.mempool_transactions)
            (any (λ txid. str_eq txid id) txids)
            (daemon.get_raw_transaction id)
  unfolding listed_at
  watch_round-lookup txids m m' id l g h =
      add_missing-lookup txids m m' id g (sym (watch_round-listed txids m l) ∙ h)
