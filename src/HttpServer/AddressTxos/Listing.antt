-- ===== src/HttpServer/AddressTxos/Listing.antt =====
-- The unspent outputs that addressTxos lists, and the balance of addressBalance.
use blockchain_indexer.Base.{
  ℕ, ◌+◌, ◌^◌, ◌<◌, ◌≡◌, refl, ap, ◌∙◌, true, Bool-cases, Option-cases, inl, inr, List, [], ◌∷◌,
  ◌++◌, Str, All, if◌then◌else◌, arith, none, some, ℤ, pos, ◌+ℤ◌, leb, ok, map,
}
use blockchain_indexer.Base.Text.{text, pad8, dec, dec_ℤ, stoll-pad8, stoll-dec}
use blockchain_indexer.Leveldb.{Leveldb, range}
use blockchain_indexer.MempoolMonitor.{Mempool, get_txos}
use blockchain_indexer.BlockIndexer.{spent_key}
use blockchain_indexer.HttpServer.{Balance, balance_of}
use blockchain_indexer.HttpServer.Entries.{
  Entry, entry_text, EntryFits, entry-hash, entry-index, entry-height, entry-value,
}
use blockchain_indexer.HttpServer.Sums.{
  is_spent, not_spent, spent_by, unspent_sum, available_sum, transactions, claims, waiting_sum,
  waiting_transactions, SumsFit, balance_of-entries,
}
use blockchain_indexer.HttpServer.Daemon.{given, Daemon}
use blockchain_indexer.HttpServer.AddressTxos.{
  TxosQuery, TxoItem, is_since, find_spender, raw_member, script_member, spender_member,
  finish_item, make_item, block_time_of, step_of, list_txo, list_txos, push_item, confirmed_txos,
  listed, left_out, nobody,
}

-- All outputs that no block spends, with their values.
abbrev pub unspent_query : TxosQuery
unspent_query = record {
  since_block = pos 0;
  tx_hash_only = pos 0;
  raw = pos 0;
  unspent = pos 1;
  unconfirmed = pos 0;
  scripts = pos 0;
}

-- The item of an entry that nothing spends, in a block of that time.
abbrev pub item_of : Entry → ℕ → TxoItem
item_of e block_time = record {
  height = pos e.height;
  time = pos block_time;
  spender = none;
  tx = none;
  script = none;
  tx_hash = some e.tx_hash;
  vout = some (pos e.index);
  value = some (pos e.value);
}

-- The sum of the values of the items.
unfoldable pub value_sum : List TxoItem → ℤ
value_sum [] = pos 0
value_sum (item ∷ items) = elim item.value [ none ↦ pos 0 | some v ↦ v ] +ℤ value_sum items

add-pos : (a b : ℕ) → pos a +ℤ pos b ≡ pos (a + b)
add-pos a b = let t : leb (0 + 0) (a + b) ≡ true = ground arith in rw t (ap pos (omega arith))

module _ (ldb : Leveldb) (db : ldb.Db) (mempool : Mempool) (daemon : Daemon) (times : ℕ → ℕ) where
  -- The index has the time of the block of the entry.
  abbrev pub IsTimed : Entry → Type 0
  IsTimed e =
      (ldb.get db (text "block-time-" ++ pad8 e.height) ≡ some (dec (times e.height)))
      × (times e.height < 2 ^ 63)

  timed :
      (e : Entry)
      → IsTimed e
      → block_time_of ldb db mempool daemon (pos e.height) ≡ ok (pos (times e.height))
  unfolding block_time_of dec_ℤ pad8
  timed e (stored, small) = rw (stored, block_time_of) (stoll-dec (times e.height) small)

  since-zero : (h t : ℕ) → is_since (pos 0) (pos h) (pos t) ≡ true
  unfolding is_since
  since-zero h t = ground arith

  make_item-entry :
      (e : Entry) (t : ℕ)
      → EntryFits e
      → make_item ldb db mempool daemon unspent_query
          (entry_text e)
          e.tx_hash
          (pad8 e.index)
          (pos e.height)
          (pos t)
          nobody
        ≡ ok (listed (item_of e t))
  unfolding make_item raw_member script_member spender_member finish_item
  make_item-entry e t f =
      rw (entry-value e f, stoll-dec e.value f.value, stoll-pad8 e.index (omega (arith, f.index)))
        refl

  -- What an entry gives.
  step-unspent :
      (e : Entry)
      → EntryFits e
      → IsTimed e
      → ldb.get db (spent_key e.tx_hash e.index) ≡ none
      → list_txo ldb db mempool daemon unspent_query (entry_text e)
        ≡ ok (listed (item_of e (times e.height)))
  unfolding list_txo spent_key find_spender step_of
  step-unspent e f t n = rw (entry-hash e f) (
      rw (entry-index e f) (
        rw (entry-height e f, stoll-pad8 e.height (omega (arith, f.height)), timed e t)
          (rw (since-zero e.height (times e.height), n) (make_item-entry e (times e.height) f))))

  step-spent :
      (e : Entry) (s : Str)
      → EntryFits e
      → IsTimed e
      → ldb.get db (spent_key e.tx_hash e.index) ≡ some s
      → list_txo ldb db mempool daemon unspent_query (entry_text e) ≡ ok left_out
  unfolding list_txo spent_key find_spender step_of
  step-spent e s f t n = rw (entry-hash e f) (
      rw (entry-index e f) (
        rw (entry-height e f, stoll-pad8 e.height (omega (arith, f.height)), timed e t)
          (rw (since-zero e.height (times e.height), n) refl)))

  -- The entries that no block spends, as they are listed.
  unfoldable pub unspent_items : List Entry → List TxoItem
  unspent_items [] = []
  unspent_items (e ∷ es) =
      let rest = unspent_items es in
      if is_spent ldb db mempool e then rest else item_of e (times e.height) ∷ rest

  list_txos-entries :
      (es : List Entry)
      → All EntryFits es
      → All IsTimed es
      → list_txos ldb db mempool daemon unspent_query (map entry_text es)
        ≡ ok (given (unspent_items es))
  unfolding list_txos unspent_items push_item
  list_txos-entries [] f t = refl
  list_txos-entries (e ∷ es) f t = elim (Option-cases (ldb.get db (spent_key e.tx_hash e.index))) [
    | inl n ↦
        rw (step-unspent e f.0 t.0 n, list_txos-entries es f.1 t.1)
          (rw (not_spent ldb db mempool e n) refl)
    | inr (s, n) ↦
        rw (step-spent e s f.0 t.0 n, list_txos-entries es f.1 t.1)
          (rw (spent_by ldb db mempool e n) refl)
  ]

  -- Where the entries of an address are as the indexer writes them, with hashes of 64 characters
  -- and numbers in range, and the times of their blocks are stored, addressTxos lists, when it is
  -- asked for the unspent outputs, without the mempool, without scripts and raw transactions, and
  -- from block 0 on, just the entries that no block spends, in their order, each with its height,
  -- time, hash, number and value and no spender.
  pub confirmed_txos-entries :
      (address : Str) (es : List Entry)
      → All EntryFits es
      → All IsTimed es
      → map
          (λ e. e.1)
          (range ldb db (address ++ text "-txo-00000001") (address ++ text "-txo-99999999"))
        ≡ map entry_text es
      → confirmed_txos ldb db mempool daemon unspent_query address ≡ ok (given (unspent_items es))
  unfolding confirmed_txos
  confirmed_txos-entries address es f t stored = rw stored (list_txos-entries es f t)

  value_sum-unspent_items :
      (es : List Entry) → value_sum (unspent_items es) ≡ pos (unspent_sum ldb db mempool es)
  unfolding value_sum unspent_items unspent_sum
  value_sum-unspent_items [] = refl
  value_sum-unspent_items (e ∷ es) = elim (Bool-cases (is_spent ldb db mempool e)) [
    | inl s ↦ rw s (value_sum-unspent_items es ∙ ap pos (omega arith))
    | inr s ↦ rw s (rw (value_sum-unspent_items es) (add-pos e.value _))
  ]

  -- Where the entries of an address are as the indexer writes them, with hashes of 64 characters
  -- and numbers in range, the times of their blocks are stored, and the four totals of
  -- addressBalance are below 2 ^ 63, both handlers get through: the values of the outputs that
  -- addressTxos lists when it is asked for the unspent ones, without the mempool, without scripts
  -- and raw transactions, and from block 0 on, add up to the balance that addressBalance computes.
  pub balance_of-confirmed_txos :
      (address : Str) (es : List Entry)
      → All EntryFits es
      → All IsTimed es
      → map
          (λ e. e.1)
          (range ldb db (address ++ text "-txo-00000001") (address ++ text "-txo-99999999"))
        ≡ map entry_text es
      → SumsFit ldb db mempool
          (unspent_sum ldb db mempool es)
          (available_sum ldb db mempool es + waiting_sum ldb db mempool (get_txos mempool address))
          (transactions ldb db mempool es)
          (claims ldb db mempool es
            + waiting_transactions ldb db mempool (get_txos mempool address))
      → (items : List TxoItem) × (b : Balance) × (confirmed_txos ldb db mempool daemon unspent_query
            address
          ≡ ok (given items))
        × (balance_of ldb db mempool address ≡ ok b)
        × (value_sum items ≡ b.balance)
  balance_of-confirmed_txos address es f t stored fits = (
    unspent_items es,
    _,
    confirmed_txos-entries address es f t stored,
    balance_of-entries ldb db mempool address es f stored fits,
    value_sum-unspent_items es,
  )
