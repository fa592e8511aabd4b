-- ===== src/HttpServer/Sums.antt =====
-- The balance of an address: the sum of the outputs that the indexer stored and no block spends.
use blockchain_indexer.Base.{
  ℕ, ◌+◌, ◌^◌, ◌<◌, ◌≡◌, refl, ap, ◌∙◌, true, false, Bool, Bool-cases, Option-cases, inl, inr, List,
  [], ◌∷◌, ◌++◌, map, Str, All, leb, if◌then◌else◌, arith, none, some, pos, to_uint64, add_long,
  ltb, ◌-◌, ◌%◌, ok, not,
}
use blockchain_indexer.Base.Text.{text, str_eq, pad8, stoll-pad8, stoll-dec}
use blockchain_indexer.Types.{TransactionOutput}
use blockchain_indexer.Leveldb.{Leveldb, range}
use blockchain_indexer.MempoolMonitor.{Mempool, outpoint_spend, get_txos}
use blockchain_indexer.BlockIndexer.{spent_key}
use blockchain_indexer.HttpServer.{
  Balance, no_balance, count_txo, count_txos, count_value, count_unspent, count_spent, to_uint32,
  count_mempool, balance_of,
}
use blockchain_indexer.HttpServer.Entries.{
  Entry, entry_text, EntryFits, entry-hash, entry-index, entry-value,
}

module _ (ldb : Leveldb) (db : ldb.Db) (mempool : Mempool) where
  -- Whether a block spends the output, and whether a transaction of the mempool does.
  unfoldable pub is_spent : Entry → Bool
  is_spent e = elim (ldb.get db (spent_key e.tx_hash e.index)) [ none ↦ false | some _ ↦ true ]

  unfoldable pub is_claimed : Entry → Bool
  is_claimed e = not (str_eq (outpoint_spend mempool e.tx_hash e.index) [])

  key-spent :
      (e : Entry)
      → text "txo-" ++ (e.tx_hash ++ (text "-" ++ (pad8 e.index ++ text "-spent")))
        ≡ spent_key e.tx_hash e.index
  unfolding spent_key
  key-spent e = refl

  vout-small : (n : ℕ) → n < 10 ^ 8 → to_uint32 (pos n) ≡ n
  unfolding to_uint32
  vout-small n h = omega arith

  count_value-entry :
      (e : Entry) (b : Balance)
      → EntryFits e
      → count_value ldb db mempool (entry_text e) e.tx_hash (pad8 e.index) b
        ≡ ok (count_unspent ldb db mempool (pos e.value) e.tx_hash e.index b)
  unfolding count_value
  count_value-entry e b f =
      rw (entry-value e f, stoll-dec e.value f.value, stoll-pad8 e.index (omega (arith, f.index)))
        (rw (vout-small e.index f.index))

  -- What one entry adds.
  add_entry : Entry → Balance → Balance
  add_entry e b =
      if is_spent e
      then count_spent ldb db mempool b
      else count_unspent ldb db mempool (pos e.value) e.tx_hash e.index b

  pub not_spent : (e : Entry) → ldb.get db (spent_key e.tx_hash e.index) ≡ none → is_spent e ≡ false
  unfolding is_spent
  not_spent e n = rw (n, is_spent)

  pub spent_by :
      (e : Entry) {s : Str} → ldb.get db (spent_key e.tx_hash e.index) ≡ some s → is_spent e ≡ true
  unfolding is_spent
  spent_by e n = rw (n, is_spent)

  count_txo-entry :
      (e : Entry) (b : Balance)
      → EntryFits e
      → count_txo ldb db mempool (entry_text e) b ≡ ok (add_entry e b)
  unfolding count_txo add_entry
  count_txo-entry e b f = elim (Option-cases (ldb.get db (spent_key e.tx_hash e.index))) [
    | inl n ↦ rw (entry-hash e f) (
        rw (entry-index e f)
          (rw (key-spent e) (rw n (rw (not_spent e n) (count_value-entry e b f)))))
    | inr (s, n) ↦
        rw (entry-hash e f) (rw (entry-index e f) (rw (key-spent e) (rw n (rw (spent_by e n)))))
  ]

  -- The sums over the entries, each by itself.
  unfoldable pub unspent_sum : List Entry → ℕ
  unspent_sum [] = 0
  unspent_sum (e ∷ es) = (if is_spent e then 0 else e.value) + unspent_sum es

  unfoldable pub available_sum : List Entry → ℕ
  available_sum [] = 0
  available_sum (e ∷ es) =
      (if is_spent e then 0 else if is_claimed e then 0 else e.value) + available_sum es

  unfoldable pub transactions : List Entry → ℕ
  transactions [] = 0
  transactions (e ∷ es) = (if is_spent e then 2 else 1) + transactions es

  unfoldable pub claims : List Entry → ℕ
  claims [] = 0
  claims (e ∷ es) = (if is_spent e then 0 else if is_claimed e then 1 else 0) + claims es

  abbrev pub sums : ℕ → ℕ → ℕ → ℕ → Balance
  sums confirmed available txs claimed = record {
    balance = pos confirmed;
    unconfirmed_balance = pos available;
    tx_count = pos txs;
    unconfirmed_tx_count = pos claimed;
  }

  sums-eq :
      {a a' b b' c c' d d' : ℕ}
      → a ≡ a'
      → b ≡ b'
      → c ≡ c'
      → d ≡ d'
      → ok (sums a b c d) ≡ ok (sums a' b' c' d')
  sums-eq p q r s = rw (p, q, r, s)

  -- Sums of a `long long`.
  abbrev pub IsLong : ℕ → Type 0
  IsLong n = n < 2 ^ 63

  -- The sums fit into theirs.
  pub record SumsFit (a b c d : ℕ) : Type 0 where
    pub confirmed : IsLong a
    pub available : IsLong b
    pub txs : IsLong c
    pub claimed : IsLong d

  add-pos : (a v : ℕ) → a + v < 2 ^ 63 → add_long (pos a) (pos v) ≡ pos (a + v)
  unfolding add_long to_uint64
  add-pos a v h =
      let t : leb (0 + 0) (a + v) ≡ true = ground arith in
      let kept : (a + v - (0 + 0)) % 2 ^ 64 ≡ a + v = omega arith in
      let small : ltb (a + v) (2 ^ 63) ≡ true = ground arith in rw (t, kept, small) refl

  add-two : (a : ℕ) → a + 2 < 2 ^ 63 → add_long (add_long (pos a) (pos 1)) (pos 1) ≡ pos (a + 2)
  add-two a h =
      rw (add-pos a 1 (omega arith), add-pos (a + 1) 1 (omega arith)) (ap pos (omega arith))

  sums-spent :
      (a b c d : ℕ)
      → c + 2 < 2 ^ 63
      → count_spent ldb db mempool (sums a b c d) ≡ sums a b (c + 2) d
  unfolding count_spent
  sums-spent a b c d h = rw (add-two c h) refl

  sums-claimed :
      (e : Entry) (a b c d : ℕ)
      → is_claimed e ≡ true
      → a + e.value < 2 ^ 63
      → c + 1 < 2 ^ 63
      → d + 1 < 2 ^ 63
      → count_unspent ldb db mempool (pos e.value) e.tx_hash e.index (sums a b c d)
        ≡ sums (a + e.value) b (c + 1) (d + 1)
  unfolding count_unspent is_claimed
  sums-claimed e a b c d k ha hc hd =
      let t : str_eq (outpoint_spend mempool e.tx_hash e.index) [] ≡ false = ground arith in
      rw t (rw (add-pos a e.value ha, add-pos c 1 hc, add-pos d 1 hd))

  sums-free :
      (e : Entry) (a b c d : ℕ)
      → is_claimed e ≡ false
      → a + e.value < 2 ^ 63
      → b + e.value < 2 ^ 63
      → c + 1 < 2 ^ 63
      → count_unspent ldb db mempool (pos e.value) e.tx_hash e.index (sums a b c d)
        ≡ sums (a + e.value) (b + e.value) (c + 1) d
  unfolding count_unspent is_claimed
  sums-free e a b c d k ha hb hc =
      let t : str_eq (outpoint_spend mempool e.tx_hash e.index) [] ≡ true = ground arith in
      rw t (rw (add-pos a e.value ha, add-pos b e.value hb, add-pos c 1 hc))

  -- What is left to add keeps fitting.
  abbrev Rest : List Entry → ℕ → ℕ → ℕ → ℕ → Type 0
  Rest es a b c d =
      SumsFit (a + unspent_sum es) (b + available_sum es) (c + transactions es) (d + claims es)

  spent-fits :
      (e : Entry) (es : List Entry) (a b c d : ℕ)
      → is_spent e ≡ true
      → Rest (e ∷ es) a b c d
      → Rest es a b (c + 2) d
  unfolding unspent_sum available_sum transactions claims
  spent-fits e es a b c d s fits = record {
    confirmed = let h = fits.confirmed in ground arith;
    available = let h = fits.available in ground arith;
    txs = let h = fits.txs in ground arith;
    claimed = let h = fits.claimed in ground arith;
  }

  claimed-fits :
      (e : Entry) (es : List Entry) (a b c d : ℕ)
      → is_spent e ≡ false
      → is_claimed e ≡ true
      → Rest (e ∷ es) a b c d
      → Rest es (a + e.value) b (c + 1) (d + 1)
  unfolding unspent_sum available_sum transactions claims
  claimed-fits e es a b c d s k fits = record {
    confirmed = let h = fits.confirmed in ground arith;
    available = let h = fits.available in ground arith;
    txs = let h = fits.txs in ground arith;
    claimed = let h = fits.claimed in ground arith;
  }

  free-fits :
      (e : Entry) (es : List Entry) (a b c d : ℕ)
      → is_spent e ≡ false
      → is_claimed e ≡ false
      → Rest (e ∷ es) a b c d
      → Rest es (a + e.value) (b + e.value) (c + 1) d
  unfolding unspent_sum available_sum transactions claims
  free-fits e es a b c d s k fits = record {
    confirmed = let h = fits.confirmed in ground arith;
    available = let h = fits.available in ground arith;
    txs = let h = fits.txs in ground arith;
    claimed = let h = fits.claimed in ground arith;
  }

  count_txos-from :
      (es : List Entry) (a b c d : ℕ)
      → All EntryFits es
      → SumsFit (a + unspent_sum es) (b + available_sum es) (c + transactions es) (d + claims es)
      → count_txos ldb db mempool (map entry_text es) (sums a b c d)
        ≡ ok
            (sums (a + unspent_sum es) (b + available_sum es) (c + transactions es) (d + claims es))
  unfolding count_txos unspent_sum available_sum transactions claims add_entry
  count_txos-from [] a b c d f fits =
      sums-eq (omega arith) (omega arith) (omega arith) (omega arith)
  count_txos-from (e ∷ es) a b c d f fits = elim (Bool-cases (is_spent e)) [
    | inl s ↦ rw (count_txo-entry e (sums a b c d) f.0) (
        rw s (
          rw (sums-spent a b c d (let h = fits.txs in ground arith)) (
            count_txos-from es a b (c + 2) d f.1 (spent-fits e es a b c d s fits)
            ∙ sums-eq (omega arith) (omega arith) (omega arith) (omega arith))))
    | inr s ↦ elim (Bool-cases (is_claimed e)) [
      | inl k ↦ rw (count_txo-entry e (sums a b c d) f.0) (
          rw (s, k)
            (rw
              (sums-claimed e a b c d k (let h = fits.confirmed in ground arith)
                (let h = fits.txs in ground arith) (let h = fits.claimed in ground arith))
              (count_txos-from es (a + e.value) b (c + 1) (d + 1) f.1
                  (claimed-fits e es a b c d s k fits)
                ∙ sums-eq (omega arith) (omega arith) (omega arith) (omega arith))))
      | inr k ↦ rw (count_txo-entry e (sums a b c d) f.0) (
          rw (s, k)
            (rw
              (sums-free e a b c d k (let h = fits.confirmed in ground arith)
                (let h = fits.available in ground arith) (let h = fits.txs in ground arith))
              (count_txos-from es (a + e.value) (b + e.value) (c + 1) d f.1
                  (free-fits e es a b c d s k fits)
                ∙ sums-eq (omega arith) (omega arith) (omega arith) (omega arith))))
    ]
  ]

  count_txos-entries :
      (es : List Entry)
      → All EntryFits es
      → SumsFit (unspent_sum es) (available_sum es) (transactions es) (claims es)
      → count_txos ldb db mempool (map entry_text es) (no_balance ldb db mempool)
        ≡ ok (sums (unspent_sum es) (available_sum es) (transactions es) (claims es))
  count_txos-entries es f fits =
      count_txos-from es 0 0 0 0 f (record {
        confirmed = let h = fits.confirmed in omega (arith, h);
        available = let h = fits.available in omega (arith, h);
        txs = let h = fits.txs in omega (arith, h);
        claimed = let h = fits.claimed in omega (arith, h);
      })
      ∙ sums-eq (omega arith) (omega arith) (omega arith) (omega arith)

  -- The outputs of the mempool: those that no transaction of it spends, and the transactions.
  unfoldable pub waiting_sum : List TransactionOutput → ℕ
  waiting_sum [] = 0
  waiting_sum (txo ∷ txos) =
      (if str_eq (outpoint_spend mempool txo.tx_hash txo.index) [] then txo.value else 0)
      + waiting_sum txos

  unfoldable pub waiting_transactions : List TransactionOutput → ℕ
  waiting_transactions [] = 0
  waiting_transactions (txo ∷ txos) =
      (if str_eq (outpoint_spend mempool txo.tx_hash txo.index) [] then 1 else 2)
      + waiting_transactions txos

  count_mempool-sums :
      (txos : List TransactionOutput) (a b c d : ℕ)
      → IsLong (b + waiting_sum txos)
      → IsLong (d + waiting_transactions txos)
      → ok (count_mempool ldb db mempool txos (sums a b c d))
        ≡ ok (sums a (b + waiting_sum txos) c (d + waiting_transactions txos))
  unfolding count_mempool waiting_sum waiting_transactions
  count_mempool-sums [] a b c d hb hd = sums-eq refl (omega arith) refl (omega arith)
  count_mempool-sums (txo ∷ txos) a b c d hb hd =
      elim (Bool-cases (str_eq (outpoint_spend mempool txo.tx_hash txo.index) [])) [
        | inl e ↦ rw e (
            rw (add-pos b txo.value (ground arith), add-pos d 1 (ground arith))
              (count_mempool-sums txos a (b + txo.value) c (d + 1) (ground arith) (ground arith)
                ∙ sums-eq refl (omega arith) refl (omega arith)))
        | inr e ↦ rw e (
            rw (add-two d (ground arith)) (
              count_mempool-sums txos a b c (d + 2) (ground arith) (ground arith)
              ∙ sums-eq refl (omega arith) refl (omega arith)))
      ]

  -- Where the entries of an address are as the indexer writes them, with hashes of 64 characters
  -- and numbers in range, and the four totals are below 2 ^ 63, the balance is the sum of the
  -- values that no block spends. The unconfirmed balance is the sum of those that no transaction of
  -- the mempool spends either, and of the outputs in the mempool that none spends. A spent entry
  -- counts as two transactions, an unspent one as one; spends and outputs in the mempool count as
  -- unconfirmed transactions.
  pub balance_of-entries :
      (address : Str) (es : List Entry)
      → All EntryFits es
      → map
          (λ e. e.1)
          (range ldb db (address ++ text "-txo-00000001") (address ++ text "-txo-99999999"))
        ≡ map entry_text es
      → SumsFit
          (unspent_sum es)
          (available_sum es + waiting_sum (get_txos mempool address))
          (transactions es)
          (claims es + waiting_transactions (get_txos mempool address))
      → balance_of ldb db mempool address
        ≡ ok (
            sums
              (unspent_sum es)
              (available_sum es + waiting_sum (get_txos mempool address))
              (transactions es)
              (claims es + waiting_transactions (get_txos mempool address)))
  unfolding balance_of
  balance_of-entries address es f stored fits =
      let available = fits.available in
      let claimed = fits.claimed in
      rw stored (
        rw
          (count_txos-entries es f (record {
            confirmed = fits.confirmed;
            available = omega (arith, available);
            txs = fits.txs;
            claimed = omega (arith, claimed);
          }))
          (count_mempool-sums (get_txos mempool address) (unspent_sum es) (available_sum es)
            (transactions es) (claims es) available claimed))
