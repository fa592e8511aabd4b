-- ===== src/BlockIndexer/Highest.antt =====
-- The entry "highestblock".
use blockchain_indexer.Base.{
  ℕ, ◌≡◌, ◌≤◌, ◌<◌, ◌^◌, sym, ◌∙◌, Bool-cases, Option-cases, inl, inr, arith, ltb, if◌then◌else◌,
  Str, ◌⊎◌, Option, none, some, ok, >>=-eq-ok,
}
use blockchain_indexer.Base.Text.{text, str_eq_refl, pad8, stoull, stoull-pad8}
use blockchain_indexer.Leveldb.{Leveldb, Laws}
use blockchain_indexer.BlockIndexer.{Indexer, raise_highest}

-- The entry holds a height from `height` on.
abbrev pub Reaches : ℕ → Option Str → Type 0
Reaches height entry = (s : Str) × (n : ℕ) × (entry ≡ some s) × (stoull s ≡ ok n) × (height ≤ n)

module _ (ldb : Leveldb) (laws : Laws ldb) where
  put-Reaches :
      (height : ℕ) (db : ldb.Db)
      → height < 2 ^ 64
      → Reaches height
          (ldb.get (ldb.put_one db (text "highestblock") (pad8 height)) (text "highestblock"))
  put-Reaches height db h = (
    pad8 height,
    height,
    laws.get-put_one db (text "highestblock") (pad8 height) (text "highestblock")
        ∙ rw (str_eq_refl (text "highestblock")),
    stoull-pad8 height h,
    omega arith,
  )

  weaken : (k height : ℕ) (entry : Option Str) → k ≤ height → Reaches height entry → Reaches k entry
  weaken k height entry le (s, n, e, r, b) = (s, n, e, r, omega arith)

  pub raise-none :
      (height : ℕ) (ix : Indexer ldb)
      → ldb.get ix.db (text "highestblock") ≡ none
      → raise_highest ldb height ix
        ≡ ok (record ix { db = ldb.put_one ix.db (text "highestblock") (pad8 height) })
  unfolding raise_highest
  raise-none height ix e = rw (e, raise_highest)

  pub raise-some :
      (height n : ℕ) (ix : Indexer ldb) (s : Str)
      → ldb.get ix.db (text "highestblock") ≡ some s
      → stoull s ≡ ok n
      → raise_highest ldb height ix
        ≡ ok (
            if ltb n height
            then record ix { db = ldb.put_one ix.db (text "highestblock") (pad8 height) }
            else ix)
  unfolding raise_highest
  raise-some height n ix s e r = rw (e, raise_highest, r)

  old-value :
      (k n : ℕ) (entry : Option Str) (s : Str)
      → entry ≡ some s
      → stoull s ≡ ok n
      → Reaches k entry
      → k ≤ n
  old-value k n entry s e r (s', n', e', r', b) =
      let same_text : s ≡ s' = cc (e, e') in
      let same : n ≡ n' = cc (same_text, r, r') in omega arith

  by_value :
      (k height n : ℕ) (ix : Indexer ldb) (s : Str)
      → height < 2 ^ 64
      → ldb.get ix.db (text "highestblock") ≡ some s
      → stoull s ≡ ok n
      → (k ≤ height) ⊎ (k ≤ n)
      → Reaches k (
          ldb.get
            (if ltb n height
              then record ix { db = ldb.put_one ix.db (text "highestblock") (pad8 height) }
              else ix).db
            (text "highestblock"))
  by_value k height n ix s b e r le = elim (Bool-cases (ltb n height)) [
    | inl t ↦ rw t (weaken k height _ (ground arith) (put-Reaches height ix.db b))
    | inr t ↦ rw t (s, n, e, r, ground arith)
  ]

  ok-inj : {x y : Indexer ldb} → ok x ≡ ok y → x ≡ y
  ok-inj h = cc h

  read_number :
      (height : ℕ) (ix ix' : Indexer ldb) (s : Str)
      → ldb.get ix.db (text "highestblock") ≡ some s
      → raise_highest ldb height ix ≡ ok ix'
      → (n : ℕ) × (stoull s ≡ ok n)
  unfolding raise_highest
  read_number height ix ix' s e h =
      let (n, r, _) = >>=-eq-ok (stoull s) _ (rw (e, raise_highest) at h) in (n, r)

  -- Where LevelDB keeps its promises, the entry for the highest block, once it was raised without a
  -- fault to a height of 64 bits, is at least that height and at least what it was before.
  pub raise_highest-Reaches :
      (k height : ℕ) (ix ix' : Indexer ldb)
      → height < 2 ^ 64
      → (k ≤ height) ⊎ Reaches k (ldb.get ix.db (text "highestblock"))
      → raise_highest ldb height ix ≡ ok ix'
      → Reaches k (ldb.get ix'.db (text "highestblock"))
  raise_highest-Reaches k height ix ix' b le h =
      elim (Option-cases (ldb.get ix.db (text "highestblock"))) [
        | inl e ↦
            let same : record ix { db = ldb.put_one ix.db (text "highestblock") (pad8 height) }
                ≡ ix' =
              cc (raise-none height ix e, h) in
            rw (← same) (weaken k height _ (small e le) (put-Reaches height ix.db b))
        | inr (s, e) ↦
            let (n, r) = read_number height ix ix' s e h in
            let same = ok-inj (sym (raise-some height n ix s e r) ∙ h) in
            rw (← same) (by_value k height n ix s b e r (either n s e r le))
      ]
    where
      small :
          ldb.get ix.db (text "highestblock") ≡ none
          → (k ≤ height) ⊎ Reaches k (ldb.get ix.db (text "highestblock"))
          → k ≤ height
      small e (inl le) = le
      small e (inr (s, n, f, _, _)) = absurd (cc (e, f))

      either :
          (n : ℕ) (s : Str)
          → ldb.get ix.db (text "highestblock") ≡ some s
          → stoull s ≡ ok n
          → (k ≤ height) ⊎ Reaches k (ldb.get ix.db (text "highestblock"))
          → (k ≤ height) ⊎ (k ≤ n)
      either n s e r (inl le) = inl le
      either n s e r (inr reaches) = inr (old-value k n _ s e r reaches)
