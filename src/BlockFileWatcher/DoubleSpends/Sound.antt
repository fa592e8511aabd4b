-- ===== src/BlockFileWatcher/DoubleSpends/Sound.antt =====
-- What the analysis reports as a double spend is one.
use blockchain_indexer.Base.{
  ℕ, ◌≡◌, ◌<◌, refl, ◌∙◌, Bool, true, false, not, ◌&&◌, Bool-cases, Option-cases, inl, inr, List,
  [], ◌∷◌, ◌++◌, Str, length, All, ltb, if◌then◌else◌, arith, ok, >>=-eq-ok, none, some,
}
use blockchain_indexer.Base.Text.{str_eq, str_eq→eq}
use blockchain_indexer.Types.{Block, PotentialDoubleSpend, DoubleSpentOutpoint, DoubleSpend}
use blockchain_indexer.Dict.{Dict}
use blockchain_indexer.BlockFileWatcher.DoubleSpends.{
  Spends, Gathered, Found, nothing_found, main_chain_spend, orphaned_spend, orphaned_spends,
  judge_outpoint, same_rival, add_double_spend, rival_spends, judge_spends, gather_chains,
  consecutive, analyze_double_blocks, reorged_spend,
}
use blockchain_indexer.BlockFileWatcher.DoubleSpends.Filed.{IsSpend, Filed, gather_chains-Filed}

-- The rival is a transaction of another hash in a block of another hash. Both it and a transaction
-- of the given hash in a block of the main chain of the given hash spend the outpoint.
pub record IsRival (tx_hash block_hash : Str) (o : DoubleSpentOutpoint) : Type 0 where
  pub other_tx : str_eq o.also_spent_in_tx.tx_hash tx_hash ≡ false
  pub other_block : str_eq o.also_spent_in_block.block_hash block_hash ≡ false
  pub spent :
      (main : PotentialDoubleSpend) × (main.block.main_chain ≡ true)
      × (main.tx.tx_hash ≡ tx_hash)
      × (main.block.block_hash ≡ block_hash)
      × IsSpend o.outpoint main
  pub spent_again :
      IsSpend o.outpoint (record { tx = o.also_spent_in_tx; block = o.also_spent_in_block })

-- The transaction comes with a block of the main chain, and each of its outpoints has a rival;
-- there is at least one.
pub record IsDoubleSpend (ds : DoubleSpend) : Type 0 where
  pub on_main_chain : ds.block.main_chain ≡ true
  pub some_outpoint : 0 < length ds.outpoints
  pub rivals : All (IsRival ds.tx.tx_hash ds.block.block_hash) ds.outpoints

All-snoc :
    (P : DoubleSpentOutpoint → Type 0) (os : List DoubleSpentOutpoint) (o : DoubleSpentOutpoint)
    → All P os
    → P o
    → All P (os ++ o ∷ [])
All-snoc P [] o a p = (p, tt)
All-snoc P (x ∷ os) o a p = (a.0, All-snoc P os o a.1 p)

snoc-some : (os : List DoubleSpentOutpoint) (o : DoubleSpentOutpoint) → 0 < length (os ++ o ∷ [])
snoc-some [] o = omega arith
snoc-some (x ∷ os) o = omega arith

main_chain_spend-main :
    (spends : List PotentialDoubleSpend) (main : PotentialDoubleSpend)
    → main_chain_spend spends ≡ some main
    → main.block.main_chain ≡ true
unfolding main_chain_spend
main_chain_spend-main [] main h = cc
main_chain_spend-main (s ∷ spends) main h = elim (Bool-cases s.block.main_chain) [
  | inl e ↦ let same : s ≡ main = cc (rw e at h) in rw (← same) e
  | inr e ↦ main_chain_spend-main spends main (rw e at h)
]

main_chain_spend-All :
    (P : PotentialDoubleSpend → Type 0) (spends : List PotentialDoubleSpend)
    (main : PotentialDoubleSpend)
    → All P spends
    → main_chain_spend spends ≡ some main
    → P main
unfolding main_chain_spend
main_chain_spend-All P [] main a h = cc
main_chain_spend-All P (s ∷ spends) main a h = elim (Bool-cases s.block.main_chain) [
  | inl e ↦ let same : s ≡ main = cc (rw e at h) in rw (← same) a.0
  | inr e ↦ main_chain_spend-All P spends main a.1 (rw e at h)
]

both : (a b c : Bool) → (a && b && c) ≡ true → (a ≡ true) × (b ≡ true)
both a b c h = ground arith

add_double_spend_sound :
    (main : PotentialDoubleSpend) (o : DoubleSpentOutpoint) (known : List DoubleSpend)
    → main.block.main_chain ≡ true
    → IsRival main.tx.tx_hash main.block.block_hash o
    → All IsDoubleSpend known
    → All IsDoubleSpend (add_double_spend main o known)
unfolding add_double_spend
add_double_spend_sound main o [] m r a =
    (record { on_main_chain = m; some_outpoint = omega arith; rivals = (r, tt) }, tt)
add_double_spend_sound main o (old ∷ rest) m r a =
    elim (Bool-cases (
      str_eq old.block.block_hash main.block.block_hash
      && str_eq old.tx.tx_hash main.tx.tx_hash
      && same_rival o old.outpoints)) [
        | inr e ↦ rw e (a.0, add_double_spend_sound main o rest m r a.1)
        | inl e ↦
            let (same_block, same_tx) = both _ _ _ e in
            rw e (
              record {
                on_main_chain = a.0.on_main_chain;
                some_outpoint = snoc-some old.outpoints o;
                rivals =
                    All-snoc _ old.outpoints o a.0.rivals
                      (rw (str_eq→eq _ _ same_block, str_eq→eq _ _ same_tx) r);
              },
              a.1,
            )
      ]

neither : (a b : Bool) → (not a && not b) ≡ true → (a ≡ false) × (b ≡ false)
neither a b h = ground arith

rival_spends_sound :
    (outpoint : Str) (main : PotentialDoubleSpend) (spends : List PotentialDoubleSpend)
    (known : List DoubleSpend)
    → main.block.main_chain ≡ true
    → IsSpend outpoint main
    → All (IsSpend outpoint) spends
    → All IsDoubleSpend known
    → All IsDoubleSpend (rival_spends outpoint main spends known)
unfolding rival_spends
rival_spends_sound outpoint main [] known m c f a = a
rival_spends_sound outpoint main (s ∷ spends) known m c f a =
    elim (Bool-cases (
      not (str_eq s.tx.tx_hash main.tx.tx_hash)
      && not (str_eq s.block.block_hash main.block.block_hash))) [
        | inl e ↦
            let (other_tx, other_block) = neither _ _ e in
            let rival : IsRival main.tx.tx_hash main.block.block_hash (record {
              outpoint = outpoint;
              also_spent_in_tx = s.tx;
              also_spent_in_block = s.block;
            }) =
              record {
                other_tx = other_tx;
                other_block = other_block;
                spent = (main, m, refl, refl, c);
                spent_again = f.0;
              } in
            rw e (
              rival_spends_sound outpoint main spends _ m c f.1
                (add_double_spend_sound main _ known m rival a))
        | inr e ↦ rw e (rival_spends_sound outpoint main spends known m c f.1 a)
      ]

orphaned_spend-kept :
    (coinbases : List Str) (s : PotentialDoubleSpend) (found : Found)
    → (orphaned_spend coinbases s found).double_spends ≡ found.double_spends
unfolding orphaned_spend
orphaned_spend-kept coinbases s found =
    elim (Option-cases (reorged_spend coinbases s.tx.inputs none)) [
      | inl e ↦ rw (e, orphaned_spend)
      | inr (c, e) ↦ rw (e, orphaned_spend)
    ]

orphaned_spends-kept :
    (coinbases : List Str) (spends : List PotentialDoubleSpend) (found : Found)
    → (orphaned_spends coinbases spends found).double_spends ≡ found.double_spends
unfolding orphaned_spends
orphaned_spends-kept coinbases [] found = refl
orphaned_spends-kept coinbases (s ∷ spends) found =
    orphaned_spends-kept coinbases spends (orphaned_spend coinbases s found)
    ∙ orphaned_spend-kept coinbases s found

judge_outpoint_sound :
    (coinbases : List Str) (outpoint : Str) (spends : List PotentialDoubleSpend) (found : Found)
    → All (IsSpend outpoint) spends
    → All IsDoubleSpend found.double_spends
    → All IsDoubleSpend (judge_outpoint coinbases outpoint spends found).double_spends
unfolding judge_outpoint
judge_outpoint_sound coinbases outpoint spends found filed a =
    elim (Option-cases (main_chain_spend spends)) [
      | inl e ↦ ap_sound (orphaned e ∙ orphaned_spends-kept coinbases spends found) a
      | inr (main, e) ↦ ap_sound (judged main e) (
          by_length (ltb 1 (length spends)) _ _ a (
            rival_spends_sound outpoint main spends found.double_spends
              (main_chain_spend-main spends main e)
              (main_chain_spend-All (IsSpend outpoint) spends main filed e) filed a))
    ]
  where
    ap_sound : {xs ys : List DoubleSpend} → xs ≡ ys → All IsDoubleSpend ys → All IsDoubleSpend xs
    ap_sound e h = rw e h

    orphaned :
        main_chain_spend spends ≡ none
        → (judge_outpoint coinbases outpoint spends found).double_spends
          ≡ (orphaned_spends coinbases spends found).double_spends
    orphaned e = rw (e, judge_outpoint)

    judged :
        (main : PotentialDoubleSpend)
        → main_chain_spend spends ≡ some main
        → (judge_outpoint coinbases outpoint spends found).double_spends
          ≡ (if ltb 1 (length spends)
              then record found {
                double_spends = rival_spends outpoint main spends found.double_spends;
              }
              else found).double_spends
    judged main e = rw (e, judge_outpoint)

    by_length :
        (b : Bool) (xs : List DoubleSpend) (f : Found)
        → All IsDoubleSpend f.double_spends
        → All IsDoubleSpend xs
        → All IsDoubleSpend (if b then record f { double_spends = xs } else f).double_spends
    by_length true xs f a h = h
    by_length false xs f a h = a

judge_spends_sound :
    (coinbases : List Str) (spends : Spends) (found : Found)
    → Filed spends
    → All IsDoubleSpend found.double_spends
    → All IsDoubleSpend (judge_spends coinbases spends found).double_spends
unfolding judge_spends
judge_spends_sound coinbases [] found f a = a
judge_spends_sound coinbases ((outpoint, spends) ∷ rest) found f a =
    judge_spends_sound coinbases rest _ f.1
      (judge_outpoint_sound coinbases outpoint spends found f.0 a)

-- Every double spend that analyzeDoubleBlocks reports comes with a block marked as of the main
-- chain and has one outpoint at least. For each of its outpoints there are two transactions of
-- different hashes, standing in blocks of different hashes: one with the hashes of the double
-- spend, in a block marked as of the main chain, and the one that is reported as the rival. Each
-- has an input, no coinbase, whose hash and number in eight digits are the outpoint.
pub analyze_double_blocks_sound :
    (double_blocks : Dict ℕ (List Block)) (coinbases coinbases' : List Str) (found : Found)
    → analyze_double_blocks double_blocks coinbases ≡ ok (coinbases', found)
    → All IsDoubleSpend found.double_spends
unfolding analyze_double_blocks
analyze_double_blocks_sound double_blocks coinbases coinbases' found h =
    let chains = consecutive (length double_blocks) 0 double_blocks in
    let start : Gathered = record { reorged_coinbases = coinbases; spends = [] } in
    let (g, gathered, e) = >>=-eq-ok (gather_chains chains start) _ h in
    let filed = gather_chains-Filed chains start g gathered tt in
    let same : judge_spends g.reorged_coinbases g.spends nothing_found ≡ found = cc e in
    rw (← same) (judge_spends_sound g.reorged_coinbases g.spends nothing_found filed tt)
