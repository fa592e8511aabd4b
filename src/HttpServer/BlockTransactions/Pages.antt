-- ===== src/HttpServer/BlockTransactions/Pages.antt =====
-- Which transactions stand on which page of getBlockTransactions.
use blockchain_indexer.Base.{
  ℕ, zero, suc, ◌+◌, ◌*◌, ◌-◌, ◌^◌, ◌≤◌, ◌<◌, ◌≡◌, ◌%◌, ◌/◌, refl, ap, ◌∙◌, true, false, Bool-cases,
  inl, inr, List, [], ◌∷◌, length, length-drop, take, drop, get_elem?, ltb, arith, some, pos,
  negsuc, ◌+ℤ◌, ◌-ℤ◌, ltb_ℤ, is_int, min, pos_part, ◌&&◌, ok,
}
use blockchain_indexer.Types.{Transaction}
use blockchain_indexer.HttpServer.BlockTransactions.{
  pages_total, transaction_at, transactions_from, transactions_between, max_index,
  page_transactions, min_ℤ,
}

drop-at :
    (txs : List Transaction) (i : ℕ)
    → i < length txs
    → (tx : Transaction) × (get_elem? txs i ≡ some tx) × (drop i txs ≡ tx ∷ drop (suc i) txs)
drop-at [] i h = absurd (omega arith)
drop-at (tx ∷ txs) zero h = (tx, refl, refl)
drop-at (tx ∷ txs) (suc i) h =
    let (found, at, same) = drop-at txs i (omega arith) in (found, at, same)

drop-end : (txs : List Transaction) (i : ℕ) → length txs ≤ i → drop i txs ≡ []
drop-end [] zero h = refl
drop-end [] (suc i) h = refl
drop-end (tx ∷ txs) zero h = absurd (omega arith)
drop-end (tx ∷ txs) (suc i) h = drop-end txs i (omega arith)

take-more :
    (txs : List Transaction) (m n : ℕ) → length txs ≤ m → length txs ≤ n → take m txs ≡ take n txs
take-more [] zero zero h k = refl
take-more [] zero (suc n) h k = refl
take-more [] (suc m) zero h k = refl
take-more [] (suc m) (suc n) h k = refl
take-more (tx ∷ txs) zero n h k = absurd (omega arith)
take-more (tx ∷ txs) (suc m) zero h k = absurd (omega arith)
take-more (tx ∷ txs) (suc m) (suc n) h k =
    ap (λ (r : List Transaction). tx ∷ r) (take-more txs m n (omega arith) (omega arith))

next : (i : ℕ) → pos i +ℤ pos 1 ≡ pos (suc i)
next i = ground arith

found_at :
    (txs : List Transaction) (i : ℕ) (tx : Transaction)
    → get_elem? txs i ≡ some tx
    → transaction_at txs (pos i) ≡ ok tx
unfolding transaction_at
found_at txs i tx e = rw (e, transaction_at)

transactions_from-slice :
    (rounds i : ℕ) (txs : List Transaction)
    → i + rounds ≤ length txs
    → transactions_from rounds (pos i) txs ≡ ok (take rounds (drop i txs))
unfolding transactions_from
transactions_from-slice zero i txs h = refl
transactions_from-slice (suc rounds) i txs h =
    let (tx, at, same) = drop-at txs i (omega arith) in
    rw (found_at txs i tx at, same, next i)
      (rw (transactions_from-slice rounds (suc i) txs (omega arith)))

rounds_between : (a b : ℕ) → a ≤ b → pos_part ((pos b -ℤ pos a) +ℤ pos 1) ≡ suc b - a
rounds_between a b h = ground arith

transactions_between-slice :
    (a b : ℕ) (txs : List Transaction)
    → b < length txs
    → transactions_between (pos a) (pos b) txs ≡ ok (take (suc b - a) (drop a txs))
unfolding transactions_between
transactions_between-slice a b txs h = elim (Bool-cases (ltb b a)) [
  | inl e ↦
      let none_left : suc b - a ≡ 0 = ground arith in
      let t : ltb_ℤ (pos b) (pos a) ≡ true = ground arith in rw (t, none_left)
  | inr e ↦
      let t : ltb_ℤ (pos b) (pos a) ≡ false = ground arith in
      rw (t, rounds_between a b (ground arith))
        (transactions_from-slice (suc b - a) a txs (ground arith))
]

max_index-some : (n : ℕ) → n < 2 ^ 31 → max_index (suc n) ≡ pos n
unfolding max_index
max_index-some n h = ground arith

max_index-none : max_index 0 ≡ negsuc 0
unfolding max_index
max_index-none = refl

is_int-start : (s : ℕ) → s + 10 < 2 ^ 31 → (is_int (pos s) && is_int (pos s +ℤ pos 10)) ≡ true
is_int-start s h = ground arith

min_ℤ-pos : (a b : ℕ) → min_ℤ (pos a +ℤ pos 10) (pos b) ≡ pos (min (a + 10) b)
min_ℤ-pos a b = ground arith

slice-min :
    (a n : ℕ) (txs : List Transaction)
    → length txs ≡ suc n
    → take (suc (min (a + 10) n) - a) (drop a txs) ≡ take 11 (drop a txs)
slice-min a n txs h = elim (Bool-cases (ltb n (a + 10))) [
  | inr e ↦ let eleven : suc (min (a + 10) n) - a ≡ 11 = ground arith in rw eleven refl
  | inl e ↦
      take-more (drop a txs) _ 11 (ground (arith, length-drop a txs))
        (ground (arith, length-drop a txs))
]

min_ℤ-none : (a : ℕ) → min_ℤ (pos a +ℤ pos 10) (negsuc 0) ≡ negsuc 0
min_ℤ-none a = ground arith

between_none :
    (a : ℕ) (txs : List Transaction) → transactions_between (pos a) (negsuc 0) txs ≡ ok []
unfolding transactions_between
between_none a txs = let t : ltb_ℤ (negsuc 0) (pos a) ≡ true = ground arith in rw t

-- For a block of at most 2 ^ 31 transactions and a page number whose last index is an int,
-- getBlockTransactions lists on the page eleven transactions from ten times the page number on, or
-- as many of these as there are: the last of a full page is the first of the next one.
pub page_transactions-slice :
    (page : ℕ) (txs : List Transaction)
    → 10 * page + 10 < 2 ^ 31
    → length txs ≤ 2 ^ 31
    → page_transactions (pos page) txs ≡ ok (take 11 (drop (10 * page) txs))
unfolding page_transactions
page_transactions-slice page [] fits small =
    rw
      (
        is_int-start (10 * page) fits,
        max_index-none,
        min_ℤ-none (10 * page),
        drop-end [] (10 * page) (omega arith),
      )
      (between_none (10 * page) [])
page_transactions-slice page (tx ∷ txs) fits small =
    rw
      (
        is_int-start (10 * page) fits,
        max_index-some (length txs) (omega arith),
        min_ℤ-pos (10 * page) (length txs),
      )
      (transactions_between-slice (10 * page) (min (10 * page + 10) (length txs)) (tx ∷ txs)
          (omega arith)
        ∙ ap ok (slice-min (10 * page) (length txs) (tx ∷ txs) refl))

get_elem?-slice :
    (a k n : ℕ) (txs : List Transaction)
    → k < n
    → get_elem? (take n (drop a txs)) k ≡ get_elem? txs (a + k)
get_elem?-slice a k zero txs h = absurd (omega arith)
get_elem?-slice zero zero (suc n) [] h = refl
get_elem?-slice zero (suc k) (suc n) [] h = refl
get_elem?-slice zero zero (suc n) (tx ∷ txs) h = refl
get_elem?-slice zero (suc k) (suc n) (tx ∷ txs) h =
    let same : 0 + suc k ≡ suc (0 + k) = omega arith in
    rw same (get_elem?-slice zero k n txs (omega arith))
get_elem?-slice (suc a) k (suc n) [] h = refl
get_elem?-slice (suc a) k (suc n) (tx ∷ txs) h =
    let same : suc a + k ≡ suc (a + k) = omega arith in rw same (get_elem?-slice a k (suc n) txs h)

page_below : (i n : ℕ) → i < n → i / 10 < pages_total n
unfolding pages_total
page_below i n h = ground arith

-- Each transaction of a block of less than 2 ^ 31 - 9 transactions stands on the page of a tenth of
-- its index, at the remainder by ten, and this page is one of the pages that pagesTotal counts.
pub page_transactions-covers :
    (i : ℕ) (txs : List Transaction)
    → i < length txs
    → length txs + 10 ≤ 2 ^ 31
    → (i / 10 < pages_total (length txs))
      × (listed : List Transaction) × (page_transactions (pos (i / 10)) txs ≡ ok listed)
      × (get_elem? listed (i % 10) ≡ get_elem? txs i)
page_transactions-covers i txs h small = (
  page_below i (length txs) h,
  take 11 (drop (10 * (i / 10)) txs),
  page_transactions-slice (i / 10) txs (omega arith) (omega arith),
  get_elem?-slice (10 * (i / 10)) (i % 10) 11 txs (omega arith)
      ∙ ap (λ (k : ℕ). get_elem? txs k) (omega arith),
)
