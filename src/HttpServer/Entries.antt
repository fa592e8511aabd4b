-- ===== src/HttpServer/Entries.antt =====
-- The text that the indexer stores for an output of an address, taken apart again.
use blockchain_indexer.Base.{
  ℕ, zero, suc, ◌^◌, ◌≤◌, ◌<◌, ◌≡◌, refl, sym, ap, false, [], ◌∷◌, ◌++◌, Str, length, take, ltb,
  arith, ok, length-append, take-append, drop-append,
}
use mathlib.Core.List.{append_assoc}
use blockchain_indexer.Base.Text.{pad8, dec, substr, length-pad8}

take-all : (n : ℕ) (xs : Str) → length xs ≤ n → take n xs ≡ xs
take-all zero [] h = refl
take-all zero (x ∷ xs) h = absurd (omega arith)
take-all (suc n) [] h = refl
take-all (suc n) (x ∷ xs) h = ap (◌∷◌ x) (take-all n xs (omega arith))

pub substr-inside :
    (pre mid post : Str) (at n : ℕ)
    → at ≡ length pre
    → n ≡ length mid
    → substr at n (pre ++ (mid ++ post)) ≡ ok mid
unfolding substr
substr-inside pre mid post at n e f =
    let inside : ltb (length (pre ++ (mid ++ post))) at ≡ false =
      ground (arith, e, length-append pre (mid ++ post)) in
    rw inside (rw (e, f) (rw (drop-append pre (mid ++ post), take-append mid post)))

substr-end :
    (pre post : Str) (at n : ℕ)
    → at ≡ length pre
    → length post ≤ n
    → substr at n (pre ++ post) ≡ ok post
unfolding substr
substr-end pre post at n e f =
    let inside : ltb (length (pre ++ post)) at ≡ false =
      ground (arith, e, length-append pre post) in
    rw inside (rw e (rw (drop-append pre post, take-all n post f)))

-- What the indexer stores for an output and one of its addresses.
pub record Entry : Type 0 where
  pub tx_hash : Str
  pub index : ℕ
  pub height : ℕ
  pub value : ℕ

abbrev pub entry_text : Entry → Str
entry_text e = e.tx_hash ++ (pad8 e.index ++ (pad8 e.height ++ dec e.value))

pub record EntryFits (e : Entry) : Type 0 where
  pub hash : length e.tx_hash ≡ 64
  pub index : e.index < 10 ^ 8
  pub height : e.height < 10 ^ 8
  pub value : e.value < 2 ^ 63

pub entry-hash : (e : Entry) → EntryFits e → substr 0 64 (entry_text e) ≡ ok e.tx_hash
entry-hash e f = substr-inside [] e.tx_hash _ 0 64 refl (sym f.hash)

pub entry-index : (e : Entry) → EntryFits e → substr 64 8 (entry_text e) ≡ ok (pad8 e.index)
entry-index e f =
    substr-inside e.tx_hash (pad8 e.index) _ 64 8 (sym f.hash) (sym (length-pad8 e.index f.index))

pub entry-height : (e : Entry) → EntryFits e → substr 72 8 (entry_text e) ≡ ok (pad8 e.height)
entry-height e f =
    let front = e.tx_hash ++ pad8 e.index in
    let joined : entry_text e ≡ front ++ (pad8 e.height ++ dec e.value) = simp append_assoc in
    let at : 72 ≡ length front =
      omega (arith, length-append e.tx_hash (pad8 e.index), length-pad8 e.index f.index, f.hash) in
    rw joined (
      substr-inside front (pad8 e.height) (dec e.value) 72 8 at
        (sym (length-pad8 e.height f.height)))

pub entry-value :
    (e : Entry) → EntryFits e → substr 80 (length (entry_text e)) (entry_text e) ≡ ok (dec e.value)
entry-value e f =
    let front = e.tx_hash ++ (pad8 e.index ++ pad8 e.height) in
    let joined : entry_text e ≡ front ++ dec e.value = simp append_assoc in
    let eighty : 80 ≡ length front = omega (
      arith,
      length-append e.tx_hash (pad8 e.index ++ pad8 e.height),
      length-append (pad8 e.index) (pad8 e.height),
      length-pad8 e.index f.index,
      length-pad8 e.height f.height,
      f.hash,
    ) in
    rw joined (
      substr-end front (dec e.value) 80 (length (front ++ dec e.value)) eighty
        (omega (arith, length-append front (dec e.value))))
