-- ===== src/HttpServer/Proof/Headers.antt =====
-- Which headers getTransactionProof gives.
use blockchain_indexer.Base.{
  ℕ, zero, suc, ◌+◌, ◌-◌, ◌^◌, ◌≤◌, ◌<◌, ◌≡◌, true, false, ◌&&◌, Bool-cases, inl, inr, List, [],
  ◌∷◌, ◌++◌, Bytes, Str, ltb, map, if◌then◌else◌, arith, Option, some, ok,
}
use blockchain_indexer.Base.Text.{text, pad8}
use blockchain_indexer.Types.{Block}
use blockchain_indexer.Leveldb.{Leveldb}
use blockchain_indexer.External.{Crypto, Indeterminate}
use blockchain_indexer.BlockReader.{sub64}
use blockchain_indexer.HttpServer.Blocks.{read_stored}
use blockchain_indexer.HttpServer.Proof.{headers_below, proof_headers}

-- So many numbers, the first of them n and each one less than that before it.
unfoldable pub countdown : ℕ → ℕ → List ℕ
countdown zero n = []
countdown (suc k) n = n ∷ countdown k (n - 1)

module _ (ldb : Leveldb) (db : ldb.Db) (crypto : Crypto) (junk : Indeterminate)
    (files : Str → Option Bytes) (blocks_dir : Str) where
  -- The position of the block at the height is stored, and its header can be read there.
  pub record IsStored (height : ℕ) (block : Block) : Type 0 where
    pub file_position : Str
    pub found : ldb.get db (text "block-filePosition-" ++ pad8 height) ≡ some file_position
    pub header :
        read_stored ldb db crypto junk files blocks_dir file_position height true ≡ ok block

  module _ (blocks : ℕ → Block) where
    one_header :
        (bound i : ℕ) (rest : List Block)
        → bound < i
        → IsStored i (blocks i)
        → headers_below ldb db crypto junk files blocks_dir bound i ≡ ok (some rest)
        → headers_below ldb db crypto junk files blocks_dir bound (suc i)
          ≡ ok (some (blocks i ∷ rest))
    unfolding headers_below
    one_header bound i rest above stored below =
        let more : (ltb 0 i && ltb bound i) ≡ true = ground arith in
        rw (more, headers_below) (rw stored.found (rw stored.header (rw below)))

    headers_below-countdown :
        (bound k n : ℕ)
        → n ≡ bound + k
        → ((i : ℕ) → bound < i → i ≤ n → IsStored i (blocks i))
        → headers_below ldb db crypto junk files blocks_dir bound (suc n)
          ≡ ok (some (map blocks (countdown k n)))
    unfolding headers_below countdown
    headers_below-countdown bound zero n e stored =
        let stop : (ltb 0 n && ltb bound n) ≡ false = ground arith in rw (stop, headers_below)
    headers_below-countdown bound (suc k) zero e stored = absurd (omega arith)
    headers_below-countdown bound (suc k) (suc n) e stored =
        let before : suc n - 1 ≡ n = omega arith in
        rw before (
          one_header bound (suc n) (map blocks (countdown k n)) (omega arith)
            (stored (suc n) (omega arith) (omega arith))
            (headers_below-countdown bound k n (omega arith) (λ i h j. stored i h (omega arith))))

    low_bound : (height : ℕ) → 10 ≤ height → height < 2 ^ 64 → sub64 height 10 ≡ height - 10
    unfolding sub64
    low_bound height h k = omega arith

    wrapped_bound : (height : ℕ) → height < 10 → height < sub64 height 10
    unfolding sub64
    wrapped_bound height h = omega arith

    no_header :
        (bound height : ℕ)
        → height < bound
        → headers_below ldb db crypto junk files blocks_dir bound (suc height) ≡ ok (some [])
    unfolding headers_below
    no_header bound height h =
        let stop : (ltb 0 height && ltb bound height) ≡ false = ground arith in
        rw (stop, headers_below)

    -- Where the blocks of the last ten heights up to that of a transaction are stored and their
    -- headers can be read, getTransactionProof gives these ten headers, the highest first; below
    -- height 10 it gives none, because the bound of its loop wraps.
    pub proof_headers-countdown :
        (height : ℕ)
        → height < 2 ^ 63
        → ((i : ℕ) → i ≤ height → height < i + 10 → IsStored i (blocks i))
        → proof_headers ldb db crypto junk files blocks_dir height
          ≡ ok (some (map blocks (countdown (if ltb height 10 then 0 else 10) height)))
    unfolding proof_headers countdown
    proof_headers-countdown height small stored =
        let next : height + 1 ≡ suc height = omega arith in
        elim (Bool-cases (ltb height 10)) [
          | inl e ↦
              rw (e, next)
                (no_header (sub64 height 10) height (wrapped_bound height (ground arith)))
          | inr e ↦
              rw (e, next, low_bound height (ground arith) (omega arith))
                (headers_below-countdown (height - 10) 10 height (ground arith)
                  (λ i h j. stored i j (omega arith)))
        ]
