-- ===== src/Stream/Reads.antt =====
-- Readers that consume exactly a given encoding, and their composition.
use blockchain_indexer.Base.{
  ℕ, ◌^◌, ◌<◌, ◌≡◌, refl, sym, ap, ◌∙◌, [], ◌++◌, Bytes, length, arith, length-append, Bool, true,
  false, if◌then◌else◌,
}
use blockchain_indexer.Stream.{Stream, Reader, pure, ◌>>=◌, read, to_le, read_uint}
use blockchain_indexer.Stream.At.{At, advance, read-At, At-advance, read_uint-At, length-to_le}
use mathlib.Core.List.{append_assoc}

-- Wherever `bytes` lie ahead of a good stream, `f` returns `a` and moves the stream behind them.
pub record Reads {ℓ} {A : Type ℓ} (f : Stream → A × Stream) (bytes : Bytes) (a : A) : Type ℓ where
  pub at : (s : Stream) (rest : Bytes) → At s (bytes ++ rest) → f s ≡ (a, advance (length bytes) s)

pub At-behind :
    (bytes : Bytes) (s : Stream) (rest : Bytes)
    → At s (bytes ++ rest)
    → At (advance (length bytes) s) rest
At-behind bytes s rest h = At-advance s bytes rest (length bytes) h refl

pub At-assoc :
    (s : Stream) (xs ys rest : Bytes) → At s ((xs ++ ys) ++ rest) → At s (xs ++ (ys ++ rest))
At-assoc s xs ys rest h = rw append_assoc at h

advance-advance :
    (s : Stream) (xs ys : Bytes)
    → advance (length ys) (advance (length xs) s) ≡ advance (length (xs ++ ys)) s
advance-advance s xs ys =
    ap (λ (p : ℕ). record s { position = p }) (omega (arith, length-append xs ys))

module _ {ℓ} {A : Type ℓ} where
  pub Reads-pure : (a : A) → Reads (pure a) [] a
  unfolding pure
  Reads-pure a = record {
    at = λ s rest h. ap (λ (p : ℕ). (a, record s { position = p })) (omega arith);
  }

module _ {ℓ κ} {A : Type ℓ} {B : Type κ} where
  pub Reads-bind :
      (f : Reader A) (g : A → Reader B) {xs ys : Bytes} {a : A} {b : B}
      → Reads f xs a
      → Reads (g a) ys b
      → Reads (f >>= g) (xs ++ ys) b
  unfolding ◌>>=◌
  Reads-bind f g {xs} {ys} {a} {b} rf rg = record {
    at = λ s rest h.
        let h' : At s (xs ++ (ys ++ rest)) = At-assoc s xs ys rest h in
        rw (rf.at s (ys ++ rest) h') (
          rg.at (advance (length xs) s) rest (At-behind xs s (ys ++ rest) h')
          ∙ ap (λ (t : Stream). (b, t)) (advance-advance s xs ys));
  }

  -- A reader that ends by computing with what it has read.
  pub Reads-map :
      (f : Reader A) (g : A → B) {xs : Bytes} {a : A}
      → Reads f xs a
      → Reads (f >>= λ x. pure (g x)) xs (g a)
  unfolding ◌>>=◌
  Reads-map f g {xs} {a} r = record {
    at = λ s rest h. ap (λ (p : A × Stream). (g p.0, p.1)) (r.at s rest h);
  }

pub Reads-uint : (w n old : ℕ) → n < 256 ^ w → Reads (read_uint w old) (to_le w n) n
Reads-uint w n old b = record {
  at = λ s rest h.
      read_uint-At s w n old rest h b ∙ ap (λ (k : ℕ). (n, advance k s)) (sym (length-to_le w n));
}

pub Reads-read :
    (old front : Bytes) (n : ℕ) → length front ≡ n → length old ≡ n → Reads (read n old) front front
Reads-read old front n e o = record {
  at = λ s rest h. read-At s front rest old n h e o ∙ ap (λ (k : ℕ). (front, advance k s)) (sym e);
}

module _ {ℓ} {A : Type ℓ} {xs : Bytes} {a : A} where
  pub Reads-then :
      (b : Bool) (f g : Reader A) → b ≡ true → Reads f xs a → Reads (if b then f else g) xs a
  Reads-then true f g e r = r
  Reads-then false f g e r = absurd (cc)

  pub Reads-else :
      (b : Bool) (f g : Reader A) → b ≡ false → Reads g xs a → Reads (if b then f else g) xs a
  Reads-else true f g e r = absurd (cc)
  Reads-else false f g e r = r
