-- ===== src/Stream/At.antt =====
-- Reads that find what they ask for: a good stream that stands before `front ++ rest`.
use blockchain_indexer.Base.{
  ℕ, zero, suc, ◌+◌, ◌/◌, ◌^◌, ◌<◌, ◌≡◌, refl, sym, ap, ◌∙◌, false, [], ◌∷◌, ◌++◌, Bytes, length,
  take, drop, arith, take-append, drop-append, drop-drop,
}
use native.Mathlib.Nat.{pow-suc}
use blockchain_indexer.Stream.{Stream, overwrite, read, from_le, to_le, read_uint, tellg}

-- `s` has no flag set, and `rest` is what lies from its position on.
pub record At (s : Stream) (rest : Bytes) : Type 0 where
  pub no_eof : s.eof ≡ false
  pub no_fail : s.fail ≡ false
  pub ahead : drop s.position s.contents ≡ rest

overwrite-eq : (got old : Bytes) → length got ≡ length old → overwrite got old ≡ got
overwrite-eq [] [] h = refl
overwrite-eq [] (o ∷ os) h = absurd (omega arith)
overwrite-eq (b ∷ bs) [] h = refl
overwrite-eq (b ∷ bs) (o ∷ os) h = ap (◌∷◌ b) (overwrite-eq bs os (omega arith))

-- The stream that has moved on by `n`.
abbrev pub advance : ℕ → Stream → Stream
advance n s = record s { position = s.position + n }

take-At :
    (s : Stream) (front rest : Bytes) (n : ℕ)
    → At s (front ++ rest)
    → length front ≡ n
    → take n (drop s.position s.contents) ≡ front
take-At s front rest n h e = ap (take n) h.ahead ∙ rw (← e) (take-append front rest)

pub read-At :
    (s : Stream) (front rest old : Bytes) (n : ℕ)
    → At s (front ++ rest)
    → length front ≡ n
    → length old ≡ n
    → read n old s ≡ (front, advance n s)
unfolding read
read-At s front rest old n h e o = ground (
  arith,
  take-At s front rest n h e,
  ap (λ (bs : Bytes). length bs) (take-At s front rest n h e),
  overwrite-eq front old (omega arith),
)

pub At-advance :
    (s : Stream) (front rest : Bytes) (n : ℕ)
    → At s (front ++ rest)
    → length front ≡ n
    → At (advance n s) rest
At-advance s front rest n h e = record {
  no_eof = h.no_eof;
  no_fail = h.no_fail;
  ahead =
      sym (drop-drop s.position n s.contents)
      ∙ ap (drop n) h.ahead
      ∙ rw (← e) (drop-append front rest);
}

pub tellg-At : (s : Stream) {rest : Bytes} → At s rest → tellg s ≡ s.position
unfolding tellg
tellg-At s h = rw (h.no_fail)

pub length-to_le : (w n : ℕ) → length (to_le w n) ≡ w
unfolding to_le
length-to_le zero n = refl
length-to_le (suc w) n = ap suc (length-to_le w (n / 256))

div_bound : (w n : ℕ) → n < 256 ^ suc w → n / 256 < 256 ^ w
div_bound w n h = omega (arith, pow-suc 256 w)

pub from_le-to_le : (w n : ℕ) → n < 256 ^ w → from_le (to_le w n) ≡ n
unfolding from_le to_le
from_le-to_le zero n h = omega arith
from_le-to_le (suc w) n h = omega (arith, from_le-to_le w (n / 256) (div_bound w n h))

-- Reading an integer where its bytes stand gives the integer.
pub read_uint-At :
    (s : Stream) (w n old : ℕ) (rest : Bytes)
    → At s (to_le w n ++ rest)
    → n < 256 ^ w
    → read_uint w old s ≡ (n, advance w s)
unfolding read_uint
read_uint-At s w n old rest h b =
    rw (read-At s (to_le w n) rest (to_le w old) w h (length-to_le w n) (length-to_le w old))
      (rw (from_le-to_le w n b))

pub At-uint :
    (s : Stream) (w n : ℕ) (rest : Bytes) → At s (to_le w n ++ rest) → At (advance w s) rest
At-uint s w n rest h = At-advance s (to_le w n) rest w h (length-to_le w n)
