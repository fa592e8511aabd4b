-- ===== src/Stream.antt =====
-- `std::istream` over a byte sequence, as the readers use it: `read`, `tellg`, `seekg`. A short read
-- sets the stream's `eof` and `fail` flags and leaves the rest of the destination alone; a stream
-- whose `fail` flag is set reads nothing more and does not move.
pub mod At
pub mod Reads
use blockchain_indexer.Base.{
  ℕ, ◌+◌, ◌-◌, ◌*◌, ◌%◌, ◌/◌, ◌^◌, zero, suc, Bool, true, false, ◌||◌, List, [], ◌∷◌, ◌++◌, Bytes,
  length, take, drop, ltb, if◌then◌else◌,
}

pub record Stream : Type 0 where
  pub contents : Bytes
  pub position : ℕ
  pub eof : Bool
  pub fail : Bool

abbrev pub open_stream : Bytes → Stream
open_stream bytes = record { contents = bytes; position = 0; eof = false; fail = false }

-- What the destination holds after `got` was written to its front.
abbrev pub overwrite : Bytes → Bytes → Bytes
overwrite [] old = old
overwrite (b ∷ bs) [] = b ∷ bs
overwrite (b ∷ bs) (o ∷ os) = b ∷ overwrite bs os

-- `stream.read(&old[0], n)`: the destination's new bytes, and the stream.
unfoldable pub read : ℕ → Bytes → Stream → Bytes × Stream
read n old s =
    let got = take n (drop s.position s.contents) in
    if s.eof || s.fail
    then (old, record s { fail = true })
    else if ltb (length got) n
    then (
      overwrite got old,
      record s { position = s.position + length got; eof = true; fail = true },
    )
    else (overwrite got old, record s { position = s.position + n })

-- The little-endian value of bytes, and the bytes of a value in `w` bytes.
unfoldable pub from_le : Bytes → ℕ
from_le [] = 0
from_le (b ∷ bs) = b + 256 * from_le bs

unfoldable pub to_le : ℕ → ℕ → Bytes
to_le zero n = []
to_le (suc w) n = n % 256 ∷ to_le w (n / 256)

-- A read into an unsigned integer of `w` bytes whose value was `old`, on a little-endian machine.
unfoldable pub read_uint : ℕ → ℕ → Stream → ℕ × Stream
unfolding read from_le to_le
read_uint w old s = let (bytes, s') = read w (to_le w old) s in (from_le bytes, s')

-- `tellg()` converted to `uint64_t`: it is -1 on a stream that has failed.
unfoldable pub tellg : Stream → ℕ
tellg s = if s.fail then 2 ^ 64 - 1 else s.position

-- `seekg` clears `eof`, and moves a stream that has not failed. A move before the start fails.
unfoldable pub seekg_beg : ℕ → Stream → Stream
seekg_beg at s =
    if s.fail then record s { eof = false } else record s { position = at; eof = false }

-- `seekg(-n, cur)`.
unfoldable pub seekg_back : ℕ → Stream → Stream
seekg_back n s =
    if s.fail
    then record s { eof = false }
    else if ltb s.position n
    then record s { eof = false; fail = true }
    else record s { position = s.position - n; eof = false }

-- `seekg(n, cur)` forwards.
unfoldable pub seekg_forward : ℕ → Stream → Stream
seekg_forward n s =
    if s.fail then record s { eof = false } else record s { position = s.position + n; eof = false }

-- A piece of code that works on one stream.
abbrev pub Reader {ℓ} : Type ℓ → Type ℓ
Reader A = Stream → A × Stream

unfoldable pub pure {ℓ} : {A : Type ℓ} → A → Reader A
pure a s = (a, s)

infixl 5 ◌>>=◌
unfoldable pub ◌>>=◌ {ℓ κ} :
    {A : Type ℓ} {B : Type κ}
    → (Stream → A × Stream)
    → (A → Stream → B × Stream)
    → Stream
    → B × Stream
unfolding pure
◌>>=◌ m f s = let (a, s') = m s in f a s'
