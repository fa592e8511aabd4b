-- ===== src/ByteArrayBuffer.antt =====
-- src/byte_array_buffer.cpp: a stream buffer over bytes in memory, and `std::istream` over it, as far
-- as the readers use it. No get area is set, so each byte that is read is a call of `uflow`.
pub mod Client
pub mod Follows
pub mod Readers
pub mod Parts
pub mod Transaction
pub mod Places
pub mod Shows
pub mod Refines
use blockchain_indexer.Base.{
  ℕ, zero, suc, Bool, true, false, not, ◌&&◌, ◌||◌, List, [], ◌∷◌, Bytes, length, get_elem?, ltb,
  ◌==◌, if◌then◌else◌, Option, none, some, Result, ok, err, undefined, assertion, ◌>>=◌, ℤ, pos,
  negsuc, ◌+ℤ◌, ◌-ℤ◌, ltb_ℤ, to_uint64,
}
use blockchain_indexer.Stream.{overwrite}

-- `begin_` to `end_`, and `current_ - begin_`, which a bad seek can put outside.
pub record ByteArrayBuffer : Type 0 where
  pub bytes : Bytes
  pub current : ℤ

abbrev pub new_buffer : Bytes → ByteArrayBuffer
new_buffer bytes = record { bytes = bytes; current = pos 0 }

abbrev pub eq_ℤ : ℤ → ℤ → Bool
eq_ℤ (pos a) (pos b) = a == b
eq_ℤ (negsuc a) (negsuc b) = a == b
eq_ℤ _ _ = false

abbrev pub end_of : ByteArrayBuffer → ℤ
end_of b = pos (length b.bytes)

abbrev pub byte_or_outside : Option ℕ → Result ℕ
byte_or_outside none = err undefined
byte_or_outside (some byte) = ok byte

-- The byte at a pointer. A pointer outside the bytes must not be read.
abbrev pub deref : Bytes → ℤ → Result ℕ
deref bytes (pos at) = byte_or_outside (get_elem? bytes at)
deref bytes (negsuc _) = err undefined

-- A character of the traits, `none` for `eof()`.
unfoldable pub underflow : ByteArrayBuffer → Result (Option ℕ)
underflow b =
    if eq_ℤ b.current (end_of b)
    then ok none
    else (do byte ← deref b.bytes b.current; ok (some byte))

unfoldable pub uflow : ByteArrayBuffer → Result (Option ℕ × ByteArrayBuffer)
uflow b = if eq_ℤ b.current (end_of b) then ok (none, b) else (do
  byte ← deref b.bytes b.current
  ok (some byte, record b { current = b.current +ℤ pos 1 }))

-- Whether `ch` is a character other than the byte.
abbrev pub differs : Option ℕ → ℕ → Bool
differs none byte = false
differs (some ch) byte = not (ch == byte)

unfoldable pub pbackfail : Option ℕ → ByteArrayBuffer → Result (Option ℕ × ByteArrayBuffer)
pbackfail ch b = if eq_ℤ b.current (pos 0) then ok (none, b) else (do
  byte ← deref b.bytes (b.current -ℤ pos 1)
  if differs ch byte
      then ok (none, b)
      else ok (some byte, record b { current = b.current -ℤ pos 1 }))

unfoldable pub showmanyc : ByteArrayBuffer → Result ℤ
showmanyc b = if ltb_ℤ (end_of b) b.current then err assertion else ok (end_of b -ℤ b.current)

pub data SeekDir : Type 0 where
  beg : SeekDir
  cur : SeekDir
  end : SeekDir

-- The position that a seek returns: -1 when the pointer has left the bytes.
unfoldable pub sought : ByteArrayBuffer → ℤ
sought b = if ltb_ℤ b.current (pos 0) || ltb_ℤ (end_of b) b.current then negsuc 0 else b.current

abbrev pub pointer_after : ℤ → SeekDir → ByteArrayBuffer → ℤ
pointer_after off beg b = off
pointer_after off cur b = b.current +ℤ off
pointer_after off end b = end_of b

unfoldable pub seekoff : ℤ → SeekDir → ByteArrayBuffer → ℤ × ByteArrayBuffer
seekoff off way b = let b' = record b { current = pointer_after off way b } in (sought b', b')

unfoldable pub seekpos : ℤ → ByteArrayBuffer → ℤ × ByteArrayBuffer
seekpos sp b = let b' = record b { current = sp } in (sought b', b')

-- `std::istream` over the buffer.
pub record IStream : Type 0 where
  pub buffer : ByteArrayBuffer
  pub eofbit : Bool
  pub failbit : Bool

abbrev pub open_buffer : Bytes → IStream
open_buffer bytes = record { buffer = new_buffer bytes; eofbit = false; failbit = false }

-- `xsgetn` of `std::streambuf`: `uflow` until there is no more, or enough.
unfoldable pub xsgetn : ℕ → ByteArrayBuffer → Result (Bytes × ByteArrayBuffer)
unfolding uflow
xsgetn zero b = ok ([], b)
xsgetn (suc n) b = do
  (c, b1) ← uflow b
  elim c [ none ↦ ok ([], b1) | some byte ↦ do (bytes, b2) ← xsgetn n b1; ok (byte ∷ bytes, b2) ]

unfoldable pub read_buffer : ℕ → Bytes → IStream → Result (Bytes × IStream)
unfolding xsgetn
read_buffer n old s = if s.eofbit || s.failbit then ok (old, record s { failbit = true }) else (do
  (got, b) ← xsgetn n s.buffer
  let short = ltb (length got) n
  ok (overwrite got old, record { buffer = b; eofbit = short; failbit = short }))

-- `tellg()` converted to `uint64_t`.
unfoldable pub tellg_buffer : IStream → ℕ × IStream
unfolding seekoff
tellg_buffer s =
    if s.failbit
    then (to_uint64 (negsuc 0), s)
    else (let (at, b) = seekoff (pos 0) cur s.buffer in (to_uint64 at, record s { buffer = b }))

-- What a seek of the buffer leaves of the stream.
abbrev pub after_seek : ℤ × ByteArrayBuffer → IStream
after_seek (at, b) = record { buffer = b; eofbit = false; failbit = eq_ℤ at (negsuc 0) }

-- `seekg(sp)`.
unfoldable pub seekg_buffer : ℤ → IStream → IStream
unfolding seekpos
seekg_buffer sp s =
    if s.failbit then record s { eofbit = false } else after_seek (seekpos sp s.buffer)

-- `seekg(off, way)`.
unfoldable pub seekg_buffer_off : ℤ → SeekDir → IStream → IStream
unfolding seekoff
seekg_buffer_off off way s =
    if s.failbit then record s { eofbit = false } else after_seek (seekoff off way s.buffer)
