-- ===== src/ByteArrayBuffer/Client.antt =====
-- Code over a stream, as the tree of the calls that it makes, run on `Stream` and on the buffer.
use blockchain_indexer.Base.{
  ℕ, ◌+◌, ◌≤◌, ◌≡◌, ◌⊎◌, true, Bytes, length, Result, ok, ◌>>=◌, pos, sub_ℕ,
}
use blockchain_indexer.Stream.{Stream, read, tellg, seekg_beg, seekg_back, seekg_forward}
use blockchain_indexer.ByteArrayBuffer.{
  IStream, beg, cur, end, read_buffer, tellg_buffer, seekg_buffer, seekg_buffer_off,
}

-- Seeks: `seekg(x, ios_base::beg)`, `seekg(x)`, `seekg(0, ios_base::end)`, `seekg(-n, ios_base::cur)`
-- and `seekg(n, ios_base::cur)`.
pub data Client {ℓ} (A : Type ℓ) : Type ℓ where
  done : A → Client A
  reading : ℕ → Bytes → (Bytes → Client A) → Client A
  telling : (ℕ → Client A) → Client A
  seeking : ℕ → Client A → Client A
  seeking_pos : ℕ → Client A → Client A
  seeking_end : Client A → Client A
  seeking_back : ℕ → Client A → Client A
  seeking_forward : ℕ → Client A → Client A

module _ {ℓ} {A : Type ℓ} where
  unfoldable pub on_stream : Client A → Stream → A × Stream
  on_stream (done a) s = (a, s)
  on_stream (reading n old next) s = let (bytes, s') = read n old s in on_stream (next bytes) s'
  on_stream (telling next) s = on_stream (next (tellg s)) s
  on_stream (seeking at next) s = on_stream next (seekg_beg at s)
  on_stream (seeking_pos at next) s = on_stream next (seekg_beg at s)
  on_stream (seeking_end next) s = on_stream next (seekg_beg (length s.contents) s)
  on_stream (seeking_back n next) s = on_stream next (seekg_back n s)
  on_stream (seeking_forward n next) s = on_stream next (seekg_forward n s)

  unfoldable pub on_buffer : Client A → IStream → Result (A × IStream)
  on_buffer (done a) s = ok (a, s)
  on_buffer (reading n old next) s = do (bytes, s') ← read_buffer n old s; on_buffer (next bytes) s'
  on_buffer (telling next) s = let (at, s') = tellg_buffer s in on_buffer (next at) s'
  on_buffer (seeking at next) s = on_buffer next (seekg_buffer_off (pos at) beg s)
  on_buffer (seeking_pos at next) s = on_buffer next (seekg_buffer (pos at) s)
  on_buffer (seeking_end next) s = on_buffer next (seekg_buffer_off (pos 0) end s)
  on_buffer (seeking_back n next) s = on_buffer next (seekg_buffer_off (sub_ℕ 0 n) cur s)
  on_buffer (seeking_forward n next) s = on_buffer next (seekg_buffer_off (pos n) cur s)

  -- As long as no call has failed, no seek goes beyond the end of the contents.
  unfoldable pub Stays : Client A → Stream → Type 0
  Stays (done a) s = Unit
  Stays (reading n old next) s = let (bytes, s') = read n old s in Stays (next bytes) s'
  Stays (telling next) s = Stays (next (tellg s)) s
  Stays (seeking at next) s =
      ((s.fail ≡ true) ⊎ (at ≤ length s.contents)) × Stays next (seekg_beg at s)
  Stays (seeking_pos at next) s =
      ((s.fail ≡ true) ⊎ (at ≤ length s.contents)) × Stays next (seekg_beg at s)
  Stays (seeking_end next) s = Stays next (seekg_beg (length s.contents) s)
  Stays (seeking_back n next) s = Stays next (seekg_back n s)
  Stays (seeking_forward n next) s =
      ((s.fail ≡ true) ⊎ (s.position + n ≤ length s.contents)) × Stays next (seekg_forward n s)
