-- ===== src/ByteArrayBuffer/Shows.antt =====
-- Reads and `tellg` on the buffer, as on `Stream`.
use blockchain_indexer.Base.{
  ℕ, ◌+◌, ◌-◌, ◌%◌, ◌^◌, ◌≤◌, ◌<◌, ◌≡◌, inl, inr, refl, sym, ap, ◌∙◌, Bool, true, false, ◌||◌,
  Bool-cases, Bytes, length, take, drop, arith, ltb, ok, pos, ◌+ℤ◌, to_uint64, length-take,
  length-drop, min,
}
use blockchain_indexer.Stream.{Stream, overwrite, open_stream, read, tellg}
use blockchain_indexer.ByteArrayBuffer.{IStream, open_buffer, read_buffer, tellg_buffer, seekoff}
use blockchain_indexer.ByteArrayBuffer.Places.{add_pos, standing, xsgetn-standing, sought-inside}

-- The same bytes and flags and, as long as no call has failed, the same place inside the bytes.
pub record Shows (s : Stream) (i : IStream) : Type 0 where
  pub small : length s.contents < 2 ^ 64
  pub same_bytes : i.buffer.bytes ≡ s.contents
  pub same_eof : i.eofbit ≡ s.eof
  pub same_fail : i.failbit ≡ s.fail
  pub placed : s.fail ≡ false → i.buffer.current ≡ pos s.position
  pub within : s.fail ≡ false → s.position ≤ length s.contents

-- The stream that stands at a place and has not failed.
abbrev pub good : Bytes → ℕ → Bool → IStream
good bytes p e = record { buffer = standing bytes p; eofbit = e; failbit = false }

IStream-good :
    (i : IStream) (bytes : Bytes) (p : ℕ) (e : Bool)
    → i.buffer.bytes ≡ bytes
    → i.buffer.current ≡ pos p
    → i.eofbit ≡ e
    → i.failbit ≡ false
    → i ≡ good bytes p e
IStream-good i bytes p e hb hc he hf = rw (← hb, ← hc, ← he, ← hf) refl

pub Shows-good :
    (s : Stream) (i : IStream) → Shows s i → s.fail ≡ false → i ≡ good s.contents s.position s.eof
Shows-good s i h f =
    IStream-good i s.contents s.position s.eof h.same_bytes (h.placed f) h.same_eof
      (h.same_fail ∙ f)

pub good-Shows :
    (s : Stream)
    → length s.contents < 2 ^ 64
    → s.fail ≡ false
    → s.position ≤ length s.contents
    → Shows s (good s.contents s.position s.eof)
good-Shows s small f within = record {
  small = small;
  same_bytes = refl;
  same_eof = refl;
  same_fail = sym f;
  placed = λ _. refl;
  within = λ _. within;
}

pub open-Shows : (raw : Bytes) → length raw < 2 ^ 64 → Shows (open_stream raw) (open_buffer raw)
open-Shows raw small = good-Shows (open_stream raw) small refl (omega arith)

-- Once both have failed, the places no longer matter.
pub failed-Shows :
    (s : Stream) (i : IStream)
    → length s.contents < 2 ^ 64
    → i.buffer.bytes ≡ s.contents
    → i.eofbit ≡ s.eof
    → s.fail ≡ true
    → i.failbit ≡ true
    → Shows s i
failed-Shows s i small b e f g = record {
  small = small;
  same_bytes = b;
  same_eof = e;
  same_fail = g ∙ sym f;
  placed = λ (n : s.fail ≡ false). cc;
  within = λ (n : s.fail ≡ false). cc;
}

abbrev ReadShows : ℕ → Bytes → Stream → IStream → Type 0
ReadShows n old s i =
    (i' : IStream) × (read_buffer n old i ≡ ok ((read n old s).0, i')) × Shows (read n old s).1 i'

read-failed :
    (n : ℕ) (old : Bytes) (s : Stream) (i : IStream)
    → Shows s i
    → (s.eof || s.fail) ≡ true
    → ReadShows n old s i
unfolding read read_buffer
read-failed n old s i h b =
    let b' : (i.eofbit || i.failbit) ≡ true = rw (h.same_eof, h.same_fail) b in
    rw (b, b')
      (
        record i { failbit = true },
        refl,
        failed-Shows _ _ h.small h.same_bytes h.same_eof refl refl,
      )

read_buffer-good :
    (n p : ℕ) (old bytes : Bytes)
    → p ≤ length bytes
    → read_buffer n old (good bytes p false) ≡ (
        let got = take n (drop p bytes) in
        ok (
          overwrite got old,
          record {
            buffer = standing bytes (p + length got);
            eofbit = ltb (length got) n;
            failbit = ltb (length got) n;
          },
        ))
unfolding read_buffer
read_buffer-good n p old bytes h = rw (xsgetn-standing n p bytes h) refl

read-good :
    (n : ℕ) (old : Bytes) (s : Stream) (i : IStream)
    → Shows s i
    → s.eof ≡ false
    → s.fail ≡ false
    → ReadShows n old s i
unfolding read
read-good n old s i h e f =
    let got = take n (drop s.position s.contents) in
    let inside = h.within f in
    let i-good : i ≡ good s.contents s.position false =
      Shows-good s i h f ∙ ap (good s.contents s.position) e in
    let reads =
      ap (read_buffer n old) i-good ∙ read_buffer-good n s.position old s.contents inside in
    let measured : length got ≡ min n (length s.contents - s.position) =
      length-take n (drop s.position s.contents) ∙ ap (min n) (length-drop s.position s.contents) in
    elim (Bool-cases (ltb (length got) n)) [
      | inl t ↦
          rw (e, f, t)
            (
              record {
                buffer = standing s.contents (s.position + length got);
                eofbit = true;
                failbit = true;
              },
              reads ∙ rw t refl,
              failed-Shows _ _ h.small refl refl refl refl,
            )
      | inr t ↦
          let all : length got ≡ n = ground arith in
          rw (e, f, t)
            (
              good s.contents (s.position + n) false,
              reads ∙ rw (t, all) refl,
              good-Shows (record s { position = s.position + n; eof = false; fail = false }) h.small
                  refl (omega (arith, inside, measured, all)),
            )
    ]

pub read-Shows : (n : ℕ) (old : Bytes) (s : Stream) (i : IStream) → Shows s i → ReadShows n old s i
read-Shows n old s i h = elim (Bool-cases (s.eof || s.fail)) [
  | inl b ↦ read-failed n old s i h b
  | inr b ↦ read-good n old s i h (ground arith) (ground arith)
]

pub tellg-Shows :
    (s : Stream) (i : IStream)
    → Shows s i
    → (i' : IStream) × (tellg_buffer i ≡ (tellg s, i')) × Shows s i'
unfolding tellg tellg_buffer seekoff to_uint64
tellg-Shows s i h = elim (Bool-cases s.fail) [
  | inl f ↦
      rw (h.same_fail ∙ f, f)
        (
          record i { failbit = true },
          refl,
          failed-Shows _ _ h.small h.same_bytes h.same_eof refl refl,
        )
  | inr f ↦
      let inside = h.within f in
      let small = h.small in
      let stays : pos s.position +ℤ pos 0 ≡ pos s.position =
        add_pos s.position 0 ∙ ap pos (omega arith) in
      let wraps : s.position % 2 ^ 64 ≡ s.position = omega (arith, inside, small) in
      rw (Shows-good s i h f, f, stays, sought-inside s.contents s.position inside, wraps)
        (
          good s.contents s.position s.eof,
          refl,
          good-Shows (record s { fail = false }) small refl inside,
        )
]
