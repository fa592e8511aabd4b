-- ===== src/ByteArrayBuffer/Refines.antt =====
-- `std::istream` over the buffer behaves as `Stream` does.
use blockchain_indexer.Base.{
  ℕ, ◌+◌, ◌-◌, ◌≤◌, ◌<◌, ◌≡◌, ◌⊎◌, inl, inr, refl, ◌∙◌, Bool, true, false, Bool-cases, Bytes,
  length, arith, ltb, ok, ℤ, pos, sub_ℕ, ◌+ℤ◌,
}
use blockchain_indexer.Stream.{Stream, read, tellg, seekg_beg, seekg_back, seekg_forward}
use blockchain_indexer.ByteArrayBuffer.{
  IStream, after_seek, beg, cur, end, seekg_buffer, seekg_buffer_off, seekoff, seekpos, sought,
}
use blockchain_indexer.ByteArrayBuffer.Client.{
  Client, done, reading, telling, seeking, seeking_pos, seeking_end, seeking_back, seeking_forward,
  on_stream, on_buffer, Stays,
}
use blockchain_indexer.ByteArrayBuffer.Places.{
  add_pos, back_inside, back_outside, sought-inside, sought-before,
}
use blockchain_indexer.ByteArrayBuffer.Shows.{
  Shows, good, Shows-good, good-Shows, failed-Shows, read-Shows, tellg-Shows,
}

-- A seek to a place inside the bytes.
seek_to :
    (bytes : Bytes) (p : ℕ) (at : ℤ) (e : Bool)
    → p ≤ length bytes
    → at ≡ pos p
    → after_seek
        (sought (record { bytes = bytes; current = at }), record { bytes = bytes; current = at })
      ≡ good bytes p false
seek_to bytes p at e h a = rw (a, sought-inside bytes p h) refl

-- Either the call has failed, or it has not and the place is inside.
failed-or : {P : Type 0} (b : Bool) → (b ≡ true) ⊎ P → (b ≡ true) ⊎ ((b ≡ false) × P)
failed-or true h = inl refl
failed-or false (inl e) = absurd (cc)
failed-or false (inr p) = inr (refl, p)

seekg-Shows :
    (at : ℕ) (s : Stream) (i : IStream)
    → Shows s i
    → (s.fail ≡ true) ⊎ (at ≤ length s.contents)
    → Shows (seekg_beg at s) (seekg_buffer (pos at) i)
unfolding seekg_beg seekg_buffer seekpos
seekg-Shows at s i h inside = elim (failed-or s.fail inside) [
  | inl f ↦ rw (h.same_fail ∙ f, f) (failed-Shows _ _ h.small h.same_bytes refl refl refl)
  | inr (f, within) ↦
      rw (Shows-good s i h f, f)
        (rw (seek_to s.contents at (pos at) false within refl)
          (good-Shows (record s { position = at; eof = false; fail = false }) h.small refl within))
]

seekg_beg-Shows :
    (at : ℕ) (s : Stream) (i : IStream)
    → Shows s i
    → (s.fail ≡ true) ⊎ (at ≤ length s.contents)
    → Shows (seekg_beg at s) (seekg_buffer_off (pos at) beg i)
unfolding seekg_beg seekg_buffer_off seekoff
seekg_beg-Shows at s i h inside = elim (failed-or s.fail inside) [
  | inl f ↦ rw (h.same_fail ∙ f, f) (failed-Shows _ _ h.small h.same_bytes refl refl refl)
  | inr (f, within) ↦
      rw (Shows-good s i h f, f)
        (rw (seek_to s.contents at (pos at) false within refl)
          (good-Shows (record s { position = at; eof = false; fail = false }) h.small refl within))
]

seekg_end-Shows :
    (s : Stream) (i : IStream)
    → Shows s i
    → Shows (seekg_beg (length s.contents) s) (seekg_buffer_off (pos 0) end i)
unfolding seekg_beg seekg_buffer_off seekoff
seekg_end-Shows s i h = elim (Bool-cases s.fail) [
  | inl f ↦ rw (h.same_fail ∙ f, f) (failed-Shows _ _ h.small h.same_bytes refl refl refl)
  | inr f ↦
      let here : length s.contents ≤ length s.contents = omega arith in
      rw (Shows-good s i h f, f)
        (rw (seek_to s.contents (length s.contents) (pos (length s.contents)) false here refl) (
          good-Shows (record s { position = length s.contents; eof = false; fail = false }) h.small
            refl here))
]

seekg_forward-Shows :
    (n : ℕ) (s : Stream) (i : IStream)
    → Shows s i
    → (s.fail ≡ true) ⊎ (s.position + n ≤ length s.contents)
    → Shows (seekg_forward n s) (seekg_buffer_off (pos n) cur i)
unfolding seekg_forward seekg_buffer_off seekoff
seekg_forward-Shows n s i h inside = elim (failed-or s.fail inside) [
  | inl f ↦ rw (h.same_fail ∙ f, f) (failed-Shows _ _ h.small h.same_bytes refl refl refl)
  | inr (f, within) ↦
      rw (Shows-good s i h f, f)
        (rw
          (seek_to s.contents (s.position + n) (pos s.position +ℤ pos n) false within
            (add_pos s.position n))
          (good-Shows (record s { position = s.position + n; eof = false; fail = false }) h.small
            refl within))
]

seekg_back-Shows :
    (n : ℕ) (s : Stream) (i : IStream)
    → Shows s i
    → Shows (seekg_back n s) (seekg_buffer_off (sub_ℕ 0 n) cur i)
unfolding seekg_back seekg_buffer_off seekoff
seekg_back-Shows n s i h = elim (Bool-cases s.fail) [
  | inl f ↦ rw (h.same_fail ∙ f, f) (failed-Shows _ _ h.small h.same_bytes refl refl refl)
  | inr f ↦ elim (Bool-cases (ltb s.position n)) [
    | inl t ↦
        let before : s.position < n = ground arith in
        rw (Shows-good s i h f, f, t)
          (rw (back_outside s.position n before, sought-before s.contents (n - s.position - 1))
            (failed-Shows _ _ h.small refl refl refl refl))
    | inr t ↦
        let inside = h.within f in
        let behind : n ≤ s.position = ground arith in
        let stays : s.position - n ≤ length s.contents = omega (arith, inside) in
        rw (Shows-good s i h f, f, t)
          (rw
            (seek_to s.contents (s.position - n) (pos s.position +ℤ sub_ℕ 0 n) false stays
              (back_inside s.position n behind))
            (good-Shows (record s { position = s.position - n; eof = false; fail = false }) h.small
              refl stays))
  ]
]

module _ {ℓ} {A : Type ℓ} where
  abbrev pub Refines : Client A → Stream → IStream → Type ℓ
  Refines client s i =
      (i' : IStream) × (on_buffer client i ≡ ok ((on_stream client s).0, i'))
      × Shows (on_stream client s).1 i'

  -- Whatever calls of read, tellg, seekg to a position, and seekg by an offset from the front, from
  -- the current position, or of zero from the end a client makes, each depending on what the
  -- earlier ones gave, over a byte_array_buffer of fewer than 2 ^ 64 bytes it finds what it finds
  -- over an ordinary stream of the same bytes, and reads nothing outside them, as long as it does
  -- not seek beyond their end while no call has failed.
  pub on_buffer-Refines :
      (client : Client A) (s : Stream) (i : IStream)
      → Shows s i
      → Stays client s
      → Refines client s i
  unfolding on_stream on_buffer Stays
  on_buffer-Refines (done a) s i h stays = (i, refl, h)
  on_buffer-Refines (reading n old next) s i h stays =
      let (i1, reads, h1) = read-Shows n old s i h in
      rw reads (on_buffer-Refines (next (read n old s).0) (read n old s).1 i1 h1 stays)
  on_buffer-Refines (telling next) s i h stays =
      let (i1, tells, h1) = tellg-Shows s i h in
      rw tells (on_buffer-Refines (next (tellg s)) s i1 h1 stays)
  on_buffer-Refines (seeking at next) s i h (inside, stays) =
      on_buffer-Refines next (seekg_beg at s) (seekg_buffer_off (pos at) beg i)
        (seekg_beg-Shows at s i h inside) stays
  on_buffer-Refines (seeking_pos at next) s i h (inside, stays) =
      on_buffer-Refines next (seekg_beg at s) (seekg_buffer (pos at) i)
        (seekg-Shows at s i h inside) stays
  on_buffer-Refines (seeking_end next) s i h stays =
      on_buffer-Refines next (seekg_beg (length s.contents) s) (seekg_buffer_off (pos 0) end i)
        (seekg_end-Shows s i h) stays
  on_buffer-Refines (seeking_back n next) s i h stays =
      on_buffer-Refines next (seekg_back n s) (seekg_buffer_off (sub_ℕ 0 n) cur i)
        (seekg_back-Shows n s i h) stays
  on_buffer-Refines (seeking_forward n next) s i h (inside, stays) =
      on_buffer-Refines next (seekg_forward n s) (seekg_buffer_off (pos n) cur i)
        (seekg_forward-Shows n s i h inside) stays
