-- ===== src/BlockScanner/Progress.antt =====
-- The scanner never moves back in the file, and a magic number that is found lies inside it.
use blockchain_indexer.Base.{
  ℕ, ◌+◌, ◌≤◌, ◌≡◌, refl, ◌∙◌, true, false, ◌||◌, Bool-cases, inl, inr, Bytes, Str, length, take,
  drop, ltb, arith, length-take, length-drop, replicate,
}
use blockchain_indexer.External.{Crypto, CoinParams, Indeterminate}
use blockchain_indexer.Stream.{Stream, read, read_uint, to_le, seekg_forward}
use blockchain_indexer.BlockScanner.{move_next, scan_next_block}

-- The stream is over the same file, and not further back.
pub record Onward (s t : Stream) : Type 0 where
  pub same_file : t.contents ≡ s.contents
  pub not_back : s.position ≤ t.position

Onward-trans : {s t u : Stream} → Onward s t → Onward t u → Onward s u
Onward-trans a b = record {
  same_file = b.same_file ∙ a.same_file;
  not_back = omega (arith, a.not_back, b.not_back);
}

read-Onward : (n : ℕ) (old : Bytes) (s : Stream) → Onward s (read n old s).1
unfolding read
read-Onward n old s = elim (Bool-cases (s.eof || s.fail)) [
  | inl e ↦ rw e (record { same_file = refl; not_back = omega arith })
  | inr e ↦ rw e (elim (Bool-cases (ltb (length (take n (drop s.position s.contents))) n)) [
    | inl f ↦ rw f (record { same_file = refl; not_back = omega arith })
    | inr f ↦ rw f (record { same_file = refl; not_back = omega arith })
  ])
]

read_uint-Onward : (w old : ℕ) (s : Stream) → Onward s (read_uint w old s).1
unfolding read_uint
read_uint-Onward w old s = read-Onward w (to_le w old) s

seekg_forward-Onward : (n : ℕ) (s : Stream) → Onward s (seekg_forward n s)
unfolding seekg_forward
seekg_forward-Onward n s = elim (Bool-cases s.fail) [
  | inl e ↦ rw e (record { same_file = refl; not_back = omega arith })
  | inr e ↦ rw e (record { same_file = refl; not_back = omega arith })
]

pub scan_next_block-Onward :
    (crypto : Crypto) (junk : Indeterminate) (name : Str) (s : Stream)
    → Onward s (scan_next_block crypto junk name s).1
unfolding scan_next_block
scan_next_block-Onward crypto junk name s = Onward-trans (read_uint-Onward 4 junk.word s) (
    Onward-trans (read-Onward 80 (replicate 80 0) (read_uint 4 junk.word s).1)
      (seekg_forward-Onward _ _))

-- A read of four bytes that leaves no flag set lies inside the file.
read-inside :
    (old : Bytes) (s : Stream)
    → (read 4 old s).1.eof ≡ false
    → (read 4 old s).1.fail ≡ false
    → ((read 4 old s).1.position ≡ s.position + 4) × (s.position + 4 ≤ length s.contents)
unfolding read
read-inside old s e f = elim (Bool-cases (s.eof || s.fail)) [
  | inl c ↦ absurd (let g : true ≡ false = rw c at f in cc g)
  | inr c ↦ elim (Bool-cases (ltb (length (take 4 (drop s.position s.contents))) 4)) [
    | inl d ↦ absurd (let g : true ≡ false = rw (c, d) at f in cc g)
    | inr d ↦
        rw (c, d)
          (
            refl,
            ground (
              arith,
              length-take 4 (drop s.position s.contents),
              length-drop s.position s.contents,
            ),
          )
  ]
]

-- A scanner that finds the magic number has moved by four bytes, over the same file, and these lie
-- inside the file.
pub move_next-inside :
    (params : CoinParams) (s : Stream)
    → (move_next params s).0 ≡ true
    → ((move_next params s).1.contents ≡ s.contents)
      × ((move_next params s).1.position ≡ s.position + 4)
      × (s.position + 4 ≤ length s.contents)
unfolding move_next
move_next-inside params s h =
    let (buffer, s1) = read 4 (replicate 4 0) s in
    elim (Bool-cases s1.eof) [
      | inl e ↦ absurd (let g : false ≡ true = rw e at h in cc g)
      | inr e ↦ elim (Bool-cases s1.fail) [
        | inl f ↦ absurd (let g : false ≡ true = rw (e, f) at h in cc g)
        | inr f ↦
            let (moved, inside) = read-inside (replicate 4 0) s e f in
            ((read-Onward 4 (replicate 4 0) s).same_file, moved, inside)
      ]
    ]
