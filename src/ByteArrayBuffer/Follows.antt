-- ===== src/ByteArrayBuffer/Follows.antt =====
-- Readers whose calls a client makes, none of them a seek beyond the end.
use blockchain_indexer.Base.{
  ℕ, ◌+◌, ◌-◌, min, ◌≤◌, ◌≡◌, refl, ap, ◌∙◌, inl, inr, Bool, true, false, ◌||◌, Bool-cases, Bytes,
  length, take, drop, arith, ltb, if◌then◌else◌, length-take, length-drop,
}
use blockchain_indexer.Stream.{
  Stream, Reader, pure, ◌>>=◌, read, read_uint, from_le, to_le, tellg, seekg_beg, seekg_back,
  seekg_forward,
}
use blockchain_indexer.ByteArrayBuffer.Client.{
  Client, done, reading, telling, seeking, seeking_pos, seeking_end, seeking_back, seeking_forward,
  on_stream, Stays,
}

-- A client that goes on with what another has found.
unfoldable pub and_then {ℓ κ} : {A : Type ℓ} {B : Type κ} → Client A → (A → Client B) → Client B
and_then (done a) next = next a
and_then (reading n old rest) next = reading n old (λ bytes. and_then (rest bytes) next)
and_then (telling rest) next = telling (λ at. and_then (rest at) next)
and_then (seeking at rest) next = seeking at (and_then rest next)
and_then (seeking_pos at rest) next = seeking_pos at (and_then rest next)
and_then (seeking_end rest) next = seeking_end (and_then rest next)
and_then (seeking_back n rest) next = seeking_back n (and_then rest next)
and_then (seeking_forward n rest) next = seeking_forward n (and_then rest next)

module _ {ℓ κ} {A : Type ℓ} {B : Type κ} (next : A → Client B) where
  pub on_stream-and_then :
      (c : Client A) (s : Stream)
      → on_stream (and_then c next) s ≡ on_stream (next (on_stream c s).0) (on_stream c s).1
  unfolding on_stream and_then
  on_stream-and_then (done a) s = refl
  on_stream-and_then (reading n old rest) s =
      on_stream-and_then (rest (read n old s).0) (read n old s).1
  on_stream-and_then (telling rest) s = on_stream-and_then (rest (tellg s)) s
  on_stream-and_then (seeking at rest) s = on_stream-and_then rest (seekg_beg at s)
  on_stream-and_then (seeking_pos at rest) s = on_stream-and_then rest (seekg_beg at s)
  on_stream-and_then (seeking_end rest) s =
      on_stream-and_then rest (seekg_beg (length s.contents) s)
  on_stream-and_then (seeking_back n rest) s = on_stream-and_then rest (seekg_back n s)
  on_stream-and_then (seeking_forward n rest) s = on_stream-and_then rest (seekg_forward n s)

  pub Stays-and_then :
      (c : Client A) (s : Stream)
      → Stays c s
      → Stays (next (on_stream c s).0) (on_stream c s).1
      → Stays (and_then c next) s
  unfolding on_stream and_then Stays
  Stays-and_then (done a) s h k = k
  Stays-and_then (reading n old rest) s h k =
      Stays-and_then (rest (read n old s).0) (read n old s).1 h k
  Stays-and_then (telling rest) s h k = Stays-and_then (rest (tellg s)) s h k
  Stays-and_then (seeking at rest) s (i, h) k = (i, Stays-and_then rest (seekg_beg at s) h k)
  Stays-and_then (seeking_pos at rest) s (i, h) k = (i, Stays-and_then rest (seekg_beg at s) h k)
  Stays-and_then (seeking_end rest) s h k =
      Stays-and_then rest (seekg_beg (length s.contents) s) h k
  Stays-and_then (seeking_back n rest) s h k = Stays-and_then rest (seekg_back n s) h k
  Stays-and_then (seeking_forward n rest) s (i, h) k =
      (i, Stays-and_then rest (seekg_forward n s) h k)

-- A stream that has failed, or stands inside its contents.
abbrev pub Inside : Stream → Type 0
Inside s = s.fail ≡ false → s.position ≤ length s.contents

-- `t` comes from `s` by reading on.
pub record After (s t : Stream) : Type 0 where
  pub same_contents : t.contents ≡ s.contents
  pub not_failed : t.fail ≡ false → s.fail ≡ false
  pub behind : t.fail ≡ false → s.position ≤ t.position
  pub inside : Inside s → Inside t

pub After-refl : (s : Stream) → After s s
After-refl s = record {
  same_contents = refl;
  not_failed = λ h. h;
  behind = λ h. omega arith;
  inside = λ h. h;
}

pub After-trans : (s t u : Stream) → After s t → After t u → After s u
After-trans s t u a b = record {
  same_contents = b.same_contents ∙ a.same_contents;
  not_failed = λ h. a.not_failed (b.not_failed h);
  behind = λ h. let x = b.behind h in let y = a.behind (b.not_failed h) in omega (arith, x, y);
  inside = λ h. b.inside (a.inside h);
}

-- The client that makes the calls of a reader, which only reads on.
pub record Follows {ℓ} {A : Type ℓ} (f : Stream → A × Stream) : Type ℓ where
  pub client : Client A
  pub same : (s : Stream) → on_stream client s ≡ f s
  pub stays : (s : Stream) → Inside s → Stays client s
  pub onward : (s : Stream) → After s (f s).1

module _ {ℓ} {A : Type ℓ} where
  pub Follows-pure : (a : A) → Follows (pure a)
  unfolding pure on_stream Stays
  Follows-pure a = record {
    client = done a;
    same = λ s. refl;
    stays = λ s h. tt;
    onward = λ s. After-refl s;
  }

  pub Follows-if :
      (b : Bool) (f g : Reader A) → Follows f → Follows g → Follows (if b then f else g)
  Follows-if true f g hf hg = hf
  Follows-if false f g hf hg = hg

module _ {ℓ κ} {A : Type ℓ} {B : Type κ} where
  pub Follows-bind :
      (f : Reader A) (g : A → Reader B) → Follows f → ((a : A) → Follows (g a)) → Follows (f >>= g)
  unfolding ◌>>=◌
  Follows-bind f g hf hg = record {
    client = and_then hf.client (λ a. (hg a).client);
    same = λ s.
        on_stream-and_then (λ a. (hg a).client) hf.client s
        ∙ ap (λ (p : A × Stream). on_stream (hg p.0).client p.1) (hf.same s)
        ∙ (hg (f s).0).same (f s).1;
    stays = λ s h.
        Stays-and_then (λ a. (hg a).client) hf.client s (hf.stays s h)
          (rw (hf.same s) ((hg (f s).0).stays (f s).1 ((hf.onward s).inside h)));
    onward = λ s.
        After-trans s (f s).1 (g (f s).0 (f s).1).1 (hf.onward s) ((hg (f s).0).onward (f s).1);
  }

-- A read that has not failed took all its bytes, from inside the contents.
pub read-placed :
    (n : ℕ) (old : Bytes) (s : Stream)
    → (read n old s).1.fail ≡ false
    → (s.fail ≡ false)
      × ((read n old s).1.position ≡ s.position + n)
      × (n ≤ length s.contents - s.position)
unfolding read
read-placed n old s h =
    let measured : length (take n (drop s.position s.contents))
        ≡ min n (length s.contents - s.position) =
      length-take n (drop s.position s.contents) ∙ ap (min n) (length-drop s.position s.contents) in
    elim (Bool-cases (s.eof || s.fail)) [
      | inl b ↦ absurd (ground arith)
      | inr b ↦ elim (Bool-cases (ltb (length (take n (drop s.position s.contents))) n)) [
        | inl t ↦ absurd (ground arith)
        | inr t ↦ (ground arith, ground arith, ground arith)
      ]
    ]

pub read-contents : (n : ℕ) (old : Bytes) (s : Stream) → (read n old s).1.contents ≡ s.contents
unfolding read
read-contents n old s = ground arith

pub read-After : (n : ℕ) (old : Bytes) (s : Stream) → After s (read n old s).1
read-After n old s = record {
  same_contents = read-contents n old s;
  not_failed = λ h. (read-placed n old s h).0;
  behind = λ h. let p = (read-placed n old s h).1 in omega (arith, p);
  inside = λ i h.
      let (f, p, l) = read-placed n old s h in
      let here = i f in
      let c : length (read n old s).1.contents ≡ length s.contents =
        ap (λ (bs : Bytes). length bs) (read-contents n old s) in
      omega (arith, p, l, here, c);
}

pub Follows-read : (n : ℕ) (old : Bytes) → Follows (read n old)
unfolding on_stream Stays
Follows-read n old = record {
  client = reading n old done;
  same = λ s. refl;
  stays = λ s h. tt;
  onward = λ s. read-After n old s;
}

pub Follows-read_uint : (w old : ℕ) → Follows (read_uint w old)
unfolding on_stream Stays read_uint
Follows-read_uint w old = record {
  client = reading w (to_le w old) (λ bytes. done (from_le bytes));
  same = λ s. refl;
  stays = λ s h. tt;
  onward = λ s. read-After w (to_le w old) s;
}
