-- ===== src/ByteArrayBuffer/Parts.antt =====
-- The first pass over a transaction as a client, and where the positions lie that it remembers.
use blockchain_indexer.Base.{
  ℕ, ◌-◌, ◌≡◌, refl, ap, ◌∙◌, Bool, true, false, not, ◌&&◌, ◌==◌, get_or, Bytes, List, length,
  arith, if◌then◌else◌,
}
use blockchain_indexer.Types.{TransactionInput}
use blockchain_indexer.Stream.{Stream, pure, ◌>>=◌, read, to_le, tellg, seekg_back}
use blockchain_indexer.External.{Indeterminate}
use blockchain_indexer.BlockReader.{read_marker, read_witnesses, read_body, read_parts}
use blockchain_indexer.ByteArrayBuffer.Client.{
  Client, done, reading, telling, seeking_back, on_stream, Stays,
}
use blockchain_indexer.ByteArrayBuffer.Follows.{
  After, After-refl, Follows, Follows-pure, Follows-bind, Follows-read_uint, read-placed,
  read-After,
}
use blockchain_indexer.ByteArrayBuffer.Readers.{Follows-read_puts, Follows-read_witnesses}

abbrev position_of : Stream → ℕ × Stream
position_of s = (tellg s, s)

Follows-position_of : Follows position_of
unfolding on_stream Stays
Follows-position_of = record {
  client = telling done;
  same = λ s. refl;
  stays = λ s h. tt;
  onward = λ s. After-refl s;
}

Follows-eq {ℓ} :
    {A : Type ℓ} (f g : Stream → A × Stream) → ((s : Stream) → f s ≡ g s) → Follows f → Follows g
Follows-eq f g e h = record {
  client = h.client;
  same = λ s. h.same s ∙ e s;
  stays = h.stays;
  onward = λ s. rw (← e s) (h.onward s);
}

-- What follows the two bytes of the marker.
abbrev after_marker : Bool → Client Bool
after_marker true = done true
after_marker false = seeking_back 2 (done false)

on_stream-after_marker :
    (segwit : Bool) (s : Stream)
    → on_stream (after_marker segwit) s ≡ (segwit, if segwit then s else seekg_back 2 s)
unfolding on_stream
on_stream-after_marker true s = refl
on_stream-after_marker false s = refl

Stays-after_marker : (segwit : Bool) (s : Stream) → Stays (after_marker segwit) s
unfolding Stays
Stays-after_marker true s = tt
Stays-after_marker false s = tt

back-placed :
    (n : ℕ) (t : Stream)
    → (seekg_back n t).fail ≡ false
    → (t.fail ≡ false) × ((seekg_back n t).position ≡ t.position - n)
unfolding seekg_back
back-placed n t h = (ground arith, ground arith)

back-contents : (n : ℕ) (t : Stream) → (seekg_back n t).contents ≡ t.contents
unfolding seekg_back
back-contents n t = ground arith

-- Moving back over what was just read.
back-After :
    (segwit : Bool) (old : Bytes) (s : Stream)
    → After s (if segwit then (read 2 old s).1 else seekg_back 2 (read 2 old s).1)
back-After true old s = read-After 2 old s
back-After false old s =
    let t = (read 2 old s).1 in
    record {
      same_contents = back-contents 2 t ∙ (read-After 2 old s).same_contents;
      not_failed = λ h. (read-placed 2 old s (back-placed 2 t h).0).0;
      behind = λ h.
          let (good, back) = back-placed 2 t h in
          let p = (read-placed 2 old s good).1 in omega (arith, p, back);
      inside = λ i h.
          let (good, back) = back-placed 2 t h in
          let here = (read-After 2 old s).inside i good in
          let c = ap (λ (bs : Bytes). length bs) (back-contents 2 t) in
          omega (arith, here, back, c);
    }

pub Follows-read_marker : (junk : Indeterminate) → Follows (read_marker junk)
unfolding read_marker on_stream Stays
Follows-read_marker junk = record {
  client = reading 2 (to_le 2 junk.word) (λ marker. after_marker (is_segwit marker));
  same = λ s.
      let (marker, s1) = read 2 (to_le 2 junk.word) s in
      on_stream-after_marker (is_segwit marker) s1;
  stays = λ s h.
      let (marker, s1) = read 2 (to_le 2 junk.word) s in Stays-after_marker (is_segwit marker) s1;
  onward = λ s. back-After (is_segwit (read 2 (to_le 2 junk.word) s).0) (to_le 2 junk.word) s;
}
  where
    is_segwit : Bytes → Bool
    is_segwit marker = get_or marker 0 0 == 0x00 && not (get_or marker 1 0 == 0x00)

module _ (junk : Indeterminate) where
  pub Follows-witnesses :
      (segwit : Bool) (inputs : List TransactionInput)
      → Follows (λ (s : Stream). if segwit then read_witnesses inputs s else (inputs, s))
  unfolding pure
  Follows-witnesses true inputs = Follows-read_witnesses inputs
  Follows-witnesses false inputs = Follows-pure inputs

  Follows-read_body :
      (start version : ℕ) (segwit : Bool) → Follows (read_body junk start version segwit)
  unfolding read_body ◌>>=◌ pure
  Follows-read_body start version segwit =
      Follows-eq _ (read_body junk start version segwit) (λ s. refl)
        (Follows-bind _ _ Follows-position_of (λ start_pos_inputs.
          Follows-bind _ _ (Follows-read_puts junk) (λ puts.
            Follows-bind _ _ Follows-position_of (λ end_pos_outputs.
              Follows-bind _ _ (Follows-witnesses segwit puts.0) (λ inputs.
                Follows-bind _ _ (Follows-read_uint 4 junk.word) (λ lock_time.
                  Follows-bind _ _ Follows-position_of (λ end_pos_tx. Follows-pure (record {
                    segwit = segwit;
                    version = version;
                    inputs = inputs;
                    outputs = puts.1;
                    lock_time = lock_time;
                    marks = record {
                      start_pos_tx = start;
                      start_pos_inputs = start_pos_inputs;
                      end_pos_outputs = end_pos_outputs;
                      end_pos_tx = end_pos_tx;
                    };
                  }))))))))

  pub Follows-read_parts : Follows (read_parts junk)
  unfolding read_parts ◌>>=◌
  Follows-read_parts =
      Follows-eq _ (read_parts junk) (λ s. refl)
        (Follows-bind _ _ Follows-position_of (λ start.
          Follows-bind _ _ (Follows-read_uint 4 junk.word) (λ version.
            Follows-bind _ _ (Follows-read_marker junk)
              (λ segwit. Follows-read_body start version segwit))))
