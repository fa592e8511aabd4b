-- ===== src/ByteArrayBuffer/Transaction.antt =====
-- A transaction read through the buffer, as startWatcher of src/mempoolmonitor.cpp reads it.
use blockchain_indexer.Base.{
  ℕ, ◌-◌, ◌^◌, ◌≤◌, ◌<◌, ◌≡◌, ◌⊎◌, inl, inr, refl, ap, ◌∙◌, Bool, true, false, replicate, Bytes,
  length, arith, if◌then◌else◌, Str, ok,
}
use blockchain_indexer.Types.{Transaction}
use blockchain_indexer.Stream.{Stream, read, read_uint, to_le, tellg, seekg_beg}
use blockchain_indexer.External.{Crypto, Indeterminate}
use blockchain_indexer.BlockReader.{
  Marks, read_marker, read_puts, read_witnesses, read_body, read_parts, sub64, double_hash,
  tx_hash_bytes, hash_transaction, read_transaction,
}
use blockchain_indexer.ByteArrayBuffer.{IStream}
use blockchain_indexer.ByteArrayBuffer.Client.{
  Client, done, reading, seeking, on_stream, on_buffer, Stays,
}
use blockchain_indexer.ByteArrayBuffer.Follows.{
  Inside, After, After-trans, read-placed, read-contents, read-After, and_then, on_stream-and_then,
  Stays-and_then,
}
use blockchain_indexer.ByteArrayBuffer.Readers.{Follows-read_puts}
use blockchain_indexer.ByteArrayBuffer.Parts.{
  Follows-read_marker, Follows-witnesses, Follows-read_parts,
}
use blockchain_indexer.ByteArrayBuffer.Shows.{Shows}
use blockchain_indexer.ByteArrayBuffer.Refines.{on_buffer-Refines}

-- As long as no call has failed, the second pass goes back to places inside the contents.
record MarksInside (m : Marks) (s : Stream) : Type 0 where
  start : s.fail ≡ false → m.start_pos_tx ≤ length s.contents
  inputs : s.fail ≡ false → m.start_pos_inputs ≤ length s.contents
  lock : s.fail ≡ false → sub64 m.end_pos_tx 4 ≤ length s.contents
  stop : s.fail ≡ false → m.end_pos_tx ≤ length s.contents

MarksInside-later :
    (m : Marks) (s t : Stream)
    → t.contents ≡ s.contents
    → (t.fail ≡ false → s.fail ≡ false)
    → MarksInside m s
    → MarksInside m t
MarksInside-later m s t c f h = record {
  start = λ e. rw c (h.start (f e));
  inputs = λ e. rw c (h.inputs (f e));
  lock = λ e. rw c (h.lock (f e));
  stop = λ e. rw c (h.stop (f e));
}

MarksInside-read :
    (m : Marks) (n : ℕ) (old : Bytes) (s : Stream)
    → MarksInside m s
    → MarksInside m (read n old s).1
MarksInside-read m n old s h =
    MarksInside-later m s (read n old s).1 (read-contents n old s) (λ e. (read-placed n old s e).0)
      h

MarksInside-seek :
    (m : Marks) (at : ℕ) (s : Stream) → MarksInside m s → MarksInside m (seekg_beg at s)
unfolding seekg_beg
MarksInside-seek m at s h =
    MarksInside-later m s (seekg_beg at s) (ground arith)
      (λ (e : (seekg_beg at s).fail ≡ false). ground arith) h

tellg_good : (s : Stream) → s.fail ≡ false → tellg s ≡ s.position
unfolding tellg
tellg_good s f = rw f refl

-- A position that was told on the way, when nothing has failed since.
told_within : (s t : Stream) → After s t → Inside t → t.fail ≡ false → tellg s ≤ length t.contents
told_within s t a i f =
    let told = tellg_good s (a.not_failed f) in
    let p = a.behind f in let here = i f in omega (arith, told, p, here)

sub64-4 : (p : ℕ) → 4 ≤ p → p < 2 ^ 64 → sub64 p 4 ≡ p - 4
unfolding sub64
sub64-4 p h k = omega arith

module _ (junk : Indeterminate) where
  MarksInside-read_parts :
      (s : Stream)
      → Inside s
      → length s.contents < 2 ^ 64
      → MarksInside (read_parts junk s).0.marks (read_parts junk s).1
  unfolding read_parts read_body read_uint
  MarksInside-read_parts s i small =
      let s1 = (read_uint 4 junk.word s).1 in
      let (segwit, s2) = read_marker junk s1 in
      let (puts, s6) = read_puts junk s2 in
      let (inputs, s7) = if segwit then read_witnesses puts.0 s6 else (puts.0, s6) in
      let s8 = (read_uint 4 junk.word s7).1 in
      let a01 : After s s1 = read-After 4 (to_le 4 junk.word) s in
      let a12 : After s1 s2 = (Follows-read_marker junk).onward s1 in
      let a26 : After s2 s6 = (Follows-read_puts junk).onward s2 in
      let a67 : After s6 s7 = (Follows-witnesses junk segwit puts.0).onward s6 in
      let a78 : After s7 s8 = read-After 4 (to_le 4 junk.word) s7 in
      let a28 = After-trans s2 s7 s8 (After-trans s2 s6 s7 a26 a67) a78 in
      let a08 = After-trans s s2 s8 (After-trans s s1 s2 a01 a12) a28 in
      let whole : length s8.contents ≡ length s.contents =
        ap (λ (bs : Bytes). length bs) a08.same_contents in
      let ends = a08.inside i in
      record {
        start = λ f. told_within s s8 a08 ends f;
        inputs = λ f. told_within s2 s8 a28 ends f;
        lock = λ (f : s8.fail ≡ false).
            let p = (read-placed 4 (to_le 4 junk.word) s7 f).1 in
            let here = ends f in
            let told = tellg_good s8 f in
            let cut = sub64-4 s8.position (omega (arith, p)) (omega (arith, here, whole)) in
            rw (told, cut) (omega (arith, here));
        stop = λ (f : s8.fail ≡ false).
            let told = tellg_good s8 f in let here = ends f in rw told here;
      }

either : {P : Type 0} (b : Bool) → (b ≡ false → P) → (b ≡ true) ⊎ P
either true h = inl refl
either false h = inr (h refl)

-- Back to the start of the transaction, and all of it at once.
abbrev whole_client : Bool → Marks → (Bytes → Str × Str) → Str × Str → Client (Str × Str)
whole_client true m hashes plain =
    let length = sub64 m.end_pos_tx m.start_pos_tx in
    seeking m.start_pos_tx
      (reading length (replicate length 0) (λ bytes. seeking m.end_pos_tx (done (hashes bytes))))
whole_client false m hashes plain = seeking m.end_pos_tx (done plain)

Stays-whole_client :
    (segwit : Bool) (m : Marks) (hashes : Bytes → Str × Str) (plain : Str × Str) (s : Stream)
    → MarksInside m s
    → Stays (whole_client segwit m hashes plain) s
unfolding Stays
Stays-whole_client true m hashes plain s h =
    let length = sub64 m.end_pos_tx m.start_pos_tx in
    let s1 = seekg_beg m.start_pos_tx s in
    let s2 = (read length (replicate length 0) s1).1 in
    let h2 =
      MarksInside-read m length (replicate length 0) s1 (MarksInside-seek m m.start_pos_tx s h) in
    (either s.fail h.start, (either s2.fail h2.stop, tt))
Stays-whole_client false m hashes plain s h = (either s.fail h.stop, tt)

module _ (crypto : Crypto) where
  hash_client : Bool → Marks → Client (Str × Str)
  hash_client segwit m =
      let txitxo_length = sub64 m.end_pos_outputs m.start_pos_inputs in
      seeking m.start_pos_tx (
        reading 4 (replicate 4 0) (λ version. seeking m.start_pos_inputs (
          reading txitxo_length (replicate txitxo_length 0) (λ txitxo.
            seeking (sub64 m.end_pos_tx 4) (
              reading 4 (replicate 4 0) (λ lock_time.
                let tx_hash =
                  double_hash crypto
                    (tx_hash_bytes crypto txitxo_length version txitxo lock_time) in
                whole_client segwit m (λ bytes. (tx_hash, double_hash crypto bytes))
                  (tx_hash, tx_hash)))))))

  on_stream-hash_client :
      (segwit : Bool) (m : Marks) (s : Stream)
      → on_stream (hash_client segwit m) s ≡ hash_transaction crypto segwit m s
  unfolding on_stream hash_client hash_transaction
  on_stream-hash_client true m s = refl
  on_stream-hash_client false m s = refl

  Stays-hash_client :
      (segwit : Bool) (m : Marks) (s : Stream) → MarksInside m s → Stays (hash_client segwit m) s
  unfolding Stays hash_client
  Stays-hash_client segwit m s h =
      let txitxo_length = sub64 m.end_pos_outputs m.start_pos_inputs in
      let s1 = (read 4 (replicate 4 0) (seekg_beg m.start_pos_tx s)).1 in
      let h1 = MarksInside-read m 4 (replicate 4 0) _ (MarksInside-seek m m.start_pos_tx s h) in
      let s2 =
        (read txitxo_length (replicate txitxo_length 0) (seekg_beg m.start_pos_inputs s1)).1 in
      let h2 =
        MarksInside-read m txitxo_length (replicate txitxo_length 0) _
          (MarksInside-seek m m.start_pos_inputs s1 h1) in
      let h3 =
        MarksInside-read m 4 (replicate 4 0) _ (MarksInside-seek m (sub64 m.end_pos_tx 4) s2 h2) in
      (
        either s.fail h.start,
        (either s1.fail h1.inputs, (either s2.fail h2.lock, Stays-whole_client segwit m _ _ _ h3)),
      )

  module _ (junk : Indeterminate) where
    -- The calls that readTransaction makes of its stream.
    pub transaction_client : Client Transaction
    transaction_client = and_then (Follows-read_parts junk).client (λ parts.
        and_then (hash_client parts.segwit parts.marks) (λ hashes. done (record {
          inputs = parts.inputs;
          outputs = parts.outputs;
          tx_hash = hashes.0;
          tx_wit_hash = hashes.1;
          file_position = parts.marks.start_pos_tx;
          byte_size = sub64 parts.marks.end_pos_tx parts.marks.start_pos_tx;
          version = parts.version;
          lock_time = parts.lock_time;
        })))

    on_stream-transaction_client :
        (s : Stream) → on_stream transaction_client s ≡ read_transaction crypto junk s
    unfolding transaction_client read_transaction on_stream
    on_stream-transaction_client s =
        let parts = read_parts junk s in
        on_stream-and_then _ (Follows-read_parts junk).client s
        ∙ rw ((Follows-read_parts junk).same s) (
            on_stream-and_then _ (hash_client parts.0.segwit parts.0.marks) parts.1
            ∙ rw (on_stream-hash_client parts.0.segwit parts.0.marks parts.1) refl)

    Stays-transaction_client :
        (s : Stream) → Inside s → length s.contents < 2 ^ 64 → Stays transaction_client s
    unfolding transaction_client Stays
    Stays-transaction_client s i small =
        let parts = read_parts junk s in
        Stays-and_then _ (Follows-read_parts junk).client s ((Follows-read_parts junk).stays s i) (
          rw ((Follows-read_parts junk).same s) (
            Stays-and_then _ (hash_client parts.0.segwit parts.0.marks) parts.1
              (Stays-hash_client parts.0.segwit parts.0.marks parts.1
                (MarksInside-read_parts junk s i small))
              tt))

    -- Read through a byte_array_buffer over fewer than 2 ^ 64 bytes, a transaction is the one that
    -- readTransaction reads from an ordinary stream over these bytes, from any place inside them or
    -- after a failure, whatever the bytes are and wherever they break off: the calls that it makes,
    -- its seeks to a place being calls of seekoff with ios_base::beg, never read outside the
    -- buffer, none of its seeks leaves it, and the flags and, where nothing has failed, the
    -- position are those of the stream.
    pub transaction_client-Refines :
        (s : Stream) (i : IStream)
        → Shows s i
        → (on_stream transaction_client s ≡ read_transaction crypto junk s)
          × ((i' : IStream) × (on_buffer transaction_client i
                ≡ ok ((read_transaction crypto junk s).0, i'))
              × Shows (read_transaction crypto junk s).1 i')
    transaction_client-Refines s i h =
        let same = on_stream-transaction_client s in
        let (i', runs, shows) =
          on_buffer-Refines transaction_client s i h
            (Stays-transaction_client s h.within h.small) in
        (same, (i', runs ∙ ap (λ (p : Transaction × Stream). ok (p.0, i')) same, rw (← same) shows))
