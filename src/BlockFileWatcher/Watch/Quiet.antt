-- ===== src/BlockFileWatcher/Watch/Quiet.antt =====
-- What one round of startWatcher leaves for the next one.
use blockchain_indexer.Base.{
  ℕ, ◌≡◌, ◌⊎◌, refl, ap, ◌∙◌, Bool, true, false, Bool-cases, inl, inr, List, [], ◌∷◌, Str, arith,
  if◌then◌else◌, Option, none, some, ok, >>=-eq-ok, ltb_ℤ, ◌≤ℤ◌,
}
use blockchain_indexer.Leveldb.{Leveldb}
use blockchain_indexer.External.{Crypto, CoinParams, Indeterminate}
use blockchain_indexer.BlockFileWatcher.{is_block_file, update_index}
use blockchain_indexer.BlockFileWatcher.Watch.{
  Timespec, DirEntry, Disk, Watcher, newer_of, stat_of, detect_changes, watcher_round,
}

-- No time that counts is later than the last one seen, by the seconds alone.
abbrev pub Seen : Bool → Option Timespec → Timespec → Type 0
Seen counts modified max =
    counts ≡ true → (time : Timespec) → modified ≡ some time → time.tv_sec ≤ℤ max.tv_sec

unfoldable pub Settled : List DirEntry → Timespec → Type 0
Settled [] max = Unit
Settled (entry ∷ entries) max =
    Seen (is_block_file entry.d_name) entry.st_mtim max × Settled entries max

-- One turn of the loop over the directory.
abbrev turn : Bool → Option Timespec → Bool → Timespec → Bool × Timespec
turn counts modified should max = if counts then stat_of modified should max else (should, max)

newer_grows :
    (time : Timespec) (should : Bool) (max : Timespec)
    → max.tv_sec ≤ℤ (newer_of time should max).1.tv_sec
newer_grows time should max = elim (Bool-cases (ltb_ℤ max.tv_sec time.tv_sec)) [
  | inl t ↦ rw t (ground arith)
  | inr t ↦ rw t (ground arith)
]

newer_sees :
    (time : Timespec) (should : Bool) (max : Timespec)
    → time.tv_sec ≤ℤ (newer_of time should max).1.tv_sec
newer_sees time should max = elim (Bool-cases (ltb_ℤ max.tv_sec time.tv_sec)) [
  | inl t ↦ rw t (ground arith)
  | inr t ↦ rw t (ground arith)
]

newer_passes :
    (time : Timespec) (should : Bool) (max : Timespec)
    → time.tv_sec ≤ℤ max.tv_sec
    → newer_of time should max ≡ (should, max)
newer_passes time should max h = ground arith

turn_grows :
    (counts : Bool) (modified : Option Timespec) (should : Bool) (max : Timespec)
    → max.tv_sec ≤ℤ (turn counts modified should max).1.tv_sec
turn_grows false modified should max = omega arith
turn_grows true none should max = omega arith
turn_grows true (some time) should max = newer_grows time should max

turn-Seen :
    (counts : Bool) (modified : Option Timespec) (should : Bool) (max : Timespec)
    → Seen counts modified (turn counts modified should max).1
turn-Seen false modified should max = λ e. absurd (cc)
turn-Seen true none should max = λ _ time e. absurd (cc)
turn-Seen true (some time) should max =
    λ _ time' e. let same : time ≡ time' = cc in rw (← same) (newer_sees time should max)

Seen-turn :
    (counts : Bool) (modified : Option Timespec) (should : Bool) (max : Timespec)
    → Seen counts modified max
    → turn counts modified should max ≡ (should, max)
Seen-turn false modified should max h = refl
Seen-turn true none should max h = refl
Seen-turn true (some time) should max h = newer_passes time should max (h refl time refl)

Settled-later :
    (entries : List DirEntry) (max max' : Timespec)
    → max.tv_sec ≤ℤ max'.tv_sec
    → Settled entries max
    → Settled entries max'
unfolding Settled
Settled-later [] max max' l h = tt
Settled-later (entry ∷ entries) max max' l (h, hs) = (
  λ b time e. let earlier = h b time e in omega (arith, earlier, l),
  Settled-later entries max max' l hs,
)

detect_changes_grows :
    (entries : List DirEntry) (should : Bool) (max : Timespec)
    → max.tv_sec ≤ℤ (detect_changes entries should max).1.tv_sec
unfolding detect_changes
detect_changes_grows [] should max = omega arith
detect_changes_grows (entry ∷ entries) should max =
    let first = turn_grows (is_block_file entry.d_name) entry.st_mtim should max in
    let (should', max') = turn (is_block_file entry.d_name) entry.st_mtim should max in
    let others = detect_changes_grows entries should' max' in omega (arith, first, others)

detect_changes-Settled :
    (entries : List DirEntry) (should : Bool) (max : Timespec)
    → Settled entries (detect_changes entries should max).1
unfolding detect_changes Settled
detect_changes-Settled [] should max = tt
detect_changes-Settled (entry ∷ entries) should max =
    let first = turn-Seen (is_block_file entry.d_name) entry.st_mtim should max in
    let (should', max') = turn (is_block_file entry.d_name) entry.st_mtim should max in
    let grows = detect_changes_grows entries should' max' in
    (
      λ b time e. let earlier = first b time e in omega (arith, earlier, grows),
      detect_changes-Settled entries should' max',
    )

Settled-detect_changes :
    (entries : List DirEntry) (should : Bool) (max : Timespec)
    → Settled entries max
    → detect_changes entries should max ≡ (should, max)
unfolding detect_changes Settled
Settled-detect_changes [] should max h = refl
Settled-detect_changes (entry ∷ entries) should max (h, hs) =
    rw (Seen-turn (is_block_file entry.d_name) entry.st_mtim should max h)
      (Settled-detect_changes entries should max hs)

turn-flag :
    (counts : Bool) (modified : Option Timespec) (max : Timespec)
    → ((turn counts modified false max).0 ≡ true)
      ⊎ ((turn counts modified false max ≡ (false, max)) × Seen counts modified max)
turn-flag false modified max = inr (refl, λ e. absurd (cc))
turn-flag true none max = inr (refl, λ _ time e. absurd (cc))
turn-flag true (some time) max = elim (Bool-cases (ltb_ℤ max.tv_sec time.tv_sec)) [
  | inl t ↦ inl (rw t refl)
  | inr t ↦ inr (rw t refl, λ _ time' e. let same : time ≡ time' = cc in rw (← same) (ground arith))
]

turn_keeps :
    (counts : Bool) (modified : Option Timespec) (should : Bool) (max : Timespec)
    → should ≡ true
    → (turn counts modified should max).0 ≡ true
turn_keeps false modified should max h = h
turn_keeps true none should max h = h
turn_keeps true (some time) should max h = elim (Bool-cases (ltb_ℤ max.tv_sec time.tv_sec)) [
  | inl t ↦ rw t refl
  | inr t ↦ rw t h
]

detect_changes_keeps :
    (entries : List DirEntry) (should : Bool) (max : Timespec)
    → should ≡ true
    → (detect_changes entries should max).0 ≡ true
unfolding detect_changes
detect_changes_keeps [] should max h = h
detect_changes_keeps (entry ∷ entries) should max h =
    detect_changes_keeps entries _ _
      (turn_keeps (is_block_file entry.d_name) entry.st_mtim should max h)

detect_changes-flag :
    (entries : List DirEntry) (max : Timespec)
    → ((detect_changes entries false max).0 ≡ true)
      ⊎ ((detect_changes entries false max ≡ (false, max)) × Settled entries max)
unfolding detect_changes Settled
detect_changes-flag [] max = inr (refl, tt)
detect_changes-flag (entry ∷ entries) max =
    elim (turn-flag (is_block_file entry.d_name) entry.st_mtim max) [
      | inl t ↦ inl (detect_changes_keeps entries _ _ t)
      | inr (e, seen) ↦ elim (detect_changes-flag entries max) [
        | inl t ↦ inl (ap (λ (p : Bool × Timespec). (detect_changes entries p.0 p.1).0) e ∙ t)
        | inr (e', settled) ↦
            inr
              (ap (λ (p : Bool × Timespec). detect_changes entries p.0 p.1) e ∙ e', (seen, settled))
      ]
    ]

module _ (ldb : Leveldb) (crypto : Crypto) (params : CoinParams) (junk : Indeterminate)
    (blocks_dir : Str) (rounds fuel : ℕ) where
  watcher_round_time :
      (disk : Disk) (w w' : Watcher ldb)
      → watcher_round ldb crypto params junk blocks_dir rounds fuel disk w ≡ ok w'
      → w'.max_last_modified ≡ (detect_changes disk.entries false w.max_last_modified).1
  unfolding watcher_round
  watcher_round_time disk w w' h =
      elim (Bool-cases (detect_changes disk.entries false w.max_last_modified).0) [
        | inl t ↦
            let (r, updates, e) =
              >>=-eq-ok
                (update_index ldb crypto params junk disk.files blocks_dir rounds fuel disk.names
                  w.indexer)
                _ (rw t at h) in
            cc
        | inr t ↦ let e = rw t at h in cc
      ]

  -- Whether the round has updated the index, or no block file is newer and nothing has changed.
  abbrev pub UpdatesOrRests : Disk → Watcher ldb → Watcher ldb → Type 0
  UpdatesOrRests disk w w' =
      ((height : ℕ) × (update_index ldb crypto params junk disk.files blocks_dir rounds fuel
            disk.names w.indexer
          ≡ ok (height, w'.indexer)))
      ⊎ (Settled disk.entries w.max_last_modified × (w' ≡ w))

  watcher_round-UpdatesOrRests :
      (disk : Disk) (w w' : Watcher ldb)
      → watcher_round ldb crypto params junk blocks_dir rounds fuel disk w ≡ ok w'
      → UpdatesOrRests disk w w'
  unfolding watcher_round
  watcher_round-UpdatesOrRests disk w w' h =
      elim (detect_changes-flag disk.entries w.max_last_modified) [
        | inl t ↦
            let (r, updates, e) =
              >>=-eq-ok
                (update_index ldb crypto params junk disk.files blocks_dir rounds fuel disk.names
                  w.indexer)
                _ (rw t at h) in
            inl (r.0, updates ∙ cc)
        | inr (e, settled) ↦ inr (settled, let same = rw e at h in cc)
      ]

  -- A round of startWatcher that returns has either run the update of the index, or no block file
  -- was newer by its seconds than the last one seen and nothing has changed. Then no block file is
  -- newer than the last one seen, and a round over a directory with the same modification times
  -- does nothing, whatever the files hold by then.
  pub watcher_round-Settled :
      (disk later : Disk) (w w' : Watcher ldb)
      → watcher_round ldb crypto params junk blocks_dir rounds fuel disk w ≡ ok w'
      → later.entries ≡ disk.entries
      → UpdatesOrRests disk w w'
        × Settled disk.entries w'.max_last_modified
        × (watcher_round ldb crypto params junk blocks_dir rounds fuel later w' ≡ ok w')
  unfolding watcher_round
  watcher_round-Settled disk later w w' h same =
      let time = watcher_round_time disk w w' h in
      let settled : Settled disk.entries w'.max_last_modified =
        rw time (detect_changes-Settled disk.entries false w.max_last_modified) in
      (
        watcher_round-UpdatesOrRests disk w w' h,
        settled,
        rw (same, Settled-detect_changes disk.entries false w'.max_last_modified settled) refl,
      )
