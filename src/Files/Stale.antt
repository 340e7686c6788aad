-- ===== src/Files/Stale.antt =====
-- A handle whose entry was deleted (src/fs.rs) is refused (src/file.rs).
use resident_fat.Prelude.{
  ℕ, zero, suc, ◌+◌, ◌-◌, ◌*◌, ◌/◌, ◌%◌, ◌≤◌, ◌<◌, ◌≡◌, ◌≢◌, refl, ap, ◌∙◌, inl, inr, true, false,
  Bool-cases, ◌==◌, ==_iff, Option, none, some, List, length, leb, ◌||◌, if◌then◌else◌, arith,
}
use resident_fat.Words.{u32}
use resident_fat.Dir.{entry_size}
use resident_fat.Dir.ShortName.{to_display_string_with}
use resident_fat.Dir.Entry.{mark_deleted}
use resident_fat.Errors.{Error, done, failed, stale_file, directory_full, ◌>>=◌, pure, or_fail}
use resident_fat.Volume.{BlockDevice, Host, FileSystem, read_blocks, write_blocks}
use resident_fat.Volume.Generations.{
  KeepsGenerations, then-KeepsGenerations, read_blocks-KeepsGenerations,
  write_blocks-KeepsGenerations,
}
use resident_fat.Volume.Reading.{now, runs_on, forget_directory}
use resident_fat.Volume.Entries.{
  slots_per_block, locate, find_slot, generation, entry_location, edit_entry, invalidate_slot,
  invalidate_slots, delete_slots, delete_entries, with_slot, slot_at,
}
use resident_fat.Files.{File, check_live}
use resident_fat.Files.Chains.{read_at}
use resident_fat.Files.Growing.{write_at, truncate}

module _ {d : BlockDevice} where
  or_fail-KeepsGenerations :
      {A : Type 0} (e : Error) (found : Option A) → KeepsGenerations {d = d} (or_fail e found)
  or_fail-KeepsGenerations e none v = refl
  or_fail-KeepsGenerations e (some a) v = refl

  entry_location-KeepsGenerations :
      (cluster index : ℕ) → KeepsGenerations (entry_location {d = d} cluster index)
  unfolding entry_location runs_on
  entry_location-KeepsGenerations cluster index v =
      then-KeepsGenerations (runs_on cluster)
        (λ rs.
          or_fail directory_full (
            locate v.boot (index / slots_per_block / v.boot.sectors_per_cluster)
              (index / slots_per_block % v.boot.sectors_per_cluster) 0 rs)
          >>= λ sector. pure (sector, index % slots_per_block * entry_size))
        (λ w. refl)
        (λ rs.
          then-KeepsGenerations
            (or_fail directory_full (
              locate v.boot (index / slots_per_block / v.boot.sectors_per_cluster)
                (index / slots_per_block % v.boot.sectors_per_cluster) 0 rs))
            (λ sector. pure (sector, index % slots_per_block * entry_size))
            (or_fail-KeepsGenerations directory_full (
              locate v.boot (index / slots_per_block / v.boot.sectors_per_cluster)
                (index / slots_per_block % v.boot.sectors_per_cluster) 0 rs))
            (λ sector w. refl))
        v

  edit_entry-KeepsGenerations :
      (directory index : ℕ) (edit : List ℕ → List ℕ)
      → KeepsGenerations (edit_entry {d = d} directory index edit)
  unfolding edit_entry forget_directory
  edit_entry-KeepsGenerations directory index edit =
      then-KeepsGenerations (entry_location directory index) _
        (entry_location-KeepsGenerations directory index)
        (λ place.
          then-KeepsGenerations (read_blocks d place.0 1) _ (read_blocks-KeepsGenerations place.0 1)
            (λ buffer.
              then-KeepsGenerations
                (write_blocks d place.0 (with_slot place.1 (edit (slot_at place.1 buffer)) buffer))
                _
                (write_blocks-KeepsGenerations place.0
                  (with_slot place.1 (edit (slot_at place.1 buffer)) buffer))
                (λ _ w. refl)))

  delete_slots-KeepsGenerations :
      (n directory first : ℕ) → KeepsGenerations (delete_slots {d = d} n directory first)
  unfolding delete_slots
  delete_slots-KeepsGenerations zero directory first = λ v. refl
  delete_slots-KeepsGenerations (suc n) directory first =
      then-KeepsGenerations (edit_entry directory (first + n) mark_deleted) _
        (edit_entry-KeepsGenerations directory (first + n) mark_deleted)
        (λ _. delete_slots-KeepsGenerations n directory first)

  -- the generation of a slot, after those from `first` on were invalidated
  invalidate_slot-generation :
      (directory first index : ℕ) (v : FileSystem d)
      → generation (invalidate_slot directory first v).1 directory index ≡ (
          if first == index
          then u32 (generation v directory index + 1)
          else generation v directory index)
  unfolding invalidate_slot generation find_slot
  invalidate_slot-generation directory first index v =
      let here : (directory == directory) ≡ true = (==_iff _ _).1 refl in
      elim (Bool-cases (first == index)) [
        | inl e ↦
            let same : first ≡ index = (==_iff _ _).0 e in
            rw (here, e) (ap (λ i. u32 (find_slot v.generations directory i + 1)) same)
        | inr e ↦ rw (here, e) refl
      ]

  invalidate_slots-outside :
      (n directory first index : ℕ) (v : FileSystem d)
      → index < first
      → (w : FileSystem d) × (invalidate_slots n directory first v ≡ (done tt, w))
        × (generation w directory index ≡ generation v directory index)
  unfolding invalidate_slots invalidate_slot
  invalidate_slots-outside zero directory first index v before = (v, refl, refl)
  invalidate_slots-outside (suc n) directory first index v before =
      let apart : (first == index) ≡ false = ground (arith, before) in
      let (w, run, same) =
        invalidate_slots-outside n directory (first + 1) index (invalidate_slot directory first v).1
          (omega (arith, before)) in
      (w, run, same ∙ invalidate_slot-generation directory first index v ∙ rw apart refl)

  invalidate_slots-inside :
      (n directory first index : ℕ) (v : FileSystem d)
      → first ≤ index
      → index < first + n
      → (w : FileSystem d) × (invalidate_slots n directory first v ≡ (done tt, w))
        × (generation w directory index ≡ u32 (generation v directory index + 1))
  unfolding invalidate_slots invalidate_slot
  invalidate_slots-inside zero directory first index v from to = absurd (omega (arith, from, to))
  invalidate_slots-inside (suc n) directory first index v from to =
      let next = (invalidate_slot directory first v).1 in
      elim (Bool-cases (first == index)) [
        | inl e ↦
            let (w, run, same) =
              invalidate_slots-outside n directory (first + 1) index next (ground (arith, e)) in
            (w, run, same ∙ invalidate_slot-generation directory first index v ∙ rw e refl)
        | inr e ↦
            let (w, run, same) =
              invalidate_slots-inside n directory (first + 1) index next (ground (arith, from, e))
                (omega (arith, to)) in
            (
              w,
              run,
              same
                  ∙ ap (λ g. u32 (g + 1))
                      (invalidate_slot-generation directory first index v ∙ rw e refl),
            )
      ]

  -- Whatever `delete_entries` returns, each slot of the run has the next generation.
  delete_entries-generation :
      (directory first last index : ℕ) (v : FileSystem d)
      → first ≤ index
      → index ≤ last
      → generation (delete_entries directory first last v).1 directory index
        ≡ u32 (generation v directory index + 1)
  unfolding delete_entries generation
  delete_entries-generation directory first last index v from to =
      let (w, run, next) =
        invalidate_slots-inside (last + 1 - first) directory first index v from
          (omega (arith, from, to)) in
      rw run (
        ap (λ g. find_slot g directory index)
          (then-KeepsGenerations (edit_entry directory last mark_deleted)
            (λ _. delete_slots (last - first) directory first)
            (edit_entry-KeepsGenerations directory last mark_deleted)
            (λ _. delete_slots-KeepsGenerations (last - first) directory first) w)
        ∙ next)

  module _ (host : Host) where
    -- the error for a handle
    abbrev pub as_stale : FileSystem d → File → Error
    as_stale v file = stale_file (to_display_string_with host.unicode v.codepage file.short_name)

    check_live-stale :
        (v : FileSystem d) (file : File)
        → generation v file.directory file.index ≢ file.generation
        → check_live host file v ≡ (failed (as_stale v file), v)
    unfolding check_live
    check_live-stale v file other =
        let apart : (generation v file.directory file.index == file.generation) ≡ false =
          ground (arith, other) in
        rw apart refl

    -- The operations on a handle that `check_live` refuses. `clock_reads` is a counter of the
    -- model: `write_at` and `truncate` ask the time before they check the handle.
    abbrev pub IsRefused : FileSystem d → File → Type 0
    IsRefused v file =
        ((offset n : ℕ)
          → offset < file.size
          → 1 ≤ n
          → read_at host file offset n v ≡ (failed (as_stale v file), v))
        × ((offset : ℕ) (from : List ℕ)
            → 1 ≤ length from
            → write_at host offset from (file, v)
              ≡ (failed (as_stale v file), (file, record v { clock_reads = v.clock_reads + 1 })))
        × ((size : ℕ)
            → truncate host size (file, v)
              ≡ (failed (as_stale v file), (file, record v { clock_reads = v.clock_reads + 1 })))

    refused :
        (v : FileSystem d) (file : File)
        → generation v file.directory file.index ≢ file.generation
        → IsRefused v file
    unfolding read_at write_at truncate now generation
    refused v file other = (
      λ offset n inside some.
          let t : (leb file.size offset || n == 0) ≡ false = ground (arith, inside, some) in
          rw (t, check_live-stale v file other) refl,
      λ offset from some.
          let w : FileSystem d = record v { clock_reads = v.clock_reads + 1 } in
          let t : (length from == 0) ≡ false = ground (arith, some) in
          rw (t, check_live-stale w file other) refl,
      λ size.
          let w : FileSystem d = record v { clock_reads = v.clock_reads + 1 } in
          rw (check_live-stale w file other) refl,
    )

    -- Once `delete_entries` has gone over the slot of a handle that had the slot's generation,
    -- whether it succeeded or failed half way, the handle is refused with `StaleFile` by a
    -- read of at least one byte that begins inside the file's length, which changes nothing,
    -- and by a write of at least one byte and by every truncation, which change nothing but
    -- that they have asked the clock the time once.
    pub delete_entries-IsRefused :
        (v : FileSystem d) (file : File) (first last : ℕ)
        → generation v file.directory file.index ≡ file.generation
        → first ≤ file.index
        → file.index ≤ last
        → IsRefused (delete_entries file.directory first last v).1 file
    delete_entries-IsRefused v file first last current from to =
        refused (delete_entries file.directory first last v).1 file (λ same.
          let next = delete_entries-generation file.directory first last file.index v from to in
          omega (arith, same, next, current))
