-- ===== src/Dir/Edited.antt =====
-- The edits of src/dir.rs to an entry that stands, as the parser reads the outcome.
use resident_fat.Prelude.{ℕ, ◌^◌, ◌<◌, ◌≡◌, refl, Option, List, [], ◌∷◌, length, of_length}
use resident_fat.Time.{DateTime, clamp_to_fat, pack}
use resident_fat.Time.Packing.{InRange, to_two_seconds, round_trip-parts, pack_bounds}
use resident_fat.Dir.ShortName.{ShortName, from_entry}
use resident_fat.Dir.Entry.{
  DirEntry, read_entry, rename_entry, update_entry, set_first_cluster, take_contents,
}
use resident_fat.Dir.Written.{split_16, split_32, split_cluster}

module _ (display : ShortName → List ℕ) (long_name : Option (List ℕ)) (index first_slot : ℕ) where
  abbrev pub read : List ℕ → DirEntry
  read entry = read_entry display entry long_name index first_slot

  -- only the name is another
  abbrev pub Renames : List ℕ → ShortName → Type 0
  Renames entry name =
      read (rename_entry entry name)
      ≡ record (read entry) { short_name = name; short_display = display name }

  -- only the cluster, the size and the time of the last write are others
  abbrev pub Updates : List ℕ → ℕ → ℕ → DateTime → Type 0
  Updates entry first_cluster size at =
      read (update_entry entry first_cluster size at) ≡ record (read entry) {
        first_cluster = first_cluster;
        size = size;
        modified = to_two_seconds (clamp_to_fat at);
      }

  -- only the cluster is another
  abbrev pub Repoints : List ℕ → ℕ → Type 0
  Repoints entry first_cluster =
      read (set_first_cluster entry first_cluster)
      ≡ record (read entry) { first_cluster = first_cluster }

  -- the other entry under the name of this one
  abbrev pub TakesContents : List ℕ → List ℕ → Type 0
  TakesContents entry source = read (take_contents entry source) ≡ record (read source) {
    short_name = from_entry entry;
    short_display = display (from_entry entry);
  }

  renames :
      (entry raw : List ℕ) (flags : ℕ)
      → length entry ≡ 32
      → length raw ≡ 11
      → Renames entry (record { raw = raw; case_flags = flags })
  unfolding read_entry rename_entry from_entry
  renames entry raw flags whole eleven =
      of_length 11 (λ r. Renames entry (record { raw = r; case_flags = flags }))
        (λ a b c d e f g h i j k.
          of_length 32
            (λ l.
              Renames l (record {
                raw = a ∷ b ∷ c ∷ d ∷ e ∷ f ∷ g ∷ h ∷ i ∷ j ∷ k ∷ [];
                case_flags = flags;
              }))
            (λ x0 x1 x2 x3 x4 x5 x6 x7 x8 x9 x10 x11 x12 x13 x14 x15 x16 x17 x18 x19 x20 x21 x22 x23
                x24 x25 x26 x27 x28 x29 x30 x31.
              refl)
            entry whole)
        raw eleven

  updates :
      (entry : List ℕ) (first_cluster size : ℕ) (at : DateTime)
      → length entry ≡ 32
      → first_cluster < 2 ^ 32
      → size < 2 ^ 32
      → InRange at
      → Updates entry first_cluster size at
  unfolding read_entry update_entry from_entry
  updates entry first_cluster size at whole small fits r =
      let bounds = pack_bounds at r in
      of_length 32 (λ l. Updates l first_cluster size at)
        (λ x0 x1 x2 x3 x4 x5 x6 x7 x8 x9 x10 x11 x12 x13 x14 x15 x16 x17 x18 x19 x20 x21 x22 x23 x24
            x25 x26 x27 x28 x29 x30 x31.
          rw
            (
              split_16 (pack at).date bounds.0,
              split_16 (pack at).time bounds.1,
              split_cluster first_cluster small,
              split_32 size fits,
              (round_trip-parts at r).0,
            )
            refl)
        entry whole

  repoints :
      (entry : List ℕ) (first_cluster : ℕ)
      → length entry ≡ 32
      → first_cluster < 2 ^ 32
      → Repoints entry first_cluster
  unfolding read_entry set_first_cluster from_entry
  repoints entry first_cluster whole small =
      of_length 32 (λ l. Repoints l first_cluster)
        (λ x0 x1 x2 x3 x4 x5 x6 x7 x8 x9 x10 x11 x12 x13 x14 x15 x16 x17 x18 x19 x20 x21 x22 x23 x24
            x25 x26 x27 x28 x29 x30 x31.
          rw (split_cluster first_cluster small) refl)
        entry whole

  takes_contents :
      (entry source : List ℕ) → length entry ≡ 32 → length source ≡ 32 → TakesContents entry source
  unfolding read_entry take_contents from_entry
  takes_contents entry source whole full =
      of_length 32 (λ l. TakesContents l source)
        (λ x0 x1 x2 x3 x4 x5 x6 x7 x8 x9 x10 x11 x12 x13 x14 x15 x16 x17 x18 x19 x20 x21 x22 x23 x24
            x25 x26 x27 x28 x29 x30 x31.
          of_length 32
            (TakesContents (
              x0 ∷ x1 ∷ x2 ∷ x3 ∷ x4 ∷ x5 ∷ x6 ∷ x7 ∷ x8 ∷ x9 ∷ x10 ∷ x11 ∷ x12 ∷ x13 ∷ x14 ∷ x15
              ∷ x16 ∷ x17 ∷ x18 ∷ x19 ∷ x20 ∷ x21 ∷ x22 ∷ x23 ∷ x24 ∷ x25 ∷ x26 ∷ x27 ∷ x28 ∷ x29
              ∷ x30 ∷ x31 ∷ []))
            (λ y0 y1 y2 y3 y4 y5 y6 y7 y8 y9 y10 y11 y12 y13 y14 y15 y16 y17 y18 y19 y20 y21 y22 y23
                y24 y25 y26 y27 y28 y29 y30 y31.
              refl)
            source full)
        entry whole

  -- What an entry of 32 bytes reads as after each of the edits, for a name of eleven bytes,
  -- numbers of 32 bits and a date-time in range: only what the edit is about differs.
  pub edits-read_entry :
      (entry source : List ℕ) (name : ShortName) (first_cluster size : ℕ) (at : DateTime)
      → length entry ≡ 32
      → length source ≡ 32
      → length name.raw ≡ 11
      → first_cluster < 2 ^ 32
      → size < 2 ^ 32
      → InRange at
      → Renames entry name
        × Updates entry first_cluster size at
        × Repoints entry first_cluster
        × TakesContents entry source
  edits-read_entry entry source name first_cluster size at whole full eleven small fits r = (
    renames entry name.raw name.case_flags whole eleven,
    updates entry first_cluster size at whole small fits r,
    repoints entry first_cluster whole small,
    takes_contents entry source whole full,
  )
