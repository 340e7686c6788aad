-- ===== src/Dir/Written.antt =====
-- An entry that src/dir.rs writes, and what its parser reads from it.
use resident_fat.Prelude.{
  ℕ, ◌+◌, ◌*◌, ◌/◌, ◌%◌, ◌^◌, ◌<◌, ◌≡◌, refl, Option, List, length, take, arith, of_length,
}
use resident_fat.Time.{DateTime, clamp_to_fat, pack}
use resident_fat.Time.Packing.{
  InRange, to_centiseconds, to_two_seconds, to_days, round_trip, round_trip-parts, pack_bounds,
}
use resident_fat.Dir.{entry_size}
use resident_fat.Dir.ShortName.{ShortName, from_entry}
use resident_fat.Dir.Entry.{DirEntry, write_entry, read_entry}

pub split_16 : (n : ℕ) → n < 2 ^ 16 → n % 2 ^ 8 + n / 2 ^ 8 % 2 ^ 8 * 2 ^ 8 ≡ n
split_16 n h = omega arith

pub split_32 :
    (n : ℕ)
    → n < 2 ^ 32
    → n % 2 ^ 8
        + n / 2 ^ 8 % 2 ^ 8 * 2 ^ 8
        + n / 2 ^ 16 % 2 ^ 8 * 2 ^ 16
        + n / 2 ^ 24 % 2 ^ 8 * 2 ^ 24
      ≡ n
split_32 n h = omega arith

-- the two halves of a cluster number
pub split_cluster :
    (n : ℕ)
    → n < 2 ^ 32
    → (n / 2 ^ 16 % 2 ^ 16 % 2 ^ 8 + n / 2 ^ 16 % 2 ^ 16 / 2 ^ 8 % 2 ^ 8 * 2 ^ 8) * 2 ^ 16
        + (n % 2 ^ 16 % 2 ^ 8 + n % 2 ^ 16 / 2 ^ 8 % 2 ^ 8 * 2 ^ 8)
      ≡ n
split_cluster n h = omega arith

module _ (display : ShortName → List ℕ) (into : List ℕ) (attributes first_cluster size : ℕ)
    (at : DateTime) (long_name : Option (List ℕ)) (index first_slot : ℕ) where
  -- what was written, the dates as far as the format holds them
  abbrev pub expected : ShortName → DirEntry
  expected name = record {
    short_name = name;
    short_display = display name;
    long_name = long_name;
    attributes = attributes;
    first_cluster = first_cluster;
    size = size;
    index = index;
    first_slot = first_slot;
    created = to_centiseconds (clamp_to_fat at);
    modified = to_two_seconds (clamp_to_fat at);
    accessed = to_days (clamp_to_fat at);
  }

  pub read_entry-write_entry :
      (name : ShortName)
      → length name.raw ≡ 11
      → first_cluster < 2 ^ 32
      → size < 2 ^ 32
      → InRange at
      → read_entry display
          (take entry_size (write_entry into name attributes first_cluster size at))
          long_name
          index
          first_slot
        ≡ record {
          short_name = name;
          short_display = display name;
          long_name = long_name;
          attributes = attributes;
          first_cluster = first_cluster;
          size = size;
          index = index;
          first_slot = first_slot;
          created = to_centiseconds (clamp_to_fat at);
          modified = to_two_seconds (clamp_to_fat at);
          accessed = to_days (clamp_to_fat at);
        }
  unfolding read_entry write_entry from_entry
  read_entry-write_entry name whole small fits r =
      let bounds = pack_bounds at r in
      let parts = round_trip-parts at r in
      of_length 11
        (λ raw.
          read_entry display
            (take entry_size (
              write_entry into (record { raw = raw; case_flags = name.case_flags }) attributes
                first_cluster size at))
            long_name index first_slot
          ≡ expected (record { raw = raw; case_flags = name.case_flags }))
        (λ a b c d e f g h i j k.
          rw
            (
              split_16 (pack at).date bounds.0,
              split_16 (pack at).time bounds.1,
              split_cluster first_cluster small,
              split_32 size fits,
              parts.0,
              parts.1,
              round_trip at r,
            )
            refl)
        name.raw whole
