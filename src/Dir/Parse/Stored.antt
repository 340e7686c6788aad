-- ===== src/Dir/Parse/Stored.antt =====
-- What src/name.rs and src/dir.rs write for a name, as the parse of src/dir.rs lists it.
use resident_fat.Prelude.{
  ℕ, ◌+◌, ◌/◌, ◌^◌, ◌≤◌, ◌<◌, ◌≡◌, ◌≢◌, refl, ap, ap₂, ◌∙◌, true, false, Option, none, some, List,
  [], ◌∷◌, ◌++◌, length, take, of_length, arith, ◌==◌,
}
use resident_fat.Words.{u32}
use resident_fat.Bytes.{byte}
use resident_fat.Text.{Unicode}
use resident_fat.Codepage.{Codepage}
use resident_fat.Time.{DateTime}
use resident_fat.Time.Packing.{InRange}
use resident_fat.Dir.{end_of_directory, deleted_mark, entry_size}
use resident_fat.Dir.ShortName.{
  ShortName, is_long_name, is_volume_id, checksum, from_entry, to_display_string_with,
}
use resident_fat.Dir.LongName.{PendingLongName, named, finish}
use resident_fat.Dir.Entry.{read_entry, write_entry}
use resident_fat.Dir.Written.{expected, read_entry-write_entry}
use resident_fat.Name.{long_name_slots}
use resident_fat.Name.Slots.{AreUnits}
use resident_fat.Name.RoundTrip.{before_end, long_name_slots-absorbed}
use resident_fat.Dir.Parse.{
  parsed, Scan, unwrap_or, take_long_name, push_entry, scan_slot, scan_slots,
}
use resident_fat.Dir.Parse.LongSlots.{
  run_start, run_start-none, scan_slot-short, scan_slots-append, scan_slots-absorb_all,
  scan_slots-one, long_name_slots-AreLongSlots, length-long_name_slots,
}

module _ (u : Unicode) (codepage : Codepage) (into : List ℕ) (attributes first_cluster size : ℕ)
    (at : DateTime) (name : ShortName) where
  abbrev entry_written : List ℕ
  entry_written = take entry_size (write_entry into name attributes first_cluster size at)

  -- what the parser reads and tests in the entry
  entry_read :
      length name.raw ≡ 11
      → (from_entry entry_written ≡ name)
        × (byte entry_written 0 ≡ byte name.raw 0)
        × (byte entry_written 0x0B ≡ attributes)
  unfolding from_entry write_entry
  entry_read eleven =
      of_length 11
        (λ raw.
          (from_entry (
              take entry_size (
                write_entry into (record { raw = raw; case_flags = name.case_flags }) attributes
                  first_cluster size at))
            ≡ record { raw = raw; case_flags = name.case_flags })
          × (byte
                (take entry_size (
                  write_entry into (record { raw = raw; case_flags = name.case_flags }) attributes
                    first_cluster size at))
                0
              ≡ byte raw 0)
          × (byte
                (take entry_size (
                  write_entry into (record { raw = raw; case_flags = name.case_flags }) attributes
                    first_cluster size at))
                0x0B
              ≡ attributes))
        (λ a b c d e f g h i j k. (refl, refl, refl)) name.raw eleven

  push-stored :
      (run : PendingLongName) (long_name : Option (List ℕ)) (index start : ℕ) (s : Scan)
      → length name.raw ≡ 11
      → first_cluster < 2 ^ 32
      → size < 2 ^ 32
      → InRange at
      → finish u.decode_utf16 (checksum name) run ≡ long_name
      → s.pending ≡ some run
      → s.long_run ≡ some start
      → push_entry u codepage entry_written index s ≡ record s {
        entries =
            s.entries
            ++ expected
                (to_display_string_with u codepage)
                into
                attributes
                first_cluster
                size
                at
                long_name
                index
                start
                name
              ∷ [];
        pending = none;
        long_run = none;
      }
  unfolding push_entry take_long_name
  push-stored run long_name index start s eleven small fits r finished pending begun =
      let named_by : take_long_name u codepage s.pending entry_written ≡ long_name =
        rw (pending, (entry_read eleven).0, take_long_name) finished in
      let from_start : unwrap_or s.long_run index ≡ start = rw begun refl in
      ap (λ e. record s { entries = s.entries ++ e ∷ []; pending = none; long_run = none })
        (ap₂ (λ l f. read_entry (to_display_string_with u codepage) entry_written l index f)
            named_by from_start
          ∙ read_entry-write_entry (to_display_string_with u codepage) into attributes first_cluster
              size at long_name index start name eleven small fits r)

  -- The slots of a long name of 1 to 255 UTF-16 units and the entry with their checksum, parsed
  -- from a place before the end of a directory of at most 2 ^ 32 slots, with no run of long-name
  -- slots in front, add exactly one entry: with the long name up to its first 0x0000 or 0xFFFF and
  -- all that was written, for a name of eleven bytes that begins like an entry in use, attributes
  -- of a file or directory, numbers of 32 bits and a date-time in range.
  pub scan_slots-stored :
      (units : List ℕ) (n : ℕ) (s : Scan)
      → AreUnits units
      → 1 ≤ length units
      → length units ≤ 255
      → length name.raw ≡ 11
      → byte name.raw 0 ≢ end_of_directory
      → byte name.raw 0 ≢ deleted_mark
      → is_long_name attributes ≡ false
      → is_volume_id attributes ≡ false
      → first_cluster < 2 ^ 32
      → size < 2 ^ 32
      → InRange at
      → n + (length units + 12) / 13 < 2 ^ 32
      → s.ended ≡ false
      → s.long_run ≡ none
      → scan_slots u codepage
          (long_name_slots units (checksum name)
            ++ take entry_size (write_entry into name attributes first_cluster size at) ∷ [])
          n
          s
        ≡ parsed (record s {
          entries =
              s.entries
              ++ expected
                  (to_display_string_with u codepage)
                  into
                  attributes
                  first_cluster
                  size
                  at
                  (named (u.decode_utf16 (before_end units)))
                  (n + (length units + 12) / 13)
                  n
                  name
                ∷ [];
          pending = none;
          long_run = none;
        })
  scan_slots-stored units n s fits some_units short eleven in_use kept file plain small size_fits r
        inside going alone =
      let sum = checksum name in
      let count = (length units + 12) / 13 in
      let slots = long_name_slots units sum in
      let (run, absorbed, finished) =
        long_name_slots-absorbed u.decode_utf16 units sum sum s.pending fits some_units short in
      let same : (sum == sum) ≡ true = ground arith in
      let read = entry_read eleven in
      let many = length-long_name_slots units sum in
      let after = record s { pending = some run; long_run = run_start s.long_run n slots } in
      let place : u32 (n + length slots) ≡ n + count = omega (arith, many) in
      let begun : run_start s.long_run n slots ≡ some n =
        run_start-none n s.long_run slots alone (omega arith) (omega (arith, many)) in
      let pushed =
        push-stored run (named (u.decode_utf16 (before_end units))) (n + count) n after eleven small
          size_fits r (rw same at finished) refl begun in
      let listed : scan_slot u codepage entry_written (u32 (n + length slots)) after
          ≡ parsed (push_entry u codepage entry_written (n + count) after) =
        rw place (
          scan_slot-short u codepage entry_written (n + count) after (rw read.1 (ground arith))
            (rw read.1 (ground arith)) (rw read.2 file) (rw read.2 plain) going) in
      scan_slots-append u codepage slots (entry_written ∷ []) n s
      ∙ rw
          (scan_slots-absorb_all u codepage slots n s (some run)
            (long_name_slots-AreLongSlots units sum short) going absorbed)
          (scan_slots-one u codepage entry_written (n + length slots) after
            ∙ listed
            ∙ ap parsed pushed)
