-- ===== src/Tests/Directories.antt =====
-- Directories: entries written, edited and parsed.
use resident_fat.Prelude.{
  ℕ, ◌+◌, ◌/◌, ◌≡◌, refl, false, none, some, List, [], ◌∷◌, ◌++◌, All, set, range_from, length,
  get_or, get_elem?-eq-get_or, take, replicate, arith,
}
use resident_fat.Codepage.{ascii}
use resident_fat.Time.{DateTime, epoch}
use resident_fat.Time.Packing.{InRange}
use resident_fat.Dir.{entry_size}
use resident_fat.Dir.ShortName.{
  ShortName, checksum, is_long_name, is_volume_id, to_display_string_with,
}
use resident_fat.Dir.LongName.{named, absorb_long_name_slot, absorb, splice, slot_chars}
use resident_fat.Dir.Entry.{DirEntry, read_entry, write_entry}
use resident_fat.Dir.Written.{expected}
use resident_fat.Dir.Edited.{Renames, Updates, Repoints, TakesContents, edits-read_entry}
use resident_fat.Dir.Parse.{
  Outcome, parsed, at_start, scan_slots, Directory, slots_of, parse_directory, directory_of,
  free_run, note_free, scan_slot, push_entry, entry_in_slot,
}
use resident_fat.Dir.Parse.Free.{
  indexes, unused, IsUnusedAt, parse_directory-free, free_run-IsUnusedAt,
}
use resident_fat.Dir.Parse.Total.{first_past_end, Settles, parse_directory-Settles}
use resident_fat.Dir.Parse.InSlot.{parse_directory-entry_in_slot}
use resident_fat.Dir.Parse.Apart.{AreApart, parse_directory-AreApart}
use resident_fat.Dir.Parse.Stored.{scan_slots-stored}
use resident_fat.Name.{long_name_slots}
use resident_fat.Name.RoundTrip.{before_end}
use resident_fat.Tests.Names.{plain_text, fourteen}

abbrev noon : DateTime
noon = record epoch {
  year = 2024;
  month = 2;
  day = 29;
  hour = 12;
  minute = 30;
  second = 15;
  millisecond = 500;
}

noon-InRange : InRange noon
noon-InRange = record {
  month = omega arith;
  day = omega arith;
  hour = omega arith;
  minute = omega arith;
  second = omega arith;
  millisecond = omega arith;
}

abbrev game : ShortName
game = record {
  raw = 0x47 ∷ 0x41 ∷ 0x4D ∷ 0x45 ∷ 0x20 ∷ 0x20 ∷ 0x20 ∷ 0x20 ∷ 0x4E ∷ 0x45 ∷ 0x53 ∷ [];
  case_flags = 0x18;
}

abbrev display : ShortName → List ℕ
display name = name.raw

edits-read_entry_example :
    Renames display none 7 7 (replicate 32 1) game
    × Updates display none 7 7 (replicate 32 1) 70000 1000 noon
    × Repoints display none 7 7 (replicate 32 1) 70000
    × TakesContents display none 7 7 (replicate 32 1) (replicate 32 2)
edits-read_entry_example =
    edits-read_entry display none 7 7 (replicate 32 1) (replicate 32 2) game 70000 1000 noon refl
      refl refl (omega arith) (omega arith) noon-InRange

is_file : is_long_name 0x20 ≡ false
unfolding is_long_name
is_file = refl

is_plain : is_volume_id 0x20 ≡ false
unfolding is_volume_id
is_plain = refl

scan_slots-stored_example :
    scan_slots plain_text ascii
      (long_name_slots fourteen (checksum game)
        ++ take entry_size (write_entry [] game 0x20 5 1000 noon) ∷ [])
      3
      at_start
    ≡ parsed (record at_start {
      entries =
          expected
            (to_display_string_with plain_text ascii)
            []
            0x20
            5
            1000
            noon
            (named (before_end fourteen))
            (3 + 26 / 13)
            3
            game
          ∷ [];
    })
scan_slots-stored_example =
    scan_slots-stored plain_text ascii [] 0x20 5 1000 noon game fourteen 3 at_start (omega arith)
      (omega arith) (omega arith) refl (omega arith) (omega arith) is_file is_plain (omega arith)
      (omega arith) noon-InRange (omega arith) refl refl

-- a deleted slot, the two slots of an entry with a damaged long name, and two slots never used
abbrev small_directory : List ℕ
small_directory =
    set (replicate 32 0) 0 0xE5
    ++ set (set (replicate 32 0) 0 0x41) 0x0B 0x0F
    ++ set (replicate 32 0) 0 0x47
    ++ replicate 64 0

abbrev listing : Outcome Directory → Directory
listing (parsed d) = d
listing o = record { entries = []; index = []; free = [] }

-- The directory that the parse gives.
unfoldable listed : Directory
unfolding parse_directory
listed = listing (parse_directory plain_text ascii small_directory)

small_run : parse_directory plain_text ascii small_directory ≡ parsed listed
unfolding listed parse_directory slots_of scan_slots scan_slot note_free is_long_name is_volume_id
    push_entry absorb_long_name_slot absorb splice slot_chars directory_of
small_run = refl

small_free : listed.free ≡ record { at = 0; length = 1 } ∷ record { at = 3; length = 2 } ∷ []
unfolding listed parse_directory slots_of scan_slots scan_slot note_free is_long_name is_volume_id
    push_entry absorb_long_name_slot absorb splice slot_chars directory_of
small_free = refl

small_slots : length (slots_of small_directory) ≡ 5
unfolding slots_of
small_slots = refl

parse_directory-free_example : indexes listed.free ≡ unused (slots_of small_directory) 0
parse_directory-free_example =
    parse_directory-free plain_text ascii small_directory listed small_run
      (omega (arith, small_slots))

found : free_run listed.free 2 ≡ some 3
unfolding free_run
found = rw small_free refl

free_run-IsUnusedAt_example : All (IsUnusedAt (slots_of small_directory)) (range_from 3 2)
free_run-IsUnusedAt_example =
    free_run-IsUnusedAt plain_text ascii small_directory listed 2 3 small_run
      (omega (arith, small_slots)) found

parse_directory-AreApart_example : AreApart listed.entries
parse_directory-AreApart_example =
    parse_directory-AreApart plain_text ascii small_directory listed small_run
      (omega (arith, small_slots))

parse_directory-Settles_example :
    Settles
      (first_past_end (slots_of small_directory) 0)
      (parse_directory plain_text ascii small_directory)
parse_directory-Settles_example =
    parse_directory-Settles plain_text ascii small_directory (omega (arith, small_slots))

-- the entry that the directory lists
abbrev first_listed : DirEntry
first_listed = get_or listed.entries 0 (read_entry (λ name. []) [] none 0 0)

one_listed : length listed.entries ≡ 1
unfolding listed parse_directory slots_of scan_slots scan_slot note_free is_long_name is_volume_id
    push_entry absorb_long_name_slot absorb splice slot_chars directory_of
one_listed = refl

parse_directory-entry_in_slot_example : entry_in_slot listed first_listed.index ≡ some first_listed
parse_directory-entry_in_slot_example =
    parse_directory-entry_in_slot plain_text ascii small_directory listed 0 first_listed small_run
      (omega (arith, small_slots))
      (get_elem?-eq-get_or listed.entries 0 (read_entry (λ name. []) [] none 0 0)
        (omega (arith, one_listed)))
