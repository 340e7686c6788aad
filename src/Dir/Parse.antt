-- ===== src/Dir/Parse.antt =====
-- `Directory` of src/dir.rs: the parse of a directory's bytes, lookup, and runs of free slots.
-- Entries carry no reference to where they stand but their slot; the map of names is a list of
-- pairs in which the first pair of a key counts.
pub mod Steps
pub mod Free
pub mod Total
pub mod LongSlots
pub mod Stored
pub mod Apart
pub mod InSlot
use resident_fat.Prelude.{
  ℕ, zero, suc, ◌+◌, ◌-◌, ◌*◌, ◌/◌, ◌%◌, ◌^◌, Bool, true, false, Option, none, some, List, [], ◌∷◌,
  ◌++◌, ltb, leb, ◌==◌, if◌then◌else◌, length, take, drop, get_elem?,
}
use resident_fat.Words.{u32}
use resident_fat.Bytes.{◌>>=◌, byte}
use resident_fat.Text.{Unicode, uppercased, same_text}
use resident_fat.Codepage.{Codepage}
use resident_fat.Dir.{entry_size, end_of_directory, deleted_mark}
use resident_fat.Dir.ShortName.{
  is_long_name, is_volume_id, from_entry, checksum, to_display_string_with,
}
use resident_fat.Dir.LongName.{PendingLongName, finish, absorb_long_name_slot}
use resident_fat.Dir.Entry.{DirEntry, read_entry}

-- What a parse comes to: a value, `Error::EntryAfterEnd`, or a panic.
pub data Outcome {ℓ} (A : Type ℓ) : Type ℓ where
  parsed : A → Outcome A
  entry_after_end : ℕ → Outcome A
  panicked : Outcome A

-- `?`
infixl 5 ◌and_then◌
abbrev pub ◌and_then◌ {ℓ κ} : {A : Type ℓ} {B : Type κ} → Outcome A → (A → Outcome B) → Outcome B
parsed a and_then f = f a
entry_after_end index and_then f = entry_after_end index
panicked and_then f = panicked

-- a stretch of free slots
pub record Stretch : Type 0 where
  pub at : ℕ
  pub length : ℕ

unfoldable pub note_free : List Stretch → ℕ → List Stretch
note_free [] index = record { at = index; length = 1 } ∷ []
note_free (run ∷ []) index =
    if u32 (run.at + run.length) == index
    then record run { length = run.length + 1 } ∷ []
    else run ∷ record { at = index; length = 1 } ∷ []
note_free (run ∷ next ∷ runs) index = run ∷ note_free (next ∷ runs) index

-- the variables of the scan
pub record Scan : Type 0 where
  pub entries : List DirEntry
  pub free : List Stretch
  pub pending : Option PendingLongName
  pub long_run : Option ℕ
  pub ended : Bool

abbrev pub at_start : Scan
at_start = record { entries = []; free = []; pending = none; long_run = none; ended = false }

-- `long_run.get_or_insert(index)`
abbrev pub get_or_insert : Option ℕ → ℕ → Option ℕ
get_or_insert none index = some index
get_or_insert (some at) index = some at

abbrev pub unwrap_or : Option ℕ → ℕ → ℕ
unwrap_or none index = index
unwrap_or (some at) index = at

-- the slot is unused
abbrev pub forget : Scan → ℕ → Bool → Scan
forget s index ended = record s {
  free = note_free s.free index;
  pending = none;
  long_run = none;
  ended = ended;
}

abbrev pub after_slot : Option (Option PendingLongName) → Scan → ℕ → Outcome Scan
after_slot none s index = panicked
after_slot (some pending) s index =
    parsed (record s { pending = pending; long_run = get_or_insert s.long_run index })

abbrev pub NameIndex : Type 0
NameIndex = List (List ℕ × ℕ)

unfoldable pub lookup : NameIndex → List ℕ → Option ℕ
lookup [] key = none
lookup ((name, at) ∷ index) key =
    let rest = lookup index key in if same_text name key then some at else rest

-- `index.entry(name).or_insert(at)`
abbrev pub or_insert_name : NameIndex → List ℕ → ℕ → NameIndex
or_insert_name index name at = elim (lookup index name) [
  | none ↦ (name, at) ∷ index
  | some old ↦ index
]

pub record Directory : Type 0 where
  pub entries : List DirEntry
  pub index : NameIndex
  pub free : List Stretch

-- `data.chunks_exact(ENTRY_SIZE)`, so many of them
unfoldable pub chunks : ℕ → List ℕ → List (List ℕ)
chunks zero data_bytes = []
chunks (suc n) data_bytes = take entry_size data_bytes ∷ chunks n (drop entry_size data_bytes)

unfoldable pub slots_of : List ℕ → List (List ℕ)
unfolding chunks
slots_of data_bytes = chunks (length data_bytes / entry_size) data_bytes

module _ (u : Unicode) (codepage : Codepage) where
  -- the long name of the slots in front, if they belong to the entry
  unfoldable pub take_long_name : Option PendingLongName → List ℕ → Option (List ℕ)
  take_long_name pending entry = pending >>= finish u.decode_utf16 (checksum (from_entry entry))

  unfoldable pub push_entry : List ℕ → ℕ → Scan → Scan
  unfolding take_long_name
  push_entry entry index s = record s {
    entries =
        s.entries
        ++ read_entry (to_display_string_with u codepage) entry (take_long_name s.pending entry)
            index (unwrap_or s.long_run index)
          ∷ [];
    pending = none;
    long_run = none;
  }

  -- one round of the scan
  unfoldable pub scan_slot : List ℕ → ℕ → Scan → Outcome Scan
  unfolding push_entry
  scan_slot entry index s =
      if byte entry 0 == end_of_directory
      then parsed (forget s index true)
      else if byte entry 0 == deleted_mark
      then parsed (forget s index s.ended)
      else if s.ended
      then entry_after_end index
      else if is_long_name (byte entry 0x0B)
      then after_slot (absorb_long_name_slot entry s.pending) s index
      else if is_volume_id (byte entry 0x0B)
      then parsed (record s { pending = none; long_run = none })
      else parsed (push_entry entry index s)

  -- the scan from a slot on
  unfoldable pub scan_slots : List (List ℕ) → ℕ → Scan → Outcome Scan
  scan_slots [] n s = parsed s
  scan_slots (entry ∷ slots) n s = scan_slot entry (u32 n) s and_then scan_slots slots (n + 1)

  abbrev pub insert_long : NameIndex → Option (List ℕ) → ℕ → NameIndex
  insert_long index none at = index
  insert_long index (some name) at = (uppercased u name, at) ∷ index

  -- the loop that fills the map, from an entry on
  unfoldable pub index_names : List DirEntry → ℕ → NameIndex → NameIndex
  unfolding lookup
  index_names [] at index = index
  index_names (entry ∷ entries) at index =
      index_names entries (at + 1) (
        insert_long (or_insert_name index (uppercased u entry.short_display) at) entry.long_name at)

  unfoldable pub directory_of : Scan → Directory
  unfolding index_names
  directory_of s = record { entries = s.entries; index = index_names s.entries 0 []; free = s.free }

  -- `Directory::parse`
  unfoldable pub parse_directory : List ℕ → Outcome Directory
  unfolding slots_of scan_slots
  parse_directory data_bytes =
      scan_slots (slots_of data_bytes) 0 at_start and_then (λ s. parsed (directory_of s))

  -- `Directory::get`
  unfoldable pub get_entry : Directory → List ℕ → Option DirEntry
  unfolding lookup
  get_entry d name = lookup d.index (uppercased u name) >>= get_elem? d.entries

-- the binary search between two places of the list, in so many rounds
unfoldable pub search_slot : ℕ → List DirEntry → ℕ → ℕ → ℕ → Option DirEntry
search_slot zero entries low high index = none
search_slot (suc rounds) entries low high index =
    let middle = low + (high - low) / 2 in
    let left_half = search_slot rounds entries low middle index in
    let right_half = search_slot rounds entries (middle + 1) high index in
    if leb high low then none else elim (get_elem? entries middle) [
      | none ↦ none
      | some entry ↦
          if entry.index == index
          then some entry
          else if ltb entry.index index
          then right_half
          else left_half
    ]

-- `Directory::at`: the search halves what is left, so as many rounds as entries are enough.
unfoldable pub entry_in_slot : Directory → ℕ → Option DirEntry
entry_in_slot d index = search_slot (length d.entries) d.entries 0 (length d.entries) index

-- `DirEntry::name`
unfoldable pub entry_name : DirEntry → List ℕ
entry_name entry = elim entry.long_name [ none ↦ entry.short_display | some name ↦ name ]

-- `Directory::free_run`
unfoldable pub free_run : List Stretch → ℕ → Option ℕ
free_run [] count = none
free_run (run ∷ runs) count =
    let rest = free_run runs count in if leb count run.length then some run.at else rest
