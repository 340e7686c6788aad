-- ===== src/Dir/Entry.antt =====
-- The operations of src/dir.rs on the 32 bytes of a short-name entry, and the fields that
-- `Directory::parse` reads from them. A slice assignment replaces bytes in place.
use resident_fat.Prelude.{
  ℕ, ◌+◌, ◌*◌, ◌/◌, ◌%◌, ◌^◌, List, [], ◌∷◌, ◌++◌, Option, set, drop, take, replicate,
}
use resident_fat.Words.{u16, low_bits, shr, shl}
use resident_fat.Bytes.{byte, word, long}
use resident_fat.Time.{DateTime, pack, unpack}
use resident_fat.Dir.{entry_size, deleted_mark}
use resident_fat.Dir.ShortName.{ShortName, from_raw, from_entry, directory_bit}

-- `into[at..at + n].copy_from_slice(bytes)`
abbrev pub copy_into : List ℕ → ℕ → List ℕ → List ℕ
copy_into into at [] = into
copy_into into at (b ∷ bs) = copy_into (set into at b) (at + 1) bs

-- `to_le_bytes` of a word of 16 bits, and of one of 32
abbrev pub le_16 : ℕ → List ℕ
le_16 n = n % 2 ^ 8 ∷ n / 2 ^ 8 % 2 ^ 8 ∷ []

abbrev pub le_32 : ℕ → List ℕ
le_32 n = n % 2 ^ 8 ∷ n / 2 ^ 8 % 2 ^ 8 ∷ n / 2 ^ 16 % 2 ^ 8 ∷ n / 2 ^ 24 % 2 ^ 8 ∷ []

-- `set_first_cluster`
unfoldable pub set_first_cluster : List ℕ → ℕ → List ℕ
set_first_cluster into first_cluster =
    let high = copy_into into 0x14 (le_16 (u16 (shr first_cluster 16))) in
    copy_into high 0x1A (le_16 (low_bits first_cluster 16))

unfoldable pub update_entry : List ℕ → ℕ → ℕ → DateTime → List ℕ
update_entry into first_cluster size at =
    let stamp = pack at in
    let high = copy_into into 0x14 (le_16 (u16 (shr first_cluster 16))) in
    let time = copy_into high 0x16 (le_16 stamp.time) in
    let date = copy_into time 0x18 (le_16 stamp.date) in
    let low = copy_into date 0x1A (le_16 (low_bits first_cluster 16)) in
    copy_into low 0x1C (le_32 size)

-- The code panics on a buffer of fewer than 32 bytes, which no caller has: this is then total.
unfoldable pub write_entry : List ℕ → ShortName → ℕ → ℕ → ℕ → DateTime → List ℕ
write_entry into name attributes first_cluster size at =
    let stamp = pack at in
    let cleared = replicate entry_size 0 ++ drop entry_size into in
    let named = copy_into cleared 0 name.raw in
    let flagged = set (set named 0x0B attributes) 0x0C name.case_flags in
    let created = copy_into (set flagged 0x0D stamp.hundredths) 0x0E (le_16 stamp.time) in
    let accessed = copy_into (copy_into created 0x10 (le_16 stamp.date)) 0x12 (le_16 stamp.date) in
    let high = copy_into accessed 0x14 (le_16 (u16 (shr first_cluster 16))) in
    let time = copy_into high 0x16 (le_16 stamp.time) in
    let date = copy_into time 0x18 (le_16 stamp.date) in
    let low = copy_into date 0x1A (le_16 (low_bits first_cluster 16)) in
    copy_into low 0x1C (le_32 size)

unfoldable pub rename_entry : List ℕ → ShortName → List ℕ
rename_entry into name = set (copy_into into 0 name.raw) 0x0C name.case_flags

unfoldable pub take_contents : List ℕ → List ℕ → List ℕ
take_contents into source =
    copy_into (set into 0x0B (byte source 0x0B)) 0x0D (drop 0x0D (take entry_size source))

unfoldable pub mark_deleted : List ℕ → List ℕ
mark_deleted into = set into 0 deleted_mark

-- `*b".          "`, and the name of two dots
abbrev pub dot_name : List ℕ
dot_name = 0x2E ∷ replicate 10 0x20

abbrev pub dot_dot_name : List ℕ
dot_dot_name = 0x2E ∷ 0x2E ∷ replicate 9 0x20

-- The two entries are written over the first two of the buffer.
unfoldable pub write_dot_entries : List ℕ → ℕ → ℕ → DateTime → List ℕ
unfolding write_entry
write_dot_entries into cluster parent at =
    write_entry (take entry_size into) (from_raw dot_name 0) directory_bit cluster 0 at
    ++ write_entry (take entry_size (drop entry_size into)) (from_raw dot_dot_name 0) directory_bit
        parent 0 at
    ++ drop (2 * entry_size) into

pub record DirEntry : Type 0 where
  pub short_name : ShortName
  pub short_display : List ℕ
  pub long_name : Option (List ℕ)
  pub attributes : ℕ
  pub first_cluster : ℕ
  pub size : ℕ
  pub index : ℕ
  pub first_slot : ℕ
  pub created : DateTime
  pub modified : DateTime
  pub accessed : DateTime

-- the entry that the parser pushes
unfoldable pub read_entry : (ShortName → List ℕ) → List ℕ → Option (List ℕ) → ℕ → ℕ → DirEntry
read_entry display entry long_name index first_slot = record {
  short_name = from_entry entry;
  short_display = display (from_entry entry);
  long_name = long_name;
  attributes = byte entry 0x0B;
  first_cluster = shl (word entry 0x14) 16 + word entry 0x1A;
  size = long entry 0x1C;
  index = index;
  first_slot = first_slot;
  created =
      unpack
        (record { date = word entry 0x10; time = word entry 0x0E; hundredths = byte entry 0x0D });
  modified = unpack (record { date = word entry 0x18; time = word entry 0x16; hundredths = 0 });
  accessed = unpack (record { date = word entry 0x12; time = 0; hundredths = 0 });
}
