-- ===== src/Dir.antt =====
-- src/dir.rs: directory entries of 32 bytes. An entry always has 32 bytes (`chunks_exact`), so a
-- read at one of the fixed offsets never falls outside of it.
pub mod LongName
pub mod ShortName
pub mod Entry
pub mod Written
pub mod Edited
pub mod Parse
use resident_fat.Prelude.{ℕ}

-- `ENTRY_SIZE`
abbrev pub entry_size : ℕ
entry_size = 32

abbrev pub deleted_mark : ℕ
deleted_mark = 0xE5

abbrev pub end_of_directory : ℕ
end_of_directory = 0x00

abbrev pub escaped_e5 : ℕ
escaped_e5 = 0x05

abbrev pub last_long_slot : ℕ
last_long_slot = 0x40

abbrev pub max_long_slots : ℕ
max_long_slots = 20

abbrev pub chars_per_slot : ℕ
chars_per_slot = 13

-- `Attributes::LONG_NAME`
abbrev pub long_name_attributes : ℕ
long_name_attributes = 0x0F
