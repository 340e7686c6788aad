-- ===== src/Files.antt =====
-- src/file.rs: what a handle holds, how one is made, and how it is refused when it is stale.
pub mod Spans
pub mod Chains
pub mod Growing
pub mod Creating
pub mod Removing
pub mod Live
pub mod Stale
pub mod Renaming
use resident_fat.Prelude.{
  ℕ, Bool, true, false, not, ◌&&◌, Option, none, some, List, [], ◌∷◌, ◌==◌, if◌then◌else◌,
}
use resident_fat.Text.{same_text}
use resident_fat.Dir.ShortName.{ShortName, is_directory, to_display_string_with}
use resident_fat.Dir.Entry.{DirEntry}
use resident_fat.Dir.Parse.{Directory, entry_in_slot}
use resident_fat.Errors.{
  Act, Result, done, failed, panicked, stuck, is_a_directory, stale_file, pure, fail, ◌>>=◌, ◌>>◌,
  gets,
}
use resident_fat.Volume.{BlockDevice, Host, FileSystem, Op}
use resident_fat.Volume.Reading.{slash, resolve_dir, read_dir, named_in}
use resident_fat.Volume.Entries.{generation}

pub record File : Type 0 where
  pub first_cluster : ℕ
  pub size : ℕ
  pub directory : ℕ
  pub index : ℕ
  pub first_slot : ℕ
  pub short_name : ShortName
  pub generation : ℕ

-- a text split at the last separator, if it has one
unfoldable pub split_at_last : ℕ → List ℕ → Option (List ℕ × List ℕ)
split_at_last separator [] = none
split_at_last separator (c ∷ cs) = elim (split_at_last separator cs) [
  | some (before, after) ↦ some (c ∷ before, after)
  | none ↦ if c == separator then some ([], cs) else none
]

unfoldable pub split_path : List ℕ → List ℕ × List ℕ
unfolding split_at_last
split_path path = elim (split_at_last slash path) [ some parts ↦ parts | none ↦ ([], path) ]

abbrev pub file_of : ℕ → DirEntry → ℕ → File
file_of directory entry generation = record {
  first_cluster = entry.first_cluster;
  size = entry.size;
  directory = directory;
  index = entry.index;
  first_slot = entry.first_slot;
  short_name = entry.short_name;
  generation = generation;
}

-- the entry at a handle's slot has the handle's name
abbrev pub is_same_entry : File → Option DirEntry → Bool
is_same_entry file none = false
is_same_entry file (some entry) = same_text entry.short_name.raw file.short_name.raw

module _ (d : BlockDevice) where
  -- an operation that also changes the handle it is given
  abbrev pub FileOp : Type 0 → Type 0
  FileOp A = Act (File × FileSystem d) A

module _ {d : BlockDevice} where
  abbrev pub beside :
      {A : Type 0} → File → Result A × FileSystem d → Result A × (File × FileSystem d)
  beside file (r, v) = (r, (file, v))

  abbrev pub on_volume : {A : Type 0} → Op d A → FileOp d A
  on_volume m (file, v) = beside file (m v)

  abbrev pub with_file : {A : Type 0} → (File → Op d A) → FileOp d A
  with_file m (file, v) = beside file (m file v)

  abbrev pub change_file : (File → File) → FileOp d (Unit {0})
  change_file f (file, v) = (done tt, (f file, v))

  module _ (host : Host) where
    abbrev pub opened : ℕ → List ℕ → DirEntry → Op d File
    opened directory name entry =
        if is_directory entry.attributes
        then fail (is_a_directory name)
        else gets (λ v. file_of directory entry (generation v directory entry.index))

    -- `FileSystem::open`
    unfoldable pub open_file : List ℕ → Op d File
    open_file path =
        let (parent, name) = split_path path in
        resolve_dir host parent >>= λ cluster.
        read_dir host cluster >>= λ directory. named_in host directory name >>= opened cluster name

    abbrev pub refuse_stale : File → Op d (Unit {0})
    refuse_stale file v =
        (failed (stale_file (to_display_string_with host.unicode v.codepage file.short_name)), v)

    unfoldable pub check_live : File → Op d (Unit {0})
    check_live file v =
        if generation v file.directory file.index == file.generation
        then (read_dir host file.directory >>= λ directory.
              if is_same_entry file (entry_in_slot directory file.index)
              then pure tt
              else refuse_stale file)
            v
        else refuse_stale file v
