-- ===== src/Files/Removing.antt =====
-- src/file.rs: a file or a directory removed, and a file written anew.
use resident_fat.Prelude.{
  ℕ, Bool, true, false, not, ◌||◌, List, [], ◌∷◌, ◌==◌, if◌then◌else◌, length,
}
use resident_fat.Words.{u32}
use resident_fat.Text.{same_text}
use resident_fat.Dir.ShortName.{is_directory}
use resident_fat.Dir.Entry.{DirEntry}
use resident_fat.Dir.Parse.{entry_name}
use resident_fat.Fat.Release.{free_chain}
use resident_fat.Errors.{
  Result, done, failed, panicked, stuck, not_a_directory, directory_not_empty, pure, fail, ◌>>=◌,
  ◌>>◌,
}
use resident_fat.Volume.{BlockDevice, Host, FileSystem, Op}
use resident_fat.Volume.Reading.{resolve_dir, read_dir, named_in, forget_directory}
use resident_fat.Volume.Flushing.{flush_fat}
use resident_fat.Volume.Entries.{on_table, delete_entries}
use resident_fat.Files.{File, split_path, open_file}
use resident_fat.Files.Growing.{write_at}
use resident_fat.Files.Creating.{create_with_size}

-- `.` and `..`
abbrev pub one_dot : List ℕ
one_dot = 0x2E ∷ []

abbrev pub two_dots : List ℕ
two_dots = 0x2E ∷ 0x2E ∷ []

abbrev pub is_dots : List ℕ → Bool
is_dots name = same_text name one_dot || same_text name two_dots

-- an entry other than `.` and `..`
unfoldable pub is_occupied : List DirEntry → Bool
is_occupied [] = false
is_occupied (entry ∷ entries) = not (is_dots (entry_name entry)) || is_occupied entries

-- `is_ok()`
abbrev pub as_test : {S A : Type 0} → Result A × S → Result Bool × S
as_test (done a, s) = (done true, s)
as_test (failed e, s) = (done false, s)
as_test (panicked, s) = (panicked, s)
as_test (stuck, s) = (stuck, s)

module _ {d : BlockDevice} where
  -- an operation on a handle, which is the result
  abbrev pub handle_of : Result (Unit {0}) × (File × FileSystem d) → Result File × FileSystem d
  handle_of (done _, (file, v)) = (done file, v)
  handle_of (failed e, (file, v)) = (failed e, v)
  handle_of (panicked, (file, v)) = (panicked, v)
  handle_of (stuck, (file, v)) = (stuck, v)

  -- the clusters of a chain given back, and the table written
  abbrev pub release_chain : ℕ → Op d (Unit {0})
  release_chain cluster = on_table (free_chain cluster) >> flush_fat

  abbrev pub release_file : ℕ → Op d (Unit {0})
  release_file cluster = if cluster == 0 then pure tt else release_chain cluster

  unfoldable pub remove_empty : ℕ → DirEntry → Op d (Unit {0})
  remove_empty parent entry =
      delete_entries parent entry.first_slot entry.index
      >> release_chain entry.first_cluster
      >> forget_directory entry.first_cluster

  module _ (host : Host) where
    abbrev pub refuse_occupied : List ℕ → DirEntry → Op d (Unit {0})
    refuse_occupied name entry = read_dir host entry.first_cluster >>= λ below.
        if is_occupied below.entries then fail (directory_not_empty name) else pure tt

    unfoldable pub remove_dir : List ℕ → Op d (Unit {0})
    remove_dir path =
        let (parent_path, name) = split_path path in
        resolve_dir host parent_path >>= λ parent. read_dir host parent >>= λ parsed.
        named_in host parsed name >>= λ entry.
        if is_directory entry.attributes
        then refuse_occupied name entry >> remove_empty parent entry
        else fail (not_a_directory name)

    unfoldable pub remove : List ℕ → Op d (Unit {0})
    remove path = open_file host path >>= λ file.
        delete_entries file.directory file.first_slot file.index >> release_file file.first_cluster

    abbrev pub is_open_ok : List ℕ → Op d Bool
    is_open_ok path v = as_test (open_file host path v)

    unfoldable pub write_file : List ℕ → List ℕ → Op d File
    write_file path from = is_open_ok path >>= λ found.
        (if found then remove path else pure tt)
        >> (create_with_size host path (u32 (length from)) >>= λ file v.
            handle_of (write_at host 0 from (file, v)))
