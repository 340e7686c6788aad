-- ===== src/Files/Creating.antt =====
-- src/file.rs: a file or a directory created.
use resident_fat.Prelude.{
  ℕ, ◌+◌, ◌*◌, Bool, true, false, not, Option, none, some, List, [], ◌∷◌, ◌++◌, ◌==◌, if◌then◌else◌,
  length, replicate,
}
use resident_fat.Words.{u32}
use resident_fat.Boot.{block_size, cluster_sector}
use resident_fat.Time.{DateTime}
use resident_fat.Dir.{entry_size}
use resident_fat.Dir.ShortName.{directory_bit}
use resident_fat.Dir.Entry.{DirEntry, write_entry, write_dot_entries}
use resident_fat.Dir.Parse.{Directory, get_entry}
use resident_fat.Name.Stored.{
  StoredName, Storing, stored, bad_name, no_alias_available, storing_panicked, stored_name,
  entries_needed,
}
use resident_fat.Fat.Table.{Run}
use resident_fat.Fat.Alloc.{allocate}
use resident_fat.Fat.Release.{free_chain}
use resident_fat.Errors.{
  Error, Result, done, failed, panicked, stuck, already_exists, pure, ◌>>=◌, ◌>>◌, gets,
}
use resident_fat.Volume.{BlockDevice, Host, FileSystem, Op, write_blocks}
use resident_fat.Volume.Reading.{now, resolve_dir, read_dir}
use resident_fat.Volume.Flushing.{flush_fat}
use resident_fat.Volume.Entries.{on_table, generation, write_entries, free_slots}
use resident_fat.Files.{File, split_path}
use resident_fat.Files.Spans.{div_ceil}
use resident_fat.Files.Growing.{bytes_per_cluster, expect, first_run_start}

-- `Attributes::ARCHIVE`
abbrev pub archive_bit : ℕ
archive_bit = 0x20

-- an entry other than the one at a slot
abbrev pub is_other : Option ℕ → Option DirEntry → Bool
is_other except none = false
is_other none (some entry) = true
is_other (some slot) (some entry) = not (entry.index == slot)

-- the names that an alias must not be
abbrev pub is_in_use : Option ℕ → Bool → Option DirEntry → Bool
is_in_use except true found = is_other except found
is_in_use except false found = is_other none found

-- what a name is stored as, or an error that names it
abbrev pub from_storing : List ℕ → Storing → Result StoredName
from_storing name (stored s) = done s
from_storing name bad_name = failed (Error.bad_name name)
from_storing name no_alias_available = failed (Error.no_alias_available name)
from_storing name storing_panicked = panicked

unfoldable pub name_entries : StoredName → ℕ → ℕ → ℕ → DateTime → List (List ℕ)
name_entries s attributes first size at =
    s.slots ++ write_entry (replicate entry_size 0) s.short attributes first size at ∷ []

-- `map(..).unwrap_or(0)`
abbrev pub start_or_zero : List Run → ℕ
start_or_zero [] = 0
start_or_zero (run ∷ rest) = run.start_cluster

-- A failure that stands whatever undoing what was done comes to, unless that panics.
abbrev pub keep_error : {S A B : Type 0} → Error → Result B × S → Result A × S
keep_error e (done b, s) = (failed e, s)
keep_error e (failed _, s) = (failed e, s)
keep_error e (panicked, s) = (panicked, s)
keep_error e (stuck, s) = (stuck, s)

abbrev pub undone : {S A B : Type 0} → (S → Result B × S) → Result A × S → Result A × S
undone undo (done a, s) = (done a, s)
undone undo (failed e, s) = keep_error e (undo s)
undone undo (panicked, s) = (panicked, s)
undone undo (stuck, s) = (stuck, s)

module _ {d : BlockDevice} where
  -- an operation, and the clusters given back where it fails
  abbrev pub or_free : {A : Type 0} → ℕ → Op d A → Op d A
  or_free first m v = if first == 0 then m v else undone (on_table (free_chain first)) (m v)

  -- `0` for the root directory
  abbrev pub link_to_parent : ℕ → FileSystem d → ℕ
  link_to_parent parent v = if parent == v.boot.root_cluster then 0 else parent

  module _ (host : Host) where
    abbrev pub plan_in : Directory → List ℕ → Option ℕ → Bool → Op d StoredName
    plan_in directory name except reuse_alias v =
        let found : List ℕ → Option DirEntry = get_entry host.unicode v.codepage directory in
        if is_other except (found name) then (failed (already_exists name), v) else (
          from_storing name (
              stored_name host.unicode v.codepage
                (λ alias. is_in_use except reuse_alias (found alias)) name),
          v,
        )

    unfoldable pub plan_name_except : ℕ → List ℕ → Option ℕ → Bool → Op d StoredName
    plan_name_except directory name except reuse_alias =
        read_dir host directory >>= λ parsed. plan_in parsed name except reuse_alias

    unfoldable pub plan_name : ℕ → List ℕ → Op d StoredName
    plan_name directory name = plan_name_except directory name none false

    -- the entries of a new file written, once its clusters are allocated
    unfoldable pub publish_file : ℕ → StoredName → ℕ → DateTime → Op d File
    publish_file directory s first at =
        or_free first (free_slots host directory (entries_needed s)) >>= λ first_slot.
        or_free first flush_fat
        >> or_free first
            (write_entries directory first_slot (name_entries s archive_bit first 0 at))
        >> gets (λ v.
          let index = u32 (first_slot + length s.slots) in
          record {
            first_cluster = first;
            size = 0;
            directory = directory;
            index = index;
            first_slot = first_slot;
            short_name = s.short;
            generation = generation v directory index;
          })

    unfoldable pub create_with_size : List ℕ → ℕ → Op d File
    create_with_size path size =
        let (parent, name) = split_path path in
        now >>= λ at. resolve_dir host parent >>= λ directory. plan_name directory name >>= λ s.
        gets bytes_per_cluster >>= λ bytes. on_table (allocate (div_ceil size bytes)) >>= λ rs.
        publish_file directory s (start_or_zero rs) at

    unfoldable pub create : List ℕ → Op d File
    create path = create_with_size path 0

    -- the cluster of a new directory filled, and then its entries written
    unfoldable pub publish_dir : ℕ → StoredName → ℕ → ℕ → DateTime → Op d (Unit {0})
    publish_dir parent s cluster first_slot at =
        gets (λ v.
          write_dot_entries (replicate (v.boot.sectors_per_cluster * block_size) 0) cluster
            (link_to_parent parent v) at)
        >>= λ blank. gets (λ v. cluster_sector v.boot cluster) >>= λ sector.
            write_blocks d sector blank
            >> flush_fat
            >> write_entries parent first_slot (name_entries s directory_bit cluster 0 at)

    -- The cluster is given back whatever its number.
    abbrev pub or_free_cluster : {A : Type 0} → ℕ → Op d A → Op d A
    or_free_cluster cluster m v = undone (on_table (free_chain cluster)) (m v)

    unfoldable pub create_dir : List ℕ → Op d ℕ
    create_dir path =
        let (parent_path, name) = split_path path in
        now >>= λ at. resolve_dir host parent_path >>= λ parent. plan_name parent name >>= λ s.
        on_table (allocate 1) >>= λ rs. expect (first_run_start rs) >>= λ cluster.
        or_free_cluster cluster (free_slots host parent (entries_needed s)) >>= λ first_slot.
        or_free_cluster cluster (publish_dir parent s cluster first_slot at) >> pure cluster
