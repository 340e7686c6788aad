-- ===== src/Volume/Entries.antt =====
-- src/fs.rs: the slots of a directory on the device.
use resident_fat.Prelude.{
  ℕ, zero, suc, ◌+◌, ◌-◌, ◌*◌, ◌/◌, ◌%◌, ◌&&◌, ◌||◌, Option, none, some, List, [], ◌∷◌, ◌++◌, ltb,
  ◌==◌, if◌then◌else◌, length, take, drop, get_or, replicate,
}
use resident_fat.Words.{u32}
use resident_fat.Boot.{BootSector, cluster_sector, block_size}
use resident_fat.Fat.Table.{Run, M, set_entry}
use resident_fat.Fat.Alloc.{allocate}
use resident_fat.Dir.{entry_size}
use resident_fat.Dir.Entry.{copy_into, mark_deleted}
use resident_fat.Dir.Parse.{free_run}
use resident_fat.Errors.{done, panicked, directory_full, pure, ◌>>=◌, ◌>>◌, gets, or_fail, from_fat}
use resident_fat.Volume.{BlockDevice, Host, FileSystem, Op, read_blocks, write_blocks}
use resident_fat.Volume.Reading.{runs_on, read_dir, forget_directory}

abbrev pub slots_per_block : ℕ
slots_per_block = 16

-- The runs followed to a cluster of the chain: `seen` of them lie before.
unfoldable pub locate : BootSector → ℕ → ℕ → ℕ → List Run → Option ℕ
locate boot cluster_index block_in_cluster seen [] = none
locate boot cluster_index block_in_cluster seen (run ∷ rest) =
    let later = locate boot cluster_index block_in_cluster (u32 (seen + run.clusters)) rest in
    if ltb cluster_index (u32 (seen + run.clusters))
    then some (
        u32 (
          cluster_sector boot (u32 (run.start_cluster + (cluster_index - seen)))
          + block_in_cluster))
    else later

-- `buffer[offset..offset + ENTRY_SIZE]`, and its change in place
abbrev pub slot_at : ℕ → List ℕ → List ℕ
slot_at offset buffer = take entry_size (drop offset buffer)

abbrev pub with_slot : ℕ → List ℕ → List ℕ → List ℕ
with_slot offset slot buffer = take offset buffer ++ slot ++ drop (offset + entry_size) buffer

-- a map from slots of directories
unfoldable pub find_slot : List ((ℕ × ℕ) × ℕ) → ℕ → ℕ → ℕ
find_slot [] directory index = 0
find_slot (((c, i), n) ∷ rest) directory index =
    let later = find_slot rest directory index in
    if (c == directory) && (i == index) then n else later

-- the last cluster of a chain
abbrev pub last_cluster_of : List Run → Option ℕ
last_cluster_of [] = none
last_cluster_of (run ∷ []) = some (u32 (run.start_cluster + run.clusters) - 1)
last_cluster_of (run ∷ next ∷ rest) = last_cluster_of (next ∷ rest)

-- the entries that lie in one block: so many slots from one on
unfoldable pub place_entries : ℕ → ℕ → ℕ → ℕ → ℕ → List (List ℕ) → List ℕ → List ℕ
place_entries zero slot block_in_dir index last entries buffer = buffer
place_entries (suc k) slot block_in_dir index last entries buffer =
    let at = u32 (block_in_dir * slots_per_block + slot) in
    let placed = copy_into buffer (slot * entry_size) (get_or entries (at - index) []) in
    place_entries k (slot + 1) block_in_dir index last entries
      (if ltb at index || ltb last at then buffer else placed)

abbrev pub max_directory_growth : ℕ
max_directory_growth = 4

module _ {d : BlockDevice} where
  -- an operation on the table
  abbrev pub on_table : {A : Type 0} → M A → Op d A
  on_table m v = (from_fat (m v.fat).0, record v { fat = (m v.fat).1 })

  -- the block and the place in it of a slot
  unfoldable pub entry_location : ℕ → ℕ → Op d (ℕ × ℕ)
  entry_location cluster index =
      let block_in_dir = index / slots_per_block in
      let offset = index % slots_per_block * entry_size in
      gets (λ v. v.boot) >>= λ boot. runs_on cluster >>= λ rs.
      or_fail directory_full (
        locate boot (block_in_dir / boot.sectors_per_cluster)
          (block_in_dir % boot.sectors_per_cluster) 0 rs)
      >>= λ sector. pure (sector, offset)

  -- `read_entry` of the volume
  unfoldable pub read_slot : ℕ → ℕ → Op d (List ℕ)
  read_slot directory index = entry_location directory index >>= λ place.
      read_blocks d place.0 1 >>= λ buffer. pure (slot_at place.1 buffer)

  unfoldable pub generation : FileSystem d → ℕ → ℕ → ℕ
  generation v directory index = find_slot v.generations directory index

  unfoldable pub invalidate_slot : ℕ → ℕ → Op d (Unit {0})
  invalidate_slot directory index v = (
    done tt,
    record v {
      generations = ((directory, index), u32 (generation v directory index + 1)) ∷ v.generations;
    },
  )

  unfoldable pub edit_entry : ℕ → ℕ → (List ℕ → List ℕ) → Op d (Unit {0})
  edit_entry directory index edit = entry_location directory index >>= λ place.
      read_blocks d place.0 1 >>= λ buffer.
      write_blocks d place.0 (with_slot place.1 (edit (slot_at place.1 buffer)) buffer)
      >> forget_directory directory

  -- the blocks of the entries: so many from one on
  unfoldable pub write_entry_blocks : ℕ → ℕ → ℕ → ℕ → ℕ → List (List ℕ) → Op d (Unit {0})
  write_entry_blocks zero block_in_dir directory index last entries = pure tt
  write_entry_blocks (suc k) block_in_dir directory index last entries =
      entry_location directory (u32 (block_in_dir * slots_per_block)) >>= λ place.
      read_blocks d place.0 1 >>= λ buffer.
      write_blocks d place.0
        (place_entries slots_per_block 0 block_in_dir index last entries buffer)
      >> write_entry_blocks k (block_in_dir + 1) directory index last entries

  unfoldable pub write_entries : ℕ → ℕ → List (List ℕ) → Op d (Unit {0})
  write_entries directory index entries =
      let last = u32 (index + length entries) - 1 in
      write_entry_blocks (last / slots_per_block + 1 - index / slots_per_block)
        (index / slots_per_block) directory index last entries
      >> forget_directory directory

  -- the slots from one on, so many
  unfoldable pub invalidate_slots : ℕ → ℕ → ℕ → Op d (Unit {0})
  invalidate_slots zero directory first = pure tt
  invalidate_slots (suc k) directory first =
      invalidate_slot directory first >> invalidate_slots k directory (first + 1)

  -- so many slots from one on, the last first
  unfoldable pub delete_slots : ℕ → ℕ → ℕ → Op d (Unit {0})
  delete_slots zero directory first = pure tt
  delete_slots (suc k) directory first =
      edit_entry directory (first + k) mark_deleted >> delete_slots k directory first

  unfoldable pub delete_entries : ℕ → ℕ → ℕ → Op d (Unit {0})
  delete_entries directory first last =
      invalidate_slots (last + 1 - first) directory first
      >> edit_entry directory last mark_deleted
      >> delete_slots (last - first) directory first

  -- what is done with the clusters that were allocated: the first one becomes the directory's last
  abbrev pub extend_by : ℕ → ℕ → List Run → Op d (Unit {0})
  extend_by directory last [] v = (panicked, v)
  extend_by directory last (run ∷ rest) v =
      (write_blocks d (cluster_sector v.boot run.start_cluster)
            (replicate (v.boot.sectors_per_cluster * block_size) 0)
          >> on_table (set_entry last run.start_cluster)
          >> forget_directory directory)
        v

  unfoldable pub grow_directory : ℕ → Op d (Unit {0})
  grow_directory directory = runs_on directory >>= λ rs.
      or_fail directory_full (last_cluster_of rs) >>= λ last.
      on_table (allocate 1) >>= λ added. extend_by directory last added

  module _ (host : Host) where
    -- the loop, so many more rounds, and the last look
    unfoldable pub find_free_slots : ℕ → ℕ → ℕ → Op d ℕ
    find_free_slots zero directory count =
        read_dir host directory >>= λ parsed. or_fail directory_full (free_run parsed.free count)
    find_free_slots (suc rounds) directory count = read_dir host directory >>= λ parsed.
        elim (free_run parsed.free count) [
          | some index ↦ pure index
          | none ↦ grow_directory directory >> find_free_slots rounds directory count
        ]

    unfoldable pub free_slots : ℕ → ℕ → Op d ℕ
    free_slots directory count = find_free_slots max_directory_growth directory count
