-- ===== src/Volume/Flushing.antt =====
-- src/fs.rs: the table and the hints written back, and the flag of a volume in use cleared.
use resident_fat.Prelude.{
  ℕ, ◌+◌, Bool, false, not, ◌||◌, none, some, List, [], ◌∷◌, ◌==◌, if◌then◌else◌,
}
use resident_fat.Words.{u32}
use resident_fat.Bytes.{long}
use resident_fat.Boot.{FsInfo}
use resident_fat.Dir.Entry.{copy_into, le_32}
use resident_fat.Fat.Table.{Fat}
use resident_fat.Fat.Sync.{dirty_runs, sector_bytes, copy_starts, clear_dirty, next_free_hint}
use resident_fat.Errors.{done, pure, ◌>>=◌, ◌>>◌, gets, modify, result_of, from_fat}
use resident_fat.Volume.{BlockDevice, Op, read_blocks, write_blocks, set_dirty_flag}

-- the signature and the two fields of the hints
abbrev pub lead_signature : ℕ
lead_signature = 0x41615252

abbrev pub struct_signature : ℕ
struct_signature = 0x61417272

-- Not a block of hints
abbrev pub is_foreign : List ℕ → Bool
is_foreign block =
    not (long block 0 == lead_signature) || not (long block 0x1E4 == struct_signature)

abbrev pub with_hints : Fat → List ℕ → List ℕ
with_hints f block =
    copy_into (copy_into block 0x1E8 (le_32 f.free_count)) 0x1EC (le_32 (next_free_hint f))

abbrev pub kept_hints : Fat → FsInfo
kept_hints f = record { free_clusters = some f.free_count; next_free = some (next_free_hint f) }

module _ {d : BlockDevice} where
  -- the same sectors written to each copy of the table
  unfoldable pub write_copies : List ℕ → ℕ → List ℕ → Op d (Unit {0})
  write_copies [] sector bytes = pure tt
  write_copies (start ∷ starts) sector bytes =
      write_blocks d (u32 (start + sector)) bytes >> write_copies starts sector bytes

  -- the loop over the stretches of changed sectors
  unfoldable pub flush_runs : List ℕ → List (ℕ × ℕ) → Op d (Unit {0})
  flush_runs starts [] = pure tt
  flush_runs starts ((sector, count) ∷ rest) =
      gets (λ v. from_fat (sector_bytes sector count v.fat)) >>= λ bytes.
      result_of bytes >>= λ bytes. write_copies starts sector bytes >> flush_runs starts rest

  abbrev pub flush_some : List (ℕ × ℕ) → Op d (Unit {0})
  flush_some [] = pure tt
  flush_some (run ∷ rest) = gets (λ v. copy_starts v.fat) >>= λ starts.
      flush_runs starts (run ∷ rest) >> modify (λ v. record v { fat = clear_dirty v.fat })

  unfoldable pub flush_fat : Op d (Unit {0})
  flush_fat = gets (λ v. dirty_runs v.fat) >>= λ rs. flush_some rs

  -- the hints in their sector
  unfoldable pub write_hints : ℕ → Op d (Unit {0})
  write_hints sector = read_blocks d sector 1 >>= λ block.
      if is_foreign block
      then pure tt
      else gets (λ v. with_hints v.fat block) >>= λ after.
          write_blocks d sector after >> modify (λ v. record v { fs_info = kept_hints v.fat })

  unfoldable pub write_fs_info : Op d (Unit {0})
  write_fs_info v = elim v.boot.fs_info_sector [
    | none ↦ (done tt, v)
    | some sector ↦ write_hints sector v
  ]

  unfoldable pub sync : Op d (Unit {0})
  sync v =
      if not v.marked_dirty
      then (done tt, v)
      else (flush_fat
            >> write_fs_info
            >> modify (λ w. record w { marked_dirty = false })
            >> set_dirty_flag d false)
          v

  -- `unmount`: the device is handed back.
  unfoldable pub unmount : Op d d.State
  unmount = sync >> gets (λ v. v.device)
