-- ===== src/Files/Growing.antt =====
-- src/file.rs: a file written, and its length changed. The handle changes with the file.
use resident_fat.Prelude.{
  ℕ, ◌+◌, ◌-◌, ◌^◌, Option, none, some, List, [], ◌∷◌, ltb, leb, ◌==◌, if◌then◌else◌, length,
}
use resident_fat.Words.{u32, u64}
use resident_fat.Boot.{cluster_bytes}
use resident_fat.Time.{DateTime}
use resident_fat.Dir.Entry.{update_entry}
use resident_fat.Fat.Table.{Run, disk_full}
use resident_fat.Fat.Runs.{chain_length}
use resident_fat.Fat.Alloc.{allocate}
use resident_fat.Fat.Release.{append, truncate_chain}
use resident_fat.Errors.{
  Act, done, panicked, fat_error, pure, fail, ◌>>=◌, ◌>>◌, gets, result_of, from_fat,
}
use resident_fat.Volume.{BlockDevice, Host, FileSystem, Op, at_least_one}
use resident_fat.Volume.Reading.{now, runs_on}
use resident_fat.Volume.Flushing.{flush_fat}
use resident_fat.Volume.Entries.{on_table, edit_entry, last_cluster_of}
use resident_fat.Files.{File, FileOp, on_volume, with_file, change_file, check_live}
use resident_fat.Files.Spans.{div_ceil}
use resident_fat.Files.Chains.{write_chain, zero_range}

-- `.expect(..)`, or an index: none is a panic
abbrev pub expect : {S A : Type 0} → Option A → Act S A
expect none s = (panicked, s)
expect (some a) s = (done a, s)

abbrev pub first_run_start : List Run → Option ℕ
first_run_start [] = none
first_run_start (run ∷ rest) = some run.start_cluster

module _ {d : BlockDevice} where
  -- `cluster_bytes().max(1)`
  abbrev pub bytes_per_cluster : FileSystem d → ℕ
  bytes_per_cluster v = at_least_one (cluster_bytes v.boot)

  -- the entry of the file, with this cluster, size and time
  abbrev pub record_extent : ℕ → ℕ → DateTime → File → Op d (Unit {0})
  record_extent first size at file =
      edit_entry file.directory file.index (λ entry. update_entry entry first size at)

  -- clusters for a file that has none
  unfoldable pub begin_chain : ℕ → DateTime → FileOp d (Unit {0})
  begin_chain wanted at =
      on_volume (on_table (allocate wanted) >>= λ rs. expect (first_run_start rs)) >>= λ first.
      on_volume flush_fat
      >> with_file (λ file. record_extent first file.size at file)
      >> change_file (λ file. record file { first_cluster = first })

  -- more clusters, if the chain is shorter than that
  unfoldable pub extend_chain : ℕ → File → Op d (Unit {0})
  extend_chain wanted file =
      gets (λ v. from_fat (chain_length v.fat file.first_cluster)) >>= λ found.
      result_of found >>= λ have.
      if leb wanted have
      then pure tt
      else runs_on file.first_cluster >>= λ rs. expect (last_cluster_of rs) >>= λ last.
          on_table (append last (wanted - have)) >> flush_fat

  abbrev pub grow_chain : ℕ → DateTime → File → FileOp d (Unit {0})
  grow_chain wanted at file =
      if file.first_cluster == 0 then begin_chain wanted at else with_file (extend_chain wanted)

  abbrev pub the_file : FileOp d File
  the_file = gets (λ s. s.0)

  -- `FileSystem::reserve`
  unfoldable pub reserve_clusters : ℕ → FileOp d (Unit {0})
  reserve_clusters size = on_volume now >>= λ at. on_volume (gets bytes_per_cluster) >>= λ bytes.
      if div_ceil size bytes == 0
      then pure tt
      else the_file >>= λ file. grow_chain (div_ceil size bytes) at file

  -- the new length, in the entry and in the handle
  abbrev pub publish_size : ℕ → DateTime → FileOp d (Unit {0})
  publish_size size at =
      with_file (λ file. record_extent file.first_cluster size at file)
      >> change_file (λ file. record file { size = size })

  abbrev pub fill_gap : ℕ → FileOp d (Unit {0})
  fill_gap offset =
      with_file (λ file. if ltb file.size offset then zero_range file file.size offset else pure tt)

  unfoldable pub write_up_to : ℕ → List ℕ → ℕ → DateTime → FileOp d (Unit {0})
  write_up_to offset from end at =
      reserve_clusters (u32 end)
      >> fill_gap offset
      >> with_file (λ file. write_chain file offset from)
      >> (the_file >>= λ file.
          if ltb file.size (u32 end) then publish_size (u32 end) at else pure tt)

  -- `truncate` to a length that is not more than the file's
  unfoldable pub shrink : ℕ → DateTime → File → FileOp d (Unit {0})
  shrink size at file = on_volume (gets bytes_per_cluster) >>= λ bytes.
      let keep = div_ceil size bytes in
      let first = if keep == 0 then 0 else file.first_cluster in
      on_volume (record_extent first size at file)
      >> on_volume (
          if file.first_cluster == 0
          then pure tt
          else on_table (truncate_chain file.first_cluster keep) >> flush_fat)
      >> change_file (λ f. record f { size = size; first_cluster = first })

  unfoldable pub lengthen : ℕ → DateTime → FileOp d (Unit {0})
  lengthen size at = reserve_clusters size >> fill_gap size >> publish_size size at

  module _ (host : Host) where
    unfoldable pub write_at : ℕ → List ℕ → FileOp d (Unit {0})
    write_at offset from =
        let end = u64 (offset + length from) in
        on_volume now >>= λ at.
        if length from == 0
        then pure tt
        else with_file (check_live host)
          >> (if ltb (2 ^ 32 - 1) end
              then on_volume (
                  gets (λ v. v.fat.free_count) >>= λ free.
                  fail (fat_error (disk_full (2 ^ 32 - 1) free)))
              else write_up_to offset from end at)

    unfoldable pub truncate : ℕ → FileOp d (Unit {0})
    truncate size = on_volume now >>= λ at.
        with_file (check_live host)
        >> (the_file >>= λ file.
            if ltb file.size size
            then lengthen size at
            else if size == file.size
            then pure tt
            else shrink size at file)
