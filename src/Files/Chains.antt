-- ===== src/Files/Chains.antt =====
-- src/file.rs: the bytes of a chain of clusters, read and written from any byte on. The runs come
-- in the order of the file, so that no run that is reached starts after the byte that is wanted. A
-- read returns its bytes; where it fails, what the code had put in the caller's buffer by then, in
-- `read_chain_at` and `read_at`, is not modelled.
pub mod ChainRead
pub mod FileRead
use resident_fat.Prelude.{
  ℕ, ◌+◌, ◌-◌, ◌*◌, ◌/◌, ◌%◌, min, ◌||◌, List, [], ◌∷◌, ◌++◌, leb, ◌==◌, if◌then◌else◌, length,
  take, drop, replicate,
}
use resident_fat.Words.{u32}
use resident_fat.Boot.{BootSector, block_size, cluster_bytes, cluster_sector}
use resident_fat.Fat.Table.{Run, bad_cluster, chain_shorter_than_file}
use resident_fat.Errors.{Error, fat_error, pure, fail, ◌>>=◌, ◌>>◌, gets}
use resident_fat.Volume.{BlockDevice, Host, Op, batch_sizes}
use resident_fat.Volume.Reading.{run_bytes, runs_on, take_runs, keep_runs, reserve_room}
use resident_fat.Files.{File, check_live}
use resident_fat.Files.Spans.{read_span, write_span}

-- the byte of the file at which a run starts, and the one at which it ends
abbrev pub run_start : ℕ → Run → ℕ
run_start bytes run = run.file_cluster * bytes

abbrev pub run_end : ℕ → Run → ℕ
run_end bytes run = run_start bytes run + run_bytes run bytes

-- the block of a run in which a byte of the file lies
abbrev pub block_of : BootSector → Run → ℕ → ℕ
block_of boot run at =
    cluster_sector boot run.start_cluster + (at - run_start (cluster_bytes boot) run) / block_size

abbrev pub byte_in_block : ℕ → Run → ℕ → ℕ
byte_in_block bytes run at = (at - run_start bytes run) % block_size

-- `ZERO_CHUNK`
abbrev pub zero_chunk : ℕ
zero_chunk = 64 * 1024

abbrev pub shorter_chain : ℕ → ℕ → Error
shorter_chain start size = fat_error (chain_shorter_than_file start size)

module _ {d : BlockDevice} where
  -- The loop of `read_at` over the runs, from a byte of the file on: what was read, and how many
  -- bytes are still wanted.
  unfoldable pub read_from_runs : BootSector → List Run → ℕ → ℕ → Op d (List ℕ × ℕ)
  read_from_runs boot [] at left = pure ([], left)
  read_from_runs boot (run ∷ rest) at left =
      let bytes = cluster_bytes boot in
      let part = min (run_end bytes run - at) left in
      let past = read_from_runs boot rest at left in
      let later = read_from_runs boot rest (at + part) (left - part) in
      if leb (run_end bytes run) at
      then past
      else read_span d (block_of boot run at) (byte_in_block bytes run at) part >>= λ first.
          if part == left then pure (first, 0) else later >>= λ more. pure (first ++ more.0, more.1)

  -- The loop of `write_chain` over the runs: how many bytes are left.
  unfoldable pub write_to_runs : BootSector → List Run → ℕ → List ℕ → Op d ℕ
  write_to_runs boot [] at from = pure (length from)
  write_to_runs boot (run ∷ rest) at from =
      let bytes = cluster_bytes boot in
      let part = min (run_end bytes run - at) (length from) in
      let past = write_to_runs boot rest at from in
      let later = write_to_runs boot rest (at + part) (drop part from) in
      if leb (run_end bytes run) at
      then past
      else write_span d (block_of boot run at) (byte_in_block bytes run at) (take part from)
        >> (if part == length from then pure 0 else later)

  unfoldable pub write_chain : File → ℕ → List ℕ → Op d (Unit {0})
  unfolding write_to_runs
  write_chain file offset from = runs_on file.first_cluster >>= λ rs. gets (λ v. v.boot) >>= λ boot.
      write_to_runs boot rs offset from >>= λ left.
      if left == 0
      then pure tt
      else fail (shorter_chain file.first_cluster (u32 (offset + length from)))

  -- the loop of `zero_range` over its chunks
  unfoldable pub write_zeros : File → ℕ → List ℕ → Op d (Unit {0})
  write_zeros file at [] = pure tt
  write_zeros file at (size ∷ sizes) =
      write_chain file at (replicate size 0) >> write_zeros file (at + size) sizes

  unfoldable pub zero_range : File → ℕ → ℕ → Op d (Unit {0})
  zero_range file from to =
      if leb to from
      then pure tt
      else write_zeros file from (batch_sizes (to - from) (min zero_chunk (to - from)) (to - from))

  -- the chain read, and kept
  unfoldable pub read_chain_at : File → ℕ → ℕ → Op d (List ℕ)
  unfolding read_from_runs
  read_chain_at file offset wanted = gets (λ v. v.boot) >>= λ boot.
      take_runs file.first_cluster >>= λ rs. read_from_runs boot rs offset wanted >>= λ got.
      keep_runs file.first_cluster rs
      >> (if got.1 == 0 then pure got.0 else fail (shorter_chain file.first_cluster file.size))

  module _ (host : Host) where
    unfoldable pub read_at : File → ℕ → ℕ → Op d (List ℕ)
    read_at file offset n =
        if leb file.size offset || n == 0
        then pure []
        else check_live host file
          >> (if file.first_cluster == 0
              then fail (fat_error (bad_cluster 0))
              else read_chain_at file offset (min n (file.size - offset)))

    unfoldable pub read_all : File → Op d (List ℕ)
    read_all file = reserve_room host file.size >> read_at file 0 file.size
