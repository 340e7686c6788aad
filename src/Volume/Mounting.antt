-- ===== src/Volume/Mounting.antt =====
-- src/fs.rs: a volume mounted, at a block or in a partition. What loads the table reads from the
-- device in the state that it is in.
pub mod Bounded
use resident_fat.Prelude.{
  ℕ, ◌+◌, ◌*◌, ◌/◌, min, Bool, false, ◌||◌, Option, none, some, List, [], ◌∷◌, ltb, if◌then◌else◌,
}
use resident_fat.Words.{u64}
use resident_fat.Codepage.{Codepage, ascii}
use resident_fat.Time.{epoch}
use resident_fat.Boot.{
  BootSector, Parsed, accepted, refused, FsInfo, no_hints, bad_geometry, volume_too_large, parse,
  parse_hints, block_size,
}
use resident_fat.Mbr.{Partition, PartitionTable, used, first_fat, is_protective_gpt}
use resident_fat.Mbr
use resident_fat.Fat.Table.{Fat}
use resident_fat.Fat.Load.{Loading, loaded, LoadError, device_failed, load}
use resident_fat.Errors.{
  Result, Act, done, failed, panicked, stuck, device_error, boot_error, out_of_memory,
  no_partition_table, no_such_partition, no_fat_partition, pure, fail, ◌>>=◌, ◌>>◌, or_fail,
  result_of,
}
use resident_fat.Volume.{BlockDevice, Host, FileSystem}

abbrev pub from_parse : Option Parsed → Result BootSector
from_parse none = panicked
from_parse (some (accepted boot)) = done boot
from_parse (some (refused e)) = failed (boot_error e)

abbrev pub from_hints : Option FsInfo → Result FsInfo
from_hints none = panicked
from_hints (some info) = done info

abbrev pub from_load : Loading Fat → Result Fat
from_load (loaded f) = done f
from_load (Loading.failed device_failed) = failed device_error
from_load (Loading.failed (LoadError.out_of_memory bytes)) = failed (out_of_memory bytes)
from_load Loading.stuck = stuck

abbrev pub from_table : Option (Option PartitionTable) → Result (Option PartitionTable)
from_table none = panicked
from_table (some table) = done table

-- the lower of two bounds, of which either may be unknown
abbrev pub lower_bound : Option ℕ → Option ℕ → Option ℕ
lower_bound (some device_end) (some partition_end) = some (min device_end partition_end)
lower_bound (some device_end) none = some device_end
lower_bound none partition_end = partition_end

-- the blocks up to the end of a volume
abbrev pub volume_end : ℕ → BootSector → ℕ
volume_end first_block boot =
    u64 (first_block + boot.total_sectors * boot.bytes_per_sector / block_size)

abbrev pub check_end : ℕ → ℕ → Option ℕ → Result (Unit {0})
check_end first_block end none = done tt
check_end first_block end (some bound) =
    if ltb bound end
    then failed (boot_error (bad_geometry (volume_too_large first_block end bound)))
    else done tt

abbrev pub partition_end : ℕ → Option ℕ → Option ℕ
partition_end first_block none = none
partition_end first_block (some blocks) = some (u64 (first_block + blocks))

abbrev pub any_protective : List Partition → Bool
any_protective [] = false
any_protective (p ∷ ps) = is_protective_gpt p || any_protective ps

module _ (d : BlockDevice) (host : Host) where
  abbrev pub answered : {A : Type 0} → Option A × d.State → Result A × d.State
  answered (none, s) = (failed device_error, s)
  answered (some a, s) = (done a, s)

  -- one block of a device
  abbrev pub read_block : ℕ → Act d.State (List ℕ)
  read_block block s = answered (d.read block 1 s)

  abbrev pub count_blocks : Act d.State (Option ℕ)
  count_blocks s = answered (d.block_count s)

  abbrev pub read_hints : ℕ → BootSector → Option ℕ → Act d.State FsInfo
  read_hints first_block boot none = pure no_hints
  read_hints first_block boot (some sector) = read_block (u64 (first_block + sector)) >>= λ block.
      result_of (from_hints (parse_hints block boot))

  -- `Fat::load` of a `RelativeDevice`
  unfoldable pub load_table : ℕ → BootSector → Act d.State Fat
  load_table first_block boot s = (
    from_load (
        load (λ block blocks. (d.read (u64 (first_block + block)) blocks s).0)
          (d.max_transfer_blocks s) host.has_room boot),
    s,
  )

  -- the device goes into the volume that is mounted
  abbrev pub assembled : ℕ → Codepage → BootSector → FsInfo → Fat → Act d.State (FileSystem d)
  assembled first_block codepage boot info f s = (
    done (record {
      device = s;
      boot = boot;
      fs_info = info;
      fat = f;
      first_block = first_block;
      directories = [];
      generations = [];
      codepage = codepage;
      clock = λ n. epoch;
      clock_reads = 0;
      marked_dirty = false;
      run_cache = record { changes = 0; chains = [] };
    }),
    s,
  )

  abbrev pub loaded_volume : ℕ → Codepage → BootSector → FsInfo → Act d.State (FileSystem d)
  loaded_volume first_block codepage boot info =
      load_table first_block boot >>= assembled first_block codepage boot info

  abbrev pub hinted_volume : ℕ → Codepage → BootSector → Act d.State (FileSystem d)
  hinted_volume first_block codepage boot =
      read_hints first_block boot boot.fs_info_sector >>= loaded_volume first_block codepage boot

  -- what is left to do once the boot sector is accepted, and the size of the device is known
  abbrev pub checked_volume :
      ℕ → Codepage → Option ℕ → BootSector → Option ℕ → Act d.State (FileSystem d)
  checked_volume first_block codepage limit boot device_end =
      result_of (
        check_end first_block (volume_end first_block boot)
          (lower_bound device_end (partition_end first_block limit)))
      >> hinted_volume first_block codepage boot

  abbrev pub accepted_volume : ℕ → Codepage → Option ℕ → BootSector → Act d.State (FileSystem d)
  accepted_volume first_block codepage limit boot =
      count_blocks >>= checked_volume first_block codepage limit boot

  abbrev pub parsed_volume : ℕ → Codepage → Option ℕ → List ℕ → Act d.State (FileSystem d)
  parsed_volume first_block codepage limit block =
      result_of (from_parse (parse block)) >>= accepted_volume first_block codepage limit

  unfoldable pub mount_within : ℕ → Codepage → Option ℕ → Act d.State (FileSystem d)
  mount_within first_block codepage limit =
      read_block first_block >>= parsed_volume first_block codepage limit

  unfoldable pub mount_with : ℕ → Codepage → Act d.State (FileSystem d)
  mount_with first_block codepage = mount_within first_block codepage none

  unfoldable pub mount_at : ℕ → Act d.State (FileSystem d)
  mount_at first_block = mount_with first_block ascii

  unfoldable pub mount : Act d.State (FileSystem d)
  mount = mount_at 0

  -- `PartitionTable::read`
  unfoldable pub read_table : Act d.State (Option PartitionTable)
  read_table = read_block 0 >>= λ block. result_of (from_table (Mbr.parse block))

  abbrev pub mount_in : Partition → Act d.State (FileSystem d)
  mount_in p = mount_within p.first_block ascii (some p.blocks)

  unfoldable pub mount_partition : ℕ → Act d.State (FileSystem d)
  mount_partition index = read_table >>= λ found. or_fail no_partition_table found >>= λ table.
      or_fail (no_such_partition index) (Mbr.get table index) >>= λ p.
      if is_protective_gpt p then fail no_partition_table else mount_in p

  abbrev pub mount_in_table : Option PartitionTable → Act d.State (FileSystem d)
  mount_in_table none = mount
  mount_in_table (some table) =
      if any_protective (used table.entries)
      then fail no_partition_table
      else or_fail no_fat_partition (first_fat table) >>= λ p. mount_in p

  unfoldable pub mount_first_fat : Act d.State (FileSystem d)
  mount_first_fat = read_table >>= λ found. mount_in_table found
