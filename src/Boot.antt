-- ===== src/Boot.antt =====
-- src/boot.rs: the boot sector and the free-space hints, and the errors of src/error.rs that
-- parsing one returns. A read outside of the block would be `none`; `u32` arithmetic wraps, as it
-- does in a release build.
pub mod Geometry
pub mod Total
pub mod Bounds
use resident_fat.Prelude.{
  ℕ, ◌+◌, ◌-◌, ◌*◌, ◌/◌, ◌^◌, min, Bool, true, false, not, ◌&&◌, ◌||◌, Option, none, some, List,
  length, ltb, leb, ◌==◌, if◌then◌else◌,
}
use resident_fat.Words.{u32, low_bits}
use resident_fat.Bytes.{◌>>=◌, read_u8, read_u16, read_u32}
use resident_fat.Fat.Table.{first_cluster}
use resident_fat.Fat.Invariant.{max_fat32_clusters}

pub data Format : Type 0 where
  fat12 fat16 : Format

pub data GeometryError : Type 0 where
  sector_size sectors_per_cluster reserved_sectors fat_count : ℕ → GeometryError
  fat_length total_sectors cluster_count : ℕ → GeometryError
  data_beyond_volume : ℕ → ℕ → GeometryError
  volume_too_large : ℕ → ℕ → ℕ → GeometryError

pub data BootError : Type 0 where
  not_fat : BootError
  unsupported_format : Format → BootError
  bad_geometry : GeometryError → BootError
  short_block : ℕ → BootError

pub record BootSector : Type 0 where
  pub bytes_per_sector : ℕ
  pub sectors_per_cluster : ℕ
  pub reserved_sectors : ℕ
  pub fat_count : ℕ
  pub sectors_per_fat : ℕ
  pub root_cluster : ℕ
  pub total_sectors : ℕ
  pub fs_info_sector : Option ℕ
  pub volume_id : ℕ
  pub dirty : Bool
  pub fat_start : ℕ
  pub data_start : ℕ
  pub cluster_count : ℕ

-- What `BootSector::parse` returns.
pub data Parsed : Type 0 where
  accepted : BootSector → Parsed
  refused : BootError → Parsed

abbrev pub block_size : ℕ
block_size = 512

abbrev pub max_fat12_clusters : ℕ
max_fat12_clusters = 4084

abbrev pub max_fat16_clusters : ℕ
max_fat16_clusters = 65524

-- `u8::is_power_of_two`
abbrev pub is_power_of_two : ℕ → Bool
is_power_of_two n =
    (n == 1)
    || (n == 2)
    || (n == 4)
    || (n == 8)
    || (n == 16)
    || (n == 32)
    || (n == 64)
    || (n == 128)

-- `checked_div(..).unwrap_or(0)`
abbrev pub div_or_zero : ℕ → ℕ → ℕ
div_or_zero n d = if d == 0 then 0 else n / d

-- why a volume whose sectors-per-table field has 16 bits is refused
unfoldable pub name_small : ℕ → BootError
name_small clusters =
    if leb clusters max_fat12_clusters
    then unsupported_format fat12
    else if leb clusters max_fat16_clusters
    then unsupported_format fat16
    else bad_geometry (GeometryError.cluster_count clusters)

unfoldable pub classify_small : List ℕ → ℕ → ℕ → ℕ → ℕ → ℕ → ℕ → Option BootError
unfolding name_small
classify_small block bytes_per_sector spc reserved fats spf total = do
  root_entries ← read_u16 block 0x11
  let per_sector = if bytes_per_sector == 0 then 1 else bytes_per_sector
  let root_sectors = (u32 (root_entries * 32) + per_sector - 1) / per_sector
  let data_start = u32 (u32 (reserved + u32 (fats * spf)) + root_sectors)
  some (name_small (div_or_zero (total - data_start) spc))

-- `saturating_mul` on 32 bits
abbrev pub saturating_mul : ℕ → ℕ → ℕ
saturating_mul a b = min (a * b) (2 ^ 32 - 1)

abbrev pub count_clusters : ℕ → ℕ → ℕ → ℕ → ℕ → ℕ
count_clusters bytes_per_sector spc spf total data_start =
    min ((total - data_start) / spc) (saturating_mul spf (bytes_per_sector / 4) - first_cluster)

abbrev pub named_sector : ℕ → Option ℕ
named_sector sector = if (sector == 0) || (sector == 0xFFFF) then none else some sector

-- the last reads of `parse`, once the geometry is settled
unfoldable pub describe : List ℕ → ℕ → ℕ → ℕ → ℕ → ℕ → ℕ → ℕ → ℕ → Option Parsed
describe block bps spc reserved fats spf total data_start clusters = do
  info ← read_u16 block 0x30
  root ← read_u32 block 0x2C
  volume_id ← read_u32 block 0x43
  state ← read_u8 block 0x41
  some (
      accepted (record {
        bytes_per_sector = bps;
        sectors_per_cluster = spc;
        reserved_sectors = reserved;
        fat_count = fats;
        sectors_per_fat = spf;
        root_cluster = root;
        total_sectors = total;
        fs_info_sector = named_sector info;
        volume_id = volume_id;
        dirty = not (low_bits state 1 == 0);
        fat_start = reserved;
        data_start = data_start;
        cluster_count = clusters;
      }))

unfoldable pub check_clusters : List ℕ → ℕ → ℕ → ℕ → ℕ → ℕ → ℕ → ℕ → Option Parsed
check_clusters block bps spc reserved fats spf total data_start =
    if leb total data_start
    then some (refused (bad_geometry (data_beyond_volume data_start total)))
    else (let clusters = count_clusters bps spc spf total data_start in
        if ltb max_fat32_clusters clusters
        then some (refused (bad_geometry (GeometryError.cluster_count clusters)))
        else describe block bps spc reserved fats spf total data_start clusters)

unfoldable pub check_table : List ℕ → ℕ → ℕ → ℕ → ℕ → ℕ → Option Parsed
check_table block bps spc reserved fats total = do
  spf ← read_u32 block 0x24
  if spf == 0
      then some (refused (bad_geometry (fat_length spf)))
      else check_clusters block bps spc reserved fats spf total (u32 (reserved + u32 (fats * spf)))

-- the classifier
unfoldable pub check_format : List ℕ → ℕ → ℕ → ℕ → ℕ → ℕ → Option Parsed
check_format block bps spc reserved fats total = do
  spf16 ← read_u16 block 0x16
  if not (spf16 == 0)
      then (do e ← classify_small block bps spc reserved fats spf16 total; some (refused e))
      else check_table block bps spc reserved fats total

-- a count of 16 bits, or of 32 where that is zero
unfoldable pub read_total : List ℕ → Option ℕ
read_total block = do
  small ← read_u16 block 0x13
  if small == 0 then read_u32 block 0x20 else some small

unfoldable pub check_total : List ℕ → ℕ → ℕ → ℕ → ℕ → Option Parsed
check_total block bps spc reserved fats = do
  total ← read_total block
  if total == 0
      then some (refused (bad_geometry (GeometryError.total_sectors total)))
      else check_format block bps spc reserved fats total

unfoldable pub check_fats : List ℕ → ℕ → ℕ → ℕ → Option Parsed
check_fats block bps spc reserved = do
  fats ← read_u8 block 0x10
  if fats == 0
      then some (refused (bad_geometry (GeometryError.fat_count fats)))
      else check_total block bps spc reserved fats

unfoldable pub check_reserved : List ℕ → ℕ → ℕ → Option Parsed
check_reserved block bps spc = do
  reserved ← read_u16 block 0x0E
  if reserved == 0
      then some (refused (bad_geometry (GeometryError.reserved_sectors reserved)))
      else check_fats block bps spc reserved

unfoldable pub check_cluster_size : List ℕ → ℕ → Option Parsed
check_cluster_size block bps = do
  spc ← read_u8 block 0x0D
  if not (is_power_of_two spc)
      then some (refused (bad_geometry (GeometryError.sectors_per_cluster spc)))
      else check_reserved block bps spc

unfoldable pub check_sector_size : List ℕ → Option Parsed
check_sector_size block = do
  bps ← read_u16 block 0x0B
  if not (bps == block_size)
      then some (refused (bad_geometry (sector_size bps)))
      else check_cluster_size block bps

-- `BootSector::parse`
unfoldable pub parse : List ℕ → Option Parsed
parse block =
    if ltb (length block) block_size then some (refused (short_block (length block))) else (do
      signature ← read_u16 block 0x1FE
      if not (signature == 0xAA55) then some (refused not_fat) else check_sector_size block)

-- `BootSector::cluster_bytes`, `BootSector::cluster_sector`, `BootSector::is_valid_cluster`
unfoldable pub cluster_bytes : BootSector → ℕ
cluster_bytes b = u32 (b.sectors_per_cluster * b.bytes_per_sector)

unfoldable pub cluster_sector : BootSector → ℕ → ℕ
cluster_sector b cluster =
    u32 (b.data_start + u32 (u32 (cluster + 2 ^ 32 - first_cluster) * b.sectors_per_cluster))

unfoldable pub is_addressable : BootSector → ℕ → Bool
is_addressable b cluster =
    leb first_cluster cluster && ltb cluster (u32 (first_cluster + b.cluster_count))

pub record FsInfo : Type 0 where
  pub free_clusters : Option ℕ
  pub next_free : Option ℕ

abbrev pub no_hints : FsInfo
no_hints = record { free_clusters = none; next_free = none }

unfoldable pub free_hint : BootSector → ℕ → Option ℕ
free_hint b count =
    if count == 0xFFFF_FFFF then none else if ltb b.cluster_count count then none else some count

unfoldable pub next_hint : BootSector → ℕ → Option ℕ
next_hint b cluster =
    if cluster == 0xFFFF_FFFF
    then none
    else if not (is_addressable b cluster)
    then none
    else some cluster

-- `FsInfo::parse`
unfoldable pub parse_hints : List ℕ → BootSector → Option FsInfo
parse_hints block b = if ltb (length block) block_size then some no_hints else (do
  lead ← read_u32 block 0x000
  struct_signature ← read_u32 block 0x1E4
  if not (lead == 0x4161_5252) || not (struct_signature == 0x6141_7272) then some no_hints else (do
    count ← read_u32 block 0x1E8
    cluster ← read_u32 block 0x1EC
    some (record { free_clusters = free_hint b count; next_free = next_hint b cluster })))
