-- ===== src/Tests/BootSectors.antt =====
-- Boot sectors and hints.
use resident_fat.Prelude.{
  ℕ, ◌+◌, ◌-◌, ◌*◌, ◌^◌, ◌≤◌, ◌<◌, ◌≡◌, ◌⊎◌, refl, true, false, List, none, some, set, replicate,
  arith,
}
use resident_fat.Bytes.{AreBytes, read_u16, read_u32}
use resident_fat.Boot.{
  BootSector, accepted, parse, check_sector_size, check_cluster_size, check_reserved, check_fats,
  check_total, read_total, check_format, check_table, check_clusters, describe, cluster_sector,
  is_addressable, parse_hints, free_hint, next_hint,
}
use resident_fat.Boot.Geometry.{Guaranteed, parse-Guaranteed}
use resident_fat.Boot.Bounds.{cluster_sector_bounds, tables_end, parse_hints_bounds}

-- A volume of 1000 sectors, 2 sectors to a cluster, with 32 reserved ones and two tables of 4.
abbrev pub small_block : List ℕ
small_block =
    set
      (set
        (set
          (set
            (set
              (set (set (set (set (set (replicate 512 0) 0x0C 2) 0x0D 2) 0x0E 32) 0x10 2) 0x13 0xE8)
              0x14 3)
            0x24 4)
          0x2C 2)
        0x1FE 0x55)
      0x1FF 0xAA

abbrev pub small_sector : BootSector
small_sector = record {
  bytes_per_sector = 512;
  sectors_per_cluster = 2;
  reserved_sectors = 32;
  fat_count = 2;
  sectors_per_fat = 4;
  root_cluster = 2;
  total_sectors = 1000;
  fs_info_sector = none;
  volume_id = 0;
  dirty = false;
  fat_start = 32;
  data_start = 40;
  cluster_count = 480;
}

pub small_parsed : parse small_block ≡ some (accepted small_sector)
unfolding parse check_sector_size check_cluster_size check_reserved check_fats check_total
    read_total check_format check_table check_clusters describe read_u16 read_u32
small_parsed = refl

parse-Guaranteed_example : Guaranteed small_block small_sector
parse-Guaranteed_example = parse-Guaranteed small_block small_sector small_parsed

pub small_block-AreBytes : AreBytes small_block
small_block-AreBytes = omega arith

last_valid : is_addressable small_sector 481 ≡ true
unfolding is_addressable
last_valid = refl

cluster_sector_bounds_example :
    (cluster_sector small_sector 481 ≡ 40 + (481 - 2) * 2)
    × (cluster_sector small_sector 481 + 2 ≤ 1000)
cluster_sector_bounds_example =
    cluster_sector_bounds small_block small_sector 481 small_block-AreBytes small_parsed last_valid

-- The same with tables of 2 ^ 31 sectors: the product with the count of tables wraps to 0.
abbrev wrapped_block : List ℕ
wrapped_block = set (set small_block 0x24 0) 0x27 0x80

abbrev wrapped_sector : BootSector
wrapped_sector = record small_sector {
  sectors_per_fat = 2 ^ 31;
  data_start = 32;
  cluster_count = 484;
}

wrapped_parsed : parse wrapped_block ≡ some (accepted wrapped_sector)
unfolding parse check_sector_size check_cluster_size check_reserved check_fats check_total
    read_total check_format check_table check_clusters describe read_u16 read_u32
wrapped_parsed = refl

tables_end_example :
    (wrapped_sector.data_start
      ≡ wrapped_sector.fat_start + wrapped_sector.fat_count * wrapped_sector.sectors_per_fat)
    ⊎ ((2 ^ 32
          ≤ wrapped_sector.fat_start + wrapped_sector.fat_count * wrapped_sector.sectors_per_fat)
        × (wrapped_sector.data_start
            < wrapped_sector.fat_start + wrapped_sector.fat_count * wrapped_sector.sectors_per_fat))
tables_end_example = tables_end wrapped_block wrapped_sector wrapped_parsed

-- Hints of 400 free clusters, and of a next free cluster outside of the volume.
abbrev info_block : List ℕ
info_block =
    set
      (set
        (set
          (set
            (set
              (set
                (set
                  (set (set (set (set (set (replicate 512 0) 0 0x52) 1 0x52) 2 0x61) 3 0x41) 0x1E4
                    0x72)
                  0x1E5 0x72)
                0x1E6 0x41)
              0x1E7 0x61)
            0x1E8 0x90)
          0x1E9 1)
        0x1EC 0xE2)
      0x1ED 1

info_parsed :
    parse_hints info_block small_sector
    ≡ some (record { free_clusters = some 400; next_free = none })
unfolding parse_hints read_u32 free_hint next_hint is_addressable
info_parsed = refl

parse_hints_bounds_example : (400 ≤ 480) × Unit {0}
parse_hints_bounds_example =
    parse_hints_bounds small_block info_block small_sector
      (record { free_clusters = some 400; next_free = none }) small_parsed info_parsed
