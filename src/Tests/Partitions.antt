-- ===== src/Tests/Partitions.antt =====
-- A partition table of two partitions, the second of them FAT.
use resident_fat.Prelude.{
  ℕ, Option, zero, suc, get_or, get_or-set_ne, ◌∙◌, ◌≤◌, ◌<◌, ◌≡◌, refl, true, false, List, [], ◌∷◌,
  none, some, set, replicate, arith,
}
use resident_fat.Bytes.{read_u32, byte}
use resident_fat.Mbr.{Partition, PartitionTable, parse, is_fat, used, first_fat, find_fat}
use resident_fat.Mbr.Reads.{IsRead, parse-IsRead}

abbrev table_block : List ℕ
table_block =
    set
      (set
        (set
          (set
            (set (set (set (set (set (replicate 512 0) 0x1C2 0x83) 0x1C7 8) 0x1CA 4) 0x1CE 0x80)
              0x1D2 0x0C)
            0x1D7 16)
          0x1DA 4)
        0x1FE 0x55)
      0x1FF 0xAA

abbrev linux_partition : Partition
linux_partition = record {
  index = 0;
  bootable = false;
  kind = 0x83;
  first_block = 2048;
  blocks = 4;
}

abbrev fat_partition : Partition
fat_partition = record { index = 1; bootable = true; kind = 0x0C; first_block = 4096; blocks = 4 }

abbrev sample_table : PartitionTable
sample_table = record { entries = some linux_partition ∷ some fat_partition ∷ none ∷ none ∷ [] }

table_parsed : parse table_block ≡ some (some sample_table)
unfolding parse read_u32
table_parsed = refl

fat_found : first_fat sample_table ≡ some fat_partition
unfolding first_fat used find_fat is_fat
fat_found = refl

parse-IsRead_example :
    (r : Option PartitionTable) × (parse table_block ≡ some r) × IsRead table_block r
parse-IsRead_example = parse-IsRead table_block

abbrev plain_sector : List ℕ
plain_sector = set (set (replicate 512 0) 0x1FE 0x55) 0x1FF 0xAA

get_or-replicate : (n i : ℕ) → get_or {A = ℕ} (replicate n 0) i 0 ≡ 0
get_or-replicate zero i = refl
get_or-replicate (suc n) zero = refl
get_or-replicate (suc n) (suc i) = get_or-replicate n i

plain_sector_zeros : (i : ℕ) → 0x1BE ≤ i → i < 0x1FE → byte plain_sector i ≡ 0
plain_sector_zeros i from upto =
    get_or-set_ne (set (replicate 512 0) 0x1FE 0x55) 0x1FF i 0xAA 0 (λ e. omega arith)
    ∙ get_or-set_ne (replicate 512 0) 0x1FE i 0x55 0 (λ e. omega arith)
    ∙ get_or-replicate 512 i
