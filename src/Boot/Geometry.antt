-- ===== src/Boot/Geometry.antt =====
-- The fields of an accepted boot sector, stage by stage of `BootSector::parse` (src/boot.rs).
use resident_fat.Prelude.{
  ℕ, min, ◌-◌, ◌/◌, ◌^◌, ap, refl, subst, ◌+◌, ◌*◌, ◌≤◌, ◌<◌, ◌≡◌, ◌≢◌, ◌%◌, ◌⊎◌, not, true, Option,
  none, some, List, length, ltb, ◌==◌, if◌then◌else◌, arith, Bool-cases, Option-cases, inl, inr,
}
use resident_fat.Words.{u32}
use resident_fat.Bytes.{byte, word, long, read_u8-some, read_u16-some, read_u32-some}
use resident_fat.Fat.Invariant.{max_fat32_clusters}
use resident_fat.Boot.{
  BootSector, Parsed, accepted, refused, is_power_of_two, named_sector, count_clusters, describe,
  check_clusters, check_table, check_format, classify_small, read_total, check_total, check_fats,
  check_reserved, check_cluster_size, check_sector_size, parse,
}

-- the count of 16 bits, or the one of 32 where that is zero
abbrev pub total_of : List ℕ → ℕ
total_of block = if word block 0x13 == 0 then long block 0x20 else word block 0x13

-- A sector number that is zero or all ones names no sector.
unfoldable pub Names : ℕ → Option ℕ → Type 0
Names n none = (n ≡ 0) ⊎ (n ≡ 0xFFFF)
Names n (some sector) = (sector ≡ n) × (n ≢ 0) × (n ≢ 0xFFFF)

-- a power of two that fits in a byte
abbrev pub IsPowerOfTwo : ℕ → Type 0
IsPowerOfTwo n =
    (n ≡ 1) ⊎ ((n ≡ 2) ⊎ ((n ≡ 4) ⊎ ((n ≡ 8) ⊎ ((n ≡ 16) ⊎ ((n ≡ 32) ⊎ ((n ≡ 64) ⊎ (n ≡ 128)))))))

is_power_of_two-IsPowerOfTwo : (n : ℕ) → is_power_of_two n ≡ true → IsPowerOfTwo n
is_power_of_two-IsPowerOfTwo n h = ground arith

-- What the fields of an accepted boot sector come from and how they lie.
pub record Guaranteed (block : List ℕ) (b : BootSector) : Type 0 where
  pub sector : b.bytes_per_sector ≡ 512
  pub cluster : IsPowerOfTwo b.sectors_per_cluster
  pub reserved : (b.reserved_sectors ≡ word block 0x0E) × (b.reserved_sectors ≢ 0)
  pub fats : (b.fat_count ≡ byte block 0x10) × (b.fat_count ≢ 0)
  pub classified : word block 0x16 ≡ 0
  pub table : (b.sectors_per_fat ≡ long block 0x24) × (b.sectors_per_fat ≢ 0)
  pub fat_start : b.fat_start ≡ b.reserved_sectors
  pub data_start : b.data_start ≡ u32 (b.reserved_sectors + u32 (b.fat_count * b.sectors_per_fat))
  pub within : b.data_start < b.total_sectors
  pub counted :
      b.cluster_count
      ≡ min
          ((b.total_sectors - b.data_start) / b.sectors_per_cluster)
          (min (b.sectors_per_fat * 128) (2 ^ 32 - 1) - 2)
  pub bounded : b.cluster_count ≤ max_fat32_clusters
  pub total : b.total_sectors ≡ total_of block
  pub size : b.sectors_per_cluster ≡ byte block 0x0D
  pub root : b.root_cluster ≡ long block 0x2C
  pub volume : b.volume_id ≡ long block 0x43
  pub state : b.dirty ≡ (byte block 0x41 % 2 == 1)
  pub hints : Names (word block 0x30) b.fs_info_sector

-- the fields that no test looks at
Unchecked : List ℕ → BootSector → Type 0
Unchecked block b =
    (b.root_cluster ≡ long block 0x2C)
    × (b.volume_id ≡ long block 0x43)
    × (b.dirty ≡ (byte block 0x41 % 2 == 1))
    × Names (word block 0x30) b.fs_info_sector

accepted_sector : BootSector → Option Parsed → BootSector
accepted_sector other none = other
accepted_sector other (some (accepted b)) = b
accepted_sector other (some (refused e)) = other

accepted-injective :
    (a b : BootSector) → ◌≡◌ {A = Option Parsed} (some (accepted a)) (some (accepted b)) → a ≡ b
unfolding accepted_sector
accepted-injective a b h = ap (accepted_sector a) h

odd : (n : ℕ) → not (n % 2 == 0) ≡ (n % 2 == 1)
odd n = ground arith

named_sector-Names : (sector : ℕ) → Names sector (named_sector sector)
unfolding Names
named_sector-Names sector = ground arith

module _ (block : List ℕ) (full : 512 ≤ length block) where
  described :
      (b : BootSector) (bps spc reserved fats spf total start clusters : ℕ)
      → describe block bps spc reserved fats spf total start clusters ≡ some (accepted b)
      → (b.bytes_per_sector ≡ bps)
        × (b.sectors_per_cluster ≡ spc)
        × (b.reserved_sectors ≡ reserved)
        × (b.fat_count ≡ fats)
        × (b.sectors_per_fat ≡ spf)
        × (b.total_sectors ≡ total)
        × (b.fat_start ≡ reserved)
        × (b.data_start ≡ start)
        × (b.cluster_count ≡ clusters)
  unfolding describe
  described b bps spc reserved fats spf total start clusters h = ground (
    arith,
    read_u16-some block 0x30,
    read_u32-some block 0x2C,
    read_u32-some block 0x43,
    read_u8-some block 0x41,
  )

  describe-Unchecked :
      (b : BootSector) (bps spc reserved fats spf total start clusters : ℕ)
      → describe block bps spc reserved fats spf total start clusters ≡ some (accepted b)
      → Unchecked block b
  unfolding describe Unchecked
  describe-Unchecked b bps spc reserved fats spf total start clusters h =
      let info = read_u16-some block 0x30 (omega arith) in
      let root = read_u32-some block 0x2C (omega arith) in
      let volume = read_u32-some block 0x43 (omega arith) in
      let state = read_u8-some block 0x41 (omega arith) in
      subst (Unchecked block) (accepted-injective _ b (rw (info, root, volume, state) at h))
        (refl, refl, odd (byte block 0x41), named_sector-Names (word block 0x30))

  table-Unchecked :
      (b : BootSector) (bps spc reserved fats total : ℕ)
      → check_table block bps spc reserved fats total ≡ some (accepted b)
      → Unchecked block b
  unfolding check_table check_clusters
  table-Unchecked b bps spc reserved fats total h =
      let start = u32 (reserved + u32 (fats * long block 0x24)) in
      ground (
        arith,
        read_u32-some block 0x24,
        describe-Unchecked b bps spc reserved fats (long block 0x24) total start
            (count_clusters bps spc (long block 0x24) total start),
      )

  table-accepted :
      (b : BootSector) (bps spc reserved fats total : ℕ)
      → check_table block bps spc reserved fats total ≡ some (accepted b)
      → (long block 0x24 ≢ 0)
        × (b.bytes_per_sector ≡ bps)
        × (b.sectors_per_cluster ≡ spc)
        × (b.reserved_sectors ≡ reserved)
        × (b.fat_count ≡ fats)
        × (b.sectors_per_fat ≡ long block 0x24)
        × (b.total_sectors ≡ total)
        × (b.fat_start ≡ reserved)
        × (b.data_start ≡ u32 (reserved + u32 (fats * long block 0x24)))
        × (b.cluster_count ≡ count_clusters bps spc (long block 0x24) total b.data_start)
        × (b.data_start < total)
        × (b.cluster_count ≤ max_fat32_clusters)
  unfolding check_table check_clusters
  table-accepted b bps spc reserved fats total h =
      let start = u32 (reserved + u32 (fats * long block 0x24)) in
      ground (
        arith,
        read_u32-some block 0x24,
        described b bps spc reserved fats (long block 0x24) total start
            (count_clusters bps spc (long block 0x24) total start),
      )

  read_total-some : read_total block ≡ some (total_of block)
  unfolding read_total
  read_total-some = ground (arith, read_u16-some block 0x13, read_u32-some block 0x20)

  format-accepted :
      (b : BootSector) (bps spc reserved fats total : ℕ)
      → check_format block bps spc reserved fats total ≡ some (accepted b)
      → (word block 0x16 ≡ 0) × (check_table block bps spc reserved fats total ≡ some (accepted b))
  unfolding check_format
  format-accepted b bps spc reserved fats total h =
      elim (Option-cases (classify_small block bps spc reserved fats (word block 0x16) total)) [
        | inl e ↦ ground (arith, read_u16-some block 0x16)
        | inr (x, e) ↦ ground (arith, read_u16-some block 0x16)
      ]

  total-accepted :
      (b : BootSector) (bps spc reserved fats : ℕ)
      → check_total block bps spc reserved fats ≡ some (accepted b)
      → check_format block bps spc reserved fats (total_of block) ≡ some (accepted b)
  unfolding check_total
  total-accepted b bps spc reserved fats h = ground (arith, read_total-some)

  fats-accepted :
      (b : BootSector) (bps spc reserved : ℕ)
      → check_fats block bps spc reserved ≡ some (accepted b)
      → (byte block 0x10 ≢ 0)
        × (check_total block bps spc reserved (byte block 0x10) ≡ some (accepted b))
  unfolding check_fats
  fats-accepted b bps spc reserved h = ground (arith, read_u8-some block 0x10)

  reserved-accepted :
      (b : BootSector) (bps spc : ℕ)
      → check_reserved block bps spc ≡ some (accepted b)
      → (word block 0x0E ≢ 0) × (check_fats block bps spc (word block 0x0E) ≡ some (accepted b))
  unfolding check_reserved
  reserved-accepted b bps spc h = ground (arith, read_u16-some block 0x0E)

  cluster_size-accepted :
      (b : BootSector) (bps : ℕ)
      → check_cluster_size block bps ≡ some (accepted b)
      → IsPowerOfTwo (byte block 0x0D)
        × (check_reserved block bps (byte block 0x0D) ≡ some (accepted b))
  unfolding check_cluster_size
  cluster_size-accepted b bps h = elim (Bool-cases (is_power_of_two (byte block 0x0D))) [
    | inl e ↦
        let power = is_power_of_two-IsPowerOfTwo (byte block 0x0D) e in
        (power, ground (arith, read_u8-some block 0x0D))
    | inr e ↦ ground (arith, read_u8-some block 0x0D)
  ]

  sector_size-accepted :
      (b : BootSector)
      → check_sector_size block ≡ some (accepted b)
      → (word block 0x0B ≡ 512) × (check_cluster_size block 512 ≡ some (accepted b))
  unfolding check_sector_size
  sector_size-accepted b h = ground (arith, read_u16-some block 0x0B)

signed-accepted :
    (block : List ℕ) (b : BootSector)
    → parse block ≡ some (accepted b)
    → (512 ≤ length block) × (check_sector_size block ≡ some (accepted b))
unfolding parse
signed-accepted block b h = elim (Bool-cases (ltb (length block) 512)) [
  | inl e ↦ ground arith
  | inr e ↦ ground (arith, read_u16-some block 0x1FE)
]

-- When `parse` accepts a boot sector, the counts of sectors, reserved sectors and tables, the
-- sectors of a table and of a cluster, the root cluster, the volume id, the dirty flag and the
-- sector of the hints are what the bytes of the block say at their places; sectors have 512 bytes,
-- a cluster has a power of two of them, no field that may not be zero is, the data area starts
-- after the tables, as 32-bit numbers add up, and within the volume, and the cluster count is what
-- volume and table have room for and within FAT32's limit.
pub parse-Guaranteed :
    (block : List ℕ) (b : BootSector) → parse block ≡ some (accepted b) → Guaranteed block b
unfolding Unchecked
parse-Guaranteed block b h =
    let (full, s) = signed-accepted block b h in
    let (sector, c) = sector_size-accepted block full b s in
    let (power, r) = cluster_size-accepted block full b 512 c in
    let (reserved, f) = reserved-accepted block full b 512 (byte block 0x0D) r in
    let (fats, t) = fats-accepted block full b 512 (byte block 0x0D) (word block 0x0E) f in
    let (small, u) =
      format-accepted block full b 512 (byte block 0x0D) (word block 0x0E) (byte block 0x10)
        (total_of block)
        (total-accepted block full b 512 (byte block 0x0D) (word block 0x0E) (byte block 0x10) t) in
    let rest =
      table-Unchecked block full b 512 (byte block 0x0D) (word block 0x0E) (byte block 0x10)
        (total_of block) u in
    let size : b.sectors_per_cluster ≡ byte block 0x0D = ground (
      arith,
      table-accepted block full b 512 (byte block 0x0D) (word block 0x0E) (byte block 0x10)
          (total_of block),
    ) in
    ground (
      arith,
      table-accepted block full b 512 (byte block 0x0D) (word block 0x0E) (byte block 0x10)
          (total_of block),
    )
