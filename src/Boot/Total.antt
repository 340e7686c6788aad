-- ===== src/Boot/Total.antt =====
-- Parsing a boot sector and the hints (src/boot.rs): the reads, and the length of the block.
use resident_fat.Prelude.{
  ℕ, ◌≤◌, ◌≡◌, ◌≢◌, none, some, List, length, arith, refl, Option-cases, inl, inr, Option,
}
use resident_fat.Bytes.{byte, word, read_u8-some, read_u16-some, read_u32-some}
use resident_fat.Boot.{
  BootSector, Parsed, classify_small, describe, check_clusters, check_table, check_format,
  read_total, check_total, check_fats, check_reserved, check_cluster_size, check_sector_size, parse,
  FsInfo, parse_hints,
}

module _ (block : List ℕ) (full : 512 ≤ length block) where
  describe-ne-none :
      (bps spc reserved fats spf total start clusters : ℕ)
      → describe block bps spc reserved fats spf total start clusters ≢ none
  unfolding describe
  describe-ne-none bps spc reserved fats spf total start clusters = ground (
    arith,
    read_u16-some block 0x30,
    read_u32-some block 0x2C,
    read_u32-some block 0x43,
    read_u8-some block 0x41,
  )

  clusters-ne-none :
      (bps spc reserved fats spf total start : ℕ)
      → check_clusters block bps spc reserved fats spf total start ≢ none
  unfolding check_clusters
  clusters-ne-none bps spc reserved fats spf total start = grind (arith, describe-ne-none)

  table-ne-none :
      (bps spc reserved fats total : ℕ) → check_table block bps spc reserved fats total ≢ none
  unfolding check_table
  table-ne-none bps spc reserved fats total =
      grind (arith, read_u32-some block 0x24, clusters-ne-none)

  classify-ne-none :
      (bps spc reserved fats spf total : ℕ)
      → classify_small block bps spc reserved fats spf total ≢ none
  unfolding classify_small
  classify-ne-none bps spc reserved fats spf total = ground (arith, read_u16-some block 0x11)

  format-ne-none :
      (bps spc reserved fats total : ℕ) → check_format block bps spc reserved fats total ≢ none
  unfolding check_format
  format-ne-none bps spc reserved fats total =
      elim (Option-cases (classify_small block bps spc reserved fats (word block 0x16) total)) [
        | inl e ↦ absurd (classify-ne-none _ _ _ _ _ _ e)
        | inr (x, e) ↦
            ground (arith, read_u16-some block 0x16, table-ne-none bps spc reserved fats total)
      ]

  total-ne-none : read_total block ≢ none
  unfolding read_total
  total-ne-none = ground (arith, read_u16-some block 0x13, read_u32-some block 0x20)

  counted-ne-none : (bps spc reserved fats : ℕ) → check_total block bps spc reserved fats ≢ none
  unfolding check_total
  counted-ne-none bps spc reserved fats = elim (Option-cases (read_total block)) [
    | inl e ↦ absurd (total-ne-none e)
    | inr (total, e) ↦ ground (arith, format-ne-none bps spc reserved fats total)
  ]

  fats-ne-none : (bps spc reserved : ℕ) → check_fats block bps spc reserved ≢ none
  unfolding check_fats
  fats-ne-none bps spc reserved =
      ground (arith, read_u8-some block 0x10, counted-ne-none bps spc reserved (byte block 0x10))

  reserved-ne-none : (bps spc : ℕ) → check_reserved block bps spc ≢ none
  unfolding check_reserved
  reserved-ne-none bps spc =
      ground (arith, read_u16-some block 0x0E, fats-ne-none bps spc (word block 0x0E))

  cluster_size-ne-none : (bps : ℕ) → check_cluster_size block bps ≢ none
  unfolding check_cluster_size
  cluster_size-ne-none bps =
      ground (arith, read_u8-some block 0x0D, reserved-ne-none bps (byte block 0x0D))

  sector_size-ne-none : check_sector_size block ≢ none
  unfolding check_sector_size
  sector_size-ne-none =
      ground (arith, read_u16-some block 0x0B, cluster_size-ne-none (word block 0x0B))

parse-ne-none : (block : List ℕ) → parse block ≢ none
unfolding parse
parse-ne-none block = ground (arith, read_u16-some block 0x1FE, sector_size-ne-none block)

hints-ne-none : (block : List ℕ) (b : BootSector) → parse_hints block b ≢ none
unfolding parse_hints
hints-ne-none block b = ground (
  arith,
  read_u32-some block 0x000,
  read_u32-some block 0x1E4,
  read_u32-some block 0x1E8,
  read_u32-some block 0x1EC,
)

returned {ℓ} : {A : Type ℓ} (o : Option A) → o ≢ none → (a : A) × (o ≡ some a)
returned none h = absurd (h refl)
returned (some a) h = (a, refl)

-- `BootSector::parse` and `FsInfo::parse` return for every block, of whatever length: neither reads
-- outside of it.
pub parse_total :
    (block : List ℕ) (b : BootSector)
    → ((r : Parsed) × (parse block ≡ some r)) × ((i : FsInfo) × (parse_hints block b ≡ some i))
parse_total block b = (
  returned (parse block) (parse-ne-none block),
  returned (parse_hints block b) (hints-ne-none block b),
)
