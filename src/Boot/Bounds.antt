-- ===== src/Boot/Bounds.antt =====
-- Where the tables, the clusters and the hints of an accepted volume lie.
use native.Mathlib.Nat.{le-div_iff_mul-le}
use resident_fat.Prelude.{
  ℕ, suc, ◌+◌, ◌-◌, ◌*◌, ◌/◌, ◌%◌, ◌^◌, ◌≤◌, ◌<◌, ◌≡◌, ◌⊎◌, inl, inr, true, Option, none, some,
  List, arith, Bool-cases, ltb,
}
use resident_fat.Bytes.{AreBytes, word-lt, long-lt, read_u32-some, long}
use resident_fat.Fat.Invariant.{max_fat32_clusters}
use resident_fat.Boot.{
  BootSector, accepted, parse, cluster_sector, is_addressable, FsInfo, no_hints, parse_hints,
  free_hint, next_hint,
}
use resident_fat.Boot.Geometry.{IsPowerOfTwo, parse-Guaranteed}

cluster_size_bounds : (n : ℕ) → IsPowerOfTwo n → (1 ≤ n) × (n ≤ 128)
cluster_size_bounds n h = ground arith

spanned : (q n d c : ℕ) → q ≤ n / d → 1 ≤ d → 2 ≤ c → c < q + 2 → (c - 2) * d + d ≤ n
spanned q n d c h p from upto =
    let fits : suc (c - 2) * d ≤ n = (le-div_iff_mul-le p).0 (omega arith) in
    let split : suc (c - 2) * d ≡ (c - 2) * d + d = grind arith in omega (arith, fits, split)

-- On a volume that `parse` accepts, a cluster number that `is_valid_cluster` lets pass has all of
-- its sectors inside of the volume, in the data area, and the number of its first sector is
-- computed without wrapping.
pub cluster_sector_bounds :
    (block : List ℕ) (b : BootSector) (c : ℕ)
    → AreBytes block
    → parse block ≡ some (accepted b)
    → is_addressable b c ≡ true
    → (cluster_sector b c ≡ b.data_start + (c - 2) * b.sectors_per_cluster)
      × (cluster_sector b c + b.sectors_per_cluster ≤ b.total_sectors)
unfolding cluster_sector is_addressable
cluster_sector_bounds block b c bytes h valid =
    let g = parse-Guaranteed block b h in
    let size = cluster_size_bounds b.sectors_per_cluster g.cluster in
    let c_small : (2 ≤ c) × (c < b.cluster_count + 2) = ground arith in
    let volume : b.total_sectors < 2 ^ 32 =
      ground (arith, word-lt block 0x13 bytes, long-lt block 0x20 bytes) in
    let span =
      spanned b.cluster_count (b.total_sectors - b.data_start) b.sectors_per_cluster c (omega arith)
        size.0 c_small.0 c_small.1 in
    let number : (c + 2 ^ 32 - 2) % 2 ^ 32 ≡ c - 2 = omega arith in rw number (omega arith)

-- On a volume that `parse` accepts the data area starts where the last table ends, unless the end
-- of the tables does not fit in 32 bits: then it starts before the tables end, so it overlaps
-- them.
pub tables_end :
    (block : List ℕ) (b : BootSector)
    → parse block ≡ some (accepted b)
    → (b.data_start ≡ b.fat_start + b.fat_count * b.sectors_per_fat)
      ⊎ ((2 ^ 32 ≤ b.fat_start + b.fat_count * b.sectors_per_fat)
          × (b.data_start < b.fat_start + b.fat_count * b.sectors_per_fat))
tables_end block b h =
    let g = parse-Guaranteed block b h in
    elim (Bool-cases (ltb (b.fat_start + b.fat_count * b.sectors_per_fat) (2 ^ 32))) [
      | inl e ↦ inl (ground arith)
      | inr e ↦ inr (ground arith, ground arith)
    ]

abbrev pub AllSome : {A : Type 0} → (A → Type 0) → Option A → Type 0
AllSome P none = Unit
AllSome P (some a) = P a

free_hint-AllSome : (b : BootSector) (n : ℕ) → AllSome (λ n. n ≤ b.cluster_count) (free_hint b n)
unfolding free_hint
free_hint-AllSome b n = ground arith

next_hint-AllSome :
    (b : BootSector) (n : ℕ)
    → b.cluster_count ≤ max_fat32_clusters
    → AllSome (λ c. (2 ≤ c) × (c < b.cluster_count + 2)) (next_hint b n)
unfolding next_hint is_addressable
next_hint-AllSome b n h = ground arith

kept_hints :
    (info : List ℕ) (b : BootSector) (i : FsInfo)
    → parse_hints info b ≡ some i
    → (i ≡ no_hints)
      ⊎ (i ≡ record {
        free_clusters = free_hint b (long info 0x1E8);
        next_free = next_hint b (long info 0x1EC);
      })
unfolding parse_hints
kept_hints info b i e = ground (
  arith,
  read_u32-some info 0x000,
  read_u32-some info 0x1E4,
  read_u32-some info 0x1E8,
  read_u32-some info 0x1EC,
)

-- The hints that `FsInfo::parse` keeps for an accepted volume are possible: a free count is no
-- more than the volume has clusters, and a next free cluster is a cluster of the volume.
pub parse_hints_bounds :
    (block info : List ℕ) (b : BootSector) (i : FsInfo)
    → parse block ≡ some (accepted b)
    → parse_hints info b ≡ some i
    → AllSome (λ n. n ≤ b.cluster_count) i.free_clusters
      × AllSome (λ c. (2 ≤ c) × (c < b.cluster_count + 2)) i.next_free
parse_hints_bounds block info b i h e =
    let g = parse-Guaranteed block b h in
    let free = free_hint-AllSome b (long info 0x1E8) in
    let next = next_hint-AllSome b (long info 0x1EC) g.bounded in
    elim (kept_hints info b i e) [ inl x ↦ rw x (tt, tt) | inr x ↦ rw x (free, next) ]
