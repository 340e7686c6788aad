-- ===== src/Tests/FatTable.antt =====
-- Runs of the file allocation table on a volume of six clusters, and its theorems at that volume.
use resident_fat.Prelude.{ℕ, ◌≡◌, refl, ◌⊎◌, List, [], ◌∷◌, none, false, All, NotIn, arith}
use resident_fat.Fat.Table.{Run, Fat, ok, err, FatError, set_entry}
use resident_fat.Fat.Invariant.{IsWellFormed, count_free}
use resident_fat.Fat.SetEntry.{Wrote, set_entry-Wrote}
use resident_fat.Fat.Runs.{runs, clusters_of, AreBounded}
use resident_fat.Fat.Chain.{Linked}
use resident_fat.Fat.Chain.Walk.{runs-decides}
use resident_fat.Fat.Alloc.{allocate, find_contiguous}
use resident_fat.Fat.Alloc.Search.{FoundContiguous, find_contiguous-FoundContiguous}
use resident_fat.Fat.Allocate.{Allocated, allocate-Allocated, allocate_keeps}
use resident_fat.Fat.Release.{free_chain, truncate_chain, append}
use resident_fat.Fat.Release.Freed.{Freed, free_chain-Freed, free_chain_keeps}
use resident_fat.Fat.Release.Truncated.{Truncated, truncate_chain-Truncated}
use resident_fat.Fat.Release.Appended.{Appended, append-Appended}
use resident_fat.Fat.Release.GivenBack.{GivenBack, append-GivenBack}

-- Clusters 2 and 3 are one chain, 7 is another; 4, 5 and 6 are free, 5 with reserved bits set. The
-- next search begins at 5.
abbrev pub small_fat : Fat
small_fat = record {
  entries = 0x0FFF_FFF8 ∷ 0x0FFF_FFFF ∷ 3 ∷ 0x0FFF_FFFF ∷ 0 ∷ 0xF000_0000 ∷ 0 ∷ 0x0FFF_FFF8 ∷ [];
  cluster_count = 6;
  dirty = false ∷ [];
  next_free = 5;
  free_count = 3;
  changes = 0;
  entries_per_sector = 128;
  bytes_per_sector = 512;
  sectors_per_fat = 1;
  fat_count = 2;
  fat_start = 32;
}

pub small_fat-IsWellFormed : IsWellFormed small_fat
unfolding count_free
small_fat-IsWellFormed = omega arith

two_three : Linked small_fat (2 ∷ 3 ∷ [])
two_three = omega arith

-- Three free clusters lie side by side, around the hint, so no window has them.
contiguous_missed : find_contiguous small_fat 3 ≡ ok none
unfolding find_contiguous
contiguous_missed = refl

allocates_two :
    (allocate 2 small_fat).0
    ≡ ok (record { file_cluster = 0; start_cluster = 5; clusters = 2 } ∷ [])
unfolding allocate
allocates_two = refl

splits_three :
    (allocate 3 small_fat).0
    ≡ ok (
        record { file_cluster = 0; start_cluster = 5; clusters = 2 }
        ∷ record { file_cluster = 2; start_cluster = 4; clusters = 1 }
        ∷ [])
unfolding allocate
splits_three = refl

pub runs_of_two :
    runs small_fat 2 ≡ ok (record { file_cluster = 0; start_cluster = 2; clusters = 2 } ∷ [])
unfolding runs
runs_of_two = refl

allocate-Allocated_example : Allocated small_fat 3 (allocate 3 small_fat)
allocate-Allocated_example =
    allocate-Allocated small_fat small_fat-IsWellFormed 3 (omega arith) (omega arith)

allocate_keeps_example :
    IsWellFormed (allocate 3 small_fat).1 × Linked (allocate 3 small_fat).1 (2 ∷ 3 ∷ [])
allocate_keeps_example = allocate_keeps small_fat 3 (2 ∷ 3 ∷ []) small_fat-IsWellFormed two_three

append-Appended_example : Appended small_fat (2 ∷ []) 3 2 (append 3 2 small_fat)
append-Appended_example =
    append-Appended small_fat small_fat-IsWellFormed (2 ∷ []) 3 2 two_three (omega arith)
      (omega arith)

append-GivenBack_example : GivenBack small_fat 9 (append 9 2 small_fat)
append-GivenBack_example =
    append-GivenBack small_fat small_fat-IsWellFormed 9 2 (omega arith) (omega arith)
      (λ h. omega arith)

free_chain-Freed_example : Freed small_fat (2 ∷ 3 ∷ []) 0 (free_chain 2 small_fat)
free_chain-Freed_example = free_chain-Freed small_fat small_fat-IsWellFormed 2 (3 ∷ []) two_three

seven_alone : (cs : List ℕ) → Linked small_fat (7 ∷ cs) → All (λ d. NotIn d (7 ∷ cs)) (2 ∷ 3 ∷ [])
seven_alone [] h = omega arith
seven_alone (c ∷ []) h = absurd (omega arith)
seven_alone (c ∷ d ∷ cs) h = absurd (omega arith)

free_chain_keeps_example :
    IsWellFormed (free_chain 7 small_fat).1 × Linked (free_chain 7 small_fat).1 (2 ∷ 3 ∷ [])
free_chain_keeps_example =
    free_chain_keeps small_fat 7 (2 ∷ 3 ∷ []) small_fat-IsWellFormed two_three seven_alone

truncate_chain-Truncated_example : Truncated small_fat 1 (2 ∷ 3 ∷ []) (truncate_chain 2 1 small_fat)
truncate_chain-Truncated_example =
    truncate_chain-Truncated small_fat small_fat-IsWellFormed 2 (3 ∷ []) two_three 1 (omega arith)
      (omega arith)

runs-decides_example :
    ((cs : List ℕ) × (rs : List Run) × (runs small_fat 4 ≡ ok rs)
      × (clusters_of rs ≡ 4 ∷ cs)
      × Linked small_fat (4 ∷ cs)
      × AreBounded rs)
    ⊎ ((e : FatError) × (runs small_fat 4 ≡ err e)
        × ((cs : List ℕ) → Linked small_fat (4 ∷ cs) → ⊥))
runs-decides_example = runs-decides small_fat small_fat-IsWellFormed 4

find_contiguous-FoundContiguous_example : FoundContiguous small_fat 3 (find_contiguous small_fat 3)
find_contiguous-FoundContiguous_example =
    find_contiguous-FoundContiguous small_fat 3 small_fat-IsWellFormed (omega arith)

set_entry-Wrote_example : Wrote small_fat 5 7 (set_entry 5 7 small_fat)
set_entry-Wrote_example = set_entry-Wrote small_fat 5 7 small_fat-IsWellFormed (omega arith)
