-- ===== src/Tests/Syncing.antt =====
-- Writing the table back.
use resident_fat.Prelude.{ℕ, ◌*◌, ◌<◌, ◌≡◌, refl, ap, append-nil, true, false, List, [], ◌∷◌, arith}
use resident_fat.Fat.Table.{Fat, ok, set_entry}
use resident_fat.Fat.Sync.{dirty_runs, sector_bytes, entry_bytes, copy_starts}
use resident_fat.Fat.Sync.DirtyRuns.{sectors_of, AreApart, dirty_runs-flagged}
use resident_fat.Fat.Sync.Clean.{IsBacked, set_entry-IsBacked}
use resident_fat.Tests.FatTable.{small_fat, small_fat-IsWellFormed}

abbrev scattered_fat : Fat
scattered_fat = record small_fat { dirty = true ∷ true ∷ false ∷ true ∷ [] }

two_stretches : dirty_runs scattered_fat ≡ (0, 2) ∷ (3, 1) ∷ []
unfolding dirty_runs
two_stretches = refl

two_copies : copy_starts small_fat ≡ 32 ∷ 33 ∷ []
unfolding copy_starts
two_copies = refl

dirty_runs-flagged_example :
    (sectors_of (dirty_runs scattered_fat) ≡ 0 ∷ 1 ∷ 3 ∷ [])
    × AreApart (dirty_runs scattered_fat) 0 4
dirty_runs-flagged_example = dirty_runs-flagged scattered_fat (omega arith)

-- The one sector of the small table, as a device holds it.
abbrev held : ℕ → List ℕ
held s = entry_bytes 128 0 (s * 128) small_fat.entries

first_only : (s : ℕ) → s * 128 < 8 → s ≡ 0
first_only s h = omega arith

small_fat-IsBacked : IsBacked held small_fat
unfolding sector_bytes
small_fat-IsBacked = record {
  sector = (refl, refl);
  flags = omega arith;
  clean = λ s h unflagged. rw (first_only s h) (ap ok (append-nil (held 0)));
}

set_entry-IsBacked_example : IsBacked held (set_entry 4 9 small_fat).1
set_entry-IsBacked_example =
    set_entry-IsBacked held small_fat 4 9 small_fat-IsWellFormed small_fat-IsBacked
