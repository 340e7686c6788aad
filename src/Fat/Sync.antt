-- ===== src/Fat/Sync.antt =====
-- What src/fat.rs gives to the code that writes the table back: which sectors changed, and their
-- bytes.
pub mod DirtyRuns
pub mod Clean
use resident_fat.Prelude.{
  ℕ, zero, suc, ◌+◌, ◌-◌, ◌*◌, ◌/◌, ◌%◌, ◌^◌, Bool, true, false, ◌||◌, List, [], ◌∷◌, ◌++◌, ltb,
  ◌==◌, if◌then◌else◌, length, get_or, replicate,
}
use resident_fat.Words.{u32}
use resident_fat.Fat.Table.{Fat, Outcome, ok, panic, free_mark}

unfoldable pub any_dirty : List Bool → Bool
any_dirty [] = false
any_dirty (flag ∷ flags) = flag || any_dirty flags

unfoldable pub has_unsynced_changes : Fat → Bool
unfolding any_dirty
has_unsynced_changes f = any_dirty f.dirty

-- `match runs.last_mut() { .. }`
unfoldable pub push_sector : List (ℕ × ℕ) → ℕ → List (ℕ × ℕ)
push_sector [] sector = (sector, 1) ∷ []
push_sector ((start, count) ∷ []) sector =
    if u32 (start + count) == sector
    then (start, u32 (count + 1)) ∷ []
    else (start, count) ∷ (sector, 1) ∷ []
push_sector (r ∷ s ∷ rs) sector = r ∷ push_sector (s ∷ rs) sector

unfoldable pub gather_dirty : List Bool → ℕ → List (ℕ × ℕ) → List (ℕ × ℕ)
unfolding push_sector
gather_dirty [] sector runs = runs
gather_dirty (flag ∷ flags) sector runs =
    gather_dirty flags (suc sector) (if flag then push_sector runs (u32 sector) else runs)

unfoldable pub dirty_runs : Fat → List (ℕ × ℕ)
unfolding gather_dirty
dirty_runs f = gather_dirty f.dirty 0 []

-- `u32::to_le_bytes`
abbrev pub to_le_bytes : ℕ → List ℕ
to_le_bytes e = (e % 2 ^ 8) ∷ (e / 2 ^ 8 % 2 ^ 8) ∷ (e / 2 ^ 16 % 2 ^ 8) ∷ (e / 2 ^ 24 % 2 ^ 8) ∷ []

-- the loop of `sector_bytes`, from its round `n` on
unfoldable pub entry_bytes : ℕ → ℕ → ℕ → List ℕ → List ℕ
entry_bytes zero n first entries = []
entry_bytes (suc k) n first entries =
    to_le_bytes (get_or entries (u32 (first + n)) free_mark) ++ entry_bytes k (suc n) first entries

unfoldable pub sector_bytes : ℕ → ℕ → Fat → Outcome (List ℕ)
sector_bytes sector count f =
    let room = u32 (count * f.bytes_per_sector) in
    let rounds = u32 (count * f.entries_per_sector) in
    if ltb room (rounds * 4)
    then panic
    else ok (
        entry_bytes rounds 0 (u32 (sector * f.entries_per_sector)) f.entries
        ++ replicate (room - rounds * 4) 0)

unfoldable pub clear_dirty : Fat → Fat
clear_dirty f = record f { dirty = replicate (length f.dirty) false }

-- where each copy of the table starts
unfoldable pub starts_from : ℕ → ℕ → Fat → List ℕ
starts_from zero copy f = []
starts_from (suc n) copy f =
    u32 (f.fat_start + u32 (copy * f.sectors_per_fat)) ∷ starts_from n (suc copy) f

unfoldable pub copy_starts : Fat → List ℕ
unfolding starts_from
copy_starts f = starts_from f.fat_count 0 f

abbrev pub next_free_hint : Fat → ℕ
next_free_hint f = f.next_free
