-- ===== src/Fat/Sync/DirtyRuns.antt =====
-- The stretches of `Fat::dirty_runs` (src/fat.rs) and the flags of the sectors.
use resident_fat.Prelude.{
  ℕ, suc, ◌+◌, ◌^◌, ◌≤◌, ◌<◌, ◌≡◌, refl, sym, subst, Bool, true, false, List, [], ◌∷◌, ◌++◌,
  append-nil, append_assoc, arith, length, range_from, Bool-cases, inl, inr, ◌==◌,
}
use resident_fat.Words.{u32}
use resident_fat.Fat.Table.{Fat}
use resident_fat.Fat.Runs.{range_from-snoc}
use resident_fat.Fat.Sync.{push_sector, gather_dirty, dirty_runs}

-- the sectors of the stretches, in order
abbrev pub sectors_of : List (ℕ × ℕ) → List ℕ
sectors_of [] = []
sectors_of ((start, count) ∷ rs) = range_from start count ++ sectors_of rs

-- the sectors whose flag is set, from a number on
abbrev pub flagged : List Bool → ℕ → List ℕ
flagged [] sector = []
flagged (true ∷ flags) sector = sector ∷ flagged flags (suc sector)
flagged (false ∷ flags) sector = flagged flags (suc sector)

-- Each stretch begins at `low` or later, holds a sector and ends by `limit`, and between two there
-- is a gap.
abbrev pub AreApart : List (ℕ × ℕ) → ℕ → ℕ → Type 0
AreApart [] low limit = Unit
AreApart ((start, count) ∷ rs) low limit =
    (low ≤ start) × (1 ≤ count) × (start + count ≤ limit) × AreApart rs (start + count + 1) limit

-- the two cases of the last stretch
extended :
    (start count sector low : ℕ)
    → suc sector < 2 ^ 32
    → AreApart ((start, count) ∷ []) low sector
    → start + count ≡ sector
    → (sectors_of ((start, u32 (count + 1)) ∷ []) ≡ sectors_of ((start, count) ∷ []) ++ sector ∷ [])
      × AreApart ((start, u32 (count + 1)) ∷ []) low (suc sector)
extended start count sector low small h e =
    let whole : u32 (count + 1) ≡ suc count = omega arith in
    rw (whole, append-nil (range_from start (suc count)), append-nil (range_from start count))
      (range_from-snoc start count sector e, omega arith)

push_sector_lem :
    (rs : List (ℕ × ℕ)) (sector low : ℕ)
    → suc sector < 2 ^ 32
    → low ≤ sector
    → AreApart rs low sector
    → (sectors_of (push_sector rs sector) ≡ sectors_of rs ++ sector ∷ [])
      × AreApart (push_sector rs sector) low (suc sector)
unfolding push_sector
push_sector_lem [] sector low small above h = (refl, omega arith)
push_sector_lem ((start, count) ∷ []) sector low small above h =
    elim (Bool-cases (u32 (start + count) == sector)) [
      | inl e ↦ rw e (extended start count sector low small h (ground arith))
      | inr e ↦ rw e (rw (append-nil (range_from start count)) refl, ground arith)
    ]
push_sector_lem ((start, count) ∷ (next, n) ∷ rs) sector low small above h =
    let (split, apart) =
      push_sector_lem ((next, n) ∷ rs) sector (start + count + 1) small (omega arith) h.3 in
    (
      rw split
          (sym (append_assoc (range_from start count) (sectors_of ((next, n) ∷ rs)) (sector ∷ []))),
      (h.0, h.1, omega arith, apart),
    )

AreApart-suc :
    (rs : List (ℕ × ℕ)) (low limit : ℕ) → AreApart rs low limit → AreApart rs low (suc limit)
AreApart-suc [] low limit h = tt
AreApart-suc ((start, count) ∷ rs) low limit h =
    (h.0, h.1, omega arith, AreApart-suc rs (start + count + 1) limit h.3)

gather_dirty_lem :
    (flags : List Bool) (sector : ℕ) (rs : List (ℕ × ℕ))
    → sector + length flags < 2 ^ 32
    → AreApart rs 0 sector
    → (sectors_of (gather_dirty flags sector rs) ≡ sectors_of rs ++ flagged flags sector)
      × AreApart (gather_dirty flags sector rs) 0 (sector + length flags)
unfolding gather_dirty
gather_dirty_lem [] sector rs small h =
    let e : sector + 0 ≡ sector = omega arith in rw (e, append-nil (sectors_of rs)) (refl, h)
gather_dirty_lem (true ∷ flags) sector rs small h =
    let number : u32 sector ≡ sector = omega arith in
    let (pushed, apart) = push_sector_lem rs sector 0 (omega arith) (omega arith) h in
    let (split, later) =
      gather_dirty_lem flags (suc sector) (push_sector rs sector) (omega arith) apart in
    let e : sector + suc (length flags) ≡ suc sector + length flags = omega arith in
    rw (number, split, pushed, e)
      (append_assoc (sectors_of rs) (sector ∷ []) (flagged flags (suc sector)), later)
gather_dirty_lem (false ∷ flags) sector rs small h =
    let e : sector + suc (length flags) ≡ suc sector + length flags = omega arith in
    rw e (gather_dirty_lem flags (suc sector) rs (omega arith) (AreApart-suc rs 0 sector h))

-- For a table of fewer than 2 ^ 32 sectors, the stretches that `dirty_runs` returns hold exactly
-- the sectors that are flagged, in ascending order; each holds at least one, they lie in the
-- table, and between one and the next there is a sector that is not dirty.
pub dirty_runs-flagged :
    (f : Fat)
    → length f.dirty < 2 ^ 32
    → (sectors_of (dirty_runs f) ≡ flagged f.dirty 0) × AreApart (dirty_runs f) 0 (length f.dirty)
unfolding dirty_runs
dirty_runs-flagged f small =
    let (held, apart) = gather_dirty_lem f.dirty 0 [] (omega arith) tt in
    let e : 0 + length f.dirty ≡ length f.dirty = omega arith in
    (held, subst (AreApart (dirty_runs f) 0) e apart)
