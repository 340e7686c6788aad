-- ===== src/Volume/Copies.antt =====
-- The copies of the table (src/fat.rs, src/fs.rs) on the device: their bytes, and where the
-- stretches of changed sectors lie on them.
use mathlib.Core.List.{cons-ne-nil}
use native.Mathlib.Nat.{mul-le-mul_right}
use resident_fat.Prelude.{
  ltb, ℕ, zero, suc, ◌+◌, ◌-◌, ◌*◌, ◌/◌, ◌%◌, get_or, ◌^◌, ◌≤◌, ◌<◌, ◌≡◌, ◌⊎◌, inl, inr, refl, ap,
  ap₂, ◌∙◌, Bool, true, false, List, [], ◌∷◌, ◌++◌, All, length, append-nil, arith, Bool-cases,
  ◌==◌, ==_iff,
}
use resident_fat.Words.{u32}
use resident_fat.Fat.Table.{Fat, ok}
use resident_fat.Fat.Sync.{any_dirty, entry_bytes, sector_bytes}
use resident_fat.Fat.Sync.DirtyRuns.{AreApart, flagged}
use resident_fat.Volume.{BlockDevice, FileSystem}
use resident_fat.Volume.Transfers.{laid}

-- so many entries from one on, little-endian
unfoldable pub words : ℕ → ℕ → List ℕ → List ℕ
words zero first entries = []
words (suc k) first entries =
    let e = get_or entries first 0 in
    e % 256 ∷ e / 256 % 256 ∷ e / 65536 % 256 ∷ e / 16777216 % 256 ∷ words k (first + 1) entries

entry_bytes-words :
    (k n first : ℕ) (entries : List ℕ)
    → first + n + k < 2 ^ 32
    → entry_bytes k n first entries ≡ words k (first + n) entries
unfolding entry_bytes words
entry_bytes-words zero n first entries h = refl
entry_bytes-words (suc k) n first entries h =
    let at : u32 (first + n) ≡ first + n = omega arith in
    let next : first + suc n ≡ first + n + 1 = omega arith in
    rw (at, entry_bytes-words k (suc n) first entries (omega arith), next) refl

-- the bytes of so many sectors of the table, from one on
abbrev pub table_bytes : Fat → ℕ → ℕ → List ℕ
table_bytes f sector count = words (count * 128) (sector * 128) f.entries

pub sector_bytes-table_bytes :
    (f : Fat) (sector count : ℕ)
    → (f.entries_per_sector ≡ 128) × (f.bytes_per_sector ≡ 512)
    → (sector + count) * 512 < 2 ^ 32
    → sector_bytes sector count f ≡ ok (table_bytes f sector count)
unfolding sector_bytes
sector_bytes-table_bytes f sector count (e, b) small =
    let room : u32 (count * 512) ≡ count * 512 = omega arith in
    let rounds : u32 (count * 128) ≡ count * 128 = omega arith in
    let first : u32 (sector * 128) ≡ sector * 128 = omega arith in
    let rest : count * 512 - count * 128 * 4 ≡ 0 = omega arith in
    let fits : ltb (count * 512) (count * 128 * 4) ≡ false = ground arith in
    rw (e, b, room, rounds, first, fits, rest)
      (ap ok (
        append-nil (entry_bytes (count * 128) 0 (sector * 128) f.entries)
        ∙ entry_bytes-words (count * 128) 0 (sector * 128) f.entries (omega arith)
        ∙ ap (λ n. words (count * 128) n f.entries) (omega arith)))

pub length-words : (k first : ℕ) (entries : List ℕ) → length (words k first entries) ≡ k * 4
unfolding words
length-words zero first entries = refl
length-words (suc k) first entries = omega (arith, length-words k (first + 1) entries)

pub laid-same :
    (after before : ℕ → List ℕ) (block n : ℕ)
    → ((i : ℕ) → block ≤ i → i < block + n → after i ≡ before i)
    → laid after block n ≡ laid before block n
laid-same after before block zero h = refl
laid-same after before block (suc n) h =
    ap₂ ◌++◌ (h block (omega arith) (omega arith))
      (laid-same after before (block + 1) n (λ i from upto. h i (omega arith) (omega arith)))

pub copies_apart : (c k n : ℕ) → c < k → c * n + n ≤ k * n
copies_apart c k n h = omega (arith, mul-le-mul_right n h)

pub none_flagged :
    (flags : List Bool) (sector : ℕ) → flagged flags sector ≡ [] → any_dirty flags ≡ false
unfolding any_dirty
none_flagged [] sector h = refl
none_flagged (true ∷ flags) sector h = absurd (cons-ne-nil _ _ h)
none_flagged (false ∷ flags) sector h = none_flagged flags (suc sector) h

abbrev pub Off : ℕ → ℕ → ℕ → Type 0
Off block blocks i = (i < block) ⊎ (block + blocks ≤ i)

module _ {d : BlockDevice} where
  -- the block of a sector of a copy of the table
  abbrev pub copy_block : FileSystem d → ℕ → ℕ → ℕ
  copy_block v k sector = v.first_block + (v.fat.fat_start + k * v.fat.sectors_per_fat + sector)

  -- what a stretch leaves on copies, and what is outside of it
  abbrev pub OnCopies : FileSystem d → ℕ → ℕ → ℕ → ℕ → List ℕ → (ℕ → List ℕ) → Type 0
  OnCopies v from upto sector count bytes c =
      (k : ℕ) → from ≤ k → k < upto → laid c (copy_block v k sector) count ≡ bytes

  abbrev pub OffCopies : FileSystem d → ℕ → ℕ → ℕ → ℕ → ℕ → Type 0
  OffCopies v from upto sector count i =
      (k : ℕ) → from ≤ k → k < upto → Off (copy_block v k sector) count i

  -- what all stretches leave on the copies of the table, and what is outside of all of them
  abbrev pub OnAll : FileSystem d → List (ℕ × ℕ) → (ℕ → List ℕ) → Type 0
  OnAll v rs c = All (λ r. OnCopies v 0 v.fat.fat_count r.0 r.1 (table_bytes v.fat r.0 r.1) c) rs

  abbrev pub OffAll : FileSystem d → List (ℕ × ℕ) → ℕ → Type 0
  OffAll v rs i = All (λ r. OffCopies v 0 v.fat.fat_count r.0 r.1 i) rs

  -- A block of a stretch, on whichever copy, is outside of all later stretches.
  pub earlier-OffAll :
      (v : FileSystem d) (rs : List (ℕ × ℕ)) (low limit k sector count i : ℕ)
      → AreApart rs low limit
      → limit ≤ v.fat.sectors_per_fat
      → sector + count ≤ low
      → copy_block v k sector ≤ i
      → i < copy_block v k sector + count
      → OffAll v rs i
  earlier-OffAll v [] low limit k sector count i apart fits before from upto = tt
  earlier-OffAll v ((s, c) ∷ rs) low limit k sector count i apart fits before from upto =
      let spf = v.fat.sectors_per_fat in
      (
        (λ k' _ _. elim (Bool-cases (k' == k)) [
          | inl at ↦ let e : k' ≡ k = (==_iff _ _).0 at in inl (rw e (omega (arith, apart.0)))
          | inr other ↦ elim (Bool-cases (ltb k' k)) [
            | inl lower ↦
                let gap = copies_apart k' k spf (ground arith) in inr (omega (arith, gap, apart.2))
            | inr upper ↦
                let gap = copies_apart k k' spf (ground (arith, other)) in
                inl (omega (arith, gap, apart.0, apart.1, apart.2))
          ]
        ]),
        earlier-OffAll v rs (s + c + 1) limit k sector count i apart.3 fits (omega (arith, apart.0))
            from upto,
      )
