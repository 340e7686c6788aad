-- ===== src/Tests/Loading.antt =====
-- A table loaded from a device.
use resident_fat.Prelude.{
  Bool-cases, inl, inr, ◌==◌, leb, ℕ, ◌+◌, ◌≡◌, refl, List, ◌∷◌, length, Option, some, none,
  if◌then◌else◌, replicate,
}
use resident_fat.Fat.Table.{Fat}
use resident_fat.Fat.Load.Words.{blocks_from}

-- A device of 1000 blocks of zeros, but for the reserved entries and the root's.
abbrev pub image : ℕ → List ℕ
image i =
    if i == 32
    then 0xF8
      ∷ 0xFF
      ∷ 0xFF
      ∷ 0x0F
      ∷ 0xFF
      ∷ 0xFF
      ∷ 0xFF
      ∷ 0x0F
      ∷ 0xFF
      ∷ 0xFF
      ∷ 0xFF
      ∷ 0x0F
      ∷ replicate 500 0
    else replicate 512 0

pub image-sized : (i : ℕ) → length (image i) ≡ 512
image-sized i = elim (Bool-cases (i == 32)) [ inl e ↦ rw e refl | inr e ↦ rw e refl ]

abbrev read_image : ℕ → ℕ → Option (List ℕ)
read_image start n = if leb (start + n) 1000 then some (blocks_from image start n) else none
