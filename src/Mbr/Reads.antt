-- ===== src/Mbr/Reads.antt =====
-- The layout of a partition table on disk, and `PartitionTable::parse` of src/mbr.rs against it.
use resident_fat.Prelude.{
  ℕ, zero, suc, ◌+◌, ◌*◌, ◌≤◌, ◌≡◌, ◌≢◌, ◌⊎◌, refl, true, false, inl, inr, Bool, Option, none, some,
  List, [], ◌∷◌, length, arith, ◌==◌, ◌||◌, ◌&&◌, not, ltb, ◌∙◌,
}
use resident_fat.Bytes.{byte, long}
use resident_fat.Mbr.{Partition, PartitionTable, is_some, parse}
use resident_fat.Mbr.Slots.{described, all_described, all_statuses, is_table, parse-eq}

-- A slot is in use where its type, its first block and its length are all not zero: the bytes at
-- 450, 454 and 458, and every 16 bytes from there.
abbrev pub IsUsed : List ℕ → ℕ → Type 0
IsUsed block i =
    (byte block (450 + 16 * i) ≢ 0)
    × (long block (454 + 16 * i) ≢ 0)
    × (long block (458 + 16 * i) ≢ 0)

-- A slot as it is on disk: unused, or in use with these fields.
unfoldable pub IsSlot : List ℕ → ℕ → Option Partition → Type 0
IsSlot block i none = ¬ IsUsed block i
IsSlot block i (some p) =
    IsUsed block i
    × (p.index ≡ i)
    × (p.bootable ≡ (byte block (446 + 16 * i) == 128))
    × (p.kind ≡ byte block (450 + 16 * i))
    × (p.first_block ≡ long block (454 + 16 * i))
    × (p.blocks ≡ long block (458 + 16 * i))

abbrev pub HasStatusByte : List ℕ → ℕ → Type 0
HasStatusByte block i = (byte block (446 + 16 * i) ≡ 0) ⊎ (byte block (446 + 16 * i) ≡ 128)

-- so many slots from one on
abbrev pub HaveStatus : ℕ → List ℕ → ℕ → Type 0
HaveStatus zero block i = Unit
HaveStatus (suc n) block i = HasStatusByte block i × HaveStatus n block (i + 1)

abbrev status_test : List ℕ → ℕ → Bool
status_test block i = (byte block (446 + 16 * i) == 0) || (byte block (446 + 16 * i) == 128)

-- The signature, the status bytes of the four slots, and a slot in use.
abbrev pub HoldsTable : List ℕ → Type 0
HoldsTable block =
    ((((512 ≤ length block) × (byte block 510 ≡ 85)) × (byte block 511 ≡ 170))
      × HaveStatus 4 block 0)
    × (((IsUsed block 0 ⊎ IsUsed block 1) ⊎ IsUsed block 2) ⊎ IsUsed block 3)

-- What the result says of the block.
unfoldable pub IsRead : List ℕ → Option PartitionTable → Type 0
unfolding IsSlot
IsRead block none = ¬ HoldsTable block
IsRead block (some t) =
    HoldsTable block
    × (a : Option Partition) × (b : Option Partition) × (c : Option Partition) × (e : Option
        Partition)
    × (t.entries ≡ a ∷ b ∷ c ∷ e ∷ [])
    × IsSlot block 0 a
    × IsSlot block 1 b
    × IsSlot block 2 c
    × IsSlot block 3 e

described-IsSlot : (block : List ℕ) (i : ℕ) → IsSlot block i (described block i)
unfolding IsSlot
described-IsSlot block i = ground arith

-- a test of the code that decides a statement about the block
abbrev Decides : Bool → Type 0 → Type 0
Decides b P = ((b ≡ true) × P) ⊎ ((b ≡ false) × ¬ P)

both : {P Q : Type 0} {a b : Bool} → Decides a P → Decides b Q → Decides (a && b) (P × Q)
both (inl (e, p)) (inl (f, q)) = inl (rw (e, f) refl, (p, q))
both (inl (e, p)) (inr (f, n)) = inr (rw (e, f) refl, λ h. n h.1)
both (inr (e, n)) d = inr (rw e refl, λ h. n h.0)

either : {P Q : Type 0} {a b : Bool} → Decides a P → Decides b Q → Decides (a || b) (P ⊎ Q)
either (inl (e, p)) d = inl (rw e refl, inl p)
either (inr (e, n)) (inl (f, q)) = inl (rw (e, f) refl, inr q)
either (inr (e, n)) (inr (f, m)) = inr (rw (e, f) refl, λ h. elim h [ inl p ↦ n p | inr q ↦ m q ])

equal : (m n : ℕ) → Decides (m == n) (m ≡ n)
equal m n = ground arith

at_least : (n m : ℕ) → Decides (not (ltb n m)) (m ≤ n)
at_least n m = ground arith

in_use : (block : List ℕ) (i : ℕ) → Decides (is_some (described block i)) (IsUsed block i)
in_use block i = ground arith

status : (block : List ℕ) (i : ℕ) → Decides (status_test block i) (HasStatusByte block i)
status block i = either (equal _ 0) (equal _ 128)

all_statuses-Decides : (block : List ℕ) → Decides (all_statuses 4 block 0) (HaveStatus 4 block 0)
all_statuses-Decides block =
    both (status block 0)
      (both (status block 1) (both (status block 2) (both (status block 3) (inl (refl, tt)))))

is_table-HoldsTable : (block : List ℕ) → Decides (is_table block) (HoldsTable block)
is_table-HoldsTable block =
    both
      (both
        (both (both (at_least (length block) 512) (equal (byte block 510) 85))
          (equal (byte block 511) 170))
        (all_statuses-Decides block))
      (either (either (either (in_use block 0) (in_use block 1)) (in_use block 2)) (in_use block 3))

-- `PartitionTable::parse` returns for every block, without a read outside of it: `None` exactly
-- where the block is shorter than 512 bytes, lacks the signature 0x55 0xAA at 510, has a status
-- byte other than 0x00 and 0x80 in one of its four slots, or has no slot in use, and otherwise the
-- four slots as they are on disk. A slot is in use where its type, its first block and its length
-- are not zero.
pub parse-IsRead :
    (block : List ℕ) → (r : Option PartitionTable) × (parse block ≡ some r) × IsRead block r
unfolding IsRead
parse-IsRead block = elim (is_table-HoldsTable block) [
  | inl (e, holds) ↦ (
    some (record { entries = all_described 4 block 0 }),
    parse-eq block ∙ rw e refl,
    (
      holds,
      described block 0,
      described block 1,
      described block 2,
      described block 3,
      refl,
      described-IsSlot block 0,
      described-IsSlot block 1,
      described-IsSlot block 2,
      described-IsSlot block 3,
    ),
  )
  | inr (e, lacks) ↦ (none, parse-eq block ∙ rw e refl, lacks)
]
