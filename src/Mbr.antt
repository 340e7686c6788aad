-- ===== src/Mbr.antt =====
-- src/mbr.rs: the partition table of a device's first block.
pub mod Slots
pub mod Found
pub mod Reads
use resident_fat.Prelude.{
  ℕ, zero, suc, ◌+◌, ◌*◌, Bool, true, false, not, ◌&&◌, ◌||◌, Option, none, some, List, [], ◌∷◌,
  length, ltb, ◌==◌, if◌then◌else◌, get_elem?,
}
use resident_fat.Bytes.{◌>>=◌, read_u8, read_u32}

pub record Partition : Type 0 where
  pub index : ℕ
  pub bootable : Bool
  pub kind : ℕ
  pub first_block : ℕ
  pub blocks : ℕ

-- The four slots of a table.
pub record PartitionTable : Type 0 where
  pub entries : List (Option Partition)

unfoldable pub is_fat : Partition → Bool
is_fat p =
    (p.kind == 0x01)
    || (p.kind == 0x04)
    || (p.kind == 0x06)
    || (p.kind == 0x0B)
    || (p.kind == 0x0C)
    || (p.kind == 0x0E)
    || (p.kind == 0x11)
    || (p.kind == 0x14)
    || (p.kind == 0x16)
    || (p.kind == 0x1B)
    || (p.kind == 0x1C)
    || (p.kind == 0x1E)

unfoldable pub is_protective_gpt : Partition → Bool
is_protective_gpt p = p.kind == 0xEE

-- where the entry of a slot begins
abbrev pub entry_at : ℕ → ℕ
entry_at index = 0x1BE + index * 16

-- A partition of nothing, or one starting at the block that holds the table, is none.
abbrev pub slot : ℕ → ℕ → ℕ → ℕ → ℕ → Option Partition
slot index status kind first_block blocks =
    if (kind == 0) || (blocks == 0) || (first_block == 0)
    then none
    else some (record {
      index = index;
      bootable = status == 0x80;
      kind = kind;
      first_block = first_block;
      blocks = blocks;
    })

abbrev pub is_some : {A : Type 0} → Option A → Bool
is_some none = false
is_some (some a) = true

abbrev pub prepend : {A : Type 0} → A → Option (List A × Bool) → Option (List A × Bool)
prepend a none = none
prepend a (some (rest, any)) = some (a ∷ rest, any)

-- The loop of `parse` over the slots: `none` inside means that this is no table, and the flag is
-- `any`.
unfoldable pub scan : ℕ → List ℕ → ℕ → Bool → Option (Option (List (Option Partition) × Bool))
scan zero block index any = some (some ([], any))
scan (suc n) block index any = do
  status ← read_u8 block (entry_at index)
  if not (status == 0x00) && not (status == 0x80) then some none else (do
    kind ← read_u8 block (entry_at index + 0x4)
    first_block ← read_u32 block (entry_at index + 0x8)
    blocks ← read_u32 block (entry_at index + 0xC)
    let found = slot index status kind first_block blocks
    rest ← scan n block (index + 1) (any || is_some found)
    some (prepend found rest))

-- `any.then_some(PartitionTable { entries })`
abbrev pub table_if_any : Option (List (Option Partition) × Bool) → Option PartitionTable
table_if_any none = none
table_if_any (some (entries, any)) = if any then some (record { entries = entries }) else none

-- `PartitionTable::parse`; the outer `none` would be a read outside of the block.
unfoldable pub parse : List ℕ → Option (Option PartitionTable)
unfolding scan
parse block = if ltb (length block) 512 then some none else (do
  low ← read_u8 block 0x1FE
  high ← read_u8 block 0x1FF
  if not (low == 0x55) || not (high == 0xAA)
      then some none
      else (do found ← scan 4 block 0 false; some (table_if_any found)))

-- `PartitionTable::get`
unfoldable pub get : PartitionTable → ℕ → Option Partition
get t index = elim (get_elem? t.entries index) [ none ↦ none | some e ↦ e ]

-- `PartitionTable::iter`: the slots in use, in order
unfoldable pub used : List (Option Partition) → List Partition
used [] = []
used (none ∷ es) = used es
used (some p ∷ es) = p ∷ used es

unfoldable pub len : PartitionTable → ℕ
unfolding used
len t = length (used t.entries)

unfoldable pub is_empty : PartitionTable → Bool
unfolding len
is_empty t = len t == 0

unfoldable pub find_fat : List Partition → Option Partition
find_fat [] = none
find_fat (p ∷ ps) = if is_fat p then some p else find_fat ps

unfoldable pub first_fat : PartitionTable → Option Partition
first_fat t = find_fat (used t.entries)
