-- ===== src/Mbr/Slots.antt =====
-- What the table that `PartitionTable::parse` returns says of the block, and what is no table.
use resident_fat.Prelude.{
  ℕ, zero, suc, ◌+◌, ◌≤◌, ◌≡◌, ◌⊎◌, inl, inr, refl, Bool, true, false, ◌||◌, Option, none, some,
  List, [], ◌∷◌, length, arith, Bool-cases, ltb, not, ◌==◌, ◌&&◌, if◌then◌else◌,
}
use resident_fat.Bytes.{byte, long, read_u8-some, read_u32-some}
use resident_fat.Mbr.{
  Partition, PartitionTable, entry_at, slot, is_some, prepend, scan, table_if_any, parse,
}

-- The slot that the bytes of the block describe.
abbrev pub described : List ℕ → ℕ → Option Partition
described block index =
    slot index (byte block (entry_at index)) (byte block (entry_at index + 0x4))
      (long block (entry_at index + 0x8)) (long block (entry_at index + 0xC))

abbrev pub HasStatus : List ℕ → ℕ → Type 0
HasStatus block index = (byte block (entry_at index) ≡ 0x00) ⊎ (byte block (entry_at index) ≡ 0x80)

abbrev pub all_described : ℕ → List ℕ → ℕ → List (Option Partition)
all_described zero block index = []
all_described (suc n) block index = described block index ∷ all_described n block (index + 1)

abbrev pub any_described : ℕ → List ℕ → ℕ → Bool → Bool
any_described zero block index any = any
any_described (suc n) block index any =
    any_described n block (index + 1) (any || is_some (described block index))

abbrev pub all_statuses : ℕ → List ℕ → ℕ → Bool
all_statuses zero block index = true
all_statuses (suc n) block index =
    ((byte block (entry_at index) == 0x00) || (byte block (entry_at index) == 0x80))
    && all_statuses n block (index + 1)

abbrev scanned : ℕ → List ℕ → ℕ → Bool → Option (List (Option Partition) × Bool)
scanned n block index any =
    if all_statuses n block index
    then some (all_described n block index, any_described n block index any)
    else none

-- one round of the loop, whatever its tests say
joined :
    {A : Type 0} (inactive bootable ok any : Bool) (a : A) (rest : List A)
    → ◌≡◌ {A = Option (Option (List A × Bool))}
        (if not inactive && not bootable
          then some none
          else some (prepend a (if ok then some (rest, any) else none)))
        (some (if (inactive || bootable) && ok then some (a ∷ rest, any) else none))
joined true true true any a rest = refl
joined true true false any a rest = refl
joined true false true any a rest = refl
joined true false false any a rest = refl
joined false true true any a rest = refl
joined false true false any a rest = refl
joined false false ok any a rest = refl

scan-eq :
    (n : ℕ) (block : List ℕ) (index : ℕ) (any : Bool)
    → 512 ≤ length block
    → index + n ≤ 4
    → scan n block index any ≡ some (scanned n block index any)
unfolding scan
scan-eq zero block index any full h = refl
scan-eq (suc n) block index any full h =
    let status = read_u8-some block (entry_at index) (omega arith) in
    let kind = read_u8-some block (entry_at index + 0x4) (omega arith) in
    let first = read_u32-some block (entry_at index + 0x8) (omega arith) in
    let blocks = read_u32-some block (entry_at index + 0xC) (omega arith) in
    let ih =
      scan-eq n block (index + 1) (any || is_some (described block index)) full (omega arith) in
    rw (status, kind, first, blocks, ih) (joined _ _ _ _ _ _)

-- The signature, a status byte of 0x00 or 0x80 in each slot, and a partition in some slot.
abbrev pub is_table : List ℕ → Bool
is_table block =
    not (ltb (length block) 512)
    && (byte block 0x1FE == 0x55)
    && (byte block 0x1FF == 0xAA)
    && all_statuses 4 block 0
    && any_described 4 block 0 false

chosen :
    (low high statuses any : Bool) (es : List (Option Partition))
    → ◌≡◌ {A = Option (Option PartitionTable)}
        (if not low || not high
          then some none
          else some (table_if_any (if statuses then some (es, any) else none)))
        (some (if low && high && statuses && any then some (record { entries = es }) else none))
chosen true true true any es = refl
chosen true true false any es = refl
chosen true false statuses any es = refl
chosen false high statuses any es = refl

-- `PartitionTable::parse` returns for every block, without a read outside of it: the four slots
-- that the bytes describe, where the block has the signature, valid status bytes and some
-- partition, and otherwise `None`.
pub parse-eq :
    (block : List ℕ)
    → parse block
      ≡ some (if is_table block then some (record { entries = all_described 4 block 0 }) else none)
unfolding parse
parse-eq block = elim (Bool-cases (ltb (length block) 512)) [
  | inl short ↦ rw short refl
  | inr full ↦
      let long_enough : 512 ≤ length block = ground arith in
      let low = read_u8-some block 0x1FE (omega arith) in
      let high = read_u8-some block 0x1FF (omega arith) in
      let slots = scan-eq 4 block 0 false long_enough (omega arith) in
      rw (full, low, high, slots)
        (chosen _ _ (all_statuses 4 block 0) (any_described 4 block 0 false)
          (all_described 4 block 0))
]
