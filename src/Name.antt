-- ===== src/Name.antt =====
-- src/name.rs: what stores a name, its long-name slots and its 8.3 alias.
pub mod Slots
pub mod Splice
pub mod RoundTrip
pub mod Alias
pub mod Stored
use Prim.Native.Nat.{bit_or}
use resident_fat.Prelude.{
  ℕ, zero, suc, ◌+◌, ◌-◌, ◌*◌, ◌/◌, ◌%◌, ◌^◌, Option, none, some, List, [], ◌∷◌, ltb, ◌==◌,
  if◌then◌else◌, length, get_elem?, set, replicate,
}
use resident_fat.Words.{u8}
use resident_fat.Dir.{chars_per_slot, long_name_attributes, entry_size}

-- where a slot stores its n-th character
unfoldable pub char_offset : ℕ → ℕ
char_offset n =
    if ltb n 5 then 0x01 + n * 2 else if ltb n 11 then 0x0E + (n - 5) * 2 else 0x1C + (n - 11) * 2

-- the unit to store at a place of the name, past its end a terminator and then padding
unfoldable pub unit_at : List ℕ → ℕ → ℕ
unit_at units at = elim (get_elem? units at) [
  | some unit ↦ unit
  | none ↦ if at == length units then 0x0000 else 0xFFFF
]

-- `slot[at..at + 2].copy_from_slice(&unit.to_le_bytes())`
abbrev pub put_unit : List ℕ → ℕ → ℕ → List ℕ
put_unit slot at unit = set (set slot at (unit % 2 ^ 8)) (at + 1) (unit / 2 ^ 8 % 2 ^ 8)

-- the loop over the characters of a slot, from its round `n` on
unfoldable pub fill_slot : ℕ → ℕ → List ℕ → ℕ → List ℕ → List ℕ
unfolding char_offset
fill_slot zero n units from slot = slot
fill_slot (suc k) n units from slot =
    fill_slot k (n + 1) units from (put_unit slot (char_offset n) (unit_at units (from + n)))

-- one slot, of so many, for part `sequence`
unfoldable pub make_slot : List ℕ → ℕ → ℕ → ℕ → List ℕ
unfolding fill_slot
make_slot units checksum count sequence =
    let first = bit_or (u8 sequence) (if sequence == count then 0x40 else 0) in
    let blank =
      set (set (set (replicate entry_size 0) 0 first) 0x0B long_name_attributes) 0x0D checksum in
    fill_slot chars_per_slot 0 units ((sequence - 1) * chars_per_slot) blank

-- the parts from one down to the first
unfoldable pub slots_down : List ℕ → ℕ → ℕ → ℕ → List (List ℕ)
slots_down units checksum count zero = []
slots_down units checksum count (suc s) =
    make_slot units checksum count (suc s) ∷ slots_down units checksum count s

unfoldable pub long_name_slots : List ℕ → ℕ → List (List ℕ)
long_name_slots units checksum =
    let count = (length units + (chars_per_slot - 1)) / chars_per_slot in
    slots_down units checksum count count
