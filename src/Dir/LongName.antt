-- ===== src/Dir/LongName.antt =====
-- `PendingLongName` and `absorb_long_name_slot` of src/dir.rs: a long name put together from its
-- slots, which come last part first. The outer `none` is a write outside of the characters, where
-- the code panics. What turns UTF-16 units into text is a parameter.
use resident_fat.Prelude.{
  ℕ, zero, suc, ◌+◌, ◌-◌, ◌*◌, Bool, false, not, ◌&&◌, ◌||◌, Option, none, some, List, [], ◌∷◌,
  ◌++◌, ltb, ◌==◌, if◌then◌else◌, length, take, drop, replicate,
}
use resident_fat.Words.{low_bits, high_bits, shr}
use resident_fat.Bytes.{byte, word}
use resident_fat.Dir.{chars_per_slot, max_long_slots}

pub record PendingLongName : Type 0 where
  pub chars : List ℕ
  pub expected : ℕ
  pub checksum : ℕ

-- `PendingLongName::new`
unfoldable pub new_pending : ℕ → ℕ → PendingLongName
new_pending slots checksum = record {
  chars = replicate (slots * chars_per_slot) 0;
  expected = slots;
  checksum = checksum;
}

-- so many characters from an offset on
abbrev pub chars_at : List ℕ → ℕ → ℕ → List ℕ
chars_at entry offset zero = []
chars_at entry offset (suc n) = word entry offset ∷ chars_at entry (offset + 2) n

-- the three groups of characters of a slot
unfoldable pub slot_chars : List ℕ → List ℕ
slot_chars entry = chars_at entry 0x01 5 ++ chars_at entry 0x0E 6 ++ chars_at entry 0x1C 2

-- `self.chars[at..at + n].copy_from_slice(..)`
unfoldable pub splice : List ℕ → ℕ → List ℕ → Option (List ℕ)
splice chars at part =
    if ltb (length chars) (at + length part)
    then none
    else some (take at chars ++ part ++ drop (at + length part) chars)

unfoldable pub absorb : ℕ → List ℕ → PendingLongName → Option PendingLongName
absorb sequence entry p =
    elim (splice p.chars ((sequence - 1) * chars_per_slot) (slot_chars entry)) [
      | none ↦ none
      | some chars ↦ some (record p { chars = chars; expected = sequence - 1 })
    ]

-- the position of the first terminator, or the length
unfoldable pub end_of_chars : List ℕ → ℕ
end_of_chars [] = 0
end_of_chars (c ∷ cs) = if (c == 0x0000) || (c == 0xFFFF) then 0 else suc (end_of_chars cs)

-- A name is there unless it is empty.
abbrev pub named : List ℕ → Option (List ℕ)
named [] = none
named (c ∷ cs) = some (c ∷ cs)

-- `PendingLongName::finish`
unfoldable pub finish : (List ℕ → List ℕ) → ℕ → PendingLongName → Option (List ℕ)
unfolding end_of_chars
finish decode_utf16 checksum p =
    if not (p.expected == 0) || not (p.checksum == checksum)
    then none
    else named (decode_utf16 (take (end_of_chars p.chars) p.chars))

-- `entry[0] & !LAST_LONG_SLOT`
abbrev pub sequence_of : List ℕ → ℕ
sequence_of entry = high_bits (byte entry 0) 7 + low_bits (byte entry 0) 6

-- `entry[0] & LAST_LONG_SLOT != 0`
abbrev pub is_last_slot : List ℕ → Bool
is_last_slot entry = low_bits (shr (byte entry 0) 6) 1 == 1

abbrev pub follows_on : ℕ → ℕ → Option PendingLongName → Bool
follows_on sequence checksum none = false
follows_on sequence checksum (some run) =
    (run.expected == sequence) && (run.checksum == checksum) && not (sequence == 0)

-- the run that the slot belongs to, or none: the slot is dropped, and what was pending
unfoldable pub run_of : List ℕ → Option PendingLongName → Option PendingLongName
unfolding new_pending
run_of entry pending =
    if is_last_slot entry
    then (if (sequence_of entry == 0) || ltb max_long_slots (sequence_of entry)
        then none
        else some (new_pending (sequence_of entry) (byte entry 0x0D)))
    else if not (follows_on (sequence_of entry) (byte entry 0x0D) pending)
    then none
    else pending

abbrev pub absorb_into : List ℕ → Option PendingLongName → Option (Option PendingLongName)
absorb_into entry none = some none
absorb_into entry (some run) = elim (absorb (sequence_of entry) entry run) [
  | none ↦ none
  | some after ↦ some (some after)
]

unfoldable pub absorb_long_name_slot :
    List ℕ → Option PendingLongName → Option (Option PendingLongName)
unfolding run_of
absorb_long_name_slot entry pending = absorb_into entry (run_of entry pending)
