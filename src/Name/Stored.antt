-- ===== src/Name/Stored.antt =====
-- `stored_name` of src/name.rs. Whether a name is taken is asked of the directory: a parameter.
pub mod Unique
pub mod Failing
use resident_fat.Prelude.{
  ℕ, zero, suc, ◌+◌, Bool, true, false, Option, none, some, List, [], ◌∷◌, length,
}
use resident_fat.Words.{u32}
use resident_fat.Text.{Unicode}
use resident_fat.Codepage.{Codepage}
use resident_fat.Dir.ShortName.{ShortName, from_raw, checksum, to_display_string_with}
use resident_fat.Name.{long_name_slots}
use resident_fat.Name.Alias.{
  Direct, long_name_units, direct_8_3, case_flags_of, basis_name, with_tail, max_tail,
}

pub record StoredName : Type 0 where
  pub short : ShortName
  pub slots : List (List ℕ)

-- `StoredName::entries`
unfoldable pub entries_needed : StoredName → ℕ
entries_needed s = u32 (length s.slots) + 1

-- a name to store, `Error::BadName`, `Error::NoAliasAvailable`, or a panic
pub data Storing : Type 0 where
  stored : StoredName → Storing
  bad_name : Storing
  no_alias_available : Storing
  storing_panicked : Storing

module _ (u : Unicode) (codepage : Codepage) (taken : List ℕ → Bool) where
  -- an alias with the slots of the long name
  abbrev pub with_slots : List ℕ → ShortName → Storing
  with_slots units short =
      stored (record { short = short; slots = long_name_slots units (checksum short) })

  abbrev pub is_taken : ShortName → Bool
  is_taken short = taken (to_display_string_with u codepage short)

  -- so many of the tails, from one on
  unfoldable pub try_tails : List ℕ → List ℕ → List ℕ → ℕ → ℕ → Storing
  try_tails units base extension zero tail = no_alias_available
  try_tails units base extension (suc left) tail = elim (with_tail base extension tail) [
    | none ↦ storing_panicked
    | some raw ↦ elim (is_taken (from_raw raw 0)) [
      | false ↦ with_slots units (from_raw raw 0)
      | true ↦ try_tails units base extension left (tail + 1)
    ]
  ]

  unfoldable pub store_mangled : List ℕ → List ℕ → Storing
  unfolding try_tails
  store_mangled units name =
      let (base, extension) = basis_name u codepage name in
      try_tails units base extension max_tail 1

  unfoldable pub store_direct : List ℕ → List ℕ → Direct → Storing
  unfolding store_mangled
  store_direct units name direct = elim (case_flags_of direct) [
    | some flags ↦ stored (record { short = from_raw direct.raw flags; slots = [] })
    | none ↦ elim (is_taken (from_raw direct.raw 0)) [
      | false ↦ with_slots units (from_raw direct.raw 0)
      | true ↦ store_mangled units name
    ]
  ]

  unfoldable pub stored_name : List ℕ → Storing
  unfolding store_direct
  stored_name name = elim (long_name_units u name) [
    | none ↦ bad_name
    | some units ↦ elim (direct_8_3 u codepage name) [
      | some direct ↦ store_direct units name direct
      | none ↦ store_mangled units name
    ]
  ]
