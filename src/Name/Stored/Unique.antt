-- ===== src/Name/Stored/Unique.antt =====
-- The alias that `stored_name` of src/name.rs settles on.
use resident_fat.Prelude.{
  ℕ, zero, suc, ◌+◌, ◌≡◌, ◌≢◌, ◌⊎◌, inl, inr, refl, Bool, false, some, List, [], length, Bool-cases,
  Option-cases,
}
use resident_fat.Bytes.{byte}
use resident_fat.Text.{Unicode}
use resident_fat.Codepage.{Codepage}
use resident_fat.Dir.{deleted_mark}
use resident_fat.Dir.ShortName.{ShortName, from_raw, checksum}
use resident_fat.Name.{long_name_slots}
use resident_fat.Name.Alias.{
  Direct, long_name_units, direct_8_3, case_flags_of, basis_name, with_tail, max_tail,
}
use resident_fat.Name.Alias.Printable.{
  IsName, ArePrintable, from_raw-first, with_tail-IsName, direct_8_3-IsName,
  basis_name-ArePrintable,
}
use resident_fat.Name.Stored.{
  StoredName, stored, storing_panicked, with_slots, is_taken, try_tails, store_mangled,
  store_direct, stored_name,
}

-- Eleven bytes that begin like an entry in use.
abbrev pub StandsInUse : ShortName → Type 0
StandsInUse short =
    (length short.raw ≡ 11) × (byte short.raw 0 ≢ 0x00) × (byte short.raw 0 ≢ deleted_mark)

module _ (u : Unicode) (codepage : Codepage) (taken : List ℕ → Bool) where
  -- the exact 8.3 form, which needs no slots
  abbrev pub IsExact : List ℕ → StoredName → Type 0
  IsExact name s =
      (direct : Direct) × (flags : ℕ) × (direct_8_3 u codepage name ≡ some direct)
      × (case_flags_of direct ≡ some flags)
      × (s ≡ record { short = from_raw direct.raw flags; slots = [] })

  -- an alias that is free, with the slots of the long name
  abbrev pub IsAliased : List ℕ → StoredName → Type 0
  IsAliased units s =
      (is_taken u codepage taken s.short ≡ false)
      × (s.slots ≡ long_name_slots units (checksum s.short))

  with_slots-IsAliased :
      (units raw : List ℕ) (s : StoredName)
      → IsName raw
      → is_taken u codepage taken (from_raw raw 0) ≡ false
      → with_slots u codepage taken units (from_raw raw 0) ≡ stored s
      → StandsInUse s.short × IsAliased units s
  with_slots-IsAliased units raw s h free e =
      let same : record {
        short = from_raw raw 0;
        slots = long_name_slots units (checksum (from_raw raw 0));
      }
          ≡ s =
        cc in
      rw (← same) (from_raw-first raw 0 h, (free, refl))

  module _ (units base extension : List ℕ) (h : ArePrintable base)
      (k : ArePrintable extension) where
    try_tails-IsAliased :
        (left tail : ℕ) (s : StoredName)
        → try_tails u codepage taken units base extension left tail ≡ stored s
        → StandsInUse s.short × IsAliased units s
    unfolding try_tails
    try_tails-IsAliased zero tail s e = cc
    try_tails-IsAliased (suc left) tail s e = elim (Option-cases (with_tail base extension tail)) [
      | inl q ↦ let e' : storing_panicked ≡ stored s = rw (q, try_tails) at e in cc
      | inr (raw, q) ↦ elim (Bool-cases (is_taken u codepage taken (from_raw raw 0))) [
        | inl old ↦
            let e' : try_tails u codepage taken units base extension left (tail + 1) ≡ stored s =
              rw (q, old, try_tails) at e in
            try_tails-IsAliased left (tail + 1) s e'
        | inr free ↦
            let e' : with_slots u codepage taken units (from_raw raw 0) ≡ stored s =
              rw (q, free, try_tails) at e in
            with_slots-IsAliased units raw s (with_tail-IsName base extension tail raw h k q) free
              e'
      ]
    ]

  module _ (units name : List ℕ) where
    store_mangled-IsAliased :
        (s : StoredName)
        → store_mangled u codepage taken units name ≡ stored s
        → StandsInUse s.short × IsAliased units s
    unfolding store_mangled
    store_mangled-IsAliased s e =
        let printable = basis_name-ArePrintable u codepage name in
        try_tails-IsAliased units (basis_name u codepage name).0 (basis_name u codepage name).1
          printable.0 printable.1 max_tail 1 s e

    store_direct-settled :
        (direct : Direct) (s : StoredName)
        → direct_8_3 u codepage name ≡ some direct
        → store_direct u codepage taken units name direct ≡ stored s
        → StandsInUse s.short × (IsExact name s ⊎ IsAliased units s)
    unfolding store_direct
    store_direct-settled direct s d e =
        let whole = direct_8_3-IsName u codepage name direct d in
        elim (Option-cases (case_flags_of direct)) [
          | inr (flags, q) ↦
              let e' : stored (record { short = from_raw direct.raw flags; slots = [] })
                  ≡ stored s =
                rw (q, store_direct) at e in
              let same : record { short = from_raw direct.raw flags; slots = [] } ≡ s = cc in
              rw (← same) (from_raw-first direct.raw flags whole, inl (direct, flags, d, q, refl))
          | inl q ↦ elim (Bool-cases (is_taken u codepage taken (from_raw direct.raw 0))) [
            | inl old ↦
                let m = store_mangled-IsAliased s (rw (q, old, store_direct) at e) in (m.0, inr m.1)
            | inr free ↦
                let m =
                  with_slots-IsAliased units direct.raw s whole free
                    (rw (q, free, store_direct) at e) in
                (m.0, inr m.1)
          ]
        ]

  -- A name that is stored has an entry that begins like one in use, and is stored either by its
  -- exact 8.3 form without slots, or by an alias that no name of the directory has, with the slots
  -- of its UTF-16 units.
  pub stored_name-settled :
      (name units : List ℕ) (s : StoredName)
      → long_name_units u name ≡ some units
      → stored_name u codepage taken name ≡ stored s
      → StandsInUse s.short × (IsExact name s ⊎ IsAliased units s)
  unfolding stored_name
  stored_name-settled name units s l e = elim (Option-cases (direct_8_3 u codepage name)) [
    | inr (direct, d) ↦ store_direct-settled units name direct s d (rw (l, d, stored_name) at e)
    | inl d ↦
        let m = store_mangled-IsAliased units name s (rw (l, d, stored_name) at e) in (m.0, inr m.1)
  ]
