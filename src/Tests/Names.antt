-- ===== src/Tests/Names.antt =====
-- Names: long-name slots, aliases, and what is stored.
use resident_fat.Prelude.{
  ℕ, zero, suc, ◌+◌, ◌-◌, ◌≤◌, ◌≡◌, ◌⊎◌, refl, Bool, true, false, ◌&&◌, some, List, [], ◌∷◌, leb,
  if◌then◌else◌, arith, Option-cases, replicate, inl, inr,
}
use resident_fat.Text.{Unicode}
use resident_fat.Codepage.{ascii, encode_ascii}
use resident_fat.Dir.ShortName.{ShortName, from_raw, is_valid_short_name_byte, checksum}
use resident_fat.Name.{long_name_slots}
use resident_fat.Name.Alias.{
  long_name_units, direct_8_3, case_flags_of, basis_name, with_tail, max_tail,
}
use resident_fat.Name.Alias.Printable.{with_tail-some}
use resident_fat.Name.Stored.{
  StoredName, stored, no_alias_available, stored_name, store_mangled, store_direct, try_tails,
  is_taken,
}
use resident_fat.Name.Stored.Unique.{StandsInUse, IsExact, IsAliased, stored_name-settled}
use resident_fat.Name.Stored.Failing.{stored_name-all_taken}

-- the letters of ASCII
abbrev is_lower : ℕ → Bool
is_lower c = leb 0x61 c && leb c 0x7A

abbrev is_upper : ℕ → Bool
is_upper c = leb 0x41 c && leb c 0x5A

abbrev pub plain_text : Unicode
plain_text = record {
  to_lowercase = λ c. (if is_upper c then c + 32 else c) ∷ [];
  to_uppercase = λ c. (if is_lower c then c - 32 else c) ∷ [];
  is_lowercase = is_lower;
  is_uppercase = is_upper;
  encode_utf16 = λ l. l;
  decode_utf16 = λ l. l;
}

-- fourteen units, in two slots
abbrev pub fourteen : List ℕ
fourteen = replicate 14 0x61

-- "Game.nes", which no short name is
abbrev mixed : List ℕ
mixed = 0x47 ∷ 0x61 ∷ 0x6D ∷ 0x65 ∷ 0x2E ∷ 0x6E ∷ 0x65 ∷ 0x73 ∷ []

abbrev mixed_short : ShortName
mixed_short = record {
  raw = 0x47 ∷ 0x41 ∷ 0x4D ∷ 0x45 ∷ 0x20 ∷ 0x20 ∷ 0x20 ∷ 0x20 ∷ 0x4E ∷ 0x45 ∷ 0x53 ∷ [];
  case_flags = 0x00;
}

abbrev mixed_stored : StoredName
mixed_stored = record { short = mixed_short; slots = long_name_slots mixed 216 }

mixed_units : long_name_units plain_text mixed ≡ some mixed
unfolding long_name_units
mixed_units = refl

mixed_run : stored_name plain_text ascii (λ name. false) mixed ≡ stored mixed_stored
unfolding stored_name store_direct direct_8_3 case_flags_of from_raw long_name_units encode_ascii
    is_valid_short_name_byte checksum
mixed_run = refl

stored_name-settled_example :
    StandsInUse mixed_short
    × (IsExact plain_text ascii (λ name. false) mixed mixed_stored
        ⊎ IsAliased plain_text ascii (λ name. false) mixed mixed_stored)
stored_name-settled_example =
    stored_name-settled plain_text ascii (λ name. false) mixed mixed mixed_stored mixed_units
      mixed_run

-- a directory that has every name
tails_run :
    (units base extension : List ℕ) (left tail : ℕ)
    → tail + left ≤ 1000000
    → try_tails plain_text ascii (λ name. true) units base extension left tail ≡ no_alias_available
unfolding try_tails
tails_run units base extension zero tail small = refl
tails_run units base extension (suc left) tail small =
    elim (Option-cases (with_tail base extension tail)) [
      | inl e ↦ absurd (with_tail-some base extension tail (omega arith) e)
      | inr (raw, e) ↦
          rw (e, try_tails) (tails_run units base extension left (tail + 1) (omega arith))
    ]

full_run : stored_name plain_text ascii (λ name. true) mixed ≡ no_alias_available
unfolding stored_name store_direct direct_8_3 case_flags_of long_name_units encode_ascii
    is_valid_short_name_byte store_mangled
full_run =
    tails_run mixed (basis_name plain_text ascii mixed).0 (basis_name plain_text ascii mixed).1
      max_tail 1 (omega arith)

-- "GAME~12.NES"
tailed : List ℕ
tailed = 0x47 ∷ 0x41 ∷ 0x4D ∷ 0x45 ∷ 0x7E ∷ 0x31 ∷ 0x32 ∷ 0x20 ∷ 0x4E ∷ 0x45 ∷ 0x53 ∷ []

tailed_run :
    with_tail (basis_name plain_text ascii mixed).0 (basis_name plain_text ascii mixed).1 12
    ≡ some tailed
unfolding with_tail basis_name tailed encode_ascii is_valid_short_name_byte
tailed_run = refl

stored_name-all_taken_example : is_taken plain_text ascii (λ name. true) (from_raw tailed 0) ≡ true
stored_name-all_taken_example =
    stored_name-all_taken plain_text ascii (λ name. true) mixed 12 tailed full_run (omega arith)
      (omega arith) tailed_run

-- "game.nes" needs no slots.
abbrev lower_case : List ℕ
lower_case = 0x67 ∷ 0x61 ∷ 0x6D ∷ 0x65 ∷ 0x2E ∷ 0x6E ∷ 0x65 ∷ 0x73 ∷ []

lower_case_run :
    stored_name plain_text ascii (λ name. false) lower_case
    ≡ stored (record { short = record mixed_short { case_flags = 0x18 }; slots = [] })
unfolding stored_name store_direct direct_8_3 case_flags_of from_raw long_name_units encode_ascii
    is_valid_short_name_byte
lower_case_run = refl
