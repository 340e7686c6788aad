-- ===== src/Dir/ShortName.antt =====
-- `Attributes` and `ShortName` of src/dir.rs: the attribute bits, and an 8.3 name as it is stored.
use Prim.Native.Nat.{bit_and}
use resident_fat.Prelude.{
  ℕ, ◌+◌, Bool, false, not, ◌||◌, Option, none, some, List, [], ◌∷◌, ◌++◌, ltb, ◌==◌, if◌then◌else◌,
  take, drop, set,
}
use resident_fat.Words.{u8, low_bits, shr, shl}
use resident_fat.Bytes.{byte}
use resident_fat.Text.{Unicode}
use resident_fat.Codepage.{Codepage}
use resident_fat.Dir.{long_name_attributes, deleted_mark, escaped_e5}

-- `Attributes::VOLUME_ID`
abbrev pub volume_id_bit : ℕ
volume_id_bit = 0x08

-- `Attributes::DIRECTORY`
abbrev pub directory_bit : ℕ
directory_bit = 0x10

-- `Attributes::contains`
unfoldable pub contains : ℕ → ℕ → Bool
contains bits other = bit_and bits other == other

unfoldable pub is_directory : ℕ → Bool
unfolding contains
is_directory bits = contains bits directory_bit

unfoldable pub is_volume_id : ℕ → Bool
unfolding contains
is_volume_id bits = contains bits volume_id_bit

unfoldable pub is_long_name : ℕ → Bool
is_long_name bits = bits == long_name_attributes

-- `lcase::BASE`
abbrev pub lcase_base : ℕ
lcase_base = 0x08

-- `lcase::EXTENSION`
abbrev pub lcase_extension : ℕ
lcase_extension = 0x10

pub record ShortName : Type 0 where
  pub raw : List ℕ
  pub case_flags : ℕ

-- `ShortName::from_entry`
unfoldable pub from_entry : List ℕ → ShortName
from_entry entry = record { raw = take 11 entry; case_flags = byte entry 0x0C }

-- `ShortName::from_raw`
unfoldable pub from_raw : List ℕ → ℕ → ShortName
from_raw raw flags = record {
  raw = (if byte raw 0 == deleted_mark then set raw 0 escaped_e5 else raw);
  case_flags = flags;
}

-- `sum.rotate_right(1).wrapping_add(byte)`
unfoldable pub rotate_add : ℕ → ℕ → ℕ
rotate_add sum byte = u8 (shr sum 1 + shl (low_bits sum 1) 7 + byte)

-- the fold over the bytes
abbrev pub sum_bytes : ℕ → List ℕ → ℕ
sum_bytes sum [] = sum
sum_bytes sum (byte ∷ bytes) = sum_bytes (rotate_add sum byte) bytes

-- `ShortName::checksum`
unfoldable pub checksum : ShortName → ℕ
unfolding rotate_add
checksum name = sum_bytes 0 name.raw

abbrev pub is_one_of : List ℕ → ℕ → Bool
is_one_of [] byte = false
is_one_of (b ∷ bs) byte = (byte == b) || is_one_of bs byte

-- The last one is the space.
abbrev pub unfit_bytes : List ℕ
unfit_bytes =
    0x22 ∷ 0x2A ∷ 0x2B ∷ 0x2C ∷ 0x2E ∷ 0x2F ∷ 0x3A ∷ 0x3B ∷ 0x3C ∷ 0x3D ∷ 0x3E ∷ 0x3F ∷ 0x5B ∷ 0x5C
    ∷ 0x5D ∷ 0x7C ∷ 0x20 ∷ []

unfoldable pub is_valid_short_name_byte : ℕ → Bool
is_valid_short_name_byte byte = if ltb byte 0x20 then false else not (is_one_of unfit_bytes byte)

abbrev pub or_replacement : Option ℕ → ℕ
or_replacement none = 0xFFFD
or_replacement (some character) = character

-- what `push_decoded` appends
unfoldable pub decoded : Unicode → Codepage → Bool → List ℕ → List ℕ
decoded u codepage lower [] = []
decoded u codepage lower (byte ∷ field) =
    let rest = decoded u codepage lower field in
    let character = or_replacement (codepage.decode byte) in
    if byte == 0x20
    then rest
    else if lower
    then u.to_lowercase character ++ rest
    else character ∷ rest

abbrev pub with_dot : List ℕ → List ℕ → List ℕ
with_dot base [] = base
with_dot base (c ∷ cs) = base ++ 0x2E ∷ c ∷ cs

-- `raw` with the escape undone
abbrev pub unescaped : List ℕ → List ℕ
unescaped raw = if byte raw 0 == escaped_e5 then set raw 0 deleted_mark else raw

abbrev pub has_bit : ℕ → ℕ → Bool
has_bit flags bit = not (bit_and flags bit == 0)

-- `ShortName::to_display_string_with`
unfoldable pub to_display_string_with : Unicode → Codepage → ShortName → List ℕ
unfolding decoded
to_display_string_with u codepage name =
    with_dot (decoded u codepage (has_bit name.case_flags lcase_base) (take 8 (unescaped name.raw)))
      (decoded u codepage (has_bit name.case_flags lcase_extension) (drop 8 (unescaped name.raw)))
