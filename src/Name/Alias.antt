-- ===== src/Name/Alias.antt =====
-- src/name.rs: the 8.3 form of a name, exact or mangled.
pub mod Printable
use Prim.Native.Nat.{bit_or}
use resident_fat.Prelude.{
  ℕ, zero, suc, ◌+◌, ◌-◌, ◌*◌, ◌/◌, ◌%◌, min, Bool, true, false, not, ◌&&◌, ◌||◌, Option, none,
  some, List, [], ◌∷◌, ◌++◌, ltb, leb, ◌==◌, if◌then◌else◌, length, take, set, replicate,
}
use resident_fat.Bytes.{◌>>=◌}
use resident_fat.Text.{Unicode, same_text}
use resident_fat.Codepage.{Codepage}
use resident_fat.Dir.ShortName.{
  ShortName, from_raw, is_one_of, is_valid_short_name_byte, lcase_base, lcase_extension,
}
use resident_fat.Dir.Entry.{copy_into}

abbrev pub max_long_name : ℕ
max_long_name = 255

abbrev pub max_tail : ℕ
max_tail = 999999

abbrev pub dot : ℕ
dot = 0x2E

abbrev pub space : ℕ
space = 0x20

abbrev pub any : (ℕ → Bool) → List ℕ → Bool
any test [] = false
any test (c ∷ cs) = test c || any test cs

abbrev pub starts_with_char : ℕ → List ℕ → Bool
starts_with_char c [] = false
starts_with_char c (d ∷ ds) = d == c

abbrev pub ends_with_char : ℕ → List ℕ → Bool
ends_with_char c [] = false
ends_with_char c (d ∷ []) = d == c
ends_with_char c (d ∷ e ∷ es) = ends_with_char c (e ∷ es)

abbrev pub reserved_characters : List ℕ
reserved_characters = 0x22 ∷ 0x2A ∷ 0x2F ∷ 0x3A ∷ 0x3C ∷ 0x3E ∷ 0x3F ∷ 0x5C ∷ 0x7C ∷ []

unfoldable pub is_reserved : ℕ → Bool
is_reserved character = is_one_of reserved_characters character || ltb character 0x20

unfoldable pub is_refused_name : List ℕ → Bool
unfolding is_reserved
is_refused_name name =
    same_text name []
    || same_text name (dot ∷ [])
    || same_text name (dot ∷ dot ∷ [])
    || starts_with_char space name
    || ends_with_char space name
    || ends_with_char dot name
    || any is_reserved name

unfoldable pub long_name_units : Unicode → List ℕ → Option (List ℕ)
unfolding is_refused_name
long_name_units u name =
    let units = u.encode_utf16 name in
    if is_refused_name name
    then none
    else if leb (length units) max_long_name
    then some units
    else none

abbrev pub only : List ℕ → Option ℕ
only [] = none
only (c ∷ []) = some c
only (c ∷ d ∷ ds) = none

-- `upper`
unfoldable pub upper : Unicode → ℕ → Option ℕ
upper u character = only (u.to_uppercase character)

abbrev pub shown_lower : Bool → Bool → Option Bool
shown_lower true true = none
shown_lower true false = some true
shown_lower false upper_case = some false

-- `field_case`
unfoldable pub field_case : Unicode → List ℕ → Option Bool
field_case u field = shown_lower (any u.is_lowercase field) (any u.is_uppercase field)

-- `Direct`
pub record Direct : Type 0 where
  pub raw : List ℕ
  pub base : Option Bool
  pub extension : Option Bool

-- `Direct::case_flags`
unfoldable pub case_flags_of : Direct → Option ℕ
case_flags_of direct = do
  base ← direct.base
  extension ← direct.extension
  some (bit_or (if base then lcase_base else 0) (if extension then lcase_extension else 0))

-- a character put before the first part
abbrev pub with_first : ℕ → List ℕ × List ℕ → Option (List ℕ × List ℕ)
with_first c (before, after) = some (c ∷ before, after)

-- `rsplit_once('.')`
unfoldable pub rsplit_dot : List ℕ → Option (List ℕ × List ℕ)
rsplit_dot [] = none
rsplit_dot (c ∷ cs) = elim (rsplit_dot cs) [
  | some split ↦ with_first c split
  | none ↦ if c == dot then some ([], cs) else none
]

unfoldable pub base_and_extension : List ℕ → List ℕ × List ℕ
unfolding rsplit_dot
base_and_extension name = elim (rsplit_dot name) [ some split ↦ split | none ↦ (name, []) ]

module _ (u : Unicode) (codepage : Codepage) where
  -- one field of `direct_8_3`, from a character on
  unfoldable pub fill_field : List ℕ → ℕ → List ℕ → Option (List ℕ)
  unfolding upper
  fill_field [] at raw = some raw
  fill_field (c ∷ cs) at raw = do
    character ← upper u c
    byte ← codepage.encode character
    if not (is_valid_short_name_byte byte) then none else fill_field cs (at + 1) (set raw at byte)

  unfoldable pub direct_of : List ℕ → List ℕ → Option Direct
  unfolding fill_field field_case
  direct_of base extension =
      if same_text base [] || ltb 8 (length base) || ltb 3 (length extension) then none else do
        raw ← fill_field base 0 (replicate 11 space)
        raw' ← fill_field extension 8 raw
        some (record { raw = raw'; base = field_case u base; extension = field_case u extension })

  -- `direct_8_3`
  unfoldable pub direct_8_3 : List ℕ → Option Direct
  unfolding base_and_extension direct_of
  direct_8_3 name = let (base, extension) = base_and_extension name in direct_of base extension

  -- `exact_8_3`
  unfoldable pub exact_8_3 : List ℕ → Option ShortName
  unfolding long_name_units direct_8_3 case_flags_of
  exact_8_3 name = do
    units ← long_name_units u name
    direct ← direct_8_3 name
    flags ← case_flags_of direct
    some (from_raw direct.raw flags)

  abbrev pub valid_or_underscore : Option ℕ → ℕ
  valid_or_underscore none = 0x5F
  valid_or_underscore (some byte) = if is_valid_short_name_byte byte then byte else 0x5F

  -- the byte that `mangle` puts for a character
  unfoldable pub mangled_byte : ℕ → ℕ
  unfolding upper
  mangled_byte character = valid_or_underscore (upper u character >>= codepage.encode)

  -- the loop of `mangle`
  unfoldable pub mangle_onto : List ℕ → ℕ → List ℕ → List ℕ
  unfolding mangled_byte
  mangle_onto [] limit out = out
  mangle_onto (c ∷ cs) limit out =
      let skipped = mangle_onto cs limit out in
      let pushed = mangle_onto cs limit (out ++ mangled_byte c ∷ []) in
      if length out == limit then out else if (c == dot) || (c == space) then skipped else pushed

  unfoldable pub mangle : List ℕ → ℕ → List ℕ
  unfolding mangle_onto
  mangle field limit = mangle_onto field limit []

  -- `trim_start_matches(['.', ' '])`
  abbrev pub trim_start : List ℕ → List ℕ
  trim_start [] = []
  trim_start (c ∷ cs) =
      let rest = trim_start cs in if (c == dot) || (c == space) then rest else c ∷ cs

  -- `basis_name`
  unfoldable pub basis_name : List ℕ → List ℕ × List ℕ
  unfolding base_and_extension mangle
  basis_name name =
      let (base, extension) = base_and_extension (trim_start name) in
      (mangle base 8, mangle extension 3)

-- The loop that takes the digits off, the lowest first, into as many places: past the last the
-- code panics.
unfoldable pub digits_of : ℕ → ℕ → Option (List ℕ)
digits_of zero left = none
digits_of (suc places) left =
    let rest = digits_of places (left / 10) in
    if left / 10 == 0
    then some ((0x30 + left % 10) ∷ [])
    else rest >>= (λ ds. some ((0x30 + left % 10) ∷ ds))

abbrev pub reversed_onto : List ℕ → List ℕ → List ℕ
reversed_onto [] ys = ys
reversed_onto (x ∷ xs) ys = reversed_onto xs (x ∷ ys)

-- `with_tail`
unfoldable pub with_tail : List ℕ → List ℕ → ℕ → Option (List ℕ)
unfolding digits_of
with_tail base extension tail = do
  digits ← digits_of 6 tail
  let keep = min (length base) (8 - (length digits + 1)) in
      let kept = copy_into (replicate 11 space) 0 (take keep base) in
      let marked = set kept keep 0x7E in
      let tailed = copy_into marked (keep + 1) (reversed_onto digits []) in
      some (copy_into tailed 8 extension)
