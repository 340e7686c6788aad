-- ===== src/Name/Alias/Printable.antt =====
-- The bytes that src/name.rs puts into an 8.3 name.
use resident_fat.Prelude.{
  ℕ, zero, suc, ◌+◌, ◌-◌, ◌/◌, ◌%◌, min, ◌≤◌, ◌<◌, ◌≡◌, ◌≢◌, inl, inr, refl, ◌∙◌, true, ◌||◌,
  Option, none, some, List, [], ◌∷◌, ◌++◌, length, length-set, take, set, replicate, All,
  All-append, arith, Bool-cases, Option-cases, ◌==◌, ltb,
}
use resident_fat.Bytes.{◌>>=◌, >>=-some, byte}
use resident_fat.Text.{Unicode, same_text}
use resident_fat.Codepage.{Codepage}
use resident_fat.Dir.{deleted_mark}
use resident_fat.Dir.ShortName.{from_raw, is_valid_short_name_byte}
use resident_fat.Dir.Entry.{copy_into}
use resident_fat.Name.Alias.{
  Direct, dot, space, upper, fill_field, direct_of, direct_8_3, base_and_extension, mangled_byte,
  valid_or_underscore, mangle_onto, mangle, basis_name, trim_start, digits_of, reversed_onto,
  with_tail,
}

abbrev pub ArePrintable : List ℕ → Type 0
ArePrintable raw = All (λ b. 0x20 ≤ b) raw

-- Eleven bytes of which none is a control character.
abbrev pub IsName : List ℕ → Type 0
IsName raw = (length raw ≡ 11) × ArePrintable raw

set-ArePrintable :
    (raw : List ℕ) (at b : ℕ) → ArePrintable raw → 0x20 ≤ b → ArePrintable (set raw at b)
set-ArePrintable [] at b h k = tt
set-ArePrintable (x ∷ xs) zero b h k = (k, h.1)
set-ArePrintable (x ∷ xs) (suc at) b h k = (h.0, set-ArePrintable xs at b h.1 k)

set-IsName : (raw : List ℕ) (at b : ℕ) → IsName raw → 0x20 ≤ b → IsName (set raw at b)
set-IsName raw at b (eleven, h) k = (length-set raw at b ∙ eleven, set-ArePrintable raw at b h k)

copy_into-IsName :
    (bytes raw : List ℕ) (at : ℕ)
    → IsName raw
    → ArePrintable bytes
    → IsName (copy_into raw at bytes)
copy_into-IsName [] raw at h k = h
copy_into-IsName (b ∷ bs) raw at h k =
    copy_into-IsName bs (set raw at b) (at + 1) (set-IsName raw at b h k.0) k.1

take-ArePrintable : (n : ℕ) (bytes : List ℕ) → ArePrintable bytes → ArePrintable (take n bytes)
take-ArePrintable zero bytes h = tt
take-ArePrintable (suc n) [] h = tt
take-ArePrintable (suc n) (b ∷ bs) h = (h.0, take-ArePrintable n bs h.1)

reversed_onto-ArePrintable :
    (xs ys : List ℕ) → ArePrintable xs → ArePrintable ys → ArePrintable (reversed_onto xs ys)
reversed_onto-ArePrintable [] ys h k = k
reversed_onto-ArePrintable (x ∷ xs) ys h k = reversed_onto-ArePrintable xs (x ∷ ys) h.1 (h.0, k)

valid-printable : (b : ℕ) → is_valid_short_name_byte b ≡ true → 0x20 ≤ b
unfolding is_valid_short_name_byte
valid-printable b h = ground arith

blank-IsName : IsName (replicate 11 space)
blank-IsName = (refl, omega arith)

-- the first byte that is stored
pub from_raw-first :
    (raw : List ℕ) (flags : ℕ)
    → IsName raw
    → (length (from_raw raw flags).raw ≡ 11)
      × (byte (from_raw raw flags).raw 0 ≢ 0x00)
      × (byte (from_raw raw flags).raw 0 ≢ deleted_mark)
unfolding from_raw
from_raw-first [] flags h = absurd (omega (arith, h.0))
from_raw-first (b ∷ bs) flags h = elim (Bool-cases (b == deleted_mark)) [
  | inl e ↦ rw e (h.0, omega arith, omega arith)
  | inr e ↦ rw e (h.0, omega (arith, h.1.0), ground arith)
]

digits_of-ArePrintable :
    (places left : ℕ) (ds : List ℕ) → digits_of places left ≡ some ds → ArePrintable ds
unfolding digits_of
digits_of-ArePrintable zero left ds h = cc
digits_of-ArePrintable (suc places) left ds h = elim (Bool-cases (left / 10 == 0)) [
  | inl e ↦
      let h' : some ((0x30 + left % 10) ∷ []) ≡ some ds = rw e at h in
      let same : (0x30 + left % 10) ∷ [] ≡ ds = cc in rw (← same) (omega arith, tt)
  | inr e ↦
      let h' : (digits_of places (left / 10) >>= (λ l. some ((0x30 + left % 10) ∷ l))) ≡ some ds =
        rw e at h in
      let (rest, e', made) =
        >>=-some (digits_of places (left / 10)) (λ l. some ((0x30 + left % 10) ∷ l)) ds h' in
      let same : (0x30 + left % 10) ∷ rest ≡ ds = cc in
      rw (← same) (omega arith, digits_of-ArePrintable places (left / 10) rest e')
]

-- A tail of at most six digits has room.
digits_of-some : (tail : ℕ) → tail < 1000000 → digits_of 6 tail ≢ none
unfolding digits_of
digits_of-some tail small h = ground arith

aliased : List ℕ → List ℕ → List ℕ → List ℕ
aliased base extension digits =
    let keep = min (length base) (8 - (length digits + 1)) in
    let kept = copy_into (replicate 11 space) 0 (take keep base) in
    copy_into (copy_into (set kept keep 0x7E) (keep + 1) (reversed_onto digits [])) 8 extension

aliased-IsName :
    (base extension digits : List ℕ)
    → ArePrintable base
    → ArePrintable extension
    → ArePrintable digits
    → IsName (aliased base extension digits)
unfolding aliased
aliased-IsName base extension digits h k l =
    let keep = min (length base) (8 - (length digits + 1)) in
    let kept = copy_into (replicate 11 space) 0 (take keep base) in
    let marked =
      set-IsName kept keep 0x7E
        (copy_into-IsName (take keep base) (replicate 11 space) 0 blank-IsName
          (take-ArePrintable keep base h))
        (omega arith) in
    let tailed =
      copy_into-IsName (reversed_onto digits []) (set kept keep 0x7E) (keep + 1) marked
        (reversed_onto-ArePrintable digits [] l tt) in
    copy_into-IsName extension (copy_into (set kept keep 0x7E) (keep + 1) (reversed_onto digits []))
      8 tailed k

pub with_tail-IsName :
    (base extension : List ℕ) (tail : ℕ) (raw : List ℕ)
    → ArePrintable base
    → ArePrintable extension
    → with_tail base extension tail ≡ some raw
    → IsName raw
unfolding with_tail aliased
with_tail-IsName base extension tail raw h k e =
    let (digits, d, made) =
      >>=-some (digits_of 6 tail) (λ digits. some (aliased base extension digits)) raw e in
    let same : aliased base extension digits ≡ raw = cc in
    rw (← same) (aliased-IsName base extension digits h k (digits_of-ArePrintable 6 tail digits d))

pub with_tail-some :
    (base extension : List ℕ) (tail : ℕ) → tail < 1000000 → with_tail base extension tail ≢ none
unfolding with_tail
with_tail-some base extension tail small = elim (Option-cases (digits_of 6 tail)) [
  | inl e ↦ absurd (digits_of-some tail small e)
  | inr (digits, e) ↦ rw e (λ h. cc)
]

module _ (u : Unicode) (codepage : Codepage) where
  fill_field-IsName :
      (field : List ℕ) (at : ℕ) (raw after : List ℕ)
      → fill_field u codepage field at raw ≡ some after
      → IsName raw
      → IsName after
  unfolding fill_field
  fill_field-IsName [] at raw after h k = let same : raw ≡ after = cc in rw (← same) k
  fill_field-IsName (c ∷ cs) at raw after h k =
      let (character, e, h1) = >>=-some (upper u c) _ after h in
      let (b, e', h2) = >>=-some (codepage.encode character) _ after h1 in
      elim (Bool-cases (is_valid_short_name_byte b)) [
        | inl valid ↦
            let h3 : fill_field u codepage cs (at + 1) (set raw at b) ≡ some after =
              rw valid at h2 in
            fill_field-IsName cs (at + 1) (set raw at b) after h3
              (set-IsName raw at b k (valid-printable b valid))
        | inr invalid ↦ let h3 : none ≡ some after = rw invalid at h2 in cc
      ]

  valid_or_underscore-printable : (o : Option ℕ) → 0x20 ≤ valid_or_underscore u codepage o
  valid_or_underscore-printable none = omega arith
  valid_or_underscore-printable (some b) = elim (Bool-cases (is_valid_short_name_byte b)) [
    | inl valid ↦ rw valid (valid-printable b valid)
    | inr invalid ↦ rw invalid (omega arith)
  ]

  mangled_byte-printable : (c : ℕ) → 0x20 ≤ mangled_byte u codepage c
  unfolding mangled_byte
  mangled_byte-printable c = valid_or_underscore-printable (upper u c >>= codepage.encode)

  mangle_onto-ArePrintable :
      (field : List ℕ) (limit : ℕ) (out : List ℕ)
      → ArePrintable out
      → ArePrintable (mangle_onto u codepage field limit out)
  unfolding mangle_onto
  mangle_onto-ArePrintable [] limit out h = h
  mangle_onto-ArePrintable (c ∷ cs) limit out h = elim (Bool-cases (length out == limit)) [
    | inl full ↦ rw full h
    | inr room ↦ rw room (elim (Bool-cases ((c == dot) || (c == space))) [
      | inl skip ↦ rw skip (mangle_onto-ArePrintable cs limit out h)
      | inr keep ↦ rw keep (
          mangle_onto-ArePrintable cs limit (out ++ mangled_byte u codepage c ∷ []) (
            All-append (λ b. 0x20 ≤ b) out (mangled_byte u codepage c ∷ []) h
              (mangled_byte-printable c, tt)))
    ])
  ]

  direct_of-IsName :
      (base extension : List ℕ) (direct : Direct)
      → direct_of u codepage base extension ≡ some direct
      → IsName direct.raw
  unfolding direct_of
  direct_of-IsName base extension direct h =
      elim (Bool-cases (same_text base [] || ltb 8 (length base) || ltb 3 (length extension))) [
        | inl refused ↦ let h' : none ≡ some direct = rw (refused, direct_of) at h in cc
        | inr fits ↦
            let (raw, e, h1) =
              >>=-some (fill_field u codepage base 0 (replicate 11 space)) _ direct
                (rw (fits, direct_of) at h) in
            let (raw', e', h2) = >>=-some (fill_field u codepage extension 8 raw) _ direct h1 in
            let same : raw' ≡ direct.raw = cc in
            rw (← same) (
              fill_field-IsName extension 8 raw raw' e'
                (fill_field-IsName base 0 (replicate 11 space) raw e blank-IsName))
      ]

  pub direct_8_3-IsName :
      (name : List ℕ) (direct : Direct)
      → direct_8_3 u codepage name ≡ some direct
      → IsName direct.raw
  unfolding direct_8_3
  direct_8_3-IsName name direct h =
      direct_of-IsName (base_and_extension name).0 (base_and_extension name).1 direct h

  pub basis_name-ArePrintable :
      (name : List ℕ)
      → ArePrintable (basis_name u codepage name).0 × ArePrintable (basis_name u codepage name).1
  unfolding basis_name mangle
  basis_name-ArePrintable name = (
    mangle_onto-ArePrintable (base_and_extension (trim_start u codepage name)).0 8 [] tt,
    mangle_onto-ArePrintable (base_and_extension (trim_start u codepage name)).1 3 [] tt,
  )
