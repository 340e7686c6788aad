-- ===== src/Name/Slots.antt =====
-- The bytes of a long-name slot (src/name.rs), as the code that reads slots (src/dir.rs) takes
-- them.
use Prim.Native.Nat.{bit_or}
use resident_fat.Prelude.{
  Option-cases, ℕ, zero, suc, ◌+◌, ◌-◌, ◌*◌, ◌/◌, ◌%◌, ◌^◌, ◌<◌, ◌≡◌, ◌≢◌, ◌⊎◌, refl, ap, ◌∙◌, true,
  false, some, List, [], ◌∷◌, get_elem?, All, arith, Bool-cases, ==_iff, inl, inr, ◌==◌,
  if◌then◌else◌,
}
use resident_fat.Words.Bits.{bit_or-sixth, bit_or-zero}
use resident_fat.Words.{u8}
use resident_fat.Bytes.{byte}
use resident_fat.Dir.{long_name_attributes}
use resident_fat.Dir.LongName.{slot_chars, sequence_of, is_last_slot}
use resident_fat.Name.{unit_at, make_slot}

abbrev pub AreUnits : List ℕ → Type 0
AreUnits units = All (λ u. u < 2 ^ 16) units

-- so many units of the padded name
abbrev pub units_from : List ℕ → ℕ → ℕ → List ℕ
units_from units from zero = []
units_from units from (suc k) = unit_at units from ∷ units_from units (from + 1) k

abbrev spread : List ℕ → ℕ → ℕ → ℕ → List ℕ
spread units from n zero = []
spread units from n (suc k) = unit_at units (from + n) ∷ spread units from (n + 1) k

spread-eq : (units : List ℕ) (from n k : ℕ) → spread units from n k ≡ units_from units (from + n) k
spread-eq units from n zero = refl
spread-eq units from n (suc k) =
    let e : from + (n + 1) ≡ from + n + 1 = omega arith in
    ap (λ l. unit_at units (from + n) ∷ l) (rw (← e) (spread-eq units from (n + 1) k))

get_elem?-lt :
    (units : List ℕ) (at : ℕ) {u : ℕ} → AreUnits units → get_elem? units at ≡ some u → u < 2 ^ 16
get_elem?-lt [] at h e = cc
get_elem?-lt (x ∷ xs) zero h e = ground arith
get_elem?-lt (x ∷ xs) (suc at) h e = get_elem?-lt xs at h.1 e

unit_at-lt : (units : List ℕ) (at : ℕ) → AreUnits units → unit_at units at < 2 ^ 16
unfolding unit_at
unit_at-lt units at h = elim (Option-cases (get_elem? units at)) [
  | inl e ↦ rw (e, unit_at) (ground arith)
  | inr (u, e) ↦ rw (e, unit_at) (get_elem?-lt units at h e)
]

module _ (units : List ℕ) (checksum count sequence : ℕ) where
  pub slot_chars-make_slot :
      AreUnits units
      → slot_chars (make_slot units checksum count sequence)
        ≡ units_from units ((sequence - 1) * 13) 13
  unfolding slot_chars make_slot
  slot_chars-make_slot h =
      let from = (sequence - 1) * 13 in
      let whole : (at : ℕ)
          → unit_at units at % 2 ^ 8 + unit_at units at / 2 ^ 8 % 2 ^ 8 * 2 ^ 8 ≡ unit_at units at =
        λ at. omega (arith, unit_at-lt units at h) in
      let start : from + 0 ≡ from = omega arith in simp whole (spread-eq units from 0 13 ∙ rw start)

  pub checksum-make_slot : byte (make_slot units checksum count sequence) 0x0D ≡ checksum
  unfolding make_slot
  checksum-make_slot = refl

  first_byte :
      byte (make_slot units checksum count sequence) 0
      ≡ bit_or (u8 sequence) (if sequence == count then 0x40 else 0)
  unfolding make_slot
  first_byte = refl

  -- the first byte of the slot that is written first, and of the others
  first_byte-last :
      sequence < 64
      → sequence ≡ count
      → byte (make_slot units checksum count sequence) 0 ≡ sequence + 64
  first_byte-last h e =
      let same : (sequence == count) ≡ true = ground arith in
      let word : u8 sequence ≡ sequence = omega arith in
      first_byte ∙ rw (same, word) (bit_or-sixth sequence h)

  first_byte-other :
      sequence < 64 → sequence ≢ count → byte (make_slot units checksum count sequence) 0 ≡ sequence
  first_byte-other h e =
      let other : (sequence == count) ≡ false = ground arith in
      let word : u8 sequence ≡ sequence = omega arith in
      first_byte ∙ rw (other, word) (bit_or-zero sequence)

  -- the first byte, whichever slot it is
  pub first_byte-make_slot :
      sequence < 64
      → (byte (make_slot units checksum count sequence) 0 ≡ sequence + 64)
        ⊎ (byte (make_slot units checksum count sequence) 0 ≡ sequence)
  first_byte-make_slot h = elim (Bool-cases (sequence == count)) [
    | inl e ↦ inl (first_byte-last h ((==_iff _ _).0 e))
    | inr e ↦ inr (first_byte-other h (ground arith))
  ]

  pub attributes-make_slot :
      byte (make_slot units checksum count sequence) 0x0B ≡ long_name_attributes
  unfolding make_slot
  attributes-make_slot = refl

  pub sequence_of-make_slot :
      sequence < 64 → sequence_of (make_slot units checksum count sequence) ≡ sequence
  sequence_of-make_slot h = elim (Bool-cases (sequence == count)) [
    | inl e ↦ let b = first_byte-last h ((==_iff _ _).0 e) in omega (arith, b)
    | inr e ↦ let b = first_byte-other h (ground arith) in omega (arith, b)
  ]

  pub is_last_slot-make_slot :
      sequence < 64 → is_last_slot (make_slot units checksum count sequence) ≡ (sequence == count)
  is_last_slot-make_slot h = elim (Bool-cases (sequence == count)) [
    | inl e ↦ rw e (ground (arith, first_byte-last h ((==_iff _ _).0 e)))
    | inr e ↦
        rw e (let ne : sequence ≢ count = ground arith in ground (arith, first_byte-other h ne))
  ]
