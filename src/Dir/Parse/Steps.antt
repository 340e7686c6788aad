-- ===== src/Dir/Parse/Steps.antt =====
-- The rounds of the scan of src/dir.rs, one after the other.
use resident_fat.Prelude.{ℕ, ◌+◌, ◌≡◌, refl, List, ◌∷◌}
use resident_fat.Words.{u32}
use resident_fat.Text.{Unicode}
use resident_fat.Codepage.{Codepage}
use resident_fat.Dir.Parse.{
  Outcome, parsed, entry_after_end, panicked, ◌and_then◌, Scan, at_start, scan_slot, scan_slots,
  Directory, directory_of, slots_of, parse_directory,
}

and_then-parsed {ℓ κ} :
    {A : Type ℓ} {B : Type κ} (o : Outcome A) (f : A → Outcome B) (b : B)
    → (o and_then f) ≡ parsed b
    → (a : A) × (o ≡ parsed a) × (f a ≡ parsed b)
and_then-parsed (parsed a) f b h = (a, refl, h)
and_then-parsed (entry_after_end n) f b h = cc
and_then-parsed panicked f b h = cc

module _ (u : Unicode) (codepage : Codepage) where
  pub scan_slots-parsed :
      (slot : List ℕ) (slots : List (List ℕ)) (n : ℕ) (s after : Scan)
      → scan_slots u codepage (slot ∷ slots) n s ≡ parsed after
      → (next : Scan) × (scan_slot u codepage slot (u32 n) s ≡ parsed next)
        × (scan_slots u codepage slots (n + 1) next ≡ parsed after)
  unfolding scan_slots
  scan_slots-parsed slot slots n s after h =
      and_then-parsed (scan_slot u codepage slot (u32 n) s) (scan_slots u codepage slots (n + 1))
        after h

  pub parse_directory-parsed :
      (data_bytes : List ℕ) (d : Directory)
      → parse_directory u codepage data_bytes ≡ parsed d
      → (s : Scan) × (scan_slots u codepage (slots_of data_bytes) 0 at_start ≡ parsed s)
        × (parsed (directory_of u codepage s) ≡ parsed d)
  unfolding parse_directory
  parse_directory-parsed data_bytes d h =
      and_then-parsed (scan_slots u codepage (slots_of data_bytes) 0 at_start)
        (λ s. parsed (directory_of u codepage s)) d h
