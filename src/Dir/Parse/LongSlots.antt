-- ===== src/Dir/Parse/LongSlots.antt =====
-- The rounds of the scan of src/dir.rs over the long-name slots that src/name.rs writes.
use resident_fat.Prelude.{
  ℕ, zero, suc, ◌+◌, ◌/◌, ◌^◌, ◌≤◌, ◌<◌, ◌≡◌, inl, inr, refl, ap, ◌∙◌, true, false, Option, none,
  some, List, [], ◌∷◌, ◌++◌, length, All, arith, Option-cases, ◌==◌,
}
use resident_fat.Words.{u32}
use resident_fat.Bytes.{byte}
use resident_fat.Text.{Unicode}
use resident_fat.Codepage.{Codepage}
use resident_fat.Dir.{end_of_directory, deleted_mark}
use resident_fat.Dir.ShortName.{is_long_name, is_volume_id}
use resident_fat.Dir.LongName.{PendingLongName, absorb_long_name_slot}
use resident_fat.Name.{make_slot, slots_down, long_name_slots}
use resident_fat.Name.Slots.{first_byte-make_slot, attributes-make_slot}
use resident_fat.Name.RoundTrip.{absorb_all}
use resident_fat.Dir.Parse.{
  Outcome, parsed, entry_after_end, panicked, ◌and_then◌, Scan, get_or_insert, push_entry,
  scan_slot, scan_slots,
}

abbrev pub IsLongSlot : List ℕ → Type 0
IsLongSlot slot =
    ((byte slot 0 == end_of_directory) ≡ false)
    × ((byte slot 0 == deleted_mark) ≡ false)
    × (is_long_name (byte slot 0x0B) ≡ true)

-- where the run of slots begins
abbrev pub run_start : Option ℕ → ℕ → List (List ℕ) → Option ℕ
run_start old n [] = old
run_start old n (slot ∷ slots) = get_or_insert old (u32 n)

run_start-some :
    (n m : ℕ) (old : Option ℕ) (slots : List (List ℕ))
    → run_start (get_or_insert old n) m slots ≡ get_or_insert old n
run_start-some n m none [] = refl
run_start-some n m none (slot ∷ slots) = refl
run_start-some n m (some at) [] = refl
run_start-some n m (some at) (slot ∷ slots) = refl

absorb_all-some :
    (slot : List ℕ) (slots : List (List ℕ)) (pending after : Option PendingLongName)
    → absorb_all (slot ∷ slots) pending ≡ some after
    → (next : Option PendingLongName) × (absorb_long_name_slot slot pending ≡ some next)
      × (absorb_all slots next ≡ some after)
unfolding absorb_all
absorb_all-some slot slots pending after h =
    elim (Option-cases (absorb_long_name_slot slot pending)) [
      | inl e ↦ let h' : none ≡ some after = rw e at h in cc
      | inr (next, e) ↦ (next, e, rw e at h)
    ]

and_then-after {ℓ} :
    {A : Type ℓ} (o : Outcome A) (f g h : A → Outcome A)
    → ((a : A) → f a ≡ (g a and_then h))
    → (o and_then f) ≡ ((o and_then g) and_then h)
and_then-after (parsed a) f g h e = e a
and_then-after (entry_after_end n) f g h e = refl
and_then-after panicked f g h e = refl

and_then-parsed {ℓ} : {A : Type ℓ} (o : Outcome A) → (o and_then parsed) ≡ o
and_then-parsed (parsed a) = refl
and_then-parsed (entry_after_end n) = refl
and_then-parsed panicked = refl

module _ (u : Unicode) (codepage : Codepage) where
  scan_slot-long :
      (slot : List ℕ) (index : ℕ) (s : Scan) (next : Option PendingLongName)
      → IsLongSlot slot
      → s.ended ≡ false
      → absorb_long_name_slot slot s.pending ≡ some next
      → scan_slot u codepage slot index s
        ≡ parsed (record s { pending = next; long_run = get_or_insert s.long_run index })
  unfolding scan_slot
  scan_slot-long slot index s next (in_use, kept, long) going h = ground (arith, h)

  pub scan_slots-absorb_all :
      (slots : List (List ℕ)) (n : ℕ) (s : Scan) (after : Option PendingLongName)
      → All IsLongSlot slots
      → s.ended ≡ false
      → absorb_all slots s.pending ≡ some after
      → scan_slots u codepage slots n s
        ≡ parsed (record s { pending = after; long_run = run_start s.long_run n slots })
  unfolding scan_slots absorb_all
  scan_slots-absorb_all [] n s after long going h =
      let h' : s.pending ≡ after = cc in rw (← h') refl
  scan_slots-absorb_all (slot ∷ slots) n s after long going h =
      let (next, e, rest) = absorb_all-some slot slots s.pending after h in
      rw (scan_slot-long slot (u32 n) s next long.0 going e) (
        scan_slots-absorb_all slots (n + 1)
          (record s { pending = next; long_run = get_or_insert s.long_run (u32 n) }) after long.1
          going rest
        ∙ rw (run_start-some (u32 n) (n + 1) s.long_run slots) refl)

  pub scan_slots-append :
      (xs ys : List (List ℕ)) (n : ℕ) (s : Scan)
      → scan_slots u codepage (xs ++ ys) n s
        ≡ (scan_slots u codepage xs n s and_then scan_slots u codepage ys (n + length xs))
  unfolding scan_slots
  scan_slots-append [] ys n s = let e : n + 0 ≡ n = omega arith in rw e
  scan_slots-append (x ∷ xs) ys n s =
      let e : n + suc (length xs) ≡ n + 1 + length xs = omega arith in
      rw e (
        and_then-after (scan_slot u codepage x (u32 n) s) (scan_slots u codepage (xs ++ ys) (n + 1))
          (scan_slots u codepage xs (n + 1)) (scan_slots u codepage ys (n + 1 + length xs))
          (scan_slots-append xs ys (n + 1)))

  -- the slot of a short-name entry that is listed
  pub scan_slot-short :
      (slot : List ℕ) (index : ℕ) (s : Scan)
      → (byte slot 0 == end_of_directory) ≡ false
      → (byte slot 0 == deleted_mark) ≡ false
      → is_long_name (byte slot 0x0B) ≡ false
      → is_volume_id (byte slot 0x0B) ≡ false
      → s.ended ≡ false
      → scan_slot u codepage slot index s ≡ parsed (push_entry u codepage slot index s)
  unfolding scan_slot
  scan_slot-short slot index s in_use kept short file going =
      rw (in_use, kept, short, file, going) refl

  pub scan_slots-one :
      (slot : List ℕ) (n : ℕ) (s : Scan)
      → scan_slots u codepage (slot ∷ []) n s ≡ scan_slot u codepage slot (u32 n) s
  unfolding scan_slots
  scan_slots-one slot n s = and_then-parsed (scan_slot u codepage slot (u32 n) s)

make_slot-IsLongSlot :
    (units : List ℕ) (sum count sequence : ℕ)
    → 1 ≤ sequence
    → sequence ≤ 20
    → IsLongSlot (make_slot units sum count sequence)
unfolding is_long_name
make_slot-IsLongSlot units sum count sequence some_part small =
    let first = first_byte-make_slot units sum count sequence (omega arith) in
    (
      ground (arith, first),
      ground (arith, first),
      rw (attributes-make_slot units sum count sequence) refl,
    )

slots_down-AreLongSlots :
    (units : List ℕ) (sum count s : ℕ) → s ≤ 20 → All IsLongSlot (slots_down units sum count s)
unfolding slots_down
slots_down-AreLongSlots units sum count zero h = tt
slots_down-AreLongSlots units sum count (suc s) h = (
  make_slot-IsLongSlot units sum count (suc s) (omega arith) h,
  slots_down-AreLongSlots units sum count s (omega arith),
)

length-slots_down : (units : List ℕ) (sum count s : ℕ) → length (slots_down units sum count s) ≡ s
unfolding slots_down
length-slots_down units sum count zero = refl
length-slots_down units sum count (suc s) = ap suc (length-slots_down units sum count s)

pub long_name_slots-AreLongSlots :
    (units : List ℕ) (sum : ℕ) → length units ≤ 255 → All IsLongSlot (long_name_slots units sum)
unfolding long_name_slots
long_name_slots-AreLongSlots units sum h =
    slots_down-AreLongSlots units sum ((length units + 12) / 13) ((length units + 12) / 13)
      (omega arith)

pub length-long_name_slots :
    (units : List ℕ) (sum : ℕ) → length (long_name_slots units sum) ≡ (length units + 12) / 13
unfolding long_name_slots
length-long_name_slots units sum =
    length-slots_down units sum ((length units + 12) / 13) ((length units + 12) / 13)

pub run_start-none :
    (n : ℕ) (old : Option ℕ) (slots : List (List ℕ))
    → old ≡ none
    → n < 2 ^ 32
    → 1 ≤ length slots
    → run_start old n slots ≡ some n
run_start-none n old [] e small h = absurd (omega arith)
run_start-none n old (slot ∷ slots) e small h =
    let here : u32 n ≡ n = omega arith in rw (e, here) refl
