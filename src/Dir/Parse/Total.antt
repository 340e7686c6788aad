-- ===== src/Dir/Parse/Total.antt =====
-- The parse of src/dir.rs writes nowhere outside of the characters of a long name, and refuses a
-- directory only for an entry after its end.
use resident_fat.Prelude.{
  length-take, ℕ, ◌+◌, ◌-◌, ◌*◌, ◌^◌, ◌≤◌, ◌≡◌, ◌≢◌, ◌⊎◌, inl, inr, refl, ap, ◌∙◌, Bool, true,
  false, ◌||◌, Option, none, some, List, [], ◌∷◌, ◌++◌, length, take, drop, length-append,
  length-replicate, arith, Bool-cases, Option-cases, ◌==◌, ltb, if◌then◌else◌,
}
use resident_fat.Words.{u32}
use resident_fat.Bytes.{byte}
use resident_fat.Text.{Unicode}
use resident_fat.Codepage.{Codepage}
use resident_fat.Dir.{end_of_directory}
use resident_fat.Dir.LongName.{
  PendingLongName, new_pending, slot_chars, splice, absorb, sequence_of, is_last_slot, follows_on,
  run_of, absorb_into, absorb_long_name_slot,
}
use resident_fat.Dir.Parse.Free.{is_unused}
use resident_fat.Dir.Parse.{
  Outcome, parsed, entry_after_end, panicked, ◌and_then◌, Scan, at_start, push_entry, scan_slot,
  scan_slots, directory_of, slots_of, parse_directory,
}

-- The characters have room for the parts that are to come.
abbrev HasRoom : Option PendingLongName → Type 0
HasRoom none = Unit
HasRoom (some run) = run.expected * 13 ≤ length run.chars

splice-some :
    (chars : List ℕ) (at : ℕ) (part : List ℕ)
    → at + length part ≤ length chars
    → (after : List ℕ) × (splice chars at part ≡ some after) × (at ≤ length after)
unfolding splice
splice-some chars at part h =
    let room : ltb (length chars) (at + length part) ≡ false = ground arith in
    (
      take at chars ++ part ++ drop (at + length part) chars,
      rw room refl,
      omega (
        arith,
        length-append (take at chars ++ part) (drop (at + length part) chars),
        length-append (take at chars) part,
        length-take at chars,
      ),
    )

absorb-HasRoom :
    (sequence : ℕ) (entry : List ℕ) (run : PendingLongName)
    → sequence ≢ 0
    → run.expected ≡ sequence
    → HasRoom (some run)
    → (after : PendingLongName) × (absorb sequence entry run ≡ some after) × HasRoom (some after)
unfolding absorb slot_chars
absorb-HasRoom sequence entry run positive same room =
    let (chars, placed, fits) =
      splice-some run.chars ((sequence - 1) * 13) (slot_chars entry) (omega arith) in
    (record run { chars = chars; expected = sequence - 1 }, rw (placed, absorb) refl, fits)

-- a run that the part of the slot can be absorbed into
abbrev Awaits : List ℕ → PendingLongName → Type 0
Awaits entry run = (run.expected ≡ sequence_of entry) × (sequence_of entry ≢ 0) × HasRoom (some run)

followed :
    (sequence checksum : ℕ) (pending : Option PendingLongName) (run : PendingLongName)
    → follows_on sequence checksum pending ≡ true
    → pending ≡ some run
    → (run.expected ≡ sequence) × (sequence ≢ 0)
followed sequence checksum none run h e = cc
followed sequence checksum (some r) run h e = let same : r ≡ run = cc in rw (← same) (ground arith)

run_of-Awaits :
    (entry : List ℕ) (pending : Option PendingLongName) (run : PendingLongName)
    → HasRoom pending
    → run_of entry pending ≡ some run
    → Awaits entry run
unfolding run_of new_pending
run_of-Awaits entry pending run room h = elim (Bool-cases (is_last_slot entry)) [
  | inl last ↦ elim (Bool-cases ((sequence_of entry == 0) || ltb 20 (sequence_of entry))) [
    | inl e ↦ let h' : none ≡ some run = rw (last, e, run_of) at h in cc
    | inr e ↦
        let h' : some (new_pending (sequence_of entry) (byte entry 0x0D)) ≡ some run =
          rw (last, e, run_of) at h in
        let same : new_pending (sequence_of entry) (byte entry 0x0D) ≡ run = cc in
        rw (← same)
          (refl, ground arith, omega (arith, length-replicate {A = ℕ} (sequence_of entry * 13) 0))
  ]
  | inr other ↦ elim (Bool-cases (follows_on (sequence_of entry) (byte entry 0x0D) pending)) [
    | inl e ↦
        let h' : pending ≡ some run = rw (other, e, run_of) at h in
        let f = followed (sequence_of entry) (byte entry 0x0D) pending run e h' in
        (f.0, f.1, rw h' at room)
    | inr e ↦ let h' : none ≡ some run = rw (other, e, run_of) at h in cc
  ]
]

absorb_long_name_slot-HasRoom :
    (entry : List ℕ) (pending : Option PendingLongName)
    → HasRoom pending
    → (after : Option PendingLongName) × (absorb_long_name_slot entry pending ≡ some after)
      × HasRoom after
unfolding absorb_long_name_slot
absorb_long_name_slot-HasRoom entry pending room = elim (Option-cases (run_of entry pending)) [
  | inl e ↦ (none, rw e refl, tt)
  | inr (run, e) ↦
      let (same, positive, fits) = run_of-Awaits entry pending run room e in
      let (after, absorbed, left) =
        absorb-HasRoom (sequence_of entry) entry run positive same fits in
      (some after, rw (e, absorbed, absorb_into) refl, left)
]

-- the first slot in use, from a place on
abbrev pub first_used : List (List ℕ) → ℕ → Option ℕ
first_used [] n = none
first_used (slot ∷ slots) n = if is_unused slot then first_used slots (n + 1) else some n

-- the first slot in use after the first end mark
abbrev pub first_past_end : List (List ℕ) → ℕ → Option ℕ
first_past_end [] n = none
first_past_end (slot ∷ slots) n =
    if byte slot 0 == end_of_directory
    then first_used slots (n + 1)
    else first_past_end slots (n + 1)

-- the parse succeeds, or refuses a slot
abbrev pub Settles {ℓ} : {A : Type ℓ} → Option ℕ → Outcome A → Type ℓ
Settles {A = A} none o = (a : A) × (o ≡ parsed a)
Settles (some index) o = o ≡ entry_after_end index

Outcome-cases {ℓ} :
    {A : Type ℓ} (o : Outcome A)
    → ((a : A) × (o ≡ parsed a)) ⊎ (((n : ℕ) × (o ≡ entry_after_end n)) ⊎ (o ≡ panicked))
Outcome-cases (parsed a) = inl (a, refl)
Outcome-cases (entry_after_end n) = inr (inl (n, refl))
Outcome-cases panicked = inr (inr refl)

and_then-Settles {ℓ κ} :
    {A : Type ℓ} {B : Type κ} (verdict : Option ℕ) (o : Outcome A) (f : A → B)
    → Settles verdict o
    → Settles verdict (o and_then (λ a. parsed (f a)))
and_then-Settles none o f (a, e) = (f a, rw (e, ◌and_then◌) refl)
and_then-Settles (some index) o f e = rw (e, ◌and_then◌) refl

module _ (u : Unicode) (codepage : Codepage) where
  scan_slot-parsed :
      (slot : List ℕ) (index : ℕ) (s after : Scan)
      → HasRoom s.pending
      → scan_slot u codepage slot index s ≡ parsed after
      → HasRoom after.pending
        × (after.ended ≡ ((byte slot 0 == end_of_directory) || s.ended))
        × ((s.ended ≡ false) ⊎ (is_unused slot ≡ true))
  unfolding scan_slot push_entry
  scan_slot-parsed slot index s after room h =
      let (pending, absorbed, left) = absorb_long_name_slot-HasRoom slot s.pending room in
      ground (arith, absorbed, left)

  scan_slot-refused :
      (slot : List ℕ) (index : ℕ) (s : Scan) (at : ℕ)
      → scan_slot u codepage slot index s ≡ entry_after_end at
      → (at ≡ index) × (s.ended ≡ true) × (is_unused slot ≡ false)
  unfolding scan_slot push_entry
  scan_slot-refused slot index s at h = ground arith

  scan_slot-panicked :
      (slot : List ℕ) (index : ℕ) (s : Scan)
      → HasRoom s.pending
      → scan_slot u codepage slot index s ≢ panicked
  unfolding scan_slot push_entry
  scan_slot-panicked slot index s room h =
      let (pending, absorbed, left) = absorb_long_name_slot-HasRoom slot s.pending room in
      ground (arith, absorbed)

  -- the verdict on the slots from a place on
  abbrev verdict : Bool → List (List ℕ) → ℕ → Option ℕ
  verdict ended slots n = if ended then first_used slots n else first_past_end slots n

  verdict-nil : (n : ℕ) (ended : Bool) → verdict ended [] n ≡ none
  verdict-nil n true = refl
  verdict-nil n false = refl

  -- the verdict at a slot that the scan goes over
  verdict-cons :
      (slot : List ℕ) (slots : List (List ℕ)) (n : ℕ) (ended : Bool)
      → (ended ≡ false) ⊎ (is_unused slot ≡ true)
      → verdict ended (slot ∷ slots) n
        ≡ verdict ((byte slot 0 == end_of_directory) || ended) slots (n + 1)
  verdict-cons slot slots n true h = ground arith
  verdict-cons slot slots n false h = ground arith

  scan_slots-Settles :
      (slots : List (List ℕ)) (n : ℕ) (s : Scan)
      → n + length slots ≤ 2 ^ 32
      → HasRoom s.pending
      → Settles (verdict s.ended slots n) (scan_slots u codepage slots n s)
  unfolding scan_slots
  scan_slots-Settles [] n s small room = rw (verdict-nil n s.ended) (s, refl)
  scan_slots-Settles (slot ∷ slots) n s small room =
      let here : u32 n ≡ n = omega arith in
      elim (Outcome-cases (scan_slot u codepage slot (u32 n) s)) [
        | inl (after, e) ↦
            let (room', ended, goes_on) = scan_slot-parsed slot (u32 n) s after room e in
            rw (verdict-cons slot slots n s.ended goes_on, e, ← ended)
              (scan_slots-Settles slots (n + 1) after (omega arith) room')
        | inr (inl (at, e)) ↦
            let (same, ended, used) = scan_slot-refused slot (u32 n) s at e in
            rw (e, ended, used) (ap entry_after_end (same ∙ here))
        | inr (inr e) ↦ absurd (scan_slot-panicked slot (u32 n) s room e)
      ]

  -- A directory of at most 2 ^ 32 slots is refused exactly for the first slot in use after the
  -- first end mark, and parsed when there is none: no long-name slot makes the parse panic.
  pub parse_directory-Settles :
      (data_bytes : List ℕ)
      → length (slots_of data_bytes) ≤ 2 ^ 32
      → Settles (first_past_end (slots_of data_bytes) 0) (parse_directory u codepage data_bytes)
  unfolding parse_directory
  parse_directory-Settles data_bytes small =
      and_then-Settles (first_past_end (slots_of data_bytes) 0)
        (scan_slots u codepage (slots_of data_bytes) 0 at_start) (directory_of u codepage)
        (scan_slots-Settles (slots_of data_bytes) 0 at_start (omega arith) tt)
