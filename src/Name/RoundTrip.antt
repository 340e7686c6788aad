-- ===== src/Name/RoundTrip.antt =====
-- A long name written to slots (src/name.rs) and read from them (src/dir.rs).
use resident_fat.Prelude.{
  ℕ, zero, suc, ◌+◌, ◌-◌, ◌*◌, ◌/◌, ◌≤◌, ◌≡◌, refl, sym, ap, ◌∙◌, ◌⊎◌, ◌||◌, ==_iff, true, false,
  not, Option, none, some, List, [], ◌∷◌, ◌++◌, append-nil, append_assoc, length, take, replicate,
  length-replicate, arith, Bool-cases, Option-cases, subst, inl, inr, ◌==◌, if◌then◌else◌, ltb,
  get_elem?,
}
use resident_fat.Bytes.{◌>>=◌}
use resident_fat.Dir.LongName.{
  PendingLongName, new_pending, splice, absorb, run_of, absorb_into, absorb_long_name_slot, finish,
  end_of_chars, named, slot_chars, sequence_of, follows_on,
}
use resident_fat.Name.{unit_at, make_slot, slots_down, long_name_slots}
use resident_fat.Name.Slots.{
  AreUnits, units_from, slot_chars-make_slot, checksum-make_slot, sequence_of-make_slot,
  is_last_slot-make_slot,
}
use resident_fat.Name.Splice.{splice-append, replicate-add, units_from-add, length-units_from}

-- slots absorbed in the order in which they are stored
unfoldable pub absorb_all : List (List ℕ) → Option PendingLongName → Option (Option PendingLongName)
absorb_all [] pending = some pending
absorb_all (e ∷ es) pending = absorb_long_name_slot e pending >>= absorb_all es

absorb-some :
    (sequence : ℕ) (entry chars : List ℕ) (p : PendingLongName)
    → splice p.chars ((sequence - 1) * 13) (slot_chars entry) ≡ some chars
    → absorb sequence entry p ≡ some (record p { chars = chars; expected = sequence - 1 })
unfolding absorb
absorb-some sequence entry chars p h = rw (h, absorb)

absorb_into-some :
    (entry : List ℕ) (run after : PendingLongName)
    → absorb (sequence_of entry) entry run ≡ some after
    → absorb_into entry (some run) ≡ some (some after)
absorb_into-some entry run after h = rw (h, absorb_into)

module _ (units : List ℕ) (checksum count : ℕ) (fits : AreUnits units) where
  -- the characters when the parts above `s` have been absorbed
  abbrev chars_of : ℕ → List ℕ
  chars_of s = replicate (s * 13) 0 ++ units_from units (s * 13) ((count - s) * 13)

  abbrev pending_at : ℕ → PendingLongName
  pending_at s = record { chars = chars_of s; expected = s; checksum = checksum }

  chars_of-suc :
      (s : ℕ)
      → chars_of (suc s)
        ≡ replicate (s * 13) 0
          ++ (replicate 13 0 ++ units_from units (suc s * 13) ((count - suc s) * 13))
  chars_of-suc s =
      let e : suc s * 13 ≡ s * 13 + 13 = omega arith in
      ap (λ l. l ++ units_from units (suc s * 13) ((count - suc s) * 13))
        (ap (λ n. replicate {A = ℕ} n 0) e ∙ replicate-add (s * 13) 13)
      ∙ append_assoc (replicate (s * 13) 0) (replicate 13 0)
          (units_from units (suc s * 13) ((count - suc s) * 13))

  chars_of-pred :
      (s : ℕ)
      → suc s ≤ count
      → chars_of s
        ≡ replicate (s * 13) 0
          ++ (units_from units (s * 13) 13 ++ units_from units (suc s * 13) ((count - suc s) * 13))
  chars_of-pred s h =
      let e : (count - s) * 13 ≡ 13 + (count - suc s) * 13 = omega arith in
      let e' : s * 13 + 13 ≡ suc s * 13 = omega arith in
      ap (λ l. replicate (s * 13) 0 ++ l)
        (ap (λ n. units_from units (s * 13) n) e
          ∙ units_from-add units (s * 13) 13 ((count - suc s) * 13)
          ∙ ap (λ n. units_from units (s * 13) 13 ++ units_from units n ((count - suc s) * 13)) e')

  absorbed :
      (s : ℕ)
      → suc s ≤ count
      → absorb (suc s) (make_slot units checksum count (suc s)) (pending_at (suc s))
        ≡ some (pending_at s)
  absorbed s h =
      let back : suc s - 1 ≡ s = omega arith in
      let start : (suc s - 1) * 13 ≡ s * 13 = omega arith in
      let part : slot_chars (make_slot units checksum count (suc s))
          ≡ units_from units (s * 13) 13 =
        slot_chars-make_slot units checksum count (suc s) fits
        ∙ ap (λ n. units_from units n 13) start in
      let rest = units_from units (suc s * 13) ((count - suc s) * 13) in
      let placed : splice (chars_of (suc s)) ((suc s - 1) * 13)
            (slot_chars (make_slot units checksum count (suc s)))
          ≡ some (chars_of s) =
        rw (part, chars_of-suc s, chars_of-pred s h)
          (splice-append (replicate (s * 13) 0) (replicate 13 0) rest (units_from units (s * 13) 13)
            ((suc s - 1) * 13) (omega (arith, length-replicate {A = ℕ} (s * 13) 0))
            (length-units_from units (s * 13) 13)) in
      absorb-some (suc s) (make_slot units checksum count (suc s)) (chars_of s) (pending_at (suc s))
        placed
      ∙ rw back

  full : pending_at count ≡ new_pending count checksum
  unfolding new_pending
  full =
      let none_left : (count - count) * 13 ≡ 0 = omega arith in
      rw (none_left, append-nil (replicate {A = ℕ} (count * 13) 0))

  -- The run that the slot of part `suc s` goes on with, or begins.
  run_of-pending_at :
      (s : ℕ) (pending : Option PendingLongName)
      → suc s ≤ count
      → count ≤ 20
      → (suc s ≡ count) ⊎ (pending ≡ some (pending_at (suc s)))
      → run_of (make_slot units checksum count (suc s)) pending ≡ some (pending_at (suc s))
  unfolding run_of
  run_of-pending_at s pending h small goes_on =
      let sequence = sequence_of-make_slot units checksum count (suc s) (omega arith) in
      let last = is_last_slot-make_slot units checksum count (suc s) (omega arith) in
      let sum = checksum-make_slot units checksum count (suc s) in
      elim (Bool-cases (suc s == count)) [
        | inl e ↦
            let at_end : suc s ≡ count = (==_iff _ _).0 e in
            let same : (count == count) ≡ true = ground arith in
            let allowed : (count == 0) || ltb 20 count ≡ false = ground arith in
            rw (last, sequence, sum, at_end) (rw (same, allowed) (ap some (sym full)))
        | inr e ↦
            let p : pending ≡ some (pending_at (suc s)) = elim goes_on [
              | inl q ↦ absurd (ground arith)
              | inr q ↦ q
            ] in
            let here : follows_on (suc s) checksum (some (pending_at (suc s))) ≡ true =
              ground arith in
            rw (last, sequence, sum, e, p) (rw here refl)
      ]

  slot_absorbed :
      (s : ℕ) (pending : Option PendingLongName)
      → suc s ≤ count
      → count ≤ 20
      → (suc s ≡ count) ⊎ (pending ≡ some (pending_at (suc s)))
      → absorb_long_name_slot (make_slot units checksum count (suc s)) pending
        ≡ some (some (pending_at s))
  unfolding absorb_long_name_slot
  slot_absorbed s pending h small goes_on =
      let sequence = sequence_of-make_slot units checksum count (suc s) (omega arith) in
      let part : absorb (sequence_of (make_slot units checksum count (suc s)))
            (make_slot units checksum count (suc s)) (pending_at (suc s))
          ≡ some (pending_at s) =
        rw sequence (absorbed s h) in
      rw (run_of-pending_at s pending h small goes_on) (
        absorb_into-some (make_slot units checksum count (suc s)) (pending_at (suc s))
          (pending_at s) part)

  slots_absorbed :
      (s : ℕ) (pending : Option PendingLongName)
      → suc s ≤ count
      → count ≤ 20
      → (suc s ≡ count) ⊎ (pending ≡ some (pending_at (suc s)))
      → absorb_all (slots_down units checksum count (suc s)) pending ≡ some (some (pending_at 0))
  unfolding absorb_all slots_down
  slots_absorbed zero pending h small goes_on = rw (slot_absorbed zero pending h small goes_on)
  slots_absorbed (suc s) pending h small goes_on =
      rw (slot_absorbed (suc s) pending h small goes_on)
        (slots_absorbed s (some (pending_at (suc s))) (omega arith) small (inr refl))

-- The part of a name before its first terminator.
abbrev pub before_end : List ℕ → List ℕ
before_end units = take (end_of_chars units) units

units_from-suc :
    (u : ℕ) (units : List ℕ) (from k : ℕ)
    → units_from (u ∷ units) (suc from) k ≡ units_from units from k
unfolding unit_at
units_from-suc u units from zero = refl
units_from-suc u units from (suc k) =
    let e : suc from + 1 ≡ suc (from + 1) = omega arith in
    let head : unit_at (u ∷ units) (suc from) ≡ unit_at units from =
      elim (Option-cases (get_elem? units from)) [
        | inl e ↦ rw (e, unit_at) (ground arith)
        | inr (x, e) ↦ rw (e, unit_at) refl
      ] in
    rw (e, head) (ap (λ l. unit_at units from ∷ l) (units_from-suc u units (from + 1) k))

padded :
    (units : List ℕ) (k : ℕ)
    → length units ≤ k
    → before_end (units_from units 0 k) ≡ before_end units
unfolding end_of_chars unit_at
padded [] zero h = refl
padded [] (suc k) h = refl
padded (u ∷ units) zero h = absurd (omega arith)
padded (u ∷ units) (suc k) h =
    let rest : units_from (u ∷ units) 1 k ≡ units_from units 0 k = units_from-suc u units 0 k in
    rw rest (elim (Bool-cases ((u == 0x0000) || (u == 0xFFFF))) [
      | inl e ↦ rw e refl
      | inr e ↦ rw e (ap (λ l. u ∷ l) (padded units k (omega arith)))
    ])

-- A long name of 1 to 255 UTF-16 units, written to slots and absorbed in the order in which they
-- are stored, whatever was pending: no write falls outside, the run is complete, and it gives the
-- text of the units up to the first 0x0000 or 0xFFFF, or no name where that is empty or the
-- checksum is another.
pub long_name_slots-absorbed :
    (decode_utf16 : List ℕ → List ℕ) (units : List ℕ) (checksum other : ℕ)
    (pending : Option PendingLongName)
    → AreUnits units
    → 1 ≤ length units
    → length units ≤ 255
    → (run : PendingLongName) × (absorb_all (long_name_slots units checksum) pending
        ≡ some (some run))
      × (finish decode_utf16 other run
          ≡ (if other == checksum then named (decode_utf16 (before_end units)) else none))
unfolding long_name_slots finish
long_name_slots-absorbed decode_utf16 units checksum other pending fits some_units small =
    let count = (length units + 12) / 13 in
    let last : suc (count - 1) ≡ count = omega arith in
    let absorbed_slots : absorb_all (slots_down units checksum count count) pending
        ≡ some (some (pending_at units checksum count fits 0)) =
      subst
        (λ n.
          absorb_all (slots_down units checksum count n) pending
          ≡ some (some (pending_at units checksum count fits 0)))
        last
        (slots_absorbed units checksum count fits (count - 1) pending (omega arith) (omega arith)
          (inl last)) in
    let whole : (count - 0) * 13 ≡ count * 13 = omega arith in
    let name : before_end (units_from units 0 ((count - 0) * 13)) ≡ before_end units =
      padded units ((count - 0) * 13) (omega arith) in
    let read : finish decode_utf16 other (pending_at units checksum count fits 0)
        ≡ (if other == checksum then named (decode_utf16 (before_end units)) else none) =
      elim (Bool-cases (other == checksum)) [
        | inl e ↦
            let same : not (0 == 0) || not (checksum == other) ≡ false = ground arith in
            rw (same, e) (ap (λ l. named (decode_utf16 l)) name)
        | inr e ↦
            let differs : not (0 == 0) || not (checksum == other) ≡ true = ground arith in
            rw (differs, e) refl
      ] in
    (pending_at units checksum count fits 0, absorbed_slots, read)
