-- ===== src/Dir/Parse/Free.antt =====
-- The free slots that the parse of src/dir.rs records, and the runs of them that it gives out.
use resident_fat.Prelude.{
  ℕ, zero, suc, ◌+◌, ◌-◌, ◌^◌, ◌≤◌, ◌<◌, ◌≡◌, inl, inr, refl, sym, ap, ◌∙◌, Bool, true, ◌||◌, some,
  List, [], ◌∷◌, ◌++◌, append-nil, append_assoc, length, All, All-append_left, All-append_right,
  All-mono, range_from, get_or, arith, Bool-cases, ◌==◌, leb, if◌then◌else◌, subst,
}
use resident_fat.Words.{u32}
use resident_fat.Bytes.{byte}
use resident_fat.Text.{Unicode}
use resident_fat.Codepage.{Codepage}
use resident_fat.Dir.{end_of_directory, deleted_mark}
use resident_fat.Dir.Parse.Steps.{scan_slots-parsed, parse_directory-parsed}
use resident_fat.Dir.Parse.{
  parsed, Stretch, Scan, at_start, note_free, push_entry, scan_slot, scan_slots, Directory,
  directory_of, slots_of, parse_directory, free_run,
}

-- the slots of the runs
abbrev pub indexes : List Stretch → List ℕ
indexes [] = []
indexes (run ∷ runs) = range_from run.at run.length ++ indexes runs

abbrev pub is_unused : List ℕ → Bool
is_unused slot = (byte slot 0 == end_of_directory) || (byte slot 0 == deleted_mark)

-- the unused slots from a place on, by a look at each
abbrev pub unused : List (List ℕ) → ℕ → List ℕ
unused [] n = []
unused (slot ∷ slots) n = if is_unused slot then n ∷ unused slots (n + 1) else unused slots (n + 1)

-- All runs end at or before a place.
abbrev EndBy : List Stretch → ℕ → Type 0
EndBy runs n = All (λ run. run.at + run.length ≤ n) runs

EndBy-mono : (runs : List Stretch) (m n : ℕ) → m ≤ n → EndBy runs m → EndBy runs n
EndBy-mono [] m n h e = e
EndBy-mono (run ∷ runs) m n h e = (omega (arith, e.0), EndBy-mono runs m n h e.1)

range_from-snoc : (n at : ℕ) → range_from at (n + 1) ≡ range_from at n ++ (at + n) ∷ []
range_from-snoc zero at = let e : at + 0 ≡ at = omega arith in rw e
range_from-snoc (suc n) at =
    let e : at + suc n ≡ suc at + n = omega arith in
    let e' : suc n + 1 ≡ suc (n + 1) = omega arith in
    rw (e, e') (ap (λ l. at ∷ l) (range_from-snoc n (suc at)))

indexes-note_free :
    (runs : List Stretch) (index : ℕ)
    → EndBy runs index
    → index < 2 ^ 32
    → (indexes (note_free runs index) ≡ indexes runs ++ index ∷ [])
      × EndBy (note_free runs index) (index + 1)
unfolding note_free
indexes-note_free [] index h small = (refl, omega arith)
indexes-note_free (run ∷ []) index h small =
    let alone : range_from run.at run.length ++ index ∷ [] ≡ indexes (run ∷ []) ++ index ∷ [] =
      ap (λ l. l ++ index ∷ []) (sym (append-nil (range_from run.at run.length))) in
    elim (Bool-cases (u32 (run.at + run.length) == index)) [
      | inl e ↦
          let here : run.at + run.length ≡ index = ground (arith, h.0) in
          rw e (
            append-nil (range_from run.at (run.length + 1))
                ∙ range_from-snoc run.length run.at
                ∙ ap (λ n. range_from run.at run.length ++ n ∷ []) here
                ∙ alone,
            omega (arith, here),
          )
      | inr e ↦ rw e (alone, omega (arith, h.0))
    ]
indexes-note_free (run ∷ next ∷ runs) index h small =
    let rest = indexes-note_free (next ∷ runs) index h.1 small in
    (
      ap (λ l. range_from run.at run.length ++ l) rest.0
          ∙ sym (append_assoc (range_from run.at run.length) (indexes (next ∷ runs)) (index ∷ [])),
      (omega (arith, h.0), rest.1),
    )

module _ (u : Unicode) (codepage : Codepage) where
  scan_slot-free :
      (slot : List ℕ) (index : ℕ) (s after : Scan)
      → scan_slot u codepage slot index s ≡ parsed after
      → after.free ≡ (if is_unused slot then note_free s.free index else s.free)
  unfolding scan_slot push_entry
  scan_slot-free slot index s after h = ground arith

  scan_slots-free :
      (slots : List (List ℕ)) (n : ℕ) (s after : Scan)
      → scan_slots u codepage slots n s ≡ parsed after
      → n + length slots ≤ 2 ^ 32
      → EndBy s.free n
      → indexes after.free ≡ indexes s.free ++ unused slots n
  unfolding scan_slots
  scan_slots-free [] n s after h small ends =
      let same : s ≡ after = ground arith in rw same (sym (append-nil (indexes after.free)))
  scan_slots-free (slot ∷ slots) n s after h small ends =
      let here : u32 n ≡ n = omega arith in
      let (next, e, rest) = scan_slots-parsed u codepage slot slots n s after h in
      let free : next.free ≡ (if is_unused slot then note_free s.free n else s.free) =
        rw here at (scan_slot-free slot (u32 n) s next e) in
      let noted = indexes-note_free s.free n ends (omega arith) in
      elim (Bool-cases (is_unused slot)) [
        | inl free_slot ↦
            let free' : next.free ≡ note_free s.free n = rw free_slot at free in
            let later =
              scan_slots-free slots (n + 1) next after rest (omega arith) (rw free' noted.1) in
            rw free_slot (
              later
              ∙ rw (free', noted.0) (append_assoc (indexes s.free) (n ∷ []) (unused slots (n + 1))))
        | inr used ↦
            let free' : next.free ≡ s.free = rw used at free in
            let later =
              scan_slots-free slots (n + 1) next after rest (omega arith)
                (rw free' (EndBy-mono s.free n (n + 1) (omega arith) ends)) in
            rw used (later ∙ rw free' refl)
      ]

  -- The runs of free slots of a directory of at most 2 ^ 32 slots hold the slots that begin with
  -- 0x00 or 0xE5, each once and in order.
  pub parse_directory-free :
      (data_bytes : List ℕ) (d : Directory)
      → parse_directory u codepage data_bytes ≡ parsed d
      → length (slots_of data_bytes) ≤ 2 ^ 32
      → indexes d.free ≡ unused (slots_of data_bytes) 0
  unfolding directory_of
  parse_directory-free data_bytes d h small =
      let (s, scanned, made) = parse_directory-parsed u codepage data_bytes d h in
      let same : directory_of u codepage s ≡ d = cc in
      rw (← same) (scan_slots-free (slots_of data_bytes) 0 at_start s scanned (omega arith) tt)

-- the first so many of a run
All-range_prefix :
    (P : ℕ → Type 0) (n m at : ℕ) → m ≤ n → All P (range_from at n) → All P (range_from at m)
All-range_prefix P n zero at h all = tt
All-range_prefix P zero (suc m) at h all = absurd (omega arith)
All-range_prefix P (suc n) (suc m) at h all =
    (all.0, All-range_prefix P n m (suc at) (omega arith) all.1)

free_run-covered :
    (P : ℕ → Type 0) (runs : List Stretch) (count at : ℕ)
    → free_run runs count ≡ some at
    → All P (indexes runs)
    → All P (range_from at count)
unfolding free_run
free_run-covered P [] count at h all = cc
free_run-covered P (run ∷ runs) count at h all = elim (Bool-cases (leb count run.length)) [
  | inl e ↦
      let found : some run.at ≡ some at = rw e at h in
      let here : run.at ≡ at = cc in
      rw (← here) (
        All-range_prefix P run.length count run.at (ground arith)
          (All-append_left P (range_from run.at run.length) (indexes runs) all))
  | inr e ↦
      let later : free_run runs count ≡ some at = rw e at h in
      free_run-covered P runs count at later
        (All-append_right P (range_from run.at run.length) (indexes runs) all)
]

-- A place of the directory whose slot is unused.
abbrev pub IsUnusedAt : List (List ℕ) → ℕ → Type 0
IsUnusedAt slots at = (at < length slots) × (is_unused (get_or slots at []) ≡ true)

unused_sound :
    (slots : List (List ℕ)) (n : ℕ)
    → All (λ at. (n ≤ at) × IsUnusedAt slots (at - n)) (unused slots n)
unused_sound [] n = tt
unused_sound (slot ∷ slots) n =
    let next : (at : ℕ)
        → ((n + 1 ≤ at) × IsUnusedAt slots (at - (n + 1)))
        → (n ≤ at) × IsUnusedAt (slot ∷ slots) (at - n) =
      λ at h.
        let e : at - n ≡ suc (at - (n + 1)) = omega (arith, h.0) in
        (omega (arith, h.0), rw e (omega (arith, h.1.0), h.1.1)) in
    let rest =
      All-mono (λ at. (n + 1 ≤ at) × IsUnusedAt slots (at - (n + 1)))
        (λ at. (n ≤ at) × IsUnusedAt (slot ∷ slots) (at - n)) (unused slots (n + 1)) next
        (unused_sound slots (n + 1)) in
    elim (Bool-cases (is_unused slot)) [
      | inl free_slot ↦
          let e : n - n ≡ 0 = omega arith in
          rw free_slot ((omega arith, rw e (omega arith, free_slot)), rest)
      | inr used ↦ rw used rest
    ]

-- In a directory of at most 2 ^ 32 slots, each of the slots of a run that `free_run` gives out
-- lies in the directory and holds no entry.
pub free_run-IsUnusedAt :
    (u : Unicode) (codepage : Codepage) (data_bytes : List ℕ) (d : Directory) (count at : ℕ)
    → parse_directory u codepage data_bytes ≡ parsed d
    → length (slots_of data_bytes) ≤ 2 ^ 32
    → free_run d.free count ≡ some at
    → All (IsUnusedAt (slots_of data_bytes)) (range_from at count)
free_run-IsUnusedAt u codepage data_bytes d count at h small found =
    free_run-covered (IsUnusedAt (slots_of data_bytes)) d.free count at found (
      rw (parse_directory-free u codepage data_bytes d h small) (
        All-mono (λ i. (0 ≤ i) × IsUnusedAt (slots_of data_bytes) (i - 0))
          (IsUnusedAt (slots_of data_bytes)) (unused (slots_of data_bytes) 0)
          (λ i k. let e : i - 0 ≡ i = omega arith in subst (IsUnusedAt (slots_of data_bytes)) e k.1)
          (unused_sound (slots_of data_bytes) 0)))
