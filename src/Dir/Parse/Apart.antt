-- ===== src/Dir/Parse/Apart.antt =====
-- The slots that the entries of src/dir.rs take up.
use resident_fat.Prelude.{
  ℕ, ◌+◌, ◌^◌, ◌≤◌, ◌<◌, ◌≡◌, ◌⊎◌, inl, inr, refl, Option, none, some, List, [], ◌∷◌, ◌++◌, length,
  All, All-append, All-mono, arith,
}
use resident_fat.Words.{u32}
use resident_fat.Text.{Unicode}
use resident_fat.Codepage.{Codepage}
use resident_fat.Dir.Entry.{DirEntry, read_entry}
use resident_fat.Dir.Parse.Steps.{scan_slots-parsed, parse_directory-parsed}
use resident_fat.Dir.Parse.{
  parsed, Scan, at_start, get_or_insert, unwrap_or, push_entry, scan_slot, scan_slots, Directory,
  directory_of, slots_of, parse_directory,
}

-- Each entry ends at its own slot, and the following ones begin after it.
abbrev pub AreApart : List DirEntry → Type 0
AreApart [] = Unit
AreApart (entry ∷ entries) =
    (entry.first_slot ≤ entry.index)
    × All (λ later. entry.index < later.first_slot) entries
    × AreApart entries

AreApart-snoc :
    (entries : List DirEntry) (entry : DirEntry)
    → AreApart entries
    → All (λ e. e.index < entry.first_slot) entries
    → entry.first_slot ≤ entry.index
    → AreApart (entries ++ entry ∷ [])
AreApart-snoc [] entry apart before own = (own, tt, tt)
AreApart-snoc (e ∷ es) entry apart before own = (
  apart.0,
  All-append (λ later. e.index < later.first_slot) es (entry ∷ []) apart.1 (before.0, tt),
  AreApart-snoc es entry apart.2 before.1 own,
)

module _ (u : Unicode) (codepage : Codepage) where
  -- The entries so far end before the run of slots that leads up to the place.
  record IsBehind (n : ℕ) (s : Scan) : Type 0 where
    apart : AreApart s.entries
    before : All (λ e. e.index < unwrap_or s.long_run n) s.entries
    start : unwrap_or s.long_run n ≤ n

  -- what a round does to the entries and to the run
  scan_slot-entries :
      (slot : List ℕ) (index : ℕ) (s after : Scan)
      → scan_slot u codepage slot index s ≡ parsed after
      → ((after.entries ≡ s.entries) × (after.long_run ≡ none))
        ⊎ (((after.entries ≡ s.entries) × (after.long_run ≡ get_or_insert s.long_run index))
            ⊎ (after ≡ push_entry u codepage slot index s))
  unfolding scan_slot
  scan_slot-entries slot index s after h = ground arith

  get_or_insert-start :
      (old : Option ℕ) (n : ℕ) → unwrap_or (get_or_insert old n) (n + 1) ≡ unwrap_or old n
  get_or_insert-start none n = refl
  get_or_insert-start (some at) n = refl

  pushed-IsBehind :
      (slot : List ℕ) (n : ℕ) (s : Scan)
      → IsBehind n s
      → IsBehind (n + 1) (push_entry u codepage slot n s)
  unfolding push_entry read_entry
  pushed-IsBehind slot n s b = record {
    apart = AreApart-snoc s.entries _ b.apart b.before b.start;
    before =
        All-append (λ e. e.index < n + 1) s.entries _
          (All-mono (λ e. e.index < unwrap_or s.long_run n) (λ e. e.index < n + 1) s.entries
            (λ e h. omega (arith, b.start)) b.before)
          (omega arith, tt);
    start = omega arith;
  }

  scan_slot-IsBehind :
      (slot : List ℕ) (n : ℕ) (s after : Scan)
      → scan_slot u codepage slot n s ≡ parsed after
      → IsBehind n s
      → IsBehind (n + 1) after
  scan_slot-IsBehind slot n s after h b = elim (scan_slot-entries slot n s after h) [
    | inl (same, reset) ↦ record {
      apart = rw same b.apart;
      before =
          rw (same, reset)
            (All-mono (λ e. e.index < unwrap_or s.long_run n) (λ e. e.index < n + 1) s.entries
              (λ e k. omega (arith, b.start)) b.before);
      start = rw reset (omega arith);
    }
    | inr (inl (same, run)) ↦
        let begun : unwrap_or after.long_run (n + 1) ≡ unwrap_or s.long_run n =
          rw run (get_or_insert-start s.long_run n) in
        record {
          apart = rw same b.apart;
          before = rw (same, begun) b.before;
          start = rw begun (omega (arith, b.start));
        }
    | inr (inr pushed) ↦ rw pushed (pushed-IsBehind slot n s b)
  ]

  scan_slots-AreApart :
      (slots : List (List ℕ)) (n : ℕ) (s after : Scan)
      → n + length slots ≤ 2 ^ 32
      → scan_slots u codepage slots n s ≡ parsed after
      → IsBehind n s
      → AreApart after.entries
  unfolding scan_slots
  scan_slots-AreApart [] n s after small h b = let same : s ≡ after = cc in rw (← same) b.apart
  scan_slots-AreApart (slot ∷ slots) n s after small h b =
      let here : u32 n ≡ n = omega arith in
      let (next, e, rest) = scan_slots-parsed u codepage slot slots n s after h in
      scan_slots-AreApart slots (n + 1) next after (omega arith) rest
        (scan_slot-IsBehind slot n s next (rw here at e) b)

  -- In a directory of at most 2 ^ 32 slots the entries are in the order of their slots, and no two
  -- share a slot, the long-name slots in front of each counted.
  pub parse_directory-AreApart :
      (data_bytes : List ℕ) (d : Directory)
      → parse_directory u codepage data_bytes ≡ parsed d
      → length (slots_of data_bytes) ≤ 2 ^ 32
      → AreApart d.entries
  unfolding directory_of
  parse_directory-AreApart data_bytes d h small =
      let (s, scanned, made) = parse_directory-parsed u codepage data_bytes d h in
      let same : directory_of u codepage s ≡ d = cc in
      rw (← same) (
        scan_slots-AreApart (slots_of data_bytes) 0 at_start s (omega arith) scanned
          (record { apart = tt; before = tt; start = omega arith }))
