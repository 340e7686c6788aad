-- ===== src/Mbr/Found.antt =====
-- The partitions of a table, and which of them `first_fat` takes.
use resident_fat.Prelude.{
  ℕ, ◌+◌, ◌<◌, ◌≤◌, ◌≡◌, ◌≢◌, refl, Bool, true, false, ◌||◌, ◌&&◌, if◌then◌else◌, Option, none,
  some, List, [], ◌∷◌, ◌++◌, length, arith, All, ltb, not, ◌==◌, Bool-cases, inl, inr, ap, sym, ◌∙◌,
}
use resident_fat.Bytes.{byte, long}
use resident_fat.Mbr.{
  Partition, PartitionTable, is_fat, is_some, entry_at, slot, parse, used, is_empty, find_fat,
  first_fat,
}
use resident_fat.Mbr.Slots.{described, is_table, all_described, all_statuses, parse-eq}

pub record IsPartition (p : Partition) : Type 0 where
  pub kind : p.kind ≢ 0
  pub blocks : p.blocks ≢ 0
  pub first_block : p.first_block ≢ 0

abbrev OfUse : Option Partition → Type 0
OfUse o = All IsPartition (used (o ∷ []))

slot-OfUse : (index status kind first blocks : ℕ) → OfUse (slot index status kind first blocks)
unfolding used
slot-OfUse index status kind first blocks = ground arith

used-All :
    (o : Option Partition) (es : List (Option Partition))
    → All IsPartition (used (o ∷ []))
    → All IsPartition (used es)
    → All IsPartition (used (o ∷ es))
unfolding used
used-All none es h k = k
used-All (some p) es h k = (h.0, k)

some_used :
    (a b c d : Option Partition)
    → (((false || is_some a) || is_some b) || is_some c) || is_some d ≡ true
    → is_empty (record { entries = a ∷ b ∷ c ∷ d ∷ [] }) ≡ false
unfolding is_empty used
some_used (some a) b c d h = ground arith
some_used none (some b) c d h = ground arith
some_used none none (some c) d h = ground arith
some_used none none none (some d) h = ground arith
some_used none none none none h = ground arith

&&-last : (a b c d e : Bool) → (a && b && c && d && e) ≡ true → e ≡ true
&&-last a b c d e h = ground arith

chosen_table :
    (test : Bool) (u t : PartitionTable)
    → ◌≡◌ {A = Option (Option PartitionTable)}
        (some (if test then some u else none))
        (some (some t))
    → (test ≡ true) × (t ≡ u)
chosen_table test u t h = ground arith

parsed :
    (block : List ℕ) (t : PartitionTable)
    → parse block ≡ some (some t)
    → (is_table block ≡ true) × (t ≡ record { entries = all_described 4 block 0 })
parsed block t h =
    chosen_table (is_table block) (record { entries = all_described 4 block 0 }) t
      (sym (parse-eq block) ∙ h)

nothing_used : All IsPartition (used [])
unfolding used
nothing_used = tt

-- Each partition of a table that `parse` returns has a type, a length and a first block that are
-- not zero, and there is at least one: `is_empty` is false.
pub parse-IsPartition :
    (block : List ℕ) (t : PartitionTable)
    → parse block ≡ some (some t)
    → All IsPartition (used t.entries) × (is_empty t ≡ false)
parse-IsPartition block t h =
    let (test, e) = parsed block t h in
    let at = λ (i : ℕ).
      slot-OfUse i (byte block (entry_at i)) (byte block (entry_at i + 0x4))
        (long block (entry_at i + 0x8)) (long block (entry_at i + 0xC)) in
    rw e (
      used-All (described block 0) _ (at 0) (
          used-All (described block 1) _ (at 1) (
            used-All (described block 2) _ (at 2)
              (used-All (described block 3) [] (at 3) nothing_used))),
      some_used (described block 0) (described block 1) (described block 2) (described block 3) (
          &&-last (not (ltb (length block) 512)) (byte block 0x1FE == 0x55)
            (byte block 0x1FF == 0xAA) (all_statuses 4 block 0) _ test),
    )

typeless :
    (index status first blocks : ℕ) {kind : ℕ}
    → kind ≡ 0
    → slot index status kind first blocks ≡ none
typeless index status first blocks h = ground arith

never :
    (t : PartitionTable) (a b c d : Bool)
    → ◌≡◌ {A = Option (Option PartitionTable)}
        (some (if a && b && c && d && false then some t else none))
        (some none)
never t a b c d = ground arith

-- A block whose four entries are all zero, as in the boot sector of a FAT volume, is no table.
pub parse_boot_sector :
    (block : List ℕ)
    → ((i : ℕ) → 0x1BE ≤ i → i < 0x1FE → byte block i ≡ 0)
    → parse block ≡ some none
parse_boot_sector block zeros =
    let unused = λ (i : ℕ) (h : i < 4).
      typeless i (byte block (entry_at i)) (long block (entry_at i + 0x8))
        (long block (entry_at i + 0xC)) (zeros (entry_at i + 0x4) (omega arith) (omega arith)) in
    parse-eq block
    ∙ rw
        (
          unused 0 (omega arith),
          unused 1 (omega arith),
          unused 2 (omega arith),
          unused 3 (omega arith),
        )
        (never (record { entries = none ∷ none ∷ none ∷ none ∷ [] }) (not (ltb (length block) 512))
          (byte block 0x1FE == 0x55) (byte block 0x1FF == 0xAA) (all_statuses 4 block 0))

-- How the partitions divide at the one that was found.
unfoldable pub FoundFirst : (Partition → Bool) → List Partition → Option Partition → Type 0
FoundFirst test ps none = All (λ p. test p ≡ false) ps
FoundFirst test ps (some p) =
    (before : List Partition) × (after : List Partition) × (ps ≡ before ++ p ∷ after)
    × All (λ q. test q ≡ false) before
    × (test p ≡ true)

found_later :
    (p : Partition) (ps : List Partition) (o : Option Partition)
    → is_fat p ≡ false
    → FoundFirst is_fat ps o
    → FoundFirst is_fat (p ∷ ps) o
unfolding FoundFirst
found_later p ps none e h = (e, h)
found_later p ps (some q) e (before, after, split, none_before, found) =
    (p ∷ before, after, ap (λ l. p ∷ l) split, (e, none_before), found)

find_fat-FoundFirst : (ps : List Partition) → FoundFirst is_fat ps (find_fat ps)
unfolding find_fat FoundFirst
find_fat-FoundFirst [] = tt
find_fat-FoundFirst (p ∷ ps) = elim (Bool-cases (is_fat p)) [
  | inl e ↦ rw e ([], ps, refl, tt, e)
  | inr e ↦ rw e (found_later p ps (find_fat ps) e (find_fat-FoundFirst ps))
]

-- `first_fat` returns the first of the partitions, in table order, whose type is one used for FAT,
-- and `None` where none of them has such a type.
pub first_fat-FoundFirst : (t : PartitionTable) → FoundFirst is_fat (used t.entries) (first_fat t)
unfolding first_fat
first_fat-FoundFirst t = find_fat-FoundFirst (used t.entries)
