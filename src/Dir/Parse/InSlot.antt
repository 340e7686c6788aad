-- ===== src/Dir/Parse/InSlot.antt =====
-- `Directory::at` (src/dir.rs) finds the entries of a directory that was parsed.
use mathlib.Core.Option.{none-ne-some, some-injective}
use resident_fat.Prelude.{
  ℕ, zero, suc, ◌+◌, ◌-◌, ◌/◌, ◌^◌, ◌≤◌, ◌<◌, ◌≡◌, sym, ap, subst, ◌∙◌, inl, inr, Bool-cases, ◌==◌,
  ==_iff, false, ltb, leb, All, List, [], ◌∷◌, length, some, get_elem?, get_or, get_elem?-eq-get_or,
  arith,
}
use resident_fat.Text.{Unicode}
use resident_fat.Codepage.{Codepage}
use resident_fat.Dir.Entry.{DirEntry}
use resident_fat.Dir.Parse.{
  Directory, parsed, parse_directory, slots_of, search_slot, entry_in_slot,
}
use resident_fat.Dir.Parse.Apart.{AreApart, parse_directory-AreApart}

after_first :
    (P : DirEntry → Type 0) (es : List DirEntry) (j : ℕ) (b : DirEntry)
    → All P es
    → get_elem? es j ≡ some b
    → P b
after_first P [] j b all h = absurd (none-ne-some _ h)
after_first P (e ∷ es) zero b all h = subst P (some-injective _ _ h) all.0
after_first P (e ∷ es) (suc j) b all h = after_first P es j b all.1 h

ends_at_slot :
    (es : List DirEntry) (j : ℕ) (b : DirEntry)
    → AreApart es
    → get_elem? es j ≡ some b
    → b.first_slot ≤ b.index
ends_at_slot [] j b apart h = absurd (none-ne-some _ h)
ends_at_slot (e ∷ es) zero b apart h =
    subst (λ x. x.first_slot ≤ x.index) (some-injective _ _ h) apart.0
ends_at_slot (e ∷ es) (suc j) b apart h = ends_at_slot es j b apart.2 h

-- Of two entries, the later one has the higher slot.
in_order :
    (es : List DirEntry) (i j : ℕ) (a b : DirEntry)
    → AreApart es
    → get_elem? es i ≡ some a
    → get_elem? es j ≡ some b
    → i < j
    → a.index < b.index
in_order [] i j a b apart h k less = absurd (none-ne-some _ h)
in_order (e ∷ es) i zero a b apart h k less = absurd (omega (arith, less))
in_order (e ∷ es) zero (suc j) a b apart h k less =
    let later : e.index < b.first_slot =
      after_first (λ l. e.index < l.first_slot) es j b apart.1 k in
    let own = ends_at_slot es j b apart.2 k in
    subst (λ x. x.index < b.index) (some-injective _ _ h) (omega (arith, later, own))
in_order (e ∷ es) (suc i) (suc j) a b apart h k less =
    in_order es i j a b apart.2 h k (omega (arith, less))

is_inside : (es : List DirEntry) (k : ℕ) (e : DirEntry) → get_elem? es k ≡ some e → k < length es
is_inside [] k e h = absurd (none-ne-some _ h)
is_inside (x ∷ es) zero e h = omega arith
is_inside (x ∷ es) (suc k) e h = omega (arith, is_inside es k e h)

module _ (es : List DirEntry) (apart : AreApart es) (k : ℕ) (e : DirEntry)
    (at_k : get_elem? es k ≡ some e) where
  -- the place of an entry, against that of another one with a lower or a higher slot
  place_of_lower : (m : ℕ) (x : DirEntry) → get_elem? es m ≡ some x → x.index < e.index → m < k
  place_of_lower m x at_m lower = elim (Bool-cases (ltb m k)) [
    | inl less ↦ ground (arith, less)
    | inr other ↦ elim (Bool-cases (m == k)) [
      | inl same ↦
          let here : m ≡ k = (==_iff _ _).0 same in
          let one : x ≡ e = some-injective _ _ (sym at_m ∙ ap (get_elem? es) here ∙ at_k) in
          let index : x.index ≡ e.index = ap (λ y. y.index) one in
          absurd (omega (arith, lower, index))
      | inr apart_k ↦
          let after = in_order es k m e x apart at_k at_m (ground (arith, other, apart_k)) in
          absurd (omega (arith, after, lower))
    ]
  ]

  place_of_same : (m : ℕ) (x : DirEntry) → get_elem? es m ≡ some x → x.index ≡ e.index → x ≡ e
  place_of_same m x at_m index = elim (Bool-cases (m == k)) [
    | inl same ↦ some-injective _ _ (sym at_m ∙ ap (get_elem? es) ((==_iff _ _).0 same) ∙ at_k)
    | inr other ↦ elim (Bool-cases (ltb m k)) [
      | inl less ↦
          let before = in_order es m k x e apart at_m at_k (ground (arith, less)) in
          absurd (omega (arith, before, index))
      | inr more ↦
          let after = in_order es k m e x apart at_k at_m (ground (arith, more, other)) in
          absurd (omega (arith, after, index))
    ]
  ]

  place_of_higher : (m : ℕ) (x : DirEntry) → get_elem? es m ≡ some x → e.index < x.index → k < m
  place_of_higher m x at_m higher = elim (Bool-cases (ltb k m)) [
    | inl less ↦ ground (arith, less)
    | inr other ↦ elim (Bool-cases (m == k)) [
      | inl same ↦
          let here : m ≡ k = (==_iff _ _).0 same in
          let one : x ≡ e = some-injective _ _ (sym at_m ∙ ap (get_elem? es) here ∙ at_k) in
          let index : x.index ≡ e.index = ap (λ y. y.index) one in
          absurd (omega (arith, higher, index))
      | inr apart_k ↦
          let before = in_order es m k x e apart at_m at_k (ground (arith, other, apart_k)) in
          absurd (omega (arith, before, higher))
    ]
  ]

  search_slot-finds :
      (rounds low high : ℕ)
      → low ≤ k
      → k < high
      → high ≤ length es
      → high - low ≤ rounds
      → search_slot rounds es low high e.index ≡ some e
  unfolding search_slot
  search_slot-finds zero low high from to inside few = absurd (omega (arith, from, to, few))
  search_slot-finds (suc rounds) low high from to inside few =
      let m = low + (high - low) / 2 in
      let some_left : leb high low ≡ false = ground (arith, from, to) in
      let x = get_or es m e in
      let at_m : get_elem? es m ≡ some x =
        get_elem?-eq-get_or es m e (omega (arith, from, to, inside)) in
      rw (some_left, at_m)
        (elim (Bool-cases (x.index == e.index)) [
          | inl same ↦ rw same (ap some (place_of_same m x at_m ((==_iff _ _).0 same)))
          | inr other ↦ rw other (elim (Bool-cases (ltb x.index e.index)) [
            | inl less ↦ rw less (
                let before = place_of_lower m x at_m (ground (arith, less)) in
                search_slot-finds rounds (m + 1) high (omega (arith, before)) to inside
                  (omega (arith, from, to, few)))
            | inr more ↦ rw more (
                let after = place_of_higher m x at_m (ground (arith, other, more)) in
                search_slot-finds rounds low m from after (omega (arith, from, to, inside))
                  (omega (arith, from, to, few)))
          ])
        ])

module _ (u : Unicode) (codepage : Codepage) where
  -- In a directory of at most 2 ^ 32 slots, once it is parsed, `at` of an entry's own slot finds
  -- that entry.
  pub parse_directory-entry_in_slot :
      (data_bytes : List ℕ) (d : Directory) (k : ℕ) (e : DirEntry)
      → parse_directory u codepage data_bytes ≡ parsed d
      → length (slots_of data_bytes) ≤ 2 ^ 32
      → get_elem? d.entries k ≡ some e
      → entry_in_slot d e.index ≡ some e
  unfolding entry_in_slot
  parse_directory-entry_in_slot data_bytes d k e h small at_k =
      search_slot-finds d.entries (parse_directory-AreApart u codepage data_bytes d h small) k e
        at_k (length d.entries) 0 (length d.entries) (omega arith) (is_inside d.entries k e at_k)
        (omega arith) (omega arith)
