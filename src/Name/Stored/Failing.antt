-- ===== src/Name/Stored/Failing.antt =====
-- The names for which `stored_name` of src/name.rs finds no alias.
use resident_fat.Prelude.{
  ℕ, zero, suc, ◌+◌, ◌≤◌, ◌<◌, ◌≡◌, ◌≢◌, ◌⊎◌, inl, inr, sym, Bool, true, none, some, List, [],
  arith, Bool-cases, Option-cases, ◌==◌, ==_iff,
}
use resident_fat.Text.{Unicode}
use resident_fat.Codepage.{Codepage}
use resident_fat.Dir.ShortName.{from_raw, checksum}
use resident_fat.Name.{long_name_slots}
use resident_fat.Name.Alias.{
  Direct, long_name_units, direct_8_3, case_flags_of, basis_name, with_tail, max_tail,
}
use resident_fat.Name.Alias.Printable.{with_tail-some}
use resident_fat.Name.Stored.{
  StoredName, Storing, stored, bad_name, no_alias_available, storing_panicked, with_slots, is_taken,
  try_tails, store_mangled, store_direct, stored_name,
}

module _ (u : Unicode) (codepage : Codepage) (taken : List ℕ → Bool) where
  module _ (units base extension : List ℕ) where
    -- Where no tail is left, each of those tried was taken.
    try_tails-all_taken :
        (left tail at : ℕ) (raw : List ℕ)
        → try_tails u codepage taken units base extension left tail ≡ no_alias_available
        → tail ≤ at
        → at < tail + left
        → with_tail base extension at ≡ some raw
        → is_taken u codepage taken (from_raw raw 0) ≡ true
    unfolding try_tails
    try_tails-all_taken zero tail at raw e low high q = absurd (omega arith)
    try_tails-all_taken (suc left) tail at raw e low high q =
        elim (Option-cases (with_tail base extension tail)) [
          | inl r ↦ let e' : storing_panicked ≡ no_alias_available = rw (r, try_tails) at e in cc
          | inr (raw', r) ↦ elim (Bool-cases (is_taken u codepage taken (from_raw raw' 0))) [
            | inl old ↦
                let e' : try_tails u codepage taken units base extension left (tail + 1)
                    ≡ no_alias_available =
                  rw (r, old, try_tails) at e in
                elim (Bool-cases (at == tail)) [
                  | inl same ↦
                      let here : at ≡ tail = (==_iff _ _).0 same in
                      let q' : with_tail base extension tail ≡ some raw = rw here at q in
                      let one : raw' ≡ raw = cc in rw (← one) old
                  | inr later ↦
                      try_tails-all_taken left (tail + 1) at raw e' (ground arith) (omega arith) q
                ]
            | inr free ↦
                let e' : with_slots u codepage taken units (from_raw raw' 0) ≡ no_alias_available =
                  rw (r, free, try_tails) at e in
                cc
          ]
        ]

    try_tails-panicked :
        (left tail : ℕ)
        → tail + left ≤ 1000000
        → try_tails u codepage taken units base extension left tail ≢ storing_panicked
    unfolding try_tails
    try_tails-panicked zero tail small e = cc
    try_tails-panicked (suc left) tail small e =
        elim (Option-cases (with_tail base extension tail)) [
          | inl q ↦ with_tail-some base extension tail (omega arith) q
          | inr (raw, q) ↦ elim (Bool-cases (is_taken u codepage taken (from_raw raw 0))) [
            | inl old ↦
                try_tails-panicked left (tail + 1) (omega arith) (rw (q, old, try_tails) at e)
            | inr free ↦
                let e' : with_slots u codepage taken units (from_raw raw 0) ≡ storing_panicked =
                  rw (q, free, try_tails) at e in
                cc
          ]
        ]

  module _ (units name : List ℕ) where
    store_mangled-panicked : store_mangled u codepage taken units name ≢ storing_panicked
    unfolding store_mangled
    store_mangled-panicked =
        try_tails-panicked units (basis_name u codepage name).0 (basis_name u codepage name).1
          max_tail 1 (omega arith)

    store_mangled-all_taken :
        (tail : ℕ) (raw : List ℕ)
        → store_mangled u codepage taken units name ≡ no_alias_available
        → 1 ≤ tail
        → tail ≤ max_tail
        → with_tail (basis_name u codepage name).0 (basis_name u codepage name).1 tail ≡ some raw
        → is_taken u codepage taken (from_raw raw 0) ≡ true
    unfolding store_mangled
    store_mangled-all_taken tail raw e low high q =
        try_tails-all_taken units (basis_name u codepage name).0 (basis_name u codepage name).1
          max_tail 1 tail raw e low (omega arith) q

    -- Storing a name that is allowed succeeds, or mangles it and finds no alias.
    store_direct-fails :
        (direct : Direct) (o : Storing)
        → store_direct u codepage taken units name direct ≡ o
        → ((s : StoredName) × (o ≡ stored s)) ⊎ (store_mangled u codepage taken units name ≡ o)
    unfolding store_direct
    store_direct-fails direct o e = elim (Option-cases (case_flags_of direct)) [
      | inr (flags, q) ↦ inl (
        record { short = from_raw direct.raw flags; slots = [] },
        sym (rw (q, store_direct) at e),
      )
      | inl q ↦ elim (Bool-cases (is_taken u codepage taken (from_raw direct.raw 0))) [
        | inl old ↦ inr (rw (q, old, store_direct) at e)
        | inr free ↦ inl (
          record {
            short = from_raw direct.raw 0;
            slots = long_name_slots units (checksum (from_raw direct.raw 0));
          },
          sym (rw (q, free, store_direct) at e),
        )
      ]
    ]

  stored_name-fails :
      (name : List ℕ) (o : Storing)
      → stored_name u codepage taken name ≡ o
      → ((s : StoredName) × (o ≡ stored s))
        ⊎ (((long_name_units u name ≡ none) × (o ≡ bad_name))
            ⊎ ((units : List ℕ) × (store_mangled u codepage taken units name ≡ o)))
  unfolding stored_name
  stored_name-fails name o e = elim (Option-cases (long_name_units u name)) [
    | inl l ↦ inr (inl (l, sym (rw (l, stored_name) at e)))
    | inr (units, l) ↦ elim (Option-cases (direct_8_3 u codepage name)) [
      | inl d ↦ inr (inr (units, rw (l, d, stored_name) at e))
      | inr (direct, d) ↦
          elim (store_direct-fails units name direct o (rw (l, d, stored_name) at e)) [
            | inl s ↦ inl s
            | inr m ↦ inr (inr (units, m))
          ]
    ]
  ]

  -- Storing a name never panics.
  pub stored_name-panicked : (name : List ℕ) → stored_name u codepage taken name ≢ storing_panicked
  stored_name-panicked name e = elim (stored_name-fails name storing_panicked e) [
    | inl (s, q) ↦ cc
    | inr (inl (l, q)) ↦ cc
    | inr (inr (units, m)) ↦ store_mangled-panicked units name m
  ]

  -- A name has no alias available only if each alias with a tail from 1 to 999999 is taken.
  pub stored_name-all_taken :
      (name : List ℕ) (tail : ℕ) (raw : List ℕ)
      → stored_name u codepage taken name ≡ no_alias_available
      → 1 ≤ tail
      → tail ≤ max_tail
      → with_tail (basis_name u codepage name).0 (basis_name u codepage name).1 tail ≡ some raw
      → is_taken u codepage taken (from_raw raw 0) ≡ true
  stored_name-all_taken name tail raw e low high q =
      elim (stored_name-fails name no_alias_available e) [
        | inl (s, r) ↦ cc
        | inr (inl (l, r)) ↦ cc
        | inr (inr (units, m)) ↦ store_mangled-all_taken units name tail raw m low high q
      ]
