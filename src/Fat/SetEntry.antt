-- ===== src/Fat/SetEntry.antt =====
-- `Fat::set_entry` (src/fat.rs): what it writes and what it leaves alone.
use resident_fat.Prelude.{
  ℕ, ◌+◌, ◌-◌, ◌^◌, ◌≤◌, ◌<◌, ◌≡◌, refl, ◌≢◌, inl, inr, Bool-cases, arith, ◌==◌, get_or, drop,
  length-set, get_or-set_self, get_or-set_ne, get_elem?-eq-get_or,
}
use resident_fat.Words.{high_bits}
use resident_fat.Fat.Table.{
  Fat, Outcome, ok, err, bad_cluster, is_valid_cluster, masked, with_value, recount, overwrite,
  set_entry,
}
use resident_fat.Fat.Invariant.{
  IsWellFormed, IsCluster, value, count_free-drop-set, is_valid_cluster_iff_true, free_count-le,
  one_if_free, count_free, is_valid_cluster_sound,
}

-- the table after a write to an entry that is there
unfoldable pub written : ℕ → ℕ → Fat → Fat
unfolding overwrite
written c v f = overwrite c (get_or f.entries c 0) v f

pub entry-written_ne :
    (f : Fat) (c v d : ℕ) → c ≢ d → get_or (written c v f).entries d 0 ≡ get_or f.entries d 0
unfolding written
entry-written_ne f c v d ne = get_or-set_ne f.entries c d _ 0 ne

recount_lem :
    (a b n : ℕ)
    → n < 2 ^ 32 - 1
    → (masked a ≡ 0 → 1 ≤ n)
    → recount (masked a == 0) (masked b == 0) n + one_if_free a ≡ n + one_if_free b
recount_lem a b n small some_free = ground arith

recount_with_value : (old v : ℕ) → one_if_free (with_value old v) ≡ one_if_free v
recount_with_value old v = let e : masked (with_value old v) ≡ masked v = omega arith in rw e

module _ (f : Fat) (w : IsWellFormed f) where
  -- a free cluster is counted
  one_free : (c : ℕ) → IsCluster f c → value f c ≡ 0 → 1 ≤ count_free (drop 2 f.entries)
  one_free c valid e =
      ground (arith, count_free-drop-set f.entries c 1 valid.0 (omega (arith, w.sized)))

  module _ (c v : ℕ) (valid : IsCluster f c) where
    pub set_entry-eq-written : set_entry c v f ≡ (ok tt, written c v f)
    unfolding set_entry written
    set_entry-eq-written =
        rw
          (
            is_valid_cluster_iff_true f c w valid,
            get_elem?-eq-get_or f.entries c 0 (omega (arith, w.sized)),
          )
          refl

    pub value-written_self : value (written c v f) c ≡ masked v
    unfolding written
    value-written_self =
        rw
          (get_or-set_self f.entries c (with_value (get_or f.entries c 0) v) 0
            (omega (arith, w.sized)))
          (omega arith)

    -- the reserved top four bits are those that were there
    pub reserved-written :
        high_bits (get_or (written c v f).entries c 0) 28 ≡ high_bits (get_or f.entries c 0) 28
    unfolding written
    reserved-written =
        rw
          (get_or-set_self f.entries c (with_value (get_or f.entries c 0) v) 0
            (omega (arith, w.sized)))
          (omega arith)

    pub free_count-written :
        (written c v f).free_count + one_if_free (get_or f.entries c 0)
        ≡ f.free_count + one_if_free v
    unfolding written
    free_count-written =
        recount_lem (get_or f.entries c 0) v f.free_count
          (omega (arith, free_count-le f w, w.small))
          (λ e. omega (arith, w.counted, one_free c valid e))

    pub written-IsWellFormed : IsWellFormed (written c v f)
    unfolding written
    written-IsWellFormed = record {
      sized = rw length-set w.sized;
      small = w.small;
      counted = omega (
        arith,
        recount_with_value (get_or f.entries c 0) v,
        free_count-written,
        w.counted,
        count_free-drop-set f.entries c (with_value (get_or f.entries c 0) v) valid.0
            (omega (arith, w.sized)),
      );
      hint = w.hint;
    }

-- `set_entry` outside the volume returns `BadCluster` and changes nothing.
pub set_entry_refused :
    (f : Fat) (c v : ℕ)
    → IsWellFormed f
    → (IsCluster f c → ⊥)
    → set_entry c v f ≡ (err (bad_cluster c), f)
unfolding set_entry
set_entry_refused f c v w outside = elim (Bool-cases (is_valid_cluster f c)) [
  | inl valid ↦ absurd (outside (is_valid_cluster_sound f c w valid))
  | inr invalid ↦ rw invalid refl
]

-- What one write of the entry of `c` does to the table.
pub record Wrote (f : Fat) (c v : ℕ) (result : Outcome (Unit {0}) × Fat) : Type 0 where
  pub returns : result.0 ≡ ok tt
  pub holds : value result.1 c ≡ masked v
  pub reserved : high_bits (get_or result.1.entries c 0) 28 ≡ high_bits (get_or f.entries c 0) 28
  pub others : (d : ℕ) → c ≢ d → get_or result.1.entries d 0 ≡ get_or f.entries d 0
  pub counted :
      result.1.free_count + one_if_free (get_or f.entries c 0) ≡ f.free_count + one_if_free v
  pub well_formed : IsWellFormed result.1

-- `set_entry` of a cluster of the volume makes its entry stand for the low 28 bits of the value,
-- keeps the four reserved bits, leaves every other entry alone, moves the free count as the entry
-- changes between free and taken, and keeps the table well formed.
pub set_entry-Wrote :
    (f : Fat) (c v : ℕ) → IsWellFormed f → IsCluster f c → Wrote f c v (set_entry c v f)
set_entry-Wrote f c v w valid = rw (set_entry-eq-written f w c v valid) (record {
  returns = refl;
  holds = value-written_self f w c v valid;
  reserved = reserved-written f w c v valid;
  others = λ d ne. entry-written_ne f c v d ne;
  counted = free_count-written f w c v valid;
  well_formed = written-IsWellFormed f w c v valid;
})
