-- ===== src/Fat/Alloc/Search.antt =====
-- `Fat::find_contiguous` (src/fat.rs) and the free runs of its two windows.
use resident_fat.Prelude.{
  ℕ, zero, suc, ◌+◌, ◌-◌, ◌≤◌, ◌<◌, ◌≡◌, inl, inr, Option, none, some, arith, ◌==◌, ==_iff, ltb,
  Bool-cases, length, get_elem?-eq-get_or, range_from, All, All-append, subst, sym,
}
use resident_fat.Words.{u32}
use resident_fat.Fat.Table.{Fat, Outcome, ok, first_cluster}
use resident_fat.Fat.Invariant.{IsWellFormed, IsFree, value}
use resident_fat.Fat.Runs.{range_from-snoc}
use resident_fat.Fat.Alloc.{or_insert, seek, find_contiguous, or_else, end_of}

abbrev pub AllFree : Fat → ℕ → ℕ → Type 0
AllFree f s n = All (IsFree f) (range_from s n)

-- A window has a free run of the length wanted, or none.
pub data Sought (f : Fat) (count lo hi : ℕ) : Outcome (Option ℕ) → Type 0 where
  hit : (s : ℕ) → lo ≤ s → s + count ≤ hi → AllFree f s count → Sought f count lo hi (ok (some s))
  miss :
      ((s : ℕ) → lo ≤ s → s + count ≤ hi → AllFree f s count → ⊥) → Sought f count lo hi (ok none)

pub All-range_from : (P : ℕ → Type 0) (n s x : ℕ) → All P (range_from s n) → s ≤ x → x < s + n → P x
All-range_from P zero s x h le lt = absurd (omega arith)
All-range_from P (suc n) s x h le lt = elim (Bool-cases (s == x)) [
  | inl e ↦ subst P (ground arith) h.0
  | inr e ↦ All-range_from P n (suc s) x h.1 (ground arith) (omega arith)
]

module _ (f : Fat) (count : ℕ) where
  AllFree-snoc : (s n c : ℕ) → s + n ≡ c → AllFree f s n → IsFree f c → AllFree f s (suc n)
  AllFree-snoc s n c e h free =
      subst (All (IsFree f)) (sym (range_from-snoc s n c e))
        (All-append (IsFree f) (range_from s n) _ h (free, tt))

  -- A broken run: no run that starts before `c` goes past it.
  past_used :
      (lo hi c len : ℕ) (o : Outcome (Option ℕ))
      → len < count
      → lo + len ≡ c
      → (IsFree f c → ⊥)
      → Sought f count (suc c) hi o
      → Sought f count lo hi o
  past_used lo hi c len o lt e used (hit s le fits all) = hit s (omega arith) fits all
  past_used lo hi c len o lt e used (miss none_there) = miss λ s le fits all.
      elim (Bool-cases (ltb c s)) [
        | inl after ↦ none_there s (ground arith) fits all
        | inr before ↦ used (All-range_from (IsFree f) count s c all (ground arith) (omega arith))
      ]

  seek-Sought :
      (n c hi len : ℕ) (start : Option ℕ)
      → c + n ≡ hi
      → hi ≤ length f.entries
      → length f.entries < 0x1000_0000
      → len < count
      → or_insert start c + len ≡ c
      → AllFree f (or_insert start c) len
      → Sought f count (or_insert start c) hi (seek n f count c start len)
  unfolding seek
  seek-Sought zero c hi len start to fits small lt e free = miss λ s le top all. omega arith
  seek-Sought (suc n) c hi len start to fits small lt e free =
      rw (get_elem?-eq-get_or f.entries c 0 (omega arith), seek)
        (let wrap : u32 (len + 1) ≡ suc len = omega arith in
          elim (Bool-cases (value f c == 0)) [
            | inl z ↦
                let longer : AllFree f (or_insert start c) (suc len) =
                  AllFree-snoc (or_insert start c) len c e free (ground arith) in
                rw (z, wrap)
                  (elim (Bool-cases (suc len == count)) [
                    | inl d ↦ rw d (
                        hit (or_insert start c) (omega arith) (ground arith) (
                          subst (AllFree f (or_insert start c)) ((==_iff (suc len) count).0 d)
                            longer))
                    | inr d ↦ rw d (
                        seek-Sought n (suc c) hi (suc len) (some (or_insert start c)) (omega arith)
                          fits small (ground arith) (omega arith) longer)
                  ])
            | inr z ↦ rw z (
                past_used (or_insert start c) hi c len _ lt e (ground arith) (
                  seek-Sought n (suc c) hi 0 none (omega arith) fits small (omega arith)
                    (omega arith) tt))
          ])

  -- Both windows: from the hint to the end, then from the first cluster to the hint.
  pub data FoundContiguous : Outcome (Option ℕ) → Type 0 where
    found :
        (s : ℕ)
        → first_cluster ≤ s
        → s + count ≤ f.cluster_count + 2
        → AllFree f s count
        → FoundContiguous (ok (some s))
    nowhere :
        ((s : ℕ) → f.next_free ≤ s → s + count ≤ f.cluster_count + 2 → AllFree f s count → ⊥)
        → ((s : ℕ) → first_cluster ≤ s → s + count ≤ f.next_free → AllFree f s count → ⊥)
        → FoundContiguous (ok none)

  module _ (w : IsWellFormed f) (positive : 0 < count) where
    two_windows :
        (o p : Outcome (Option ℕ))
        → Sought f count f.next_free (f.cluster_count + 2) o
        → Sought f count first_cluster f.next_free p
        → FoundContiguous (or_else o p)
    two_windows o p (hit s le fits all) there = found s (omega (arith, w.hint.0)) fits all
    two_windows o p (miss none_here) (hit s le fits all) = found s le (omega (arith, w.hint)) all
    two_windows o p (miss none_here) (miss neither) = nowhere none_here neither

    pub find_contiguous-FoundContiguous : FoundContiguous (find_contiguous f count)
    unfolding find_contiguous
    find_contiguous-FoundContiguous =
        let whole : end_of f ≡ f.cluster_count + 2 = omega (arith, w.small) in
        rw whole (
          two_windows _ _
            (seek-Sought (f.cluster_count + 2 - f.next_free) f.next_free (f.cluster_count + 2) 0
              none (omega (arith, w.hint)) (omega (arith, w.sized))
              (omega (arith, w.sized, w.small)) positive (omega arith) tt)
            (seek-Sought (f.next_free - first_cluster) first_cluster f.next_free 0 none
              (omega (arith, w.hint)) (omega (arith, w.sized, w.hint))
              (omega (arith, w.sized, w.small)) positive (omega arith) tt))
