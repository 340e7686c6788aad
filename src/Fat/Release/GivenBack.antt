-- ===== src/Fat/Release/GivenBack.antt =====
-- The error path of `Fat::append` (src/fat.rs), where `last_cluster` cannot be linked.
use resident_fat.Prelude.{
  ℕ, zero, suc, ◌≤◌, ◌<◌, ◌≡◌, refl, sym, ap, ◌∙◌, inl, inr, false, Bool-cases, List, [], ◌∷◌, ◌++◌,
  arith, length, get_or, range_from, All, All-mono, All-append_left, All-append_right,
  member_or_not,
}
use resident_fat.Fat.Table.{
  Run, Fat, Outcome, ok, err, bad_cluster, free_mark, set_entry, is_valid_cluster,
}
use resident_fat.Fat.Invariant.{
  IsWellFormed, IsCluster, IsFree, value, one_if_free, is_valid_cluster_sound,
}
use resident_fat.Fat.SetEntry.{written, set_entry-eq-written, written-IsWellFormed}
use resident_fat.Fat.Runs.{clusters_of, AreBounded}
use resident_fat.Fat.Chain.{Linked-All, Linked-Distinct, Linked-used}
use resident_fat.Fat.Alloc.{allocate}
use resident_fat.Fat.Allocate.{Allocated, allocate-Allocated}
use resident_fat.Fat.Writes.{written_all}
use resident_fat.Fat.Writes.Marking.{
  AreClusters, AreClusters-written, Kept, Kept-AreClusters, written_all-Kept, written_all-All,
  free_count-written_all,
}
use resident_fat.Fat.Writes.Loops.{run_span-eq}
use resident_fat.Fat.Release.{undo_range, undo_runs, link_onto, append}
use resident_fat.Fat.Release.Appended.{append-eq}

undo_range-eq :
    (n c : ℕ) (f : Fat)
    → IsWellFormed f
    → AreClusters f (range_from c n)
    → undo_range n c f ≡ (ok tt, written_all (range_from c n) free_mark f)
unfolding undo_range written_all
undo_range-eq zero c f w h = refl
undo_range-eq (suc n) c f w h = rw (set_entry-eq-written f w c free_mark h.0) (
    undo_range-eq n (suc c) (written c free_mark f) (written-IsWellFormed f w c free_mark h.0)
      (AreClusters-written free_mark f c (range_from (suc c) n) h.1))

written_all-append :
    (xs ys : List ℕ) (v : ℕ) (f : Fat)
    → written_all (xs ++ ys) v f ≡ written_all ys v (written_all xs v f)
unfolding written_all
written_all-append [] ys v f = refl
written_all-append (x ∷ xs) ys v f = written_all-append xs ys v (written x v f)

undo_runs-eq :
    (rs : List Run) (f : Fat)
    → IsWellFormed f
    → AreBounded rs
    → AreClusters f (clusters_of rs)
    → undo_runs rs f ≡ (ok tt, written_all (clusters_of rs) free_mark f)
unfolding undo_runs written_all
undo_runs-eq [] f w b h = refl
undo_runs-eq (r ∷ rs) f w b h =
    let xs = range_from r.start_cluster r.clusters in
    let first = All-append_left (IsCluster f) xs (clusters_of rs) h in
    let k = written_all-Kept free_mark xs f w first in
    rw (run_span-eq r b.0.2, undo_range-eq r.clusters r.start_cluster f w first)
      (undo_runs-eq rs (written_all xs free_mark f) k.well_formed b.1 (
          Kept-AreClusters f _ xs (clusters_of rs) k
            (All-append_right (IsCluster f) xs (clusters_of rs) h))
        ∙ ap (λ t. (ok tt, t)) (sym (written_all-append xs (clusters_of rs) free_mark f)))

-- Every entry has the value that it had, and the free count is the same.
pub record GivenBack (f : Fat) (last : ℕ) (result : Outcome (List Run) × Fat) : Type 0 where
  pub table : Fat
  pub returns : result ≡ (err (bad_cluster last), table)
  pub well_formed : IsWellFormed table
  pub same_values : (d : ℕ) → value table d ≡ value f d
  pub same_count : table.free_count ≡ f.free_count

module _ (f : Fat) (w : IsWellFormed f) (last count : ℕ) (positive : 0 < count)
    (outside_volume : IsCluster f last → ⊥) (a : Allocated f count (allocate count f)) where
  abbrev new_clusters : List ℕ
  new_clusters = clusters_of a.taken

  abbrev restored : Fat
  restored = written_all new_clusters free_mark a.table

  are_clusters : AreClusters a.table new_clusters
  are_clusters = Linked-All a.table a.well_formed new_clusters a.chain

  restored-Kept : Kept a.table restored new_clusters
  restored-Kept = written_all-Kept free_mark new_clusters a.table a.well_formed are_clusters

  restored-IsFree : All (IsFree restored) new_clusters
  restored-IsFree =
      written_all-All free_mark new_clusters a.table a.well_formed are_clusters
        (Linked-Distinct a.table a.well_formed new_clusters a.chain)

  both_free : All (λ d. value restored d ≡ value f d) new_clusters
  both_free = zip_free new_clusters restored-IsFree a.were_free
    where
      zip_free :
          (l : List ℕ)
          → All (IsFree restored) l
          → All (IsFree f) l
          → All (λ d. value restored d ≡ value f d) l
      zip_free [] h k = tt
      zip_free (x ∷ xs) h k = (h.0 ∙ sym k.0, zip_free xs h.1 k.1)

  values : (d : ℕ) → value restored d ≡ value f d
  values d = elim (member_or_not (λ x. value restored x ≡ value f x) new_clusters d both_free) [
    | inl e ↦ e
    | inr n ↦ rw (restored-Kept.outside d n) (rw (a.outside d n) refl)
  ]

  restored_count : restored.free_count ≡ f.free_count
  restored_count = omega (
    arith,
    a.counted,
    a.size,
    free_count-written_all free_mark 0 new_clusters a.table a.well_formed are_clusters
        (Linked-Distinct a.table a.well_formed new_clusters a.chain)
        (All-mono (λ x. 0 < value a.table x) (λ x. one_if_free (get_or a.table.entries x 0) ≡ 0)
          new_clusters (λ x h. ground arith) (Linked-used a.table new_clusters a.chain)),
  )

  refused : is_valid_cluster a.table last ≡ false
  refused = elim (Bool-cases (is_valid_cluster a.table last)) [
    | inl v ↦ absurd (
        outside_volume
          (omega (arith, is_valid_cluster_sound a.table last a.well_formed v, a.same_volume)))
    | inr v ↦ v
  ]

  link_fails :
      (rs : List Run)
      → a.taken ≡ rs
      → link_onto last rs a.table ≡ (err (bad_cluster last), restored)
  unfolding link_onto set_entry
  link_fails [] e = absurd (omega (arith, a.size, ap (λ l. length (clusters_of l)) e))
  link_fails (r ∷ rs) e =
      rw (refused, ← e, undo_runs-eq a.taken a.table a.well_formed a.bounded are_clusters) refl

  gives_back : GivenBack f last (append last count f)
  gives_back = record {
    table = restored;
    returns = append-eq last count f a.table a.taken a.returns ∙ link_fails a.taken refl;
    well_formed = restored-Kept.well_formed;
    same_values = values;
    same_count = restored_count;
  }

-- On a well-formed table, where `last_cluster` is no cluster of the volume, and at least one
-- cluster is asked for and no more than are free, `append` returns `BadCluster`, and the table is
-- well-formed and has the values of all entries and the free count that it had: what was allocated
-- is given back.
pub append-GivenBack :
    (f : Fat) (w : IsWellFormed f) (last count : ℕ)
    → 0 < count
    → count ≤ f.free_count
    → (IsCluster f last → ⊥)
    → GivenBack f last (append last count f)
append-GivenBack f w last count positive room outside_volume =
    gives_back f w last count positive outside_volume (allocate-Allocated f w count positive room)
