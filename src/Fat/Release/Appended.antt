-- ===== src/Fat/Release/Appended.antt =====
-- The effect of `Fat::append` (src/fat.rs) on the chain that it lengthens.
use resident_fat.Prelude.{
  ℕ, zero, suc, ◌+◌, ◌≤◌, ◌<◌, ◌≡◌, refl, sym, ap, subst, ◌∙◌, List, [], ◌∷◌, ◌++◌, arith, length,
  get_or, range_from, All, All-mono, NotIn, NotIn-intro, Distinct-apart,
}
use resident_fat.Fat.Table.{Run, Fat, Outcome, ok, err, disk_full}
use resident_fat.Fat.Invariant.{IsWellFormed, IsFree, value}
use resident_fat.Fat.SetEntry.{
  written, set_entry-eq-written, value-written_self, entry-written_ne, free_count-written,
  written-IsWellFormed,
}
use resident_fat.Fat.Runs.{clusters_of, AreBounded}
use resident_fat.Fat.Chain.{
  Linked, Linked-Distinct, Linked-used, Linked-suffix, Linked-ext, Linked-prefix,
}
use resident_fat.Fat.Alloc.{allocate}
use resident_fat.Fat.Allocate.{Allocated, allocate-Allocated, allocate_full, Allocated-Linked}
use resident_fat.Fat.Writes.Marking.{cluster_count-written}
use resident_fat.Fat.Release.{link_onto, append}
use resident_fat.Fat.Release.Truncated.{entries-written}

-- `count` clusters that were free follow `last` in its chain.
pub record Appended (f : Fat) (cs : List ℕ) (last count : ℕ) (result : Outcome (List Run) × Fat)
    : Type 0 where
  pub taken : List Run
  pub table : Fat
  pub returns : result ≡ (ok taken, table)
  pub well_formed : IsWellFormed table
  pub size : length (clusters_of taken) ≡ count
  pub were_free : All (IsFree f) (clusters_of taken)
  pub chain : Linked table (cs ++ last ∷ clusters_of taken)
  pub counted : table.free_count + count ≡ f.free_count
  pub outside :
      (d : ℕ) → NotIn d (last ∷ clusters_of taken) → get_or table.entries d 0 ≡ get_or f.entries d 0

head_start :
    (r : Run) (rs : List Run)
    → 1 ≤ r.clusters
    → (ds : List ℕ) × (clusters_of (r ∷ rs) ≡ r.start_cluster ∷ ds)
head_start r rs h = tail_of r.start_cluster r.clusters h
  where
    tail_of : (s n : ℕ) → 1 ≤ n → (ds : List ℕ) × (range_from s n ++ clusters_of rs ≡ s ∷ ds)
    tail_of s zero h = absurd (omega arith)
    tail_of s (suc n) h = (range_from (suc s) n ++ clusters_of rs, refl)

pub append-eq :
    (last count : ℕ) (f g : Fat) (rs : List Run)
    → allocate count f ≡ (ok rs, g)
    → append last count f ≡ link_onto last rs g
unfolding append
append-eq last count f g rs e = rw e refl

module _ (f : Fat) (w : IsWellFormed f) (cs : List ℕ) (last count : ℕ)
    (h : Linked f (cs ++ last ∷ [])) (positive : 0 < count)
    (a : Allocated f count (allocate count f)) where
  last_chain : Linked a.table (cs ++ last ∷ [])
  last_chain = Allocated-Linked f count (allocate count f) (cs ++ last ∷ []) a h

  last_end : Linked a.table (last ∷ [])
  last_end = Linked-suffix a.table a.well_formed cs last [] last_chain

  last_apart : NotIn last (clusters_of a.taken)
  last_apart =
      NotIn-intro (IsFree f) (λ x. 0 < value f x) (clusters_of a.taken) last (λ x p q. omega arith)
        (Linked-used f (last ∷ []) (Linked-suffix f w cs last [] h)).0 a.were_free

  module _ (r : Run) (rs : List Run) (is : a.taken ≡ r ∷ rs) where
    abbrev joined : Fat
    joined = written last r.start_cluster a.table

    bounded_run : AreBounded (r ∷ rs)
    bounded_run = subst AreBounded is a.bounded

    new_clusters : Linked joined (clusters_of a.taken)
    new_clusters =
        Linked-ext a.table joined (clusters_of a.taken)
          (cluster_count-written last r.start_cluster a.table)
          (entries-written a.table last r.start_cluster (clusters_of a.taken) last_apart) a.chain

    starts_with : (ds : List ℕ) × (clusters_of a.taken ≡ r.start_cluster ∷ ds)
    starts_with = let (ds, e) = head_start r rs bounded_run.0.1 in (ds, ap clusters_of is ∙ e)

    from_last : Linked joined (last ∷ clusters_of a.taken)
    from_last =
        let (ds, e) = starts_with in
        let valid = cluster_count-written last r.start_cluster a.table in
        let there = value-written_self a.table a.well_formed last r.start_cluster last_end.0 in
        rw e (
          omega (arith, valid, last_end.0),
          there ∙ omega (arith, bounded_run.0),
          rw e at new_clusters,
        )

    whole_chain : Linked joined (cs ++ last ∷ clusters_of a.taken)
    whole_chain =
        Linked-prefix a.table joined cs last [] (clusters_of a.taken)
          (cluster_count-written last r.start_cluster a.table)
          (All-mono (λ x. NotIn x (last ∷ []))
            (λ x. get_or joined.entries x 0 ≡ get_or a.table.entries x 0) cs
            (λ x n. entry-written_ne a.table last r.start_cluster x (λ e. n.0 (sym e)))
            (Distinct-apart cs (last ∷ []) (Linked-Distinct a.table a.well_formed _ last_chain)))
          last_chain from_last

    joined_count : joined.free_count ≡ a.table.free_count
    joined_count = ground (
      arith,
      last_end.1,
      bounded_run.0,
      free_count-written a.table a.well_formed last r.start_cluster last_end.0,
    )

    link_onto-eq : link_onto last (r ∷ rs) a.table ≡ (ok (r ∷ rs), joined)
    unfolding link_onto
    link_onto-eq =
        rw (set_entry-eq-written a.table a.well_formed last r.start_cluster last_end.0) refl

    joined-Appended : Appended f cs last count (append last count f)
    joined-Appended = record {
      taken = a.taken;
      table = joined;
      returns = append-eq last count f a.table a.taken a.returns ∙ rw is link_onto-eq;
      well_formed = written-IsWellFormed a.table a.well_formed last r.start_cluster last_end.0;
      size = a.size;
      were_free = a.were_free;
      chain = whole_chain;
      counted = omega (arith, joined_count, a.counted);
      outside = λ d n.
          entry-written_ne a.table last r.start_cluster d (λ e. n.0 (sym e)) ∙ a.outside d n.1;
    }

  by_taken : (rs : List Run) → a.taken ≡ rs → Appended f cs last count (append last count f)
  by_taken [] e = absurd (omega (arith, a.size, ap (λ l. length (clusters_of l)) e))
  by_taken (r ∷ rs) e = joined-Appended r rs e

-- With room, `append` lengthens the chain that ends at `last_cluster` by `count` clusters.
pub append-Appended :
    (f : Fat) (w : IsWellFormed f) (cs : List ℕ) (last count : ℕ)
    → Linked f (cs ++ last ∷ [])
    → 0 < count
    → count ≤ f.free_count
    → Appended f cs last count (append last count f)
append-Appended f w cs last count h positive room =
    let a = allocate-Allocated f w count positive room in
    by_taken f w cs last count h positive a a.taken refl

-- Without room it fails and changes nothing.
pub append_full :
    (f : Fat) (last count : ℕ)
    → f.free_count < count
    → append last count f ≡ (err (disk_full count f.free_count), f)
unfolding append
append_full f last count h = rw (allocate_full f count h) refl
