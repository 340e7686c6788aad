-- ===== src/Fat/Allocate.antt =====
-- `Fat::allocate`: what the two guards, the searches and the writes come to.
use resident_fat.Prelude.{
  ℕ, zero, suc, ◌+◌, ◌≤◌, ◌<◌, ◌≡◌, refl, sym, ap, subst, ◌∙◌, ◌⊎◌, inl, inr, List, [], ◌∷◌, Option,
  none, arith, ltb, Bool-cases, length, get_or, range_from, All, All-mono, All-intro, NotIn-intro,
  NotIn, append-nil, range_from-Distinct, range_from-inside, length-range_from,
}
use resident_fat.Words.{high_bits}
use resident_fat.Fat.Table.{
  Run, Fat, Outcome, ok, err, disk_full, masked, end_of_chain, end_of_chain_mark,
}
use resident_fat.Fat.Invariant.{IsWellFormed, IsFree, value, one_if_free}
use resident_fat.Fat.Runs.{clusters_of, AreBounded}
use resident_fat.Fat.Chain.{Linked, Linked-ext, Linked-used}
use resident_fat.Fat.Alloc.{
  find_contiguous, choose_runs, set_runs, link_runs, link_to, last_run, hint_after, resume_after,
  take_clusters, allocate,
}
use resident_fat.Fat.Alloc.Search.{FoundContiguous, found, nowhere, find_contiguous-FoundContiguous}
use resident_fat.Fat.Alloc.Scatter.{Picked, find_scattered-Scattered}
use resident_fat.Fat.Writes.{written_all, link_all, linked_from}
use resident_fat.Fat.Writes.Marking.{
  AreClusters, Kept, Kept-trans, Kept-AreClusters, set_all-eq, written_all-Kept, written_all-All,
  free_count-written_all,
}
use resident_fat.Fat.Writes.Linking.{
  AreEnds, linked_from-Kept, linked_from-Linked, free_count-linked_from,
}
use resident_fat.Fat.Writes.Loops.{set_runs-eq, link_runs-eq, link_all-eq}

-- The runs that the searches settle on: `count` distinct free clusters of the volume.
record Chosen (f : Fat) (count : ℕ) (r : Outcome (List Run)) : Type 0 where
  picks : List Run
  returns : r ≡ ok picks
  bounded : AreBounded picks
  picked : Picked f 2 (f.cluster_count + 2) (clusters_of picks)
  size : length (clusters_of picks) ≡ count

module _ (f : Fat) (w : IsWellFormed f) (count : ℕ) (positive : 0 < count)
    (room : count ≤ f.free_count) where
  after_search :
      (o : Outcome (Option ℕ))
      → FoundContiguous f count o
      → find_contiguous f count ≡ o
      → Chosen f count (choose_runs count f)
  unfolding choose_runs
  after_search o (found s le fits free) e =
      rw (e, choose_runs)
        (record {
          picks = record { file_cluster = 0; start_cluster = s; clusters = count } ∷ [];
          returns = refl;
          bounded = omega (arith, w.small);
          picked =
              subst (Picked f 2 (f.cluster_count + 2)) (sym (append-nil (range_from s count)))
                (record {
                  free = free;
                  inside = range_from-inside count s 2 (f.cluster_count + 2) le fits;
                  distinct = range_from-Distinct count s;
                });
          size = rw append-nil (length-range_from count s);
        })
  after_search o (nowhere a b) e =
      let scattered = find_scattered-Scattered f w count positive room in
      rw (e, choose_runs)
        (record {
          picks = scattered.found;
          returns = scattered.returns;
          bounded = scattered.bounded;
          picked = scattered.picked;
          size = scattered.enough_of_them;
        })

  choose_runs-Chosen : Chosen f count (choose_runs count f)
  choose_runs-Chosen =
      after_search (find_contiguous f count) (find_contiguous-FoundContiguous f count w positive)
        refl

hint_after-legal :
    (f : Fat) (rs : List Run)
    → IsWellFormed f
    → AreBounded rs
    → (2 ≤ hint_after f (last_run rs))
      × ((hint_after f (last_run rs) < f.cluster_count + 2) ⊎ (hint_after f (last_run rs) ≡ 2))
hint_after-legal f [] w b = omega arith
hint_after-legal f (r ∷ []) w b = ground (arith, w.small)
hint_after-legal f (r ∷ s ∷ rs) w b = hint_after-legal f (s ∷ rs) w b.1

-- A successful allocation: `count` clusters that were free are now one chain, the free count is
-- down by `count`, and nothing else of the table has changed.
pub record Allocated (f : Fat) (count : ℕ) (result : Outcome (List Run) × Fat) : Type 0 where
  pub taken : List Run
  pub table : Fat
  pub returns : result ≡ (ok taken, table)
  pub bounded : AreBounded taken
  pub well_formed : IsWellFormed table
  pub same_volume : table.cluster_count ≡ f.cluster_count
  pub size : length (clusters_of taken) ≡ count
  pub were_free : All (IsFree f) (clusters_of taken)
  pub chain : Linked table (clusters_of taken)
  pub counted : table.free_count + count ≡ f.free_count
  pub outside :
      (d : ℕ) → NotIn d (clusters_of taken) → get_or table.entries d 0 ≡ get_or f.entries d 0
  pub reserved :
      (d : ℕ) → high_bits (get_or table.entries d 0) 28 ≡ high_bits (get_or f.entries d 0) 28

module _ (f : Fat) (w : IsWellFormed f) (rs : List Run) (b : AreBounded rs) (c : ℕ) (cs : List ℕ)
    (covers : clusters_of rs ≡ c ∷ cs) (picked : Picked f 2 (f.cluster_count + 2) (c ∷ cs)) where
  abbrev marked_table : Fat
  marked_table = written_all (c ∷ cs) end_of_chain_mark f

  abbrev linked_table : Fat
  linked_table = linked_from c cs marked_table

  abbrev final_table : Fat
  final_table = record linked_table { next_free = hint_after linked_table (last_run rs) }

  marked : Kept f marked_table (c ∷ cs)
  marked = written_all-Kept end_of_chain_mark (c ∷ cs) f w picked.inside

  marked_clusters : AreClusters marked_table (c ∷ cs)
  marked_clusters = Kept-AreClusters f marked_table (c ∷ cs) (c ∷ cs) marked picked.inside

  marked_ends : AreEnds marked_table (c ∷ cs)
  marked_ends =
      All-mono (λ x. value marked_table x ≡ masked end_of_chain_mark)
        (λ x. end_of_chain ≤ value marked_table x) (c ∷ cs) (λ x e. omega arith)
        (written_all-All end_of_chain_mark (c ∷ cs) f w picked.inside picked.distinct)

  linked : Kept marked_table linked_table (c ∷ cs)
  linked = linked_from-Kept c cs marked_table marked.well_formed marked_clusters

  kept : Kept f linked_table (c ∷ cs)
  kept = Kept-trans f marked_table linked_table (c ∷ cs) marked linked

  final_free_count : linked_table.free_count + length (c ∷ cs) ≡ f.free_count
  final_free_count = omega (
    arith,
    free_count-linked_from c cs marked_table marked.well_formed marked_clusters picked.distinct
        marked_ends,
    free_count-written_all end_of_chain_mark 1 (c ∷ cs) f w picked.inside picked.distinct (
        All-mono (IsFree f) (λ x. one_if_free (get_or f.entries x 0) ≡ 1) (c ∷ cs)
          (λ x e. rw e refl) picked.free),
  )

  mark_pass : set_runs rs end_of_chain_mark f ≡ (ok tt, marked_table)
  mark_pass =
      rw (set_runs-eq end_of_chain_mark rs b, covers)
        (set_all-eq end_of_chain_mark (c ∷ cs) f w picked.inside)

  link_pass : (last : Option ℕ) × (link_runs rs none marked_table ≡ (ok last, linked_table))
  unfolding link_all link_to
  link_pass =
      rw (link_runs-eq rs none b, covers)
        (link_all-eq c cs marked_table marked.well_formed marked_clusters)

  after_choice :
      (count : ℕ) → choose_runs count f ≡ ok rs → take_clusters count f ≡ (ok rs, final_table)
  unfolding take_clusters resume_after
  after_choice count e = rw (e, mark_pass, link_pass.1) refl

  final-Linked : Linked final_table (c ∷ cs)
  final-Linked =
      Linked-ext linked_table final_table (c ∷ cs) refl
        (All-intro (λ x. get_or final_table.entries x 0 ≡ get_or linked_table.entries x 0) (c ∷ cs)
          (λ x. refl))
        (linked_from-Linked c cs marked_table marked.well_formed marked_clusters picked.distinct
          marked_ends)

  final-IsWellFormed : IsWellFormed final_table
  final-IsWellFormed = record {
    sized = kept.well_formed.sized;
    small = kept.well_formed.small;
    counted = kept.well_formed.counted;
    hint = hint_after-legal linked_table rs kept.well_formed b;
  }

  taken-Allocated :
      (count : ℕ)
      → choose_runs count f ≡ ok rs
      → length (clusters_of rs) ≡ count
      → Allocated f count (take_clusters count f)
  taken-Allocated count e size = record {
    taken = rs;
    table = final_table;
    returns = after_choice count e;
    bounded = b;
    well_formed = final-IsWellFormed;
    same_volume = kept.same_volume;
    size = size;
    were_free = rw covers picked.free;
    chain = rw covers final-Linked;
    counted = omega (arith, final_free_count, ap length covers);
    outside = rw covers kept.outside;
    reserved = kept.reserved;
  }

module _ (f : Fat) (w : IsWellFormed f) (count : ℕ) (positive : 0 < count)
    (room : count ≤ f.free_count) where
  chosen-Allocated :
      (rs : List Run) (cs : List ℕ)
      → clusters_of rs ≡ cs
      → AreBounded rs
      → Picked f 2 (f.cluster_count + 2) cs
      → choose_runs count f ≡ ok rs
      → length cs ≡ count
      → Allocated f count (take_clusters count f)
  chosen-Allocated rs [] covers b p e size = absurd (omega arith)
  chosen-Allocated rs (c ∷ cs) covers b p e size =
      taken-Allocated f w rs b c cs covers p count e (ap length covers ∙ size)

  guards_pass : allocate count f ≡ take_clusters count f
  unfolding allocate
  guards_pass = ground arith

  -- With room for `count` clusters an allocation succeeds, and does what `Allocated` says.
  pub allocate-Allocated : Allocated f count (allocate count f)
  allocate-Allocated =
      let chosen = choose_runs-Chosen f w count positive room in
      rw guards_pass (
        chosen-Allocated chosen.picks (clusters_of chosen.picks) refl chosen.bounded chosen.picked
          chosen.returns chosen.size)

-- Without room it fails and changes nothing.
pub allocate_full :
    (f : Fat) (count : ℕ)
    → f.free_count < count
    → allocate count f ≡ (err (disk_full count f.free_count), f)
unfolding allocate
allocate_full f count h = ground arith

-- A chain that was there before an allocation is there after it.
pub Allocated-Linked :
    (f : Fat) (count : ℕ) (result : Outcome (List Run) × Fat) (ds : List ℕ)
    (a : Allocated f count result)
    → Linked f ds
    → Linked a.table ds
Allocated-Linked f count result ds a h =
    Linked-ext f a.table ds a.same_volume
      (All-mono (λ d. 0 < value f d) (λ d. get_or a.table.entries d 0 ≡ get_or f.entries d 0) ds
        (λ d used. a.outside d (
          NotIn-intro (IsFree f) (λ x. 0 < value f x) (clusters_of a.taken) d (λ x p q. omega arith)
            used a.were_free))
        (Linked-used f ds h))
      h

-- What every outcome of `allocate` leaves: the table unchanged, or an allocation.
allocate_outcomes :
    (f : Fat)
    → IsWellFormed f
    → (count : ℕ) → ((allocate count f).1 ≡ f) ⊎ Allocated f count (allocate count f)
unfolding allocate
allocate_outcomes f w zero = inl refl
allocate_outcomes f w (suc n) = elim (Bool-cases (ltb f.free_count (suc n))) [
  | inl full ↦ inl (ap (λ r. r.1) (allocate_full f (suc n) (ground arith)))
  | inr room ↦ inr (allocate-Allocated f w (suc n) (omega arith) (ground arith))
]

-- Whatever is asked of `allocate` and whatever it returns, the table is well formed afterwards and
-- each chain that was there is there still.
pub allocate_keeps :
    (f : Fat) (count : ℕ) (ds : List ℕ)
    → IsWellFormed f
    → Linked f ds
    → IsWellFormed (allocate count f).1 × Linked (allocate count f).1 ds
allocate_keeps f count ds w h = elim (allocate_outcomes f w count) [
  | inl same ↦ (subst IsWellFormed (sym same) w, subst (λ g. Linked g ds) (sym same) h)
  | inr a ↦
      let e : (allocate count f).1 ≡ a.table = ap (λ r. r.1) a.returns in
      (
        subst IsWellFormed (sym e) a.well_formed,
        subst (λ g. Linked g ds) (sym e) (Allocated-Linked f count (allocate count f) ds a h),
      )
]
