-- ===== src/Fat/Alloc.antt =====
-- `Fat::allocate` and its two searches, `find_contiguous` and `find_scattered`.
pub mod Search
pub mod Scatter
use resident_fat.Prelude.{
  ℕ, zero, suc, ◌+◌, ◌-◌, List, [], ◌∷◌, Option, none, some, not, ltb, ◌==◌, if◌then◌else◌,
  get_elem?,
}
use resident_fat.Words.{u32}
use resident_fat.Fat.Table.{
  Run, Fat, M, pure, reading, ◌>>=◌, ◌>>◌, Outcome, ok, err, panic, stuck, disk_full, first_cluster,
  free_mark, end_of_chain_mark, masked, set_entry,
}
use resident_fat.Fat.Runs.{push_cluster}

-- `run_start.get_or_insert(cluster)`
abbrev pub or_insert : Option ℕ → ℕ → ℕ
or_insert none c = c
or_insert (some s) c = s

-- One pass of `find_contiguous`, over as many clusters from `c` on as the first number says.
unfoldable pub seek : ℕ → Fat → ℕ → ℕ → Option ℕ → ℕ → Outcome (Option ℕ)
seek zero f count c run_start run_len = ok none
seek (suc n) f count c run_start run_len = elim (get_elem? f.entries c) [
  | none ↦ panic
  | some w ↦
      let broken = seek n f count (suc c) none 0 in
      let longer = seek n f count (suc c) (some (or_insert run_start c)) (u32 (run_len + 1)) in
      if masked w == free_mark
      then (if u32 (run_len + 1) == count then ok (some (or_insert run_start c)) else longer)
      else broken
]

abbrev pub or_else : Outcome (Option ℕ) → Outcome (Option ℕ) → Outcome (Option ℕ)
or_else (ok none) later = later
or_else (ok (some s)) later = ok (some s)
or_else (err e) later = err e
or_else panic later = panic
or_else stuck later = stuck

-- `FIRST_CLUSTER + self.cluster_count`
abbrev pub end_of : Fat → ℕ
end_of f = u32 (first_cluster + f.cluster_count)

unfoldable pub find_contiguous : Fat → ℕ → Outcome (Option ℕ)
unfolding seek
find_contiguous f count =
    or_else (seek (end_of f - f.next_free) f count f.next_free none 0)
      (seek (f.next_free - first_cluster) f count first_cluster none 0)

-- How a pass of `find_scattered` ends: with all that was wanted, or with what there was.
pub data Gather : Type 0 where
  enough : List Run → Gather
  short : List Run → ℕ → Gather

unfoldable pub gather : ℕ → Fat → ℕ → ℕ → List Run → ℕ → Outcome Gather
unfolding push_cluster
gather zero f count c acc taken = ok (short acc taken)
gather (suc n) f count c acc taken = elim (get_elem? f.entries c) [
  | none ↦ panic
  | some w ↦
      let passed = gather n f count (suc c) acc taken in
      let later = gather n f count (suc c) (push_cluster acc taken c) (u32 (taken + 1)) in
      if not (masked w == free_mark)
      then passed
      else if u32 (taken + 1) == count
      then ok (enough (push_cluster acc taken c))
      else later
]

-- What is left of `find_scattered` after its second pass.
unfoldable pub last_pass : ℕ → Outcome Gather → Outcome (List Run)
last_pass count (ok (enough rs)) = ok rs
last_pass count (ok (short rs taken)) = err (disk_full count taken)
last_pass count (err e) = err e
last_pass count panic = panic
last_pass count stuck = stuck

-- What is left of it after its first pass: the second pass goes on with the same runs.
unfoldable pub second_pass : Fat → ℕ → Outcome Gather → Outcome (List Run)
unfolding gather last_pass
second_pass f count (ok (enough rs)) = ok rs
second_pass f count (ok (short rs taken)) =
    last_pass count (gather (f.next_free - first_cluster) f count first_cluster rs taken)
second_pass f count (err e) = err e
second_pass f count panic = panic
second_pass f count stuck = stuck

unfoldable pub find_scattered : Fat → ℕ → Outcome (List Run)
unfolding second_pass
find_scattered f count =
    second_pass f count (gather (end_of f - f.next_free) f count f.next_free [] 0)

unfoldable pub choose_runs : ℕ → Fat → Outcome (List Run)
unfolding find_contiguous find_scattered
choose_runs count f = elim (find_contiguous f count) [
  | ok none ↦ find_scattered f count
  | ok (some s) ↦ ok (record { file_cluster = 0; start_cluster = s; clusters = count } ∷ [])
  | err e ↦ err e
  | panic ↦ panic
  | stuck ↦ stuck
]

-- `for cluster in c..c + n { self.set_entry(cluster, value)? }`
unfoldable pub set_range : ℕ → ℕ → ℕ → M (Unit {0})
unfolding set_entry
set_range zero c value = pure tt
set_range (suc n) c value = do set_entry c value; set_range n (suc c) value

abbrev pub run_span : Run → ℕ
run_span r = u32 (r.start_cluster + r.clusters) - r.start_cluster

unfoldable pub set_runs : List Run → ℕ → M (Unit {0})
unfolding set_range
set_runs [] value = pure tt
set_runs (r ∷ rs) value = do set_range (run_span r) r.start_cluster value; set_runs rs value

-- `if let Some(before) = previous { self.set_entry(before, cluster)? }`
unfoldable pub link_to : Option ℕ → ℕ → M (Unit {0})
unfolding set_entry
link_to none c = pure tt
link_to (some before) c = set_entry before c

unfoldable pub link_range : ℕ → ℕ → Option ℕ → M (Option ℕ)
unfolding link_to
link_range zero c previous = pure previous
link_range (suc n) c previous = do link_to previous c; link_range n (suc c) (some c)

unfoldable pub link_runs : List Run → Option ℕ → M (Option ℕ)
unfolding link_range
link_runs [] previous = pure previous
link_runs (r ∷ rs) previous = do
  last ← link_range (run_span r) r.start_cluster previous
  link_runs rs last

abbrev pub last_run : List Run → Option Run
last_run [] = none
last_run (r ∷ []) = some r
last_run (r ∷ s ∷ rs) = last_run (s ∷ rs)

-- where the next search resumes
abbrev pub hint_after : Fat → Option Run → ℕ
hint_after f none = first_cluster
hint_after f (some r) =
    if ltb (u32 (r.start_cluster + r.clusters)) (end_of f)
    then u32 (r.start_cluster + r.clusters)
    else first_cluster

unfoldable pub resume_after : List Run → M (Unit {0})
resume_after rs f = (ok tt, record f { next_free = hint_after f (last_run rs) })

-- `allocate` past its two guards
unfoldable pub take_clusters : ℕ → M (List Run)
unfolding choose_runs set_runs link_runs resume_after
take_clusters count = do
  rs ← reading (choose_runs count)
  set_runs rs end_of_chain_mark
  _ ← link_runs rs none
  resume_after rs
  pure rs

unfoldable pub allocate : ℕ → M (List Run)
unfolding take_clusters
allocate count f =
    if count == 0
    then (ok [], f)
    else if ltb f.free_count count
    then (err (disk_full count f.free_count), f)
    else take_clusters count f
