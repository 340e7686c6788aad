-- ===== src/Fat/Release.antt =====
-- `Fat::free_chain`, `Fat::truncate_chain` and `Fat::append`.
pub mod Freed
pub mod Locate
pub mod Truncated
pub mod Appended
pub mod GivenBack
use resident_fat.Prelude.{
  ℕ, zero, suc, ◌+◌, ◌-◌, min, List, [], ◌∷◌, Option, none, some, leb, ◌==◌, if◌then◌else◌,
}
use resident_fat.Words.{u32}
use resident_fat.Fat.Table.{
  Run, Fat, M, pure, reading, ◌>>=◌, ◌>>◌, Outcome, ok, err, panic, stuck, free_mark,
  end_of_chain_mark, set_entry,
}
use resident_fat.Fat.Runs.{runs, total_clusters}
use resident_fat.Fat.Alloc.{run_span, allocate}

-- `for cluster in … { self.set_entry(cluster, FREE)?; freed += 1; }`
unfoldable pub free_range : ℕ → ℕ → ℕ → M ℕ
unfolding set_entry
free_range zero c freed = pure freed
free_range (suc n) c freed = do set_entry c free_mark; free_range n (suc c) (u32 (freed + 1))

unfoldable pub lower_hint : ℕ → M (Unit {0})
lower_hint c f = (ok tt, record f { next_free = min f.next_free c })

unfoldable pub free_runs : List Run → ℕ → M ℕ
unfolding free_range lower_hint
free_runs [] freed = pure freed
free_runs (r ∷ rs) freed = do
  so_far ← free_range (run_span r) r.start_cluster freed
  lower_hint r.start_cluster
  free_runs rs so_far

unfoldable pub free_chain : ℕ → M ℕ
free_chain start = do rs ← reading (λ f. runs f start); free_runs rs 0

-- The variables of the loop of `truncate_chain`.
pub record Located : Type 0 where
  pub walked : ℕ
  pub last : ℕ
  pub first_freed : Option ℕ

unfoldable pub locate_step : ℕ → ℕ → Located → Located
locate_step keep c s =
    if s.walked == keep - 1
    then record s { last = c; walked = u32 (s.walked + 1) }
    else if s.walked == keep
    then record s { first_freed = some c; walked = u32 (s.walked + 1) }
    else record s { walked = u32 (s.walked + 1) }

unfoldable pub locate_range : ℕ → ℕ → ℕ → Located → Located
unfolding locate_step
locate_range keep zero c s = s
locate_range keep (suc n) c s = locate_range keep n (suc c) (locate_step keep c s)

unfoldable pub locate_runs : ℕ → List Run → Located → Located
unfolding locate_range
locate_runs keep [] s = s
locate_runs keep (r ∷ rs) s = locate_runs keep rs (locate_range keep r.clusters r.start_cluster s)

abbrev pub free_tail : Option ℕ → M (Unit {0})
free_tail none = pure tt
free_tail (some tail) = do _ ← free_chain tail; pure tt

-- the new end of the chain, and then the tail
unfoldable pub cut : Located → M (Unit {0})
cut s = do set_entry s.last end_of_chain_mark; free_tail s.first_freed

unfoldable pub shorten : ℕ → ℕ → List Run → M (Unit {0})
shorten start keep rs =
    if leb (u32 (total_clusters rs)) keep
    then pure tt
    else cut (locate_runs keep rs (record { walked = 0; last = start; first_freed = none }))

unfoldable pub truncate_chain : ℕ → ℕ → M (Unit {0})
truncate_chain start keep =
    if keep == 0
    then (do _ ← free_chain start; pure tt)
    else (do rs ← reading (λ f. runs f start); shorten start keep rs)

-- `let _ = self.set_entry(cluster, FREE);`: an error is dropped.
abbrev pub ignored : {A : Type 0} → Outcome A × Fat → Outcome (Unit {0}) × Fat
ignored (ok a, f) = (ok tt, f)
ignored (err e, f) = (ok tt, f)
ignored (panic, f) = (panic, f)
ignored (stuck, f) = (stuck, f)

unfoldable pub undo_range : ℕ → ℕ → M (Unit {0})
unfolding set_entry
undo_range zero c = pure tt
undo_range (suc n) c = do (λ f. ignored (set_entry c free_mark f)); undo_range n (suc c)

unfoldable pub undo_runs : List Run → M (Unit {0})
unfolding undo_range
undo_runs [] = pure tt
undo_runs (r ∷ rs) = do undo_range (run_span r) r.start_cluster; undo_runs rs

-- The end of `append`, on what the link returned: give the clusters back if it failed.
abbrev pub or_give_back : List Run → Outcome (Unit {0}) × Fat → Outcome (List Run) × Fat
or_give_back rs (ok _, f) = (ok rs, f)
or_give_back rs (err e, f) = (do undo_runs rs; (λ g. (err e, g))) f
or_give_back rs (panic, f) = (panic, f)
or_give_back rs (stuck, f) = (stuck, f)

unfoldable pub link_onto : ℕ → List Run → M (List Run)
link_onto last_cluster [] f = (ok [], f)
link_onto last_cluster (r ∷ rs) f = or_give_back (r ∷ rs) (set_entry last_cluster r.start_cluster f)

unfoldable pub append : ℕ → ℕ → M (List Run)
append last_cluster count = do rs ← allocate count; link_onto last_cluster rs
