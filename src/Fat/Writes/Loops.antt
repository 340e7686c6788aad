-- ===== src/Fat/Writes/Loops.antt =====
-- The nested loops `for run in &runs { for cluster in … }` go through the clusters that the runs
-- cover, one after the other.
use mathlib.Core.Path.{fun_ext}
use resident_fat.Prelude.{
  ℕ, zero, suc, ◌+◌, ◌≤◌, ◌≡◌, refl, sym, List, [], ◌∷◌, ◌++◌, Option, some, arith, range_from,
}
use resident_fat.Fat.Table.{
  Run, Fat, Outcome, ok, err, panic, stuck, M, continue_with, ◌>>=◌, ◌>>◌, set_entry,
}
use resident_fat.Fat.Invariant.{IsWellFormed}
use resident_fat.Fat.Runs.{clusters_of, AreBounded}
use resident_fat.Fat.Alloc.{run_span, set_range, set_runs, link_to, link_range, link_runs}
use resident_fat.Fat.SetEntry.{set_entry-eq-written, written-IsWellFormed}
use resident_fat.Fat.Writes.{set_all, link_all, linked_from}
use resident_fat.Fat.Writes.Marking.{AreClusters, AreClusters-written}

continue_with_assoc :
    {A B C : Type 0} (p : Outcome A × Fat) (k : A → M B) (l : B → M C)
    → continue_with (continue_with p k) l ≡ continue_with p (λ a f. continue_with (k a f) l)
continue_with_assoc (ok a, f) k l = refl
continue_with_assoc (err e, f) k l = refl
continue_with_assoc (panic, f) k l = refl
continue_with_assoc (stuck, f) k l = refl

pub run_span-eq : (r : Run) → r.start_cluster + r.clusters ≤ 0x0FFF_FFF7 → run_span r ≡ r.clusters
run_span-eq r h = omega arith

module _ (v : ℕ) where
  set_range-eq : (n c : ℕ) → set_range n c v ≡ set_all (range_from c n) v
  unfolding set_range set_all
  set_range-eq zero c = refl
  set_range-eq (suc n) c = rw (set_range-eq n (suc c)) refl

  set_all-append : (xs ys : List ℕ) → set_all (xs ++ ys) v ≡ (set_all xs v >> set_all ys v)
  unfolding set_all
  set_all-append [] ys = refl
  set_all-append (x ∷ xs) ys =
      rw (set_all-append xs ys) (fun_ext λ f. sym (continue_with_assoc (set_entry x v f) _ _))

  pub set_runs-eq : (rs : List Run) → AreBounded rs → set_runs rs v ≡ set_all (clusters_of rs) v
  unfolding set_runs set_all
  set_runs-eq [] b = refl
  set_runs-eq (r ∷ rs) b =
      rw (run_span-eq r b.0.2, set_range-eq r.clusters r.start_cluster, set_runs-eq rs b.1)
        (sym (set_all-append (range_from r.start_cluster r.clusters) (clusters_of rs)))

link_range-eq : (n c : ℕ) (p : Option ℕ) → link_range n c p ≡ link_all (range_from c n) p
unfolding link_range link_all
link_range-eq zero c p = refl
link_range-eq (suc n) c p = rw (link_range-eq n (suc c) (some c)) refl

link_all-append :
    (xs ys : List ℕ) (p : Option ℕ) → link_all (xs ++ ys) p ≡ (link_all xs p >>= λ q. link_all ys q)
unfolding link_all
link_all-append [] ys p = refl
link_all-append (x ∷ xs) ys p =
    rw (link_all-append xs ys (some x)) (fun_ext λ f. sym (continue_with_assoc (link_to p x f) _ _))

pub link_runs-eq :
    (rs : List Run) (p : Option ℕ) → AreBounded rs → link_runs rs p ≡ link_all (clusters_of rs) p
unfolding link_runs link_all
link_runs-eq [] p b = refl
link_runs-eq (r ∷ rs) p b =
    rw (run_span-eq r b.0.2, link_range-eq r.clusters r.start_cluster p)
      (rw (fun_ext (λ q. link_runs-eq rs q b.1))
        (sym (link_all-append (range_from r.start_cluster r.clusters) (clusters_of rs) p)))

-- The links after a first cluster, as a table.
pub link_all-eq :
    (b : ℕ) (cs : List ℕ) (f : Fat)
    → IsWellFormed f
    → AreClusters f (b ∷ cs)
    → (last : Option ℕ) × (link_all cs (some b) f ≡ (ok last, linked_from b cs f))
unfolding link_all link_to linked_from
link_all-eq b [] f w h = (some b, refl)
link_all-eq b (c ∷ cs) f w h =
    rw (set_entry-eq-written f w b c h.0) (
      link_all-eq c cs _ (written-IsWellFormed f w b c h.0)
        (AreClusters-written c f b (c ∷ cs) h.1))
