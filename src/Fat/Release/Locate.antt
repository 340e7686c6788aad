-- ===== src/Fat/Release/Locate.antt =====
-- The loop of `Fat::truncate_chain` (src/fat.rs) that looks for the new end of the chain.
use resident_fat.Prelude.{
  ℕ, zero, suc, ◌+◌, ◌<◌, ◌≡◌, refl, ap, List, [], ◌∷◌, ◌++◌, some, arith, length, length-append,
  range_from, take, drop,
}
use resident_fat.Fat.Table.{Run}
use resident_fat.Fat.Runs.{clusters_of, total_clusters}
use resident_fat.Fat.Release.{Located, locate_step, locate_range, locate_runs}

unfoldable pub locate_all : ℕ → List ℕ → Located → Located
unfolding locate_step
locate_all keep [] s = s
locate_all keep (c ∷ cs) s = locate_all keep cs (locate_step keep c s)

locate_range-eq :
    (keep n c : ℕ) (s : Located) → locate_range keep n c s ≡ locate_all keep (range_from c n) s
unfolding locate_range locate_all
locate_range-eq keep zero c s = refl
locate_range-eq keep (suc n) c s = locate_range-eq keep n (suc c) (locate_step keep c s)

locate_all-append :
    (keep : ℕ) (xs ys : List ℕ) (s : Located)
    → locate_all keep (xs ++ ys) s ≡ locate_all keep ys (locate_all keep xs s)
unfolding locate_all
locate_all-append keep [] ys s = refl
locate_all-append keep (x ∷ xs) ys s = locate_all-append keep xs ys (locate_step keep x s)

pub locate_runs-eq :
    (keep : ℕ) (rs : List Run) (s : Located)
    → locate_runs keep rs s ≡ locate_all keep (clusters_of rs) s
unfolding locate_runs locate_all
locate_runs-eq keep [] s = refl
locate_runs-eq keep (r ∷ rs) s =
    rw (locate_all-append keep (range_from r.start_cluster r.clusters) (clusters_of rs) s)
      (rw (← locate_range-eq keep r.clusters r.start_cluster s) (locate_runs-eq keep rs _))

pub length-clusters_of : (rs : List Run) → length (clusters_of rs) ≡ total_clusters rs
length-clusters_of [] = refl
length-clusters_of (r ∷ rs) = omega (
  arith,
  length-append (range_from r.start_cluster r.clusters) (clusters_of rs),
  length_range r.clusters r.start_cluster,
  length-clusters_of rs,
)
  where
    length_range : (n c : ℕ) → length (range_from c n) ≡ n
    length_range zero c = refl
    length_range (suc n) c = ap suc (length_range n (suc c))

-- Past both clusters the loop only counts.
locate_after :
    (keep : ℕ) (xs : List ℕ) (s : Located)
    → keep < s.walked
    → s.walked + length xs < 0x1_0000_0000
    → ((locate_all keep xs s).last ≡ s.last) × ((locate_all keep xs s).first_freed ≡ s.first_freed)
unfolding locate_all
locate_after keep [] s past small = (refl, refl)
locate_after keep (x ∷ xs) s past small =
    ground (arith, locate_after keep xs (locate_step keep x s))

pub locate_found :
    (keep : ℕ) (xs : List ℕ) (y z : ℕ) (zs : List ℕ) (s : Located)
    → s.walked + length xs + 1 ≡ keep
    → keep + length zs + 1 < 0x1_0000_0000
    → ((locate_all keep (xs ++ y ∷ z ∷ zs) s).last ≡ y)
      × ((locate_all keep (xs ++ y ∷ z ∷ zs) s).first_freed ≡ some z)
unfolding locate_all locate_step
locate_found keep [] y z zs s here small =
    ground (arith, locate_after keep zs (locate_step keep z (locate_step keep y s)))
locate_found keep (x ∷ xs) y z zs s here small =
    ground (arith, locate_found keep xs y z zs (locate_step keep x s))

-- A list of more than `keep` clusters, parted around the cut.
pub record Parted (keep : ℕ) (l : List ℕ) : Type 0 where
  pub front : List ℕ
  pub last : ℕ
  pub next : ℕ
  pub rest : List ℕ
  pub whole : l ≡ front ++ last ∷ next ∷ rest
  pub size : length front + 1 ≡ keep
  pub kept : take keep l ≡ front ++ last ∷ []
  pub freed : drop keep l ≡ next ∷ rest

pub parted : (keep : ℕ) (l : List ℕ) → 0 < keep → keep < length l → Parted keep l
parted zero l positive short = absurd (omega arith)
parted (suc k) [] positive short = absurd (omega arith)
parted (suc zero) (x ∷ []) positive short = absurd (omega arith)
parted (suc zero) (x ∷ y ∷ l) positive short = record {
  front = [];
  last = x;
  next = y;
  rest = l;
  whole = refl;
  size = omega arith;
  kept = refl;
  freed = refl;
}
parted (suc (suc k)) (x ∷ l) positive short =
    let p = parted (suc k) l (omega arith) (omega arith) in
    record {
      front = x ∷ p.front;
      last = p.last;
      next = p.next;
      rest = p.rest;
      whole = ap (λ t. x ∷ t) p.whole;
      size = omega (arith, p.size);
      kept = ap (λ t. x ∷ t) p.kept;
      freed = p.freed;
    }
