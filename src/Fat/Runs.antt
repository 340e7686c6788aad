-- ===== src/Fat/Runs.antt =====
-- `Fat::runs` and `Fat::chain_length` (src/fat.rs): the walk along a chain, collapsed into runs.
-- The loop of `runs` stops by its own test once the index passes the cluster count, which
-- `cluster_count + 2` rounds of fuel allow for.
use resident_fat.Prelude.{
  ℕ, zero, suc, ◌+◌, ◌≤◌, ◌<◌, ◌≡◌, refl, ap, not, ◌||◌, List, [], ◌∷◌, ◌++◌, Option, none, some,
  true, arith, ltb, leb, ◌==◌, if◌then◌else◌, Bool-cases, inl, inr, get_elem?, range_from, All,
  append_assoc, append-nil,
}
use resident_fat.Words.{u32}
use resident_fat.Fat.Table.{
  Run, Fat, Outcome, ok, err, panic, stuck, bad_cluster, chain_loop, free_cluster_in_chain,
  end_of_chain, bad_cluster_mark, free_mark, masked, is_valid_cluster,
}

-- `match runs.last_mut()`: the cluster lengthens the last run, or begins a new one.
unfoldable pub push_cluster : List Run → ℕ → ℕ → List Run
push_cluster [] index c = record { file_cluster = index; start_cluster = c; clusters = 1 } ∷ []
push_cluster (r ∷ []) index c =
    if u32 (r.start_cluster + r.clusters) == c
    then record r { clusters = u32 (r.clusters + 1) } ∷ []
    else r ∷ record { file_cluster = index; start_cluster = c; clusters = 1 } ∷ []
push_cluster (r ∷ s ∷ rs) index c = r ∷ push_cluster (s ∷ rs) index c

-- The tests on the entry of a cluster: the end of the chain, an error, or the next cluster.
unfoldable pub follow : Fat → ℕ → ℕ → Outcome (Option ℕ)
unfolding is_valid_cluster
follow f start c = elim (get_elem? f.entries c) [
  | none ↦ panic
  | some w ↦
      if leb end_of_chain (masked w)
      then ok none
      else if masked w == free_mark
      then err (free_cluster_in_chain start c)
      else if (masked w == bad_cluster_mark) || not (is_valid_cluster f (masked w))
      then err (bad_cluster (masked w))
      else ok (some (masked w))
]

-- The end of the loop's body: return the runs, fail, or go round with the next cluster.
abbrev pub resume : (ℕ → Outcome (List Run)) → List Run → Outcome (Option ℕ) → Outcome (List Run)
resume again rs (ok none) = ok rs
resume again rs (ok (some e)) = again e
resume again rs (err x) = err x
resume again rs panic = panic
resume again rs stuck = stuck

unfoldable pub walk : ℕ → Fat → ℕ → ℕ → ℕ → List Run → Outcome (List Run)
unfolding is_valid_cluster push_cluster follow
walk zero f start c index acc = stuck
walk (suc fuel) f start c index acc =
    if not (is_valid_cluster f c)
    then err (bad_cluster c)
    else if ltb f.cluster_count index
    then err (chain_loop start)
    else resume (λ e. walk fuel f start e (u32 (index + 1)) (push_cluster acc index c))
        (push_cluster acc index c) (follow f start c)

unfoldable pub runs : Fat → ℕ → Outcome (List Run)
unfolding walk
runs f start = walk (f.cluster_count + 2) f start start 0 []

abbrev pub total_clusters : List Run → ℕ
total_clusters [] = 0
total_clusters (r ∷ rs) = r.clusters + total_clusters rs

unfoldable pub chain_length : Fat → ℕ → Outcome ℕ
unfolding runs
chain_length f start = elim (runs f start) [
  | ok rs ↦ ok (u32 (total_clusters rs))
  | err x ↦ err x
  | panic ↦ panic
  | stuck ↦ stuck
]

-- The clusters that a list of runs covers, in order.
abbrev pub clusters_of : List Run → List ℕ
clusters_of [] = []
clusters_of (r ∷ rs) = range_from r.start_cluster r.clusters ++ clusters_of rs

-- No run is empty or holds a reserved entry, and no sum of a run leaves 32 bits.
abbrev pub AreBounded : List Run → Type 0
AreBounded rs =
    All
      (λ r. (2 ≤ r.start_cluster) × (1 ≤ r.clusters) × (r.start_cluster + r.clusters ≤ 0x0FFF_FFF7))
      rs

pub range_from-snoc : (s n c : ℕ) → s + n ≡ c → range_from s (suc n) ≡ range_from s n ++ c ∷ []
range_from-snoc s zero c e = let e' : s ≡ c = omega arith in rw e'
range_from-snoc s (suc n) c e = ap (λ l. s ∷ l) (range_from-snoc (suc s) n c (omega arith))

pub AreBounded-push_cluster :
    (rs : List Run) (i c : ℕ)
    → AreBounded rs
    → 2 ≤ c
    → c < 0x0FFF_FFF7
    → AreBounded (push_cluster rs i c)
unfolding push_cluster
AreBounded-push_cluster [] i c b g h = omega arith
AreBounded-push_cluster (r ∷ []) i c b g h = ground arith
AreBounded-push_cluster (r ∷ s ∷ rs) i c b g h = (b.0, AreBounded-push_cluster (s ∷ rs) i c b.1 g h)

module _ (r : Run) (c : ℕ) (b : AreBounded (r ∷ []))
    (e : (u32 (r.start_cluster + r.clusters) == c) ≡ true) where
  merged_length : u32 (r.clusters + 1) ≡ suc r.clusters
  merged_length = omega arith

  merged_range :
      range_from r.start_cluster (suc r.clusters) ≡ range_from r.start_cluster r.clusters ++ c ∷ []
  merged_range = range_from-snoc r.start_cluster r.clusters c (ground arith)

-- Pushing a cluster appends it to the clusters covered.
pub clusters_of-push_cluster :
    (rs : List Run) (i c : ℕ)
    → AreBounded rs
    → clusters_of (push_cluster rs i c) ≡ clusters_of rs ++ c ∷ []
unfolding push_cluster
clusters_of-push_cluster [] i c b = refl
clusters_of-push_cluster (r ∷ []) i c b =
    elim (Bool-cases (u32 (r.start_cluster + r.clusters) == c)) [
      | inl e ↦ rw e (rw (merged_length r c b e) (simp append-nil (merged_range r c b e)))
      | inr e ↦ rw e (simp append-nil)
    ]
clusters_of-push_cluster (r ∷ s ∷ rs) i c b =
    rw (clusters_of-push_cluster (s ∷ rs) i c b.1) (simp append_assoc)
