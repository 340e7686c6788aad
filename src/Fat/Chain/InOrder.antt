-- ===== src/Fat/Chain/InOrder.antt =====
-- The runs of a chain (`Fat::runs`, src/fat.rs) stand one after the other in the file.
use resident_fat.Prelude.{
  ℕ, zero, suc, ◌+◌, ◌≡◌, refl, inl, inr, Bool-cases, ltb, ◌==◌, List, [], ◌∷◌, Option, none, some,
  arith,
}
use resident_fat.Words.{u32}
use resident_fat.Fat.Table.{Run, Fat, Outcome, ok, err, panic, stuck, is_valid_cluster}
use resident_fat.Fat.Invariant.{IsWellFormed, is_valid_cluster_sound}
use resident_fat.Fat.Runs.{
  push_cluster, follow, resume, walk, runs, total_clusters, AreBounded, AreBounded-push_cluster,
}
use resident_fat.Fat.Chain.Walk.{walk_round, walk_invalid, walk_past}

-- Each run begins where the one before it ends, the first of them at this cluster of the file.
abbrev pub AreInOrder : ℕ → List Run → Type 0
AreInOrder n [] = Unit {0}
AreInOrder n (r ∷ rs) = (r.file_cluster ≡ n) × AreInOrder (n + r.clusters) rs

-- what holds of the runs that were found, if any were
abbrev pub WhenFound : (List Run → Type 0) → Outcome (List Run) → Type 0
WhenFound P (ok rs) = P rs
WhenFound P (err e) = Unit {0}
WhenFound P panic = Unit {0}
WhenFound P stuck = Unit {0}

-- A cluster pushed keeps the order, and there is one cluster more.
AreInOrder-push_cluster :
    (rs : List Run) (n i c : ℕ)
    → AreInOrder n rs
    → AreBounded rs
    → i ≡ n + total_clusters rs
    → AreInOrder n (push_cluster rs i c)
      × (total_clusters (push_cluster rs i c) ≡ suc (total_clusters rs))
unfolding push_cluster
AreInOrder-push_cluster [] n i c order bounded total = omega (arith, total)
AreInOrder-push_cluster (r ∷ []) n i c order bounded total =
    elim (Bool-cases (u32 (r.start_cluster + r.clusters) == c)) [
      | inl e ↦ rw e (
          let len : u32 (r.clusters + 1) ≡ r.clusters + 1 = omega (arith, bounded) in
          rw len ((order.0, tt), omega arith))
      | inr e ↦ rw e ((order.0, (omega (arith, total), tt)), omega arith)
    ]
AreInOrder-push_cluster (r ∷ s ∷ rs) n i c order bounded total =
    let (rest, more) =
      AreInOrder-push_cluster (s ∷ rs) (n + r.clusters) i c order.1 bounded.1
        (omega (arith, total)) in
    ((order.0, rest), omega (arith, more))

module _ (f : Fat) (w : IsWellFormed f) (start : ℕ) where
  resume-InOrder :
      (again : ℕ → Outcome (List Run)) (rs : List Run)
      → AreInOrder 0 rs
      → ((c : ℕ) → WhenFound (AreInOrder 0) (again c))
      → (o : Outcome (Option ℕ)) → WhenFound (AreInOrder 0) (resume again rs o)
  resume-InOrder again rs order later (ok none) = order
  resume-InOrder again rs order later (ok (some c)) = later c
  resume-InOrder again rs order later (err e) = tt
  resume-InOrder again rs order later panic = tt
  resume-InOrder again rs order later stuck = tt

  walk-InOrder :
      (fuel c i : ℕ) (acc : List Run)
      → AreInOrder 0 acc
      → AreBounded acc
      → i ≡ total_clusters acc
      → WhenFound (AreInOrder 0) (walk fuel f start c i acc)
  unfolding walk
  walk-InOrder zero c i acc order bounded total = tt
  walk-InOrder (suc fuel) c i acc order bounded total = elim (Bool-cases (is_valid_cluster f c)) [
    | inr v ↦ rw (walk_invalid f w start fuel c i acc v) tt
    | inl v ↦ elim (Bool-cases (ltb f.cluster_count i)) [
      | inl t ↦ rw (walk_past f w start fuel c i acc v t) tt
      | inr t ↦
          let valid = is_valid_cluster_sound f c w v in
          let (order', total') =
            AreInOrder-push_cluster acc 0 i c order bounded (omega (arith, total)) in
          rw (walk_round f w start fuel c i acc valid (ground (arith, t))) (
            resume-InOrder (λ e. walk fuel f start e (suc i) (push_cluster acc i c))
              (push_cluster acc i c) order'
              (λ e.
                walk-InOrder fuel e (suc i) (push_cluster acc i c) order'
                  (AreBounded-push_cluster acc i c bounded valid.0 (omega (arith, w.small, valid)))
                  (omega (arith, total, total')))
              (follow f start c))
    ]
  ]

  pub runs-InOrder : WhenFound (AreInOrder 0) (runs f start)
  unfolding runs
  runs-InOrder = walk-InOrder (f.cluster_count + 2) start 0 [] tt tt refl
