-- ===== src/Fat/Chain/Walk.antt =====
-- `Fat::runs` (src/fat.rs) and the chain that begins at a cluster.
use resident_fat.Prelude.{
  ℕ, zero, suc, ◌+◌, ◌≤◌, ◌<◌, ◌≡◌, refl, sym, ap, subst, ◌∙◌, ◌⊎◌, inl, inr, true, false, List, [],
  ◌∷◌, ◌++◌, Option, none, some, arith, ltb, leb, ◌==◌, Bool-cases, length, append_assoc,
  get_elem?-eq-get_or, length-le_range, All-mono,
}
use resident_fat.Words.{u32}
use resident_fat.Fat.Table.{
  Run, Fat, Outcome, ok, err, FatError, bad_cluster, chain_loop, end_of_chain, is_valid_cluster,
  bad_cluster_mark,
}
use resident_fat.Fat.Invariant.{
  IsWellFormed, IsCluster, value, is_valid_cluster_iff_true, is_valid_cluster_sound,
  is_valid_cluster-false,
}
use resident_fat.Fat.Runs.{
  push_cluster, follow, resume, walk, runs, clusters_of, AreBounded, AreBounded-push_cluster,
  clusters_of-push_cluster,
}
use resident_fat.Fat.Chain.{Linked, Linked-head, Linked-Distinct, Linked-All, Linked-unique}

-- What the entry of a cluster can say.
data Followed (f : Fat) (c : ℕ) : Outcome (Option ℕ) → Type 0 where
  ended : end_of_chain ≤ value f c → Followed f c (ok none)
  linked : (d : ℕ) → value f c ≡ d → IsCluster f d → Followed f c (ok (some d))
  failed :
      (e : FatError)
      → (end_of_chain ≤ value f c → ⊥)
      → (IsCluster f (value f c) → ⊥)
      → Followed f c (err e)

module _ (f : Fat) (w : IsWellFormed f) (start : ℕ) where
  follow-Followed : (c : ℕ) → IsCluster f c → Followed f c (follow f start c)
  unfolding follow
  follow-Followed c valid =
      rw (get_elem?-eq-get_or f.entries c 0 (omega (arith, w.sized)), follow)
        (elim (Bool-cases (leb end_of_chain (value f c))) [
          | inl e ↦ rw e (ended (ground arith))
          | inr e ↦ rw e (elim (Bool-cases (value f c == 0)) [
            | inl z ↦ rw z (failed _ (ground arith) (ground arith))
            | inr z ↦ rw z (elim (Bool-cases (value f c == bad_cluster_mark)) [
              | inl b ↦ rw b (failed _ (ground arith) (ground (arith, w.small)))
              | inr b ↦ rw b (elim (Bool-cases (is_valid_cluster f (value f c))) [
                | inl v ↦ rw v (linked _ refl (is_valid_cluster_sound f _ w v))
                | inr v ↦ rw v (failed _ (ground arith) (is_valid_cluster-false f _ w v))
              ])
            ])
          ])
        ])

-- What a walk from `c` with index `i` can return: the runs of the chain from `c`, or an error, and
-- then a chain from `c` would be longer than the table.
data Walked (f : Fat) (c i : ℕ) (before : List ℕ) : Outcome (List Run) → Type 0 where
  reached :
      (cs : List ℕ) (rs : List Run)
      → Linked f (c ∷ cs)
      → clusters_of rs ≡ before ++ c ∷ cs
      → AreBounded rs
      → Walked f c i before (ok rs)
  refused :
      (e : FatError)
      → ((cs : List ℕ) → Linked f (c ∷ cs) → f.cluster_count < i + length cs)
      → Walked f c i before (err e)

module _ (f : Fat) (w : IsWellFormed f) (start : ℕ) where
  pub walk_round :
      (fuel c i : ℕ) (acc : List Run)
      → IsCluster f c
      → i ≤ f.cluster_count
      → walk (suc fuel) f start c i acc
        ≡ resume
            (λ e. walk fuel f start e (suc i) (push_cluster acc i c))
            (push_cluster acc i c)
            (follow f start c)
  unfolding walk
  walk_round fuel c i acc valid le =
      let e : u32 (i + 1) ≡ suc i = omega (arith, w.small) in
      let t : ltb f.cluster_count i ≡ false = ground arith in
      rw (is_valid_cluster_iff_true f c w valid, t, e) refl

  pub walk_invalid :
      (fuel c i : ℕ) (acc : List Run)
      → is_valid_cluster f c ≡ false
      → walk (suc fuel) f start c i acc ≡ err (bad_cluster c)
  unfolding walk
  walk_invalid fuel c i acc v = rw v

  pub walk_past :
      (fuel c i : ℕ) (acc : List Run)
      → is_valid_cluster f c ≡ true
      → ltb f.cluster_count i ≡ true
      → walk (suc fuel) f start c i acc ≡ err (chain_loop start)
  unfolding walk
  walk_past fuel c i acc v t = rw (v, t)

  module _ (c i : ℕ) (acc : List Run) (valid : IsCluster f c) (bounded : AreBounded acc) where
    pushed : clusters_of (push_cluster acc i c) ≡ clusters_of acc ++ c ∷ []
    pushed = clusters_of-push_cluster acc i c bounded

    pushed-AreBounded : AreBounded (push_cluster acc i c)
    pushed-AreBounded = AreBounded-push_cluster acc i c bounded valid.0 (omega (arith, w.small))

    no_link :
        (e : FatError)
        → (end_of_chain ≤ value f c → ⊥)
        → (IsCluster f (value f c) → ⊥)
        → (cs : List ℕ) → Linked f (c ∷ cs)
        → f.cluster_count < i + length cs
    no_link e p q [] h = absurd (p h.1)
    no_link e p q (d ∷ cs) h = absurd (q (subst (IsCluster f) (sym h.1) (Linked-head f d cs h.2)))

    after_link :
        (d : ℕ)
        → value f c ≡ d
        → IsCluster f d
        → (r : Outcome (List Run)) → Walked f d (suc i) (clusters_of (push_cluster acc i c)) r
        → Walked f c i (clusters_of acc) r
    after_link d link v r (reached cs rs h e b) =
        reached (d ∷ cs) rs (valid, link, h) (e ∙ rw pushed (simp append_assoc)) b
    after_link d link v r (refused e none_from) = refused e (no_longer none_from)
      where
        no_longer :
            ((cs : List ℕ) → Linked f (d ∷ cs) → f.cluster_count < suc i + length cs)
            → (cs : List ℕ) → Linked f (c ∷ cs)
            → f.cluster_count < i + length cs
        no_longer nf [] h = absurd (omega (arith, w.small))
        no_longer nf (x ∷ cs) h =
            omega (arith, nf cs (subst (λ z. Linked f (z ∷ cs)) (sym h.1 ∙ link) h.2))

    resume-Walked :
        (again : ℕ → Outcome (List Run))
        → ((d : ℕ) → Walked f d (suc i) (clusters_of (push_cluster acc i c)) (again d))
        → (o : Outcome (Option ℕ)) → Followed f c o
        → Walked f c i (clusters_of acc) (resume again (push_cluster acc i c) o)
    resume-Walked again ih o (ended h) = reached [] _ (valid, h) pushed pushed-AreBounded
    resume-Walked again ih o (linked d link v) = after_link d link v _ (ih d)
    resume-Walked again ih o (failed e p q) = refused e (no_link e p q)

  walk-Walked :
      (fuel c i : ℕ) (acc : List Run)
      → 1 ≤ fuel
      → fuel + i ≡ f.cluster_count + 2
      → AreBounded acc
      → Walked f c i (clusters_of acc) (walk fuel f start c i acc)
  walk-Walked zero c i acc some_left total bounded = absurd (omega arith)
  walk-Walked (suc fuel) c i acc some_left total bounded =
      elim (Bool-cases (is_valid_cluster f c)) [
        | inr v ↦ rw (walk_invalid fuel c i acc v) (
            refused (bad_cluster c)
              λ cs h. absurd (is_valid_cluster-false f c w v (Linked-head f c cs h)))
        | inl v ↦ elim (Bool-cases (ltb f.cluster_count i)) [
          | inl t ↦
              rw (walk_past fuel c i acc v t) (refused (chain_loop start) λ cs h. ground arith)
          | inr t ↦ rw (walk_round fuel c i acc (is_valid_cluster_sound f c w v) (ground arith)) (
              resume-Walked c i acc (is_valid_cluster_sound f c w v) bounded _
                (λ d.
                  walk-Walked fuel d (suc i) (push_cluster acc i c) (ground arith) (omega arith)
                    (pushed-AreBounded c i acc (is_valid_cluster_sound f c w v) bounded))
                _ (follow-Followed f w start c (is_valid_cluster_sound f c w v)))
        ]
      ]

  runs-Walked : Walked f start 0 [] (runs f start)
  unfolding runs
  runs-Walked = walk-Walked (f.cluster_count + 2) start 0 [] (omega arith) (omega arith) tt

  -- A chain has at most as many clusters as the volume.
  pub length-Linked : (cs : List ℕ) → Linked f cs → length cs ≤ f.cluster_count
  length-Linked cs h = length-le_range f.cluster_count 2 cs (Linked-Distinct f w cs h) (
      All-mono (IsCluster f) (λ x. (2 ≤ x) × (x < 2 + f.cluster_count)) cs (λ x v. omega arith)
        (Linked-All f w cs h))

  runs_found :
      (cs : List ℕ) (r : Outcome (List Run))
      → Walked f start 0 [] r
      → Linked f (start ∷ cs)
      → (rs : List Run) × (r ≡ ok rs) × (clusters_of rs ≡ start ∷ cs) × AreBounded rs
  runs_found cs r (reached ds rs k e b) h =
      (rs, refl, e ∙ ap (λ l. start ∷ l) (Linked-unique f w start ds cs k h), b)
  runs_found cs r (refused e none_from) h =
      absurd (omega (arith, none_from cs h, length-Linked (start ∷ cs) h))

  -- Where a chain begins at `start`, `runs` succeeds, and its runs cover that chain's clusters in
  -- order.
  pub runs_complete :
      (cs : List ℕ)
      → Linked f (start ∷ cs)
      → (rs : List Run) × (runs f start ≡ ok rs) × (clusters_of rs ≡ start ∷ cs) × AreBounded rs
  runs_complete cs h = runs_found cs (runs f start) runs-Walked h

  sound_of :
      (r : Outcome (List Run))
      → Walked f start 0 [] r
      → ((cs : List ℕ) × (rs : List Run) × (r ≡ ok rs)
          × (clusters_of rs ≡ start ∷ cs)
          × Linked f (start ∷ cs)
          × AreBounded rs)
        ⊎ ((e : FatError) × (r ≡ err e) × ((cs : List ℕ) → Linked f (start ∷ cs) → ⊥))
  sound_of r (reached cs rs h e b) = inl (cs, rs, refl, e, h, b)
  sound_of r (refused e none_from) =
      inr (e, refl, λ cs h. absurd (omega (arith, none_from cs h, length-Linked (start ∷ cs) h)))

  -- `runs` always returns: either the runs of the chain from `start`, or an error, and then no
  -- chain begins there.
  pub runs-decides :
      ((cs : List ℕ) × (rs : List Run) × (runs f start ≡ ok rs)
        × (clusters_of rs ≡ start ∷ cs)
        × Linked f (start ∷ cs)
        × AreBounded rs)
      ⊎ ((e : FatError) × (runs f start ≡ err e) × ((cs : List ℕ) → Linked f (start ∷ cs) → ⊥))
  runs-decides = sound_of (runs f start) runs-Walked
