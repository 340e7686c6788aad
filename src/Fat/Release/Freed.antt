-- ===== src/Fat/Release/Freed.antt =====
-- The effect of `Fat::free_chain` (src/fat.rs) on the table.
use resident_fat.Prelude.{
  ℕ, zero, suc, ◌+◌, ◌≤◌, ◌<◌, ◌≡◌, refl, sym, ap, ◌∙◌, inl, inr, List, [], ◌∷◌, ◌++◌, arith, min,
  length, length-append, length-range_from, get_or, range_from, All, All-mono, All-append,
  All-append_left, All-append_right, Distinct, Distinct-append_left, Distinct-append_right,
  Distinct-apart, apart_sym, NotIn, subst,
}
use resident_fat.Words.{u32}
use resident_fat.Fat.Table.{Run, Fat, Outcome, ok, err, FatError, free_mark}
use resident_fat.Fat.Invariant.{IsWellFormed, IsCluster, IsFree, value, one_if_free}
use resident_fat.Fat.Runs.{clusters_of, AreBounded}
use resident_fat.Fat.Chain.{Linked, Linked-All, Linked-Distinct, Linked-used, Linked-ext}
use resident_fat.Fat.Chain.Walk.{runs_complete, runs-decides, length-Linked}
use resident_fat.Fat.SetEntry.{written, set_entry-eq-written, written-IsWellFormed}
use resident_fat.Fat.Writes.{written_all}
use resident_fat.Fat.Writes.Marking.{
  AreClusters, AreClusters-written, Kept, Kept-refl, Kept-trans, Kept-append, Kept-AreClusters,
  All-outside, written_all-Kept, written_all-All, free_count-written_all,
}
use resident_fat.Fat.Writes.Loops.{run_span-eq}
use resident_fat.Fat.Release.{free_range, lower_hint, free_runs, free_chain}

free_range-eq :
    (n c freed : ℕ) (f : Fat)
    → IsWellFormed f
    → AreClusters f (range_from c n)
    → freed + n < 0x1_0000_0000
    → free_range n c freed f ≡ (ok (freed + n), written_all (range_from c n) free_mark f)
unfolding free_range written_all
free_range-eq zero c freed f w h small = let e : freed + 0 ≡ freed = omega arith in rw e refl
free_range-eq (suc n) c freed f w h small =
    let e : u32 (freed + 1) ≡ freed + 1 = omega arith in
    let e' : freed + 1 + n ≡ freed + suc n = omega arith in
    rw (set_entry-eq-written f w c free_mark h.0, e)
      (free_range-eq n (suc c) (freed + 1) (written c free_mark f)
          (written-IsWellFormed f w c free_mark h.0)
          (AreClusters-written free_mark f c (range_from (suc c) n) h.1) (omega arith)
        ∙ rw e' refl)

abbrev pub AreUsed : Fat → List ℕ → Type 0
AreUsed f cs = All (λ c. 0 < value f c) cs

abbrev with_hint : Fat → ℕ → Fat
with_hint f c = record f { next_free = min f.next_free c }

with_hint-Kept :
    (f : Fat) (c : ℕ) (cs : List ℕ) → IsWellFormed f → IsCluster f c → Kept f (with_hint f c) cs
with_hint-Kept f c cs w h = record {
  well_formed = record {
    sized = w.sized;
    small = w.small;
    counted = w.counted;
    hint = omega (arith, w.hint);
  };
  same_volume = refl;
  outside = λ d n. refl;
  reserved = λ d. refl;
}

-- The clusters `cs` have been freed, and `freed` counts them on.
pub record Freed (f : Fat) (cs : List ℕ) (before : ℕ) (result : Outcome ℕ × Fat) : Type 0 where
  pub table : Fat
  pub returns : result ≡ (ok (before + length cs), table)
  pub kept : Kept f table cs
  pub all_free : All (IsFree table) cs
  pub counted : table.free_count ≡ f.free_count + length cs

module _ (f : Fat) (w : IsWellFormed f) (xs ys : List ℕ) (c : ℕ) (valid : IsCluster f c)
    (inside : AreClusters f (xs ++ ys)) (distinct : Distinct (xs ++ ys))
    (used : AreUsed f (xs ++ ys)) where
  abbrev after_range : Fat
  after_range = with_hint (written_all xs free_mark f) c

  range-Kept : Kept f after_range xs
  range-Kept =
      let k = written_all-Kept free_mark xs f w (All-append_left (IsCluster f) xs ys inside) in
      Kept-trans f (written_all xs free_mark f) after_range xs k (
        with_hint-Kept (written_all xs free_mark f) c xs k.well_formed
          (omega (arith, k.same_volume)))

  rest_used : AreUsed after_range ys
  rest_used =
      All-outside f after_range (λ x. 0 < x) xs ys range-Kept
        (apart_sym xs ys (Distinct-apart xs ys distinct))
        (All-append_right (λ x. 0 < value f x) xs ys used)

  range-IsFree : All (IsFree after_range) xs
  range-IsFree =
      written_all-All free_mark xs f w (All-append_left (IsCluster f) xs ys inside)
        (Distinct-append_left xs ys distinct)

  range_counted : after_range.free_count ≡ f.free_count + length xs
  range_counted = omega (
    arith,
    free_count-written_all free_mark 0 xs f w (All-append_left (IsCluster f) xs ys inside)
        (Distinct-append_left xs ys distinct)
        (All-mono (λ x. 0 < value f x) (λ x. one_if_free (get_or f.entries x 0) ≡ 0) xs
          (λ x h. ground arith) (All-append_left (λ x. 0 < value f x) xs ys used)),
  )

  then_rest :
      (before : ℕ) (result : Outcome ℕ × Fat)
      → Freed after_range ys (before + length xs) result
      → Freed f (xs ++ ys) before result
  then_rest before result r = record {
    table = r.table;
    returns =
        let e : before + length xs + length ys ≡ before + length (xs ++ ys) =
          omega (arith, length-append xs ys) in
        r.returns ∙ rw e refl;
    kept = Kept-append f after_range r.table xs ys range-Kept r.kept;
    all_free =
        All-append (IsFree r.table) xs ys
          (All-outside after_range r.table (λ x. x ≡ 0) ys xs r.kept (Distinct-apart xs ys distinct)
            range-IsFree)
          r.all_free;
    counted = omega (arith, r.counted, range_counted, length-append xs ys);
  }

first_valid :
    (f : Fat) (s n : ℕ) (ys : List ℕ) → 1 ≤ n → AreClusters f (range_from s n ++ ys) → IsCluster f s
first_valid f s zero ys h k = absurd (omega arith)
first_valid f s (suc n) ys h k = k.0

free_runs_step :
    (r : Run) (rs : List Run) (freed : ℕ) (f : Fat)
    → IsWellFormed f
    → r.start_cluster + r.clusters ≤ 0x0FFF_FFF7
    → AreClusters f (range_from r.start_cluster r.clusters)
    → freed + r.clusters < 0x1_0000_0000
    → free_runs (r ∷ rs) freed f
      ≡ free_runs rs (freed + r.clusters) (
          with_hint
            (written_all (range_from r.start_cluster r.clusters) free_mark f)
            r.start_cluster)
unfolding free_runs lower_hint
free_runs_step r rs freed f w fits valid small =
    rw (run_span-eq r fits, free_range-eq r.clusters r.start_cluster freed f w valid small) refl

free_runs-Freed :
    (rs : List Run) (freed : ℕ) (f : Fat)
    → IsWellFormed f
    → AreBounded rs
    → AreClusters f (clusters_of rs)
    → Distinct (clusters_of rs)
    → AreUsed f (clusters_of rs)
    → freed + length (clusters_of rs) < 0x1_0000_0000
    → Freed f (clusters_of rs) freed (free_runs rs freed f)
unfolding free_runs
free_runs-Freed [] freed f w b valid distinct used small = record {
  table = f;
  returns = let e : freed + 0 ≡ freed = omega arith in rw e refl;
  kept = Kept-refl f [] w;
  all_free = tt;
  counted = omega arith;
}
free_runs-Freed (r ∷ rs) freed f w b valid distinct used small =
    let xs = range_from r.start_cluster r.clusters in
    let ys = clusters_of rs in
    let first = first_valid f r.start_cluster r.clusters ys b.0.1 valid in
    let k = range-Kept f w xs ys r.start_cluster first valid distinct used in
    let size = length-append xs ys in
    let span = length-range_from r.clusters r.start_cluster in
    rw
      (free_runs_step r rs freed f w b.0.2 (All-append_left (IsCluster f) xs ys valid)
        (omega (arith, size, span)))
      (then_rest f w xs ys r.start_cluster first valid distinct used freed _ (
        rw span (
          free_runs-Freed rs (freed + r.clusters)
            (after_range f w xs ys r.start_cluster first valid distinct used) k.well_formed b.1
            (Kept-AreClusters f _ xs ys k (All-append_right (IsCluster f) xs ys valid))
            (Distinct-append_right xs ys distinct)
            (rest_used f w xs ys r.start_cluster first valid distinct used)
            (omega (arith, size, span)))))

module _ (f : Fat) (w : IsWellFormed f) (start : ℕ) where
  -- Freeing the chain from `start` frees each of its clusters, returns how many they are, and
  -- leaves all other entries alone.
  pub free_chain-Freed :
      (cs : List ℕ) → Linked f (start ∷ cs) → Freed f (start ∷ cs) 0 (free_chain start f)
  unfolding free_chain
  free_chain-Freed cs h =
      let (rs, e, covers, b) = runs_complete f w start cs h in
      rw e (
        subst (λ l. Freed f l 0 (free_runs rs 0 f)) covers
          (free_runs-Freed rs 0 f w b
            (subst (AreClusters f) (sym covers) (Linked-All f w (start ∷ cs) h))
            (subst Distinct (sym covers) (Linked-Distinct f w (start ∷ cs) h))
            (subst (AreUsed f) (sym covers) (Linked-used f (start ∷ cs) h))
            (omega (arith, ap length covers, length-Linked f w start (start ∷ cs) h, w.small))))

  -- Where no chain begins at `start`, nothing is freed and an error is returned.
  pub free_chain_refused :
      ((cs : List ℕ) → Linked f (start ∷ cs) → ⊥)
      → (e : FatError) × (free_chain start f ≡ (err e, f))
  unfolding free_chain
  free_chain_refused none_here = elim (runs-decides f w start) [
    | inl (cs, rs, e, covers, h, b) ↦ absurd (none_here cs h)
    | inr (e, fails, _) ↦ (e, rw fails refl)
  ]

-- Chains that share no cluster with the freed one are left as they were.
pub Freed-Linked :
    (f : Fat) (cs ds : List ℕ) (before : ℕ) (result : Outcome ℕ × Fat)
    (r : Freed f cs before result)
    → All (λ d. NotIn d cs) ds
    → Linked f ds
    → Linked r.table ds
Freed-Linked f cs ds before result r apart h =
    Linked-ext f r.table ds r.kept.same_volume
      (All-mono (λ d. NotIn d cs) (λ d. get_or r.table.entries d 0 ≡ get_or f.entries d 0) ds
        r.kept.outside apart)
      h

-- Whatever `free_chain` returns, the table is well formed afterwards, and each chain that shares no
-- cluster with the freed one is there still.
pub free_chain_keeps :
    (f : Fat) (start : ℕ) (ds : List ℕ)
    → IsWellFormed f
    → Linked f ds
    → ((cs : List ℕ) → Linked f (start ∷ cs) → All (λ d. NotIn d (start ∷ cs)) ds)
    → IsWellFormed (free_chain start f).1 × Linked (free_chain start f).1 ds
free_chain_keeps f start ds w h apart = elim (runs-decides f w start) [
  | inl (cs, rs, e, covers, chain, b) ↦
      let r = free_chain-Freed f w start cs chain in
      let same : (free_chain start f).1 ≡ r.table = ap (λ x. x.1) r.returns in
      (
        subst IsWellFormed (sym same) r.kept.well_formed,
        subst (λ g. Linked g ds) (sym same)
            (Freed-Linked f (start ∷ cs) ds 0 (free_chain start f) r (apart cs chain) h),
      )
  | inr (e, fails, none_here) ↦
      let (e', unchanged) = free_chain_refused f w start none_here in
      let same : (free_chain start f).1 ≡ f = ap (λ x. x.1) unchanged in
      (subst IsWellFormed (sym same) w, subst (λ g. Linked g ds) (sym same) h)
]
