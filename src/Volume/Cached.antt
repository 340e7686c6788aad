-- ===== src/Volume/Cached.antt =====
-- The chains that src/fs.rs keeps resolved, against the table.
use mathlib.Core.Option.{none-ne-some, some-injective}
use resident_fat.Prelude.{
  ℕ, ◌≡◌, ◌≢◌, true, refl, sym, ap, subst, ◌∙◌, inl, inr, Bool-cases, ◌==◌, ==_iff, leb, false,
  List, [], ◌∷◌, length, Option, none, some, arith,
}
use resident_fat.Fat.Table.{Run, ok}
use resident_fat.Fat.Runs.{runs}
use resident_fat.Errors.{Result, done, from_fat}
use resident_fat.Volume.{BlockDevice, FileSystem, RunCache}
use resident_fat.Volume.Reading.{
  find, without, fresh, chains_left, run_cache_chains, runs_on, taken_or_followed, take_runs,
  keep_runs,
}

-- what is found after a key was removed: nothing under that key, and under others what was there
find-without_same : {A : Type 0} (m : List (ℕ × A)) (key : ℕ) → find (without m key) key ≡ none
unfolding find without
find-without_same [] key = refl
find-without_same ((l, b) ∷ rest) key = elim (Bool-cases (l == key)) [
  | inl e ↦ rw e (find-without_same rest key)
  | inr e ↦ rw e (rw e (find-without_same rest key))
]

find-without_other :
    {A : Type 0} (m : List (ℕ × A)) (key k : ℕ)
    → (k == key) ≡ false
    → find (without m key) k ≡ find m k
unfolding find without
find-without_other [] key k ne = refl
find-without_other ((l, b) ∷ rest) key k ne = elim (Bool-cases (l == key)) [
  | inl e ↦
      let apart : (l == k) ≡ false = ground (arith, e, ne) in
      rw (e, apart) (find-without_other rest key k ne)
  | inr e ↦ rw e (elim (Bool-cases (l == k)) [
    | inl here ↦ rw here refl
    | inr later ↦ rw later (find-without_other rest key k ne)
  ])
]

find-without :
    {A : Type 0} (m : List (ℕ × A)) (key k : ℕ) (a : A)
    → find (without m key) k ≡ some a
    → find m k ≡ some a
find-without m key k a h = elim (Bool-cases (k == key)) [
  | inl e ↦
      let same : key ≡ k = sym ((==_iff _ _).0 e) in
      absurd (
        none-ne-some _
          (sym (find-without_same m k) ∙ subst (λ j. find (without m j) k ≡ some a) same h))
  | inr e ↦ sym (find-without_other m key k e) ∙ h
]

chains_left-find :
    (cache : RunCache) (cluster : ℕ) (rs : List Run)
    → find (chains_left cache) cluster ≡ some rs
    → find cache.chains cluster ≡ some rs
unfolding find
chains_left-find cache cluster rs h =
    elim (Bool-cases (leb run_cache_chains (length cache.chains))) [
      | inl e ↦ absurd (none-ne-some _ (rw e at h))
      | inr e ↦ (rw e at h)
    ]

-- What is kept for the table as it is now is what the table says.
unfoldable pub IsCoherent : (d : BlockDevice) → FileSystem d → Type 0
IsCoherent d v =
    v.run_cache.changes ≡ v.fat.changes
    → (cluster : ℕ) (rs : List Run) → find v.run_cache.chains cluster ≡ some rs
    → runs v.fat cluster ≡ ok rs

module _ {d : BlockDevice} where
  -- An outcome: this result, and only the cache has changed, which still says what the table says.
  abbrev pub LeavesCoherent :
      {A : Type 0} → FileSystem d → Result A → Result A × FileSystem d → Type 0
  LeavesCoherent v a r =
      (cache : RunCache) × (r ≡ (a, record v { run_cache = cache }))
      × IsCoherent d (record v { run_cache = cache })

  fresh-IsCoherent :
      (v : FileSystem d)
      → IsCoherent d v
      → IsCoherent d (record v { run_cache = fresh v.fat v.run_cache })
        × ((fresh v.fat v.run_cache).changes ≡ v.fat.changes)
  unfolding IsCoherent find
  fresh-IsCoherent v coherent = elim (Bool-cases (v.run_cache.changes == v.fat.changes)) [
    | inl e ↦ rw e (coherent, (==_iff _ _).0 e)
    | inr e ↦ rw e ((λ same cluster rs h. absurd (none-ne-some _ h)), refl)
  ]

  taken_or_followed-LeavesCoherent :
      (v : FileSystem d) (cluster : ℕ) (found : Option (List Run))
      → IsCoherent d v
      → v.run_cache.changes ≡ v.fat.changes
      → find v.run_cache.chains cluster ≡ found
      → LeavesCoherent v (from_fat (runs v.fat cluster)) (taken_or_followed cluster found v)
  unfolding IsCoherent runs_on
  taken_or_followed-LeavesCoherent v cluster none coherent same h = (v.run_cache, refl, coherent)
  taken_or_followed-LeavesCoherent v cluster (some rs) coherent same h = (
    record (v.run_cache) { chains = without v.run_cache.chains cluster },
    rw (coherent same cluster rs h) refl,
    λ same' c rs' h'. coherent same c rs' (find-without v.run_cache.chains cluster c rs' h'),
  )

  -- Where what is kept is what the table says, `take_runs` returns what following the chain in the
  -- table returns, and changes nothing but what is kept, which still is what the table says.
  pub take_runs-LeavesCoherent :
      (v : FileSystem d) (cluster : ℕ)
      → IsCoherent d v
      → LeavesCoherent v (from_fat (runs v.fat cluster)) (take_runs cluster v)
  unfolding take_runs
  take_runs-LeavesCoherent v cluster coherent =
      let (kept, same) = fresh-IsCoherent v coherent in
      taken_or_followed-LeavesCoherent (record v { run_cache = fresh v.fat v.run_cache }) cluster
        (find (fresh v.fat v.run_cache).chains cluster) kept same refl

  pub keep_runs-LeavesCoherent :
      (v : FileSystem d) (cluster : ℕ) (rs : List Run)
      → IsCoherent d v
      → runs v.fat cluster ≡ ok rs
      → LeavesCoherent v (done tt) (keep_runs cluster rs v)
  unfolding keep_runs IsCoherent find
  keep_runs-LeavesCoherent v cluster rs coherent found =
      elim (Bool-cases (v.run_cache.changes == v.fat.changes)) [
        | inr e ↦ rw e (v.run_cache, refl, coherent)
        | inl e ↦ rw e (
          record (v.run_cache) {
            chains = (cluster, rs) ∷ without (chains_left v.run_cache) cluster;
          },
          refl,
          λ same c rs' h. elim (Bool-cases (cluster == c)) [
            | inl here ↦
                let at : cluster ≡ c = (==_iff _ _).0 here in
                let those : some rs ≡ some rs' = rw here at h in
                rw (← at, found) (ap ok (some-injective _ _ those))
            | inr there ↦ coherent same c rs' (
                chains_left-find v.run_cache c rs'
                  (find-without (chains_left v.run_cache) cluster c rs' (rw there at h)))
          ],
        )
      ]

  keep_runs-kept :
      (v : FileSystem d) (cluster : ℕ) (rs : List Run)
      → v.run_cache.changes ≡ v.fat.changes
      → find (keep_runs cluster rs v).1.run_cache.chains cluster ≡ some rs
  unfolding keep_runs find
  keep_runs-kept v cluster rs same =
      let e : (v.run_cache.changes == v.fat.changes) ≡ true = ground arith in
      let here : (cluster == cluster) ≡ true = ground arith in rw e (rw here refl)

  keep_runs-stale :
      (v : FileSystem d) (cluster : ℕ) (rs : List Run)
      → v.run_cache.changes ≢ v.fat.changes
      → keep_runs cluster rs v ≡ (done tt, v)
  unfolding keep_runs
  keep_runs-stale v cluster rs changed =
      let e : (v.run_cache.changes == v.fat.changes) ≡ false = ground arith in rw e refl

  -- the outcome of keeping a chain, for a table that has changed since and for one that has not
  abbrev pub IsKept : FileSystem d → ℕ → List Run → Result (Unit {0}) × FileSystem d → Type 0
  IsKept v cluster rs r =
      (v.run_cache.changes ≢ v.fat.changes → r ≡ (done tt, v))
      × (v.run_cache.changes ≡ v.fat.changes
          → LeavesCoherent v (done tt) r × (find r.1.run_cache.chains cluster ≡ some rs))

  -- Where what is kept is what the table says, and the runs are those of the chain in the table
  -- if the table's count of changes is the cache's, and any runs if it is not, `keep_runs`:
  -- where the counts differ, nothing at all is different afterwards; where they agree, the runs
  -- are kept for the chain, and only what is kept is different, which still is what the table
  -- says.
  pub keep_runs-IsKept :
      (v : FileSystem d) (cluster : ℕ) (rs : List Run)
      → IsCoherent d v
      → (v.run_cache.changes ≡ v.fat.changes → runs v.fat cluster ≡ ok rs)
      → IsKept v cluster rs (keep_runs cluster rs v)
  keep_runs-IsKept v cluster rs coherent current = (
    keep_runs-stale v cluster rs,
    λ same. (
      keep_runs-LeavesCoherent v cluster rs coherent (current same),
      keep_runs-kept v cluster rs same,
    ),
  )
