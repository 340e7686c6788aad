-- ===== src/Fat/Alloc/Scatter.antt =====
-- `Fat::find_scattered` (src/fat.rs) and the free clusters of the volume.
use resident_fat.Prelude.{
  ℕ, zero, suc, ◌+◌, ◌-◌, ◌≤◌, ◌<◌, ◌≡◌, refl, sym, ap, ◌∙◌, List, [], ◌∷◌, ◌++◌, arith, ◌==◌,
  Bool-cases, inl, inr, length, drop, get_or, get_elem?-eq-get_or, length-append, All, All-append,
  All-mono, Distinct, Distinct-append, NotIn-below, subst, append_assoc, append-nil,
}
use native.Mathlib.Nat.{zero-add, add-zero, suc-add, add-suc}
use resident_fat.Words.{u32}
use resident_fat.Fat.Table.{Run, Fat, Outcome, ok, first_cluster}
use resident_fat.Fat.Invariant.{
  IsWellFormed, IsFree, value, one_if_free, count_free, length-drop_two, free_count-le,
}
use resident_fat.Fat.Runs.{
  push_cluster, clusters_of, AreBounded, AreBounded-push_cluster, clusters_of-push_cluster,
}
use resident_fat.Fat.Alloc.{
  Gather, enough, short, gather, last_pass, second_pass, find_scattered, end_of,
}

-- How many of the `n` clusters from `c` on are free.
pub free_between : Fat → ℕ → ℕ → ℕ
free_between f c zero = 0
free_between f c (suc n) = one_if_free (get_or f.entries c 0) + free_between f (suc c) n

-- Distinct free clusters of [lo, hi).
pub record Picked (f : Fat) (lo hi : ℕ) (cs : List ℕ) : Type 0 where
  pub free : All (IsFree f) cs
  pub inside : All (λ c. (lo ≤ c) × (c < hi)) cs
  pub distinct : Distinct cs

-- How a pass over [c, c + n) that begins with `taken` clusters in hand ends.
pub data Gathered (f : Fat) (count c n : ℕ) (before : List ℕ) (taken : ℕ)
    : Outcome Gather → Type 0 where
  done :
      (cs : List ℕ) (rs : List Run)
      → clusters_of rs ≡ before ++ cs
      → AreBounded rs
      → Picked f c (c + n) cs
      → taken + length cs ≡ count
      → Gathered f count c n before taken (ok (enough rs))
  all_of_them :
      (cs : List ℕ) (rs : List Run) (t : ℕ)
      → clusters_of rs ≡ before ++ cs
      → AreBounded rs
      → Picked f c (c + n) cs
      → t ≡ taken + length cs
      → length cs ≡ free_between f c n
      → t < count
      → Gathered f count c n before taken (ok (short rs t))

module _ (f : Fat) (c n : ℕ) where
  Picked-later : (cs : List ℕ) → Picked f (suc c) (suc c + n) cs → Picked f c (c + suc n) cs
  Picked-later cs p = record {
    free = p.free;
    inside =
        All-mono (λ x. (suc c ≤ x) × (x < suc c + n)) (λ x. (c ≤ x) × (x < c + suc n)) cs
          (λ x h. omega arith) p.inside;
    distinct = p.distinct;
  }

  Picked-cons :
      (cs : List ℕ) → IsFree f c → Picked f (suc c) (suc c + n) cs → Picked f c (c + suc n) (c ∷ cs)
  Picked-cons cs free p = record {
    free = (free, p.free);
    inside = (omega arith, (Picked-later cs p).inside);
    distinct = (
      NotIn-below c cs
          (All-mono (λ x. (suc c ≤ x) × (x < suc c + n)) (λ x. c < x) cs (λ x h. h.0) p.inside),
      p.distinct,
    );
  }

module _ (f : Fat) (count : ℕ) where
  module _ (c n taken : ℕ) (before : List ℕ) where
    skipped :
        (o : Outcome Gather)
        → one_if_free (get_or f.entries c 0) ≡ 0
        → Gathered f count (suc c) n before taken o
        → Gathered f count c (suc n) before taken o
    unfolding free_between
    skipped o z (done cs rs e b p l) = done cs rs e b (Picked-later f c n cs p) l
    skipped o z (all_of_them cs rs t e b p l m lt) =
        all_of_them cs rs t e b (Picked-later f c n cs p) l (omega arith) lt

    added :
        (o : Outcome Gather)
        → IsFree f c
        → one_if_free (get_or f.entries c 0) ≡ 1
        → Gathered f count (suc c) n (before ++ c ∷ []) (suc taken) o
        → Gathered f count c (suc n) before taken o
    unfolding free_between
    added o free z (done cs rs e b p l) =
        done (c ∷ cs) rs (e ∙ append_assoc before (c ∷ []) cs) b (Picked-cons f c n cs free p)
          (omega arith)
    added o free z (all_of_them cs rs t e b p l m lt) =
        all_of_them (c ∷ cs) rs t (e ∙ append_assoc before (c ∷ []) cs) b
          (Picked-cons f c n cs free p) (omega arith) (omega arith) lt

  pub gather-Gathered :
      (n c taken : ℕ) (acc : List Run)
      → 2 ≤ c
      → c + n ≤ length f.entries
      → length f.entries ≤ 0x0FFF_FFF7
      → count ≤ 0x0FFF_FFF7
      → taken < count
      → AreBounded acc
      → Gathered f count c n (clusters_of acc) taken (gather n f count c acc taken)
  unfolding gather free_between
  gather-Gathered zero c taken acc low fits small few lt b =
      all_of_them [] acc taken (sym (append-nil (clusters_of acc))) b
        (record { free = tt; inside = tt; distinct = tt }) (omega arith) refl lt
  gather-Gathered (suc n) c taken acc low fits small few lt b =
      rw (get_elem?-eq-get_or f.entries c 0 (omega arith), gather)
        (let wrap : u32 (taken + 1) ≡ suc taken = omega arith in
          elim (Bool-cases (value f c == 0)) [
            | inr z ↦ rw z (
                skipped c n taken (clusters_of acc) _ (rw z)
                  (gather-Gathered n (suc c) taken acc (omega arith) (omega arith) small few lt b))
            | inl z ↦
                let pushed = clusters_of-push_cluster acc taken c b in
                let bounded = AreBounded-push_cluster acc taken c b low (omega arith) in
                rw (z, wrap)
                  (elim (Bool-cases (suc taken == count)) [
                    | inl d ↦ rw d (
                        done (c ∷ []) _ pushed bounded
                          (Picked-cons f c n [] (ground arith)
                            (record { free = tt; inside = tt; distinct = tt }))
                          (ground arith))
                    | inr d ↦ rw d (
                        added c n taken (clusters_of acc) _ (ground arith) (rw z) (
                          subst
                            (λ l.
                              Gathered f count (suc c) n l (suc taken)
                                (gather n f count (suc c) (push_cluster acc taken c) (suc taken)))
                            pushed
                            (gather-Gathered n (suc c) (suc taken) (push_cluster acc taken c)
                              (omega arith) (omega arith) small few (ground arith) bounded)))
                  ])
          ])

-- The windows make up the volume.
free_between-add :
    (f : Fat) (m n c d : ℕ)
    → c + m ≡ d
    → free_between f c (m + n) ≡ free_between f c m + free_between f d n
unfolding free_between
free_between-add f zero n c d e = let e' : c ≡ d = omega arith in rw (zero-add, zero-add, e')
free_between-add f (suc m) n c d e =
    rw suc-add (omega (arith, free_between-add f m n (suc c) d (omega arith)))

count_free-tail :
    (f : Fat) (es : List ℕ) (n c : ℕ)
    → length es ≡ n
    → ((i : ℕ) → get_or f.entries (c + i) 0 ≡ get_or es i 0)
    → free_between f c n ≡ count_free es
unfolding free_between count_free
count_free-tail f [] zero c e same = refl
count_free-tail f [] (suc n) c e same = absurd (omega arith)
count_free-tail f (x ∷ es) zero c e same = absurd (omega arith)
count_free-tail f (x ∷ es) (suc n) c e same =
    let here : get_or f.entries c 0 ≡ x =
      subst (λ i. get_or f.entries i 0 ≡ x) (add-zero c) (same 0) in
    let rest =
      count_free-tail f es n (suc c) (omega arith)
        (λ i. rw suc-add (rw (← add-suc c i) (same (suc i)))) in
    rw here (omega (arith, rest))

get_or-drop_two : (es : List ℕ) (i : ℕ) → get_or es (suc (suc i)) 0 ≡ get_or (drop 2 es) i 0
get_or-drop_two [] i = refl
get_or-drop_two (a ∷ []) i = refl
get_or-drop_two (a ∷ b ∷ es) i = refl

free_between-volume :
    (f : Fat) → IsWellFormed f → free_between f 2 f.cluster_count ≡ count_free (drop 2 f.entries)
free_between-volume f w =
    count_free-tail f (drop 2 f.entries) f.cluster_count 2
      (omega (arith, length-drop_two f.entries (omega (arith, w.sized)), w.sized))
      (λ i. let e : 2 + i ≡ suc (suc i) = omega arith in rw e (get_or-drop_two f.entries i))

module _ (f : Fat) (w : IsWellFormed f) (count : ℕ) (positive : 0 < count)
    (room : count ≤ f.free_count) where
  -- All that is wanted, from the two windows together.
  pub record Scattered (r : Outcome (List Run)) : Type 0 where
    pub found : List Run
    pub returns : r ≡ ok found
    pub bounded : AreBounded found
    pub picked : Picked f 2 (f.cluster_count + 2) (clusters_of found)
    pub enough_of_them : length (clusters_of found) ≡ count

  widened :
      (lo hi : ℕ) (cs : List ℕ)
      → 2 ≤ lo
      → hi ≤ f.cluster_count + 2
      → Picked f lo hi cs
      → Picked f 2 (f.cluster_count + 2) cs
  widened lo hi cs le ge p = record {
    free = p.free;
    inside =
        All-mono (λ x. (lo ≤ x) × (x < hi)) (λ x. (2 ≤ x) × (x < f.cluster_count + 2)) cs
          (λ x h. omega arith) p.inside;
    distinct = p.distinct;
  }

  both_windows :
      (hi lo : ℕ) (xs ys : List ℕ)
      → hi ≤ f.cluster_count + 2
      → lo ≤ f.next_free
      → Picked f f.next_free hi xs
      → Picked f 2 lo ys
      → Picked f 2 (f.cluster_count + 2) (xs ++ ys)
  both_windows hi lo xs ys hi_le lo_le p q = record {
    free = All-append (IsFree f) xs ys p.free q.free;
    inside =
        All-append (λ x. (2 ≤ x) × (x < f.cluster_count + 2)) xs ys
          (widened f.next_free hi xs (omega (arith, w.hint)) hi_le p).inside
          (widened 2 lo ys (omega arith) (omega (arith, w.hint)) q).inside;
    distinct =
        Distinct-append xs ys f.next_free p.distinct q.distinct
          (All-mono (λ x. (f.next_free ≤ x) × (x < hi)) (λ x. f.next_free ≤ x) xs (λ x h. h.0)
            p.inside)
          (All-mono (λ x. (2 ≤ x) × (x < lo)) (λ x. x < f.next_free) ys (λ x h. omega arith)
            q.inside);
  }

  abbrev first_rounds : ℕ
  first_rounds = f.cluster_count + 2 - f.next_free

  abbrev second_rounds : ℕ
  second_rounds = f.next_free - first_cluster

  -- the two windows hold all the free clusters
  windows_total :
      free_between f 2 second_rounds + free_between f f.next_free first_rounds ≡ f.free_count
  windows_total =
      let total : second_rounds + first_rounds ≡ f.cluster_count = omega (arith, w.hint) in
      omega (
        arith,
        free_between-add f second_rounds first_rounds 2 f.next_free (omega (arith, w.hint)),
        ap (free_between f 2) total,
        free_between-volume f w,
        w.counted,
      )

  module _ (xs : List ℕ) (acc : List Run) (t : ℕ) (same : clusters_of acc ≡ xs)
      (picked : Picked f f.next_free (f.next_free + first_rounds) xs) (taken : t ≡ length xs)
      (all : length xs ≡ free_between f f.next_free first_rounds) where
    last_pass-Scattered :
        (o : Outcome Gather)
        → Gathered f count first_cluster second_rounds (clusters_of acc) t o
        → Scattered (last_pass count o)
    unfolding last_pass
    last_pass-Scattered o (done ys rs e b p l) =
        let cover : clusters_of rs ≡ xs ++ ys = e ∙ ap (λ z. z ++ ys) same in
        record {
          found = rs;
          returns = refl;
          bounded = b;
          picked = subst (Picked f 2 (f.cluster_count + 2)) (sym cover) (
              both_windows (f.next_free + first_rounds) (first_cluster + second_rounds) xs ys
                (omega (arith, w.hint)) (omega (arith, w.hint)) picked p);
          enough_of_them = rw cover (omega (arith, length-append xs ys));
        }
    last_pass-Scattered o (all_of_them ys rs t' e b p l m lt) =
        absurd (omega (arith, windows_total))

  second_pass-Scattered :
      (o : Outcome Gather)
      → Gathered f count f.next_free first_rounds [] 0 o
      → Scattered (second_pass f count o)
  unfolding second_pass
  second_pass-Scattered o (done cs rs e b p l) = record {
    found = rs;
    returns = refl;
    bounded = b;
    picked = subst (Picked f 2 (f.cluster_count + 2)) (sym e) (
        widened f.next_free (f.next_free + first_rounds) cs (omega (arith, w.hint))
          (omega (arith, w.hint)) p);
    enough_of_them = rw e (omega arith);
  }
  second_pass-Scattered o (all_of_them cs rs t e b p l m lt) =
      last_pass-Scattered cs rs t e p (omega arith) m _ (
        gather-Gathered f count second_rounds first_cluster t rs (omega arith)
          (omega (arith, w.sized, w.hint)) (omega (arith, w.sized, w.small))
          (omega (arith, w.small, free_count-le f w)) lt b)

  pub find_scattered-Scattered : Scattered (find_scattered f count)
  unfolding find_scattered
  find_scattered-Scattered =
      let whole : end_of f ≡ f.cluster_count + 2 = omega (arith, w.small) in
      rw whole (
        second_pass-Scattered _ (
          gather-Gathered f count first_rounds f.next_free 0 [] w.hint.0
            (omega (arith, w.sized, w.hint)) (omega (arith, w.sized, w.small))
            (omega (arith, w.small, free_count-le f w)) positive tt))
