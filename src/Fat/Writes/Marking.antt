-- ===== src/Fat/Writes/Marking.antt =====
-- One value written to each cluster of a list.
use resident_fat.Prelude.{
  ℕ, ◌+◌, ◌*◌, ◌≡◌, refl, sym, ◌∙◌, List, [], ◌∷◌, ◌++◌, arith, length, get_or, All, Distinct,
  NotIn, NotIn-append_left, NotIn-append_right, All-mono, subst, ◌==◌, ==_iff, Bool-cases, inl, inr,
}
use resident_fat.Words.{high_bits}
use resident_fat.Fat.Table.{Fat, ok, masked}
use resident_fat.Fat.Invariant.{IsWellFormed, IsCluster, value, one_if_free}
use resident_fat.Fat.SetEntry.{
  written, reserved-written, set_entry-eq-written, value-written_self, entry-written_ne,
  free_count-written, written-IsWellFormed,
}
use resident_fat.Fat.Writes.{set_all, written_all}

abbrev pub AreClusters : Fat → List ℕ → Type 0
AreClusters f cs = All (IsCluster f) cs

-- What any sequence of writes to the clusters `cs` keeps.
pub record Kept (f g : Fat) (cs : List ℕ) : Type 0 where
  pub well_formed : IsWellFormed g
  pub same_volume : g.cluster_count ≡ f.cluster_count
  pub outside : (d : ℕ) → NotIn d cs → get_or g.entries d 0 ≡ get_or f.entries d 0
  pub reserved : (d : ℕ) → high_bits (get_or g.entries d 0) 28 ≡ high_bits (get_or f.entries d 0) 28

pub Kept-refl : (f : Fat) (cs : List ℕ) → IsWellFormed f → Kept f f cs
Kept-refl f cs w = record {
  well_formed = w;
  same_volume = refl;
  outside = λ d h. refl;
  reserved = λ d. refl;
}

module _ (f g : Fat) (w : IsWellFormed f) (c v : ℕ) (valid : IsCluster f c) where
  reserved_written :
      (d : ℕ)
      → high_bits (get_or (written c v f).entries d 0) 28 ≡ high_bits (get_or f.entries d 0) 28
  reserved_written d = elim (Bool-cases (c == d)) [
    | inl e ↦
        subst
          (λ x.
            high_bits (get_or (written c v f).entries x 0) 28 ≡ high_bits (get_or f.entries x 0) 28)
          ((==_iff c d).0 e) (reserved-written f w c v valid)
    | inr e ↦ rw (entry-written_ne f c v d (ground arith)) refl
  ]

  pub Kept-cons : (cs : List ℕ) → Kept (written c v f) g cs → Kept f g (c ∷ cs)
  Kept-cons cs k = record {
    well_formed = k.well_formed;
    same_volume = k.same_volume ∙ unfold written in refl;
    outside = λ d h. k.outside d h.1 ∙ entry-written_ne f c v d (λ e. h.0 (sym e));
    reserved = λ d. k.reserved d ∙ reserved_written d;
  }

pub cluster_count-written : (c v : ℕ) (f : Fat) → (written c v f).cluster_count ≡ f.cluster_count
unfolding written
cluster_count-written c v f = refl

module _ (v : ℕ) where
  pub AreClusters-written :
      (f : Fat) (c : ℕ) (cs : List ℕ) → AreClusters f cs → AreClusters (written c v f) cs
  unfolding written
  AreClusters-written f c cs h = h

  pub set_all-eq :
      (cs : List ℕ) (f : Fat)
      → IsWellFormed f
      → AreClusters f cs
      → set_all cs v f ≡ (ok tt, written_all cs v f)
  unfolding set_all written_all
  set_all-eq [] f w h = refl
  set_all-eq (c ∷ cs) f w h = rw (set_entry-eq-written f w c v h.0) (
      set_all-eq cs (written c v f) (written-IsWellFormed f w c v h.0)
        (AreClusters-written f c cs h.1))

  pub written_all-Kept :
      (cs : List ℕ) (f : Fat) → IsWellFormed f → AreClusters f cs → Kept f (written_all cs v f) cs
  unfolding written_all
  written_all-Kept [] f w h = Kept-refl f [] w
  written_all-Kept (c ∷ cs) f w h = Kept-cons f (written_all cs v (written c v f)) w c v h.0 cs (
      written_all-Kept cs (written c v f) (written-IsWellFormed f w c v h.0)
        (AreClusters-written f c cs h.1))

  -- A cluster of the list has the value; the order and repetitions make no difference.
  pub written_all-All :
      (cs : List ℕ) (f : Fat)
      → IsWellFormed f
      → AreClusters f cs
      → Distinct cs
      → All (λ c. value (written_all cs v f) c ≡ masked v) cs
  unfolding written_all
  written_all-All [] f w h d = tt
  written_all-All (c ∷ cs) f w h d = (
    rw
        ((written_all-Kept cs (written c v f) (written-IsWellFormed f w c v h.0)
            (AreClusters-written f c cs h.1)).outside
          c d.0)
        (value-written_self f w c v h.0),
    written_all-All cs (written c v f) (written-IsWellFormed f w c v h.0)
        (AreClusters-written f c cs h.1) d.1,
  )

  All-unchanged :
      (k : ℕ) (f : Fat) (c : ℕ) (cs : List ℕ)
      → NotIn c cs
      → All (λ x. one_if_free (get_or f.entries x 0) ≡ k) cs
      → All (λ x. one_if_free (get_or (written c v f).entries x 0) ≡ k) cs
  All-unchanged k f c [] n h = tt
  All-unchanged k f c (x ∷ xs) n h =
      (rw (entry-written_ne f c v x n.0) h.0, All-unchanged k f c xs n.1 h.1)

  -- The free count moves by one for each cluster that changes between free and taken.
  pub free_count-written_all :
      (k : ℕ) (cs : List ℕ) (f : Fat)
      → IsWellFormed f
      → AreClusters f cs
      → Distinct cs
      → All (λ c. one_if_free (get_or f.entries c 0) ≡ k) cs
      → (written_all cs v f).free_count + k * length cs ≡ f.free_count + one_if_free v * length cs
  unfolding written_all
  free_count-written_all k [] f w h d all = omega arith
  free_count-written_all k (c ∷ cs) f w h d all = omega (
    arith,
    all.0,
    free_count-written f w c v h.0,
    free_count-written_all k cs (written c v f) (written-IsWellFormed f w c v h.0)
        (AreClusters-written f c cs h.1) d.1 (All-unchanged k f c cs d.0 all.1),
  )

pub Kept-trans : (f g h : Fat) (cs : List ℕ) → Kept f g cs → Kept g h cs → Kept f h cs
Kept-trans f g h cs k l = record {
  well_formed = l.well_formed;
  same_volume = l.same_volume ∙ k.same_volume;
  outside = λ d n. l.outside d n ∙ k.outside d n;
  reserved = λ d. l.reserved d ∙ k.reserved d;
}

pub Kept-AreClusters :
    (f g : Fat) (cs ds : List ℕ) → Kept f g cs → AreClusters f ds → AreClusters g ds
Kept-AreClusters f g cs ds k h =
    All-mono (IsCluster f) (IsCluster g) ds (λ x v. omega (arith, k.same_volume)) h

pub Kept-append : (f g h : Fat) (xs ys : List ℕ) → Kept f g xs → Kept g h ys → Kept f h (xs ++ ys)
Kept-append f g h xs ys k l = record {
  well_formed = l.well_formed;
  same_volume = l.same_volume ∙ k.same_volume;
  outside =
      λ d n. l.outside d (NotIn-append_right d xs ys n) ∙ k.outside d (NotIn-append_left d xs ys n);
  reserved = λ d. l.reserved d ∙ k.reserved d;
}

-- What is untouched has the value that it had.
pub All-outside :
    (f g : Fat) (P : ℕ → Type 0) (cs ds : List ℕ)
    → Kept f g cs
    → All (λ d. NotIn d cs) ds
    → All (λ d. P (value f d)) ds
    → All (λ d. P (value g d)) ds
All-outside f g P cs [] k n h = tt
All-outside f g P cs (d ∷ ds) k n h = (rw (k.outside d n.0) h.0, All-outside f g P cs ds k n.1 h.1)
