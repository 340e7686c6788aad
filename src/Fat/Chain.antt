-- ===== src/Fat/Chain.antt =====
-- What a cluster chain is, independently of the walk: `Linked f cs` says that the entries of the
-- clusters `cs` point from each to the next and that the last one ends the chain.
pub mod Walk
pub mod InOrder
use resident_fat.Prelude.{
  ℕ, zero, suc, ◌+◌, ◌≤◌, ◌<◌, ◌≡◌, refl, get_or, sym, ap₂, subst, ap, inl, inr, ◌⊎◌, append_assoc,
  length-append, ◌∙◌, ◌≢◌, List, [], ◌∷◌, ◌++◌, arith, length, NotIn, Distinct, All,
}
use resident_fat.Fat.Table.{Fat, end_of_chain}
use resident_fat.Fat.Invariant.{IsWellFormed, IsCluster, value}

abbrev pub Linked : Fat → List ℕ → Type 0
Linked f [] = ⊥
Linked f (c ∷ []) = IsCluster f c × (end_of_chain ≤ value f c)
Linked f (c ∷ d ∷ cs) = IsCluster f c × (value f c ≡ d) × Linked f (d ∷ cs)

pub Linked-head : (f : Fat) (c : ℕ) (cs : List ℕ) → Linked f (c ∷ cs) → IsCluster f c
Linked-head f c [] h = h.0
Linked-head f c (d ∷ cs) h = h.0

pub Linked-cons_ne_nil :
    (f : Fat) (c d : ℕ) (cs : List ℕ) → Linked f (c ∷ d ∷ cs) → Linked f (d ∷ cs)
Linked-cons_ne_nil f c d cs h = h.2

module _ (f : Fat) (w : IsWellFormed f) where
  -- A cluster begins at most one chain.
  pub Linked-unique : (c : ℕ) (xs ys : List ℕ) → Linked f (c ∷ xs) → Linked f (c ∷ ys) → xs ≡ ys
  Linked-unique c [] [] h k = refl
  Linked-unique c [] (y ∷ ys) h k = absurd (omega (arith, w.small, Linked-head f y ys k.2))
  Linked-unique c (x ∷ xs) [] h k = absurd (omega (arith, w.small, Linked-head f x xs h.2))
  Linked-unique c (x ∷ xs) (y ∷ ys) h k =
      let e : y ≡ x = sym k.1 ∙ h.1 in
      ap₂ ◌∷◌ (sym e) (Linked-unique x xs ys h.2 (subst (λ z. Linked f (z ∷ ys)) e k.2))

  pub Linked-suffix :
      (xs : List ℕ) (c : ℕ) (ys : List ℕ) → Linked f (xs ++ c ∷ ys) → Linked f (c ∷ ys)
  Linked-suffix [] c ys h = h
  Linked-suffix (x ∷ []) c ys h = h.2
  Linked-suffix (x ∷ y ∷ xs) c ys h = Linked-suffix (y ∷ xs) c ys h.2

  -- A chain does not meet its first cluster again.
  Linked-NotIn :
      (c : ℕ) (cs pre post : List ℕ) → Linked f (c ∷ cs) → cs ≡ pre ++ post → NotIn c post
  Linked-NotIn c cs pre [] h e = tt
  Linked-NotIn c cs pre (x ∷ post) h e =
      (λ same. again same, Linked-NotIn c cs (pre ++ x ∷ []) post h (rw append_assoc e))
    where
      whole : Linked f (c ∷ pre ++ x ∷ post)
      whole = subst (λ l. Linked f (c ∷ l)) e h

      again : c ≡ x → ⊥
      again same =
          let tail = Linked-suffix (c ∷ pre) x post whole in
          let same_tail =
            Linked-unique c post (pre ++ x ∷ post)
              (subst (λ z. Linked f (z ∷ post)) (sym same) tail) whole in
          omega (arith, ap length same_tail, length-append pre (x ∷ post))

  pub Linked-Distinct : (cs : List ℕ) → Linked f cs → Distinct cs
  Linked-Distinct [] h = absurd h
  Linked-Distinct (c ∷ []) h = (tt, tt)
  Linked-Distinct (c ∷ d ∷ cs) h =
      (Linked-NotIn c (d ∷ cs) [] (d ∷ cs) h refl, Linked-Distinct (d ∷ cs) h.2)

  pub Linked-All : (cs : List ℕ) → Linked f cs → All (IsCluster f) cs
  Linked-All [] h = absurd h
  Linked-All (c ∷ []) h = (h.0, tt)
  Linked-All (c ∷ d ∷ cs) h = (h.0, Linked-All (d ∷ cs) h.2)

-- A chain is a matter of its own entries.
pub Linked-ext :
    (f g : Fat) (cs : List ℕ)
    → g.cluster_count ≡ f.cluster_count
    → All (λ c. get_or g.entries c 0 ≡ get_or f.entries c 0) cs
    → Linked f cs
    → Linked g cs
Linked-ext f g [] e same h = h
Linked-ext f g (c ∷ []) e same h = (omega (arith, h.0), rw same.0 h.1)
Linked-ext f g (c ∷ d ∷ cs) e same h =
    (omega (arith, h.0), rw same.0 h.1, Linked-ext f g (d ∷ cs) e same.1 h.2)

-- The clusters of a chain are in use, so no free cluster is among them.
pub Linked-used : (f : Fat) (cs : List ℕ) → Linked f cs → All (λ c. 0 < value f c) cs
Linked-used f [] h = absurd h
Linked-used f (c ∷ []) h = (omega arith, tt)
Linked-used f (c ∷ d ∷ cs) h =
    (omega (arith, Linked-head f d cs h.2, h.1), Linked-used f (d ∷ cs) h.2)

-- The clusters in front of `y` stay linked to it, whatever follows.
pub Linked-prefix :
    (f g : Fat) (xs : List ℕ) (y : ℕ) (rest rest' : List ℕ)
    → g.cluster_count ≡ f.cluster_count
    → All (λ c. get_or g.entries c 0 ≡ get_or f.entries c 0) xs
    → Linked f (xs ++ y ∷ rest)
    → Linked g (y ∷ rest')
    → Linked g (xs ++ y ∷ rest')
Linked-prefix f g [] y rest rest' e same h k = k
Linked-prefix f g (x ∷ []) y rest rest' e same h k = (omega (arith, h.0), rw same.0 h.1, k)
Linked-prefix f g (x ∷ x' ∷ xs) y rest rest' e same h k =
    (omega (arith, h.0), rw same.0 h.1, Linked-prefix f g (x' ∷ xs) y rest rest' e same.1 h.2 k)
