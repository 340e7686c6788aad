-- ===== src/Fat/Writes/Linking.antt =====
-- The clusters of a list linked each to the next.
use resident_fat.Prelude.{ℕ, ◌≤◌, ◌≡◌, refl, ◌∙◌, List, [], ◌∷◌, arith, All, Distinct, NotIn}
use resident_fat.Fat.Table.{Fat, end_of_chain}
use resident_fat.Fat.Invariant.{IsWellFormed, value}
use resident_fat.Fat.SetEntry.{
  written, value-written_self, entry-written_ne, free_count-written, written-IsWellFormed,
}
use resident_fat.Fat.Chain.{Linked}
use resident_fat.Fat.Writes.{linked_from}
use resident_fat.Fat.Writes.Marking.{
  AreClusters, AreClusters-written, Kept, Kept-refl, Kept-cons, cluster_count-written,
}

-- Every entry of the list holds the end of a chain.
abbrev pub AreEnds : Fat → List ℕ → Type 0
AreEnds f cs = All (λ c. end_of_chain ≤ value f c) cs

AreEnds-written :
    (f : Fat) (b v : ℕ) (cs : List ℕ) → NotIn b cs → AreEnds f cs → AreEnds (written b v f) cs
AreEnds-written f b v [] n h = tt
AreEnds-written f b v (x ∷ xs) n h =
    (rw (entry-written_ne f b v x n.0) h.0, AreEnds-written f b v xs n.1 h.1)

pub linked_from-Kept :
    (b : ℕ) (cs : List ℕ) (f : Fat)
    → IsWellFormed f
    → AreClusters f (b ∷ cs)
    → Kept f (linked_from b cs f) (b ∷ cs)
unfolding linked_from
linked_from-Kept b [] f w h = Kept-refl f (b ∷ []) w
linked_from-Kept b (c ∷ cs) f w h =
    Kept-cons f (linked_from c cs (written b c f)) w b c h.0 (c ∷ cs) (
      linked_from-Kept c cs (written b c f) (written-IsWellFormed f w b c h.0)
        (AreClusters-written c f b (c ∷ cs) h.1))

-- Distinct clusters that all end a chain become one chain.
pub linked_from-Linked :
    (b : ℕ) (cs : List ℕ) (f : Fat)
    → IsWellFormed f
    → AreClusters f (b ∷ cs)
    → Distinct (b ∷ cs)
    → AreEnds f (b ∷ cs)
    → Linked (linked_from b cs f) (b ∷ cs)
unfolding linked_from
linked_from-Linked b [] f w h d ends = (h.0, ends.0)
linked_from-Linked b (c ∷ cs) f w h d ends =
    let w' = written-IsWellFormed f w b c h.0 in
    let h' = AreClusters-written c f b (c ∷ cs) h.1 in
    let kept = linked_from-Kept c cs (written b c f) w' h' in
    let g = linked_from c cs (written b c f) in
    let here : value g b ≡ c =
      rw (kept.outside b d.0) (value-written_self f w b c h.0 ∙ omega (arith, h.1.0, w.small)) in
    (
      omega (arith, kept.same_volume, cluster_count-written b c f, h.0),
      here,
      linked_from-Linked c cs (written b c f) w' h' d.1 (AreEnds-written f b c (c ∷ cs) d.0 ends.1),
    )

pub free_count-linked_from :
    (b : ℕ) (cs : List ℕ) (f : Fat)
    → IsWellFormed f
    → AreClusters f (b ∷ cs)
    → Distinct (b ∷ cs)
    → AreEnds f (b ∷ cs)
    → (linked_from b cs f).free_count ≡ f.free_count
unfolding linked_from
free_count-linked_from b [] f w h d ends = refl
free_count-linked_from b (c ∷ cs) f w h d ends =
    let w' = written-IsWellFormed f w b c h.0 in
    ground (
      arith,
      free_count-written f w b c h.0,
      h.1.0,
      w.small,
      free_count-linked_from c cs (written b c f) w' (AreClusters-written c f b (c ∷ cs) h.1) d.1
          (AreEnds-written f b c (c ∷ cs) d.0 ends.1),
    )
