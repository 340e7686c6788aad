-- ===== src/Fat/Invariant.antt =====
-- What a well-formed table (src/fat.rs) is: it has an entry for each cluster, and the free count
-- is the number of free entries.
use resident_fat.Prelude.{
  ℕ, zero, suc, ◌+◌, ◌≤◌, ◌<◌, ◌≡◌, ◌⊎◌, List, [], ◌∷◌, arith, ◌==◌, if◌then◌else◌, length, get_or,
  set, drop,
}
use resident_fat.Fat.Table.{Fat, masked, free_mark, is_valid_cluster}
use resident_fat.Prelude.{true, false}

-- BootSector::parse refuses a larger volume.
abbrev pub max_fat32_clusters : ℕ
max_fat32_clusters = 0x0FFF_FFF5

abbrev pub one_if_free : ℕ → ℕ
one_if_free e = if masked e == free_mark then 1 else 0

unfoldable pub count_free : List ℕ → ℕ
count_free [] = 0
count_free (e ∷ es) = one_if_free e + count_free es

pub record IsWellFormed (f : Fat) : Type 0 where
  pub sized : length f.entries ≡ f.cluster_count + 2
  pub small : f.cluster_count ≤ max_fat32_clusters
  pub counted : f.free_count ≡ count_free (drop 2 f.entries)
  pub hint : (2 ≤ f.next_free) × ((f.next_free < f.cluster_count + 2) ⊎ (f.next_free ≡ 2))

abbrev pub IsCluster : Fat → ℕ → Type 0
IsCluster f c = (2 ≤ c) × (c < f.cluster_count + 2)

-- The value that an entry stands for: its low 28 bits.
abbrev pub value : Fat → ℕ → ℕ
value f c = masked (get_or f.entries c 0)

abbrev pub IsFree : Fat → ℕ → Type 0
IsFree f c = value f c ≡ 0

pub is_valid_cluster_iff_true :
    (f : Fat) (c : ℕ) → IsWellFormed f → IsCluster f c → is_valid_cluster f c ≡ true
unfolding is_valid_cluster
is_valid_cluster_iff_true f c w h = ground arith

pub is_valid_cluster_sound :
    (f : Fat) (c : ℕ) → IsWellFormed f → is_valid_cluster f c ≡ true → IsCluster f c
unfolding is_valid_cluster
is_valid_cluster_sound f c w h = ground arith

pub is_valid_cluster-false :
    (f : Fat) (c : ℕ) → IsWellFormed f → is_valid_cluster f c ≡ false → IsCluster f c → ⊥
unfolding is_valid_cluster
is_valid_cluster-false f c w h = ground arith

pub count_free-set :
    (es : List ℕ) (i w : ℕ)
    → i < length es
    → count_free (set es i w) + one_if_free (get_or es i 0) ≡ count_free es + one_if_free w
unfolding count_free
count_free-set [] i w h = absurd (omega arith)
count_free-set (e ∷ es) zero w h = omega arith
count_free-set (e ∷ es) (suc i) w h = omega (arith, count_free-set es i w (omega arith))

pub count_free-drop-set :
    (es : List ℕ) (i w : ℕ)
    → 2 ≤ i
    → i < length es
    → count_free (drop 2 (set es i w)) + one_if_free (get_or es i 0)
      ≡ count_free (drop 2 es) + one_if_free w
count_free-drop-set [] i w g h = absurd (omega arith)
count_free-drop-set (a ∷ es) zero w g h = absurd (omega arith)
count_free-drop-set (a ∷ []) (suc i) w g h = absurd (omega arith)
count_free-drop-set (a ∷ b ∷ es) (suc zero) w g h = absurd (omega arith)
count_free-drop-set (a ∷ b ∷ es) (suc (suc i)) w g h = count_free-set es i w (omega arith)

pub count_free-le : (es : List ℕ) → count_free es ≤ length es
unfolding count_free
count_free-le [] = omega arith
count_free-le (e ∷ es) = ground (arith, count_free-le es)

pub length-drop_two : (es : List ℕ) → 2 ≤ length es → length (drop 2 es) + 2 ≡ length es
length-drop_two [] h = absurd (omega arith)
length-drop_two (a ∷ []) h = absurd (omega arith)
length-drop_two (a ∷ b ∷ es) h = omega arith

-- There are no more free clusters than clusters.
pub free_count-le : (f : Fat) → IsWellFormed f → f.free_count ≤ f.cluster_count
free_count-le f w =
    omega
      (arith, w.counted, count_free-le (drop 2 f.entries), length-drop_two f.entries (omega arith))
