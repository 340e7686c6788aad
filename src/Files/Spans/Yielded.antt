-- ===== src/Files/Spans/Yielded.antt =====
-- The bytes of consecutive blocks, cut anywhere, and the actions of src/file.rs that yield them.
use resident_fat.Prelude.{
  ℕ, zero, suc, ◌+◌, ◌-◌, ◌*◌, ◌^◌, ◌≤◌, ◌<◌, ◌≡◌, refl, sym, ap, ◌∙◌, List, ◌++◌, length,
  length-append, length-drop, take, drop, take-append, take-add, drop-drop, drop-append,
  drop-append_past, arith,
}
use resident_fat.Boot.{block_size}
use resident_fat.Errors.{Result, done, pure, ◌>>=◌}
use resident_fat.Volume.{BlockDevice, FileSystem, Op, read_blocks}
use resident_fat.Volume.Transfers.{laid, laid-add, laid-same, ServesReads, read_blocks-HasRead}

-- Every block has its bytes.
abbrev pub IsWhole : (ℕ → List ℕ) → Type 0
IsWhole content = (i : ℕ) → length (content i) ≡ block_size

-- A cut in two parts, one after the other.
pub cut-add :
    (xs : List ℕ) (s m n : ℕ)
    → take (m + n) (drop s xs) ≡ take m (drop s xs) ++ take n (drop (s + m) xs)
cut-add xs s m n =
    take-add m n (drop s xs) ∙ ap (λ l. take m (drop s xs) ++ take n l) (drop-drop s m xs)

module _ (content : ℕ → List ℕ) (whole : IsWhole content) where
  pub length-laid : (block n : ℕ) → length (laid content block n) ≡ n * block_size
  length-laid block zero = refl
  length-laid block (suc n) =
      length-append (content block) (laid content (block + 1) n)
      ∙ omega (arith, whole block, length-laid (block + 1) n)

  -- A cut that lies in some of the blocks is a cut of those alone.
  pub laid-cut :
      (block j k blocks s m : ℕ)
      → j + k ≤ blocks
      → s + m ≤ k * block_size
      → take m (drop (j * block_size + s) (laid content block blocks))
        ≡ take m (drop s (laid content (block + j) k))
  laid-cut block j k blocks s m inside fits =
      let all : blocks ≡ j + (k + (blocks - (j + k))) = omega arith in
      let here = laid content (block + j) k in
      let there = laid content (block + j + k) (blocks - (j + k)) in
      let size : length here ≡ k * block_size = length-laid (block + j) k in
      let apart : laid content block blocks ≡ laid content block j ++ (here ++ there) =
        ap (laid content block) all
        ∙ laid-add content block j (k + (blocks - (j + k)))
        ∙ ap (λ l. laid content block j ++ l) (laid-add content (block + j) k (blocks - (j + k))) in
      ap (λ l. take m (drop (j * block_size + s) l)) apart
      ∙ ap (take m) (
          drop-append_past (j * block_size) s (laid content block j) (here ++ there)
            (length-laid block j)
          ∙ drop-append s here there (omega (arith, size)))
      ∙ take-append m (drop s here) there (omega (arith, size, length-drop s here))

  -- from the first block on
  pub laid-cut_first :
      (block k blocks s m : ℕ)
      → k ≤ blocks
      → s + m ≤ k * block_size
      → take m (drop s (laid content block blocks)) ≡ take m (drop s (laid content block k))
  laid-cut_first block k blocks s m inside fits =
      let place : 0 * block_size + s ≡ s = omega arith in
      let start : block + 0 ≡ block = omega arith in
      ap (λ p. take m (drop p (laid content block blocks))) (sym place)
      ∙ laid-cut block 0 k blocks s m (omega (arith, inside)) fits
      ∙ ap (λ b. take m (drop s (laid content b k))) start

module _ (d : BlockDevice) (end : ℕ) (contents : d.State → ℕ → List ℕ) (content : ℕ → List ℕ) where
  abbrev pub Holds : FileSystem d → Type 0
  Holds v = (i : ℕ) → contents v.device i ≡ content i

  -- An outcome: this value, with the device changed at most where it holds the same bytes.
  abbrev pub Yields : {A : Type 0} → FileSystem d → A → Result A × FileSystem d → Type 0
  Yields v a r =
      (t : d.State) × (r ≡ (done a, record v { device = t })) × ((i : ℕ) → contents t i ≡ content i)

  -- one action after another
  pub then-Yields :
      {A B : Type 0} (v : FileSystem d) (m : Op d A) (k : A → Op d B) (a : A) (b : B)
      → Yields v a (m v)
      → ((t : d.State)
          → Holds (record v { device = t })
          → Yields (record v { device = t }) b (k a (record v { device = t })))
      → Yields v b ((m >>= k) v)
  then-Yields v m k a b (t, e, same) next =
      let (t', e', same') = next t same in (t', rw (e, e') refl, same')

  -- one read after another, and their bytes together
  pub append-Yields :
      (v : FileSystem d) (m n : Op d (List ℕ)) (xs ys : List ℕ)
      → Yields v xs (m v)
      → ((t : d.State)
          → Holds (record v { device = t })
          → Yields (record v { device = t }) ys (n (record v { device = t })))
      → Yields v (xs ++ ys) ((m >>= λ a. n >>= λ b. pure (a ++ b)) v)
  append-Yields v m n xs ys first next =
      then-Yields v m (λ a. n >>= λ b. pure (a ++ b)) xs (xs ++ ys) first
        (λ t held.
          then-Yields (record v { device = t }) n (λ b. pure (xs ++ b)) ys (xs ++ ys) (next t held)
            (λ t' held'. (t', refl, held')))

  module _ (serves : ServesReads d end contents) (small : end < 2 ^ 64) where
    pub read_blocks-Yields :
        (v : FileSystem d) (block blocks : ℕ)
        → Holds v
        → v.first_block + block + blocks ≤ end
        → Yields v (laid content (v.first_block + block) blocks) (read_blocks d block blocks v)
    read_blocks-Yields v block blocks held inside =
        let (t, e, same, _) =
          read_blocks-HasRead d end contents serves small v block blocks inside in
        (
          t,
          e
              ∙ ap (λ bytes. (done bytes, record v { device = t }))
                  (laid-same content (contents v.device) (v.first_block + block) blocks held),
          λ i. same i ∙ held i,
        )
