-- ===== src/Volume/Writes.antt =====
-- The writes of src/fs.rs, split to what a device takes at a time, and the mark of a volume in use.
use native.Mathlib.Nat.{add-mul}
use resident_fat.Prelude.{
  take-drop, length-take, length-drop, ℕ, zero, suc, ◌+◌, ◌-◌, ◌*◌, ◌/◌, ◌^◌, min, ◌≤◌, ◌<◌, ◌≡◌,
  inl, inr, refl, subst, sym, ap, ap₂, ◌∙◌, Bool, true, List, [], ◌∷◌, ◌++◌, length, take, drop,
  arith, Bool-cases, ◌==◌, ==_iff, ltb, leb, ◌||◌,
}
use resident_fat.Words.{u64}
use resident_fat.Boot.{block_size}
use resident_fat.Errors.{Result, done, ◌>>◌}
use resident_fat.Volume.{
  BlockDevice, FileSystem, at_least_one, batch_sizes, cap_of, device_write, write_batches,
  write_marked,
}
use resident_fat.Volume.Transfers.{laid, laid-add, no_batches}

abbrev pub is_outside : ℕ → ℕ → ℕ → Bool
is_outside block blocks i = ltb i block || leb (block + blocks) i

-- Blocks that lie before an end, and are the same up to there.
laid-before :
    (before after : ℕ → List ℕ) (end block n : ℕ)
    → ((i : ℕ) → ltb i end ≡ true → after i ≡ before i)
    → block + n ≤ end
    → laid after block n ≡ laid before block n
laid-before before after end block zero h inside = refl
laid-before before after end block (suc n) h inside =
    ap₂ ◌++◌ (h block (ground arith)) (laid-before before after end (block + 1) n h (omega arith))

pub empty : (xs : List ℕ) → length xs ≡ 0 → xs ≡ []
empty [] h = refl
empty (x ∷ xs) h = absurd (omega arith)

-- What a device promises of its writes: it takes those that lie on it and are no longer than it
-- says, holds their bytes afterwards, and leaves its other blocks alone.
pub record ServesWrites (d : BlockDevice) (end : ℕ) (content : d.State → ℕ → List ℕ) : Type 0 where
  pub served :
      (s : d.State) (block blocks : ℕ) (from : List ℕ)
      → blocks ≤ at_least_one (d.max_transfer_blocks s)
      → block + blocks ≤ end
      → length from ≡ blocks * block_size
      → (t : d.State) × (d.write block from s ≡ (true, t))
        × (laid (content t) block blocks ≡ from)
        × ((i : ℕ) → is_outside block blocks i ≡ true → content t i ≡ content s i)
        × (d.max_transfer_blocks t ≡ d.max_transfer_blocks s)

module _ (d : BlockDevice) (end : ℕ) (content : d.State → ℕ → List ℕ)
    (serves : ServesWrites d end content) (small : end < 2 ^ 64) where
  -- the outcome of a write of the volume: the device holds the bytes, and its other blocks as they
  -- were
  abbrev pub HasWritten : FileSystem d → ℕ → ℕ → List ℕ → Result (Unit {0}) × FileSystem d → Type 0
  HasWritten v block blocks from r =
      (t : d.State) × (r ≡ (done tt, record v { device = t }))
      × (laid (content t) block blocks ≡ from)
      × ((i : ℕ) → is_outside block blocks i ≡ true → content t i ≡ content v.device i)
      × (d.max_transfer_blocks t ≡ d.max_transfer_blocks v.device)

  pub device_write-HasWritten :
      (v : FileSystem d) (block blocks : ℕ) (from : List ℕ)
      → blocks ≤ cap_of d v
      → block + blocks ≤ end
      → block < end
      → length from ≡ blocks * block_size
      → HasWritten v block blocks from (device_write d block from v)
  device_write-HasWritten v block blocks from fits inside on whole =
      let here : u64 block ≡ block = omega arith in
      let (t, e, held, same, cap) = serves.served v.device block blocks from fits inside whole in
      (t, rw (here, e) refl, held, same, cap)

  -- one write after another
  then_write-HasWritten :
      (v : FileSystem d) (block m n : ℕ) (from : List ℕ)
      (first rest : FileSystem d → Result (Unit {0}) × FileSystem d)
      → HasWritten v block m (take (m * block_size) from) (first v)
      → ((t : d.State)
          → d.max_transfer_blocks t ≡ d.max_transfer_blocks v.device
          → HasWritten
              (record v { device = t })
              (block + m)
              n
              (drop (m * block_size) from)
              (rest (record v { device = t })))
      → HasWritten v block (m + n) from ((first >> rest) v)
  then_write-HasWritten v block m n from first rest (t, e, held, same, cap) next =
      let (t', e', held', same', cap') = next t cap in
      let kept : laid (content t') block m ≡ laid (content t) block m =
        laid-before (content t) (content t') (block + m) block m (λ i h. same' i (ground arith))
          (omega arith) in
      (
        t',
        rw (e, e') refl,
        laid-add (content t') block m n
            ∙ ap₂ ◌++◌ (kept ∙ held) held'
            ∙ take-drop (m * block_size) from,
        (λ i h. same' i (ground arith) ∙ same i (ground arith)),
        cap' ∙ cap,
      )

  write_batches-HasWritten :
      (rounds blocks start cap batch : ℕ) (from : List ℕ) (v : FileSystem d)
      → cap ≡ cap_of d v
      → blocks ≤ rounds
      → start + batch * cap + blocks ≤ end
      → length from ≡ blocks * block_size
      → HasWritten v
          (start + batch * cap)
          blocks
          from
          (write_batches d start cap batch (batch_sizes rounds cap blocks) from v)
  unfolding write_batches batch_sizes
  write_batches-HasWritten zero blocks start cap batch from v c few inside whole =
      let none_left : blocks ≡ 0 = omega arith in
      rw none_left (v.device, refl, sym (empty from (omega arith)), (λ i h. refl), refl)
  write_batches-HasWritten (suc rounds) blocks start cap batch from v c few inside whole =
      elim (Bool-cases (blocks == 0)) [
        | inl e ↦
            let none_left : blocks ≡ 0 = (==_iff _ _).0 e in
            rw none_left (v.device, refl, sym (empty from (omega arith)), (λ i h. refl), refl)
        | inr e ↦
            let some_cap : 1 ≤ cap = rw c (ground arith) in
            let some_blocks : 1 ≤ blocks = ground arith in
            let size = min cap blocks in
            let sum : size + (blocks - size) ≡ blocks = omega arith in
            let taken : length (take (size * block_size) from) ≡ size * block_size =
              omega (arith, length-take (size * block_size) from) in
            let left : length (drop (size * block_size) from) ≡ (blocks - size) * block_size =
              omega (arith, length-drop (size * block_size) from) in
            let first =
              device_write-HasWritten v (start + batch * cap) size (take (size * block_size) from)
                (rw (← c) (omega arith)) (omega arith) (omega arith) taken in
            let rest : (t : d.State)
                → d.max_transfer_blocks t ≡ d.max_transfer_blocks v.device
                → HasWritten (record v { device = t }) (start + batch * cap + size) (blocks - size)
                    (drop (size * block_size) from)
                    (write_batches d start cap (batch + 1) (batch_sizes rounds cap (blocks - size))
                      (drop (size * block_size) from) (record v { device = t })) =
              λ t same_cap. elim (Bool-cases (leb blocks cap)) [
                | inl all ↦
                    let none_left : blocks - size ≡ 0 = ground arith in
                    let nothing : drop (size * block_size) from ≡ [] =
                      empty (drop (size * block_size) from) (omega (arith, left, none_left)) in
                    rw (none_left, no_batches rounds cap)
                      (t, refl, sym nothing, (λ i h. refl), refl)
                | inr more ↦
                    let full : size ≡ cap = ground arith in
                    let next : start + batch * cap + size ≡ start + (batch + 1) * cap =
                      omega (arith, add-mul batch 1 cap) in
                    rw next (
                      write_batches-HasWritten rounds (blocks - size) start cap (batch + 1)
                        (drop (size * block_size) from) (record v { device = t })
                        (c ∙ ap at_least_one (sym same_cap)) (omega arith) (omega (arith, next))
                        left)
              ] in
            rw e (
              subst
                (λ n. HasWritten v (start + batch * cap) n from (
                  write_batches d start cap batch (size ∷ batch_sizes rounds cap (blocks - size))
                    from v))
                sum
                (then_write-HasWritten v (start + batch * cap) size (blocks - size) from
                  (device_write d (start + batch * cap) (take (size * block_size) from))
                  (write_batches d start cap (batch + 1) (batch_sizes rounds cap (blocks - size))
                    (drop (size * block_size) from))
                  first rest))
      ]

  pub write_marked-HasWritten :
      (v : FileSystem d) (block blocks : ℕ) (from : List ℕ)
      → v.first_block + block + blocks ≤ end
      → v.first_block + block < end
      → length from ≡ blocks * block_size
      → HasWritten v (v.first_block + block) blocks from (write_marked d block from v)
  unfolding write_marked
  write_marked-HasWritten v block blocks from inside on whole =
      let count : length from / block_size ≡ blocks = omega arith in
      elim (Bool-cases (leb blocks (cap_of d v))) [
        | inl short ↦
            rw (count, short)
              (device_write-HasWritten v (v.first_block + block) blocks from (ground arith) inside
                on whole)
        | inr long ↦
            let start : v.first_block + block + 0 * cap_of d v ≡ v.first_block + block =
              omega arith in
            let batches =
              write_batches-HasWritten blocks blocks (v.first_block + block) (cap_of d v) 0 from v
                refl (omega arith) (omega arith) whole in
            rw (count, long)
              (subst
                (λ b. HasWritten v b blocks from (
                  write_batches d (v.first_block + block) (cap_of d v) 0
                    (batch_sizes blocks (cap_of d v) blocks) from v))
                start batches)
      ]
