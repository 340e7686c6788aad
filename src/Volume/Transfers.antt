-- ===== src/Volume/Transfers.antt =====
-- The transfers of src/fs.rs, split to what a device takes at a time, against transfers of any
-- length.
use native.Mathlib.Nat.{add-mul}
use resident_fat.Prelude.{
  ℕ, zero, suc, ◌+◌, ◌-◌, ◌*◌, ◌^◌, min, ◌≤◌, ◌<◌, ◌≡◌, inl, inr, refl, subst, sym, ap, ap₂, ◌∙◌,
  some, List, [], ◌∷◌, ◌++◌, append_assoc, arith, Bool-cases, ◌==◌, ==_iff, leb,
}
use resident_fat.Words.{u64}
use resident_fat.Errors.{Result, done, ◌>>=◌, pure}
use resident_fat.Volume.{
  BlockDevice, FileSystem, at_least_one, batch_sizes, cap_of, device_read, read_batches,
  read_blocks,
}

-- the bytes of so many blocks
abbrev pub laid : (ℕ → List ℕ) → ℕ → ℕ → List ℕ
laid content block zero = []
laid content block (suc n) = content block ++ laid content (block + 1) n

pub laid-add :
    (content : ℕ → List ℕ) (block m n : ℕ)
    → laid content block (m + n) ≡ laid content block m ++ laid content (block + m) n
laid-add content block zero n =
    let e : 0 + n ≡ n = omega arith in let e' : block + 0 ≡ block = omega arith in rw (e, e') refl
laid-add content block (suc m) n =
    let e : suc m + n ≡ suc (m + n) = omega arith in
    let e' : block + suc m ≡ block + 1 + m = omega arith in
    rw (e, e')
      (ap (λ l. content block ++ l) (laid-add content (block + 1) m n)
        ∙ sym (
            append_assoc (content block) (laid content (block + 1) m)
              (laid content (block + 1 + m) n)))

-- Blocks of the same bytes are laid out the same.
pub laid-same :
    (before after : ℕ → List ℕ) (block n : ℕ)
    → ((i : ℕ) → after i ≡ before i)
    → laid after block n ≡ laid before block n
laid-same before after block zero h = refl
laid-same before after block (suc n) h = ap₂ ◌++◌ (h block) (laid-same before after (block + 1) n h)

pub no_batches : (rounds cap : ℕ) → batch_sizes rounds cap 0 ≡ []
unfolding batch_sizes
no_batches zero cap = refl
no_batches (suc rounds) cap = refl

-- What a device with so many blocks promises of its reads: it serves those that lie on it and are
-- no longer than it says, with the bytes that it holds, and keeps them.
pub record ServesReads (d : BlockDevice) (end : ℕ) (content : d.State → ℕ → List ℕ) : Type 0 where
  pub served :
      (s : d.State) (block blocks : ℕ)
      → blocks ≤ at_least_one (d.max_transfer_blocks s)
      → block + blocks ≤ end
      → (t : d.State) × (d.read block blocks s ≡ (some (laid (content s) block blocks), t))
        × ((i : ℕ) → content t i ≡ content s i)
        × (d.max_transfer_blocks t ≡ d.max_transfer_blocks s)

module _ (d : BlockDevice) (end : ℕ) (content : d.State → ℕ → List ℕ)
    (serves : ServesReads d end content) (small : end < 2 ^ 64) where
  -- the outcome of a read of the volume: the bytes of its blocks, which the device still holds
  abbrev pub HasRead : FileSystem d → ℕ → ℕ → Result (List ℕ) × FileSystem d → Type 0
  HasRead v block blocks r =
      (t : d.State) × (r ≡ (done (laid (content v.device) block blocks), record v { device = t }))
      × ((i : ℕ) → content t i ≡ content v.device i)
      × (d.max_transfer_blocks t ≡ d.max_transfer_blocks v.device)

  pub device_read-HasRead :
      (v : FileSystem d) (block blocks : ℕ)
      → blocks ≤ cap_of d v
      → block + blocks ≤ end
      → HasRead v block blocks (device_read d block blocks v)
  device_read-HasRead v block blocks fits inside =
      let here : u64 block ≡ block = omega arith in
      let (t, e, same, cap) = serves.served v.device block blocks fits inside in
      (t, rw (here, e) refl, same, cap)

  -- one read after another
  then_read-HasRead :
      (v : FileSystem d) (block m n : ℕ)
      (first rest : FileSystem d → Result (List ℕ) × FileSystem d)
      → HasRead v block m (first v)
      → ((t : d.State)
          → d.max_transfer_blocks t ≡ d.max_transfer_blocks v.device
          → HasRead (record v { device = t }) (block + m) n (rest (record v { device = t })))
      → HasRead v block (m + n) ((first >>= λ bytes. rest >>= λ more. pure (bytes ++ more)) v)
  then_read-HasRead v block m n first rest (t, e, same, cap) next =
      let (t', e', same', cap') = next t cap in
      let moved : laid (content t) (block + m) n ≡ laid (content v.device) (block + m) n =
        laid-same (content v.device) (content t) (block + m) n same in
      (
        t',
        rw (e, e', moved, laid-add (content v.device) block m n) refl,
        (λ i. same' i ∙ same i),
        cap' ∙ cap,
      )

  read_batches-HasRead :
      (rounds blocks start cap batch : ℕ) (v : FileSystem d)
      → cap ≡ cap_of d v
      → blocks ≤ rounds
      → start + batch * cap + blocks ≤ end
      → HasRead v
          (start + batch * cap)
          blocks
          (read_batches d start cap batch (batch_sizes rounds cap blocks) v)
  unfolding read_batches batch_sizes
  read_batches-HasRead zero blocks start cap batch v c few inside =
      let none_left : blocks ≡ 0 = omega arith in rw none_left (v.device, refl, (λ i. refl), refl)
  read_batches-HasRead (suc rounds) blocks start cap batch v c few inside =
      elim (Bool-cases (blocks == 0)) [
        | inl e ↦
            let none_left : blocks ≡ 0 = (==_iff _ _).0 e in
            rw none_left (v.device, refl, (λ i. refl), refl)
        | inr e ↦
            let some_cap : 1 ≤ cap = rw c (ground arith) in
            let some_blocks : 1 ≤ blocks = ground arith in
            let size = min cap blocks in
            let whole : size + (blocks - size) ≡ blocks = omega arith in
            let first =
              device_read-HasRead v (start + batch * cap) size (rw (← c) (omega arith))
                (omega arith) in
            let rest : (t : d.State)
                → d.max_transfer_blocks t ≡ d.max_transfer_blocks v.device
                → HasRead (record v { device = t }) (start + batch * cap + size) (blocks - size)
                    (read_batches d start cap (batch + 1) (batch_sizes rounds cap (blocks - size))
                      (record v { device = t })) =
              λ t same_cap. elim (Bool-cases (leb blocks cap)) [
                | inl all ↦
                    let none_left : blocks - size ≡ 0 = ground arith in
                    rw (none_left, no_batches rounds cap) (t, refl, (λ i. refl), refl)
                | inr more ↦
                    let full : size ≡ cap = ground arith in
                    let next : start + batch * cap + size ≡ start + (batch + 1) * cap =
                      omega (arith, add-mul batch 1 cap) in
                    rw next (
                      read_batches-HasRead rounds (blocks - size) start cap (batch + 1)
                        (record v { device = t }) (c ∙ ap at_least_one (sym same_cap)) (omega arith)
                        (omega (arith, next)))
              ] in
            rw e (
              subst
                (λ n. HasRead v (start + batch * cap) n (
                  read_batches d start cap batch (size ∷ batch_sizes rounds cap (blocks - size)) v))
                whole
                (then_read-HasRead v (start + batch * cap) size (blocks - size)
                  (device_read d (start + batch * cap) size)
                  (read_batches d start cap (batch + 1) (batch_sizes rounds cap (blocks - size)))
                  first rest))
      ]

  -- On a device that serves the reads that are no longer than it says, `read_blocks` of blocks on
  -- the device succeeds, however many they are: with the bytes that the device holds there and
  -- goes on to hold.
  pub read_blocks-HasRead :
      (v : FileSystem d) (block blocks : ℕ)
      → v.first_block + block + blocks ≤ end
      → HasRead v (v.first_block + block) blocks (read_blocks d block blocks v)
  unfolding read_blocks
  read_blocks-HasRead v block blocks inside = elim (Bool-cases (leb blocks (cap_of d v))) [
    | inl short ↦
        rw short (device_read-HasRead v (v.first_block + block) blocks (ground arith) inside)
    | inr long ↦
        let start : v.first_block + block + 0 * cap_of d v ≡ v.first_block + block = omega arith in
        let batches =
          read_batches-HasRead blocks blocks (v.first_block + block) (cap_of d v) 0 v refl
            (omega arith) (omega arith) in
        rw long (
          subst
            (λ b. HasRead v b blocks (
              read_batches d (v.first_block + block) (cap_of d v) 0
                (batch_sizes blocks (cap_of d v) blocks) v))
            start batches)
  ]
