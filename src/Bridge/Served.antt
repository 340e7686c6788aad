-- ===== src/Bridge/Served.antt =====
-- The device behind the buffer of src/bridge.rs serves reads of any length.
use native.Mathlib.Nat.{add-mul}
use resident_fat.Prelude.{
  ℕ, zero, suc, ◌+◌, ◌-◌, ◌*◌, ◌^◌, min, ◌≤◌, ◌<◌, ◌≡◌, refl, ap, subst, ◌∙◌, inl, inr, Bool-cases,
  leb, ◌==◌, ==_iff, Option, some, List, ◌++◌, arith,
}
use resident_fat.Words.{u32}
use resident_fat.Volume.{batch_sizes}
use resident_fat.Volume.Transfers.{laid, laid-add, laid-same, no_batches, ServesReads}
use resident_fat.Bridge.{SdDevice, read_staged, bridged, after_read, then_bytes}

-- What the wrapped device promises of its reads: those of blocks on it that are no more than fit
-- the buffer give the bytes that it holds, and it keeps them.
pub record SdServesReads (sd : SdDevice) (capacity end : ℕ) (content : sd.State → ℕ → List ℕ)
    : Type 0 where
  pub served :
      (s : sd.State) (block blocks : ℕ)
      → blocks ≤ capacity
      → block + blocks ≤ end
      → (t : sd.State) × (sd.read block blocks s ≡ (some (laid (content s) block blocks), t))
        × ((i : ℕ) → content t i ≡ content s i)

module _ (sd : SdDevice) (capacity end : ℕ) (content : sd.State → ℕ → List ℕ)
    (serves : SdServesReads sd capacity end content) (some_room : 1 ≤ capacity)
    (small : end < 2 ^ 32) where
  -- one read after another
  after_read-then :
      (r : Option (List ℕ) × sd.State) (next : sd.State → Option (List ℕ) × sd.State)
      (xs ys : List ℕ) (t w : sd.State)
      → r ≡ (some xs, t)
      → next t ≡ (some ys, w)
      → after_read sd capacity r next ≡ (some (xs ++ ys), w)
  after_read-then r next xs ys t w e e' =
      ap (λ p. after_read sd capacity p next) e ∙ ap (then_bytes sd capacity xs) e'

  read_staged-laid :
      (rounds blocks start batch : ℕ) (s : sd.State)
      → blocks ≤ rounds
      → start + batch * capacity + blocks ≤ end
      → (t : sd.State) × (read_staged sd capacity start batch (batch_sizes rounds capacity blocks) s
          ≡ (some (laid (content s) (start + batch * capacity) blocks), t))
        × ((i : ℕ) → content t i ≡ content s i)
  unfolding read_staged batch_sizes
  read_staged-laid zero blocks start batch s few inside =
      let none_left : blocks ≡ 0 = omega (arith, few) in rw none_left (s, refl, (λ i. refl))
  read_staged-laid (suc rounds) blocks start batch s few inside = elim (Bool-cases (blocks == 0)) [
    | inl e ↦ let none_left : blocks ≡ 0 = (==_iff _ _).0 e in rw none_left (s, refl, (λ i. refl))
    | inr e ↦
        let size = min capacity blocks in
        let at = start + batch * capacity in
        let some_blocks : 1 ≤ blocks = ground (arith, e) in
        let both : blocks ≡ size + (blocks - size) = omega arith in
        let here : u32 at ≡ at = omega (arith, inside, small, some_blocks) in
        let rest : (t : sd.State)
            → (w : sd.State) × (read_staged sd capacity start (batch + 1)
                  (batch_sizes rounds capacity (blocks - size)) t
                ≡ (some (laid (content t) (at + size) (blocks - size)), w))
              × ((i : ℕ) → content w i ≡ content t i) =
          λ t. elim (Bool-cases (leb blocks capacity)) [
            | inl all ↦
                let none_left : blocks - size ≡ 0 = ground (arith, all) in
                rw (none_left, no_batches rounds capacity) (t, refl, (λ i. refl))
            | inr more ↦
                let full : size ≡ capacity = ground (arith, more) in
                let next : at + size ≡ start + (batch + 1) * capacity =
                  omega (arith, add-mul batch 1 capacity, full) in
                rw next (
                  read_staged-laid rounds (blocks - size) start (batch + 1) t
                    (omega (arith, few, some_blocks, some_room)) (omega (arith, next, inside)))
          ] in
        let (t, read, same) = serves.served s at size (omega arith) (omega (arith, inside)) in
        let (w, more, kept) = rest t in
        let moved : laid (content t) (at + size) (blocks - size)
            ≡ laid (content s) (at + size) (blocks - size) =
          laid-same (content s) (content t) (at + size) (blocks - size) same in
        let together : laid (content s) at blocks
            ≡ laid (content s) at size ++ laid (content s) (at + size) (blocks - size) =
          ap (laid (content s) at) both ∙ laid-add (content s) at size (blocks - size) in
        (
          w,
          rw (e, here, together)
              (after_read-then (sd.read at size s)
                (read_staged sd capacity start (batch + 1)
                  (batch_sizes rounds capacity (blocks - size)))
                (laid (content s) at size) (laid (content s) (at + size) (blocks - size)) t w read
                (more ∙ ap (λ l. (some l, w)) moved)),
          λ i. kept i ∙ same i,
        )
  ]

  -- Behind a buffer of at least one block, a wrapped device of fewer than 2^32 blocks that serves
  -- the reads that fit the buffer serves reads of blocks on it of any length: with the bytes that
  -- it holds, which it keeps.
  pub bridged-laid :
      (s : sd.State) (block blocks : ℕ)
      → block + blocks ≤ end
      → (t : sd.State) × ((bridged sd capacity).read block blocks s
          ≡ (some (laid (content s) block blocks), t))
        × ((i : ℕ) → content t i ≡ content s i)
  bridged-laid s block blocks inside =
      let start : block + 0 * capacity ≡ block = omega arith in
      subst
        (λ b.
          (t : sd.State) × ((bridged sd capacity).read block blocks s
            ≡ (some (laid (content s) b blocks), t))
          × ((i : ℕ) → content t i ≡ content s i))
        start (read_staged-laid blocks blocks block 0 s (omega arith) (omega (arith, inside)))

  -- The device that the volume takes: what it asks of reads holds of the wrapped device behind the
  -- buffer.
  pub bridged-ServesReads : ServesReads (bridged sd capacity) end content
  bridged-ServesReads = record {
    served = λ s block blocks fits inside.
        let (t, read, same) = bridged-laid s block blocks inside in (t, read, same, refl);
  }
