-- ===== src/Files/Spans/Chunks.antt =====
-- The whole blocks of `read_span` of src/file.rs.
use native.Mathlib.Nat.{add-mul}
use resident_fat.Prelude.{
  ℕ, zero, suc, ◌+◌, ◌-◌, ◌*◌, ◌^◌, min, ◌≤◌, ◌<◌, ◌≡◌, inl, inr, refl, ap, subst, ◌∙◌, Bool-cases,
  leb, ◌==◌, ==_iff, List, ◌++◌, arith,
}
use resident_fat.Volume.{BlockDevice, FileSystem, batch_sizes, read_blocks}
use resident_fat.Volume.Transfers.{laid, laid-add, no_batches, ServesReads}
use resident_fat.Files.Spans.{cap_for, read_chunks, read_whole}
use resident_fat.Files.Spans.Yielded.{Yields, Holds, append-Yields, read_blocks-Yields}

module _ (d : BlockDevice) (end : ℕ) (contents : d.State → ℕ → List ℕ) (content : ℕ → List ℕ)
    (serves : ServesReads d end contents) (small : end < 2 ^ 64) where
  read_chunks-Yields :
      (rounds blocks block cap batch : ℕ) (v : FileSystem d)
      → 1 ≤ cap
      → Holds d end contents content v
      → blocks ≤ rounds
      → v.first_block + (block + batch * cap) + blocks ≤ end
      → Yields d end contents content v
          (laid content (v.first_block + (block + batch * cap)) blocks)
          (read_chunks d block cap batch (batch_sizes rounds cap blocks) v)
  unfolding read_chunks batch_sizes
  read_chunks-Yields zero blocks block cap batch v some_cap held few inside =
      let none_left : blocks ≡ 0 = omega (arith, few) in rw none_left (v.device, refl, held)
  read_chunks-Yields (suc rounds) blocks block cap batch v some_cap held few inside =
      elim (Bool-cases (blocks == 0)) [
        | inl e ↦
            let none_left : blocks ≡ 0 = (==_iff _ _).0 e in rw none_left (v.device, refl, held)
        | inr e ↦
            let size = min cap blocks in
            let at = v.first_block + (block + batch * cap) in
            let some_blocks : 1 ≤ blocks = ground (arith, e) in
            let both : blocks ≡ size + (blocks - size) = omega arith in
            let first =
              read_blocks-Yields d end contents content serves small v (block + batch * cap) size
                held (omega (arith, inside)) in
            let rest : (t : d.State)
                → Holds d end contents content (record v { device = t })
                → Yields d end contents content (record v { device = t })
                    (laid content (at + size) (blocks - size))
                    (read_chunks d block cap (batch + 1) (batch_sizes rounds cap (blocks - size))
                      (record v { device = t })) =
              λ t held'. elim (Bool-cases (leb blocks cap)) [
                | inl all ↦
                    let none_left : blocks - size ≡ 0 = ground (arith, all) in
                    rw (none_left, no_batches rounds cap) (t, refl, held')
                | inr more ↦
                    let full : size ≡ cap = ground (arith, more) in
                    let next : at + size ≡ v.first_block + (block + (batch + 1) * cap) =
                      omega (arith, add-mul batch 1 cap, full) in
                    rw next (
                      read_chunks-Yields rounds (blocks - size) block cap (batch + 1)
                        (record v { device = t }) some_cap held' (omega (arith, few, some_blocks))
                        (omega (arith, next, inside)))
              ] in
            let together : laid content at blocks
                ≡ laid content at size ++ laid content (at + size) (blocks - size) =
              ap (laid content at) both ∙ laid-add content at size (blocks - size) in
            rw (e, together)
              (append-Yields d end contents content v (read_blocks d (block + batch * cap) size)
                (read_chunks d block cap (batch + 1) (batch_sizes rounds cap (blocks - size)))
                (laid content at size) (laid content (at + size) (blocks - size)) first rest)
      ]

  pub read_whole-Yields :
      (block whole : ℕ) (v : FileSystem d)
      → Holds d end contents content v
      → (1 ≤ whole → v.first_block + block + whole ≤ end)
      → Yields d end contents content v
          (laid content (v.first_block + block) whole)
          (read_whole d block whole v)
  unfolding read_whole
  read_whole-Yields block whole v held inside = elim (Bool-cases (whole == 0)) [
    | inl e ↦ let nothing : whole ≡ 0 = (==_iff _ _).0 e in rw nothing (v.device, refl, held)
    | inr e ↦
        let some_cap : 1 ≤ cap_for d whole v = ground (arith, e) in
        let start : block + 0 * cap_for d whole v ≡ block = omega arith in
        let some : 1 ≤ whole = ground (arith, e) in
        let chunks =
          read_chunks-Yields whole whole block (cap_for d whole v) 0 v some_cap held (omega arith)
            (omega (arith, inside some)) in
        rw e (
          subst
            (λ b. Yields d end contents content v (laid content (v.first_block + b) whole) (
              read_chunks d block (cap_for d whole v) 0
                (batch_sizes whole (cap_for d whole v) whole) v))
            start chunks)
  ]
