-- ===== src/Files/Spans/Parts.antt =====
-- The three reads of `read_span` of src/file.rs.
use resident_fat.Prelude.{
  ℕ, ◌+◌, ◌-◌, ◌*◌, ◌^◌, ◌≤◌, ◌<◌, ◌≡◌, inl, inr, refl, sym, ap, subst, ◌∙◌, Bool-cases, false,
  ◌==◌, ==_iff, List, [], take, drop, arith,
}
use resident_fat.Boot.{block_size}
use resident_fat.Errors.{done}
use resident_fat.Volume.{BlockDevice, FileSystem, read_blocks}
use resident_fat.Volume.Transfers.{laid, ServesReads}
use resident_fat.Files.Spans.{head_bytes, block_after, read_whole, read_part, read_head, read_tail}
use resident_fat.Files.Spans.Cuts.{
  blocks_before, block_after-eq, begins_block, head-cut, middle-cut, tail-cut,
}
use resident_fat.Files.Spans.Yielded.{IsWhole, Yields, Holds, then-Yields, read_blocks-Yields}
use resident_fat.Files.Spans.Chunks.{read_whole-Yields}

module _ (d : BlockDevice) (end : ℕ) (contents : d.State → ℕ → List ℕ) (content : ℕ → List ℕ)
    (serves : ServesReads d end contents) (small : end < 2 ^ 64) where
  -- a part of one block
  read_part-Yields :
      (block s m : ℕ) (v : FileSystem d)
      → Holds d end contents content v
      → v.first_block + block + 1 ≤ end
      → Yields d end contents content v
          (take m (drop s (laid content (v.first_block + block) 1)))
          (read_part d block s m v)
  read_part-Yields block s m v held inside =
      then-Yields d end contents content v (read_blocks d block 1)
        (λ scratch w. (done (take m (drop s scratch)), w)) (laid content (v.first_block + block) 1)
        (take m (drop s (laid content (v.first_block + block) 1)))
        (read_blocks-Yields d end contents content serves small v block 1 held inside)
        (λ t held'. (t, refl, held'))

  read_head-eq :
      (block skip n : ℕ) (v : FileSystem d)
      → (skip == 0) ≡ false
      → read_head d block skip n v ≡ read_part d block skip (head_bytes skip n) v
  unfolding read_head
  read_head-eq block skip n v e = rw e refl

  read_tail-eq :
      (block n : ℕ) (v : FileSystem d)
      → (n == 0) ≡ false
      → read_tail d block n v ≡ read_part d block 0 n v
  unfolding read_tail
  read_tail-eq block n v e = rw e refl

  read_tail-none : (block : ℕ) (v : FileSystem d) → read_tail d block 0 v ≡ (done [], v)
  unfolding read_tail
  read_tail-none block v = refl

  module _ (whole : IsWhole content) (first_block skip n blocks : ℕ) (aligned : skip < block_size)
      (fits : skip + n ≤ blocks * block_size) where
    pub read_head-Yields :
        (v : FileSystem d)
        → Holds d end contents content v
        → v.first_block + first_block + blocks ≤ end
        → Yields d end contents content v
            (take
              (head_bytes skip n)
              (drop skip (laid content (v.first_block + first_block) blocks)))
            (read_head d first_block skip n v)
    unfolding read_head
    read_head-Yields v held inside = elim (Bool-cases (skip == 0)) [
      | inl e ↦ rw e (v.device, refl, held)
      | inr e ↦
          let some : 1 ≤ skip = ground (arith, e) in
          subst (λ bytes. Yields d end contents content v bytes (read_head d first_block skip n v))
            (head-cut content whole skip n blocks (v.first_block + first_block) aligned fits some)
            (subst
              (Yields d end contents content v (
                take (head_bytes skip n)
                  (drop skip (laid content (v.first_block + first_block) 1))))
              (sym (read_head-eq first_block skip n v e))
              (read_part-Yields first_block skip (head_bytes skip n) v held
                (omega (arith, some, fits, inside))))
    ]

    -- the blocks of the middle and of the last part lie in the span
    middle_inside :
        (w r : ℕ)
        → w * block_size + r ≤ n - head_bytes skip n
        → 1 ≤ w * block_size + r
        → (blocks_before skip + w) * block_size + r ≤ blocks * block_size
    middle_inside w r few some =
        let begin = begins_block skip n aligned (omega (arith, few, some)) in
        omega (arith, begin, few, fits, some)

    pub read_middle-Yields :
        (w : ℕ) (v : FileSystem d)
        → Holds d end contents content v
        → v.first_block + first_block + blocks ≤ end
        → w * block_size ≤ n - head_bytes skip n
        → Yields d end contents content v
            (take
              (w * block_size)
              (drop (skip + head_bytes skip n) (laid content (v.first_block + first_block) blocks)))
            (read_whole d (block_after first_block skip) w v)
    read_middle-Yields w v held inside few =
        let after = block_after-eq first_block skip in
        let place : v.first_block + block_after first_block skip
            ≡ v.first_block + first_block + blocks_before skip =
          omega (arith, after) in
        subst
          (λ bytes.
            Yields d end contents content v bytes (read_whole d (block_after first_block skip) w v))
          (ap (λ b. laid content b w) place
            ∙ middle-cut content whole skip n blocks (v.first_block + first_block) aligned fits w
                few)
          (read_whole-Yields d end contents content serves small (block_after first_block skip) w v
            held
            (λ some.
              let within = middle_inside w 0 (omega (arith, few)) (omega (arith, some)) in
              omega (arith, within, place, inside)))

    pub read_tail-Yields :
        (w r : ℕ) (v : FileSystem d)
        → Holds d end contents content v
        → v.first_block + first_block + blocks ≤ end
        → w * block_size + r ≤ n - head_bytes skip n
        → r < block_size
        → Yields d end contents content v
            (take r (
              drop
                (skip + head_bytes skip n + w * block_size)
                (laid content (v.first_block + first_block) blocks)))
            (read_tail d (block_after first_block skip + w) r v)
    read_tail-Yields w r v held inside few short = elim (Bool-cases (r == 0)) [
      | inl e ↦
          let nothing : r ≡ 0 = (==_iff _ _).0 e in
          rw (nothing, read_tail-none (block_after first_block skip + w) v) (v.device, refl, held)
      | inr e ↦
          let some : 1 ≤ r = ground (arith, e) in
          let after = block_after-eq first_block skip in
          let place : v.first_block + (block_after first_block skip + w)
              ≡ v.first_block + first_block + (blocks_before skip + w) =
            omega (arith, after) in
          let within = middle_inside w r few (omega (arith, some)) in
          subst
            (λ bytes.
              Yields d end contents content v bytes
                (read_tail d (block_after first_block skip + w) r v))
            (ap (λ b. take r (drop 0 (laid content b 1))) place
              ∙ tail-cut content whole skip n blocks (v.first_block + first_block) aligned fits w r
                  some (omega (arith, short)) few)
            (subst
              (Yields d end contents content v (
                take r
                  (drop 0 (laid content (v.first_block + (block_after first_block skip + w)) 1))))
              (sym (read_tail-eq (block_after first_block skip + w) r v e))
              (read_part-Yields (block_after first_block skip + w) 0 r v held
                (omega (arith, within, place, some, inside))))
    ]
