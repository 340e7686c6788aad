-- ===== src/Files/Spans/SpanRead.antt =====
-- `read_span` of src/file.rs against one read of all the blocks that it touches.
use resident_fat.Prelude.{
  ℕ, ◌+◌, ◌-◌, ◌*◌, ◌/◌, ◌%◌, ◌^◌, ◌≤◌, ◌<◌, ◌≡◌, inl, inr, refl, sym, ap, subst, ◌∙◌, Bool-cases,
  not, ◌&&◌, ◌||◌, leb, ◌==◌, List, ◌++◌, append_assoc, take, drop, arith,
}
use resident_fat.Boot.{block_size}
use resident_fat.Errors.{done, pure, ◌>>=◌}
use resident_fat.Volume.{BlockDevice, FileSystem, read_blocks}
use resident_fat.Volume.Transfers.{laid, ServesReads}
use resident_fat.Files.Spans.{
  small_span_blocks, div_ceil, head_bytes, block_after, read_head, read_whole, read_tail,
  read_parts, read_span,
}
use resident_fat.Files.Spans.Yielded.{
  IsWhole, Holds, Yields, then-Yields, laid-cut_first, cut-add, read_blocks-Yields,
}
use resident_fat.Files.Spans.Parts.{read_head-Yields, read_middle-Yields, read_tail-Yields}

-- a cut of so many bytes, of which some are in front, then whole blocks, then the rest
three_parts :
    (xs : List ℕ) (skip n h : ℕ)
    → h ≤ n
    → take h (drop skip xs)
        ++ take ((n - h) / block_size * block_size) (drop (skip + h) xs)
        ++ take ((n - h) % block_size) (drop (skip + h + (n - h) / block_size * block_size) xs)
      ≡ take n (drop skip xs)
three_parts xs skip n h few =
    let whole = (n - h) / block_size * block_size in
    let rest = (n - h) % block_size in
    let all : n ≡ h + (whole + rest) = omega arith in
    append_assoc (take h (drop skip xs)) (take whole (drop (skip + h) xs))
      (take rest (drop (skip + h + whole) xs))
    ∙ ap (λ l. take h (drop skip xs) ++ l) (sym (cut-add xs (skip + h) whole rest))
    ∙ sym (cut-add xs skip h (whole + rest))
    ∙ ap (λ m. take m (drop skip xs)) (sym all)

module _ (d : BlockDevice) (end : ℕ) (contents : d.State → ℕ → List ℕ) (content : ℕ → List ℕ)
    (serves : ServesReads d end contents) (small : end < 2 ^ 64) (whole : IsWhole content) where
  read_parts-Yields :
      (first_block skip n blocks : ℕ) (v : FileSystem d)
      → Holds d end contents content v
      → skip < block_size
      → skip + n ≤ blocks * block_size
      → v.first_block + first_block + blocks ≤ end
      → Yields d end contents content v
          (take n (drop skip (laid content (v.first_block + first_block) blocks)))
          (read_parts d first_block skip n v)
  unfolding read_parts
  read_parts-Yields first_block skip n blocks v held aligned fits inside =
      let h = head_bytes skip n in
      let w = (n - h) / block_size in
      let r = (n - h) % block_size in
      let xs = laid content (v.first_block + first_block) blocks in
      let front = take h (drop skip xs) in
      let middle = take (w * block_size) (drop (skip + h) xs) in
      let back = take r (drop (skip + h + w * block_size) xs) in
      let few : h ≤ n = ground arith in
      let block = block_after first_block skip in
      subst (λ bytes. Yields d end contents content v bytes (read_parts d first_block skip n v))
        (three_parts xs skip n h few)
        (then-Yields d end contents content v (read_head d first_block skip n)
          (λ a. read_whole d block w >>= λ b. read_tail d (block + w) r >>= λ c. pure (a ++ b ++ c))
          front (front ++ middle ++ back)
          (read_head-Yields d end contents content serves small whole first_block skip n blocks
            aligned fits v held inside)
          (λ t held'.
            let v' : FileSystem d = record v { device = t } in
            then-Yields d end contents content v' (read_whole d block w)
              (λ b. read_tail d (block + w) r >>= λ c. pure (front ++ b ++ c)) middle
              (front ++ middle ++ back)
              (read_middle-Yields d end contents content serves small whole first_block skip n
                blocks aligned fits w v' held' inside (omega arith))
              (λ t' held''.
                let v'' : FileSystem d = record v { device = t' } in
                then-Yields d end contents content v'' (read_tail d (block + w) r)
                  (λ c. pure (front ++ middle ++ c)) back (front ++ middle ++ back)
                  (read_tail-Yields d end contents content serves small whole first_block skip n
                    blocks aligned fits w r v'' held'' inside (omega arith) (omega arith))
                  (λ last kept. (last, refl, kept)))))

  -- On a device that serves the reads that are no longer than it says, `read_span` of `n` bytes
  -- from `skip` bytes into a block on succeeds, whichever way it reads them: with what one finds
  -- there, from byte `skip` on, in the blocks of the device. The blocks that hold the bytes lie on
  -- the device, `skip` is less than a block, and every block has its 512 bytes.
  pub read_span-Yields :
      (first_block skip n blocks : ℕ) (v : FileSystem d)
      → Holds d end contents content v
      → skip < block_size
      → skip + n ≤ blocks * block_size
      → v.first_block + first_block + blocks ≤ end
      → Yields d end contents content v
          (take n (drop skip (laid content (v.first_block + first_block) blocks)))
          (read_span d first_block skip n v)
  unfolding read_span
  read_span-Yields first_block skip n blocks v held aligned fits inside =
      let span = div_ceil (skip + n) block_size in
      let at = v.first_block + first_block in
      elim (Bool-cases (
        (not (skip == 0) || not (n % block_size == 0))
        && leb span small_span_blocks
        && leb span (d.max_transfer_blocks v.device))) [
          | inl e ↦
              let few : span ≤ blocks = omega (arith, fits) in
              let same =
                sym (laid-cut_first content whole at span blocks skip n few (omega arith)) in
              rw e (
                then-Yields d end contents content v (read_blocks d first_block span)
                  (λ scratch. pure (take n (drop skip scratch))) (laid content at span)
                  (take n (drop skip (laid content at blocks)))
                  (read_blocks-Yields d end contents content serves small v first_block span held
                    (omega (arith, few, inside)))
                  (λ t held'. (t, ap (λ bytes. (done bytes, record v { device = t })) same, held')))
          | inr e ↦ rw e (read_parts-Yields first_block skip n blocks v held aligned fits inside)
        ]
