-- ===== src/Fat/Load/Loaded.antt =====
-- What `Fat::load` (src/fat.rs) returns from a device that answers, on a host with memory.
use resident_fat.Prelude.{
  length-take, ℕ, zero, suc, ◌+◌, ◌-◌, ◌*◌, ◌/◌, ◌^◌, ◌≤◌, ◌<◌, ◌≡◌, refl, Bool, true, false,
  Option, some, List, [], ◌++◌, length, take, drop, min, arith, Bool-cases, inl, inr, ltb, subst,
}
use resident_fat.Words.{u32, u64}
use resident_fat.Bytes.{AreBytes, word-lt}
use resident_fat.Boot.{BootSector, accepted, parse}
use resident_fat.Boot.Geometry.{parse-Guaranteed}
use resident_fat.Fat.Table.{Fat}
use resident_fat.Fat.Invariant.{IsWellFormed, count_free-le, length-drop_two}
use resident_fat.Fat.Sync.{has_unsynced_changes}
use resident_fat.Fat.Sync.Clean.{any_dirty-replicate}
use resident_fat.Fat.Load.{
  loaded, words_of, push_words, chunk_of, load_chunks, transfer, table_of, load,
}
use resident_fat.Fat.Load.Words.{
  blocks_from, blocks_from-add, length-blocks_from, words_of-append, length-words_of, take-nil,
  push_words-take,
}

-- how many blocks hold the entries of the volume's clusters
abbrev pub blocks_for : BootSector → ℕ
blocks_for boot = ((boot.cluster_count + 2) * 4 + 511) / 512

-- the entries of the table on the device, in the blocks that hold so many
abbrev pub entries_on : (ℕ → List ℕ) → ℕ → ℕ → List ℕ
entries_on image fat_start wanted =
    take wanted (words_of (blocks_from image fat_start ((wanted * 4 + 511) / 512)))

module _ (read : ℕ → ℕ → Option (List ℕ)) (max_transfer_blocks : ℕ) (has_room : ℕ → Bool)
    (image : ℕ → List ℕ) (sized : (i : ℕ) → length (image i) ≡ 512) (limit : ℕ)
    (answers : (start n : ℕ)
      → start + n ≤ limit
      → read start n ≡ some (blocks_from image start n)) where
  -- what the entries are after so many blocks
  abbrev so_far : ℕ → ℕ → ℕ → List ℕ
  so_far fat_start wanted block = take wanted (words_of (blocks_from image fat_start block))

  transferred :
      (start n : ℕ)
      → start + n ≤ limit
      → transfer read max_transfer_blocks has_room start n ≡ loaded (blocks_from image start n)
  transferred start n h = rw (answers start n h, transfer)

  chunk_added :
      (fat_start wanted block k : ℕ)
      → push_words wanted
          (so_far fat_start wanted block)
          (words_of (blocks_from image (fat_start + block) k))
        ≡ so_far fat_start wanted (block + k)
  chunk_added fat_start wanted block k =
      let joined : words_of (blocks_from image fat_start (block + k))
          ≡ words_of (blocks_from image fat_start block)
            ++ words_of (blocks_from image (fat_start + block) k) =
        rw (blocks_from-add image fat_start block k) (
          words_of-append (block * 128) (blocks_from image fat_start block)
            (blocks_from image (fat_start + block) k)
            (omega (arith, length-blocks_from image fat_start block sized))) in
      rw joined (
        push_words-take wanted (words_of (blocks_from image fat_start block))
          (words_of (blocks_from image (fat_start + block) k)))

  load_chunks-eq :
      (n fat_start needed wanted block : ℕ)
      → needed - block < n
      → block ≤ needed
      → fat_start + needed < 2 ^ 64
      → fat_start + needed ≤ limit
      → load_chunks read max_transfer_blocks has_room n fat_start needed wanted block
          (so_far fat_start wanted block)
        ≡ loaded (so_far fat_start wanted needed)
  unfolding load_chunks
  load_chunks-eq zero fat_start needed wanted block h le small inside = absurd (omega arith)
  load_chunks-eq (suc n) fat_start needed wanted block h le small inside =
      elim (Bool-cases (ltb block needed)) [
        | inr e ↦ let done : block ≡ needed = ground arith in rw (e, done) refl
        | inl e ↦
            let more : block < needed = ground arith in
            let blocks = min (chunk_of max_transfer_blocks) (needed - block) in
            let some_blocks : (1 ≤ blocks) × (blocks ≤ needed - block) = omega arith in
            let start : u64 (fat_start + block) ≡ fat_start + block = omega arith in
            let after : u64 (block + blocks) ≡ block + blocks = omega arith in
            rw
              (
                e,
                start,
                transferred (fat_start + block) blocks (omega arith),
                after,
                chunk_added fat_start wanted block blocks,
              )
              (load_chunks-eq n fat_start needed wanted (block + blocks) (omega arith) (omega arith)
                small inside)
      ]

  length-entries_on : (fat_start wanted : ℕ) → length (entries_on image fat_start wanted) ≡ wanted
  length-entries_on fat_start wanted =
      let needed = (wanted * 4 + 511) / 512 in
      let words : length (words_of (blocks_from image fat_start needed)) ≡ needed * 128 =
        length-words_of (needed * 128) (blocks_from image fat_start needed)
          (omega (arith, length-blocks_from image fat_start needed sized)) in
      omega (arith, length-take wanted (words_of (blocks_from image fat_start needed)), words)

  load-eq :
      (boot : BootSector)
      → boot.cluster_count + 2 < 2 ^ 28
      → boot.fat_start < 2 ^ 16
      → boot.fat_start + blocks_for boot ≤ limit
      → ((n : ℕ) → has_room n ≡ true)
      → load read max_transfer_blocks has_room boot
        ≡ loaded (table_of boot (entries_on image boot.fat_start (boot.cluster_count + 2)))
  unfolding load
  load-eq boot clusters start inside room =
      let count : u32 (boot.cluster_count + 2) ≡ boot.cluster_count + 2 = omega arith in
      let needed = ((boot.cluster_count + 2) * 4 + 511) / 512 in
      let loop : load_chunks read max_transfer_blocks has_room (suc needed) boot.fat_start needed
            (boot.cluster_count + 2) 0 []
          ≡ loaded (so_far boot.fat_start (boot.cluster_count + 2) needed) =
        subst
          (λ l.
            load_chunks read max_transfer_blocks has_room (suc needed) boot.fat_start needed
              (boot.cluster_count + 2) 0 l
            ≡ loaded (so_far boot.fat_start (boot.cluster_count + 2) needed))
          (take-nil (boot.cluster_count + 2))
          (load_chunks-eq (suc needed) boot.fat_start needed (boot.cluster_count + 2) 0
            (omega arith) (omega arith) (omega arith) inside) in
      rw (count, room ((boot.cluster_count + 2) * 4), loop, room boot.sectors_per_fat)

  pub load-IsWellFormed :
      (block : List ℕ) (boot : BootSector)
      → AreBytes block
      → parse block ≡ some (accepted boot)
      → boot.fat_start + blocks_for boot ≤ limit
      → ((n : ℕ) → has_room n ≡ true)
      → (f : Fat) × (load read max_transfer_blocks has_room boot ≡ loaded f)
        × (f.entries ≡ entries_on image boot.fat_start (boot.cluster_count + 2))
        × IsWellFormed f
        × (has_unsynced_changes f ≡ false)
  unfolding table_of has_unsynced_changes
  load-IsWellFormed block boot bytes h inside room =
      let g = parse-Guaranteed block boot h in
      let start : boot.fat_start < 2 ^ 16 = ground (arith, word-lt block 0x0E bytes) in
      let entries = entries_on image boot.fat_start (boot.cluster_count + 2) in
      let count = length-entries_on boot.fat_start (boot.cluster_count + 2) in
      (
        table_of boot entries,
        load-eq boot (omega (arith, g.bounded)) start inside room,
        refl,
        record {
          sized = count;
          small = g.bounded;
          counted = omega (
            arith,
            count_free-le (drop 2 entries),
            length-drop_two entries (omega (arith, count)),
            g.bounded,
            count,
          );
          hint = (omega arith, inr refl);
        },
        any_dirty-replicate boot.sectors_per_fat,
      )
