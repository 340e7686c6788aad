-- ===== src/Volume/Flushed.antt =====
-- `flush_fat` of src/fs.rs: the changed sectors on each copy of the table.
use resident_fat.Prelude.{
  ℕ, zero, suc, ◌+◌, ◌*◌, ◌^◌, ◌≤◌, ◌<◌, ◌≡◌, ◌≢◌, inl, inr, refl, sym, ◌∙◌, Bool, true, false,
  List, [], ◌∷◌, length, arith, Bool-cases, ◌==◌, ==_iff, subst,
}
use resident_fat.Words.{u32}
use resident_fat.Boot.{block_size}
use resident_fat.Fat.Table.{Fat}
use resident_fat.Fat.Sync.{has_unsynced_changes, dirty_runs, clear_dirty, starts_from, copy_starts}
use resident_fat.Fat.Sync.DirtyRuns.{AreApart, sectors_of, flagged, dirty_runs-flagged}
use resident_fat.Fat.Sync.Clean.{any_dirty-replicate}
use resident_fat.Errors.{Result, done, ◌>>◌}
use resident_fat.Volume.{BlockDevice, FileSystem, write_blocks}
use resident_fat.Volume.Transfers.{laid, ServesReads}
use resident_fat.Volume.Writes.{ServesWrites}
use resident_fat.Volume.Marked.{HasFlag, write_blocks-marked}
use resident_fat.Volume.Copies.{
  table_bytes, sector_bytes-table_bytes, length-words, laid-same, copies_apart, none_flagged,
  copy_block, Off, OnCopies, OffCopies, OnAll, OffAll, earlier-OffAll,
}
use resident_fat.Volume.Flushing.{write_copies, flush_runs, flush_some, flush_fat}

module _ (d : BlockDevice) (end : ℕ) (content : d.State → ℕ → List ℕ)
    (reads : ServesReads d end content) (writes : ServesWrites d end content)
    (small : end < 2 ^ 64) where
  abbrev IsReady : FileSystem d → Type 0
  IsReady v =
      (length (content v.device v.first_block) ≡ block_size)
      × (v.marked_dirty ≡ true → HasFlag (content v.device v.first_block))

  -- an outcome: what is on the device then, and where it is as it was
  Wrote :
      FileSystem d
      → ((ℕ → List ℕ) → Type 0)
      → (ℕ → Type 0)
      → Result (Unit {0}) × FileSystem d
      → Type 0
  Wrote v Held Outside r =
      (t : d.State) × (m : Bool) × (r ≡ (done tt, record v { device = t; marked_dirty = m }))
      × IsReady (record v { device = t; marked_dirty = m })
      × Held (content t)
      × ((i : ℕ) → i ≢ v.first_block → Outside i → content t i ≡ content v.device i)

  write_one :
      (v : FileSystem d) (block blocks : ℕ) (from : List ℕ)
      → IsReady v
      → 1 ≤ block
      → 1 ≤ blocks
      → v.first_block + block + blocks ≤ end
      → length from ≡ blocks * block_size
      → Wrote v
          (λ c. laid c (v.first_block + block) blocks ≡ from)
          (Off (v.first_block + block) blocks)
          (write_blocks d block from v)
  unfolding Wrote
  write_one v block blocks from (whole, known) first some inside sized =
      let (t, e, held, mark, same) =
        write_blocks-marked d end content reads writes small v block blocks from first inside
          (omega arith) sized whole known in
      (t, true, e, (mark.3 ∙ whole, λ marked. mark.0), held, same)

  unchanged-Wrote :
      (v : FileSystem d) (Held : (ℕ → List ℕ) → Type 0) (Out : ℕ → Type 0)
      → IsReady v
      → Held (content v.device)
      → Wrote v Held Out (done tt, v)
  unfolding Wrote
  unchanged-Wrote v Held Out ready held =
      (v.device, v.marked_dirty, refl, ready, held, λ i other off. refl)

  -- one operation after another
  then-Wrote :
      (v : FileSystem d) (Held Held' Both : (ℕ → List ℕ) → Type 0) (Out Out' Neither : ℕ → Type 0)
      (first rest : FileSystem d → Result (Unit {0}) × FileSystem d)
      → Wrote v Held Out (first v)
      → ((t : d.State) (m : Bool)
          → IsReady (record v { device = t; marked_dirty = m })
          → Wrote
              (record v { device = t; marked_dirty = m })
              Held'
              Out'
              (rest (record v { device = t; marked_dirty = m })))
      → ((before after : ℕ → List ℕ)
          → Held before
          → Held' after
          → ((i : ℕ) → i ≢ v.first_block → Out' i → after i ≡ before i)
          → Both after)
      → ((i : ℕ) → Neither i → Out i × Out' i)
      → Wrote v Both Neither ((first >> rest) v)
  unfolding Wrote
  then-Wrote v Held Held' Both Out Out' Neither first rest (t, m, e, ready, held, same) next both
        neither =
      let (t', m', e', ready', held', same') = next t m ready in
      (
        t',
        m',
        rw (e, e') refl,
        ready',
        both (content t) (content t') held held' same',
        λ i other off. same' i other (neither i off).1 ∙ same i other (neither i off).0,
      )

  -- one stretch of sectors, on so many copies from one on
  write_copies-Wrote :
      (n copy upto : ℕ) (v : FileSystem d) (sector count : ℕ) (bytes : List ℕ)
      → copy + n ≡ upto
      → IsReady v
      → 1 ≤ v.fat.fat_start
      → 1 ≤ count
      → sector + count ≤ v.fat.sectors_per_fat
      → v.fat.fat_start + upto * v.fat.sectors_per_fat < 2 ^ 32
      → v.first_block + (v.fat.fat_start + upto * v.fat.sectors_per_fat) ≤ end
      → length bytes ≡ count * block_size
      → Wrote v
          (OnCopies v copy upto sector count bytes)
          (OffCopies v copy upto sector count)
          (write_copies (starts_from n copy v.fat) sector bytes v)
  unfolding write_copies starts_from
  write_copies-Wrote zero copy upto v sector count bytes sum ready start some fits room inside
        sized =
      unchanged-Wrote v _ _ ready (λ k from below. absurd (omega arith))
  write_copies-Wrote (suc n) copy upto v sector count bytes sum ready start some fits room inside
        sized =
      let spf = v.fat.sectors_per_fat in
      let here : copy * spf + spf ≤ upto * spf = copies_apart copy upto spf (omega arith) in
      let number : u32 (u32 (v.fat.fat_start + u32 (copy * spf)) + sector)
          ≡ v.fat.fat_start + copy * spf + sector =
        omega (arith, here) in
      rw number (
        then-Wrote v (λ c. laid c (copy_block v copy sector) count ≡ bytes)
          (OnCopies v (suc copy) upto sector count bytes) (OnCopies v copy upto sector count bytes)
          (Off (copy_block v copy sector) count) (OffCopies v (suc copy) upto sector count)
          (OffCopies v copy upto sector count)
          (write_blocks d (v.fat.fat_start + copy * spf + sector) bytes)
          (write_copies (starts_from n (suc copy) v.fat) sector bytes)
          (write_one v (v.fat.fat_start + copy * spf + sector) count bytes ready (omega arith) some
            (omega (arith, here)) sized)
          (λ t m ready'.
            write_copies-Wrote n (suc copy) upto (record v { device = t; marked_dirty = m }) sector
              count bytes (omega arith) ready' start some fits room inside sized)
          (λ before after held held' same k from below. elim (Bool-cases (k == copy)) [
            | inl at ↦
                let e : copy ≡ k = sym ((==_iff _ _).0 at) in
                subst (λ j. laid after (copy_block v j sector) count ≡ bytes) e
                  (laid-same after before (copy_block v copy sector) count (λ i low high.
                      same i (λ first. omega (arith, first))
                        (λ k' from' below'.
                          let gap = copies_apart copy k' spf (omega arith) in
                          inl (omega (arith, gap))))
                    ∙ held)
            | inr later ↦ held' k (ground (arith, from)) (omega arith)
          ])
          (λ i off.
            (off copy (omega arith) (omega arith), (λ k from below. off k (omega arith) below))))

  flush_runs-Wrote :
      (rs : List (ℕ × ℕ)) (low limit : ℕ) (v : FileSystem d)
      → AreApart rs low limit
      → limit ≤ v.fat.sectors_per_fat
      → limit * 512 < 2 ^ 32
      → IsReady v
      → (v.fat.entries_per_sector ≡ 128) × (v.fat.bytes_per_sector ≡ 512)
      → 1 ≤ v.fat.fat_start
      → v.fat.fat_start + v.fat.fat_count * v.fat.sectors_per_fat < 2 ^ 32
      → v.first_block + (v.fat.fat_start + v.fat.fat_count * v.fat.sectors_per_fat) ≤ end
      → Wrote v (OnAll v rs) (OffAll v rs) (flush_runs (copy_starts v.fat) rs v)
  unfolding flush_runs copy_starts
  flush_runs-Wrote [] low limit v apart fits short ready sector start room inside =
      unchanged-Wrote v _ _ ready tt
  flush_runs-Wrote ((s, c) ∷ rs) low limit v apart fits short ready sector start room inside =
      let bytes = sector_bytes-table_bytes v.fat s c sector (omega (arith, apart.2)) in
      rw bytes (
        then-Wrote v (OnCopies v 0 v.fat.fat_count s c (table_bytes v.fat s c)) (OnAll v rs)
          (OnAll v ((s, c) ∷ rs)) (OffCopies v 0 v.fat.fat_count s c) (OffAll v rs)
          (OffAll v ((s, c) ∷ rs)) (write_copies (copy_starts v.fat) s (table_bytes v.fat s c))
          (flush_runs (copy_starts v.fat) rs)
          (write_copies-Wrote v.fat.fat_count 0 v.fat.fat_count v s c (table_bytes v.fat s c)
            (omega arith) ready start apart.1 (omega (arith, apart.2)) room inside
            (omega (arith, length-words (c * 128) (s * 128) v.fat.entries)))
          (λ t m ready'.
            flush_runs-Wrote rs (s + c + 1) limit (record v { device = t; marked_dirty = m })
              apart.3 fits short ready' sector start room inside)
          (λ before after held held' same. (
            (λ k from below.
                laid-same after before (copy_block v k s) c (λ i low' high.
                  same i (λ first. omega (arith, first))
                    (earlier-OffAll v rs (s + c + 1) limit k s c i apart.3 fits (omega arith) low'
                      high))
                ∙ held k from below),
            held',
          ))
          (λ i off. off))

  -- the outcome of a flush
  abbrev pub IsFlushed : FileSystem d → Result (Unit {0}) × FileSystem d → Type 0
  IsFlushed v r =
      (t : d.State) × (m : Bool) × (g : Fat) × (r
        ≡ (done tt, record v { device = t; marked_dirty = m; fat = g }))
      × (g.entries ≡ v.fat.entries)
      × (has_unsynced_changes g ≡ false)
      × OnAll v (dirty_runs v.fat) (content t)
      × ((i : ℕ)
          → i ≢ v.first_block
          → OffAll v (dirty_runs v.fat) i
          → content t i ≡ content v.device i)

  flush_some-IsFlushed :
      (v : FileSystem d) (rs : List (ℕ × ℕ))
      → rs ≡ dirty_runs v.fat
      → sectors_of rs ≡ flagged v.fat.dirty 0
      → Wrote v (OnAll v rs) (OffAll v rs) (flush_runs (copy_starts v.fat) rs v)
      → IsFlushed v (flush_some rs v)
  unfolding Wrote has_unsynced_changes clear_dirty
  flush_some-IsFlushed v [] these those (t, m, e, ready, held, same) = rw (← these) (
    v.device,
    v.marked_dirty,
    v.fat,
    refl,
    refl,
    none_flagged v.fat.dirty 0 (sym those),
    tt,
    λ i other off. refl,
  )
  flush_some-IsFlushed v (r ∷ rs) these those (t, m, e, ready, held, same) = rw (← these) (
    t,
    m,
    clear_dirty v.fat,
    rw e refl,
    refl,
    any_dirty-replicate (length v.fat.dirty),
    held,
    same,
  )

  -- On a device of fewer than 2 ^ 64 blocks that serves the reads and writes that are no longer
  -- than it says, and whose first block of the volume has 512 bytes, and the flag where the
  -- volume is known to be marked, with a table that has sectors of 512 bytes and 128 entries, a
  -- flag for no more sectors than a copy has, and for less than 2 ^ 32 bytes, and whose copies
  -- end before block 2 ^ 32 of the volume, and lie on the device behind the volume's first
  -- block, `flush_fat` succeeds: each stretch of changed sectors is on every copy of the table,
  -- with its entries as little-endian words of 32 bits, no other block changes but the first one
  -- of the volume, and the table has the entries that it had, with no sector flagged as changed.
  pub flush_fat-IsFlushed :
      (v : FileSystem d)
      → length v.fat.dirty ≤ v.fat.sectors_per_fat
      → length v.fat.dirty * 512 < 2 ^ 32
      → (v.fat.entries_per_sector ≡ 128) × (v.fat.bytes_per_sector ≡ 512)
      → 1 ≤ v.fat.fat_start
      → v.fat.fat_start + v.fat.fat_count * v.fat.sectors_per_fat < 2 ^ 32
      → v.first_block + (v.fat.fat_start + v.fat.fat_count * v.fat.sectors_per_fat) ≤ end
      → length (content v.device v.first_block) ≡ block_size
      → (v.marked_dirty ≡ true → HasFlag (content v.device v.first_block))
      → IsFlushed v (flush_fat v)
  unfolding flush_fat
  flush_fat-IsFlushed v fits short sector start room inside whole known =
      let (those, apart) = dirty_runs-flagged v.fat (omega arith) in
      flush_some-IsFlushed v (dirty_runs v.fat) refl those (
        flush_runs-Wrote (dirty_runs v.fat) 0 (length v.fat.dirty) v apart fits short (whole, known)
          sector start room inside)
