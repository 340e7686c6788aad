-- ===== src/Tests/Transfers.antt =====
-- Transfers on a device in memory that takes two blocks at a time.
use resident_fat.Prelude.{
  drop-drop, take-drop, length-drop, ℕ, zero, suc, ◌+◌, ◌-◌, ◌*◌, ◌/◌, ◌≤◌, ◌<◌, ◌≡◌, ◌≢◌, ◌⊎◌,
  refl, sym, ap, ◌∙◌, true, false, some, List, [], ◌∷◌, ◌++◌, length, length-replicate, take, drop,
  replicate, arith, if◌then◌else◌,
}
use resident_fat.Boot.{block_size, no_hints}
use resident_fat.Codepage.{ascii}
use resident_fat.Time.{epoch}
use resident_fat.Errors.{done}
use resident_fat.Volume.{BlockDevice, FileSystem, write_blocks}
use resident_fat.Volume.Transfers.{laid, ServesReads}
use resident_fat.Volume.Writes.{is_outside, ServesWrites, empty}
use resident_fat.Volume.Marked.{IsFlagged, write_blocks-marked}
use resident_fat.Volume.Flushing.{flush_fat}
use resident_fat.Volume.Flushed.{IsFlushed, flush_fat-IsFlushed}
use resident_fat.Tests.BootSectors.{small_sector}
use resident_fat.Tests.FatTable.{small_fat}

-- the blocks after a write
abbrev overlaid : ℕ → List ℕ → (ℕ → List ℕ) → ℕ → List ℕ
overlaid block from old i =
    if is_outside block (length from / block_size) i
    then old i
    else take block_size (drop ((i - block) * block_size) from)

abbrev pub memory : BlockDevice
memory = record {
  State = ℕ → List ℕ;
  max_transfer_blocks = λ s. 2;
  block_count = λ s. (some (some 1000), s);
  read = λ block blocks s. (some (laid s block blocks), s);
  write = λ block from s. (true, overlaid block from s);
}

pub memory-ServesReads : ServesReads memory 100 (λ s. s)
memory-ServesReads = record { served = λ s block blocks fits inside. (s, refl, (λ i. refl), refl) }

laid-overlaid :
    (block blocks j n : ℕ) (from : List ℕ) (s : ℕ → List ℕ)
    → length from ≡ blocks * block_size
    → j + n ≡ blocks
    → laid (overlaid block from s) (block + j) n ≡ drop (j * block_size) from
laid-overlaid block blocks j zero from s whole e =
    sym (empty (drop (j * block_size) from) (omega (arith, length-drop (j * block_size) from)))
laid-overlaid block blocks j (suc n) from s whole e =
    let inside : is_outside block (length from / block_size) (block + j) ≡ false =
      ground (arith, whole) in
    let at : block + j - block ≡ j = omega arith in
    let next : block + j + 1 ≡ block + (j + 1) = omega arith in
    let after : j * block_size + block_size ≡ (j + 1) * block_size = omega arith in
    rw (inside, at, next, laid-overlaid block blocks (j + 1) n from s whole (omega arith))
      (ap (λ l. take block_size (drop (j * block_size) from) ++ l)
          (rw (← after) (sym (drop-drop (j * block_size) block_size from)))
        ∙ take-drop block_size (drop (j * block_size) from))

memory-ServesWrites : ServesWrites memory 100 (λ s. s)
memory-ServesWrites = record {
  served = λ s block blocks from fits inside whole.
      let count : length from / block_size ≡ blocks = omega (arith, whole) in
      let start : block + 0 ≡ block = omega arith in
      (
        overlaid block from s,
        refl,
        rw start at (laid-overlaid block blocks 0 blocks from s whole (omega arith)),
        (λ i outside. rw (count, outside) refl),
        refl,
      );
}

abbrev pub mounted : FileSystem memory
mounted = record {
  device = λ i. replicate block_size 7;
  boot = small_sector;
  fs_info = no_hints;
  fat = small_fat;
  first_block = 10;
  directories = [];
  generations = [];
  codepage = ascii;
  clock = λ n. epoch;
  clock_reads = 0;
  marked_dirty = false;
  run_cache = record { changes = 0; chains = [] };
}

write_blocks-marked_example :
    (t : ℕ → List ℕ) × (write_blocks memory 3 (replicate 1536 9) mounted
      ≡ (done tt, record mounted { device = t; marked_dirty = true }))
    × (laid t 13 3 ≡ replicate 1536 9)
    × IsFlagged (replicate 512 7) (t 10)
    × ((i : ℕ) → i ≢ 10 → (i < 13) ⊎ (16 ≤ i) → t i ≡ replicate 512 7)
write_blocks-marked_example =
    write_blocks-marked memory 100 (λ s. s) memory-ServesReads memory-ServesWrites (omega arith)
      mounted 3 3 (replicate 1536 9) (omega arith) (omega arith) (omega arith)
      (length-replicate {A = ℕ} 1536 9) (length-replicate {A = ℕ} 512 7) (λ known. ground arith)

-- The same volume, with a table of four sectors of which three have changed.
abbrev changed : FileSystem memory
changed = record mounted {
  fat = record small_fat { dirty = true ∷ true ∷ false ∷ true ∷ []; sectors_per_fat = 4 };
}

flush_fat-IsFlushed_example :
    IsFlushed memory 100
      (λ s. s)
      memory-ServesReads
      memory-ServesWrites
      (omega arith)
      changed
      (flush_fat changed)
flush_fat-IsFlushed_example =
    flush_fat-IsFlushed memory 100 (λ s. s) memory-ServesReads memory-ServesWrites (omega arith)
      changed (omega arith) (omega arith) (refl, refl) (omega arith) (omega arith) (omega arith)
      (length-replicate {A = ℕ} 512 7) (λ known. ground arith)
