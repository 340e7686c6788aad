-- ===== src/Tests/Mounted.antt =====
-- A volume mounted on a device in memory.
use mathlib.Core.Option.{some-injective}
use resident_fat.Bytes.{AreBytes}
use resident_fat.Prelude.{
  ℕ, subst, ◌+◌, ◌≤◌, ◌≡◌, refl, true, false, inl, inr, Bool-cases, none, some, ◌==◌, leb,
  if◌then◌else◌, List, [], length, Option, arith,
}
use resident_fat.Words.{u64}
use resident_fat.Codepage.{ascii}
use resident_fat.Time.{epoch}
use resident_fat.Boot.{no_hints}
use resident_fat.Errors.{done}
use resident_fat.Fat.Table.{Fat}
use resident_fat.Fat.Load.{loaded, load}
use resident_fat.Fat.Load.Words.{blocks_from}
use resident_fat.Fat.Load.Loaded.{load-IsWellFormed}
use resident_fat.Volume.{BlockDevice, FileSystem}
use resident_fat.Volume.Mounting.{mount_within, load_table}
use resident_fat.Volume.Mounting.Bounded.{IsFitted, mount_within-IsFitted}
use resident_fat.Tests.BootSectors.{small_block, small_sector, small_block-AreBytes, small_parsed}
use resident_fat.Tests.Handles.{roomy}
use resident_fat.Tests.Loading.{image, image-sized}

-- the image of the loading, behind a boot sector
abbrev disk : ℕ → List ℕ
disk i = if i == 0 then small_block else image i

disk-sized : (i : ℕ) → length (disk i) ≡ 512
disk-sized i = elim (Bool-cases (i == 0)) [ inl e ↦ rw e refl | inr e ↦ rw e (image-sized i) ]

abbrev read_disk : ℕ → ℕ → Option (List ℕ)
read_disk start n = if leb (start + n) 1000 then some (blocks_from disk start n) else none

abbrev drive : BlockDevice
drive = record {
  State = Unit {0};
  max_transfer_blocks = λ s. 8;
  block_count = λ s. (some (some 1000), s);
  read = λ block blocks s. (read_disk block blocks, s);
  write = λ block from s. (true, s);
}

drive-answers :
    (start n : ℕ)
    → start + n ≤ 1000
    → read_disk (u64 (0 + start)) n ≡ some (blocks_from disk start n)
drive-answers start n h =
    let here : u64 (0 + start) ≡ start = omega (arith, h) in
    let e : leb (start + n) 1000 ≡ true = ground (arith, h) in rw (here, e) refl

abbrev drive_load :
    (f : Fat) × (load
        (λ block blocks. read_disk (u64 (0 + block)) blocks)
        8
        (λ n. true)
        small_sector
      ≡ loaded f)
drive_load =
    let (f, e, _, _, _) =
      load-IsWellFormed (λ block blocks. read_disk (u64 (0 + block)) blocks) 8 (λ n. true) disk
        disk-sized 1000 drive-answers small_block small_sector small_block-AreBytes small_parsed
        (omega arith) (λ n. refl) in
    (f, e)

abbrev mounted_drive : FileSystem drive
mounted_drive = record {
  device = tt;
  boot = small_sector;
  fs_info = no_hints;
  fat = drive_load.0;
  first_block = 0;
  directories = [];
  generations = [];
  codepage = ascii;
  clock = λ n. epoch;
  clock_reads = 0;
  marked_dirty = false;
  run_cache = record { changes = 0; chains = [] };
}

mounts : mount_within drive roomy 0 ascii (some 1000) tt ≡ (done mounted_drive, tt)
unfolding mount_within load_table
mounts = rw (small_parsed, drive_load.1) refl

mount_within-IsFitted_example : IsFitted drive roomy 0 (some 1000) tt mounted_drive
mount_within-IsFitted_example =
    mount_within-IsFitted drive roomy 0 ascii (some 1000) tt mounted_drive tt (omega arith)
      (λ blocks e. let same : 1000 ≡ blocks = some-injective _ _ e in omega (arith, same))
      (λ block e. subst AreBytes (some-injective _ _ e) small_block-AreBytes) mounts
