-- ===== src/Volume/Mounting/Bounded.antt =====
-- What a mounted volume (src/fs.rs) was checked against.
use mathlib.Core.Option.{none-ne-some, some-injective}
use resident_fat.Prelude.{
  ℕ, ◌≤◌, ◌<◌, ◌^◌, ◌≡◌, refl, sym, ap, ap₂, subst, ◌+◌, false, ◌∙◌, inl, inr, Bool-cases, ltb,
  Option, none, some, List, min, arith,
}
use resident_fat.Words.{u64}
use resident_fat.Bytes.{AreBytes, word-lt, long-lt}
use resident_fat.Boot.Geometry.{parse-Guaranteed}
use resident_fat.Boot.{BootSector, Parsed, accepted, refused, parse}
use resident_fat.Codepage.{Codepage}
use resident_fat.Errors.{boot_error, device_error, done, failed, panicked}
use resident_fat.Errors.Inverted.{done_only, continue-done, done-injective}
use resident_fat.Volume.{BlockDevice, Host, FileSystem}
use resident_fat.Volume.Mounting.{
  from_parse, lower_bound, volume_end, check_end, partition_end, read_block, count_blocks,
  read_hints, load_table, assembled, loaded_volume, hinted_volume, checked_volume, accepted_volume,
  parsed_volume, mount_within, answered,
}

from_parse-done :
    (r : Option Parsed) (boot : BootSector) → from_parse r ≡ done boot → r ≡ some (accepted boot)
from_parse-done none boot h = absurd (done_only panicked boot h)
from_parse-done (some (accepted b)) boot h = ap (λ x. some (accepted x)) (done-injective b boot h)
from_parse-done (some (refused e)) boot h = absurd (done_only (failed (boot_error e)) boot h)

check_end-done :
    (first_block end : ℕ) (bound : Option ℕ)
    → check_end first_block end bound ≡ done tt
    → (b : ℕ) → bound ≡ some b
    → end ≤ b
check_end-done first_block end none h b e = absurd (none-ne-some _ e)
check_end-done first_block end (some bound) h b e = elim (Bool-cases (ltb bound end)) [
  | inl past ↦ absurd (done_only _ tt (rw past at h))
  | inr within ↦ let same : bound ≡ b = some-injective _ _ e in ground (arith, within, same)
]

-- What is not past the lower of two bounds is past neither.
check_both :
    (first_block end : ℕ) (one other : Option ℕ)
    → check_end first_block end (lower_bound one other) ≡ done tt
    → ((b : ℕ) → one ≡ some b → end ≤ b) × ((b : ℕ) → other ≡ some b → end ≤ b)
check_both first_block end none other h =
    ((λ b e. absurd (none-ne-some _ e)), check_end-done first_block end other h)
check_both first_block end (some m) none h =
    (check_end-done first_block end (some m) h, λ b e. absurd (none-ne-some _ e))
check_both first_block end (some m) (some n) h =
    let least = check_end-done first_block end (some (min m n)) h (min m n) refl in
    (
      (λ b e. let same : m ≡ b = some-injective _ _ e in omega (arith, least, same)),
      λ b e. let same : n ≡ b = some-injective _ _ e in omega (arith, least, same),
    )

-- The end of an accepted volume is computed without wrapping.
volume_end-eq :
    (first_block : ℕ) (block : List ℕ) (boot : BootSector)
    → first_block + 2 ^ 32 ≤ 2 ^ 64
    → AreBytes block
    → parse block ≡ some (accepted boot)
    → volume_end first_block boot ≡ first_block + boot.total_sectors
volume_end-eq first_block block boot low bytes found =
    let g = parse-Guaranteed block boot found in
    let small : boot.total_sectors < 2 ^ 32 =
      ground (arith, word-lt block 0x13 bytes, long-lt block 0x20 bytes) in
    rw g.sector (omega (arith, small, low))

module _ (d : BlockDevice) (host : Host) where
  answered-done :
      {A : Type 0} (r : Option A × d.State) (a : A) (t : d.State)
      → answered d host r ≡ (done a, t)
      → r ≡ (some a, t)
  answered-done (none, s) a t h = absurd (done_only (failed device_error) a (ap (λ r. r.0) h))
  answered-done (some x, s) a t h =
      ap₂ (λ y w. (some y, w)) (done-injective x a (ap (λ r. r.0) h)) (ap (λ r. r.1) h)

  -- The boot sector, and that the last block was found within the ends that were known.
  abbrev IsBelow : ℕ → Option ℕ → d.State → FileSystem d → Type 0
  IsBelow first_block limit s v =
      (block : List ℕ) × ((d.read first_block 1 s).0 ≡ some block)
      × (parse block ≡ some (accepted v.boot))
      × (v.first_block ≡ first_block)
      × (v.marked_dirty ≡ false)
      × ((bound : ℕ)
          → (d.block_count (d.read first_block 1 s).1).0 ≡ some (some bound)
          → volume_end first_block v.boot ≤ bound)
      × ((blocks : ℕ)
          → limit ≡ some blocks
          → volume_end first_block v.boot ≤ u64 (first_block + blocks))

  mount_within-IsBelow :
      (first_block : ℕ) (codepage : Codepage) (limit : Option ℕ) (s : d.State) (v : FileSystem d)
      (t : d.State)
      → mount_within d host first_block codepage limit s ≡ (done v, t)
      → IsBelow first_block limit s v
  unfolding mount_within
  mount_within-IsBelow first_block codepage limit s v t h =
      let (block, s₁, read, h₁) =
        continue-done (read_block d host first_block s)
          (parsed_volume d host first_block codepage limit) v t h in
      let (boot, s₂, found, h₂) =
        continue-done (from_parse (parse block), s₁)
          (accepted_volume d host first_block codepage limit) v t h₁ in
      let (device_end, s₃, counted, h₃) =
        continue-done (count_blocks d host s₂)
          (checked_volume d host first_block codepage limit boot) v t h₂ in
      let (_, s₄, checked, h₄) =
        continue-done
          (
            check_end first_block (volume_end first_block boot)
                (lower_bound device_end (partition_end first_block limit)),
            s₃,
          )
          (λ _. hinted_volume d host first_block codepage boot) v t h₃ in
      let (info, s₅, hinted, h₅) =
        continue-done (read_hints d host first_block boot boot.fs_info_sector s₄)
          (loaded_volume d host first_block codepage boot) v t h₄ in
      let (f, s₆, filled, h₆) =
        continue-done (load_table d host first_block boot s₅)
          (assembled d host first_block codepage boot info) v t h₅ in
      let boot_same : boot ≡ v.boot = ap (λ w. w.boot) (done-injective _ v (ap (λ r. r.0) h₆)) in
      let read' : d.read first_block 1 s ≡ (some block, s₁) =
        answered-done (d.read first_block 1 s) block s₁ read in
      let counted' : d.block_count s₂ ≡ (some device_end, s₃) =
        answered-done (d.block_count s₂) device_end s₃ counted in
      let states : (d.read first_block 1 s).1 ≡ s₂ = ap (λ r. r.1) read' ∙ ap (λ r. r.1) found in
      let (below_device, below_partition) =
        check_both first_block (volume_end first_block boot) device_end
          (partition_end first_block limit) (ap (λ r. r.0) checked) in
      (
        block,
        ap (λ r. r.0) read',
        subst (λ b. parse block ≡ some (accepted b)) boot_same
            (from_parse-done (parse block) boot (ap (λ r. r.0) found)),
        sym (ap (λ w. w.first_block) (done-injective _ v (ap (λ r. r.0) h₆))),
        sym (ap (λ w. w.marked_dirty) (done-injective _ v (ap (λ r. r.0) h₆))),
        (λ bound e.
            let known : device_end ≡ some bound =
              some-injective _ _
                (sym (ap (λ r. r.0) counted') ∙ ap (λ w. (d.block_count w).0) (sym states) ∙ e) in
            subst (λ b. volume_end first_block b ≤ bound) boot_same (below_device bound known)),
        λ blocks e.
            subst (λ b. volume_end first_block b ≤ u64 (first_block + blocks)) boot_same
              (below_partition (u64 (first_block + blocks)) (ap (partition_end first_block) e)),
      )

  -- The boot sector, and the blocks of the volume within the ends that were known.
  abbrev pub IsFitted : ℕ → Option ℕ → d.State → FileSystem d → Type 0
  IsFitted first_block limit s v =
      (block : List ℕ) × ((d.read first_block 1 s).0 ≡ some block)
      × (parse block ≡ some (accepted v.boot))
      × (v.first_block ≡ first_block)
      × (v.marked_dirty ≡ false)
      × ((bound : ℕ)
          → (d.block_count (d.read first_block 1 s).1).0 ≡ some (some bound)
          → first_block + v.boot.total_sectors ≤ bound)
      × ((blocks : ℕ) → limit ≡ some blocks → v.boot.total_sectors ≤ blocks)

  -- A volume that `mount_within` returns, where it starts at least 2 ^ 32 blocks below 2 ^ 64,
  -- the partition has fewer than 2 ^ 32 blocks, where there is one, and the device returns bytes
  -- for the first block: it has the boot sector that `parse` accepted of the first block on the
  -- device, and its sectors end, counted from where it starts, no later than the device, where
  -- the device says how many blocks it has, and are no more than the blocks of the partition,
  -- where there is one. It is not marked as in use.
  pub mount_within-IsFitted :
      (first_block : ℕ) (codepage : Codepage) (limit : Option ℕ) (s : d.State) (v : FileSystem d)
      (t : d.State)
      → first_block + 2 ^ 32 ≤ 2 ^ 64
      → ((blocks : ℕ) → limit ≡ some blocks → blocks < 2 ^ 32)
      → ((block : List ℕ) → (d.read first_block 1 s).0 ≡ some block → AreBytes block)
      → mount_within d host first_block codepage limit s ≡ (done v, t)
      → IsFitted first_block limit s v
  mount_within-IsFitted first_block codepage limit s v t low short bytes h =
      let (block, read, found, first, mark, below_device, below_partition) =
        mount_within-IsBelow first_block codepage limit s v t h in
      let end : volume_end first_block v.boot ≡ first_block + v.boot.total_sectors =
        volume_end-eq first_block block v.boot low (bytes block read) found in
      (
        block,
        read,
        found,
        first,
        mark,
        (λ bound e. omega (arith, end, below_device bound e)),
        λ blocks e. omega (arith, end, short blocks e, below_partition blocks e, low),
      )
