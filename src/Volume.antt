-- ===== src/Volume.antt =====
-- src/fs.rs: the mounted volume and its transfers. The device (src/blockdev.rs) is an interface.
pub mod Reading
pub mod Cached
pub mod Copies
pub mod Flushed
pub mod Flushing
pub mod Entries
pub mod Mounting
pub mod Generations
pub mod Transfers
pub mod Writes
pub mod Marked
use Prim.Native.Nat.{bit_or}
use resident_fat.Prelude.{
  ℕ, zero, suc, ◌+◌, ◌-◌, ◌*◌, ◌/◌, ◌%◌, ◌^◌, min, Bool, true, false, Option, none, some, List, [],
  ◌∷◌, ◌++◌, ltb, leb, ◌==◌, if◌then◌else◌, length, take, drop, set,
}
use resident_fat.Words.{u64, low_bits, high_bits}
use resident_fat.Bytes.{byte}
use resident_fat.Text.{Unicode}
use resident_fat.Codepage.{Codepage}
use resident_fat.Time.{DateTime}
use resident_fat.Boot.{BootSector, FsInfo, block_size}
use resident_fat.Dir.Parse.{Directory}
use resident_fat.Fat.Table.{Fat, Run}
use resident_fat.Errors.{
  Act, Result, done, failed, panicked, stuck, device_error, pure, ◌>>=◌, ◌>>◌,
}

-- What the crate asks of a device. A read of so many blocks gives their bytes; a write says whether
-- the device took the bytes; the count of blocks may fail, and may be unknown.
pub record BlockDevice : Type 1 where
  pub State : Type 0
  pub max_transfer_blocks : State → ℕ
  pub block_count : State → Option (Option ℕ) × State
  pub read : ℕ → ℕ → State → Option (List ℕ) × State
  pub write : ℕ → List ℕ → State → Bool × State

-- What the crate takes from its host: text, and whether so many bytes can be reserved.
pub record Host : Type 0 where
  pub unicode : Unicode
  pub has_room : ℕ → Bool

-- The chains that were resolved, by their first cluster, when the table had changed so many times.
pub record RunCache : Type 0 where
  pub changes : ℕ
  pub chains : List (ℕ × List Run)

-- The clock is what its calls answer, one after the other, and how many there were.
pub record FileSystem (d : BlockDevice) : Type 0 where
  pub device : d.State
  pub boot : BootSector
  pub fs_info : FsInfo
  pub fat : Fat
  pub first_block : ℕ
  pub directories : List (ℕ × Directory)
  pub generations : List ((ℕ × ℕ) × ℕ)
  pub codepage : Codepage
  pub clock : ℕ → DateTime
  pub clock_reads : ℕ
  pub marked_dirty : Bool
  pub run_cache : RunCache

-- `usize::try_from(self.device.max_transfer_blocks()).unwrap_or(usize::MAX).max(1)`, where `usize`
-- has 64 bits
abbrev pub at_least_one : ℕ → ℕ
at_least_one cap = if ltb cap 1 then 1 else cap

-- the lengths in blocks of the chunks of so many blocks
unfoldable pub batch_sizes : ℕ → ℕ → ℕ → List ℕ
batch_sizes zero cap blocks = []
batch_sizes (suc rounds) cap blocks =
    let rest = batch_sizes rounds cap (blocks - min cap blocks) in
    if blocks == 0 then [] else min cap blocks ∷ rest

module _ (d : BlockDevice) where
  -- an operation on the volume
  abbrev pub Op : Type 0 → Type 0
  Op A = Act (FileSystem d) A

  abbrev pub data_read : Option (List ℕ) × d.State → FileSystem d → Result (List ℕ) × FileSystem d
  data_read (none, s) v = (failed device_error, record v { device = s })
  data_read (some bytes, s) v = (done bytes, record v { device = s })

  abbrev pub data_written : Bool × d.State → FileSystem d → Result (Unit {0}) × FileSystem d
  data_written (false, s) v = (failed device_error, record v { device = s })
  data_written (true, s) v = (done tt, record v { device = s })

  -- `self.device.read(..)` and `self.device.write(..)`, with the error passed on
  abbrev pub device_read : ℕ → ℕ → Op (List ℕ)
  device_read block blocks v = data_read (d.read (u64 block) blocks v.device) v

  abbrev pub device_write : ℕ → List ℕ → Op (Unit {0})
  device_write block bytes v = data_written (d.write (u64 block) bytes v.device) v

  abbrev pub cap_of : FileSystem d → ℕ
  cap_of v = at_least_one (d.max_transfer_blocks v.device)

  -- the loop over the chunks of a read, from a batch on
  unfoldable pub read_batches : ℕ → ℕ → ℕ → List ℕ → Op (List ℕ)
  read_batches start cap batch [] = pure []
  read_batches start cap batch (size ∷ sizes) = device_read (start + batch * cap) size >>= λ bytes.
      read_batches start cap (batch + 1) sizes >>= λ rest. pure (bytes ++ rest)

  unfoldable pub read_blocks : ℕ → ℕ → Op (List ℕ)
  unfolding read_batches
  read_blocks block blocks v =
      let cap = cap_of v in
      if leb blocks cap
      then device_read (v.first_block + block) blocks v
      else read_batches (v.first_block + block) cap 0 (batch_sizes blocks cap blocks) v

  unfoldable pub write_batches : ℕ → ℕ → ℕ → List ℕ → List ℕ → Op (Unit {0})
  write_batches start cap batch [] from = pure tt
  write_batches start cap batch (size ∷ sizes) from =
      device_write (start + batch * cap) (take (size * block_size) from)
      >> write_batches start cap (batch + 1) sizes (drop (size * block_size) from)

  -- `block[STATE] |= STATE_DIRTY`, or the bit cleared
  abbrev pub with_flag : Bool → List ℕ → List ℕ
  with_flag dirty block =
      set block 0x41
        (if dirty then bit_or (byte block 0x41) 0x01 else high_bits (byte block 0x41) 1)

  unfoldable pub set_dirty_flag : Bool → Op (Unit {0})
  set_dirty_flag dirty v =
      (device_read v.first_block 1 >>= λ block. device_write v.first_block (with_flag dirty block))
        v

  abbrev pub unmark : Result (Unit {0}) × FileSystem d → Result (Unit {0}) × FileSystem d
  unmark (done a, v) = (done a, v)
  unmark (failed e, v) = (failed e, record v { marked_dirty = false })
  unmark (panicked, v) = (panicked, v)
  unmark (stuck, v) = (stuck, v)

  -- `mark_dirty` of the volume
  unfoldable pub mark_volume_dirty : Op (Unit {0})
  unfolding set_dirty_flag
  mark_volume_dirty v =
      if v.marked_dirty
      then (done tt, v)
      else unmark (set_dirty_flag true (record v { marked_dirty = true }))

  abbrev pub write_marked : ℕ → List ℕ → Op (Unit {0})
  unfolding write_batches
  write_marked block from v =
      let cap = cap_of v in
      let blocks = length from / block_size in
      if leb blocks cap
      then device_write (v.first_block + block) from v
      else write_batches (v.first_block + block) cap 0 (batch_sizes blocks cap blocks) from v

  unfoldable pub write_blocks : ℕ → List ℕ → Op (Unit {0})
  unfolding mark_volume_dirty write_marked
  write_blocks block from = mark_volume_dirty >> write_marked block from
