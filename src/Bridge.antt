-- ===== src/Bridge.antt =====
-- src/bridge.rs: a device of the embedded-sdmmc crate behind a buffer of so many blocks. That
-- crate is not under src/: its device is a parameter, and its calls name a block by 32 bits.
pub mod Served
use resident_fat.Prelude.{
  ℕ, ◌+◌, ◌-◌, ◌*◌, ◌/◌, ◌^◌, min, Bool, true, false, Option, none, some, List, [], ◌∷◌, ◌++◌,
  length, take, drop,
}
use resident_fat.Words.{u32}
use resident_fat.Boot.{block_size}
use resident_fat.Volume.{BlockDevice, batch_sizes}

-- `embedded_sdmmc::BlockDevice`: a read of so many blocks, a write, and the count of blocks
pub record SdDevice : Type 1 where
  pub State : Type 0
  pub read : ℕ → ℕ → State → Option (List ℕ) × State
  pub write : ℕ → List ℕ → State → Bool × State
  pub num_blocks : State → Option ℕ × State

module _ (sd : SdDevice) (capacity : ℕ) where
  abbrev pub then_bytes : List ℕ → Option (List ℕ) × sd.State → Option (List ℕ) × sd.State
  then_bytes first (none, s) = (none, s)
  then_bytes first (some rest, s) = (some (first ++ rest), s)

  abbrev pub after_read :
      Option (List ℕ) × sd.State
      → (sd.State → Option (List ℕ) × sd.State)
      → Option (List ℕ) × sd.State
  after_read (none, s) next = (none, s)
  after_read (some bytes, s) next = then_bytes bytes (next s)

  -- the loop of `read` over the chunks, from a batch on
  unfoldable pub read_staged : ℕ → ℕ → List ℕ → sd.State → Option (List ℕ) × sd.State
  read_staged start batch [] s = (some [], s)
  read_staged start batch (count ∷ counts) s =
      after_read (sd.read (u32 (start + batch * capacity)) count s)
        (read_staged start (batch + 1) counts)

  abbrev pub after_write : Bool × sd.State → (sd.State → Bool × sd.State) → Bool × sd.State
  after_write (false, s) next = (false, s)
  after_write (true, s) next = next s

  -- the loop of `write` over the chunks, from a batch on
  unfoldable pub write_staged : ℕ → ℕ → List ℕ → List ℕ → sd.State → Bool × sd.State
  write_staged start batch [] from s = (true, s)
  write_staged start batch (count ∷ counts) from s =
      after_write (sd.write (u32 (start + batch * capacity)) (take (count * block_size) from) s)
        (write_staged start (batch + 1) counts (drop (count * block_size) from))

  -- A count that the device cannot give is unknown, and not an error.
  abbrev pub known_count : Option ℕ × sd.State → Option (Option ℕ) × sd.State
  known_count (count, s) = (some count, s)

  -- `FromEmbeddedSdmmc`
  abbrev pub bridged : BlockDevice
  bridged = record {
    State = sd.State;
    max_transfer_blocks = λ s. capacity;
    block_count = λ s. known_count (sd.num_blocks s);
    read = λ block blocks. read_staged block 0 (batch_sizes blocks capacity blocks);
    write = λ block from.
        write_staged block 0
          (batch_sizes (length from / block_size) capacity (length from / block_size)) from;
  }
