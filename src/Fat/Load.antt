-- ===== src/Fat/Load.antt =====
-- `Fat::load`: the table read from a device, in transfers of at most as many blocks as the device
-- moves in one call. The device and the memory of the host are parameters: what a read of some
-- blocks returns, the largest transfer, and whether a number of bytes can be reserved.
pub mod Words
pub mod Loaded
use Prim.Native.Nat.{max}
use resident_fat.Prelude.{
  ℕ, zero, suc, ◌+◌, ◌-◌, ◌*◌, ◌/◌, min, Bool, true, false, not, Option, none, some, List, [], ◌∷◌,
  ◌++◌, ltb, ◌==◌, if◌then◌else◌, length, replicate, drop, ◌^◌,
}
use resident_fat.Words.{u32, u64}
use resident_fat.Boot.{BootSector}
use resident_fat.Fat.Table.{Fat, first_cluster}
use resident_fat.Fat.Invariant.{count_free}

pub data LoadError : Type 0 where
  device_failed : LoadError
  out_of_memory : ℕ → LoadError

-- `stuck` is the loop of the model without fuel.
pub data Loading (A : Type 0) : Type 0 where
  loaded : A → Loading A
  failed : LoadError → Loading A
  stuck : Loading A

infixl 5 ◌>>=◌
abbrev pub ◌>>=◌ : {A B : Type 0} → Loading A → (A → Loading B) → Loading B
loaded a >>= k = k a
failed e >>= k = failed e
stuck >>= k = stuck

-- `chunks_exact(4)` and `u32::from_le_bytes`
abbrev pub words_of : List ℕ → List ℕ
words_of (a ∷ b ∷ c ∷ d ∷ rest) = (a + b * 2 ^ 8 + c * 2 ^ 16 + d * 2 ^ 24) ∷ words_of rest
words_of _ = []

-- the words of one chunk, until there are as many as wanted
unfoldable pub push_words : ℕ → List ℕ → List ℕ → List ℕ
push_words wanted entries [] = entries
push_words wanted entries (w ∷ ws) =
    let pushed = push_words wanted (entries ++ w ∷ []) ws in
    if length entries == wanted then entries else pushed

abbrev pub load_chunk_blocks : ℕ
load_chunk_blocks = 2048

abbrev pub chunk_of : ℕ → ℕ
chunk_of max_transfer_blocks = max 1 (min max_transfer_blocks load_chunk_blocks)

-- the table, once its entries are read
unfoldable pub table_of : BootSector → List ℕ → Fat
table_of boot entries = record {
  entries = entries;
  cluster_count = boot.cluster_count;
  dirty = replicate boot.sectors_per_fat false;
  next_free = first_cluster;
  free_count = u32 (count_free (drop 2 entries));
  changes = 0;
  entries_per_sector = boot.bytes_per_sector / 4;
  bytes_per_sector = boot.bytes_per_sector;
  sectors_per_fat = boot.sectors_per_fat;
  fat_count = boot.fat_count;
  fat_start = boot.fat_start;
}

module _ (read : ℕ → ℕ → Option (List ℕ)) (max_transfer_blocks : ℕ) (has_room : ℕ → Bool) where
  abbrev pub reserve : ℕ → Loading (Unit {0})
  reserve bytes = if has_room bytes then loaded tt else failed (out_of_memory bytes)

  abbrev pub transfer : ℕ → ℕ → Loading (List ℕ)
  transfer start blocks = elim (read start blocks) [
    | none ↦ failed device_failed
    | some b ↦ loaded b
  ]

  -- the loop: so many rounds, for so many blocks from the start of the table
  unfoldable pub load_chunks : ℕ → ℕ → ℕ → ℕ → ℕ → List ℕ → Loading (List ℕ)
  unfolding push_words
  load_chunks zero fat_start needed wanted block entries = stuck
  load_chunks (suc n) fat_start needed wanted block entries =
      let blocks = min (chunk_of max_transfer_blocks) (needed - block) in
      let rest = transfer (u64 (fat_start + block)) blocks >>= λ chunk.
      load_chunks n fat_start needed wanted (u64 (block + blocks))
        (push_words wanted entries (words_of chunk)) in
      if ltb block needed then rest else loaded entries

  unfoldable pub load : BootSector → Loading Fat
  load boot =
      let entry_count = u32 (boot.cluster_count + first_cluster) in
      let bytes_needed = entry_count * 4 in
      let blocks_needed = (bytes_needed + 511) / 512 in
      do
        _ ← reserve bytes_needed
        entries ← load_chunks (suc blocks_needed) boot.fat_start blocks_needed entry_count 0 []
        _ ← reserve boot.sectors_per_fat
        loaded (table_of boot entries)
