-- ===== src/Files/Spans.antt =====
-- src/file.rs: the bytes of consecutive blocks, read and written from any byte on.
pub mod Yielded
pub mod Cuts
pub mod Chunks
pub mod Parts
pub mod SpanRead
use resident_fat.Prelude.{
  ℕ, ◌+◌, ◌-◌, ◌*◌, ◌/◌, ◌%◌, min, not, ◌&&◌, ◌||◌, List, [], ◌∷◌, ◌++◌, ltb, leb, ◌==◌,
  if◌then◌else◌, length, take, drop,
}
use resident_fat.Boot.{block_size}
use resident_fat.Errors.{pure, ◌>>=◌, ◌>>◌, gets}
use resident_fat.Volume.{BlockDevice, FileSystem, Op, batch_sizes, read_blocks, write_blocks}

abbrev pub small_span_blocks : ℕ
small_span_blocks = 8

-- `.clamp(1, whole)` of what the device takes at a time
abbrev pub clamped : ℕ → ℕ → ℕ
clamped cap whole = if ltb cap 1 then 1 else min cap whole

-- `div_ceil`
abbrev pub div_ceil : ℕ → ℕ → ℕ
div_ceil n m = (n + (m - 1)) / m

-- the bytes of the first block, from `skip` on, and the block after them
abbrev pub head_bytes : ℕ → ℕ → ℕ
head_bytes skip n = if skip == 0 then 0 else min (block_size - skip) n

abbrev pub block_after : ℕ → ℕ → ℕ
block_after first_block skip = if skip == 0 then first_block else first_block + 1

-- `scratch[at..at + bytes.len()].copy_from_slice(bytes)`
abbrev pub laid_over : List ℕ → ℕ → List ℕ → List ℕ
laid_over scratch at bytes = take at scratch ++ bytes ++ drop (at + length bytes) scratch

module _ (d : BlockDevice) where
  abbrev pub cap_for : ℕ → FileSystem d → ℕ
  cap_for whole v = clamped (d.max_transfer_blocks v.device) whole

  -- the loop over the chunks of whole blocks, from a batch on
  unfoldable pub read_chunks : ℕ → ℕ → ℕ → List ℕ → Op d (List ℕ)
  read_chunks block cap batch [] = pure []
  read_chunks block cap batch (size ∷ sizes) = read_blocks d (block + batch * cap) size >>= λ bytes.
      read_chunks block cap (batch + 1) sizes >>= λ rest. pure (bytes ++ rest)

  unfoldable pub read_whole : ℕ → ℕ → Op d (List ℕ)
  unfolding read_chunks
  read_whole block whole =
      if whole == 0
      then pure []
      else gets (cap_for whole) >>= λ cap. read_chunks block cap 0 (batch_sizes whole cap whole)

  -- a part of one block, through a scratch block
  abbrev pub read_part : ℕ → ℕ → ℕ → Op d (List ℕ)
  read_part block skip n = read_blocks d block 1 >>= λ scratch. pure (take n (drop skip scratch))

  unfoldable pub read_head : ℕ → ℕ → ℕ → Op d (List ℕ)
  read_head block skip n = if skip == 0 then pure [] else read_part block skip (head_bytes skip n)

  unfoldable pub read_tail : ℕ → ℕ → Op d (List ℕ)
  read_tail block n = if n == 0 then pure [] else read_part block 0 n

  -- a leading part, whole blocks, and a trailing part
  unfoldable pub read_parts : ℕ → ℕ → ℕ → Op d (List ℕ)
  unfolding read_head read_whole read_tail
  read_parts first_block skip n =
      let left = n - head_bytes skip n in
      let block = block_after first_block skip in
      read_head first_block skip n >>= λ head. read_whole block (left / block_size) >>= λ middle.
      read_tail (block + left / block_size) (left % block_size) >>= λ tail.
      pure (head ++ middle ++ tail)

  unfoldable pub read_span : ℕ → ℕ → ℕ → Op d (List ℕ)
  read_span first_block skip n v =
      let ragged = not (skip == 0) || not (n % block_size == 0) in
      let span = div_ceil (skip + n) block_size in
      if ragged && leb span small_span_blocks && leb span (d.max_transfer_blocks v.device)
      then (read_blocks d first_block span >>= λ scratch. pure (take n (drop skip scratch))) v
      else read_parts first_block skip n v

  -- the loop over the chunks of a write, from a batch on
  unfoldable pub write_chunks : ℕ → ℕ → ℕ → List ℕ → List ℕ → Op d (Unit {0})
  write_chunks block cap batch [] from = pure tt
  write_chunks block cap batch (size ∷ sizes) from =
      write_blocks d (block + batch * cap) (take (size * block_size) from)
      >> write_chunks block cap (batch + 1) sizes (drop (size * block_size) from)

  unfoldable pub write_whole : ℕ → ℕ → List ℕ → Op d (Unit {0})
  unfolding write_chunks
  write_whole block whole from =
      if whole == 0
      then pure tt
      else gets (cap_for whole) >>= λ cap.
          write_chunks block cap 0 (batch_sizes whole cap whole) from

  -- A part of a block is read before it is written.
  abbrev pub write_part : ℕ → ℕ → List ℕ → Op d (Unit {0})
  write_part block skip from =
      read_blocks d block 1 >>= λ scratch. write_blocks d block (laid_over scratch skip from)

  unfoldable pub write_head : ℕ → ℕ → List ℕ → Op d (Unit {0})
  write_head block skip from = if skip == 0 then pure tt else write_part block skip from

  unfoldable pub write_tail : ℕ → List ℕ → Op d (Unit {0})
  write_tail block from = if length from == 0 then pure tt else write_part block 0 from

  unfoldable pub write_span : ℕ → ℕ → List ℕ → Op d (Unit {0})
  unfolding write_head write_whole write_tail
  write_span first_block skip from =
      let first = head_bytes skip (length from) in
      let left = drop first from in
      let whole = length left / block_size in
      let block = block_after first_block skip in
      write_head first_block skip (take first from)
      >> write_whole block whole (take (whole * block_size) left)
      >> write_tail (block + whole) (drop (whole * block_size) left)
