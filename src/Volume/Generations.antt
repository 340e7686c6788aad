-- ===== src/Volume/Generations.antt =====
-- The generations of slots (src/fs.rs), which tell a handle that its file is gone.
use resident_fat.Prelude.{
  ℕ, ◌+◌, ◌≡◌, refl, ◌∙◌, inl, inr, Bool, true, false, Bool-cases, Option, none, some, List, [],
  ◌∷◌, length, take, drop, ◌*◌, ◌/◌, leb,
}
use resident_fat.Words.{u64}
use resident_fat.Errors.{Result, done, failed, panicked, stuck, continue_to, ◌>>=◌}
use resident_fat.Boot.{block_size}
use resident_fat.Volume.{
  BlockDevice, FileSystem, Op, device_read, device_write, cap_of, batch_sizes, with_flag,
  read_batches, read_blocks, write_batches, write_marked, write_blocks, mark_volume_dirty,
  set_dirty_flag, unmark, data_read, data_written,
}

module _ {d : BlockDevice} where
  -- An operation that leaves the generations as they are, whatever it returns.
  abbrev pub KeepsGenerations : {A : Type 0} → Op d A → Type 0
  KeepsGenerations m = (v : FileSystem d) → (m v).1.generations ≡ v.generations

  continue-generations :
      {A B : Type 0} (g : List ((ℕ × ℕ) × ℕ)) (r : Result A × FileSystem d) (k : A → Op d B)
      → r.1.generations ≡ g
      → ((a : A) → KeepsGenerations (k a))
      → (continue_to r k).1.generations ≡ g
  continue-generations g (done a, w) k h next = next a w ∙ h
  continue-generations g (failed e, w) k h next = h
  continue-generations g (panicked, w) k h next = h
  continue-generations g (stuck, w) k h next = h

  pub then-KeepsGenerations :
      {A B : Type 0} (m : Op d A) (k : A → Op d B)
      → KeepsGenerations m
      → ((a : A) → KeepsGenerations (k a))
      → KeepsGenerations (m >>= k)
  then-KeepsGenerations m k first next v = continue-generations v.generations (m v) k (first v) next

  data_read-generations :
      (r : Option (List ℕ) × d.State) (v : FileSystem d)
      → (data_read d r v).1.generations ≡ v.generations
  data_read-generations (none, s) v = refl
  data_read-generations (some bytes, s) v = refl

  data_written-generations :
      (r : Bool × d.State) (v : FileSystem d) → (data_written d r v).1.generations ≡ v.generations
  data_written-generations (false, s) v = refl
  data_written-generations (true, s) v = refl

  device_read-KeepsGenerations : (block blocks : ℕ) → KeepsGenerations (device_read d block blocks)
  device_read-KeepsGenerations block blocks v =
      data_read-generations (d.read (u64 block) blocks v.device) v

  device_write-KeepsGenerations :
      (block : ℕ) (bytes : List ℕ) → KeepsGenerations (device_write d block bytes)
  device_write-KeepsGenerations block bytes v =
      data_written-generations (d.write (u64 block) bytes v.device) v

  read_batches-KeepsGenerations :
      (start cap batch : ℕ) (sizes : List ℕ)
      → KeepsGenerations (read_batches d start cap batch sizes)
  unfolding read_batches
  read_batches-KeepsGenerations start cap batch [] = λ v. refl
  read_batches-KeepsGenerations start cap batch (size ∷ sizes) =
      then-KeepsGenerations (device_read d (start + batch * cap) size) _
        (device_read-KeepsGenerations (start + batch * cap) size)
        (λ bytes.
          then-KeepsGenerations (read_batches d start cap (batch + 1) sizes) _
            (read_batches-KeepsGenerations start cap (batch + 1) sizes) (λ rest w. refl))

  pub read_blocks-KeepsGenerations :
      (block blocks : ℕ) → KeepsGenerations (read_blocks d block blocks)
  unfolding read_blocks
  read_blocks-KeepsGenerations block blocks v = elim (Bool-cases (leb blocks (cap_of d v))) [
    | inl e ↦ rw e (device_read-KeepsGenerations (v.first_block + block) blocks v)
    | inr e ↦ rw e (
        read_batches-KeepsGenerations (v.first_block + block) (cap_of d v) 0
          (batch_sizes blocks (cap_of d v) blocks) v)
  ]

  write_batches-KeepsGenerations :
      (start cap batch : ℕ) (sizes from : List ℕ)
      → KeepsGenerations (write_batches d start cap batch sizes from)
  unfolding write_batches
  write_batches-KeepsGenerations start cap batch [] from = λ v. refl
  write_batches-KeepsGenerations start cap batch (size ∷ sizes) from =
      then-KeepsGenerations (device_write d (start + batch * cap) (take (size * block_size) from)) _
        (device_write-KeepsGenerations (start + batch * cap) (take (size * block_size) from))
        (λ _.
          write_batches-KeepsGenerations start cap (batch + 1) sizes
            (drop (size * block_size) from))

  write_marked-KeepsGenerations :
      (block : ℕ) (from : List ℕ) → KeepsGenerations (write_marked d block from)
  unfolding write_marked
  write_marked-KeepsGenerations block from v =
      elim (Bool-cases (leb (length from / block_size) (cap_of d v))) [
        | inl e ↦ rw e (device_write-KeepsGenerations (v.first_block + block) from v)
        | inr e ↦ rw e (
            write_batches-KeepsGenerations (v.first_block + block) (cap_of d v) 0
              (batch_sizes (length from / block_size) (cap_of d v) (length from / block_size)) from
              v)
      ]

  set_dirty_flag-KeepsGenerations : (dirty : Bool) → KeepsGenerations (set_dirty_flag d dirty)
  unfolding set_dirty_flag
  set_dirty_flag-KeepsGenerations dirty v =
      then-KeepsGenerations (device_read d v.first_block 1) _
        (device_read-KeepsGenerations v.first_block 1)
        (λ block. device_write-KeepsGenerations v.first_block (with_flag d dirty block)) v

  unmark-generations :
      (r : Result (Unit {0}) × FileSystem d) → (unmark d r).1.generations ≡ r.1.generations
  unmark-generations (done a, v) = refl
  unmark-generations (failed e, v) = refl
  unmark-generations (panicked, v) = refl
  unmark-generations (stuck, v) = refl

  mark_volume_dirty-KeepsGenerations : KeepsGenerations (mark_volume_dirty d)
  unfolding mark_volume_dirty
  mark_volume_dirty-KeepsGenerations v = elim (Bool-cases v.marked_dirty) [
    | inl e ↦ rw e refl
    | inr e ↦ rw e (
        unmark-generations (set_dirty_flag d true (record v { marked_dirty = true }))
        ∙ set_dirty_flag-KeepsGenerations true (record v { marked_dirty = true }))
  ]

  pub write_blocks-KeepsGenerations :
      (block : ℕ) (from : List ℕ) → KeepsGenerations (write_blocks d block from)
  unfolding write_blocks
  write_blocks-KeepsGenerations block from =
      then-KeepsGenerations (mark_volume_dirty d) _ mark_volume_dirty-KeepsGenerations
        (λ _. write_marked-KeepsGenerations block from)
