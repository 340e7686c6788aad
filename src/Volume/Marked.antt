-- ===== src/Volume/Marked.antt =====
-- `write_blocks` of src/fs.rs, which marks the volume as in use before its first write.
use resident_fat.Prelude.{
  ℕ, ◌+◌, ◌*◌, ◌/◌, ◌%◌, ◌^◌, ◌≤◌, ◌<◌, ◌≡◌, ◌≢◌, ◌⊎◌, subst, false, get_or-set_self, get_or-set_ne,
  inl, inr, refl, sym, ap, ◌∙◌, Bool, true, false, not, List, append-nil, length, length-set, arith,
  Bool-cases, ◌==◌, ==_iff, if◌then◌else◌, ◌||◌,
}
use Prim.Native.Nat.{bit_or}
use resident_fat.Words.Bits.{bit_or-one}
use resident_fat.Bytes.{byte}
use resident_fat.Boot.{block_size}
use resident_fat.Errors.{Result, done}
use resident_fat.Volume.{
  BlockDevice, FileSystem, with_flag, set_dirty_flag, mark_volume_dirty, write_blocks,
}
use resident_fat.Volume.Transfers.{laid, ServesReads, device_read-HasRead}
use resident_fat.Volume.Writes.{
  is_outside, ServesWrites, device_write-HasWritten, write_marked-HasWritten,
}

if_not : (b : Bool) (xs ys : List ℕ) → (if b then xs else ys) ≡ (if not b then ys else xs)
if_not true xs ys = refl
if_not false xs ys = refl

-- the flag of a block: the lowest bit of the byte at 0x41
abbrev pub HasFlag : List ℕ → Type 0
HasFlag block = byte block 0x41 % 2 ≡ 1

-- The block after has the flag, and the bytes and bits of the one before otherwise.
abbrev pub IsFlagged : List ℕ → List ℕ → Type 0
IsFlagged before after =
    HasFlag after
    × (byte after 0x41 / 2 ≡ byte before 0x41 / 2)
    × ((i : ℕ) → i ≢ 0x41 → byte after i ≡ byte before i)
    × (length after ≡ length before)

with_flag-IsFlagged :
    (d : BlockDevice) (block : List ℕ)
    → 0x41 < length block
    → IsFlagged block (with_flag d true block)
with_flag-IsFlagged d block whole =
    let b = byte block 0x41 in
    let own : byte (with_flag d true block) 0x41 ≡ b / 2 * 2 + 1 =
      get_or-set_self block 0x41 (bit_or b 1) 0 whole ∙ bit_or-one b in
    (
      omega (arith, own),
      omega (arith, own),
      (λ i other. get_or-set_ne block 0x41 i (bit_or b 1) 0 (λ e. other (sym e))),
      length-set block 0x41 (bit_or b 1),
    )

outside-is_outside :
    (block blocks i : ℕ) → (i < block) ⊎ (block + blocks ≤ i) → is_outside block blocks i ≡ true
outside-is_outside block blocks i h = ground arith

module _ (d : BlockDevice) (end : ℕ) (content : d.State → ℕ → List ℕ)
    (reads : ServesReads d end content) (writes : ServesWrites d end content)
    (small : end < 2 ^ 64) where
  -- the blocks of the device once the volume is marked: the first one of the volume with the flag
  abbrev marked : FileSystem d → ℕ → List ℕ
  marked v i =
      if v.marked_dirty || not (i == v.first_block)
      then content v.device i
      else with_flag d true (content v.device i)

  marked-IsFlagged :
      (v : FileSystem d)
      → length (content v.device v.first_block) ≡ block_size
      → (v.marked_dirty ≡ true → HasFlag (content v.device v.first_block))
      → IsFlagged (content v.device v.first_block) (marked v v.first_block)
  marked-IsFlagged v first known =
      let own : (v.first_block == v.first_block) ≡ true = ground arith in
      elim (Bool-cases v.marked_dirty) [
        | inl already ↦ rw already (known already, refl, (λ i other. refl), refl)
        | inr unmarked ↦
            rw (unmarked, own)
              (with_flag-IsFlagged d (content v.device v.first_block) (omega arith))
      ]

  marked_other : (v : FileSystem d) (i : ℕ) → i ≢ v.first_block → marked v i ≡ content v.device i
  marked_other v i other =
      let apart : (i == v.first_block) ≡ false = ground arith in
      elim (Bool-cases v.marked_dirty) [
        | inl already ↦ rw already refl
        | inr unmarked ↦ rw (unmarked, apart) refl
      ]

  HasMarked : FileSystem d → Result (Unit {0}) × FileSystem d → Type 0
  HasMarked v r =
      (t : d.State) × (r ≡ (done tt, record v { device = t; marked_dirty = true }))
      × ((i : ℕ) → content t i ≡ marked v i)

  set_dirty_flag-HasMarked :
      (w : FileSystem d)
      → w.first_block < end
      → length (content w.device w.first_block) ≡ block_size
      → (t : d.State) × (set_dirty_flag d true w ≡ (done tt, record w { device = t }))
        × ((i : ℕ)
            → content t i ≡ (
                if i == w.first_block
                then with_flag d true (content w.device i)
                else content w.device i))
  unfolding set_dirty_flag
  set_dirty_flag-HasMarked w on whole =
      let block = content w.device w.first_block in
      let (s, e, same, cap) =
        device_read-HasRead d end content reads small w w.first_block 1 (ground arith)
          (omega arith) in
      let (t, e', held, kept, cap') =
        device_write-HasWritten d end content writes small (record w { device = s }) w.first_block 1
          (with_flag d true block) (ground arith) (omega arith) on
          (length-set block 0x41 _ ∙ whole) in
      (
        t,
        rw (e, append-nil block, e') refl,
        λ i. elim (Bool-cases (i == w.first_block)) [
          | inl here ↦
              let at : i ≡ w.first_block = (==_iff _ _).0 here in
              rw at (
                let own : (w.first_block == w.first_block) ≡ true = ground arith in
                rw own (sym (append-nil (content t w.first_block)) ∙ held))
          | inr away ↦ rw away (kept i (ground arith) ∙ same i)
        ],
      )

  mark_volume_dirty-HasMarked :
      (v : FileSystem d)
      → v.first_block < end
      → length (content v.device v.first_block) ≡ block_size
      → HasMarked v (mark_volume_dirty d v)
  unfolding mark_volume_dirty HasMarked
  mark_volume_dirty-HasMarked v on whole = elim (Bool-cases v.marked_dirty) [
    | inl already ↦ (
      v.device,
      simp already (ap (λ b. (done tt, record v { marked_dirty = b })) already),
      λ i. simp already refl,
    )
    | inr unmarked ↦
        let (t, e, held) = set_dirty_flag-HasMarked (record v { marked_dirty = true }) on whole in
        (
          t,
          simp (unmarked, e) refl,
          λ i.
              held i
              ∙ simp unmarked (
                  if_not (i == v.first_block) (with_flag d true (content v.device i))
                    (content v.device i)),
        )
  ]

  -- On a device of fewer than 2 ^ 64 blocks that serves the reads and writes that are no longer
  -- than it says, and whose first block of the volume has 512 bytes, and the flag where the
  -- volume is known to be marked, `write_blocks` of whole blocks of bytes to blocks on the
  -- device past the volume's first one succeeds, however many they are: the device holds the
  -- bytes, the volume is known to be marked, its first block has the flag and is otherwise as it
  -- was, and no other block changes. The flag is the lowest bit of the byte at 0x41.
  pub write_blocks-marked :
      (v : FileSystem d) (block blocks : ℕ) (from : List ℕ)
      → 1 ≤ block
      → v.first_block + block + blocks ≤ end
      → v.first_block + block < end
      → length from ≡ blocks * block_size
      → length (content v.device v.first_block) ≡ block_size
      → (v.marked_dirty ≡ true → HasFlag (content v.device v.first_block))
      → (t : d.State) × (write_blocks d block from v
          ≡ (done tt, record v { device = t; marked_dirty = true }))
        × (laid (content t) (v.first_block + block) blocks ≡ from)
        × IsFlagged (content v.device v.first_block) (content t v.first_block)
        × ((i : ℕ)
            → i ≢ v.first_block
            → (i < v.first_block + block) ⊎ (v.first_block + block + blocks ≤ i)
            → content t i ≡ content v.device i)
  unfolding write_blocks HasMarked
  write_blocks-marked v block blocks from some_block inside on whole first known =
      let (s, e, same) = mark_volume_dirty-HasMarked v (omega arith) first in
      let (t, e', held, kept, cap) =
        write_marked-HasWritten d end content writes small
          (record v { device = s; marked_dirty = true }) block blocks from inside on whole in
      (
        t,
        rw (e, e') refl,
        held,
        subst (IsFlagged (content v.device v.first_block))
            (sym (kept v.first_block (ground arith) ∙ same v.first_block))
            (marked-IsFlagged v first known),
        λ i other outside.
            kept i (outside-is_outside (v.first_block + block) blocks i outside)
            ∙ same i
            ∙ marked_other v i other,
      )
