-- ===== src/Counted.antt =====
-- src/counted.rs: a device wrapped in counters of its calls and blocks. The counters are of 32 bits
-- and wrap; the device is a parameter, what it answers to a read and to a write.
pub mod Since
use resident_fat.Prelude.{ℕ, ◌+◌, ◌-◌, ◌*◌, ◌/◌, ◌^◌, ◌≤◌, min, List, [], ◌∷◌, ◌==◌, if◌then◌else◌}
use resident_fat.Words.{u32}

-- `Counts`, and the state of `Counters`
pub record Counts : Type 0 where
  pub read_calls : ℕ
  pub read_blocks : ℕ
  pub write_calls : ℕ
  pub write_blocks : ℕ

-- `u32::wrapping_sub`
abbrev pub wrapping_sub : ℕ → ℕ → ℕ
wrapping_sub a b = u32 (a + 2 ^ 32 - b)

unfoldable pub since : Counts → Counts → Counts
since now before = record {
  read_calls = wrapping_sub now.read_calls before.read_calls;
  read_blocks = wrapping_sub now.read_blocks before.read_blocks;
  write_calls = wrapping_sub now.write_calls before.write_calls;
  write_blocks = wrapping_sub now.write_blocks before.write_blocks;
}

-- `Counters::count`, on the counters of reads and on those of writes
unfoldable pub count_read : ℕ → Counts → Counts
count_read bytes c = record c {
  read_calls = u32 (c.read_calls + 1);
  read_blocks = u32 (c.read_blocks + u32 (bytes / 512));
}

unfoldable pub count_write : ℕ → Counts → Counts
count_write bytes c = record c {
  write_calls = u32 (c.write_calls + 1);
  write_blocks = u32 (c.write_blocks + u32 (bytes / 512));
}

-- A call: a read or a write from a block on, of so many bytes.
pub data Call : Type 0 where
  read : ℕ → ℕ → Call
  write : ℕ → ℕ → Call

-- What `Counted` does with a call: it counts, and hands it to the device.
unfoldable pub counted {ℓ} : {A : Type ℓ} → (Call → A) → Call → Counts → A × Counts
unfolding count_read count_write
counted device (read start bytes) c = (device (read start bytes), count_read bytes c)
counted device (write start bytes) c = (device (write start bytes), count_write bytes c)

-- The calls one after the other, with what the device answers.
unfoldable pub calls {ℓ} : {A : Type ℓ} → (Call → A) → List Call → Counts → List A × Counts
unfolding counted
calls device [] c = ([], c)
calls device (x ∷ xs) c =
    let (answer, after) = counted device x c in
    let (answers, last) = calls device xs after in (answer ∷ answers, last)

unfoldable pub blocks_per_call_x10 : Counts → ℕ
blocks_per_call_x10 c =
    if c.read_calls + c.write_calls == 0
    then 0
    else min ((c.read_blocks + c.write_blocks) * 10 / (c.read_calls + c.write_calls)) (2 ^ 32 - 1)
