-- ===== src/Words.antt =====
-- Machine integers as natural numbers: wrap-around, shifts and masks in the form of arithmetic.
-- `x & (2 ^ k - 1)` is `low_bits x k`, and `x & !(2 ^ k - 1)` is `high_bits x k`. Where `|` joins
-- fields that share no bit by construction it is written `+`, otherwise `bit_or`.
pub mod Bits
use resident_fat.Prelude.{ℕ, ◌*◌, ◌/◌, ◌%◌, ◌^◌}

abbrev pub u8 : ℕ → ℕ
u8 n = n % 2 ^ 8

abbrev pub u16 : ℕ → ℕ
u16 n = n % 2 ^ 16

abbrev pub u32 : ℕ → ℕ
u32 n = n % 2 ^ 32

abbrev pub u64 : ℕ → ℕ
u64 n = n % 2 ^ 64

abbrev pub low_bits : ℕ → ℕ → ℕ
low_bits x k = x % 2 ^ k

abbrev pub high_bits : ℕ → ℕ → ℕ
high_bits x k = x / 2 ^ k * 2 ^ k

abbrev pub shr : ℕ → ℕ → ℕ
shr x k = x / 2 ^ k

abbrev pub shl : ℕ → ℕ → ℕ
shl x k = x * 2 ^ k
