-- ===== src/Counted/Since.antt =====
-- What two snapshots of the counters say of the calls made between them.
use native.Mathlib.Nat.{div-mul-le_self, mul-le-mul_right, lt-div-mul-add, le_trans}
use resident_fat.Prelude.{
  ◌+◌, ◌-◌, ◌*◌, ◌/◌, ◌^◌, ◌≤◌, ◌<◌, ◌≡◌, ◌≢◌, refl, ap, List, [], ◌∷◌, map, arith, min, Bool-cases,
  inl, inr, ◌==◌, false, ltb, ◌⊎◌,
}
use resident_fat.Words.{u32}
use resident_fat.Counted.{
  Counts, since, count_read, count_write, Call, read, write, calls, blocks_per_call_x10,
}

pub record AreWords (c : Counts) : Type 0 where
  pub read_calls : c.read_calls < 2 ^ 32
  pub read_blocks : c.read_blocks < 2 ^ 32
  pub write_calls : c.write_calls < 2 ^ 32
  pub write_blocks : c.write_blocks < 2 ^ 32

-- how many calls and blocks there are, of each kind
abbrev pub totals : List Call → Counts
totals [] = record { read_calls = 0; read_blocks = 0; write_calls = 0; write_blocks = 0 }
totals (read start bytes ∷ xs) = record (totals xs) {
  read_calls = 1 + (totals xs).read_calls;
  read_blocks = bytes / 512 + (totals xs).read_blocks;
}
totals (write start bytes ∷ xs) = record (totals xs) {
  write_calls = 1 + (totals xs).write_calls;
  write_blocks = bytes / 512 + (totals xs).write_blocks;
}

abbrev added : Counts → Counts → Counts
added c t = record {
  read_calls = u32 (c.read_calls + t.read_calls);
  read_blocks = u32 (c.read_blocks + t.read_blocks);
  write_calls = u32 (c.write_calls + t.write_calls);
  write_blocks = u32 (c.write_blocks + t.write_blocks);
}

module _ {ℓ} {A : Type ℓ} (device : Call → A) where
  calls-added :
      (xs : List Call) (c : Counts) → AreWords c → (calls device xs c).1 ≡ added c (totals xs)
  unfolding calls
  calls-added [] c w = ground arith
  calls-added (read start bytes ∷ xs) c w =
      ground (arith, calls-added xs (count_read bytes c) (omega arith))
  calls-added (write start bytes ∷ xs) c w =
      ground (arith, calls-added xs (count_write bytes c) (omega arith))

  calls-map : (xs : List Call) (c : Counts) → (calls device xs c).0 ≡ map device xs
  unfolding calls
  calls-map [] c = refl
  calls-map (read start bytes ∷ xs) c =
      ap (λ l. device (read start bytes) ∷ l) (calls-map xs (count_read bytes c))
  calls-map (write start bytes ∷ xs) c =
      ap (λ l. device (write start bytes) ∷ l) (calls-map xs (count_write bytes c))

  -- Whatever the counters were before, `since` gives the calls and blocks of each kind that were
  -- made in between, modulo 2 ^ 32, and so exactly where they are fewer; and the device has been
  -- handed each call.
  pub since-calls :
      (xs : List Call) (before : Counts)
      → AreWords before
      → (since (calls device xs before).1 before ≡ added (totals []) (totals xs))
        × ((calls device xs before).0 ≡ map device xs)
  unfolding since
  since-calls xs before w = (rw (calls-added xs before w) (ground arith), calls-map xs before)

-- Where there were calls, `blocks_per_call_x10` is ten times the blocks by the calls, rounded
-- down, unless that does not fit in 32 bits, and then it is the largest number of 32 bits.
pub blocks_per_call_x10_bounds :
    (c : Counts)
    → c.read_calls + c.write_calls ≢ 0
    → (blocks_per_call_x10 c ≤ 2 ^ 32 - 1)
      × (blocks_per_call_x10 c * (c.read_calls + c.write_calls)
          ≤ (c.read_blocks + c.write_blocks) * 10)
      × ((blocks_per_call_x10 c ≡ 2 ^ 32 - 1)
          ⊎ ((c.read_blocks + c.write_blocks) * 10
              < blocks_per_call_x10 c * (c.read_calls + c.write_calls)
                + (c.read_calls + c.write_calls)))
unfolding blocks_per_call_x10
blocks_per_call_x10_bounds c h =
    let calls = c.read_calls + c.write_calls in
    let ten = (c.read_blocks + c.write_blocks) * 10 in
    let some_calls : (calls == 0) ≡ false = ground arith in
    let below : min (ten / calls) (2 ^ 32 - 1) * calls ≤ ten / calls * calls =
      mul-le-mul_right calls (omega arith) in
    let rounded : (min (ten / calls) (2 ^ 32 - 1) ≡ 2 ^ 32 - 1)
        ⊎ (ten < min (ten / calls) (2 ^ 32 - 1) * calls + calls) =
      elim (Bool-cases (ltb (ten / calls) (2 ^ 32))) [
        | inl e ↦
            let small : min (ten / calls) (2 ^ 32 - 1) ≡ ten / calls = ground arith in
            inr (rw small (lt-div-mul-add (omega arith)))
        | inr e ↦ inl (ground arith)
      ] in
    rw some_calls (omega arith, le_trans below (div-mul-le_self ten calls), rounded)
