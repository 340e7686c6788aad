-- ===== src/Tests/Counting.antt =====
-- Counters of calls.
use resident_fat.Prelude.{ℕ, ◌-◌, ◌^◌, ◌≡◌, refl, List, [], ◌∷◌, arith}
use resident_fat.Counted.{Counts, since, Call, read, write, calls, blocks_per_call_x10}
use resident_fat.Counted.Since.{since-calls}

-- Counters about to wrap, and two reads of three and two blocks.
abbrev before : Counts
before = record {
  read_calls = 2 ^ 32 - 2;
  read_blocks = 2 ^ 32 - 1;
  write_calls = 0;
  write_blocks = 7;
}

abbrev two_reads : List Call
two_reads = read 10 1536 ∷ read 40 1024 ∷ []

abbrev start_of : Call → ℕ
start_of (read start bytes) = start
start_of (write start bytes) = start

since-calls_example :
    (since (calls start_of two_reads before).1 before
      ≡ record { read_calls = 2; read_blocks = 5; write_calls = 0; write_blocks = 0 })
    × ((calls start_of two_reads before).0 ≡ 10 ∷ 40 ∷ [])
since-calls_example = since-calls start_of two_reads before (omega arith)

abbrev runs_of_reads : Counts
runs_of_reads = record { read_calls = 2; read_blocks = 7; write_calls = 0; write_blocks = 0 }

thirty_five : blocks_per_call_x10 runs_of_reads ≡ 35
unfolding blocks_per_call_x10
thirty_five = refl
