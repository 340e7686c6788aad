-- ===== src/Fat/Table.antt =====
-- The table of src/fat.rs, its errors (`FatError` of src/error.rs), and the two accessors that
-- everything else goes through, `entry` and `set_entry`.
-- An operation that can fail returns an `Outcome`; one that also changes the table is an action
-- `M`, which keeps the changes made before an error, as the code's `?` does.
use resident_fat.Prelude.{
  ℕ, ◌+◌, ◌-◌, ◌/◌, ◌^◌, Bool, true, false, not, ◌&&◌, ◌||◌, List, Option, none, some, ltb, leb,
  ◌==◌, if◌then◌else◌, get_elem?, set,
}
use resident_fat.Words.{u32, u64, low_bits, high_bits}

pub data FatError : Type 0 where
  bad_cluster : ℕ → FatError
  chain_loop : ℕ → FatError
  free_cluster_in_chain : ℕ → ℕ → FatError
  disk_full : ℕ → ℕ → FatError
  chain_shorter_than_file : ℕ → ℕ → FatError

-- `panic` is an index out of bounds; `stuck` is a loop of the model that ran out of fuel.
pub data Outcome {ℓ} (A : Type ℓ) : Type ℓ where
  ok : A → Outcome A
  err : FatError → Outcome A
  panic stuck : Outcome A

abbrev pub end_of_chain : ℕ
end_of_chain = 0x0FFF_FFF8

abbrev pub end_of_chain_mark : ℕ
end_of_chain_mark = 0x0FFF_FFFF

abbrev pub bad_cluster_mark : ℕ
bad_cluster_mark = 0x0FFF_FFF7

abbrev pub free_mark : ℕ
free_mark = 0

abbrev pub first_cluster : ℕ
first_cluster = 2

-- `entry & ENTRY_MASK`
abbrev pub masked : ℕ → ℕ
masked e = low_bits e 28

pub record Run : Type 0 where
  pub file_cluster : ℕ
  pub start_cluster : ℕ
  pub clusters : ℕ

pub record Fat : Type 0 where
  pub entries : List ℕ
  pub cluster_count : ℕ
  pub dirty : List Bool
  pub next_free : ℕ
  pub free_count : ℕ
  pub changes : ℕ
  pub entries_per_sector : ℕ
  pub bytes_per_sector : ℕ
  pub sectors_per_fat : ℕ
  pub fat_count : ℕ
  pub fat_start : ℕ

abbrev pub M : Type 0 → Type 0
M A = Fat → Outcome A × Fat

abbrev pub pure : {A : Type 0} → A → M A
pure a f = (ok a, f)

abbrev pub continue_with : {A B : Type 0} → Outcome A × Fat → (A → M B) → Outcome B × Fat
continue_with (ok a, f) k = k a f
continue_with (err e, f) k = (err e, f)
continue_with (panic, f) k = (panic, f)
continue_with (stuck, f) k = (stuck, f)

infixl 5 ◌>>=◌ ◌>>◌
abbrev pub ◌>>=◌ : {A B : Type 0} → M A → (A → M B) → M B
◌>>=◌ m k f = continue_with (m f) k

abbrev pub ◌>>◌ : {B : Type 0} → M (Unit {0}) → M B → M B
m >> k = m >>= λ _. k

-- an action that only reads the table
abbrev pub reading : {A : Type 0} → (Fat → Outcome A) → M A
reading g f = (g f, f)

unfoldable pub is_valid_cluster : Fat → ℕ → Bool
is_valid_cluster f cluster =
    leb first_cluster cluster && ltb cluster (u32 (first_cluster + f.cluster_count))

unfoldable pub entry : Fat → ℕ → Outcome ℕ
unfolding is_valid_cluster
entry f cluster =
    if not (is_valid_cluster f cluster)
    then err (bad_cluster cluster)
    else elim (get_elem? f.entries cluster) [ none ↦ panic | some w ↦ ok (masked w) ]

-- A division by zero would be a panic; an accepted volume has 128 entries in a sector.
unfoldable pub mark_dirty : ℕ → Fat → Fat
mark_dirty cluster f = record f { dirty = set f.dirty (cluster / f.entries_per_sector) true }

-- `free_count` after an entry that was free, or not, has become free, or not
abbrev pub recount : Bool → Bool → ℕ → ℕ
recount true false n = u32 (n + 2 ^ 32 - 1)
recount false true n = u32 (n + 1)
recount _ _ n = n

-- `(old & !ENTRY_MASK) | (value & ENTRY_MASK)`
abbrev pub with_value : ℕ → ℕ → ℕ
with_value old value = high_bits old 28 + masked value

-- the writes of `set_entry`, once the old entry is known
unfoldable pub overwrite : ℕ → ℕ → ℕ → Fat → Fat
unfolding mark_dirty
overwrite cluster old value f =
    let written = mark_dirty cluster (record f {
      entries = set f.entries cluster (with_value old value);
      changes = u64 (f.changes + 1);
    }) in
    record written {
      free_count = recount (masked old == free_mark) (masked value == free_mark) f.free_count;
    }

unfoldable pub set_entry : ℕ → ℕ → M (Unit {0})
unfolding is_valid_cluster overwrite
set_entry cluster value f =
    if not (is_valid_cluster f cluster)
    then (err (bad_cluster cluster), f)
    else elim (get_elem? f.entries cluster) [
      | none ↦ (panic, f)
      | some old ↦ (ok tt, overwrite cluster old value f)
    ]

-- `Fat::next`
unfoldable pub next : Fat → ℕ → Outcome (Option ℕ)
unfolding entry is_valid_cluster
next f cluster = elim (entry f cluster) [
  | ok e ↦
      if leb end_of_chain e
      then ok none
      else if (e == bad_cluster_mark) || not (is_valid_cluster f e)
      then err (bad_cluster e)
      else ok (some e)
  | err x ↦ err x
  | panic ↦ panic
  | stuck ↦ stuck
]
