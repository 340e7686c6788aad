-- ===== src/Errors.antt =====
-- `Error` of src/error.rs, and actions that may return one. An action keeps what it changed where
-- it fails, as the code's `?` does. The error of the device is not kept: `device_error` is
-- `Error::Device` without what it carries, which the code only hands on.
pub mod Inverted
use resident_fat.Prelude.{ℕ, Option, none, some, List}
use resident_fat.Boot.{BootError}
use resident_fat.Fat.Table.{FatError, Outcome, ok, err, panic}

pub data Error : Type 0 where
  device_error : Error
  boot_error : BootError → Error
  no_partition_table : Error
  no_such_partition : ℕ → Error
  no_fat_partition : Error
  fat_error : FatError → Error
  entry_after_end : ℕ → Error
  not_found not_a_directory is_a_directory : List ℕ → Error
  directory_full : Error
  bad_name no_alias_available directory_not_empty already_exists : List ℕ → Error
  move_into_itself stale_file : List ℕ → Error
  buffer_length : ℕ → ℕ → Error
  out_of_memory : ℕ → Error

-- `panicked` is a panic of the code; `stuck` is a loop of the model that ran out of fuel.
pub data Result (A : Type 0) : Type 0 where
  done : A → Result A
  failed : Error → Result A
  panicked stuck : Result A

abbrev pub Act : Type 0 → Type 0 → Type 0
Act S A = S → Result A × S

module _ {S : Type 0} where
  abbrev pub pure : {A : Type 0} → A → Act S A
  pure a s = (done a, s)

  abbrev pub fail : {A : Type 0} → Error → Act S A
  fail e s = (failed e, s)

  abbrev pub continue_to : {A B : Type 0} → Result A × S → (A → Act S B) → Result B × S
  continue_to (done a, s) k = k a s
  continue_to (failed e, s) k = (failed e, s)
  continue_to (panicked, s) k = (panicked, s)
  continue_to (stuck, s) k = (stuck, s)

  infixl 5 ◌>>=◌ ◌>>◌
  abbrev pub ◌>>=◌ : {A B : Type 0} → Act S A → (A → Act S B) → Act S B
  ◌>>=◌ m k s = continue_to (m s) k

  abbrev pub ◌>>◌ : {A B : Type 0} → Act S A → Act S B → Act S B
  ◌>>◌ m k s = continue_to (m s) (λ _. k)

  -- what an action reads of the state, and a change of the state
  abbrev pub gets : {A : Type 0} → (S → A) → Act S A
  gets f s = (done (f s), s)

  abbrev pub modify : (S → S) → Act S (Unit {0})
  modify f s = (done tt, f s)

  -- `.ok_or(..)`
  abbrev pub or_fail : {A : Type 0} → Error → Option A → Act S A
  or_fail e none = fail e
  or_fail e (some a) = pure a

  abbrev pub result_of : {A : Type 0} → Result A → Act S A
  result_of r s = (r, s)

-- an outcome of the table
abbrev pub from_fat : {A : Type 0} → Outcome A → Result A
from_fat (ok a) = done a
from_fat (err e) = failed (fat_error e)
from_fat panic = panicked
from_fat Outcome.stuck = stuck
