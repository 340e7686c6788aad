-- ===== src/Volume/Reading.antt =====
-- src/fs.rs: chains of clusters and directories, read and kept.
use resident_fat.Prelude.{
  ℕ, ◌+◌, ◌-◌, ◌*◌, ◌/◌, ◌^◌, min, Bool, not, ◌||◌, Option, none, some, List, [], ◌∷◌, ◌++◌, ltb,
  leb, ◌==◌, if◌then◌else◌, length,
}
use resident_fat.Text.{same_text, split}
use resident_fat.Time.{DateTime}
use resident_fat.Boot.{cluster_bytes, cluster_sector, block_size}
use resident_fat.Fat.Table.{Fat, Run, FatError, bad_cluster, is_valid_cluster}
use resident_fat.Fat.Runs.{runs}
use resident_fat.Dir.ShortName.{is_directory}
use resident_fat.Dir.Entry.{DirEntry}
use resident_fat.Dir.Parse.{
  Directory, Outcome as ParseOutcome, parsed, entry_after_end as after_end,
  panicked as parse_panicked, parse_directory, get_entry,
}
use resident_fat.Errors.{
  Result, done, failed, panicked, fat_error, buffer_length, out_of_memory, not_found,
  not_a_directory, entry_after_end, pure, fail, ◌>>=◌, ◌>>◌, gets, modify, or_fail, result_of,
  from_fat,
}
use resident_fat.Volume.{BlockDevice, Host, RunCache, Op, read_blocks}

-- a map from numbers: the first pair of a key counts
module _ {A : Type 0} where
  unfoldable pub find : List (ℕ × A) → ℕ → Option A
  find [] key = none
  find ((k, a) ∷ rest) key = let later = find rest key in if k == key then some a else later

  unfoldable pub without : List (ℕ × A) → ℕ → List (ℕ × A)
  without [] key = []
  without ((k, a) ∷ rest) key =
      let later = without rest key in if k == key then later else (k, a) ∷ later

-- `Run::bytes`
abbrev pub run_bytes : Run → ℕ → ℕ
run_bytes run bytes = run.clusters * bytes

-- the bytes of all the runs
abbrev pub bytes_of_runs : ℕ → List Run → ℕ
bytes_of_runs bytes [] = 0
bytes_of_runs bytes (run ∷ rest) = run_bytes run bytes + bytes_of_runs bytes rest

abbrev pub slash : ℕ
slash = 0x2F

-- the cache emptied where the table has changed
abbrev pub fresh : Fat → RunCache → RunCache
fresh f cache =
    if cache.changes == f.changes then cache else record { changes = f.changes; chains = [] }

-- `RUN_CACHE_CHAINS`
abbrev pub run_cache_chains : ℕ
run_cache_chains = 16

abbrev pub chains_left : RunCache → List (ℕ × List Run)
chains_left cache = if leb run_cache_chains (length cache.chains) then [] else cache.chains

-- what `read_run` refuses of a run that is not empty
abbrev pub run_refused : Fat → Run → Option FatError
run_refused f run =
    let last = run.start_cluster + run.clusters - 1 in
    let reported = min last (2 ^ 32 - 1) in
    if not (is_valid_cluster f run.start_cluster)
    then some (bad_cluster run.start_cluster)
    else if ltb (2 ^ 32 - 1) last || not (is_valid_cluster f reported)
    then some (bad_cluster reported)
    else none

abbrev pub parse_outcome : ParseOutcome Directory → Result Directory
parse_outcome (parsed directory) = done directory
parse_outcome (after_end index) = failed (entry_after_end index)
parse_outcome parse_panicked = panicked

abbrev pub is_skipped : List ℕ → Bool
is_skipped component = same_text component [] || same_text component (0x2E ∷ [])

module _ {d : BlockDevice} where
  -- `FileSystem::runs`
  unfoldable pub runs_on : ℕ → Op d (List Run)
  runs_on cluster v = (from_fat (runs v.fat cluster), v)

  -- the chain as it is in the cache, or followed in the table
  abbrev pub taken_or_followed : ℕ → Option (List Run) → Op d (List Run)
  taken_or_followed cluster none v = runs_on cluster v
  taken_or_followed cluster (some rs) v = (
    done rs,
    record v { run_cache = record (v.run_cache) { chains = without v.run_cache.chains cluster } },
  )

  unfoldable pub take_runs : ℕ → Op d (List Run)
  take_runs cluster v =
      let cache = fresh v.fat v.run_cache in
      taken_or_followed cluster (find cache.chains cluster) (record v { run_cache = cache })

  unfoldable pub keep_runs : ℕ → List Run → Op d (Unit {0})
  keep_runs cluster rs v = if not (v.run_cache.changes == v.fat.changes) then (done tt, v) else (
    done tt,
    record v {
      run_cache = record (v.run_cache) {
        chains = (cluster, rs) ∷ without (chains_left v.run_cache) cluster;
      };
    },
  )

  -- the read of a run that lies in the volume, into a buffer of so many bytes
  unfoldable pub read_checked : Run → ℕ → Op d (List ℕ)
  read_checked run room v =
      let expected = run_bytes run (cluster_bytes v.boot) in
      if not (room == expected)
      then (failed (buffer_length expected room), v)
      else if run.clusters == 0
      then (done [], v)
      else read_blocks d (cluster_sector v.boot run.start_cluster) (room / block_size) v

  unfoldable pub read_run : Run → ℕ → Op d (List ℕ)
  read_run run room v =
      if run.clusters == 0 then read_checked run room v else elim (run_refused v.fat run) [
        | some e ↦ (failed (fat_error e), v)
        | none ↦ read_checked run room v
      ]

  -- the loop of `read_chain`
  unfoldable pub read_runs : List Run → Op d (List ℕ)
  read_runs [] = pure []
  read_runs (run ∷ rest) = gets (λ v. cluster_bytes v.boot) >>= λ bytes.
      read_run run (run_bytes run bytes) >>= λ first.
      read_runs rest >>= λ more. pure (first ++ more)

  -- `self.now()`
  unfoldable pub now : Op d DateTime
  now v = (done (v.clock v.clock_reads), record v { clock_reads = v.clock_reads + 1 })

  unfoldable pub set_clock : (ℕ → DateTime) → Op d (Unit {0})
  set_clock clock v = (done tt, record v { clock = clock; clock_reads = 0 })

  -- `self.directories.remove(..)`
  unfoldable pub forget_directory : ℕ → Op d (Unit {0})
  forget_directory cluster v = (done tt, record v { directories = without v.directories cluster })

  unfoldable pub forget_directories : Op d (Unit {0})
  forget_directories v = (done tt, record v { directories = [] })

  module _ (host : Host) where
    -- `try_filled` for so many bytes
    abbrev pub reserve_room : ℕ → Op d (Unit {0})
    reserve_room bytes v =
        if host.has_room bytes then (done tt, v) else (failed (out_of_memory bytes), v)

    unfoldable pub read_chain : ℕ → Op d (List ℕ)
    read_chain cluster = runs_on cluster >>= λ rs.
        gets (λ v. bytes_of_runs (cluster_bytes v.boot) rs) >>= λ total.
        reserve_room total >> read_runs rs

    -- a directory that was not kept
    unfoldable pub load_dir : ℕ → Op d Directory
    load_dir cluster = read_chain cluster >>= λ bytes. gets (λ v. v.codepage) >>= λ codepage.
        result_of (parse_outcome (parse_directory host.unicode codepage bytes)) >>= λ directory.
        modify (λ v. record v { directories = (cluster, directory) ∷ v.directories })
        >> pure directory

    unfoldable pub read_dir : ℕ → Op d Directory
    read_dir cluster v = elim (find v.directories cluster) [
      | some directory ↦ (done directory, v)
      | none ↦ load_dir cluster v
    ]

    unfoldable pub root_dir : Op d Directory
    root_dir v = read_dir v.boot.root_cluster v

    -- `directory.get(name)`, and the error for a name that is not there
    abbrev pub get_in : Directory → List ℕ → Op d (Option DirEntry)
    get_in directory name = gets (λ v. get_entry host.unicode v.codepage directory name)

    abbrev pub named_in : Directory → List ℕ → Op d DirEntry
    named_in directory name = get_in directory name >>= or_fail (not_found name)

    abbrev pub directory_entry : List ℕ → DirEntry → Op d ℕ
    directory_entry name entry =
        if is_directory entry.attributes
        then pure entry.first_cluster
        else fail (not_a_directory name)

    -- A link to the root directory is stored as 0.
    abbrev pub or_root : ℕ → Op d ℕ
    or_root next v = (done (if next == 0 then v.boot.root_cluster else next), v)

    -- the loop of `resolve_dir` over the components of a path
    unfoldable pub resolve_components : List (List ℕ) → ℕ → Op d ℕ
    resolve_components [] cluster = pure cluster
    resolve_components (component ∷ rest) cluster =
        if is_skipped component
        then resolve_components rest cluster
        else read_dir cluster >>= λ directory. named_in directory component >>= λ entry.
            directory_entry component entry >>= λ next.
            or_root next >>= λ below. resolve_components rest below

    unfoldable pub resolve_dir : List ℕ → Op d ℕ
    resolve_dir path =
        gets (λ v. v.boot.root_cluster) >>= λ root. resolve_components (split slash path) root

    unfoldable pub open_dir : List ℕ → Op d Directory
    open_dir path = resolve_dir path >>= λ cluster. read_dir cluster
