-- ===== src/Tests/Handles.antt =====
-- A file of two clusters, read through a handle, on the volume of the transfers.
use mathlib.Core.Option.{none-ne-some}
use resident_fat.Prelude.{
  ℕ, ◌≡◌, refl, true, none, some, List, [], ◌∷◌, replicate, length-replicate, take, drop, min,
  arith,
}
use resident_fat.Boot.{block_size, cluster_bytes, cluster_sector}
use resident_fat.Time.{epoch}
use resident_fat.Dir.ShortName.{ShortName, from_raw}
use resident_fat.Dir.Entry.{DirEntry}
use resident_fat.Dir.Parse.{Directory, search_slot, entry_in_slot}
use resident_fat.Errors.{done, failed, from_fat}
use resident_fat.Fat.Table.{Run}
use resident_fat.Fat.Runs.{runs}
use resident_fat.Volume.{Host, FileSystem}
use resident_fat.Volume.Transfers.{laid}
use resident_fat.Volume.Reading.{find, take_runs, keep_runs}
use resident_fat.Volume.Cached.{
  IsCoherent, LeavesCoherent, take_runs-LeavesCoherent, IsKept, keep_runs-IsKept,
}
use resident_fat.Volume.Entries.{find_slot, generation, delete_entries}
use resident_fat.Files.{File}
use resident_fat.Files.Live.{IsLive}
use resident_fat.Files.Stale.{IsRefused, delete_entries-IsRefused}
use resident_fat.Files.Spans.{read_span}
use resident_fat.Files.Spans.Yielded.{IsWhole, Yields}
use resident_fat.Files.Spans.SpanRead.{read_span-Yields}
use resident_fat.Files.Chains.{read_at, shorter_chain}
use resident_fat.Files.Chains.ChainRead.{chain_content, AreInside}
use resident_fat.Files.Chains.FileRead.{Reads, read_at-Reads, read_at-short}
use resident_fat.Bridge.{SdDevice, bridged}
use resident_fat.Bridge.Served.{SdServesReads, bridged-laid}
use resident_fat.Tests.FatTable.{small_fat, small_fat-IsWellFormed, runs_of_two}
use resident_fat.Tests.Names.{plain_text}
use resident_fat.Tests.Transfers.{memory, memory-ServesReads, mounted}

abbrev pub roomy : Host
roomy = record { unicode = plain_text; has_room = λ n. true }

abbrev listed_name : ShortName
listed_name = from_raw (replicate 11 0x41) 0

abbrev listed : DirEntry
listed = record {
  short_name = listed_name;
  short_display = 0x41 ∷ [];
  long_name = none;
  attributes = 0x20;
  first_cluster = 2;
  size = 1500;
  index = 3;
  first_slot = 3;
  created = epoch;
  modified = epoch;
  accessed = epoch;
}

abbrev listing : Directory
listing = record { entries = listed ∷ []; index = []; free = [] }

abbrev volume : FileSystem memory
volume = record mounted { directories = (9, listing) ∷ [] }

abbrev handle : File
handle = record {
  first_cluster = 2;
  size = 1500;
  directory = 9;
  index = 3;
  first_slot = 3;
  short_name = listed_name;
  generation = 0;
}

abbrev sevens : ℕ → List ℕ
sevens i = replicate block_size 7

sevens-IsWhole : IsWhole sevens
sevens-IsWhole i = length-replicate {A = ℕ} 512 7

-- two clusters in one run
abbrev both : List Run
both = record { file_cluster = 0; start_cluster = 2; clusters = 2 } ∷ []

volume-IsCoherent : IsCoherent memory volume
unfolding IsCoherent find
volume-IsCoherent same cluster rs h = absurd (none-ne-some _ h)

handle-IsLive : IsLive memory volume handle
unfolding find entry_in_slot generation find_slot from_raw search_slot
handle-IsLive = record {
  directory = listing;
  entry = listed;
  resident = refl;
  in_slot = refl;
  same_name = refl;
  same_generation = refl;
}

whole_clusters : cluster_bytes volume.boot ≡ 1024
unfolding cluster_bytes
whole_clusters = refl

both-AreInside : AreInside 100 volume.boot 10 both
unfolding cluster_bytes cluster_sector
both-AreInside = omega arith

read_at-Reads_example :
    Reads memory 100
      (λ s. s)
      sevens
      memory-ServesReads
      (omega arith)
      sevens-IsWhole
      volume
      (done (take (min 600 500) (drop 1000 (chain_content sevens volume.boot 10 both))))
      (read_at roomy handle 1000 600 volume)
read_at-Reads_example =
    read_at-Reads memory 100 (λ s. s) sevens memory-ServesReads (omega arith) sevens-IsWhole volume
      handle both (λ i. refl) volume-IsCoherent small_fat-IsWellFormed runs_of_two
      (omega (arith, whole_clusters)) both-AreInside roomy 1000 600 handle-IsLive
      (omega (arith, whole_clusters))

-- the same with a length that the clusters do not reach
abbrev long_handle : File
long_handle = record handle { size = 5000 }

long_handle-IsLive : IsLive memory volume long_handle
unfolding find entry_in_slot generation find_slot from_raw search_slot
long_handle-IsLive = record {
  directory = listing;
  entry = listed;
  resident = refl;
  in_slot = refl;
  same_name = refl;
  same_generation = refl;
}

read_at-short_example :
    Reads memory 100
      (λ s. s)
      sevens
      memory-ServesReads
      (omega arith)
      sevens-IsWhole
      volume
      (failed (shorter_chain 2 5000))
      (read_at roomy long_handle 2000 100 volume)
read_at-short_example =
    read_at-short memory 100 (λ s. s) sevens memory-ServesReads (omega arith) sevens-IsWhole volume
      long_handle both (λ i. refl) volume-IsCoherent small_fat-IsWellFormed runs_of_two
      (omega (arith, whole_clusters)) both-AreInside roomy 2000 100 long_handle-IsLive (omega arith)
      (omega (arith, whole_clusters)) (omega arith)

read_span-Yields_example :
    Yields memory 100
      (λ s. s)
      sevens
      volume
      (take 1100 (drop 500 (laid sevens 15 4)))
      (read_span memory 5 500 1100 volume)
read_span-Yields_example =
    read_span-Yields memory 100 (λ s. s) sevens memory-ServesReads (omega arith) sevens-IsWhole 5
      500 1100 4 volume (λ i. refl) (omega arith) (omega arith) (omega arith)

delete_entries-IsRefused_example : IsRefused roomy (delete_entries 9 2 3 volume).1 handle
delete_entries-IsRefused_example =
    delete_entries-IsRefused roomy volume handle 2 3 handle-IsLive.same_generation (omega arith)
      (omega arith)

take_runs-LeavesCoherent_example :
    LeavesCoherent volume (from_fat (runs small_fat 2)) (take_runs 2 volume)
take_runs-LeavesCoherent_example = take_runs-LeavesCoherent volume 2 volume-IsCoherent

keep_runs-IsKept_example : IsKept volume 2 both (keep_runs 2 both volume)
keep_runs-IsKept_example = keep_runs-IsKept volume 2 both volume-IsCoherent (λ same. runs_of_two)

-- a wrapped device in memory
abbrev wrapped : SdDevice
wrapped = record {
  State = ℕ → List ℕ;
  read = λ block blocks s. (some (laid s block blocks), s);
  write = λ block from s. (true, s);
  num_blocks = λ s. (some 100, s);
}

wrapped-SdServesReads : SdServesReads wrapped 2 100 (λ s. s)
wrapped-SdServesReads = record { served = λ s block blocks fits inside. (s, refl, (λ i. refl)) }

bridged-laid_example :
    (t : ℕ → List ℕ) × ((bridged wrapped 2).read 3 5 sevens ≡ (some (laid sevens 3 5), t))
    × ((i : ℕ) → t i ≡ sevens i)
bridged-laid_example =
    bridged-laid wrapped 2 100 (λ s. s) wrapped-SdServesReads (omega arith) (omega arith) sevens 3 5
      (omega arith)
