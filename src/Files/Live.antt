-- ===== src/Files/Live.antt =====
-- Which handles `check_live` of src/file.rs lets through, and which it refuses.
use resident_fat.Prelude.{◌≡◌, refl, true, ◌==◌, ==_iff, some}
use resident_fat.Text.{same_text}
use resident_fat.Dir.Entry.{DirEntry}
use resident_fat.Dir.Parse.{Directory, entry_in_slot}
use resident_fat.Errors.{done}
use resident_fat.Volume.{BlockDevice, Host, FileSystem}
use resident_fat.Volume.Reading.{find, read_dir}
use resident_fat.Volume.Entries.{generation}
use resident_fat.Files.{File, check_live}

-- The directory of the handle is resident, and the slot is still that of the file.
pub record IsLive (d : BlockDevice) (v : FileSystem d) (file : File) : Type 0 where
  pub directory : Directory
  pub entry : DirEntry
  pub resident : find v.directories file.directory ≡ some directory
  pub in_slot : entry_in_slot directory file.index ≡ some entry
  pub same_name : same_text entry.short_name.raw file.short_name.raw ≡ true
  pub same_generation : generation v file.directory file.index ≡ file.generation

module _ (d : BlockDevice) (host : Host) where
  pub check_live-IsLive :
      (v : FileSystem d) (file : File) → IsLive d v file → check_live host file v ≡ (done tt, v)
  unfolding check_live read_dir
  check_live-IsLive v file live =
      let same : (generation v file.directory file.index == file.generation) ≡ true =
        (==_iff _ _).1 live.same_generation in
      rw (same, read_dir, live.resident, live.in_slot, live.same_name) refl
