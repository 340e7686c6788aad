-- ===== src/Files/Renaming.antt =====
-- src/file.rs: `rename`, in its four cases.
use resident_fat.Prelude.{
  ℕ, zero, suc, ◌+◌, ◌-◌, Bool, true, false, not, ◌&&◌, ◌||◌, Option, none, some, List, [], ◌∷◌,
  ◌++◌, ltb, ◌==◌, if◌then◌else◌,
}
use resident_fat.Text.{same_text}
use resident_fat.Dir.ShortName.{is_directory}
use resident_fat.Dir.Entry.{DirEntry, rename_entry, take_contents, set_first_cluster}
use resident_fat.Dir.Parse.{entry_in_slot, entry_name}
use resident_fat.Name.Stored.{StoredName, entries_needed}
use resident_fat.Errors.{
  bad_name, not_found, already_exists, move_into_itself, pure, fail, ◌>>=◌, ◌>>◌, gets, or_fail,
}
use resident_fat.Volume.{BlockDevice, Host, Op}
use resident_fat.Volume.Reading.{resolve_dir, read_dir, get_in}
use resident_fat.Volume.Flushing.{flush_fat}
use resident_fat.Volume.Entries.{
  read_slot, edit_entry, write_entries, invalidate_slot, delete_entries, free_slots,
}
use resident_fat.Files.{split_path}
use resident_fat.Files.Creating.{plan_name, plan_name_except, link_to_parent}
use resident_fat.Files.Removing.{is_dots, two_dots, release_file}

pub record Placed : Type 0 where
  pub index : ℕ
  pub first_slot : ℕ
  pub first_cluster : ℕ
  pub is_dir : Bool

abbrev pub placed_at : DirEntry → Placed
placed_at entry = record {
  index = entry.index;
  first_slot = entry.first_slot;
  first_cluster = entry.first_cluster;
  is_dir = is_directory entry.attributes;
}

abbrev pub place_of : Option DirEntry → Option Placed
place_of none = none
place_of (some entry) = some (placed_at entry)

abbrev pub is_reserved_name : List ℕ → Bool
is_reserved_name name = same_text name [] || is_dots name

-- the entry has exactly this name
abbrev pub is_named : List ℕ → Option DirEntry → Bool
is_named name none = false
is_named name (some entry) = same_text (entry_name entry) name

-- `map(..).unwrap_or(0)`
abbrev pub cluster_or_zero : Option DirEntry → ℕ
cluster_or_zero none = 0
cluster_or_zero (some entry) = entry.first_cluster

module _ {d : BlockDevice} where
  unfoldable pub refuse_name : List ℕ → Op d (Unit {0})
  refuse_name name = if is_reserved_name name then fail (bad_name name) else pure tt

  -- the long-name slots, and then the old entry under its new short name
  unfoldable pub renamed_entries : Placed → ℕ → StoredName → Op d (List (List ℕ))
  renamed_entries source from_dir s =
      read_slot from_dir source.index >>= λ short. pure (s.slots ++ rename_entry short s.short ∷ [])

  unfoldable pub replace_file : Placed → ℕ → Placed → ℕ → Op d (Unit {0})
  replace_file source from_dir target to_dir = read_slot from_dir source.index >>= λ contents.
      delete_entries from_dir source.first_slot source.index
      >> invalidate_slot to_dir target.index
      >> edit_entry to_dir target.index (λ entry. take_contents entry contents)
      >> release_file target.first_cluster

  -- the new run of slots, which ends where the old one does
  unfoldable pub rewrite_here : Placed → ℕ → StoredName → Op d (Unit {0})
  rewrite_here source directory s =
      let new_first = source.index + 1 - entries_needed s in
      renamed_entries source directory s >>= λ entries.
      write_entries directory new_first entries
      >> (if ltb source.first_slot new_first
          then delete_entries directory source.first_slot (new_first - 1)
          else pure tt)

  -- `..` of a directory that has a new parent
  unfoldable pub relink_parent : Placed → ℕ → Op d (Unit {0})
  relink_parent source to_dir = gets (link_to_parent to_dir) >>= λ parent.
      edit_entry source.first_cluster 1 (λ entry. set_first_cluster entry parent)

  module _ (host : Host) where
    unfoldable pub write_new_then_delete : Placed → ℕ → ℕ → StoredName → Op d (Unit {0})
    write_new_then_delete source from_dir to_dir s =
        renamed_entries source from_dir s >>= λ entries.
        free_slots host to_dir (entries_needed s) >>= λ first_slot.
        flush_fat
        >> write_entries to_dir first_slot entries
        >> (if source.is_dir && not (to_dir == from_dir)
            then relink_parent source to_dir
            else pure tt)
        >> delete_entries from_dir source.first_slot source.index

    unfoldable pub rename_here : Placed → ℕ → List ℕ → Op d (Unit {0})
    rename_here source directory to_name =
        plan_name_except host directory to_name (some source.index) true >>= λ s.
        if ltb (source.index - source.first_slot + 1) (entries_needed s)
        then plan_name_except host directory to_name (some source.index) false
          >>= write_new_then_delete source directory directory
        else rewrite_here source directory s

    -- so many steps up, of as many as the code allows
    unfoldable pub climb : ℕ → ℕ → ℕ → ℕ → Op d Bool
    climb zero at ancestor root = pure false
    climb (suc steps) at ancestor root =
        if at == ancestor
        then pure true
        else if at == root
        then pure false
        else read_dir host at >>= λ directory. get_in host directory two_dots >>= λ above.
            climb steps (if cluster_or_zero above == 0 then root else cluster_or_zero above)
              ancestor root

    unfoldable pub is_within : ℕ → ℕ → Op d Bool
    is_within directory ancestor v =
        climb (v.fat.cluster_count + 1) directory ancestor v.boot.root_cluster v

    abbrev pub lies_within : Placed → ℕ → Op d Bool
    lies_within source to_dir =
        if source.is_dir then is_within to_dir source.first_cluster else pure false

    unfoldable pub move_to_new_name : Placed → ℕ → ℕ → List ℕ → Op d (Unit {0})
    move_to_new_name source from_dir to_dir to_name = lies_within source to_dir >>= λ inside.
        if inside
        then fail (move_into_itself to_name)
        else plan_name host to_dir to_name >>= write_new_then_delete source from_dir to_dir

    -- the entry itself: a change of case, or none
    unfoldable pub change_case : Placed → ℕ → List ℕ → Op d (Unit {0})
    change_case source directory to_name = read_dir host directory >>= λ parsed.
        if is_named to_name (entry_in_slot parsed source.index)
        then pure tt
        else rename_here source directory to_name

    unfoldable pub rename_over : Placed → ℕ → Option Placed → ℕ → List ℕ → Op d (Unit {0})
    rename_over source from_dir none to_dir to_name =
        if to_dir == from_dir
        then rename_here source from_dir to_name
        else move_to_new_name source from_dir to_dir to_name
    rename_over source from_dir (some target) to_dir to_name =
        if (to_dir == from_dir) && (target.index == source.index)
        then change_case source from_dir to_name
        else if target.is_dir || source.is_dir
        then fail (already_exists to_name)
        else replace_file source from_dir target to_dir

    unfoldable pub rename : List ℕ → List ℕ → Op d (Unit {0})
    rename from to =
        let (from_parent, from_name) = split_path from in
        let (to_parent, to_name) = split_path to in
        refuse_name from_name
        >> refuse_name to_name
        >> (resolve_dir host from_parent >>= λ from_dir. resolve_dir host to_parent >>= λ to_dir.
            read_dir host from_dir >>= λ holding. get_in host holding from_name >>= λ found.
            or_fail (not_found from_name) (place_of found) >>= λ source.
            read_dir host to_dir >>= λ receiving. get_in host receiving to_name >>= λ there.
            rename_over source from_dir (place_of there) to_dir to_name)
