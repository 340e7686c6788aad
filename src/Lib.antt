-- ===== src/Lib.antt =====
-- A model of resident-fat, a FAT32 filesystem that keeps the file allocation table in memory.
--
-- Numbers are natural numbers. A machine integer keeps its wrap-around written out (`Words`).
--
-- Timestamps, src/time.rs: Time.antt has `DateTime`, `new`, `pack` and `unpack`; Time/Packing.antt
-- relates them. Fields are joined by the bitwise `|` (Words/Bits.antt).
--
-- The boot sector, src/boot.rs: Boot.antt has `BootSector::parse`, a function for each stage of its
-- checks, `classify_small`, `FsInfo::parse` and the addressing of clusters; Boot/Geometry.antt is
-- about the fields of an accepted sector, Boot/Bounds.antt about where tables, clusters and hints then
-- lie, and Boot/Total.antt about the reads, which are in Bytes.antt. `u32` arithmetic wraps, as it does
-- in a release build. What is accepted becomes the geometry of the table.
--
-- The partition table, src/mbr.rs: Mbr.antt has `PartitionTable::parse` and the accessors;
-- Mbr/Slots.antt and Mbr/Found.antt describe what they return, and Mbr/Reads.antt relates it to
-- the bytes on disk.
--
-- The file allocation table, src/fat.rs:
--   Fat/Table.antt      `Fat`, `Run`, `FatError` (src/error.rs); `is_valid_cluster`, `entry`,
--                       `set_entry`, `mark_dirty`, `next`
--   Fat/Invariant.antt  what a well-formed table is
--   Fat/SetEntry.antt   the effect of one write
--   Fat/Runs.antt       `runs`, `chain_length`; the fuel of the walk is `cluster_count + 2`
--   Fat/Chain.antt      what a chain is; Fat/Chain/Walk.antt relates `runs` to it
--   Fat/Alloc.antt      `allocate`, `find_contiguous`, `find_scattered`; the searches are in
--                       Fat/Alloc/Search.antt and Fat/Alloc/Scatter.antt
--   Fat/Writes.antt     sequences of writes, to which the nested loops over runs come down
--   Fat/Allocate.antt   the effect of `allocate`
--   Fat/Release.antt    `free_chain`, `truncate_chain`, `append`; their effects in its children
--   Fat/Sync.antt       `dirty_runs`, `sector_bytes`, `clear_dirty`, `copy_starts`: what is written
--                       back, related to the device in Fat/Sync/Clean.antt
--   Fat/Load.antt       `load` from a device, which is a parameter; its loop has a round of fuel for
--                       each block and one more, and each round reads a block at least
-- An index out of bounds is the outcome `panic`, and a loop without fuel the outcome `stuck`.
--
-- The counting device, src/counted.rs: Counted.antt has the counters and the wrapped calls,
-- Counted/Since.antt what two snapshots say.
--
-- Directories, src/dir.rs: Dir.antt has the constants, Dir/ShortName.antt attributes and `ShortName`,
-- Dir/LongName.antt `PendingLongName` and `absorb_long_name_slot`, Dir/Entry.antt what writes and edits
-- an entry of 32 bytes and the reading of its fields, which Dir/Written.antt and Dir/Edited.antt relate.
-- Dir/Parse.antt has `Directory::parse`, `get`, `at` and `free_run`; its children are about the
-- rounds of the scan (Steps), the free slots (Free), the refusals (Total), the slots of the entries
-- (Apart), their lookup by slot (InSlot) and what is listed of a name that was stored (LongSlots,
-- Stored). A parse that panics has the outcome `panicked`. The scan and its inner loops recurse on
-- the slots.
--
-- Names, src/name.rs and src/codepage.rs: Name.antt has `long_name_slots`; Name/Slots.antt,
-- Name/Splice.antt and Name/RoundTrip.antt read such slots again. Name/Alias.antt has
-- `long_name_units`, `direct_8_3`, `basis_name` and `with_tail`, Name/Stored.antt has `stored_name`,
-- with its 999999 tails as the bound of the loop; their children say what comes of them. Text is a
-- list of characters (Text.antt).
--
-- How they meet: `stored_name` gives the slots and the short name, `write_entry` the entry after them,
-- and `Directory::parse` lists the two as one entry again.
--
-- Errors, src/error.rs: Errors.antt has `Error`, and actions that may return one. An action is a
-- function of a state to a result and the state afterwards, and keeps what it changed where it fails.
--
-- The volume, src/fs.rs, over a device (src/blockdev.rs) that is an interface:
--   Volume.antt            `FileSystem`; `read_blocks`, `write_blocks`, `mark_dirty`,
--                          `set_dirty_flag`. The loops recurse on the lengths of the chunks, of
--                          which there are at most as many as blocks. Volume/Transfers.antt,
--                          Volume/Writes.antt and Volume/Marked.antt relate them to the blocks of a
--                          device that serves transfers up to a length
--   Volume/Reading.antt    `runs`, `take_runs`, `keep_runs`, `read_run`, `read_chain`, `read_dir`,
--                          `resolve_dir`, `open_dir`, and the directories that are kept. Maps are
--                          lists of pairs in which the first pair of a key counts.
--                          Volume/Cached.antt is about the kept chains
--   Volume/Flushing.antt   `flush_fat`, `write_fs_info`, `sync`, `unmount`; Volume/Copies.antt and
--                          Volume/Flushed.antt are about the copies of the table on the device
--   Volume/Entries.antt    `entry_location`, the edits of slots, generations, `free_slots` with the
--                          code's own bound on growth, `grow_directory`; Volume/Generations.antt says
--                          which operations leave the generations alone
--   Volume/Mounting.antt   `mount` and its variants. The loading of the table asks the device in the
--                          state that it is in then; Volume/Mounting/Bounded.antt is about what
--                          was checked, by going back over the steps (Errors/Inverted.antt)
-- The clock is a sequence of answers and how many were given: the count, `clock_reads`, is the
-- model's, and `write_at` and `truncate` ask the time before they check their handle. The
-- reservation of memory that the code tests for failure is a question to the host.
--
-- Files, src/file.rs. A handle is the record `File`; an operation that changes its handle has the pair
-- of handle and volume as its state:
--   Files.antt             `File`, `split_path`, `open`, `check_live`; Files/Live.antt and
--                          Files/Stale.antt are about handles that are let through or refused
--   Files/Spans.antt       `read_span`, `write_span`: a part in front, whole blocks, the rest; its
--                          children put the parts of a read together
--   Files/Chains.antt      `read_at`, `read_all`, `write_chain`, `zero_range`;
--                          Files/Chains/ChainRead.antt and Files/Chains/FileRead.antt relate reads to
--                          the clusters of the file, whose order is in Fat/Chain/InOrder.antt
--   Files/Growing.antt     `reserve`, `write_at`, `truncate`
--   Files/Creating.antt    `create`, `create_with_size`, `create_dir`, with what they undo on failure
--   Files/Removing.antt    `remove`, `remove_dir`, `write_file`
--   Files/Renaming.antt    `rename` in its cases; the climb to the root has the code's own bound
--
-- The bridge, src/bridge.rs: Bridge.antt has the device that it makes of a wrapped one, which is a
-- parameter; Bridge/Served.antt relates the two.
--
-- Tests.antt holds runs on small inputs and each theorem at an input that meets its hypotheses.
--
-- Not modelled: the device itself, which the crate takes as a trait; the text of error messages
-- and of Debug output; accessors that hand out a field; the civil-date conversions of
-- src/time.rs; what the standard library does of case and UTF-16, which are parameters; what a
-- read that fails, with `ChainShorterThanFile` or with the device's error, had put in the
-- caller's buffer by then; what the device's error carries; the panic of `write_entry` on a
-- buffer of fewer than 32 bytes and the division by zero of `mark_dirty` in a table without
-- entries in a sector, neither of which the callers allow. The writes of src/file.rs and the
-- changes of directories are modelled, and their effect on the device is not stated yet.
pub mod Prelude
pub mod Words
pub mod Text
pub mod Codepage
pub mod Bytes
pub mod Time
pub mod Boot
pub mod Mbr
pub mod Fat
pub mod Counted
pub mod Dir
pub mod Name
pub mod Errors
pub mod Volume
pub mod Files
pub mod Bridge
mod Tests
