-- ===== src/Files/Chains/FileRead.antt =====
-- `read_at` of src/file.rs against the bytes of the clusters of the file.
use resident_fat.Prelude.{
  ℕ, suc, ◌+◌, ◌-◌, ◌*◌, ◌%◌, ◌^◌, min, ◌≤◌, ◌<◌, ◌≡◌, inl, inr, refl, sym, ap, ap₂, subst, ◌∙◌,
  Bool-cases, leb, ◌||◌, true, false, ◌==◌, ==_iff, if◌then◌else◌, List, [], take, drop, arith,
}
use resident_fat.Boot.{block_size, cluster_bytes}
use resident_fat.Errors.{Result, done, failed, from_fat}
use resident_fat.Fat.Table.{Run, Outcome, ok, err, panic, stuck, bad_cluster, is_valid_cluster}
use resident_fat.Fat.Runs.{walk, runs, total_clusters}
use resident_fat.Fat.Invariant.{IsWellFormed}
use resident_fat.Fat.Chain.Walk.{walk_invalid}
use resident_fat.Fat.Chain.InOrder.{AreInOrder, WhenFound, runs-InOrder}
use resident_fat.Volume.{BlockDevice, Host, FileSystem, RunCache}
use resident_fat.Volume.Reading.{take_runs}
use resident_fat.Volume.Cached.{IsCoherent, take_runs-LeavesCoherent, keep_runs-LeavesCoherent}
use resident_fat.Volume.Transfers.{ServesReads}
use resident_fat.Files.{File}
use resident_fat.Files.Live.{IsLive, check_live-IsLive}
use resident_fat.Files.Spans.Yielded.{IsWhole, Holds}
use resident_fat.Files.Chains.{read_from_runs, read_chain_at, read_at, shorter_chain}
use resident_fat.Files.Chains.ChainRead.{chain_content, AreInside, read_from_runs-Yields}

abbrev IsFound : Outcome (List Run) → Type 0
IsFound (ok rs) = Unit {0}
IsFound (err e) = ⊥
IsFound panic = ⊥
IsFound stuck = ⊥

module _ (d : BlockDevice) (end : ℕ) (contents : d.State → ℕ → List ℕ) (content : ℕ → List ℕ)
    (serves : ServesReads d end contents) (small : end < 2 ^ 64) (whole : IsWhole content) where
  -- An outcome: this result, with the device changed at most where it holds the same bytes, and
  -- only the kept chains changed besides, which still say what the table says.
  abbrev pub Reads : {A : Type 0} → FileSystem d → Result A → Result A × FileSystem d → Type 0
  Reads v a r =
      (t : d.State) × (cache : RunCache) × (r ≡ (a, record v { device = t; run_cache = cache }))
      × ((i : ℕ) → contents t i ≡ content i)
      × IsCoherent d (record v { run_cache = cache })

  -- what is left of a read once the bytes are there
  abbrev checked_read : File → List ℕ × ℕ → Result (List ℕ)
  checked_read file got =
      if got.1 == 0 then done got.0 else failed (shorter_chain file.first_cluster file.size)

  module _ (v : FileSystem d) (file : File) (rs : List Run) (held : Holds d end contents content v)
      (coherent : IsCoherent d v) (formed : IsWellFormed v.fat)
      (chain : runs v.fat file.first_cluster ≡ ok rs)
      (aligned : cluster_bytes v.boot % block_size ≡ 0)
      (inside : AreInside end v.boot v.first_block rs) where
    order : AreInOrder 0 rs
    order = subst (WhenFound (AreInOrder 0)) chain (runs-InOrder v.fat formed file.first_cluster)

    -- the bytes that a read finds, and how many it lacks
    abbrev found_bytes : ℕ → ℕ → List ℕ × ℕ
    found_bytes offset wanted = (
      take wanted (drop offset (chain_content content v.boot v.first_block rs)),
      wanted - (total_clusters rs * cluster_bytes v.boot - offset),
    )

    read_chain_at-Reads :
        (offset wanted : ℕ)
        → Reads v
            (checked_read file (found_bytes offset wanted))
            (read_chain_at file offset wanted v)
    unfolding read_chain_at IsCoherent
    read_chain_at-Reads offset wanted =
        let (cache, taken, kept) = take_runs-LeavesCoherent v file.first_cluster coherent in
        let v' : FileSystem d = record v { run_cache = cache } in
        let taken' : take_runs file.first_cluster v ≡ (done rs, v') =
          taken ∙ ap (λ r. (from_fat r, v')) chain in
        let (t, read, same) =
          read_from_runs-Yields d end contents content serves small whole v.boot aligned rs 0 offset
            wanted v' held order inside (omega arith) in
        let start : offset - 0 * cluster_bytes v.boot ≡ offset = omega arith in
        let all : 0 + total_clusters rs ≡ total_clusters rs = omega arith in
        let w : FileSystem d = record v { device = t; run_cache = cache } in
        let read' : read_from_runs v.boot rs offset wanted v'
            ≡ (done (found_bytes offset wanted), w) =
          read
          ∙ ap₂
              (λ at n. (
                done (
                  take wanted (drop at (chain_content content v.boot v.first_block rs)),
                  wanted - (n * cluster_bytes v.boot - offset),
                ),
                w,
              ))
              start all in
        let (after, put, still) = keep_runs-LeavesCoherent w file.first_cluster rs kept chain in
        elim (Bool-cases ((found_bytes offset wanted).1 == 0)) [
          | inl e ↦ (t, after, rw (taken', read', put, e) refl, same, still)
          | inr e ↦ (t, after, rw (taken', read', put, e) refl, same, still)
        ]

    begins_somewhere : (file.first_cluster == 0) ≡ false
    unfolding runs is_valid_cluster
    begins_somewhere = elim (Bool-cases (file.first_cluster == 0)) [
      | inr e ↦ e
      | inl e ↦
          let nowhere : file.first_cluster ≡ 0 = (==_iff _ _).0 e in
          let rounds : v.fat.cluster_count + 2 ≡ suc (v.fat.cluster_count + 1) = omega arith in
          let refused : runs v.fat file.first_cluster ≡ err (bad_cluster 0) =
            ap (runs v.fat) nowhere
            ∙ ap (λ m. walk m v.fat 0 0 0 []) rounds
            ∙ walk_invalid v.fat formed 0 (v.fat.cluster_count + 1) 0 0 [] refl in
          absurd (subst IsFound (sym chain ∙ refused) tt)
    ]

    read_at-checked :
        (host : Host) (offset n : ℕ)
        → IsLive d v file
        → Reads v
            (checked_read file (found_bytes offset (min n (file.size - offset))))
            (read_at host file offset n v)
    unfolding read_at
    read_at-checked host offset n live = elim (Bool-cases (leb file.size offset || n == 0)) [
      | inl e ↦
          let nothing : min n (file.size - offset) ≡ 0 = ground (arith, e) in
          let none_lacks : 0 - (total_clusters rs * cluster_bytes v.boot - offset) ≡ 0 =
            omega arith in
          rw (e, nothing, none_lacks) (v.device, v.run_cache, refl, held, coherent)
      | inr e ↦
          let (t, cache, read, same, kept) =
            read_chain_at-Reads offset (min n (file.size - offset)) in
          (
            t,
            cache,
            rw (e, check_live-IsLive d host v file live, begins_somewhere) read,
            same,
            kept,
          )
    ]

    -- A read through a live handle of a file whose chain has clusters for its length, on a device
    -- that serves reads, succeeds for every offset and number of bytes: with the bytes from the
    -- offset on of the file's clusters, put together in the order of the chain, as many as were
    -- asked for but none past the length of the file. The runs of the chain lie on the device, and
    -- the kept chains say what the table says, before and after.
    pub read_at-Reads :
        (host : Host) (offset n : ℕ)
        → IsLive d v file
        → file.size ≤ total_clusters rs * cluster_bytes v.boot
        → Reads v
            (done (
              take
                (min n (file.size - offset))
                (drop offset (chain_content content v.boot v.first_block rs))))
            (read_at host file offset n v)
    read_at-Reads host offset n live enough =
        let (t, cache, read, same, kept) = read_at-checked host offset n live in
        let whole_read : min n (file.size - offset)
              - (total_clusters rs * cluster_bytes v.boot - offset)
            ≡ 0 =
          omega (arith, enough) in
        let full : (min n (file.size - offset) - (total_clusters rs * cluster_bytes v.boot - offset)
              == 0)
            ≡ true =
          (==_iff _ _).1 whole_read in
        (t, cache, read ∙ rw full refl, same, kept)

    -- A read through a live handle of at least one byte, that begins inside the file's length
    -- and asks for a byte of the file past the last cluster of its chain, fails with
    -- `ChainShorterThanFile` with the first cluster and the length of the file, where the runs
    -- of the chain lie on the device, which serves reads, and the kept chains say what the
    -- table says; afterwards the device holds what it held, and the kept chains say what the
    -- table says again.
    pub read_at-short :
        (host : Host) (offset n : ℕ)
        → IsLive d v file
        → offset < file.size
        → total_clusters rs * cluster_bytes v.boot < offset + min n (file.size - offset)
        → 1 ≤ n
        → Reads v
            (failed (shorter_chain file.first_cluster file.size))
            (read_at host file offset n v)
    read_at-short host offset n live before past some =
        let (t, cache, read, same, kept) = read_at-checked host offset n live in
        let lacking : (min n (file.size - offset)
                - (total_clusters rs * cluster_bytes v.boot - offset)
              == 0)
            ≡ false =
          ground (arith, before, past, some) in
        (t, cache, read ∙ rw lacking refl, same, kept)
