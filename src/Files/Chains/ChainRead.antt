-- ===== src/Files/Chains/ChainRead.antt =====
-- `read_at` of src/file.rs against the bytes of the clusters of the file.
use native.Mathlib.Nat.{add-mul, mul_assoc}
use resident_fat.Prelude.{
  ℕ, zero, suc, ◌+◌, ◌-◌, ◌*◌, ◌/◌, ◌%◌, ◌^◌, min, ◌≤◌, ◌<◌, ◌≡◌, inl, inr, refl, sym, ap, ap₂,
  subst, ◌∙◌, Bool-cases, leb, ◌==◌, ==_iff, List, [], ◌∷◌, ◌++◌, take, drop, length, take-append,
  take-append_past, drop-append, drop-append_past, take-all, length-drop, arith,
}
use resident_fat.Boot.{BootSector, block_size, cluster_bytes, cluster_sector}
use resident_fat.Errors.{done, pure, ◌>>=◌}
use resident_fat.Fat.Table.{Run}
use resident_fat.Fat.Runs.{total_clusters}
use resident_fat.Volume.{BlockDevice, FileSystem}
use resident_fat.Volume.Transfers.{laid, ServesReads}
use resident_fat.Files.Spans.{read_span}
use resident_fat.Files.Spans.Yielded.{IsWhole, Holds, Yields, then-Yields, laid-cut, length-laid}
use resident_fat.Files.Spans.SpanRead.{read_span-Yields}
use resident_fat.Files.Chains.{read_from_runs, run_end, block_of, byte_in_block}
use resident_fat.Fat.Chain.InOrder.{AreInOrder}

abbrev pub blocks_per_cluster : BootSector → ℕ
blocks_per_cluster boot = cluster_bytes boot / block_size

-- the bytes of the clusters of a run, and of all the runs, on a volume that begins at a block
abbrev pub run_content : (ℕ → List ℕ) → BootSector → ℕ → Run → List ℕ
run_content content boot volume run =
    laid content (volume + cluster_sector boot run.start_cluster)
      (run.clusters * blocks_per_cluster boot)

abbrev pub chain_content : (ℕ → List ℕ) → BootSector → ℕ → List Run → List ℕ
chain_content content boot volume [] = []
chain_content content boot volume (run ∷ rest) =
    run_content content boot volume run ++ chain_content content boot volume rest

-- The clusters of every run lie before a block.
abbrev pub AreInside : ℕ → BootSector → ℕ → List Run → Type 0
AreInside end boot volume [] = Unit {0}
AreInside end boot volume (run ∷ rest) =
    (volume + cluster_sector boot run.start_cluster + run.clusters * blocks_per_cluster boot ≤ end)
    × AreInside end boot volume rest

module _ (d : BlockDevice) (end : ℕ) (contents : d.State → ℕ → List ℕ) (content : ℕ → List ℕ)
    (serves : ServesReads d end contents) (small : end < 2 ^ 64) (whole : IsWhole content) where
  -- a cut of consecutive blocks, from any byte of them on
  read_within-Yields :
      (sector m a n : ℕ) (v : FileSystem d)
      → Holds d end contents content v
      → a + n ≤ m * block_size
      → v.first_block + sector + m ≤ end
      → a < m * block_size
      → Yields d end contents content v
          (take n (drop a (laid content (v.first_block + sector) m)))
          (read_span d (sector + a / block_size) (a % block_size) n v)
  read_within-Yields sector m a n v held fits inside before =
      let j = a / block_size in
      let s = a % block_size in
      let place : v.first_block + (sector + j) ≡ v.first_block + sector + j = omega arith in
      let split : a ≡ j * block_size + s = omega arith in
      subst (λ bytes. Yields d end contents content v bytes (read_span d (sector + j) s n v))
        (ap (λ b. take n (drop s (laid content b (m - j)))) place
          ∙ sym (
              laid-cut content whole (v.first_block + sector) j (m - j) m s n
                (omega (arith, before)) (omega (arith, fits, before)))
          ∙ ap (λ p. take n (drop p (laid content (v.first_block + sector) m))) (sym split))
        (read_span-Yields d end contents content serves small whole (sector + j) s n (m - j) v held
          (omega arith) (omega (arith, fits, before)) (omega (arith, inside, before)))

  module _ (boot : BootSector) (aligned : cluster_bytes boot % block_size ≡ 0) where
    whole_blocks : blocks_per_cluster boot * block_size ≡ cluster_bytes boot
    whole_blocks = omega (arith, aligned)

    length-run_content :
        (volume : ℕ) (run : Run)
        → length (run_content content boot volume run) ≡ run.clusters * cluster_bytes boot
    length-run_content volume run =
        length-laid content whole (volume + cluster_sector boot run.start_cluster)
          (run.clusters * blocks_per_cluster boot)
        ∙ mul_assoc run.clusters (blocks_per_cluster boot) block_size
        ∙ ap (λ b. run.clusters * b) whole_blocks

    take-none : (n m : ℕ) → take n (drop {A = ℕ} m []) ≡ []
    take-none zero zero = refl
    take-none zero (suc m) = refl
    take-none (suc n) zero = refl
    take-none (suc n) (suc m) = refl

    -- The reads of the runs, from the first one on: the bytes that the runs have, and how many they
    -- lack.
    pub read_from_runs-Yields :
        (rs : List Run) (n at left : ℕ) (v : FileSystem d)
        → Holds d end contents content v
        → AreInOrder n rs
        → AreInside end boot v.first_block rs
        → n * cluster_bytes boot ≤ at
        → Yields d end contents content v
            (
              take left (
                  drop (at - n * cluster_bytes boot) (chain_content content boot v.first_block rs)),
              left - ((n + total_clusters rs) * cluster_bytes boot - at),
            )
            (read_from_runs boot rs at left v)
    unfolding read_from_runs
    read_from_runs-Yields [] n at left v held order inside from =
        let alone : n + 0 ≡ n = omega arith in
        let all : left - (n * cluster_bytes boot - at) ≡ left = omega (arith, from) in
        rw (take-none left (at - n * cluster_bytes boot), alone, all) (v.device, refl, held)
    read_from_runs-Yields (run ∷ rest) n at left v held (number, order) (here, inside) from =
        let bytes = cluster_bytes boot in
        let start = run.file_cluster * bytes in
        let len = run.clusters * bytes in
        let rc = run_content content boot v.first_block run in
        let more = chain_content content boot v.first_block rest in
        let part = min (run_end bytes run - at) left in
        let a = at - start in
        let size : length rc ≡ len = length-run_content v.first_block run in
        let same : start ≡ n * bytes = ap (λ x. x * bytes) number in
        let next : (n + run.clusters) * bytes ≡ n * bytes + len = add-mul n run.clusters bytes in
        let after : n + run.clusters + total_clusters rest
            ≡ n + (run.clusters + total_clusters rest) =
          omega arith in
        let finish = (n + (run.clusters + total_clusters rest)) * bytes in
        let finished : n * bytes + len ≤ finish =
          let e = add-mul (n + run.clusters) (total_clusters rest) bytes in
          let e' : finish ≡ (n + run.clusters + total_clusters rest) * bytes =
            ap (λ x. x * bytes) (sym after) in
          omega (arith, e, e', next) in
        let counted : run.clusters * blocks_per_cluster boot * block_size ≡ len =
          mul_assoc run.clusters (blocks_per_cluster boot) block_size
          ∙ ap (λ b. run.clusters * b) whole_blocks in
        let origin : at - n * bytes ≡ a = omega (arith, same) in
        elim (Bool-cases (leb (run_end bytes run) at)) [
          | inl e ↦
              let past : start + len ≤ at = ground (arith, e) in
              let place : at - n * bytes ≡ len + (at - (n + run.clusters) * bytes) =
                omega (arith, past, next, same) in
              let found =
                read_from_runs-Yields rest (n + run.clusters) at left v held order inside
                  (omega (arith, past, next, same)) in
              rw e (
                subst
                  (λ xs.
                    Yields d end contents content v (take left xs, left - (finish - at))
                      (read_from_runs boot rest at left v))
                  (sym (
                    ap (λ p. drop p (rc ++ more)) place
                    ∙ drop-append_past len (at - (n + run.clusters) * bytes) rc more size))
                  (subst
                    (λ m.
                      Yields d end contents content v
                        (
                          take left (drop (at - (n + run.clusters) * bytes) more),
                          left - (m * bytes - at),
                        )
                        (read_from_runs boot rest at left v))
                    after found))
          | inr e ↦
              let before : at < start + len = ground (arith, e) in
              let first =
                read_within-Yields (cluster_sector boot run.start_cluster)
                  (run.clusters * blocks_per_cluster boot) a part v held
                  (omega (arith, counted, before, same, from)) here
                  (omega (arith, counted, before, same, from)) in
              let here_size : length (drop a rc) ≡ len - a =
                omega (arith, length-drop a rc, size) in
              let wanted : drop (at - n * bytes) (rc ++ more) ≡ drop a rc ++ more =
                ap (λ p. drop p (rc ++ more)) origin
                ∙ drop-append a rc more (omega (arith, size, before, same, from)) in
              rw e (elim (Bool-cases (part == left)) [
                | inl all ↦
                    let whole_part : part ≡ left = (==_iff _ _).0 all in
                    let value : take part (drop a rc)
                        ≡ take left (drop (at - n * bytes) (rc ++ more)) =
                      ap (λ m. take m (drop a rc)) whole_part
                      ∙ sym (
                          ap (take left) wanted
                          ∙ take-append left (drop a rc) more
                              (omega (arith, here_size, whole_part, before, same, from))) in
                    let enough : left - (finish - at) ≡ 0 =
                      omega (arith, whole_part, finished, same) in
                    rw (all, enough)
                      (then-Yields d end contents content v
                        (read_span d (block_of boot run at) (byte_in_block bytes run at) part)
                        (λ got. pure (got, 0)) (take part (drop a rc))
                        (take left (drop (at - n * bytes) (rc ++ more)), 0) first
                        (λ t held'.
                          (t, ap (λ xs. (done (xs, 0), record v { device = t })) value, held')))
                | inr some ↦
                    let full : part ≡ len - a = ground (arith, some, before, same, from) in
                    let short : part ≤ left = omega arith in
                    let split : left ≡ part + (left - part) = omega (arith, short) in
                    let none_before : at + part - (n + run.clusters) * bytes ≡ 0 =
                      omega (arith, full, before, same, from, next) in
                    let all : take part (drop a rc) ≡ drop a rc =
                      take-all part (drop a rc) (omega (arith, here_size, full)) in
                    let value : take part (drop a rc)
                          ++ take (left - part) (drop (at + part - (n + run.clusters) * bytes) more)
                        ≡ take left (drop (at - n * bytes) (rc ++ more)) =
                      ap₂ ◌++◌ all (ap (λ p. take (left - part) (drop p more)) none_before)
                      ∙ sym (
                          ap (take left) wanted
                          ∙ ap (λ m. take m (drop a rc ++ more)) split
                          ∙ take-append_past part (left - part) (drop a rc) more
                              (omega (arith, here_size, full))) in
                    let lacking : left - part - (finish - (at + part)) ≡ left - (finish - at) =
                      omega (arith, full, finished, same, before, from) in
                    rw some (
                      then-Yields d end contents content v
                        (read_span d (block_of boot run at) (byte_in_block bytes run at) part)
                        (λ got. read_from_runs boot rest (at + part) (left - part) >>= λ others.
                          pure (got ++ others.0, others.1))
                        (take part (drop a rc))
                        (take left (drop (at - n * bytes) (rc ++ more)), left - (finish - at)) first
                        (λ t held'.
                          then-Yields d end contents content (record v { device = t })
                            (read_from_runs boot rest (at + part) (left - part))
                            (λ others. pure (take part (drop a rc) ++ others.0, others.1))
                            (
                              take (left - part)
                                  (drop (at + part - (n + run.clusters) * bytes) more),
                              left - part - (finish - (at + part)),
                            )
                            (take left (drop (at - n * bytes) (rc ++ more)), left - (finish - at))
                            (subst
                              (λ m.
                                Yields d end contents content (record v { device = t })
                                  (
                                    take (left - part)
                                        (drop (at + part - (n + run.clusters) * bytes) more),
                                    left - part - (m * bytes - (at + part)),
                                  )
                                  (read_from_runs boot rest (at + part) (left - part)
                                    (record v { device = t })))
                              after
                              (read_from_runs-Yields rest (n + run.clusters) (at + part)
                                (left - part) (record v { device = t }) held' order inside
                                (omega (arith, full, before, same, from, next))))
                            (λ t' held''. (
                              t',
                              ap₂ (λ xs m. (done (xs, m), record v { device = t' })) value lacking,
                              held'',
                            ))))
              ])
        ]
