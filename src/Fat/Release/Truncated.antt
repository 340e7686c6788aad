-- ===== src/Fat/Release/Truncated.antt =====
-- The effect of `Fat::truncate_chain` (src/fat.rs) on the chain that it shortens.
use resident_fat.Prelude.{
  ℕ, ◌+◌, ◌≤◌, ◌<◌, ◌≡◌, refl, sym, ap, subst, ◌∙◌, true, false, List, [], ◌∷◌, ◌++◌, some, none,
  arith, leb, ◌==◌, length, length-append, get_or, take, drop, All, NotIn, NotIn-append_right,
  Distinct, Distinct-append_right, Distinct-apart, All-mono,
}
use resident_fat.Words.{u32, high_bits}
use resident_fat.Fat.Table.{Run, Fat, Outcome, ok, masked, end_of_chain_mark}
use resident_fat.Fat.Invariant.{IsWellFormed, IsFree, value}
use resident_fat.Fat.SetEntry.{
  written, set_entry-eq-written, value-written_self, entry-written_ne, free_count-written,
  written-IsWellFormed,
}
use resident_fat.Fat.Runs.{runs, clusters_of, total_clusters}
use resident_fat.Fat.Chain.{
  Linked, Linked-Distinct, Linked-used, Linked-suffix, Linked-ext, Linked-prefix,
}
use resident_fat.Fat.Chain.Walk.{runs_complete, length-Linked}
use resident_fat.Fat.Writes.Marking.{cluster_count-written, Kept, Kept-cons}
use resident_fat.Fat.Release.{Located, locate_runs, free_chain, cut, shorten, truncate_chain}
use resident_fat.Fat.Release.Freed.{Freed, free_chain-Freed}
use resident_fat.Fat.Release.Locate.{
  locate_runs-eq, length-clusters_of, locate_found, Parted, parted,
}

-- The first `keep` clusters of `cs` are a chain, and the others are free.
pub record Truncated (f : Fat) (keep : ℕ) (cs : List ℕ) (result : Outcome (Unit {0}) × Fat)
    : Type 0 where
  pub table : Fat
  pub returns : result ≡ (ok tt, table)
  pub well_formed : IsWellFormed table
  pub same_volume : table.cluster_count ≡ f.cluster_count
  pub chain : Linked table (take keep cs)
  pub tail_free : All (IsFree table) (drop keep cs)
  pub counted : table.free_count ≡ f.free_count + length (drop keep cs)
  pub outside : (d : ℕ) → NotIn d cs → get_or table.entries d 0 ≡ get_or f.entries d 0
  pub reserved :
      (d : ℕ) → high_bits (get_or table.entries d 0) 28 ≡ high_bits (get_or f.entries d 0) 28

pub entries-written :
    (f : Fat) (c v : ℕ) (l : List ℕ)
    → NotIn c l
    → All (λ d. get_or (written c v f).entries d 0 ≡ get_or f.entries d 0) l
entries-written f c v [] h = tt
entries-written f c v (x ∷ xs) h = (entry-written_ne f c v x h.0, entries-written f c v xs h.1)

-- With the chain parted around the cut.
module _ (f : Fat) (w : IsWellFormed f) (xs : List ℕ) (y z : ℕ) (zs : List ℕ)
    (h : Linked f (xs ++ y ∷ z ∷ zs)) where
  distinct : Distinct (xs ++ y ∷ z ∷ zs)
  distinct = Linked-Distinct f w _ h

  from_last : Linked f (y ∷ z ∷ zs)
  from_last = Linked-suffix f w xs y (z ∷ zs) h

  not_later : NotIn y (z ∷ zs)
  not_later = (Distinct-append_right xs (y ∷ z ∷ zs) distinct).0

  abbrev ended_table : Fat
  ended_table = written y end_of_chain_mark f

  ended-IsWellFormed : IsWellFormed ended_table
  ended-IsWellFormed = written-IsWellFormed f w y end_of_chain_mark from_last.0

  tail-Linked : Linked ended_table (z ∷ zs)
  tail-Linked =
      Linked-ext f ended_table (z ∷ zs) (cluster_count-written y end_of_chain_mark f)
        (entries-written f y end_of_chain_mark (z ∷ zs) not_later) from_last.2

  tail-Freed : Freed ended_table (z ∷ zs) 0 (free_chain z ended_table)
  tail-Freed = free_chain-Freed ended_table ended-IsWellFormed z zs tail-Linked

  abbrev cut_table : Fat
  cut_table = tail-Freed.table

  same_count : cut_table.cluster_count ≡ f.cluster_count
  same_count = tail-Freed.kept.same_volume ∙ cluster_count-written y end_of_chain_mark f

  last_value : value cut_table y ≡ masked end_of_chain_mark
  last_value =
      rw (tail-Freed.kept.outside y not_later)
        (value-written_self f w y end_of_chain_mark from_last.0)

  last-Linked : Linked cut_table (y ∷ [])
  last-Linked = (omega (arith, same_count, from_last.0), omega (arith, last_value))

  outside_tail :
      (d : ℕ) → NotIn d (y ∷ z ∷ zs) → get_or cut_table.entries d 0 ≡ get_or f.entries d 0
  outside_tail d n =
      tail-Freed.kept.outside d n.1 ∙ entry-written_ne f y end_of_chain_mark d (λ e. n.0 (sym e))

  kept-Linked : Linked cut_table (xs ++ y ∷ [])
  kept-Linked =
      Linked-prefix f cut_table xs y (z ∷ zs) [] same_count
        (All-mono (λ d. NotIn d (y ∷ z ∷ zs))
          (λ d. get_or cut_table.entries d 0 ≡ get_or f.entries d 0) xs outside_tail
          (Distinct-apart xs (y ∷ z ∷ zs) distinct))
        h last-Linked

  cut_counted : cut_table.free_count ≡ f.free_count + length (z ∷ zs)
  cut_counted =
      let used = Linked-used f (y ∷ z ∷ zs) from_last in
      ground
        (arith, used.0, tail-Freed.counted, free_count-written f w y end_of_chain_mark from_last.0)

  cut-Kept : Kept f cut_table (y ∷ z ∷ zs)
  cut-Kept = Kept-cons f cut_table w y end_of_chain_mark from_last.0 (z ∷ zs) tail-Freed.kept

  cut-eq : (s : Located) → s.last ≡ y → s.first_freed ≡ some z → cut s f ≡ (ok tt, cut_table)
  unfolding cut
  cut-eq s e e' =
      rw (e, e', set_entry-eq-written f w y end_of_chain_mark from_last.0, tail-Freed.returns) refl

module _ (f : Fat) (w : IsWellFormed f) (start : ℕ) (cs : List ℕ) (h : Linked f (start ∷ cs))
    (keep : ℕ) where
  module _ (rs : List Run) (e : runs f start ≡ ok rs) (covers : clusters_of rs ≡ start ∷ cs) where
    total : u32 (total_clusters rs) ≡ length (start ∷ cs)
    total = omega (
      arith,
      length-clusters_of rs,
      ap length covers,
      length-Linked f w start (start ∷ cs) h,
      w.small,
    )

    abbrev from_start : Located
    from_start = record { walked = 0; last = start; first_freed = none }

    located :
        (p : Parted keep (start ∷ cs))
        → ((locate_runs keep rs from_start).last ≡ p.last)
          × ((locate_runs keep rs from_start).first_freed ≡ some p.next)
    located p =
        let sizes = ap length p.whole in
        rw (locate_runs-eq keep rs from_start, covers, p.whole)
          (locate_found keep p.front p.last p.next p.rest from_start (omega (arith, p.size)) (
            omega (
              arith,
              p.size,
              sizes,
              length-append p.front (p.last ∷ p.next ∷ p.rest),
              length-Linked f w start (start ∷ cs) h,
              w.small,
            )))

    truncate_chain-eq :
        (p : Parted keep (start ∷ cs)) (h' : Linked f (p.front ++ p.last ∷ p.next ∷ p.rest))
        → 0 < keep
        → keep < length (start ∷ cs)
        → truncate_chain start keep f ≡ (ok tt, cut_table f w p.front p.last p.next p.rest h')
    unfolding truncate_chain shorten
    truncate_chain-eq p h' positive shorter =
        let nonzero : (keep == 0) ≡ false = ground arith in
        let past : leb (u32 (total_clusters rs)) keep ≡ false = rw total (ground arith) in
        let (at_last, at_next) = located p in
        rw (nonzero, e, past) (cut-eq f w p.front p.last p.next p.rest h' _ at_last at_next)

    truncate_chain_unchanged : length (start ∷ cs) ≤ keep → truncate_chain start keep f ≡ (ok tt, f)
    unfolding truncate_chain shorten
    truncate_chain_unchanged long =
        let nonzero : (keep == 0) ≡ false = ground arith in
        let within : leb (u32 (total_clusters rs)) keep ≡ true = rw total (ground arith) in
        rw (nonzero, e, within) refl

  -- Truncating to at least as many clusters as there are changes nothing.
  pub truncate_chain_long : length (start ∷ cs) ≤ keep → truncate_chain start keep f ≡ (ok tt, f)
  truncate_chain_long long =
      let (rs, e, covers, _) = runs_complete f w start cs h in
      truncate_chain_unchanged rs e covers long

  -- Truncating to fewer clusters than there are, but not to none.
  pub truncate_chain-Truncated :
      0 < keep
      → keep < length (start ∷ cs)
      → Truncated f keep (start ∷ cs) (truncate_chain start keep f)
  truncate_chain-Truncated positive shorter =
      let p = parted keep (start ∷ cs) positive shorter in
      let h' = subst (Linked f) p.whole h in
      let (rs, e, covers, b) = runs_complete f w start cs h in
      record {
        table = cut_table f w p.front p.last p.next p.rest h';
        returns = truncate_chain-eq rs e covers p h' positive shorter;
        well_formed = (cut-Kept f w p.front p.last p.next p.rest h').well_formed;
        same_volume = same_count f w p.front p.last p.next p.rest h';
        chain = rw p.kept (kept-Linked f w p.front p.last p.next p.rest h');
        tail_free = rw p.freed (tail-Freed f w p.front p.last p.next p.rest h').all_free;
        counted = rw p.freed (cut_counted f w p.front p.last p.next p.rest h');
        outside = λ d n.
            outside_tail f w p.front p.last p.next p.rest h' d
              (NotIn-append_right d p.front (p.last ∷ p.next ∷ p.rest) (subst (NotIn d) p.whole n));
        reserved = (cut-Kept f w p.front p.last p.next p.rest h').reserved;
      }
