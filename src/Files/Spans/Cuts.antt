-- ===== src/Files/Spans/Cuts.antt =====
-- The three parts of a span of src/file.rs, cut from the blocks that it touches.
use resident_fat.Prelude.{
  ℕ, zero, suc, ◌+◌, ◌-◌, ◌*◌, ◌≤◌, ◌<◌, ◌≡◌, refl, sym, ap, ◌∙◌, ◌==◌, List, take, drop, take-all,
  arith, if◌then◌else◌,
}
use resident_fat.Boot.{block_size}
use resident_fat.Volume.Transfers.{laid}
use resident_fat.Files.Spans.{head_bytes, block_after}
use resident_fat.Files.Spans.Yielded.{IsWhole, length-laid, laid-cut, laid-cut_first}

-- how many blocks the part in front takes
abbrev pub blocks_before : ℕ → ℕ
blocks_before skip = if skip == 0 then 0 else 1

-- Past the part in front, the next byte begins a block.
pub begins_block :
    (skip n : ℕ)
    → skip < block_size
    → 1 ≤ n - head_bytes skip n
    → skip + head_bytes skip n ≡ blocks_before skip * block_size
begins_block skip n inside more = ground (arith, inside, more)

pub block_after-eq : (first skip : ℕ) → block_after first skip ≡ first + blocks_before skip
block_after-eq first skip = ground arith

module _ (content : ℕ → List ℕ) (whole : IsWhole content) (skip n blocks first : ℕ)
    (inside : skip < block_size) (fits : skip + n ≤ blocks * block_size) where
  pub head-cut :
      1 ≤ skip
      → take (head_bytes skip n) (drop skip (laid content first 1))
        ≡ take (head_bytes skip n) (drop skip (laid content first blocks))
  head-cut some =
      let few : skip + head_bytes skip n ≤ 1 * block_size = ground (arith, inside) in
      sym (
        laid-cut_first content whole first 1 blocks skip (head_bytes skip n)
          (omega (arith, some, fits)) few)

  pub middle-cut :
      (w : ℕ)
      → w * block_size ≤ n - head_bytes skip n
      → laid content (first + blocks_before skip) w
        ≡ take (w * block_size) (drop (skip + head_bytes skip n) (laid content first blocks))
  middle-cut zero few = refl
  middle-cut (suc w) few =
      let place : skip + head_bytes skip n ≡ blocks_before skip * block_size + 0 =
        begins_block skip n inside (omega (arith, few)) ∙ omega arith in
      sym (
        ap (λ s. take (suc w * block_size) (drop s (laid content first blocks))) place
        ∙ laid-cut content whole first (blocks_before skip) (suc w) blocks 0 (suc w * block_size)
            (omega (arith, place, few, fits)) (omega arith)
        ∙ take-all (suc w * block_size) (laid content (first + blocks_before skip) (suc w))
            (length-laid content whole (first + blocks_before skip) (suc w)))

  pub tail-cut :
      (w r : ℕ)
      → 1 ≤ r
      → r ≤ block_size
      → w * block_size + r ≤ n - head_bytes skip n
      → take r (drop 0 (laid content (first + (blocks_before skip + w)) 1))
        ≡ take r (drop (skip + head_bytes skip n + w * block_size) (laid content first blocks))
  tail-cut w r some short few =
      let place : skip + head_bytes skip n + w * block_size
          ≡ (blocks_before skip + w) * block_size + 0 =
        let begin = begins_block skip n inside (omega (arith, few, some)) in omega (arith, begin) in
      sym (
        ap (λ s. take r (drop s (laid content first blocks))) place
        ∙ laid-cut content whole first (blocks_before skip + w) 1 blocks 0 r
            (omega (arith, place, few, fits, some)) (omega (arith, short)))
