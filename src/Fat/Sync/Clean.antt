-- ===== src/Fat/Sync/Clean.antt =====
-- The flags of changed sectors (src/fat.rs) and the bytes of the table on the device.
use resident_fat.Prelude.{
  ℕ, zero, suc, ◌+◌, ◌*◌, ◌/◌, ◌^◌, ◌≤◌, ◌<◌, ◌≡◌, ◌≢◌, refl, sym, ◌∙◌, true, false, List, length,
  get_or, set, length-set, get_or-set_self, get_or-set_ne, arith, Bool-cases, inl, inr, ◌==◌,
  replicate, ==_iff, subst,
}
use resident_fat.Words.{u32}
use resident_fat.Fat.Table.{Fat, ok, is_valid_cluster, set_entry}
use resident_fat.Fat.Invariant.{
  IsWellFormed, IsCluster, is_valid_cluster_sound, is_valid_cluster_iff_true,
}
use resident_fat.Fat.SetEntry.{written, set_entry-eq-written, set_entry_refused}
use resident_fat.Fat.Sync.{entry_bytes, sector_bytes, any_dirty}

-- `device s` are the bytes of sector s of the table on the device. Every sector that holds an entry
-- is flagged or has the bytes that the device has.
pub record IsBacked (device : ℕ → List ℕ) (f : Fat) : Type 0 where
  pub sector : (f.entries_per_sector ≡ 128) × (f.bytes_per_sector ≡ 512)
  pub flags : length f.entries ≤ length f.dirty * 128
  pub clean :
      (s : ℕ)
      → s * 128 < length f.entries
      → get_or f.dirty s false ≡ false
      → sector_bytes s 1 f ≡ ok (device s)

entry_bytes-set :
    (k n s c w : ℕ) (entries : List ℕ)
    → n + k ≤ 128
    → s * 128 + 128 < 2 ^ 32
    → c / 128 ≢ s
    → entry_bytes k n (s * 128) (set entries c w) ≡ entry_bytes k n (s * 128) entries
unfolding entry_bytes
entry_bytes-set zero n s c w entries h small ne = refl
entry_bytes-set (suc k) n s c w entries h small ne = rw (
  get_or-set_ne entries c (u32 (s * 128 + n)) w 0 (λ e. ne (omega arith)),
  entry_bytes-set k (suc n) s c w entries (omega arith) small ne,
)

module _ (device : ℕ → List ℕ) (f : Fat) (w : IsWellFormed f) (b : IsBacked device f) where
  sector_bytes-written :
      (c v s : ℕ)
      → s * 128 < length f.entries
      → c / 128 ≢ s
      → sector_bytes s 1 (written c v f) ≡ sector_bytes s 1 f
  unfolding sector_bytes written
  sector_bytes-written c v s h ne =
      let small : s * 128 + 128 < 2 ^ 32 = omega (arith, w.sized, w.small) in
      let first : u32 (s * 128) ≡ s * 128 = omega arith in
      rw (
        b.sector.0,
        b.sector.1,
        first,
        entry_bytes-set 128 0 s c _ f.entries (omega arith) small ne,
      )

  clean-written :
      (c v s : ℕ)
      → IsCluster f c
      → s * 128 < length f.entries
      → get_or (set f.dirty (c / 128) true) s false ≡ false
      → sector_bytes s 1 (written c v f) ≡ ok (device s)
  clean-written c v s valid h unflagged = elim (Bool-cases (c / 128 == s)) [
    | inl same ↦
        let e : c / 128 ≡ s = (==_iff _ _).0 same in
        let inside : c / 128 < length f.dirty = omega (arith, b.flags, w.sized) in
        let flag : get_or (set f.dirty (c / 128) true) s false ≡ true =
          subst (λ k. get_or (set f.dirty (c / 128) true) k false ≡ true) e
            (get_or-set_self f.dirty (c / 128) true false inside) in
        cc
    | inr other ↦
        let ne : c / 128 ≢ s = ground arith in
        sector_bytes-written c v s h ne
        ∙ b.clean s h (sym (get_or-set_ne f.dirty (c / 128) s true false ne) ∙ unflagged)
  ]

  length-written : (c v : ℕ) → length (written c v f).entries ≡ length f.entries
  unfolding written
  length-written c v = length-set f.entries c _

  dirty-written : (c v : ℕ) → (written c v f).dirty ≡ set f.dirty (c / 128) true
  unfolding written
  dirty-written c v = rw b.sector.0

  sizes-written :
      (c v : ℕ)
      → ((written c v f).entries_per_sector ≡ 128) × ((written c v f).bytes_per_sector ≡ 512)
  unfolding written
  sizes-written c v = b.sector

  written-IsBacked : (c v : ℕ) → IsCluster f c → IsBacked device (written c v f)
  written-IsBacked c v valid = record {
    sector = sizes-written c v;
    flags = rw (length-written c v, dirty-written c v, length-set f.dirty (c / 128) true) b.flags;
    clean = λ s h unflagged.
        clean-written c v s valid (omega (arith, length-written c v))
          (subst (λ l. get_or l s false ≡ false) (dirty-written c v) unflagged);
  }

-- On a well-formed table, whatever cluster and value `set_entry` is called with: where every
-- sector of the table was flagged or had the bytes that the device holds, this is so afterwards.
pub set_entry-IsBacked :
    (device : ℕ → List ℕ) (f : Fat) (c v : ℕ)
    → IsWellFormed f
    → IsBacked device f
    → IsBacked device (set_entry c v f).1
set_entry-IsBacked device f c v w b = elim (Bool-cases (is_valid_cluster f c)) [
  | inl e ↦
      let valid = is_valid_cluster_sound f c w e in
      rw (set_entry-eq-written f w c v valid) (written-IsBacked device f w b c v valid)
  | inr e ↦ rw (set_entry_refused f c v w (λ valid. cc (is_valid_cluster_iff_true f c w valid))) b
]

pub any_dirty-replicate : (n : ℕ) → any_dirty (replicate n false) ≡ false
unfolding any_dirty
any_dirty-replicate zero = refl
any_dirty-replicate (suc n) = any_dirty-replicate n
