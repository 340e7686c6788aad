-- ===== src/Bytes.antt =====
-- Bytes as they are read from a block: a read outside of it is `none`, where the code panics.
use Prim.Native.Nat.{zero, suc}
use resident_fat.Prelude.{
  ℕ, ◌+◌, ◌*◌, ◌^◌, ◌<◌, ◌≡◌, refl, Option, none, some, List, [], ◌∷◌, All, length, get_elem?,
  get_or, arith, get_elem?-eq-get_or,
}

infixl 5 ◌>>=◌
abbrev pub ◌>>=◌ {ℓ κ} : {A : Type ℓ} {B : Type κ} → Option A → (A → Option B) → Option B
none >>= f = none
some a >>= f = f a

pub >>=-some {ℓ κ} :
    {A : Type ℓ} {B : Type κ} (o : Option A) (f : A → Option B) (b : B)
    → (o >>= f) ≡ some b
    → (a : A) × (o ≡ some a) × (f a ≡ some b)
>>=-some none f b h = cc
>>=-some (some a) f b h = (a, refl, h)

unfoldable pub read_u8 : List ℕ → ℕ → Option ℕ
read_u8 block at = get_elem? block at

unfoldable pub read_u16 : List ℕ → ℕ → Option ℕ
unfolding read_u8
read_u16 block at = do a ← read_u8 block at; b ← read_u8 block (at + 1); some (a + b * 2 ^ 8)

unfoldable pub read_u32 : List ℕ → ℕ → Option ℕ
unfolding read_u8
read_u32 block at = do
  a ← read_u8 block at
  b ← read_u8 block (at + 1)
  c ← read_u8 block (at + 2)
  d ← read_u8 block (at + 3)
  some (a + b * 2 ^ 8 + c * 2 ^ 16 + d * 2 ^ 24)

abbrev pub AreBytes : List ℕ → Type 0
AreBytes block = All (λ b. b < 2 ^ 8) block

-- The bytes of a block, by position.
abbrev pub byte : List ℕ → ℕ → ℕ
byte block at = get_or block at 0

abbrev pub word : List ℕ → ℕ → ℕ
word block at = byte block at + byte block (at + 1) * 2 ^ 8

abbrev pub long : List ℕ → ℕ → ℕ
long block at =
    byte block at
    + byte block (at + 1) * 2 ^ 8
    + byte block (at + 2) * 2 ^ 16
    + byte block (at + 3) * 2 ^ 24

pub byte-lt : (block : List ℕ) (at : ℕ) → AreBytes block → byte block at < 2 ^ 8
byte-lt [] at h = omega arith
byte-lt (x ∷ xs) zero h = h.0
byte-lt (x ∷ xs) (suc at) h = byte-lt xs at h.1

module _ (block : List ℕ) (at : ℕ) where
  pub read_u8-some : at < length block → read_u8 block at ≡ some (byte block at)
  unfolding read_u8
  read_u8-some h = get_elem?-eq-get_or block at 0 h

  pub read_u16-some : at + 1 < length block → read_u16 block at ≡ some (word block at)
  unfolding read_u16
  read_u16-some h =
      rw (get_elem?-eq-get_or block at 0 (omega arith), get_elem?-eq-get_or block (at + 1) 0 h)

  pub read_u32-some : at + 3 < length block → read_u32 block at ≡ some (long block at)
  unfolding read_u32
  read_u32-some h = rw (
    get_elem?-eq-get_or block at 0 (omega arith),
    get_elem?-eq-get_or block (at + 1) 0 (omega arith),
    get_elem?-eq-get_or block (at + 2) 0 (omega arith),
    get_elem?-eq-get_or block (at + 3) 0 h,
  )

  pub word-lt : AreBytes block → word block at < 2 ^ 16
  word-lt h = omega (arith, byte-lt block at h, byte-lt block (at + 1) h)

  pub long-lt : AreBytes block → long block at < 2 ^ 32
  long-lt h = omega (
    arith,
    byte-lt block at h,
    byte-lt block (at + 1) h,
    byte-lt block (at + 2) h,
    byte-lt block (at + 3) h,
  )
