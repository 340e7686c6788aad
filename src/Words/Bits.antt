-- ===== src/Words/Bits.antt =====
-- Fields packed into a word: `|` of two numbers that share no binary digit, and their sum.
use Prim.Native.Nat.{max, digits, bit_or, bit_or-bitwise}
use resident_fat.Prelude.{
  Bool, true, ◌&&◌, ◌==◌, ==_iff, refl, ℕ, zero, suc, ◌+◌, ◌*◌, ◌/◌, ◌%◌, ◌^◌, ◌≤◌, ◌<◌, ◌≡◌, arith,
}

abbrev or_digits : ℕ → ℕ → ℕ → ℕ
or_digits n a b = digits (λ y. y) max n a b

half_power : (k q a : ℕ) → a ≡ q * 2 ^ suc k → (a / 2 ≡ q * 2 ^ k) × (a % 2 ≡ 0)
half_power k q a e = let twice : q * 2 ^ suc k ≡ q * 2 ^ k * 2 = grind arith in omega (arith, twice)

or_digits-add : (n k q a b : ℕ) → a ≤ n → a ≡ q * 2 ^ k → b < 2 ^ k → or_digits n a b ≡ a + b
or_digits-add zero k q a b h e small = omega arith
or_digits-add (suc n) k q zero b h e small = omega arith
or_digits-add (suc n) zero q (suc a) b h e small = omega (
  arith,
  or_digits-add n zero (suc a / 2) (suc a / 2) (b / 2) (omega arith) (omega arith) (omega arith),
)
or_digits-add (suc n) (suc k) q (suc a) b h e small =
    let halves = half_power k q (suc a) e in
    omega (
      arith,
      or_digits-add n k q (suc a / 2) (b / 2) (omega arith) halves.0 (omega arith),
      halves.1,
    )

pub bit_or-add : (k q a b : ℕ) → a ≡ q * 2 ^ k → b < 2 ^ k → bit_or a b ≡ a + b
bit_or-add k q a b e small = simp bit_or-bitwise (or_digits-add a k q a b (omega arith) e small)

-- The test at each number below a bound, by evaluation.
every_below : ℕ → (ℕ → Bool) → Bool
every_below zero test = true
every_below (suc n) test = every_below n test && test n

every_below_lem :
    (n : ℕ) (test : ℕ → Bool) (x : ℕ) → every_below n test ≡ true → x < n → test x ≡ true
unfolding every_below
every_below_lem zero test x h small = absurd (omega arith)
every_below_lem (suc n) test x h small = ground (arith, every_below_lem n test x)

sixth_bit : every_below 64 (λ x. bit_or x 0x40 == x + 0x40) ≡ true
unfolding every_below
sixth_bit = refl

pub bit_or-sixth : (x : ℕ) → x < 64 → bit_or x 0x40 ≡ x + 0x40
bit_or-sixth x h = (==_iff _ _).0 (every_below_lem 64 _ x sixth_bit h)

pub bit_or-one : (x : ℕ) → bit_or x 1 ≡ x / 2 * 2 + 1
bit_or-one zero = refl
bit_or-one (suc x) = simp bit_or-bitwise (
    omega (
      arith,
      or_digits-add x 0 (suc x / 2) (suc x / 2) 0 (omega arith) (omega arith) (omega arith),
    ))

pub bit_or-zero : (x : ℕ) → bit_or x 0 ≡ x
bit_or-zero x = omega (arith, bit_or-add 0 x x 0 (omega arith) (omega arith))
