-- ===== src/Prelude/Numbers.antt =====
-- Lists of numbers as the sets of clusters or sectors that they name.
use Prim.Native.Nat.{ℕ, zero, suc, ◌+◌, ◌≤◌, ◌<◌}
use mathlib.Core.Path.{◌≡◌, refl, sym, ap, subst}
use mathlib.Core.Logic.{◌≢◌, ◌⊎◌, inl, inr}
use mathlib.Core.List.{List, [], ◌∷◌, ◌++◌}
use native.Mathlib.Omega.{arith}
use resident_fat.Prelude.Tests.{◌==◌, ==_iff, Bool-cases, if◌then◌else◌}
use resident_fat.Prelude.Lists.{length}

abbrev pub All {ℓ κ} : {A : Type ℓ} → (A → Type κ) → List A → Type κ
All P [] = Unit
All P (x ∷ xs) = P x × All P xs

abbrev pub NotIn : ℕ → List ℕ → Type 0
NotIn x [] = Unit
NotIn x (y ∷ ys) = (x ≢ y) × NotIn x ys

abbrev pub Distinct : List ℕ → Type 0
Distinct [] = Unit
Distinct (x ∷ xs) = NotIn x xs × Distinct xs

-- start, start + 1, …, as many as the second number says
abbrev pub range_from : ℕ → ℕ → List ℕ
range_from s zero = []
range_from s (suc n) = s ∷ range_from (suc s) n

pub All-append {ℓ κ} :
    {A : Type ℓ} (P : A → Type κ) (xs ys : List A) → All P xs → All P ys → All P (xs ++ ys)
All-append P [] ys h k = k
All-append P (x ∷ xs) ys h k = (h.0, All-append P xs ys h.1 k)

pub All-mono {ℓ κ μ} :
    {A : Type ℓ} (P : A → Type κ) (Q : A → Type μ) (xs : List A)
    → ((x : A) → P x → Q x)
    → All P xs
    → All Q xs
All-mono P Q [] f h = tt
All-mono P Q (x ∷ xs) f h = (f x h.0, All-mono P Q xs f h.1)

pub NotIn-append : (a : ℕ) (xs ys : List ℕ) → NotIn a xs → NotIn a ys → NotIn a (xs ++ ys)
NotIn-append a [] ys h k = k
NotIn-append a (x ∷ xs) ys h k = (h.0, NotIn-append a xs ys h.1 k)

pub NotIn-append_left : (a : ℕ) (xs ys : List ℕ) → NotIn a (xs ++ ys) → NotIn a xs
NotIn-append_left a [] ys h = tt
NotIn-append_left a (x ∷ xs) ys h = (h.0, NotIn-append_left a xs ys h.1)

pub NotIn-append_right : (a : ℕ) (xs ys : List ℕ) → NotIn a (xs ++ ys) → NotIn a ys
NotIn-append_right a [] ys h = h
NotIn-append_right a (x ∷ xs) ys h = NotIn-append_right a xs ys h.1

-- Everything in the list lies below `a`.
pub NotIn-above : (a : ℕ) (xs : List ℕ) → All (λ x. x < a) xs → NotIn a xs
NotIn-above a [] h = tt
NotIn-above a (x ∷ xs) h = (omega arith, NotIn-above a xs h.1)

pub NotIn-below : (a : ℕ) (xs : List ℕ) → All (λ x. a < x) xs → NotIn a xs
NotIn-below a [] h = tt
NotIn-below a (x ∷ xs) h = (omega arith, NotIn-below a xs h.1)

pub Distinct-snoc : (xs : List ℕ) (a : ℕ) → Distinct xs → NotIn a xs → Distinct (xs ++ a ∷ [])
Distinct-snoc [] a h k = (tt, tt)
Distinct-snoc (x ∷ xs) a h k =
    (NotIn-append x xs (a ∷ []) h.0 (λ e. k.0 (sym e), tt), Distinct-snoc xs a h.1 k.1)

-- the list without the occurrences of `a`
abbrev remove_all : ℕ → List ℕ → List ℕ
remove_all a [] = []
remove_all a (x ∷ xs) = let rest = remove_all a xs in if x == a then rest else x ∷ rest

remove_all-NotIn : (a : ℕ) (xs : List ℕ) → NotIn a xs → length (remove_all a xs) ≡ length xs
remove_all-NotIn a [] h = refl
remove_all-NotIn a (x ∷ xs) h = ground (arith, remove_all-NotIn a xs h.1)

length-remove_all : (a : ℕ) (xs : List ℕ) → Distinct xs → length xs ≤ length (remove_all a xs) + 1
length-remove_all a [] d = omega arith
length-remove_all a (x ∷ xs) d = elim (Bool-cases (x == a)) [
  | inl e ↦
      rw e (omega (arith, remove_all-NotIn a xs (subst (λ z. NotIn z xs) ((==_iff x a).0 e) d.0)))
  | inr e ↦ rw e (omega (arith, length-remove_all a xs d.1))
]

NotIn-remove_all : (a x : ℕ) (xs : List ℕ) → NotIn x xs → NotIn x (remove_all a xs)
NotIn-remove_all a x [] h = tt
NotIn-remove_all a x (y ∷ ys) h = elim (Bool-cases (y == a)) [
  | inl e ↦ rw e (NotIn-remove_all a x ys h.1)
  | inr e ↦ rw e (h.0, NotIn-remove_all a x ys h.1)
]

Distinct-remove_all : (a : ℕ) (xs : List ℕ) → Distinct xs → Distinct (remove_all a xs)
Distinct-remove_all a [] h = tt
Distinct-remove_all a (y ∷ ys) h = elim (Bool-cases (y == a)) [
  | inl e ↦ rw e (Distinct-remove_all a ys h.1)
  | inr e ↦ rw e (NotIn-remove_all a y ys h.0, Distinct-remove_all a ys h.1)
]

All-remove_all :
    (n s : ℕ) (xs : List ℕ)
    → All (λ x. (s ≤ x) × (x < s + suc n)) xs
    → All (λ x. (s ≤ x) × (x < s + n)) (remove_all (s + n) xs)
All-remove_all n s [] h = tt
All-remove_all n s (y ∷ ys) h = elim (Bool-cases (y == s + n)) [
  | inl e ↦ rw e (All-remove_all n s ys h.1)
  | inr e ↦ rw e (ground arith, All-remove_all n s ys h.1)
]

-- Pigeonhole: distinct numbers of a range of size `n` are at most `n` many.
pub length-le_range :
    (n s : ℕ) (xs : List ℕ) → Distinct xs → All (λ x. (s ≤ x) × (x < s + n)) xs → length xs ≤ n
length-le_range zero s [] d h = omega arith
length-le_range zero s (x ∷ xs) d h = absurd (omega arith)
length-le_range (suc n) s xs d h = omega (
  arith,
  length-remove_all (s + n) xs d,
  length-le_range n s (remove_all (s + n) xs) (Distinct-remove_all (s + n) xs d)
      (All-remove_all n s xs h),
)

pub Distinct-append :
    (xs ys : List ℕ) (m : ℕ)
    → Distinct xs
    → Distinct ys
    → All (λ x. m ≤ x) xs
    → All (λ y. y < m) ys
    → Distinct (xs ++ ys)
Distinct-append [] ys m d e h k = e
Distinct-append (x ∷ xs) ys m d e h k = (
  NotIn-append x xs ys d.0
      (NotIn-above x ys (All-mono (λ y. y < m) (λ y. y < x) ys (λ y l. omega arith) k)),
  Distinct-append xs ys m d.1 e h.1 k,
)

pub range_from-below : (n s a : ℕ) → a < s → All (λ x. a < x) (range_from s n)
range_from-below zero s a h = tt
range_from-below (suc n) s a h = (h, range_from-below n (suc s) a (omega arith))

pub range_from-Distinct : (n s : ℕ) → Distinct (range_from s n)
range_from-Distinct zero s = tt
range_from-Distinct (suc n) s = (
  NotIn-below s (range_from (suc s) n) (range_from-below n (suc s) s (omega arith)),
  range_from-Distinct n (suc s),
)

pub range_from-inside :
    (n s lo hi : ℕ) → lo ≤ s → s + n ≤ hi → All (λ x. (lo ≤ x) × (x < hi)) (range_from s n)
range_from-inside zero s lo hi h k = tt
range_from-inside (suc n) s lo hi h k =
    (omega arith, range_from-inside n (suc s) lo hi (omega arith) (omega arith))

pub length-range_from : (n s : ℕ) → length (range_from s n) ≡ n
length-range_from zero s = refl
length-range_from (suc n) s = ap suc (length-range_from n (suc s))

pub All-intro {ℓ κ} : {A : Type ℓ} (P : A → Type κ) (xs : List A) → ((x : A) → P x) → All P xs
All-intro P [] h = tt
All-intro P (x ∷ xs) h = (h x, All-intro P xs h)

-- No member of `xs` is a number with a property that excludes that of the members.
pub NotIn-intro :
    (P Q : ℕ → Type 0) (xs : List ℕ) (a : ℕ)
    → ((x : ℕ) → P x → Q x → ⊥)
    → Q a
    → All P xs
    → NotIn a xs
NotIn-intro P Q [] a apart h all = tt
NotIn-intro P Q (x ∷ xs) a apart h all =
    (λ e. apart x all.0 (subst Q e h), NotIn-intro P Q xs a apart h all.1)

pub Distinct-append_left : (xs ys : List ℕ) → Distinct (xs ++ ys) → Distinct xs
Distinct-append_left [] ys d = tt
Distinct-append_left (x ∷ xs) ys d = (NotIn-append_left x xs ys d.0, Distinct-append_left xs ys d.1)

pub Distinct-append_right : (xs ys : List ℕ) → Distinct (xs ++ ys) → Distinct ys
Distinct-append_right [] ys d = d
Distinct-append_right (x ∷ xs) ys d = Distinct-append_right xs ys d.1

pub Distinct-apart : (xs ys : List ℕ) → Distinct (xs ++ ys) → All (λ x. NotIn x ys) xs
Distinct-apart [] ys d = tt
Distinct-apart (x ∷ xs) ys d = (NotIn-append_right x xs ys d.0, Distinct-apart xs ys d.1)

NotIn-snoc-All :
    (x : ℕ) (xs ys : List ℕ)
    → NotIn x ys
    → All (λ y. NotIn y xs) ys
    → All (λ y. NotIn y (x ∷ xs)) ys
NotIn-snoc-All x xs [] h k = tt
NotIn-snoc-All x xs (y ∷ ys) h k = ((λ e. h.0 (sym e), k.0), NotIn-snoc-All x xs ys h.1 k.1)

pub apart_sym : (xs ys : List ℕ) → All (λ x. NotIn x ys) xs → All (λ y. NotIn y xs) ys
apart_sym [] ys h = All-intro (λ y. NotIn y []) ys (λ y. tt)
apart_sym (x ∷ xs) ys h = NotIn-snoc-All x xs ys h.0 (apart_sym xs ys h.1)

pub All-append_left {ℓ κ} :
    {A : Type ℓ} (P : A → Type κ) (xs ys : List A) → All P (xs ++ ys) → All P xs
All-append_left P [] ys h = tt
All-append_left P (x ∷ xs) ys h = (h.0, All-append_left P xs ys h.1)

pub All-append_right {ℓ κ} :
    {A : Type ℓ} (P : A → Type κ) (xs ys : List A) → All P (xs ++ ys) → All P ys
All-append_right P [] ys h = h
All-append_right P (x ∷ xs) ys h = All-append_right P xs ys h.1

-- A number is in the list, so that it has what all members have, or it is not.
pub member_or_not : (P : ℕ → Type 0) (xs : List ℕ) (a : ℕ) → All P xs → P a ⊎ NotIn a xs
member_or_not P [] a h = inr tt
member_or_not P (x ∷ xs) a h = elim (Bool-cases (x == a)) [
  | inl e ↦ inl (subst P ((==_iff x a).0 e) h.0)
  | inr e ↦ elim (member_or_not P xs a h.1) [
    | inl p ↦ inl p
    | inr n ↦ inr ((λ same. ground arith), n)
  ]
]
