-- ===== src/Prelude/Lists.antt =====
-- Lists measured and indexed by native numbers, under the library's names.
use Prim.Native.Nat.{ℕ, zero, suc, ◌+◌, ◌-◌, ◌<◌, ◌≤◌, min}
use mathlib.Core.Path.{◌≡◌, refl, ap}
use mathlib.Core.Logic.{◌≢◌}
use mathlib.Core.List.{List, [], ◌∷◌, ◌++◌}
use mathlib.Core.Option.{Option, none, some}
use native.Mathlib.Omega.{arith}

module _ {ℓ} {A : Type ℓ} where
  abbrev pub length : List A → ℕ
  length [] = 0
  length (x ∷ xs) = suc (length xs)

  abbrev pub get_elem? : List A → ℕ → Option A
  get_elem? [] i = none
  get_elem? (x ∷ xs) zero = some x
  get_elem? (x ∷ xs) (suc i) = get_elem? xs i

  abbrev pub get_or : List A → ℕ → A → A
  get_or [] i d = d
  get_or (x ∷ xs) zero d = x
  get_or (x ∷ xs) (suc i) d = get_or xs i d

  -- A write out of bounds changes nothing.
  abbrev pub set : List A → ℕ → A → List A
  set [] i v = []
  set (x ∷ xs) zero v = v ∷ xs
  set (x ∷ xs) (suc i) v = x ∷ set xs i v

  abbrev pub take : ℕ → List A → List A
  take zero xs = []
  take (suc n) [] = []
  take (suc n) (x ∷ xs) = x ∷ take n xs

  abbrev pub drop : ℕ → List A → List A
  drop zero xs = xs
  drop (suc n) [] = []
  drop (suc n) (x ∷ xs) = drop n xs

  abbrev pub replicate : ℕ → A → List A
  replicate zero a = []
  replicate (suc n) a = a ∷ replicate n a

  pub length-append : (xs ys : List A) → length (xs ++ ys) ≡ length xs + length ys
  length-append [] ys = omega arith
  length-append (x ∷ xs) ys = omega (arith, length-append xs ys)

  pub length-set : (xs : List A) (i : ℕ) (v : A) → length (set xs i v) ≡ length xs
  length-set [] i v = refl
  length-set (x ∷ xs) zero v = refl
  length-set (x ∷ xs) (suc i) v = ap suc (length-set xs i v)

  pub get_or-set_self :
      (xs : List A) (i : ℕ) (v d : A) → i < length xs → get_or (set xs i v) i d ≡ v
  get_or-set_self [] i v d h = absurd (omega arith)
  get_or-set_self (x ∷ xs) zero v d h = refl
  get_or-set_self (x ∷ xs) (suc i) v d h = get_or-set_self xs i v d (omega arith)

  pub get_or-set_ne :
      (xs : List A) (i j : ℕ) (v d : A) → i ≢ j → get_or (set xs i v) j d ≡ get_or xs j d
  get_or-set_ne [] i j v d h = refl
  get_or-set_ne (x ∷ xs) zero zero v d h = absurd (h refl)
  get_or-set_ne (x ∷ xs) zero (suc j) v d h = refl
  get_or-set_ne (x ∷ xs) (suc i) zero v d h = refl
  get_or-set_ne (x ∷ xs) (suc i) (suc j) v d h = get_or-set_ne xs i j v d (λ e. h (ap suc e))

  pub get_elem?-eq-get_or :
      (xs : List A) (i : ℕ) (d : A) → i < length xs → get_elem? xs i ≡ some (get_or xs i d)
  get_elem?-eq-get_or [] i d h = absurd (omega arith)
  get_elem?-eq-get_or (x ∷ xs) zero d h = refl
  get_elem?-eq-get_or (x ∷ xs) (suc i) d h = get_elem?-eq-get_or xs i d (omega arith)

  pub length-replicate : (n : ℕ) (a : A) → length (replicate n a) ≡ n
  length-replicate zero a = refl
  length-replicate (suc n) a = ap suc (length-replicate n a)

  -- A claim about every list of a length, and about every choice of so many elements.
  abbrev pub OfLength : ℕ → (List A → Type ℓ) → Type ℓ
  OfLength zero P = P []
  OfLength (suc n) P = (x : A) → OfLength n (λ l. P (x ∷ l))

  pub of_length :
      (n : ℕ) (P : List A → Type ℓ) → OfLength n P → (xs : List A) → length xs ≡ n → P xs
  of_length zero P h [] e = h
  of_length zero P h (x ∷ xs) e = absurd (omega arith)
  of_length (suc n) P h [] e = absurd (omega arith)
  of_length (suc n) P h (x ∷ xs) e = of_length n (λ l. P (x ∷ l)) (h x) xs (omega arith)

-- What is taken and what is left.
pub length-take {ℓ} : {A : Type ℓ} (n : ℕ) (xs : List A) → length (take n xs) ≡ min n (length xs)
length-take zero xs = omega arith
length-take (suc n) [] = omega arith
length-take (suc n) (x ∷ xs) = omega (arith, length-take n xs)

pub length-drop {ℓ} : {A : Type ℓ} (n : ℕ) (xs : List A) → length (drop n xs) ≡ length xs - n
length-drop zero xs = omega arith
length-drop (suc n) [] = omega arith
length-drop (suc n) (x ∷ xs) = omega (arith, length-drop n xs)

pub take-drop {ℓ} : {A : Type ℓ} (n : ℕ) (xs : List A) → take n xs ++ drop n xs ≡ xs
take-drop zero xs = refl
take-drop (suc n) [] = refl
take-drop (suc n) (x ∷ xs) = ap (λ l. x ∷ l) (take-drop n xs)

pub drop-drop {ℓ} : {A : Type ℓ} (m n : ℕ) (xs : List A) → drop n (drop m xs) ≡ drop (m + n) xs
drop-drop zero n xs = let e : 0 + n ≡ n = omega arith in rw e refl
drop-drop (suc m) zero [] = let e : suc m + 0 ≡ suc m = omega arith in rw e refl
drop-drop (suc m) (suc n) [] = let e : suc m + suc n ≡ suc (m + suc n) = omega arith in rw e refl
drop-drop (suc m) n (x ∷ xs) =
    let e : suc m + n ≡ suc (m + n) = omega arith in rw e (drop-drop m n xs)

pub take-add {ℓ} :
    {A : Type ℓ} (m n : ℕ) (xs : List A) → take (m + n) xs ≡ take m xs ++ take n (drop m xs)
take-add zero n xs = let e : 0 + n ≡ n = omega arith in rw e refl
take-add (suc m) zero [] = let e : suc m + 0 ≡ suc m = omega arith in rw e refl
take-add (suc m) (suc n) [] = let e : suc m + suc n ≡ suc (m + suc n) = omega arith in rw e refl
take-add (suc m) n (x ∷ xs) =
    let e : suc m + n ≡ suc (m + n) = omega arith in rw e (ap (λ l. x ∷ l) (take-add m n xs))

-- what is taken and dropped of two lists, from inside the first of them or from the second on
pub take-append {ℓ} :
    {A : Type ℓ} (m : ℕ) (xs ys : List A) → m ≤ length xs → take m (xs ++ ys) ≡ take m xs
take-append zero xs ys few = refl
take-append (suc m) [] ys few = absurd (omega (arith, few))
take-append (suc m) (x ∷ xs) ys few = ap (λ l. x ∷ l) (take-append m xs ys (omega (arith, few)))

pub drop-append {ℓ} :
    {A : Type ℓ} (m : ℕ) (xs ys : List A) → m ≤ length xs → drop m (xs ++ ys) ≡ drop m xs ++ ys
drop-append zero xs ys few = refl
drop-append (suc m) [] ys few = absurd (omega (arith, few))
drop-append (suc m) (x ∷ xs) ys few = drop-append m xs ys (omega (arith, few))

pub drop-append_past {ℓ} :
    {A : Type ℓ} (m n : ℕ) (xs ys : List A) → length xs ≡ m → drop (m + n) (xs ++ ys) ≡ drop n ys
drop-append_past zero n [] ys e = let same : 0 + n ≡ n = omega arith in rw same refl
drop-append_past zero n (x ∷ xs) ys e = absurd (omega (arith, e))
drop-append_past (suc m) n [] ys e = absurd (omega (arith, e))
drop-append_past (suc m) n (x ∷ xs) ys e =
    let same : suc m + n ≡ suc (m + n) = omega arith in
    rw same (drop-append_past m n xs ys (omega (arith, e)))

pub take-all {ℓ} : {A : Type ℓ} (m : ℕ) (xs : List A) → length xs ≡ m → take m xs ≡ xs
take-all zero [] e = refl
take-all zero (x ∷ xs) e = absurd (omega (arith, e))
take-all (suc m) [] e = refl
take-all (suc m) (x ∷ xs) e = ap (λ l. x ∷ l) (take-all m xs (omega (arith, e)))

pub take-append_past {ℓ} :
    {A : Type ℓ} (m n : ℕ) (xs ys : List A)
    → length xs ≡ m
    → take (m + n) (xs ++ ys) ≡ xs ++ take n ys
take-append_past zero n [] ys e = let same : 0 + n ≡ n = omega arith in rw same refl
take-append_past zero n (x ∷ xs) ys e = absurd (omega (arith, e))
take-append_past (suc m) n [] ys e = absurd (omega (arith, e))
take-append_past (suc m) n (x ∷ xs) ys e =
    let same : suc m + n ≡ suc (m + n) = omega arith in
    rw same (ap (λ l. x ∷ l) (take-append_past m n xs ys (omega (arith, e))))
