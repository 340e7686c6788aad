-- ===== src/Name/Splice.antt =====
-- The lists of units that src/dir.rs splices the slots of src/name.rs into.
use resident_fat.Prelude.{
  ℕ, zero, suc, ◌+◌, ◌≡◌, refl, ap, false, some, List, [], ◌∷◌, ◌++◌, append_assoc, length, take,
  drop, replicate, length-append, arith, ltb,
}
use resident_fat.Dir.LongName.{splice}
use resident_fat.Name.{unit_at}
use resident_fat.Name.Slots.{units_from}

take-length : (xs ys : List ℕ) → take (length xs) (xs ++ ys) ≡ xs
take-length [] ys = refl
take-length (x ∷ xs) ys = ap (λ l. x ∷ l) (take-length xs ys)

drop-length : (xs ys : List ℕ) → drop (length xs) (xs ++ ys) ≡ ys
drop-length [] ys = refl
drop-length (x ∷ xs) ys = drop-length xs ys

-- a part of a list put in place of as many elements
pub splice-append :
    (xs ys zs part : List ℕ) (at : ℕ)
    → at ≡ length xs
    → length part ≡ length ys
    → splice (xs ++ (ys ++ zs)) at part ≡ some (xs ++ (part ++ zs))
unfolding splice
splice-append xs ys zs part at e same =
    let room : ltb (length (xs ++ (ys ++ zs))) (at + length part) ≡ false =
      ground (arith, length-append xs (ys ++ zs), length-append ys zs) in
    let taken : take at (xs ++ (ys ++ zs)) ≡ xs = rw e (take-length xs (ys ++ zs)) in
    let end : at + length part ≡ length (xs ++ ys) = omega (arith, length-append xs ys) in
    let dropped : drop (at + length part) (xs ++ (ys ++ zs)) ≡ zs =
      rw (end, ← append_assoc xs ys zs) (drop-length (xs ++ ys) zs) in
    rw (room, taken, dropped) (ap some (append_assoc xs part zs))

pub replicate-add : (m n : ℕ) → replicate {A = ℕ} (m + n) 0 ≡ replicate m 0 ++ replicate n 0
replicate-add zero n = let e : 0 + n ≡ n = omega arith in rw e
replicate-add (suc m) n =
    let e : suc m + n ≡ suc (m + n) = omega arith in rw e (ap (λ l. 0 ∷ l) (replicate-add m n))

pub units_from-add :
    (units : List ℕ) (from m n : ℕ)
    → units_from units from (m + n) ≡ units_from units from m ++ units_from units (from + m) n
units_from-add units from zero n =
    let e : 0 + n ≡ n = omega arith in let e' : from + 0 ≡ from = omega arith in rw (e, e')
units_from-add units from (suc m) n =
    let e : suc m + n ≡ suc (m + n) = omega arith in
    let e' : from + suc m ≡ from + 1 + m = omega arith in
    rw (e, e') (ap (λ l. unit_at units from ∷ l) (units_from-add units (from + 1) m n))

pub length-units_from : (units : List ℕ) (from k : ℕ) → length (units_from units from k) ≡ k
length-units_from units from zero = refl
length-units_from units from (suc k) = ap suc (length-units_from units (from + 1) k)
