-- ===== src/Fat/Load/Words.antt =====
-- The words of the table's blocks, and the entries that the loop of `Fat::load` (src/fat.rs)
-- collects.
use resident_fat.Prelude.{
  length-take, ℕ, zero, suc, ◌+◌, ◌-◌, ◌*◌, ◌^◌, ◌≤◌, ◌≡◌, refl, sym, ap, ◌∙◌, List, [], ◌∷◌, ◌++◌,
  length, take, length-append, append-nil, append_assoc, arith, Bool-cases, inl, inr, ◌==◌,
}
use resident_fat.Fat.Load.{words_of, push_words}

-- blocks of a device, one after the other
abbrev pub blocks_from : (ℕ → List ℕ) → ℕ → ℕ → List ℕ
blocks_from image start zero = []
blocks_from image start (suc n) = image start ++ blocks_from image (suc start) n

pub blocks_from-add :
    (image : ℕ → List ℕ) (start m n : ℕ)
    → blocks_from image start (m + n) ≡ blocks_from image start m ++ blocks_from image (start + m) n
blocks_from-add image start zero n =
    let e : 0 + n ≡ n = omega arith in let e' : start + 0 ≡ start = omega arith in rw (e, e')
blocks_from-add image start (suc m) n =
    let e : suc m + n ≡ suc (m + n) = omega arith in
    let e' : start + suc m ≡ suc start + m = omega arith in
    rw (e, e', blocks_from-add image (suc start) m n)
      (sym (
        append_assoc (image start) (blocks_from image (suc start) m)
          (blocks_from image (suc start + m) n)))

pub length-blocks_from :
    (image : ℕ → List ℕ) (start n : ℕ)
    → ((i : ℕ) → length (image i) ≡ 512)
    → length (blocks_from image start n) ≡ n * 512
length-blocks_from image start zero h = refl
length-blocks_from image start (suc n) h = omega (
  arith,
  length-append (image start) (blocks_from image (suc start) n),
  h start,
  length-blocks_from image (suc start) n h,
)

pub words_of-append :
    (k : ℕ) (xs ys : List ℕ) → length xs ≡ k * 4 → words_of (xs ++ ys) ≡ words_of xs ++ words_of ys
words_of-append k [] ys h = refl
words_of-append k (a ∷ []) ys h = absurd (omega arith)
words_of-append k (a ∷ b ∷ []) ys h = absurd (omega arith)
words_of-append k (a ∷ b ∷ c ∷ []) ys h = absurd (omega arith)
words_of-append k (a ∷ b ∷ c ∷ d ∷ xs) ys h =
    ap (λ l. (a + b * 2 ^ 8 + c * 2 ^ 16 + d * 2 ^ 24) ∷ l)
      (words_of-append (k - 1) xs ys (omega arith))

pub length-words_of : (k : ℕ) (xs : List ℕ) → length xs ≡ k * 4 → length (words_of xs) ≡ k
length-words_of k [] h = omega arith
length-words_of k (a ∷ []) h = absurd (omega arith)
length-words_of k (a ∷ b ∷ []) h = absurd (omega arith)
length-words_of k (a ∷ b ∷ c ∷ []) h = absurd (omega arith)
length-words_of k (a ∷ b ∷ c ∷ d ∷ xs) h = omega (arith, length-words_of (k - 1) xs (omega arith))

pub take-nil : (n : ℕ) → take {A = ℕ} n [] ≡ []
take-nil zero = refl
take-nil (suc n) = refl

take-append :
    (n : ℕ) (xs ys : List ℕ) → take n (xs ++ ys) ≡ take n xs ++ take (n - length (take n xs)) ys
take-append zero xs ys = refl
take-append (suc n) [] ys = let e : suc n - 0 ≡ suc n = omega arith in rw e
take-append (suc n) (x ∷ xs) ys =
    let e : suc n - suc (length (take n xs)) ≡ n - length (take n xs) = omega arith in
    rw e (ap (λ l. x ∷ l) (take-append n xs ys))

push_words-eq :
    (wanted : ℕ) (entries ws : List ℕ)
    → length entries ≤ wanted
    → push_words wanted entries ws ≡ entries ++ take (wanted - length entries) ws
unfolding push_words
push_words-eq wanted entries [] h = rw (take-nil (wanted - length entries), append-nil entries)
push_words-eq wanted entries (w ∷ ws) h = elim (Bool-cases (length entries == wanted)) [
  | inl e ↦
      let none_left : wanted - length entries ≡ 0 = ground arith in
      rw (e, none_left, append-nil entries) refl
  | inr e ↦
      let more : wanted - length entries ≡ suc (wanted - length (entries ++ w ∷ [])) =
        ground (arith, length-append entries (w ∷ [])) in
      let room : length (entries ++ w ∷ []) ≤ wanted =
        ground (arith, length-append entries (w ∷ [])) in
      rw (e, more)
        (push_words-eq wanted (entries ++ w ∷ []) ws room
          ∙ append_assoc entries (w ∷ []) (take (wanted - length (entries ++ w ∷ [])) ws))
]

pub push_words-take :
    (wanted : ℕ) (xs ys : List ℕ) → push_words wanted (take wanted xs) ys ≡ take wanted (xs ++ ys)
push_words-take wanted xs ys =
    push_words-eq wanted (take wanted xs) ys (omega (arith, length-take wanted xs))
    ∙ sym (take-append wanted xs ys)
