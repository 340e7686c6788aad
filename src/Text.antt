-- ===== src/Text.antt =====
-- Text as the names of src/dir.rs and src/name.rs use it: a list of characters, each its scalar
-- value. Case and UTF-16 are those of the language's library, taken as parameters.
use resident_fat.Prelude.{ℕ, Bool, true, false, ◌&&◌, List, [], ◌∷◌, ◌++◌, ◌==◌, if◌then◌else◌}

pub record Unicode : Type 0 where
  pub to_lowercase : ℕ → List ℕ
  pub to_uppercase : ℕ → List ℕ
  pub is_lowercase : ℕ → Bool
  pub is_uppercase : ℕ → Bool
  pub encode_utf16 : List ℕ → List ℕ
  pub decode_utf16 : List ℕ → List ℕ

-- `str::to_uppercase`
unfoldable pub uppercased : Unicode → List ℕ → List ℕ
uppercased u [] = []
uppercased u (c ∷ cs) = u.to_uppercase c ++ uppercased u cs

abbrev pub same_text : List ℕ → List ℕ → Bool
same_text [] [] = true
same_text [] (y ∷ ys) = false
same_text (x ∷ xs) [] = false
same_text (x ∷ xs) (y ∷ ys) = (x == y) && same_text xs ys

-- a part put before the first of the parts
abbrev pub onto_first : ℕ → List (List ℕ) → List (List ℕ)
onto_first c [] = (c ∷ []) ∷ []
onto_first c (part ∷ parts) = (c ∷ part) ∷ parts

-- `str::split` at a character
unfoldable pub split : ℕ → List ℕ → List (List ℕ)
split separator [] = [] ∷ []
split separator (c ∷ cs) =
    let rest = split separator cs in if c == separator then [] ∷ rest else onto_first c rest
