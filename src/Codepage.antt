-- ===== src/Codepage.antt =====
-- src/codepage.rs: the characters of the bytes of short names.
use resident_fat.Prelude.{ℕ, Option, none, some, ltb, if◌then◌else◌}

-- A character is its scalar value.
pub record Codepage : Type 0 where
  pub decode : ℕ → Option ℕ
  pub encode : ℕ → Option ℕ

unfoldable pub decode_ascii : ℕ → Option ℕ
decode_ascii byte = if ltb byte 0x80 then some byte else none

unfoldable pub encode_ascii : ℕ → Option ℕ
encode_ascii character = if ltb character 0x80 then some character else none

-- `Codepage::ASCII`
abbrev pub ascii : Codepage
ascii = record { decode = decode_ascii; encode = encode_ascii }
