-- ===== src/Import/Unicode.antt =====
-- What the import parsers take from Rust's Unicode tables.
use pokedumpster.Base.{Text, to_ascii_lowercase, ℕ, ◌<◌, ◌≡◌, All}

abbrev pub IsAscii : Text → Type 0
IsAscii s = All (λ c. c < 128) s

-- `str::to_lowercase` and `char::to_uppercase`. On ASCII text lower case is the ASCII one.
pub record Unicode : Type 0 where
  pub lowercase : Text → Text
  pub uppercase_char : ℕ → Text
  pub lowercase_ascii : (s : Text) → IsAscii s → lowercase s ≡ to_ascii_lowercase s
