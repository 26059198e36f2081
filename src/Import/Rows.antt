-- ===== src/Import/Rows.antt =====
-- crates/pkdump-core/src/import/mod.rs: rows, errors, and what all parsers do with columns and
-- records. The csv crate is a parameter: a file is the header and the records that it reads, each a
-- list of cells or an error.
use pokedumpster.Base.{
  Text, codes, equal, trim, ℕ, zero, suc, ◌+◌, Option, none, some, List, [], ◌∷◌, ◌++◌, replicate,
  if◌then◌else◌,
}
use pokedumpster.Base.Parse.{parse_u32}
use pokedumpster.Import.Unicode.{Unicode}

pub data ImportError : Type 0 where
  csv : Text → ImportError
  missing_column : Text → ImportError
  bad_row : ℕ → Text → ImportError

pub data Result {ℓ} (A : Type ℓ) : Type ℓ where
  ok : A → Result A
  err : ImportError → Result A

-- The `?` operator.
infixl 5 ◌>>=◌
abbrev pub ◌>>=◌ {ℓ κ} : {A : Type ℓ} {B : Type κ} → Result A → (A → Result B) → Result B
ok a >>= f = f a
err e >>= f = err e

-- `Option::ok_or`.
abbrev pub ok_or {ℓ} : {A : Type ℓ} → Option A → ImportError → Result A
ok_or none e = err e
ok_or (some a) e = ok a

abbrev pub Record : Type 0
Record = List Text

-- What the csv crate reads.
pub record Csv : Type 0 where
  pub headers : Result Record
  pub records : List (Result Record)

-- `purchase_price` is an `f64`; its type and its parser are parameters of the formats.
pub record ParsedRow (Price : Type 0) : Type 0 where
  pub source_line : ℕ
  pub set_hint : Text
  pub set_name : Option Text
  pub name : Option Text
  pub number : Text
  pub variant : Text
  pub condition : Text
  pub language : Text
  pub purchase_price : Option Price
  pub acquired_at : Option Text
  pub tags : List Text

pub record ParsedSealedRow (Price : Type 0) : Type 0 where
  pub source_line : ℕ
  pub name : Text
  pub set_hint : Text
  pub set_name : Option Text
  pub category_hint : Option Text
  pub quantity : ℕ
  pub condition : Text
  pub purchase_price : Option Price
  pub purchase_date : Option Text
  pub notes : Option Text

-- The headers as a map from trimmed lower-case name to column: a later column hides an earlier one.
module _ (u : Unicode) where
  unfoldable pub column_from : ℕ → Text → Record → Option ℕ → Option ℕ
  column_from i name [] found = found
  column_from i name (h ∷ hs) found =
      column_from (i + 1) name hs (if equal (u.lowercase (trim h)) name then some i else found)

  -- `idx`.
  unfoldable pub column : Record → Text → Option ℕ
  unfolding column_from
  column headers name = column_from 0 name headers none

  -- `first`: the first of the names that is there.
  unfoldable pub first_column : Record → List Text → Option ℕ
  unfolding column
  first_column headers [] = none
  first_column headers (n ∷ ns) = elim (column headers n) [
    | some i ↦ some i
    | none ↦ first_column headers ns
  ]

-- `record.get(i)`, or the empty text.
unfoldable pub cell_at : Record → ℕ → Text
cell_at [] i = []
cell_at (c ∷ cs) zero = c
cell_at (c ∷ cs) (suc i) = cell_at cs i

-- `get`.
unfoldable pub cell : Record → Option ℕ → Text
unfolding cell_at
cell r none = trim []
cell r (some i) = trim (cell_at r i)

-- The quantity cell: blank is one, and what is no number is an error with the column's name.
unfoldable pub quantity_of : Text → ℕ → Text → Result ℕ
unfolding parse_u32
quantity_of what line [] = ok 1
quantity_of what line raw =
    ok_or (parse_u32 raw)
      (bad_row line (codes "non-numeric " ++ (what ++ (codes " '" ++ (raw ++ codes "'")))))

-- `(!s.is_empty()).then(...)`.
unfoldable pub nonempty : Text → Option Text
nonempty [] = none
nonempty s = some s

-- The check of a mandatory cell.
unfoldable pub require : Text → ℕ → Text → Result Text
require [] line message = err (bad_row line message)
require s line message = ok s

-- The set code, or else the other column.
unfoldable pub or_else : Text → Text → Text
or_else [] other = other
or_else s other = s

module _ {Price : Type 0} where
  -- The price cell: blank is none, and what is no number is an error.
  unfoldable pub price_of : (Text → Option Price) → Text → ℕ → Text → Result (Option Price)
  price_of parse_f64 what line [] = ok none
  price_of parse_f64 what line raw =
      ok_or (parse_f64 raw)
        (bad_row line (codes "non-numeric " ++ (what ++ (codes " '" ++ (raw ++ codes "'")))))
      >>= λ p. ok (some p)

  -- The loop over the records: record `i` stands on line `i + 2`, and a row is pushed once for each
  -- copy.
  unfoldable pub parse_records :
      (ℕ → Record → Result (ParsedRow Price × ℕ))
      → ℕ
      → List (Result Record)
      → Result (List (ParsedRow Price))
  parse_records parse_record i [] = ok []
  parse_records parse_record i (r ∷ rs) = r >>= λ record'.
      parse_record (i + 2) record' >>= λ (row, quantity).
      parse_records parse_record (i + 1) rs >>= λ rows. ok (replicate quantity row ++ rows)
