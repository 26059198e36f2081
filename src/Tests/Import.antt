-- ===== src/Tests/Import.antt =====
-- The import formats of crates/pkdump-core/src/import at fixed files.
use pokedumpster.Base.{
  ◌++◌, eq_ignore_ascii_case, ◌⊎◌, Text, codes, ℕ, ◌≡◌, refl, [], ◌∷◌, Option, none,
  to_ascii_lowercase, to_ascii_lowercase_char, to_ascii_uppercase_char, is_ascii_digit, length, All,
  ◌↔◌, arith, equal, trim, trim_start, trim_end, is_whitespace,
}
use pokedumpster.Base.Parse.{parse_u32, parse_below, parse_digits}
use pokedumpster.Base.Digits.{value}
use pokedumpster.Import.Canonical.{normalize_collector_number-eq_iff}
use pokedumpster.Import.Collectr
use pokedumpster.Import.Complete.{Manabox-parse, Tcgplayer-parse, Pokedumpster-parse}
use pokedumpster.Import.Manabox
use pokedumpster.Import.Placed.{Ensures, IsRow}
use pokedumpster.Import.Pokedumpster
use pokedumpster.Import.Rows.{
  Record, Result, ok, err, Csv, column, column_from, cell, cell_at, require, quantity_of, price_of,
  nonempty, or_else, parse_records,
}
use pokedumpster.Import.Split.{Collectr-parse, IsSplit}
use pokedumpster.Import.Surfaced.{Surfaces, IsNoCopy, parse-Surfaces}
use pokedumpster.Import.Tcgplayer
use pokedumpster.Import.Totals.{normalize_number-total}
use pokedumpster.Import.Unicode.{Unicode}
use pokedumpster.Import.Values.{normalize_collector_number}

abbrev ascii : Unicode
ascii = record {
  lowercase = to_ascii_lowercase;
  uppercase_char = λ c. to_ascii_uppercase_char c ∷ [];
  lowercase_ascii = λ s h. refl;
}

-- A price parser that reads no number.
abbrev no_price : Text → Option ℕ
no_price s = none

abbrev manabox_file : Csv
manabox_file = record {
  headers = ok (
      codes "Set code"
      ∷ codes "Collector number"
      ∷ codes "Foil"
      ∷ codes "Quantity"
      ∷ codes "Condition"
      ∷ []);
  records = ok (codes "sv1" ∷ codes "19" ∷ codes "foil" ∷ codes "2" ∷ codes "good" ∷ []) ∷ [];
}

copies : Result ℕ
unfolding Manabox.parse
copies = elim (Manabox.parse ascii no_price manabox_file) [
  | ok rows ↦ ok (length rows)
  | err e ↦ err e
]

two_copies : copies ≡ ok 2
unfolding copies Manabox.parse Manabox.columns Manabox.check_set Manabox.parse_record parse_records
    column column_from cell cell_at require quantity_of price_of nonempty or_else parse_u32
    parse_below parse_digits equal trim trim_start trim_end is_whitespace is_ascii_digit
    to_ascii_lowercase to_ascii_lowercase_char
two_copies = refl

Manabox-parse_example : Ensures 2 2 (All (IsRow 2 2)) (Manabox.parse ascii no_price manabox_file)
Manabox-parse_example = Manabox-parse ascii no_price manabox_file (tt, (tt, tt))

abbrev tcgplayer_file : Csv
tcgplayer_file = record {
  headers = ok (codes "Quantity" ∷ codes "Set" ∷ codes "Card Number" ∷ codes "Printing" ∷ []);
  records = ok (codes "1" ∷ codes "Base Set" ∷ codes "4/102" ∷ codes "Holofoil" ∷ []) ∷ [];
}

Tcgplayer-parse_example :
    Ensures 2 2 (All (IsRow 2 2)) (Tcgplayer.parse ascii no_price tcgplayer_file)
Tcgplayer-parse_example = Tcgplayer-parse ascii no_price tcgplayer_file (tt, (tt, tt))

abbrev pokedumpster_file : Csv
pokedumpster_file = record {
  headers = ok (codes "set_code" ∷ codes "number" ∷ codes "variant" ∷ []);
  records = ok (codes "sv1" ∷ codes "19" ∷ codes "holo" ∷ []) ∷ [];
}

Pokedumpster-parse_example :
    Ensures 2 2 (All (IsRow 2 2)) (Pokedumpster.parse ascii no_price pokedumpster_file)
Pokedumpster-parse_example = Pokedumpster-parse ascii no_price pokedumpster_file (tt, (tt, tt))

abbrev collectr_file : Csv
collectr_file = record {
  headers = ok (codes "Category" ∷ codes "Set" ∷ codes "Product Name" ∷ codes "Card Number" ∷ []);
  records =
      ok (codes "Pokemon" ∷ codes "Base Set" ∷ codes "Charizard" ∷ codes "004/102" ∷ [])
      ∷ ok (codes "Magic" ∷ codes "Alpha" ∷ codes "Forest" ∷ codes "1" ∷ [])
      ∷ [];
}

Collectr-parse_example : Ensures 2 3 (IsSplit 2 3) (Collectr.parse ascii no_price collectr_file)
Collectr-parse_example = Collectr-parse ascii no_price collectr_file (tt, (tt, (tt, tt)))

normalize_collector_number-eq_iff_example :
    (normalize_collector_number (codes "090") ≡ normalize_collector_number (codes "90"))
    ↔ (value (codes "090") ≡ value (codes "90"))
unfolding is_ascii_digit
normalize_collector_number-eq_iff_example =
    normalize_collector_number-eq_iff (codes "090") (codes "90") (refl, (refl, (refl, tt)))
      (refl, (refl, tt)) (omega arith) (omega arith)

abbrev collectr_headers : Record
collectr_headers = codes "Category" ∷ codes "Set" ∷ codes "Product Name" ∷ codes "Card Number" ∷ []

abbrev forest : Record
forest = codes "Magic" ∷ codes "Alpha" ∷ codes "Forest" ∷ codes "1" ∷ []

abbrev collectr_columns : Collectr.Columns
collectr_columns = record {
  category = 0;
  set = 1;
  name = 2;
  number = 3;
  variance = none;
  condition = none;
  cost = none;
  quantity = none;
  date = none;
  notes = none;
}

abbrev skipped_forest : Collectr.CollectrParsed ℕ
skipped_forest = record {
  singles = [];
  sealed = [];
  skipped =
      record {
        source_line = 2;
        category = codes "Magic";
        name = codes "Forest";
        reason = codes "non-Pokémon category 'Magic'";
      }
      ∷ [];
}

collectr_columns-found : Collectr.columns ascii collectr_headers ≡ ok collectr_columns
unfolding Collectr.columns column column_from equal trim trim_start trim_end is_whitespace
    to_ascii_lowercase to_ascii_lowercase_char
collectr_columns-found = refl

forest-skipped :
    Collectr.parse ascii no_price
      (record { headers = ok collectr_headers; records = ok forest ∷ [] })
    ≡ ok skipped_forest
unfolding Collectr.parse Collectr.columns Collectr.parse_rows Collectr.parse_row
    Collectr.push_routed column column_from cell cell_at equal trim trim_start trim_end
    is_whitespace to_ascii_lowercase to_ascii_lowercase_char eq_ignore_ascii_case
forest-skipped = refl

parse-Surfaces_example :
    Surfaces 2 skipped_forest
    ⊎ IsNoCopy (Collectr.parse_row ascii no_price collectr_columns 2 forest)
parse-Surfaces_example =
    parse-Surfaces ascii no_price collectr_headers collectr_columns [] [] forest skipped_forest
      collectr_columns-found forest-skipped

normalize_number-total_example :
    Collectr.normalize_number (codes "090" ++ codes "/086")
    ≡ normalize_collector_number (codes "090")
unfolding is_ascii_digit
normalize_number-total_example =
    normalize_number-total (codes "090") (codes "086") (refl, (refl, (refl, tt)))
