-- ===== src/Import/Collectr.antt =====
-- crates/pkdump-core/src/import/collectr.rs: the Collectr format, split into single cards, sealed
-- products and skipped rows.
use pokedumpster.Base.{
  Text, codes, trim, eq_ignore_ascii_case, before_first, rsplit_once, trim_matches, char_at_byte,
  byte_len, any, all, is_whitespace, is_ascii_digit, is_ascii_alphabetic, is_empty, ℕ, ◌+◌, Bool,
  false, not, ◌&&◌, ◌||◌, Option, none, some, List, [], ◌∷◌, ◌++◌, replicate, ◌==◌, if◌then◌else◌,
}
use pokedumpster.Import.Manabox.{map_variant}
use pokedumpster.Import.Rows.{
  missing_column, Result, ok, ◌>>=◌, ok_or, Record, Csv, ParsedRow, ParsedSealedRow, column, cell,
  quantity_of, nonempty,
}
use pokedumpster.Import.Unicode.{Unicode}
use pokedumpster.Import.Values.{map_condition, map_language, normalize_collector_number}

pub record SkippedRow : Type 0 where
  pub source_line : ℕ
  pub category : Text
  pub name : Text
  pub reason : Text

pub record CollectrParsed (Price : Type 0) : Type 0 where
  pub singles : List (ParsedRow Price)
  pub sealed : List (ParsedSealedRow Price)
  pub skipped : List SkippedRow

-- The columns that `parse` resolves.
pub record Columns : Type 0 where
  pub category : ℕ
  pub set : ℕ
  pub name : ℕ
  pub number : ℕ
  pub variance : Option ℕ
  pub condition : Option ℕ
  pub cost : Option ℕ
  pub quantity : Option ℕ
  pub date : Option ℕ
  pub notes : Option ℕ

-- Where a record goes: a card with the number of its copies, a product, or a skipped row.
pub data Routed (Price : Type 0) : Type 0 where
  single : ParsedRow Price → ℕ → Routed Price
  product : ParsedSealedRow Price → Routed Price
  skip : SkippedRow → Routed Price

-- `SVP 176` without its prefix: the tail is a number and the prefix has a letter.
abbrev without_prefix : Text → Option (Text × Text) → Text
without_prefix s none = s
without_prefix s (some (prefix, tail)) =
    if not (is_empty tail) && all is_ascii_digit tail && any is_ascii_alphabetic prefix
    then tail
    else s

unfoldable pub normalize_number : Text → Text
unfolding normalize_collector_number
normalize_number raw =
    let s = trim (before_first b'/' (trim raw)) in
    normalize_collector_number (without_prefix s (rsplit_once b' ' s))

abbrev is_hyphen : Option ℕ → Bool
is_hyphen none = false
is_hyphen (some c) = c == b'-'

unfoldable pub to_rfc3339 : Text → Text
to_rfc3339 date =
    let d = trim date in
    if byte_len d == 10 && is_hyphen (char_at_byte 4 d) && is_hyphen (char_at_byte 7 d)
    then d ++ codes "T00:00:00Z"
    else d

unfoldable pub clean_notes : Text → Option Text
unfolding nonempty
clean_notes raw = nonempty (trim_matches (λ c. c == b';' || is_whitespace c) (trim raw))

abbrev rfc3339_of : Text → Option Text
rfc3339_of [] = none
rfc3339_of date = some (to_rfc3339 date)

module _ {Price : Type 0} (parse_f64 : Text → Option Price) where
  abbrev parse_nonempty : Text → Option Price
  parse_nonempty [] = none
  parse_nonempty s = parse_f64 s

  unfoldable pub parse_price : Text → Option Price
  parse_price raw = parse_nonempty (trim raw)

module _ {Price : Type 0} where
  -- The pushes of the loop.
  unfoldable pub push_routed : CollectrParsed Price → Routed Price → CollectrParsed Price
  push_routed out (single row quantity) = record out {
    singles = out.singles ++ replicate quantity row;
  }
  push_routed out (product row) = record out { sealed = out.sealed ++ (row ∷ []) }
  push_routed out (skip row) = record out { skipped = out.skipped ++ (row ∷ []) }

  unfoldable pub parse_rows :
      (ℕ → Record → Result (Routed Price))
      → CollectrParsed Price
      → ℕ
      → List (Result Record)
      → Result (CollectrParsed Price)
  unfolding push_routed
  parse_rows parse_row out i [] = ok out
  parse_rows parse_row out i (r ∷ rs) = r >>= λ record'. parse_row (i + 2) record' >>= λ routed.
      parse_rows parse_row (push_routed out routed) (i + 1) rs

module _ (u : Unicode) where
  unfoldable pub columns : Record → Result Columns
  unfolding column
  columns headers =
      ok_or (column u headers (codes "category")) (missing_column (codes "Category"))
      >>= λ category.
          ok_or (column u headers (codes "set")) (missing_column (codes "Set")) >>= λ set.
          ok_or (column u headers (codes "product name")) (missing_column (codes "Product Name"))
          >>= λ name.
              ok_or (column u headers (codes "card number")) (missing_column (codes "Card Number"))
              >>= λ number. ok (record {
                category = category;
                set = set;
                name = name;
                number = number;
                variance = column u headers (codes "variance");
                condition = column u headers (codes "card condition");
                cost = column u headers (codes "average cost paid");
                quantity = column u headers (codes "quantity");
                date = column u headers (codes "date added");
                notes = column u headers (codes "notes");
              })

  module _ {Price : Type 0} (parse_f64 : Text → Option Price) where
    -- The garden wall: a blank card number means a sealed product.
    unfoldable pub route_pokemon : Columns → ℕ → Record → Text → Text → ℕ → Text → Routed Price
    unfolding map_condition map_variant map_language normalize_number to_rfc3339 clean_notes
        parse_price
    route_pokemon c line r name set quantity [] = product (record {
      source_line = line;
      name = name;
      set_hint = set;
      set_name = some set;
      category_hint = none;
      quantity = quantity;
      condition = map_condition u (cell r c.condition);
      purchase_price = parse_price parse_f64 (cell r c.cost);
      purchase_date = nonempty (cell r c.date);
      notes = clean_notes (cell r c.notes);
    })
    route_pokemon c line r name set quantity number_raw =
        single
          (record {
            source_line = line;
            set_hint = set;
            set_name = some set;
            name = nonempty name;
            number = normalize_number number_raw;
            variant = map_variant u (cell r c.variance);
            condition = map_condition u (cell r c.condition);
            language = map_language u [];
            purchase_price = parse_price parse_f64 (cell r c.cost);
            acquired_at = rfc3339_of (cell r c.date);
            tags = [];
          })
          quantity

    -- The body of the loop.
    unfoldable pub parse_row : Columns → ℕ → Record → Result (Routed Price)
    unfolding route_pokemon quantity_of
    parse_row c line r =
        let category = cell r (some c.category) in
        let name = cell r (some c.name) in
        let set = cell r (some c.set) in
        let skipped : Text → Result (Routed Price) = λ reason. ok (
          skip
            (record { source_line = line; category = category; name = name; reason = reason })) in
        if not (eq_ignore_ascii_case category (codes "pokemon"))
        then skipped (codes "non-Pokémon category '" ++ (category ++ codes "'"))
        else if is_empty set
        then skipped (codes "empty Set")
        else (quantity_of (codes "Quantity") line (cell r c.quantity) >>= λ quantity.
            ok (route_pokemon c line r name set quantity (cell r (some c.number))))

    unfoldable pub parse : Csv → Result (CollectrParsed Price)
    unfolding columns parse_rows parse_row
    parse input = input.headers >>= λ headers. columns headers >>= λ c.
        parse_rows (parse_row c) (record { singles = []; sealed = []; skipped = [] }) 0
          input.records
