-- ===== src/Import/Pokedumpster.antt =====
-- crates/pkdump-core/src/import/pokedumpster.rs: the program's own format.
use pokedumpster.Base.{
  Text, codes, ℕ, ◌||◌, Option, none, some, List, [], ◌∷◌, is_some, if◌then◌else◌,
}
use pokedumpster.Import.Rows.{
  missing_column, Result, ok, err, ◌>>=◌, ok_or, Record, Csv, ParsedRow, first_column, cell,
  require, or_else, quantity_of, price_of, parse_records,
}
use pokedumpster.Import.Unicode.{Unicode}
use pokedumpster.Import.Values.{map_condition, map_language, trim_dollars}

pub record Columns : Type 0 where
  pub number : ℕ
  pub variant : ℕ
  pub set_code : Option ℕ
  pub ptcgo : Option ℕ
  pub quantity : Option ℕ
  pub condition : Option ℕ
  pub language : Option ℕ
  pub price : Option ℕ
  pub notes : Option ℕ

-- Notes ride along as a single tag.
unfoldable pub notes_tags : Text → List Text
notes_tags [] = []
notes_tags notes = notes ∷ []

module _ (u : Unicode) where
  unfoldable pub check_set : Record → ℕ → ℕ → Result Columns
  unfolding first_column
  check_set headers number variant =
      let set_code = first_column u headers (codes "set_code" ∷ codes "set code" ∷ []) in
      let ptcgo = first_column u headers (codes "ptcgo_code" ∷ codes "ptcgo code" ∷ []) in
      if is_some set_code || is_some ptcgo
      then ok (record {
        number = number;
        variant = variant;
        set_code = set_code;
        ptcgo = ptcgo;
        quantity = first_column u headers (codes "quantity" ∷ codes "qty" ∷ []);
        condition = first_column u headers (codes "condition" ∷ []);
        language = first_column u headers (codes "language" ∷ []);
        price =
            first_column u headers
              (codes "purchase_price" ∷ codes "purchase price" ∷ codes "price" ∷ []);
        notes = first_column u headers (codes "notes" ∷ []);
      })
      else err (missing_column (codes "set_code / ptcgo_code"))

  unfoldable pub columns : Record → Result Columns
  unfolding check_set
  columns headers =
      ok_or (first_column u headers (codes "number" ∷ codes "collector number" ∷ []))
        (missing_column (codes "number"))
      >>= λ number.
          ok_or (first_column u headers (codes "variant" ∷ [])) (missing_column (codes "variant"))
          >>= check_set headers number

  module _ {Price : Type 0} (parse_f64 : Text → Option Price) where
    unfoldable pub parse_record : Columns → ℕ → Record → Result (ParsedRow Price × ℕ)
    unfolding notes_tags map_condition map_language
    parse_record c line r =
        require (cell r (some c.number)) line (codes "empty number") >>= λ number.
        require (cell r (some c.variant)) line (codes "empty variant") >>= λ variant.
        require (or_else (cell r c.set_code) (cell r c.ptcgo)) line
          (codes "empty set_code and ptcgo_code")
        >>= λ set_hint. quantity_of (codes "quantity") line (cell r c.quantity) >>= λ quantity.
            price_of parse_f64 (codes "purchase_price") line (trim_dollars (cell r c.price))
            >>= λ price. ok (
              record {
                source_line = line;
                set_hint = set_hint;
                set_name = none;
                name = none;
                number = number;
                variant = variant;
                condition = map_condition u (cell r c.condition);
                language = map_language u (cell r c.language);
                purchase_price = price;
                acquired_at = none;
                tags = notes_tags (cell r c.notes);
              },
              quantity,
            )

    unfoldable pub parse : Csv → Result (List (ParsedRow Price))
    unfolding columns parse_records parse_record
    parse input = input.headers >>= λ headers.
        columns headers >>= λ c. parse_records (parse_record c) 0 input.records
