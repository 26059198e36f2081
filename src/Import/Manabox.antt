-- ===== src/Import/Manabox.antt =====
-- crates/pkdump-core/src/import/manabox.rs: the ManaBox format.
use pokedumpster.Base.{
  Text, codes, trim, ℕ, ◌||◌, Option, none, some, List, [], ◌∷◌, ◌++◌, is_some, if◌then◌else◌,
}
use pokedumpster.Import.Rows.{
  missing_column, Result, ok, err, ◌>>=◌, ok_or, Record, Csv, ParsedRow, column, cell, require,
  or_else, quantity_of, price_of, nonempty, parse_records,
}
use pokedumpster.Import.Unicode.{Unicode}
use pokedumpster.Import.Values.{map_condition, map_language, is_true, one_of}

-- The columns that `parse` resolves.
pub record Columns : Type 0 where
  pub number : ℕ
  pub set_code : Option ℕ
  pub set_name : Option ℕ
  pub foil : Option ℕ
  pub quantity : Option ℕ
  pub condition : Option ℕ
  pub language : Option ℕ
  pub price : Option ℕ
  pub misprint : Option ℕ
  pub altered : Option ℕ

module _ (u : Unicode) where
  unfoldable pub map_variant : Text → Text
  unfolding one_of
  map_variant foil =
      let other = u.lowercase (trim foil) in
      if one_of other ([] ∷ codes "non-foil" ∷ codes "nonfoil" ∷ [])
      then codes "normal"
      else if one_of other (codes "foil" ∷ codes "holofoil" ∷ codes "etched" ∷ [])
      then codes "holo"
      else if one_of other
          (codes "reverseholofoil" ∷ codes "reverse holofoil" ∷ codes "reverse holo" ∷ [])
      then codes "reverse_holo"
      else other

  -- One of the two set columns has to be there.
  unfoldable pub check_set : Record → ℕ → Result Columns
  unfolding column
  check_set headers number =
      let set_code = column u headers (codes "set code") in
      let set_name = column u headers (codes "set name") in
      if is_some set_code || is_some set_name
      then ok (record {
        number = number;
        set_code = set_code;
        set_name = set_name;
        foil = column u headers (codes "foil");
        quantity = column u headers (codes "quantity");
        condition = column u headers (codes "condition");
        language = column u headers (codes "language");
        price = column u headers (codes "purchase price");
        misprint = column u headers (codes "misprint");
        altered = column u headers (codes "altered");
      })
      else err (missing_column (codes "Set code / Set name"))

  unfoldable pub columns : Record → Result Columns
  unfolding check_set
  columns headers =
      ok_or (column u headers (codes "collector number"))
        (missing_column (codes "Collector number"))
      >>= check_set headers

  -- The tags of a row.
  unfoldable pub tags_of : Text → Text → List Text
  unfolding is_true
  tags_of misprint altered =
      (if is_true u misprint then codes "misprint" ∷ [] else [])
      ++ (if is_true u altered then codes "altered" ∷ [] else [])

  module _ {Price : Type 0} (parse_f64 : Text → Option Price) where
    -- The body of the loop: the row of a record, and how often it is pushed.
    unfoldable pub parse_record : Columns → ℕ → Record → Result (ParsedRow Price × ℕ)
    unfolding tags_of map_variant map_condition map_language
    parse_record c line r =
        require (cell r (some c.number)) line (codes "empty Collector number") >>= λ number.
        let set_name = cell r c.set_name in
        require (or_else (cell r c.set_code) set_name) line (codes "empty Set code and Set name")
        >>= λ set_hint. quantity_of (codes "Quantity") line (cell r c.quantity) >>= λ quantity.
            price_of parse_f64 (codes "Purchase price") line (cell r c.price) >>= λ price. ok (
              record {
                source_line = line;
                set_hint = set_hint;
                set_name = nonempty set_name;
                name = none;
                number = number;
                variant = map_variant (cell r c.foil);
                condition = map_condition u (cell r c.condition);
                language = map_language u (cell r c.language);
                purchase_price = price;
                acquired_at = none;
                tags = tags_of (cell r c.misprint) (cell r c.altered);
              },
              quantity,
            )

    unfoldable pub parse : Csv → Result (List (ParsedRow Price))
    unfolding columns parse_records parse_record
    parse input = input.headers >>= λ headers.
        columns headers >>= λ c. parse_records (parse_record c) 0 input.records
