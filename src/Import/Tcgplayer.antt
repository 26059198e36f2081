-- ===== src/Import/Tcgplayer.antt =====
-- crates/pkdump-core/src/import/tcgplayer.rs: the TCGplayer format.
use pokedumpster.Base.{
  Text, codes, trim, ℕ, ◌||◌, Option, none, some, List, [], ◌∷◌, is_some, if◌then◌else◌,
}
use pokedumpster.Import.Rows.{
  missing_column, Result, ok, err, ◌>>=◌, ok_or, Record, Csv, ParsedRow, first_column, cell,
  require, or_else, quantity_of, price_of, nonempty, parse_records,
}
use pokedumpster.Import.Unicode.{Unicode}
use pokedumpster.Import.Values.{map_condition, map_language, one_of, trim_dollars}

pub record Columns : Type 0 where
  pub number : ℕ
  pub set_code : Option ℕ
  pub set_name : Option ℕ
  pub printing : Option ℕ
  pub quantity : Option ℕ
  pub condition : Option ℕ
  pub language : Option ℕ
  pub price : Option ℕ

module _ (u : Unicode) where
  unfoldable pub map_variant : Text → Text
  unfolding one_of
  map_variant printing =
      let p = u.lowercase (trim printing) in
      if one_of p (codes "holofoil" ∷ codes "holo" ∷ [])
      then codes "holo"
      else if one_of p (codes "reverse holofoil" ∷ codes "reverse holo" ∷ [])
      then codes "reverse_holo"
      else if one_of p (codes "1st edition holofoil" ∷ [])
      then codes "first_ed_holo"
      else if one_of p (codes "1st edition" ∷ codes "1st edition normal" ∷ [])
      then codes "first_ed_normal"
      else if one_of p (codes "unlimited holofoil" ∷ [])
      then codes "unlimited_holo"
      else codes "normal"

  unfoldable pub check_set : Record → ℕ → Result Columns
  unfolding first_column
  check_set headers number =
      let set_code = first_column u headers (codes "set code" ∷ []) in
      let set_name = first_column u headers (codes "set" ∷ codes "set name" ∷ []) in
      if is_some set_code || is_some set_name
      then ok (record {
        number = number;
        set_code = set_code;
        set_name = set_name;
        printing = first_column u headers (codes "printing" ∷ []);
        quantity =
            first_column u headers (codes "quantity" ∷ codes "qty" ∷ codes "add to quantity" ∷ []);
        condition = first_column u headers (codes "condition" ∷ []);
        language = first_column u headers (codes "language" ∷ []);
        price = first_column u headers (codes "purchase price" ∷ codes "price" ∷ []);
      })
      else err (missing_column (codes "Set / Set Code"))

  unfoldable pub columns : Record → Result Columns
  unfolding check_set
  columns headers =
      ok_or
        (first_column u headers
          (codes "card number" ∷ codes "collector number" ∷ codes "number" ∷ []))
        (missing_column (codes "Card Number"))
      >>= check_set headers

  module _ {Price : Type 0} (parse_f64 : Text → Option Price) where
    unfoldable pub parse_record : Columns → ℕ → Record → Result (ParsedRow Price × ℕ)
    unfolding map_variant map_condition map_language
    parse_record c line r =
        require (cell r (some c.number)) line (codes "empty Card Number") >>= λ number.
        let set_name = cell r c.set_name in
        require (or_else (cell r c.set_code) set_name) line (codes "empty Set") >>= λ set_hint.
        quantity_of (codes "Quantity") line (cell r c.quantity) >>= λ quantity.
        price_of parse_f64 (codes "Price") line (trim_dollars (cell r c.price)) >>= λ price. ok (
          record {
            source_line = line;
            set_hint = set_hint;
            set_name = nonempty set_name;
            name = none;
            number = number;
            variant = map_variant (cell r c.printing);
            condition = map_condition u (cell r c.condition);
            language = map_language u (cell r c.language);
            purchase_price = price;
            acquired_at = none;
            tags = [];
          },
          quantity,
        )

    unfoldable pub parse : Csv → Result (List (ParsedRow Price))
    unfolding columns parse_records parse_record
    parse input = input.headers >>= λ headers.
        columns headers >>= λ c. parse_records (parse_record c) 0 input.records
