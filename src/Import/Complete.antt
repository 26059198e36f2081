-- ===== src/Import/Complete.antt =====
-- crates/pkdump-core/src/import: each format gives complete rows, or an error that names its line.
use pokedumpster.Base.{Text, codes, ℕ, ◌+◌, [], ◌∷◌, length, All, arith, Option}
use pokedumpster.Import.Canonical.{map_condition-IsTier}
use pokedumpster.Import.Manabox
use pokedumpster.Import.Tcgplayer
use pokedumpster.Import.Pokedumpster
use pokedumpster.Import.Placed.{
  IsFile, Ensures, EnsuresRow, IsRow, bind-Ensures, ok-Ensures, require-Ensures,
  quantity_of-Ensures, price_of-Ensures, parse_records-Ensures, ok_or-missing_column, header,
}
use pokedumpster.Import.Rows.{
  column, first_column, ok_or, missing_column, Result, ◌>>=◌, Record, Csv, ParsedRow, parse_records,
}
use pokedumpster.Import.Unicode.{Unicode}

module _ {Price : Type 0} where
  -- The frame of the three parsers: the header, its columns, the loop.
  framed :
      {C : Type 0} (columns : Record → Result C) (f : C → ℕ → Record → Result (ParsedRow Price × ℕ))
      (input : Csv)
      → ((i j : ℕ) (headers : Record) → Ensures i j (λ c. Unit) (columns headers))
      → ((c : C) → EnsuresRow (f c))
      → IsFile input
      → Ensures 2 (length input.records + 1) (All (IsRow 2 (length input.records + 1))) (
          input.headers >>= λ headers. columns headers >>= λ c. parse_records (f c) 0 input.records)
  framed columns f input hc hf h =
      let n = length input.records + 1 in
      let P = All (IsRow 2 n) in
      bind-Ensures 2 n (λ r. Unit) P input.headers _ (header n input.headers h.0)
        (λ headers t.
          bind-Ensures 2 n (λ c. Unit) P (columns headers) _ (hc 2 n headers)
            (λ c t'.
              parse_records-Ensures (f c) (hf c) 0 (length input.records) input.records h.1
                (omega arith)))

module _ (u : Unicode) (i j : ℕ) (headers : Record) where
  Manabox-columns : Ensures i j (λ c. Unit) (Manabox.columns u headers)
  unfolding Manabox.columns
  Manabox-columns =
      bind-Ensures i j (λ n. Unit) (λ c. Unit)
        (ok_or (column u headers (codes "collector number"))
          (missing_column (codes "Collector number")))
        _ (ok_or-missing_column i j _ _) (λ n t. set n)
    where
      set : (n : ℕ) → Ensures i j (λ c. Unit) (Manabox.check_set u headers n)
      set n = unfold Manabox.check_set Ensures in ground arith

  Tcgplayer-columns : Ensures i j (λ c. Unit) (Tcgplayer.columns u headers)
  unfolding Tcgplayer.columns
  Tcgplayer-columns =
      bind-Ensures i j (λ n. Unit) (λ c. Unit)
        (ok_or
          (first_column u headers
            (codes "card number" ∷ codes "collector number" ∷ codes "number" ∷ []))
          (missing_column (codes "Card Number")))
        _ (ok_or-missing_column i j _ _) (λ n t. set n)
    where
      set : (n : ℕ) → Ensures i j (λ c. Unit) (Tcgplayer.check_set u headers n)
      set n = unfold Tcgplayer.check_set Ensures in ground arith

  Pokedumpster-columns : Ensures i j (λ c. Unit) (Pokedumpster.columns u headers)
  unfolding Pokedumpster.columns
  Pokedumpster-columns =
      bind-Ensures i j (λ n. Unit) (λ c. Unit)
        (ok_or (first_column u headers (codes "number" ∷ codes "collector number" ∷ []))
          (missing_column (codes "number")))
        _ (ok_or-missing_column i j _ _)
        (λ n t.
          bind-Ensures i j (λ v. Unit) (λ c. Unit)
            (ok_or (first_column u headers (codes "variant" ∷ []))
              (missing_column (codes "variant")))
            _ (ok_or-missing_column i j _ _) (λ v t'. set n v))
    where
      set : (n v : ℕ) → Ensures i j (λ c. Unit) (Pokedumpster.check_set u headers n v)
      set n v = unfold Pokedumpster.check_set Ensures in ground arith

module _ (u : Unicode) {Price : Type 0} (parse_f64 : Text → Option Price) where
  Manabox-row : (c : Manabox.Columns) → EnsuresRow (Manabox.parse_record u parse_f64 c)
  unfolding Manabox.parse_record
  Manabox-row c l r = bind-Ensures l l _ _ _ _ (require-Ensures _ l _) (λ number hn.
      bind-Ensures l l _ _ _ _ (require-Ensures _ l _) (λ hint hh.
        bind-Ensures l l _ _ _ _ (quantity_of-Ensures _ l _) (λ q t.
          bind-Ensures l l _ _ _ _ (price_of-Ensures parse_f64 _ l _) (λ p t'.
            ok-Ensures l l _ _ ((hn, hh, map_condition-IsTier u _), (omega arith, omega arith))))))

  Tcgplayer-row : (c : Tcgplayer.Columns) → EnsuresRow (Tcgplayer.parse_record u parse_f64 c)
  unfolding Tcgplayer.parse_record
  Tcgplayer-row c l r = bind-Ensures l l _ _ _ _ (require-Ensures _ l _) (λ number hn.
      bind-Ensures l l _ _ _ _ (require-Ensures _ l _) (λ hint hh.
        bind-Ensures l l _ _ _ _ (quantity_of-Ensures _ l _) (λ q t.
          bind-Ensures l l _ _ _ _ (price_of-Ensures parse_f64 _ l _) (λ p t'.
            ok-Ensures l l _ _ ((hn, hh, map_condition-IsTier u _), (omega arith, omega arith))))))

  Pokedumpster-row :
      (c : Pokedumpster.Columns) → EnsuresRow (Pokedumpster.parse_record u parse_f64 c)
  unfolding Pokedumpster.parse_record
  Pokedumpster-row c l r = bind-Ensures l l _ _ _ _ (require-Ensures _ l _) (λ number hn.
      bind-Ensures l l _ _ _ _ (require-Ensures _ l _) (λ variant hv.
        bind-Ensures l l _ _ _ _ (require-Ensures _ l _) (λ hint hh.
          bind-Ensures l l _ _ _ _ (quantity_of-Ensures _ l _) (λ q t.
            bind-Ensures l l _ _ _ _ (price_of-Ensures parse_f64 _ l _) (λ p t'.
              ok-Ensures l l _ _
                ((hn, hh, map_condition-IsTier u _), (omega arith, omega arith)))))))

  -- A ManaBox file whose errors are the csv crate's gives rows that each have a number, a set, one of the
  -- five conditions and the line of one of its records, or an error; an error of a row names such a line.
  pub Manabox-parse :
      (input : Csv)
      → IsFile input
      → Ensures 2
          (length input.records + 1)
          (All (IsRow 2 (length input.records + 1)))
          (Manabox.parse u parse_f64 input)
  unfolding Manabox.parse
  Manabox-parse input h = framed _ _ input (Manabox-columns u) Manabox-row h

  -- A TCGplayer file whose errors are the csv crate's gives rows that each have a number, a set, one of the
  -- five conditions and the line of one of its records, or an error; an error of a row names such a line.
  pub Tcgplayer-parse :
      (input : Csv)
      → IsFile input
      → Ensures 2
          (length input.records + 1)
          (All (IsRow 2 (length input.records + 1)))
          (Tcgplayer.parse u parse_f64 input)
  unfolding Tcgplayer.parse
  Tcgplayer-parse input h = framed _ _ input (Tcgplayer-columns u) Tcgplayer-row h

  -- A PokeDumpster file whose errors are the csv crate's gives rows that each have a number, a set, one of the
  -- five conditions and the line of one of its records, or an error; an error of a row names such a line.
  pub Pokedumpster-parse :
      (input : Csv)
      → IsFile input
      → Ensures 2
          (length input.records + 1)
          (All (IsRow 2 (length input.records + 1)))
          (Pokedumpster.parse u parse_f64 input)
  unfolding Pokedumpster.parse
  Pokedumpster-parse input h = framed _ _ input (Pokedumpster-columns u) Pokedumpster-row h
