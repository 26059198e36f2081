-- ===== src/Search/Row.antt =====
-- crates/pkdump-db/src/search.rs: the rows of a page and their copies. The database is a parameter:
-- it answers each statement, given its text and its bound values.
use pokedumpster.Base.{
  Text, codes, equal, ℕ, zero, suc, Option, none, some, List, [], ◌∷◌, ◌++◌, Bool, true, false,
  take, drop, length, map, if◌then◌else◌,
}
use pokedumpster.Card.{ℤ, pos, negsuc}
use pokedumpster.Search.Value.{Value, join}
use pokedumpster.Search.Cursor.{Result, ok, ◌>>=◌}

pub record CopySummary (F : Type 0) : Type 0 where
  pub id : ℤ
  pub condition : Text
  pub language : Text
  pub status : Text
  pub graded : Bool
  pub purchase_price : Option F
  pub acquired_at : Text
  pub binder_id : Option ℤ
  pub deck_id : Option ℤ

-- The columns of the row query that `row_from` reads.
pub record Columns (F : Type 0) : Type 0 where
  pub printing_id : Text
  pub card_id : Text
  pub set_code : Text
  pub set_name : Text
  pub ptcgo_code : Option Text
  pub symbol_url : Option Text
  pub number : Text
  pub name : Text
  pub rarity : Option Text
  pub supertype : Option Text
  pub subtypes : Option Text
  pub types : Option Text
  pub attack_costs : Option Text
  pub market_price : Option F
  pub image_small : Option Text
  pub variant : Text
  pub owned_count : ℤ

pub record SearchRow (F : Type 0) : Type 0 where
  pub printing_id : Text
  pub card_id : Text
  pub set_code : Text
  pub set_name : Text
  pub set_ptcgo_code : Option Text
  pub set_symbol_url : Option Text
  pub number : Text
  pub name : Text
  pub rarity : Option Text
  pub supertype : Option Text
  pub subtypes : Option Text
  pub types : Option Text
  pub attack_costs : Option Text
  pub market_price : Option F
  pub image_small : Option Text
  pub variant : Text
  pub owned : Bool
  pub owned_count : ℤ
  pub copies : List (CopySummary F)

-- The statements run: the totals with the milliseconds they took, the rows with the values of their
-- last columns, and the copies with their printings.
pub record Db (F : Type 0) : Type 0 where
  pub query_totals : Text → List (Value F) → Result (ℤ × Option F)
  pub query_rows : Text → List (Value F) → ℕ → Result (List (Columns F × List (Value F)))
  pub query_copies : Text → List Text → Result (List (Text × CopySummary F))
  pub elapsed_ms : F

abbrev pub is_positive : ℤ → Bool
is_positive (pos zero) = false
is_positive (pos (suc n)) = true
is_positive (negsuc n) = false

-- `[T]::chunks`, for a chunk of one element at least; one step for each element is enough.
unfoldable pub chunks {ℓ} : {A : Type ℓ} → ℕ → ℕ → List A → List (List A)
chunks zero n xs = []
chunks (suc steps) n [] = []
chunks (suc steps) n (x ∷ xs) = take n (x ∷ xs) ∷ chunks steps n (drop n (x ∷ xs))

abbrev pub chunk_size : ℕ
chunk_size = 900

abbrev pub question_marks : List Text → List Text
question_marks = map λ (id : Text). codes "?"

unfoldable pub copies_sql : List Text → Text
unfolding join
copies_sql chunk =
    codes "SELECT printing_id, id, condition, language, status, graded, purchase_price, "
    ++ codes "acquired_at, binder_id, deck_id FROM collection WHERE printing_id IN ("
    ++ join (codes ", ") (question_marks chunk)
    ++ codes ") ORDER BY id"

-- The map from a printing to its copies, one entry for each printing.
abbrev pub ByPrinting : Type 0 → Type 0
ByPrinting F = List (Text × List (CopySummary F))

module _ {F : Type 0} where
  unfoldable pub row_from : Columns F → SearchRow F
  row_from r = record {
    printing_id = r.printing_id;
    card_id = r.card_id;
    set_code = r.set_code;
    set_name = r.set_name;
    set_ptcgo_code = r.ptcgo_code;
    set_symbol_url = r.symbol_url;
    number = r.number;
    name = r.name;
    rarity = r.rarity;
    supertype = r.supertype;
    subtypes = r.subtypes;
    types = r.types;
    attack_costs = r.attack_costs;
    market_price = r.market_price;
    image_small = r.image_small;
    variant = r.variant;
    owned = is_positive r.owned_count;
    owned_count = r.owned_count;
    copies = [];
  }

  -- `entry(id).or_default().push(copy)`.
  unfoldable pub push_copy : Text → CopySummary F → ByPrinting F → ByPrinting F
  unfolding equal
  push_copy id copy [] = (id, copy ∷ []) ∷ []
  push_copy id copy ((key, copies) ∷ rest) =
      let later = push_copy id copy rest in
      if equal key id then (key, copies ++ copy ∷ []) ∷ rest else (key, copies) ∷ later

  unfoldable pub push_all : List (Text × CopySummary F) → ByPrinting F → ByPrinting F
  unfolding push_copy
  push_all [] by = by
  push_all ((id, copy) ∷ entries) by = push_all entries (push_copy id copy by)

  abbrev pub keep_entry :
      Text × List (CopySummary F)
      → Option (List (CopySummary F)) × ByPrinting F
      → Option (List (CopySummary F)) × ByPrinting F
  keep_entry entry (found, rest) = (found, entry ∷ rest)

  -- `HashMap::remove`.
  unfoldable pub remove : Text → ByPrinting F → Option (List (CopySummary F)) × ByPrinting F
  unfolding equal
  remove id [] = (none, [])
  remove id ((key, copies) ∷ rest) =
      let later = keep_entry (key, copies) (remove id rest) in
      if equal key id then (some copies, rest) else later

  abbrev pub with_copies : SearchRow F → Option (List (CopySummary F)) → SearchRow F
  with_copies row none = row
  with_copies row (some cs) = record row { copies = cs }

  unfoldable pub hand_out : List (SearchRow F) → ByPrinting F → List (SearchRow F)
  unfolding remove
  hand_out [] by = []
  hand_out (row ∷ rows) by =
      let (found, rest) = remove row.printing_id by in with_copies row found ∷ hand_out rows rest

  unfoldable pub gather : Db F → List (List Text) → ByPrinting F → Result (ByPrinting F)
  unfolding push_all copies_sql
  gather db [] by = ok by
  gather db (chunk ∷ rest) by = do
    entries ← db.query_copies (copies_sql chunk) chunk
    gather db rest (push_all entries by)

  unfoldable pub attach_copies : Db F → List (SearchRow F) → Result (List (SearchRow F))
  unfolding gather hand_out chunks
  attach_copies db rows = do
    let ids = map (λ (r : SearchRow F). r.printing_id) rows
    by ← gather db (chunks (length ids) chunk_size ids) []
    ok (hand_out rows by)
