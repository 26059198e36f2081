-- ===== src/Tests/SearchPage.antt =====
-- The pages of crates/pkdump-db/src/search.rs at fixed inputs, over a database of two rows. Here `f64`
-- is ℕ, and a number of JSON is one of the two kinds.
use Prim.Native.Nat.{Ordering, compare}
use pokedumpster.Base.{
  Text, codes, equal, ℕ, ◌+◌, ◌≡◌, ◌↔◌, refl, Option, none, some, List, [], ◌∷◌, if◌then◌else◌,
  arith, map, take, ◌==◌,
}
use pokedumpster.Card.{ℤ, pos, negsuc}
use pokedumpster.Search.Value.{Value, text, integer, real, blob}
use pokedumpster.Search.Compile.{CompiledSearch, compile_all}
use pokedumpster.Search.Order.{order_keys}
use pokedumpster.Search.Statement.{build_sql}
use pokedumpster.Search.Seek.{seek_predicate}
use pokedumpster.Search.Meaning.{Pred, render, holds, truth_of, row_order, values_of}
use pokedumpster.Search.Meaning.Select.{seek}
use pokedumpster.Search.Meaning.Lex.{IsOrder}
use pokedumpster.Search.Meaning.Seek.{seek_predicate-Selects}
use pokedumpster.Search.Cursor
use pokedumpster.Search.Cursor.{
  Result, ok, err, Json, string, number, Cursor, Codec, encode, decode, hex, fingerprint,
}
use pokedumpster.Search.Cursor.RoundTrip.{decode-encode}
use pokedumpster.Search.Row.{Columns, Db}
use pokedumpster.Search.Page.Sorted.{Entry}
use pokedumpster.Search.Page.Served.{answer}
use pokedumpster.Search.Page.Walk.{IsServed, walk}
use pokedumpster.Search.Page.Cut.{printings}
use pokedumpster.Search.Page.Walked.{walk-table}

-- The order of the values is by a number that stands for each.
abbrev weight : Value ℕ → ℕ
weight Value.null = 0
weight (integer (pos n)) = n
weight (integer (negsuc n)) = 0
weight (real x) = x
weight (text []) = 1000
weight (text (c ∷ s)) = 1001 + c
weight (blob b) = 5000

abbrev order : Value ℕ → Value ℕ → Ordering
order v w = compare (weight v) (weight w)

order-IsOrder : IsOrder order
order-IsOrder = record { same = λ v. ground arith; flipped = λ v w. ground arith }

abbrev pikachu : Columns ℕ
pikachu = record {
  printing_id = codes "base1-58";
  card_id = codes "base1-58";
  set_code = codes "base1";
  set_name = codes "Base Set";
  ptcgo_code = none;
  symbol_url = none;
  number = codes "58";
  name = codes "Pikachu";
  rarity = none;
  supertype = none;
  subtypes = none;
  types = none;
  attack_costs = none;
  market_price = none;
  image_small = none;
  variant = codes "normal";
  owned_count = pos 1;
}

abbrev blastoise : Columns ℕ
blastoise = record pikachu {
  printing_id = codes "base1-2";
  card_id = codes "base1-2";
  number = codes "2";
  name = codes "Blastoise";
}

-- The expressions of the sort by name.
abbrev env : Columns ℕ → ℕ → Text → Value ℕ
env r n expr =
    if equal expr (codes "cd.name")
    then text r.name
    else if equal expr (codes "cd.number_sortable")
    then integer (pos n)
    else text r.printing_id

abbrev first_row : Entry ℕ
first_row = record { columns = blastoise; env = env blastoise 2 }

abbrev second_row : Entry ℕ
second_row = record { columns = pikachu; env = env pikachu 58 }

abbrev table : List (Entry ℕ)
table = first_row ∷ second_row ∷ []

abbrev all_owned : CompiledSearch ℕ
all_owned = compile_all

-- The token of the first row.
abbrev first_cursor : Cursor ℕ (Option ℕ × ℤ)
first_cursor = record {
  fp = codes "0102030405060708";
  keys = string (codes "Blastoise") ∷ number (none, pos 2) ∷ string (codes "base1-2") ∷ [];
  total = pos 2;
  total_value = some 7;
}

abbrev second_cursor : Cursor ℕ (Option ℕ × ℤ)
second_cursor = record first_cursor {
  keys = string (codes "Pikachu") ∷ number (none, pos 58) ∷ string (codes "base1-58") ∷ [];
}

abbrev bytes_of : List (Json (Option ℕ × ℤ)) → List ℕ
bytes_of (string (c ∷ s) ∷ keys) = if c == b'B' then b'{' ∷ b'B' ∷ [] else b'{' ∷ []
bytes_of _ = b'{' ∷ []

-- A number that is `some x` came from an `f64`, any other from an `i64`. The bytes name the cursor.
abbrev codec : Codec ℕ (Option ℕ × ℤ)
codec = record {
  from_i64 = λ i. (none, i);
  from_f64 = λ x. some (some x, pos 0);
  as_i64 = λ n. elim n.0 [ none ↦ some n.1 | some x ↦ none ];
  as_f64 = λ n. n.0;
  zero_f64 = 0;
  to_vec = λ k. bytes_of k.keys;
  from_slice = λ bs. if equal bs (b'{' ∷ b'B' ∷ []) then some first_cursor else some second_cursor;
  digest = λ parts. 1 ∷ 2 ∷ 3 ∷ 4 ∷ 5 ∷ 6 ∷ 7 ∷ 8 ∷ 9 ∷ [];
  debug = λ params. [];
}

abbrev last_integer : List (Value ℕ) → ℕ
last_integer [] = 0
last_integer (integer (pos n) ∷ []) = n
last_integer (v ∷ vs) = last_integer vs

-- The rows behind the values that come first, up to the last value.
abbrev rows_for : List (Value ℕ) → List (Entry ℕ)
rows_for (integer (pos n) ∷ []) = take n table
rows_for (text (c ∷ s) ∷ vs) = take (last_integer vs) (if c == b'B' then second_row ∷ [] else [])
rows_for vs = take (last_integer vs) []

-- The key values that are bound for a cursor.
abbrev keys_of : List (Value ℕ) → List (Value ℕ)
keys_of (text (c ∷ s) ∷ vs) =
    if c == b'B'
    then text (codes "Blastoise") ∷ integer (pos 2) ∷ text (codes "base1-2") ∷ []
    else text (codes "Pikachu") ∷ integer (pos 58) ∷ text (codes "base1-58") ∷ []
keys_of vs = []

abbrev db : Db ℕ
db = record {
  query_totals = λ sql params. ok (pos 2, some 7);
  query_rows = λ sql params k. ok (map (answer (order_keys {F = ℕ} all_owned)) (rows_for params));
  query_copies = λ sql ids. ok [];
  elapsed_ms = 3;
}

served : IsServed db all_owned codec order table (pos 2) (some 7)
unfolding compile_all order_keys build_sql seek_predicate render values_of row_order truth_of
    fingerprint hex pokedumpster.Search.Seek.lead pokedumpster.Search.Seek.chain
    Cursor.value_to_json
served = record {
  ordered = order-IsOrder;
  sorted = ((refl, tt), (tt, tt));
  counted = refl;
  first = λ n. refl;
  meaning = λ f row. truth_of order (seek (order_keys all_owned) (keys_of f.1)) row;
  reads = (λ row. refl, (λ row. refl, tt));
  behind = (λ n. refl, (λ n. refl, tt));
  copies = λ sql ids. ([], refl);
  kept = ((tt, (tt, (tt, tt))), ((tt, (tt, (tt, tt))), tt));
  numbers = record {
    as_i64-from_i64 = λ i. refl;
    as_i64-from_f64 = λ x n e. ground arith;
    as_f64-from_f64 = λ x n e. ground arith;
  };
  written = (((omega arith, (omega arith, tt)), refl), (((omega arith, tt), refl), tt));
}

walk-table_example : walk db all_owned codec 1 3 none ≡ some (printings table)
walk-table_example =
    walk-table db all_owned codec order table (pos 2) (some 7) served 1 (omega arith) (omega arith)

abbrev first_keys : List (Value ℕ)
first_keys = text (codes "Blastoise") ∷ integer (pos 2) ∷ text (codes "base1-2") ∷ []

seek_predicate-Selects_example :
    (p : Pred ℕ) × (seek_predicate (order_keys all_owned) first_keys ≡ some (render p))
    × ((row : Text → Value ℕ)
        → (truth_of order p row ≡ holds) ↔ (
            row_order order (order_keys all_owned) (values_of (order_keys all_owned) row) first_keys
            ≡ Ordering.gt))
unfolding compile_all order_keys
seek_predicate-Selects_example =
    seek_predicate-Selects order (order_keys all_owned) first_keys refl (omega arith)

decode-encode_example : decode codec (encode codec first_cursor) ≡ ok first_cursor
unfolding equal
decode-encode_example = decode-encode codec first_cursor (omega arith, (omega arith, tt))
