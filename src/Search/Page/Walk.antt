-- ===== src/Search/Page/Walk.antt =====
-- crates/pkdump-db/src/search.rs: following the cursors from the first page to the last.
use Prim.Native.Nat.{Ordering}
use pokedumpster.Base.{
  Text, ℕ, zero, suc, ◌≡◌, refl, Option, none, some, List, [], ◌∷◌, ◌++◌, All, take, map, length,
  ap, Bool, false,
}
use mathlib.Core.Option
use pokedumpster.Card.{ℤ}
use pokedumpster.Search.Value.{Value, Frag}
use pokedumpster.Search.Flag.{Dir}
use pokedumpster.Search.Compile.{CompiledSearch}
use pokedumpster.Search.Order.{order_keys}
use pokedumpster.Search.Seek.{seek_predicate}
use pokedumpster.Search.Statement.{keyset, totals_sql}
use pokedumpster.Search.Meaning.{Truth, render, values_of, truth_of}
use pokedumpster.Search.Meaning.Select.{seek}
use pokedumpster.Search.Meaning.Logic.{is_true}
use pokedumpster.Search.Meaning.Lex.{IsOrder}
use pokedumpster.Search.Cursor.{Result, ok, Cursor, Codec, encode, fingerprint, value_to_json}
use pokedumpster.Search.Cursor.RoundTrip.{AreBytes, IsKept, IsCodec}
use pokedumpster.Search.Row.{SearchRow, CopySummary, Db}
use pokedumpster.Search.Page.{Keyed, Start, next_token, search_page_after, SearchPage}
use pokedumpster.Search.Page.Sorted.{Entry, keep, IsSorted}
use pokedumpster.Search.Page.Served.{view, answer, ask}

abbrev pub ids : {F : Type 0} → List (SearchRow F) → List Text
ids = map λ r. r.printing_id

pub length-values_of :
    {F : Type 0} (keys : List (Text × Dir)) (row : Text → Value F)
    → length (values_of keys row) ≡ length keys
unfolding values_of
length-values_of [] row = refl
length-values_of ((expr, dir) ∷ keys) row = ap suc (length-values_of keys row)

module _ {F N : Type 0} (db : Db F) (c : CompiledSearch F) (codec : Codec F N) where
  abbrev pub cursor_for : List (Value F) → ℤ → Option F → Cursor F N
  cursor_for keys t v = record {
    fp = fingerprint codec c;
    keys = map (value_to_json codec) keys;
    total = t;
    total_value = v;
  }

  abbrev pub token_for : List (Value F) → ℤ → Option F → Text
  token_for keys t v = encode codec (cursor_for keys t v)

  -- `serde_json` writes bytes and reads the cursor back.
  abbrev pub IsWritten : Cursor F N → Type 0
  IsWritten k = AreBytes (codec.to_vec k) × (codec.from_slice (codec.to_vec k) ≡ some k)

  -- Whether a row meets the predicate that was written, by what the database reads in it.
  abbrev pub meets : (Frag F → (Text → Value F) → Truth) → Option (Frag F) → (Text → Value F) → Bool
  meets meaning none row = false
  meets meaning (some f) row = is_true (meaning f row)

  -- Behind a row's key values the database answers the first rows that meet the predicate of
  -- `seek_predicate`.
  abbrev pub AnswersBehind : (Frag F → (Text → Value F) → Truth) → List (Entry F) → Entry F → Type 0
  AnswersBehind meaning table e =
      (n : ℕ)
      → ask db c (keyset (some (values_of (order_keys c) e.env))) n
        ≡ ok (
            map (answer (order_keys c)) (
              take n (
                keep
                  (λ o.
                    meets meaning (seek_predicate (order_keys c) (values_of (order_keys c) e.env))
                      o.env)
                  table)))

  -- The text of the comparisons behind a row is read as these comparisons.
  abbrev pub IsRead :
      (Frag F → (Text → Value F) → Truth) → (Value F → Value F → Ordering) → Entry F → Type 0
  IsRead meaning order e =
      (row : Text → Value F)
      → meaning (render (seek (order_keys c) (values_of (order_keys c) e.env))) row
        ≡ truth_of order (seek (order_keys c) (values_of (order_keys c) e.env)) row

  -- What is asked of the database, of its order of values and of the table. The query matches the rows of
  -- the table in ORDER BY order; the statement of a bound answers the first rows of the table, or the first
  -- of those that meet the predicate that `seek_predicate` writes, of which the database reads each
  -- comparison with SQL's logic of NULL. And the table is one whose cursors `serde_json` reads back as they
  -- were written, which it does not promise of every `f64`.
  pub record IsServed (order : Value F → Value F → Ordering) (table : List (Entry F)) (t : ℤ)
      (v : Option F) : Type 0 where
    pub ordered : IsOrder order
    pub sorted : IsSorted order (order_keys c) table
    pub counted : db.query_totals (totals_sql c) c.params ≡ ok (t, v)
    pub first : (n : ℕ) → ask db c (keyset none) n ≡ ok (map (answer (order_keys c)) (take n table))
    pub meaning : Frag F → (Text → Value F) → Truth
    pub reads : All (IsRead meaning order) table
    pub behind : All (AnswersBehind meaning table) table
    pub copies :
        (sql : Text) (ids : List Text)
        → (es : List (Text × CopySummary F)) × (db.query_copies sql ids ≡ ok es)
    pub kept : All (λ e. All (IsKept codec) (values_of (order_keys c) e.env)) table
    pub numbers : IsCodec codec
    pub written : All (λ e. IsWritten (cursor_for (values_of (order_keys c) e.env) t v)) table

  abbrev pub more_pages :
      List (SearchRow F) → Option Text → (Text → Option (List Text)) → Option (List Text)
  more_pages rows none go = some (ids rows)
  more_pages rows (some token) go = Option.map (λ more. ids rows ++ more) (go token)

  abbrev pub follow : Result (SearchPage F) → (Text → Option (List Text)) → Option (List Text)
  follow (ok p) go = more_pages p.rows p.next_cursor go
  follow _ go = none

  -- The printings of the pages from a cursor on; `none` if a page fails or the fuel runs out.
  unfoldable pub walk : ℕ → ℕ → Option Text → Option (List Text)
  unfolding search_page_after
  walk limit zero cursor = none
  walk limit (suc fuel) cursor =
      follow (search_page_after db c codec limit cursor) λ token. walk limit fuel (some token)

  -- The token of the last of some rows.
  abbrev pub token_last : ℤ → Option F → List (Text × List (Value F)) → Option Text
  token_last t v [] = none
  token_last t v ((id, keys) ∷ []) = some (token_for keys t v)
  token_last t v (x ∷ y ∷ xs) = token_last t v (y ∷ xs)

  pub next_token-view :
      (s : Start F) (ks : List (Keyed F))
      → next_token db c codec s ks ≡ token_last s.total s.total_value (map view ks)
  unfolding next_token
  next_token-view s [] = refl
  next_token-view s (k ∷ []) = refl
  next_token-view s (k ∷ m ∷ ks) = next_token-view s (m ∷ ks)

  pub token_last-append :
      (t : ℤ) (v : Option F) (front : List (Text × List (Value F))) (e : Text × List (Value F))
      → token_last t v (front ++ e ∷ []) ≡ some (token_for e.1 t v)
  token_last-append t v [] e = refl
  token_last-append t v (x ∷ []) e = refl
  token_last-append t v (x ∷ y ∷ front) e = token_last-append t v (y ∷ front) e

  -- A start behind which the rest of the table lies.
  pub record Stands (table : List (Entry F)) (t : ℤ) (v : Option F) (s : Start F)
      (rest : List (Entry F)) : Type 0 where
    pub front : List (Entry F)
    pub split : table ≡ front ++ rest
    pub total : s.total ≡ t
    pub total_value : s.total_value ≡ v
    pub answers :
        (n : ℕ) → ask db c (keyset s.after) n ≡ ok (map (answer (order_keys c)) (take n rest))
