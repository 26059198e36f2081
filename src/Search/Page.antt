-- ===== src/Search/Page.antt =====
-- crates/pkdump-db/src/search.rs: one page of results, by offset and by cursor.
use pokedumpster.Base.{
  Text, codes, equal, ℕ, ◌+◌, ◌-◌, ◌%◌, ◌^◌, Option, none, some, List, [], ◌∷◌, ◌++◌, Bool, true,
  false, not, take, length, map, ltb, leb, ◌==◌, if◌then◌else◌,
}
use pokedumpster.Card.{ℤ}
use pokedumpster.Search.Value.{Value, Frag}
use pokedumpster.Search.Compile.{CompiledSearch}
use pokedumpster.Search.Order.{order_keys}
use pokedumpster.Search.Statement.{Bound, unbounded, offset, keyset, build_sql, totals_sql}
use pokedumpster.Search.Cursor.{
  Result, ok, err, panic, ◌>>=◌, invalid, Cursor, Codec, encode, decode, fingerprint, value_to_json,
  json_to_value,
}
use pokedumpster.Search.Row.{SearchRow, Columns, Db, row_from, attach_copies}
pub mod Sorted
pub mod Split
pub mod Served
pub mod Walk
pub mod Resume
pub mod Cut
pub mod Walked

pub record SearchPage (F : Type 0) : Type 0 where
  pub rows : List (SearchRow F)
  pub total : ℤ
  pub total_value : Option F
  pub limit : ℕ
  pub offset : ℕ
  pub next_cursor : Option Text
  pub totals_ms : Option F

pub data Slice : Type 0 where
  page : ℕ → ℕ → Slice
  all : Slice

abbrev pub u32_max : ℕ
u32_max = 2 ^ 32 - 1

-- What a page starts from: the cursor's values, and the totals.
pub record Start (F : Type 0) : Type 0 where
  pub after : Option (List (Value F))
  pub total : ℤ
  pub total_value : Option F
  pub totals_ms : Option F

-- A row with the values of its ORDER BY terms.
abbrev pub Keyed : Type 0 → Type 0
Keyed F = SearchRow F × List (Value F)

module _ {F : Type 0} where
  abbrev pub or_panic : Option (Frag F) → Result (Frag F)
  or_panic none = panic
  or_panic (some f) = ok f

  -- Only a keyset walk reads the values of the keys.
  abbrev pub keys_for : Bound F → List (Value F) → List (Value F)
  keys_for (keyset after) keys = keys
  keys_for _ keys = []

  unfoldable pub read_rows : Bound F → List (Columns F × List (Value F)) → List (Keyed F)
  unfolding row_from
  read_rows bound [] = []
  read_rows bound ((columns, keys) ∷ rest) =
      (row_from columns, keys_for bound keys) ∷ read_rows bound rest

  abbrev pub row_of : Keyed F → SearchRow F
  row_of (r, keys) = r

  -- The copies of `attach_copies`, row by row.
  unfoldable pub zip_copies : List (Keyed F) → List (SearchRow F) → List (Keyed F)
  zip_copies [] done = []
  zip_copies (k ∷ ks) [] = k ∷ ks
  zip_copies ((row, keys) ∷ ks) (d ∷ done) =
      (record row { copies = d.copies }, keys) ∷ zip_copies ks done

  abbrev pub attached : Db F → List (Keyed F) → Result (List (Keyed F))
  attached db [] = ok []
  attached db (k ∷ ks) = do
    done ← attach_copies db (map row_of (k ∷ ks))
    ok (zip_copies (k ∷ ks) done)

  module _ (db : Db F) (c : CompiledSearch F) where
    unfoldable pub totals : Result (ℤ × Option F)
    unfolding totals_sql
    totals = db.query_totals (totals_sql c) c.params

    unfoldable pub run_keyed : Bound F → ℕ → Result (List (Keyed F))
    unfolding build_sql order_keys read_rows attach_copies zip_copies
    run_keyed bound limit = do
      (sql, extra) ← or_panic (build_sql c bound limit)
      found ← db.query_rows sql (c.params ++ extra) (length (order_keys c))
      attached db (read_rows bound found)

    abbrev pub bound_of : Option (ℕ × ℕ) → Bound F × ℕ
    bound_of none = (unbounded, 0)
    bound_of (some (limit, start)) = (offset start, limit)

    unfoldable pub run : Option (ℕ × ℕ) → Result (List (SearchRow F))
    unfolding run_keyed
    run bounds = do keyed ← run_keyed (bound_of bounds).0 (bound_of bounds).1; ok (map row_of keyed)

    -- The unbounded search.
    unfoldable pub search : Result (List (SearchRow F))
    unfolding run
    search = run none

    abbrev pub slice_bounds : Slice → Option (ℕ × ℕ)
    slice_bounds (page limit start) = some (limit, start)
    slice_bounds all = none

    abbrev pub echoed : Slice → ℕ → ℕ × ℕ
    echoed (page limit start) n = (limit, start)
    echoed all n = (if leb n u32_max then n else u32_max, 0)

    unfoldable pub search_page : Slice → Result (SearchPage F)
    unfolding run totals
    search_page slice = do
      (total, total_value) ← totals
      rows ← run (slice_bounds slice)
      ok (record {
        rows = rows;
        total = total;
        total_value = total_value;
        limit = (echoed slice (length rows)).0;
        offset = (echoed slice (length rows)).1;
        next_cursor = none;
        totals_ms = some db.elapsed_ms;
      })

    module _ {N : Type 0} (codec : Codec F N) where
      abbrev pub checked : Cursor F N → Result (Start F)
      checked k =
          if not (equal k.fp (fingerprint codec c))
          then err (invalid (codes "cursor was issued for a different query or sort"))
          else if not (length k.keys == length (order_keys c))
          then err (invalid (codes "cursor is malformed"))
          else ok (record {
            after = some (map (json_to_value codec) k.keys);
            total = k.total;
            total_value = k.total_value;
            totals_ms = none;
          })

      unfoldable pub start : Option Text → Result (Start F)
      unfolding decode fingerprint equal json_to_value order_keys totals
      start none = do
        (t, v) ← totals
        ok (record { after = none; total = t; total_value = v; totals_ms = some db.elapsed_ms })
      start (some token) = do k ← decode codec token; checked k

      abbrev pub page_of : ℕ → Start F → List (SearchRow F) → Option Text → SearchPage F
      page_of limit s rows next = record {
        rows = rows;
        total = s.total;
        total_value = s.total_value;
        limit = limit;
        offset = 0;
        next_cursor = next;
        totals_ms = s.totals_ms;
      }

      -- The token of a page that more rows follow: the last row's keys and the totals.
      unfoldable pub next_token : Start F → List (Keyed F) → Option Text
      unfolding encode fingerprint value_to_json
      next_token s [] = none
      next_token s ((r, keys) ∷ []) = some (
          encode codec (record {
            fp = fingerprint codec c;
            keys = map (value_to_json codec) keys;
            total = s.total;
            total_value = s.total_value;
          }))
      next_token s (k ∷ m ∷ ks) = next_token s (m ∷ ks)

      -- `truncate`, and the cursor when a row was cut off.
      unfoldable pub cut : ℕ → Start F → List (Keyed F) → SearchPage F
      unfolding next_token
      cut limit s keyed =
          page_of limit s (map row_of (take limit keyed))
            (if ltb limit (length keyed) then next_token s (take limit keyed) else none)

      -- `limit + 1` wraps around in a release build.
      unfoldable pub page_from : ℕ → Start F → Result (SearchPage F)
      unfolding cut run_keyed
      page_from limit s =
          let full = do
            keyed ← run_keyed (keyset s.after) ((limit + 1) % 2 ^ 32)
            ok (cut limit s keyed)
          in if limit == 0 then ok (page_of limit s [] none) else full

      unfoldable pub search_page_after : ℕ → Option Text → Result (SearchPage F)
      unfolding start page_from
      search_page_after limit cursor = do s ← start cursor; page_from limit s
