-- ===== src/Search/Page/Resume.antt =====
-- crates/pkdump-db/src/search.rs: where the first page and the page of a token start.
use Prim.Native.Nat.{Ordering}
use pokedumpster.Base.{
  ◌≡◌, refl, Option, none, some, List, [], ◌∷◌, ◌++◌, All, take, map, length, ◌∙◌, ap, sym, subst,
  equal_refl, ==_refl, append_assoc,
}
use pokedumpster.Card.{ℤ}
use pokedumpster.Search.Value.{Value}
use pokedumpster.Search.Compile.{CompiledSearch}
use pokedumpster.Search.Order.{order_keys}
use pokedumpster.Search.Seek.{seek_predicate}
use pokedumpster.Search.Fits.Seek.{order_keys-pos}
use pokedumpster.Search.Meaning.{values_of}
use pokedumpster.Search.Meaning.Logic.{is_true}
use pokedumpster.Search.Meaning.Seek.{is_true-seek, seek_predicate-render}
use pokedumpster.Search.Cursor.{
  ok, ◌>>=◌, Codec, fingerprint, value_to_json, json_to_value, or_invalid,
}
use pokedumpster.Search.Cursor.RoundTrip.{
  IsKept, IsCodec, decode-encode, json_to_value-value_to_json,
}
use pokedumpster.Search.Row.{Db}
use pokedumpster.Search.Page.{Start, totals, start, checked}
use pokedumpster.Search.Page.Sorted.{Entry, keep, IsSorted, behind, keep-behind}
use pokedumpster.Search.Page.Split.{keep_congr, length-map, All-middle}
use pokedumpster.Search.Page.Served.{answer}
use pokedumpster.Search.Page.Walk.{
  length-values_of, cursor_for, token_for, AnswersBehind, IsRead, meets, IsWritten, IsServed,
  Stands,
}

values-kept :
    {F N : Type 0} (codec : Codec F N) (laws : IsCodec codec) (vs : List (Value F))
    → All (IsKept codec) vs
    → map (json_to_value codec) (map (value_to_json codec) vs) ≡ vs
values-kept codec laws [] h = refl
values-kept codec laws (v ∷ vs) h =
    rw (json_to_value-value_to_json codec laws v h.0, values-kept codec laws vs h.1) refl

module _ {F N : Type 0} (db : Db F) (c : CompiledSearch F) (codec : Codec F N)
    (order : Value F → Value F → Ordering) (table : List (Entry F)) (t : ℤ) (v : Option F)
    (served : IsServed db c codec order table t v) where
  pub first_start :
      (s : Start F) × (start db c codec none ≡ ok s) × Stands db c codec table t v s table
  unfolding start totals
  first_start = (
    record { after = none; total = t; total_value = v; totals_ms = some db.elapsed_ms },
    rw served.counted refl,
    record { front = []; split = refl; total = refl; total_value = refl; answers = served.first },
  )

  checked_cursor :
      (keys : List (Value F))
      → length keys ≡ length (order_keys c)
      → All (IsKept codec) keys
      → checked db c codec (cursor_for db c codec keys t v)
        ≡ ok (record { after = some keys; total = t; total_value = v; totals_ms = none })
  checked_cursor keys len kept =
      rw
        (
          equal_refl (fingerprint codec c),
          length-map (value_to_json codec) keys,
          len,
          ==_refl (length (order_keys c)),
          values-kept codec served.numbers keys kept,
        )
        refl

  meets-behind :
      (e : Entry F)
      → IsRead db c codec served.meaning order e
      → (o : Entry F)
      → meets db c codec served.meaning
          (seek_predicate (order_keys c) (values_of (order_keys c) e.env))
          o.env
        ≡ behind order (order_keys c) e o
  meets-behind e reads o =
      let len = length-values_of (order_keys c) e.env in
      ap (λ f. meets db c codec served.meaning f o.env)
        (seek_predicate-render (order_keys c) (values_of (order_keys c) e.env) len
          (order_keys-pos c))
      ∙ (ap is_true (reads o.env)
          ∙ is_true-seek order o.env (order_keys c) (values_of (order_keys c) e.env) len)

  rows_behind :
      (front : List (Entry F)) (e : Entry F) (rest : List (Entry F))
      → table ≡ front ++ e ∷ rest
      → keep
          (λ o.
            meets db c codec served.meaning
              (seek_predicate (order_keys c) (values_of (order_keys c) e.env))
              o.env)
          table
        ≡ rest
  rows_behind front e rest h =
      keep_congr
        (λ o.
          meets db c codec served.meaning
            (seek_predicate (order_keys c) (values_of (order_keys c) e.env)) o.env)
        (behind order (order_keys c) e) table
        (meets-behind e (
          All-middle (IsRead db c codec served.meaning order) front e rest
            (subst (All (IsRead db c codec served.meaning order)) h served.reads)))
      ∙ (ap (keep (behind order (order_keys c) e)) h
          ∙ keep-behind order (order_keys c) served.ordered front e rest
              (subst (IsSorted order (order_keys c)) h served.sorted))

  at_cursor :
      (front : List (Entry F)) (e : Entry F) (rest : List (Entry F))
      → table ≡ front ++ e ∷ rest
      → AnswersBehind db c codec served.meaning table e
  at_cursor front e rest h =
      All-middle (AnswersBehind db c codec served.meaning table) front e rest
        (subst (All (AnswersBehind db c codec served.meaning table)) h served.behind)

  -- The token of a row leads to the rows that follow it.
  pub later_start :
      (front : List (Entry F)) (e : Entry F) (rest : List (Entry F))
      → table ≡ front ++ e ∷ rest
      → (s : Start F) × (start db c codec
            (some (token_for db c codec (values_of (order_keys c) e.env) t v))
          ≡ ok s)
        × Stands db c codec table t v s rest
  unfolding start
  later_start front e rest h =
      let keys = values_of (order_keys c) e.env in
      let w =
        All-middle
          (λ o. IsWritten db c codec (cursor_for db c codec (values_of (order_keys c) o.env) t v))
          front e rest
          (subst
            (All λ o.
              IsWritten db c codec (cursor_for db c codec (values_of (order_keys c) o.env) t v))
            h served.written) in
      (
        record { after = some keys; total = t; total_value = v; totals_ms = none },
        ap (λ m. m >>= checked db c codec)
              (decode-encode codec (cursor_for db c codec keys t v) w.0 ∙ ap or_invalid w.1)
            ∙ checked_cursor keys (length-values_of (order_keys c) e.env) (
                All-middle (λ o. All (IsKept codec) (values_of (order_keys c) o.env)) front e rest
                  (subst (All λ o. All (IsKept codec) (values_of (order_keys c) o.env)) h
                    served.kept)),
        record {
          front = front ++ e ∷ [];
          split = h ∙ sym (append_assoc front (e ∷ []) rest);
          total = refl;
          total_value = refl;
          answers = λ n.
              at_cursor front e rest h n
              ∙ ap (λ es. ok (map (answer (order_keys c)) (take n es)))
                  (rows_behind front e rest h);
        },
      )
