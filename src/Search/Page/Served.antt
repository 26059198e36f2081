-- ===== src/Search/Page/Served.antt =====
-- crates/pkdump-db/src/search.rs: one page, over a database that answers the row query.
use pokedumpster.Base.{
  Text, ℕ, ◌≡◌, refl, Option, List, [], ◌∷◌, ◌++◌, map, length, arith, ◌∙◌, ap, sym,
}
use pokedumpster.Search.Value.{Value}
use pokedumpster.Search.Flag.{Dir}
use pokedumpster.Search.Compile.{CompiledSearch}
use pokedumpster.Search.Order.{order_keys}
use pokedumpster.Search.Statement.{Bound, keyset, build_sql}
use pokedumpster.Search.Meaning.{values_of}
use pokedumpster.Search.Cursor.{Result, ok, err, panic, ◌>>=◌}
use pokedumpster.Search.Row.{
  SearchRow, Columns, CopySummary, Db, row_from, attach_copies, gather, hand_out, remove,
  ByPrinting, chunks, chunk_size, push_all, copies_sql,
}
use pokedumpster.Search.Page.{Keyed, or_panic, read_rows, row_of, zip_copies, attached, run_keyed}
use pokedumpster.Search.Page.Sorted.{Entry}

bind_assoc :
    {A B C : Type 0} (m : Result A) (f : A → Result B) (g : B → Result C)
    → ((m >>= f) >>= g) ≡ (m >>= λ a. f a >>= g)
bind_assoc (ok a) f g = refl
bind_assoc (err e) f g = refl
bind_assoc panic f g = refl

module _ {F : Type 0} where
  -- What a page keeps of a row, up to its copies: the printing and the values of the keys.
  abbrev pub view : Keyed F → Text × List (Value F)
  view (r, keys) = (r.printing_id, keys)

  abbrev pub view_of : List (Text × Dir) → Entry F → Text × List (Value F)
  view_of keys e = (e.columns.printing_id, values_of keys e.env)

  abbrev pub answer : List (Text × Dir) → Entry F → Columns F × List (Value F)
  answer keys e = (e.columns, values_of keys e.env)

  -- The statement of a bound, run.
  abbrev pub ask :
      Db F → CompiledSearch F → Bound F → ℕ → Result (List (Columns F × List (Value F)))
  ask db c bound n = do
    f ← or_panic (build_sql c bound n)
    db.query_rows f.0 (c.params ++ f.1) (length (order_keys c))

  hand_out-view :
      (rows : List (SearchRow F)) (by : ByPrinting F) → length (hand_out rows by) ≡ length rows
  unfolding hand_out
  hand_out-view [] by = refl
  hand_out-view (r ∷ rows) by = omega (arith, hand_out-view rows (remove r.printing_id by).1)

  zip_copies-view :
      (ks : List (Keyed F)) (done : List (SearchRow F))
      → map view (zip_copies ks done) ≡ map view ks
  unfolding zip_copies
  zip_copies-view [] done = refl
  zip_copies-view (k ∷ ks) [] = refl
  zip_copies-view ((r, keys) ∷ ks) (d ∷ done) = rw (zip_copies-view ks done) refl

  module _ (db : Db F)
      (answers : (sql : Text) (ids : List Text)
        → (es : List (Text × CopySummary F)) × (db.query_copies sql ids ≡ ok es)) where
    gather_total :
        (cs : List (List Text)) (by : ByPrinting F)
        → (by' : ByPrinting F) × (gather db cs by ≡ ok by')
    unfolding gather
    gather_total [] by = (by, refl)
    gather_total (ids ∷ cs) by =
        let (es, e) = answers (copies_sql ids) ids in
        let (by', e') = gather_total cs (push_all es by) in (by', rw (e, ◌>>=◌) e')

    attached_total :
        (ks : List (Keyed F))
        → (ks' : List (Keyed F)) × (attached db ks ≡ ok ks') × (map view ks' ≡ map view ks)
    unfolding attach_copies
    attached_total [] = ([], refl, refl)
    attached_total (k ∷ ks) =
        let ids = map (λ (r : SearchRow F). r.printing_id) (map row_of (k ∷ ks)) in
        let (by, e) = gather_total (chunks (length ids) chunk_size ids) [] in
        (
          zip_copies (k ∷ ks) (hand_out (map row_of (k ∷ ks)) by),
          rw (e, ◌>>=◌) refl,
          zip_copies-view (k ∷ ks) (hand_out (map row_of (k ∷ ks)) by),
        )

    read_rows-view :
        (keys : List (Text × Dir)) (after : Option (List (Value F))) (es : List (Entry F))
        → map view (read_rows (keyset after) (map (answer keys) es)) ≡ map (view_of keys) es
    unfolding read_rows row_from
    read_rows-view keys after [] = refl
    read_rows-view keys after (e ∷ es) = rw (read_rows-view keys after es) refl

    run_keyed-ask :
        (c : CompiledSearch F) (bound : Bound F) (n : ℕ)
        → run_keyed db c bound n
          ≡ (ask db c bound n >>= λ found. attached db (read_rows bound found))
    unfolding run_keyed
    run_keyed-ask c bound n = sym (
        bind_assoc (or_panic (build_sql c bound n))
          (λ f. db.query_rows f.0 (c.params ++ f.1) (length (order_keys c)))
          (λ found. attached db (read_rows bound found)))

    -- The statement's answer, with the copies attached.
    pub run_keyed-view :
        (c : CompiledSearch F) (after : Option (List (Value F))) (n : ℕ) (es : List (Entry F))
        → ask db c (keyset after) n ≡ ok (map (answer (order_keys c)) es)
        → (ks : List (Keyed F)) × (run_keyed db c (keyset after) n ≡ ok ks)
          × (map view ks ≡ map (view_of (order_keys c)) es)
    run_keyed-view c after n es h =
        let (ks, e, v) =
          attached_total (read_rows (keyset after) (map (answer (order_keys c)) es)) in
        (
          ks,
          run_keyed-ask c (keyset after) n
              ∙ (ap (λ m. m >>= λ found. attached db (read_rows (keyset after) found)) h ∙ e),
          v ∙ read_rows-view (order_keys c) after es,
        )
