-- ===== src/Search/Page/Cut.antt =====
-- crates/pkdump-db/src/search.rs: a page is the first of the rows that are left.
use Prim.Native.Nat.{Ordering}
use pokedumpster.Base.{
  Text, ℕ, zero, suc, ◌+◌, ◌%◌, ◌^◌, ◌≤◌, ◌<◌, ◌≡◌, refl, Option, none, List, [], ◌∷◌, ◌++◌, false,
  if◌then◌else◌, take, map, length, arith, ltb, ◌∙◌, ap, sym, ◌==◌,
}
use pokedumpster.Card.{ℤ}
use pokedumpster.Search.Value.{Value}
use pokedumpster.Search.Flag.{Dir}
use pokedumpster.Search.Compile.{CompiledSearch}
use pokedumpster.Search.Order.{order_keys}
use pokedumpster.Search.Statement.{keyset}
use pokedumpster.Search.Cursor.{ok, ◌>>=◌, Codec}
use pokedumpster.Search.Row.{Db}
use pokedumpster.Search.Page.{Keyed, row_of, run_keyed, Start, cut, page_from, SearchPage}
use pokedumpster.Search.Page.Sorted.{Entry}
use pokedumpster.Search.Page.Split.{take-take-suc, ltb-length-take-suc, map-take, length-map}
use pokedumpster.Search.Page.Served.{view, view_of, ask, run_keyed-view}
use pokedumpster.Search.Page.Walk.{ids, IsServed, token_last, next_token-view, Stands}

ids-view : {F : Type 0} (ks : List (Keyed F)) → ids (map row_of ks) ≡ map (λ p. p.0) (map view ks)
ids-view [] = refl
ids-view (k ∷ ks) = rw (ids-view ks) refl

-- The printings of some rows of the table.
abbrev pub printings : {F : Type 0} → List (Entry F) → List Text
printings = map λ e. e.columns.printing_id

printings-view :
    {F : Type 0} (keys : List (Text × Dir)) (es : List (Entry F))
    → map (λ p. p.0) (map (view_of keys) es) ≡ printings es
printings-view keys [] = refl
printings-view keys (e ∷ es) = rw (printings-view keys es) refl

pub map-append' :
    {A B : Type 0} (f : A → B) (xs ys : List A) → map f (xs ++ ys) ≡ map f xs ++ map f ys
map-append' f [] ys = refl
map-append' f (x ∷ xs) ys = rw (map-append' f xs ys) refl

suc_ne_zero : (m : ℕ) → (suc m == 0) ≡ false
suc_ne_zero m = ground arith

limit_suc : (m : ℕ) → suc m + 1 < 2 ^ 32 → (suc m + 1) % 2 ^ 32 ≡ suc (suc m)
limit_suc m b = omega arith

module _ {F N : Type 0} (db : Db F) (c : CompiledSearch F) (codec : Codec F N)
    (order : Value F → Value F → Ordering) (table : List (Entry F)) (t : ℤ) (v : Option F)
    (served : IsServed db c codec order table t v) where
  module _ (n : ℕ) (s : Start F) (rest : List (Entry F)) (ks : List (Keyed F))
      (st : Stands db c codec table t v s rest)
      (w : map view ks ≡ map (view_of (order_keys c)) (take (suc n) rest)) where
    view_taken : map view (take n ks) ≡ map (view_of (order_keys c)) (take n rest)
    view_taken =
        map-take view n ks
        ∙ (ap (take n) w
            ∙ (sym (map-take (view_of (order_keys c)) n (take (suc n) rest))
                ∙ ap (map (view_of (order_keys c))) (take-take-suc n rest)))

    cut-rows : ids (cut db c codec n s ks).rows ≡ printings (take n rest)
    unfolding cut
    cut-rows =
        ids-view (take n ks)
        ∙ (ap (map (λ p. p.0)) view_taken ∙ printings-view (order_keys c) (take n rest))

    more_left : ltb n (length ks) ≡ ltb n (length rest)
    more_left =
        ap (ltb n) (
          sym (length-map view ks)
          ∙ (ap length w ∙ length-map (view_of (order_keys c)) (take (suc n) rest)))
        ∙ ltb-length-take-suc n rest

    cut-next_cursor : (cut db c codec n s ks).next_cursor ≡ (
        if ltb n (length rest)
        then token_last db c codec t v (map (view_of (order_keys c)) (take n rest))
        else none)
    unfolding cut
    cut-next_cursor =
        rw
          (
            more_left,
            next_token-view db c codec s (take n ks),
            view_taken,
            st.total,
            st.total_value,
          )
          refl

  page_from-suc :
      (m : ℕ) (s : Start F)
      → page_from db c codec (suc m) s ≡ (
          run_keyed db c (keyset s.after) ((suc m + 1) % 2 ^ 32) >>= λ keyed.
          ok (cut db c codec (suc m) s keyed))
  unfolding page_from
  page_from-suc m s = rw (suc_ne_zero m) refl

  -- A page from a start: the first of the rows that are left, and a token if more are left.
  pub page-Stands :
      (limit : ℕ) (s : Start F) (rest : List (Entry F))
      → 1 ≤ limit
      → limit + 1 < 2 ^ 32
      → Stands db c codec table t v s rest
      → (p : SearchPage F) × (page_from db c codec limit s ≡ ok p)
        × (ids p.rows ≡ printings (take limit rest))
        × (p.next_cursor ≡ (
            if ltb limit (length rest)
            then token_last db c codec t v (map (view_of (order_keys c)) (take limit rest))
            else none))
  page-Stands zero s rest l b st = absurd (omega arith)
  page-Stands (suc m) s rest l b st =
      let (ks, e, w) =
        run_keyed-view db served.copies c s.after ((suc m + 1) % 2 ^ 32) (take (suc (suc m)) rest)
          (ap (ask db c (keyset s.after)) (limit_suc m b) ∙ st.answers (suc (suc m))) in
      (
        cut db c codec (suc m) s ks,
        page_from-suc m s ∙ ap (λ r. r >>= λ keyed. ok (cut db c codec (suc m) s keyed)) e,
        cut-rows (suc m) s rest ks st w,
        cut-next_cursor (suc m) s rest ks st w,
      )
