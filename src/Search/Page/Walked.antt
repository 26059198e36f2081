-- ===== src/Search/Page/Walked.antt =====
-- crates/pkdump-db/src/search.rs: following the cursors returns every row once, in order.
use Prim.Native.Nat.{Ordering}
use pokedumpster.Base.{
  Text, ℕ, zero, suc, ◌+◌, ◌^◌, ◌≤◌, ◌<◌, ◌≡◌, Option, none, some, List, [], ◌∷◌, ◌++◌, Bool,
  if◌then◌else◌, take, drop, map, length, arith, ltb, ◌∙◌, ap, sym, Bool-cases, inl, inr,
  append_assoc,
}
use mathlib.Core.Option
use pokedumpster.Card.{ℤ}
use pokedumpster.Search.Value.{Value}
use pokedumpster.Search.Compile.{CompiledSearch}
use pokedumpster.Search.Order.{order_keys}
use pokedumpster.Search.Meaning.{values_of}
use pokedumpster.Search.Cursor.{ok, ◌>>=◌, Codec}
use pokedumpster.Search.Row.{Db}
use pokedumpster.Search.Page.{Start, start, page_from, search_page_after, SearchPage}
use pokedumpster.Search.Page.Sorted.{Entry}
use pokedumpster.Search.Page.Split.{take_all, take-append-drop, length-drop-lt, last_split}
use pokedumpster.Search.Page.Served.{view_of}
use pokedumpster.Search.Page.Walk.{
  ids, token_for, IsServed, more_pages, follow, walk, token_last, token_last-append, Stands,
}
use pokedumpster.Search.Page.Resume.{first_start, later_start}
use pokedumpster.Search.Page.Cut.{printings, map-append', page-Stands}

module _ {F N : Type 0} (db : Db F) (c : CompiledSearch F) (codec : Codec F N)
    (order : Value F → Value F → Ordering) (table : List (Entry F)) (t : ℤ) (v : Option F)
    (served : IsServed db c codec order table t v) where
  -- What the walk does behind a page.
  walk_page :
      (limit fuel : ℕ) (cursor : Option Text) (s : Start F) (p : SearchPage F)
      → start db c codec cursor ≡ ok s
      → page_from db c codec limit s ≡ ok p
      → walk db c codec limit (suc fuel) cursor
        ≡ more_pages db c codec p.rows p.next_cursor
            (λ token. walk db c codec limit fuel (some token))
  unfolding walk search_page_after
  walk_page limit fuel cursor s p o e =
      ap
        (λ m.
          follow db c codec (m >>= page_from db c codec limit)
            λ token. walk db c codec limit fuel (some token))
        o
      ∙ ap (λ m. follow db c codec m λ token. walk db c codec limit fuel (some token)) e

  split_later :
      (limit : ℕ) (before rest front : List (Entry F)) (e : Entry F)
      → table ≡ before ++ rest
      → take limit rest ≡ front ++ e ∷ []
      → table ≡ (before ++ front) ++ e ∷ drop limit rest
  split_later limit before rest front e h k =
      h
      ∙ (ap (λ es. before ++ es)
            (sym (take-append-drop limit rest)
              ∙ (ap (λ es. es ++ drop limit rest) k
                  ∙ append_assoc front (e ∷ []) (drop limit rest)))
          ∙ sym (append_assoc before front (e ∷ drop limit rest)))

  printings-split :
      (limit : ℕ) (rest : List (Entry F))
      → printings (take limit rest) ++ printings (drop limit rest) ≡ printings rest
  printings-split limit rest =
      sym (map-append' (λ e. e.columns.printing_id) (take limit rest) (drop limit rest))
      ∙ ap printings (take-append-drop limit rest)

  last_taken :
      (limit : ℕ) (rest : List (Entry F))
      → 1 ≤ limit
      → limit < length rest
      → (front : List (Entry F)) × (e : Entry F) × (take limit rest ≡ front ++ e ∷ [])
  last_taken zero rest l h = absurd (omega arith)
  last_taken (suc m) [] l h = absurd (omega arith)
  last_taken (suc m) (r ∷ rs) l h = last_split r (take m rs)

  token_taken :
      (es front : List (Entry F)) (e : Entry F)
      → es ≡ front ++ e ∷ []
      → token_last db c codec t v (map (view_of (order_keys c)) es)
        ≡ some (token_for db c codec (values_of (order_keys c) e.env) t v)
  token_taken es front e h =
      ap (λ es. token_last db c codec t v (map (view_of (order_keys c)) es)) h
      ∙ (ap (token_last db c codec t v) (map-append' (view_of (order_keys c)) front (e ∷ []))
          ∙ token_last-append db c codec t v (map (view_of (order_keys c)) front)
              (view_of (order_keys c) e))

  abbrev rest_if : ℕ → List (Entry F) → Bool → Option Text
  rest_if limit rest more =
      if more
      then token_last db c codec t v (map (view_of (order_keys c)) (take limit rest))
      else none

  -- Following the tokens from a start returns the rest of the table.
  walk-Stands :
      (limit fuel : ℕ) (cursor : Option Text) (s : Start F) (rest : List (Entry F))
      → 1 ≤ limit
      → limit + 1 < 2 ^ 32
      → length rest < fuel
      → start db c codec cursor ≡ ok s
      → Stands db c codec table t v s rest
      → walk db c codec limit fuel cursor ≡ some (printings rest)
  walk-Stands limit zero cursor s rest l b n o st = absurd (omega arith)
  walk-Stands limit (suc fuel) cursor s rest l b n o st =
      let (p, e, i, x) = page-Stands db c codec order table t v served limit s rest l b st in
      walk_page limit fuel cursor s p o e ∙ elim (Bool-cases (ltb limit (length rest))) [
        | inr last ↦
            ap
              (λ next.
                more_pages db c codec p.rows next λ token. walk db c codec limit fuel (some token))
              (x ∙ ap (rest_if limit rest) last)
            ∙ ap some (i ∙ ap printings (take_all limit rest (ground arith)))
        | inl more ↦
            let (front, r, k) = last_taken limit rest l (ground arith) in
            let (s', o', st') =
              later_start db c codec order table t v served (st.front ++ front) r (drop limit rest)
                (split_later limit st.front rest front r st.split k) in
            ap
              (λ next.
                more_pages db c codec p.rows next λ token. walk db c codec limit fuel (some token))
              (x ∙ (ap (rest_if limit rest) more ∙ token_taken (take limit rest) front r k))
            ∙ (ap (Option.map λ later. ids p.rows ++ later) (
                  walk-Stands limit fuel
                    (some (token_for db c codec (values_of (order_keys c) r.env) t v)) s'
                    (drop limit rest) l b
                    (omega (arith, length-drop-lt limit rest l (ground arith))) o' st')
                ∙ ap some (
                    ap (λ rows. rows ++ printings (drop limit rest)) i
                    ∙ printings-split limit rest))
      ]

  -- At a page size from 1 to below 2^32 - 1, and where the database and the table are as `IsServed` asks,
  -- the cursors lead from the first page on through every printing of the table, once and in ORDER BY
  -- order, in one request for each row and one more at most.
  pub walk-table :
      (limit : ℕ)
      → 1 ≤ limit
      → limit + 1 < 2 ^ 32
      → walk db c codec limit (suc (length table)) none ≡ some (printings table)
  walk-table limit l b =
      let (s, o, st) = first_start db c codec order table t v served in
      walk-Stands limit (suc (length table)) none s table l b (omega arith) o st
