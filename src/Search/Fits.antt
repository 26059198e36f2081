-- ===== src/Search/Fits.antt =====
-- crates/pkdump-db/src/search.rs: placeholders and values of the fragments.
use pokedumpster.Base.{
  Text, codes, ℕ, suc, ◌+◌, ◌≡◌, refl, ap, Option, none, some, List, [], ◌∷◌, ◌++◌, Bool, true,
  false, if◌then◌else◌, length, length-append, equal, unwrap_or, to_ascii_lowercase, arith, All,
}
use pokedumpster.Query.Ast.{Op, contains, eq, ne, lt, gt, le, ge}
use pokedumpster.Search.Value.{
  Value, text, real, Frag, pct, negate, arms, arms-cases, marks, marks-append, Fits, join, if-cases,
  ◌&◌,
}
use pokedumpster.Search.Sql.{market_price_expr, owned_count_subq}
use pokedumpster.Search.Fragment.{
  num_op, quoted, exists_copy, like_contains, json_contains, json_array, enum_eq, rarity, set,
  variant_match, container, has_flag, numeric, pokedex, compared, has_flag_arms, is_ne,
  pokedex_number, in_container,
}
pub mod Compile
pub mod Tree
pub mod Seek
pub mod Statement

pub marks-num_op : (op : Op) → marks (num_op op) ≡ 0
unfolding marks num_op
marks-num_op contains = refl
marks-num_op eq = refl
marks-num_op ne = refl
marks-num_op lt = refl
marks-num_op gt = refl
marks-num_op le = refl
marks-num_op ge = refl

marks-null_test :
    (op : Op) → 0 + marks (if is_ne op then codes " IS NULL" else codes " IS NOT NULL") ≡ 0
unfolding marks
marks-null_test ne = refl
marks-null_test contains = refl
marks-null_test eq = refl
marks-null_test lt = refl
marks-null_test gt = refl
marks-null_test le = refl
marks-null_test ge = refl

pub marks-exists_copy : (inner : Text) → marks (exists_copy inner) ≡ marks inner
unfolding exists_copy marks
marks-exists_copy inner = rw marks-append (omega arith)

pub marks-negate : {F : Type 0} (f : Frag F) → Fits f → Fits (negate f)
unfolding negate marks Fits
marks-negate (s, p) h = rw marks-append (omega arith)

module _ (F : Type 0) (col val : Text) (plain : marks col ≡ 0) where
  pub like_contains-Fits : Fits {F = F} (like_contains col val)
  unfolding Fits like_contains marks
  like_contains-Fits = simp (marks-append, plain)

  pub json_contains-Fits : Fits {F = F} (json_contains col val)
  unfolding Fits json_contains marks
  json_contains-Fits = simp (marks-append, plain)

  pub json_array-Fits : (op : Op) → Fits {F = F} (json_array op col val)
  unfolding json_array
  json_array-Fits op =
      if-cases Fits (is_ne op) (marks-negate _ json_contains-Fits) json_contains-Fits

  pub enum_eq-Fits : (op : Op) → Fits {F = F} (enum_eq col op val)
  unfolding Fits enum_eq marks
  enum_eq-Fits ne = simp (marks-append, plain)
  enum_eq-Fits op = simp (marks-append, plain)

module _ (F : Type 0) (val : Text) where
  pub rarity-Fits : (op : Op) → Fits {F = F} (rarity op val)
  unfolding Fits rarity marks
  rarity-Fits contains = refl
  rarity-Fits eq = refl
  rarity-Fits ne = refl
  rarity-Fits lt = refl
  rarity-Fits gt = refl
  rarity-Fits le = refl
  rarity-Fits ge = refl

  pub set-Fits : (op : Op) → Fits {F = F} (set op val)
  unfolding Fits set marks
  set-Fits eq = refl
  set-Fits ne = refl
  set-Fits _ = refl

  pub variant_match-Fits : Fits {F = F} (variant_match val)
  unfolding Fits variant_match marks
  variant_match-Fits = refl

  pub has_flag-Fits : Fits {F = F} (has_flag val)
  unfolding Fits has_flag marks
  has_flag-Fits =
      arms-cases (λ s. marks s ≡ 0) has_flag_arms (codes "1=0 /* unknown has: flag */")
        (to_ascii_lowercase val) (refl & refl & refl & refl & refl & refl & tt) refl

module _ (F : Type 0) (val fk table : Text) (h : marks fk ≡ 0) (t : marks table ≡ 0) where
  in_container-Fits : (op : Op) → Fits {F = F} (in_container op val fk table)
  unfolding Fits marks
  in_container-Fits eq = simp (marks-append, h, t)
  in_container-Fits ne = simp (marks-append, h, t)
  in_container-Fits contains = simp (marks-append, h, t)
  in_container-Fits lt = simp (marks-append, h, t)
  in_container-Fits gt = simp (marks-append, h, t)
  in_container-Fits le = simp (marks-append, h, t)
  in_container-Fits ge = simp (marks-append, h, t)

  pub container-Fits : (op : Op) → Fits {F = F} (container op val fk table)
  unfolding Fits container marks
  container-Fits op =
      if-cases Fits (equal val (codes "*"))
        (simp (marks-exists_copy, marks-append, h) (marks-null_test op)) (in_container-Fits op)

module _ {F : Type 0} (parse_f64 : Text → Option F) where
  compared-Fits :
      (expr : Text) (op : Op) (extra : Option Text) (n : Option F)
      → marks expr ≡ 0
      → marks (unwrap_or extra []) ≡ 0
      → Fits (compared parse_f64 expr op extra n)
  unfolding Fits marks
  compared-Fits expr op extra none h e = refl
  compared-Fits expr op none (some n) h e = simp (marks-append, h, marks-num_op op)
  compared-Fits expr op (some x) (some n) h e = simp (marks-append, h, e, marks-num_op op)

  pub numeric-Fits :
      (expr : Text) (op : Op) (val : Text) (extra : Option Text)
      → marks expr ≡ 0
      → marks (unwrap_or extra []) ≡ 0
      → Fits (numeric parse_f64 expr op val extra)
  unfolding numeric
  numeric-Fits expr op val extra = compared-Fits expr op extra (parse_f64 val)

  pokedex_number-Fits : (op : Op) (n : Option F) → Fits (pokedex_number parse_f64 op n)
  unfolding Fits marks
  pokedex_number-Fits op none = refl
  pokedex_number-Fits op (some n) = simp (marks-append, marks-num_op op)

  pub pokedex-Fits : (op : Op) (val : Text) → Fits (pokedex parse_f64 op val)
  unfolding pokedex
  pokedex-Fits op val = pokedex_number-Fits op (parse_f64 val)
