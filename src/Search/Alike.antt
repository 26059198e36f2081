-- ===== src/Search/Alike.antt =====
-- crates/pkdump-db/src/search.rs: the SQL of a query has none of the query's values in it. Two values
-- are alike if the few tests that the compiler makes on a value come out the same.
use pokedumpster.Base.{
  Text, codes, equal, to_ascii_lowercase, ◌≡◌, refl, Option, none, some, List, [], ◌∷◌, ◌++◌, Bool,
  true, false, if◌then◌else◌, is_some, ap, unwrap_or,
}
use pokedumpster.Query.Ast
use pokedumpster.Query.Ast.{Ast, Asts, Op, and, or, comparison, name_search, exact_name, nil, cons}
use pokedumpster.Search.Value.{Value, text, Frag, pct, negate, arms, if-cases, ◌&◌, join}
use pokedumpster.Search.Fragment.{
  is_ne, has_flag_arms, compared, numeric, pokedex, pokedex_number, container, in_container,
  json_array, json_contains, like_contains, enum_eq, rarity, set, variant_match, has_flag,
  exists_copy,
}
use pokedumpster.Search.Flag.{
  SearchFlag, Ctx, Compiled, is_flag, flagged, find_flag, computed_flag, computed_arms, flag_arms,
}
use pokedumpster.Search.Keyword.{
  catalog_arms, copy_arms, plain_arms, noting_arms, compile_comparison, named, copy_number,
  copy_like,
}
use pokedumpster.Search.Fits.Compile.{op_cases}
pub mod Keyword
pub mod Tree

module _ {F : Type 0} (parse_f64 : Text → Option F) (flags : List SearchFlag) where
  pub record IsAlike (v w : Text) : Type 0 where
    pub numbers : is_some (parse_f64 v) ≡ is_some (parse_f64 w)
    pub stars : equal v (codes "*") ≡ equal w (codes "*")
    pub is_flags : find_flag (to_ascii_lowercase v) flags ≡ find_flag (to_ascii_lowercase w) flags
    pub has_flags :
        arms has_flag_arms (codes "1=0 /* unknown has: flag */") (to_ascii_lowercase v)
        ≡ arms has_flag_arms (codes "1=0 /* unknown has: flag */") (to_ascii_lowercase w)

-- Contexts with the same flags, whatever their order.
abbrev pub SameFlags : Ctx → Ctx → Type 0
SameFlags c d = (c.has_status_filter ≡ d.has_status_filter) × (c.catalog_wide ≡ d.catalog_wide)

module _ {A : Type 0} (R : A → A → Type 0) where
  abbrev pub Related : List (Text × A) → List (Text × A) → Type 0
  Related [] [] = Unit
  Related ((n, a) ∷ s) ((m, b) ∷ t) = ((n ≡ m) × R a b) × Related s t
  Related _ _ = ⊥

  if-related :
      (b : Bool) {w x y z : A} → R w y → R x z → R (if b then w else x) (if b then y else z)
  if-related true h k = h
  if-related false h k = k

  pub arms-related :
      (s t : List (Text × A)) (d e : A) (k : Text)
      → Related s t
      → R d e
      → R (arms s d k) (arms t e k)
  unfolding arms
  arms-related [] [] d e k h r = r
  arms-related [] (y ∷ t) d e k h r = absurd h
  arms-related (x ∷ s) [] d e k h r = absurd h
  arms-related ((n, a) ∷ s) ((m, b) ∷ t) d e k h r =
      rw h.0.0 (if-related (equal k m) h.0.1 (arms-related s t d e k h.1 r))

module _ {F : Type 0} where
  abbrev pub SameSql : Frag F → Frag F → Type 0
  SameSql f g = f.0 ≡ g.0

  abbrev pub SameCompiled : Compiled F → Compiled F → Type 0
  SameCompiled a b = SameSql a.0 b.0 × SameFlags a.1 b.1

module _ (F : Type 0) where
  computed_flag-alike :
      (p : Option Text) (c d : Ctx)
      → SameFlags c d
      → SameCompiled (computed_flag {F = F} p c) (computed_flag p d)
  computed_flag-alike none c d h = (refl, h)
  computed_flag-alike (some p) c d h =
      arms-related SameCompiled (computed_arms c) (computed_arms d)
        ((codes "1=0 /* unknown computed flag */", []), c)
        ((codes "1=0 /* unknown computed flag */", []), d) p
        ((refl, (refl, h))
          & (refl, (refl, h))
          & (refl, (refl, (h.0, refl)))
          & (refl, (refl, (h.0, refl)))
          & tt)
        (refl, h)

  pub flagged-alike :
      (f : Option SearchFlag) (c d : Ctx)
      → SameFlags c d
      → SameCompiled (flagged {F = F} f c) (flagged f d)
  flagged-alike none c d h = (refl, h)
  flagged-alike (some f) c d h =
      arms-related SameCompiled (flag_arms f c) (flag_arms f d)
        ((codes "1=0 /* unknown flag kind */", []), c)
        ((codes "1=0 /* unknown flag kind */", []), d) f.kind
        ((refl, computed_flag-alike f.predicate c d h) & (refl, (refl, h)) & tt) (refl, h)
