-- ===== src/Search/Flag.antt =====
-- crates/pkdump-db/src/search.rs and search_meta.rs: the context of a compilation and the `is:` flags.
use pokedumpster.Base.{
  Text, codes, equal, to_ascii_lowercase, eq_ignore_ascii_case, unwrap_or, Option, none, some, List,
  [], ◌∷◌, ◌++◌, Bool, true, false, if◌then◌else◌,
}
use pokedumpster.Search.Value.{text, Frag, pct, arms}
use pokedumpster.Search.Sql.{owned_count_subq}
use pokedumpster.Search.Fragment.{exists_copy}

-- crates/pkdump-db/src/search_meta.rs: one row of the `is:` registry.
pub record SearchFlag : Type 0 where
  pub flag : Text
  pub kind : Text
  pub match_str : Option Text
  pub predicate : Option Text
  pub help : Option Text

pub data Dir : Type 0 where
  asc desc : Dir

-- What the walk over the tree notes down.
pub record Ctx : Type 0 where
  pub has_status_filter : Bool
  pub catalog_wide : Bool
  pub order_by : Option Text
  pub order_dir : Dir

-- `Ctx::default`.
abbrev pub no_ctx : Ctx
no_ctx = record {
  has_status_filter = false;
  catalog_wide = false;
  order_by = none;
  order_dir = asc;
}

unfoldable pub dir_of : Text → Dir
unfolding eq_ignore_ascii_case
dir_of d = if eq_ignore_ascii_case d (codes "desc") then desc else asc

-- `flags.iter().find(...)`.
unfoldable pub find_flag : Text → List SearchFlag → Option SearchFlag
unfolding equal
find_flag name [] = none
find_flag name (f ∷ fs) =
    let later = find_flag name fs in if equal f.flag name then some f else later

-- A compiled part with the context after it.
abbrev pub Compiled : Type 0 → Type 0
Compiled F = Frag F × Ctx

module _ {F : Type 0} where
  abbrev pub computed_arms : Ctx → List (Text × Compiled F)
  computed_arms ctx =
      (codes "graded", ((exists_copy (codes "c.graded = 1"), []), ctx))
      ∷ (codes "dupe", ((codes "(" ++ owned_count_subq ++ codes ") >= 2", []), ctx))
      ∷ (
        codes "owned",
        ((codes "(" ++ owned_count_subq ++ codes ") > 0", []), record ctx { catalog_wide = true }),
      )
      ∷ (
        codes "missing",
        ((codes "(" ++ owned_count_subq ++ codes ") = 0", []), record ctx { catalog_wide = true }),
      )
      ∷ []

  abbrev pub computed_flag : Option Text → Ctx → Compiled F
  computed_flag none ctx = ((codes "1=0 /* unknown computed flag */", []), ctx)
  computed_flag (some p) ctx =
      arms (computed_arms ctx) ((codes "1=0 /* unknown computed flag */", []), ctx) p

  abbrev pub variant_flag : Text → Frag F
  variant_flag m = (
    codes "(p.variant LIKE ? COLLATE NOCASE OR EXISTS (SELECT 1 FROM variants vv "
        ++ codes
            "WHERE vv.code = p.variant AND (vv.code LIKE ? OR vv.label LIKE ?) COLLATE NOCASE))",
    text (pct m) ∷ text (pct m) ∷ text (pct m) ∷ [],
  )

  abbrev pub flag_arms : SearchFlag → Ctx → List (Text × Compiled F)
  flag_arms f ctx =
      (codes "computed", computed_flag f.predicate ctx)
      ∷ (codes "variant_match", (variant_flag (unwrap_or f.match_str []), ctx))
      ∷ []

  abbrev pub flagged : Option SearchFlag → Ctx → Compiled F
  flagged none ctx = ((codes "1=0 /* unknown is: flag */", []), ctx)
  flagged (some f) ctx =
      arms (flag_arms f ctx) ((codes "1=0 /* unknown flag kind */", []), ctx) f.kind

  unfoldable pub is_flag : Text → List SearchFlag → Ctx → Compiled F
  unfolding find_flag to_ascii_lowercase
  is_flag value flags ctx = flagged (find_flag (to_ascii_lowercase value) flags) ctx
