-- ===== src/Search/Fragment.antt =====
-- crates/pkdump-db/src/search.rs: the fragments that one kind of keyword compiles to.
use pokedumpster.Base.{
  Text, codes, equal, to_ascii_lowercase, Option, none, some, List, [], ◌∷◌, ◌++◌, Bool, true,
  false, if◌then◌else◌,
}
use pokedumpster.Query.Ast.{Op, contains, eq, ne, lt, gt, le, ge}
use pokedumpster.Search.Value.{text, real, Frag, pct, negate, arms}

unfoldable pub num_op : Op → Text
num_op contains = codes "="
num_op eq = codes "="
num_op ne = codes "!="
num_op lt = codes "<"
num_op gt = codes ">"
num_op le = codes "<="
num_op ge = codes ">="

-- `matches!(op, Op::Ne)`.
abbrev pub is_ne : Op → Bool
is_ne ne = true
is_ne _ = false

-- A value in double quotes between percent signs.
unfoldable pub quoted : Text → Text
quoted val = codes "%\"" ++ val ++ codes "\"%"

unfoldable pub exists_copy : Text → Text
exists_copy inner =
    codes "EXISTS (SELECT 1 FROM collection c WHERE c.printing_id = p.printing_id AND ("
    ++ inner
    ++ codes "))"

unfoldable pub condition_value : Text → Text
unfolding arms to_ascii_lowercase
condition_value v =
    arms
      ((codes "nm", codes "Near Mint")
        ∷ (codes "lp", codes "Lightly Played")
        ∷ (codes "mp", codes "Moderately Played")
        ∷ (codes "hp", codes "Heavily Played")
        ∷ (codes "dmg", codes "Damaged")
        ∷ (codes "d", codes "Damaged")
        ∷ [])
      v (to_ascii_lowercase v)

abbrev pub has_flag_arms : List (Text × Text)
has_flag_arms =
    (codes "ability", codes "cd.abilities IS NOT NULL AND cd.abilities NOT IN ('', '[]')")
    ∷ (codes "flavor", codes "cd.flavor_text IS NOT NULL AND cd.flavor_text != ''")
    ∷ (codes "attack", codes "cd.attacks IS NOT NULL AND cd.attacks NOT IN ('', '[]')")
    ∷ (codes "weakness", codes "cd.weaknesses IS NOT NULL AND cd.weaknesses NOT IN ('', '[]')")
    ∷ (codes "resistance", codes "cd.resistances IS NOT NULL AND cd.resistances NOT IN ('', '[]')")
    ∷ (
      codes "retreat",
      codes "cd.retreat_cost IS NOT NULL AND json_array_length(cd.retreat_cost) > 0",
    )
    ∷ []

module _ {F : Type 0} where
  unfoldable pub like_contains : Text → Text → Frag F
  unfolding pct
  like_contains col val = (col ++ codes " LIKE ? COLLATE NOCASE", text (pct val) ∷ [])

  unfoldable pub json_contains : Text → Text → Frag F
  unfolding quoted
  json_contains col val = (col ++ codes " LIKE ? COLLATE NOCASE", text (quoted val) ∷ [])

  unfoldable pub json_array : Op → Text → Text → Frag F
  unfolding json_contains negate
  json_array op col val = if is_ne op then negate (json_contains col val) else json_contains col val

  unfoldable pub enum_eq : Text → Op → Text → Frag F
  enum_eq col ne val = (
    codes "(" ++ col ++ codes " IS NULL OR " ++ col ++ codes " != ? COLLATE NOCASE)",
    text val ∷ [],
  )
  enum_eq col _ val = (col ++ codes " = ? COLLATE NOCASE", text val ∷ [])

  unfoldable pub rarity : Op → Text → Frag F
  unfolding num_op
  rarity contains val = (
    codes "(cd.rarity = ? COLLATE NOCASE OR cd.rarity IN "
        ++ codes "(SELECT name FROM rarities WHERE grp = ? COLLATE NOCASE))",
    text val ∷ text val ∷ [],
  )
  rarity eq val = (
    codes "(cd.rarity = ? COLLATE NOCASE OR cd.rarity IN "
        ++ codes "(SELECT name FROM rarities WHERE grp = ? COLLATE NOCASE))",
    text val ∷ text val ∷ [],
  )
  rarity ne val = (
    codes "NOT (cd.rarity = ? COLLATE NOCASE OR cd.rarity IN "
        ++ codes "(SELECT name FROM rarities WHERE grp = ? COLLATE NOCASE))",
    text val ∷ text val ∷ [],
  )
  rarity op val = (
    codes "((SELECT rank FROM rarities WHERE name = cd.rarity) "
        ++ num_op op
        ++ codes " (SELECT rank FROM rarities WHERE name = ? COLLATE NOCASE))",
    text val ∷ [],
  )

  unfoldable pub set : Op → Text → Frag F
  unfolding pct
  set eq val = (
    codes "(s.set_code = ? COLLATE NOCASE OR s.ptcgo_code = ? COLLATE NOCASE)",
    text val ∷ text val ∷ [],
  )
  set ne val = (
    codes "NOT (s.set_code = ? COLLATE NOCASE OR s.ptcgo_code = ? COLLATE NOCASE)",
    text val ∷ text val ∷ [],
  )
  set _ val = (
    codes "(s.set_code = ? COLLATE NOCASE OR s.ptcgo_code = ? COLLATE NOCASE "
        ++ codes "OR s.name LIKE ? COLLATE NOCASE)",
    text val ∷ text val ∷ text (pct val) ∷ [],
  )

  unfoldable pub variant_match : Text → Frag F
  unfolding pct
  variant_match val = (
    codes "(p.variant LIKE ? COLLATE NOCASE OR EXISTS (SELECT 1 FROM variants vv "
        ++ codes
            "WHERE vv.code = p.variant AND (vv.label LIKE ? OR vv.short LIKE ?) COLLATE NOCASE))",
    text (pct val) ∷ text (pct val) ∷ text (pct val) ∷ [],
  )

  -- The value `*` asks for any container; `fk` is the copy's column and `table` what it refers to.
  abbrev pub in_container : Op → Text → Text → Text → Frag F
  in_container eq val fk table = (
    codes "EXISTS (SELECT 1 FROM collection c JOIN "
        ++ table
        ++ codes " x ON c."
        ++ fk
        ++ codes " = x.id WHERE c.printing_id = p.printing_id AND x.name = ? COLLATE NOCASE)",
    text val ∷ [],
  )
  in_container ne val fk table = (
    codes "EXISTS (SELECT 1 FROM collection c LEFT JOIN "
        ++ table
        ++ codes " x ON c."
        ++ fk
        ++ codes " = x.id WHERE c.printing_id = p.printing_id AND "
        ++ codes "(x.name IS NULL OR x.name != ? COLLATE NOCASE))",
    text val ∷ [],
  )
  in_container _ val fk table = (
    codes "EXISTS (SELECT 1 FROM collection c JOIN "
        ++ table
        ++ codes " x ON c."
        ++ fk
        ++ codes " = x.id WHERE c.printing_id = p.printing_id AND x.name LIKE ? COLLATE NOCASE)",
    text (pct val) ∷ [],
  )

  unfoldable pub container : Op → Text → Text → Text → Frag F
  unfolding equal exists_copy
  container op val fk table =
      if equal val (codes "*")
      then (
        exists_copy
            (codes "c." ++ fk ++ (if is_ne op then codes " IS NULL" else codes " IS NOT NULL")),
        [],
      )
      else in_container op val fk table

  unfoldable pub has_flag : Text → Frag F
  unfolding arms to_ascii_lowercase
  has_flag value =
      (arms has_flag_arms (codes "1=0 /* unknown has: flag */") (to_ascii_lowercase value), [])

  -- `str::parse::<f64>` is the parameter: `none` where it refuses the text.
  module _ (parse_f64 : Text → Option F) where
    abbrev pub compared : Text → Op → Option Text → Option F → Frag F
    compared expr op extra none = (codes "1=0 /* invalid number */", [])
    compared expr op none (some n) =
        (codes "(" ++ expr ++ codes " " ++ num_op op ++ codes " ?)", real n ∷ [])
    compared expr op (some e) (some n) = (
      codes "(" ++ e ++ codes " AND " ++ expr ++ codes " " ++ num_op op ++ codes " ?)",
      real n ∷ [],
    )

    unfoldable pub numeric : Text → Op → Text → Option Text → Frag F
    numeric expr op val extra = compared expr op extra (parse_f64 val)

    abbrev pub pokedex_number : Op → Option F → Frag F
    pokedex_number op none = (codes "1=0 /* invalid number */", [])
    pokedex_number op (some n) = (
      codes "EXISTS (SELECT 1 FROM json_each(cd.national_pokedex_numbers) "
          ++ codes "WHERE CAST(value AS INTEGER) "
          ++ num_op op
          ++ codes " ?)",
      real n ∷ [],
    )

    unfoldable pub pokedex : Op → Text → Frag F
    pokedex op val = pokedex_number op (parse_f64 val)
