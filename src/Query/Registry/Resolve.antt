-- ===== src/Query/Registry/Resolve.antt =====
-- What crates/pkdump-core/src/query/registry.rs resolves an alias to.
use pokedumpster.Base.{
  Text, equal, equal_iff, equal_refl, to_ascii_lowercase, to_ascii_uppercase,
  to_ascii_lowercase_idem, to_ascii_lowercase-to_ascii_uppercase, eq_ignore_ascii_case, ◌≡◌, refl,
  ap, sym, ◌∙◌, Bool, true, false, ◌||◌, ◌&&◌, not, ◌++◌, Option, none, some, List, [], ◌∷◌, arith,
  if◌then◌else◌, is_some, ◌⊎◌, inl, inr, Bool-cases,
}
use pokedumpster.Query.Registry.{
  KeywordDef, KeywordRegistry, AliasMap, lookup, insert, insert_aliases, insert_defs, registry_new,
  resolve, find_def, get,
}

-- Whether one of the names is `raw`, whatever its case.
abbrev pub names : Text → List Text → Bool
names raw [] = false
names raw (x ∷ xs) = eq_ignore_ascii_case x raw || names raw xs

-- The canonical name of the last definition that has `raw` as its canonical name or as an alias.
abbrev pub last_named : Text → List KeywordDef → Option Text → Option Text
last_named raw [] found = found
last_named raw (d ∷ ds) found =
    last_named raw ds (if names raw (d.canonical ∷ d.aliases) then some d.canonical else found)

lookup-insert_aliases :
    (raw canonical : Text) (aliases : List Text) (m : AliasMap)
    → lookup (to_ascii_lowercase raw) (insert_aliases canonical aliases m)
      ≡ (if names raw aliases then some canonical else lookup (to_ascii_lowercase raw) m)
unfolding lookup insert_aliases eq_ignore_ascii_case
lookup-insert_aliases raw canonical [] m = refl
lookup-insert_aliases raw canonical (x ∷ xs) m =
    ground (arith, lookup-insert_aliases raw canonical xs ((to_ascii_lowercase x, canonical) ∷ m))

lookup-insert_def :
    (raw : Text) (d : KeywordDef) (m : AliasMap)
    → lookup (to_ascii_lowercase raw) (
        insert_aliases d.canonical d.aliases
          (insert (to_ascii_lowercase d.canonical) d.canonical m))
      ≡ (if names raw (d.canonical ∷ d.aliases)
          then some d.canonical
          else lookup (to_ascii_lowercase raw) m)
unfolding lookup insert eq_ignore_ascii_case
lookup-insert_def raw d m = ground (
  arith,
  lookup-insert_aliases raw d.canonical d.aliases
      ((to_ascii_lowercase d.canonical, d.canonical) ∷ m),
)

lookup-insert_defs :
    (raw : Text) (ds : List KeywordDef) (m : AliasMap)
    → lookup (to_ascii_lowercase raw) (insert_defs ds m)
      ≡ last_named raw ds (lookup (to_ascii_lowercase raw) m)
unfolding insert_defs
lookup-insert_defs raw [] m = refl
lookup-insert_defs raw (d ∷ ds) m =
    lookup-insert_defs raw ds _ ∙ ap (last_named raw ds) (lookup-insert_def raw d m)

-- A name resolves to the canonical name of the last definition that lists it, in any case, among
-- its own name and aliases, and to nothing where no definition lists it.
pub resolve-registry_new :
    (defs : List KeywordDef) (raw : Text)
    → resolve (registry_new defs) raw ≡ last_named raw defs none
unfolding resolve registry_new
resolve-registry_new defs raw = lookup-insert_defs raw defs []

-- The case of a name does not matter to `resolve`.
pub resolve-to_ascii_uppercase :
    (r : KeywordRegistry) (raw : Text)
    → (resolve r (to_ascii_uppercase raw) ≡ resolve r raw)
      × (resolve r (to_ascii_lowercase raw) ≡ resolve r raw)
unfolding resolve
resolve-to_ascii_uppercase r raw =
    (rw to_ascii_lowercase-to_ascii_uppercase, rw to_ascii_lowercase_idem)

eq_ignore_ascii_case_refl : (a : Text) → eq_ignore_ascii_case a a ≡ true
unfolding eq_ignore_ascii_case
eq_ignore_ascii_case_refl a = equal_refl (to_ascii_lowercase a)

last_named-get :
    (raw : Text) (ds : List KeywordDef) (found : Option Text) (c : Text)
    → last_named raw ds found ≡ some c
    → (is_some (find_def c ds) ≡ true) ⊎ (found ≡ some c)
unfolding find_def
last_named-get raw [] found c h = inr h
last_named-get raw (d ∷ ds) found c h = ground (
  arith,
  last_named-get raw ds (if names raw (d.canonical ∷ d.aliases) then some d.canonical else found) c
      h,
  equal_refl c,
)

find_def-canonical :
    (c : Text) (ds : List KeywordDef)
    → is_some (find_def c ds) ≡ true
    → (d : KeywordDef) × (find_def c ds ≡ some d) × (d.canonical ≡ c)
unfolding find_def
find_def-canonical c [] h = cc
find_def-canonical c (d ∷ ds) h = elim (Bool-cases (equal d.canonical c)) [
  | inl e ↦ (d, rw e, (equal_iff d.canonical c).0 e)
  | inr e ↦ rw e (find_def-canonical c ds (rw e at h))
]

-- Whatever a name resolves to is the canonical name of a definition that `get` finds.
pub resolve-get :
    (defs : List KeywordDef) (raw c : Text)
    → resolve (registry_new defs) raw ≡ some c
    → (d : KeywordDef) × (get (registry_new defs) c ≡ some d) × (d.canonical ≡ c)
unfolding get registry_new
resolve-get defs raw c h =
    elim (last_named-get raw defs none c (sym (resolve-registry_new defs raw) ∙ h)) [
      | inl e ↦ find_def-canonical c defs e
      | inr e ↦ cc
    ]

-- None of the definitions has `raw` as its canonical name or as an alias.
abbrev pub unlisted : Text → List KeywordDef → Bool
unlisted raw [] = true
unlisted raw (d ∷ ds) = not (names raw (d.canonical ∷ d.aliases)) && unlisted raw ds

last_named-unlisted :
    (raw : Text) (ds : List KeywordDef) (found : Option Text)
    → unlisted raw ds ≡ true
    → last_named raw ds found ≡ found
last_named-unlisted raw [] found h = refl
last_named-unlisted raw (d ∷ ds) found h =
    last_named-unlisted raw ds _ (ground arith)
    ∙ ap (λ b. if b then some d.canonical else found)
        (let e : names raw (d.canonical ∷ d.aliases) ≡ false = ground arith in e)

last_named-append :
    (raw : Text) (before later : List KeywordDef) (found : Option Text)
    → last_named raw (before ++ later) found ≡ last_named raw later (last_named raw before found)
last_named-append raw [] later found = refl
last_named-append raw (d ∷ before) later found = last_named-append raw before later _

find_def-append :
    (d : KeywordDef) (before later : List KeywordDef)
    → is_some (find_def d.canonical (before ++ d ∷ later)) ≡ true
unfolding find_def
find_def-append d [] later = rw (equal_refl d.canonical) refl
find_def-append d (x ∷ before) later = ground (arith, find_def-append d before later)

-- The canonical name of a definition resolves to itself, and `get` finds a definition of that name, unless
-- a later definition lists it too.
pub get-resolve :
    (before : List KeywordDef) (d : KeywordDef) (later : List KeywordDef)
    → unlisted d.canonical later ≡ true
    → (resolve (registry_new (before ++ d ∷ later)) d.canonical ≡ some d.canonical)
      × (is_some (get (registry_new (before ++ d ∷ later)) d.canonical) ≡ true)
unfolding get registry_new
get-resolve before d later h = (
  resolve-registry_new (before ++ d ∷ later) d.canonical
      ∙ (last_named-append d.canonical before (d ∷ later) none
          ∙ (last_named-unlisted d.canonical later _ h
              ∙ rw (eq_ignore_ascii_case_refl d.canonical) refl)),
  find_def-append d before later,
)
