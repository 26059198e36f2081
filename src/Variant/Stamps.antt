-- ===== src/Variant/Stamps.antt =====
-- crates/pkdump-core/src/variant.rs: stamped promos, from the last parenthesis of a product name and
-- its brackets.
use pokedumpster.Base.{
  Text, codes, trim, trim_start, trim_end, contains, split_once, equal, strip_suffix, ends_with,
  after_last, unwrap_or, is_ascii_alphanumeric, is_empty, ℕ, zero, suc, ◌+◌, Bool, true, false, not,
  ◌&&◌, ◌||◌, Option, none, some, List, [], ◌∷◌, ◌++◌, map, ◌==◌, if◌then◌else◌,
}
use pokedumpster.Import.Unicode.{Unicode}
pub mod Snake

-- `split(d)`: the pieces between the occurrences of a character.
abbrev pub extend : ℕ → List Text → List Text
extend c [] = (c ∷ []) ∷ []
extend c (p ∷ ps) = (c ∷ p) ∷ ps

unfoldable pub split_on : ℕ → Text → List Text
split_on d [] = [] ∷ []
split_on d (c ∷ cs) = let rest = split_on d cs in if c == d then [] ∷ rest else extend c rest

-- `filter(|p| !p.is_empty())`.
unfoldable pub nonempty_pieces : List Text → List Text
nonempty_pieces [] = []
nonempty_pieces ([] ∷ ps) = nonempty_pieces ps
nonempty_pieces ((c ∷ p) ∷ ps) = (c ∷ p) ∷ nonempty_pieces ps

-- `join("_")`.
unfoldable pub join : List Text → Text
join [] = []
join (p ∷ []) = p
join (p ∷ q ∷ ps) = p ++ (b'_' ∷ join (q ∷ ps))

unfoldable pub to_snake : Text → Text
unfolding split_on nonempty_pieces join
to_snake s =
    join
      (nonempty_pieces (split_on b'_' (map (λ c. if is_ascii_alphanumeric c then c else b'_') s)))

-- The words before the suffix inside a longer text: they have to end in a space.
abbrev qualified : Option (Text × Text) → Option Text
qualified none = none
qualified (some (before, behind)) =
    if not (is_empty before) && ends_with (codes " ") before then some (trim_end before) else none

abbrev or_qualified : Option Text → Option Text → Option Text
or_qualified none next = next
or_qualified (some s) next = some s

-- One round of the loop over the suffixes.
unfoldable pub strip_one : Text → Text → Option Text
unfolding strip_suffix split_once trim_start
strip_one suffix inner =
    or_qualified (strip_suffix suffix inner) (qualified (split_once (trim_start suffix) inner))

unfoldable pub strip_stamp_suffix : Text → Option Text
unfolding strip_one
strip_stamp_suffix inner =
    or_qualified (strip_one (codes " stamped") inner) (strip_one (codes " stamp") inner)

abbrev pub stamp : Text → Text
stamp s = codes "stamp_" ++ s

-- `(X Stamped)`: the keyword `X` must not be empty.
unfoldable pub keyword_tag : Text → Option (Text × Option Text)
unfolding to_snake
keyword_tag stripped =
    let keyword = trim stripped in
    if is_empty keyword then none else some (stamp (to_snake keyword), some keyword)

-- `(SDCC 2007 Staff)`: the event must not be empty.
unfoldable pub event_tag : Text → Option (Text × Option Text)
unfolding to_snake
event_tag before =
    let event = trim before in
    if is_empty event then none else some (stamp (to_snake event ++ codes "_staff"), none)

-- The ladder below the suffix test.
unfoldable pub plain_tag : Bool → Text → Option (Text × Option Text)
unfolding to_snake contains ends_with strip_suffix event_tag equal
plain_tag bracket inner =
    if equal inner (codes "prerelease")
    then some (codes "stamp_prerelease", none)
    else if equal inner (codes "pokemon center") || equal inner (codes "pokemon center exclusive")
    then some (codes "stamp_pokemoncenter", none)
    else if equal inner (codes "holiday calendar")
    then some (codes "stamp_holiday_calendar", none)
    else if equal inner (codes "staff")
    then some (codes "stamp_staff", none)
    else if contains (codes "championship") inner
    then some (stamp (to_snake inner), none)
    else if ends_with (codes " staff") inner
    then event_tag (unwrap_or (strip_suffix (codes " staff") inner) inner)
    else if bracket
    then some (stamp (to_snake inner), none)
    else none

abbrev inner_tag : Bool → Text → Option Text → Option (Text × Option Text)
inner_tag bracket inner none = plain_tag bracket inner
inner_tag bracket inner (some stripped) = keyword_tag stripped

-- The tag of the last parenthesis, or of the brackets alone.
unfoldable pub base_tag : Bool → Bool → Option Text → Option (Text × Option Text)
unfolding plain_tag keyword_tag strip_stamp_suffix
base_tag staff winner none =
    if staff
    then some (codes "stamp_staff", none)
    else if winner
    then some (codes "stamp_winner", none)
    else none
base_tag staff winner (some inner) = inner_tag (staff || winner) inner (strip_stamp_suffix inner)

-- The role of a bracket, if the code does not end in it yet.
unfoldable pub append_role : Bool → Text → Text → Text
unfolding ends_with
append_role bracket role variant =
    if bracket && not (ends_with role variant) then variant ++ role else variant

abbrev pub with_roles : Bool → Bool → Option (Text × Option Text) → Option (Text × Option Text)
with_roles staff winner none = none
with_roles staff winner (some (variant, keyword)) =
    some
      (append_role winner (codes "_winner") (append_role staff (codes "_staff") variant), keyword)

-- The text of the last parenthesis.
abbrev closed : Option (Text × Text) → Option Text
closed none = none
closed (some (inner, behind)) = some (trim inner)

unfoldable pub last_group : Option Text → Option Text
unfolding split_once
last_group none = none
last_group (some after) = closed (split_once (codes ")") after)

unfoldable pub fold_accents : Text → Text
fold_accents s = map (λ c. if c == 0xe9 || c == 0xe8 || c == 0xea then b'e' else c) s

unfoldable pub parse_stamp_tag : Unicode → Text → Option (Text × Option Text)
unfolding base_tag append_role fold_accents last_group contains after_last
parse_stamp_tag u name =
    let lower = fold_accents (u.lowercase name) in
    let staff = contains (codes "[staff]") lower in
    let winner = contains (codes "[winner]") lower in
    with_roles staff winner (base_tag staff winner (last_group (after_last b'(' lower)))
