-- ===== src/Variant/Stamps/Snake.antt =====
-- crates/pkdump-core/src/variant.rs: the codes that `to_snake` and `parse_stamp_tag` give.
use pokedumpster.Base.{
  Text, codes, trim, ℕ, ◌≡◌, refl, ◌∙◌, ap, inl, inr, Bool, true, false, ◌||◌, Option, none, some,
  List, [], ◌∷◌, ◌++◌, map, All, All-append, ◌==◌, arith, Bool-cases, is_ascii_alphanumeric,
  is_ascii_digit, is_ascii_alphabetic, is_empty, if◌then◌else◌, ends_with, strip_suffix, contains,
  unwrap_or, all, after_last, append_assoc, Option-cases,
}
use pokedumpster.Import.Unicode.{Unicode}
use pokedumpster.Variant.Stamps.{
  extend, split_on, nonempty_pieces, join, to_snake, strip_stamp_suffix, stamp, keyword_tag,
  event_tag, plain_tag, base_tag, append_role, with_roles, parse_stamp_tag, fold_accents,
  last_group,
}

-- A word is not empty and has ASCII letters and digits only.
abbrev pub IsWord : Text → Type 0
IsWord w = (is_empty w ≡ false) × All (λ c. is_ascii_alphanumeric c ≡ true) w

-- Words joined by single underscores.
abbrev pub IsSnake : Text → Type 0
IsSnake s = (ws : List Text) × (All IsWord ws × (s ≡ join ws))

abbrev IsPiece : Text → Type 0
IsPiece p = All (λ c. is_ascii_alphanumeric c ≡ true) p

word-underscore : (c : ℕ) → is_ascii_alphanumeric c ≡ true → (c == b'_') ≡ false
unfolding is_ascii_alphanumeric is_ascii_digit is_ascii_alphabetic
word-underscore c h = ground arith

extend-IsPiece :
    (c : ℕ) (ps : List Text)
    → is_ascii_alphanumeric c ≡ true
    → All IsPiece ps
    → All IsPiece (extend c ps)
extend-IsPiece c [] h k = ((h, tt), tt)
extend-IsPiece c (p ∷ ps) h k = ((h, k.0), k.1)

-- Replacing what is neither letter nor digit, and splitting there, leaves pieces of letters and digits.
split_on-IsPiece :
    (s : Text)
    → All IsPiece (split_on b'_' (map (λ c. if is_ascii_alphanumeric c then c else b'_') s))
unfolding split_on
split_on-IsPiece [] = (tt, tt)
split_on-IsPiece (c ∷ s) = elim (Bool-cases (is_ascii_alphanumeric c)) [
  | inl e ↦ rw (e, word-underscore c e) (extend-IsPiece c _ e (split_on-IsPiece s))
  | inr e ↦ rw e (tt, split_on-IsPiece s)
]

nonempty_pieces-IsWord : (ps : List Text) → All IsPiece ps → All IsWord (nonempty_pieces ps)
unfolding nonempty_pieces
nonempty_pieces-IsWord [] h = tt
nonempty_pieces-IsWord ([] ∷ ps) h = nonempty_pieces-IsWord ps h.1
nonempty_pieces-IsWord ((c ∷ p) ∷ ps) h = ((refl, h.0), nonempty_pieces-IsWord ps h.1)

-- Whatever the label is, `to_snake` gives words of ASCII letters and digits, joined by single
-- underscores.
pub to_snake-IsSnake : (s : Text) → IsSnake (to_snake s)
unfolding to_snake
to_snake-IsSnake s = (_, (nonempty_pieces-IsWord _ (split_on-IsPiece s), refl))

-- The characters of a code.
abbrev pub IsCodeChar : ℕ → Type 0
IsCodeChar c = is_ascii_alphanumeric c || c == b'_' ≡ true

-- A code of a stamp: behind its prefix it has letters, digits and underscores.
abbrev pub IsStamp : Text → Type 0
IsStamp v = (r : Text) × ((v ≡ stamp r) × All IsCodeChar r)

abbrev pub IsKeyword : Option Text → Type 0
IsKeyword none = Unit
IsKeyword (some k) = is_empty k ≡ false

abbrev pub IsTag : Option (Text × Option Text) → Type 0
IsTag none = Unit
IsTag (some (v, k)) = IsStamp v × IsKeyword k

word-IsCodeChar : (w : Text) → All (λ c. is_ascii_alphanumeric c ≡ true) w → All IsCodeChar w
word-IsCodeChar [] h = tt
word-IsCodeChar (c ∷ w) h = (rw (h.0) refl, word-IsCodeChar w h.1)

underscore : IsCodeChar b'_'
unfolding is_ascii_alphanumeric is_ascii_digit is_ascii_alphabetic
underscore = refl

join-IsCodeChar : (ws : List Text) → All IsWord ws → All IsCodeChar (join ws)
unfolding join
join-IsCodeChar [] h = tt
join-IsCodeChar (w ∷ []) h = word-IsCodeChar w h.0.1
join-IsCodeChar (w ∷ x ∷ ws) h =
    All-append _ w _ (word-IsCodeChar w h.0.1) (underscore, join-IsCodeChar (x ∷ ws) h.1)

to_snake-IsCodeChar : (s : Text) → All IsCodeChar (to_snake s)
to_snake-IsCodeChar s = let (ws, (h, e)) = to_snake-IsSnake s in rw e (join-IsCodeChar ws h)

keyword_tag-IsTag : (s : Text) → IsTag (keyword_tag s)
unfolding keyword_tag
keyword_tag-IsTag s = elim (Bool-cases (is_empty (trim s))) [
  | inl e ↦ rw e tt
  | inr e ↦ rw e ((_, (refl, to_snake-IsCodeChar (trim s))), e)
]

staff_role : All IsCodeChar (codes "_staff")
unfolding is_ascii_alphanumeric is_ascii_digit is_ascii_alphabetic
staff_role = (refl, (refl, (refl, (refl, (refl, (refl, tt))))))

event_tag-IsTag : (s : Text) → IsTag (event_tag s)
unfolding event_tag
event_tag-IsTag s = elim (Bool-cases (is_empty (trim s))) [
  | inl e ↦ rw e tt
  | inr e ↦ rw e (
    (_, (refl, All-append _ (to_snake (trim s)) _ (to_snake-IsCodeChar (trim s)) staff_role)),
    tt,
  )
]

-- The branches of `plain_tag`.
plain_tag-cases :
    (P : Option (Text × Option Text) → Type 0) (b : Bool) (s : Text)
    → P (some (codes "stamp_prerelease", none))
    → P (some (codes "stamp_pokemoncenter", none))
    → P (some (codes "stamp_holiday_calendar", none))
    → P (some (codes "stamp_staff", none))
    → P (some (stamp (to_snake s), none))
    → ((t : Text) → P (event_tag t))
    → P none
    → P (plain_tag b s)
unfolding plain_tag
plain_tag-cases P b s p c h f t e n =
    let e' = e (unwrap_or (strip_suffix (codes " staff") s) s) in ground arith

all-IsCodeChar :
    (s : Text) → all (λ c. is_ascii_alphanumeric c || c == b'_') s ≡ true → All IsCodeChar s
unfolding all
all-IsCodeChar [] h = tt
all-IsCodeChar (c ∷ s) h = (ground arith, all-IsCodeChar s (ground arith))

literal :
    (r : Text)
    → all (λ c. is_ascii_alphanumeric c || c == b'_') r ≡ true
    → IsTag (some (stamp r, none))
literal r h = ((r, (refl, all-IsCodeChar r h)), tt)

plain_tag-IsTag : (b : Bool) (s : Text) → IsTag (plain_tag b s)
unfolding all is_ascii_alphanumeric is_ascii_digit is_ascii_alphabetic
plain_tag-IsTag b s =
    plain_tag-cases IsTag b s (literal (codes "prerelease") refl)
      (literal (codes "pokemoncenter") refl) (literal (codes "holiday_calendar") refl)
      (literal (codes "staff") refl) ((to_snake s, (refl, to_snake-IsCodeChar s)), tt)
      event_tag-IsTag tt

base_tag-IsTag : (staff winner : Bool) (o : Option Text) → IsTag (base_tag staff winner o)
unfolding base_tag all is_ascii_alphanumeric is_ascii_digit is_ascii_alphabetic
base_tag-IsTag true w none = literal (codes "staff") refl
base_tag-IsTag false true none = literal (codes "winner") refl
base_tag-IsTag false false none = tt
base_tag-IsTag a w (some s) = elim (Option-cases (strip_stamp_suffix s)) [
  | inl e ↦ rw e (plain_tag-IsTag (a || w) s)
  | inr (t, e) ↦ rw e (keyword_tag-IsTag t)
]

append_role-IsStamp :
    (b : Bool) (role v : Text) → All IsCodeChar role → IsStamp v → IsStamp (append_role b role v)
unfolding append_role
append_role-IsStamp false role v h k = k
append_role-IsStamp true role v h (r, (e, k)) = elim (Bool-cases (ends_with role v)) [
  | inl f ↦ rw f (r, (e, k))
  | inr f ↦ rw f (
    r ++ role,
    (ap (λ t. t ++ role) e ∙ append_assoc (codes "stamp_") r role, All-append _ r role k h),
  )
]

with_roles-IsTag :
    (a w : Bool) (t : Option (Text × Option Text)) → IsTag t → IsTag (with_roles a w t)
unfolding all is_ascii_alphanumeric is_ascii_digit is_ascii_alphabetic
with_roles-IsTag a w none h = tt
with_roles-IsTag a w (some (v, k)) h = (
  append_role-IsStamp w (codes "_winner") _ (all-IsCodeChar (codes "_winner") refl)
      (append_role-IsStamp a (codes "_staff") v (all-IsCodeChar (codes "_staff") refl) h.0),
  h.1,
)

-- Whatever a product is named, the code of its stamp is the prefix `stamp_` and ASCII letters, digits and
-- underscores, and the keyword that narrows the set is not empty.
pub parse_stamp_tag-IsTag : (u : Unicode) (name : Text) → IsTag (parse_stamp_tag u name)
unfolding parse_stamp_tag
parse_stamp_tag-IsTag u name =
    let lower = fold_accents (u.lowercase name) in
    let staff = contains (codes "[staff]") lower in
    let winner = contains (codes "[winner]") lower in
    let group = last_group (after_last b'(' lower) in
    with_roles-IsTag staff winner (base_tag staff winner group) (base_tag-IsTag staff winner group)
