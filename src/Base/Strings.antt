-- ===== src/Base/Strings.antt =====
-- Text as a list of code points, with the operations of Rust's `str` that the program uses.
use Prim.Native.Char.{code}
use Prim.Native.Nat.{ℕ, ◌+◌, ◌-◌}
use Prim.Native.String.{String}
use mathlib.Core.Path.{◌≡◌, refl}
use mathlib.Core.Logic.{◌↔◌}
use mathlib.Core.Bool.{Bool, true, false, ◌&&◌, ◌||◌}
use mathlib.Core.Option.{Option, none, some}
use mathlib.Core.List.{List, [], ◌∷◌, map}
use native.Mathlib.Omega.{arith}
use pokedumpster.Base.Tests.{◌==◌, ltb, is_some, if◌then◌else◌}
use pokedumpster.Base.Lists.{is_empty, All}
use pokedumpster.Base.Chars.{
  len_utf8, to_ascii_lowercase_char, to_ascii_uppercase_char, to_ascii_lowercase_char_idem,
  to_ascii_lowercase_char-to_ascii_uppercase_char, is_whitespace,
}

abbrev pub Text : Type 0
Text = List ℕ

-- A literal of the source.
abbrev pub codes : String → Text
codes String.[] = []
codes (String.◌∷◌ c s) = code c ∷ codes s

unfoldable pub equal : Text → Text → Bool
equal [] [] = true
equal (x ∷ xs) (y ∷ ys) = x == y && equal xs ys
equal _ _ = false

pub equal_iff : (a b : Text) → (equal a b ≡ true) ↔ (a ≡ b)
unfolding equal
equal_iff (x ∷ a) (y ∷ b) = ground (arith, equal_iff a b)
equal_iff _ _ = ground arith

pub equal_refl : (a : Text) → equal a a ≡ true
equal_refl a = (equal_iff a a).1 refl

-- `[T]::contains`, of texts.
unfoldable pub includes : List Text → Text → Bool
unfolding equal
includes [] s = false
includes (k ∷ ks) s = equal k s || includes ks s

-- `str::len`, in bytes.
unfoldable pub byte_len : Text → ℕ
byte_len [] = 0
byte_len (c ∷ cs) = len_utf8 c + byte_len cs

unfoldable pub to_ascii_lowercase : Text → Text
unfolding to_ascii_lowercase_char
to_ascii_lowercase s = map to_ascii_lowercase_char s

unfoldable pub to_ascii_uppercase : Text → Text
unfolding to_ascii_uppercase_char
to_ascii_uppercase s = map to_ascii_uppercase_char s

unfoldable pub eq_ignore_ascii_case : Text → Text → Bool
unfolding to_ascii_lowercase equal
eq_ignore_ascii_case a b = equal (to_ascii_lowercase a) (to_ascii_lowercase b)

pub to_ascii_lowercase_idem :
    (s : Text) → to_ascii_lowercase (to_ascii_lowercase s) ≡ to_ascii_lowercase s
unfolding to_ascii_lowercase
to_ascii_lowercase_idem [] = refl
to_ascii_lowercase_idem (c ∷ s) = cc (to_ascii_lowercase_char_idem c, to_ascii_lowercase_idem s)

pub to_ascii_lowercase-to_ascii_uppercase :
    (s : Text) → to_ascii_lowercase (to_ascii_uppercase s) ≡ to_ascii_lowercase s
unfolding to_ascii_lowercase to_ascii_uppercase
to_ascii_lowercase-to_ascii_uppercase [] = refl
to_ascii_lowercase-to_ascii_uppercase (c ∷ s) =
    cc (to_ascii_lowercase_char-to_ascii_uppercase_char c, to_ascii_lowercase-to_ascii_uppercase s)

-- `str::trim` and its halves.
unfoldable pub trim_start : Text → Text
trim_start [] = []
trim_start (c ∷ cs) = let rest = trim_start cs in if is_whitespace c then rest else c ∷ cs

unfoldable pub trim_end : Text → Text
trim_end [] = []
trim_end (c ∷ cs) =
    let rest = trim_end cs in if is_whitespace c && is_empty rest then [] else c ∷ rest

unfoldable pub trim : Text → Text
unfolding trim_start trim_end
trim s = trim_end (trim_start s)

unfoldable pub strip_prefix : Text → Text → Option Text
strip_prefix [] s = some s
strip_prefix (p ∷ ps) [] = none
strip_prefix (p ∷ ps) (c ∷ cs) = let rest = strip_prefix ps cs in if p == c then rest else none

-- `str::split_once`: what stands before and behind the first occurrence.
abbrev pub behind : ℕ → Option (Text × Text) → Option (Text × Text)
behind c none = none
behind c (some (a, b)) = some (c ∷ a, b)

abbrev split_at : Option Text → Option (Text × Text) → Option (Text × Text)
split_at none later = later
split_at (some r) later = some ([], r)

unfoldable pub split_once : Text → Text → Option (Text × Text)
unfolding strip_prefix
split_once p [] = split_at (strip_prefix p []) none
split_once p (c ∷ cs) =
    let later = behind c (split_once p cs) in split_at (strip_prefix p (c ∷ cs)) later

-- `str::contains`.
unfoldable pub contains : Text → Text → Bool
unfolding split_once
contains p s = is_some (split_once p s)

-- `str::strip_suffix` and `str::ends_with`.
abbrev cons_some : ℕ → Option Text → Option Text
cons_some c none = none
cons_some c (some s) = some (c ∷ s)

unfoldable pub strip_suffix : Text → Text → Option Text
unfolding equal
strip_suffix suffix [] = if equal [] suffix then some [] else none
strip_suffix suffix (c ∷ cs) =
    let later = cons_some c (strip_suffix suffix cs) in
    if equal (c ∷ cs) suffix then some [] else later

unfoldable pub ends_with : Text → Text → Bool
unfolding strip_suffix
ends_with suffix s = is_some (strip_suffix suffix s)

-- What stands behind the last occurrence of a character (`rfind`).
unfoldable pub after_last : ℕ → Text → Option Text
after_last d [] = none
after_last d (c ∷ cs) =
    let later = after_last d cs in if is_some later then later else if c == d then some cs else none

-- `split(d).next()`: what stands before the first occurrence of a character, or all of the text.
unfoldable pub before_first : ℕ → Text → Text
before_first d [] = []
before_first d (c ∷ cs) = let rest = before_first d cs in if c == d then [] else c ∷ rest

-- `str::rsplit_once`: what stands before and behind the last occurrence of a character.
unfoldable pub rsplit_once : ℕ → Text → Option (Text × Text)
rsplit_once d [] = none
rsplit_once d (c ∷ cs) =
    let later = rsplit_once d cs in
    if is_some later then behind c later else if c == d then some ([], cs) else none

-- `str::trim_matches`, with its halves.
unfoldable pub trim_start_matches : (ℕ → Bool) → Text → Text
trim_start_matches p [] = []
trim_start_matches p (c ∷ cs) = let rest = trim_start_matches p cs in if p c then rest else c ∷ cs

unfoldable pub trim_end_matches : (ℕ → Bool) → Text → Text
trim_end_matches p [] = []
trim_end_matches p (c ∷ cs) =
    let rest = trim_end_matches p cs in if p c && is_empty rest then [] else c ∷ rest

unfoldable pub trim_matches : (ℕ → Bool) → Text → Text
unfolding trim_start_matches trim_end_matches
trim_matches p s = trim_end_matches p (trim_start_matches p s)

-- The character that begins at a byte offset. Where it is ASCII, it is the byte there.
unfoldable pub char_at_byte : ℕ → Text → Option ℕ
char_at_byte i [] = none
char_at_byte i (c ∷ cs) =
    let later = char_at_byte (i - len_utf8 c) cs in
    if i == 0 then some c else if ltb i (len_utf8 c) then none else later

-- Whether some character satisfies a test, and whether all do.
unfoldable pub any : (ℕ → Bool) → Text → Bool
any p [] = false
any p (c ∷ cs) = p c || any p cs

unfoldable pub all : (ℕ → Bool) → Text → Bool
all p [] = true
all p (c ∷ cs) = p c && all p cs

-- `chars().filter(...).collect()`.
unfoldable pub filter : (ℕ → Bool) → Text → Text
filter p [] = []
filter p (c ∷ cs) = let rest = filter p cs in if p c then c ∷ rest else rest

-- A text without white space is left alone by `trim`.
abbrev pub IsSolid : Text → Type 0
IsSolid s = All (λ c. is_whitespace c ≡ false) s

trim_start-IsSolid : (s : Text) → IsSolid s → trim_start s ≡ s
unfolding trim_start
trim_start-IsSolid [] h = refl
trim_start-IsSolid (c ∷ s) h = rw (h.0) refl

trim_end-IsSolid : (s : Text) → IsSolid s → trim_end s ≡ s
unfolding trim_end
trim_end-IsSolid [] h = refl
trim_end-IsSolid (c ∷ s) h = rw (h.0, trim_end-IsSolid s h.1) refl

pub trim-IsSolid : (s : Text) → IsSolid s → trim s ≡ s
unfolding trim
trim-IsSolid s h = rw (trim_start-IsSolid s h) (trim_end-IsSolid s h)
