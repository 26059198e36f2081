-- ===== src/Search/Cursor.antt =====
-- crates/pkdump-db/src/search.rs: the cursor of a keyset walk and its token. `serde_json` and SHA-256
-- are parameters.
use pokedumpster.Base.{
  Text, codes, ℕ, zero, suc, ◌+◌, ◌-◌, ◌*◌, ◌/◌, ◌%◌, ◌<◌, ◌≤◌, ◌≡◌, Option, none, some, List, [],
  ◌∷◌, ◌++◌, Bool, true, false, ◌&&◌, ◌||◌, not, ltb, leb, ◌==◌, if◌then◌else◌, length, is_some,
  take, map, All, byte_len, all, equal,
}
use pokedumpster.Card.{ℤ}
use pokedumpster.Search.Value
use pokedumpster.Search.Value.{Value, integer, real, text, blob}
use pokedumpster.Search.Compile.{CompiledSearch}
use pokedumpster.Search.Order.{where_clause, order_keys, sql}
use pokedumpster.Search.Flag.{Dir}
pub mod RoundTrip

-- What the search can answer in place of a page.
pub data DbError : Type 0 where
  invalid : Text → DbError
  database : Text → DbError

-- `panic` is an index out of range.
pub data Result (A : Type 0) : Type 0 where
  ok : A → Result A
  err : DbError → Result A
  panic : Result A

infixl 5 ◌>>=◌
abbrev pub ◌>>=◌ : {A B : Type 0} → Result A → (A → Result B) → Result B
ok a >>= f = f a
err e >>= f = err e
panic >>= f = panic

-- `serde_json::Value`, over its numbers `N`; arrays and objects are `other`.
pub data Json (N : Type 0) : Type 0 where
  null other : Json N
  bool : Bool → Json N
  number : N → Json N
  string : Text → Json N

pub record Cursor (F N : Type 0) : Type 0 where
  pub fp : Text
  pub keys : List (Json N)
  pub total : ℤ
  pub total_value : Option F

-- What the code uses of `serde_json`, with `0.0` and the digest of a query's description.
pub record Codec (F N : Type 0) : Type 0 where
  pub from_i64 : ℤ → N
  pub from_f64 : F → Option N
  pub as_i64 : N → Option ℤ
  pub as_f64 : N → Option F
  pub zero_f64 : F
  pub to_vec : Cursor F N → List ℕ
  pub from_slice : List ℕ → Option (Cursor F N)
  pub digest : List Text → List ℕ
  pub debug : List (Value F) → Text

-- `{:02x}` of a byte.
unfoldable pub hex_digit : ℕ → ℕ
hex_digit d = if ltb d 10 then b'0' + d else b'a' + (d - 10)

unfoldable pub hex : List ℕ → Text
unfolding hex_digit
hex [] = []
hex (b ∷ bs) = hex_digit (b / 16) ∷ hex_digit (b % 16) ∷ hex bs

-- `char::to_digit(16)`.
unfoldable pub digit_of : ℕ → Option ℕ
digit_of c =
    if leb b'0' c && leb c b'9'
    then some (c - b'0')
    else if leb b'a' c && leb c b'f'
    then some (c - b'a' + 10)
    else if leb b'A' c && leb c b'F'
    then some (c - b'A' + 10)
    else none

abbrev pub byte_from : Option ℕ → Option ℕ → Option ℕ
byte_from (some h) (some l) = some (h * 16 + l)
byte_from _ _ = none

-- `u8::from_str_radix(_, 16)` on two characters, which takes a sign in front.
unfoldable pub byte_of : ℕ → ℕ → Option ℕ
unfolding digit_of
byte_of a b = if a == b'+' then digit_of b else byte_from (digit_of a) (digit_of b)

abbrev pub cons_byte : Option ℕ → Option (List ℕ) → Option (List ℕ)
cons_byte (some b) (some bs) = some (b ∷ bs)
cons_byte _ _ = none

unfoldable pub unhex : Text → Option (List ℕ)
unfolding byte_of
unhex [] = some []
unhex (a ∷ []) = none
unhex (a ∷ b ∷ rest) = cons_byte (byte_of a b) (unhex rest)

abbrev pub or_invalid : {A : Type 0} → Option A → Result A
or_invalid none = err (invalid (codes "cursor is not valid"))
or_invalid (some a) = ok a

module _ {F N : Type 0} (codec : Codec F N) where
  unfoldable pub encode : Cursor F N → Text
  unfolding hex
  encode c = hex (codec.to_vec c)

  abbrev pub from_bytes : Option (List ℕ) → Result (Cursor F N)
  from_bytes none = err (invalid (codes "cursor is not valid"))
  from_bytes (some bytes) = or_invalid (codec.from_slice bytes)

  unfoldable pub decode : Text → Result (Cursor F N)
  unfolding unhex byte_len all
  decode token =
      if not (byte_len token % 2 == 0) || not (all (λ c. ltb c 128) token)
      then err (invalid (codes "cursor is not valid"))
      else from_bytes (unhex token)

  unfoldable pub key_texts : List (Text × Dir) → List Text
  unfolding sql
  key_texts [] = []
  key_texts ((expr, dir) ∷ keys) = (codes "|" ++ expr ++ codes " " ++ sql dir) ∷ key_texts keys

  unfoldable pub fingerprint : CompiledSearch F → Text
  unfolding hex key_texts where_clause order_keys
  fingerprint c =
      hex (take 8 (codec.digest (where_clause c ∷ codec.debug c.params ∷ key_texts (order_keys c))))

  abbrev pub real_json : Option N → Json N
  real_json none = null
  real_json (some n) = number n

  unfoldable pub value_to_json : Value F → Json N
  value_to_json Value.null = null
  value_to_json (integer i) = number (codec.from_i64 i)
  value_to_json (real x) = real_json (codec.from_f64 x)
  value_to_json (text t) = string t
  value_to_json (blob b) = null

  abbrev pub unwrap_f64 : Option F → Value F
  unwrap_f64 none = real codec.zero_f64
  unwrap_f64 (some x) = real x

  abbrev pub number_value : Option ℤ → Option F → Value F
  number_value (some i) f = integer i
  number_value none f = unwrap_f64 f

  unfoldable pub json_to_value : Json N → Value F
  json_to_value (number n) = number_value (codec.as_i64 n) (codec.as_f64 n)
  json_to_value (string s) = text s
  json_to_value _ = Value.null
