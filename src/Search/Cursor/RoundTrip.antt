-- ===== src/Search/Cursor/RoundTrip.antt =====
-- crates/pkdump-db/src/search.rs: a token and the values in it, read back.
use pokedumpster.Base.{
  ℕ, ◌/◌, ◌%◌, ◌<◌, ◌≤◌, ◌≡◌, refl, none, some, List, [], ◌∷◌, true, ltb, All, arith, byte_len, all,
  len_utf8,
}
use pokedumpster.Card.{ℤ}
use pokedumpster.Search.Value.{Value, integer, real, text, blob}
use pokedumpster.Search.Cursor.{
  Cursor, Codec, hex_digit, hex, digit_of, byte_of, unhex, encode, decode, value_to_json,
  json_to_value, or_invalid,
}

digit_of-hex_digit : (d : ℕ) → d < 16 → digit_of (hex_digit d) ≡ some d
unfolding digit_of hex_digit
digit_of-hex_digit d h = ground arith

hex_digit_bounds : (d : ℕ) → d < 16 → (48 ≤ hex_digit d) × (hex_digit d < 128)
unfolding hex_digit
hex_digit_bounds d h = ground arith

byte_of-hex_digit : (b : ℕ) → b < 256 → byte_of (hex_digit (b / 16)) (hex_digit (b % 16)) ≡ some b
unfolding byte_of
byte_of-hex_digit b h = ground (
  arith,
  digit_of-hex_digit (b / 16) (omega arith),
  digit_of-hex_digit (b % 16) (omega arith),
  hex_digit_bounds (b / 16) (omega arith),
)

abbrev pub AreBytes : List ℕ → Type 0
AreBytes = All λ b. b < 256

pub unhex-hex : (bs : List ℕ) → AreBytes bs → unhex (hex bs) ≡ some bs
unfolding unhex hex
unhex-hex [] h = refl
unhex-hex (b ∷ bs) h = rw (byte_of-hex_digit b h.0, unhex-hex bs h.1) refl

hex_ascii : (bs : List ℕ) → AreBytes bs → all (λ c. ltb c 128) (hex bs) ≡ true
unfolding all hex
hex_ascii [] h = refl
hex_ascii (b ∷ bs) h = ground (
  arith,
  hex_digit_bounds (b / 16) (omega (arith, h.0)),
  hex_digit_bounds (b % 16) (omega arith),
  hex_ascii bs h.1,
)

len_utf8-hex_digit : (d : ℕ) → d < 16 → len_utf8 (hex_digit d) ≡ 1
unfolding len_utf8
len_utf8-hex_digit d h = ground (arith, hex_digit_bounds d h)

hex_even : (bs : List ℕ) → AreBytes bs → byte_len (hex bs) % 2 ≡ 0
unfolding byte_len hex
hex_even [] h = refl
hex_even (b ∷ bs) h = omega (
  arith,
  len_utf8-hex_digit (b / 16) (omega (arith, h.0)),
  len_utf8-hex_digit (b % 16) (omega arith),
  hex_even bs h.1,
)

module _ {F N : Type 0} (codec : Codec F N) where
  -- The token of every cursor is decoded to what `serde_json` reads of the bytes that it has written of
  -- the cursor, or refused as invalid where it reads nothing of them.
  pub decode-encode :
      (c : Cursor F N)
      → AreBytes (codec.to_vec c)
      → decode codec (encode codec c) ≡ or_invalid (codec.from_slice (codec.to_vec c))
  unfolding decode encode
  decode-encode c h =
      rw (hex_even (codec.to_vec c) h, hex_ascii (codec.to_vec c) h, unhex-hex (codec.to_vec c) h)
        refl

  -- A value that JSON keeps: no blob, and no number that is not finite.
  abbrev pub IsKept : Value F → Type 0
  IsKept (real x) = (n : N) × (codec.from_f64 x ≡ some n)
  IsKept (blob b) = ⊥
  IsKept v = Unit

  -- How `serde_json` reads its numbers.
  pub record IsCodec : Type 0 where
    pub as_i64-from_i64 : (i : ℤ) → codec.as_i64 (codec.from_i64 i) ≡ some i
    pub as_i64-from_f64 : (x : F) (n : N) → codec.from_f64 x ≡ some n → codec.as_i64 n ≡ none
    pub as_f64-from_f64 : (x : F) (n : N) → codec.from_f64 x ≡ some n → codec.as_f64 n ≡ some x

  pub json_to_value-value_to_json :
      IsCodec → (v : Value F) → IsKept v → json_to_value codec (value_to_json codec v) ≡ v
  unfolding json_to_value value_to_json
  json_to_value-value_to_json laws Value.null h = refl
  json_to_value-value_to_json laws (integer i) h = rw (laws.as_i64-from_i64 i) refl
  json_to_value-value_to_json laws (real x) (n, e) =
      rw (e, laws.as_i64-from_f64 x n e, laws.as_f64-from_f64 x n e) refl
  json_to_value-value_to_json laws (text t) h = refl
  json_to_value-value_to_json laws (blob b) h = absurd h
