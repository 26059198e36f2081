-- ===== src/Natural.antt =====
-- crates/pkdump-core/src/natural.rs: the natural order of user-given names. Texts compare by code
-- points, which is the order of their UTF-8 bytes.
pub mod Laws
use Prim.Native.Nat.{compare, Ordering}
use pokedumpster.Base.{Text, is_ascii_digit, ℕ, List, [], ◌∷◌, ◌++◌, length, if◌then◌else◌}
use pokedumpster.Base.Digits.{strip_zeros, compare_digits}
use pokedumpster.Base.Order.{lex, then_with}

pub data Chunk : Type 0 where
  digits : Text → Chunk
  text : Text → Chunk

-- `char::to_lowercase` is the Unicode mapping, of which the order needs nothing.
module _ (to_lowercase : ℕ → Text) where
  -- A chunk of one character.
  unfoldable pub new_chunk : ℕ → Chunk
  new_chunk ch = if is_ascii_digit ch then digits (ch ∷ []) else text (to_lowercase ch)

  -- The last chunk with a character behind it: itself longer, or a new chunk after it.
  unfoldable pub grow : Chunk → ℕ → List Chunk
  unfolding new_chunk
  grow (digits d) ch =
      if is_ascii_digit ch then digits (d ++ (ch ∷ [])) ∷ [] else digits d ∷ new_chunk ch ∷ []
  grow (text t) ch =
      if is_ascii_digit ch then text t ∷ new_chunk ch ∷ [] else text (t ++ to_lowercase ch) ∷ []

  -- One turn of the loop of `chunks`, on the list so far.
  unfoldable pub push_char : List Chunk → ℕ → List Chunk
  unfolding grow
  push_char [] ch = new_chunk ch ∷ []
  push_char (last ∷ []) ch = grow last ch
  push_char (c ∷ d ∷ cs) ch = c ∷ push_char (d ∷ cs) ch

  unfoldable pub chunks_from : List Chunk → Text → List Chunk
  unfolding push_char
  chunks_from out [] = out
  chunks_from out (ch ∷ s) = chunks_from (push_char out ch) s

  unfoldable pub chunks : Text → List Chunk
  unfolding chunks_from
  chunks s = chunks_from [] s

-- The comparison of two chunks in the loop of `natural_cmp`.
unfoldable pub compare_chunk : Chunk → Chunk → Ordering
compare_chunk (digits p) (digits q) = compare_digits (strip_zeros p) (strip_zeros q)
compare_chunk (text p) (text q) = lex compare p q
compare_chunk (digits p) (text q) = Ordering.lt
compare_chunk (text p) (digits q) = Ordering.gt

-- The loop over the zipped chunks: the first comparison that decides, if any.
unfoldable pub zip_compare : List Chunk → List Chunk → Ordering
unfolding compare_chunk
zip_compare (x ∷ xs) (y ∷ ys) = let rest = zip_compare xs ys in then_with (compare_chunk x y) rest
zip_compare _ _ = Ordering.eq

unfoldable pub natural_cmp : (ℕ → Text) → Text → Text → Ordering
unfolding zip_compare chunks
natural_cmp to_lowercase a b =
    let ca = chunks to_lowercase a in
    let cb = chunks to_lowercase b in
    then_with (zip_compare ca cb) (compare (length ca) (length cb))
