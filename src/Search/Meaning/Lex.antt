-- ===== src/Search/Meaning/Lex.antt =====
-- The laws of the order of rows.
use Prim.Native.Nat.{Ordering}
use pokedumpster.Base.{Text, ◌≡◌, refl, List, [], ◌∷◌, ap}
use pokedumpster.Search.Value.{Value, null}
use pokedumpster.Search.Flag.{Dir, asc, desc}
use pokedumpster.Search.Meaning.{flip, null_first, key_order, then_by, row_order}

-- What is asked of the database's order of two values.
pub record IsOrder {F : Type 0} (order : Value F → Value F → Ordering) : Type 0 where
  pub same : (v : Value F) → order v v ≡ Ordering.eq
  pub flipped : (v w : Value F) → order w v ≡ flip (order v w)

flip-flip : (o : Ordering) → flip (flip o) ≡ o
flip-flip Ordering.lt = refl
flip-flip Ordering.eq = refl
flip-flip Ordering.gt = refl

flip-then_by : (o later : Ordering) → then_by (flip o) (flip later) ≡ flip (then_by o later)
flip-then_by Ordering.lt later = refl
flip-then_by Ordering.eq later = refl
flip-then_by Ordering.gt later = refl

module _ {F : Type 0} (order : Value F → Value F → Ordering) (laws : IsOrder order) where
  null_first-same : (v : Value F) → null_first order v v ≡ Ordering.eq
  unfolding null_first
  null_first-same null = refl
  null_first-same v = laws.same v

  null_first-flipped : (v w : Value F) → null_first order w v ≡ flip (null_first order v w)
  unfolding null_first
  null_first-flipped null null = refl
  null_first-flipped null w = refl
  null_first-flipped v null = refl
  null_first-flipped v w = laws.flipped v w

  key_order-same : (dir : Dir) (v : Value F) → key_order order dir v v ≡ Ordering.eq
  unfolding key_order
  key_order-same asc v = null_first-same v
  key_order-same desc v = rw (null_first-same v) refl

  key_order-flipped :
      (dir : Dir) (v w : Value F) → key_order order dir w v ≡ flip (key_order order dir v w)
  unfolding key_order
  key_order-flipped asc v w = null_first-flipped v w
  key_order-flipped desc v w = ap flip (null_first-flipped v w)

  pub row_order-same :
      (keys : List (Text × Dir)) (vs : List (Value F)) → row_order order keys vs vs ≡ Ordering.eq
  unfolding row_order
  row_order-same [] vs = refl
  row_order-same (key ∷ keys) [] = refl
  row_order-same ((expr, dir) ∷ keys) (v ∷ vs) = rw (key_order-same dir v) (row_order-same keys vs)

  pub row_order-flipped :
      (keys : List (Text × Dir)) (vs ws : List (Value F))
      → row_order order keys ws vs ≡ flip (row_order order keys vs ws)
  unfolding row_order
  row_order-flipped [] vs ws = refl
  row_order-flipped (key ∷ keys) [] [] = refl
  row_order-flipped (key ∷ keys) [] (w ∷ ws) = refl
  row_order-flipped (key ∷ keys) (v ∷ vs) [] = refl
  row_order-flipped ((expr, dir) ∷ keys) (v ∷ vs) (w ∷ ws) =
      rw (key_order-flipped dir v w, row_order-flipped keys vs ws)
        (flip-then_by (key_order order dir v w) (row_order order keys vs ws))
